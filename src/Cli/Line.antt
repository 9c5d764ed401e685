-- ===== src/Cli/Line.antt =====
-- Every set of options within the bounds can be written as a command line.
use sy_se_ba.Prelude.{
  ◌≡◌, refl, sym, ap, ◌∙◌, subst, Bool, true, false, ◌&&◌, ◌||◌, none, List, [], ◌∷◌, if◌then◌else◌,
  arith,
}
use sy_se_ba.Prelude.Text.{Text, codes, streq, streq→eq, starts_with}
use sy_se_ba.Cli.{ready, finish_parse, parse_loop, cli_parse, wrong, parse_argument}
use sy_se_ba.Cli.Settings.{Reals, Options, cli_command_valid, options_defaults}
use sy_se_ba.Cli.Within.{IsWithin}
use sy_se_ba.Cli.Values.{command_line, IsRefresh}
use sy_se_ba.Cli.Arguments.{
  parse_config, parse_web_host, parse_web_token_file, parse_web_token, parse_lockfile,
  parse_db_path, parse_path, parse_search, parse_web_port, parse_lines, parse_page_size, parse_page,
  parse_lang, parse_sort, parse_direction, parse_refresh, flag_silent, flag_web, flag_web_only,
  flag_no_web_auth, flag_no_initial_sync, flag_output_json, flag_overwrite, flag_rename,
}

or_elim {ℓ} : {P : Type ℓ} (a b : Bool) → a || b ≡ true → (a ≡ true → P) → (b ≡ true → P) → P
or_elim true b h f g = f refl
or_elim false b h f g = g h

module _ {D : Type 0} (reals : Reals D) (rest : List Text) (o : Options D) where
  Commanded : Text → Type 0
  Commanded c =
      parse_loop reals (c ∷ rest) false none o
      ≡ parse_loop reals rest true none (record o { command = c })

  -- Each of the commands is taken as one.
  parse_command : (c : Text) → cli_command_valid c ≡ true → Commanded c
  unfolding cli_command_valid parse_loop parse_argument streq starts_with Commanded
  parse_command c h =
      or_elim _ _ h
        (λ h.
          or_elim _ _ h
            (λ h.
              or_elim _ _ h
                (λ h.
                  or_elim _ _ h
                    (λ h.
                      or_elim _ _ h
                        (λ h.
                          or_elim _ _ h
                            (λ h.
                              or_elim _ _ h (named (codes "run") refl)
                                (named (codes "status") refl))
                            (named (codes "logs") refl))
                        (named (codes "config-check") refl))
                    (named (codes "restore-list") refl))
                (named (codes "restore-copy") refl))
            (named (codes "restore-browser") refl))
        (named (codes "service-install") refl)
    where
      named : (word : Text) → Commanded word → streq c word ≡ true → Commanded c
      named word k e = subst Commanded (sym (streq→eq c word e)) k

  parse_front :
      (daemon : Bool) (c : Text)
      → cli_command_valid c ≡ true
      → (daemon ≡ true → c ≡ codes "service-install")
      → o.create_daemon ≡ false
      → parse_loop reals ((if daemon then codes "--create-daemon" else c) ∷ rest) false none o
        ≡ parse_loop reals rest true none (record o { create_daemon = daemon; command = c })
  unfolding parse_loop parse_argument streq starts_with Commanded
  parse_front true c h k e =
      ap (λ t. parse_loop reals rest true none (record o { create_daemon = true; command = t }))
        (sym (k refl))
  parse_front false c h k e =
      parse_command c h
      ∙ ap (λ b. parse_loop reals rest true none (record o { create_daemon = b; command = c })) e

-- What an order of the daemon, a strategy and the refresh need.
pub record IsWritable {D : Type 0} (reals : Reals D) (o : Options D) (refresh : Text) : Type 0 where
  pub within : IsWithin o
  pub refreshed : IsRefresh reals refresh o.console_refresh
  pub installs : o.create_daemon ≡ true → o.command ≡ codes "service-install"
  pub not_windows : o.windows_service ≡ false
  pub one_strategy : o.overwrite && o.rename ≡ false

module _ {D : Type 0} (reals : Reals D) where
  parse_loop-command_line :
      (o : Options D) (refresh : Text)
      → IsWritable reals o refresh
      → parse_loop reals (command_line o refresh) false none (options_defaults reals)
        ≡ parse_loop reals [] true none (record o { windows_service = false })
  unfolding command_line options_defaults
  parse_loop-command_line o refresh w =
      parse_front reals _ _ o.create_daemon o.command w.within.command w.installs refl
      ∙ parse_config reals _ true _ o.config_path w.within.config_path
      ∙ parse_web_host reals _ true _ o.web_host w.within.web_host
      ∙ parse_web_token_file reals _ true _ o.token_path w.within.token_path
      ∙ parse_web_token reals _ true _ o.explicit_token w.within.explicit_token
      ∙ parse_lockfile reals _ true _ o.lock_path w.within.lock_path
      ∙ parse_db_path reals _ true _ o.db_path w.within.db_path
      ∙ parse_path reals _ true _ o.path w.within.path
      ∙ parse_search reals _ true _ o.search w.within.search
      ∙ parse_lang reals _ true _ o.language
      ∙ parse_web_port reals _ true _ o.web_port w.within.web_port.0 w.within.web_port.1
      ∙ parse_lines reals _ true _ o.lines w.within.lines.0 w.within.lines.1
      ∙ parse_page_size reals _ true _ o.page_size w.within.page_size.0 w.within.page_size.1
      ∙ parse_page reals _ true _ o.page w.within.page.0 (omega (arith, w.within.page.1))
      ∙ parse_sort reals _ true _ o.sort w.within.sort
      ∙ parse_direction reals _ true _ o.direction w.within.direction
      ∙ parse_refresh reals _ true _ refresh o.console_refresh w.refreshed
      ∙ flag_silent reals _ true _ o.silent refl
      ∙ flag_web reals _ true _ o.web refl
      ∙ flag_web_only reals _ true _ o.web_only refl
      ∙ flag_no_web_auth reals _ true _ o.no_web_auth refl
      ∙ flag_no_initial_sync reals _ true _ o.no_initial_sync refl
      ∙ flag_output_json reals _ true _ o.output_json refl
      ∙ flag_overwrite reals _ true _ o.overwrite refl
      ∙ flag_rename reals _ true _ o.rename refl

  -- For options within their bounds with one strategy at most, a refresh text that strtod reads
  -- as the refresh between 0 and 3600, the command service-install if the daemon is to be
  -- created, and no Windows service, syseba_cli_parse of the options written as arguments, from
  -- the defaults, succeeds and yields these options.
  pub cli_parse-command_line :
      (o : Options D) (refresh : Text)
      → IsWritable reals o refresh
      → cli_parse reals (command_line o refresh) (options_defaults reals) ≡ ready o
  unfolding cli_parse parse_loop finish_parse
  cli_parse-command_line o refresh w =
      parse_loop-command_line o refresh w
      ∙ ap (λ b. if b then wrong else ready (record o { windows_service = false })) w.one_strategy
      ∙ ap (λ b. ready (record o { windows_service = b })) (sym w.not_windows)
