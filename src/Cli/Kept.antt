-- ===== src/Cli/Kept.antt =====
-- What a successful parse of the command line guarantees of the options.
use sy_se_ba.Prelude.{
  ◌≡◌, refl, subst, Bool, true, false, ◌&&◌, ◌||◌, not, Option, none, some, List, [], ◌∷◌,
  if◌then◌else◌, arith, if_both, if_either,
}
use sy_se_ba.Prelude.Text.{Text, codes, streq, starts_with}
use sy_se_ba.Cli.{
  Parsed, wrong, ready, Round, stop, go_on, want, valued_option, parse_option, parse_argument,
  finish_parse, parse_loop, cli_parse, set_flag,
}
use sy_se_ba.Cli.Settings.{
  Reals, Options, cli_command_valid, Valued, config, lang, web_token_file, web_token, lockfile,
  valued, after_char, options_defaults, set_option,
}
use sy_se_ba.Cli.Within.{
  IsWithin, options_defaults-IsWithin, set_config-IsWithin, set_lang-IsWithin,
  set_web_host-IsWithin, set_web_port-IsWithin, set_web_token_file-IsWithin, set_web_token-IsWithin,
  set_lockfile-IsWithin, set_db_path-IsWithin, set_console_refresh-IsWithin, set_lines-IsWithin,
  set_path-IsWithin, set_search-IsWithin, set_page_size-IsWithin, set_page-IsWithin,
  set_sort-IsWithin, set_direction-IsWithin,
}

module _ {D : Type 0} (reals : Reals D) where
  set_option-IsWithin :
      (name : Valued) (value : Text) (o p : Options D)
      → IsWithin o
      → set_option reals name value o ≡ some p
      → IsWithin p
  unfolding set_option
  set_option-IsWithin config value o p w h = set_config-IsWithin reals value o p w h
  set_option-IsWithin lang value o p w h = set_lang-IsWithin reals value o p w h
  set_option-IsWithin Valued.web_host value o p w h = set_web_host-IsWithin reals value o p w h
  set_option-IsWithin Valued.web_port value o p w h = set_web_port-IsWithin reals value o p w h
  set_option-IsWithin web_token_file value o p w h = set_web_token_file-IsWithin reals value o p w h
  set_option-IsWithin web_token value o p w h = set_web_token-IsWithin reals value o p w h
  set_option-IsWithin lockfile value o p w h = set_lockfile-IsWithin reals value o p w h
  set_option-IsWithin Valued.db_path value o p w h = set_db_path-IsWithin reals value o p w h
  set_option-IsWithin Valued.console_refresh value o p w h =
      set_console_refresh-IsWithin reals value o p w h
  set_option-IsWithin Valued.lines value o p w h = set_lines-IsWithin reals value o p w h
  set_option-IsWithin Valued.path value o p w h = set_path-IsWithin reals value o p w h
  set_option-IsWithin Valued.search value o p w h = set_search-IsWithin reals value o p w h
  set_option-IsWithin Valued.page_size value o p w h = set_page_size-IsWithin reals value o p w h
  set_option-IsWithin Valued.page value o p w h = set_page-IsWithin reals value o p w h
  set_option-IsWithin Valued.sort value o p w h = set_sort-IsWithin reals value o p w h
  set_option-IsWithin Valued.direction value o p w h = set_direction-IsWithin reals value o p w h

  set_flag-IsWithin :
      (argument : Text) (o p : Options D)
      → IsWithin o
      → set_flag reals argument o ≡ some p
      → IsWithin p
  unfolding set_flag
  set_flag-IsWithin argument o p w h = ground arith

  installed :
      (o : Options D)
      → IsWithin o
      → IsWithin (record o { create_daemon = true; command = codes "service-install" })
  unfolding cli_command_valid streq
  installed o w = ground arith

  commanded :
      (o : Options D) (argument : Text)
      → IsWithin o
      → cli_command_valid argument ≡ true
      → IsWithin (record o { command = argument })
  commanded o argument w h = ground arith

  -- Options that are handed to the program are within their bounds, and name one strategy at most.
  Fine : Parsed D → Type 0
  Fine (ready o) = IsWithin o × (o.overwrite && o.rename ≡ false)
  Fine _ = Unit {0}

  RoundFine : Round D → Type 0
  RoundFine (stop parsed) = Fine parsed
  RoundFine (go_on set o) = IsWithin o
  RoundFine (want name) = Unit {0}

  valued_option-Fine :
      (name : Valued) (argument : Text) (set : Bool) (o : Options D)
      → IsWithin o
      → RoundFine (valued_option reals name argument set o)
  unfolding valued_option RoundFine Fine
  valued_option-Fine name argument set o w = by_value (after_char b'=' argument)
    where
      by_result :
          (value : Text) (r : Option (Options D))
          → set_option reals name value o ≡ r
          → RoundFine (elim r [ none ↦ stop wrong | some p ↦ go_on set p ])
      by_result value none e = tt
      by_result value (some p) e = set_option-IsWithin name value o p w e

      by_value :
          (v : Option Text)
          → RoundFine (elim v [
            | none ↦ want name
            | some value ↦ elim (set_option reals name value o) [
              | none ↦ stop wrong
              | some p ↦ go_on set p
            ]
          ])
      by_value none = tt
      by_value (some value) = by_result value (set_option reals name value o) refl

  parse_option-Fine :
      (argument : Text) (set : Bool) (o : Options D)
      → IsWithin o
      → RoundFine (parse_option reals argument set o)
  unfolding parse_option RoundFine Fine
  parse_option-Fine argument set o w = by_flag (set_flag reals argument o) refl
    where
      by_name :
          (v : Option Valued)
          → RoundFine
              (elim v [ none ↦ stop wrong | some name ↦ valued_option reals name argument set o ])
      by_name none = tt
      by_name (some name) = valued_option-Fine name argument set o w

      by_flag :
          (f : Option (Options D))
          → set_flag reals argument o ≡ f
          → RoundFine (elim f [
            | some p ↦ go_on set p
            | none ↦
                if streq argument (codes "--create-daemon")
                then go_on true
                    (record o { create_daemon = true; command = codes "service-install" })
                else elim (valued argument) [
                  | none ↦ stop wrong
                  | some name ↦ valued_option reals name argument set o
                ]
          ])
      by_flag (some p) e = set_flag-IsWithin argument o p w e
      by_flag none e =
          if_both RoundFine (streq argument (codes "--create-daemon")) _ _ (installed o w)
            (by_name (valued argument))

  parse_argument-Fine :
      (argument : Text) (set : Bool) (o : Options D)
      → IsWithin o
      → RoundFine (parse_argument reals argument set o)
  unfolding parse_argument RoundFine Fine
  parse_argument-Fine argument set o w =
      if_both RoundFine (streq argument (codes "--help") || streq argument (codes "-h")) _ _ tt (
        if_both RoundFine (streq argument (codes "--version") || streq argument (codes "-V")) _ _ tt
          (if_both RoundFine (not (starts_with (codes "-") argument)) _ _
            (if_either RoundFine (set || not (cli_command_valid argument)) _ _ (λ _. tt)
              (λ e. commanded o argument w (known set (cli_command_valid argument) e)))
            (parse_option-Fine argument set o w)))
    where
      known : (s c : Bool) → s || not c ≡ false → c ≡ true
      known s c h = ground arith

  parse_loop-Fine :
      (arguments : List Text) (set : Bool) (waiting : Option Valued) (o : Options D)
      → IsWithin o
      → Fine (parse_loop reals arguments set waiting o)
  unfolding parse_loop finish_parse Fine RoundFine
  parse_loop-Fine [] set none o w =
      if_either Fine (o.overwrite && o.rename) _ _ (λ _. tt) (λ e. (w, e))
  parse_loop-Fine [] set (some name) o w = tt
  parse_loop-Fine (argument ∷ rest) set none o w =
      by_round (parse_argument reals argument set o) (parse_argument-Fine argument set o w)
        (λ s p. parse_loop-Fine rest s none p) (λ name. parse_loop-Fine rest set (some name) o w)
    where
      by_round :
          (r : Round D)
          → RoundFine r
          → ((s : Bool) (p : Options D) → IsWithin p → Fine (parse_loop reals rest s none p))
          → ((name : Valued) → Fine (parse_loop reals rest set (some name) o))
          → Fine (elim r [
            | stop parsed ↦ parsed
            | go_on s p ↦ parse_loop reals rest s none p
            | want name ↦ parse_loop reals rest set (some name) o
          ])
      by_round (stop parsed) k go wait = k
      by_round (go_on s p) k go wait = go s p k
      by_round (want name) k go wait = wait name
  parse_loop-Fine (value ∷ rest) set (some name) o w =
      by_result (set_option reals name value o) refl (λ p. parse_loop-Fine rest set none p)
    where
      by_result :
          (r : Option (Options D))
          → set_option reals name value o ≡ r
          → ((p : Options D) → IsWithin p → Fine (parse_loop reals rest set none p))
          → Fine (elim r [ none ↦ wrong | some p ↦ parse_loop reals rest set none p ])
      by_result none e go = tt
      by_result (some p) e go = go p (set_option-IsWithin name value o p w e)

  -- If syseba_cli_parse returns 0 from the defaults, for any arguments, the command is one of the
  -- eight, every text fits its buffer, the port is 1 to 65535, the lines 1 to 2000, the page 1 to
  -- 2^32 - 1, the page size 1 to 250, sort and direction are among their words, and overwrite and
  -- rename are not both set.
  pub cli_parse-IsWithin :
      (arguments : List Text) (o : Options D)
      → cli_parse reals arguments (options_defaults reals) ≡ ready o
      → IsWithin o × (o.overwrite && o.rename ≡ false)
  unfolding cli_parse Fine
  cli_parse-IsWithin arguments o h = subst Fine h (
      parse_loop-Fine arguments false none (options_defaults reals)
        (options_defaults-IsWithin reals))
