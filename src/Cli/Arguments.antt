-- ===== src/Cli/Arguments.antt =====
-- One argument of the command line of src/cli.c, read by the loop.
use sy_se_ba.Prelude.{
  ℕ, ◌-◌, ◌^◌, ◌<◌, ◌≤◌, ◌≡◌, refl, ap, ◌∙◌, Bool, true, false, ◌||◌, none, some, List, ◌∷◌, ◌++◌,
  length,
}
use sy_se_ba.Prelude.Text.{Text, codes, streq, starts_with}
use sy_se_ba.Prelude.Number.{decimal}
use sy_se_ba.FilePath.{path_max}
use sy_se_ba.Web.Token.{token_max}
use sy_se_ba.Cli.{Parsed, parse_loop, Round, stop, go_on, want, wrong, parse_argument}
use sy_se_ba.Cli.Settings.{
  Language, it, en, Reals, Options, max_restore_page, Valued, config, web_token_file, web_token,
  lockfile, set_option,
}
use sy_se_ba.Cli.Values.{
  language_code, flag, set_config-short, set_web_host-short, set_web_token_file-short,
  set_web_token-short, set_lockfile-short, set_db_path-short, set_path-short, set_search-short,
  set_sort-known, set_direction-known, set_console_refresh-known, set_web_port-decimal,
  set_lines-decimal, set_page_size-decimal, set_page-decimal, IsRefresh,
}

module _ {D : Type 0} (reals : Reals D) (rest : List Text) (set : Bool) (o : Options D) where
  -- What the loop does after a round.
  after_round : Round D → Parsed D
  after_round (stop parsed) = parsed
  after_round (go_on set p) = parse_loop reals rest set none p
  after_round (want name) = parse_loop reals rest set (some name) o

  -- An argument that holds an option and its value.
  inline_option :
      (argument value : Text) (name : Valued) (p : Options D)
      → parse_argument reals argument set o
        ≡ (elim (set_option reals name value o) [ none ↦ stop wrong | some p ↦ go_on set p ])
      → set_option reals name value o ≡ some p
      → parse_loop reals (argument ∷ rest) set none o ≡ parse_loop reals rest set none p
  unfolding parse_loop after_round
  inline_option argument value name p e h =
      ap after_round e
      ∙ ap (λ r. after_round (elim r [ none ↦ stop wrong | some p ↦ go_on set p ])) h

  pub parse_config :
      (value : Text)
      → length value < path_max
      → parse_loop reals ((codes "--config=" ++ value) ∷ rest) set none o
        ≡ parse_loop reals rest set none (record o { config_path = value })
  unfolding parse_argument streq starts_with
  parse_config value h = inline_option _ (value) config _ refl (set_config-short reals o value h)

  pub parse_web_host :
      (value : Text)
      → length value < 256
      → parse_loop reals ((codes "--web-host=" ++ value) ∷ rest) set none o
        ≡ parse_loop reals rest set none (record o { web_host = value })
  unfolding parse_argument streq starts_with
  parse_web_host value h =
      inline_option _ (value) Valued.web_host _ refl (set_web_host-short reals o value h)

  pub parse_web_token_file :
      (value : Text)
      → length value < path_max
      → parse_loop reals ((codes "--web-token-file=" ++ value) ∷ rest) set none o
        ≡ parse_loop reals rest set none (record o { token_path = value })
  unfolding parse_argument streq starts_with
  parse_web_token_file value h =
      inline_option _ (value) web_token_file _ refl (set_web_token_file-short reals o value h)

  pub parse_web_token :
      (value : Text)
      → length value < token_max
      → parse_loop reals ((codes "--web-token=" ++ value) ∷ rest) set none o
        ≡ parse_loop reals rest set none (record o { explicit_token = value })
  unfolding parse_argument streq starts_with
  parse_web_token value h =
      inline_option _ (value) web_token _ refl (set_web_token-short reals o value h)

  pub parse_lockfile :
      (value : Text)
      → length value < path_max
      → parse_loop reals ((codes "--lockfile=" ++ value) ∷ rest) set none o
        ≡ parse_loop reals rest set none (record o { lock_path = value })
  unfolding parse_argument streq starts_with
  parse_lockfile value h =
      inline_option _ (value) lockfile _ refl (set_lockfile-short reals o value h)

  pub parse_db_path :
      (value : Text)
      → length value < path_max
      → parse_loop reals ((codes "--db-path=" ++ value) ∷ rest) set none o
        ≡ parse_loop reals rest set none (record o { db_path = value })
  unfolding parse_argument streq starts_with
  parse_db_path value h =
      inline_option _ (value) Valued.db_path _ refl (set_db_path-short reals o value h)

  pub parse_path :
      (value : Text)
      → length value < path_max
      → parse_loop reals ((codes "--path=" ++ value) ∷ rest) set none o
        ≡ parse_loop reals rest set none (record o { path = value })
  unfolding parse_argument streq starts_with
  parse_path value h = inline_option _ (value) Valued.path _ refl (set_path-short reals o value h)

  pub parse_search :
      (value : Text)
      → length value < 512
      → parse_loop reals ((codes "--search=" ++ value) ∷ rest) set none o
        ≡ parse_loop reals rest set none (record o { search = value })
  unfolding parse_argument streq starts_with
  parse_search value h =
      inline_option _ (value) Valued.search _ refl (set_search-short reals o value h)

  pub parse_web_port :
      (n : ℕ)
      → 1 ≤ n
      → n ≤ 65535
      → parse_loop reals ((codes "--web-port=" ++ decimal n) ∷ rest) set none o
        ≡ parse_loop reals rest set none (record o { web_port = n })
  unfolding parse_argument streq starts_with
  parse_web_port n h k =
      inline_option _ (decimal n) Valued.web_port _ refl (set_web_port-decimal reals o n h k)

  pub parse_lines :
      (n : ℕ)
      → 1 ≤ n
      → n ≤ 2000
      → parse_loop reals ((codes "--lines=" ++ decimal n) ∷ rest) set none o
        ≡ parse_loop reals rest set none (record o { lines = n })
  unfolding parse_argument streq starts_with
  parse_lines n h k =
      inline_option _ (decimal n) Valued.lines _ refl (set_lines-decimal reals o n h k)

  pub parse_page_size :
      (n : ℕ)
      → 1 ≤ n
      → n ≤ max_restore_page
      → parse_loop reals ((codes "--page-size=" ++ decimal n) ∷ rest) set none o
        ≡ parse_loop reals rest set none (record o { page_size = n })
  unfolding parse_argument streq starts_with
  parse_page_size n h k =
      inline_option _ (decimal n) Valued.page_size _ refl (set_page_size-decimal reals o n h k)

  pub parse_page :
      (n : ℕ)
      → 1 ≤ n
      → n ≤ (2 ^ 32 - 1)
      → parse_loop reals ((codes "--page=" ++ decimal n) ∷ rest) set none o
        ≡ parse_loop reals rest set none (record o { page = n })
  unfolding parse_argument streq starts_with
  parse_page n h k = inline_option _ (decimal n) Valued.page _ refl (set_page-decimal reals o n h k)

  pub parse_lang :
      (language : Language)
      → parse_loop reals ((codes "--lang=" ++ language_code language) ∷ rest) set none o
        ≡ parse_loop reals rest set none (record o { language = language })
  unfolding parse_loop streq starts_with
  parse_lang it = refl
  parse_lang en = refl

  pub parse_sort :
      (value : Text)
      → streq value (codes "name") || streq value (codes "mtime") || streq value (codes "size")
        ≡ true
      → parse_loop reals ((codes "--sort=" ++ value) ∷ rest) set none o
        ≡ parse_loop reals rest set none (record o { sort = value })
  unfolding parse_argument streq starts_with
  parse_sort value h = inline_option _ value Valued.sort _ refl (set_sort-known reals o value h)

  pub parse_direction :
      (value : Text)
      → streq value (codes "asc") || streq value (codes "desc") ≡ true
      → parse_loop reals ((codes "--direction=" ++ value) ∷ rest) set none o
        ≡ parse_loop reals rest set none (record o { direction = value })
  unfolding parse_argument streq starts_with
  parse_direction value h =
      inline_option _ value Valued.direction _ refl (set_direction-known reals o value h)

  pub parse_refresh :
      (value : Text) (x : D)
      → IsRefresh reals value x
      → parse_loop reals ((codes "--console-refresh=" ++ value) ∷ rest) set none o
        ≡ parse_loop reals rest set none (record o { console_refresh = x })
  unfolding parse_argument streq starts_with
  parse_refresh value x h =
      inline_option _ value Valued.console_refresh _ refl
        (set_console_refresh-known reals o value x h)

  pub flag_silent :
      (b : Bool)
      → o.silent ≡ false
      → parse_loop reals (flag b (codes "--silent") rest) set none o
        ≡ parse_loop reals rest set none (record o { silent = b })
  unfolding parse_loop parse_argument streq starts_with
  flag_silent true e = refl
  flag_silent false e = ap (λ b. parse_loop reals rest set none (record o { silent = b })) e

  pub flag_web :
      (b : Bool)
      → o.web ≡ false
      → parse_loop reals (flag b (codes "--web") rest) set none o
        ≡ parse_loop reals rest set none (record o { web = b })
  unfolding parse_loop parse_argument streq starts_with
  flag_web true e = refl
  flag_web false e = ap (λ b. parse_loop reals rest set none (record o { web = b })) e

  pub flag_web_only :
      (b : Bool)
      → o.web_only ≡ false
      → parse_loop reals (flag b (codes "--web-only") rest) set none o
        ≡ parse_loop reals rest set none (record o { web_only = b })
  unfolding parse_loop parse_argument streq starts_with
  flag_web_only true e = refl
  flag_web_only false e = ap (λ b. parse_loop reals rest set none (record o { web_only = b })) e

  pub flag_no_web_auth :
      (b : Bool)
      → o.no_web_auth ≡ false
      → parse_loop reals (flag b (codes "--no-web-auth") rest) set none o
        ≡ parse_loop reals rest set none (record o { no_web_auth = b })
  unfolding parse_loop parse_argument streq starts_with
  flag_no_web_auth true e = refl
  flag_no_web_auth false e =
      ap (λ b. parse_loop reals rest set none (record o { no_web_auth = b })) e

  pub flag_no_initial_sync :
      (b : Bool)
      → o.no_initial_sync ≡ false
      → parse_loop reals (flag b (codes "--no-initial-sync") rest) set none o
        ≡ parse_loop reals rest set none (record o { no_initial_sync = b })
  unfolding parse_loop parse_argument streq starts_with
  flag_no_initial_sync true e = refl
  flag_no_initial_sync false e =
      ap (λ b. parse_loop reals rest set none (record o { no_initial_sync = b })) e

  pub flag_output_json :
      (b : Bool)
      → o.output_json ≡ false
      → parse_loop reals (flag b (codes "--json") rest) set none o
        ≡ parse_loop reals rest set none (record o { output_json = b })
  unfolding parse_loop parse_argument streq starts_with
  flag_output_json true e = refl
  flag_output_json false e =
      ap (λ b. parse_loop reals rest set none (record o { output_json = b })) e

  pub flag_overwrite :
      (b : Bool)
      → o.overwrite ≡ false
      → parse_loop reals (flag b (codes "--overwrite") rest) set none o
        ≡ parse_loop reals rest set none (record o { overwrite = b })
  unfolding parse_loop parse_argument streq starts_with
  flag_overwrite true e = refl
  flag_overwrite false e = ap (λ b. parse_loop reals rest set none (record o { overwrite = b })) e

  pub flag_rename :
      (b : Bool)
      → o.rename ≡ false
      → parse_loop reals (flag b (codes "--rename") rest) set none o
        ≡ parse_loop reals rest set none (record o { rename = b })
  unfolding parse_loop parse_argument streq starts_with
  flag_rename true e = refl
  flag_rename false e = ap (λ b. parse_loop reals rest set none (record o { rename = b })) e
