-- ===== src/Cli/Settings.antt =====
-- The options of src/cli.c: `syseba_options_defaults`, and how `syseba_cli_parse` tells options with
-- a value apart and sets one. Floating-point numbers and `strtod` are parameters.
use sy_se_ba.Prelude.{
  ℕ, ◌%◌, ◌^◌, Bool, false, ◌&&◌, ◌||◌, not, Option, none, some, [], ◌∷◌, ◌==◌, ltb, leb, ◌-◌,
  length, if◌then◌else◌,
}
use sy_se_ba.Prelude.Text.{Text, codes, streq, starts_with, copy_within}
use sy_se_ba.Prelude.Number.{strtoul}
use sy_se_ba.FilePath.{path_max}
use sy_se_ba.Web.Token.{token_max}

pub data Language : Type 0 where
  it en : Language

-- `double`: `x <= 0.0`, `x > 3600.0` and the constant 3.0. What `strtod` does not read comes second.
pub record Reals (D : Type 0) : Type 0 where
  pub strtod : Text → D × Text
  pub le_zero : D → Bool
  pub gt_hour : D → Bool
  pub three : D

-- `syseba_options_t`
pub record Options (D : Type 0) : Type 0 where
  pub command : Text
  pub config_path : Text
  pub lock_path : Text
  pub db_path : Text
  pub token_path : Text
  pub web_host : Text
  pub web_port : ℕ
  pub language : Language
  pub silent : Bool
  pub web : Bool
  pub web_only : Bool
  pub no_web_auth : Bool
  pub no_initial_sync : Bool
  pub output_json : Bool
  pub overwrite : Bool
  pub rename : Bool
  pub create_daemon : Bool
  pub windows_service : Bool
  pub console_refresh : D
  pub lines : ℕ
  pub path : Text
  pub search : Text
  pub page : ℕ
  pub page_size : ℕ
  pub sort : Text
  pub direction : Text
  pub explicit_token : Text

abbrev pub max_restore_page : ℕ
max_restore_page = 250

unfoldable pub cli_command_valid : Text → Bool
cli_command_valid command =
    streq command (codes "run")
    || streq command (codes "status")
    || streq command (codes "logs")
    || streq command (codes "config-check")
    || streq command (codes "restore-list")
    || streq command (codes "restore-copy")
    || streq command (codes "restore-browser")
    || streq command (codes "service-install")

-- `strchr(t, c) + 1`
unfoldable pub after_char : ℕ → Text → Option Text
after_char c [] = none
after_char c (d ∷ t) = if d == c then some t else after_char c t

unfoldable pub parse_unsigned : Text → ℕ → ℕ → Option ℕ
parse_unsigned value minimum maximum =
    let parsed = strtoul value in
    if parsed.range_error
      || not parsed.any
      || not (streq parsed.rest [])
      || ltb parsed.value minimum
      || ltb maximum parsed.value
    then none
    else some (parsed.value % 2 ^ 32)

-- The options that take a value.
pub data Valued : Type 0 where
  config lang web_host web_port web_token_file web_token lockfile db_path console_refresh : Valued
  lines path search page_size page sort direction : Valued

-- The tests by `strncmp`, in their order.
unfoldable pub valued : Text → Option Valued
valued argument =
    if starts_with (codes "--config") argument
    then some config
    else if starts_with (codes "--lang") argument
    then some lang
    else if starts_with (codes "--web-host") argument
    then some Valued.web_host
    else if starts_with (codes "--web-port") argument
    then some Valued.web_port
    else if starts_with (codes "--web-token-file") argument
    then some web_token_file
    else if starts_with (codes "--web-token") argument
    then some web_token
    else if starts_with (codes "--lockfile") argument
    then some lockfile
    else if starts_with (codes "--db-path") argument
    then some Valued.db_path
    else if starts_with (codes "--console-refresh") argument
    then some Valued.console_refresh
    else if starts_with (codes "--lines") argument
    then some Valued.lines
    else if starts_with (codes "--path") argument
    then some Valued.path
    else if starts_with (codes "--search") argument
    then some Valued.search
    else if starts_with (codes "--page-size") argument
    then some Valued.page_size
    else if starts_with (codes "--page") argument
    then some Valued.page
    else if starts_with (codes "--sort") argument
    then some Valued.sort
    else if starts_with (codes "--direction") argument
    then some Valued.direction
    else none

module _ {D : Type 0} (reals : Reals D) where
  unfoldable pub options_defaults : Options D
  options_defaults = record {
    command = codes "run";
    config_path = [];
    lock_path = codes "/run/syseba/syseba.lock";
    db_path = codes "/var/lib/syseba/syseba_logs.db";
    token_path = codes "/etc/syseba/syseba_web.token";
    web_host = codes "127.0.0.1";
    web_port = 8765;
    language = it;
    silent = false;
    web = false;
    web_only = false;
    no_web_auth = false;
    no_initial_sync = false;
    output_json = false;
    overwrite = false;
    rename = false;
    create_daemon = false;
    windows_service = false;
    console_refresh = reals.three;
    lines = 100;
    path = [];
    search = [];
    page = 1;
    page_size = 100;
    sort = codes "name";
    direction = codes "asc";
    explicit_token = [];
  }

  unfoldable pub set_config : Text → Options D → Option (Options D)
  set_config value o = elim (copy_within path_max value) [
    | none ↦ none
    | some t ↦ some (record o { config_path = t })
  ]

  unfoldable pub set_lang : Text → Options D → Option (Options D)
  set_lang value o =
      if not (streq value (codes "it")) && not (streq value (codes "en"))
      then none
      else some (record o { language = if streq value (codes "en") then en else it })

  unfoldable pub set_web_host : Text → Options D → Option (Options D)
  set_web_host value o = elim (copy_within 256 value) [
    | none ↦ none
    | some t ↦ some (record o { web_host = t })
  ]

  unfoldable pub set_web_port : Text → Options D → Option (Options D)
  set_web_port value o = elim (parse_unsigned value 1 65535) [
    | none ↦ none
    | some n ↦ some (record o { web_port = n })
  ]

  unfoldable pub set_web_token_file : Text → Options D → Option (Options D)
  set_web_token_file value o = elim (copy_within path_max value) [
    | none ↦ none
    | some t ↦ some (record o { token_path = t })
  ]

  unfoldable pub set_web_token : Text → Options D → Option (Options D)
  set_web_token value o = elim (copy_within token_max value) [
    | none ↦ none
    | some t ↦ some (record o { explicit_token = t })
  ]

  unfoldable pub set_lockfile : Text → Options D → Option (Options D)
  set_lockfile value o = elim (copy_within path_max value) [
    | none ↦ none
    | some t ↦ some (record o { lock_path = t })
  ]

  unfoldable pub set_db_path : Text → Options D → Option (Options D)
  set_db_path value o = elim (copy_within path_max value) [
    | none ↦ none
    | some t ↦ some (record o { db_path = t })
  ]

  unfoldable pub set_console_refresh : Text → Options D → Option (Options D)
  set_console_refresh value o =
      let (x, rest) = reals.strtod value in
      if leb (length value) (length rest)
        || not (streq rest [])
        || reals.le_zero x
        || reals.gt_hour x
      then none
      else some (record o { console_refresh = x })

  unfoldable pub set_lines : Text → Options D → Option (Options D)
  set_lines value o = elim (parse_unsigned value 1 2000) [
    | none ↦ none
    | some n ↦ some (record o { lines = n })
  ]

  unfoldable pub set_path : Text → Options D → Option (Options D)
  set_path value o = elim (copy_within path_max value) [
    | none ↦ none
    | some t ↦ some (record o { path = t })
  ]

  unfoldable pub set_search : Text → Options D → Option (Options D)
  set_search value o = elim (copy_within 512 value) [
    | none ↦ none
    | some t ↦ some (record o { search = t })
  ]

  unfoldable pub set_page_size : Text → Options D → Option (Options D)
  set_page_size value o = elim (parse_unsigned value 1 max_restore_page) [
    | none ↦ none
    | some n ↦ some (record o { page_size = n })
  ]

  unfoldable pub set_page : Text → Options D → Option (Options D)
  set_page value o = elim (parse_unsigned value 1 (2 ^ 32 - 1)) [
    | none ↦ none
    | some n ↦ some (record o { page = n })
  ]

  unfoldable pub set_sort : Text → Options D → Option (Options D)
  set_sort value o =
      if not (streq value (codes "name"))
        && not (streq value (codes "mtime"))
        && not (streq value (codes "size"))
      then none
      else some (record o { sort = value })

  unfoldable pub set_direction : Text → Options D → Option (Options D)
  set_direction value o =
      if not (streq value (codes "asc")) && not (streq value (codes "desc"))
      then none
      else some (record o { direction = value })

  -- The branch of an option, with its value at hand.
  unfoldable pub set_option : Valued → Text → Options D → Option (Options D)
  unfolding set_config set_lang set_web_host set_web_port set_web_token_file set_web_token
      set_lockfile set_db_path set_console_refresh set_lines set_path set_search set_page_size
      set_page set_sort set_direction
  set_option config value o = set_config value o
  set_option lang value o = set_lang value o
  set_option Valued.web_host value o = set_web_host value o
  set_option Valued.web_port value o = set_web_port value o
  set_option web_token_file value o = set_web_token_file value o
  set_option web_token value o = set_web_token value o
  set_option lockfile value o = set_lockfile value o
  set_option Valued.db_path value o = set_db_path value o
  set_option Valued.console_refresh value o = set_console_refresh value o
  set_option Valued.lines value o = set_lines value o
  set_option Valued.path value o = set_path value o
  set_option Valued.search value o = set_search value o
  set_option Valued.page_size value o = set_page_size value o
  set_option Valued.page value o = set_page value o
  set_option Valued.sort value o = set_sort value o
  set_option Valued.direction value o = set_direction value o
