-- ===== src/Tests/CliRuns.antt =====
-- The command line at fixed inputs. `strtod` reads whole numbers only.
use sy_se_ba.Prelude.{ℕ, ◌≡◌, refl, true, false, ◌&&◌, [], ◌∷◌, ◌==◌, ltb, arith}
use sy_se_ba.Prelude.Text.{codes, streq, starts_with, is_space, is_digit}
use sy_se_ba.Prelude.Number.{strtoul}
use sy_se_ba.Cli.{ready, cli_parse, parse_loop}
use sy_se_ba.Cli.Settings.{en, Reals, Options, cli_command_valid, parse_unsigned, options_defaults}
use sy_se_ba.Cli.Within.{IsWithin}
use sy_se_ba.Cli.Kept.{cli_parse-IsWithin}
use sy_se_ba.Cli.Values.{IsRefresh, command_line}
use sy_se_ba.Cli.Line.{cli_parse-command_line}

abbrev whole : Reals ℕ
whole = record {
  strtod = λ t. ((strtoul t).value, (strtoul t).rest);
  le_zero = λ n. n == 0;
  gt_hour = λ n. ltb 3600 n;
  three = 3;
}

abbrev chosen : Options ℕ
chosen = record {
  command = codes "service-install";
  config_path = codes "/e/c";
  lock_path = codes "/l";
  db_path = codes "/d";
  token_path = codes "/t";
  web_host = codes "::1";
  web_port = 80;
  language = en;
  silent = true;
  web = false;
  web_only = true;
  no_web_auth = false;
  no_initial_sync = true;
  output_json = false;
  overwrite = true;
  rename = false;
  create_daemon = true;
  windows_service = false;
  console_refresh = 7;
  lines = 20;
  path = codes "a=b";
  search = [];
  page = 2;
  page_size = 25;
  sort = codes "size";
  direction = codes "desc";
  explicit_token = [];
}

chosen-IsWithin : IsWithin chosen
unfolding cli_command_valid streq
chosen-IsWithin = record {
  command = refl;
  config_path = omega arith;
  lock_path = omega arith;
  db_path = omega arith;
  token_path = omega arith;
  web_host = omega arith;
  path = omega arith;
  search = omega arith;
  explicit_token = omega arith;
  web_port = omega arith;
  lines = omega arith;
  page = omega arith;
  page_size = omega arith;
  sort = refl;
  direction = refl;
}

seven : IsRefresh whole (codes "7") 7
unfolding strtoul is_space is_digit
seven = record { some_byte = omega arith; reads = refl; not_low = refl; not_high = refl }

cli_parse-command_line_example :
    cli_parse whole (command_line chosen (codes "7")) (options_defaults whole) ≡ ready chosen
cli_parse-command_line_example = cli_parse-command_line whole chosen (codes "7") (record {
  within = chosen-IsWithin;
  refreshed = seven;
  installs = λ _. refl;
  not_windows = refl;
  one_strategy = refl;
})

-- A value in the next argument, and a misspelled option: `--pagesize` is taken as `--page`.
abbrev paged : Options ℕ
paged = record (options_defaults whole) { command = codes "restore-list"; page = 50 }

paged_run :
    cli_parse whole
      (codes "restore-list" ∷ codes "--pagesize" ∷ codes "50" ∷ [])
      (options_defaults whole)
    ≡ ready paged
unfolding cli_parse parse_loop streq starts_with parse_unsigned strtoul options_defaults is_space
    is_digit
paged_run = refl

cli_parse-IsWithin_example : IsWithin paged × (paged.overwrite && paged.rename ≡ false)
cli_parse-IsWithin_example =
    cli_parse-IsWithin whole (codes "restore-list" ∷ codes "--pagesize" ∷ codes "50" ∷ []) paged
      paged_run
