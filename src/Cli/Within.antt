-- ===== src/Cli/Within.antt =====
-- The bounds of the options, and that the setting of one option keeps them, in src/cli.c.
use sy_se_ba.Prelude.{
  ℕ, ◌-◌, ◌^◌, ◌<◌, ◌≤◌, ◌≡◌, refl, true, ◌||◌, some, length, arith, bind-eq-some,
}
use sy_se_ba.Prelude.Text.{Text, codes, streq}
use sy_se_ba.FilePath.{path_max}
use sy_se_ba.Web.Token.{token_max}
use sy_se_ba.Cli.Settings.{
  Reals, Options, max_restore_page, cli_command_valid, parse_unsigned, options_defaults, set_config,
  set_lang, set_web_host, set_web_port, set_web_token_file, set_web_token, set_lockfile,
  set_db_path, set_console_refresh, set_lines, set_path, set_search, set_page_size, set_page,
  set_sort, set_direction,
}

pub record IsWithin {D : Type 0} (o : Options D) : Type 0 where
  pub command : cli_command_valid o.command ≡ true
  pub config_path : length o.config_path < path_max
  pub lock_path : length o.lock_path < path_max
  pub db_path : length o.db_path < path_max
  pub token_path : length o.token_path < path_max
  pub web_host : length o.web_host < 256
  pub path : length o.path < path_max
  pub search : length o.search < 512
  pub explicit_token : length o.explicit_token < token_max
  pub web_port : (1 ≤ o.web_port) × (o.web_port ≤ 65535)
  pub lines : (1 ≤ o.lines) × (o.lines ≤ 2000)
  pub page : (1 ≤ o.page) × (o.page < 2 ^ 32)
  pub page_size : (1 ≤ o.page_size) × (o.page_size ≤ max_restore_page)
  pub sort :
      streq o.sort (codes "name") || streq o.sort (codes "mtime") || streq o.sort (codes "size")
      ≡ true
  pub direction : streq o.direction (codes "asc") || streq o.direction (codes "desc") ≡ true

pub parse_unsigned_bounds :
    (value : Text) (low high n : ℕ)
    → high < 2 ^ 32
    → parse_unsigned value low high ≡ some n
    → (low ≤ n) × (n ≤ high)
unfolding parse_unsigned
parse_unsigned_bounds value low high n h e = ground arith

module _ {D : Type 0} (reals : Reals D) where
  pub options_defaults-IsWithin : IsWithin (options_defaults reals)
  unfolding options_defaults cli_command_valid streq
  options_defaults-IsWithin = record {
    command = refl;
    config_path = omega arith;
    lock_path = omega arith;
    db_path = omega arith;
    token_path = omega arith;
    web_host = omega arith;
    path = omega arith;
    search = omega arith;
    explicit_token = omega arith;
    web_port = omega arith;
    lines = omega arith;
    page = omega arith;
    page_size = omega arith;
    sort = refl;
    direction = refl;
  }

  pub set_config-IsWithin :
      (value : Text) (o p : Options D) → IsWithin o → set_config reals value o ≡ some p → IsWithin p
  unfolding set_config
  set_config-IsWithin value o p w h = ground arith

  pub set_lang-IsWithin :
      (value : Text) (o p : Options D) → IsWithin o → set_lang reals value o ≡ some p → IsWithin p
  unfolding set_lang
  set_lang-IsWithin value o p w h = ground arith

  pub set_web_host-IsWithin :
      (value : Text) (o p : Options D)
      → IsWithin o
      → set_web_host reals value o ≡ some p
      → IsWithin p
  unfolding set_web_host
  set_web_host-IsWithin value o p w h = ground arith

  pub set_web_port-IsWithin :
      (value : Text) (o p : Options D)
      → IsWithin o
      → set_web_port reals value o ≡ some p
      → IsWithin p
  unfolding set_web_port
  set_web_port-IsWithin value o p w h =
      let (n, parsed, e) = bind-eq-some (parse_unsigned value 1 65535) _ h in
      let (low, high) = parse_unsigned_bounds value 1 65535 n (omega arith) parsed in ground arith

  pub set_web_token_file-IsWithin :
      (value : Text) (o p : Options D)
      → IsWithin o
      → set_web_token_file reals value o ≡ some p
      → IsWithin p
  unfolding set_web_token_file
  set_web_token_file-IsWithin value o p w h = ground arith

  pub set_web_token-IsWithin :
      (value : Text) (o p : Options D)
      → IsWithin o
      → set_web_token reals value o ≡ some p
      → IsWithin p
  unfolding set_web_token
  set_web_token-IsWithin value o p w h = ground arith

  pub set_lockfile-IsWithin :
      (value : Text) (o p : Options D)
      → IsWithin o
      → set_lockfile reals value o ≡ some p
      → IsWithin p
  unfolding set_lockfile
  set_lockfile-IsWithin value o p w h = ground arith

  pub set_db_path-IsWithin :
      (value : Text) (o p : Options D)
      → IsWithin o
      → set_db_path reals value o ≡ some p
      → IsWithin p
  unfolding set_db_path
  set_db_path-IsWithin value o p w h = ground arith

  pub set_console_refresh-IsWithin :
      (value : Text) (o p : Options D)
      → IsWithin o
      → set_console_refresh reals value o ≡ some p
      → IsWithin p
  unfolding set_console_refresh
  set_console_refresh-IsWithin value o p w h = ground arith

  pub set_lines-IsWithin :
      (value : Text) (o p : Options D) → IsWithin o → set_lines reals value o ≡ some p → IsWithin p
  unfolding set_lines
  set_lines-IsWithin value o p w h =
      let (n, parsed, e) = bind-eq-some (parse_unsigned value 1 2000) _ h in
      let (low, high) = parse_unsigned_bounds value 1 2000 n (omega arith) parsed in ground arith

  pub set_path-IsWithin :
      (value : Text) (o p : Options D) → IsWithin o → set_path reals value o ≡ some p → IsWithin p
  unfolding set_path
  set_path-IsWithin value o p w h = ground arith

  pub set_search-IsWithin :
      (value : Text) (o p : Options D) → IsWithin o → set_search reals value o ≡ some p → IsWithin p
  unfolding set_search
  set_search-IsWithin value o p w h = ground arith

  pub set_page_size-IsWithin :
      (value : Text) (o p : Options D)
      → IsWithin o
      → set_page_size reals value o ≡ some p
      → IsWithin p
  unfolding set_page_size
  set_page_size-IsWithin value o p w h =
      let (n, parsed, e) = bind-eq-some (parse_unsigned value 1 max_restore_page) _ h in
      let (low, high) = parse_unsigned_bounds value 1 max_restore_page n (omega arith) parsed in
      ground arith

  pub set_page-IsWithin :
      (value : Text) (o p : Options D) → IsWithin o → set_page reals value o ≡ some p → IsWithin p
  unfolding set_page
  set_page-IsWithin value o p w h =
      let (n, parsed, e) = bind-eq-some (parse_unsigned value 1 (2 ^ 32 - 1)) _ h in
      let (low, high) = parse_unsigned_bounds value 1 (2 ^ 32 - 1) n (omega arith) parsed in
      ground arith

  pub set_sort-IsWithin :
      (value : Text) (o p : Options D) → IsWithin o → set_sort reals value o ≡ some p → IsWithin p
  unfolding set_sort
  set_sort-IsWithin value o p w h = ground arith

  pub set_direction-IsWithin :
      (value : Text) (o p : Options D)
      → IsWithin o
      → set_direction reals value o ≡ some p
      → IsWithin p
  unfolding set_direction
  set_direction-IsWithin value o p w h = ground arith
