-- ===== src/Cli/Values.antt =====
-- Options written as arguments, and the values of single options read back, of src/cli.c.
use sy_se_ba.Prelude.{
  ℕ, ◌-◌, ◌^◌, ◌<◌, ◌≤◌, ◌≡◌, ap, Bool, true, false, ◌||◌, none, some, List, [], ◌∷◌, ◌++◌, length,
  if◌then◌else◌, arith,
}
use sy_se_ba.Prelude.Text.{Text, codes, streq}
use sy_se_ba.Prelude.Number.{decimal, strtoul-decimal}
use sy_se_ba.FilePath.{path_max}
use sy_se_ba.Web.Token.{token_max}
use sy_se_ba.Cli.Settings.{
  Language, it, en, Reals, Options, max_restore_page, parse_unsigned, set_sort, set_direction,
  set_config, set_web_host, set_web_token_file, set_web_token, set_lockfile, set_db_path, set_path,
  set_search, set_web_port, set_lines, set_page_size, set_page, set_console_refresh,
}

abbrev pub language_code : Language → Text
language_code it = codes "it"
language_code en = codes "en"

-- A flag stands before the other arguments if it is set.
abbrev pub flag : Bool → Text → List Text → List Text
flag b name rest = if b then name ∷ rest else rest

module _ {D : Type 0} where
  unfoldable pub command_line : Options D → Text → List Text
  command_line o refresh =
      (if o.create_daemon then codes "--create-daemon" else o.command)
      ∷ (codes "--config=" ++ o.config_path)
      ∷ (codes "--web-host=" ++ o.web_host)
      ∷ (codes "--web-token-file=" ++ o.token_path)
      ∷ (codes "--web-token=" ++ o.explicit_token)
      ∷ (codes "--lockfile=" ++ o.lock_path)
      ∷ (codes "--db-path=" ++ o.db_path)
      ∷ (codes "--path=" ++ o.path)
      ∷ (codes "--search=" ++ o.search)
      ∷ (codes "--lang=" ++ language_code o.language)
      ∷ (codes "--web-port=" ++ decimal o.web_port)
      ∷ (codes "--lines=" ++ decimal o.lines)
      ∷ (codes "--page-size=" ++ decimal o.page_size)
      ∷ (codes "--page=" ++ decimal o.page)
      ∷ (codes "--sort=" ++ o.sort)
      ∷ (codes "--direction=" ++ o.direction)
      ∷ (codes "--console-refresh=" ++ refresh)
      ∷ flag o.silent (codes "--silent") (
          flag o.web (codes "--web") (
            flag o.web_only (codes "--web-only") (
              flag o.no_web_auth (codes "--no-web-auth") (
                flag o.no_initial_sync (codes "--no-initial-sync") (
                  flag o.output_json (codes "--json") (
                    flag o.overwrite (codes "--overwrite")
                      (flag o.rename (codes "--rename") [])))))))

pub parse_unsigned-decimal :
    (n low high : ℕ)
    → low ≤ n
    → n ≤ high
    → high < 2 ^ 32
    → parse_unsigned (decimal n) low high ≡ some n
unfolding parse_unsigned streq
parse_unsigned-decimal n low high h k small = rw (strtoul-decimal n (omega arith)) (ground arith)

-- A text that `strtod` reads to its end as a number between 0 and 3600.
pub record IsRefresh {D : Type 0} (reals : Reals D) (value : Text) (x : D) : Type 0 where
  pub some_byte : 0 < length value
  pub reads : reals.strtod value ≡ (x, [])
  pub not_low : reals.le_zero x ≡ false
  pub not_high : reals.gt_hour x ≡ false

module _ {D : Type 0} (reals : Reals D) (o : Options D) (value : Text) where
  pub set_config-short :
      length value < path_max → set_config reals value o ≡ some (record o { config_path = value })
  unfolding set_config
  set_config-short h = ground arith

  pub set_web_host-short :
      length value < 256 → set_web_host reals value o ≡ some (record o { web_host = value })
  unfolding set_web_host
  set_web_host-short h = ground arith

  pub set_web_token_file-short :
      length value < path_max
      → set_web_token_file reals value o ≡ some (record o { token_path = value })
  unfolding set_web_token_file
  set_web_token_file-short h = ground arith

  pub set_web_token-short :
      length value < token_max
      → set_web_token reals value o ≡ some (record o { explicit_token = value })
  unfolding set_web_token
  set_web_token-short h = ground arith

  pub set_lockfile-short :
      length value < path_max → set_lockfile reals value o ≡ some (record o { lock_path = value })
  unfolding set_lockfile
  set_lockfile-short h = ground arith

  pub set_db_path-short :
      length value < path_max → set_db_path reals value o ≡ some (record o { db_path = value })
  unfolding set_db_path
  set_db_path-short h = ground arith

  pub set_path-short :
      length value < path_max → set_path reals value o ≡ some (record o { path = value })
  unfolding set_path
  set_path-short h = ground arith

  pub set_search-short :
      length value < 512 → set_search reals value o ≡ some (record o { search = value })
  unfolding set_search
  set_search-short h = ground arith

  pub set_sort-known :
      streq value (codes "name") || streq value (codes "mtime") || streq value (codes "size") ≡ true
      → set_sort reals value o ≡ some (record o { sort = value })
  unfolding set_sort
  set_sort-known h = ground arith

  pub set_direction-known :
      streq value (codes "asc") || streq value (codes "desc") ≡ true
      → set_direction reals value o ≡ some (record o { direction = value })
  unfolding set_direction
  set_direction-known h = ground arith

  pub set_console_refresh-known :
      (x : D)
      → IsRefresh reals value x
      → set_console_refresh reals value o ≡ some (record o { console_refresh = x })
  unfolding set_console_refresh streq
  set_console_refresh-known x h = rw (h.reads, h.not_low, h.not_high) (ground (arith, h.some_byte))

module _ {D : Type 0} (reals : Reals D) (o : Options D) (n : ℕ) where
  pub set_web_port-decimal :
      1 ≤ n → n ≤ 65535 → set_web_port reals (decimal n) o ≡ some (record o { web_port = n })
  unfolding set_web_port
  set_web_port-decimal h k =
      ap (λ v. elim v [ none ↦ none | some m ↦ some (record o { web_port = m }) ])
        (parse_unsigned-decimal n 1 65535 h k (omega arith))

  pub set_lines-decimal :
      1 ≤ n → n ≤ 2000 → set_lines reals (decimal n) o ≡ some (record o { lines = n })
  unfolding set_lines
  set_lines-decimal h k =
      ap (λ v. elim v [ none ↦ none | some m ↦ some (record o { lines = m }) ])
        (parse_unsigned-decimal n 1 2000 h k (omega arith))

  pub set_page_size-decimal :
      1 ≤ n
      → n ≤ max_restore_page
      → set_page_size reals (decimal n) o ≡ some (record o { page_size = n })
  unfolding set_page_size
  set_page_size-decimal h k =
      ap (λ v. elim v [ none ↦ none | some m ↦ some (record o { page_size = m }) ])
        (parse_unsigned-decimal n 1 max_restore_page h k (omega arith))

  pub set_page-decimal :
      1 ≤ n → n ≤ (2 ^ 32 - 1) → set_page reals (decimal n) o ≡ some (record o { page = n })
  unfolding set_page
  set_page-decimal h k =
      ap (λ v. elim v [ none ↦ none | some m ↦ some (record o { page = m }) ])
        (parse_unsigned-decimal n 1 (2 ^ 32 - 1) h k (omega arith))
