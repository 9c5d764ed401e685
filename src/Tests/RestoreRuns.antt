-- ===== src/Tests/RestoreRuns.antt =====
-- The restore area at fixed inputs.
use sy_se_ba.Prelude.{
  ℕ, zero, suc, ◌<◌, ◌≤◌, ◌≡◌, inr, refl, Bool, true, false, some, List, [], ◌∷◌, length, ◌||◌,
  arith,
}
use sy_se_ba.Prelude.Text.{Text, codes, streq, starts_with, to_lower}
use sy_se_ba.Prelude.Number.{decimal}
use sy_se_ba.FilePath.{
  path_max, normalize_byte, normalize_separators, token_loop, add_part, collect_parts, ends_in_sep,
  write_parts, absolute_path, rebuild, path_real, before_slash, parent_dir,
}
use sy_se_ba.Confine.{
  strip_separators, at_boundary, within_text, probe_loop, append_suffix, path_resolve_links,
  path_is_within, safe_join,
}
use sy_se_ba.Restore.Search.{contains_case_insensitive, contains_loop, matches_here}
use sy_se_ba.Restore.Pages.{restore_page, turned, turned-restore_page}
use sy_se_ba.Restore.Names.{
  unique_loop, restore_candidate, unique_restore_path, unique_restored_path,
  unique_restore_path-first, base_name, stem_and_extension, split_last, restored_candidate,
}
use sy_se_ba.Restore.Item.{overwrite, over_existing, choose_target, restore_plan}
use sy_se_ba.Restore.Careful.{IsCareful, restore_plan-IsCareful}
use sy_se_ba.Tests.Fixtures.{plain_view}

found_run : contains_case_insensitive (codes "Report.TXT") (codes "port.t") ≡ true
unfolding contains_case_insensitive contains_loop matches_here to_lower
found_run = refl

abbrev three : List ℕ
three = 1 ∷ 2 ∷ 3 ∷ []

turned-restore_page_example : turned (restore_page 1 2 three).pages 2 three ≡ three
turned-restore_page_example = turned-restore_page 2 three (omega arith)

-- The path and its first candidate are taken.
abbrev taken : Text → Bool
taken path = streq path (codes "/r/a") || streq path (codes "/r/a.20260101-000000")

before_first :
    (j : ℕ) → j < 1 → taken (restore_candidate (codes "/r/a") (codes "20260101-000000") j) ≡ true
unfolding streq restore_candidate
before_first zero h = refl
before_first (suc j) h = absurd (omega arith)

short_names :
    (j : ℕ)
    → j ≤ 1
    → length (restore_candidate (codes "/r/a") (codes "20260101-000000") j) < path_max
unfolding restore_candidate decimal
short_names zero h = omega arith
short_names (suc zero) h = omega arith
short_names (suc (suc j)) h = absurd (omega arith)

unique_restore_path-first_example :
    unique_restore_path taken (codes "20260101-000000") (codes "/r/a") path_max
    ≡ some (codes "/r/a.20260101-000000.1")
unfolding restore_candidate decimal streq
unique_restore_path-first_example =
    unique_restore_path-first taken (codes "20260101-000000") (codes "/r/a") path_max 1 refl
      (omega arith) before_first short_names refl

unique_run :
    unique_restore_path taken (codes "20260101-000000") (codes "/r/a") path_max
    ≡ some (codes "/r/a.20260101-000000.1")
unfolding unique_restore_path unique_loop restore_candidate decimal streq
unique_run = refl

abbrev text_taken : Text → Bool
text_taken path = streq path (codes "/s/a.txt")

restored_run :
    unique_restored_path text_taken (codes "S") (codes "/s/a.txt") path_max
    ≡ some (codes "/s/a.restored-S.txt")
unfolding unique_restored_path unique_loop restored_candidate base_name stem_and_extension
    split_last parent_dir before_slash streq
restored_run = refl

abbrev no_directory : Text → Bool
no_directory path = false

planned :
    restore_plan plain_view no_directory (codes "S") (codes "/r") (codes "/s") overwrite (codes "a")
    ≡ inr
        (record { from = codes "/r/a"; target = codes "/s/a"; is_tree = false; overwrites = true })
unfolding restore_plan choose_target over_existing safe_join strip_separators path_is_within
    path_resolve_links probe_loop append_suffix within_text starts_with at_boundary path_real
    absolute_path rebuild normalize_separators normalize_byte token_loop collect_parts add_part
    write_parts ends_in_sep streq
planned = refl

restore_plan-IsCareful_example :
    IsCareful plain_view no_directory
      (codes "S")
      (codes "/r")
      (codes "/s")
      overwrite
      (record { from = codes "/r/a"; target = codes "/s/a"; is_tree = false; overwrites = true })
restore_plan-IsCareful_example =
    restore_plan-IsCareful plain_view no_directory (codes "S") (codes "/r") (codes "/s") overwrite
      (codes "a")
      (record { from = codes "/r/a"; target = codes "/s/a"; is_tree = false; overwrites = true })
      planned
