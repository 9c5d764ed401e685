-- ===== src/Tests/PathRuns.antt =====
-- Paths at fixed inputs.
use sy_se_ba.Prelude.{◌<◌, ◌≡◌, ◌↔◌, refl, true, false, none, some, [], ◌∷◌, length, arith}
use sy_se_ba.Prelude.Text.{Text, codes, streq, starts_with}
use sy_se_ba.FilePath.{
  path_max, normalize_byte, normalize_separators, token_loop, add_part, collect_parts, ends_in_sep,
  write_parts, absolute_path, rebuild, path_real, before_slash, parent_dir,
}
use sy_se_ba.FilePath.Canonical.{joined, render, IsCanonical}
use sy_se_ba.FilePath.Real.{path_real-IsCanonical}
use sy_se_ba.FilePath.Fixed.{path_real_idem}
use sy_se_ba.Confine.{
  strip_separators, at_boundary, within_text, probe_loop, Probe, append_suffix, path_resolve_links,
  path_is_within, safe_join, relative_path,
}
use sy_se_ba.Confine.Resolve.{probe_loop_total}
use sy_se_ba.Confine.Join.{IsContained, path_is_within_iff, safe_join-IsContained}
use sy_se_ba.Confine.Mirror.{slashed, IsUnlinked, relative_path-render}
use sy_se_ba.Tests.Fixtures.{plain_view, IsPlain-b, IsPlain-c}

real_run : path_real (some (codes "/w")) (codes "a//./b/../c/") path_max ≡ some (codes "/w/a/c")
unfolding path_real absolute_path rebuild normalize_separators normalize_byte token_loop
    collect_parts add_part write_parts ends_in_sep streq
real_run = refl

parent_run : parent_dir (codes "/w/a") path_max ≡ some (codes "/w")
unfolding parent_dir before_slash
parent_run = refl

outside_run : within_text (codes "/a") (codes "/ab") ≡ false
unfolding within_text starts_with ends_in_sep at_boundary
outside_run = refl

path_real-IsCanonical_example : IsCanonical (codes "/w/a/c") × (length (codes "/w/a/c") < path_max)
path_real-IsCanonical_example =
    path_real-IsCanonical (some (codes "/w")) (codes "a//./b/../c/") (codes "/w/a/c") path_max
      real_run

path_real_idem_example : path_real none (codes "/w/a/c") path_max ≡ some (codes "/w/a/c")
path_real_idem_example =
    path_real_idem (some (codes "/w")) none (codes "a//./b/../c/") (codes "/w/a/c") path_max
      (omega arith) real_run

probe_loop_total_example :
    (probe : Text) × (probe_loop plain_view 4 (codes "/b") ≡ Probe.found probe) × (true ≡ true)
probe_loop_total_example =
    probe_loop_total plain_view refl 4 (codes "b") (omega arith) (omega arith)

path_is_within_iff_example :
    (path_is_within plain_view (codes "/b") (codes "/b/c") ≡ true)
    ↔ IsContained plain_view (codes "/b") (codes "/b/c")
path_is_within_iff_example = path_is_within_iff plain_view (codes "/b") (codes "/b/c")

join_run : safe_join plain_view (codes "/b") (codes "/x/../c") path_max ≡ some (codes "/b/c")
unfolding safe_join strip_separators path_is_within path_resolve_links probe_loop append_suffix
    within_text starts_with at_boundary path_real absolute_path rebuild normalize_separators
    normalize_byte token_loop collect_parts add_part write_parts ends_in_sep streq
join_run = refl

escape_run : safe_join plain_view (codes "/b") (codes "../c") path_max ≡ none
unfolding safe_join strip_separators path_is_within path_resolve_links probe_loop append_suffix
    within_text starts_with at_boundary path_real absolute_path rebuild normalize_separators
    normalize_byte token_loop collect_parts add_part write_parts ends_in_sep streq
escape_run = refl

safe_join-IsContained_example :
    IsCanonical (codes "/b/c")
    × (length (codes "/b/c") < path_max)
    × IsContained plain_view (codes "/b") (codes "/b/c")
safe_join-IsContained_example =
    safe_join-IsContained plain_view (codes "/b") (codes "/x/../c") (codes "/b/c") path_max join_run

unlinked : IsUnlinked plain_view (codes "b" ∷ []) (codes "c") [] path_max
unfolding render joined path_resolve_links probe_loop append_suffix path_real absolute_path rebuild
    normalize_separators normalize_byte token_loop collect_parts add_part write_parts ends_in_sep
    streq
unlinked = record {
  plain = (IsPlain-b, _);
  plain_below = (IsPlain-c, _);
  base_self = refl;
  whole_self = refl;
  combined_fits = omega arith;
  whole_fits = omega arith;
  size_fits = omega arith;
}

relative_path-render_example :
    relative_path plain_view (codes "/b") (codes "/b/c") path_max ≡ some (codes "c")
unfolding render joined slashed
relative_path-render_example =
    relative_path-render plain_view (codes "b" ∷ []) (codes "c") [] path_max unlinked
