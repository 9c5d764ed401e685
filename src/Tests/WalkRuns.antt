-- ===== src/Tests/WalkRuns.antt =====
-- A walk of a small tree.
use mathlib.Core.List.{foldl}
use sy_se_ba.Prelude.{◌≡◌, refl, Bool, true, false, List, [], ◌∷◌}
use sy_se_ba.Prelude.Text.{Text, codes, streq}
use sy_se_ba.Walk.{
  file, directory, special, vanished, Listing, entry, end, is_dots, walk_listing, walk_files,
}
use sy_se_ba.Walk.Visits.{steady, visits, visit, walk_files-visits}
use sy_se_ba.Walk.Errno.{is_flat, has_vanished, walk_files-vanished}

abbrev tree : Listing
tree =
    entry (codes ".") special
      (entry (codes "d") (directory (entry (codes "f") file end)) (entry (codes "l") special end))

abbrev record_visit : Text → Bool → List (Text × Bool) → List (Text × Bool)
record_visit path is_directory seen = (path, is_directory) ∷ seen

visited :
    (walk_files (steady record_visit) (codes "/s") (directory tree) []).context
    ≡ (codes "/s/d/f", false) ∷ (codes "/s/d", true) ∷ []
unfolding walk_files walk_listing is_dots streq
visited = refl

walk_files-visits_example :
    (walk_files (steady record_visit) (codes "/s") (directory tree) []).context
    ≡ foldl (visit record_visit) [] (visits (codes "/s") tree)
walk_files-visits_example = walk_files-visits record_visit (codes "/s") tree [] ok
  where
    ok : (walk_files (steady record_visit) (codes "/s") (directory tree) []).ok ≡ true
    ok = unfold walk_files walk_listing is_dots streq in refl

abbrev racy : Listing
racy = entry (codes "gone") vanished (entry (codes "f") file end)

walk_files-vanished_example :
    (walk_files (steady record_visit) (codes "/s") (directory racy) []).ok ≡ false
unfolding is_flat has_vanished is_dots streq
walk_files-vanished_example = walk_files-vanished record_visit racy (codes "/s") [] refl refl
