-- ===== src/Files/Move.antt =====
-- `syseba_move_path` of src/fs.c: a rename, or a copy and then the removal.
use sy_se_ba.Prelude.{Bool, true, false, not, none, List, [], ◌∷◌, if◌then◌else◌}
use sy_se_ba.Prelude.Text.{Text}
use sy_se_ba.Walk.{Node}
use sy_se_ba.Files.{Disk, put, prepare_destination}
use sy_se_ba.Files.Copy.{copy_file}
use sy_se_ba.Files.Remove.{Removal, remove_path}
use sy_se_ba.Files.Tree.{Setting, is_tree, copy_tree}

-- `rename` returns 0, fails with EXDEV, or fails with another error.
pub data Rename : Type 0 where
  renamed other_device rename_failed : Rename

-- The disk after calls of `rmdir` and `unlink`, those that work.
unfoldable pub remove_all : (Removal → Bool) → List Removal → Disk → Disk
unfolding put
remove_all works [] d = d
remove_all works ((path, is_directory) ∷ calls) d =
    remove_all works calls (if works (path, is_directory) then put path none d else d)

module _ (s : Setting) (works : Removal → Bool) (memory : Text → Bool) (source destination : Text)
    (node : Node) where
  unfoldable pub remove_source : Disk → Bool × Disk
  unfolding remove_path remove_all
  remove_source d =
      let (calls, fine) = remove_path works memory source node in (fine, remove_all works calls d)

  -- On another device: `node` is the source as the walk sees it.
  unfoldable pub copy_and_remove : Disk → Bool × Disk
  unfolding copy_tree copy_file remove_source
  copy_and_remove d =
      let (copied, e) =
        if is_tree node
        then copy_tree s source destination true node d
        else copy_file s.may_make (s.attempts source) destination 4 d in
      if copied then remove_source e else (false, e)

  unfoldable pub move_path : Rename → Disk → Bool × Disk
  unfolding prepare_destination copy_and_remove
  move_path rename d =
      let (made, e) = prepare_destination s.may_make destination d in
      if not made then (false, e) else elim rename [
        | renamed ↦ (true, put source none (put destination (e source) e))
        | rename_failed ↦ (false, e)
        | other_device ↦ copy_and_remove e
      ]
