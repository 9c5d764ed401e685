-- ===== src/Files/Moved.antt =====
-- A file that `syseba_move_path` of src/fs.c moves is not lost.
use sy_se_ba.Prelude.{
  ℕ, ◌≡◌, ◌⊎◌, inl, inr, refl, sym, ◌∙◌, subst, Bool, true, false, not, Option, none, some,
  if◌then◌else◌, if_both,
}
use sy_se_ba.Prelude.Text.{Text, streq}
use sy_se_ba.Walk.{Node, file, special, vanished, lstat_failed, directory, locked}
use sy_se_ba.Files.{Thing, Disk, put, prepare_destination}
use sy_se_ba.Files.Mkdirs.{Grows, put_other, put_self, prepare_destination-Grows}
use sy_se_ba.Files.Copy.{temporary_name, copy_file}
use sy_se_ba.Files.Atomic.{Copied, IsAtomic, copy_file-IsAtomic}
use sy_se_ba.Files.Remove.{Removal, remove_path}
use sy_se_ba.Files.Tree.{Setting, is_tree}
use sy_se_ba.Files.Move.{
  Rename, renamed, other_device, rename_failed, remove_all, remove_source, copy_and_remove,
  move_path,
}

module _ (s : Setting) (source destination : Text) (t : Thing) where
  -- The thing itself, or a whole copy of the source.
  unfoldable pub Arrived : Option Thing → Type 0
  Arrived thing = (thing ≡ some t) ⊎ Copied s.may_make (s.attempts source) destination thing

  pub record IsMoved (r : Bool × Disk) : Type 0 where
    pub safe : (r.1 source ≡ some t) ⊎ Arrived (r.1 destination)
    pub finished : r.0 ≡ true → Arrived (r.1 destination)

  stayed : (d : Disk) → d source ≡ some t → IsMoved (false, d)
  stayed d h = record { safe = inl h; finished = λ e. cc }

  arrived : (b : Bool) (d : Disk) → Arrived (d destination) → IsMoved (b, d)
  arrived b d h = record { safe = inr h; finished = λ e. h }

  module _ (works : Removal → Bool) (memory : Text → Bool) (node : Node)
      (apart : streq destination source ≡ false) (no_tree : is_tree node ≡ false) where
    -- The removal of a file leaves the destination alone.
    remove_source-destination :
        (node : Node) (d : Disk)
        → is_tree node ≡ false
        → (remove_source s works memory source destination node d).1 destination ≡ d destination
    unfolding remove_source remove_path remove_all
    remove_source-destination file d h =
        if_both (λ (e : Disk). e destination ≡ d destination) (works (source, false)) _ _
          (put_other source destination none d apart) refl
    remove_source-destination special d h =
        if_both (λ (e : Disk). e destination ≡ d destination) (works (source, false)) _ _
          (put_other source destination none d apart) refl
    remove_source-destination vanished d h = refl
    remove_source-destination (lstat_failed e) d h = refl
    remove_source-destination (directory below) d h = cc
    remove_source-destination (locked e) d h = cc

    module _
        (kept : (i : ℕ)
          → streq source (temporary_name (s.attempts source i).suffix destination i) ≡ false)
        (other : streq source destination ≡ false) where
      by_copied :
          (d : Disk) (c : Bool × Disk)
          → IsAtomic s.may_make (s.attempts source) destination d c
          → d source ≡ some t
          → IsMoved (
              if c.0
              then remove_source s works memory source destination node c.1
              else (false, c.1))
      unfolding Arrived
      by_copied d (true, e) atomic h =
          arrived _ (remove_source s works memory source destination node e).1 (
            subst Arrived (sym (remove_source-destination node e no_tree))
              (inr (atomic.finished refl)))
      by_copied d (false, e) atomic h = stayed e (atomic.keeps source t other kept h)

      copy_and_remove-IsMoved :
          (d : Disk)
          → d source ≡ some t
          → IsMoved (copy_and_remove s works memory source destination node d)
      unfolding copy_and_remove
      copy_and_remove-IsMoved d h = rw no_tree (
          by_copied d (copy_file s.may_make (s.attempts source) destination 4 d)
            (copy_file-IsAtomic s.may_make (s.attempts source) destination 4 d) h)

      -- For a source that is no directory and stands neither at the destination nor at the name
      -- of a temporary file, whatever the rename and the other calls answer, after
      -- syseba_move_path what stood at the source still stands there, or it or a whole copy of
      -- the source stands at the destination; after a result of 0 the destination has it.
      pub move_path-IsMoved :
          (rename : Rename) (d : Disk)
          → d source ≡ some t
          → IsMoved (move_path s works memory source destination node rename d)
      unfolding move_path Arrived
      move_path-IsMoved rename d h =
          by_made (prepare_destination s.may_make destination d)
            (prepare_destination-Grows s.may_make destination d)
        where
          by_rename :
              (rename : Rename) (e : Disk)
              → e source ≡ some t
              → IsMoved (elim rename [
                | renamed ↦ (true, put source none (put destination (e source) e))
                | rename_failed ↦ (false, e)
                | other_device ↦ copy_and_remove s works memory source destination node e
              ])
          by_rename renamed e k = arrived true (put source none (put destination (e source) e)) (
              inl (
                put_other source destination none (put destination (e source) e) apart
                ∙ put_self destination (e source) e
                ∙ k))
          by_rename rename_failed e k = stayed e k
          by_rename other_device e k = copy_and_remove-IsMoved e k

          by_made :
              (m : Bool × Disk)
              → Grows d m.1
              → IsMoved (
                  if not m.0 then (false, m.1) else elim rename [
                    | renamed ↦ (true, put source none (put destination (m.1 source) m.1))
                    | rename_failed ↦ (false, m.1)
                    | other_device ↦ copy_and_remove s works memory source destination node m.1
                  ])
          by_made m grows =
              if_both IsMoved (not m.0) _ _ (stayed m.1 (grows.kept source t h))
                (by_rename rename m.1 (grows.kept source t h))
