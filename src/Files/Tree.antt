-- ===== src/Files/Tree.antt =====
-- `syseba_copy_tree` and its callback of src/fs.c. The source is the tree that the walk sees, the
-- context of the walk is the disk.
use sy_se_ba.Prelude.{
  ℕ, ◌≡◌, ap, subst, Bool, true, false, ◌&&◌, ◌||◌, not, Option, none, some, [], ◌∷◌, if◌then◌else◌,
  Bool-cases, if_both, if_either, inl, inr, arith,
}
use sy_se_ba.Prelude.Text.{Text, streq, streq→eq}
use sy_se_ba.FilePath.{path_max}
use sy_se_ba.Confine.{FileView, relative_path, safe_join}
use sy_se_ba.Walk.{Node, directory, locked, Walked, Callback, walk_files}
use sy_se_ba.Walk.Invariant.{walk_files-keeps}
use sy_se_ba.Files.{Thing, Disk, is_some, is_directory, mkdirs}
use sy_se_ba.Files.Mkdirs.{mkdirs-Makes}
use sy_se_ba.Files.Copy.{Attempt, temporary_name, copy_file}
use sy_se_ba.Files.Atomic.{copy_file-IsAtomic}

abbrev pub is_tree : Node → Bool
is_tree (directory below) = true
is_tree (locked e) = true
is_tree _ = false

-- How the path functions see a disk, which directories may be made, what the attempts to copy a path
-- meet, and what errno is after a call.
pub record Setting : Type 0 where
  pub view : Disk → FileView
  pub may_make : Text → Disk → Bool
  pub attempts : Text → ℕ → Attempt
  pub errno_after : Text → ℕ → ℕ

module _ (s : Setting) (source destination : Text) (overwrite : Bool) where
  -- One entry, with its place below the destination.
  unfoldable pub copy_entry : Text → Bool → Text → Disk → Bool × Disk
  copy_entry path is_directory target d =
      if is_directory
      then mkdirs s.may_make target d
      else if not overwrite && is_some (d target)
      then (false, d)
      else copy_file s.may_make (s.attempts path) target 4 d

  unfoldable pub copy_tree_entry : Callback Disk
  unfolding copy_entry
  copy_tree_entry path is_directory d errno = elim (relative_path (s.view d) source path path_max) [
    | none ↦ record { ok = false; context = d; errno = 22 }
    | some relative ↦ elim (safe_join (s.view d) destination relative path_max) [
      | none ↦ record { ok = false; context = d; errno = 22 }
      | some target ↦
          let (fine, e) = copy_entry path is_directory target d in
          record { ok = fine; context = e; errno = s.errno_after path errno }
    ]
  ]

  unfoldable pub copy_tree : Node → Disk → Bool × Disk
  unfolding copy_tree_entry
  copy_tree node d =
      if not (is_tree node) || (is_some (d destination) && not (is_directory (d destination)))
      then (false, d)
      else (let (made, e) = mkdirs s.may_make destination d in
          if not made
          then (false, e)
          else let w = walk_files copy_tree_entry source node e in (w.ok, w.context))

  -- No path for a temporary file of a copy.
  abbrev pub IsKeptName : Text → Type 0
  IsKeptName q =
      (path target : Text) (i : ℕ)
      → streq q (temporary_name (s.attempts path i).suffix target i) ≡ false

  module _ (gentle : overwrite ≡ false) (q : Text) (t : Thing) (kept : IsKeptName q) where
    Holds : Disk → Type 0
    Holds d = d q ≡ some t

    mkdirs-Holds : (path : Text) (d : Disk) → Holds d → Holds (mkdirs s.may_make path d).1
    unfolding mkdirs Holds
    mkdirs-Holds [] d h = h
    mkdirs-Holds (c ∷ path) d h = (mkdirs-Makes s.may_make c path d).grows.kept q t h

    copy_entry-Holds :
        (path : Text) (b : Bool) (target : Text) (d : Disk)
        → Holds d
        → Holds (copy_entry path b target d).1
    unfolding copy_entry Holds
    copy_entry-Holds path b target d h = if_both Kept b _ _ (mkdirs-Holds target d h) (
        if_either Kept (not overwrite && is_some (d target)) _ _ (λ _. h)
          (λ free.
            (copy_file-IsAtomic s.may_make (s.attempts path) target 4 d).keeps q t (apart free)
              (λ i. kept path target i) h))
      where
        Kept : Bool × Disk → Type 0
        Kept r = Holds r.1

        blocked : (o b : Bool) → o ≡ false → not o && b ≡ false → b ≡ false
        blocked o b e f = ground arith

        apart : not overwrite && is_some (d target) ≡ false → streq q target ≡ false
        apart free = elim (Bool-cases (streq q target)) [
          | inl same ↦ cc (
            blocked overwrite (is_some (d target)) gentle free,
            ap is_some (subst (λ p. d p ≡ some t) (streq→eq q target same) h),
          )
          | inr other ↦ other
        ]

    entry-Holds :
        (path : Text) (b : Bool) (d : Disk) (errno : ℕ)
        → Holds d
        → Holds (copy_tree_entry path b d errno).context
    unfolding copy_tree_entry
    entry-Holds path b d errno h = by_relative (relative_path (s.view d) source path path_max)
      where
        Kept : Walked Disk → Type 0
        Kept w = Holds w.context

        by_target :
            (o : Option Text)
            → Kept (elim o [
              | none ↦ record { ok = false; context = d; errno = 22 }
              | some target ↦
                  let (fine, e) = copy_entry path b target d in
                  record { ok = fine; context = e; errno = s.errno_after path errno }
            ])
        by_target none = h
        by_target (some target) = copy_entry-Holds path b target d h

        by_relative :
            (o : Option Text)
            → Kept (elim o [
              | none ↦ record { ok = false; context = d; errno = 22 }
              | some relative ↦ elim (safe_join (s.view d) destination relative path_max) [
                | none ↦ record { ok = false; context = d; errno = 22 }
                | some target ↦
                    let (fine, e) = copy_entry path b target d in
                    record { ok = fine; context = e; errno = s.errno_after path errno }
              ]
            ])
        by_relative none = h
        by_relative (some relative) = by_target (safe_join (s.view d) destination relative path_max)

    -- Without the permission to overwrite, syseba_copy_tree leaves whatever stood on the disk as
    -- it was, at any path that is no name of a temporary file, for any tree and any answers of
    -- the system calls.
    pub copy_tree-keeps : (node : Node) (d : Disk) → d q ≡ some t → (copy_tree node d).1 q ≡ some t
    unfolding copy_tree Holds
    copy_tree-keeps node d h =
        if_both Kept
          (not (is_tree node) || (is_some (d destination) && not (is_directory (d destination)))) _
          _ h (by_made (mkdirs s.may_make destination d) (mkdirs-Holds destination d h))
      where
        Kept : Bool × Disk → Type 0
        Kept r = Holds r.1

        by_made :
            (r : Bool × Disk)
            → Kept r
            → Kept (
                if not r.0
                then (false, r.1)
                else let w = walk_files copy_tree_entry source node r.1 in (w.ok, w.context))
        by_made (false, e) k = k
        by_made (true, e) k = walk_files-keeps copy_tree_entry Holds entry-Holds source node e k
