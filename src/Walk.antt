-- ===== src/Walk.antt =====
-- The directory walk of src/fs.c (`syseba_walk_internal`, `syseba_walk_files`), on POSIX. The tree
-- is what `opendir`, `readdir` and `lstat` report while the walk goes on.
pub mod Visits
pub mod Errno
pub mod Invariant
pub mod Gathers
use sy_se_ba.Prelude.{
  ℕ, ◌+◌, Bool, true, false, ◌&&◌, ◌||◌, not, List, ◌∷◌, ◌++◌, ◌==◌, if◌then◌else◌,
}
use sy_se_ba.Prelude.Text.{Text, codes, streq, fits}
use sy_se_ba.FilePath.{path_max, sep}

mutual
  -- What `lstat` says of an entry; `special` is a link, a socket, a device or a pipe, and `locked`
  -- a directory that `opendir` refuses.
  pub data Node : Type 0 where
    file : Node
    directory : Listing → Node
    locked : ℕ → Node
    special : Node
    vanished : Node
    lstat_failed : ℕ → Node

  -- What `readdir` yields in turn: it ends with NULL, and leaves `errno` alone unless it fails.
  pub data Listing : Type 0 where
    entry : Text → Node → Listing → Listing
    end : Listing
    read_failed : ℕ → Listing

abbrev pub enoent : ℕ
enoent = 2

abbrev pub enotdir : ℕ
enotdir = 20

abbrev pub enametoolong : ℕ
enametoolong = 36

-- The callback's context with `errno`, and whether the call returned 0.
pub record Walked {ℓ} (S : Type ℓ) : Type ℓ where
  pub ok : Bool
  pub context : S
  pub errno : ℕ

abbrev pub Callback {ℓ} : Type ℓ → Type ℓ
Callback S = Text → Bool → S → ℕ → Walked S

unfoldable pub is_dots : Text → Bool
is_dots name = streq name (codes ".") || streq name (codes "..")

-- "%s/%s"
abbrev pub child_path : Text → Text → Text
child_path root name = root ++ sep ∷ name

module _ {ℓ} {S : Type ℓ} (callback : Callback S) where
  unfoldable mutual
    unfolding is_dots

    -- The loop over the entries.
    pub walk_listing : Text → Listing → S → ℕ → Walked S
    walk_listing root end s errno = record { ok = errno == 0; context = s; errno = errno }
    walk_listing root (read_failed e) s errno = record { ok = e == 0; context = s; errno = e }
    walk_listing root (entry name node rest) s errno = elim (is_dots name) [
      | true ↦ walk_listing root rest s errno
      | false ↦ elim (fits path_max (child_path root name)) [
        | false ↦ record { ok = false; context = s; errno = enametoolong }
        | true ↦
            let r = walk_node (child_path root name) node s errno in
            elim r.ok [ false ↦ r | true ↦ walk_listing root rest r.context r.errno ]
      ]
    ]

    -- One entry: the callback, and the directory below it.
    pub walk_node : Text → Node → S → ℕ → Walked S
    walk_node path file s errno = callback path false s errno
    walk_node path special s errno = record { ok = true; context = s; errno = errno }
    walk_node path vanished s errno = record { ok = true; context = s; errno = enoent }
    walk_node path (lstat_failed e) s errno = record { ok = false; context = s; errno = e }
    walk_node path (directory below) s errno =
        let r = callback path true s errno in
        elim r.ok [ false ↦ r | true ↦ walk_listing path below r.context 0 ]
    walk_node path (locked e) s errno =
        let r = callback path true s errno in
        elim r.ok [ false ↦ r | true ↦ record { ok = false; context = r.context; errno = e } ]

  -- With the directory open, `errno` is cleared once, and the loop begins.
  unfoldable pub walk_internal : Text → Listing → S → Walked S
  walk_internal root below s = walk_listing root below s 0

  -- `syseba_fs_is_directory(root)` comes first.
  unfoldable pub walk_files : Text → Node → S → Walked S
  unfolding walk_internal
  walk_files root (directory below) s = walk_internal root below s
  walk_files root (locked e) s = record { ok = false; context = s; errno = e }
  walk_files root _ s = record { ok = false; context = s; errno = enotdir }
