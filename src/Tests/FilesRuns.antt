-- ===== src/Tests/FilesRuns.antt =====
-- Directories and copies at fixed inputs.
use sy_se_ba.Prelude.{
  ◌++◌, length, length-append, Bool-cases, inl, inr, ap, ℕ, zero, suc, ◌≡◌, refl, Bool, true, false,
  none, some, [], ◌∷◌, if◌then◌else◌, arith,
}
use sy_se_ba.Prelude.Text.{Text, codes, streq, streq→eq}
use sy_se_ba.Prelude.Number.{decimal}
use sy_se_ba.FilePath.{normalize_separators, normalize_byte, before_slash, parent_dir}
use sy_se_ba.Files.{Thing, directory, file, Disk, put, mkdirs, drop_slashes, prepare_destination}
use sy_se_ba.Files.Mkdirs.{Makes, mkdirs-Makes}
use sy_se_ba.Files.Copy.{temporary_name, Write, wrote, Read, chunk, Stat, Attempt, copy_file}
use sy_se_ba.Walk
use sy_se_ba.Walk.{Listing, entry, end, Node}
use sy_se_ba.Files.Remove.{
  Removal, removals, Follows, remove_collect, remove_path, remove_path-Follows,
}
use sy_se_ba.Files.Move.{other_device, move_path}
use sy_se_ba.Files.Moved.{IsMoved, move_path-IsMoved}
use sy_se_ba.Files.Tree.{Setting, copy_tree, copy_tree-keeps}
use sy_se_ba.Tests.Fixtures.{plain_view}
use sy_se_ba.Files.Atomic.{IsAtomic, copy_file-IsAtomic}

abbrev allowed : Text → Disk → Bool
allowed path d = true

-- Only the root.
abbrev bare : Disk
bare q = if streq q (codes "/") then some directory else none

mkdirs_run : ((mkdirs allowed (codes "/b//c/") bare).1 (codes "/b")) ≡ some directory
unfolding mkdirs streq normalize_separators normalize_byte
mkdirs_run = refl

mkdirs-Makes_example :
    Makes
      (drop_slashes (normalize_separators (codes "/b/c/")))
      bare
      (mkdirs allowed (codes "/b/c/") bare)
mkdirs-Makes_example = mkdirs-Makes allowed b'/' (codes "b/c/") bare

abbrev source : Stat
source = record { device = 1; inode = 2; size = 3; mtime = 9; mode = 420 }

-- The first attempt meets a write that fails; the second is interrupted once, and writes in parts.
abbrev attempt : ℕ → Attempt
attempt i = record {
  suffix = codes "7.8";
  is_regular = true;
  opened = some source;
  may_create = true;
  rounds = elim i [
    | zero ↦ chunk (codes "abc") (Write.failed ∷ []) ∷ []
    | suc i ↦
        Read.interrupted ∷ chunk (codes "abc") (wrote 2 ∷ Write.interrupted ∷ wrote 1 ∷ []) ∷ []
  ];
  final = some source;
  sets_time = true;
  now = 10;
  sealed = true;
  unlinks = true;
  renames = true;
  syncs = true;
}

copied_run : ((copy_file allowed attempt (codes "/b/x") 4 bare).0 ≡ true)
unfolding copy_file prepare_destination mkdirs streq normalize_separators normalize_byte parent_dir
    before_slash decimal
copied_run = refl

left_run :
    (copy_file allowed attempt (codes "/b/x") 4 bare).1 (codes "/b/x")
    ≡ some (file (codes "abc") 9 420)
unfolding copy_file prepare_destination mkdirs streq normalize_separators normalize_byte parent_dir
    before_slash decimal
left_run = refl

copy_file-IsAtomic_example :
    IsAtomic allowed attempt (codes "/b/x") bare (copy_file allowed attempt (codes "/b/x") 4 bare)
copy_file-IsAtomic_example = copy_file-IsAtomic allowed attempt (codes "/b/x") 4 bare

abbrev setting : Setting
setting = record {
  view = λ d. plain_view;
  may_make = allowed;
  attempts = λ path. attempt;
  errno_after = λ path errno. errno;
}

abbrev marked : Disk
marked = put (codes "/x") (some directory) bare

short-apart :
    (suffix target : Text) (i : ℕ) → streq (codes "/x") (temporary_name suffix target i) ≡ false
unfolding temporary_name
short-apart suffix target i =
    elim (Bool-cases (streq (codes "/x") (temporary_name suffix target i))) [
      | inl same ↦ absurd (
          omega (
            arith,
            ap length (streq→eq (codes "/x") _ same),
            length-append (target ++ codes ".syseba-tmp." ++ suffix) (b'.' ∷ decimal i),
            length-append (target ++ codes ".syseba-tmp.") suffix,
            length-append target (codes ".syseba-tmp."),
          ))
      | inr apart ↦ apart
    ]

copy_tree-keeps_example :
    (copy_tree setting
        (codes "/s")
        (codes "/b")
        false
        (Node.directory (entry (codes "c") Node.file end))
        marked).1
      (codes "/x")
    ≡ some directory
unfolding put streq
copy_tree-keeps_example =
    copy_tree-keeps setting (codes "/s") (codes "/b") false refl (codes "/x") directory
      (λ path target i. short-apart (codes "7.8") target i)
      (Node.directory (entry (codes "c") Node.file end)) marked refl

abbrev fine : Removal → Bool
fine r = true

abbrev nested : Listing
nested =
    entry (codes "a") (Node.directory (entry (codes "b") Node.file end))
      (entry (codes "c") Node.file end)

removed_run :
    (remove_path fine (λ _. true) (codes "/r") (Node.directory nested)).0
    ≡ (codes "/r/c", false)
      ∷ (codes "/r/a/b", false)
      ∷ (codes "/r/a", true)
      ∷ (codes "/r", true)
      ∷ []
unfolding remove_path remove_collect Walk.walk_files Walk.walk_listing Walk.is_dots streq
removed_run = refl

remove_path-Follows_example :
    Follows
      (removals (codes "/r") nested ++ (codes "/r", true) ∷ [])
      (remove_path fine (λ _. true) (codes "/r") (Node.directory nested))
unfolding Walk.walk_files Walk.walk_listing Walk.is_dots streq remove_collect
remove_path-Follows_example = remove_path-Follows fine (codes "/r") nested refl

abbrev moved_thing : Thing
moved_thing = file (codes "abc") 9 420

-- A file on another device, and a system in which all removals work.
move_path-IsMoved_example : IsMoved setting (codes "/s") (codes "/b/x") moved_thing (
    move_path setting
      (λ r. true)
      (λ path. true)
      (codes "/s")
      (codes "/b/x")
      Node.file
      other_device
      (put (codes "/s") (some moved_thing) bare))
unfolding put streq temporary_name
move_path-IsMoved_example =
    move_path-IsMoved setting (codes "/s") (codes "/b/x") moved_thing (λ r. true) (λ path. true)
      Node.file refl refl (λ i. refl) refl other_device (put (codes "/s") (some moved_thing) bare)
      refl
