-- ===== src/Files.antt =====
-- Files on a disk: `syseba_mkdirs` of src/platform.c and `syseba_prepare_destination` of src/fs.c.
-- What the system calls answer is given; errno is left out.
pub mod Mkdirs
pub mod Copy
pub mod Copied
pub mod Atomic
pub mod Remove
pub mod Tree
pub mod Move
pub mod Moved
use sy_se_ba.Prelude.{
  ℕ, zero, suc, ◌+◌, ◌*◌, ◌%◌, ◌^◌, Bool, true, false, ◌&&◌, ◌||◌, not, Option, none, some, List,
  [], ◌∷◌, ◌++◌, length, take, drop, ◌==◌, if◌then◌else◌,
}
use sy_se_ba.Prelude.Text.{Text, codes, streq, fits}
use sy_se_ba.Prelude.Number.{decimal}
use sy_se_ba.FilePath.{path_max, sep, normalize_separators, parent_dir}

abbrev pub Bytes : Type 0
Bytes = List ℕ

-- What stands at a path: `special` is a link, a socket, a device or a pipe.
pub data Thing : Type 0 where
  directory : Thing
  file : Bytes → ℕ → ℕ → Thing
  special : Thing

abbrev pub Disk : Type 0
Disk = Text → Option Thing

abbrev pub is_some : Option Thing → Bool
is_some none = false
is_some (some thing) = true

abbrev pub is_directory : Option Thing → Bool
is_directory (some directory) = true
is_directory _ = false

unfoldable pub put : Text → Option Thing → Disk → Disk
put path thing d q = if streq q path then thing else d q

-- Whether `mkdir` makes a directory where nothing is, and where something stands, whether its errno
-- is EEXIST (it may also be EACCES or EROFS). The function goes on in both cases.
module _ (may_make : Text → Disk → Bool) where
  unfoldable pub make_directory : Text → Disk → Bool × Disk
  unfolding put
  make_directory path d =
      if is_some (d path)
      then (may_make path d, d)
      else if may_make path d
      then (true, put path (some directory) d)
      else (false, d)

  -- The cursor stands between `front` and the rest.
  unfoldable pub mkdirs_loop : Text → Text → Disk → Bool × Disk
  unfolding make_directory
  mkdirs_loop front [] d = make_directory front d
  mkdirs_loop front (c ∷ rest) d = elim (c == sep) [
    | false ↦ mkdirs_loop (front ++ c ∷ []) rest d
    | true ↦
        let (made, e) = make_directory front d in
        elim made [ false ↦ (false, e) | true ↦ mkdirs_loop (front ++ c ∷ []) rest e ]
  ]

-- The slashes at the end go, but the first byte stays.
unfoldable pub drop_tail : Text → Text
drop_tail [] = []
drop_tail (c ∷ s) = let rest = drop_tail s in if c == sep && streq rest [] then [] else c ∷ rest

-- `while (length > 1 && current[length - 1] == '/')`
unfoldable pub drop_slashes : Text → Text
unfolding drop_tail
drop_slashes [] = []
drop_slashes (c ∷ s) = c ∷ drop_tail s

module _ (may_make : Text → Disk → Bool) where
  unfoldable pub mkdirs_text : Text → Disk → Bool × Disk
  unfolding mkdirs_loop
  mkdirs_text [] d = make_directory may_make [] d
  mkdirs_text (c ∷ rest) d = mkdirs_loop may_make (c ∷ []) rest d

  unfoldable pub mkdirs : Text → Disk → Bool × Disk
  unfolding mkdirs_text drop_slashes
  mkdirs [] d = (true, d)
  mkdirs (c ∷ path) d =
      if not (fits path_max (c ∷ path))
      then (false, d)
      else mkdirs_text (drop_slashes (normalize_separators (c ∷ path))) d

  unfoldable pub prepare_destination : Text → Disk → Bool × Disk
  unfolding mkdirs
  prepare_destination destination d = elim (parent_dir destination path_max) [
    | none ↦ (false, d)
    | some parent ↦ mkdirs parent d
  ]
