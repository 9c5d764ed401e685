-- ===== src/Files/Copy.antt =====
-- `syseba_copy_file_once_posix`, `syseba_atomic_replace` and `syseba_copy_file` of src/fs.c. What
-- the system calls answer is given; errno is left out.
use sy_se_ba.Prelude.{
  ℕ, zero, suc, ◌%◌, ◌^◌, Bool, true, false, ◌&&◌, ◌||◌, not, Option, none, some, List, [], ◌∷◌,
  ◌++◌, length, take, drop, ◌==◌, if◌then◌else◌,
}
use sy_se_ba.Prelude.Text.{Text, codes, fits}
use sy_se_ba.Prelude.Number.{decimal}
use sy_se_ba.FilePath.{path_max}
use sy_se_ba.Files.{Bytes, file, Disk, is_some, is_directory, put, prepare_destination}

-- What `write` and `read` answer: EINTR, another error, or a count of bytes and the bytes. A list of
-- answers is followed by calls that write all that is left, and by the end of the file.
pub data Write : Type 0 where
  interrupted failed : Write
  wrote : ℕ → Write

pub data Read : Type 0 where
  interrupted failed : Read
  chunk : Bytes → List Write → Read

-- Whether the loop ends without an error, and the bytes in the copy.
abbrev pub Progress : Type 0
Progress = Bool × Bytes

-- The inner loop, with what is left of the buffer.
unfoldable pub write_loop : List Write → Bytes → Bytes → Progress
write_loop [] rest out = (true, out ++ rest)
write_loop (w ∷ ws) [] out = (true, out)
write_loop (Write.interrupted ∷ ws) (b ∷ rest) out = write_loop ws (b ∷ rest) out
write_loop (Write.failed ∷ ws) (b ∷ rest) out = (false, out)
write_loop (wrote n ∷ ws) (b ∷ rest) out = elim (n == 0) [
  | true ↦ (false, out)
  | false ↦ write_loop ws (drop n (b ∷ rest)) (out ++ take n (b ∷ rest))
]

-- The outer loop.
unfoldable pub copy_loop : List Read → Bytes → Progress
unfolding write_loop
copy_loop [] out = (true, out)
copy_loop (Read.interrupted ∷ rounds) out = copy_loop rounds out
copy_loop (Read.failed ∷ rounds) out = (false, out)
copy_loop (chunk [] ws ∷ rounds) out = (true, out)
copy_loop (chunk (b ∷ bytes) ws ∷ rounds) out =
    let (fine, more) = write_loop ws (b ∷ bytes) out in
    elim fine [ false ↦ (false, more) | true ↦ copy_loop rounds more ]

-- What `fstat` tells of the source: device, inode, size, time of change and permissions.
pub record Stat : Type 0 where
  pub device : ℕ
  pub inode : ℕ
  pub size : ℕ
  pub mtime : ℕ
  pub mode : ℕ

-- One attempt as the system calls answer it. `suffix` has the process and the clock.
pub record Attempt : Type 0 where
  pub suffix : Text
  pub is_regular : Bool
  -- `open` and `fstat` of the source, if it is a regular file
  pub opened : Option Stat
  -- `open` of the temporary file, where nothing stands
  pub may_create : Bool
  pub rounds : List Read
  -- the second `fstat`
  pub final : Option Stat
  -- whether `futimens` sets the time, and the time that the file has otherwise
  pub sets_time : Bool
  pub now : ℕ
  -- `fchmod` and `fsync`
  pub sealed : Bool
  pub unlinks : Bool
  pub renames : Bool
  -- `syseba_sync_parent_directory`
  pub syncs : Bool

unfoldable pub same_source : Stat → Stat → ℕ → Bool
same_source before after copied =
    before.device == after.device
    && before.inode == after.inode
    && before.size == after.size
    && copied % 2 ^ 64 == before.size
    && before.mtime == after.mtime

abbrev pub unlink : Bool → Text → Disk → Disk
unlink works path d = if works then put path none d else d

-- "%s.syseba-tmp.%u.%u.%u"
unfoldable pub temporary_name : Text → Text → ℕ → Text
temporary_name suffix destination attempt =
    destination ++ codes ".syseba-tmp." ++ suffix ++ b'.' ∷ decimal attempt

module _ (a : Attempt) where
  -- After the loop, with the bytes that it wrote.
  unfoldable pub finish_copy : Stat → Bytes → Text → Disk → Bool × Disk
  unfolding put same_source
  finish_copy before bytes temporary d = elim a.final [
    | none ↦ (false, unlink a.unlinks temporary d)
    | some after ↦
        if not (same_source before after (length bytes)) || not a.sealed
        then (false, unlink a.unlinks temporary d)
        else (
          true,
          put temporary
              (some (file bytes (if a.sets_time then before.mtime else a.now) (before.mode % 512)))
              d,
        )
  ]

  -- With the temporary file created.
  unfoldable pub fill_copy : Stat → Text → Disk → Bool × Disk
  unfolding copy_loop finish_copy
  fill_copy before temporary d =
      let (fine, bytes) = copy_loop a.rounds [] in
      let e = put temporary (some (file bytes a.now (before.mode % 512))) d in
      if fine then finish_copy before bytes temporary e else (false, unlink a.unlinks temporary e)

  -- `rename` puts the file at the destination, unless a directory stands there. The flag is the
  -- result of `syseba_sync_parent_directory`.
  unfoldable pub atomic_replace : Text → Text → Disk → Bool × Disk
  unfolding put
  atomic_replace temporary destination d =
      if not a.renames || is_directory (d destination)
      then (false, d)
      else (a.syncs, put temporary none (put destination (d temporary) d))

module _ (may_make : Text → Disk → Bool) (a : Attempt) where
  -- Every failure ends with `unlink(destination)`.
  unfoldable pub copy_file_once : Text → Disk → Bool × Disk
  unfolding prepare_destination fill_copy
  copy_file_once temporary d = elim a.opened [
    | none ↦ (false, unlink a.unlinks temporary d)
    | some before ↦
        let (made, e) = prepare_destination may_make temporary d in
        if not made || is_some (e temporary) || not a.may_create
        then (false, unlink a.unlinks temporary e)
        else fill_copy a before temporary e
  ]

  -- The copy and, if it succeeds, the replacement; then a failure is cleaned up.
  unfoldable pub copy_and_replace : Text → Text → Disk → Bool × Disk
  unfolding copy_file_once atomic_replace
  copy_and_replace temporary destination d =
      let (copied, e) = copy_file_once temporary d in
      let (replaced, f) = if copied then atomic_replace a temporary destination e else (false, e) in
      if replaced then (true, f) else (false, unlink a.unlinks temporary f)

module _ (may_make : Text → Disk → Bool) (attempts : ℕ → Attempt) where
  -- `left` attempts are left; the pauses between them are left out.
  unfoldable pub attempt_loop : ℕ → ℕ → Text → Disk → Bool × Disk
  unfolding temporary_name copy_and_replace
  attempt_loop zero attempt destination d = (false, d)
  attempt_loop (suc left) attempt destination d =
      let a = attempts attempt in
      let temporary = temporary_name a.suffix destination attempt in
      if not (fits path_max temporary) || not a.is_regular
      then (false, d)
      else let (copied, e) = copy_and_replace may_make a temporary destination d in
        elim copied [ true ↦ (true, e) | false ↦ attempt_loop left (suc attempt) destination e ]

  unfoldable pub copy_file : Text → ℕ → Disk → Bool × Disk
  unfolding prepare_destination attempt_loop
  copy_file destination count d =
      let (made, e) = prepare_destination may_make destination d in
      if not made
      then (false, e)
      else attempt_loop (if count == 0 then 1 else count) 0 destination e
