-- ===== src/Walk/Errno.antt =====
-- `errno` is cleared before the loop and read after it. What the loop leaves in it counts as an
-- error of `readdir`.
use sy_se_ba.Prelude.{ℕ, ◌≡◌, ◌≢◌, Bool, true, false, not, ◌||◌, ◌==◌, if◌then◌else◌, arith}
use sy_se_ba.Prelude.Text.{Text}
use sy_se_ba.Walk.{
  file, directory, locked, special, vanished, lstat_failed, Listing, entry, end, read_failed,
  is_dots, child_path, enoent, walk_listing, walk_files,
}
use sy_se_ba.Walk.Visits.{steady}

-- No directory among the entries, and an error of `readdir` is one.
unfoldable pub is_flat : Listing → Bool
is_flat end = true
is_flat (read_failed e) = not (e == 0)
is_flat (entry name (directory below) rest) = false
is_flat (entry name (locked e) rest) = false
is_flat (entry name file rest) = is_flat rest
is_flat (entry name special rest) = is_flat rest
is_flat (entry name vanished rest) = is_flat rest
is_flat (entry name (lstat_failed e) rest) = is_flat rest

-- An entry that `readdir` named and `lstat` no longer finds.
unfoldable pub has_vanished : Listing → Bool
has_vanished end = false
has_vanished (read_failed e) = false
has_vanished (entry name vanished rest) =
    (if is_dots name then false else true) || has_vanished rest
has_vanished (entry name _ rest) = has_vanished rest

module _ {ℓ} {S : Type ℓ} (step : Text → Bool → S → S) where
  -- An error number that is left over makes the loop fail at its end.
  left_over :
      (l : Listing) (root : Text) (s : S) (errno : ℕ)
      → is_flat l ≡ true
      → errno ≢ 0
      → (walk_listing (steady step) root l s errno).ok ≡ false
  unfolding walk_listing is_flat
  left_over end root s errno f h = ground arith
  left_over (read_failed e) root s errno f h = ground arith
  left_over (entry name (directory below) rest) root s errno f h = cc
  left_over (entry name (locked e) rest) root s errno f h = cc
  left_over (entry name file rest) root s errno f h = ground (
    arith,
    left_over rest root s errno f h,
    left_over rest root (step (child_path root name) false s) errno f h,
  )
  left_over (entry name special rest) root s errno f h =
      ground (arith, left_over rest root s errno f h)
  left_over (entry name vanished rest) root s errno f h = ground (
    arith,
    left_over rest root s errno f h,
    left_over rest root s enoent f (λ e. absurd (omega arith)),
  )
  left_over (entry name (lstat_failed e) rest) root s errno f h =
      ground (arith, left_over rest root s errno f h)

  vanished_stops :
      (l : Listing) (root : Text) (s : S) (errno : ℕ)
      → is_flat l ≡ true
      → has_vanished l ≡ true
      → (walk_listing (steady step) root l s errno).ok ≡ false
  unfolding walk_listing is_flat has_vanished
  vanished_stops end root s errno f v = cc
  vanished_stops (read_failed e) root s errno f v = cc
  vanished_stops (entry name (directory below) rest) root s errno f v = cc
  vanished_stops (entry name (locked e) rest) root s errno f v = cc
  vanished_stops (entry name file rest) root s errno f v = ground (
    arith,
    vanished_stops rest root s errno f v,
    vanished_stops rest root (step (child_path root name) false s) errno f v,
  )
  vanished_stops (entry name special rest) root s errno f v =
      ground (arith, vanished_stops rest root s errno f v)
  vanished_stops (entry name vanished rest) root s errno f v = ground (
    arith,
    vanished_stops rest root s errno f,
    left_over rest root s enoent f (λ e. absurd (omega arith)),
  )
  vanished_stops (entry name (lstat_failed e) rest) root s errno f v =
      ground (arith, vanished_stops rest root s errno f v)

  -- In a tree whose root holds no directory, a walk fails if an entry vanished between readdir
  -- and lstat, although the loop skips such entries and every callback returned 0 and left errno
  -- alone.
  pub walk_files-vanished :
      (l : Listing) (root : Text) (s : S)
      → is_flat l ≡ true
      → has_vanished l ≡ true
      → (walk_files (steady step) root (directory l) s).ok ≡ false
  unfolding walk_files
  walk_files-vanished l root s f v = vanished_stops l root s 0 f v
