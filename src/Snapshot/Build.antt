-- ===== src/Snapshot/Build.antt =====
-- `syseba_snapshot_insert` and `syseba_snapshot_build`: the tables that the watcher builds.
use sy_se_ba.Prelude.{
  ℕ, zero, suc, ◌+◌, ◌%◌, ◌≡◌, refl, ap, subst, ◌∙◌, sym, Bool, true, false, not, Option, none,
  some, List, [], ◌∷◌, length, length-set, length-replicate, replicate, get_or, set, All, ◌==◌,
  if◌then◌else◌, inl, inr, ◌⊎◌, Option-cases, arith,
}
use sy_se_ba.Prelude.Text.{Text}
use sy_se_ba.Walk.{Node, Walked, Callback, walk_files, enoent}
use sy_se_ba.Walk.Invariant.{walk_files-keeps}
use sy_se_ba.Snapshot.{
  Entry, Chain, Snapshot, snapshot_hash, home, snapshot_insert, empty_snapshot, bucket_count,
}
use sy_se_ba.Snapshot.Table.{PlacedFrom, IsFresh}

abbrev pub enomem : ℕ
enomem = 12

-- `stat` is what `syseba_fs_stat` finds: an error number, or the size and the time.
module _ (stat : Text → ℕ ⊎ (ℕ × ℕ)) (allocated : Text → Bool) where
  unfoldable pub snapshot_build_entry : Callback Snapshot
  snapshot_build_entry path is_directory s errno = elim (stat path) [
    | inl e ↦ record { ok = e == enoent; context = s; errno = e }
    | inr (size, mtime_ns) ↦
        elim (snapshot_insert (allocated path) s path size mtime_ns is_directory) [
          | none ↦ record { ok = false; context = s; errno = enomem }
          | some t ↦ record { ok = true; context = t; errno = errno }
        ]
  ]

  -- `have_buckets` says whether `calloc` finds room for the buckets.
  unfoldable pub snapshot_build : Bool → Text → Node → Option Snapshot
  unfolding snapshot_build_entry
  snapshot_build have_buckets root tree =
      if not have_buckets
      then none
      else let w = walk_files snapshot_build_entry root tree empty_snapshot in
        if w.ok then some w.context else none

-- Every entry stands in the bucket of its hash, unmarked, and there is at least one bucket.
pub record IsPlaced (s : Snapshot) : Type 0 where
  pub placed : PlacedFrom (length s.buckets) 0 s.buckets
  pub fresh : All IsFresh s.buckets
  pub count : length s.buckets ≡ bucket_count

pub PlacedFrom-set :
    (n i k : ℕ) (e : Entry) (buckets : List Chain)
    → PlacedFrom n i buckets
    → snapshot_hash e.path % n ≡ i + k
    → PlacedFrom n i (set buckets k (e ∷ get_or buckets k []))
PlacedFrom-set n i k e [] h q = _
PlacedFrom-set n i zero e (c ∷ buckets) (h, hs) q = ((q ∙ omega arith, h), hs)
PlacedFrom-set n i (suc k) e (c ∷ buckets) (h, hs) q =
    (h, PlacedFrom-set n (suc i) k e buckets hs (omega arith))

-- A property of the head and of every bucket is one of the changed bucket.
pub All-set {κ} :
    (P : Chain → Type κ) (k : ℕ) (e : Entry) (buckets : List Chain)
    → ((c : Chain) → get_or buckets k [] ≡ c → P c → P (e ∷ c))
    → All P buckets
    → All P (set buckets k (e ∷ get_or buckets k []))
All-set P k e [] f h = _
All-set P zero e (c ∷ buckets) f (h, hs) = (f c refl h, hs)
All-set P (suc k) e (c ∷ buckets) f (h, hs) = (h, All-set P k e buckets f hs)

-- The entry that an insertion makes.
abbrev pub fresh_entry : Text → ℕ → ℕ → Bool → Entry
fresh_entry path size mtime_ns is_directory = record {
  path = path;
  size = size;
  mtime_ns = mtime_ns;
  is_directory = is_directory;
  seen = false;
}

pub snapshot_insert_buckets :
    (allocated : Bool) (s t : Snapshot) (path : Text) (size mtime_ns : ℕ) (is_directory : Bool)
    → snapshot_insert allocated s path size mtime_ns is_directory ≡ some t
    → t.buckets
      ≡ set s.buckets
          (home s.buckets path)
          (fresh_entry path size mtime_ns is_directory ∷ get_or s.buckets (home s.buckets path) [])
unfolding snapshot_insert
snapshot_insert_buckets false s t path size mtime_ns is_directory h = cc
snapshot_insert_buckets true s t path size mtime_ns is_directory h = cc

snapshot_insert-IsPlaced :
    (allocated : Bool) (s t : Snapshot) (path : Text) (size mtime_ns : ℕ) (is_directory : Bool)
    → snapshot_insert allocated s path size mtime_ns is_directory ≡ some t
    → IsPlaced s
    → IsPlaced t
snapshot_insert-IsPlaced allocated s t path size mtime_ns is_directory h p =
    let e = fresh_entry path size mtime_ns is_directory in
    let k = home s.buckets path in
    let same = snapshot_insert_buckets allocated s t path size mtime_ns is_directory h in
    let count = ap length same ∙ length-set s.buckets k (e ∷ get_or s.buckets k []) in
    record {
      placed =
          subst (λ b. PlacedFrom (length t.buckets) 0 b) (sym same)
            (subst (λ n. PlacedFrom n 0 (set s.buckets k (e ∷ get_or s.buckets k []))) (sym count)
              (PlacedFrom-set (length s.buckets) 0 k e s.buckets p.placed (omega arith)));
      fresh =
          subst (All IsFresh) (sym same)
            (All-set IsFresh k e s.buckets (λ c q g. (refl, g)) p.fresh);
      count = count ∙ p.count;
    }

empty_snapshot-IsPlaced : IsPlaced empty_snapshot
unfolding empty_snapshot
empty_snapshot-IsPlaced = record {
  placed = placed_none bucket_count 0 bucket_count;
  fresh = fresh_none bucket_count;
  count = length-replicate {A = Chain} bucket_count [];
}
  where
    placed_none : (n i k : ℕ) → PlacedFrom n i (replicate k [])
    placed_none n i zero = _
    placed_none n i (suc k) = (_, placed_none n (suc i) k)

    fresh_none : (k : ℕ) → All IsFresh (replicate k [])
    fresh_none zero = _
    fresh_none (suc k) = (_, fresh_none k)

step-IsPlaced :
    (stat : Text → ℕ ⊎ (ℕ × ℕ)) (allocated : Text → Bool) (path : Text) (is_directory : Bool)
    (s : Snapshot) (errno : ℕ)
    → IsPlaced s
    → IsPlaced (snapshot_build_entry stat allocated path is_directory s errno).context
unfolding snapshot_build_entry
step-IsPlaced stat allocated path is_directory s errno p = by_stat (stat path) refl
  where
    by_stat :
        (o : ℕ ⊎ (ℕ × ℕ))
        → stat path ≡ o
        → IsPlaced (snapshot_build_entry stat allocated path is_directory s errno).context
    by_stat (inl e) h = rw (snapshot_build_entry, h) p
    by_stat (inr (size, mtime_ns)) h =
        elim (Option-cases (snapshot_insert (allocated path) s path size mtime_ns is_directory)) [
          | inl g ↦ rw (snapshot_build_entry, h, g) p
          | inr (t, g) ↦
              rw (snapshot_build_entry, h, g)
                (snapshot_insert-IsPlaced (allocated path) s t path size mtime_ns is_directory g p)
        ]

-- A snapshot that syseba_snapshot_build builds from any tree has 4093 buckets, every entry in the
-- bucket of its hash, and no entry marked as seen.
pub snapshot_build-IsPlaced :
    (stat : Text → ℕ ⊎ (ℕ × ℕ)) (allocated : Text → Bool) (have_buckets : Bool) (root : Text)
    (tree : Node) (s : Snapshot)
    → snapshot_build stat allocated have_buckets root tree ≡ some s
    → IsPlaced s
unfolding snapshot_build
snapshot_build-IsPlaced stat allocated have_buckets root tree s h =
    let w = walk_files (snapshot_build_entry stat allocated) root tree empty_snapshot in
    subst IsPlaced (same w have_buckets h) (
      walk_files-keeps (snapshot_build_entry stat allocated) IsPlaced (step-IsPlaced stat allocated)
        root tree empty_snapshot empty_snapshot-IsPlaced)
  where
    same :
        (w : Walked Snapshot) (b : Bool)
        → (if not b then none else if w.ok then some w.context else none) ≡ some s
        → w.context ≡ s
    same w b h = ground arith
