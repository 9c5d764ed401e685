-- ===== src/Snapshot.antt =====
-- The polling watcher's picture of the source tree, src/watcher_poll.c.
pub mod Table
pub mod Lookup
pub mod Mark
pub mod Build
pub mod Insert
pub mod Reconcile
pub mod Poll
use Prim.Native.Nat.{bit_xor}
use sy_se_ba.Prelude.{
  ℕ, zero, suc, ◌+◌, ◌-◌, ◌*◌, ◌%◌, ◌^◌, Bool, true, false, ◌&&◌, ◌||◌, not, Option, none, some,
  List, [], ◌∷◌, ◌++◌, length, get_or, set, replicate, ltb, leb, inc64, ◌==◌, if◌then◌else◌,
}
use sy_se_ba.Prelude.Text.{Text, streq}

-- `mtime_ns` is the 64-bit pattern of the signed number; it is only compared.
pub record Entry : Type 0 where
  pub path : Text
  pub size : ℕ
  pub mtime_ns : ℕ
  pub is_directory : Bool
  pub seen : Bool

abbrev pub Chain : Type 0
Chain = List Entry

-- The length of `buckets` is `bucket_count`.
pub record Snapshot : Type 0 where
  pub buckets : List Chain
  pub size : ℕ

unfoldable pub hash_loop : ℕ → Text → ℕ
hash_loop hash [] = hash
hash_loop hash (c ∷ s) = hash_loop (bit_xor hash c * 1099511628211 % 2 ^ 64) s

-- `syseba_snapshot_hash`: FNV-1a in 64 bits.
unfoldable pub snapshot_hash : Text → ℕ
unfolding hash_loop
snapshot_hash value = hash_loop 1469598103934665603 value

abbrev pub home : List Chain → Text → ℕ
home buckets path = snapshot_hash path % length buckets

-- The loop along one bucket.
unfoldable pub find_chain : Text → Chain → Option Entry
find_chain path [] = none
find_chain path (e ∷ chain) = if streq e.path path then some e else find_chain path chain

unfoldable pub snapshot_find : Snapshot → Text → Option Entry
snapshot_find s path =
    if length s.buckets == 0
    then none
    else find_chain path (get_or s.buckets (home s.buckets path) [])

-- `allocated` says whether `calloc` and `syseba_strdup` succeed. `none` stands for -1.
unfoldable pub snapshot_insert : Bool → Snapshot → Text → ℕ → ℕ → Bool → Option Snapshot
snapshot_insert allocated s path size mtime_ns is_directory =
    if not allocated
    then none
    else let bucket = home s.buckets path in
      let fresh : Entry = record {
        path = path;
        size = size;
        mtime_ns = mtime_ns;
        is_directory = is_directory;
        seen = false;
      } in
      some (record {
        buckets = set s.buckets bucket (fresh ∷ get_or s.buckets bucket []);
        size = inc64 s.size;
      })

abbrev pub bucket_count : ℕ
bucket_count = 4093

unfoldable pub empty_snapshot : Snapshot
empty_snapshot = record { buckets = replicate bucket_count []; size = 0 }

pub data EventKind : Type 0 where
  create modify delete : EventKind

-- A call of `syseba_app_enqueue`.
pub record Change : Type 0 where
  pub kind : EventKind
  pub path : Text
  pub is_directory : Bool

-- `old->seen = true` on the entry that the loop along the bucket finds.
unfoldable pub mark_chain : Text → Chain → Chain
mark_chain path [] = []
mark_chain path (e ∷ chain) =
    if streq e.path path then record e { seen = true } ∷ chain else e ∷ mark_chain path chain

unfoldable pub mark_seen : Snapshot → Text → Snapshot
mark_seen s path =
    let bucket = home s.buckets path in
    record s { buckets = set s.buckets bucket (mark_chain path (get_or s.buckets bucket [])) }

-- What is enqueued for an entry of the current snapshot, from the entry found in the previous one.
unfoldable pub compare_entry : Option Entry → Entry → List Change
compare_entry none e = record { kind = create; path = e.path; is_directory = e.is_directory } ∷ []
compare_entry (some old) e =
    if not e.is_directory && (not (e.size == old.size) || not (e.mtime_ns == old.mtime_ns))
    then record { kind = modify; path = e.path; is_directory = false } ∷ []
    else []

-- The first pair of loops, over the entries bucket by bucket, with the calls made so far.
unfoldable pub reconcile_current : List Entry → Snapshot → List Change → Snapshot × List Change
reconcile_current [] previous calls = (previous, calls)
reconcile_current (e ∷ entries) previous calls =
    let old = snapshot_find previous e.path in
    reconcile_current entries (elim old [ none ↦ previous | some _ ↦ mark_seen previous e.path ])
      (calls ++ compare_entry old e)

-- The second pair of loops.
unfoldable pub reconcile_previous : List Entry → List Change → List Change
reconcile_previous [] calls = calls
reconcile_previous (e ∷ entries) calls = reconcile_previous entries (
    if not e.seen
    then calls ++ record { kind = delete; path = e.path; is_directory = e.is_directory } ∷ []
    else calls)

-- The entries in the order of the loops.
unfoldable pub entries_of : List Chain → List Entry
entries_of [] = []
entries_of (chain ∷ buckets) = chain ++ entries_of buckets

-- `syseba_snapshot_reconcile`: the calls of `syseba_app_enqueue`, whose results are ignored.
unfoldable pub snapshot_reconcile : Snapshot → Snapshot → List Change
snapshot_reconcile previous current =
    let (marked, calls) = reconcile_current (entries_of current.buckets) previous [] in
    reconcile_previous (entries_of marked.buckets) calls
