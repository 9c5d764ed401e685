-- ===== src/Snapshot/Table.antt =====
-- Entries stand in the bucket of their hash, and each path once.
use sy_se_ba.Prelude.{
  ℕ, zero, suc, ◌+◌, ◌%◌, ◌<◌, ◌≡◌, ◌≢◌, refl, ap, ap₂, subst, ◌∙◌, sym, Bool, true, false, none,
  List, [], ◌∷◌, map, length, get_or, set, All, if◌then◌else◌, Bool-cases, inl, inr, arith,
}
use sy_se_ba.Prelude.Text.{Text, streq, streq→eq}
use sy_se_ba.Snapshot.{Entry, Chain, Snapshot, snapshot_hash, find_chain, mark_chain}

-- The buckets from the one with index `i` on, of `n` in all.
abbrev pub PlacedFrom : ℕ → ℕ → List Chain → Type 0
PlacedFrom n i [] = Unit
PlacedFrom n i (chain ∷ buckets) =
    All (λ e. snapshot_hash e.path % n ≡ i) chain × PlacedFrom n (suc i) buckets

abbrev pub DistinctPaths : Chain → Type 0
DistinctPaths [] = Unit
DistinctPaths (e ∷ chain) = (find_chain e.path chain ≡ none) × DistinctPaths chain

abbrev pub IsFresh : Chain → Type 0
IsFresh = All (λ e. e.seen ≡ false)

pub record IsTable (s : Snapshot) : Type 0 where
  pub placed : PlacedFrom (length s.buckets) 0 s.buckets
  pub distinct : All DistinctPaths s.buckets
  pub some_bucket : 0 < length s.buckets

-- A mark on the entries whose path passes a test.
unfoldable pub mark_by : (Text → Bool) → Entry → Entry
mark_by test e = if test e.path then record e { seen = true } else e

abbrev pub mark_buckets : (Text → Bool) → List Chain → List Chain
mark_buckets test = map (map (mark_by test))

abbrev pub is_path : Text → Text → Bool
is_path path q = streq q path

pub mark_by-path : (test : Text → Bool) (e : Entry) → (mark_by test e).path ≡ e.path
unfolding mark_by
mark_by-path test e = ground arith

mark_absent :
    (path : Text) (chain : Chain)
    → find_chain path chain ≡ none
    → map (mark_by (is_path path)) chain ≡ chain
unfolding find_chain mark_by
mark_absent path [] h = refl
mark_absent path (e ∷ chain) h = ground (arith, mark_absent path chain)

mark_chain_lem :
    (path : Text) (chain : Chain)
    → DistinctPaths chain
    → mark_chain path chain ≡ map (mark_by (is_path path)) chain
unfolding mark_chain mark_by
mark_chain_lem path [] d = refl
mark_chain_lem path (e ∷ chain) (d, ds) = elim (Bool-cases (streq e.path path)) [
  | inl hit ↦
      let absent =
        mark_absent path chain
          (subst (λ p. find_chain p chain ≡ none) (streq→eq e.path path hit) d) in
      rw hit (ap (λ c. record e { seen = true } ∷ c) (sym absent))
  | inr miss ↦ rw miss (ap (◌∷◌ e) (mark_chain_lem path chain ds))
]

-- A path is not found in a bucket that is not its own.
pub find_elsewhere :
    (n i : ℕ) (path : Text) (chain : Chain)
    → All (λ e. snapshot_hash e.path % n ≡ i) chain
    → snapshot_hash path % n ≢ i
    → find_chain path chain ≡ none
unfolding find_chain
find_elsewhere n i path [] h k = refl
find_elsewhere n i path (e ∷ chain) (h, hs) k = elim (Bool-cases (streq e.path path)) [
  | inl hit ↦ absurd (k (ap (λ p. snapshot_hash p % n) (sym (streq→eq e.path path hit)) ∙ h))
  | inr miss ↦ rw miss (find_elsewhere n i path chain hs k)
]

mark_elsewhere :
    (n i : ℕ) (path : Text) (buckets : List Chain)
    → PlacedFrom n i buckets
    → snapshot_hash path % n < i
    → mark_buckets (is_path path) buckets ≡ buckets
mark_elsewhere n i path [] h k = refl
mark_elsewhere n i path (chain ∷ buckets) (h, hs) k =
    ap₂ ◌∷◌ (mark_absent path chain (find_elsewhere n i path chain h (λ e. absurd (omega arith))))
      (mark_elsewhere n (suc i) path buckets hs (omega arith))

-- Marking the entry in its home bucket marks it in the whole table.
pub set_mark :
    (n i k : ℕ) (path : Text) (buckets : List Chain)
    → PlacedFrom n i buckets
    → All DistinctPaths buckets
    → snapshot_hash path % n ≡ i + k
    → set buckets k (mark_chain path (get_or buckets k [])) ≡ mark_buckets (is_path path) buckets
set_mark n i k path [] h d e = refl
set_mark n i zero path (chain ∷ buckets) (h, hs) (d, ds) e =
    ap₂ ◌∷◌ (mark_chain_lem path chain d)
      (sym (mark_elsewhere n (suc i) path buckets hs (omega arith)))
set_mark n i (suc k) path (chain ∷ buckets) (h, hs) (d, ds) e =
    ap₂ ◌∷◌
      (sym (mark_absent path chain (find_elsewhere n i path chain h (λ q. absurd (omega arith)))))
      (set_mark n (suc i) k path buckets hs ds (omega arith))

-- If the home bucket lacks the path, the table does.
pub mark_missing :
    (n i k : ℕ) (path : Text) (buckets : List Chain)
    → PlacedFrom n i buckets
    → snapshot_hash path % n ≡ i + k
    → find_chain path (get_or buckets k []) ≡ none
    → mark_buckets (is_path path) buckets ≡ buckets
mark_missing n i k path [] h e f = refl
mark_missing n i zero path (chain ∷ buckets) (h, hs) e f =
    ap₂ ◌∷◌ (mark_absent path chain f) (mark_elsewhere n (suc i) path buckets hs (omega arith))
mark_missing n i (suc k) path (chain ∷ buckets) (h, hs) e f =
    ap₂ ◌∷◌ (mark_absent path chain (find_elsewhere n i path chain h (λ q. absurd (omega arith))))
      (mark_missing n (suc i) k path buckets hs (omega arith) f)
