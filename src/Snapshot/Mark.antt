-- ===== src/Snapshot/Mark.antt =====
-- What the marks that `syseba_snapshot_reconcile` sets on a whole table do to the lookups in it.
use mathlib.Core.Option
use sy_se_ba.Prelude.{
  ℕ, zero, suc, ◌%◌, ◌≡◌, refl, ap, subst, ◌∙◌, sym, Bool, false, none, some, List, [], ◌∷◌, map,
  length, get_or, All, ◌==◌, if◌then◌else◌, Bool-cases, Option-cases, inl, inr, arith,
}
use sy_se_ba.Prelude.Text.{Text, streq}
use sy_se_ba.Snapshot.{Chain, Snapshot, snapshot_hash, find_chain, snapshot_find, mark_seen}
use sy_se_ba.Snapshot.Table.{
  PlacedFrom, DistinctPaths, IsTable, mark_by, mark_by-path, mark_buckets, is_path, set_mark,
  mark_missing,
}

abbrev pub mark_table : (Text → Bool) → Snapshot → Snapshot
mark_table test s = record s { buckets = mark_buckets test s.buckets }

pub length-map {ℓ κ} :
    {A : Type ℓ} {B : Type κ} (f : A → B) (xs : List A) → length (map f xs) ≡ length xs
length-map f [] = refl
length-map f (x ∷ xs) = ap suc (length-map f xs)

find_chain-mark :
    (test : Text → Bool) (path : Text) (chain : Chain)
    → find_chain path (map (mark_by test) chain) ≡ Option.map (mark_by test) (find_chain path chain)
unfolding find_chain mark_by
find_chain-mark test path [] = refl
find_chain-mark test path (e ∷ chain) =
    rw (mark_by-path test e) (elim (Bool-cases (streq e.path path)) [
      | inl hit ↦ rw hit refl
      | inr miss ↦ rw miss (find_chain-mark test path chain)
    ])

get_or-mark :
    (test : Text → Bool) (buckets : List Chain) (i : ℕ)
    → get_or (mark_buckets test buckets) i [] ≡ map (mark_by test) (get_or buckets i [])
get_or-mark test [] i = refl
get_or-mark test (chain ∷ buckets) zero = refl
get_or-mark test (chain ∷ buckets) (suc i) = get_or-mark test buckets i

pub snapshot_find-mark_table :
    (test : Text → Bool) (path : Text) (s : Snapshot)
    → snapshot_find (mark_table test s) path ≡ Option.map (mark_by test) (snapshot_find s path)
unfolding snapshot_find
snapshot_find-mark_table test path s =
    rw (length-map (map (mark_by test)) s.buckets) (elim (Bool-cases (length s.buckets == 0)) [
      | inl e ↦ rw e refl
      | inr e ↦ rw e (
          ap (find_chain path) (get_or-mark test s.buckets (snapshot_hash path % length s.buckets))
          ∙ find_chain-mark test path (get_or s.buckets (snapshot_hash path % length s.buckets) []))
    ])

PlacedFrom-mark :
    (test : Text → Bool) (n i : ℕ) (buckets : List Chain)
    → PlacedFrom n i buckets
    → PlacedFrom n i (mark_buckets test buckets)
PlacedFrom-mark test n i [] h = h
PlacedFrom-mark test n i (chain ∷ buckets) (h, hs) =
    (inside chain h, PlacedFrom-mark test n (suc i) buckets hs)
  where
    inside :
        (chain : Chain)
        → All (λ e. snapshot_hash e.path % n ≡ i) chain
        → All (λ e. snapshot_hash e.path % n ≡ i) (map (mark_by test) chain)
    inside [] h = h
    inside (e ∷ chain) (h, hs) =
        (subst (λ p. snapshot_hash p % n ≡ i) (sym (mark_by-path test e)) h, inside chain hs)

DistinctPaths-mark :
    (test : Text → Bool) (chain : Chain)
    → DistinctPaths chain
    → DistinctPaths (map (mark_by test) chain)
DistinctPaths-mark test [] h = h
DistinctPaths-mark test (e ∷ chain) (h, hs) = (
  ap (λ p. find_chain p (map (mark_by test) chain)) (mark_by-path test e)
      ∙ find_chain-mark test e.path chain
      ∙ ap (Option.map (mark_by test)) h,
  DistinctPaths-mark test chain hs,
)

pub IsTable-mark_table :
    (test : Text → Bool) (s : Snapshot) → IsTable s → IsTable (mark_table test s)
IsTable-mark_table test s t = record {
  placed =
      subst (λ n. PlacedFrom n 0 (mark_buckets test s.buckets))
        (sym (length-map (map (mark_by test)) s.buckets))
        (PlacedFrom-mark test (length s.buckets) 0 s.buckets t.placed);
  distinct = all_distinct s.buckets t.distinct;
  some_bucket = rw (length-map (map (mark_by test)) s.buckets) t.some_bucket;
}
  where
    all_distinct :
        (buckets : List Chain)
        → All DistinctPaths buckets
        → All DistinctPaths (mark_buckets test buckets)
    all_distinct [] h = h
    all_distinct (chain ∷ buckets) (h, hs) =
        (DistinctPaths-mark test chain h, all_distinct buckets hs)

-- The step on an entry of the current snapshot marks its path, found or not.
pub mark_step :
    (s : Snapshot) (path : Text)
    → IsTable s
    → (elim (snapshot_find s path) [ none ↦ s | some _ ↦ mark_seen s path ])
      ≡ mark_table (is_path path) s
unfolding snapshot_find mark_seen
mark_step s path t = elim (Option-cases (snapshot_find s path)) [
  | inl e ↦ rw e (
      sym (
        ap (λ b. record s { buckets = b })
          (mark_missing (length s.buckets) 0 (snapshot_hash path % length s.buckets) path s.buckets
            t.placed (omega arith)
            (subst
              (λ b.
                (if b
                  then none
                  else find_chain path
                      (get_or s.buckets (snapshot_hash path % length s.buckets) []))
                ≡ none)
              nonempty e))))
  | inr (old, e) ↦ rw e (
      ap (λ b. record s { buckets = b })
        (set_mark (length s.buckets) 0 (snapshot_hash path % length s.buckets) path s.buckets
          t.placed t.distinct (omega arith)))
]
  where
    nonempty : (length s.buckets == 0) ≡ false
    nonempty = ground (arith, t.some_bucket)
