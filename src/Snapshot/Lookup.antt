-- ===== src/Snapshot/Lookup.antt =====
-- Where the lookups of src/watcher_poll.c find the entries of a table.
use sy_se_ba.Prelude.{
  ℕ, zero, suc, ◌+◌, ◌%◌, ◌<◌, ◌≡◌, refl, ap, ap₂, subst, ◌∙◌, sym, Bool, true, false, ◌||◌, Option,
  none, some, List, [], ◌∷◌, ◌++◌, length, get_or, All, ◌==◌, Bool-cases, inl, inr, arith,
}
use sy_se_ba.Prelude.Text.{Text, streq, streq→eq, streq_self}
use sy_se_ba.Snapshot.{Entry, Chain, Snapshot, snapshot_hash, find_chain, snapshot_find, entries_of}
use sy_se_ba.Snapshot.Table.{PlacedFrom, DistinctPaths, IsTable, find_elsewhere}

module _ {ℓ κ} {A : Type ℓ} (P : A → Type κ) where
  pub All-imp {μ} : (Q : A → Type μ) → ((a : A) → P a → Q a) → (xs : List A) → All P xs → All Q xs
  All-imp Q f [] h = _
  All-imp Q f (x ∷ xs) (h, hs) = (f x h, All-imp Q f xs hs)

  All-append : (xs ys : List A) → All P xs → All P ys → All P (xs ++ ys)
  All-append [] ys h k = k
  All-append (x ∷ xs) ys (h, hs) k = (h, All-append xs ys hs k)

-- The paths that stand in a list of entries.
unfoldable pub among : List Entry → Text → Bool
among [] q = false
among (e ∷ es) q = streq q e.path || among es q

unfoldable pub is_found : Option Entry → Bool
is_found none = false
is_found (some e) = true

streq_sym : (s t : Text) → streq s t ≡ streq t s
unfolding streq
streq_sym [] [] = refl
streq_sym [] (d ∷ t) = refl
streq_sym (c ∷ s) [] = refl
streq_sym (c ∷ s) (d ∷ t) = ground (arith, streq_sym s t)

among-append : (c d : List Entry) (q : Text) → among (c ++ d) q ≡ among c q || among d q
unfolding among
among-append [] d q = refl
among-append (e ∷ c) d q = ground (arith, among-append c d q)

among_find : (c : Chain) (q : Text) → among c q ≡ is_found (find_chain q c)
unfolding among find_chain is_found
among_find [] q = refl
among_find (e ∷ c) q =
    rw (streq_sym q e.path)
      (elim (Bool-cases (streq e.path q)) [ inl h ↦ rw h refl | inr h ↦ rw h (among_find c q) ])

among_elsewhere :
    (n i : ℕ) (q : Text) (buckets : List Chain)
    → PlacedFrom n i buckets
    → snapshot_hash q % n < i
    → among (entries_of buckets) q ≡ false
unfolding entries_of is_found
among_elsewhere n i q [] h k = unfold among in refl
among_elsewhere n i q (c ∷ buckets) (h, hs) k =
    among-append c (entries_of buckets) q
    ∙ ap₂ ◌||◌ (among_find c q ∙ ap is_found (find_elsewhere n i q c h (λ e. absurd (omega arith))))
        (among_elsewhere n (suc i) q buckets hs (omega arith))

among_bucket :
    (n i k : ℕ) (q : Text) (buckets : List Chain)
    → PlacedFrom n i buckets
    → snapshot_hash q % n ≡ i + k
    → among (entries_of buckets) q ≡ is_found (find_chain q (get_or buckets k []))
unfolding entries_of is_found find_chain among
among_bucket n i k q [] h e = refl
among_bucket n i zero q (c ∷ buckets) (h, hs) e =
    among-append c (entries_of buckets) q
    ∙ ap₂ ◌||◌ (among_find c q) (among_elsewhere n (suc i) q buckets hs (omega arith))
    ∙ or_false (is_found (find_chain q c))
  where
    or_false : (b : Bool) → b || false ≡ b
    or_false b = ground arith
among_bucket n i (suc k) q (c ∷ buckets) (h, hs) e =
    among-append c (entries_of buckets) q
    ∙ ap₂ ◌||◌ (among_find c q ∙ ap is_found (find_elsewhere n i q c h (λ d. absurd (omega arith))))
        (among_bucket n (suc i) k q buckets hs (omega arith))

-- A path is found exactly if an entry has it.
pub among-entries_of :
    (s : Snapshot) (q : Text)
    → IsTable s
    → among (entries_of s.buckets) q ≡ is_found (snapshot_find s q)
unfolding snapshot_find
among-entries_of s q t = rw nonempty (
    among_bucket (length s.buckets) 0 (snapshot_hash q % length s.buckets) q s.buckets t.placed
      (omega arith))
  where
    nonempty : (length s.buckets == 0) ≡ false
    nonempty = ground (arith, t.some_bucket)

find_chain-own : (c : Chain) → DistinctPaths c → All (λ e. find_chain e.path c ≡ some e) c
unfolding find_chain
find_chain-own [] d = _
find_chain-own (e ∷ c) (d, ds) = (
  rw (streq_self e.path) refl,
  All-imp (λ x. find_chain x.path c ≡ some x) (λ x. find_chain x.path (e ∷ c) ≡ some x) behind c
      (find_chain-own c ds),
)
  where
    behind : (x : Entry) → find_chain x.path c ≡ some x → find_chain x.path (e ∷ c) ≡ some x
    behind x h = elim (Bool-cases (streq e.path x.path)) [
      | inl hit ↦
          absurd
            (clash (sym (subst (λ p. find_chain p c ≡ none) (streq→eq e.path x.path hit) d) ∙ h))
      | inr miss ↦ rw miss h
    ]
      where
        clash : none ≡ some x → ⊥
        clash h = cc

own_buckets :
    (n i : ℕ) (buckets whole : List Chain)
    → PlacedFrom n i buckets
    → All DistinctPaths buckets
    → ((k : ℕ) → get_or whole (i + k) [] ≡ get_or buckets k [])
    → All
        (λ e. find_chain e.path (get_or whole (snapshot_hash e.path % n) []) ≡ some e)
        (entries_of buckets)
unfolding entries_of
own_buckets n i [] whole h d same = _
own_buckets n i (c ∷ buckets) whole (h, hs) (d, ds) same =
    All-append (λ e. find_chain e.path (get_or whole (snapshot_hash e.path % n) []) ≡ some e) c
      (entries_of buckets) (here c h (find_chain-own c d))
      (own_buckets n (suc i) buckets whole hs ds
        (λ k. ap (λ j. get_or whole j []) (omega arith) ∙ same (suc k)))
  where
    here :
        (es : Chain)
        → All (λ e. snapshot_hash e.path % n ≡ i) es
        → All (λ e. find_chain e.path c ≡ some e) es
        → All (λ e. find_chain e.path (get_or whole (snapshot_hash e.path % n) []) ≡ some e) es
    here [] p q = _
    here (e ∷ es) (p, ps) (q, qs) = (
      ap (λ j. find_chain e.path (get_or whole j [])) (p ∙ omega arith)
          ∙ ap (find_chain e.path) (same 0)
          ∙ q,
      here es ps qs,
    )

-- Every entry is what a lookup of its path returns.
pub snapshot_find-own :
    (s : Snapshot) → IsTable s → All (λ e. snapshot_find s e.path ≡ some e) (entries_of s.buckets)
unfolding snapshot_find
snapshot_find-own s t = rw nonempty (
    own_buckets (length s.buckets) 0 s.buckets s.buckets t.placed t.distinct
      (λ k. ap (λ j. get_or s.buckets j []) (omega arith)))
  where
    nonempty : (length s.buckets == 0) ≡ false
    nonempty = ground (arith, t.some_bucket)
