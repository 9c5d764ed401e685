-- ===== src/Restore/Search.antt =====
-- `syseba_contains_case_insensitive` of src/fs.c.
use sy_se_ba.Prelude.{
  ℕ, ◌≡◌, refl, ap, ◌∙◌, ◌↔◌, Bool, true, false, ◌&&◌, ◌||◌, [], ◌∷◌, ◌++◌, ◌==◌, Bool-cases, inl,
  inr, and-split, arith,
}
use sy_se_ba.Prelude.Text.{Text, to_lower, strcaseeq}

-- The inner loop: the search text matches here.
unfoldable pub matches_here : Text → Text → Bool
matches_here value [] = true
matches_here [] (d ∷ search) = false
matches_here (c ∷ value) (d ∷ search) = to_lower c == to_lower d && matches_here value search

unfoldable pub contains_loop : Text → Text → Bool
unfolding matches_here
contains_loop [] search = false
contains_loop (c ∷ value) search = matches_here (c ∷ value) search || contains_loop value search

unfoldable pub contains_case_insensitive : Text → Text → Bool
unfolding contains_loop
contains_case_insensitive value [] = true
contains_case_insensitive value (d ∷ search) = contains_loop value (d ∷ search)

-- The search text stands somewhere in the value, letters compared without case.
pub record IsPart (value search : Text) : Type 0 where
  pub front : Text
  pub middle : Text
  pub back : Text
  pub split : value ≡ front ++ (middle ++ back)
  pub same : strcaseeq middle search ≡ true

matches_here-split :
    (value search : Text)
    → matches_here value search ≡ true
    → (middle : Text) × (back : Text) × (value ≡ middle ++ back) × (strcaseeq middle search ≡ true)
unfolding matches_here strcaseeq
matches_here-split value [] h = ([], value, refl, refl)
matches_here-split [] (d ∷ search) h = cc
matches_here-split (c ∷ value) (d ∷ search) h =
    let (here, later) = and-split (to_lower c == to_lower d) (matches_here value search) h in
    let (middle, back, e, k) = matches_here-split value search later in
    (c ∷ middle, back, ap (◌∷◌ c) e, rw (here, k) refl)

matches_here-append :
    (middle back search : Text)
    → strcaseeq middle search ≡ true
    → matches_here (middle ++ back) search ≡ true
unfolding matches_here strcaseeq
matches_here-append [] back [] h = refl
matches_here-append [] back (d ∷ search) h = cc
matches_here-append (c ∷ middle) back [] h = cc
matches_here-append (c ∷ middle) back (d ∷ search) h =
    let (here, later) = and-split (to_lower c == to_lower d) (strcaseeq middle search) h in
    rw (here, matches_here-append middle back search later) refl

contains_loop-IsPart :
    (value : Text) (d : ℕ) (search : Text)
    → contains_loop value (d ∷ search) ≡ true
    → IsPart value (d ∷ search)
unfolding contains_loop
contains_loop-IsPart [] d search h = cc
contains_loop-IsPart (c ∷ value) d search h =
    elim (Bool-cases (matches_here (c ∷ value) (d ∷ search))) [
      | inl here ↦
          let (middle, back, e, k) = matches_here-split (c ∷ value) (d ∷ search) here in
          record { front = []; middle = middle; back = back; split = e; same = k }
      | inr not_here ↦
          let later = contains_loop-IsPart value d search (
            or_right (matches_here (c ∷ value) (d ∷ search)) (contains_loop value (d ∷ search))
              not_here h) in
          record {
            front = c ∷ later.front;
            middle = later.middle;
            back = later.back;
            split = ap (◌∷◌ c) later.split;
            same = later.same;
          }
    ]
  where
    or_right : (a b : Bool) → a ≡ false → a || b ≡ true → b ≡ true
    or_right a b e h = ground arith

contains_loop-append :
    (front middle back : Text) (d : ℕ) (search : Text)
    → strcaseeq middle (d ∷ search) ≡ true
    → contains_loop (front ++ (middle ++ back)) (d ∷ search) ≡ true
unfolding contains_loop
contains_loop-append [] [] back d search h = unfold strcaseeq in cc
contains_loop-append [] (c ∷ middle) back d search h =
    rw (matches_here-append (c ∷ middle) back (d ∷ search) h) refl
contains_loop-append (c ∷ front) middle back d search h =
    rw (contains_loop-append front middle back d search h)
      (or_true (matches_here (c ∷ front ++ (middle ++ back)) (d ∷ search)))
  where
    or_true : (a : Bool) → a || true ≡ true
    or_true a = ground arith

-- The search of the restore list finds exactly the texts that have a part which equals the
-- searched text up to the case of ASCII letters.
pub contains_case_insensitive_iff :
    (value search : Text) → (contains_case_insensitive value search ≡ true) ↔ IsPart value search
unfolding contains_case_insensitive strcaseeq
contains_case_insensitive_iff value [] =
    (λ _. record { front = []; middle = []; back = value; split = refl; same = refl }, λ _. refl)
contains_case_insensitive_iff value (d ∷ search) = (
  contains_loop-IsPart value d search,
  λ p.
      ap (λ t. contains_loop t (d ∷ search)) p.split
      ∙ contains_loop-append p.front p.middle p.back d search p.same,
)
