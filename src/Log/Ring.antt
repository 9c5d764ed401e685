-- ===== src/Log/Ring.antt =====
-- A list of slots that are written in turn, for the recent lines of src/log.c.
use native.Mathlib.Nat.{mod-eq_of_lt, mod-eq-sub-mod}
use sy_se_ba.Prelude.{
  ℕ, zero, suc, ◌+◌, ◌-◌, ◌%◌, ◌≤◌, ◌<◌, ◌≡◌, refl, sym, ap, ◌∙◌, inl, inr, List, [], ◌∷◌, ◌++◌,
  map, length, get_or, set, drop, length-append, ltb, ltb→lt, ltb→le, Bool-cases, arith,
}

module _ {ℓ} {A : Type ℓ} where
  -- The last elements of a list, `n` at most.
  unfoldable pub last : ℕ → List A → List A
  last n xs = drop (length xs - n) xs

  pub last_all : (n : ℕ) (xs : List A) → length xs ≤ n → last n xs ≡ xs
  unfolding last
  last_all n xs h = rw none_before refl
    where
      none_before : length xs - n ≡ 0
      none_before = omega arith

  pub last-append : (n : ℕ) (xs ys : List A) → length ys ≡ n → last n (xs ++ ys) ≡ ys
  unfolding last
  last-append n xs ys h =
      ap (λ k. drop k (xs ++ ys)) (omega (arith, length-append xs ys)) ∙ dropped xs
    where
      dropped : (xs : List A) → drop (length xs) (xs ++ ys) ≡ ys
      dropped [] = refl
      dropped (x ∷ xs) = dropped xs

  -- Of what is appended, the elements before the last ones do not matter.
  pub last-suffix : (n : ℕ) (xs ys : List A) → n ≤ length ys → last n (xs ++ ys) ≡ last n ys
  unfolding last
  last-suffix n [] ys h = refl
  last-suffix n (x ∷ xs) ys h = rw one_more (last-suffix n xs ys h)
    where
      one_more : suc (length (xs ++ ys)) - n ≡ suc (length (xs ++ ys) - n)
      one_more = omega (arith, length-append xs ys)

  pub set_middle :
      (xs : List A) (y : A) (ys : List A) (v : A) → set (xs ++ y ∷ ys) (length xs) v ≡ xs ++ v ∷ ys
  set_middle [] y ys v = refl
  set_middle (x ∷ xs) y ys v = ap (◌∷◌ x) (set_middle xs y ys v)

  pub get_middle :
      (xs : List A) (y : A) (ys : List A) (d : A) → get_or (xs ++ y ∷ ys) (length xs) d ≡ y
  get_middle [] y ys d = refl
  get_middle (x ∷ xs) y ys d = get_middle xs y ys d

  pub length-map {κ} : {B : Type κ} (f : A → B) (xs : List A) → length (map f xs) ≡ length xs
  length-map f [] = refl
  length-map f (x ∷ xs) = ap suc (length-map f xs)

module _ {ℓ} {A : Type ℓ} where
  pub drop_end : (i : ℕ) (xs : List A) → i ≡ length xs → drop i xs ≡ []
  drop_end zero [] h = refl
  drop_end zero (x ∷ xs) h = absurd (omega arith)
  drop_end (suc i) [] h = refl
  drop_end (suc i) (x ∷ xs) h = drop_end i xs (omega arith)

  pub drop_next :
      (i : ℕ) (xs : List A) (d : A) → i < length xs → drop i xs ≡ get_or xs i d ∷ drop (suc i) xs
  drop_next i [] d h = absurd (omega arith)
  drop_next zero (x ∷ xs) d h = refl
  drop_next (suc i) (x ∷ xs) d h = drop_next i xs d (omega arith)

  pub get_left :
      (xs ys : List A) (i : ℕ) (d : A) → i < length xs → get_or (xs ++ ys) i d ≡ get_or xs i d
  get_left [] ys i d h = absurd (omega arith)
  get_left (x ∷ xs) ys zero d h = refl
  get_left (x ∷ xs) ys (suc i) d h = get_left xs ys i d (omega arith)

  pub get_right :
      (xs ys : List A) (i k : ℕ) (d : A) → k ≡ length xs + i → get_or (xs ++ ys) k d ≡ get_or ys i d
  get_right [] ys i k d h = ap (λ j. get_or ys j d) (h ∙ none_before)
    where
      none_before : 0 + i ≡ i
      none_before = omega arith
  get_right (x ∷ xs) ys i zero d h = absurd (omega arith)
  get_right (x ∷ xs) ys i (suc k) d h = get_right xs ys i k d (omega arith)

  -- The slots from the middle on and around.
  pub get_rotated :
      (xs ys : List A) (i : ℕ) (d : A)
      → i < length ys + length xs
      → get_or (xs ++ ys) ((length xs + i) % (length xs + length ys)) d ≡ get_or (ys ++ xs) i d
  get_rotated xs ys i d h = elim (Bool-cases (ltb i (length ys))) [
    | inl first ↦
        get_right xs ys i _ d (mod-eq_of_lt (omega (arith, ltb→lt i (length ys) first)))
        ∙ sym (get_left ys xs i d (ltb→lt i (length ys) first))
    | inr second ↦
        ap (λ k. get_or (xs ++ ys) k d) (around (ltb→le i (length ys) second))
        ∙ get_left xs ys (i - length ys) d (omega (arith, ltb→le i (length ys) second))
        ∙ sym (get_right ys xs (i - length ys) i d (omega (arith, ltb→le i (length ys) second)))
  ]
    where
      around : length ys ≤ i → (length xs + i) % (length xs + length ys) ≡ i - length ys
      around k =
          mod-eq-sub-mod {n = length xs + i} (omega arith)
          ∙ ap (λ j. j % (length xs + length ys)) rest
          ∙ mod-eq_of_lt (omega arith)
        where
          rest : length xs + i - (length xs + length ys) ≡ i - length ys
          rest = omega arith
