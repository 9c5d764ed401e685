-- ===== src/Web/Auth/Equal.antt =====
-- The loop that never stops early decides equality.
use Prim.Native.Nat.{max}
use sy_se_ba.Prelude.{
  ℕ, zero, suc, ◌+◌, ◌<◌, ◌≡◌, refl, ◌↔◌, true, [], ◌∷◌, length, get_or, All, ==→eq, arith,
}
use sy_se_ba.Prelude.Bits.{bit_or-eq-zero, bit_xor-eq-zero, bit_xor_self}
use sy_se_ba.Prelude.Text.{Text}
use sy_se_ba.Web.Auth.{difference_loop, constant_time_equal}

-- A C string holds no NUL byte before its end.
abbrev pub NulFree : Text → Type 0
NulFree = All (λ c. 0 < c)

difference_loop-start :
    (rounds index : ℕ) (first second : Text) (d : ℕ)
    → difference_loop rounds index first second d ≡ 0
    → d ≡ 0
unfolding difference_loop
difference_loop-start zero index first second d h = h
difference_loop-start (suc rounds) index first second d h =
    (bit_or-eq-zero d _ (difference_loop-start rounds (index + 1) first second _ h)).0

difference_loop-zero :
    (rounds index : ℕ) (first second : Text) (d : ℕ)
    → difference_loop rounds index first second d ≡ 0
    → (j k : ℕ) → j < rounds
    → k ≡ index + j
    → get_or first k 0 ≡ get_or second k 0
unfolding difference_loop
difference_loop-zero zero index first second d h j k lt e = absurd (omega arith)
difference_loop-zero (suc rounds) index first second d h zero k lt e =
    let here : k ≡ index = omega arith in
    rw here (
      bit_xor-eq-zero _ _
        (bit_or-eq-zero d _ (difference_loop-start rounds (index + 1) first second _ h)).1)
difference_loop-zero (suc rounds) index first second d h (suc j) k lt e =
    difference_loop-zero rounds (index + 1) first second _ h j k (omega arith) (omega arith)

difference_loop_self :
    (rounds index : ℕ) (first : Text) → difference_loop rounds index first first 0 ≡ 0
unfolding difference_loop
difference_loop_self zero index first = refl
difference_loop_self (suc rounds) index first =
    rw (bit_xor_self (get_or first index 0)) (difference_loop_self rounds (index + 1) first)

-- Two texts with no NUL in them are equal if they read alike at every place.
eq_of_reads :
    (s t : Text)
    → NulFree s
    → NulFree t
    → ((j : ℕ) → j < max (length s) (length t) → get_or s j 0 ≡ get_or t j 0)
    → s ≡ t
eq_of_reads [] [] p q h = refl
eq_of_reads [] (d ∷ t) p q h = absurd (omega (arith, h 0 (omega arith)))
eq_of_reads (c ∷ s) [] p q h = absurd (omega (arith, h 0 (omega arith)))
eq_of_reads (c ∷ s) (d ∷ t) p q h =
    cc (h 0 (omega arith), eq_of_reads s t p.1 q.1 (λ j lt. h (suc j) (omega arith)))

pub constant_time_equal_self : (first : Text) → constant_time_equal first first ≡ true
unfolding constant_time_equal
constant_time_equal_self first =
    rw (
      bit_xor_self (length first),
      difference_loop_self (max (length first) (length first)) 0 first,
    )

-- For C strings without NUL the constant-time comparison holds exactly for equal strings,
-- although it compares the lengths cut to 32 bits.
pub constant_time_equal_iff :
    (first second : Text)
    → NulFree first
    → NulFree second
    → (constant_time_equal first second ≡ true) ↔ (first ≡ second)
unfolding constant_time_equal
constant_time_equal_iff first second p q = (equal, λ e. rw (← e) (constant_time_equal_self first))
  where
    equal : constant_time_equal first second ≡ true → first ≡ second
    equal h =
        eq_of_reads first second p q
          (λ j lt. difference_loop-zero _ 0 first second _ (==→eq _ 0 h) j j lt (omega arith))
