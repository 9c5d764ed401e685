-- ===== src/Prelude/Number.antt =====
-- `strtoul` in base 10 and `printf` of an unsigned decimal, as the C standard defines them, with a
-- 64-bit `unsigned long`.
use Prim.Native.Nat.{ℕ, zero, suc, ◌+◌, ◌-◌, ◌*◌, ◌/◌, ◌%◌, ◌^◌, ◌≤◌, ◌<◌}
use mathlib.Core.Path.{◌≡◌, refl, sym, ap, ◌∙◌}
use native.Mathlib.Nat.{le_refl}
use mathlib.Core.Logic.{inl, inr}
use mathlib.Core.Bool.{Bool, true, false}
use mathlib.Core.List.{[], ◌∷◌}
use native.Mathlib.Omega.{arith}
use sy_se_ba.Prelude.Tests.{ltb, ltb→lt, leb, ◌==◌, if◌then◌else◌, Bool-cases}
use sy_se_ba.Prelude.Text.{Text, is_space, is_digit}
use sy_se_ba.Prelude.Lists.{length, all}

-- `rest` is where `end` points; without digits `end` is the start, and `any` is false.
pub record Strtoul : Type 0 where
  pub value : ℕ
  pub any : Bool
  pub rest : Text
  pub range_error : Bool

-- The digits from here, after the value so far and whether there was one.
pub record Digits : Type 0 where
  pub total : ℕ
  pub seen : Bool
  pub after : Text

unfoldable pub scan_digits : Text → ℕ → Bool → Digits
scan_digits [] total seen = record { total = total; seen = seen; after = [] }
scan_digits (c ∷ s) total seen =
    if is_digit c
    then scan_digits s (total * 10 + (c - b'0')) true
    else record { total = total; seen = seen; after = c ∷ s }

finish : Text → Bool → Digits → Strtoul
finish start minus d =
    if not_any
    then record { value = 0; any = false; rest = start; range_error = false }
    else if leb (2 ^ 64) d.total
    then record { value = 2 ^ 64 - 1; any = true; rest = d.after; range_error = true }
    else record {
      value = if minus then (2 ^ 64 - d.total) % 2 ^ 64 else d.total;
      any = true;
      rest = d.after;
      range_error = false;
    }
  where
    not_any : Bool
    not_any = if d.seen then false else true

-- After the spaces comes one sign at most.
sign_and_digits : Text → Text → Strtoul
unfolding scan_digits finish
sign_and_digits start [] = finish start false (scan_digits [] 0 false)
sign_and_digits start (c ∷ s) =
    if c == b'-'
    then finish start true (scan_digits s 0 false)
    else if c == b'+'
    then finish start false (scan_digits s 0 false)
    else finish start false (scan_digits (c ∷ s) 0 false)

skip_spaces : Text → Text
skip_spaces [] = []
skip_spaces (c ∷ s) = if is_space c then skip_spaces s else c ∷ s

unfoldable pub strtoul : Text → Strtoul
unfolding sign_and_digits skip_spaces
strtoul s = sign_and_digits s (skip_spaces s)

-- "%u": the digits are written from the last one to the first. The fuel is the number itself.
decimal_loop : ℕ → ℕ → Text → Text
decimal_loop zero n out = (b'0' + n % 10) ∷ out
decimal_loop (suc fuel) n out =
    let more = decimal_loop fuel (n / 10) ((b'0' + n % 10) ∷ out) in
    if ltb n 10 then (b'0' + n % 10) ∷ out else more

unfoldable pub decimal : ℕ → Text
unfolding decimal_loop
decimal n = decimal_loop n n []

scan_digit :
    (d total : ℕ) (out : Text) (seen : Bool)
    → d < 10
    → scan_digits ((b'0' + d) ∷ out) total seen ≡ scan_digits out (total * 10 + d) true
unfolding scan_digits
scan_digit d total out seen h = rw (digit, cancel)
  where
    digit : is_digit (b'0' + d) ≡ true
    digit = unfold is_digit in ground arith

    cancel : b'0' + d - b'0' ≡ d
    cancel = omega arith

scan_digits-decimal_loop :
    (fuel n : ℕ) (out : Text) (seen : Bool)
    → n ≤ fuel
    → scan_digits (decimal_loop fuel n out) 0 seen ≡ scan_digits out n true
unfolding decimal_loop
scan_digits-decimal_loop zero n out seen h =
    scan_digit (n % 10) 0 out seen (omega arith) ∙ ap (λ v. scan_digits out v true) (omega arith)
scan_digits-decimal_loop (suc fuel) n out seen h = elim (Bool-cases (ltb n 10)) [
  | inl small ↦ rw small (
      scan_digit (n % 10) 0 out seen (omega arith)
      ∙ ap (λ v. scan_digits out v true) (omega (arith, ltb→lt n 10 small)))
  | inr large ↦ rw large (
      scan_digits-decimal_loop fuel (n / 10) ((b'0' + n % 10) ∷ out) seen (omega arith)
      ∙ scan_digit (n % 10) (n / 10) out true (omega arith)
      ∙ ap (λ v. scan_digits out v true) (omega arith))
]

-- It begins with a digit.
decimal_loop-cons :
    (fuel n : ℕ) (out : Text)
    → (d : ℕ) × (s : Text) × (decimal_loop fuel n out ≡ (b'0' + d) ∷ s) × (d < 10)
unfolding decimal_loop
decimal_loop-cons zero n out = (n % 10, out, refl, omega arith)
decimal_loop-cons (suc fuel) n out = elim (Bool-cases (ltb n 10)) [
  | inl small ↦ (n % 10, out, rw small, omega arith)
  | inr large ↦ rw large (decimal_loop-cons fuel (n / 10) ((b'0' + n % 10) ∷ out))
]

sign_and_digits-digit :
    (d : ℕ) (start s : Text)
    → d < 10
    → sign_and_digits start (skip_spaces ((b'0' + d) ∷ s))
      ≡ finish start false (scan_digits ((b'0' + d) ∷ s) 0 false)
unfolding sign_and_digits skip_spaces is_space
sign_and_digits-digit d start s h = ground arith

-- What is printed reads back.
pub strtoul-decimal :
    (n : ℕ)
    → n < 2 ^ 64
    → strtoul (decimal n) ≡ record { value = n; any = true; rest = []; range_error = false }
unfolding strtoul decimal
strtoul-decimal n h =
    let (d, s, e, lt) = decimal_loop-cons n n [] in
    rw e (sign_and_digits-digit d _ s lt)
    ∙ ap (finish (decimal n) false) (
        sym (ap (λ t. scan_digits t 0 false) e) ∙ scan_digits-decimal_loop n n [] false (le_refl n))
    ∙ last
  where
    last :
        finish (decimal n) false (record { total = n; seen = true; after = [] })
        ≡ record { value = n; any = true; rest = []; range_error = false }
    last = unfold finish in ground arith

-- Without digits there is no number.
pub strtoul_nil : strtoul [] ≡ record { value = 0; any = false; rest = []; range_error = false }
unfolding strtoul sign_and_digits skip_spaces finish scan_digits
strtoul_nil = refl

decimal_loop-digits :
    (fuel n : ℕ) (out : Text)
    → all is_digit out ≡ true
    → all is_digit (decimal_loop fuel n out) ≡ true
unfolding decimal_loop is_digit
decimal_loop-digits zero n out h = ground (arith, h)
decimal_loop-digits (suc fuel) n out h = elim (Bool-cases (ltb n 10)) [
  | inl small ↦ rw small (one n h)
  | inr large ↦ rw large (decimal_loop-digits fuel (n / 10) ((b'0' + n % 10) ∷ out) (one n h))
]
  where
    one : (n : ℕ) → all is_digit out ≡ true → all is_digit ((b'0' + n % 10) ∷ out) ≡ true
    one n h = ground (arith, h)

decimal_loop-length :
    (fuel n : ℕ) (out : Text) → length (decimal_loop fuel n out) ≤ fuel + 1 + length out
unfolding decimal_loop
decimal_loop-length zero n out = omega arith
decimal_loop-length (suc fuel) n out = elim (Bool-cases (ltb n 10)) [
  | inl small ↦ rw small (omega arith)
  | inr large ↦ rw large (omega (arith, decimal_loop-length fuel (n / 10) ((b'0' + n % 10) ∷ out)))
]

-- A decimal number is written with digits, one at least, and not too many for a small buffer.
pub decimal_lem :
    (n : ℕ)
    → (all is_digit (decimal n) ≡ true)
      × (length (decimal n) ≤ n + 1)
      × ((c : ℕ) × (s : Text) × (decimal n ≡ c ∷ s))
unfolding decimal
decimal_lem n =
    let (d, s, e, _) = decimal_loop-cons n n [] in
    (decimal_loop-digits n n [] refl, omega (arith, decimal_loop-length n n []), (b'0' + d, s, e))
