-- ===== src/FilePath/Tokens.antt =====
-- What the tokens of a path are, and how many.
use sy_se_ba.Prelude.{
  ℕ, suc, ◌+◌, ◌*◌, ◌/◌, ◌≤◌, ◌<◌, ◌≡◌, refl, ap, ◌∙◌, Bool, true, false, ◌&&◌, List, [], ◌∷◌, ◌++◌,
  length, all, All, drop, ◌==◌, Bool-cases, inl, inr, length-append, arith,
}
use sy_se_ba.Prelude.Text.{Text, streq}
use sy_se_ba.FilePath.{
  path_max, sep, normalize_byte, normalize_separators, flush, token_loop, add_part, collect_parts,
}
use sy_se_ba.FilePath.Canonical.{is_name_byte}

all-append : (p : ℕ → Bool) (s t : Text) → all p (s ++ t) ≡ (all p s && all p t)
all-append p [] t = refl
all-append p (c ∷ s) t = ground (arith, all-append p s t)

-- A token: not empty, and without separators.
abbrev pub IsToken : Text → Type 0
IsToken t = (streq t [] ≡ false) × (all is_name_byte t ≡ true)

normalize_byte-name :
    (c : ℕ) → normalize_byte c == sep ≡ false → is_name_byte (normalize_byte c) ≡ true
unfolding normalize_byte
normalize_byte-name c h = ground arith

flush-tokens :
    (current : Text) (rest : List Text)
    → all is_name_byte current ≡ true
    → All IsToken rest
    → All IsToken (flush current rest)
unfolding flush streq
flush-tokens [] rest h k = k
flush-tokens (c ∷ current) rest h k = ((refl, h), k)

-- Normalised separators leave tokens only.
pub token_loop-tokens :
    (current s : Text)
    → all is_name_byte current ≡ true
    → All IsToken (token_loop current (normalize_separators s))
unfolding token_loop normalize_separators
token_loop-tokens current [] h = flush-tokens current [] h tt
token_loop-tokens current (c ∷ s) h = elim (Bool-cases (normalize_byte c == sep)) [
  | inl e ↦ rw e (flush-tokens current _ h (token_loop-tokens [] s refl))
  | inr e ↦ rw e (
      token_loop-tokens (current ++ normalize_byte c ∷ []) s
        (all-append is_name_byte current _ ∙ rw (h, normalize_byte-name c e)))
]

-- Each token but the last takes a separator with it.
length-token_loop :
    (s : Text)
    → (2 * length (token_loop [] s) ≤ length s + 1)
      × ((c : ℕ) (current : Text) → 2 * length (token_loop (c ∷ current) s) ≤ length s + 2)
unfolding token_loop flush
length-token_loop [] = (omega arith, λ c current. omega arith)
length-token_loop (d ∷ s) = elim (Bool-cases (d == sep)) [
  | inl e ↦
      rw e (
        omega (arith, (length-token_loop s).0),
        λ c current. omega (arith, (length-token_loop s).0),
      )
  | inr e ↦ rw e (
    omega (arith, (length-token_loop s).1 d []),
    λ c current. omega (arith, (length-token_loop s).1 c (current ++ d ∷ [])),
  )
]

length-add_part : (parts : List Text) (t : Text) → length (add_part parts t) ≤ length parts + 1
unfolding add_part
length-add_part [] t = ground arith
length-add_part (p ∷ parts) t = ground arith

length-collect_parts :
    (parts ts : List Text) → length (collect_parts parts ts) ≤ length parts + length ts
unfolding collect_parts
length-collect_parts parts [] = omega arith
length-collect_parts parts (t ∷ ts) =
    omega (arith, length-collect_parts (add_part parts t) ts, length-add_part parts t)

length-normalize_separators : (s : Text) → length (normalize_separators s) ≡ length s
unfolding normalize_separators
length-normalize_separators [] = refl
length-normalize_separators (c ∷ s) = ap suc (length-normalize_separators s)

-- For an absolute path that fits its buffer, after any number of its tokens the array parts of
-- SYSEBA_PATH_MAX / 2 pointers has room for one more part.
pub collect_parts-bounded :
    (c : ℕ) (s : Text) (ts us : List Text)
    → length (c ∷ s) < path_max
    → token_loop [] (drop 1 (normalize_separators (c ∷ s))) ≡ ts ++ us
    → length (collect_parts [] ts) < path_max / 2
unfolding normalize_separators
collect_parts-bounded c s ts us fit e = omega (
  arith,
  length-collect_parts [] ts,
  ap length e,
  length-append ts us,
  (length-token_loop (normalize_separators s)).0,
  length-normalize_separators s,
)
