-- ===== src/Log/Lines.antt =====
-- The lines of a text, and the loops of `syseba_log_tail` in src/log.c over the data.
use sy_se_ba.Log.{
  Scanned, found, counted, scan_chunk, reverse_onto, find_newline, pushed_line, collect_lines,
}
use sy_se_ba.Prelude.{
  ℕ, zero, suc, ◌+◌, ◌≤◌, ◌<◌, ◌≡◌, refl, ap, ◌∙◌, subst, inl, inr, true, false, none, some, List,
  [], ◌∷◌, ◌++◌, map, length, take, drop, ltb, ltb→lt, ltb→le, ◌==◌, ==→eq, if◌then◌else◌,
  length-drop, Bool-cases, Option-cases, arith,
}

-- A byte in front of the first line.
unfoldable pub onto_first : ℕ → List (List ℕ) → List (List ℕ)
onto_first c [] = (c ∷ []) ∷ []
onto_first c (line ∷ lines) = (c ∷ line) ∷ lines

-- The pieces of a text between its newlines: one more than there are newlines.
unfoldable pub pieces : List ℕ → List (List ℕ)
unfolding onto_first
pieces [] = [] ∷ []
pieces (c ∷ s) = if c == b'\n' then [] ∷ pieces s else onto_first c (pieces s)

unfoldable pub not_empty : List (List ℕ) → List (List ℕ)
not_empty [] = []
not_empty ([] ∷ lines) = not_empty lines
not_empty ((c ∷ line) ∷ lines) = (c ∷ line) ∷ not_empty lines

abbrev pub newlines : List ℕ → ℕ
newlines [] = 0
newlines (c ∷ s) = if c == b'\n' then suc (newlines s) else newlines s

length-onto_first : (c : ℕ) (l : List (List ℕ)) → 0 < length l → length (onto_first c l) ≡ length l
unfolding onto_first
length-onto_first c [] h = absurd (omega arith)
length-onto_first c (line ∷ lines) h = refl

pub length-pieces : (s : List ℕ) → length (pieces s) ≡ newlines s + 1
unfolding pieces
length-pieces [] = refl
length-pieces (c ∷ s) = ground (arith, length-pieces s, length-onto_first c (pieces s))

onto_first-append :
    (c : ℕ) (l m : List (List ℕ)) → 0 < length l → onto_first c (l ++ m) ≡ onto_first c l ++ m
unfolding onto_first
onto_first-append c [] m h = absurd (omega arith)
onto_first-append c (line ∷ lines) m h = refl

-- A newline separates.
pub pieces-newline : (s t : List ℕ) → pieces (s ++ b'\n' ∷ t) ≡ pieces s ++ pieces t
unfolding pieces
pieces-newline [] t = refl
pieces-newline (c ∷ s) t = elim (Bool-cases (c == b'\n')) [
  | inl e ↦ rw e (ap (◌∷◌ []) (pieces-newline s t))
  | inr e ↦ rw e (
      ap (onto_first c) (pieces-newline s t)
      ∙ onto_first-append c (pieces s) (pieces t) (omega (arith, length-pieces s)))
]

pub find_newline-none : (s : List ℕ) → find_newline s ≡ none → pieces s ≡ s ∷ []
unfolding find_newline pieces onto_first
find_newline-none [] h = refl
find_newline-none (c ∷ s) h = ground (arith, find_newline-none s)

pub find_newline-some :
    (s : List ℕ) (i : ℕ)
    → find_newline s ≡ some i
    → (pieces s ≡ take i s ∷ pieces (drop (suc i) s)) × (i < length s)
unfolding find_newline pieces onto_first
find_newline-some [] i h = cc
find_newline-some (c ∷ s) zero h = ground (arith, find_newline-some s)
find_newline-some (c ∷ s) (suc i) h = ground (arith, find_newline-some s i)

-- The loop over the data gives the lines that are not empty.
pub collect_lines_lem :
    (fuel : ℕ) (s : List ℕ)
    → length s ≤ fuel
    → collect_lines fuel s ≡ map pushed_line (not_empty (pieces s))
unfolding collect_lines not_empty
collect_lines_lem zero [] h = unfold pieces in refl
collect_lines_lem zero (c ∷ s) h = absurd (omega arith)
collect_lines_lem (suc fuel) [] h = unfold pieces in refl
collect_lines_lem (suc fuel) (c ∷ s) h = elim (Option-cases (find_newline (c ∷ s))) [
  | inl e ↦ rw (e, find_newline-none (c ∷ s) e, collect_lines) refl
  | inr (zero, e) ↦
      let (p, _) = find_newline-some (c ∷ s) zero e in
      rw (e, p, collect_lines) (collect_lines_lem fuel s (omega arith))
  | inr (suc i, e) ↦
      let (p, _) = find_newline-some (c ∷ s) (suc i) e in
      rw (e, p, collect_lines)
        (ap (◌∷◌ (pushed_line (c ∷ take i s)))
          (collect_lines_lem fuel (drop (suc i) s) (omega (arith, length-drop (suc i) s))))
]

-- What a scan of the bytes in front of `out` finds: the newline before the last lines.
module _ (lines : ℕ) where
  unfoldable pub Finds : Scanned → List ℕ → Type 0
  Finds (counted m) s = (m ≡ newlines s) × (m ≤ lines)
  Finds (found k) s =
      (before : List ℕ) × (after : List ℕ) × (s ≡ before ++ b'\n' ∷ after)
      × (k ≡ length before)
      × (newlines after ≡ lines)

length-reverse_onto : (s out : List ℕ) → length (reverse_onto s out) ≡ length s + length out
length-reverse_onto [] out = omega arith
length-reverse_onto (c ∷ s) out = omega (arith, length-reverse_onto s (c ∷ out))

reverse_onto-append :
    (s out rest : List ℕ) → reverse_onto s (out ++ rest) ≡ reverse_onto s out ++ rest
reverse_onto-append [] out rest = refl
reverse_onto-append (c ∷ s) out rest = reverse_onto-append s (c ∷ out) rest

pub scan_chunk_lem :
    (lines : ℕ) (s out : List ℕ)
    → newlines out ≤ lines
    → Finds lines (scan_chunk lines s (newlines out)) (reverse_onto s out)
unfolding scan_chunk Finds
scan_chunk_lem lines [] out h = (refl, h)
scan_chunk_lem lines (c ∷ s) out h = elim (Bool-cases (c == b'\n')) [
  | inl e ↦ rw e (elim (Bool-cases (ltb lines (newlines out + 1))) [
    | inl l ↦ rw l (
      reverse_onto s [],
      out,
      reverse_onto-append s [] (c ∷ out) ∙ ap (λ b. reverse_onto s [] ++ b ∷ out) (==→eq c b'\n' e),
      length-reversed,
      omega (arith, ltb→lt _ _ l),
    )
    | inr g ↦ rw g (
        subst (λ n. Finds lines (scan_chunk lines s n) (reverse_onto s (c ∷ out))) (one_more e)
          (scan_chunk_lem lines s (c ∷ out) (omega (arith, one_more e, ltb→le _ _ g))))
  ])
  | inr e ↦ rw e (
      subst (λ n. Finds lines (scan_chunk lines s n) (reverse_onto s (c ∷ out))) (no_more e)
        (scan_chunk_lem lines s (c ∷ out) (omega (arith, no_more e))))
]
  where
    one_more : c == b'\n' ≡ true → newlines (c ∷ out) ≡ newlines out + 1
    one_more e = rw e (omega arith)

    no_more : c == b'\n' ≡ false → newlines (c ∷ out) ≡ newlines out
    no_more e = rw e refl

    length-reversed : length s ≡ length (reverse_onto s [])
    length-reversed = omega (arith, length-reverse_onto s [])

pub reverse_onto_twice :
    (s between out : List ℕ)
    → reverse_onto (reverse_onto s between) out ≡ reverse_onto between (s ++ out)
reverse_onto_twice [] between out = refl
reverse_onto_twice (c ∷ s) between out = reverse_onto_twice s (c ∷ between) out
