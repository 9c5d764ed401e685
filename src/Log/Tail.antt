-- ===== src/Log/Tail.antt =====
-- `syseba_log_tail` in src/log.c: the last lines of a file that stays as it is.
use mathlib.Core.List.{append_assoc}
use sy_se_ba.Log.{
  Scanned, found, counted, ReadAt, scan_chunk, backwards, reverse_onto, start_loop, collect_lines,
  pushed_line, log_tail,
}
use sy_se_ba.Log.Lines.{
  pieces, not_empty, newlines, length-pieces, pieces-newline, collect_lines_lem, Finds,
  scan_chunk_lem, reverse_onto_twice,
}
use sy_se_ba.Log.Ring.{last, last_all, last-append, drop_end}
use sy_se_ba.Prelude.{
  ℕ, zero, suc, ◌+◌, ◌-◌, ◌≤◌, ◌≡◌, refl, sym, ap, subst, ◌∙◌, false, Option, some, List, [], ◌∷◌,
  ◌++◌, map, length, take, drop, ltb, ◌==◌, if◌then◌else◌, length-append, length-drop,
  take-append-drop, arith,
}

-- What lies in the file can be read.
unfoldable pub IsReadable : ReadAt → List ℕ → Type 0
IsReadable read file =
    (position size : ℕ)
    → position + size ≤ length file
    → read position size ≡ some (take size (drop position file))

-- The wanted lines begin at the position.
unfoldable Starts : ℕ → List ℕ → Option ℕ → Type 0
Starts lines file o =
    (position : ℕ) × (o ≡ some position)
    × (position ≤ length file)
    × (pieces (drop position file) ≡ last (suc lines) (pieces file))

nothing_left : (n : ℕ) → ◌≡◌ {A = List ℕ} [] (drop n [])
nothing_left zero = refl
nothing_left (suc n) = refl

drop-drop : (m n : ℕ) (xs : List ℕ) → drop m (drop n xs) ≡ drop (n + m) xs
drop-drop m zero xs = ap (λ k. drop k xs) none_before
  where
    none_before : m ≡ 0 + m
    none_before = omega arith
drop-drop zero (suc n) [] = nothing_left (suc n + 0)
drop-drop (suc m) (suc n) [] = nothing_left (suc n + suc m)
drop-drop m (suc n) (x ∷ xs) = drop-drop m n xs ∙ ap (λ k. drop k (x ∷ xs)) one_more
  where
    one_more : suc (n + m) ≡ suc n + m
    one_more = omega arith

drop_past : (s : List ℕ) (c : ℕ) (t : List ℕ) → drop (suc (length s)) (s ++ c ∷ t) ≡ t
drop_past [] c t = refl
drop_past (b ∷ s) c t = drop_past s c t

-- A chunk that ends at `n + m`, and what follows it.
chunk_split : (n m : ℕ) (file : List ℕ) → take m (drop n file) ++ drop (n + m) file ≡ drop n file
chunk_split n m file =
    ap (λ l. take m (drop n file) ++ l) (sym (drop-drop m n file))
    ∙ take-append-drop m (drop n file)

-- At the start of the file all lines are wanted.
starts_first : (lines : ℕ) (file : List ℕ) → newlines file ≤ lines → Starts lines file (some 0)
unfolding Starts
starts_first lines file h = (
  0,
  refl,
  omega arith,
  sym (last_all (suc lines) (pieces file) (omega (arith, length-pieces file))),
)

-- After the newline that is found.
starts_found :
    (lines n : ℕ) (file before after : List ℕ)
    → n ≤ length file
    → drop n file ≡ before ++ b'\n' ∷ after
    → newlines after ≡ lines
    → Starts lines file (some (n + length before + 1))
unfolding Starts
starts_found lines n file before after room e count = (
  n + length before + 1,
  refl,
  omega (arith, length-drop n file, ap length e, length-append before (b'\n' ∷ after)),
  ap pieces dropped
      ∙ sym (
          ap (last (suc lines)) parts
          ∙ last-append (suc lines) _ (pieces after) (omega (arith, length-pieces after))),
)
  where
    dropped : drop (n + length before + 1) file ≡ after
    dropped =
        ap (λ k. drop k file) regroup
        ∙ sym (drop-drop (suc (length before)) n file)
        ∙ ap (drop (suc (length before))) e
        ∙ drop_past before b'\n' after
      where
        regroup : n + length before + 1 ≡ n + suc (length before)
        regroup = omega arith

    parts : pieces file ≡ pieces (take n file ++ before) ++ pieces after
    parts =
        ap pieces (
          sym (take-append-drop n file)
          ∙ ap (λ l. take n file ++ l) e
          ∙ sym (append_assoc (take n file) before (b'\n' ∷ after)))
        ∙ pieces-newline (take n file ++ before) after

-- After a scan: the newline is found, or the loop goes on.
go_on :
    (lines next : ℕ) (file : List ℕ) (rest : ℕ → Option ℕ)
    → next ≤ length file
    → (newlines (drop next file) ≤ lines → Starts lines file (rest (newlines (drop next file))))
    → (o : Scanned) → Finds lines o (drop next file)
    → Starts lines file
        (elim o [ found index ↦ some (next + index + 1) | counted count ↦ rest count ])
unfolding Finds
go_on lines next file rest room more (found k) (before, after, e, at_newline, count) =
    rw at_newline (starts_found lines next file before after room e count)
go_on lines next file rest room more (counted m) (e, few) = rw e (more (omega arith))

module _ (read : ReadAt) (file : List ℕ) (lines : ℕ) where
  start_loop_lem :
      IsReadable read file
      → (fuel position : ℕ) → position ≤ fuel
      → position ≤ length file
      → newlines (drop position file) ≤ lines
      → Starts lines file (start_loop read lines fuel position (newlines (drop position file)))
  unfolding IsReadable start_loop
  start_loop_lem readable zero zero h k few = starts_first lines file few
  start_loop_lem readable zero (suc n) h k few = absurd (omega arith)
  start_loop_lem readable (suc fuel) zero h k few = starts_first lines file few
  start_loop_lem readable (suc fuel) (suc n) h k few =
      rw (not_zero, too_few, readable next chunk (omega (arith, sizes)), start_loop)
        (go_on lines next file (start_loop read lines fuel next) (omega (arith, sizes))
          (λ f. start_loop_lem readable fuel next (omega (arith, sizes)) (omega (arith, sizes)) f)
          (scan_chunk lines (backwards (take chunk (drop next file)))
            (newlines (drop (suc n) file)))
          (subst (Finds lines _) whole (
            scan_chunk_lem lines (backwards (take chunk (drop next file))) (drop (suc n) file)
              few)))
    where
      chunk : ℕ
      chunk = if ltb 8192 (suc n) then 8192 else suc n

      next : ℕ
      next = suc n - chunk

      sizes : (next + chunk ≡ suc n) × (next ≤ n)
      sizes = ground arith

      not_zero : suc n == 0 ≡ false
      not_zero = ground arith

      joined : suc n ≡ next + chunk
      joined = omega (arith, sizes)

      too_few : ltb lines (newlines (drop (suc n) file)) ≡ false
      too_few = ground arith

      whole :
          reverse_onto (backwards (take chunk (drop next file))) (drop (suc n) file)
          ≡ drop next file
      whole =
          reverse_onto_twice (take chunk (drop next file)) [] (drop (suc n) file)
          ∙ ap (λ i. take chunk (drop next file) ++ drop i file) joined
          ∙ chunk_split next chunk file

take_all : (n : ℕ) (s : List ℕ) → length s ≤ n → take n s ≡ s
take_all zero [] h = refl
take_all zero (c ∷ s) h = absurd (omega arith)
take_all (suc n) [] h = refl
take_all (suc n) (c ∷ s) h = ap (◌∷◌ c) (take_all n s (omega arith))

-- What is read from the wanted position on.
from_start :
    (read : ReadAt) (file : List ℕ) (lines : ℕ)
    → IsReadable read file
    → Starts lines file (start_loop read lines (length file) (length file) 0)
    → log_tail read (length file) lines
      ≡ some (map pushed_line (not_empty (last (suc lines) (pieces file))))
unfolding log_tail Starts IsReadable
from_start read file lines readable (position, e, room, p) =
    rw (e, readable position (length file - position) (omega arith), log_tail)
      (ap (λ t. some (collect_lines (length file - position) t))
          (take_all (length file - position) (drop position file)
            (omega (arith, length-drop position file)))
        ∙ ap some (
            collect_lines_lem (length file - position) (drop position file)
              (omega (arith, length-drop position file))
            ∙ ap (λ l. map pushed_line (not_empty l)) p))

-- For a file that can be read, syseba_log_tail with a number of lines gives, of the last pieces
-- between newlines, one more than this number, those that are not empty, in their order, each
-- without the carriage returns at its end.
pub log_tail_lem :
    (read : ReadAt) (file : List ℕ) (lines : ℕ)
    → IsReadable read file
    → log_tail read (length file) lines
      ≡ some (map pushed_line (not_empty (last (suc lines) (pieces file))))
log_tail_lem read file lines readable = from_start read file lines readable begins
  where
    begins : Starts lines file (start_loop read lines (length file) (length file) 0)
    begins =
        subst (λ n. Starts lines file (start_loop read lines (length file) (length file) n))
          none_yet
          (start_loop_lem read file lines readable (length file) (length file) (omega arith)
            (omega arith) (omega (arith, none_yet)))
      where
        none_yet : newlines (drop (length file) file) ≡ 0
        none_yet = ap newlines (drop_end (length file) file refl)
