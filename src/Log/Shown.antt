-- ===== src/Log/Shown.antt =====
-- The recent lines as the status of src/app.c shows them: the last ones of all that src/log.c added.
use mathlib.Core.List.{append_assoc, append-nil}
use native.Mathlib.Nat.{mod-eq_of_lt, mod-lt, mod-add-mod, add-mod_left}
use sy_se_ba.Log.{Recent, no_recent, store, recent_add, shown_loop, shown}
use sy_se_ba.Log.Ring.{last, last-suffix, length-map, drop_end, drop_next, get_left, get_rotated}
use sy_se_ba.Log.Written.{unused, Fills, Turns, IsRing, no_recent-IsRing, recent_add-IsRing}
use sy_se_ba.Prelude.{
  ℕ, zero, suc, ◌+◌, ◌-◌, ◌%◌, ◌≤◌, ◌<◌, ◌≡◌, refl, sym, ap, ◌∙◌, subst, inl, inr, Option, none,
  some, List, [], ◌∷◌, ◌++◌, map, length, get_or, drop, ltb, ◌==◌, if_both, if◌then◌else◌,
  length-append, arith,
}
use sy_se_ba.Prelude.Text.{Text}

-- Calls of `syseba_recent_add`, each with the copy of its line and the time.
unfoldable pub add_all : List (Option Text × Text) → Recent → Recent
add_all [] r = r
add_all ((copy, now) ∷ adds) r = add_all adds (recent_add copy now r)

-- The lines that were copied.
unfoldable pub copied_lines : List (Option Text × Text) → List Text
copied_lines [] = []
copied_lines ((none, now) ∷ adds) = copied_lines adds
copied_lines ((some line, now) ∷ adds) = line ∷ copied_lines adds

-- A slot that is in use.
get_some :
    (xs : List Text) (i : ℕ) → i < length xs → get_or (map some xs) i none ≡ some (get_or xs i [])
get_some [] i h = absurd (omega arith)
get_some (x ∷ xs) zero h = refl
get_some (x ∷ xs) (suc i) h = get_some xs i (omega arith)

-- The slot of the index `i` from the slot `first` on holds the element `i` of the list.
unfoldable Reads : Recent → ℕ → List Text → Type 0
Reads r first lines =
    (i : ℕ)
    → i < length lines
    → get_or r.recent_logs ((first + i) % r.recent_capacity) none ≡ some (get_or lines i [])

shown_loop_lem :
    (r : Recent) (first : ℕ) (lines : List Text)
    → Reads r first lines
    → (index left : ℕ) → index + left ≡ length lines
    → shown_loop r first index left ≡ drop index lines
unfolding shown_loop Reads
shown_loop_lem r first lines reads index zero h = sym (drop_end index lines (omega arith))
shown_loop_lem r first lines reads index (suc left) h =
    rw (reads index (omega arith), shown_loop)
      (ap (◌∷◌ (get_or lines index []))
          (shown_loop_lem r first lines reads (suc index) left (omega arith))
        ∙ sym (drop_next index lines [] (omega arith)))

-- What the status reads is at most twenty lines from the end.
shown-last :
    (r : Recent) (lines : List Text)
    → r.recent_count ≡ length lines
    → Reads r ((r.recent_next + r.recent_capacity - r.recent_count) % r.recent_capacity) lines
    → shown r ≡ last 20 lines
unfolding shown last
shown-last r lines count reads =
    shown_loop_lem r _ lines reads start (r.recent_count - start) (ground arith)
    ∙ ap (λ i. drop i lines) from
  where
    start : ℕ
    start = if ltb 20 r.recent_count then r.recent_count - 20 else 0

    from : start ≡ length lines - 20
    from = ground arith

-- The slot of an index, before all slots are in use and afterwards.
module _ (n c i : ℕ) where
  slot_filling : i < c → ((n + c - n) % c + i) % c ≡ i
  slot_filling h =
      mod-add-mod _ c i ∙ ap (λ k. (k + i) % c) cancel ∙ add-mod_left c i ∙ mod-eq_of_lt h
    where
      cancel : n + c - n ≡ c
      cancel = omega arith

  slot_turning : ((n + c - c) % c + i) % c ≡ (n + i) % c
  slot_turning = mod-add-mod _ c i ∙ ap (λ k. (k + i) % c) cancel
    where
      cancel : n + c - c ≡ n
      cancel = omega arith

Fills-shown : (r : Recent) (h : List Text) → Fills r h → shown r ≡ last 20 h
unfolding Fills
Fills-shown r h (logs, next, count, room) = shown-last r h count (unfold Reads in reads)
  where
    slots : List (Option Text)
    slots = map some h ++ unused (r.recent_capacity - length h)

    reads :
        (i : ℕ)
        → i < length h
        → get_or r.recent_logs
            (((r.recent_next + r.recent_capacity - r.recent_count) % r.recent_capacity + i)
              % r.recent_capacity)
            none
          ≡ some (get_or h i [])
    reads i small =
        rw (logs, next, count)
          (ap (λ k. get_or slots k none) (slot_filling (length h) r.recent_capacity i (omega arith))
            ∙ get_left (map some h) _ i none (omega (arith, length-map {B = Option Text} some h))
            ∙ get_some h i small)

Turns-shown :
    (r : Recent) (h : List Text) → 20 ≤ r.recent_capacity → Turns r h → shown r ≡ last 20 h
unfolding Turns
Turns-shown r h room (xs, ys, front, logs, next, full, sizes, live, lines) =
    shown-last r (ys ++ xs) counted (unfold Reads in reads)
    ∙ sym (last-suffix 20 front (ys ++ xs) (omega (arith, length-append ys xs)))
    ∙ ap (last 20) (sym (lines ∙ append_assoc front ys xs))
  where
    counted : r.recent_count ≡ length (ys ++ xs)
    counted = omega (arith, length-append ys xs)

    at_slot :
        (i : ℕ)
        → i < length (ys ++ xs)
        → get_or (xs ++ ys) ((length xs + i) % r.recent_capacity) [] ≡ get_or (ys ++ xs) i []
    at_slot i small = rw (sym sizes) (get_rotated xs ys i [] (omega (arith, length-append ys xs)))

    reads :
        (i : ℕ)
        → i < length (ys ++ xs)
        → get_or r.recent_logs
            (((r.recent_next + r.recent_capacity - r.recent_count) % r.recent_capacity + i)
              % r.recent_capacity)
            none
          ≡ some (get_or (ys ++ xs) i [])
    reads i small =
        rw (logs, next, full)
          (ap (λ k. get_or (map some (xs ++ ys)) k none)
              (slot_turning (length xs) r.recent_capacity i)
            ∙ get_some (xs ++ ys) _ (rw (length-append xs ys, sizes) (mod-lt _ (omega arith)))
            ∙ ap some (at_slot i small))

recent_add-capacity :
    (copy : Option Text) (now : Text) (r : Recent)
    → (recent_add copy now r).recent_capacity ≡ r.recent_capacity
unfolding recent_add store
recent_add-capacity none now r = refl
recent_add-capacity (some line) now r =
    if_both (λ s. s.recent_capacity ≡ r.recent_capacity) (r.recent_capacity == 0) r _ refl refl

-- It holds of any number of writes.
add_all-IsRing :
    (adds : List (Option Text × Text)) (r : Recent) (h : List Text)
    → 0 < r.recent_capacity
    → IsRing r h
    → IsRing (add_all adds r) (h ++ copied_lines adds)
      × ((add_all adds r).recent_capacity ≡ r.recent_capacity)
unfolding add_all copied_lines
add_all-IsRing [] r h room held = (subst (IsRing r) (sym (append-nil h)) held, refl)
add_all-IsRing ((none, now) ∷ adds) r h room held =
    let (after, same) =
      add_all-IsRing adds (recent_add none now r) (h ++ [])
        (rw (recent_add-capacity none now r) room) (recent_add-IsRing none r h now room held) in
    (
      subst (λ l. IsRing (add_all adds (recent_add none now r)) (l ++ copied_lines adds))
          (append-nil h) after,
      same ∙ recent_add-capacity none now r,
    )
add_all-IsRing ((some line, now) ∷ adds) r h room held =
    let (after, same) =
      add_all-IsRing adds (recent_add (some line) now r) (h ++ line ∷ [])
        (rw (recent_add-capacity (some line) now r) room)
        (recent_add-IsRing (some line) r h now room held) in
    (
      subst (IsRing (add_all adds (recent_add (some line) now r)))
          (append_assoc h (line ∷ []) (copied_lines adds)) after,
      same ∙ recent_add-capacity (some line) now r,
    )

-- With room for twenty lines at least, after any calls of syseba_recent_add from the start, some
-- of them without memory for the line, the recent lines of the status are exactly the last
-- twenty, or all if there are fewer, of the lines that were copied, the oldest first.
pub add_all-shown :
    (adds : List (Option Text × Text)) (capacity : ℕ)
    → 20 ≤ capacity
    → shown (add_all adds (no_recent capacity)) ≡ last 20 (copied_lines adds)
add_all-shown adds capacity room =
    let (held, same) =
      add_all-IsRing adds (no_recent capacity) [] (unfold no_recent in omega arith)
        (no_recent-IsRing capacity (omega arith)) in
    cases held (rw same (unfold no_recent in room))
  where
    cases :
        IsRing (add_all adds (no_recent capacity)) (copied_lines adds)
        → 20 ≤ (add_all adds (no_recent capacity)).recent_capacity
        → shown (add_all adds (no_recent capacity)) ≡ last 20 (copied_lines adds)
    cases =
        unfold IsRing in
        λ held room. elim held [
          | inl fills ↦ Fills-shown _ _ fills
          | inr turns ↦ Turns-shown _ _ room turns
        ]
