-- ===== src/Log/Written.antt =====
-- The recent lines of src/log.c as slots: which line stands where after any number of writes.
use mathlib.Core.List.{append_assoc, append-nil, map-append}
use native.Mathlib.Nat.{mod-eq_of_lt, mod_self}
use sy_se_ba.Log.{Recent, no_recent, store, recent_add}
use sy_se_ba.Log.Ring.{set_middle, length-map}
use sy_se_ba.Prelude.{
  ℕ, suc, ◌+◌, ◌-◌, ◌%◌, ◌<◌, ◌≡◌, refl, sym, ap, ◌∙◌, subst, ◌⊎◌, inl, inr, false, Option, none,
  some, List, [], ◌∷◌, ◌++◌, map, length, set, replicate, ltb, ltb→lt, ltb→le, ◌==◌, if◌then◌else◌,
  length-append, Bool-cases, arith,
}
use sy_se_ba.Prelude.Text.{Text}

-- Slots that are not in use.
unfoldable pub unused : ℕ → List (Option Text)
unused n = replicate n none

-- The slots are not all in use yet.
unfoldable pub Fills : Recent → List Text → Type 0
Fills r h =
    (r.recent_logs ≡ map some h ++ unused (r.recent_capacity - length h))
    × (r.recent_next ≡ length h)
    × (r.recent_count ≡ length h)
    × (length h < r.recent_capacity)

-- The oldest line stands in the slot that is written next.
unfoldable pub Turns : Recent → List Text → Type 0
Turns r h =
    (xs : List Text) × (ys : List Text) × (front : List Text) × (r.recent_logs
      ≡ map some (xs ++ ys))
    × (r.recent_next ≡ length xs)
    × (r.recent_count ≡ r.recent_capacity)
    × (length xs + length ys ≡ r.recent_capacity)
    × (0 < length ys)
    × (h ≡ front ++ ys ++ xs)

unfoldable pub IsRing : Recent → List Text → Type 0
unfolding Fills Turns
IsRing r h = Fills r h ⊎ Turns r h

pub no_recent-IsRing : (n : ℕ) → 0 < n → IsRing (no_recent n) []
unfolding IsRing no_recent Fills unused
no_recent-IsRing n h = inl (ap unused whole, refl, refl, h)
  where
    whole : n ≡ n - 0
    whole = omega arith

-- The line is written after those that stand before the next slot.
set_slot :
    (r : Recent) (xs : List Text) (old : Option Text) (rest : List (Option Text)) (line : Text)
    → r.recent_logs ≡ map some xs ++ old ∷ rest
    → r.recent_next ≡ length xs
    → set r.recent_logs r.recent_next (some line) ≡ map some (xs ++ line ∷ []) ++ rest
set_slot r xs old rest line logs next =
    rw (logs, next, sym (length-map some xs))
      (set_middle (map some xs) old rest (some line)
        ∙ sym (append_assoc (map some xs) (some line ∷ []) rest)
        ∙ ap (λ l. l ++ rest) (sym (map-append some xs (line ∷ []))))

-- The next slot, within the slots and at their end.
module _ (n cap : ℕ) where
  next_within : n + 1 < cap → (n + 1) % cap ≡ n + 1
  next_within h = mod-eq_of_lt h

  next_around : n + 1 ≡ cap → (n + 1) % cap ≡ 0
  next_around h = rw h (mod_self cap)

capacity_test : (n : ℕ) → 0 < n → n == 0 ≡ false
capacity_test n h = ground arith

length_snoc : (xs : List Text) (line : Text) → length (xs ++ line ∷ []) ≡ length xs + 1
length_snoc xs line = length-append xs (line ∷ [])

unused-suc : (n k : ℕ) → n ≡ suc k → unused n ≡ none ∷ unused k
unfolding unused
unused-suc n k h = rw h refl

unused_zero : (n : ℕ) → n ≡ 0 → unused n ≡ []
unfolding unused
unused_zero n h = rw h refl

-- The write into a slot that is free.
fill :
    (r : Recent) (h : List Text) (line now : Text)
    → Fills r h
    → IsRing (store line now r) (h ++ line ∷ [])
unfolding IsRing store Fills Turns
fill r h line now (logs, next, count, room) =
    elim (Bool-cases (ltb (length h + 1) r.recent_capacity)) [
      | inl more ↦ inl (
        written,
        ap (λ n. (n + 1) % r.recent_capacity) next
            ∙ next_within (length h) r.recent_capacity (ltb→lt _ _ more)
            ∙ sym (length_snoc h line),
        counted,
        omega (arith, length_snoc h line, ltb→lt _ _ more),
      )
      | inr full ↦ inr (
        [],
        h ++ line ∷ [],
        [],
        written
            ∙ ap (λ l. map some (h ++ line ∷ []) ++ l)
                (unused_zero left (omega (arith, length_snoc h line, ltb→le _ _ full)))
            ∙ append-nil _,
        ap (λ n. (n + 1) % r.recent_capacity) next
            ∙ next_around (length h) r.recent_capacity (omega (arith, ltb→le _ _ full)),
        counted ∙ omega (arith, length_snoc h line, ltb→le _ _ full),
        omega (arith, length_snoc h line, ltb→le _ _ full),
        omega (arith, length_snoc h line),
        sym (append-nil (h ++ line ∷ [])),
      )
    ]
  where
    left : ℕ
    left = r.recent_capacity - length (h ++ line ∷ [])

    written : set r.recent_logs r.recent_next (some line) ≡ map some (h ++ line ∷ []) ++ unused left
    written =
        set_slot r h none (unused left) line
          (logs ∙ ap (λ l. map some h ++ l) (unused-suc _ left (omega (arith, length_snoc h line))))
          next

    counted :
        (if ltb r.recent_count r.recent_capacity then r.recent_count + 1 else r.recent_count)
        ≡ length (h ++ line ∷ [])
    counted = ground (arith, length_snoc h line)

-- One line leaves at the front and one comes in at the end.
rotated :
    (front : List Text) (oldest : Text) (ys xs : List Text) (line : Text)
    → front ++ (oldest ∷ ys) ++ xs ++ line ∷ [] ≡ front ++ oldest ∷ [] ++ ys ++ (xs ++ line ∷ [])
rotated front oldest ys xs line = simp append_assoc

-- The write over the oldest line.
turn :
    (r : Recent) (h : List Text) (line now : Text)
    → Turns r h
    → IsRing (store line now r) (h ++ line ∷ [])
unfolding IsRing store Turns
turn r h line now (xs, [], front, logs, next, full, sizes, live, lines) = absurd (omega arith)
turn r h line now (xs, oldest ∷ ys, front, logs, next, full, sizes, live, lines) =
    inr (ends ys written lines sizes)
  where
    written :
        set r.recent_logs r.recent_next (some line) ≡ map some (xs ++ line ∷ []) ++ map some ys
    written =
        set_slot r xs (some oldest) (map some ys) line (logs ∙ map-append some xs (oldest ∷ ys))
          next

    next_slot : ℕ
    next_slot = (r.recent_next + 1) % r.recent_capacity

    counted :
        (if ltb r.recent_count r.recent_capacity then r.recent_count + 1 else r.recent_count)
        ≡ r.recent_capacity
    counted = ground arith

    ends :
        (ys : List Text)
        → set r.recent_logs r.recent_next (some line) ≡ map some (xs ++ line ∷ []) ++ map some ys
        → h ≡ front ++ (oldest ∷ ys) ++ xs
        → length xs + suc (length ys) ≡ r.recent_capacity
        → Turns (store line now r) (h ++ line ∷ [])
    ends [] w l s = (
      [],
      xs ++ line ∷ [],
      front ++ oldest ∷ [],
      w ∙ append-nil _,
      ap (λ n. (n + 1) % r.recent_capacity) next
          ∙ next_around (length xs) r.recent_capacity (omega arith),
      counted,
      omega (arith, length_snoc xs line),
      omega (arith, length_snoc xs line),
      ap (λ t. t ++ line ∷ []) l ∙ rotated front oldest [] xs line ∙ simp append-nil,
    )
    ends (y ∷ ys) w l s = (
      xs ++ line ∷ [],
      y ∷ ys,
      front ++ oldest ∷ [],
      w ∙ sym (map-append some (xs ++ line ∷ []) (y ∷ ys)),
      ap (λ n. (n + 1) % r.recent_capacity) next
          ∙ next_within (length xs) r.recent_capacity (omega arith)
          ∙ sym (length_snoc xs line),
      counted,
      omega (arith, length_snoc xs line),
      omega arith,
      ap (λ t. t ++ line ∷ []) l ∙ rotated front oldest (y ∷ ys) xs line,
    )

pub recent_add-IsRing :
    (copy : Option Text) (r : Recent) (h : List Text) (now : Text)
    → 0 < r.recent_capacity
    → IsRing r h
    → IsRing (recent_add copy now r) (h ++ elim copy [ none ↦ [] | some line ↦ line ∷ [] ])
unfolding recent_add
recent_add-IsRing none r h now room held = subst (IsRing r) (sym (append-nil h)) held
recent_add-IsRing (some line) r h now room held =
    rw (capacity_test r.recent_capacity room) (added held)
  where
    added : IsRing r h → IsRing (store line now r) (h ++ line ∷ [])
    added =
        unfold IsRing in
        λ held. elim held [
          | inl fills ↦ fill r h line now fills
          | inr turns ↦ turn r h line now turns
        ]
