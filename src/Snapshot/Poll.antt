-- ===== src/Snapshot/Poll.antt =====
-- The thread of the polling watcher, `syseba_watcher_poll_main`.
use sy_se_ba.Prelude.{
  ℕ, zero, suc, ◌+◌, ◌-◌, ◌≤◌, ◌<◌, ◌≡◌, ap, Bool, false, ◌&&◌, not, Option, none, some, List, [],
  ◌∷◌, ◌++◌, ltb, leb, ltb→lt, ltb→le, if◌then◌else◌, All, Bool-cases, inl, inr, arith,
}
use sy_se_ba.Prelude.Text.{Text}
use sy_se_ba.Prelude.Number.{Strtoul, strtoul, decimal, strtoul-decimal, strtoul_nil}
use sy_se_ba.Snapshot.{Snapshot, Change, snapshot_reconcile}

-- `SYSEBA_POLL_INTERVAL_MS`, in milliseconds; `none` if it is not set.
unfoldable pub poll_interval : Option Text → ℕ
poll_interval none = 2000
poll_interval (some []) = 2000
poll_interval (some (c ∷ s)) =
    let parsed = (strtoul (c ∷ s)).value in
    if leb 250 parsed && leb parsed 60000 then parsed else 2000

-- The slices that are slept between two scans. `stopping` is what `syseba_app_is_stopping` says at
-- each test. The fuel is the interval.
unfoldable sleep_loop : ℕ → (ℕ → Bool) → ℕ → ℕ → List ℕ
sleep_loop zero stopping interval_ms slept = []
sleep_loop (suc fuel) stopping interval_ms slept =
    let slice = if ltb 200 (interval_ms - slept) then 200 else interval_ms - slept in
    let rest = sleep_loop fuel (λ n. stopping (suc n)) interval_ms (slept + slice) in
    if not (stopping 0) && ltb slept interval_ms then slice ∷ rest else []

unfoldable pub sleep_slices : (ℕ → Bool) → ℕ → List ℕ
unfolding sleep_loop
sleep_slices stopping interval_ms = sleep_loop interval_ms stopping interval_ms 0

-- One scan; a scan that fails leaves the earlier snapshot in place.
unfoldable pub poll_round : Option Snapshot → Snapshot → Snapshot × List Change
poll_round none previous = (previous, [])
poll_round (some current) previous = (current, snapshot_reconcile previous current)

-- The scans that the thread makes before it is stopped.
unfoldable pub poll_rounds : List (Option Snapshot) → Snapshot → List Change
unfolding poll_round
poll_rounds [] previous = []
poll_rounds (scan ∷ scans) previous =
    let (now, changes) = poll_round scan previous in changes ++ poll_rounds scans now

pub sum : List ℕ → ℕ
sum [] = 0
sum (n ∷ ns) = n + sum ns

sleep_loop-sum :
    (fuel interval_ms slept : ℕ)
    → interval_ms ≤ slept + fuel
    → slept ≤ interval_ms
    → (slept + sum (sleep_loop fuel (λ _. false) interval_ms slept) ≡ interval_ms)
      × All (λ n. (0 < n) × (n ≤ 200)) (sleep_loop fuel (λ _. false) interval_ms slept)
unfolding sleep_loop sum
sleep_loop-sum zero interval_ms slept h k = (omega arith, _)
sleep_loop-sum (suc fuel) interval_ms slept h k = elim (Bool-cases (ltb slept interval_ms)) [
  | inr done ↦ rw done (omega (arith, ltb→le slept interval_ms done), _)
  | inl more ↦ elim (Bool-cases (ltb 200 (interval_ms - slept))) [
    | inl long ↦
        let (total, bounds) =
          sleep_loop-sum fuel interval_ms (slept + 200) (omega arith)
            (omega (arith, ltb→lt 200 (interval_ms - slept) long)) in
        rw (more, long) (omega arith, ((omega arith, omega arith), bounds))
    | inr short ↦
        let (total, bounds) =
          sleep_loop-sum fuel interval_ms (slept + (interval_ms - slept))
            (omega (arith, ltb→lt slept interval_ms more)) (omega arith) in
        rw (more, short)
          (
            omega arith,
            (
              (
                omega (arith, ltb→lt slept interval_ms more),
                omega (arith, ltb→le 200 (interval_ms - slept) short),
              ),
              bounds,
            ),
          )
  ]
]

-- A poll thread that is not asked to stop sleeps the whole interval between two scans, in slices
-- of 1 to 200 milliseconds, in no more rounds than the interval has milliseconds.
pub sleep_slices-sum :
    (interval_ms : ℕ)
    → (sum (sleep_slices (λ _. false) interval_ms) ≡ interval_ms)
      × All (λ n. (0 < n) × (n ≤ 200)) (sleep_slices (λ _. false) interval_ms)
unfolding sleep_slices
sleep_slices-sum interval_ms =
    let (total, bounds) = sleep_loop-sum interval_ms interval_ms 0 (omega arith) (omega arith) in
    (omega arith, bounds)

-- The poll interval lies between 250 and 60000 milliseconds whatever the environment says, and a
-- decimal number in this range is taken as it is.
pub poll_interval_lem :
    (setting : Option Text)
    → (250 ≤ poll_interval setting)
      × (poll_interval setting ≤ 60000)
      × ((n : ℕ) → 250 ≤ n → n ≤ 60000 → poll_interval (some (decimal n)) ≡ n)
unfolding poll_interval
poll_interval_lem setting = (
  low setting,
  high setting,
  λ n a b. taken n (decimal n) a b (ap Strtoul.value (strtoul-decimal n (omega arith))),
)
  where
    low : (setting : Option Text) → 250 ≤ poll_interval setting
    low none = omega arith
    low (some []) = omega arith
    low (some (c ∷ s)) = ground arith

    high : (setting : Option Text) → poll_interval setting ≤ 60000
    high none = omega arith
    high (some []) = omega arith
    high (some (c ∷ s)) = ground arith

    taken :
        (n : ℕ) (t : Text)
        → 250 ≤ n
        → n ≤ 60000
        → (strtoul t).value ≡ n
        → poll_interval (some t) ≡ n
    taken n [] a b h = absurd (omega (arith, ap Strtoul.value strtoul_nil))
    taken n (c ∷ s) a b h = ground arith
