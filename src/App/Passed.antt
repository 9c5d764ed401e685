-- ===== src/App/Passed.antt =====
-- What the steps of the two walks of the initial synchronisation in src/app.c keep.
use sy_se_ba.Prelude.{
  ℕ, ◌+◌, ◌^◌, ◌<◌, ◌≡◌, refl, sym, ap, ◌∙◌, subst, Bool, true, false, Option, none, some, List, [],
  ◌∷◌, ◌++◌, if◌then◌else◌, if_both, inc64, length, length-append, arith,
}
use sy_se_ba.Prelude.Text.{Text}
use sy_se_ba.Config.{Failure}
use sy_se_ba.Walk.{Walked}
use sy_se_ba.App.{Event}
use sy_se_ba.App.Sync.{
  Shared, SyncContext, Point, Around, queue_path, sync_step, sync_walk, at_path, is_failure,
}
use sy_se_ba.App.Visited.{
  count_visited, count_visited_append, OnlyTakes, IsAllocator, queue_path-IsBehind, IsDelivered,
  OnlyTakes-IsDelivered, IsBehind-IsDelivered,
}

-- The context of the first walk, and of the second one.
module _ (around : Around) (xs : List Event) (open_tasks total : ℕ) where
  pub record IsCounting (seen : List (Text × Bool)) (c : SyncContext) : Type 0 where
    pub off : c.enqueue ≡ false
    pub files : c.files ≡ count_visited 0 seen
    pub no_errors : c.errors ≡ 0
    pub delivered : IsDelivered around xs open_tasks total [] c.shared

  pub record IsQueueing (seen : List (Text × Bool)) (c : SyncContext) : Type 0 where
    pub on : c.enqueue ≡ true
    pub delivered :
        c.errors ≡ 0
        → open_tasks + length seen < 2 ^ 64
        → IsDelivered around xs open_tasks total seen c.shared

module _ (around : Around) (source : Text) where
  -- Other threads come first.
  abbrev before_step : Text → SyncContext → SyncContext
  before_step path c = record c { shared = around.others (at_path c.enqueue path) c.shared }

  sync_walk_steps :
      (path : Text) (d : Bool) (c : SyncContext) (errno : ℕ)
      → (sync_walk around source path d c errno).ok ≡ true
      → sync_step around source path d (before_step path c)
        ≡ (sync_walk around source path d c errno).context
  unfolding sync_walk
  sync_walk_steps path d c errno h = ground (arith, h)

  -- An error is not forgotten.
  sync_step-errors :
      (path : Text) (d : Bool) (c : SyncContext)
      → (sync_step around source path d c).errors ≡ 0
      → c.errors ≡ 0
  unfolding sync_step
  sync_step-errors path d c h = ground (arith, h)

  pub sync_walk-errors :
      (path : Text) (d : Bool) (c : SyncContext) (errno : ℕ)
      → (sync_walk around source path d c errno).context.errors ≡ 0
      → c.errors ≡ 0
  unfolding sync_walk
  sync_walk-errors path d c errno =
      if_both (λ (w : Walked SyncContext). w.context.errors ≡ 0 → c.errors ≡ 0)
        (before_step path c).shared.app.stopping _ _ (λ e. e)
        (sync_step-errors path d (before_step path c))

  module _ (xs : List Event) (open_tasks total : ℕ) where
    sync_step-IsCounting :
        (seen : List (Text × Bool)) (path : Text) (d : Bool) (c : SyncContext)
        → IsCounting around xs open_tasks total seen c
        → IsCounting around xs open_tasks total
            (seen ++ (path, d) ∷ [])
            (sync_step around source path d c)
    unfolding sync_step
    sync_step-IsCounting seen path d c i = rw i.off (record {
      off = refl;
      files = ap (λ n. if d then n else inc64 n) i.files ∙ sym (count_visited_append 0 seen path d);
      no_errors = i.no_errors;
      delivered = i.delivered;
    })

    queued_step :
        (seen : List (Text × Bool)) (path : Text) (d : Bool) (c : SyncContext)
        → IsAllocator around
        → IsQueueing around xs open_tasks total seen c
        → (sync_step around source path d c).errors ≡ 0
        → open_tasks + length (seen ++ (path, d) ∷ []) < 2 ^ 64
        → IsDelivered around xs open_tasks total
            (seen ++ (path, d) ∷ [])
            (sync_step around source path d c).shared
    unfolding sync_step
    queued_step seen path d c fresh i =
        rw i.on (by_result (queue_path around source path d c.shared.app).0 refl)
      where
        by_result :
            (o : Option Failure)
            → (queue_path around source path d c.shared.app).0 ≡ o
            → (if is_failure o then c.errors + 1 else c.errors) ≡ 0
            → open_tasks + length (seen ++ (path, d) ∷ []) < 2 ^ 64
            → IsDelivered around xs open_tasks total
                (seen ++ (path, d) ∷ [])
                (record c.shared { app = (queue_path around source path d c.shared.app).1 })
        by_result (some failure) e z small = absurd (omega (arith, z))
        by_result none e z small =
            let j = i.delivered z (omega (arith, small, length-append seen ((path, d) ∷ []))) in
            IsBehind-IsDelivered around xs open_tasks total seen path d c.shared
              (queue_path around source path d c.shared.app).1 j
              (queue_path-IsBehind around source path d j.rest c.shared.app fresh j.queue
                (omega (arith, small, j.room, length-append seen ((path, d) ∷ []))) e)

    still_on :
        (path : Text) (d : Bool) (c : SyncContext)
        → c.enqueue ≡ true
        → (sync_step around source path d c).enqueue ≡ true
    unfolding sync_step
    still_on path d c on = rw on refl

    sync_step-IsQueueing :
        (seen : List (Text × Bool)) (path : Text) (d : Bool) (c : SyncContext)
        → IsAllocator around
        → IsQueueing around xs open_tasks total seen c
        → IsQueueing around xs open_tasks total
            (seen ++ (path, d) ∷ [])
            (sync_step around source path d c)
    sync_step-IsQueueing seen path d c fresh i = record {
      on = still_on path d c i.on;
      delivered = queued_step seen path d c fresh i;
    }

    module _ (takes : (p : Point) (s : Shared) → OnlyTakes s (around.others p s)) where
      pub sync_walk-IsCounting :
          (seen : List (Text × Bool)) (path : Text) (d : Bool) (c : SyncContext) (errno : ℕ)
          → IsCounting around xs open_tasks total seen c
          → (sync_walk around source path d c errno).ok ≡ true
          → IsCounting around xs open_tasks total
              (seen ++ (path, d) ∷ [])
              (sync_walk around source path d c errno).context
      sync_walk-IsCounting seen path d c errno i h =
          subst (IsCounting around xs open_tasks total (seen ++ (path, d) ∷ []))
            (sync_walk_steps path d c errno h)
            (sync_step-IsCounting seen path d (before_step path c) (record {
              off = i.off;
              files = i.files;
              no_errors = i.no_errors;
              delivered =
                  OnlyTakes-IsDelivered around xs open_tasks total [] c.shared
                    (before_step path c).shared (takes (at_path c.enqueue path) c.shared)
                    i.delivered;
            }))

      pub sync_walk-IsQueueing :
          IsAllocator around
          → (seen : List (Text × Bool)) (path : Text) (d : Bool) (c : SyncContext) (errno : ℕ)
          → IsQueueing around xs open_tasks total seen c
          → (sync_walk around source path d c errno).ok ≡ true
          → IsQueueing around xs open_tasks total
              (seen ++ (path, d) ∷ [])
              (sync_walk around source path d c errno).context
      sync_walk-IsQueueing fresh seen path d c errno i h =
          subst (IsQueueing around xs open_tasks total (seen ++ (path, d) ∷ []))
            (sync_walk_steps path d c errno h)
            (sync_step-IsQueueing seen path d (before_step path c) fresh (record {
              on = i.on;
              delivered = λ z small.
                  OnlyTakes-IsDelivered around xs open_tasks total seen c.shared
                    (before_step path c).shared (takes (at_path c.enqueue path) c.shared)
                    (i.delivered z small);
            }))
