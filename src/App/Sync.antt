-- ===== src/App/Sync.antt =====
-- The initial synchronisation in src/app.c, `syseba_app_initial_sync` with its callback. Other
-- threads run meanwhile: the workers take events from the queue, and anybody may ask the program
-- to stop. Log lines and times are left out.
use sy_se_ba.Prelude.{
  ℕ, ◌+◌, Bool, true, false, ◌&&◌, not, Option, none, some, List, ltb, ◌==◌, if◌then◌else◌, inc64,
}
use sy_se_ba.Prelude.Text.{Text}
use sy_se_ba.Confine.{FileView}
use sy_se_ba.Config.{Failure}
use sy_se_ba.Snapshot.{create}
use sy_se_ba.Walk.{Node, Callback, walk_files}
use sy_se_ba.App.{Event, Stats}
use sy_se_ba.App.Enqueue.{State, enqueue_initial}
use sy_se_ba.App.Service.{Code, ok, err_any, err_busy}

-- The program, with the events that other threads have taken from its queue so far, oldest first.
pub record Shared : Type 0 where
  pub app : State
  pub taken : List Event

-- `syseba_sync_context_t`. The number of errors is an int there, whose overflow is undefined.
pub record SyncContext : Type 0 where
  pub shared : Shared
  pub files : ℕ
  pub enqueue : Bool
  pub errors : ℕ

-- The texts of `initial_state`.
pub data InitialState : Type 0 where
  not_available skipped pending running stopped completed_with_errors completed : InitialState

-- The fields that the function reads and writes. The error text holds a number of errors, or is
-- empty.
pub record Synced : Type 0 where
  pub shared : Shared
  pub initial_state : InitialState
  pub initial_error : Option ℕ

-- Where other threads may have run: before the callback at a path of the two walks, before the end
-- of the first and the beginning of the second, and during the wait for the empty queue.
pub data Point : Type 0 where
  counting queueing : Text → Point
  after_count before_queue waiting : Point

-- What other threads make of the program, whether there is memory for the event of a path and
-- which block is for its node, the clock, and what the callback leaves in `errno` (`realpath` may
-- set it though it succeeds).
pub record Around : Type 0 where
  pub view : FileView
  pub others : Point → Shared → Shared
  pub event_memory : Text → Bool
  pub node_memory : Text → State → Option ℕ
  pub clock : Text → ℕ
  pub leaves : Text → Bool → ℕ → ℕ

-- Where the callback is.
abbrev pub at_path : Bool → Text → Point
at_path true path = queueing path
at_path false path = counting path

-- `!= SYSEBA_OK`
abbrev pub is_failure : Option Failure → Bool
is_failure none = false
is_failure (some _) = true

abbrev pub with_stats : (Stats → Stats) → Shared → Shared
with_stats change shared = record shared {
  app = record shared.app { stats = change shared.app.stats };
}

-- The fields at the beginning.
unfoldable pub begin_sync : Synced → Synced
begin_sync app = record app {
  shared =
      with_stats
        (λ stats. record stats {
          initial_running = true;
          initial_total = 0;
          initial_done = 0;
          initial_copied = 0;
          initial_skipped = 0;
        })
        app.shared;
  initial_state = running;
  initial_error = none;
}

module _ (around : Around) where
  -- From the wait for the empty queue on.
  unfoldable pub end_sync : ℕ → Synced → Synced
  end_sync errors app =
      let done = record app {
        shared =
            with_stats (λ stats. record stats { initial_running = false })
              (around.others waiting app.shared);
      } in
      if done.shared.app.stopping
      then record done { initial_state = stopped }
      else if ltb 0 errors
      then record done { initial_state = completed_with_errors; initial_error = some errors }
      else record done { initial_state = completed }

module _ (around : Around) (source : Text) where
  -- `syseba_app_enqueue_initial` for the path.
  unfoldable pub queue_path : Text → Bool → State → Option Failure × State
  queue_path path is_directory app =
      enqueue_initial around.view source create path is_directory
        (record {
          event_memory = around.event_memory path;
          node_memory = around.node_memory path app;
          now = around.clock path;
        })
        app

  -- The program is not stopping.
  unfoldable pub sync_step : Text → Bool → SyncContext → SyncContext
  unfolding queue_path
  sync_step path is_directory c =
      let counted = if is_directory then c.files else inc64 c.files in
      let (result, app) = queue_path path is_directory c.shared.app in
      if c.enqueue
      then record c {
        shared = record c.shared { app = app };
        files = counted;
        errors = if is_failure result then c.errors + 1 else c.errors;
      }
      else record c { files = counted }

  unfoldable pub sync_walk : Callback SyncContext
  unfolding sync_step
  sync_walk path is_directory c errno =
      let now = record c { shared = around.others (at_path c.enqueue path) c.shared } in
      if now.shared.app.stopping
      then record { ok = false; context = now; errno = errno }
      else record {
        ok = true;
        context = sync_step path is_directory now;
        errno = around.leaves path c.enqueue errno;
      }

  -- `first` and `second` are the tree under the source at the two walks.
  module _ (first second : Node) where
    -- The first walk, and `initial_total`.
    unfoldable pub count_files : Shared → SyncContext
    unfolding sync_walk
    count_files shared =
        let w =
          walk_files sync_walk source first
            (record { shared = shared; files = 0; enqueue = false; errors = 0 }) in
        let after = around.others after_count w.context.shared in
        record w.context {
          shared = with_stats (λ stats. record stats { initial_total = w.context.files }) after;
          errors =
              if not w.ok && not after.app.stopping then w.context.errors + 1 else w.context.errors;
        }

    unfoldable pub queue_files : SyncContext → SyncContext
    unfolding sync_walk
    queue_files counted =
        let c = record counted {
          shared = around.others before_queue counted.shared;
          files = 0;
          enqueue = true;
        } in
        let w = walk_files sync_walk source second c in
        if c.shared.app.stopping
        then c
        else record w.context { errors = if w.ok then w.context.errors else w.context.errors + 1 }

    unfoldable pub initial_sync : Synced → Code × Synced
    unfolding begin_sync count_files queue_files end_sync
    initial_sync app =
        let begun = begin_sync app in
        let queued = queue_files (count_files begun.shared) in
        if app.shared.app.stats.initial_running then (err_busy, app) else (
          if queued.errors == 0 then ok else err_any,
          end_sync around queued.errors (record begun { shared = queued.shared }),
        )
