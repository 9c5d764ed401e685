-- ===== src/App/Worker.antt =====
-- The loop of the workers in src/app.c, `syseba_worker_main`, and the errors that it counts by
-- `syseba_log_emit` of src/log.c.
use sy_se_ba.Prelude.{
  Bool, true, false, Option, none, some, List, [], ◌∷◌, ◌++◌, inc64, if◌then◌else◌,
}
use sy_se_ba.Prelude.Text.{Text}
use sy_se_ba.Config.{Failure, err, invalid, not_found, permission}
use sy_se_ba.Snapshot.{EventKind}
use sy_se_ba.App.{Event, Stats, Disk, Directories, Action, Processed, process_event}
use sy_se_ba.App.Counts.{is_delete}

-- An event that is popped, with the disk and the time while it is processed.
pub record Job : Type 0 where
  pub disk : Disk
  pub stamp : Text
  pub event : Event

-- `result != SYSEBA_OK && !(result == SYSEBA_ERR_NOT_FOUND && kind != SYSEBA_EVENT_DELETE)`
unfoldable pub is_reported : EventKind → Option Failure → Bool
is_reported kind none = false
is_reported kind (some not_found) = is_delete kind
is_reported kind (some err) = true
is_reported kind (some invalid) = true
is_reported kind (some permission) = true

-- What the loop has done.
pub record Worked : Type 0 where
  pub actions : List Action
  pub stats : Stats

module _ (dirs : Directories) where
  -- One event.
  unfoldable pub work : Job → Stats → Processed
  unfolding is_reported
  work j stats =
      let r = process_event j.disk dirs j.stamp j.event stats in
      record r {
        stats =
            if is_reported j.event.kind r.result
            then record r.stats { errors = inc64 r.stats.errors }
            else r.stats;
      }

  -- What `syseba_queue_pop` returns in turn, until it is NULL with the queue closed; none is NULL
  -- with the queue open.
  unfoldable pub worker_loop : List (Option Job) → Stats → Worked
  unfolding work
  worker_loop [] stats = record { actions = []; stats = stats }
  worker_loop (none ∷ pops) stats = worker_loop pops stats
  worker_loop (some j ∷ pops) stats =
      let r = work j stats in
      let w = worker_loop pops r.stats in
      record { actions = r.actions ++ w.actions; stats = w.stats }
