-- ===== src/App/Counts.antt =====
-- The counters after the processing of an event.
use sy_se_ba.Prelude.{
  if_both, ℕ, ◌+◌, ◌^◌, suc, ◌<◌, ◌≡◌, Bool, true, false, ◌&&◌, not, Option, none, some, [],
  inc64_lt, if◌then◌else◌, arith,
}
use sy_se_ba.Prelude.Text.{Text}
use sy_se_ba.Config.{Failure, err, invalid, not_found}
use sy_se_ba.Snapshot.{EventKind, create, modify, delete}
use sy_se_ba.App.{
  Event, Stats, copy_file, Answer, succeeded, vanished, refused, Disk, Directories, Handled,
  Processed, files_need_copy, skip, count_copy, is_success, copy_result, initial_progress,
  event_paths, handle_copy, handle_change, handle_delete, handle_event, complete, process_event,
}

abbrev pub total : Stats → ℕ
total stats = stats.copied + stats.updated + stats.deleted + stats.skipped

abbrev pub one_if_none : Option Failure → ℕ
one_if_none none = 1
one_if_none (some _) = 0

abbrev pub is_delete : EventKind → Bool
is_delete delete = true
is_delete _ = false

-- No counter is about to wrap.
pub record IsSmall (stats : Stats) : Type 0 where
  pub copied : suc stats.copied < 2 ^ 64
  pub updated : suc stats.updated < 2 ^ 64
  pub skipped : suc stats.skipped < 2 ^ 64

module _ (before : Stats) where
  -- One of the four counters went up by one exactly if the result is `SYSEBA_OK`.
  Tallied : Option Failure → Stats → Type 0
  Tallied result after = total after ≡ total before + one_if_none result

  HandledTallied : Handled → Type 0
  HandledTallied handled = Tallied handled.result handled.stats

  skip-Tallied : IsSmall before → HandledTallied (skip before)
  unfolding HandledTallied Tallied skip
  skip-Tallied h = omega (arith, inc64_lt before.skipped (omega (arith, h.skipped)))

  count_copy-Tallied : (kind : EventKind) → IsSmall before → Tallied none (count_copy kind before)
  unfolding Tallied count_copy
  count_copy-Tallied create h = omega (arith, inc64_lt before.copied (omega (arith, h.copied)))
  count_copy-Tallied modify h = omega (arith, inc64_lt before.updated (omega (arith, h.updated)))
  count_copy-Tallied delete h = omega (arith, inc64_lt before.updated (omega (arith, h.updated)))

  unchanged-Tallied : (failure : Failure) → Tallied (some failure) before
  unfolding Tallied
  unchanged-Tallied failure = omega arith

  copy_answer-Tallied :
      (kind : EventKind) (answer : Answer)
      → IsSmall before
      → Tallied (copy_result answer) (if is_success answer then count_copy kind before else before)
  copy_answer-Tallied kind succeeded h = count_copy-Tallied kind h
  copy_answer-Tallied kind vanished h = unchanged-Tallied not_found
  copy_answer-Tallied kind refused h = unchanged-Tallied err

module _ (d : Disk) (dirs : Directories) (stamp : Text) (e : Event) (before : Stats) where
  handle_change-Tallied :
      (backup : Text)
      → e.is_directory ≡ false
      → IsSmall before
      → HandledTallied before (handle_change d e before backup)
  unfolding handle_change handle_copy HandledTallied
  handle_change-Tallied backup file h = rw file (
      if_both (HandledTallied before) (not (d.is_regular e.path)) _ _ (skip-Tallied before h) (
        if_both (HandledTallied before) (not (files_need_copy d e.path backup)) _ _
          (skip-Tallied before h)
          (copy_answer-Tallied before e.kind (d.answer (copy_file e.path backup)) h)))

  handle_event-Tallied :
      (kind : EventKind) (backup restore : Text)
      → e.is_directory ≡ false
      → is_delete kind ≡ false
      → IsSmall before
      → HandledTallied before (elim kind [
        | create ↦ handle_change d e before backup
        | modify ↦ handle_change d e before backup
        | delete ↦ handle_delete d stamp before backup restore
      ])
  handle_event-Tallied create backup restore file change h = handle_change-Tallied backup file h
  handle_event-Tallied modify backup restore file change h = handle_change-Tallied backup file h
  handle_event-Tallied delete backup restore file change h = cc

  ProcessedTallied : Processed → Type 0
  ProcessedTallied processed = Tallied before processed.result processed.stats

  complete-Tallied :
      (handled : Handled) → HandledTallied before handled → ProcessedTallied (complete e handled)
  unfolding complete HandledTallied ProcessedTallied Tallied initial_progress
  complete-Tallied handled h = by_kind (e.initial_sync && not e.is_directory)
    where
      by_kind :
          (b : Bool)
          → Tallied before handled.result (
              if b
              then initial_progress handled.copied handled.skipped handled.stats
              else handled.stats)
      by_kind true = h
      by_kind false = h

  -- For the creation or modification of a file, with no counter about to wrap, the sum of the
  -- counters copied, updated, deleted and skipped goes up by one if syseba_app_process_event
  -- returns SYSEBA_OK, and stays as it is if it returns an error.
  pub process_event-counts :
      e.is_directory ≡ false
      → is_delete e.kind ≡ false
      → IsSmall before
      → total (process_event d dirs stamp e before).stats
        ≡ total before + one_if_none (process_event d dirs stamp e before).result
  unfolding process_event handle_event ProcessedTallied Tallied
  process_event-counts file change h = by_paths (event_paths d dirs e.path)
    where
      by_paths :
          (o : Option (Text × Text))
          → ProcessedTallied (elim o [
            | none ↦ record { result = some invalid; stats = before; actions = [] }
            | some (backup, restore) ↦ complete e (handle_event d stamp e before backup restore)
          ])
      by_paths none = unchanged-Tallied before invalid
      by_paths (some (backup, restore)) =
          complete-Tallied _ (handle_event-Tallied e.kind backup restore file change h)
