-- ===== src/App/Synced.antt =====
-- What the initial synchronisation of src/app.c queues and reports.
use mathlib.Core.List.{append-nil}
use sy_se_ba.Prelude.{
  ℕ, ◌+◌, ◌^◌, ◌<◌, ◌≡◌, refl, sym, ap, ◌∙◌, subst, Bool, true, false, List, [], ◌++◌, ◌==◌,
  if◌then◌else◌, length, arith,
}
use sy_se_ba.Prelude.Text.{Text}
use sy_se_ba.Queue.Linked.{IsQueue}
use sy_se_ba.Walk.{Listing, Walked, directory, walk_files}
use sy_se_ba.Walk.Visits.{visits}
use sy_se_ba.Walk.Invariant.{walk_files-keeps}
use sy_se_ba.Walk.Gathers.{walk_files_gathers}
use sy_se_ba.App.{Event}
use sy_se_ba.App.Service.{ok, err_any}
use sy_se_ba.App.Sync.{
  Shared, SyncContext, Synced, Point, after_count, before_queue, waiting, Around, completed,
  sync_walk, begin_sync, count_files, queue_files, end_sync, initial_sync, with_stats,
}
use sy_se_ba.App.Visited.{count_visited, OnlyTakes, IsAllocator, IsDelivered, OnlyTakes-IsDelivered}
use sy_se_ba.App.Passed.{
  IsCounting, IsQueueing, sync_walk-errors, sync_walk-IsCounting, sync_walk-IsQueueing,
}

abbrev finish : Shared → Shared
finish = with_stats (λ stats. record stats { initial_running = false })

end_completed :
    (around : Around) (errors : ℕ) (app : Synced)
    → (end_sync around errors app).initial_state ≡ completed
    → (errors ≡ 0)
      × ((around.others waiting app.shared).app.stopping ≡ false)
      × ((end_sync around errors app).shared ≡ finish (around.others waiting app.shared))
unfolding end_sync
end_completed around errors app h = ground (arith, h)

module _ (around : Around) (source : Text) (below later : Listing) where
  abbrev counted : Shared → SyncContext
  counted = count_files around source (directory below) (directory later)

  abbrev queued : SyncContext → SyncContext
  queued = queue_files around source (directory below) (directory later)

  abbrev first_walk : Shared → Walked SyncContext
  first_walk shared =
      walk_files (sync_walk around source) source (directory below)
        (record { shared = shared; files = 0; enqueue = false; errors = 0 })

  abbrev begin_queue : SyncContext → SyncContext
  begin_queue c = record c {
    shared = around.others before_queue c.shared;
    files = 0;
    enqueue = true;
  }

  abbrev second_walk : SyncContext → Walked SyncContext
  second_walk c = walk_files (sync_walk around source) source (directory later) (begin_queue c)

  first_succeeds :
      (shared : Shared)
      → (counted shared).errors ≡ 0
      → (counted shared).shared.app.stopping ≡ false
      → (first_walk shared).ok ≡ true
  unfolding count_files
  first_succeeds shared z s = ground (arith, z, s)

  goes_on :
      (c : SyncContext)
      → (queued c).shared.app.stopping ≡ false
      → (begin_queue c).shared.app.stopping ≡ false
  unfolding queue_files
  goes_on c s = ground (arith, s)

  second_succeeds :
      (c : SyncContext)
      → (queued c).errors ≡ 0
      → (queued c).shared.app.stopping ≡ false
      → ((second_walk c).ok ≡ true)
        × ((second_walk c).context.errors ≡ 0)
        × ((queued c).shared ≡ (second_walk c).context.shared)
  unfolding queue_files
  second_succeeds c z s = ground (arith, z, s)

  errors_before : (c : SyncContext) → (second_walk c).context.errors ≡ 0 → c.errors ≡ 0
  errors_before c =
      walk_files-keeps (sync_walk around source) (λ (d : SyncContext). d.errors ≡ 0 → c.errors ≡ 0)
        (λ path d s errno h e. h (sync_walk-errors around source path d s errno e)) source
        (directory later) (begin_queue c) (λ e. e)

  module _ (xs : List Event) (open_tasks : ℕ)
      (takes : (p : Point) (s : Shared) → OnlyTakes s (around.others p s)) where
    counted_lem :
        (total : ℕ) (shared : Shared)
        → IsDelivered around xs open_tasks total [] shared
        → (counted shared).errors ≡ 0
        → (counted shared).shared.app.stopping ≡ false
        → IsDelivered around xs open_tasks
            (count_visited 0 (visits source below))
            []
            (counted shared).shared
    unfolding count_files
    counted_lem total shared i z s =
        let w = first_walk shared in
        let g =
          walk_files_gathers (sync_walk around source) (IsCounting around xs open_tasks total)
            (sync_walk-IsCounting around source xs open_tasks total takes) source below
            (record { shared = shared; files = 0; enqueue = false; errors = 0 })
            (record { off = refl; files = refl; no_errors = refl; delivered = i })
            (first_succeeds shared z s) in
        let j =
          OnlyTakes-IsDelivered around xs open_tasks total [] w.context.shared
            (around.others after_count w.context.shared) (takes after_count w.context.shared)
            g.delivered in
        record { rest = j.rest; split = j.split; queue = j.queue; room = j.room; counted = g.files }

    queued_lem :
        (total : ℕ) (c : SyncContext)
        → IsAllocator around
        → open_tasks + length (visits source later) < 2 ^ 64
        → IsDelivered around xs open_tasks total [] c.shared
        → (queued c).errors ≡ 0
        → (queued c).shared.app.stopping ≡ false
        → IsDelivered around xs open_tasks total (visits source later) (queued c).shared
    queued_lem total c fresh small i z s =
        let (fine, none_left, same) = second_succeeds c z s in
        subst (IsDelivered around xs open_tasks total (visits source later)) (sym same) (
          (walk_files_gathers (sync_walk around source) (IsQueueing around xs open_tasks total)
              (sync_walk-IsQueueing around source xs open_tasks total takes fresh) source later
              (begin_queue c)
              (record {
                on = refl;
                delivered = λ e room.
                    OnlyTakes-IsDelivered around xs open_tasks total [] c.shared
                      (begin_queue c).shared (takes before_queue c.shared) i;
              })
              fine).delivered
            none_left small)

    end_lem :
        (total : ℕ) (seen : List (Text × Bool)) (shared : Shared)
        → IsDelivered around xs open_tasks total seen shared
        → IsDelivered around xs open_tasks total seen (finish (around.others waiting shared))
    end_lem total seen shared i =
        let j =
          OnlyTakes-IsDelivered around xs open_tasks total seen shared
            (around.others waiting shared) (takes waiting shared) i in
        record {
          rest = j.rest;
          split = j.split;
          queue = j.queue;
          room = j.room;
          counted = j.counted;
        }

  -- With no synchronisation running, a queue that holds a list, blocks from calloc that are not
  -- in use, a count of open tasks that stays below 2^64 with one more for each path, and other
  -- threads that only take events from the front of the queue, report tasks done, change other
  -- counters and ask the program to stop for good, whatever the walks find, memory, errno and the
  -- clock: if syseba_app_initial_sync ends in the state completed, it returns SYSEBA_OK, and what
  -- other threads took together with what the queue still holds is the list followed by a CREATE
  -- event for each file and directory of the tree of its second walk, each directory before its
  -- entries; the total is the number of files of the first walk, and no synchronisation is
  -- running any more.
  pub initial_sync_lem :
      (app : Synced) (xs : List Event)
      → ((p : Point) (s : Shared) → OnlyTakes s (around.others p s))
      → IsAllocator around
      → IsQueue app.shared.app.event_queue xs
      → app.shared.taken ≡ []
      → app.shared.app.event_queue.unfinished + length (visits source later) < 2 ^ 64
      → app.shared.app.stats.initial_running ≡ false
      → let r = initial_sync around source (directory below) (directory later) app in
        r.1.initial_state ≡ completed
        → (r.0 ≡ ok)
          × (r.1.shared.app.stats.initial_running ≡ false)
          × IsDelivered around xs app.shared.app.event_queue.unfinished
              (count_visited 0 (visits source below))
              (visits source later)
              r.1.shared
  unfolding initial_sync begin_sync
  initial_sync_lem app xs takes fresh i untaken small idle = rw idle (λ done.
      let (z, s, same) =
        end_completed around second.errors (record (begin_sync app) { shared = second.shared })
          done in
      (
        ap (λ n. if n == 0 then ok else err_any) z,
        ap (λ (s : Shared). s.app.stats.initial_running) same,
        subst
            (IsDelivered around xs app.shared.app.event_queue.unfinished
              (count_visited 0 (visits source below)) (visits source later))
            (sym same) (delivered z ((takes waiting second.shared).is_final s)),
      ))
    where
      first : SyncContext
      first = counted (begin_sync app).shared

      second : SyncContext
      second = queued first

      begun :
          IsDelivered around xs app.shared.app.event_queue.unfinished 0 [] (begin_sync app).shared
      begun = record {
        rest = xs;
        split = ap (λ l. l ++ xs) untaken ∙ sym (append-nil xs);
        queue = i;
        room = omega arith;
        counted = refl;
      }

      delivered :
          second.errors ≡ 0
          → second.shared.app.stopping ≡ false
          → IsDelivered around xs app.shared.app.event_queue.unfinished
              (count_visited 0 (visits source below))
              (visits source later)
              (finish (around.others waiting second.shared))
      delivered z s =
          end_lem xs app.shared.app.event_queue.unfinished takes
            (count_visited 0 (visits source below)) (visits source later) second.shared
            (queued_lem xs app.shared.app.event_queue.unfinished takes
              (count_visited 0 (visits source below)) first fresh small
              (counted_lem xs app.shared.app.event_queue.unfinished takes 0 (begin_sync app).shared
                begun (errors_before first (second_succeeds first z s).1)
                ((takes before_queue first.shared).is_final (goes_on first s)))
              z s)
