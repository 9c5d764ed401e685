-- ===== src/App/Service.antt =====
-- The start and the stop of the program in src/app.c, with the threads of src/log.c, of
-- src/watcher.c and of src/web.c that they start and join. What the system calls answer is given;
-- the error messages and the times are left out.
use sy_se_ba.Prelude.{
  ℕ, zero, suc, Bool, true, false, ◌&&◌, not, Option, none, some, ◌==◌, if◌then◌else◌,
}
use sy_se_ba.Config.{Failure, err, invalid}

pub data Thread : Type 0 where
  log_writer : Thread
  worker : ℕ → Thread
  watcher : Thread
  initial_sync : Thread

unfoldable pub same_thread : Thread → Thread → Bool
same_thread log_writer log_writer = true
same_thread (worker i) (worker j) = i == j
same_thread watcher watcher = true
same_thread initial_sync initial_sync = true
same_thread _ _ = false

-- `SYSEBA_OK`, `SYSEBA_ERR`, `SYSEBA_ERR_BUSY` and `SYSEBA_ERR_PERMISSION`.

pub data Code : Type 0 where
  ok err_any err_busy err_permission : Code

-- The options that the start reads, in `syseba_app_t`.
pub record Mode : Type 0 where
  pub web_only : Bool
  pub web_enabled : Bool
  pub no_initial_sync : Bool
  pub threads : ℕ

-- The fields of `syseba_app_t` that the start and the stop write, and which threads are not yet
-- joined. The array `workers` is there or NULL.
pub record Service : Type 0 where
  pub alive : Thread → Bool
  pub lock_file : Bool
  pub log_thread_started : Bool
  pub watcher_thread_started : Bool
  pub initial_thread_started : Bool
  pub workers : Bool
  pub worker_count : ℕ
  pub web_context : Bool
  pub running : Bool
  pub stop_requested : Bool
  pub event_queue_closed : Bool
  pub log_queue_closed : Bool

-- What `memset` leaves in `syseba_app_init`.
unfoldable pub fresh : Service
fresh = record {
  alive = λ t. false;
  lock_file = false;
  log_thread_started = false;
  watcher_thread_started = false;
  initial_thread_started = false;
  workers = false;
  worker_count = 0;
  web_context = false;
  running = false;
  stop_requested = false;
  event_queue_closed = false;
  log_queue_closed = false;
}

-- Which of the calls for the lock succeed: `open`, `fstat` on a regular file, `flock`, `ftruncate`
-- with `lseek`, `fdopen`, and `fprintf` with `fflush` and `fsync`.
pub record LockCalls : Type 0 where
  pub opened : Bool
  pub is_regular : Bool
  pub locked : Bool
  pub emptied : Bool
  pub stream : Bool
  pub written : Bool

-- Which of the calls succeed.
pub record Answers : Type 0 where
  pub runtime_paths : Bool
  pub lock : LockCalls
  pub database : Bool
  pub log_directory : Bool
  pub workers_memory : Bool
  pub create : Thread → Bool
  pub address_fits : Bool
  pub listen : Bool

-- `syseba_thread_create` that succeeds, and `syseba_thread_join`.
unfoldable pub set_alive : Thread → Bool → (Thread → Bool) → Thread → Bool
unfolding same_thread
set_alive t b alive u = if same_thread t u then b else alive u

unfoldable pub acquire_lock : LockCalls → Service → Code × Service
acquire_lock c app =
    if not c.opened
    then (err_permission, app)
    else if not c.is_regular
    then (err_permission, app)
    else if not c.locked
    then (err_busy, app)
    else if not c.emptied
    then (err_any, app)
    else if not c.stream
    then (err_any, app)
    else if not c.written
    then (err_any, app)
    else (ok, record app { lock_file = true })

abbrev pub is_ok : Code → Bool
is_ok ok = true
is_ok _ = false

unfoldable pub release_lock : Service → Service
release_lock app = record app { lock_file = false }

unfoldable pub log_stop : Service → Service
unfolding set_alive
log_stop app =
    if app.log_thread_started
    then record app {
      alive = set_alive log_writer false app.alive;
      log_queue_closed = true;
      log_thread_started = false;
    }
    else app

unfoldable pub web_stop : Service → Service
web_stop app = if app.web_context then record app { web_context = false } else app

unfoldable pub watcher_stop : Service → Service
unfolding set_alive
watcher_stop app =
    if app.watcher_thread_started
    then record app {
      alive = set_alive watcher false app.alive;
      stop_requested = true;
      watcher_thread_started = false;
    }
    else app

-- The workers from the first one on are joined, `count` of them.
unfoldable pub join_workers : ℕ → (Thread → Bool) → Thread → Bool
unfolding set_alive
join_workers zero alive = alive
join_workers (suc count) alive = set_alive (worker count) false (join_workers count alive)

unfoldable pub stop_initial : Service → Service
unfolding set_alive
stop_initial app =
    if app.initial_thread_started
    then record app {
      alive = set_alive initial_sync false app.alive;
      initial_thread_started = false;
    }
    else app

unfoldable pub stop_workers : Service → Service
unfolding join_workers
stop_workers app =
    if app.workers
    then record app {
      event_queue_closed = true;
      alive = join_workers app.worker_count app.alive;
      workers = false;
      worker_count = 0;
    }
    else app

-- `syseba_app_stop`
unfoldable pub stop : Service → Service
unfolding web_stop watcher_stop stop_initial stop_workers log_stop release_lock
stop app =
    let joined =
      stop_workers
        (stop_initial (watcher_stop (web_stop (record app { stop_requested = true })))) in
    release_lock (record (log_stop joined) { running = false })

module _ (a : Answers) where
  unfoldable pub log_start : Service → Bool × Service
  unfolding set_alive
  log_start app =
      if not a.log_directory
      then (false, app)
      else if not (a.create log_writer)
      then (false, app)
      else (
        true,
        record app { alive = set_alive log_writer true app.alive; log_thread_started = true },
      )

  unfoldable pub watcher_start : Service → Bool × Service
  unfolding set_alive
  watcher_start app = if not (a.create watcher) then (false, app) else (
    true,
    record app { alive = set_alive watcher true app.alive; watcher_thread_started = true },
  )

  unfoldable pub web_start : Service → Option Failure × Service
  web_start app =
      if not a.address_fits
      then (some invalid, app)
      else if not a.listen
      then (some err, app)
      else (none, record app { web_context = true })

  -- The loop over the indices from `index` on, `left` of them: the index of a worker that cannot be
  -- started ends it.
  unfoldable pub create_workers : ℕ → ℕ → (Thread → Bool) → Option ℕ × (Thread → Bool)
  unfolding set_alive
  create_workers index zero alive = (none, alive)
  create_workers index (suc left) alive =
      let rest = create_workers (suc index) left (set_alive (worker index) true alive) in
      if not (a.create (worker index)) then (some index, alive) else rest

  -- The array of the workers, and the threads.
  unfoldable pub start_workers : ℕ → Service → Bool × Service
  unfolding create_workers
  start_workers threads app =
      let (failure, alive) = create_workers 0 threads app.alive in
      if not a.workers_memory then (false, record app { worker_count = threads }) else (
        elim failure [ none ↦ true | some index ↦ false ],
        record app {
          workers = true;
          worker_count = elim failure [ none ↦ threads | some index ↦ index ];
          alive = alive;
        },
      )

  unfoldable pub start_initial : Bool → Service → Bool × Service
  unfolding set_alive
  start_initial no_initial_sync app =
      if not no_initial_sync && a.create initial_sync
      then (
        true,
        record app { alive = set_alive initial_sync true app.alive; initial_thread_started = true },
      )
      else if not no_initial_sync
      then (false, app)
      else (true, app)

  -- A step of the start that stops everything if it fails.
  unfoldable pub or_stop : Bool × Service → (Service → Code × Service) → Code × Service
  unfolding stop
  or_stop (true, app) next = next app
  or_stop (false, app) next = (err_any, stop app)

  unfoldable pub start_web : Bool → Service → Code × Service
  unfolding or_stop web_start
  start_web web_enabled app =
      if web_enabled
      then or_stop
          (let (failure, after) = web_start app in
            (elim failure [ none ↦ true | some f ↦ false ], after))
          (λ app. (ok, app))
      else (ok, app)

  -- From `started_ns` on.
  unfoldable pub start_threads : Mode → Service → Code × Service
  unfolding or_stop start_workers watcher_start start_initial start_web
  start_threads mode logging =
      let app = record logging { running = not mode.web_only } in
      if mode.web_only
      then start_web mode.web_enabled app
      else or_stop (start_workers mode.threads app) (λ app.
        or_stop (watcher_start app)
          (λ app. or_stop (start_initial mode.no_initial_sync app) (start_web mode.web_enabled)))

  -- From `syseba_database_initialize` on.
  unfoldable pub start_logging : Mode → Service → Code × Service
  unfolding log_start start_threads release_lock
  start_logging mode app =
      let (logs, logging) = log_start app in
      if not a.database
      then (err_any, release_lock app)
      else if not logs
      then (err_any, release_lock logging)
      else start_threads mode logging

  -- `syseba_app_start`
  unfoldable pub start : Mode → Service → Code × Service
  unfolding start_logging acquire_lock
  start mode app =
      if not a.runtime_paths
      then (err_any, app)
      else if mode.web_only
      then start_logging mode app
      else let (code, locked) = acquire_lock a.lock app in
        if is_ok code then start_logging mode locked else (err_busy, locked)
