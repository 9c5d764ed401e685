-- ===== src/App/Start.antt =====
-- A start of `syseba_app_start` in src/app.c that succeeds, and one that fails.
use sy_se_ba.Prelude.{
  ℕ, ◌+◌, ◌≡◌, refl, sym, ap, subst, ◌∙◌, Bool, true, false, ◌&&◌, not, Option, none, some, ltb,
  if◌then◌else◌, if_both, if_either, arith,
}
use sy_se_ba.App.Service.{
  Thread, log_writer, worker, watcher, initial_sync, same_thread, Code, ok, err_any, err_busy,
  err_permission, Mode, Service, fresh, Answers, set_alive, release_lock, acquire_lock, is_ok, stop,
  log_start, watcher_start, create_workers, start_workers, start_initial, or_stop, start_web,
  start_threads, start_logging, start,
}
use sy_se_ba.App.Settled.{Owns, IsDown, stop-IsDown, by_thread}
use sy_se_ba.App.Stage.{IsUp, IsSettled, Stage, CreatedTo, create_workers_lem}
use sy_se_ba.App.Steps.{start_web_lem, Goes, watcher-Goes}

module _ (a : Answers) (mode : Mode) where
  abbrev after_workers : Service → Code × Service
  after_workers app =
      or_stop a (watcher_start a app)
        (λ app. or_stop a (start_initial a mode.no_initial_sync app) (start_web a mode.web_enabled))

  -- After the loop: every worker runs, or those before the one that could not be started.
  created-Goes :
      (app : Service)
      → mode.web_only ≡ false
      → Stage mode false false false false app
      → (o : Option ℕ × (Thread → Bool)) → CreatedTo mode.threads app.alive o
      → Goes a mode after_workers (
        elim o.0 [ none ↦ true | some index ↦ false ],
        record app {
          workers = true;
          worker_count = elim o.0 [ none ↦ mode.threads | some index ↦ index ];
          alive = o.1;
        },
      )
  unfolding Goes or_stop IsSettled Owns CreatedTo
  created-Goes app daemon (owns, lock, w, run, log, ws, v, i) (none, alive) (wk, l, vk, ik) =
      watcher-Goes a mode _ daemon (
        by_thread _ (l ∙ owns log_writer) wk (vk ∙ owns watcher) (ik ∙ owns initial_sync),
        lock,
        w,
        run,
        log,
        (λ n. refl),
        v,
        i,
      )
  created-Goes app daemon (owns, lock, w, run, log, ws, v, i) (some index, alive) (wk, l, vk, ik) =
      stop-IsDown (record app { workers = true; worker_count = index; alive = alive })
        (by_thread _ (l ∙ owns log_writer) wk (vk ∙ owns watcher) (ik ∙ owns initial_sync))

  workers-Goes :
      (app : Service)
      → mode.web_only ≡ false
      → Stage mode false false false false app
      → app.workers ≡ false
      → Goes a mode after_workers (start_workers a mode.threads app)
  unfolding Goes start_workers or_stop IsSettled Owns
  workers-Goes app daemon (owns, lock, w, run, log, ws, v, i) none_yet =
      if_both (Goes a mode after_workers) (not a.workers_memory) _ _
        (stop-IsDown (record app { worker_count = mode.threads })
          (by_thread _ (owns log_writer) no_worker (owns watcher) (owns initial_sync)))
        (created-Goes app daemon (owns, lock, w, run, log, ws, v, i)
          (create_workers a 0 mode.threads app.alive)
          (subst (λ n. CreatedTo n app.alive (create_workers a 0 mode.threads app.alive)) from_none
            (create_workers_lem a app.alive mode.threads 0 app.alive
              ((λ n. ground (arith, owns (worker n), none_yet)), refl, refl, refl))))
    where
      no_worker : (n : ℕ) → app.alive (worker n) ≡ app.workers && ltb n mode.threads
      no_worker n = ground (arith, owns (worker n), none_yet)

      from_none : 0 + mode.threads ≡ mode.threads
      from_none = omega arith

  threads-IsSettled :
      (app : Service)
      → Stage mode false false false false (record app { running = not mode.web_only })
      → app.workers ≡ false
      → IsSettled mode (start_threads a mode app)
  unfolding start_threads Goes
  threads-IsSettled app (owns, lock, w, run, log, ws, v, i) none_yet =
      if_either (IsSettled mode) mode.web_only _ _
        (λ e.
          start_web_lem a mode (record app { running = not mode.web_only })
            (
              owns,
              lock,
              w,
              run,
              log,
              (λ n. ws n ∙ ground (arith, e)),
              v ∙ ground (arith, e),
              i ∙ ground (arith, e),
            ))
        (λ e.
          workers-Goes (record app { running = not mode.web_only }) e
            (owns, lock, w, run, log, ws, v, i) none_yet)

  -- The outcome of `syseba_log_start`, and what follows.
  Logged : Bool → Bool × Service → Type 0
  Logged locked (logs, logging) = IsSettled mode (
      if not a.database
      then (err_any, release_lock (record fresh { lock_file = locked }))
      else if not logs
      then (err_any, release_lock logging)
      else start_threads a mode logging)

  nothing : IsDown fresh
  unfolding IsDown fresh
  nothing = (
    by_thread _ refl (λ n. refl) refl refl,
    refl,
    refl,
    refl,
    by_thread _ refl (λ n. refl) refl refl,
  )

  not-Logged : (locked : Bool) → Logged locked (false, record fresh { lock_file = locked })
  unfolding Logged IsSettled release_lock fresh
  not-Logged locked = if_both (IsSettled mode) (not a.database) _ _ nothing nothing

  -- The lock is held unless there is only the web server.
  logging-IsSettled :
      (locked : Bool)
      → locked ≡ not mode.web_only
      → IsSettled mode (start_logging a mode (record fresh { lock_file = locked }))
  unfolding start_logging log_start IsSettled release_lock fresh set_alive same_thread Logged
  logging-IsSettled locked held =
      if_both (Logged locked) (not a.log_directory) _ _ (not-Logged locked) (
        if_both (Logged locked) (not (a.create log_writer)) _ _ (not-Logged locked) (
          if_both (IsSettled mode) (not a.database) _ _ nothing (
            threads-IsSettled
              (record fresh {
                lock_file = locked;
                alive = set_alive log_writer true fresh.alive;
                log_thread_started = true;
              })
              (
                by_thread _ refl (λ n. refl) refl refl,
                held,
                refl,
                refl,
                refl,
                λ n. refl,
                refl,
                refl,
              )
              refl)))

  -- The outcome of `syseba_app_acquire_lock`, and what follows.
  Locked : Code × Service → Type 0
  Locked (code, locked) =
      IsSettled mode (if is_ok code then start_logging a mode locked else (err_busy, locked))

  acquire_lock-Locked : mode.web_only ≡ false → Locked (acquire_lock a.lock fresh)
  unfolding acquire_lock Locked IsSettled fresh
  acquire_lock-Locked e = if_both Locked (not a.lock.opened) _ _ nothing (
      if_both Locked (not a.lock.is_regular) _ _ nothing (
        if_both Locked (not a.lock.locked) _ _ nothing (
          if_both Locked (not a.lock.emptied) _ _ nothing (
            if_both Locked (not a.lock.stream) _ _ nothing (
              if_both Locked (not a.lock.written) _ _ nothing
                (logging-IsSettled true (ap not (sym e))))))))

  start-IsSettled' : IsSettled mode (start a mode fresh)
  unfolding start IsSettled fresh Locked
  start-IsSettled' = if_both (IsSettled mode) (not a.runtime_paths) _ _ nothing (
      if_either (IsSettled mode) mode.web_only _ _ (λ e. logging-IsSettled false (ap not (sym e)))
        (λ e. acquire_lock-Locked e))

Owns-of_settled : (mode : Mode) (r : Code × Service) → IsSettled mode r → Owns r.1
unfolding IsSettled IsUp IsDown Owns
Owns-of_settled mode (ok, app) (_, _, _, _, owns) = owns
Owns-of_settled mode (err_any, app) (_, _, _, _, owns) = owns
Owns-of_settled mode (err_busy, app) (_, _, _, _, owns) = owns
Owns-of_settled mode (err_permission, app) (_, _, _, _, owns) = owns

-- Whichever of its calls fail, syseba_app_start on a new syseba_app_t either returns SYSEBA_OK
-- and exactly the threads of the mode run, the lock is held unless only the web server is wanted,
-- and the web server runs if it is enabled; or it fails and no thread, lock or web server is
-- left. In both cases syseba_app_stop then leaves no thread, lock or web server.
pub start-IsSettled :
    (a : Answers) (mode : Mode)
    → IsSettled mode (start a mode fresh) × IsDown (stop (start a mode fresh).1)
start-IsSettled a mode = (
  start-IsSettled' a mode,
  stop-IsDown _ (Owns-of_settled mode (start a mode fresh) (start-IsSettled' a mode)),
)
