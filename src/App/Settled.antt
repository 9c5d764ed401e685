-- ===== src/App/Settled.antt =====
-- What `syseba_app_start` and `syseba_app_stop` of src/app.c leave running.
use sy_se_ba.Prelude.{
  ℕ, zero, suc, ◌≡◌, refl, ap, ◌∙◌, Bool, true, false, ◌&&◌, ltb, if◌then◌else◌, if_either, arith,
}
use sy_se_ba.App.Service.{
  Thread, log_writer, worker, watcher, initial_sync, same_thread, Service, set_alive, release_lock,
  log_stop, web_stop, watcher_stop, join_workers, stop_initial, stop_workers, stop,
}

-- The fields say which threads are to be joined.
abbrev pub owned : Service → Thread → Bool
owned app log_writer = app.log_thread_started
owned app watcher = app.watcher_thread_started
owned app initial_sync = app.initial_thread_started
owned app (worker i) = app.workers && ltb i app.worker_count

unfoldable pub Owns : Service → Type 0
Owns app = (t : Thread) → app.alive t ≡ owned app t

-- Nothing is left, no thread, no lock and no web server, and the fields say so.
unfoldable pub IsDown : Service → Type 0
IsDown app =
    ((t : Thread) → app.alive t ≡ false)
    × (app.lock_file ≡ false)
    × (app.web_context ≡ false)
    × (app.running ≡ false)
    × ((t : Thread) → app.alive t ≡ owned app t)

-- A worker is joined if it is one of the first ones.
joined_worker :
    (count : ℕ) (alive : Thread → Bool) (i : ℕ)
    → join_workers count alive (worker i) ≡ (if ltb i count then false else alive (worker i))
unfolding join_workers set_alive same_thread
joined_worker zero alive i = ground arith
joined_worker (suc count) alive i = ground (arith, joined_worker count alive i)

joined_other :
    (count : ℕ) (alive : Thread → Bool) (t : Thread)
    → ((i : ℕ) → same_thread (worker i) t ≡ false)
    → join_workers count alive t ≡ alive t
unfolding join_workers set_alive
joined_other zero alive t h = refl
joined_other (suc count) alive t h = rw (h count) (joined_other count alive t h)

pub by_thread :
    (P : Thread → Type 0)
    → P log_writer
    → ((i : ℕ) → P (worker i))
    → P watcher
    → P initial_sync
    → (t : Thread) → P t
by_thread P l w v i log_writer = l
by_thread P l w v i (worker n) = w n
by_thread P l w v i watcher = v
by_thread P l w v i initial_sync = i

off_and : (a b : Bool) → a ≡ false → a && b ≡ false
off_and a b h = ap (λ c. c && b) h

-- After each step of the stop there is less to stop.
abbrev WebOff : Service → Type 0
WebOff app = ((t : Thread) → app.alive t ≡ owned app t) × (app.web_context ≡ false)

abbrev WatcherOff : Service → Type 0
WatcherOff app = WebOff app × (app.watcher_thread_started ≡ false)

abbrev InitialOff : Service → Type 0
InitialOff app = WatcherOff app × (app.initial_thread_started ≡ false)

abbrev WorkersOff : Service → Type 0
WorkersOff app = InitialOff app × (app.workers ≡ false)

abbrev LogOff : Service → Type 0
LogOff app = WorkersOff app × (app.log_thread_started ≡ false)

web_off : (app : Service) → ((t : Thread) → app.alive t ≡ owned app t) → WebOff (web_stop app)
unfolding web_stop
web_off app owns =
    if_either WebOff app.web_context _ app
      (λ e. (
        by_thread _ (owns log_writer) (λ i. owns (worker i)) (owns watcher) (owns initial_sync),
        refl,
      ))
      (λ e. (owns, e))

watcher_off : (app : Service) → WebOff app → WatcherOff (watcher_stop app)
unfolding watcher_stop set_alive same_thread
watcher_off app (owns, web) =
    if_either WatcherOff app.watcher_thread_started _ app
      (λ e. (
        (by_thread _ (owns log_writer) (λ i. owns (worker i)) refl (owns initial_sync), web),
        refl,
      ))
      (λ e. ((owns, web), e))

initial_off : (app : Service) → WatcherOff app → InitialOff (stop_initial app)
unfolding stop_initial set_alive same_thread
initial_off app ((owns, web), w) =
    if_either InitialOff app.initial_thread_started _ app
      (λ e. (
        ((by_thread _ (owns log_writer) (λ i. owns (worker i)) (owns watcher) refl, web), w),
        refl,
      ))
      (λ e. (((owns, web), w), e))

workers_off : (app : Service) → InitialOff app → WorkersOff (stop_workers app)
unfolding stop_workers
workers_off app (((owns, web), w), i) =
    if_either WorkersOff app.workers _ app
      (λ e. (
        (
          (
            (
              by_thread _ (other log_writer (λ i. unfold same_thread in refl)) (λ i. one i e)
                  (other watcher (λ i. unfold same_thread in refl))
                  (other initial_sync (λ i. unfold same_thread in refl)),
              web,
            ),
            w,
          ),
          i,
        ),
        refl,
      ))
      (λ e. ((((owns, web), w), i), e))
  where
    other :
        (t : Thread)
        → ((i : ℕ) → same_thread (worker i) t ≡ false)
        → join_workers app.worker_count app.alive t ≡ owned app t
    other t h = joined_other app.worker_count app.alive t h ∙ owns t

    one : (i : ℕ) → app.workers ≡ true → join_workers app.worker_count app.alive (worker i) ≡ false
    one i e = joined_worker app.worker_count app.alive i ∙ ground (arith, owns (worker i), e)

log_off : (app : Service) → WorkersOff app → LogOff (log_stop app)
unfolding log_stop set_alive same_thread
log_off app ((((owns, web), w), i), ws) =
    if_either LogOff app.log_thread_started _ app
      (λ e. (
        (
          (
            ((by_thread _ refl (λ i. owns (worker i)) (owns watcher) (owns initial_sync), web), w),
            i,
          ),
          ws,
        ),
        refl,
      ))
      (λ e. (((((owns, web), w), i), ws), e))

-- The stop leaves nothing, from wherever the fields say what there is.
pub stop-IsDown : (app : Service) → Owns app → IsDown (stop app)
unfolding Owns IsDown stop release_lock
stop-IsDown app owns =
    let (((((owned_after, web), w), i), ws), l) = log_off _ (
      workers_off _
        (initial_off _ (watcher_off _ (web_off (record app { stop_requested = true }) owns)))) in
    (
      by_thread _ (owned_after log_writer ∙ l) (λ i. owned_after (worker i) ∙ off_and _ _ ws)
          (owned_after watcher ∙ w) (owned_after initial_sync ∙ i),
      refl,
      web,
      refl,
      by_thread _ (owned_after log_writer) (λ i. owned_after (worker i)) (owned_after watcher)
          (owned_after initial_sync),
    )
