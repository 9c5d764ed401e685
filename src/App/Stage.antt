-- ===== src/App/Stage.antt =====
-- How far a start of `syseba_app_start` in src/app.c has come.
use sy_se_ba.Prelude.{
  ℕ, zero, suc, ◌+◌, ◌≡◌, ap, subst, ◌∙◌, Bool, true, ◌&&◌, not, Option, none, some, ltb, if_both,
  arith,
}
use sy_se_ba.App.Service.{
  Thread, log_writer, worker, watcher, initial_sync, same_thread, Code, ok, err_any, err_busy,
  err_permission, Mode, Service, Answers, set_alive, create_workers,
}
use sy_se_ba.App.Settled.{owned, Owns, IsDown, by_thread}

-- The threads of a program that runs.
unfoldable pub wanted : Mode → Thread → Bool
wanted mode log_writer = true
wanted mode (worker i) = not mode.web_only && ltb i mode.threads
wanted mode watcher = not mode.web_only
wanted mode initial_sync = not mode.web_only && not mode.no_initial_sync

unfoldable pub IsUp : Mode → Service → Type 0
IsUp mode app =
    ((t : Thread) → app.alive t ≡ wanted mode t)
    × (app.lock_file ≡ not mode.web_only)
    × (app.web_context ≡ mode.web_enabled)
    × (app.running ≡ not mode.web_only)
    × Owns app

unfoldable pub IsSettled : Mode → Code × Service → Type 0
IsSettled mode (ok, app) = IsUp mode app
IsSettled mode (err_any, app) = IsDown app
IsSettled mode (err_busy, app) = IsDown app
IsSettled mode (err_permission, app) = IsDown app

-- How far the start has come; the fields say which threads there are.
module _ (mode : Mode) (web workers watching syncing : Bool) where
  abbrev pub Stage : Service → Type 0
  Stage app =
      ((t : Thread) → app.alive t ≡ owned app t)
      × (app.lock_file ≡ not mode.web_only)
      × (app.web_context ≡ web)
      × (app.running ≡ not mode.web_only)
      × (app.log_thread_started ≡ true)
      × ((i : ℕ) → app.workers && ltb i app.worker_count ≡ workers && ltb i mode.threads)
      × (app.watcher_thread_started ≡ watching)
      × (app.initial_thread_started ≡ syncing)

abbrev pub Complete : Mode → Bool → Service → Type 0
Complete mode web =
    Stage mode web (not mode.web_only) (not mode.web_only)
      (not mode.web_only && not mode.no_initial_sync)

pub up :
    (mode : Mode) (web : Bool) (app : Service)
    → web ≡ mode.web_enabled
    → Complete mode web app
    → IsUp mode app
unfolding IsUp wanted Owns
up mode web app e (owns, lock, w, run, log, ws, v, i) = (
  by_thread _ (owns log_writer ∙ log) (λ n. owns (worker n) ∙ ws n) (owns watcher ∙ v)
      (owns initial_sync ∙ i),
  lock,
  w ∙ e,
  run,
  owns,
)

-- The workers up to `n` run, and of the others the same as before.
abbrev pub Created : ℕ → (Thread → Bool) → (Thread → Bool) → Type 0
Created n before alive =
    ((i : ℕ) → alive (worker i) ≡ ltb i n)
    × (alive log_writer ≡ before log_writer)
    × (alive watcher ≡ before watcher)
    × (alive initial_sync ≡ before initial_sync)

unfoldable pub CreatedTo : ℕ → (Thread → Bool) → Option ℕ × (Thread → Bool) → Type 0
CreatedTo n before (none, alive) = Created n before alive
CreatedTo n before (some index, alive) = Created index before alive

pub create_workers_lem :
    (a : Answers) (before : Thread → Bool) (left index : ℕ) (alive : Thread → Bool)
    → Created index before alive
    → CreatedTo (index + left) before (create_workers a index left alive)
unfolding create_workers CreatedTo set_alive same_thread
create_workers_lem a before zero index alive (ws, l, v, i) =
    ((λ n. ws n ∙ ap (ltb n) (omega arith)), l, v, i)
create_workers_lem a before (suc left) index alive (ws, l, v, i) =
    if_both (CreatedTo (index + suc left) before) (not (a.create (worker index))) _ _ (ws, l, v, i)
      (subst
        (λ n.
          CreatedTo n before
            (create_workers a (suc index) left (set_alive (worker index) true alive)))
        one_more
        (create_workers_lem a before left (suc index) (set_alive (worker index) true alive)
          ((λ n. ground (arith, ws n)), l, v, i)))
  where
    one_more : suc index + left ≡ index + suc left
    one_more = omega arith
