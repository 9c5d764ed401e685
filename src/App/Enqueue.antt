-- ===== src/App/Enqueue.antt =====
-- The queueing of events in src/app.c: `syseba_app_enqueue_internal` and its two callers.
use sy_se_ba.Prelude.{
  not-false, if_either, ℕ, ◌+◌, ◌^◌, ◌<◌, ◌≡◌, ◌⊎◌, inl, inr, refl, ap, Bool, true, false, ◌||◌,
  not, Option, none, some, List, [], ◌∷◌, ◌++◌, inc64, if◌then◌else◌, arith,
}
use sy_se_ba.Prelude.Text.{Text, fits}
use sy_se_ba.FilePath.{path_max}
use sy_se_ba.Confine.{FileView, path_is_within}
use sy_se_ba.Config.{Failure, err, invalid}
use sy_se_ba.Snapshot.{EventKind}
use sy_se_ba.Queue.{Queue, freed, queue_push}
use sy_se_ba.Queue.Linked.{IsQueue}
use sy_se_ba.Queue.Fifo.{queue_push-IsQueue}
use sy_se_ba.App.{Event, Stats}

-- What the function uses of `syseba_app_t`.
pub record State : Type 0 where
  pub stopping : Bool
  pub stats : Stats
  pub event_queue : Queue Event

-- Whether `calloc` yields an event, the block that the queue gets for its node, and the clock.
pub record Chance : Type 0 where
  pub event_memory : Bool
  pub node_memory : Option ℕ
  pub now : ℕ

module _ (v : FileView) (source : Text) where
  -- From `queued_events++` on.
  unfoldable pub push_event : Option ℕ → Event → State → Option Failure × State
  push_event memory event app =
      let (pushed, queue) = queue_push memory event app.event_queue in
      (
        if pushed then none else some err,
        record app {
          stats = record app.stats { queued_events = inc64 app.stats.queued_events };
          event_queue = queue;
        },
      )

  unfoldable pub enqueue_internal :
      EventKind → Text → Bool → Bool → Chance → State → Option Failure × State
  unfolding push_event
  enqueue_internal kind path is_directory initial_sync chance app =
      if app.stopping || not (path_is_within v source path)
      then (some invalid, app)
      else if not chance.event_memory
      then (some err, app)
      else if not (fits path_max path)
      then (some invalid, app)
      else push_event chance.node_memory
          (record {
            kind = kind;
            path = path;
            is_directory = is_directory;
            initial_sync = initial_sync;
            observed_ns = chance.now;
          })
          app

  unfoldable pub enqueue : EventKind → Text → Bool → Chance → State → Option Failure × State
  unfolding enqueue_internal
  enqueue kind path is_directory chance app =
      enqueue_internal kind path is_directory false chance app

  unfoldable pub enqueue_initial : EventKind → Text → Bool → Chance → State → Option Failure × State
  unfolding enqueue_internal
  enqueue_initial kind path is_directory chance app =
      enqueue_internal kind path is_directory true chance app

  -- The event is in the queue behind the others, or it is not one that may be queued and nothing
  -- changes.
  pub record IsQueued (event : Event) (xs : List Event) (app after : State)
      (result : Option Failure) : Type 0 where
    pub not_stopping : app.stopping ≡ false
    pub inside : path_is_within v source event.path ≡ true
    pub short : fits path_max event.path ≡ true
    pub is_ok : result ≡ none
    pub behind : IsQueue after.event_queue (xs ++ event ∷ [])
    pub counted : after.stats.queued_events ≡ inc64 app.stats.queued_events

  pub record IsRefused (event : Event) (app after : State) (result : Option Failure) : Type 0 where
    pub reason :
        app.stopping || not (path_is_within v source event.path) || not (fits path_max event.path)
        ≡ true
    pub is_invalid : result ≡ some invalid
    pub unchanged : after ≡ app

  Outcome : Event → List Event → State → Option Failure × State → Type 0
  Outcome event xs app p = IsQueued event xs app p.1 p.0

  pushed :
      (event : Event) (app : State) (xs : List Event) (a : ℕ)
      → app.stopping ≡ false
      → path_is_within v source event.path ≡ true
      → fits path_max event.path ≡ true
      → ((queue_push (some a) event app.event_queue).0 ≡ true)
        × IsQueue (queue_push (some a) event app.event_queue).1 (xs ++ event ∷ [])
      → Outcome event xs app (push_event (some a) event app)
  unfolding push_event Outcome
  pushed event app xs a running inside short h = record {
    not_stopping = running;
    inside = inside;
    short = short;
    is_ok = ap (λ b. if b then none else some err) h.0;
    behind = h.1;
    counted = refl;
  }

  -- Memory is there.
  abbrev pub request : Event → ℕ → State → Option Failure × State
  request event a app =
      enqueue_internal event.kind event.path event.is_directory event.initial_sync
        (record { event_memory = true; node_memory = some a; now = event.observed_ns }) app

  Either : Event → List Event → State → Option Failure × State → Type 0
  Either event xs app p = IsQueued event xs app p.1 p.0 ⊎ IsRefused event app p.1 p.0

  -- With memory not in use, an open queue that holds a list and a count of open tasks below 2^64
  -- - 1, syseba_app_enqueue_internal either returns SYSEBA_OK, the program is not stopping, the
  -- path is within the source and fits its buffer, and the queue holds the list followed by the
  -- event, or one of these conditions does not hold, and it returns SYSEBA_ERR_INVALID and
  -- changes nothing.
  pub enqueue_internal-cases :
      (event : Event) (a : ℕ) (app : State) (xs : List Event)
      → IsQueue app.event_queue xs
      → app.event_queue.heap a ≡ freed
      → app.event_queue.closed ≡ false
      → app.event_queue.unfinished + 1 < 2 ^ 64
      → IsQueued event xs app (request event a app).1 (request event a app).0
        ⊎ IsRefused event app (request event a app).1 (request event a app).0
  unfolding enqueue_internal Outcome Either
  enqueue_internal-cases event a app xs i free open_ room =
      if_either (Either event xs app) (app.stopping || not (path_is_within v source event.path)) _ _
        (λ e. inr (record {
          reason =
              known app.stopping (path_is_within v source event.path) (fits path_max event.path) e;
          is_invalid = refl;
          unchanged = refl;
        }))
        (λ e.
          if_either (Either event xs app) (not (fits path_max event.path)) _ _
            (λ f. inr (record {
              reason =
                  long app.stopping (path_is_within v source event.path) (fits path_max event.path)
                    f;
              is_invalid = refl;
              unchanged = refl;
            }))
            (λ f. inl (
              pushed event app xs a (running app.stopping (path_is_within v source event.path) e)
                (inside app.stopping (path_is_within v source event.path) e)
                (not-false (fits path_max event.path) f)
                (queue_push-IsQueue app.event_queue xs a event i free open_ room))))
    where
      known : (s w f : Bool) → s || not w ≡ true → s || not w || not f ≡ true
      known s w f e = ground arith

      long : (s w f : Bool) → not f ≡ true → s || not w || not f ≡ true
      long s w f e = ground arith

      running : (s w : Bool) → s || not w ≡ false → s ≡ false
      running s w e = ground arith

      inside : (s w : Bool) → s || not w ≡ false → w ≡ true
      inside s w e = ground arith
