-- ===== src/App/Visited.antt =====
-- How the callback of the initial synchronisation of src/app.c queues a path, while other threads
-- take events.
use mathlib.Core.List.{append_assoc, map-append}
use sy_se_ba.Prelude.{
  ℕ, ◌+◌, ◌^◌, ◌<◌, ◌≤◌, ◌≡◌, refl, sym, ap, ◌∙◌, Bool, true, false, ◌||◌, not, Option, none, some,
  List, [], ◌∷◌, ◌++◌, map, if◌then◌else◌, if_both, Bool-cases, inl, inr, inc64, inc64_lt, length,
  length-append, arith,
}
use sy_se_ba.Prelude.Text.{Text, fits}
use sy_se_ba.FilePath.{path_max}
use sy_se_ba.Confine.{path_is_within}
use sy_se_ba.Config.{Failure, err, invalid}
use sy_se_ba.Snapshot.{create}
use sy_se_ba.Queue.{Queue, freed, queue_push}
use sy_se_ba.Queue.Linked.{IsQueue}
use sy_se_ba.Queue.Fifo.{queue_push-IsQueue}
use sy_se_ba.App.{Event}
use sy_se_ba.App.Enqueue.{State, push_event, enqueue_internal, enqueue_initial}
use sy_se_ba.App.Sync.{Shared, Around, queue_path}

-- Files among what is visited, counted in 64 bits.
abbrev pub count_visited : ℕ → List (Text × Bool) → ℕ
count_visited n [] = n
count_visited n ((path, is_directory) ∷ rest) =
    count_visited (if is_directory then n else inc64 n) rest

pub count_visited_append :
    (n : ℕ) (l : List (Text × Bool)) (path : Text) (d : Bool)
    → count_visited n (l ++ (path, d) ∷ [])
      ≡ (if d then count_visited n l else inc64 (count_visited n l))
count_visited_append n [] path d = refl
count_visited_append n ((p, e) ∷ l) path d =
    count_visited_append (if e then n else inc64 n) l path d

-- The event of a path that is visited.
abbrev pub visited : Around → Text × Bool → Event
visited around (path, is_directory) = record {
  kind = create;
  path = path;
  is_directory = is_directory;
  initial_sync = true;
  observed_ns = around.clock path;
}

-- From the front of the queue, and noted.
pub record IsTaken (rest : List Event) (before after : Shared) : Type 0 where
  pub moved : List Event
  pub left : List Event
  pub split : moved ++ left ≡ rest
  pub queue : IsQueue after.app.event_queue left
  pub noted : after.taken ≡ before.taken ++ moved

-- Other threads may take events from the front and report tasks done, change counters but the
-- total, and ask the program to stop, which is final.
pub record OnlyTakes (before after : Shared) : Type 0 where
  pub is_final : after.app.stopping ≡ false → before.app.stopping ≡ false
  pub total : after.app.stats.initial_total ≡ before.app.stats.initial_total
  pub fewer : after.app.event_queue.unfinished ≤ before.app.event_queue.unfinished
  pub moves : (rest : List Event) → IsQueue before.app.event_queue rest → IsTaken rest before after

-- The block that `calloc` yields for a node is not in use.
unfoldable pub IsAllocator : Around → Type 0
IsAllocator around =
    (path : Text) (app : State) (a : ℕ)
    → around.node_memory path app ≡ some a
    → app.event_queue.heap a ≡ freed

-- The event is behind the others.
pub record IsBehind (event : Event) (rest : List Event) (before after : State) : Type 0 where
  pub queue : IsQueue after.event_queue (rest ++ event ∷ [])
  pub room : after.event_queue.unfinished ≤ before.event_queue.unfinished + 1
  pub total : after.stats.initial_total ≡ before.stats.initial_total

module _ (event : Event) (rest : List Event) (app : State) where
  -- If the result is `SYSEBA_OK`.
  Queues : Option Failure × State → Type 0
  Queues p = p.0 ≡ none → IsBehind event rest app p.1

  failed-Queues : (failure : Failure) (after : State) → Queues (some failure, after)
  unfolding Queues
  failed-Queues failure after e = cc

  queue_push-unfinished :
      (a : ℕ) (q : Queue Event)
      → q.unfinished + 1 < 2 ^ 64
      → (queue_push (some a) event q).1.unfinished ≤ q.unfinished + 1
  unfolding queue_push
  queue_push-unfinished a q room = ground (arith, inc64_lt q.unfinished room)

  push_event-Queues :
      (source : Text) (around : Around) (memory : Option ℕ)
      → IsQueue app.event_queue rest
      → ((a : ℕ) → memory ≡ some a → app.event_queue.heap a ≡ freed)
      → app.event_queue.unfinished + 1 < 2 ^ 64
      → Queues (push_event around.view source memory event app)
  unfolding Queues push_event queue_push
  push_event-Queues source around none i free room e = cc
  push_event-Queues source around (some a) i free room e =
      elim (Bool-cases app.event_queue.closed) [
        | inl c ↦ closed_fails c e
        | inr c ↦ record {
          queue = (queue_push-IsQueue app.event_queue rest a event i (free a refl) c room).1;
          room = queue_push-unfinished a app.event_queue room;
          total = refl;
        }
      ]
    where
      closed_fails :
          app.event_queue.closed ≡ true
          → (push_event around.view source (some a) event app).0 ≡ none
          → IsBehind event rest app (push_event around.view source (some a) event app).1
      closed_fails c e = ground (arith, c, e)

pub queue_path-IsBehind :
    (around : Around) (source path : Text) (d : Bool) (rest : List Event) (app : State)
    → IsAllocator around
    → IsQueue app.event_queue rest
    → app.event_queue.unfinished + 1 < 2 ^ 64
    → (queue_path around source path d app).0 ≡ none
    → IsBehind (visited around (path, d)) rest app (queue_path around source path d app).1
unfolding queue_path enqueue_initial enqueue_internal Queues IsAllocator
queue_path-IsBehind around source path d rest app fresh i room =
    if_both (Queues event rest app) (app.stopping || not (path_is_within around.view source path)) _
      _ (failed-Queues event rest app invalid app)
      (if_both (Queues event rest app) (not (around.event_memory path)) _ _
        (failed-Queues event rest app err app)
        (if_both (Queues event rest app) (not (fits path_max path)) _ _
          (failed-Queues event rest app invalid app)
          (push_event-Queues event rest app source around (around.node_memory path app) i
            (fresh path app) room)))
  where
    event : Event
    event = visited around (path, d)

-- So many more tasks are open at most, the total is this, and what other threads took with what
-- is in the queue is the list followed by the events of the paths.
pub record IsDelivered (around : Around) (xs : List Event) (open_tasks total : ℕ)
    (seen : List (Text × Bool)) (s : Shared) : Type 0 where
  pub rest : List Event
  pub split : s.taken ++ rest ≡ xs ++ map (visited around) seen
  pub queue : IsQueue s.app.event_queue rest
  pub room : s.app.event_queue.unfinished ≤ open_tasks + length seen
  pub counted : s.app.stats.initial_total ≡ total

module _ (around : Around) (xs : List Event) (open_tasks total : ℕ) where
  Delivered : List (Text × Bool) → Shared → Type 0
  Delivered = IsDelivered around xs open_tasks total

  -- Other threads take events.
  pub OnlyTakes-IsDelivered :
      (seen : List (Text × Bool)) (before after : Shared)
      → OnlyTakes before after
      → IsDelivered around xs open_tasks total seen before
      → IsDelivered around xs open_tasks total seen after
  OnlyTakes-IsDelivered seen before after o i =
      let t = o.moves i.rest i.queue in
      record {
        rest = t.left;
        split =
            ap (λ l. l ++ t.left) t.noted
            ∙ append_assoc before.taken t.moved t.left
            ∙ ap (λ l. before.taken ++ l) t.split
            ∙ i.split;
        queue = t.queue;
        room = omega (arith, o.fewer, i.room);
        counted = o.total ∙ i.counted;
      }

  -- The event of a path is queued.
  pub IsBehind-IsDelivered :
      (seen : List (Text × Bool)) (path : Text) (d : Bool) (before : Shared) (after : State)
      (i : IsDelivered around xs open_tasks total seen before)
      → IsBehind (visited around (path, d)) i.rest before.app after
      → IsDelivered around xs open_tasks total
          (seen ++ (path, d) ∷ [])
          (record before { app = after })
  IsBehind-IsDelivered seen path d before after i b = record {
    rest = i.rest ++ visited around (path, d) ∷ [];
    split =
        sym (append_assoc before.taken i.rest (visited around (path, d) ∷ []))
        ∙ ap (λ l. l ++ visited around (path, d) ∷ []) i.split
        ∙ append_assoc xs (map (visited around) seen) (visited around (path, d) ∷ [])
        ∙ ap (λ l. xs ++ l) (sym (map-append (visited around) seen ((path, d) ∷ [])));
    queue = b.queue;
    room = omega (arith, b.room, i.room, length-append seen ((path, d) ∷ []));
    counted = b.total ∙ i.counted;
  }
