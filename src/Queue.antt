-- ===== src/Queue.antt =====
-- The work queue between the watcher, the workers and the log writer, src/queue.c. Every operation
-- holds the mutex throughout, except in the waits, so an operation is one step on the state; what
-- other threads do in a wait is a parameter.
pub mod Linked
pub mod Fifo
pub mod Runs
pub mod Drain
use sy_se_ba.Prelude.{
  ℕ, zero, suc, ◌+◌, ◌-◌, ◌*◌, ◌/◌, ◌%◌, ◌^◌, Bool, true, false, ◌&&◌, ◌||◌, not, Option, none,
  some, List, [], ◌∷◌, ◌++◌, ltb, leb, ◌==◌, if◌then◌else◌, inc64,
}

-- A block of memory: given back, or a `syseba_queue_node_t`.
pub data Cell (D : Type 0) : Type 0 where
  freed : Cell D
  node : D → Option ℕ → Cell D

abbrev pub Heap : Type 0 → Type 0
Heap D = ℕ → Cell D

abbrev pub write : {D : Type 0} → Heap D → ℕ → Cell D → Heap D
write h a c b = if b == a then c else h b

-- `syseba_queue_t` without its mutex and conditions, and the memory that its nodes stand in.
pub record Queue (D : Type 0) : Type 0 where
  pub heap : Heap D
  pub head : Option ℕ
  pub tail : Option ℕ
  pub size : ℕ
  pub unfinished : ℕ
  pub closed : Bool

-- `x--` on a 64-bit `size_t`.
unfoldable pub dec64 : ℕ → ℕ
dec64 n = (n + (2 ^ 64 - 1)) % 2 ^ 64

-- What happened in a wait: other threads changed the queue, or the wait failed or timed out.
pub data Wait (D : Type 0) : Type 0 where
  woken : (Queue D → Queue D) → Wait D
  failed : Wait D

module _ {D : Type 0} where
  unfoldable pub queue_init : Heap D → Queue D
  queue_init h = record {
    heap = h;
    head = none;
    tail = none;
    size = 0;
    unfinished = 0;
    closed = false;
  }

  unfoldable pub queue_close : Queue D → Queue D
  queue_close q = record q { closed = true }

  -- `node->next = next` on a node.
  unfoldable pub with_next : Cell D → Option ℕ → Cell D
  with_next freed next = freed
  with_next (node item next) new = node item new

  -- `memory` is what `calloc` returns.
  unfoldable pub queue_push : Option ℕ → D → Queue D → Bool × Queue D
  unfolding with_next
  queue_push none item q = (false, q)
  queue_push (some a) item q =
      let made = write q.heap a (node item none) in
      if q.closed then (false, record q { heap = write made a freed }) else (
        true,
        elim q.tail [
          | none ↦ record q {
            heap = made;
            head = some a;
            tail = some a;
            size = inc64 q.size;
            unfinished = inc64 q.unfinished;
          }
          | some t ↦ record q {
            heap = write made t (with_next (made t) (some a));
            tail = some a;
            size = inc64 q.size;
            unfinished = inc64 q.unfinished;
          }
        ],
      )

  -- The head is taken off; there is one.
  unfoldable pub take_head : ℕ → Cell D → Queue D → Option D × Queue D
  unfolding dec64
  take_head a freed q = (none, q)
  take_head a (node item next) q = (
    some item,
    record q {
      heap = write q.heap a freed;
      head = next;
      tail = elim next [ none ↦ none | some _ ↦ q.tail ];
      size = dec64 q.size;
    },
  )

  -- The negation of the loop's condition.
  abbrev pub is_ready : Queue D → Bool
  is_ready q = elim q.head [ none ↦ q.closed | some _ ↦ true ]

  -- After the loop; NULL is `none`.
  unfoldable pub pop_now : Queue D → Option D × Queue D
  unfolding take_head
  pop_now q = elim q.head [ none ↦ (none, q) | some a ↦ take_head a (q.heap a) q ]

  -- `waits` are the outcomes of the calls of `syseba_cond_wait` or `syseba_cond_timedwait`. The
  -- result is `none` while the call still waits.
  unfoldable pub queue_pop : List (Wait D) → Queue D → Option (Option D × Queue D)
  unfolding pop_now
  queue_pop [] q = if is_ready q then some (pop_now q) else none
  queue_pop (failed ∷ waits) q = if is_ready q then some (pop_now q) else some (none, q)
  queue_pop (woken others ∷ waits) q =
      let rest = queue_pop waits (others q) in if is_ready q then some (pop_now q) else rest

  unfoldable pub queue_task_done : Queue D → Queue D
  unfolding dec64
  queue_task_done q = if ltb 0 q.unfinished then record q { unfinished = dec64 q.unfinished } else q

  unfoldable pub queue_size : Queue D → ℕ
  queue_size q = q.size

  unfoldable pub queue_is_closed : Queue D → Bool
  queue_is_closed q = q.closed

-- A round of the loop of `syseba_queue_wait_empty`: the clock, and how a wait of so many
-- milliseconds ends. A wait that times out counts as `woken`.
pub record Round (D : Type 0) : Type 0 where
  pub now : ℕ
  pub outcome : ℕ → Wait D

-- How long a round waits.
unfoldable pub remaining_ms : ℕ → ℕ → ℕ
remaining_ms deadline now =
    let remaining = (deadline - now) / 1000000 % 2 ^ 32 in if remaining == 0 then 1 else remaining

module _ {D : Type 0} where
  abbrev pub is_pending : Queue D → Bool
  is_pending q = ltb 0 q.unfinished && not q.closed

  -- `none` while the call still waits.
  unfoldable pub wait_loop : ℕ → List (Round D) → Queue D → Option (Bool × Queue D)
  unfolding remaining_ms
  wait_loop deadline [] q = if is_pending q then none else some (q.unfinished == 0, q)
  wait_loop deadline (r ∷ rounds) q =
      let later = wait_loop deadline rounds in
      if not (is_pending q) || leb deadline r.now
      then some (q.unfinished == 0, q)
      else elim (r.outcome (remaining_ms deadline r.now)) [
        | failed ↦ some (q.unfinished == 0, q)
        | woken others ↦ later (others q)
      ]

  -- `start` is the clock at the call.
  unfoldable pub queue_wait_empty : ℕ → ℕ → List (Round D) → Queue D → Option (Bool × Queue D)
  unfolding wait_loop
  queue_wait_empty start timeout_ms rounds q =
      wait_loop ((start + timeout_ms * 1000000) % 2 ^ 64) rounds q

  -- The loop of `syseba_queue_destroy`: what `free_fn` is called on, and the memory afterwards.
  -- The fuel is the number of nodes.
  unfoldable pub destroy_loop : ℕ → Option ℕ → Heap D → List D × Heap D
  destroy_loop zero next h = ([], h)
  destroy_loop (suc fuel) none h = ([], h)
  destroy_loop (suc fuel) (some a) h = elim (h a) [
    | freed ↦ ([], h)
    | node item next ↦
        let (items, after) = destroy_loop fuel next (write h a freed) in (item ∷ items, after)
  ]

  unfoldable pub queue_destroy : ℕ → Queue D → List D × Queue D
  unfolding destroy_loop queue_close
  queue_destroy fuel q =
      let closed_queue = queue_close q in
      let (items, after) = destroy_loop fuel closed_queue.head closed_queue.heap in
      (
        items,
        record closed_queue { heap = after; head = none; tail = none; size = 0; unfinished = 0 },
      )
