-- ===== src/Tests/QueueRuns.antt =====
-- A short life of a queue.
use sy_se_ba.Prelude.{ℕ, ◌-◌, ◌≡◌, refl, true, some, List, [], ◌∷◌, ◌++◌, map, leb, arith}
use sy_se_ba.Queue.{
  freed, Heap, Queue, queue_init, queue_push, with_next, take_head, pop_now, Round, failed,
  queue_wait_empty, queue_destroy,
}
use sy_se_ba.Queue.Linked.{IsQueue}
use sy_se_ba.Queue.Fifo.{queue_init-IsQueue, queue_push-IsQueue, pop_now-IsQueue}
use sy_se_ba.Queue.Runs.{Run, start, push, pop, Reached, run-Reached}
use sy_se_ba.Queue.Drain.{
  AllFreed, finishing, tasks_of, queue_wait_empty-finishing, queue_destroy_lem,
}

abbrev empty_heap : Heap ℕ
empty_heap a = freed

abbrev empty_queue : Queue ℕ
empty_queue = queue_init empty_heap

abbrev one : Queue ℕ
one = (queue_push (some 3) 7 empty_queue).1

one_run : Run one (7 ∷ []) [] 0
unfolding queue_init
one_run = push 3 7 (start empty_heap) refl refl (omega arith)

taken_run : Run (pop_now one).1 (7 ∷ []) (7 ∷ []) 0
unfolding queue_init queue_push pop_now take_head with_next
taken_run = pop 7 one_run refl

run-Reached_example : Reached (pop_now one).1 (7 ∷ []) (7 ∷ []) 0
run-Reached_example = run-Reached taken_run

one-IsQueue : IsQueue one (7 ∷ [])
unfolding queue_init
one-IsQueue =
    (queue_push-IsQueue empty_queue [] 3 7 (queue_init-IsQueue empty_heap) refl refl
      (omega arith)).1

pop_now-IsQueue_example : ((pop_now one).0 ≡ some 7) × IsQueue (pop_now one).1 []
pop_now-IsQueue_example = pop_now-IsQueue one 7 [] one-IsQueue

queue_push-IsQueue_example : ((queue_push (some 3) 7 empty_queue).0 ≡ true) × IsQueue one (7 ∷ [])
unfolding queue_init
queue_push-IsQueue_example =
    queue_push-IsQueue empty_queue [] 3 7 (queue_init-IsQueue empty_heap) refl refl (omega arith)

-- Three open tasks; a wait that ends early, and two that end with tasks done.
abbrev busy : Queue ℕ
busy = record one { unfinished = 3 }

abbrev late_round : Round ℕ
late_round = record { now = 20000000; outcome = λ ms. failed }

abbrev three_waits : List (ℕ × ℕ)
three_waits = (1, 0) ∷ (2, 2) ∷ (3, 1) ∷ []

queue_wait_empty-finishing_example :
    queue_wait_empty 0 10 (map finishing three_waits ++ late_round ∷ []) busy
    ≡ some (
      leb busy.unfinished (tasks_of three_waits),
      record busy { unfinished = busy.unfinished - tasks_of three_waits },
    )
unfolding queue_init queue_push
queue_wait_empty-finishing_example =
    queue_wait_empty-finishing 0 10 three_waits late_round [] busy refl (omega arith)
      (omega arith, (omega arith, (omega arith, _))) (omega arith)

queue_destroy_lem_example :
    ((queue_destroy 1 one).0 ≡ 7 ∷ [])
    × AllFreed (queue_destroy 1 one).1.heap one-IsQueue.addresses
    × IsQueue (queue_destroy 1 one).1 []
    × ((queue_destroy 1 one).1.closed ≡ true)
queue_destroy_lem_example = queue_destroy_lem 1 one (7 ∷ []) one-IsQueue (omega arith)
