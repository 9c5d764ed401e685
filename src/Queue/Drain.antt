-- ===== src/Queue/Drain.antt =====
-- Waiting for the queue of src/queue.c to be worked off, and destroying it.
use sy_se_ba.Prelude.{
  ℕ, zero, suc, ◌+◌, ◌-◌, ◌%◌, ◌*◌, ◌≤◌, ◌<◌, ◌^◌, ◌≡◌, refl, ap, ◌∙◌, sym, subst, Bool, true,
  false, not, ◌&&◌, ◌||◌, Option, some, List, [], ◌∷◌, ◌++◌, map, ◌==◌, ltb, ltb→lt, ltb→le, leb,
  length, if_either, ap₂, All, Bool-cases, inl, inr, arith,
}
use sy_se_ba.Queue.{
  freed, node, Heap, write, Queue, woken, Round, queue_close, queue_task_done, dec64, wait_loop,
  queue_wait_empty, destroy_loop, queue_destroy,
}
use sy_se_ba.Queue.Linked.{
  first, Absent, Distinct, Linked, IsQueue, write_self, write_ne, write-Linked,
}

-- How many tasks are done in the waits.
abbrev pub tasks_of : List (ℕ × ℕ) → ℕ
tasks_of [] = 0
tasks_of ((now, count) ∷ waits) = count + tasks_of waits

module _ {D : Type 0} where
  -- Other threads report so many tasks done.
  unfoldable pub finish_tasks : ℕ → Queue D → Queue D
  finish_tasks zero q = q
  finish_tasks (suc k) q = finish_tasks k (queue_task_done q)

  -- A wait that begins at a time and ends with so many tasks done; none is a wait that ends
  -- early or times out.
  unfoldable pub finishing : ℕ × ℕ → Round D
  unfolding finish_tasks
  finishing (now, count) = record { now = now; outcome = λ ms. woken (finish_tasks count) }

  abbrev with_open : Queue D → ℕ → Queue D
  with_open q n = record q { unfinished = n }

  same_result :
      (q : Queue D) (b c : Bool) (m n : ℕ)
      → b ≡ c
      → m ≡ n
      → ◌≡◌ {A = Option (Bool × Queue D)} (some (b, with_open q m)) (some (c, with_open q n))
  same_result q b c m n e f = ap₂ (λ b n. some (b, with_open q n)) e f

  queue_task_done_lem :
      (q : Queue D) → q.unfinished < 2 ^ 64 → queue_task_done q ≡ with_open q (q.unfinished - 1)
  unfolding queue_task_done dec64
  queue_task_done_lem q h =
      if_either (λ r. r ≡ with_open q (q.unfinished - 1)) (ltb 0 q.unfinished) _ _
        (λ e. ap (with_open q) (omega (arith, ltb→lt 0 q.unfinished e)))
        (λ e. ap (with_open q) {x = q.unfinished} (omega (arith, ltb→le 0 q.unfinished e)))

  finish_tasks_lem :
      (k : ℕ) (q : Queue D)
      → q.unfinished < 2 ^ 64
      → finish_tasks k q ≡ record q { unfinished = q.unfinished - k }
  unfolding finish_tasks
  finish_tasks_lem zero q h = ap (with_open q) {x = q.unfinished} (omega arith)
  finish_tasks_lem (suc k) q h =
      ap (finish_tasks k) (queue_task_done_lem q h)
      ∙ finish_tasks_lem k (with_open q (q.unfinished - 1)) (omega arith)
      ∙ ap (with_open q) (omega arith)

  wait_loop-finishing :
      (deadline : ℕ) (waits : List (ℕ × ℕ)) (late : Round D) (more : List (Round D)) (q : Queue D)
      → q.closed ≡ false
      → q.unfinished < 2 ^ 64
      → All (λ w. w.0 < deadline) waits
      → deadline ≤ late.now
      → wait_loop deadline (map finishing waits ++ late ∷ more) q
        ≡ some (
          leb q.unfinished (tasks_of waits),
          record q { unfinished = q.unfinished - tasks_of waits },
        )
  unfolding wait_loop finishing
  wait_loop-finishing deadline [] late more q open_ bound early past = rw stops (
      same_result q (q.unfinished == 0) (leb q.unfinished 0) q.unfinished (q.unfinished - 0)
        (ground arith) (omega arith))
    where
      stops : not (ltb 0 q.unfinished && not q.closed) || leb deadline late.now ≡ true
      stops = ground arith
  wait_loop-finishing deadline ((now, count) ∷ waits) late more q open_ bound (soon, early) past =
      elim (Bool-cases (ltb 0 q.unfinished)) [
        | inr done ↦ rw (stops done) (
            same_result q (q.unfinished == 0) (leb q.unfinished (count + tasks_of waits))
              q.unfinished (q.unfinished - (count + tasks_of waits)) (ground (arith, done))
              (omega (arith, ltb→le 0 q.unfinished done)))
        | inl open_tasks ↦
            rw (goes open_tasks, finish_tasks_lem count q bound)
              (wait_loop-finishing deadline waits late more (with_open q (q.unfinished - count))
                  open_ (omega arith) early past
                ∙ same_result q (leb (q.unfinished - count) (tasks_of waits))
                    (leb q.unfinished (count + tasks_of waits))
                    (q.unfinished - count - tasks_of waits)
                    (q.unfinished - (count + tasks_of waits)) (ground arith) (omega arith))
      ]
    where
      stops :
          ltb 0 q.unfinished ≡ false
          → not (ltb 0 q.unfinished && not q.closed) || leb deadline now ≡ true
      stops done = ground (arith, done)

      goes :
          ltb 0 q.unfinished ≡ true
          → not (ltb 0 q.unfinished && not q.closed) || leb deadline now ≡ false
      goes open_tasks = ground (arith, open_tasks)

  -- On an open queue, if other threads report any numbers of tasks done in the waits that begin
  -- before the deadline, and the clock is read once at or after the deadline,
  -- syseba_queue_wait_empty returns: true exactly if the tasks reported done are at least as many
  -- as were open, with nothing in the queue changed but the number of open tasks, which is what
  -- they leave. A wait may end early, with no task done.
  pub queue_wait_empty-finishing :
      (start timeout_ms : ℕ) (waits : List (ℕ × ℕ)) (late : Round D) (more : List (Round D))
      (q : Queue D)
      → q.closed ≡ false
      → q.unfinished < 2 ^ 64
      → All (λ w. w.0 < (start + timeout_ms * 1000000) % 2 ^ 64) waits
      → (start + timeout_ms * 1000000) % 2 ^ 64 ≤ late.now
      → queue_wait_empty start timeout_ms (map finishing waits ++ late ∷ more) q
        ≡ some (
          leb q.unfinished (tasks_of waits),
          record q { unfinished = q.unfinished - tasks_of waits },
        )
  unfolding queue_wait_empty
  queue_wait_empty-finishing start timeout_ms =
      wait_loop-finishing ((start + timeout_ms * 1000000) % 2 ^ 64)

  -- The memory at the addresses has been given back.
  pub AllFreed : Heap D → List ℕ → Type 0
  AllFreed h = All (λ a. h a ≡ freed)

  destroy_loop_keeps :
      (fuel : ℕ) (h : Heap D) (ps : List ℕ) (xs : List D) (a : ℕ)
      → Linked h ps xs
      → Absent a ps
      → Distinct ps
      → (destroy_loop fuel (first ps) h).1 a ≡ h a
  unfolding destroy_loop
  destroy_loop_keeps zero h ps xs a l n d = refl
  destroy_loop_keeps (suc fuel) h [] xs a l n d = refl
  destroy_loop_keeps (suc fuel) h (b ∷ bs) [] a l n d = absurd l
  destroy_loop_keeps (suc fuel) h (b ∷ bs) (x ∷ xs) a (l, ls) (n, ns) (d, ds) = rw l (
      destroy_loop_keeps fuel (write h b freed) bs xs a (write-Linked h b freed bs xs d ls) ns ds
      ∙ write_ne h b a freed (λ e. n (sym e)))

  destroy_loop_node :
      (fuel : ℕ) (h : Heap D) (b : ℕ) (x : D) (next : Option ℕ)
      → h b ≡ node x next
      → let rest = destroy_loop fuel next (write h b freed) in
        destroy_loop (suc fuel) (some b) h ≡ (x ∷ rest.0, rest.1)
  unfolding destroy_loop
  destroy_loop_node fuel h b x next l = rw (destroy_loop, l) refl

  destroy_loop_lem :
      (fuel : ℕ) (h : Heap D) (ps : List ℕ) (xs : List D)
      → length xs ≤ fuel
      → Linked h ps xs
      → Distinct ps
      → ((destroy_loop fuel (first ps) h).0 ≡ xs) × AllFreed (destroy_loop fuel (first ps) h).1 ps
  unfolding destroy_loop AllFreed
  destroy_loop_lem zero h [] [] k l d = (refl, _)
  destroy_loop_lem (suc fuel) h [] [] k l d = (refl, _)
  destroy_loop_lem fuel h [] (x ∷ xs) k l d = absurd l
  destroy_loop_lem fuel h (b ∷ bs) [] k l d = absurd l
  destroy_loop_lem zero h (b ∷ bs) (x ∷ xs) k l d = absurd (omega arith)
  destroy_loop_lem (suc fuel) h (b ∷ bs) (x ∷ xs) k (l, ls) (d, ds) =
      let linked = write-Linked h b freed bs xs d ls in
      let (items, after) = destroy_loop_lem fuel (write h b freed) bs xs (omega arith) linked ds in
      subst (λ r. (r.0 ≡ x ∷ xs) × AllFreed r.1 (b ∷ bs))
        (sym (destroy_loop_node fuel h b x (first bs) l))
        (
          ap (◌∷◌ x) items,
          (
            destroy_loop_keeps fuel (write h b freed) bs xs b linked d ds ∙ write_self h b freed,
            after,
          ),
        )

  -- Destroying a queue that holds a list, with fuel for its length, calls the free function on
  -- each element once and in order, gives back the memory of each node, and leaves an empty,
  -- closed queue.
  pub queue_destroy_lem :
      (fuel : ℕ) (q : Queue D) (xs : List D) (i : IsQueue q xs)
      → length xs ≤ fuel
      → ((queue_destroy fuel q).0 ≡ xs)
        × AllFreed (queue_destroy fuel q).1.heap i.addresses
        × IsQueue (queue_destroy fuel q).1 []
        × ((queue_destroy fuel q).1.closed ≡ true)
  unfolding queue_destroy queue_close
  queue_destroy_lem fuel q xs i k =
      let (items, given_back) = destroy_loop_lem fuel q.heap i.addresses xs k i.linked i.distinct in
      rw i.at_head (
        items,
        given_back,
        record {
          addresses = [];
          linked = _;
          distinct = _;
          at_head = refl;
          at_tail = refl;
          sized = refl;
          counted = omega arith;
          bounded = omega arith;
        },
        refl,
      )
