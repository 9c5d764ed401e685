-- ===== src/Queue/Runs.antt =====
-- What the queue of src/queue.c holds after any sequence of operations.
use sy_se_ba.Prelude.{
  ℕ, suc, ◌+◌, ◌<◌, ◌≤◌, ◌^◌, ◌≡◌, refl, ap, ◌∙◌, sym, subst, false, Option, none, some, List, [],
  ◌∷◌, ◌++◌, length, length-append, inc64, inc64_lt, arith,
}
use mathlib.Core.List.{append_assoc}
use sy_se_ba.Queue.{
  Cell, freed, node, Heap, Queue, queue_init, queue_close, queue_push, take_head, pop_now,
  queue_task_done,
}
use sy_se_ba.Queue.Linked.{first, Linked, IsQueue}
use sy_se_ba.Queue.Fifo.{
  queue_init-IsQueue, queue_push-IsQueue, pop_now-IsQueue, queue_close-IsQueue,
  queue_task_done-IsQueue,
}

-- What a queue goes through: the elements pushed so far, those popped so far, and how many of these
-- were reported as done. A push gets a block that is not in use.
pub data Run {D : Type 0} : Queue D → List D → List D → ℕ → Type 0 where
  start : (h : Heap D) → Run (queue_init h) [] [] 0
  push :
      {q : Queue D} {pushed popped : List D} {done : ℕ} (a : ℕ) (x : D)
      → Run q pushed popped done
      → q.heap a ≡ freed
      → q.closed ≡ false
      → q.unfinished + 1 < 2 ^ 64
      → Run (queue_push (some a) x q).1 (pushed ++ x ∷ []) popped done
  pop :
      {q r : Queue D} {pushed popped : List D} {done : ℕ} (x : D)
      → Run q pushed popped done
      → pop_now q ≡ (some x, r)
      → Run r pushed (popped ++ x ∷ []) done
  task_done :
      {q : Queue D} {pushed popped : List D} {done : ℕ}
      → Run q pushed popped done
      → done < length popped
      → Run (queue_task_done q) pushed popped (suc done)
  close :
      {q : Queue D} {pushed popped : List D} {done : ℕ}
      → Run q pushed popped done
      → Run (queue_close q) pushed popped done

module _ {D : Type 0} where
  pop_now-nil : (q : Queue D) → IsQueue q [] → (pop_now q).0 ≡ none
  unfolding pop_now
  pop_now-nil q i = by_addresses i.addresses i.linked i.at_head
    where
      by_addresses : (ps : List ℕ) → Linked q.heap ps [] → q.head ≡ first ps → (pop_now q).0 ≡ none
      by_addresses [] l e = rw e refl
      by_addresses (b ∷ bs) l e = absurd l

  push_unfinished :
      (q : Queue D) (a : ℕ) (x : D)
      → q.closed ≡ false
      → (queue_push (some a) x q).1.unfinished ≡ inc64 q.unfinished
  unfolding queue_push
  push_unfinished q a x h = by_tail q.tail refl
    where
      by_tail :
          (t : Option ℕ) → q.tail ≡ t → (queue_push (some a) x q).1.unfinished ≡ inc64 q.unfinished
      by_tail none e = rw (h, e) refl
      by_tail (some t) e = rw (h, e) refl

  pop_unfinished : (q : Queue D) → (pop_now q).1.unfinished ≡ q.unfinished
  unfolding pop_now take_head
  pop_unfinished q = by_head q.head refl
    where
      by_cell : (p : Queue D) (a : ℕ) (c : Cell D) → (take_head a c p).1.unfinished ≡ p.unfinished
      by_cell p a freed = refl
      by_cell p a (node x next) = refl

      by_head : (h : Option ℕ) → q.head ≡ h → (pop_now q).1.unfinished ≡ q.unfinished
      by_head none e = rw e refl
      by_head (some a) e = rw e (by_cell (record q { head = some a }) a (q.heap a))

  -- What is known of a queue after a run.
  pub record Reached (q : Queue D) (pushed popped : List D) (done : ℕ) : Type 0 where
    pub contents : List D
    pub holds : IsQueue q contents
    pub in_order : pushed ≡ popped ++ contents
    pub open_tasks : q.unfinished + done ≡ length pushed
    pub not_early : done ≤ length popped

  -- After any sequence of pushes into an open queue with memory not in use, pops, reports of
  -- popped elements and closes from a new queue, the linked nodes hold a list of elements such
  -- that the pushed elements are the popped ones followed by the held ones, the size is the
  -- length of the list, and the count of open tasks is the number of pushes less the number of
  -- reports.
  pub run-Reached :
      {q : Queue D} {pushed popped : List D} {done : ℕ}
      → Run q pushed popped done
      → Reached q pushed popped done
  unfolding queue_init
  run-Reached (start h) = record {
    contents = [];
    holds = queue_init-IsQueue h;
    in_order = refl;
    open_tasks = omega arith;
    not_early = omega arith;
  }
  run-Reached (push {q} {pushed} {popped} {done} a x r free open_ room) =
      let before = run-Reached r in
      let (_, holds) = queue_push-IsQueue q before.contents a x before.holds free open_ room in
      record {
        contents = before.contents ++ x ∷ [];
        holds = holds;
        in_order =
            ap (λ l. l ++ x ∷ []) before.in_order ∙ append_assoc popped before.contents (x ∷ []);
        open_tasks = omega (
          arith,
          before.open_tasks,
          push_unfinished q a x open_,
          inc64_lt q.unfinished room,
          length-append pushed (x ∷ []),
        );
        not_early = before.not_early;
      }
  run-Reached (pop {q} {r} {pushed} {popped} {done} x run e) =
      let before = run-Reached run in
      by_contents before before.contents before.holds before.in_order
    where
      clash : none ≡ some x → ⊥
      clash h = cc

      by_contents :
          (before : Reached q pushed popped done) (xs : List D)
          → IsQueue q xs
          → pushed ≡ popped ++ xs
          → Reached r pushed (popped ++ x ∷ []) done
      by_contents before [] i order = absurd (clash (sym (pop_now-nil q i) ∙ ap (λ p. p.0) e))
      by_contents before (y ∷ ys) i order =
          let (is_y, after) = pop_now-IsQueue q y ys i in
          record {
            contents = ys;
            holds = subst (λ p. IsQueue p ys) (ap (λ p. p.1) e) after;
            in_order =
                order
                ∙ ap (λ z. popped ++ z ∷ ys) (same y (sym is_y ∙ ap (λ p. p.0) e))
                ∙ sym (append_assoc popped (x ∷ []) ys);
            open_tasks =
                ap (λ n. n + done) (sym (ap (λ p. Queue.unfinished (p.1)) e) ∙ pop_unfinished q)
                ∙ before.open_tasks;
            not_early = omega (arith, before.not_early, length-append popped (x ∷ []));
          }
        where
          same : (y : D) → some y ≡ some x → y ≡ x
          same y h = cc
  run-Reached (task_done {q} {pushed} {popped} {done} r more) =
      let before = run-Reached r in
      let total = ap length before.in_order ∙ length-append popped before.contents in
      let (holds, one_less) =
        queue_task_done-IsQueue q before.contents before.holds
          (omega (arith, before.open_tasks, total)) in
      record {
        contents = before.contents;
        holds = holds;
        in_order = before.in_order;
        open_tasks = omega (arith, one_less, before.open_tasks, total);
        not_early = more;
      }
  run-Reached (close {q} {pushed} {popped} {done} r) =
      let before = run-Reached r in
      record {
        contents = before.contents;
        holds = queue_close-IsQueue q before.contents before.holds;
        in_order = before.in_order;
        open_tasks = closing before.open_tasks;
        not_early = before.not_early;
      }
    where
      closing :
          q.unfinished + done ≡ length pushed → (queue_close q).unfinished + done ≡ length pushed
      closing h = unfold queue_close in h
