-- ===== src/Queue/Fifo.antt =====
-- The linked queue of src/queue.c refines a first-in, first-out list.
use sy_se_ba.Prelude.{
  ℕ, ◌+◌, ◌-◌, ◌<◌, ◌≤◌, ◌^◌, ◌≡◌, ◌≢◌, refl, ap, ◌∙◌, sym, subst, true, false, none, some, List,
  [], ◌∷◌, ◌++◌, ltb, length, length-append, inc64, inc64_lt, arith,
}
use sy_se_ba.Queue.{
  Cell, freed, node, Heap, write, Queue, queue_init, queue_close, with_next, queue_push, take_head,
  pop_now, queue_task_done, dec64,
}
use sy_se_ba.Queue.Linked.{
  first, last, Absent, Distinct, Linked, IsQueue, write_self, write_ne, write-Linked, freed-Absent,
  Linked-append, last-append, Distinct-append,
}

dec64_pos : (n : ℕ) → 0 < n → n < 2 ^ 64 → dec64 n ≡ n - 1
unfolding dec64
dec64_pos n h k = omega arith

last-cons : (b : ℕ) (bs : List ℕ) → (t : ℕ) × (last (b ∷ bs) ≡ some t)
last-cons b [] = (b, refl)
last-cons b (c ∷ cs) = last-cons c cs

last_not-Absent : (t : ℕ) (bs : List ℕ) → last bs ≡ some t → (a : ℕ) → Absent a bs → t ≢ a
last_not-Absent t [] e a n = cc
last_not-Absent t (b ∷ []) e a (n, ns) = λ q. n (cc)
last_not-Absent t (b ∷ c ∷ cs) e a (n, ns) = last_not-Absent t (c ∷ cs) e a ns

module _ {D : Type 0} where
  -- A new queue is empty.
  pub queue_init-IsQueue : (h : Heap D) → IsQueue (queue_init h) []
  unfolding queue_init
  queue_init-IsQueue h = record {
    addresses = [];
    linked = _;
    distinct = _;
    at_head = refl;
    at_tail = refl;
    sized = refl;
    counted = omega arith;
    bounded = omega arith;
  }

  -- A push on an open queue appends, with a block from `calloc` that is not in use.
  pub queue_push-IsQueue :
      (q : Queue D) (xs : List D) (a : ℕ) (x : D)
      → IsQueue q xs
      → q.heap a ≡ freed
      → q.closed ≡ false
      → q.unfinished + 1 < 2 ^ 64
      → ((queue_push (some a) x q).0 ≡ true) × IsQueue (queue_push (some a) x q).1 (xs ++ x ∷ [])
  unfolding queue_push
  queue_push-IsQueue q xs a x i free open_ room = by_addresses i.addresses refl
    where
      size_after : inc64 q.size ≡ length (xs ++ x ∷ [])
      size_after =
          inc64_lt q.size (omega (arith, i.sized, i.counted, i.bounded))
          ∙ omega (arith, i.sized, length-append xs (x ∷ []))

      count_after : length (xs ++ x ∷ []) ≤ inc64 q.unfinished
      count_after = omega (arith, i.counted, inc64_lt q.unfinished room, length-append xs (x ∷ []))

      bound_after : inc64 q.unfinished < 2 ^ 64
      bound_after = omega (arith, inc64_lt q.unfinished room)

      by_addresses :
          (ps : List ℕ)
          → i.addresses ≡ ps
          → ((queue_push (some a) x q).0 ≡ true)
            × IsQueue (queue_push (some a) x q).1 (xs ++ x ∷ [])
      by_addresses [] e =
          rw (open_, i.at_tail, e)
            (
              refl,
              record {
                addresses = a ∷ [];
                linked = only xs (subst (λ ps. Linked q.heap ps xs) e i.linked);
                distinct = (_, _);
                at_head = refl;
                at_tail = refl;
                sized = size_after;
                counted = count_after;
                bounded = bound_after;
              },
            )
        where
          only :
              (ys : List D)
              → Linked q.heap [] ys
              → Linked (write q.heap a (node x none)) (a ∷ []) (ys ++ x ∷ [])
          only [] l = (write_self q.heap a (node x none), _)
          only (y ∷ ys) l = absurd l
      by_addresses (b ∷ bs) e =
          let (t, is_last) = last-cons b bs in
          let linked = subst (λ ps. Linked q.heap ps xs) e i.linked in
          let absent = freed-Absent q.heap a (b ∷ bs) xs free linked in
          let t_ne = last_not-Absent t (b ∷ bs) is_last a absent in
          let distinct = subst Distinct e i.distinct in
          let chained : Cell D = with_next (write q.heap a (node x none) t) (some a) in
          rw (open_, i.at_tail, e, is_last)
            (
              refl,
              record {
                addresses = b ∷ bs ++ a ∷ [];
                linked =
                    Linked-append q.heap (write (write q.heap a (node x none)) t chained) a t x
                      (b ∷ bs) xs linked distinct absent is_last
                      (write_ne (write q.heap a (node x none)) t a chained (λ z. t_ne (sym z))
                        ∙ write_self q.heap a (node x none))
                      (write_self (write q.heap a (node x none)) t chained
                        ∙ ap (λ c. with_next c (some a)) (write_ne q.heap a t (node x none) t_ne))
                      (λ c na nt.
                        write_ne (write q.heap a (node x none)) t c chained nt
                        ∙ write_ne q.heap a c (node x none) na);
                distinct = Distinct-append (b ∷ bs) a distinct absent;
                at_head = i.at_head ∙ ap first e;
                at_tail = sym (last-append (b ∷ bs) a);
                sized = size_after;
                counted = count_after;
                bounded = bound_after;
              },
            )

  -- Taking from a queue that is not empty yields its first element.
  pub pop_now-IsQueue :
      (q : Queue D) (x : D) (xs : List D)
      → IsQueue q (x ∷ xs)
      → ((pop_now q).0 ≡ some x) × IsQueue (pop_now q).1 xs
  unfolding pop_now take_head
  pop_now-IsQueue q x xs i = by_addresses i.addresses i.linked i.distinct i.at_head i.at_tail
    where
      size_after : dec64 q.size ≡ length xs
      size_after =
          dec64_pos q.size (omega (arith, i.sized)) (omega (arith, i.sized, i.counted, i.bounded))
          ∙ omega (arith, i.sized)

      tail_after :
          (b : ℕ) (bs : List ℕ)
          → q.tail ≡ last (b ∷ bs)
          → (elim (first bs) [ none ↦ none | some _ ↦ q.tail ]) ≡ last bs
      tail_after b [] e = refl
      tail_after b (c ∷ cs) e = e

      by_addresses :
          (ps : List ℕ)
          → Linked q.heap ps (x ∷ xs)
          → Distinct ps
          → q.head ≡ first ps
          → q.tail ≡ last ps
          → ((pop_now q).0 ≡ some x) × IsQueue (pop_now q).1 xs
      by_addresses [] l d at_head at_tail = absurd l
      by_addresses (b ∷ bs) (l, ls) (d, ds) at_head at_tail =
          rw (at_head, l)
            (
              refl,
              record {
                addresses = bs;
                linked = write-Linked q.heap b freed bs xs d ls;
                distinct = ds;
                at_head = refl;
                at_tail = tail_after b bs at_tail;
                sized = size_after;
                counted = omega (arith, i.counted);
                bounded = i.bounded;
              },
            )

  -- Closing keeps what is queued.
  pub queue_close-IsQueue : (q : Queue D) (xs : List D) → IsQueue q xs → IsQueue (queue_close q) xs
  unfolding queue_close
  queue_close-IsQueue q xs i = record {
    addresses = i.addresses;
    linked = i.linked;
    distinct = i.distinct;
    at_head = i.at_head;
    at_tail = i.at_tail;
    sized = i.sized;
    counted = i.counted;
    bounded = i.bounded;
  }

  -- A worker that reports an element which it has taken.
  pub queue_task_done-IsQueue :
      (q : Queue D) (xs : List D)
      → IsQueue q xs
      → length xs < q.unfinished
      → IsQueue (queue_task_done q) xs × ((queue_task_done q).unfinished ≡ q.unfinished - 1)
  unfolding queue_task_done
  queue_task_done-IsQueue q xs i more = rw positive (
    record {
      addresses = i.addresses;
      linked = i.linked;
      distinct = i.distinct;
      at_head = i.at_head;
      at_tail = i.at_tail;
      sized = i.sized;
      counted = omega (arith, one_less);
      bounded = omega (arith, one_less, i.bounded);
    },
    one_less,
  )
    where
      positive : ltb 0 q.unfinished ≡ true
      positive = ground (arith, more)

      one_less : dec64 q.unfinished ≡ q.unfinished - 1
      one_less = dec64_pos q.unfinished (omega arith) i.bounded
