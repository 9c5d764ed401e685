-- ===== src/Queue/Linked.antt =====
-- Linked lists in the memory of a queue.
use sy_se_ba.Prelude.{
  ℕ, ◌<◌, ◌≤◌, ◌^◌, ◌≡◌, ◌≢◌, refl, ap, ◌∙◌, sym, subst, Option, none, some, List, [], ◌∷◌, ◌++◌,
  ◌==◌, ==→eq, length, Bool-cases, inl, inr, arith,
}
use sy_se_ba.Queue.{Cell, freed, node, Heap, write, Queue, with_next}

abbrev pub first {ℓ} : {A : Type ℓ} → List A → Option A
first [] = none
first (a ∷ ps) = some a

abbrev pub last {ℓ} : {A : Type ℓ} → List A → Option A
last [] = none
last (a ∷ []) = some a
last (a ∷ b ∷ bs) = last (b ∷ bs)

abbrev pub Absent : ℕ → List ℕ → Type 0
Absent a [] = Unit
Absent a (b ∷ bs) = (b ≢ a) × Absent a bs

abbrev pub Distinct : List ℕ → Type 0
Distinct [] = Unit
Distinct (a ∷ ps) = Absent a ps × Distinct ps

Absent-last : (b t : ℕ) (bs : List ℕ) → Absent b bs → last bs ≡ some t → t ≢ b
Absent-last b t [] n e = cc
Absent-last b t (c ∷ []) (n, ns) e = λ q. n (some-injective e ∙ q)
  where
    some-injective : some c ≡ some t → c ≡ t
    some-injective e = cc
Absent-last b t (c ∷ d ∷ ds) (n, ns) e = Absent-last b t (d ∷ ds) ns e

pub last-append : (ps : List ℕ) (a : ℕ) → last (ps ++ a ∷ []) ≡ some a
last-append [] a = refl
last-append (b ∷ []) a = refl
last-append (b ∷ c ∷ cs) a = last-append (c ∷ cs) a

pub Distinct-append : (ps : List ℕ) (a : ℕ) → Distinct ps → Absent a ps → Distinct (ps ++ a ∷ [])
Distinct-append [] a d n = (_, _)
Distinct-append (b ∷ bs) a (d, ds) (n, ns) = (absent_append bs d, Distinct-append bs a ds ns)
  where
    absent_append : (cs : List ℕ) → Absent b cs → Absent b (cs ++ a ∷ [])
    absent_append [] h = ((λ e. n (sym e)), _)
    absent_append (c ∷ cs) (h, hs) = (h, absent_append cs hs)

module _ {D : Type 0} where
  -- The nodes at the addresses hold the elements, each pointing to the next one.
  abbrev pub Linked : Heap D → List ℕ → List D → Type 0
  Linked h [] [] = Unit
  Linked h [] (x ∷ xs) = ⊥
  Linked h (a ∷ ps) [] = ⊥
  Linked h (a ∷ ps) (x ∷ xs) = (h a ≡ node x (first ps)) × Linked h ps xs

  -- The queue holds these elements, in this order.
  pub record IsQueue (q : Queue D) (xs : List D) : Type 0 where
    pub addresses : List ℕ
    pub linked : Linked q.heap addresses xs
    pub distinct : Distinct addresses
    pub at_head : q.head ≡ first addresses
    pub at_tail : q.tail ≡ last addresses
    pub sized : q.size ≡ length xs
    pub counted : length xs ≤ q.unfinished
    pub bounded : q.unfinished < 2 ^ 64

  pub write_self : (h : Heap D) (a : ℕ) (c : Cell D) → write h a c a ≡ c
  write_self h a c = ground arith

  pub write_ne : (h : Heap D) (a b : ℕ) (c : Cell D) → b ≢ a → write h a c b ≡ h b
  write_ne h a b c ne = elim (Bool-cases (b == a)) [
    | inl e ↦ absurd (ne (==→eq b a e))
    | inr e ↦ rw e refl
  ]

  pub write-Linked :
      (h : Heap D) (a : ℕ) (c : Cell D) (ps : List ℕ) (xs : List D)
      → Absent a ps
      → Linked h ps xs
      → Linked (write h a c) ps xs
  write-Linked h a c [] [] n l = _
  write-Linked h a c [] (x ∷ xs) n l = l
  write-Linked h a c (b ∷ bs) [] n l = l
  write-Linked h a c (b ∷ bs) (x ∷ xs) (n, ns) (l, ls) =
      (write_ne h a b c n ∙ l, write-Linked h a c bs xs ns ls)

  freed≢node : (x : D) (next : Option ℕ) → freed ≡ node x next → ⊥
  freed≢node x next e = cc

  -- A block that is not in use is no node of the list.
  pub freed-Absent :
      (h : Heap D) (a : ℕ) (ps : List ℕ) (xs : List D) → h a ≡ freed → Linked h ps xs → Absent a ps
  freed-Absent h a [] xs f l = _
  freed-Absent h a (b ∷ bs) [] f l = absurd l
  freed-Absent h a (b ∷ bs) (x ∷ xs) f (l, ls) = (
    λ e. absurd (freed≢node x (first bs) (sym f ∙ ap h (sym e) ∙ l)),
    freed-Absent h a bs xs f ls,
  )

  -- A new node behind the last one.
  pub Linked-append :
      (h k : Heap D) (a t : ℕ) (x : D) (ps : List ℕ) (xs : List D)
      → Linked h ps xs
      → Distinct ps
      → Absent a ps
      → last ps ≡ some t
      → k a ≡ node x none
      → k t ≡ with_next (h t) (some a)
      → ((b : ℕ) → b ≢ a → b ≢ t → k b ≡ h b)
      → Linked k (ps ++ a ∷ []) (xs ++ x ∷ [])
  unfolding with_next
  Linked-append h k a t x [] xs l d n e at_a at_t rest = cc
  Linked-append h k a t x (b ∷ bs) [] l d n e at_a at_t rest = absurd l
  Linked-append h k a t x (b ∷ []) (y ∷ []) (l, ls) d n e at_a at_t rest = (
    subst (λ c. k c ≡ node y (some a)) (sym (same e))
        (at_t ∙ ap (λ c. with_next c (some a)) (ap h (sym (same e)) ∙ l)),
    (at_a, _),
  )
    where
      same : some b ≡ some t → b ≡ t
      same e = cc
  Linked-append h k a t x (b ∷ []) (y ∷ z ∷ zs) (l, ls) d n e at_a at_t rest = absurd ls
  Linked-append h k a t x (b ∷ c ∷ cs) (y ∷ ys) (l, ls) (d, ds) (n, ns) e at_a at_t rest = (
    rest b n (λ q. Absent-last b t (c ∷ cs) d e (sym q)) ∙ l,
    Linked-append h k a t x (c ∷ cs) ys ls ds ns e at_a at_t rest,
  )
