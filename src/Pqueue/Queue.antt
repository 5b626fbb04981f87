-- ===== src/Pqueue/Queue.antt =====
-- src/pqueue.c: the queue's operations.
use mathlib.Core.List.Perm
use snapcastc.Base.{
  ℕ, ◌/◌, ◌<◌, ◌≤◌, ◌≡◌, ◌⊎◌, refl, false, List, [], ◌∷◌, ◌++◌, Perm, arith, length, Bool-cases,
  inl, inr, ltb, leb, none, some, length-append, get_or-append,
}
use snapcastc.Base.Perms.{length-perm, append_last-perm}
use snapcastc.Pqueue.{Comparator, PQueue, cell, higher, pqueue_enqueue, pqueue_peek, pqueue_dequeue}
use snapcastc.Pqueue.Up.{IsHalved, Rising, sift_up-IsHalved}
use snapcastc.Pqueue.Down.{IsHeap}
use snapcastc.Pqueue.Elements.{
  sift_up-perm, remove_root-perm, remove_root-IsHeap, heap_root, halved_root,
}

module _ {A : Type 0} (order : Comparator A) where
  append-Rising :
      (xs : List A) (x : A) → IsHalved order xs → Rising order (xs ++ x ∷ []) (length xs)
  append-Rising xs x h = record {
    edges = λ c p q e.
        let inside : c < length xs = omega (arith, length-append xs (x ∷ [])) in
        rw
          (
            get_or-append xs (x ∷ []) c order.null inside,
            get_or-append xs (x ∷ []) (c / 2) order.null (omega arith),
          )
          (h c p inside);
    bridged = λ c p q e z. absurd (omega (arith, length-append xs (x ∷ [])));
  }

  -- The elements are those of `xs`, the array fits into its capacity, and the root is a greatest.
  pub record Holds (q : PQueue A) (xs : List A) : Type 0 where
    pub same : Perm q.elements xs
    pub fits : length q.elements ≤ q.capacity
    pub greatest : (i : ℕ) → i < length q.elements → higher order q.elements i 0 ≡ false

  -- `pqueue_enqueue` adds exactly the new element to a queue with room that is in the order of
  -- `pqueue_enqueue` itself, keeps that order and the capacity, and brings a greatest element to the
  -- front.
  pub pqueue_enqueue_correct :
      (q : PQueue A) (x : A)
      → IsHalved order q.elements
      → length q.elements < q.capacity
      → Holds (pqueue_enqueue order q x) (x ∷ q.elements)
        × IsHalved order (pqueue_enqueue order q x).elements
        × ((pqueue_enqueue order q x).capacity ≡ q.capacity)
  unfolding pqueue_enqueue
  pqueue_enqueue_correct q x h room =
      let n = length q.elements in
      let full : leb q.capacity n ≡ false = ground arith in
      let grown = q.elements ++ x ∷ [] in
      let size = length-append q.elements (x ∷ []) in
      let (halved, perm) =
        sift_up-IsHalved order n grown n (omega arith) (omega (arith, size))
          (append-Rising q.elements x h) in
      let same = Perm.trans perm (append_last-perm q.elements x) in
      rw full (
        record {
          same = same;
          fits = omega (arith, length-perm same);
          greatest = λ i p. halved_root order i _ i halved (omega arith) p;
        },
        halved,
        refl,
      )

  -- `pqueue_enqueue` in any state: a full queue stays as it is, and one with room gets the element.
  pub pqueue_enqueue_elements :
      (q : PQueue A) (x : A)
      → ((q.capacity ≤ length q.elements) × (pqueue_enqueue order q x ≡ q))
        ⊎ ((length q.elements < q.capacity)
            × Perm (pqueue_enqueue order q x).elements (x ∷ q.elements))
  unfolding pqueue_enqueue
  pqueue_enqueue_elements q x = elim (Bool-cases (leb q.capacity (length q.elements))) [
    | inl full ↦ inl (ground arith, rw full)
    | inr room ↦
        let n = length q.elements in
        inr (
          ground arith,
          rw room (
              Perm.trans
                (sift_up-perm order n (q.elements ++ x ∷ []) n
                  (omega (arith, length-append q.elements (x ∷ []))))
                (append_last-perm q.elements x)),
        )
  ]

  -- What `pqueue_dequeue` returns: nothing for an empty queue, else the first element, and a queue of
  -- the others.
  pub pqueue_dequeue_elements :
      (q : PQueue A)
      → ((q.elements ≡ []) × (pqueue_dequeue order q ≡ (none, q)))
        ⊎ ((x : A) × ((pqueue_dequeue order q).0 ≡ some x)
            × (pqueue_peek order q ≡ some x)
            × Perm (x ∷ (pqueue_dequeue order q).1.elements) q.elements)
  unfolding pqueue_dequeue pqueue_peek
  pqueue_dequeue_elements q = elim (Bool-cases (ltb (length q.elements) 1)) [
    | inl empty ↦ inl (grind arith, rw (empty, pqueue_dequeue))
    | inr more ↦ inr (
      cell order q.elements 0,
      rw (more, pqueue_dequeue),
      rw more,
      rw (more, pqueue_dequeue) (remove_root-perm order q.elements (ground arith)),
    )
  ]

  -- `pqueue_dequeue` of a heap that is not empty returns a greatest element and keeps the others in a
  -- heap.
  pub pqueue_dequeue_correct :
      (q : PQueue A)
      → IsHeap order q.elements
      → 0 < length q.elements
      → ((pqueue_dequeue order q).0 ≡ some (cell order q.elements 0))
        × ((i : ℕ) → i < length q.elements → higher order q.elements i 0 ≡ false)
        × IsHeap order (pqueue_dequeue order q).1.elements
        × Perm (cell order q.elements 0 ∷ (pqueue_dequeue order q).1.elements) q.elements
  unfolding pqueue_dequeue pqueue_peek
  pqueue_dequeue_correct q h n =
      let more : ltb (length q.elements) 1 ≡ false = ground arith in
      rw (more, pqueue_dequeue)
        (
          refl,
          λ i p. heap_root order i q.elements i h (omega arith) p,
          remove_root-IsHeap order q.elements h,
          remove_root-perm order q.elements n,
        )
