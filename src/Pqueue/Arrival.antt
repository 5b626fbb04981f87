-- ===== src/Pqueue/Arrival.antt =====
-- src/pqueue.c: elements that arrive in their order, and elements that do not.
use snapcastc.Base.{
  ℕ, zero, suc, ◌/◌, ◌<◌, ◌≡◌, refl, false, true, List, [], ◌∷◌, ◌++◌, arith, length, Bool-cases,
  inl, inr, leb, ◌==◌, length-append, get_or-append, get_or-append_self,
}
use snapcastc.Base.Int.{is_pos}
use snapcastc.Pqueue.{Comparator, PQueue, cell, higher, sift_up, pqueue_enqueue}
use snapcastc.Pqueue.Down.{IsHeap, above}

module _ {A : Type 0} (order : Comparator A) where
  append-IsHeap :
      (xs : List A) (x : A)
      → IsHeap order xs
      → ((i : ℕ) → i < length xs → is_pos (order.cmp x (cell order xs i)) ≡ false)
      → IsHeap order (xs ++ x ∷ [])
  append-IsHeap xs x h low c p q =
      let size = length-append xs (x ∷ []) in
      let lower = get_or-append xs (x ∷ []) (above c) order.null (omega (arith, size)) in
      elim (Bool-cases (c == length xs)) [
        | inl e ↦
            let is_last : c ≡ length xs = ground arith in
            rw (lower, is_last, get_or-append_self xs x order.null)
              (low (above (length xs)) (omega arith))
        | inr e ↦
            let inside : c < length xs = ground (arith, size) in
            rw (lower, get_or-append xs (x ∷ []) c order.null inside) (h c p inside)
      ]

  sift_up_stays :
      (fuel : ℕ) (xs : List A) (i : ℕ)
      → higher order xs i (i / 2) ≡ false
      → sift_up order fuel xs i ≡ xs
  unfolding sift_up
  sift_up_stays zero xs i h = refl
  sift_up_stays (suc fuel) xs i h = ground arith

  last_edge :
      (xs : List A) (x : A)
      → ((i : ℕ) → i < length xs → is_pos (order.cmp x (cell order xs i)) ≡ false)
      → higher order (xs ++ x ∷ []) (length xs) (length xs / 2) ≡ false
  last_edge [] x low = ground (arith, order.asym x x)
  last_edge (y ∷ xs) x low =
      let half : suc (length xs) / 2 < suc (length xs) = omega arith in
      rw
        (
          get_or-append_self (y ∷ xs) x order.null,
          get_or-append (y ∷ xs) (x ∷ []) (suc (length xs) / 2) order.null half,
        )
        (low (suc (length xs) / 2) half)

  -- An element that is not above any in the queue is put at the end, and the queue stays a heap: so
  -- it is when the chunks arrive in the order in which they are played.
  pub pqueue_enqueue_in_order :
      (q : PQueue A) (x : A)
      → IsHeap order q.elements
      → length q.elements < q.capacity
      → ((i : ℕ) → i < length q.elements → is_pos (order.cmp x (cell order q.elements i)) ≡ false)
      → ((pqueue_enqueue order q x).elements ≡ q.elements ++ x ∷ [])
        × IsHeap order (pqueue_enqueue order q x).elements
  unfolding pqueue_enqueue
  pqueue_enqueue_in_order q x h room low =
      let n = length q.elements in
      let full : leb q.capacity n ≡ false = ground arith in
      let stays = sift_up_stays n (q.elements ++ x ∷ []) n (last_edge q.elements x low) in
      rw (full, stays) (refl, append-IsHeap q.elements x h low)

  -- Four elements in a heap, and a fifth that is above the second and not above the third: it stays
  -- below the third, at the index whose parent in the heap is the second.
  pub pqueue_enqueue_breaks-IsHeap :
      (a b c d x : A) (capacity : ℕ)
      → 4 < capacity
      → is_pos (order.cmp x c) ≡ false
      → is_pos (order.cmp x b) ≡ true
      → let q : PQueue A = record { capacity = capacity; elements = a ∷ b ∷ c ∷ d ∷ [] } in
        ((pqueue_enqueue order q x).elements ≡ a ∷ b ∷ c ∷ d ∷ x ∷ [])
        × ¬ IsHeap order (pqueue_enqueue order q x).elements
  unfolding pqueue_enqueue
  pqueue_enqueue_breaks-IsHeap a b c d x capacity room low high =
      let full : leb capacity 4 ≡ false = ground arith in
      let stays = sift_up_stays 4 (a ∷ b ∷ c ∷ d ∷ x ∷ []) 4 low in
      rw (full, stays) (refl, λ heap. cc (heap 4 (omega arith) (omega arith)))
