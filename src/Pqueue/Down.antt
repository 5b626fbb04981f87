-- ===== src/Pqueue/Down.antt =====
-- src/pqueue.c: `pqueue_heapify`, which sinks along the children of an index.
use mathlib.Core.List.Perm
use snapcastc.Base.{
  ℕ, zero, suc, ◌+◌, ◌-◌, ◌*◌, ◌/◌, ◌<◌, ◌≤◌, ◌≡◌, ◌⊎◌, false, true, List, Perm, arith, length,
  Bool-cases, inl, inr, ◌==◌,
}
use snapcastc.Pqueue.{Comparator, cell, higher, swap, largest, pqueue_heapify}
use snapcastc.Pqueue.Swap.{length-swap, cell-swap, swap-perm}

-- The index whose children are at `left` and `right`.
abbrev pub above : ℕ → ℕ
above c = (c - 1) / 2

module _ {A : Type 0} (order : Comparator A) where
  -- No cell is above the one that it is a child of: the order that `pqueue_heapify` restores.
  abbrev pub IsHeap : List A → Type 0
  IsHeap xs = (c : ℕ) → 0 < c → c < length xs → higher order xs c (above c) ≡ false

  -- The same, but for the edges below `i`; the children of `i` are in order with what is above `i`.
  pub record Sinking (xs : List A) (i : ℕ) : Type 0 where
    pub edges :
        (c : ℕ) → 0 < c → c < length xs → (above c ≡ i → ⊥) → higher order xs c (above c) ≡ false
    pub bridged :
        (c : ℕ) → 0 < c → c < length xs → above c ≡ i → 0 < i → higher order xs c (above i) ≡ false

  -- What the two comparisons find: an index that no child of `idx` is above.
  pub record Largest (xs : List A) (idx lrg : ℕ) : Type 0 where
    pub place :
        (lrg ≡ idx)
        ⊎ ((above lrg ≡ idx) × (0 < lrg) × (lrg < length xs) × (higher order xs lrg idx ≡ true))
    pub most : (c : ℕ) → 0 < c → c < length xs → above c ≡ idx → higher order xs c lrg ≡ false

  -- A child is at one of two indices.
  child_cases : (c idx : ℕ) → 0 < c → above c ≡ idx → (c ≡ 2 * idx + 1) ⊎ (c ≡ 2 * idx + 2)
  child_cases c idx p e = omega arith

  pub largest_place :
      (xs : List A) (idx : ℕ)
      → (largest order xs idx ≡ idx)
        ⊎ ((above (largest order xs idx) ≡ idx)
            × (0 < largest order xs idx)
            × (largest order xs idx < length xs)
            × (higher order xs (largest order xs idx) idx ≡ true))
  unfolding largest
  largest_place xs idx = ground (
    arith,
    order.asym (cell order xs idx) (cell order xs (2 * idx + 1)),
    order.trans (cell order xs (2 * idx + 2)) (cell order xs idx) (cell order xs (2 * idx + 1)),
  )

  largest_most :
      (xs : List A) (idx c : ℕ)
      → 0 < c
      → c < length xs
      → above c ≡ idx
      → higher order xs c (largest order xs idx) ≡ false
  unfolding largest
  largest_most xs idx c p q e = ground (
    arith,
    child_cases c idx p e,
    order.asym (cell order xs c) (cell order xs c),
    order.asym (cell order xs (2 * idx + 2)) (cell order xs (2 * idx + 1)),
    order.asym (cell order xs (2 * idx + 2)) (cell order xs idx),
    order.trans (cell order xs (2 * idx + 1)) (cell order xs idx) (cell order xs (2 * idx + 2)),
  )

  largest_lem : (xs : List A) (idx : ℕ) → Largest xs idx (largest order xs idx)
  largest_lem xs idx = record { place = largest_place xs idx; most = largest_most xs idx }

  module _ (xs : List A) (i j : ℕ) (hi : i < length xs) (l : Largest xs i j) (below : above j ≡ i)
      (h0 : 0 < j) (hj : j < length xs) (up : higher order xs j i ≡ true) (s : Sinking xs i) where
    sink_edges :
        (c : ℕ)
        → 0 < c
        → c < length xs
        → (above c ≡ j → ⊥)
        → higher order (swap order xs j i) c (above c) ≡ false
    sink_edges c p q e =
        rw (cell-swap order xs j i hj hi c, cell-swap order xs j i hj hi (above c))
          (ground (
            arith,
            s.edges c p q,
            s.bridged j h0 hj below,
            l.most c p q,
            order.asym (cell order xs j) (cell order xs i) up,
          ))

    sink_bridged :
        (c : ℕ)
        → 0 < c
        → c < length xs
        → above c ≡ j
        → higher order (swap order xs j i) c (above j) ≡ false
    sink_bridged c p q e =
        rw (cell-swap order xs j i hj hi c, cell-swap order xs j i hj hi (above j))
          (ground (arith, s.edges c p q))

    sink : Sinking (swap order xs j i) j
    sink = record {
      edges = λ c p q. sink_edges c p (rw (length-swap order xs j i) at q);
      bridged = λ c p q e _. sink_bridged c p (rw (length-swap order xs j i) at q) e;
    }

  -- The recursion ends with every edge in order, and with the same elements.
  pub pqueue_heapify-IsHeap :
      (fuel : ℕ) (xs : List A) (i : ℕ)
      → length xs ≤ fuel + i
      → Sinking xs i
      → IsHeap (pqueue_heapify order fuel xs i) × Perm (pqueue_heapify order fuel xs i) xs
  unfolding pqueue_heapify
  pqueue_heapify-IsHeap zero xs i f s = (λ c p q. s.edges c p q (omega arith), Perm.refl xs)
  pqueue_heapify-IsHeap (suc fuel) xs i f s =
      let l = largest_lem xs i in
      let j = largest order xs i in
      elim (Bool-cases (j == i)) [
        | inl stay ↦
            let e : j ≡ i = ground arith in
            rw stay (λ c p q. ground (arith, s.edges c p q, l.most c p q), Perm.refl xs)
        | inr go ↦ elim l.place [
          | inl e ↦ absurd (ground arith)
          | inr (below, h0, hj, up) ↦
              let hi : i < length xs = omega arith in
              let ih =
                pqueue_heapify-IsHeap fuel (swap order xs j i) j
                  (omega (arith, length-swap order xs j i)) (sink xs i j hi l below h0 hj up s) in
              rw go (ih.0, Perm.trans ih.1 (swap-perm order xs j i hj hi))
        ]
      ]
