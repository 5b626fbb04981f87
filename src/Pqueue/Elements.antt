-- ===== src/Pqueue/Elements.antt =====
-- src/pqueue.c: the elements under the loops, and the roots of the two orders.
use mathlib.Core.List.Perm
use snapcastc.Base.{
  ℕ, zero, suc, ◌-◌, ◌/◌, ◌<◌, ◌≤◌, ◌≡◌, ◌∙◌, false, List, ◌∷◌, Perm, arith, length, Bool-cases,
  inl, inr, ltb, ◌&&◌, ◌==◌, if◌then◌else◌, set, take, length-set, length-take, get_or-take,
  get_or-set,
}
use snapcastc.Base.Perms.{set-perm, take_last-perm}
use snapcastc.Pqueue.{Comparator, cell, higher, swap, sift_up, largest, pqueue_heapify, remove_root}
use snapcastc.Pqueue.Swap.{length-swap, swap-perm}
use snapcastc.Pqueue.Up.{IsHalved}
use snapcastc.Pqueue.Down.{IsHeap, Sinking, above, largest_place, pqueue_heapify-IsHeap}

module _ {A : Type 0} (order : Comparator A) where
  pub sift_up-perm :
      (fuel : ℕ) (xs : List A) (i : ℕ) → i < length xs → Perm (sift_up order fuel xs i) xs
  unfolding sift_up
  sift_up-perm zero xs i h = Perm.refl xs
  sift_up-perm (suc fuel) xs i h = elim (Bool-cases (ltb 0 i && higher order xs i (i / 2))) [
    | inl on ↦
        let same = length-swap order xs i (i / 2) in
        rw on (
          Perm.trans (sift_up-perm fuel (swap order xs i (i / 2)) (i / 2) (omega (arith, same)))
            (swap-perm order xs i (i / 2) h (omega arith)))
    | inr off ↦ rw off (Perm.refl xs)
  ]

  pub pqueue_heapify-perm :
      (fuel : ℕ) (xs : List A) (i : ℕ) → Perm (pqueue_heapify order fuel xs i) xs
  unfolding pqueue_heapify
  pqueue_heapify-perm zero xs i = Perm.refl xs
  pqueue_heapify-perm (suc fuel) xs i =
      let j = largest order xs i in
      elim (Bool-cases (j == i)) [
        | inl stay ↦ rw stay (Perm.refl xs)
        | inr go ↦ elim (largest_place order xs i) [
          | inl e ↦ absurd (ground arith)
          | inr (below, h0, hj, up) ↦ rw go (
              Perm.trans (pqueue_heapify-perm fuel (swap order xs j i) j)
                (swap-perm order xs j i hj (omega arith)))
        ]
      ]

  pub moved : List A → List A
  moved xs = take (length xs - 1) (set xs 0 (cell order xs (length xs - 1)))

  pub length-moved : (xs : List A) → length (moved xs) ≡ length xs - 1
  unfolding moved
  length-moved xs = omega (
    arith,
    length-take (length xs - 1) (set xs 0 (cell order xs (length xs - 1))),
    length-set xs 0 (cell order xs (length xs - 1)),
  )

  pub cell-moved :
      (xs : List A) (c : ℕ)
      → c < length xs - 1
      → cell order (moved xs) c
        ≡ (if 0 == c then cell order xs (length xs - 1) else cell order xs c)
  unfolding moved
  cell-moved xs c h =
      let last = cell order xs (length xs - 1) in
      get_or-take (length xs - 1) (set xs 0 last) c order.null h
      ∙ get_or-set xs 0 c last order.null (omega arith)

  pub moved-perm : (xs : List A) → 0 < length xs → Perm (cell order xs 0 ∷ moved xs) xs
  unfolding moved
  moved-perm xs h =
      let n = length xs - 1 in
      let last = cell order xs n in
      let ys = set xs 0 last in
      let same : cell order ys n ≡ last = ground (arith, get_or-set xs 0 n last order.null h) in
      let split = take_last-perm n ys order.null (omega (arith, length-set xs 0 last)) in
      let all = Perm.trans (Perm.cons (cell order xs 0) split) (set-perm xs 0 last order.null h) in
      let front = Perm.swap (cell order xs 0) last (moved xs) in
      Perm.cons_inv (Perm.trans front (rw same at all))

  -- Taking the root off an array keeps all the other elements.
  pub remove_root-perm :
      (xs : List A) → 0 < length xs → Perm (cell order xs 0 ∷ remove_root order xs) xs
  unfolding remove_root moved
  remove_root-perm xs h =
      Perm.trans (Perm.cons _ (pqueue_heapify-perm (length xs - 1) (moved xs) 0)) (moved-perm xs h)

  pub moved-Sinking : (xs : List A) → IsHeap order xs → Sinking order (moved xs) 0
  moved-Sinking xs h = record {
    edges = λ c p q e.
        let inside : c < length xs - 1 = omega (arith, length-moved xs) in
        rw (cell-moved xs c inside, cell-moved xs (above c) (omega arith)) (ground (arith, h c));
    bridged = λ c p q e z. absurd (omega arith);
  }

  pub remove_root-IsHeap : (xs : List A) → IsHeap order xs → IsHeap order (remove_root order xs)
  unfolding remove_root moved
  remove_root-IsHeap xs h =
      (pqueue_heapify-IsHeap order (length xs - 1) (moved xs) 0 (omega (arith, length-moved xs))
        (moved-Sinking xs h)).0

  -- The root of a heap is a greatest element.
  pub heap_root :
      (fuel : ℕ) (xs : List A) (i : ℕ)
      → IsHeap order xs
      → i ≤ fuel
      → i < length xs
      → higher order xs i 0 ≡ false
  heap_root zero xs i h f p = ground (arith, order.asym (cell order xs 0) (cell order xs 0))
  heap_root (suc fuel) xs i h f p = ground (
    arith,
    h i,
    heap_root fuel xs (above i) h,
    order.asym (cell order xs 0) (cell order xs 0),
    order.trans (cell order xs i) (cell order xs (above i)) (cell order xs 0),
  )

  pub halved_root :
      (fuel : ℕ) (xs : List A) (i : ℕ)
      → IsHalved order xs
      → i ≤ fuel
      → i < length xs
      → higher order xs i 0 ≡ false
  halved_root zero xs i h f p = ground (arith, order.asym (cell order xs 0) (cell order xs 0))
  halved_root (suc fuel) xs i h f p = ground (
    arith,
    h i,
    halved_root fuel xs (i / 2) h,
    order.asym (cell order xs 0) (cell order xs 0),
    order.trans (cell order xs i) (cell order xs (i / 2)) (cell order xs 0),
  )
