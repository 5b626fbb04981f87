-- ===== src/Pqueue/Up.antt =====
-- src/pqueue.c: the loop of `pqueue_enqueue`, which rises along the halves of an index.
use mathlib.Core.List.Perm
use snapcastc.Base.{
  ℕ, zero, suc, ◌/◌, ◌<◌, ◌≤◌, ◌≡◌, false, true, List, Perm, arith, length, Bool-cases, inl, inr,
  ltb, ◌&&◌,
}
use snapcastc.Pqueue.{Comparator, cell, higher, swap, sift_up}
use snapcastc.Pqueue.Swap.{length-swap, cell-swap, swap-perm}

module _ {A : Type 0} (order : Comparator A) where
  -- No cell is above the cell at half its index: the order that `pqueue_enqueue` keeps.
  abbrev pub IsHalved : List A → Type 0
  IsHalved xs = (c : ℕ) → 0 < c → c < length xs → higher order xs c (c / 2) ≡ false

  -- The same, but for the edge above `i`; the cells below `i` are in order with the one above it.
  pub record Rising (xs : List A) (i : ℕ) : Type 0 where
    pub edges : (c : ℕ) → 0 < c → c < length xs → (c ≡ i → ⊥) → higher order xs c (c / 2) ≡ false
    pub bridged :
        (c : ℕ) → 0 < c → c < length xs → c / 2 ≡ i → 0 < i → higher order xs c (i / 2) ≡ false

  module _ (xs : List A) (i : ℕ) (hi : i < length xs) (h0 : 0 < i)
      (up : higher order xs i (i / 2) ≡ true) (r : Rising xs i) where
    rise_edges :
        (c : ℕ)
        → 0 < c
        → c < length xs
        → (c ≡ i / 2 → ⊥)
        → higher order (swap order xs i (i / 2)) c (c / 2) ≡ false
    rise_edges c p q s =
        rw
          (
            cell-swap order xs i (i / 2) hi (omega arith) c,
            cell-swap order xs i (i / 2) hi (omega arith) (c / 2),
          )
          (ground (
            arith,
            r.edges c p q,
            r.bridged c p q,
            order.asym (cell order xs i) (cell order xs (i / 2)) up,
            order.trans (cell order xs c) (cell order xs (i / 2)) (cell order xs i),
          ))

    rise_bridged :
        (c : ℕ)
        → 0 < c
        → c < length xs
        → c / 2 ≡ i / 2
        → 0 < i / 2
        → higher order (swap order xs i (i / 2)) c (i / 2 / 2) ≡ false
    rise_bridged c p q e s =
        rw
          (
            cell-swap order xs i (i / 2) hi (omega arith) c,
            cell-swap order xs i (i / 2) hi (omega arith) (i / 2 / 2),
          )
          (ground (
            arith,
            r.edges c p q,
            r.edges (i / 2) s (omega arith) (omega arith),
            order.trans (cell order xs c) (cell order xs (i / 2)) (cell order xs (i / 2 / 2)),
          ))

    rise : Rising (swap order xs i (i / 2)) (i / 2)
    rise = record {
      edges = λ c p q. rise_edges c p (rw (length-swap order xs i (i / 2)) at q);
      bridged = λ c p q. rise_bridged c p (rw (length-swap order xs i (i / 2)) at q);
    }

  -- The loop ends with every edge in order, and with the same elements.
  pub sift_up-IsHalved :
      (fuel : ℕ) (xs : List A) (i : ℕ)
      → i ≤ fuel
      → i < length xs
      → Rising xs i
      → IsHalved (sift_up order fuel xs i) × Perm (sift_up order fuel xs i) xs
  unfolding sift_up
  sift_up-IsHalved zero xs i f hi r = (λ c p q. r.edges c p q (omega arith), Perm.refl xs)
  sift_up-IsHalved (suc fuel) xs i f hi r =
      elim (Bool-cases (ltb 0 i && higher order xs i (i / 2))) [
        | inl on ↦
            let h0 : 0 < i = ground arith in
            let up : higher order xs i (i / 2) ≡ true = ground arith in
            let same = length-swap order xs i (i / 2) in
            let ih =
              sift_up-IsHalved fuel (swap order xs i (i / 2)) (i / 2) (omega arith)
                (omega (arith, same)) (rise xs i hi h0 up r) in
            rw on (ih.0, Perm.trans ih.1 (swap-perm order xs i (i / 2) hi (omega arith)))
        | inr off ↦ rw off (λ c p q. ground (arith, r.edges c p q), Perm.refl xs)
      ]
