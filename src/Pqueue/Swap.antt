-- ===== src/Pqueue/Swap.antt =====
-- src/pqueue.c: what an exchange of two cells does to the array.
use mathlib.Core.List.Perm
use snapcastc.Base.{
  ℕ, ◌<◌, ◌≡◌, List, Perm, arith, length, set, length-set, get_or-set, ◌==◌, if◌then◌else◌,
}
use snapcastc.Base.Perms.{set-perm}
use snapcastc.Pqueue.{Comparator, cell, swap}

module _ {A : Type 0} (order : Comparator A) (xs : List A) (i j : ℕ) where
  pub length-swap : length (swap order xs i j) ≡ length xs
  unfolding swap
  length-swap = simp length-set

  module _ (hi : i < length xs) (hj : j < length xs) where
    pub cell-swap :
        (c : ℕ)
        → cell order (swap order xs i j) c ≡ (
            if j == c then cell order xs i else if i == c then cell order xs j else cell order xs c)
    unfolding swap
    cell-swap c =
        let once = set xs i (cell order xs j) in
        rw (
          get_or-set once j c (cell order xs i) order.null (rw length-set hj),
          get_or-set xs i c (cell order xs j) order.null hi,
        )

    pub swap-perm : Perm (swap order xs i j) xs
    unfolding swap
    swap-perm =
        let once = set xs i (cell order xs j) in
        let same : cell order once j ≡ cell order xs j =
          ground (arith, get_or-set xs i j (cell order xs j) order.null hi) in
        let twice = rw same at (set-perm once j (cell order xs i) order.null (rw length-set hj)) in
        Perm.cons_inv (Perm.trans twice (set-perm xs i (cell order xs j) order.null hi))
