-- ===== src/Pqueue.antt =====
-- src/pqueue.c and pqueue.h: a bounded priority queue in an array.
-- The list `elements` holds the array's first `size` cells; the cells behind them are never read.
-- The comparator, which the structure holds as a pointer, is the section's parameter.
pub mod Swap
pub mod Up
pub mod Down
pub mod Elements
pub mod Queue
pub mod Arrival
use snapcastc.Base.{
  ℕ, zero, suc, ◌+◌, ◌*◌, ◌-◌, ◌/◌, ◌≡◌, Bool, true, false, ◌&&◌, not, List, [], ◌∷◌, ◌++◌, Option,
  none, some, length, get_or, set, take, ltb, leb, ◌==◌, if◌then◌else◌,
}
use snapcastc.Base.Int.{ℤ, is_pos}

-- What the queue needs of its element type: the NULL pointer, a comparator and its laws.
pub record Comparator (A : Type 0) : Type 0 where
  pub null : A
  pub cmp : A → A → ℤ
  pub asym : (a b : A) → is_pos (cmp a b) ≡ true → is_pos (cmp b a) ≡ false
  pub trans :
      (a b c : A) → is_pos (cmp a b) ≡ false → is_pos (cmp b c) ≡ false → is_pos (cmp a c) ≡ false

pub record PQueue (A : Type 0) : Type 0 where
  pub capacity : ℕ
  pub elements : List A

abbrev pub left : ℕ → ℕ
left x = 2 * x + 1

abbrev pub right : ℕ → ℕ
right x = 2 * x + 2

-- `PARENT` of the source.
abbrev pub parent : ℕ → ℕ
parent x = x / 2

unfoldable pub pqueue_new : {A : Type 0} → ℕ → PQueue A
pqueue_new capacity = record { capacity = capacity; elements = [] }

module _ {A : Type 0} (order : Comparator A) where
  -- `data[i]`
  abbrev pub cell : List A → ℕ → A
  cell xs i = get_or xs i order.null

  -- `cmp(data[i], data[j]) > 0`
  abbrev pub higher : List A → ℕ → ℕ → Bool
  higher xs i j = is_pos (order.cmp (cell xs i) (cell xs j))

  pub swap : List A → ℕ → ℕ → List A
  swap xs i j = set (set xs i (cell xs j)) j (cell xs i)

  -- The loop of `pqueue_enqueue`. The index halves, so that `i` rounds are enough.
  pub sift_up : ℕ → List A → ℕ → List A
  sift_up zero xs i = xs
  sift_up (suc fuel) xs i =
      let rise = sift_up fuel (swap xs i (parent i)) (parent i) in
      if ltb 0 i && higher xs i (parent i) then rise else xs

  unfoldable pub pqueue_enqueue : PQueue A → A → PQueue A
  unfolding sift_up swap
  pqueue_enqueue q x = if leb q.capacity (length q.elements) then q else record q {
    elements = sift_up (length q.elements) (q.elements ++ x ∷ []) (length q.elements);
  }

  unfoldable pub pqueue_peek : PQueue A → Option A
  pqueue_peek q = if ltb (length q.elements) 1 then none else some (cell q.elements 0)

  -- The index of the largest of a cell and its two children.
  pub largest : List A → ℕ → ℕ
  largest xs idx =
      let l_idx = left idx in
      let r_idx = right idx in
      let lrg_idx = if ltb l_idx (length xs) && higher xs l_idx idx then l_idx else idx in
      if ltb r_idx (length xs) && higher xs r_idx lrg_idx then r_idx else lrg_idx

  -- Each call goes to a larger index below the size.
  pub pqueue_heapify : ℕ → List A → ℕ → List A
  pqueue_heapify zero xs idx = xs
  pqueue_heapify (suc fuel) xs idx =
      let lrg_idx = largest xs idx in
      let sink = pqueue_heapify fuel (swap xs lrg_idx idx) lrg_idx in
      if not (lrg_idx == idx) then sink else xs

  -- The last element comes to the front, and the array gets shorter by one cell.
  pub remove_root : List A → List A
  unfolding pqueue_heapify largest swap
  remove_root xs =
      let last = length xs - 1 in
      let moved = take last (set xs 0 (cell xs last)) in pqueue_heapify last moved 0

  unfoldable pub pqueue_dequeue : PQueue A → Option A × PQueue A
  unfolding pqueue_peek remove_root
  pqueue_dequeue q = elim (pqueue_peek q) [
    | none ↦ (none, q)
    | some top ↦ (some top, record q { elements = remove_root q.elements })
  ]
