-- ===== src/Taskqueue/Merge.antt =====
-- src/taskqueue.c: merging under the order of the heap.
use snapcastc.Base.{ℕ, ◌+◌, ◌≡◌, refl, ap, Bool, true, arith, Bool-cases, inl, inr}
use snapcastc.Base.Int.{is_neg}
use snapcastc.Timespec.{Timespec, timespec_cmp}
use snapcastc.Timespec.Cmp.{is_neg-NotAfter, not_neg-NotAfter}
use snapcastc.Taskqueue.{Task, Queue, nil, node, taskqueue_merge, taskqueue_merge_pairs}
use snapcastc.Taskqueue.Order.{one, count, Ordered, IsHeap, Returns}

module _ {J : Type 0} where
  merge_elements :
      (t u : Task J) (c d : Queue J)
      → Ordered t.due c
      → Ordered u.due d
      → Returns
          (λ p. one (p t) + count p c + (one (p u) + count p d))
          (taskqueue_merge (node t c nil) (node u d nil))
  unfolding taskqueue_merge
  merge_elements t u c d h k = elim (Bool-cases (is_neg (timespec_cmp t.due u.due))) [
    | inl first ↦ record {
      queue = node t (node u d c) nil;
      returned = rw first;
      heap = (is_neg-NotAfter t.due u.due first, k, h);
      counts = λ p. omega arith;
    }
    | inr later ↦ record {
      queue = node u (node t c d) nil;
      returned = rw later;
      heap = (not_neg-NotAfter t.due u.due later, h, k);
      counts = λ p. omega arith;
    }
  ]

  -- `taskqueue_merge` of an element and a heap, which may be empty.
  pub merge_lem :
      (t : Task J) (c q : Queue J)
      → Ordered t.due c
      → IsHeap q
      → Returns (λ p. one (p t) + count p c + count p q) (taskqueue_merge (node t c nil) q)
  unfolding taskqueue_merge
  merge_lem t c nil h k = record {
    queue = node t c nil;
    returned = refl;
    heap = h;
    counts = λ p. omega arith;
  }
  merge_lem t c (node u d nil) h k =
      let m = merge_elements t u c d h k in
      record {
        queue = m.queue;
        returned = m.returned;
        heap = m.heap;
        counts = λ p. omega (arith, m.counts p);
      }
  merge_lem t c (node u d (node v e n)) h k = absurd k

  merge_heaps :
      (q r : Queue J) (n : (Task J → Bool) → ℕ)
      → (q ≡ nil → ⊥)
      → IsHeap q
      → IsHeap r
      → ((p : Task J → Bool) → count p q + count p r ≡ n p)
      → Returns n (taskqueue_merge q r)
  merge_heaps nil r n full h k e = absurd (full refl)
  merge_heaps (node t c nil) r n full h k e =
      let m = merge_lem t c r h k in
      record {
        queue = m.queue;
        returned = m.returned;
        heap = m.heap;
        counts = λ p. omega (arith, m.counts p, e p);
      }
  merge_heaps (node t c (node v e' x)) r n full h k e = absurd h

  -- `taskqueue_merge_pairs` of siblings that are in order never comes to `exit_bug`, and makes one
  -- heap of them all.
  pub merge_pairs_lem :
      (d : Timespec) (q : Queue J)
      → Ordered d q
      → Returns (λ p. count p q) (taskqueue_merge_pairs q)
  unfolding taskqueue_merge_pairs
  merge_pairs_lem d nil o = record { queue = nil; returned = refl; heap = tt; counts = λ p. refl }
  merge_pairs_lem d (node t c nil) o = record {
    queue = node t c nil;
    returned = refl;
    heap = o.1;
    counts = λ p. refl;
  }
  merge_pairs_lem d (node t c (node u e rest)) o =
      let pair = merge_elements t u c e o.1 o.2.1 in
      let others = merge_pairs_lem d rest o.2.2 in
      let both =
        merge_heaps pair.queue others.queue (λ p. count p (node t c (node u e rest)))
          (λ none_left. omega (arith, pair.counts (λ _. true), ap (count (λ _. true)) none_left))
          pair.heap others.heap (λ p. omega (arith, pair.counts p, others.counts p)) in
      record {
        queue = both.queue;
        returned = rw (pair.returned, others.returned) both.returned;
        heap = both.heap;
        counts = both.counts;
      }
