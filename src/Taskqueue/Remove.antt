-- ===== src/Taskqueue/Remove.antt =====
-- src/taskqueue.c: `taskqueue_insert` and `taskqueue_remove` on a whole queue.
use snapcastc.Base.{
  ◌>>=◌, ℕ, ◌+◌, ◌≤◌, ◌==◌, ◌≡◌, refl, ◌∙◌, Bool, Option, none, some, arith, Bool-cases, inl, inr,
  if◌then◌else◌, Option-cases,
}
use snapcastc.Base.Int.{is_pos}
use snapcastc.Timespec.{Timespec, timespec_cmp}
use snapcastc.Taskqueue.{
  Task, Queue, nil, node, taskqueue_merge_pairs, taskqueue_insert, taskqueue_link, taskqueue_remove,
  taskqueue_find,
}
use snapcastc.Taskqueue.Order.{one, count, Ordered, IsHeap, Returns, Ordered-mono}
use snapcastc.Taskqueue.Merge.{merge_lem, merge_pairs_lem}

module _ {J : Type 0} where
  -- `taskqueue_insert` into a heap returns a heap of its tasks and the new one.
  pub taskqueue_insert_correct :
      (q : Queue J) (t : Task J)
      → IsHeap q
      → Returns (λ p. one (p t) + count p q) (taskqueue_insert q t)
  unfolding taskqueue_insert
  taskqueue_insert_correct q t h =
      let m = merge_lem t nil q tt h in
      record {
        queue = m.queue;
        returned = m.returned;
        heap = m.heap;
        counts = λ p. omega (arith, m.counts p);
      }

  -- The task that `taskqueue_remove` takes out, as often as it passes a test.
  abbrev removed : (Task J → Bool) → ℕ → Queue J → ℕ
  removed p id nil = 0
  removed p id (node t children next) =
      if t.id == id then one (p t) else removed p id children + removed p id next

  early : Timespec → Task J → Bool
  early d u = is_pos (timespec_cmp d u.due)

  Ordered-early : (d : Timespec) (q : Queue J) → Ordered d q → count (early d) q ≡ 0
  unfolding early
  Ordered-early d nil o = refl
  Ordered-early d (node t c n) o =
      ground (arith, Ordered-early d c (Ordered-mono t.due d c o.0 o.1), Ordered-early d n o.2)

  -- The merged children of an element take its place among its siblings.
  record Removed (d : Timespec) (n : (Task J → Bool) → ℕ) (r : Option (Queue J)) : Type 0 where
    queue : Queue J
    returned : r ≡ some queue
    ordered : Ordered d queue
    counts : (p : Task J → Bool) → count p queue ≡ n p

  link_lem :
      (d : Timespec) (next merged : Queue J)
      → Ordered d next
      → IsHeap merged
      → count (early d) merged ≡ 0
      → Removed d (λ p. count p merged + count p next) (taskqueue_link next merged)
  unfolding taskqueue_link early
  link_lem d next nil o h e = record {
    queue = next;
    returned = refl;
    ordered = o;
    counts = λ p. omega arith;
  }
  link_lem d next (node t c nil) o h e = record {
    queue = node t c next;
    returned = refl;
    ordered = (ground arith, h, o);
    counts = λ p. omega arith;
  }
  link_lem d next (node t c (node u e' n)) o h e = absurd h

  unlink_lem :
      (d : Timespec) (t : Task J) (c next : Queue J)
      → Ordered d (node t c next)
      → Removed d
          (λ p. count p c + count p next)
          (taskqueue_merge_pairs c >>= λ merged. taskqueue_link next merged)
  unlink_lem d t c next o =
      let m = merge_pairs_lem t.due c o.1 in
      let none_early = Ordered-early d c (Ordered-mono t.due d c o.0 o.1) in
      let l = link_lem d next m.queue o.2 m.heap (m.counts (early d) ∙ none_early) in
      record {
        queue = l.queue;
        returned = rw m.returned l.returned;
        ordered = l.ordered;
        counts = λ p. omega (arith, l.counts p, m.counts p);
      }

  remove_lem :
      (d : Timespec) (id : ℕ) (q : Queue J)
      → Ordered d q
      → (r : Queue J) × (taskqueue_remove id q ≡ some r)
        × Ordered d r
        × ((p : Task J → Bool) → count p r + removed p id q ≡ count p q)
  unfolding taskqueue_remove
  remove_lem d id nil o = (nil, refl, tt, λ p. omega arith)
  remove_lem d id (node t c next) o = elim (Bool-cases (t.id == id)) [
    | inl here ↦
        let u = unlink_lem d t c next o in
        (u.queue, rw here u.returned, u.ordered, λ p. rw here (omega (arith, u.counts p)))
    | inr not_here ↦
        let (c', back, ordered, counts) = remove_lem t.due id c o.1 in
        let (n', back', ordered', counts') = remove_lem d id next o.2 in
        (
          node t c' n',
          rw (not_here, back, back'),
          (o.0, ordered, ordered'),
          λ p. rw not_here (omega (arith, counts p, counts' p)),
        )
  ]

  has : ℕ → Task J → Bool
  has id u = u.id == id

  find_none : (id : ℕ) (q : Queue J) → taskqueue_find id q ≡ none → count (has id) q ≡ 0
  unfolding taskqueue_find has
  find_none id nil e = refl
  find_none id (node t c n) e = ground (arith, find_none id c, find_none id n)

  find_some :
      (id : ℕ) (q : Queue J) (t : Task J) → taskqueue_find id q ≡ some t → 1 ≤ count (has id) q
  unfolding taskqueue_find has
  find_some id nil t e = cc
  find_some id (node u c n) t e = ground (arith, find_some id c t, find_some id n t)

  removed_absent :
      (p : Task J → Bool) (id : ℕ) (q : Queue J) → count (has id) q ≡ 0 → removed p id q ≡ 0
  unfolding has
  removed_absent p id nil h = refl
  removed_absent p id (node t c n) h = ground (arith, removed_absent p id c, removed_absent p id n)

  removed_found :
      (p : Task J → Bool) (id : ℕ) (q : Queue J) (t : Task J)
      → count (has id) q ≤ 1
      → taskqueue_find id q ≡ some t
      → removed p id q ≡ one (p t)
  unfolding taskqueue_find has
  removed_found p id nil t h e = cc
  removed_found p id (node u c n) t h e = ground (
    arith,
    removed_found p id c t,
    removed_found p id n t,
    removed_absent p id c,
    removed_absent p id n,
    find_none id c,
    find_some id c t,
    find_some id n t,
  )

  -- Whether the task that was found, if any, passes a test.
  abbrev pub found : (Task J → Bool) → Option (Task J) → ℕ
  found p none = 0
  found p (some t) = one (p t)

  removed-found :
      (p : Task J → Bool) (id : ℕ) (q : Queue J)
      → count (has id) q ≤ 1
      → removed p id q ≡ found p (taskqueue_find id q)
  removed-found p id q h = elim (Option-cases (taskqueue_find id q)) [
    | inl e ↦ rw e (removed_absent p id q (find_none id q e))
    | inr (t, e) ↦ rw e (removed_found p id q t h e)
  ]

  -- At the head of the queue the result is one element again, or nothing.
  head_lem : (merged : Queue J) → IsHeap merged → taskqueue_link nil merged ≡ some merged
  unfolding taskqueue_link
  head_lem nil h = refl
  head_lem (node t c nil) h = refl
  head_lem (node t c (node u e n)) h = absurd h

  remove-IsHeap :
      (id : ℕ) (q : Queue J)
      → IsHeap q
      → (r : Queue J) × (taskqueue_remove id q ≡ some r)
        × IsHeap r
        × ((p : Task J → Bool) → count p r + removed p id q ≡ count p q)
  unfolding taskqueue_remove
  remove-IsHeap id nil h = (nil, refl, tt, λ p. omega arith)
  remove-IsHeap id (node t c (node u e n)) h = absurd h
  remove-IsHeap id (node t c nil) h = elim (Bool-cases (t.id == id)) [
    | inl here ↦
        let m = merge_pairs_lem t.due c h in
        (
          m.queue,
          rw (here, m.returned) (head_lem m.queue m.heap),
          m.heap,
          λ p. rw here (omega (arith, m.counts p)),
        )
    | inr not_here ↦
        let (c', back, ordered, counts) = remove_lem t.due id c h in
        (node t c' nil, rw (not_here, back), ordered, λ p. rw not_here (omega (arith, counts p)))
  ]

  -- `taskqueue_remove` from a heap in which at most one task has the address: it never comes to
  -- `exit_bug`, what is left is a heap, and exactly the task with the address, if there is one, is
  -- gone.
  pub taskqueue_remove_correct :
      (id : ℕ) (q : Queue J)
      → IsHeap q
      → count (λ u. u.id == id) q ≤ 1
      → (r : Queue J) × (taskqueue_remove id q ≡ some r)
        × IsHeap r
        × ((p : Task J → Bool) → count p r + found p (taskqueue_find id q) ≡ count p q)
  unfolding has
  taskqueue_remove_correct id q h distinct =
      let (r, returned, heap, counts) = remove-IsHeap id q h in
      (r, returned, heap, λ p. omega (arith, counts p, removed-found p id q distinct))
