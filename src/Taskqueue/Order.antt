-- ===== src/Taskqueue/Order.antt =====
-- src/taskqueue.c: the order of the pairing heap, and how often it holds a task.
use snapcastc.Base.{ℕ, ◌+◌, ◌≡◌, Bool, if◌then◌else◌, Option, some}
use snapcastc.Timespec.{Timespec}
use snapcastc.Timespec.Cmp.{NotAfter, NotAfter-trans, NotAfter-refl}
use snapcastc.Taskqueue.{Task, Queue, nil, node}

abbrev pub one : Bool → ℕ
one b = if b then 1 else 0

module _ {J : Type 0} where
  -- How many tasks of the queue pass a test. Two queues hold the same tasks, as often, where this
  -- agrees for every test.
  abbrev pub count : (Task J → Bool) → Queue J → ℕ
  count p nil = 0
  count p (node t children next) = one (p t) + count p children + count p next

  abbrev pub All : (Task J → Type 0) → Queue J → Type 0
  All P nil = Unit
  All P (node t children next) = P t × All P children × All P next

  -- Nothing in the queue is due before `d`, nor a child before its parent.
  abbrev pub Ordered : Timespec → Queue J → Type 0
  Ordered d nil = Unit
  Ordered d (node t children next) = NotAfter d t.due × Ordered t.due children × Ordered d next

  -- What hangs at the head of a queue: at most one element, with what is below it in order.
  abbrev pub IsHeap : Queue J → Type 0
  IsHeap nil = Unit
  IsHeap (node t children nil) = Ordered t.due children
  IsHeap (node t children (node u below next)) = ⊥

  pub Ordered-mono : (d e : Timespec) (q : Queue J) → NotAfter e d → Ordered d q → Ordered e q
  Ordered-mono d e nil h o = tt
  Ordered-mono d e (node t children next) h o =
      (NotAfter-trans e d t.due h o.0, o.1, Ordered-mono d e next h o.2)

  pub Ordered-All : (d : Timespec) (q : Queue J) → Ordered d q → All (λ u. NotAfter d u.due) q
  Ordered-All d nil o = tt
  Ordered-All d (node t children next) o =
      (o.0, Ordered-All d children (Ordered-mono t.due d children o.0 o.1), Ordered-All d next o.2)

  -- No task of a heap is due before the one at its head.
  pub head-first :
      (t : Task J) (children : Queue J)
      → IsHeap (node t children nil)
      → All (λ u. NotAfter t.due u.due) (node t children nil)
  head-first t children h = (NotAfter-refl t.due, Ordered-All t.due children h, tt)

  -- The call returns a heap in which every test counts what `n` says.
  pub record Returns (n : (Task J → Bool) → ℕ) (r : Option (Queue J)) : Type 0 where
    pub queue : Queue J
    pub returned : r ≡ some queue
    pub heap : IsHeap queue
    pub counts : (p : Task J → Bool) → count p queue ≡ n p
