-- ===== src/Taskqueue/Timer/Run.antt =====
-- src/taskqueue.c: `taskqueue_run`.
use snapcastc.Base.{
  ◌>>=◌, ==_self, ℕ, zero, suc, ◌≤◌, ◌<◌, ◌==◌, ◌≡◌, subst, refl, sym, ap, ◌∙◌, Bool, true, not,
  Option, some, arith, Bool-cases, inl, inr,
}
use snapcastc.Base.Int.{is_pos}
use snapcastc.Timespec.{Timespec, timespec_cmp}
use snapcastc.Timespec.Cmp.{NotAfter, later_than}
use snapcastc.Taskqueue.{
  Task, Queue, nil, node, Context, taskqueue_find, taskqueue_schedule, run_first, run_due,
  run_unless_empty, taskqueue_run,
}
use snapcastc.Taskqueue.Order.{count, All, IsHeap, head-first}
use snapcastc.Taskqueue.Remove.{taskqueue_remove_correct}
use snapcastc.Taskqueue.Timer.{IsDistinct, schedule-queue}

module _ {J : Type 0} (now : Timespec) where
  -- The task is due.
  abbrev pub is_due : Task J → Bool
  is_due u = not (is_pos (timespec_cmp u.due now))

  none_due :
      (d : Timespec) (q : Queue J)
      → is_pos (timespec_cmp d now) ≡ true
      → All (λ u. NotAfter d u.due) q
      → count is_due q ≡ 0
  none_due d nil h a = refl
  none_due d (node t c n) h a =
      ground (arith, later_than d t.due now h, none_due d c h a.1, none_due d n h a.2)

  find_head : (t : Task J) (c : Queue J) → taskqueue_find t.id (node t c nil) ≡ some t
  unfolding taskqueue_find
  find_head t c = rw (==_self t.id)

module _ {J W : Type 0} (now : Timespec) where
  -- What the loop relies on when it calls a task's functions: they leave a heap of tasks with
  -- distinct addresses, and no more tasks that are due than they found.
  pub record Behaves (call : J → W → Context J → Option (W × Context J)) (j : J) (w : W)
      (ctx : Context J) : Type 0 where
    pub w' : W
    pub ctx' : Context J
    pub returned : call j w ctx ≡ some (w', ctx')
    pub heap : IsHeap ctx'.queue
    pub distinct : IsDistinct ctx'.queue
    pub fewer : count (is_due now) ctx'.queue ≤ count (is_due now) ctx.queue

  -- The call returns, with a heap of tasks with distinct addresses, none of them due.
  pub record Done (r : Option (W × Context J)) : Type 0 where
    pub w' : W
    pub ctx' : Context J
    pub returned : r ≡ some (w', ctx')
    pub heap : IsHeap ctx'.queue
    pub distinct : IsDistinct ctx'.queue
    pub none_left : count (is_due now) ctx'.queue ≡ 0

  module _ (call : J → W → Context J → Option (W × Context J))
      (behaves : (j : J) (w : W) (ctx : Context J)
        → IsHeap ctx.queue
        → IsDistinct ctx.queue
        → Behaves call j w ctx) where
    run_first_lem :
        (rest : W → Context J → Option (W × Context J)) (fuel : ℕ)
        → ((w : W) (ctx : Context J)
            → IsHeap ctx.queue
            → IsDistinct ctx.queue
            → count (is_due now) ctx.queue < fuel
            → Done (rest w ctx))
        → (q : Queue J) (w : W) (ctx : Context J) → q ≡ ctx.queue
        → IsHeap q
        → IsDistinct q
        → count (is_due now) q < suc fuel
        → Done (run_first call rest now q w ctx)
    unfolding run_first
    run_first_lem rest fuel ih nil w ctx e h d f = record {
      w' = w;
      ctx' = ctx;
      returned = refl;
      heap = subst IsHeap e h;
      distinct = subst IsDistinct e d;
      none_left = sym (ap (count (is_due now)) e);
    }
    run_first_lem rest fuel ih (node t c nil) w ctx e h d f =
        elim (Bool-cases (is_pos (timespec_cmp t.due now))) [
          | inl later ↦ record {
            w' = w;
            ctx' = ctx;
            returned = rw later;
            heap = subst IsHeap e h;
            distinct = subst IsDistinct e d;
            none_left =
                sym (ap (count (is_due now)) e)
                ∙ none_due now t.due (node t c nil) later (head-first t c h);
          }
          | inr due ↦
              let (r, removed, heap, counts) =
                taskqueue_remove_correct t.id (node t c nil) h (d t.id) in
              let fewer = rw (find_head now t c) at (counts (is_due now)) in
              let b =
                behaves t.job w (record ctx { queue = r }) heap
                  (λ id. omega (arith, counts (λ u. u.id == id), d id)) in
              let rest_lem = ih b.w' b.ctx' b.heap b.distinct (ground (arith, b.fewer, fewer)) in
              record {
                w' = rest_lem.w';
                ctx' = rest_lem.ctx';
                returned = rw (due, ← e, removed, b.returned) rest_lem.returned;
                heap = rest_lem.heap;
                distinct = rest_lem.distinct;
                none_left = rest_lem.none_left;
              }
        ]
    run_first_lem rest fuel ih (node t c (node u c' n)) w ctx e h d f = absurd h

    run_due_lem :
        (fuel : ℕ) (w : W) (ctx : Context J)
        → IsHeap ctx.queue
        → IsDistinct ctx.queue
        → count (is_due now) ctx.queue < fuel
        → Done (run_due call fuel now w ctx)
    unfolding run_due
    run_due_lem zero w ctx h d f = absurd (omega arith)
    run_due_lem (suc fuel) w ctx h d f =
        run_first_lem (run_due call fuel now) fuel (run_due_lem fuel) ctx.queue w ctx refl h d f

    schedule-Done :
        (q : Queue J) (ran : Option (W × Context J)) (w : W) (ctx : Context J)
        → Done ran
        → Done (ran >>= λ (w', ctx'). some (w', taskqueue_schedule ctx'))
    schedule-Done q ran w ctx r = record {
      w' = r.w';
      ctx' = taskqueue_schedule r.ctx';
      returned = rw r.returned;
      heap = rw (schedule-queue r.ctx') r.heap;
      distinct = rw (schedule-queue r.ctx') r.distinct;
      none_left = rw (schedule-queue r.ctx') r.none_left;
    }

    run_unless_empty_lem :
        (q : Queue J) (ran : Option (W × Context J)) (w : W) (ctx : Context J)
        → q ≡ ctx.queue
        → IsHeap ctx.queue
        → IsDistinct ctx.queue
        → Done ran
        → Done (run_unless_empty call q ran w ctx)
    unfolding run_unless_empty
    run_unless_empty_lem nil ran w ctx e h d r = record {
      w' = w;
      ctx' = ctx;
      returned = refl;
      heap = h;
      distinct = d;
      none_left = sym (ap (count (is_due now)) e);
    }
    run_unless_empty_lem (node t c n) ran w ctx e h d r = schedule-Done (node t c n) ran w ctx r

    -- From a heap of tasks with distinct addresses, and with tasks whose functions keep it one and
    -- leave no more tasks due than they found, `taskqueue_run` needs no more rounds than tasks are
    -- due: it returns, no task is left that is due at the time at which it started, and what is
    -- left is a heap with distinct addresses.
    pub taskqueue_run_correct :
        (fuel : ℕ) (w : W) (ctx : Context J)
        → IsHeap ctx.queue
        → IsDistinct ctx.queue
        → count (is_due now) ctx.queue < fuel
        → Done (taskqueue_run call fuel now w ctx)
    unfolding taskqueue_run
    taskqueue_run_correct fuel w ctx h d f =
        run_unless_empty_lem ctx.queue (run_due call fuel now w ctx) w ctx refl h d
          (run_due_lem fuel w ctx h d f)
