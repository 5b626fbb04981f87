-- ===== src/Taskqueue/Timer.antt =====
-- src/taskqueue.c: the operations on the queue together with its timer, and the loop that runs the
-- tasks that are due.
pub mod Run
use snapcastc.Base.{
  ◌>>=◌, ℕ, ◌+◌, ◌≤◌, ◌==◌, ◌≡◌, refl, sym, ap, ◌∙◌, Bool, true, false, Option, none, some, arith,
  Bool-cases, inl, inr, ◌⊎◌, ◌||◌, if◌then◌else◌, Option-cases,
}
use snapcastc.Base.Int.{is_neg, is_pos}
use snapcastc.Timespec.{Timespec, timespec_cmp}
use snapcastc.Timespec.Cmp.{same_due}
use snapcastc.Taskqueue.{
  Task, Queue, nil, node, Context, taskqueue_insert, taskqueue_remove, taskqueue_find,
  taskqueue_schedule, schedule_at, settime, post_task, drop_task, reschedule_task, reinsert,
}
use snapcastc.Taskqueue.Order.{one, count, IsHeap, Returns}
use snapcastc.Taskqueue.Remove.{taskqueue_insert_correct, taskqueue_remove_correct, found}

module _ {J : Type 0} where
  abbrev pub ArmedAt : Queue J → Option Timespec → Type 0
  ArmedAt nil timer = Unit
  ArmedAt (node t children next) timer = timer ≡ some t.due

  -- The timer is set for the task at the head of the queue.
  abbrev pub IsArmed : Context J → Type 0
  IsArmed ctx = ArmedAt ctx.queue ctx.timer

  -- No two tasks of the queue have one address.
  abbrev pub IsDistinct : Queue J → Type 0
  IsDistinct q = (id : ℕ) → count (λ u. u.id == id) q ≤ 1

  schedule_at-armed : (q : Queue J) (ctx : Context J) → ArmedAt q (schedule_at q ctx).timer
  unfolding schedule_at
  schedule_at-armed nil ctx = tt
  schedule_at-armed (node t c n) ctx = refl

  schedule_at-queue : (q : Queue J) (ctx : Context J) → (schedule_at q ctx).queue ≡ ctx.queue
  unfolding schedule_at
  schedule_at-queue nil ctx = refl
  schedule_at-queue (node t c n) ctx = refl

  pub schedule-queue : (ctx : Context J) → (taskqueue_schedule ctx).queue ≡ ctx.queue
  unfolding taskqueue_schedule
  schedule-queue ctx = schedule_at-queue ctx.queue ctx

  pub schedule-IsArmed : (ctx : Context J) → IsArmed (taskqueue_schedule ctx)
  unfolding taskqueue_schedule
  schedule-IsArmed ctx = rw (schedule_at-queue ctx.queue ctx) (schedule_at-armed ctx.queue ctx)

  -- The queue is a heap, and the timer is set for its head.
  pub record IsReady (ctx : Context J) : Type 0 where
    pub heap : IsHeap ctx.queue
    pub armed : IsArmed ctx

  pub schedule-IsReady : (ctx : Context J) → IsHeap ctx.queue → IsReady (taskqueue_schedule ctx)
  schedule-IsReady ctx h = record { heap = rw (schedule-queue ctx) h; armed = schedule-IsArmed ctx }

  -- `post_task` into a heap returns, adds one task, due at the time that `settime` gives, keeps
  -- the heap, and sets the timer for the first task.
  pub post_task_correct :
      (ctx : Context J) (now : Timespec) (id timeout millisecs : ℕ) (job : J)
      → IsHeap ctx.queue
      → (ctx' : Context J) × (post_task ctx now id timeout millisecs job ≡ some ctx')
        × IsReady ctx'
        × ((p : Task J → Bool)
            → count p ctx'.queue
              ≡ one (p (record { id = id; due = settime now timeout millisecs; job = job }))
                + count p ctx.queue)
  unfolding post_task
  post_task_correct ctx now id timeout millisecs job h =
      let task : Task J = record { id = id; due = settime now timeout millisecs; job = job } in
      let r = taskqueue_insert_correct ctx.queue task h in
      let ctx' = record ctx { queue = r.queue } in
      (
        taskqueue_schedule ctx',
        rw r.returned,
        schedule-IsReady ctx' r.heap,
        λ p. rw (schedule-queue ctx') (r.counts p),
      )

  -- From a heap of tasks with distinct addresses, `drop_task` of a task that is not running takes
  -- exactly the task with the address out, if there is one, keeps the heap, and sets the timer for
  -- the first task that is left.
  pub drop_task_correct :
      (ctx : Context J) (id : ℕ)
      → IsHeap ctx.queue
      → IsDistinct ctx.queue
      → (ctx' : Context J) × (drop_task ctx false id ≡ some ctx')
        × IsReady ctx'
        × ((p : Task J → Bool)
            → count p ctx'.queue + found p (taskqueue_find id ctx.queue) ≡ count p ctx.queue)
  unfolding drop_task
  drop_task_correct ctx id h d =
      let (r, returned, heap, counts) = taskqueue_remove_correct id ctx.queue h (d id) in
      let ctx' = record ctx { queue = r } in
      (
        taskqueue_schedule ctx',
        rw returned,
        schedule-IsReady ctx' heap,
        λ p. rw (schedule-queue ctx') (counts p),
      )

  reinsert_correct :
      (ctx : Context J) (id : ℕ) (task : Task J) (due : Timespec)
      → IsReady ctx
      → IsDistinct ctx.queue
      → taskqueue_find id ctx.queue ≡ some task
      → (ctx' : Context J) × (reinsert ctx id task due ≡ some (ctx', true))
        × IsReady ctx'
        × ((p : Task J → Bool)
            → count p ctx'.queue + one (p task)
              ≡ one (p (record task { due = due })) + count p ctx.queue)
  unfolding reinsert
  reinsert_correct ctx id task due ready d e =
      elim (Bool-cases (is_neg (timespec_cmp due task.due) || is_pos (timespec_cmp due task.due))) [
        | inl moved ↦
            let (r, returned, heap, counts) =
              taskqueue_remove_correct id ctx.queue ready.heap (d id) in
            let i = taskqueue_insert_correct r (record task { due = due }) heap in
            let ctx' = record ctx { queue = i.queue } in
            let gone : (p : Task J → Bool) → count p r + one (p task) ≡ count p ctx.queue =
              λ p. rw e at (counts p) in
            (
              taskqueue_schedule ctx',
              rw (moved, returned, i.returned),
              schedule-IsReady ctx' i.heap,
              λ p. rw (schedule-queue ctx') (omega (arith, i.counts p, gone p)),
            )
        | inr same ↦
            let e' : due ≡ task.due = same_due due task.due same in
            (ctx, rw same, ready, λ p. rw e' (omega arith))
      ]

  -- With distinct addresses in a heap and the timer set for its first task, `reschedule_task` of a
  -- task in the queue returns true, changes only the time at which this task is due, and keeps the
  -- heap and the timer so.
  pub reschedule_task_correct :
      (ctx : Context J) (now : Timespec) (id timeout millisecs : ℕ) (task : Task J)
      → IsReady ctx
      → IsDistinct ctx.queue
      → taskqueue_find id ctx.queue ≡ some task
      → (ctx' : Context J) × (reschedule_task ctx now id timeout millisecs ≡ some (ctx', true))
        × IsReady ctx'
        × ((p : Task J → Bool)
            → count p ctx'.queue + one (p task)
              ≡ one (p (record task { due = settime now timeout millisecs })) + count p ctx.queue)
  unfolding reschedule_task
  reschedule_task_correct ctx now id timeout millisecs task ready d e =
      rw (e, reschedule_task)
        (reinsert_correct ctx id task (settime now timeout millisecs) ready d e)
