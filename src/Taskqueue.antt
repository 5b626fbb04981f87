-- ===== src/Taskqueue.antt =====
-- src/taskqueue.c and taskqueue.h: the tasks in a pairing heap, the timer, and the loop that runs
-- what is due.
-- A `Queue` is the C structure read along its two pointers: a task, its children, its next sibling.
-- The pointer `pprev` says where an element hangs, and is not NULL exactly while it hangs in a queue:
-- here a position in the tree, found by the task's address `id`. `none` is a call of `exit_bug`.
pub mod Order
pub mod Merge
pub mod Remove
pub mod Timer
use snapcastc.Base.{
  ℕ, zero, suc, ◌+◌, ◌*◌, ◌==◌, Bool, true, false, ◌&&◌, ◌||◌, List, [], ◌∷◌, ◌++◌, Option, none,
  some, if◌then◌else◌, ◌>>=◌,
}
use snapcastc.Base.Int.{is_neg, is_pos}
use snapcastc.Timespec.{Timespec, timespec, time_add, timespec_cmp}

-- `job` stands for the function, the cleanup function and their argument.
pub record Task (J : Type 0) : Type 0 where
  pub id : ℕ
  pub due : Timespec
  pub job : J

pub data Queue (J : Type 0) : Type 0 where
  nil : Queue J
  node : Task J → Queue J → Queue J → Queue J

pub settime : Timespec → ℕ → ℕ → Timespec
settime now timeout millisecs = time_add now (timespec timeout (millisecs * 1000000))

module _ {J : Type 0} where
  pub taskqueue_merge : Queue J → Queue J → Option (Queue J)
  taskqueue_merge nil queue2 = none
  taskqueue_merge (node t children (node u below next)) queue2 = none
  taskqueue_merge (node t children nil) nil = some (node t children nil)
  taskqueue_merge (node t children nil) (node u below (node v w next)) = none
  taskqueue_merge (node t children nil) (node u below nil) =
      if is_neg (timespec_cmp t.due u.due)
      then some (node t (node u below children) nil)
      else some (node u (node t children below) nil)

  pub taskqueue_merge_pairs : Queue J → Option (Queue J)
  taskqueue_merge_pairs nil = some nil
  taskqueue_merge_pairs (node t children nil) = some (node t children nil)
  taskqueue_merge_pairs (node t children (node u below queue2)) = do
    pair ← taskqueue_merge (node t children nil) (node u below nil)
    rest ← taskqueue_merge_pairs queue2
    taskqueue_merge pair rest

  pub taskqueue_insert : Queue J → Task J → Option (Queue J)
  taskqueue_insert queue elem = taskqueue_merge (node elem nil nil) queue

  -- `taskqueue_link`: the element goes in front of what hangs at the position.
  pub taskqueue_link : Queue J → Queue J → Option (Queue J)
  taskqueue_link queue nil = some queue
  taskqueue_link queue (node t children nil) = some (node t children queue)
  taskqueue_link queue (node t children (node u below next)) = none

  -- `taskqueue_remove` of the element with this address: its siblings move up, and its children,
  -- merged into one element, take its place. Without such an element it does nothing.
  pub taskqueue_remove : ℕ → Queue J → Option (Queue J)
  taskqueue_remove id nil = some nil
  taskqueue_remove id (node t children next) =
      let unlinked = taskqueue_merge_pairs children >>= λ merged. taskqueue_link next merged in
      let deeper = do
        children' ← taskqueue_remove id children
        next' ← taskqueue_remove id next
        some (node t children' next')
      in if t.id == id then unlinked else deeper

  unfoldable pub taskqueue_find : ℕ → Queue J → Option (Task J)
  taskqueue_find id nil = none
  taskqueue_find id (node t children next) =
      if t.id == id
      then some t
      else (elim (taskqueue_find id children) [ some u ↦ some u | none ↦ taskqueue_find id next ])

-- `taskqueue_ctx`: the queue, and the time for which the timer is set.
pub record Context (J : Type 0) : Type 0 where
  pub queue : Queue J
  pub timer : Option Timespec

module _ {J : Type 0} where
  pub taskqueue_init : Context J
  taskqueue_init = record { queue = nil; timer = none }

  pub schedule_at : Queue J → Context J → Context J
  schedule_at nil ctx = ctx
  schedule_at (node t children next) ctx = record ctx { timer = some t.due }

  pub taskqueue_schedule : Context J → Context J
  unfolding schedule_at
  taskqueue_schedule ctx = schedule_at ctx.queue ctx

  -- The task is allocated at the address `id`, at the time `now`.
  pub post_task : Context J → Timespec → ℕ → ℕ → ℕ → J → Option (Context J)
  unfolding taskqueue_insert taskqueue_schedule settime
  post_task ctx now id timeout millisecs job = do
    queue ←
        taskqueue_insert ctx.queue
          (record { id = id; due = settime now timeout millisecs; job = job })
    some (taskqueue_schedule (record ctx { queue = queue }))

  -- A running task is left alone: it is freed after it has run.
  pub drop_task : Context J → Bool → ℕ → Option (Context J)
  unfolding taskqueue_remove taskqueue_schedule
  drop_task ctx running id = if running then some ctx else (do
    queue ← taskqueue_remove id ctx.queue
    some (taskqueue_schedule (record ctx { queue = queue })))

  reinsert : Context J → ℕ → Task J → Timespec → Option (Context J × Bool)
  reinsert ctx id task due =
      if is_neg (timespec_cmp due task.due) || is_pos (timespec_cmp due task.due)
      then (do
        removed ← taskqueue_remove id ctx.queue
        queue ← taskqueue_insert removed (record task { due = due })
        some (taskqueue_schedule (record ctx { queue = queue }), true))
      else some (ctx, true)

  -- Changes the timeout of a task, unless it is not in the queue (any more).
  pub reschedule_task : Context J → Timespec → ℕ → ℕ → ℕ → Option (Context J × Bool)
  unfolding taskqueue_find reinsert settime
  reschedule_task ctx now id timeout millisecs = elim (taskqueue_find id ctx.queue) [
    | none ↦ some (ctx, false)
    | some task ↦ reinsert ctx id task (settime now timeout millisecs)
  ]

-- The loop of `taskqueue_run`. A task's functions may do anything to the queue and the rest of the
-- program: they are the parameter `call`. `none` is a call of `exit_bug`, or that the fuel ran out.
module _ {J W : Type 0} (call : J → W → Context J → Option (W × Context J)) where
  -- One round: what is done with the first element, and then with the rest of the rounds.
  pub run_first :
      (W → Context J → Option (W × Context J))
      → Timespec
      → Queue J
      → W
      → Context J
      → Option (W × Context J)
  run_first rest now nil w ctx = some (w, ctx)
  run_first rest now (node task children next) w ctx =
      if is_pos (timespec_cmp task.due now) then some (w, ctx) else (do
        queue ← taskqueue_remove task.id ctx.queue
        (w', ctx') ← call task.job w (record ctx { queue = queue })
        rest w' ctx')

  pub run_due : ℕ → Timespec → W → Context J → Option (W × Context J)
  unfolding run_first
  run_due zero now w ctx = none
  run_due (suc fuel) now w ctx = run_first (run_due fuel now) now ctx.queue w ctx

  -- An empty queue is left alone; else the loop runs and the timer is set again.
  pub run_unless_empty : Queue J → Option (W × Context J) → W → Context J → Option (W × Context J)
  unfolding taskqueue_schedule
  run_unless_empty nil ran w ctx = some (w, ctx)
  run_unless_empty (node task children next) ran w ctx =
      ran >>= λ (w', ctx'). some (w', taskqueue_schedule ctx')

  pub taskqueue_run : ℕ → Timespec → W → Context J → Option (W × Context J)
  unfolding run_due run_unless_empty
  taskqueue_run fuel now w ctx = run_unless_empty ctx.queue (run_due fuel now w ctx) w ctx
