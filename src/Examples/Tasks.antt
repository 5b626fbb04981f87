-- ===== src/Examples/Tasks.antt =====
-- src/taskqueue.c: a queue of two tasks.
use snapcastc.Base.{ℕ, ◌+◌, ◌≡◌, refl, arith, Bool, Option, some}
use snapcastc.Timespec.{timespec, timespec_cmp}
use snapcastc.Taskqueue.{
  Task, Queue, nil, node, Context, taskqueue_remove, taskqueue_find, taskqueue_run,
}
use snapcastc.Taskqueue.Order.{count, IsHeap}
use snapcastc.Taskqueue.Remove.{taskqueue_remove_correct, found}
use snapcastc.Taskqueue.Timer.{IsReady, IsDistinct}
use snapcastc.Taskqueue.Timer.Run.{Behaves, Done, taskqueue_run_correct}

abbrev task : ℕ → ℕ → Task ℕ
task id sec = record { id = id; due = timespec sec 0; job = id }

abbrev two : Queue ℕ
two = node (task 1 5) (node (task 2 9) nil nil) nil

two-IsHeap : IsHeap two
unfolding timespec_cmp
two-IsHeap = (refl, tt, tt)

two-IsDistinct : IsDistinct two
two-IsDistinct id = ground arith

abbrev ready : Context ℕ
ready = record { queue = two; timer = some (timespec 5 0) }

ready-IsReady : IsReady ready
ready-IsReady = record { heap = two-IsHeap; armed = refl }

-- Functions of tasks that count their calls.
abbrev call : ℕ → ℕ → Context ℕ → Option (ℕ × Context ℕ)
call job calls ctx = some (calls + 1, ctx)

call-Behaves :
    (j calls : ℕ) (ctx : Context ℕ)
    → IsHeap ctx.queue
    → IsDistinct ctx.queue
    → Behaves (timespec 7 0) call j calls ctx
call-Behaves j calls ctx h d = record {
  w' = calls + 1;
  ctx' = ctx;
  returned = refl;
  heap = h;
  distinct = d;
  fewer = omega arith;
}

taskqueue_remove_correct_example :
    (r : Queue ℕ) × (taskqueue_remove 1 two ≡ some r)
    × IsHeap r
    × ((p : Task ℕ → Bool) → count p r + found p (taskqueue_find 1 two) ≡ count p two)
taskqueue_remove_correct_example = taskqueue_remove_correct 1 two two-IsHeap (two-IsDistinct 1)

taskqueue_run_correct_example : Done (timespec 7 0) (taskqueue_run call 2 (timespec 7 0) 0 ready)
unfolding timespec_cmp
taskqueue_run_correct_example =
    taskqueue_run_correct (timespec 7 0) call call-Behaves 2 0 ready two-IsHeap two-IsDistinct
      (omega arith)
