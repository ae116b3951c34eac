-- ===== src/System/Progress/Counts.antt =====
-- How the operations of the dispatcher change the numbers of its queued tasks and its workers.
use gokue.Prelude.{
  ℕ, suc, ◌+◌, ◌*◌, ◌≤◌, ◌≡◌, refl, Bool, true, String, Option, List, [], ◌∷◌, length, arith,
}
use gokue.Prelude.Int.{ℤ}
use gokue.Dispatcher.{Task, Dispatcher, Effects}
use gokue.Execute.{Ended, worker_panic, broken}
use gokue.Submission.{Context, Submitted, enqueue, drop, reject_closed}
use gokue.Submission.Branches.{
  Effect, refused_ctx, refused_job, rejected, enqueued, dropped_full, dropped_ctx, blocked,
  panicked,
}
use gokue.Shutdown.{close_with_mode, await_drain, received, no_more, receive, after_execute}
use gokue.System.{System}

-- What is left to do: each queued task is to be taken and finished, each running one to be finished,
-- and each worker to exit.
unfoldable pub work_left : System → ℕ
work_left s = 2 * length s.dispatcher.tasks + length s.running + s.dispatcher.workers

pub Effect-workers :
    {d : Dispatcher} {t : Task} {r : Dispatcher × Submitted}
    → Effect d t r
    → r.0.workers ≡ d.workers
unfolding drop reject_closed enqueue
Effect-workers refused_ctx = refl
Effect-workers refused_job = refl
Effect-workers (rejected c) = refl
Effect-workers (enqueued o c r) = refl
Effect-workers (dropped_full o f) = refl
Effect-workers (dropped_ctx x o) = refl
Effect-workers (blocked o f) = refl
Effect-workers (panicked o c) = refl

pub close-workers :
    (duration : ℤ) (ctx : Option Context) (mode : String) (d : Dispatcher)
    → (close_with_mode duration ctx mode d).0.workers ≡ d.workers
unfolding close_with_mode
close-workers duration ctx mode d = ground arith

pub drain-workers :
    (p : Bool) (duration : ℤ) (ctx : Context) (d : Dispatcher)
    → (await_drain p duration ctx d).0.workers ≡ d.workers
unfolding await_drain
drain-workers p duration ctx d = ground arith

pub after_execute-shrinks :
    (panic_value : String) (d : Dispatcher) (r : Effects × Ended)
    → (length (after_execute panic_value d r).tasks ≡ length d.tasks)
      × ((after_execute panic_value d r).workers ≤ d.workers)
unfolding after_execute
after_execute-shrinks panic_value d (s, worker_panic) = (refl, omega arith)
after_execute-shrinks panic_value d (s, broken e) = (refl, omega arith)
after_execute-shrinks panic_value d (s, _) = (refl, omega arith)

pub receive-counts :
    (d d' : Dispatcher) (task : Task)
    → receive d ≡ (d', received task)
    → (length d.tasks ≡ suc (length d'.tasks)) × (d'.workers ≡ d.workers)
unfolding receive
receive-counts d d' task e = ground arith

pub no_more-counts :
    (d d' : Dispatcher)
    → receive d ≡ (d', no_more)
    → (length d'.tasks ≡ length d.tasks) × (d'.workers ≡ d.workers)
unfolding receive
no_more-counts d d' e = ground arith

pub receive-nil : (d : Dispatcher) → d.tasks ≡ [] → d.tasks_closed ≡ true → receive d ≡ (d, no_more)
unfolding receive
receive-nil d e c = ground arith

pub receive-cons :
    (d : Dispatcher) (task : Task) (rest : List Task)
    → d.tasks ≡ task ∷ rest
    → receive d ≡ (record d { tasks = rest }, received task)
unfolding receive
receive-cons d task rest e = ground arith
