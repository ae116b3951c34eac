-- ===== src/System/Fifo.antt =====
-- The workers take the accepted tasks in the order in which they were accepted.
use mathlib.Core.List.{append_assoc, append-nil}
use gokue.Prelude.{◌≡◌, refl, sym, ap, ◌∙◌, Bool, String, Option, none, List, [], ◌∷◌, ◌++◌, arith}
use gokue.Prelude.Int.{ℤ}
use gokue.Float.{Float64}
use gokue.Dispatcher.{Task, Dispatcher, Effects}
use gokue.Execute.{Ended, worker_panic, broken}
use gokue.Submission.{
  Context, Submitted, returns, prepare, enqueue, count_sent, drop, reject_closed, submit,
  try_submit,
}
use gokue.Submission.Branches.{
  Effect, refused_ctx, refused_job, rejected, enqueued, dropped_full, dropped_ctx, blocked,
  panicked, submit-Effect, try_submit-Effect,
}
use gokue.Shutdown.{close_with_mode, await_drain, received, no_more, receive, after_execute}
use gokue.System.{
  System, ended_with, finish, Step, submits, try_submits, counts, closes, drains, takes, finishes,
  exits, Runs, start, later,
}

-- A submission that sends its task accepts it.
abbrev accepted_if : Submitted → Task → List Task
accepted_if (returns none) task = task ∷ []
accepted_if _ task = []

tasks-Effect :
    {d : Dispatcher} {t : Task} {r : Dispatcher × Submitted}
    → Effect d t r
    → r.0.tasks ≡ d.tasks ++ accepted_if r.1 t
unfolding enqueue drop reject_closed
tasks-Effect refused_ctx = sym (append-nil _)
tasks-Effect refused_job = sym (append-nil _)
tasks-Effect (rejected c) = sym (append-nil _)
tasks-Effect (enqueued o c r) = refl
tasks-Effect (dropped_full o f) = sym (append-nil _)
tasks-Effect (dropped_ctx e o) = sym (append-nil _)
tasks-Effect (blocked o f) = sym (append-nil _)
tasks-Effect (panicked o c) = sym (append-nil _)

tasks-close_with_mode :
    (duration : ℤ) (ctx : Option Context) (mode : String) (d : Dispatcher)
    → (close_with_mode duration ctx mode d).0.tasks ≡ d.tasks
unfolding close_with_mode
tasks-close_with_mode duration ctx mode d = ground arith

tasks-await_drain :
    (p : Bool) (duration : ℤ) (ctx : Context) (d : Dispatcher)
    → (await_drain p duration ctx d).0.tasks ≡ d.tasks
unfolding await_drain
tasks-await_drain p duration ctx d = ground arith

tasks-after_execute :
    (panic_value : String) (d : Dispatcher) (r : Effects × Ended)
    → (after_execute panic_value d r).tasks ≡ d.tasks
unfolding after_execute
tasks-after_execute panic_value d (x, worker_panic) = refl
tasks-after_execute panic_value d (x, broken e) = refl
tasks-after_execute panic_value d (x, _) = refl

tasks-receive :
    (d d' : Dispatcher) (task : Task) → receive d ≡ (d', received task) → d.tasks ≡ task ∷ d'.tasks
unfolding receive
tasks-receive d d' task e = ground arith

tasks-no_more : (d d' : Dispatcher) → receive d ≡ (d', no_more) → d'.tasks ≡ d.tasks
unfolding receive
tasks-no_more d d' e = ground arith

module _ (unspecified : Float64 → ℤ) where
  -- The task that a step accepts, and the one that a worker takes.
  abbrev accepted_by : {s t : System} → Step unspecified s t → List Task
  accepted_by {s} (submits p now ctx task) =
      accepted_if (submit p now ctx task s.dispatcher).1 (prepare now task)
  accepted_by {s} (try_submits now ctx task) =
      accepted_if (try_submit now ctx task s.dispatcher).1 (prepare now task)
  accepted_by _ = []

  abbrev pub taken_by : {s t : System} → Step unspecified s t → List Task
  taken_by (takes task d free e) = task ∷ []
  taken_by _ = []

  unfoldable pub accepted : {s t : System} → Runs unspecified s t → List Task
  accepted start = []
  accepted (later r st) = accepted r ++ accepted_by st

  unfoldable pub taken : {s t : System} → Runs unspecified s t → List Task
  taken start = []
  taken (later r st) = taken r ++ taken_by st

  Step-fifo :
      {s t : System} (st : Step unspecified s t)
      → s.dispatcher.tasks ++ accepted_by st ≡ taken_by st ++ t.dispatcher.tasks
  unfolding finish ended_with count_sent
  Step-fifo {s} (submits p now ctx task) =
      sym (tasks-Effect (submit-Effect p now ctx task s.dispatcher))
  Step-fifo {s} (try_submits now ctx task) =
      sym (tasks-Effect (try_submit-Effect now ctx task s.dispatcher))
  Step-fifo (counts before after name e) = append-nil _
  Step-fifo {s} (closes duration ctx mode quiet) =
      append-nil _ ∙ sym (tasks-close_with_mode duration ctx mode s.dispatcher)
  Step-fifo {s} (drains p duration ctx h) =
      append-nil _ ∙ sym (tasks-await_drain p duration ctx s.dispatcher)
  Step-fifo {s} (takes task d free e) = append-nil _ ∙ tasks-receive s.dispatcher d task e
  Step-fifo {s} (finishes before after task run panic_value e q) =
      append-nil _ ∙ sym (tasks-after_execute panic_value s.dispatcher _)
  Step-fifo {s} (exits d free e) = append-nil _ ∙ sym (tasks-no_more s.dispatcher d e)

  -- Over any interleaving of submitters, workers and closers, from any state: the tasks that were
  -- queued at first, followed by the accepted ones in the order in which their submissions sent
  -- them, are the tasks that workers took, in the order in which they took them, followed by those
  -- that are still queued. None is lost, doubled or overtaken in the queue, also while it is closed.
  pub fifo :
      (s t : System) (r : Runs unspecified s t)
      → s.dispatcher.tasks ++ accepted r ≡ taken r ++ t.dispatcher.tasks
  unfolding accepted taken
  fifo s t start = append-nil _
  fifo s t (later {t = u} r st) =
      sym (append_assoc s.dispatcher.tasks (accepted r) (accepted_by st))
      ∙ ap (λ l. l ++ accepted_by st) (fifo s u r)
      ∙ append_assoc (taken r) u.dispatcher.tasks (accepted_by st)
      ∙ ap (λ l. taken r ++ l) (Step-fifo st)
      ∙ sym (append_assoc (taken r) (taken_by st) t.dispatcher.tasks)
