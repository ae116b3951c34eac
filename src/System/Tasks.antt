-- ===== src/System/Tasks.antt =====
-- What the dispatcher guarantees about the tasks that its workers receive.
use mathlib.Core.Path.{subst}
use gokue.Prelude.{
  ◌≡◌, ◌≢◌, refl, sym, ap, ◌∙◌, Bool, true, false, String, Option, none, some, ◌∷◌, inl, inr, All,
  All-append, All-split, Bool-cases, eq_iff, arith, is_nil,
}
use gokue.Prelude.Int.{ℤ}
use gokue.Float.{Float64}
use gokue.Config.{Config}
use gokue.Stats.{Collector}
use gokue.Job.Naming.{name_of-ne-empty}
use gokue.Dispatcher.{Task, Dispatcher, Effects, new_dispatcher}
use gokue.Execute.{Ended, completed}
use gokue.Submission.{
  Context, Submitted, prepare, enqueue, count_sent, drop, reject_closed, submit, try_submit,
}
use gokue.Submission.Branches.{
  Effect, refused_ctx, refused_job, rejected, enqueued, dropped_full, dropped_ctx, blocked,
  panicked, submit-Effect, try_submit-Effect,
}
use gokue.Shutdown.{close_with_mode, await_drain, received, no_more, receive, after_execute}
use gokue.System.{
  System, ended_with, finish, Step, submits, try_submits, counts, closes, drains, takes, finishes,
  exits, Reach, start, later,
}

-- A task that a worker can run and that the log can name.
abbrev pub IsReady : Task → Type 0
IsReady t = (is_nil t.job ≡ false) × (t.name ≢ "")

abbrev AllReady : Dispatcher → Type 0
AllReady d = All IsReady d.tasks

prepare-job : (now : ℤ) (t : Task) → (prepare now t).job ≡ t.job
unfolding prepare
prepare-job now t = ground arith

prepare-name : (now : ℤ) (t : Task) → (prepare now t).name ≢ ""
unfolding prepare
prepare-name now t e = ground (arith, eq_iff t.name "", name_of-ne-empty t.job)

prepare-IsReady : (now : ℤ) (t : Task) → is_nil t.job ≡ false → IsReady (prepare now t)
prepare-IsReady now t j = (ap is_nil (prepare-job now t) ∙ j, prepare-name now t)

Effect-AllReady :
    {d : Dispatcher} {t : Task} {r : Dispatcher × Submitted}
    → Effect d t r
    → IsReady t
    → AllReady d
    → AllReady r.0
unfolding drop reject_closed enqueue
Effect-AllReady refused_ctx j v = v
Effect-AllReady refused_job j v = v
Effect-AllReady (rejected c) j v = v
Effect-AllReady {d} {t} (enqueued o c r) j v = All-append IsReady d.tasks t v j
Effect-AllReady (dropped_full o f) j v = v
Effect-AllReady (dropped_ctx x o) j v = v
Effect-AllReady (blocked o f) j v = v
Effect-AllReady (panicked o c) j v = v

submit_nil :
    (p : Bool) (now : ℤ) (ctx : Option Context) (task : Task) (d : Dispatcher)
    → is_nil task.job ≡ true
    → (submit p now ctx task d).0 ≡ d
unfolding submit
submit_nil p now none task d h = refl
submit_nil p now (some ctx) task d h = rw h

try_submit_nil :
    (now : ℤ) (ctx : Option Context) (task : Task) (d : Dispatcher)
    → is_nil task.job ≡ true
    → (try_submit now ctx task d).0 ≡ d
unfolding try_submit
try_submit_nil now none task d h = refl
try_submit_nil now (some ctx) task d h = rw h

-- Both submissions: a nil job changes nothing, and another job is prepared.
submitted-AllReady :
    (now : ℤ) (task : Task) (d : Dispatcher) (r : Dispatcher × Submitted)
    → (is_nil task.job ≡ true → r.0 ≡ d)
    → Effect d (prepare now task) r
    → AllReady d
    → AllReady r.0
submitted-AllReady now task d r same e v = elim (Bool-cases (is_nil task.job)) [
  | inl h ↦ subst AllReady (sym (same h)) v
  | inr h ↦ Effect-AllReady e (prepare-IsReady now task h) v
]

close-tasks :
    (duration : ℤ) (ctx : Option Context) (mode : String) (d : Dispatcher)
    → (close_with_mode duration ctx mode d).0.tasks ≡ d.tasks
unfolding close_with_mode
close-tasks duration ctx mode d = ground arith

drain-tasks :
    (p : Bool) (duration : ℤ) (ctx : Context) (d : Dispatcher)
    → (await_drain p duration ctx d).0.tasks ≡ d.tasks
unfolding await_drain
drain-tasks p duration ctx d = ground arith

after_execute-tasks :
    (panic_value : String) (d : Dispatcher) (r : Effects × Ended)
    → (after_execute panic_value d r).tasks ≡ d.tasks
unfolding after_execute
after_execute-tasks panic_value d (s, completed) = refl
after_execute-tasks panic_value d (s, _) = refl

receive-tasks :
    (d d' : Dispatcher) (task : Task) → receive d ≡ (d', received task) → d.tasks ≡ task ∷ d'.tasks
unfolding receive
receive-tasks d d' task e = ground arith

no_more-tasks : (d d' : Dispatcher) → receive d ≡ (d', no_more) → d'.tasks ≡ d.tasks
unfolding receive
no_more-tasks d d' e = ground arith

-- Every queued and every running task is ready.
abbrev Ready : System → Type 0
Ready s = AllReady s.dispatcher × All IsReady s.running

module _ (unspecified : Float64 → ℤ) where
  Step-Ready : {s t : System} → Step unspecified s t → Ready s → Ready t
  unfolding finish ended_with count_sent
  Step-Ready {s} (submits p now ctx task) (v, w) =
      let d = s.dispatcher in
      (
        submitted-AllReady now task d _ (submit_nil p now ctx task d)
            (submit-Effect p now ctx task d) v,
        w,
      )
  Step-Ready {s} (try_submits now ctx task) (v, w) =
      let d = s.dispatcher in
      (
        submitted-AllReady now task d _ (try_submit_nil now ctx task d)
            (try_submit-Effect now ctx task d) v,
        w,
      )
  Step-Ready (counts before after name e) v = v
  Step-Ready {s} (closes duration ctx mode quiet) (v, w) =
      (subst (All IsReady) (sym (close-tasks duration ctx mode s.dispatcher)) v, w)
  Step-Ready {s} (drains p duration ctx c) (v, w) =
      (subst (All IsReady) (sym (drain-tasks p duration ctx s.dispatcher)) v, w)
  Step-Ready {s} (takes task d free e) (v, w) =
      let both = subst (All IsReady) (receive-tasks s.dispatcher d task e) v in
      (both.1, (both.0, w))
  Step-Ready {s} (finishes before after task run panic_value e q) (v, w) = (
    subst (All IsReady) (sym (after_execute-tasks panic_value s.dispatcher _)) v,
    All-split IsReady before task after (subst (All IsReady) e w),
  )
  Step-Ready {s} (exits d free e) (v, w) =
      (subst (All IsReady) (sym (no_more-tasks s.dispatcher d e)) v, w)

  -- In every state that a new dispatcher can reach, whatever tasks its clients submit, each queued
  -- and each running task has a job, so that a worker never calls `Process` on nil, and a name that
  -- is not empty.
  pub tasks-IsReady :
      (cfg : Config) (collector : Option Collector) (s : System)
      → Reach unspecified cfg collector s
      → All IsReady s.dispatcher.tasks × All IsReady s.running
  unfolding new_dispatcher
  tasks-IsReady cfg collector s start = (tt, tt)
  tasks-IsReady cfg collector s (later {t} r st) = Step-Ready st (tasks-IsReady cfg collector t r)
