-- ===== src/System/Uniform.antt =====
-- Runs of the system of dispatcher/dispatcher.go in which every submission and every execution is of
-- one kind, such as those of a program whose jobs all behave in the same way.
use mathlib.Core.Path.{subst}
use gokue.Prelude.{◌≡◌, refl, String, none, List, ◌++◌, arith, ap, sym, ◌∙◌}
use gokue.Prelude.Int.{ℤ}
use gokue.Float.{Float64}
use gokue.Config.{Config}
use gokue.Stats.{Collector, inc_enqueued, inc_dropped}
use gokue.Dispatcher.{Task, Dispatcher, Effects}
use gokue.Execute.{Run, Ended, worker_panic, broken, execute}
use gokue.Submission.{Submitted, enqueue, count_sent, drop, reject_closed}
use gokue.Submission.Branches.{
  Effect, refused_ctx, refused_job, rejected, enqueued, dropped_full, dropped_ctx, blocked,
  panicked, submit-Effect, try_submit-Effect,
}
use gokue.Shutdown.{receive, after_execute}
use gokue.System.{
  System, deaths, ended_with, finish, Step, submits, try_submits, counts, closes, drains, takes,
  finishes, exits, Runs, Reach, start, later, Runs-append,
}
use gokue.System.Accounted.{close_with_mode-Untouched, await_drain-Untouched}
use gokue.System.Draining.{Reach-Accounted}

module _ (unspecified : Float64 → ℤ) (Q : Task → Type 0) (P : Task → Run → Type 0) where
  abbrev IsStepOf : {s t : System} → Step unspecified s t → Type 0
  IsStepOf (submits p now ctx task) = Q task
  IsStepOf (try_submits now ctx task) = Q task
  IsStepOf (counts before after name e) = (task : Task) × Q task
  IsStepOf (finishes before after task run panic_value e q) = P task run
  IsStepOf _ = Unit {0}

  -- `Q` holds of each submitted task (and of some task, where a submission counts), and `P` of each execution that ended.
  abbrev pub IsUniform : {s t : System} → Runs unspecified s t → Type 0
  IsUniform start = Unit {0}
  IsUniform (later r st) = IsUniform r × IsStepOf st

  module _ (cfg : Config)
      (survives : (task : Task) (run : Run) (s : Effects)
        → P task run
        → deaths (execute unspecified cfg task run s).1 ≡ 0) where
    -- Where no execution of the kind ends in a panic outside the job, no worker dies.
    pub Runs-crashed :
        {s t : System} (r : Runs unspecified s t)
        → Reach unspecified cfg none s
        → IsUniform r
        → t.crashed ≡ s.crashed
    unfolding finish ended_with
    Runs-crashed start before all = refl
    Runs-crashed (later {t} r (finishes b a task run panic_value e q)) before (all, x) =
        let same = (Reach-Accounted unspecified (Runs-append unspecified before r)).config in
        let unharmed =
          subst (λ c. deaths (execute unspecified c task run t.dispatcher.effects).1 ≡ 0) (sym same)
            (survives task run t.dispatcher.effects x) in
        omega (arith, Runs-crashed r before all)
    Runs-crashed (later r (submits p now ctx task)) before (all, x) = Runs-crashed r before all
    Runs-crashed (later r (try_submits now ctx task)) before (all, x) = Runs-crashed r before all
    Runs-crashed (later r (counts b a name e)) before (all, x) = Runs-crashed r before all
    Runs-crashed (later r (closes duration ctx mode quiet)) before (all, x) =
        Runs-crashed r before all
    Runs-crashed (later r (drains p duration ctx h)) before (all, x) = Runs-crashed r before all
    Runs-crashed (later r (takes task d free e)) before (all, x) = Runs-crashed r before all
    Runs-crashed (later r (exits d free e)) before (all, x) = Runs-crashed r before all

  module _ (cfg : Config) (I : Collector → Type 0)
      (kept_enqueued : (task : Task) (c : Collector) → Q task → I c → I (inc_enqueued c))
      (kept_dropped : (task : Task) (c : Collector) → Q task → I c → I (inc_dropped c))
      (kept : (task : Task) (run : Run) (s : Effects)
        → P task run
        → I s.collector
        → I (execute unspecified cfg task run s).0.collector) where
    Effect-Kept :
        {d : Dispatcher} {t : Task} {r : Dispatcher × Submitted} (task : Task)
        → Effect d t r
        → Q task
        → I d.effects.collector
        → I r.0.effects.collector
    unfolding enqueue drop reject_closed
    Effect-Kept task refused_ctx x v = v
    Effect-Kept task refused_job x v = v
    Effect-Kept task (rejected c) x v = v
    Effect-Kept task (enqueued o c r) x v = v
    Effect-Kept {d} task (dropped_full o f) x v = kept_dropped task d.effects.collector x v
    Effect-Kept {d} task (dropped_ctx e o) x v = kept_dropped task d.effects.collector x v
    Effect-Kept task (blocked o f) x v = v
    Effect-Kept task (panicked o c) x v = v

    receive-collector : (d : Dispatcher) → (receive d).0.effects.collector ≡ d.effects.collector
    unfolding receive
    receive-collector d = ground arith

    after_execute-collector :
        (panic_value : String) (d : Dispatcher) (r : Effects × Ended)
        → (after_execute panic_value d r).effects.collector ≡ r.0.collector
    unfolding after_execute
    after_execute-collector panic_value d (s, worker_panic) = refl
    after_execute-collector panic_value d (s, broken e) = refl
    after_execute-collector panic_value d (s, _) = refl

    finish-Kept :
        (panic_value : String) (run : Run) (task : Task) (others : List Task) (s : System)
        → s.dispatcher.cfg ≡ cfg
        → P task run
        → I s.dispatcher.effects.collector
        → I (finish unspecified panic_value run task others s).dispatcher.effects.collector
    unfolding finish ended_with
    finish-Kept panic_value run task others s same p v =
        let d = s.dispatcher in
        subst I
          (sym
            (after_execute-collector panic_value d (execute unspecified d.cfg task run d.effects)))
          (subst (λ c. I (execute unspecified c task run d.effects).0.collector) (sym same)
            (kept task run d.effects p v))

    Step-Kept :
        {s t : System} (st : Step unspecified s t)
        → s.dispatcher.cfg ≡ cfg
        → IsStepOf st
        → I s.dispatcher.effects.collector
        → I t.dispatcher.effects.collector
    unfolding count_sent
    Step-Kept {s} (submits p now ctx task) same x v =
        Effect-Kept task (submit-Effect p now ctx task s.dispatcher) x v
    Step-Kept {s} (try_submits now ctx task) same x v =
        Effect-Kept task (try_submit-Effect now ctx task s.dispatcher) x v
    Step-Kept {s} (counts before after name e) same (task, x) v =
        kept_enqueued task s.dispatcher.effects.collector x v
    Step-Kept {s} (closes duration ctx mode quiet) same x v =
        subst I (sym (close_with_mode-Untouched duration ctx mode s.dispatcher).4) v
    Step-Kept {s} (drains p duration ctx c) same x v =
        subst I (sym (await_drain-Untouched p duration ctx s.dispatcher).4) v
    Step-Kept {s} (takes task d free e) same x v =
        subst I (sym (ap (λ r. r.0.effects.collector) (sym e) ∙ receive-collector s.dispatcher)) v
    Step-Kept {s} (finishes before after task run panic_value e q) same x v =
        finish-Kept panic_value run task (before ++ after) s same x v
    Step-Kept {s} (exits d free e) same x v =
        subst I (sym (ap (λ r. r.0.effects.collector) (sym e) ∙ receive-collector s.dispatcher)) v

    pub Runs-Kept :
        {s t : System} (r : Runs unspecified s t)
        → Reach unspecified cfg none s
        → IsUniform r
        → I s.dispatcher.effects.collector
        → I t.dispatcher.effects.collector
    Runs-Kept start before all v = v
    Runs-Kept (later r st) before (all, x) v =
        Step-Kept st (Reach-Accounted unspecified (Runs-append unspecified before r)).config x
          (Runs-Kept r before all v)
