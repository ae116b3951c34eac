-- ===== src/System/Invariant.antt =====
-- What holds in every state that the dispatcher can reach.
use gokue.Prelude.{
  ◌≤◌, ◌≡◌, Bool, true, String, Option, List, [], ◌∷◌, ◌++◌, length, length-append, arith,
}
use gokue.Prelude.Int.{ℤ, pos_part}
use gokue.Float.{Float64}
use gokue.Config.{Config}
use gokue.Stats.{Collector}
use gokue.Dispatcher.{Task, Dispatcher, Effects, new_dispatcher}
use gokue.Execute.{Ended, completed}
use gokue.Submission.{Context, Submitted, enqueue, count_sent, drop, reject_closed}
use gokue.Submission.Branches.{
  Effect, refused_ctx, refused_job, rejected, enqueued, dropped_full, dropped_ctx, blocked,
  panicked, submit-Effect, try_submit-Effect,
}
use gokue.Shutdown.{
  close_with_mode, await_drain, Received, received, no_more, receive, after_execute,
}
use gokue.System.{
  System, ended_with, finish, Step, submits, try_submits, counts, closes, drains, takes, finishes,
  exits, Runs, start, later,
}

-- Of the dispatcher alone: the flags agree with the channels that they guard, and the buffer keeps
-- within its capacity.
pub record Consistent (d : Dispatcher) : Type 0 where
  pub channel : d.tasks_closed ≡ d.closed
  pub quit : d.quit_closed ≡ d.quit_once
  pub quit_late : d.quit_closed ≡ true → d.closed ≡ true
  pub bounded : length d.tasks ≤ pos_part d.cfg.queue_size

pub Effect-Consistent :
    {d : Dispatcher} {t : Task} {r : Dispatcher × Submitted}
    → Effect d t r
    → Consistent d
    → Consistent r.0
unfolding enqueue drop reject_closed
Effect-Consistent refused_ctx v = v
Effect-Consistent refused_job v = v
Effect-Consistent (rejected c) v = ground arith
Effect-Consistent {d} {t} (enqueued o c r) v = ground (arith, length-append d.tasks (t ∷ []))
Effect-Consistent (dropped_full o f) v = ground arith
Effect-Consistent (dropped_ctx e o) v = ground arith
Effect-Consistent (blocked o f) v = v
Effect-Consistent (panicked o c) v = v

pub close_with_mode-Consistent :
    (duration : ℤ) (ctx : Option Context) (mode : String) (d : Dispatcher)
    → Consistent d
    → Consistent (close_with_mode duration ctx mode d).0
unfolding close_with_mode
close_with_mode-Consistent duration ctx mode d v = ground arith

pub await_drain-Consistent :
    (p : Bool) (duration : ℤ) (ctx : Context) (d : Dispatcher)
    → d.closed ≡ true
    → Consistent d
    → Consistent (await_drain p duration ctx d).0
unfolding await_drain
await_drain-Consistent p duration ctx d c v = ground arith

receive-Consistent :
    (d d' : Dispatcher) (m : Received) → receive d ≡ (d', m) → Consistent d → Consistent d'
unfolding receive
receive-Consistent d d' m e v = ground arith

after_execute-Consistent :
    (panic_value : String) (d : Dispatcher) (r : Effects × Ended)
    → Consistent d
    → Consistent (after_execute panic_value d r)
unfolding after_execute
after_execute-Consistent panic_value d (s, completed) v = ground arith
after_execute-Consistent panic_value d (s, _) v = ground arith

pub count_sent-Consistent :
    (name : String) (others : List String) (d : Dispatcher)
    → Consistent d
    → Consistent (count_sent name others d)
unfolding count_sent
count_sent-Consistent name others d v = ground arith

module _ (unspecified : Float64 → ℤ) where
  -- Every step keeps the flags and the channels of the dispatcher consistent.
  pub Step-Consistent :
      {s t : System} → Step unspecified s t → Consistent s.dispatcher → Consistent t.dispatcher
  unfolding finish ended_with
  Step-Consistent {s} (submits p now ctx task) v =
      Effect-Consistent (submit-Effect p now ctx task s.dispatcher) v
  Step-Consistent {s} (try_submits now ctx task) v =
      Effect-Consistent (try_submit-Effect now ctx task s.dispatcher) v
  Step-Consistent {s} (counts before after name e) v =
      count_sent-Consistent name (before ++ after) s.dispatcher v
  Step-Consistent {s} (closes duration ctx mode quiet) v =
      close_with_mode-Consistent duration ctx mode s.dispatcher v
  Step-Consistent {s} (drains p duration ctx c) v =
      await_drain-Consistent p duration ctx s.dispatcher c v
  Step-Consistent {s} (takes task d free e) v =
      receive-Consistent s.dispatcher d (received task) e v
  Step-Consistent {s} (finishes before after task run panic_value e q) v =
      after_execute-Consistent panic_value s.dispatcher _ v
  Step-Consistent {s} (exits d free e) v =
      let w = receive-Consistent s.dispatcher d no_more e v in
      record { channel = w.channel; quit = w.quit; quit_late = w.quit_late; bounded = w.bounded }

  pub Runs-Consistent :
      {s t : System} → Runs unspecified s t → Consistent s.dispatcher → Consistent t.dispatcher
  Runs-Consistent start v = v
  Runs-Consistent (later r st) v = Step-Consistent st (Runs-Consistent r v)

pub init-Consistent :
    (cfg : Config) (collector : Option Collector) → Consistent (new_dispatcher cfg collector)
unfolding new_dispatcher
init-Consistent cfg collector = ground arith
