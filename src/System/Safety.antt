-- ===== src/System/Safety.antt =====
-- No interleaving makes the dispatcher panic on a channel, and a closed dispatcher takes nothing.
use gokue.Logger.{log_submit_rejected}
use gokue.Prelude.{
  ◌++◌, refl, ℕ, ◌≤◌, ◌≡◌, ◌≢◌, Bool, true, false, String, Option, some, length, arith, is_nil,
}
use gokue.Prelude.Int.{ℤ, pos_part}
use gokue.Float.{Float64}
use gokue.Config.{Config}
use gokue.Stats.{Collector}
use gokue.Dispatcher.{Task, Dispatcher, Effects, closed}
use gokue.Execute.{Ended, completed}
use gokue.Submission.{
  Context, Submitted, returns, send_on_closed, prepare, count_sent, drop, reject_closed, submit,
  try_submit,
}
use gokue.Submission.Branches.{
  Effect, refused_ctx, refused_job, rejected, enqueued, dropped_full, dropped_ctx, blocked,
  panicked, submit-Effect, try_submit-Effect,
}
use gokue.Shutdown.{
  close_of_closed, close_with_mode, await_drain, Received, received, no_more, receive,
  after_execute,
}
use gokue.System.{
  System, ended_with, finish, Step, submits, try_submits, counts, closes, drains, takes, finishes,
  exits, Runs, Reach, start, later,
}
use gokue.System.Invariant.{Consistent, Runs-Consistent, init-Consistent}

Effect-no_panic :
    {d : Dispatcher} {t : Task} {r : Dispatcher × Submitted}
    → Effect d t r
    → Consistent d
    → r.1 ≢ send_on_closed
Effect-no_panic refused_ctx v = λ e. cc
Effect-no_panic refused_job v = λ e. cc
Effect-no_panic (rejected c) v = λ e. cc
Effect-no_panic (enqueued o c r) v = λ e. cc
Effect-no_panic (dropped_full o f) v = λ e. cc
Effect-no_panic (dropped_ctx x o) v = λ e. cc
Effect-no_panic (blocked o f) v = λ e. cc
Effect-no_panic (panicked o c) v = λ e. cc v.channel

close_no_panic :
    (duration : ℤ) (ctx : Option Context) (mode : String) (d : Dispatcher)
    → Consistent d
    → (close_with_mode duration ctx mode d).1 ≢ close_of_closed
unfolding close_with_mode
close_no_panic duration ctx mode d v h = ground arith

drain_no_panic :
    (p : Bool) (duration : ℤ) (ctx : Context) (d : Dispatcher)
    → Consistent d
    → (await_drain p duration ctx d).1 ≢ close_of_closed
unfolding await_drain
drain_no_panic p duration ctx d v h = ground arith

module _ (unspecified : Float64 → ℤ) where
  -- In every state that a new dispatcher can reach, by any interleaving, `Submit` and `TrySubmit`
  -- do not send on a closed channel, and `CloseWithMode` closes neither channel a second time, in
  -- either part and in any mode: none of them panics.
  pub no_channel_panic :
      (cfg : Config) (collector : Option Collector) (s : System)
      → Reach unspecified cfg collector s
      → (p : Bool) (t : ℤ) (ctx : Option Context) (at_wait : Context) (task : Task) (mode : String)
      → ((submit p t ctx task s.dispatcher).1 ≢ send_on_closed)
        × ((try_submit t ctx task s.dispatcher).1 ≢ send_on_closed)
        × ((close_with_mode t ctx mode s.dispatcher).1 ≢ close_of_closed)
        × ((await_drain p t at_wait s.dispatcher).1 ≢ close_of_closed)
  no_channel_panic cfg collector s r p t ctx at_wait task mode =
      let v = Runs-Consistent unspecified r (init-Consistent cfg collector) in
      (
        Effect-no_panic (submit-Effect p t ctx task s.dispatcher) v,
        Effect-no_panic (try_submit-Effect t ctx task s.dispatcher) v,
        close_no_panic t ctx mode s.dispatcher v,
        drain_no_panic p t at_wait s.dispatcher v,
      )

  -- The queue never holds more tasks than its capacity.
  pub tasks_bounded :
      (cfg : Config) (collector : Option Collector) (s : System)
      → Reach unspecified cfg collector s
      → length s.dispatcher.tasks ≤ pos_part s.dispatcher.cfg.queue_size
  tasks_bounded cfg collector s r =
      (Runs-Consistent unspecified r (init-Consistent cfg collector)).bounded

-- The dispatcher is closed and holds at most `n` tasks.
abbrev pub ClosedWith : ℕ → Dispatcher → Type 0
ClosedWith n d = (d.closed ≡ true) × (length d.tasks ≤ n)

Effect-ClosedWith :
    {d : Dispatcher} {t : Task} {r : Dispatcher × Submitted} {n : ℕ}
    → Effect d t r
    → ClosedWith n d
    → ClosedWith n r.0
unfolding drop reject_closed
Effect-ClosedWith refused_ctx v = v
Effect-ClosedWith refused_job v = v
Effect-ClosedWith (rejected c) v = v
Effect-ClosedWith (enqueued o c r) v = cc v.0
Effect-ClosedWith (dropped_full o f) v = v
Effect-ClosedWith (dropped_ctx x o) v = v
Effect-ClosedWith (blocked o f) v = v
Effect-ClosedWith (panicked o c) v = v

close-ClosedWith :
    (duration : ℤ) (ctx : Option Context) (mode : String) (d : Dispatcher) (n : ℕ)
    → ClosedWith n d
    → ClosedWith n (close_with_mode duration ctx mode d).0
unfolding close_with_mode
close-ClosedWith duration ctx mode d n v = ground arith

drain-ClosedWith :
    (p : Bool) (duration : ℤ) (ctx : Context) (d : Dispatcher) (n : ℕ)
    → ClosedWith n d
    → ClosedWith n (await_drain p duration ctx d).0
unfolding await_drain
drain-ClosedWith p duration ctx d n v = ground arith

receive-ClosedWith :
    (d d' : Dispatcher) (m : Received) (n : ℕ)
    → receive d ≡ (d', m)
    → ClosedWith n d
    → ClosedWith n d'
unfolding receive
receive-ClosedWith d d' m n e v = ground arith

after_execute-ClosedWith :
    (panic_value : String) (d : Dispatcher) (r : Effects × Ended) (n : ℕ)
    → ClosedWith n d
    → ClosedWith n (after_execute panic_value d r)
unfolding after_execute
after_execute-ClosedWith panic_value d (s, completed) n v = v
after_execute-ClosedWith panic_value d (s, _) n v = v

module _ (unspecified : Float64 → ℤ) where
  pub Step-ClosedWith :
      {s t : System} {n : ℕ}
      → Step unspecified s t
      → ClosedWith n s.dispatcher
      → ClosedWith n t.dispatcher
  unfolding finish ended_with count_sent
  Step-ClosedWith {s} (submits p now ctx task) v =
      Effect-ClosedWith (submit-Effect p now ctx task s.dispatcher) v
  Step-ClosedWith {s} (try_submits now ctx task) v =
      Effect-ClosedWith (try_submit-Effect now ctx task s.dispatcher) v
  Step-ClosedWith (counts before after name e) v = v
  Step-ClosedWith {s} {n = n} (closes duration ctx mode quiet) v =
      close-ClosedWith duration ctx mode s.dispatcher n v
  Step-ClosedWith {s} {n = n} (drains p duration ctx c) v =
      drain-ClosedWith p duration ctx s.dispatcher n v
  Step-ClosedWith {s} {n = n} (takes task d free e) v =
      receive-ClosedWith s.dispatcher d (received task) n e v
  Step-ClosedWith {s} {n = n} (finishes before after task run panic_value e q) v =
      after_execute-ClosedWith panic_value s.dispatcher _ n v
  Step-ClosedWith {s} {n = n} (exits d free e) v = receive-ClosedWith s.dispatcher d no_more n e v

  Runs-ClosedWith :
      {s t : System} {n : ℕ}
      → Runs unspecified s t
      → ClosedWith n s.dispatcher
      → ClosedWith n t.dispatcher
  Runs-ClosedWith start v = v
  Runs-ClosedWith (later r st) v = Step-ClosedWith st (Runs-ClosedWith r v)

  -- From a state in which the dispatcher is closed on, and after any number of steps, it stays
  -- closed, the queue does not grow, and every `Submit` and `TrySubmit` with a context and a job
  -- returns `ErrClosed`, logs one rejection for its reason and changes nothing else: neither the
  -- queue nor a counter.
  pub closed_rejects :
      (s t : System)
      → s.dispatcher.closed ≡ true
      → Runs unspecified s t
      → (p : Bool) (now : ℤ) (ctx : Context) (task : Task) → is_nil task.job ≡ false
      → let d = t.dispatcher in
        (d.closed ≡ true)
        × (length d.tasks ≤ length s.dispatcher.tasks)
        × (submit p now (some ctx) task d
            ≡ (reject_closed (prepare now task) d, returns (some closed)))
        × (try_submit now (some ctx) task d
            ≡ (reject_closed (prepare now task) d, returns (some closed)))
        × (reject_closed (prepare now task) d ≡ record d {
          effects = record {
            collector = d.effects.collector;
            log =
                d.effects.log
                ++ log_submit_rejected d.cfg.logger (prepare now task).name "dispatcher_closed";
          };
        })
  unfolding submit try_submit reject_closed
  closed_rejects s t c r p now ctx task j =
      let (still, fewer) = Runs-ClosedWith {n = length s.dispatcher.tasks} r (c, omega arith) in
      (still, fewer, rw (j, still), rw (j, still), refl)
