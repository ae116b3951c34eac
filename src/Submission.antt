-- ===== src/Submission.antt =====
-- `Submit` and `TrySubmit` of dispatcher/dispatcher.go, from the call to the send, after which other
-- goroutines may go on, or to the return where nothing is sent; what follows a send is `count_sent`,
-- and then the return of what the first part answers. What the
-- runtime decides is an argument: which ready case a `select` takes, the clock, and the state of the
-- context when the `select` looks at it. A blocked call has changed nothing yet.
pub mod Branches
use gokue.Prelude.{
  ℕ, String, ◌=?◌, Bool, true, false, ◌&&◌, ◌||◌, Option, none, some, List, [], ◌∷◌, ◌++◌,
  if◌then◌else◌, is_nil, ltb, length,
}
use gokue.Prelude.Int.{ℤ, pos, pos_part, eqb_ℤ}
use gokue.Job.{Job, ContextError, name_of}
use gokue.Logger.Events.{reason_context_cancelled, reason_dispatcher_closed, reason_queue_full}
use gokue.Logger.{Entry, log_submit_enqueued, log_submit_rejected}
use gokue.Stats.{Collector, inc_enqueued, inc_dropped}
use gokue.Dispatcher.{
  Task, Dispatcher, Effects, DispatchError, closed, queue_full, nil_job, nil_ctx, ctx_err,
}

-- A context as a `select` sees it: done with an error, or not done.
pub record Context : Type 0 where
  pub done : Option ContextError

-- A call returns nil or an error, or waits, or panics by a send on a closed channel.
pub data Submitted : Type 0 where
  returns : Option DispatchError → Submitted
  blocks : Submitted
  send_on_closed : Submitted

-- The name and the time that are filled in.
unfoldable pub prepare : ℤ → Task → Task
prepare now task =
    let named = if task.name =? "" then record task { name = name_of task.job } else task in
    if eqb_ℤ named.submitted_at (pos 0) then record named { submitted_at = now } else named

abbrev pub has_room : Dispatcher → Bool
has_room d = ltb (length d.tasks) (pos_part d.cfg.queue_size)

-- The case `d.tasks <- task` can be taken: a send on a closed channel does not wait.
abbrev pub send_ready : Dispatcher → Bool
send_ready d = d.tasks_closed || has_room d

-- The send itself.
unfoldable pub enqueue : Task → Dispatcher → Dispatcher
enqueue task d = record d { tasks = d.tasks ++ task ∷ []; sending = task.name ∷ d.sending }

-- What follows a send, up to the return; `others` are the other submissions that have sent.
unfoldable pub count_sent : (name : String) → (others : List String) → Dispatcher → Dispatcher
count_sent name others d = record d {
  effects = record {
    collector = inc_enqueued d.effects.collector;
    log = d.effects.log ++ log_submit_enqueued d.cfg.logger name;
  };
  sending = others;
}

unfoldable pub send : Task → Dispatcher → Dispatcher × Submitted
unfolding enqueue
send task d = if d.tasks_closed then (d, send_on_closed) else (enqueue task d, returns none)

-- A rejection by a full queue or by the context.
unfoldable pub drop : Task → String → Dispatcher → Dispatcher
drop task reason d = record d {
  effects = record {
    collector = inc_dropped d.effects.collector;
    log = d.effects.log ++ log_submit_rejected d.cfg.logger task.name reason;
  };
}

unfoldable pub reject_closed : Task → Dispatcher → Dispatcher
reject_closed task d = record d {
  effects = record d.effects {
    log = d.effects.log ++ log_submit_rejected d.cfg.logger task.name reason_dispatcher_closed;
  };
}

-- The `select` of `Submit`; `prefer_send` chooses where both cases are ready.
unfoldable pub select_submit : Bool → Context → Task → Dispatcher → Dispatcher × Submitted
unfolding send drop
select_submit prefer_send ctx task d = elim ctx.done [
  | none ↦ if send_ready d then send task d else (d, blocks)
  | some e ↦
      if send_ready d && prefer_send
      then send task d
      else (drop task reason_context_cancelled d, returns (some (ctx_err e)))
]

unfoldable pub submit : Bool → ℤ → Option Context → Task → Dispatcher → Dispatcher × Submitted
unfolding select_submit prepare reject_closed
submit prefer_send now none task d = (d, returns (some nil_ctx))
submit prefer_send now (some ctx) task d =
    if is_nil task.job
    then (d, returns (some nil_job))
    else if d.closed
    then (reject_closed (prepare now task) d, returns (some closed))
    else select_submit prefer_send ctx (prepare now task) d

unfoldable pub try_submit : ℤ → Option Context → Task → Dispatcher → Dispatcher × Submitted
unfolding send drop prepare reject_closed
try_submit now none task d = (d, returns (some nil_ctx))
try_submit now (some ctx) task d =
    let task' = prepare now task in
    if is_nil task.job
    then (d, returns (some nil_job))
    else if d.closed
    then (reject_closed task' d, returns (some closed))
    else if send_ready d
    then send task' d
    else (drop task' reason_queue_full d, returns (some queue_full))
