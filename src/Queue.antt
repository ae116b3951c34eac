-- ===== src/Queue.antt =====
-- gokue.go: the queue, which joins a configuration, a dispatcher and its collector. The collector
-- is that of the dispatcher's effects, since the two share it; a queue is one that `NewQueue` made.
pub mod Options
pub mod Starting
pub mod Refusals
use gokue.Prelude.{Bool, true, Option, none, some, List, [], ◌∷◌, ◌⊎◌, inl, inr}
use gokue.Prelude.Int.{ℤ, pos}
use gokue.Job.{Job, name_of}
use gokue.Logger.{Logger}
use gokue.Config.{Config, InvalidConfig, default, validate}
use gokue.Stats.{Snapshot, new_collector, snapshot}
use gokue.Dispatcher.{Task, DispatchError, Dispatcher, new_dispatcher}
use gokue.Submission
use gokue.Submission.{Context, Submitted, count_sent}
use gokue.Shutdown
use gokue.Shutdown.{Closed}
use gokue.Queue.Options.{QueueOption, SubmitOption, apply_options}

pub record Queue : Type 0 where
  pub config : Config
  pub dispatcher : Dispatcher

-- The errors of the queue's own checks, and those of the dispatcher.
pub data QueueError : Type 0 where
  queue_is_nil job_is_nil context_is_nil : QueueError
  dispatch_err : DispatchError → QueueError

-- A method returns nil or an error, or waits, or panics.
pub data Answer : Type 0 where
  returns : Option QueueError → Answer
  blocks panics : Answer

-- A submission of the queue that returns nil counts the task that it has sent: it runs here from its
-- start to its return, with no step of another goroutine between its parts.
abbrev counted : Dispatcher → Dispatcher
counted d = elim d.sending [ [] ↦ d | name ∷ others ↦ count_sent name others d ]

-- `if logger != nil`
abbrev override_logger : Option Logger → Config → Config
override_logger none c = c
override_logger (some logger) c = record c { logger = some logger }

-- The configuration that `NewQueueWithLogger` validates.
unfoldable pub configured : ℤ → Option Logger → List QueueOption → Config
unfolding default apply_options
configured max_procs logger options =
    override_logger logger (apply_options options (default max_procs))

unfoldable pub new_queue_with_logger : ℤ → Option Logger → List QueueOption → InvalidConfig ⊎ Queue
unfolding configured
new_queue_with_logger max_procs logger options =
    let c = configured max_procs logger options in
    elim (validate c) [
      | some e ↦ inl e
      | none ↦ inr (record { config = c; dispatcher = new_dispatcher c (some new_collector) })
    ]

unfoldable pub new_queue : ℤ → List QueueOption → InvalidConfig ⊎ Queue
unfolding new_queue_with_logger
new_queue max_procs options = new_queue_with_logger max_procs none options

-- The task that `Submit` and `TrySubmit` build.
unfoldable pub built_task : Option Job → List SubmitOption → Task
unfolding apply_options
built_task job opts = apply_options opts (record {
  name = name_of job;
  job = job;
  submitted_at = pos 0;
  max_retries = none;
  retry_delay = none;
  retry_predicates = none;
})

-- The dispatcher's answer as the queue passes it on.
abbrev error_of : Option DispatchError → Option QueueError
error_of none = none
error_of (some e) = some (dispatch_err e)

unfoldable pub submitted : Queue → Dispatcher × Submitted → Option Queue × Answer
submitted q (d, Submission.returns none) =
    (some (record q { dispatcher = counted d }), returns none)
submitted q (d, Submission.returns (some e)) =
    (some (record q { dispatcher = d }), returns (some (dispatch_err e)))
submitted q (d, Submission.blocks) = (some (record q { dispatcher = d }), blocks)
submitted q (d, Submission.send_on_closed) = (some (record q { dispatcher = d }), panics)

unfoldable pub closed_with : Queue → Dispatcher × Closed → Option Queue × Answer
closed_with q (d, Shutdown.returns e) = (some (record q { dispatcher = d }), returns (error_of e))
closed_with q (d, Shutdown.waits) = (some (record q { dispatcher = d }), blocks)
closed_with q (d, Shutdown.close_of_closed) = (some (record q { dispatcher = d }), panics)

unfoldable pub submit :
    Bool
    → ℤ
    → Option Context
    → Option Job
    → List SubmitOption
    → Option Queue
    → Option Queue × Answer
unfolding submitted built_task
submit prefer_send now ctx job opts none = (none, returns (some queue_is_nil))
submit prefer_send now ctx none opts (some q) = (some q, returns (some job_is_nil))
submit prefer_send now none (some job) opts (some q) = (some q, returns (some context_is_nil))
submit prefer_send now (some ctx) (some job) opts (some q) =
    submitted q
      (Submission.submit prefer_send now (some ctx) (built_task (some job) opts) q.dispatcher)

unfoldable pub try_submit :
    ℤ → Option Context → Option Job → List SubmitOption → Option Queue → Option Queue × Answer
unfolding submitted built_task
try_submit now ctx job opts none = (none, returns (some queue_is_nil))
try_submit now ctx none opts (some q) = (some q, returns (some job_is_nil))
try_submit now none (some job) opts (some q) = (some q, returns (some context_is_nil))
try_submit now (some ctx) (some job) opts (some q) =
    submitted q (Submission.try_submit now (some ctx) (built_task (some job) opts) q.dispatcher)

-- `context.Background()` is never done.
abbrev pub background : Context
background = record { done = none }

-- `Run` drops the error.
abbrev forget_error : Option Queue × Answer → Option Queue × Answer
forget_error (q, returns e) = (q, returns none)
forget_error (q, blocks) = (q, blocks)
forget_error (q, panics) = (q, panics)

unfoldable pub run : ℤ → Option Job → List SubmitOption → Option Queue → Option Queue × Answer
unfolding submit
run now job opts none = (none, returns none)
run now job opts (some q) = forget_error (submit true now (some background) job opts (some q))

-- Up to the wait of the dispatcher's `Close`.
unfoldable pub close : ℤ → Option Context → Option Queue → Option Queue × Answer
unfolding closed_with
close duration ctx none = (none, returns (some queue_is_nil))
close duration none (some q) = (some q, returns (some context_is_nil))
close duration (some ctx) (some q) = closed_with q (Shutdown.close duration (some ctx) q.dispatcher)

unfoldable pub stats : Option Queue → Snapshot
unfolding snapshot
stats none = snapshot new_collector
stats (some q) = snapshot q.dispatcher.effects.collector
