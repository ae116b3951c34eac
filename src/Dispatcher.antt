-- ===== src/Dispatcher.antt =====
-- dispatcher/dispatcher.go: the tasks and the state of the dispatcher. Its operations are in the
-- modules Execute, Submission and Shutdown.
use gokue.Prelude.{ℕ, String, Bool, false, Option, none, some, List, []}
use gokue.Prelude.Int.{ℤ, pos_part}
use gokue.Job.{Job, JobError, ContextError}
use gokue.Logger.{Entry}
use gokue.Config.{Config}
use gokue.Stats.{Collector, Snapshot, new_collector, snapshot}

pub record Task : Type 0 where
  pub name : String
  pub job : Option Job
  pub submitted_at : ℤ  -- nanoseconds since the zero `time.Time`
  pub max_retries : Option ℤ
  pub retry_delay : Option ℤ
  pub retry_predicates : Option (JobError → Bool)

-- The errors of the dispatcher's methods; `ctx_err` is a context's own.
pub data DispatchError : Type 0 where
  closed queue_full nil_job nil_ctx invalid_shutdown_mode : DispatchError
  ctx_err : ContextError → DispatchError

-- What the workers and the submitters share besides the queue: the counters and the log, oldest
-- entry first.
pub record Effects : Type 0 where
  pub collector : Collector
  pub log : List Entry

-- `tasks` is the buffer of the channel, oldest first, whose capacity is `cfg.QueueSize`;
-- `workers` counts the goroutines that `wg` waits for, and `sending` names the tasks of the
-- submissions that have sent a task and not yet counted it.
pub record Dispatcher : Type 0 where
  pub cfg : Config
  pub effects : Effects
  pub tasks : List Task
  pub tasks_closed : Bool
  pub quit_closed : Bool
  pub quit_once : Bool
  pub closed : Bool
  pub workers : ℕ
  pub sending : List String

-- `none` stands for a nil collector.
abbrev or_new : Option Collector → Collector
or_new none = new_collector
or_new (some c) = c

unfoldable pub new_dispatcher : Config → Option Collector → Dispatcher
new_dispatcher cfg collector = record {
  cfg = cfg;
  effects = record { collector = or_new collector; log = [] };
  tasks = [];
  tasks_closed = false;
  quit_closed = false;
  quit_once = false;
  closed = false;
  workers = pos_part cfg.worker_count;
  sending = [];
}

-- `Stats`
unfoldable pub stats : Dispatcher → Snapshot
unfolding snapshot
stats d = snapshot d.effects.collector
