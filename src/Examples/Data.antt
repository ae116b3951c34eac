-- ===== src/Examples/Data.antt =====
-- The concrete values of the examples.
use gokue.Prelude.{false, none, some, [], ℕ, zero, suc}
use gokue.Prelude.Int.{ℤ, pos, negsuc}
use gokue.Job.{struct, ptr, Job, canceled, returned, Outcome, succeeds, fails}
use gokue.Config.{Config, in_memory, constant}
use gokue.Float.{Float64}
use gokue.Dispatcher.{Task}
use gokue.Execute.{Run}
use gokue.Submission.{Context}

-- One worker, room for two tasks, two retries at a constant delay.
abbrev pub config : Config
config = record {
  memory_type = in_memory;
  worker_count = pos 1;
  queue_size = pos 2;
  max_retries = pos 2;
  job_timeout = pos 0;
  retry_delay = pos 5;
  max_retry_delay = pos 100;
  backoff_strategy = constant;
  shutdown_timeout = pos 1000;
  retry_predicates = none;
  logger = none;
}

abbrev pub email : Job
email = record { typ = ptr "" (struct 0 "EmailJob" 1); explicit_name = none; contents = [] }

abbrev pub task : Task
task = record {
  name = "email";
  job = some email;
  submitted_at = pos 7;
  max_retries = none;
  retry_delay = none;
  retry_predicates = none;
}

abbrev pub live : Context
live = record { done = none }

abbrev pub cancelled : Context
cancelled = record { done = some canceled }

-- Fails once, then succeeds.
abbrev second_time : ℕ → Outcome
second_time zero = fails (returned "smtp")
second_time (suc n) = succeeds

abbrev pub run : Run
run = record {
  process = λ j deadline. second_time j;
  draw = λ j. 0;
  quits = λ j. false;
  crashes = λ j p. false;
  elapsed = λ j. pos 1;
}

-- What amd64 makes of a float64 that no int64 holds.
abbrev pub least_int64 : Float64 → ℤ
least_int64 x = negsuc 9223372036854775807
