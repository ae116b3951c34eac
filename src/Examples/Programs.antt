-- ===== src/Examples/Programs.antt =====
-- What the runs of the programs of examples/ share.
mod SingleRun
mod RetryRun
use gokue.Prelude.{ℕ, Bool, true, false, ◌≡◌, refl, Option, none, some, [], ◌∷◌, arith, length}
use gokue.Prelude.Int.{ℤ, pos}
use gokue.Prelude.Bytes.{Bytes}
use gokue.Job.{name_of, Outcome, deadline_exceeded, timed_out, fails}
use gokue.Backoff.{retry_delay, capped_exp}
use gokue.Float.{to_int64, float_lt, to_float, mul, pow_2, round_53}
use gokue.Programs.Failing.{NoTask}
use gokue.System.Uniform.{IsUniform}
use gokue.Config.{validate, is_memory_type, is_backoff_strategy, validate_ranges}
use gokue.Dispatcher.{Task, new_dispatcher}
use gokue.Execute.{Run, execute, job_timeout}
use gokue.Submission.{submit}
use gokue.Shutdown.{drain_mode, close_with_mode, receive, await_drain, worker_done}
use gokue.Queue
use gokue.Queue.{Queue, new_queue, configured, background, built_task, stats}
use gokue.Queue.Options.{
  with_worker_count, with_queue_size, with_max_retries, with_job_timeout, with_retry_delay,
  with_backoff_strategy,
}
use gokue.System.{
  System, finish, ended_with, submits, closes, takes, finishes, exits, Runs, Reach, start, later,
}
use gokue.Programs.{
  Email, Line, failed_to_send, failed, timer_or_done, system_of, submit_each, job_of,
}
use gokue.Programs.Executions.{IsRunOf}
use gokue.Programs.SingleWorker
use gokue.Programs.RetryJob
use gokue.Programs.MultipleJobs
use gokue.Examples.Data.{least_int64}

abbrev pub clock : ℕ → ℤ
clock n = pos 7

abbrev pub contents : Email → Bytes
contents email = []

abbrev pub run_of : (Bool → Email → Option ℤ → Line × Outcome) → Email → Run
run_of process email = record {
  process = λ j deadline. (process true email deadline).1;
  draw = λ j. 0;
  quits = λ j. false;
  crashes = λ j p. false;
  elapsed = λ j. pos 1;
}

pub run_of-IsRunOf :
    (process : Bool → Email → Option ℤ → Line × Outcome) (email : Email) (task : Task)
    → task.max_retries ≡ none
    → task.retry_delay ≡ none
    → task.retry_predicates ≡ none
    → IsRunOf process task (run_of process email)
run_of-IsRunOf process email task a b c = record {
  email = email;
  choices = λ j. true;
  calls = λ j deadline. refl;
  default_retries = a;
  default_delay = b;
  default_predicates = c;
  waits = λ j. refl;
}

-- The first queued task is taken, executed, and the queue closed.
abbrev pub head_taken : System → Task → System
head_taken s task = record s {
  dispatcher = record s.dispatcher { tasks = [] };
  running = task ∷ [];
}

abbrev pub closing : System → System
closing s = record s {
  dispatcher = (close_with_mode (pos 1) (some background) drain_mode s.dispatcher).0;
}

abbrev pub one_exit : System → System
one_exit s = record s { dispatcher = worker_done s.dispatcher }

abbrev pub task : Task
task = record {
  name = "Email";
  job = some (job_of contents SingleWorker.email);
  submitted_at = pos 7;
  max_retries = none;
  retry_delay = none;
  retry_predicates = none;
}
