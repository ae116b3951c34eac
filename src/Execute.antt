-- ===== src/Execute.antt =====
-- `execute` and `runJob` of dispatcher/dispatcher.go. What the program does not decide is a `Run`:
-- how each call of `Process` ends, what is drawn for the jitter, whether a wait is cut short
-- by the quit channel, and what the clock shows. The loop recurs on the rounds left, `maxRetries`
-- plus one; its counter stays below the limit of an `int`.
pub mod Accounting
pub mod Outcomes
pub mod Limits
pub mod Trace
use gokue.Prelude.{
  ℕ, zero, suc, ◌+◌, String, Bool, true, false, not, ◌&&◌, Option, none, some, List, ◌++◌,
  if◌then◌else◌,
}
use gokue.Prelude.Int.{ℤ, pos, negsuc, ltb_ℤ, ◌+ℤ◌, int64}
use gokue.Job.{JobError, job_panic, Outcome, succeeds, fails, panics}
use gokue.Logger.Events.{reason_dispatcher_shutdown}
use gokue.Logger.{
  Entry, log_job_processing, log_job_success, log_job_failure, log_job_retry, log_job_abandoned,
}
use gokue.Config.{Config}
use gokue.Stats.{Collector, inc_processed, inc_failed, inc_retried, inc_retry_predicates_failed}
use gokue.Float.{Float64}
use gokue.Backoff.{retry_delay}
use gokue.Dispatcher.{Task, Effects}

-- Where an execution calls code of its clients besides the job: the logger at the start of an
-- attempt, behind its count, or at the end, and the retry predicate.
pub data Point : Type 0 where
  at_start at_predicate at_retry at_end : Point

-- One execution of a task, as its environment decides it. Attempts count from 0; `process` is given
-- the timeout of the context that `Process` receives; `crashes` says where the logger or the predicate
-- panics.
pub record Run : Type 0 where
  pub process : ℕ → Option ℤ → Outcome
  pub draw : ℕ → ℕ
  pub quits : ℕ → Bool
  pub crashes : ℕ → Point → Bool
  pub elapsed : ℕ → ℤ

-- The variables that `execute` sets before its loop.
pub record Execution : Type 0 where
  pub cfg : Config
  pub name : String
  pub max_retries : ℤ
  pub retry_base_delay : ℤ
  pub retry_predicates : Option (JobError → Bool)
  pub run : Run

-- How an execution ends: with a success, with an error that the retry predicate rejects, at a wait
-- that the shutdown cuts short, after the last retry, or with a panic outside the job, before the task
-- is counted (`worker_panic`) or when the logger is told of an end that is counted (`broken`).
pub data Ended : Type 0 where
  completed rejected abandoned exhausted worker_panic : Ended
  broken : Ended → Ended

abbrev pub or_default {ℓ} : {A : Type ℓ} → Option A → A → A
or_default none a = a
or_default (some b) a = b

abbrev pub or_else {ℓ} : {A : Type ℓ} → Option A → Option A → Option A
or_else none o = o
or_else (some a) o = some a

unfoldable pub start : Config → Task → Run → Execution
start cfg task run = record {
  cfg = cfg;
  name = task.name;
  max_retries = or_default task.max_retries cfg.max_retries;
  retry_base_delay = or_default task.retry_delay cfg.retry_delay;
  retry_predicates = or_else task.retry_predicates cfg.retry_predicates;
  run = run;
}

-- The timeout of the context of `runJob`, if it has one.
abbrev pub job_timeout : ℤ → Option ℤ
job_timeout timeout = if ltb_ℤ (pos 0) timeout then some timeout else none

-- The deferred `recover` of `runJob`.
unfoldable pub recovered : String → Outcome → Option JobError
recovered name succeeds = none
recovered name (fails e) = some e
recovered name (panics value) = some (job_panic name value)

unfoldable pub run_job : String → (Option ℤ → Outcome) → ℤ → Option JobError
unfolding recovered
run_job name process timeout = recovered name (process (job_timeout timeout))

-- `retryPredicates != nil && !retryPredicates(err)`
abbrev pub rejects : Option (JobError → Bool) → JobError → Bool
rejects none e = false
rejects (some p) e = not (p e)

abbrev is_given {ℓ} : {A : Type ℓ} → Option A → Bool
is_given none = false
is_given (some a) = true

-- Only a logger or a predicate that is not nil is called.
abbrev is_called : Execution → Point → Bool
is_called x at_start = is_given x.cfg.logger
is_called x at_predicate = is_given x.retry_predicates
is_called x at_retry = is_given x.cfg.logger
is_called x at_end = is_given x.cfg.logger

abbrev pub crash : Execution → ℕ → Point → Bool
crash x attempt p = is_called x p && x.run.crashes attempt p

abbrev note : Effects → List Entry → Effects
note s entries = record s { log = s.log ++ entries }

abbrev count : Effects → (Collector → Collector) → Effects
count s f = record s { collector = f s.collector }

-- The last entry, after the count.
unfoldable pub report : Execution → ℕ → Ended → List Entry → Effects → Effects × Ended
report x attempt e entries s = if crash x attempt at_end then (s, broken e) else (note s entries, e)

abbrev returning : Effects × Ended → Effects × Option Ended
returning (s, e) = (s, some e)

-- How often `for attempt := 0; attempt <= maxRetries; attempt++` goes round.
abbrev pub rounds : ℤ → ℕ
rounds (pos n) = suc n
rounds (negsuc n) = 0

-- Return, or go round again.
unfoldable pub go_on : Effects × Option Ended → (Effects → Effects × Ended) → Effects × Ended
go_on (s, none) next_round = next_round s
go_on (s, some e) next_round = (s, e)

module _ (unspecified : Float64 → ℤ) where
  -- The delay after an attempt.
  unfoldable pub delay_after : Execution → ℕ → Option ℤ
  delay_after x attempt =
      retry_delay unspecified (x.run.draw attempt) x.retry_base_delay x.cfg.max_retry_delay attempt
        x.cfg.backoff_strategy

  -- The `if delay > 0` block.
  unfoldable pub wait : Execution → ℕ → JobError → ℤ → Effects → Effects × Option Ended
  unfolding report
  wait x attempt err delay s =
      if ltb_ℤ (pos 0) delay && x.run.quits attempt
      then returning (
          report x attempt abandoned
            (log_job_abandoned x.cfg.logger x.name (pos (attempt + 1)) reason_dispatcher_shutdown
              (x.run.elapsed attempt))
            (count s inc_failed))
      else (s, none)

  -- The `if attempt < maxRetries` block.
  unfoldable pub retry : Execution → ℕ → JobError → Effects → Effects × Option Ended
  unfolding wait delay_after
  retry x attempt err s =
      if ltb_ℤ (pos attempt) x.max_retries
      then elim (delay_after x attempt) [
        | none ↦ (count s inc_retried, some worker_panic)
        | some delay ↦
            if crash x attempt at_retry
            then (count s inc_retried, some worker_panic)
            else wait x attempt err delay (
                note (count s inc_retried)
                  (log_job_retry x.cfg.logger x.name (pos (attempt + 1)) (some err) delay))
      ]
      else (s, none)

  -- One round of the loop, given what `runJob` returned; `none` goes on with the next round.
  unfoldable pub after_job : Execution → ℕ → Option JobError → Effects → Effects × Option Ended
  unfolding retry report
  after_job x attempt none s = returning (
      report x attempt completed (log_job_success x.cfg.logger x.name (x.run.elapsed attempt))
        (count s inc_processed))
  after_job x attempt (some err) s =
      if crash x attempt at_predicate
      then (s, some worker_panic)
      else if rejects x.retry_predicates err
      then returning (
          report x attempt rejected
            (log_job_failure x.cfg.logger x.name (pos (attempt + 1)) (some err)
              (x.run.elapsed attempt))
            (count (count s inc_retry_predicates_failed) inc_failed))
      else retry x attempt err s

  unfoldable pub attempt_job : Execution → ℕ → Option JobError
  unfolding run_job
  attempt_job x attempt = run_job x.name (x.run.process attempt) x.cfg.job_timeout

  -- The start of a round.
  unfoldable pub begin_attempt : Execution → ℕ → Effects → Effects
  begin_attempt x attempt s = note s (log_job_processing x.cfg.logger x.name (pos (attempt + 1)))

  -- A round of the loop.
  unfoldable pub round : Execution → ℕ → Effects → Effects × Option Ended
  unfolding after_job attempt_job begin_attempt
  round x attempt s =
      if crash x attempt at_start
      then (s, some worker_panic)
      else after_job x attempt (attempt_job x attempt) (begin_attempt x attempt s)

  -- The loop, with `left` rounds to go, and what follows it.
  unfoldable pub execute_from :
      Execution → (left attempt : ℕ) → Option JobError → Effects → Effects × Ended
  unfolding report
  execute_from x zero attempt err s =
      report x attempt exhausted
        (log_job_failure x.cfg.logger x.name (int64 (x.max_retries +ℤ pos 1)) err
          (x.run.elapsed attempt))
        (count s inc_failed)
  execute_from x (suc left) attempt err s =
      go_on (round x attempt s) (λ s'. execute_from x left (suc attempt) (attempt_job x attempt) s')

  unfoldable pub execute : Config → Task → Run → Effects → Effects × Ended
  unfolding execute_from start round attempt_job go_on
  execute cfg task run s =
      let x = start cfg task run in execute_from x (rounds x.max_retries) 0 none s
