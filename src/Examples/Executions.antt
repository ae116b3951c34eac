-- ===== src/Examples/Executions.antt =====
-- The theorems on executions, delays, configurations and names at concrete inputs.
use gokue.Prelude.{ℕ, zero, suc, ◌≡◌, ◌≤◌, ◌↔◌, refl, Option, none, some, [], inr, arith}
use gokue.Prelude.Int.{ℤ, pos, negsuc, ◌≤ℤ◌}
use gokue.Job.{returned, Outcome, fails}
use gokue.Config.{constant, linear, exponential, exponential_jitter, validate}
use gokue.Config.Validity.{IsValid, validate-eq-none_iff}
use gokue.Stats.{new_collector, inc_failed}
use gokue.Backoff.{retry_delay}
use gokue.Backoff.Exact.{retry_delay_exact}
use gokue.Backoff.Capped.{retry_delay_capped}
use gokue.Backoff.Overflow.{retry_delay_overflow}
use gokue.Dispatcher.{Task, Effects}
use gokue.Execute.{
  at_start, at_predicate, at_retry, at_end, completed, exhausted, start, attempt_job, delay_after,
  execute,
}
use gokue.Execute.Accounting.{Accounts, execute-Accounts}
use gokue.Execute.Outcomes.{IsSteady, IsRetried, Stops, by_success, EndsWith, execute-EndsWith}
use gokue.Execute.Limits.{execute_negative}
use gokue.Examples.Data.{config, task, run, least_int64}

abbrev effects : Effects
effects = record { collector = new_collector; log = [] }

steady : IsSteady (start config task run)
unfolding start
steady j at_start = refl
steady j at_predicate = refl
steady j at_retry = refl
steady j at_end = refl

first-IsRetried : IsRetried least_int64 (start config task run) 0
unfolding start attempt_job delay_after retry_delay
first-IsRetried = record {
  err = returned "smtp";
  delay = pos 5;
  failed = refl;
  allowed = refl;
  delayed = refl;
  waited = refl;
}

only_first : (j : ℕ) → suc j ≤ 1 → IsRetried least_int64 (start config task run) j
only_first zero h = first-IsRetried
only_first (suc j) h = absurd (omega arith)

second_succeeds : Stops least_int64 (start config task run) 1 completed
unfolding start attempt_job
second_succeeds = by_success refl

execute-EndsWith_example :
    EndsWith least_int64 completed 1 new_collector (execute least_int64 config task run effects)
unfolding start
execute-EndsWith_example =
    execute-EndsWith least_int64 config task run 2 1 completed effects steady refl (omega arith)
      only_first second_succeeds

execute-Accounts_example : Accounts 2 new_collector (execute least_int64 config task run effects)
execute-Accounts_example = execute-Accounts least_int64 config task run effects

abbrev never : Task
never = record task { max_retries = some (negsuc 0) }

abbrev always_fails : ℕ → Option ℤ → Outcome
always_fails j deadline = fails (returned "down")

never-IsSteady : IsSteady (start config never run)
unfolding start
never-IsSteady j at_start = refl
never-IsSteady j at_predicate = refl
never-IsSteady j at_retry = refl
never-IsSteady j at_end = refl

execute_negative_example :
    (execute least_int64 config never run effects
      ≡ execute least_int64 config never (record run { process = always_fails }) effects)
    × ((execute least_int64 config never run effects).1 ≡ exhausted)
    × ((execute least_int64 config never run effects).0.collector ≡ inc_failed new_collector)
execute_negative_example =
    execute_negative least_int64 config never run effects 0 always_fails never-IsSteady refl

retry_delay_exact_example :
    (retry_delay least_int64 0 (pos 5) (pos 100) 3 constant ≡ some (pos 5))
    × (retry_delay least_int64 0 (pos 5) (pos 100) 3 linear ≡ some (pos 20))
    × (retry_delay least_int64 0 (pos 5) (pos 100) 3 exponential ≡ some (pos 40))
retry_delay_exact_example =
    retry_delay_exact least_int64 0 5 100 3 (omega arith) (omega arith) (omega arith) (omega arith)

retry_delay_capped_example :
    (d : ℕ) × (retry_delay least_int64 77 (pos 5) (pos 100) 2000 exponential_jitter ≡ some (pos d))
    × (d ≤ 100)
retry_delay_capped_example =
    retry_delay_capped least_int64 77 (pos 5) 100 2000 exponential_jitter (inr refl) (omega arith)
      (omega arith)

-- A quarter of a second, doubled 40 times.
retry_delay_overflow_example :
    ((d : ℤ) × (retry_delay least_int64 0 (pos 250_000_000) (pos 0) 40 exponential ≡ some d)
      × (d ≤ℤ pos 0))
    × (retry_delay least_int64 0 (pos 250_000_000) (pos 0) 40 exponential_jitter ≡ none)
retry_delay_overflow_example =
    retry_delay_overflow least_int64 0 250_000_000 40 (pos 0) (λ x. omega arith) (omega arith)
      (omega arith) (omega arith) (omega arith)

validate-eq-none_iff_example : (validate config ≡ none) ↔ IsValid config
validate-eq-none_iff_example = validate-eq-none_iff config
