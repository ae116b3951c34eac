-- ===== src/Execute/Accounting.antt =====
-- What an execution adds to the statistics.
use gokue.Logger.{Entry}
use gokue.Prelude.{
  List, if_cases, sym, ◌∙◌, ℕ, zero, suc, ◌-◌, ◌≤◌, ◌<◌, ◌≡◌, refl, ◌⊎◌, inl, inr, Option, none,
  some, arith,
}
use gokue.Prelude.Int.{ℤ, pos_part}
use gokue.Job.{JobError}
use gokue.Stats.{Collector, inc_processed, inc_failed, inc_retried, inc_retry_predicates_failed}
use gokue.Float.{Float64}
use gokue.Config.{Config}
use gokue.Dispatcher.{Task, Effects}
use gokue.Execute.{
  Run, Execution, Ended, completed, rejected, abandoned, exhausted, worker_panic, broken, start,
  after_job, report, round, attempt_job, begin_attempt, execute_from, go_on, or_default, rounds,
  execute, crash, at_start, at_end,
}

-- The final count of an execution.
abbrev pub tally : Ended → Collector → Collector
tally completed c = inc_processed c
tally rejected c = inc_failed (inc_retry_predicates_failed c)
tally abandoned c = inc_failed c
tally exhausted c = inc_failed c
tally worker_panic c = c
tally (broken e) c = tally e c

abbrev pub times {ℓ} : {A : Type ℓ} → ℕ → (A → A) → A → A
times zero f a = a
times (suc n) f a = times n f (f a)

abbrev settle : Option Ended → Collector → Collector
settle none c = c
settle (some e) c = tally e c

-- At most `m` retries, then the final count.
abbrev pub Accounts : ℕ → Collector → Effects × Ended → Type 0
Accounts m c (s, e) = (n : ℕ) × (n ≤ m) × (s.collector ≡ tally e (times n inc_retried c))

go_on-Accounts :
    (m attempt : ℕ) (c : Collector) (r : Effects × Option Ended) (k : Effects → Effects × Ended)
    → (r.0.collector ≡ settle r.1 c)
      ⊎ ((attempt < m) × (r.0.collector ≡ settle r.1 (inc_retried c)))
    → ((s : Effects) → Accounts (m - suc attempt) s.collector (k s))
    → Accounts (m - attempt) c (go_on r k)
unfolding go_on
go_on-Accounts m attempt c (s, none) k (inl e) rest =
    let (n, few, counted) = rest s in (n, omega arith, rw (← e) counted)
go_on-Accounts m attempt c (s, none) k (inr (before, e)) rest =
    let (n, few, counted) = rest s in (suc n, omega arith, rw (← e) counted)
go_on-Accounts m attempt c (s, some last) k (inl e) rest = (0, omega arith, e)
go_on-Accounts m attempt c (s, some last) k (inr (before, e)) rest = (1, omega arith, e)

report_settles :
    (x : Execution) (attempt : ℕ) (e : Ended) (entries : List Entry) (s : Effects)
    → let r = report x attempt e entries s in
      (r.0.collector ≡ s.collector) × ((c : Collector) → tally r.1 c ≡ tally e c)
unfolding report
report_settles x attempt e entries s =
    if_cases
      (λ (r : Effects × Ended).
        (r.0.collector ≡ s.collector) × ((c : Collector) → tally r.1 c ≡ tally e c))
      (crash x attempt at_end) _ _ (λ h. (refl, λ c. refl)) (λ h. (refl, λ c. refl))

module _ (unspecified : Float64 → ℤ) where
  after_job_settles :
      (x : Execution) (attempt : ℕ) (err : Option JobError) (s : Effects)
      → let r = after_job unspecified x attempt err s in
        (r.0.collector ≡ settle r.1 s.collector)
        ⊎ ((attempt < pos_part x.max_retries)
            × (r.0.collector ≡ settle r.1 (inc_retried s.collector)))
  unfolding after_job report
  after_job_settles x attempt none s = ground arith
  after_job_settles x attempt (some err) s = ground arith

  round_settles :
      (x : Execution) (attempt : ℕ) (s : Effects)
      → let r = round unspecified x attempt s in
        (r.0.collector ≡ settle r.1 s.collector)
        ⊎ ((attempt < pos_part x.max_retries)
            × (r.0.collector ≡ settle r.1 (inc_retried s.collector)))
  unfolding round begin_attempt
  round_settles x attempt s =
      if_cases
        (λ (r : Effects × Option Ended).
          (r.0.collector ≡ settle r.1 s.collector)
          ⊎ ((attempt < pos_part x.max_retries)
              × (r.0.collector ≡ settle r.1 (inc_retried s.collector))))
        (crash x attempt at_start) (s, some worker_panic)
        (after_job unspecified x attempt (attempt_job unspecified x attempt)
          (begin_attempt unspecified x attempt s))
        (λ h. inl refl)
        (λ h.
          after_job_settles x attempt (attempt_job unspecified x attempt)
            (begin_attempt unspecified x attempt s))

  execute_from-Accounts :
      (x : Execution) (left attempt : ℕ) (err : Option JobError) (s : Effects)
      → Accounts
          (pos_part x.max_retries - attempt)
          s.collector
          (execute_from unspecified x left attempt err s)
  unfolding execute_from
  execute_from-Accounts x zero attempt err s =
      let (same, counts) =
        report_settles x attempt exhausted _ (record s { collector = inc_failed s.collector }) in
      (0, omega arith, same ∙ sym (counts s.collector))
  execute_from-Accounts x (suc left) attempt err s =
      go_on-Accounts (pos_part x.max_retries) attempt s.collector (round unspecified x attempt s) _
        (round_settles x attempt s)
        (λ s'. execute_from-Accounts x left (suc attempt) (attempt_job unspecified x attempt) s')

  -- What `execute` adds to the statistics, given how each of its calls of `Process`, of the logger and
  -- of the retry predicate ends, with a return or a panic (it is not about calls that never end): it
  -- increments `Retried` at most `maxRetries` times and then makes one final count: `Processed` once
  -- after a success, `Failed` once after any other end (with `RetryPredicatesFailed` if the predicate
  -- rejected the error), also if the logger then panics; and nothing if a panic outside the job came
  -- before that count. `Enqueued` and `Dropped` do not change. `maxRetries` is the task's own value if
  -- it has one, and a negative value allows no retry.
  pub execute-Accounts :
      (cfg : Config) (task : Task) (run : Run) (s : Effects)
      → Accounts
          (pos_part (or_default task.max_retries cfg.max_retries))
          s.collector
          (execute unspecified cfg task run s)
  unfolding execute
  execute-Accounts cfg task run s =
      let x = start cfg task run in
      let (n, few, counted) = execute_from-Accounts x (rounds x.max_retries) 0 none s in
      (n, omega arith, counted)
