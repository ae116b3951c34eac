-- ===== src/Programs/Executions.antt =====
-- The executions of the e-mails of examples/.
use gokue.Prelude.{ℕ, ◌≡◌, refl, ap, ◌∙◌, Bool, false, Option, none, some, arith}
use gokue.Prelude.Int.{ℤ, pos}
use gokue.Float.{Float64}
use gokue.Job.{JobError, Outcome, fails}
use gokue.Config.{Config}
use gokue.Dispatcher.{Task, Effects}
use gokue.Execute.{
  at_start, at_predicate, at_retry, at_end, Run, rejects, exhausted, start, attempt_job, run_job,
  recovered, delay_after, execute, job_timeout,
}
use gokue.Execute.Outcomes.{by_limit, IsSteady, EndsWith, execute-EndsWith}
use gokue.Programs.{Email, Line}

-- The execution of a task that was submitted without options, each of whose attempts is a call of
-- the method `process` of an e-mail, and whose waits the shutdown does not cut short.
pub record IsRunOf (process : Bool → Email → Option ℤ → Line × Outcome) (task : Task) (run : Run)
    : Type 0 where
  pub email : Email
  pub choices : ℕ → Bool
  pub calls :
      (j : ℕ) (deadline : Option ℤ)
      → run.process j deadline ≡ (process (choices j) email deadline).1
  pub default_retries : task.max_retries ≡ none
  pub default_delay : task.retry_delay ≡ none
  pub default_predicates : task.retry_predicates ≡ none
  pub waits : (j : ℕ) → run.quits j ≡ false

module _ (unspecified : Float64 → ℤ) (process : Bool → Email → Option ℤ → Line × Outcome)
    (cfg : Config) (silent : cfg.logger ≡ none) (free : cfg.retry_predicates ≡ none) (task : Task)
    (run : Run) (v : IsRunOf process task run) where
  -- Nothing is called that could panic.
  steady : IsSteady (start cfg task run)
  unfolding start
  steady j at_start = rw silent refl
  steady j at_predicate = rw (v.default_predicates, free) refl
  steady j at_retry = rw silent refl
  steady j at_end = rw silent refl

  attempt-calls :
      (j : ℕ)
      → attempt_job unspecified (start cfg task run) j
        ≡ recovered task.name (process (v.choices j) v.email (job_timeout cfg.job_timeout)).1
  unfolding start attempt_job run_job
  attempt-calls j = ap (recovered task.name) (v.calls j (job_timeout cfg.job_timeout))

  limit_of : (m : ℕ) → cfg.max_retries ≡ pos m → (start cfg task run).max_retries ≡ pos m
  unfolding start
  limit_of m limit = rw v.default_retries limit

  -- An execution whose calls all fail makes every retry.
  pub fails-EndsWith :
      (m : ℕ) (err : JobError) (s : Effects)
      → cfg.max_retries ≡ pos m
      → ((choice : Bool) (email : Email)
          → (process choice email (job_timeout cfg.job_timeout)).1 ≡ fails err)
      → ((j : ℕ) → (delay : ℤ) × (delay_after unspecified (start cfg task run) j ≡ some delay))
      → EndsWith unspecified exhausted m s.collector (execute unspecified cfg task run s)
  unfolding recovered start
  fails-EndsWith m err s limit bad delays =
      let failing : (j : ℕ) → attempt_job unspecified (start cfg task run) j ≡ some err =
        λ j. attempt-calls j ∙ ap (recovered task.name) (bad (v.choices j) v.email) in
      let allowed : rejects (start cfg task run).retry_predicates err ≡ false =
        rw (v.default_predicates, free) refl in
      execute-EndsWith unspecified cfg task run m m exhausted s steady (limit_of m limit)
        (omega arith)
        (λ j h.
          let (delay, given) = delays j in
          record {
            err = err;
            delay = delay;
            failed = failing j;
            allowed = allowed;
            delayed = given;
            waited = ground (arith, v.waits j);
          })
        (by_limit err (failing m) allowed (limit_of m limit))
