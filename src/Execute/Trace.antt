-- ===== src/Execute/Trace.antt =====
-- What an execution of dispatcher/dispatcher.go logs, entry by entry.
use gokue.Prelude.{ℕ, suc, ◌+◌, ◌<◌, ◌≡◌, true, false, ◌&&◌, Option, none, some, List, ◌++◌}
use gokue.Prelude.Int.{ℤ, pos, ltb_ℤ, ◌+ℤ◌, int64}
use gokue.Job.{JobError}
use gokue.Logger.{
  Entry, log_job_processing, log_job_success, log_job_failure, log_job_retry, log_job_abandoned,
}
use gokue.Float.{Float64}
use gokue.Config.{Config}
use gokue.Dispatcher.{Effects}
use gokue.Execute.Outcomes.{IsSteady}
use gokue.Execute.{
  Execution, Ended, completed, rejected, abandoned, exhausted, worker_panic, rejects, delay_after,
  attempt_job, go_on, rounds,
}

module _ (unspecified : Float64 → ℤ) (x : Execution) where
  abbrev processing : ℕ → List Entry
  processing j = log_job_processing x.cfg.logger x.name (pos (j + 1))

  abbrev retry_entry : ℕ → JobError → ℤ → List Entry
  retry_entry j err delay = log_job_retry x.cfg.logger x.name (pos (j + 1)) (some err) delay

  -- The attempt `j`, which is one of those allowed, fails with an error that may be retried.
  pub record Fails (j : ℕ) (err : JobError) : Type 0 where
    pub made : j < rounds x.max_retries
    pub failed : attempt_job unspecified x j ≡ some err
    pub allowed : rejects x.retry_predicates err ≡ false

  -- The entries from attempt `j` on, behind the error `last`, of an execution that ends as given.
  pub data Trace : ℕ → Option JobError → List Entry → Ended → Type 0 where
    completes :
        {j : ℕ} {last : Option JobError}
        → j < rounds x.max_retries
        → attempt_job unspecified x j ≡ none
        → Trace j last
            (processing j ++ log_job_success x.cfg.logger x.name (x.run.elapsed j))
            completed
    is_rejected :
        {j : ℕ} {last : Option JobError} (err : JobError)
        → j < rounds x.max_retries
        → attempt_job unspecified x j ≡ some err
        → rejects x.retry_predicates err ≡ true
        → Trace j last
            (processing j
              ++ log_job_failure x.cfg.logger x.name (pos (j + 1)) (some err) (x.run.elapsed j))
            rejected
    panics_after :
        {j : ℕ} {last : Option JobError} (err : JobError)
        → Fails j err
        → ltb_ℤ (pos j) x.max_retries ≡ true
        → delay_after unspecified x j ≡ none
        → Trace j last (processing j) worker_panic
    is_abandoned :
        {j : ℕ} {last : Option JobError} (err : JobError) (delay : ℤ)
        → Fails j err
        → ltb_ℤ (pos j) x.max_retries ≡ true
        → delay_after unspecified x j ≡ some delay
        → (ltb_ℤ (pos 0) delay && x.run.quits j) ≡ true
        → Trace j last
            ((processing j ++ retry_entry j err delay)
              ++ log_job_abandoned x.cfg.logger x.name
                  (pos (j + 1))
                  "dispatcher_shutdown"
                  (x.run.elapsed j))
            abandoned
    retries :
        {j : ℕ} {last : Option JobError} (err : JobError) (delay : ℤ) {es : List Entry} {e : Ended}
        → Fails j err
        → ltb_ℤ (pos j) x.max_retries ≡ true
        → delay_after unspecified x j ≡ some delay
        → (ltb_ℤ (pos 0) delay && x.run.quits j) ≡ false
        → Trace (suc j) (some err) es e
        → Trace j last ((processing j ++ retry_entry j err delay) ++ es) e
    gives_up :
        {j : ℕ} {last : Option JobError} (err : JobError) {es : List Entry} {e : Ended}
        → Fails j err
        → ltb_ℤ (pos j) x.max_retries ≡ false
        → Trace (suc j) (some err) es e
        → Trace j last (processing j ++ es) e
    exhausts :
        {j : ℕ} {last : Option JobError}
        → j ≡ rounds x.max_retries
        → Trace j last
            (log_job_failure x.cfg.logger x.name
              (int64 (x.max_retries +ℤ pos 1))
              last
              (x.run.elapsed j))
            exhausted

  -- What the execution adds to the log is a trace.
  abbrev pub Traced : ℕ → Option JobError → Effects → Effects × Ended → Type 0
  Traced j last s r = (es : List Entry) × Trace j last es r.1 × (r.0.log ≡ s.log ++ es)

module _ (unspecified : Float64 → ℤ) (x : Execution) (steady : IsSteady x) where
  module _ (j : ℕ) (last : Option JobError) (s : Effects) (k : Effects → Effects × Ended) where
    -- The round with what follows it.
    abbrev Settled : Effects × Option Ended → Type 0
    Settled r = Traced unspecified x j last s (go_on r k)
