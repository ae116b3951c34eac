-- ===== src/Programs/SingleWorker.antt =====
-- examples/single-worker/main.go: one e-mail that takes longer than the timeout of a job.
use gokue.Prelude.{ℕ, ◌≡◌, refl, Bool, true, Option, none, some, List, [], ◌∷◌, arith, ap, inl}
use gokue.Prelude.Int.{ℤ, pos}
use gokue.Prelude.Bytes.{Bytes}
use gokue.Float.{Float64}
use gokue.Job.{deadline_exceeded, timed_out, name_of, Outcome, succeeds, fails}
use gokue.Config.{
  Config, validate, is_memory_type, is_backoff_strategy, validate_ranges, exponential,
}
use gokue.Stats.{inc_enqueued}
use gokue.Dispatcher.{Task, new_dispatcher}
use gokue.Execute.{Run, start, delay_after, job_timeout}
use gokue.Submission.{Context, submit, count_sent}
use gokue.Queue
use gokue.Backoff.Capped.{retry_delay_capped}
use gokue.System
use gokue.System.{System, Reach, Runs, submits, counts, later}
use gokue.System.Uniform.{IsUniform}
use gokue.Shutdown.{returns, await_drain}
use gokue.Programs.Failing.{Failed, NoTask, drained-snapshot}
use mathlib.Core.Path.{subst}
use gokue.Programs.Executions.{IsRunOf}
use gokue.Queue.{Queue, new_queue, configured, background, built_task, stats}
use gokue.Queue.Options.{
  QueueOption, with_worker_count, with_queue_size, with_max_retries, with_job_timeout,
}
use gokue.Programs.{
  Email, Line, sending, failed_to_send, seconds, timer_or_done, new_or_panic, submit_each,
  system_of, job_of,
}

unfoldable pub process : Bool → Email → Option ℤ → Line × Outcome
unfolding timer_or_done
process prefer_timer email timeout = elim (timer_or_done prefer_timer (seconds 10) timeout) [
  | none ↦ (sending email, succeeds)
  | some err ↦ (failed_to_send email err, fails (timed_out err))
]

unfoldable pub options : List QueueOption
options =
    with_worker_count (pos 1)
    ∷ with_queue_size (pos 64)
    ∷ with_max_retries (pos 2)
    ∷ with_job_timeout (seconds 2)
    ∷ []

abbrev pub email : Email
email = record { address = "johndoe@gmail.com"; message = "This is testing the email" }

-- Up to the deferred `Close`.
unfoldable pub main : (ℕ → ℤ) → (Email → Bytes) → ℤ → Option Queue
unfolding new_queue submit_each options
main clock contents max_procs =
    submit_each clock contents (email ∷ []) (new_or_panic (new_queue max_procs options))

abbrev pub config : ℤ → Config
config max_procs = configured max_procs none options

-- What `main` has done when its submission returns.
submitted : (ℕ → ℤ) → (Email → Bytes) → ℤ → Queue
submitted clock contents max_procs = record {
  config = config max_procs;
  dispatcher =
      count_sent (name_of (some (job_of contents email))) []
        (submit true (clock 0) (some background) (built_task (some (job_of contents email)) [])
          (new_dispatcher (config max_procs) none)).0;
}

main-submitted :
    (clock : ℕ → ℤ) (contents : Email → Bytes) (max_procs : ℤ)
    → main clock contents max_procs ≡ some (submitted clock contents max_procs)
unfolding submitted main submit_each options configured with_worker_count with_queue_size
    with_max_retries with_job_timeout new_queue new_dispatcher Queue.submit submit count_sent
    name_of built_task validate is_memory_type is_backoff_strategy validate_ranges
main-submitted clock contents max_procs = refl

submitted-Failed :
    (clock : ℕ → ℤ) (contents : Email → Bytes) (max_procs : ℤ)
    → Failed 2 (submitted clock contents max_procs).dispatcher.effects.collector
unfolding submitted options configured with_worker_count with_queue_size with_max_retries
    with_job_timeout new_dispatcher submit count_sent built_task inc_enqueued name_of
submitted-Failed clock contents max_procs = record {
  enqueued = refl;
  processed = refl;
  failed = omega arith;
  retried = refl;
  dropped = refl;
  rejected = refl;
}

-- The timer never comes first.
process-times_out :
    (choice : Bool) (mail : Email) (max_procs : ℤ)
    → process choice mail (job_timeout (config max_procs).job_timeout)
      ≡ (failed_to_send mail deadline_exceeded, fails (timed_out deadline_exceeded))
unfolding process options with_worker_count with_queue_size with_max_retries with_job_timeout
    configured
process-times_out choice mail max_procs = refl

config_delays :
    (unspecified : Float64 → ℤ) (max_procs : ℤ) (task : Task) (run : Run) (j : ℕ)
    → task.retry_delay ≡ none
    → (delay : ℤ) × (delay_after unspecified (start (config max_procs) task run) j ≡ some delay)
unfolding start delay_after options with_worker_count with_queue_size with_max_retries
    with_job_timeout configured
config_delays unspecified max_procs task run j h =
    let (delay, given, small) =
      retry_delay_capped unspecified (run.draw j)
        (start (config max_procs) task run).retry_base_delay 30_000_000_000 j exponential (inl refl)
        (omega arith) (omega arith) in
    (pos delay, given)

submitted-Reach :
    (unspecified : Float64 → ℤ) (clock : ℕ → ℤ) (contents : Email → Bytes) (max_procs : ℤ)
    → Reach unspecified (config max_procs) none (system_of (submitted clock contents max_procs))
unfolding submitted name_of submit new_dispatcher built_task options configured with_worker_count
    with_queue_size with_max_retries with_job_timeout
submitted-Reach unspecified clock contents max_procs =
    later
      (later System.start
        (submits true (clock 0) (some background) (built_task (some (job_of contents email)) [])))
      (counts [] [] (name_of (some (job_of contents email))) refl)

-- The program sends no e-mail. Each call of `Process` is given a context that ends after 2 s and
-- returns its error, since the timer of 10 s cannot come first; and when its `Close` returns nil,
-- in whichever order its worker and the close went on after the submission, and where no wait was
-- cut short, the statistics are one job enqueued, none processed, two retries and one failure.
pub sends_nothing :
    (unspecified : Float64 → ℤ) (clock : ℕ → ℤ) (contents : Email → Bytes) (max_procs : ℤ)
    (q : Queue) (s : System) (p : Bool) (duration : ℤ) (ctx : Context)
    (runs : Runs unspecified (system_of q) s)
    → main clock contents max_procs ≡ some q
    → IsUniform unspecified NoTask (IsRunOf process) runs
    → (await_drain p duration ctx s.dispatcher).1 ≡ returns none
    → ((choice : Bool) (mail : Email)
        → process choice mail (job_timeout q.config.job_timeout)
          ≡ (failed_to_send mail deadline_exceeded, fails (timed_out deadline_exceeded)))
      × (stats (some (record q { dispatcher = s.dispatcher })) ≡ record {
        enqueued = 1;
        processed = 0;
        failed = 1;
        retried = 2;
        dropped = 0;
        retry_predicates_failed = 0;
      })
unfolding stats submitted configured options with_worker_count with_queue_size with_max_retries
    with_job_timeout
sends_nothing unspecified clock contents max_procs q s p duration ctx runs made uniform done =
    let same : submitted clock contents max_procs ≡ q =
      cc (main-submitted clock contents max_procs) in
    (
      λ choice mail.
          subst
            (λ (c : Config).
              process choice mail (job_timeout c.job_timeout)
              ≡ (failed_to_send mail deadline_exceeded, fails (timed_out deadline_exceeded)))
            (ap (λ q. q.config) same) (process-times_out choice mail max_procs),
      drained-snapshot unspecified process (config max_procs) 2 (timed_out deadline_exceeded) refl
          refl refl (λ choice mail. ap (λ r. r.1) (process-times_out choice mail max_procs))
          (config_delays unspecified max_procs) (system_of q) s p duration ctx runs (omega arith)
          refl
          (subst (λ q. Reach unspecified (config max_procs) none (system_of q)) same
            (submitted-Reach unspecified clock contents max_procs))
          (subst (λ (q : Queue). Failed 2 q.dispatcher.effects.collector) same
            (submitted-Failed clock contents max_procs))
          uniform done,
    )
