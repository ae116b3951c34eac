-- ===== src/Programs/Failing.antt =====
-- A program of examples/ that submits one e-mail, every attempt of which fails.
use native.Mathlib.Decide.{dec_lt}
use mathlib.Core.Path.{subst}
use gokue.Prelude.{
  ℕ, zero, suc, ◌+◌, ◌*◌, ◌^◌, ◌<◌, ◌-◌, ◌∙◌, ◌≡◌, refl, ap, sym, Bool, Option, none, some, arith,
}
use gokue.Prelude.Int.{ℤ, pos, pos_part, uint64}
use gokue.Float.{Float64}
use gokue.Job.{JobError, Outcome, fails}
use gokue.Config.{Config}
use gokue.Stats.{Collector, inc_failed, inc_retried, snapshot}
use gokue.Dispatcher.{Task, Effects}
use gokue.Execute.{Run, start, delay_after, execute, job_timeout}
use gokue.Execute.Accounting.{times}
use gokue.Submission.{Context}
use gokue.Shutdown.{returns, await_drain}
use gokue.System.{System, deaths, Runs, Reach, Runs-append}
use gokue.System.Draining.{close_nil_drained}
use gokue.System.Uniform.{IsUniform, Runs-Kept, Runs-crashed}
use gokue.Programs.{Email, Line}
use gokue.Programs.Executions.{IsRunOf, fails-EndsWith}

-- The statistics of one submission and of failed executions with `k` retries each.
pub record Failed (k : ℕ) (c : Collector) : Type 0 where
  pub enqueued : c.enqueued ≡ 1
  pub processed : c.processed ≡ 0
  pub failed : c.failed < 2 ^ 64
  pub retried : c.retried ≡ uint64 (k * c.failed)
  pub dropped : c.dropped ≡ 0
  pub rejected : c.retry_predicates_failed ≡ 0

times-retried :
    (k : ℕ) (c : Collector)
    → let c' = times k inc_retried c in
      (uint64 c'.retried ≡ uint64 (c.retried + k))
      × (c.retried < 2 ^ 64 → c'.retried < 2 ^ 64)
      × (c' ≡ record c { retried = c'.retried })
unfolding inc_retried
times-retried zero c = (omega arith, λ h. h, refl)
times-retried (suc k) c =
    let (counted, small, same) = times-retried k (inc_retried c) in
    (omega arith, λ h. small (omega arith), same)

more_retries : (k f : ℕ) → f < 2 ^ 64 → uint64 (k * f + k) ≡ uint64 (k * uint64 (f + 1))
more_retries k f h = elim (dec_lt (f + 1) (2 ^ 64)) [
  | yes room ↦ let counted : uint64 (f + 1) ≡ f + 1 = omega arith in rw counted (grind arith)
  | no full ↦ let last : f ≡ 2 ^ 64 - 1 = omega arith in rw last (omega arith)
]

exhausted-Failed :
    (k : ℕ) (c : Collector) → Failed k c → Failed k (inc_failed (times k inc_retried c))
unfolding inc_failed
exhausted-Failed k c v =
    let (counted, small, same) = times-retried k c in
    let again : uint64 (c.retried + k) ≡ uint64 (k * uint64 (c.failed + 1)) =
      omega (arith, v.retried, more_retries k c.failed v.failed) in
    let now : (times k inc_retried c).retried ≡ uint64 (k * uint64 (c.failed + 1)) =
      omega (arith, counted, again, small (omega (arith, v.retried))) in
    record {
      enqueued = ap (λ c. c.enqueued) same ∙ v.enqueued;
      processed = ap (λ c. c.processed) same ∙ v.processed;
      failed = omega arith;
      retried = now ∙ ap (λ f. uint64 (k * uint64 (f + 1))) (sym (ap (λ c. c.failed) same));
      dropped = ap (λ c. c.dropped) same ∙ v.dropped;
      rejected = ap (λ c. c.retry_predicates_failed) same ∙ v.rejected;
    }

-- The program submits no more.
abbrev pub NoTask : Task → Type 0
NoTask task = ⊥

module _ (unspecified : Float64 → ℤ) (process : Bool → Email → Option ℤ → Line × Outcome)
    (cfg : Config) (k : ℕ) (err : JobError) (limit : cfg.max_retries ≡ pos k)
    (silent : cfg.logger ≡ none) (free : cfg.retry_predicates ≡ none)
    (bad : (choice : Bool) (email : Email)
      → (process choice email (job_timeout cfg.job_timeout)).1 ≡ fails err)
    (delays : (task : Task) (run : Run) (j : ℕ)
      → task.retry_delay ≡ none
      → (delay : ℤ) × (delay_after unspecified (start cfg task run) j ≡ some delay)) where
  execution-Failed :
      (task : Task) (run : Run) (s : Effects)
      → IsRunOf process task run
      → Failed k s.collector
      → Failed k (execute unspecified cfg task run s).0.collector
  execution-Failed task run s v w =
      let (ended, counted) =
        fails-EndsWith unspecified process cfg silent free task run v k err s limit bad
          (λ j. delays task run j v.default_delay) in
      subst (Failed k) (sym counted) (exhausted-Failed k s.collector w)

  execution-survives :
      (task : Task) (run : Run) (s : Effects)
      → IsRunOf process task run
      → deaths (execute unspecified cfg task run s).1 ≡ 0
  execution-survives task run s v =
      let (ended, counted) =
        fails-EndsWith unspecified process cfg silent free task run v k err s limit bad
          (λ j. delays task run j v.default_delay) in
      ap deaths ended

  -- However the workers and the close are interleaved after the submission, when the close returns
  -- nil the e-mail has failed once, after all its retries.
  pub drained-snapshot :
      (s t : System) (p : Bool) (duration : ℤ) (ctx : Context) (runs : Runs unspecified s t)
      → 0 < pos_part cfg.worker_count
      → s.crashed ≡ 0
      → Reach unspecified cfg none s
      → Failed k s.dispatcher.effects.collector
      → IsUniform unspecified NoTask (IsRunOf process) runs
      → (await_drain p duration ctx t.dispatcher).1 ≡ returns none
      → snapshot t.dispatcher.effects.collector ≡ record {
        enqueued = 1;
        processed = 0;
        failed = 1;
        retried = uint64 k;
        dropped = 0;
        retry_predicates_failed = 0;
      }
  unfolding snapshot
  drained-snapshot s t p duration ctx runs crew unharmed before v uniform done =
      let w =
        Runs-Kept unspecified NoTask (IsRunOf process) cfg (Failed k) (λ task c q. absurd q)
          (λ task c q. absurd q) execution-Failed runs before uniform v in
      let alive : t.crashed ≡ 0 =
        Runs-crashed unspecified NoTask (IsRunOf process) cfg execution-survives runs before uniform
        ∙ unharmed in
      let (empty, still, counted, few) =
        close_nil_drained unspecified cfg t p duration ctx (omega arith)
          (Runs-append unspecified before runs) done in
      let once : t.dispatcher.effects.collector.failed ≡ 1 =
        omega (arith, counted, w.enqueued, w.processed, w.failed) in
      let again : t.dispatcher.effects.collector.retried ≡ uint64 k =
        w.retried ∙ ap (λ f. uint64 (k * f)) once ∙ omega arith in
      rw (w.enqueued, w.processed, once, again, w.dropped, w.rejected) refl
