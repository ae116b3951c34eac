-- ===== src/Queue/Starting.antt =====
-- What `NewQueue` of gokue.go starts, and what its clients see of a drained queue.
use mathlib.Core.Path.{subst}
use gokue.Prelude.{
  ◌+◌, ◌≤◌, ◌<◌, ◌≡◌, refl, sym, ap, ◌∙◌, Bool, Option, none, some, List, [], ◌∷◌, ◌++◌, ◌⊎◌, inl,
  inr, arith, Option-cases,
}
use gokue.Prelude.Int.{ℤ, pos_part, uint64}
use gokue.Float.{Float64}
use gokue.Logger.{Logger}
use gokue.Job.{Job}
use gokue.Config.{Config, InvalidConfig, validate}
use gokue.Config.Validity.{IsValid, validate-eq-none_iff}
use gokue.Dispatcher.{Task, new_dispatcher}
use gokue.Execute.{Run, start}
use gokue.Submission.{Context, prepare}
use gokue.Shutdown
use gokue.Shutdown.{await_drain}
use gokue.System.{System, Runs}
use gokue.System.Draining.{close_nil_drained}
use gokue.Queue.{Queue, configured, new_queue_with_logger, built_task, stats}
use gokue.Queue.Options.{QueueOption, SubmitOption, max_retries, retry_delay, apply_options}

-- What `NewQueueWithLogger` makes of its arguments: an error, or a queue.
abbrev pub Started : ℤ → Option Logger → List QueueOption → InvalidConfig ⊎ Queue → Type 0
Started max_procs logger options (inl e) =
    (validate (configured max_procs logger options) ≡ some e)
    × (¬ IsValid (configured max_procs logger options))
Started max_procs logger options (inr q) =
    (q ≡ record {
      config = configured max_procs logger options;
      dispatcher = new_dispatcher (configured max_procs logger options) none;
    })
    × IsValid q.config

-- `NewQueue` and `NewQueueWithLogger` fail exactly where the configuration that the options leave is
-- not valid, with the error of `Validate`; else they return a queue with that configuration and
-- a new dispatcher of its own.
pub new_queue_starts :
    (max_procs : ℤ) (logger : Option Logger) (options : List QueueOption)
    → Started max_procs logger options (new_queue_with_logger max_procs logger options)
unfolding new_queue_with_logger new_dispatcher
new_queue_starts max_procs logger options =
    let c = configured max_procs logger options in
    elim (Option-cases (validate c)) [
      | inl passes ↦ rw (passes, new_queue_with_logger) (refl, (validate-eq-none_iff c).0 passes)
      | inr (e, fails) ↦
          rw (fails, new_queue_with_logger) (fails, λ v. cc ((validate-eq-none_iff c).1 v))
    ]

valid_crew : (c : Config) → IsValid c → 0 < pos_part c.worker_count
valid_crew c (_, _, v) = omega (arith, v.some_worker)

new_queue-IsValid :
    (max_procs : ℤ) (logger : Option Logger) (options : List QueueOption) (q : Queue)
    → new_queue_with_logger max_procs logger options ≡ inr q
    → (q.dispatcher ≡ new_dispatcher q.config none) × IsValid q.config
new_queue-IsValid max_procs logger options q e =
    let (made, v) =
      subst (Started max_procs logger options) e (new_queue_starts max_procs logger options) in
    (cc made, v)

module _ (unspecified : Float64 → ℤ) where
  -- A queue that `NewQueue` made, and on which a close in drain mode returned nil after any steps of
  -- its clients and workers in which not every worker died of a panic outside the job (of the delay,
  -- the logger or the retry predicate): the statistics it shows count every accepted job as processed
  -- or failed (modulo 2^64), but for those that dead workers had not counted, one for each of them
  -- at most.
  pub drained_stats :
      (max_procs : ℤ) (logger : Option Logger) (options : List QueueOption) (q : Queue) (s : System)
      (p : Bool) (duration : ℤ) (ctx : Context)
      → new_queue_with_logger max_procs logger options ≡ inr q
      → s.crashed < pos_part q.config.worker_count
      → Runs unspecified
          (record { dispatcher = q.dispatcher; running = []; lost = 0; crashed = 0 })
          s
      → (await_drain p duration ctx s.dispatcher).1 ≡ Shutdown.returns none
      → let seen = stats (some (record q { dispatcher = s.dispatcher })) in
        (seen.enqueued ≡ uint64 (seen.processed + seen.failed + s.lost)) × (s.lost ≤ s.crashed)
  unfolding stats
  drained_stats max_procs logger options q s p duration ctx made alive runs done =
      let (fresh, v) = new_queue-IsValid max_procs logger options q made in
      let (empty, still, settled, few) =
        close_nil_drained unspecified q.config s p duration ctx alive
          (subst
            (λ d.
              Runs unspecified (record { dispatcher = d; running = []; lost = 0; crashed = 0 }) s)
            fresh runs)
          done in
      (settled, few)

-- The last option decides.
apply-append :
    {A : Type 0} (options : List (Option (A → A))) (last : A → A) (a : A)
    → apply_options (options ++ some last ∷ []) a ≡ last (apply_options options a)
unfolding apply_options
apply-append [] last a = refl
apply-append (none ∷ options) last a = apply-append options last a
apply-append (some option ∷ options) last a = apply-append options last (option a)

prepare-overrides :
    (now : ℤ) (t : Task)
    → ((prepare now t).max_retries ≡ t.max_retries) × ((prepare now t).retry_delay ≡ t.retry_delay)
unfolding prepare
prepare-overrides now t = ground arith

-- The task that the two options leave.
overridden : Task → ℤ → ℤ → Task
overridden t n delay = record t { max_retries = some n; retry_delay = some delay }

built_task-overrides :
    (job : Option Job) (opts : List SubmitOption) (n delay : ℤ)
    → built_task job ((opts ++ max_retries n ∷ []) ++ retry_delay delay ∷ [])
      ≡ overridden (built_task job opts) n delay
unfolding built_task max_retries retry_delay overridden
built_task-overrides job opts n delay =
    apply-append (opts ++ max_retries n ∷ []) _ _
    ∙ ap (λ (t : Task). record t { retry_delay = some delay }) (apply-append opts _ _)

-- `MaxRetries n` and `RetryDelay d` at the end of the options of a submission override both the
-- earlier options and the configuration, whatever these are, also after the dispatcher has filled in
-- the task: the execution of the task has `n` retries and the base delay `d`.
pub overrides_win :
    (cfg : Config) (job : Option Job) (opts : List SubmitOption) (n delay now : ℤ) (run : Run)
    → let x =
        start cfg
          (prepare now (built_task job ((opts ++ max_retries n ∷ []) ++ retry_delay delay ∷ [])))
          run in
      (x.max_retries ≡ n) × (x.retry_base_delay ≡ delay)
unfolding start overridden
overrides_win cfg job opts n delay now run =
    let t = overridden (built_task job opts) n delay in
    subst
      (λ b.
        ((start cfg (prepare now b) run).max_retries ≡ n)
        × ((start cfg (prepare now b) run).retry_base_delay ≡ delay))
      (sym (built_task-overrides job opts n delay)) (ground (arith, prepare-overrides now t))
