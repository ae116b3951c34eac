-- ===== src/System/Accounted.antt =====
-- What each step does to the count of the accepted tasks.
use gokue.Prelude.{
  ℕ, zero, suc, ◌+◌, ◌-◌, ◌≤◌, ◌<◌, ◌≡◌, refl, Bool, true, String, Option, none, List, [], ◌∷◌,
  ◌++◌, length, length-append, arith, ap, ◌∙◌,
}
use gokue.Prelude.Int.{ℤ, pos_part, uint64}
use gokue.Float.{Float64}
use gokue.Config.{Config}
use gokue.Stats.{
  Collector, inc_retried, inc_processed, inc_failed, inc_retry_predicates_failed, inc_enqueued,
  inc_dropped,
}
use gokue.Dispatcher.{Task, Dispatcher, Effects, new_dispatcher}
use gokue.Execute.{Ended, completed, rejected, abandoned, exhausted, worker_panic, broken}
use gokue.Execute.Accounting.{tally, times, Accounts, execute-Accounts}
use gokue.Submission.{Context, Submitted, enqueue, count_sent, drop, reject_closed}
use gokue.Submission.Branches.{
  Effect, refused_ctx, refused_job, rejected as rejects, enqueued, dropped_full, dropped_ctx,
  blocked, panicked, submit-Effect, try_submit-Effect,
}
use gokue.Shutdown.{
  close_with_mode, await_drain, received, no_more, receive, worker_done, after_execute,
}
use gokue.System.{
  System, init, losses, deaths, ended_with, finish, Step, submits, try_submits, counts, closes,
  drains, takes, finishes, exits,
}

-- The tasks that left the system, the queued ones, and `n` others, as the counters see them: the
-- submissions that have sent their task and not counted it yet stand on the side of `Enqueued`.
abbrev pub Counted : ℕ → Dispatcher → Type 0
Counted n d =
    let c = d.effects.collector in
    uint64 (c.enqueued + length d.sending) ≡ uint64 (c.processed + c.failed + length d.tasks + n)

-- While some worker of the initial crew is neither alive nor dead by a panic, the queue is closed
-- and empty: that worker has returned. Once the dispatcher is closed, no submission is under way.
pub record Accounted (cfg : Config) (s : System) : Type 0 where
  pub config : s.dispatcher.cfg ≡ cfg
  pub busy : length s.running ≤ s.dispatcher.workers
  pub crew : s.dispatcher.workers + s.crashed ≤ pos_part cfg.worker_count
  pub gone_closed :
      s.dispatcher.workers + s.crashed < pos_part cfg.worker_count → s.dispatcher.closed ≡ true
  pub gone_empty :
      s.dispatcher.workers + s.crashed < pos_part cfg.worker_count → length s.dispatcher.tasks ≡ 0
  pub lost_few : s.lost ≤ s.crashed
  pub quiet : s.dispatcher.closed ≡ true → length s.dispatcher.sending ≡ 0
  pub bounded :
      s.dispatcher.effects.collector.enqueued ≡ uint64 s.dispatcher.effects.collector.enqueued
  pub counted : Counted (length s.running + s.lost) s.dispatcher

times-inc_retried :
    (n : ℕ) (c : Collector)
    → let c' = times n inc_retried c in
      (c'.enqueued ≡ c.enqueued) × (c'.processed ≡ c.processed) × (c'.failed ≡ c.failed)
unfolding inc_retried
times-inc_retried zero c = (refl, refl, refl)
times-inc_retried (suc n) c = times-inc_retried n (inc_retried c)

tally_counts :
    (e : Ended) (c : Collector)
    → ((tally e c).enqueued ≡ c.enqueued)
      × (uint64 ((tally e c).processed + (tally e c).failed + losses e)
          ≡ uint64 (c.processed + c.failed + 1))
unfolding inc_processed inc_failed inc_retry_predicates_failed
tally_counts completed c = (refl, omega arith)
tally_counts rejected c = (refl, omega arith)
tally_counts abandoned c = (refl, omega arith)
tally_counts exhausted c = (refl, omega arith)
tally_counts worker_panic c = (refl, omega arith)
tally_counts (broken e) c = tally_counts e c

-- An execution moves one task from the running ones to the others.
Accounts-Counted :
    (m n : ℕ) (d : Dispatcher) (r : Effects × Ended)
    → Accounts m d.effects.collector r
    → Counted (suc n) d
    → (r.0.collector.enqueued ≡ d.effects.collector.enqueued)
      × (uint64 (r.0.collector.enqueued + length d.sending)
          ≡ uint64
              (r.0.collector.processed + r.0.collector.failed + length d.tasks + (n + losses r.1)))
Accounts-Counted m n d (s, e) (k, few, told) h = ground (
  arith,
  times-inc_retried k d.effects.collector,
  tally_counts e (times k inc_retried d.effects.collector),
)

Effect-Accounted :
    {cfg : Config} {s : System} {t : Task} {r : Dispatcher × Submitted}
    → Effect s.dispatcher t r
    → Accounted cfg s
    → Accounted cfg (record s { dispatcher = r.0 })
unfolding enqueue drop reject_closed inc_dropped
Effect-Accounted refused_ctx v = ground arith
Effect-Accounted refused_job v = ground arith
Effect-Accounted (rejects c) v = ground arith
Effect-Accounted {s = s} {t = t} (enqueued o c r) v =
    ground (arith, length-append s.dispatcher.tasks (t ∷ []))
Effect-Accounted (dropped_full o f) v = ground arith
Effect-Accounted (dropped_ctx e o) v = ground arith
Effect-Accounted (blocked o f) v = ground arith
Effect-Accounted (panicked o c) v = ground arith

-- What a close leaves alone.
abbrev pub Untouched : Dispatcher → Dispatcher → Type 0
Untouched d d' =
    (d'.cfg ≡ d.cfg)
    × (d'.tasks ≡ d.tasks)
    × (d'.workers ≡ d.workers)
    × (d'.sending ≡ d.sending)
    × (d'.effects.collector ≡ d.effects.collector)
    × (d.closed ≡ true → d'.closed ≡ true)

pub close_with_mode-Untouched :
    (duration : ℤ) (ctx : Option Context) (mode : String) (d : Dispatcher)
    → Untouched d (close_with_mode duration ctx mode d).0
unfolding close_with_mode
close_with_mode-Untouched duration ctx mode d = ground arith

pub await_drain-Untouched :
    (p : Bool) (duration : ℤ) (ctx : Context) (d : Dispatcher)
    → Untouched d (await_drain p duration ctx d).0
unfolding await_drain
await_drain-Untouched p duration ctx d = ground arith

Untouched-Accounted :
    {cfg : Config} {s : System} {d : Dispatcher}
    → Untouched s.dispatcher d
    → length s.dispatcher.sending ≡ 0
    → Accounted cfg s
    → Accounted cfg (record s { dispatcher = d })
Untouched-Accounted u quiet v = ground arith

counts-Accounted :
    {cfg : Config} (s : System) (name : String) (others : List String)
    → length s.dispatcher.sending ≡ suc (length others)
    → Accounted cfg s
    → Accounted cfg (record s { dispatcher = count_sent name others s.dispatcher })
unfolding count_sent inc_enqueued
counts-Accounted s name others l v = ground arith

takes-Accounted :
    {cfg : Config} (s : System) (task : Task) (d : Dispatcher)
    → length s.running < s.dispatcher.workers
    → receive s.dispatcher ≡ (d, received task)
    → Accounted cfg s
    → Accounted cfg (record s { dispatcher = d; running = task ∷ s.running })
unfolding receive
takes-Accounted s task d free e v = ground arith

exits-Accounted :
    {cfg : Config} (s : System) (d : Dispatcher)
    → length s.running < s.dispatcher.workers
    → receive s.dispatcher ≡ (d, no_more)
    → s.dispatcher.tasks_closed ≡ s.dispatcher.closed
    → Accounted cfg s
    → Accounted cfg (record s { dispatcher = worker_done d })
unfolding receive
exits-Accounted s d free e c v = ground arith

pub length-middle {ℓ} :
    {A : Type ℓ} (before after : List A) (task : A)
    → length (before ++ task ∷ after) ≡ suc (length (before ++ after))
length-middle before after task =
    omega (arith, length-append before (task ∷ after), length-append before after)

losses-deaths : (e : Ended) → (losses e ≤ deaths e) × (deaths e ≤ 1)
losses-deaths completed = omega arith
losses-deaths rejected = omega arith
losses-deaths abandoned = omega arith
losses-deaths exhausted = omega arith
losses-deaths worker_panic = omega arith
losses-deaths (broken e) = (omega (arith, losses-deaths e), omega arith)

-- A worker that dies takes itself out of the crew.
after_execute_lem :
    (panic_value : String) (d : Dispatcher) (x : Effects) (e : Ended)
    → let d' = after_execute panic_value d (x, e) in
      (d'.cfg ≡ d.cfg)
      × (d'.tasks ≡ d.tasks)
      × (d'.sending ≡ d.sending)
      × (d'.closed ≡ d.closed)
      × (d'.workers ≡ d.workers - deaths e)
      × (d'.effects.collector ≡ x.collector)
unfolding after_execute
after_execute_lem v0 d x worker_panic = ground arith
after_execute_lem v0 d x (broken e) = ground arith
after_execute_lem v0 d x completed = ground arith
after_execute_lem v0 d x rejected = ground arith
after_execute_lem v0 d x abandoned = ground arith
after_execute_lem v0 d x exhausted = ground arith

ended_with-Accounted :
    {cfg : Config} (panic_value : String) (s : System) (others : List Task) (m : ℕ)
    (r : Effects × Ended)
    → length s.running ≡ suc (length others)
    → Accounts m s.dispatcher.effects.collector r
    → Accounted cfg s
    → Accounted cfg (ended_with panic_value s others r)
unfolding ended_with
ended_with-Accounted panic_value s others m (x, e) l a v = ground (
  arith,
  Accounts-Counted m (length others + s.lost) s.dispatcher (x, e) a,
  losses-deaths e,
  after_execute_lem panic_value s.dispatcher x e,
)

module _ (unspecified : Float64 → ℤ) where
  pub Step-Accounted :
      {cfg : Config} {s t : System}
      → Step unspecified s t
      → s.dispatcher.tasks_closed ≡ s.dispatcher.closed
      → Accounted cfg s
      → Accounted cfg t
  unfolding finish
  Step-Accounted {s = s} (submits p now ctx task) c v =
      Effect-Accounted (submit-Effect p now ctx task s.dispatcher) v
  Step-Accounted {s = s} (try_submits now ctx task) c v =
      Effect-Accounted (try_submit-Effect now ctx task s.dispatcher) v
  Step-Accounted {s = s} (counts before after name e) c v =
      counts-Accounted s name (before ++ after) (ap length e ∙ length-middle before after name) v
  Step-Accounted {s = s} (closes duration ctx mode quiet) c v =
      Untouched-Accounted (close_with_mode-Untouched duration ctx mode s.dispatcher)
        (ap length quiet) v
  Step-Accounted {s = s} (drains p duration ctx h) c v =
      Untouched-Accounted (await_drain-Untouched p duration ctx s.dispatcher) (v.quiet h) v
  Step-Accounted {s = s} (takes task d free e) c v = takes-Accounted s task d free e v
  Step-Accounted {s = s} (finishes before after task run panic_value e q) c v =
      let d = s.dispatcher in
      ended_with-Accounted panic_value s (before ++ after) _ _
        (ap length e ∙ length-middle before after task)
        (execute-Accounts unspecified d.cfg task run d.effects) v
  Step-Accounted {s = s} (exits d free e) c v = exits-Accounted s d free e c v

pub init-Accounted : (cfg : Config) → Accounted cfg (init cfg none)
unfolding new_dispatcher
init-Accounted cfg = ground arith
