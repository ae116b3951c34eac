-- ===== src/System/Progress.antt =====
-- A closed dispatcher does a bounded amount of work, and its workers can always finish it.
pub mod Counts
use gokue.Prelude.{
  ℕ, zero, suc, ◌+◌, ◌*◌, ◌≤◌, ◌<◌, ◌≡◌, refl, ap, ◌∙◌, inl, inr, Bool, true, false, String, Option,
  none, List, [], ◌∷◌, length, zero_or_pos, arith, List-cases,
}
use gokue.Prelude.Int.{ℤ, pos}
use gokue.Float.{Float64}
use gokue.Config.{Config}
use gokue.Job.{succeeds}
use gokue.Dispatcher.{Task, Dispatcher, Effects}
use gokue.Execute.{Run, Ended, worker_panic}
use gokue.Submission.{Context, Submitted, enqueue, count_sent, drop, reject_closed}
use gokue.Submission.Branches.{
  Effect, refused_ctx, refused_job, rejected, enqueued, dropped_full, dropped_ctx, blocked,
  panicked, submit-Effect, try_submit-Effect,
}
use gokue.Shutdown.{
  returns, close_with_mode, await_drain, received, no_more, receive, after_execute,
}
use gokue.System.{
  System, ended_with, finish, Step, submits, try_submits, counts, closes, drains, takes, finishes,
  exits, Runs, Reach, start, later,
}
use gokue.System.Safety.{Step-ClosedWith}
use gokue.System.Accounted.{length-middle}
use gokue.System.Invariant.{Runs-Consistent, init-Consistent}
use gokue.System.Progress.Counts.{
  work_left, Effect-workers, close-workers, drain-workers, after_execute-shrinks, receive-counts,
  no_more-counts, receive-nil, receive-cons,
}

module _ (unspecified : Float64 → ℤ) where
  -- The steps that a worker makes.
  abbrev pub worker_steps : {s t : System} → Step unspecified s t → ℕ
  worker_steps (takes task d free e) = 1
  worker_steps (finishes before after task run panic_value e q) = 1
  worker_steps (exits d free e) = 1
  worker_steps _ = 0

  unfoldable pub all_worker_steps : {s t : System} → Runs unspecified s t → ℕ
  all_worker_steps start = 0
  all_worker_steps (later r st) = all_worker_steps r + worker_steps st

  queue_shrinks :
      {s t : System}
      → Step unspecified s t
      → s.dispatcher.closed ≡ true
      → length t.dispatcher.tasks ≤ length s.dispatcher.tasks
  queue_shrinks {s} st c =
      (Step-ClosedWith unspecified {n = length s.dispatcher.tasks} st (c, omega arith)).1

  Step-work_left :
      {s t : System} (st : Step unspecified s t)
      → s.dispatcher.closed ≡ true
      → worker_steps st + work_left t ≤ work_left s
  unfolding work_left finish ended_with count_sent
  Step-work_left {s} (submits p now ctx task) c = omega (
    arith,
    queue_shrinks {s = s} (submits p now ctx task) c,
    Effect-workers (submit-Effect p now ctx task s.dispatcher),
  )
  Step-work_left {s} (try_submits now ctx task) c = omega (
    arith,
    queue_shrinks {s = s} (try_submits now ctx task) c,
    Effect-workers (try_submit-Effect now ctx task s.dispatcher),
  )
  Step-work_left (counts before after name e) c = omega arith
  Step-work_left {s} (closes duration ctx mode quiet) c = omega (
    arith,
    queue_shrinks {s = s} (closes duration ctx mode quiet) c,
    close-workers duration ctx mode s.dispatcher,
  )
  Step-work_left {s} (drains p duration ctx h) c = omega (
    arith,
    queue_shrinks {s = s} (drains p duration ctx h) c,
    drain-workers p duration ctx s.dispatcher,
  )
  Step-work_left {s} (takes task d free e) c = omega (arith, receive-counts s.dispatcher d task e)
  Step-work_left {s} (finishes before after task run panic_value e q) c = omega (
    arith,
    ap length e,
    length-middle before after task,
    after_execute-shrinks panic_value s.dispatcher _,
  )
  Step-work_left {s} (exits d free e) c = omega (arith, no_more-counts s.dispatcher d e)

  Step-closed :
      {s t : System}
      → Step unspecified s t
      → s.dispatcher.closed ≡ true
      → t.dispatcher.closed ≡ true
  Step-closed {s} st c =
      (Step-ClosedWith unspecified {n = length s.dispatcher.tasks} st (c, omega arith)).0

  Runs-closed :
      {s t : System}
      → Runs unspecified s t
      → s.dispatcher.closed ≡ true
      → t.dispatcher.closed ≡ true
  Runs-closed start c = c
  Runs-closed (later r st) c = Step-closed st (Runs-closed r c)

  Runs-work_left :
      {s t : System} (r : Runs unspecified s t)
      → s.dispatcher.closed ≡ true
      → all_worker_steps r + work_left t ≤ work_left s
  unfolding all_worker_steps
  Runs-work_left start c = omega arith
  Runs-work_left (later r st) c =
      omega (arith, Runs-work_left r c, Step-work_left st (Runs-closed r c))

  -- From a closed dispatcher on, whatever the clients do, the workers make at most two steps for
  -- each queued task and one for each running task and for each worker.
  pub bounded_work :
      (s t : System) (r : Runs unspecified s t)
      → s.dispatcher.closed ≡ true
      → all_worker_steps r ≤ 2 * length s.dispatcher.tasks + length s.running + s.dispatcher.workers
  unfolding work_left
  bounded_work s t r c = omega (arith, Runs-work_left r c)

  -- An execution whose job succeeds at once.
  abbrev at_once : Run
  at_once = record {
    process = λ j deadline. succeeds;
    draw = λ j. 0;
    quits = λ j. false;
    crashes = λ j p. false;
    elapsed = λ j. pos 0;
  }

  -- A step of a worker.
  abbrev WorkerStep : System → Type 0
  WorkerStep s = (t : System) × (st : Step unspecified s t) × (worker_steps st ≡ 1)

  idle_step :
      (s : System)
      → s.dispatcher.tasks_closed ≡ true
      → length s.running < s.dispatcher.workers
      → WorkerStep s
  idle_step s c free = elim (List-cases s.dispatcher.tasks) [
    | inl e ↦ (_, exits s.dispatcher free (receive-nil s.dispatcher e c), refl)
    | inr (task, rest, e) ↦ (
      _,
      takes task (record s.dispatcher { tasks = rest }) free
          (receive-cons s.dispatcher task rest e),
      refl,
    )
  ]

  -- On a closed dispatcher with a worker left some worker can make a step.
  worker_step :
      (s : System) → s.dispatcher.tasks_closed ≡ true → 0 < s.dispatcher.workers → WorkerStep s
  worker_step s c some_worker = elim (List-cases s.running) [
    | inl e ↦ idle_step s c (omega (arith, ap length e))
    | inr (task, rest, e) ↦ (_, finishes [] rest task at_once "" e (λ j h. cc), refl)
  ]

  finish_work :
      (n : ℕ) (cfg : Config) (s u : System)
      → Runs unspecified s u
      → Reach unspecified cfg none u
      → u.dispatcher.closed ≡ true
      → work_left u ≤ n
      → (t : System) × Runs unspecified s t × (t.dispatcher.workers ≡ 0)
  unfolding work_left
  finish_work zero cfg s u r reach c h = (u, r, omega arith)
  finish_work (suc n) cfg s u r reach c h = elim (zero_or_pos u.dispatcher.workers) [
    | inl none_left ↦ (u, r, none_left)
    | inr some_left ↦
        let v = Runs-Consistent unspecified reach (init-Consistent cfg none) in
        let (t, st, one) = worker_step u (v.channel ∙ c) some_left in
        finish_work n cfg s t (later r st) (later reach st) (Step-closed st c)
          (omega (arith, Step-work_left st c))
  ]

  done_returns :
      (p : Bool) (duration : ℤ) (ctx : Context) (d : Dispatcher)
      → ctx.done ≡ none
      → d.workers ≡ 0
      → (await_drain p duration ctx d).1 ≡ returns none
  unfolding await_drain
  done_returns p duration ctx d live h = ground arith

  -- From every state that a new dispatcher with its own collector can reach and in which it is closed, with any number of
  -- queued and running tasks, its workers can come to an end, and then a close in drain mode whose
  -- context is alive returns nil.
  pub drain_completes :
      (cfg : Config) (s : System) (p : Bool) (duration : ℤ) (ctx : Context)
      → Reach unspecified cfg none s
      → s.dispatcher.closed ≡ true
      → ctx.done ≡ none
      → (t : System) × Runs unspecified s t
        × ((await_drain p duration ctx t.dispatcher).1 ≡ returns none)
  drain_completes cfg s p duration ctx reach c live =
      let (t, r, idle) = finish_work (work_left s) cfg s s start reach c (omega arith) in
      (t, r, done_returns p duration ctx t.dispatcher live idle)
