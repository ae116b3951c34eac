-- ===== src/System/Draining.antt =====
-- Where the accepted tasks are in every state that a new dispatcher can reach, and what is left of
-- them when a close in drain mode returns nil.
use gokue.Prelude.{◌+◌, ◌≤◌, ◌<◌, ◌≡◌, refl, Bool, none, List, [], ◌∷◌, length, arith}
use gokue.Prelude.Int.{ℤ, pos_part, uint64}
use gokue.Float.{Float64}
use gokue.Config.{Config}
use gokue.Dispatcher.{Task, Dispatcher}
use gokue.Submission.{Context}
use gokue.Shutdown.{returns, await_drain}
use gokue.System.{System, Reach, start, later}
use gokue.System.Invariant.{Runs-Consistent, init-Consistent}
use gokue.System.Accounted.{Accounted, Step-Accounted, init-Accounted}

module _ (unspecified : Float64 → ℤ) where
  pub Reach-Accounted : {cfg : Config} {s : System} → Reach unspecified cfg none s → Accounted cfg s
  Reach-Accounted {cfg = cfg} start = init-Accounted cfg
  Reach-Accounted {cfg = cfg} (later r st) =
      Step-Accounted unspecified st
        (Runs-Consistent unspecified r (init-Consistent cfg none)).channel (Reach-Accounted r)

  -- In every state that a new dispatcher with its own collector can reach, `Enqueued` and the
  -- submissions that have sent their task and not yet counted it are together the sum of
  -- `Processed`, `Failed`, the queued tasks, the running ones and the lost ones, modulo 2^64. The
  -- lost tasks are those of workers that died of a panic outside the job before they counted them,
  -- at most one for each of these workers: no accepted task is lost in any other way or counted twice.
  pub tasks_conserved :
      (cfg : Config) (s : System)
      → Reach unspecified cfg none s
      → let c = s.dispatcher.effects.collector in
        (uint64 (c.enqueued + length s.dispatcher.sending)
          ≡ uint64
              (c.processed + c.failed + length s.dispatcher.tasks + (length s.running + s.lost)))
        × (s.lost ≤ s.crashed)
  tasks_conserved cfg s r = let v = Reach-Accounted r in (v.counted, v.lost_few)

  empty_of_length : (l : List Task) → length l ≡ 0 → l ≡ []
  empty_of_length [] h = refl
  empty_of_length (t ∷ l) h = absurd (omega arith)

  done_has_no_worker :
      (p : Bool) (duration : ℤ) (ctx : Context) (d : Dispatcher)
      → (await_drain p duration ctx d).1 ≡ returns none
      → d.workers ≡ 0
  unfolding await_drain
  done_has_no_worker p duration ctx d h = ground arith

  -- When the wait of a close in drain mode returns nil, in a state that a new dispatcher can reach
  -- and in which not every worker of the crew has died of a panic outside the job (of the delay, the
  -- logger or the retry predicate), then no task is queued or running, and every accepted task was
  -- counted as processed or failed (modulo 2^64), but for those that dead workers had not counted,
  -- one for each of them at most.
  pub close_nil_drained :
      (cfg : Config) (s : System) (p : Bool) (duration : ℤ) (ctx : Context)
      → s.crashed < pos_part cfg.worker_count
      → Reach unspecified cfg none s
      → (await_drain p duration ctx s.dispatcher).1 ≡ returns none
      → let c = s.dispatcher.effects.collector in
        (s.dispatcher.tasks ≡ [])
        × (s.running ≡ [])
        × (c.enqueued ≡ uint64 (c.processed + c.failed + s.lost))
        × (s.lost ≤ s.crashed)
  close_nil_drained cfg s p duration ctx crew r h =
      let v = Reach-Accounted r in
      let idle = done_has_no_worker p duration ctx s.dispatcher h in
      let empty : length s.dispatcher.tasks ≡ 0 = omega (arith, v.gone_empty) in
      let still : length s.running ≡ 0 = omega (arith, v.busy) in
      let settled : length s.dispatcher.sending ≡ 0 = ground (arith, v.gone_closed, v.quiet) in
      (
        empty_of_length s.dispatcher.tasks empty,
        empty_of_length s.running still,
        omega (arith, v.counted, v.bounded),
        v.lost_few,
      )
