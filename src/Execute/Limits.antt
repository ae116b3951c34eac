-- ===== src/Execute/Limits.antt =====
-- When an execution never calls the job.
use gokue.Prelude.{ℕ, ◌≡◌, Option, some, arith}
use gokue.Prelude.Int.{ℤ, negsuc}
use gokue.Job.{Outcome}
use gokue.Config.{Config}
use gokue.Stats.{inc_failed}
use gokue.Float.{Float64}
use gokue.Dispatcher.{Task, Effects}
use gokue.Execute.Outcomes.{IsSteady}
use gokue.Execute.{at_end, report, Run, exhausted, start, execute}

module _ (unspecified : Float64 → ℤ) where
  -- A submission that overrides `MaxRetries` with a negative number: the job is never run, since
  -- the result is the same whatever `Process` would do, and the task is counted as failed, if the
  -- calls of the logger return.
  pub execute_negative :
      (cfg : Config) (task : Task) (run : Run) (s : Effects) (n : ℕ) (p : ℕ → Option ℤ → Outcome)
      → IsSteady (start cfg task run)
      → task.max_retries ≡ some (negsuc n)
      → (execute unspecified cfg task run s
          ≡ execute unspecified cfg task (record run { process = p }) s)
        × ((execute unspecified cfg task run s).1 ≡ exhausted)
        × ((execute unspecified cfg task run s).0.collector ≡ inc_failed s.collector)
  unfolding execute report
  execute_negative cfg task run s n p g h =
      (rw h, ground (arith, g 0 at_end), ground (arith, g 0 at_end))
