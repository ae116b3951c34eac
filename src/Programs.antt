-- ===== src/Programs.antt =====
-- What the programs of examples/ share: their e-mails, a `select` between a timer and a context, and
-- their submissions. A program that panics has no queue left.
pub mod Executions
pub mod Failing
pub mod SingleWorker
pub mod RetryJob
pub mod MultipleJobs
use gokue.Prelude.{
  ℕ, ◌*◌, String, Bool, true, ◌&&◌, ◌||◌, Option, none, some, List, [], ◌∷◌, length, ◌⊎◌, inl, inr,
  if◌then◌else◌,
}
use gokue.Prelude.Int.{ℤ, pos, ltb_ℤ, eqb_ℤ}
use gokue.Prelude.Bytes.{Bytes}
use gokue.Job.{struct, Job, ContextError, deadline_exceeded}
use gokue.Config.{InvalidConfig}
use gokue.System.{System}
use gokue.Queue
use gokue.Queue.{Queue, Answer, returns, background, new_queue}
use gokue.Queue.Options.{QueueOption}

pub record Email : Type 0 where
  pub address : String
  pub message : String

-- What a call of `Process` prints.
pub data Line : Type 0 where
  sending failed : Email → Line
  failed_to_send cancelled : Email → ContextError → Line

abbrev pub seconds : ℕ → ℤ
seconds n = pos (n * 1_000_000_000)

abbrev pub milliseconds : ℕ → ℤ
milliseconds n = pos (n * 1_000_000)

-- A `select` between `time.After(d)` and the end of a context with the given timeout, from its
-- creation on: the earlier one is taken, and either one if they come together. `none` is the timer.
unfoldable pub timer_or_done : Bool → ℤ → Option ℤ → Option ContextError
timer_or_done prefer_timer d none = none
timer_or_done prefer_timer d (some timeout) =
    if ltb_ℤ d timeout || (eqb_ℤ d timeout && prefer_timer) then none else some deadline_exceeded

-- `if err != nil { panic(err) }`, after a method of the queue.
abbrev pub or_panic : Option Queue × Answer → Option Queue
or_panic (q, returns none) = q
or_panic (q, _) = none

-- The same after `NewQueue`.
abbrev pub new_or_panic : InvalidConfig ⊎ Queue → Option Queue
new_or_panic (inl e) = none
new_or_panic (inr q) = some q

-- A value of the struct `Email` of package main; its contents in memory are a parameter.
abbrev pub job_of : (Email → Bytes) → Email → Job
job_of contents email = record {
  typ = struct 0 "Email" 2;
  explicit_name = none;
  contents = contents email;
}

-- The submissions with a context that is never done. The clock is indexed by the submissions left.
unfoldable pub submit_each : (ℕ → ℤ) → (Email → Bytes) → List Email → Option Queue → Option Queue
submit_each clock contents emails none = none
submit_each clock contents [] (some q) = some q
submit_each clock contents (email ∷ emails) (some q) = submit_each clock contents emails (
    or_panic (
      Queue.submit true (clock (length emails)) (some background) (some (job_of contents email)) []
        (some q)))

-- The system of a queue whose workers have not taken a task yet.
abbrev pub system_of : Queue → System
system_of q = record { dispatcher = q.dispatcher; running = []; lost = 0; crashed = 0 }
