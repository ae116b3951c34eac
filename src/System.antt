-- ===== src/System.antt =====
-- The dispatcher of dispatcher/dispatcher.go with its submitters, its worker goroutines and its
-- closers, interleaved in any order. A step is one critical section or one `select`: a submission
-- from the lock to its send (or to its return, if it sends nothing), the count and the log entry that
-- follow a send, a receive by a free worker, the end of an execution, the two parts of a close, the
-- end of a worker. A running execution takes effect when it ends. A submission holds a read lock to
-- its return, so a close takes its lock when no submission has a task left to count. A panic of the
-- logger in a call of a client goes to that client and leaves out the entry, and one in the entry of
-- a worker's panic ends the program; both are left out.
pub mod Invariant
pub mod Safety
pub mod Accounted
pub mod Draining
pub mod Tasks
pub mod Progress
pub mod Locking
pub mod Fifo
pub mod Uniform
pub mod Once
use gokue.Prelude.{
  ℕ, zero, suc, ◌+◌, ◌<◌, ◌≡◌, Bool, true, String, Option, List, [], ◌∷◌, ◌++◌, length,
}
use gokue.Prelude.Int.{ℤ}
use gokue.Float.{Float64}
use gokue.Config.{Config}
use gokue.Stats.{Collector}
use gokue.Dispatcher.{Task, Dispatcher, Effects, new_dispatcher}
use gokue.Execute.{Run, Ended, worker_panic, broken, execute}
use gokue.Submission.{Context, submit, try_submit, count_sent}
use gokue.Shutdown.{
  close_with_mode, await_drain, received, no_more, receive, worker_done, after_execute,
}

-- `running` holds the tasks that workers execute; `crashed` counts the workers that died of a panic
-- outside the job, and `lost` those of their tasks that were not counted.
pub record System : Type 0 where
  pub dispatcher : Dispatcher
  pub running : List Task
  pub lost : ℕ
  pub crashed : ℕ

abbrev pub init : Config → Option Collector → System
init cfg collector = record {
  dispatcher = new_dispatcher cfg collector;
  running = [];
  lost = 0;
  crashed = 0;
}

-- How many tasks an end loses.
abbrev pub losses : Ended → ℕ
losses worker_panic = 1
losses (broken e) = losses e
losses _ = 0

-- How many workers an end costs.
abbrev pub deaths : Ended → ℕ
deaths worker_panic = 1
deaths (broken e) = 1
deaths _ = 0

-- The system after an execution that ended as `r`, with the other running tasks.
unfoldable pub ended_with : String → System → List Task → Effects × Ended → System
unfolding after_execute
ended_with panic_value s others r = record {
  dispatcher = after_execute panic_value s.dispatcher r;
  running = others;
  lost = s.lost + losses r.1;
  crashed = s.crashed + deaths r.1;
}

-- A worker whose task ends.
unfoldable pub finish : (Float64 → ℤ) → String → Run → Task → List Task → System → System
finish unspecified panic_value run task others s =
    let d = s.dispatcher in
    ended_with panic_value s others (execute unspecified d.cfg task run d.effects)

module _ (unspecified : Float64 → ℤ) where
  pub data Step (s : System) : System → Type 0 where
    submits :
        (prefer_send : Bool) (now : ℤ) (ctx : Option Context) (task : Task)
        → Step s (record s { dispatcher = (submit prefer_send now ctx task s.dispatcher).0 })
    try_submits :
        (now : ℤ) (ctx : Option Context) (task : Task)
        → Step s (record s { dispatcher = (try_submit now ctx task s.dispatcher).0 })
    counts :
        (before after : List String) (name : String)
        → s.dispatcher.sending ≡ before ++ name ∷ after
        → Step s (record s { dispatcher = count_sent name (before ++ after) s.dispatcher })
    closes :
        (duration : ℤ) (ctx : Option Context) (mode : String)
        → s.dispatcher.sending ≡ []
        → Step s (record s { dispatcher = (close_with_mode duration ctx mode s.dispatcher).0 })
    drains :
        (prefer_done : Bool) (duration : ℤ) (ctx : Context)
        → s.dispatcher.closed ≡ true
        → Step s (record s { dispatcher = (await_drain prefer_done duration ctx s.dispatcher).0 })
    takes :
        (task : Task) (d : Dispatcher)
        → length s.running < s.dispatcher.workers
        → receive s.dispatcher ≡ (d, received task)
        → Step s (record s { dispatcher = d; running = task ∷ s.running })
    finishes :
        (before after : List Task) (task : Task) (run : Run) (panic_value : String)
        → s.running ≡ before ++ task ∷ after
        → ((j : ℕ) → run.quits j ≡ true → s.dispatcher.quit_closed ≡ true)
        → Step s (finish unspecified panic_value run task (before ++ after) s)
    exits :
        (d : Dispatcher)
        → length s.running < s.dispatcher.workers
        → receive s.dispatcher ≡ (d, no_more)
        → Step s (record s { dispatcher = worker_done d })

  -- Any number of steps.
  pub data Runs (s : System) : System → Type 0 where
    start : Runs s s
    later : {t u : System} → Runs s t → Step t u → Runs s u

  pub Runs-append : {s t u : System} → Runs s t → Runs t u → Runs s u
  Runs-append r start = r
  Runs-append r (later q st) = later (Runs-append r q) st

  -- The states that a new dispatcher can reach.
  abbrev pub Reach : Config → Option Collector → System → Type 0
  Reach cfg collector s = Runs (init cfg collector) s
