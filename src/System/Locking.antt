-- ===== src/System/Locking.antt =====
-- The lock `submitMu` of dispatcher/dispatcher.go: a submission holds its read lock from the check of
-- the closed flag to its return, which comes after its `select` and, where it has sent its task,
-- after the count and the log entry; and `CloseWithMode` marks the dispatcher as closed
-- under the write lock, for which it waits; a waiting writer keeps new readers out.
pub mod Discipline
pub mod Guarded
use gokue.Prelude.{
  ℕ, ◌≡◌, ◌≢◌, Bool, true, false, ◌⊎◌, String, Option, none, some, List, [], ◌∷◌, ◌++◌, is_nil,
}
use gokue.Prelude.Int.{ℤ}
use gokue.Job.{ContextError}
use gokue.Float.{Float64}
use gokue.Config.{Config}
use gokue.Stats.{Collector}
use gokue.Logger.{log_close_start}
use gokue.Dispatcher.{Task, Dispatcher, Effects}
use gokue.Submission.{Context, prepare, send_ready, send, count_sent, drop, reject_closed}
use gokue.Shutdown.{
  drain_mode, immediate_mode, waits, logged, mark_closed, quit_and_return, await_drain,
}
use gokue.System.{System, Step, init}
use gokue.System.Progress.{worker_steps}

-- A submission in its `select`, with the name and time filled in; `blocking` tells `Submit` from
-- `TrySubmit`.
pub record Submitter : Type 0 where
  pub blocking : Bool
  pub task : Task

-- `readers` hold the read lock in their `select`, and so do the submissions that have sent their task
-- and not counted it yet; `writers` are the modes of the closers that wait for the write lock,
-- and `marked` those of the closers that have released it and not returned.
pub record Locked : Type 0 where
  pub system : System
  pub readers : List Submitter
  pub writers : List String
  pub marked : List String

abbrev pub init_locked : Config → Option Collector → Locked
init_locked cfg collector = record {
  system = init cfg collector;
  readers = [];
  writers = [];
  marked = [];
}

-- Only the dispatcher changes.
abbrev pub with_dispatcher : Dispatcher → Locked → Locked
with_dispatcher d s = record s { system = record s.system { dispatcher = d } }

module _ (unspecified : Float64 → ℤ) where
  pub data LockStep (s : Locked) : Locked → Type 0 where
    rejects :
        (now : ℤ) (task : Task)
        → s.writers ≡ []
        → is_nil task.job ≡ false
        → s.system.dispatcher.closed ≡ true
        → LockStep s (with_dispatcher (reject_closed (prepare now task) s.system.dispatcher) s)
    enters :
        (blocking : Bool) (now : ℤ) (task : Task)
        → s.writers ≡ []
        → is_nil task.job ≡ false
        → s.system.dispatcher.closed ≡ false
        → LockStep s (record s {
          readers = record { blocking = blocking; task = prepare now task } ∷ s.readers;
        })
    sends :
        (before after : List Submitter) (w : Submitter)
        → s.readers ≡ before ++ w ∷ after
        → send_ready s.system.dispatcher ≡ true
        → LockStep s (record (with_dispatcher (send w.task s.system.dispatcher).0 s) {
          readers = before ++ after;
        })
    counts :
        (before after : List String) (name : String)
        → s.system.dispatcher.sending ≡ before ++ name ∷ after
        → LockStep s (with_dispatcher (count_sent name (before ++ after) s.system.dispatcher) s)
    gives_up :
        (before after : List Submitter) (w : Submitter)
        → s.readers ≡ before ++ w ∷ after
        → w.blocking ≡ true
        → LockStep s
            (record (with_dispatcher (drop w.task "context_cancelled" s.system.dispatcher) s) {
              readers = before ++ after;
            })
    finds_full :
        (before after : List Submitter) (w : Submitter)
        → s.readers ≡ before ++ w ∷ after
        → w.blocking ≡ false
        → send_ready s.system.dispatcher ≡ false
        → LockStep s (record (with_dispatcher (drop w.task "queue_full" s.system.dispatcher) s) {
          readers = before ++ after;
        })
    locks :
        (mode : String)
        → (mode ≡ drain_mode) ⊎ (mode ≡ immediate_mode)
        → LockStep s
            (record (with_dispatcher
              (logged s.system.dispatcher (log_close_start s.system.dispatcher.cfg.logger mode))
              s) { writers = mode ∷ s.writers })
    marks :
        (before after : List String) (mode : String) (d : Dispatcher)
        → s.writers ≡ before ++ mode ∷ after
        → s.readers ≡ []
        → s.system.dispatcher.sending ≡ []
        → mark_closed s.system.dispatcher ≡ some d
        → LockStep s
            (record (with_dispatcher d s) { writers = before ++ after; marked = mode ∷ s.marked })
    quits :
        (before after : List String) (duration : ℤ)
        → s.marked ≡ before ++ immediate_mode ∷ after
        → LockStep s
            (record (with_dispatcher
              (quit_and_return immediate_mode duration none s.system.dispatcher).0
              s) { marked = before ++ after })
    drains :
        (before after : List String) (prefer_done : Bool) (duration : ℤ) (ctx : Context)
        → s.marked ≡ before ++ drain_mode ∷ after
        → (await_drain prefer_done duration ctx s.system.dispatcher).1 ≢ waits
        → LockStep s
            (record (with_dispatcher
              (await_drain prefer_done duration ctx s.system.dispatcher).0
              s) { marked = before ++ after })
    works :
        (t : System) (st : Step unspecified s.system t)
        → worker_steps unspecified st ≡ 1
        → LockStep s (record s { system = t })

  -- Any number of steps.
  pub data LockRuns (s : Locked) : Locked → Type 0 where
    start : LockRuns s s
    later : {t u : Locked} → LockRuns s t → LockStep t u → LockRuns s u
