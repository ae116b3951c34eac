-- ===== src/Shutdown.antt =====
-- `CloseWithMode`, `Close`, `signalQuit` and the loop of `worker` of dispatcher/dispatcher.go. A
-- close in drain mode has two parts, up to its `select` and from there on, between which the
-- workers run; the clock and the choice of a `select` are arguments.
use gokue.Prelude.{
  ◌-◌, String, ◌=?◌, Bool, true, not, ◌&&◌, Option, none, some, List, [], ◌∷◌, ◌++◌, if◌then◌else◌,
  ◌==◌,
}
use gokue.Prelude.Int.{ℤ}
use gokue.Job.{ContextError}
use gokue.Logger.{Entry, log_close_start, log_close_complete, log_worker_panic}
use gokue.Dispatcher.{
  Task, Dispatcher, Effects, DispatchError, nil_ctx, invalid_shutdown_mode, ctx_err,
}
use gokue.Submission.{Context}
use gokue.Execute.{Ended, worker_panic, broken}

abbrev pub drain_mode : String
drain_mode = "drain"

abbrev pub immediate_mode : String
immediate_mode = "immediate"

-- A call returns nil or an error, or waits, or panics by closing a closed channel.
pub data Closed : Type 0 where
  returns : Option DispatchError → Closed
  waits : Closed
  close_of_closed : Closed

abbrev pub logged : Dispatcher → List Entry → Dispatcher
logged d entries = record d { effects = record d.effects { log = d.effects.log ++ entries } }

-- `none` is the panic of closing a closed channel.
unfoldable pub close_quit : Dispatcher → Option Dispatcher
close_quit d = if d.quit_closed then none else some (record d { quit_closed = true })

-- `quitOnce.Do` marks itself done before it calls its function.
unfoldable pub signal_quit : Dispatcher → Option Dispatcher
unfolding close_quit
signal_quit d = if d.quit_once then some d else close_quit (record d { quit_once = true })

-- The critical section of `CloseWithMode`.
unfoldable pub mark_closed : Dispatcher → Option Dispatcher
mark_closed d =
    if d.closed
    then some d
    else if d.tasks_closed
    then none
    else some (record d { closed = true; tasks_closed = true })

-- `signalQuit`, the last log entry, and the return.
unfoldable pub quit_and_return : String → ℤ → Option ContextError → Dispatcher → Dispatcher × Closed
unfolding signal_quit
quit_and_return mode duration none d = elim (signal_quit d) [
  | none ↦ (d, close_of_closed)
  | some d' ↦ (logged d' (log_close_complete d'.cfg.logger mode duration none), returns none)
]
quit_and_return mode duration (some e) d = elim (signal_quit d) [
  | none ↦ (d, close_of_closed)
  | some d' ↦ (
    logged d' (log_close_complete d'.cfg.logger mode duration (some e)),
    returns (some (ctx_err e)),
  )
]

-- What follows the critical section.
unfoldable pub close_marked : String → ℤ → Option Dispatcher → Dispatcher → Dispatcher × Closed
unfolding quit_and_return
close_marked mode duration none d = (d, close_of_closed)
close_marked mode duration (some d') d =
    if mode =? immediate_mode then quit_and_return mode duration none d' else (d', waits)

-- `CloseWithMode`, up to the `select` of drain mode, where it `waits`.
unfoldable pub close_with_mode : ℤ → Option Context → String → Dispatcher → Dispatcher × Closed
unfolding mark_closed close_marked
close_with_mode duration none mode d = (d, returns (some nil_ctx))
close_with_mode duration (some ctx) mode d =
    if not (mode =? drain_mode) && not (mode =? immediate_mode)
    then (d, returns (some invalid_shutdown_mode))
    else let started = logged d (log_close_start d.cfg.logger mode) in
      close_marked mode duration (mark_closed started) started

unfoldable pub close : ℤ → Option Context → Dispatcher → Dispatcher × Closed
unfolding close_with_mode
close duration ctx d = close_with_mode duration ctx drain_mode d

-- The `select` of drain mode: `done` is ready once no worker is left; `prefer_done` chooses where
-- both cases are ready.
unfoldable pub await_drain : Bool → ℤ → Context → Dispatcher → Dispatcher × Closed
unfolding quit_and_return
await_drain prefer_done duration ctx d = elim ctx.done [
  | none ↦
      if d.workers == 0
      then (logged d (log_close_complete d.cfg.logger drain_mode duration none), returns none)
      else (d, waits)
  | some e ↦
      if (d.workers == 0) && prefer_done
      then (logged d (log_close_complete d.cfg.logger drain_mode duration none), returns none)
      else quit_and_return drain_mode duration (some e) d
]

-- What a worker finds at the head of its loop: a task, an end, or nothing yet.
pub data Received : Type 0 where
  received : Task → Received
  no_more not_yet : Received

-- `range d.tasks`
unfoldable pub receive : Dispatcher → Dispatcher × Received
receive d = elim d.tasks [
  | [] ↦ (d, if d.tasks_closed then no_more else not_yet)
  | task ∷ rest ↦ (record d { tasks = rest }, received task)
]

-- The deferred calls of `worker`.
abbrev pub worker_done : Dispatcher → Dispatcher
worker_done d = record d { workers = d.workers - 1 }

-- After `execute` the worker goes on, or it logs the panic and dies.
unfoldable pub after_execute : String → Dispatcher → Effects × Ended → Dispatcher
after_execute panic_value d (s, worker_panic) =
    worker_done
      (record d { effects = record s { log = s.log ++ log_worker_panic d.cfg.logger panic_value } })
after_execute panic_value d (s, broken e) =
    worker_done
      (record d { effects = record s { log = s.log ++ log_worker_panic d.cfg.logger panic_value } })
after_execute panic_value d (s, _) = record d { effects = s }
