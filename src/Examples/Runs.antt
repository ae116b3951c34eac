-- ===== src/Examples/Runs.antt =====
-- A task that is submitted, executed and drained, and the theorems on it.
use mathlib.Core.List.{Perm}
use gokue.Logger.{log_submit_rejected}
use gokue.Prelude.{
  List, ◌++◌, false, ◌≡◌, ◌≢◌, ◌≤◌, refl, true, none, some, [], ◌∷◌, length, arith, ◌+◌, ◌*◌, All,
}
use gokue.Prelude.Int.{pos, uint64}
use gokue.Dispatcher.{closed, new_dispatcher}
use gokue.Submission
use gokue.Submission.{submit, count_sent, try_submit, send, send_on_closed, reject_closed, prepare}
use gokue.Shutdown
use gokue.Shutdown.{
  drain_mode, close_with_mode, await_drain, close_of_closed, mark_closed, receive, worker_done,
}
use gokue.Execute.{execute}
use gokue.Backoff.{retry_delay}
use gokue.System.{
  System, init, ended_with, finish, submits, counts, closes, takes, finishes, exits, Runs, Reach,
  start, later,
}
use gokue.System.Draining.{close_nil_drained, tasks_conserved}
use gokue.System.Progress.{all_worker_steps, bounded_work, drain_completes}
use gokue.System.Fifo
use gokue.System.Fifo.{accepted, fifo}
use gokue.System.Once
use gokue.System.Locking
use gokue.System.Locking.{Submitter, Locked, init_locked, LockRuns, enters}
use gokue.System.Locking.Guarded.{lock_guards}
use gokue.System.Safety.{no_channel_panic, closed_rejects}
use gokue.System.Tasks.{IsReady, tasks-IsReady}
use gokue.Examples.Data.{config, task, live, run, least_int64}

abbrev fresh : System
fresh = init config none

abbrev sent : System
sent = record fresh { dispatcher = (submit true (pos 7) (some live) task fresh.dispatcher).0 }

abbrev submitted : System
submitted = record sent { dispatcher = count_sent task.name [] sent.dispatcher }

abbrev taken : System
taken = record submitted {
  dispatcher = record submitted.dispatcher { tasks = [] };
  running = task ∷ [];
}

abbrev executed : System
executed = finish least_int64 "" run task [] taken

abbrev closing : System
closing = record executed {
  dispatcher = (close_with_mode (pos 1) (some live) drain_mode executed.dispatcher).0;
}

abbrev pub drained : System
drained = record closing { dispatcher = worker_done closing.dispatcher }

until_submitted : Reach least_int64 config none submitted
unfolding new_dispatcher submit count_sent
until_submitted =
    later (later start (submits true (pos 7) (some live) task)) (counts [] [] task.name refl)

until_taken : Reach least_int64 config none taken
unfolding new_dispatcher submit count_sent receive
until_taken =
    later until_submitted
      (takes task (record submitted.dispatcher { tasks = [] }) (omega arith) refl)

until_executed : Reach least_int64 config none executed
until_executed = later until_taken (finishes [] [] task run "" refl (λ j h. cc))

until_closing : Reach least_int64 config none closing
unfolding new_dispatcher submit count_sent receive finish ended_with execute retry_delay
until_closing = later until_executed (closes (pos 1) (some live) drain_mode refl)

pub until_drained : Reach least_int64 config none drained
unfolding new_dispatcher submit count_sent receive finish ended_with execute retry_delay
    close_with_mode
until_drained = later until_closing (exits closing.dispatcher (omega arith) refl)

close_nil_drained_example :
    (drained.dispatcher.tasks ≡ [])
    × (drained.running ≡ [])
    × (drained.dispatcher.effects.collector.enqueued
        ≡ uint64 (
            drained.dispatcher.effects.collector.processed
            + drained.dispatcher.effects.collector.failed + drained.lost))
    × (drained.lost ≤ drained.crashed)
unfolding await_drain new_dispatcher submit count_sent finish ended_with execute retry_delay
    close_with_mode
close_nil_drained_example =
    close_nil_drained least_int64 config drained true (pos 1) live (omega arith) until_drained refl

tasks_conserved_example :
    (uint64 (drained.dispatcher.effects.collector.enqueued + length drained.dispatcher.sending)
      ≡ uint64 (
          drained.dispatcher.effects.collector.processed
          + drained.dispatcher.effects.collector.failed
          + length drained.dispatcher.tasks
          + (length drained.running + drained.lost)))
    × (drained.lost ≤ drained.crashed)
tasks_conserved_example = tasks_conserved least_int64 config drained until_drained

no_channel_panic_example :
    ((submit true (pos 9) (some live) task drained.dispatcher).1 ≢ send_on_closed)
    × ((try_submit (pos 9) (some live) task drained.dispatcher).1 ≢ send_on_closed)
    × ((close_with_mode (pos 9) (some live) drain_mode drained.dispatcher).1 ≢ close_of_closed)
    × ((await_drain true (pos 9) live drained.dispatcher).1 ≢ close_of_closed)
no_channel_panic_example =
    no_channel_panic least_int64 config none drained until_drained true (pos 9) (some live) live
      task drain_mode

tasks-IsReady_example : All IsReady taken.dispatcher.tasks × All IsReady taken.running
tasks-IsReady_example = tasks-IsReady least_int64 config none taken until_taken

to_the_end : Runs least_int64 closing drained
unfolding new_dispatcher submit count_sent receive finish ended_with execute retry_delay
    close_with_mode
to_the_end = later start (exits closing.dispatcher (omega arith) refl)

closed_rejects_example :
    (drained.dispatcher.closed ≡ true)
    × (length drained.dispatcher.tasks ≤ length closing.dispatcher.tasks)
    × (submit true (pos 9) (some live) task drained.dispatcher ≡ (
      reject_closed (prepare (pos 9) task) drained.dispatcher,
      Submission.returns (some closed),
    ))
    × (try_submit (pos 9) (some live) task drained.dispatcher ≡ (
      reject_closed (prepare (pos 9) task) drained.dispatcher,
      Submission.returns (some closed),
    ))
    × (reject_closed (prepare (pos 9) task) drained.dispatcher ≡ record drained.dispatcher {
      effects = record {
        collector = drained.dispatcher.effects.collector;
        log =
            drained.dispatcher.effects.log
            ++ log_submit_rejected drained.dispatcher.cfg.logger
                (prepare (pos 9) task).name
                "dispatcher_closed";
      };
    })
unfolding new_dispatcher submit count_sent finish ended_with execute retry_delay close_with_mode
closed_rejects_example =
    closed_rejects least_int64 closing drained refl to_the_end true (pos 9) live task refl

bounded_work_example :
    all_worker_steps least_int64 to_the_end
    ≤ 2 * length closing.dispatcher.tasks + length closing.running + closing.dispatcher.workers
unfolding close_with_mode finish ended_with execute submit count_sent new_dispatcher retry_delay
bounded_work_example = bounded_work least_int64 closing drained to_the_end refl

-- Closed while the task is running.
abbrev busy : System
busy = record taken {
  dispatcher = (close_with_mode (pos 1) (some live) drain_mode taken.dispatcher).0;
}

until_busy : Reach least_int64 config none busy
unfolding new_dispatcher submit count_sent
until_busy = later until_taken (closes (pos 1) (some live) drain_mode refl)

drain_completes_example :
    (t : System) × Runs least_int64 busy t
    × ((await_drain true (pos 5) live t.dispatcher).1 ≡ Shutdown.returns none)
unfolding close_with_mode finish ended_with execute submit count_sent new_dispatcher retry_delay
drain_completes_example =
    drain_completes least_int64 config busy true (pos 5) live until_busy refl refl

fifo_example :
    fresh.dispatcher.tasks ++ accepted least_int64 until_drained
    ≡ Fifo.taken least_int64 until_drained ++ drained.dispatcher.tasks
fifo_example = fifo least_int64 fresh drained until_drained

-- A submission in its `select`.
abbrev waiting : Locked
waiting = record (init_locked config none) {
  readers = record { blocking = true; task = prepare (pos 7) task } ∷ [];
}

until_waiting : LockRuns least_int64 (init_locked config none) waiting
unfolding new_dispatcher
until_waiting = Locking.later Locking.start (enters true (pos 7) task refl refl refl)

lock_guards_example :
    ((before after : List Submitter) (w : Submitter)
      → waiting.readers ≡ before ++ w ∷ after
      → (waiting.system.dispatcher.closed ≡ false)
        × ((send w.task waiting.system.dispatcher).1 ≡ Submission.returns none)
        × (waiting.marked ≡ [])
        × (waiting.system.dispatcher.quit_closed ≡ false))
    × (mark_closed waiting.system.dispatcher ≢ none)
lock_guards_example = lock_guards least_int64 config none waiting until_waiting

executed_once_example :
    Perm
      (accepted least_int64 until_drained)
      (drained.dispatcher.tasks ++ (drained.running ++ Once.executed least_int64 until_drained))
executed_once_example = Once.executed_once least_int64 config none drained until_drained
