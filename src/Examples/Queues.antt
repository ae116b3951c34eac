-- ===== src/Examples/Queues.antt =====
-- The theorems on queues and submissions at concrete inputs.
use gokue.Prelude.{◌+◌, ◌≤◌, ◌≡◌, refl, true, none, some, List, [], ◌∷◌, ◌++◌, inr, arith}
use gokue.Prelude.Int.{pos, uint64}
use gokue.Config.{validate, constant}
use gokue.Dispatcher.{Dispatcher, new_dispatcher}
use gokue.Execute.{start}
use gokue.Backoff.{retry_delay}
use gokue.Execute.{execute}
use gokue.Config.{is_memory_type, is_backoff_strategy, validate_ranges}
use gokue.Submission.{count_sent, prepare, submit}
use gokue.Shutdown.{await_drain, close_with_mode}
use gokue.System.{ended_with, finish}
use gokue.Queue.{Queue, new_queue_with_logger, built_task, stats}
use gokue.Queue.Options
use gokue.Queue.Options.{
  QueueOption, with_worker_count, with_queue_size, with_max_retries, with_job_timeout,
  with_retry_delay, with_max_retry_delay, with_backoff_strategy, with_shutdown_timeout,
}
use gokue.Queue.Starting.{drained_stats, overrides_win}
use gokue.Examples.Data.{config, email, live, run, least_int64}
use gokue.Examples.Runs.{drained, until_drained}

abbrev dispatcher : Dispatcher
dispatcher = new_dispatcher config none

-- They set every field in which the examples' configuration differs from the default one.
abbrev options : List QueueOption
options =
    with_worker_count (pos 1)
    ∷ with_queue_size (pos 2)
    ∷ with_max_retries (pos 2)
    ∷ none
    ∷ with_job_timeout (pos 0)
    ∷ with_retry_delay (pos 5)
    ∷ with_max_retry_delay (pos 100)
    ∷ with_backoff_strategy constant
    ∷ with_shutdown_timeout (pos 1000)
    ∷ []

abbrev queue : Queue
queue = record { config = config; dispatcher = new_dispatcher config none }

queue_made : new_queue_with_logger (pos 8) none options ≡ inr queue
unfolding new_queue_with_logger with_worker_count with_queue_size with_max_retries with_job_timeout
    with_retry_delay with_max_retry_delay with_backoff_strategy with_shutdown_timeout validate
    is_memory_type is_backoff_strategy validate_ranges new_dispatcher
queue_made = refl

drained_stats_example :
    let seen = stats (some (record queue { dispatcher = drained.dispatcher })) in
    (seen.enqueued ≡ uint64 (seen.processed + seen.failed + drained.lost))
    × (drained.lost ≤ drained.crashed)
unfolding await_drain new_dispatcher submit count_sent finish ended_with execute retry_delay
    close_with_mode
drained_stats_example =
    drained_stats least_int64 (pos 8) none options queue drained true (pos 1) live queue_made
      (omega arith) until_drained refl

overrides_win_example :
    let x =
      start config
        (prepare (pos 7) (
          built_task (some email) (
            (Options.max_retries (pos 9) ∷ [] ++ Options.max_retries (pos 1) ∷ [])
            ++ Options.retry_delay (pos 3) ∷ [])))
        run in
    (x.max_retries ≡ pos 1) × (x.retry_base_delay ≡ pos 3)
overrides_win_example =
    overrides_win config (some email) (Options.max_retries (pos 9) ∷ []) (pos 1) (pos 3) (pos 7) run
