-- ===== src/Examples/Programs/RetryRun.antt =====
-- The program of examples/retry-job run to its end.
use gokue.Prelude.{Bool, true, ◌≡◌, refl, none, some, [], arith}
use gokue.Prelude.Int.{pos}
use gokue.Job.{name_of, fails}
use gokue.Backoff.{retry_delay}
use gokue.Programs.Failing.{NoTask}
use gokue.System.Uniform.{IsUniform}
use gokue.Config.{validate, is_memory_type, is_backoff_strategy, validate_ranges}
use gokue.Dispatcher.{new_dispatcher}
use gokue.Execute.{execute, job_timeout}
use gokue.Submission.{submit, count_sent}
use gokue.Shutdown.{drain_mode, close_with_mode, receive, await_drain}
use gokue.Queue
use gokue.Queue.{Queue, new_queue, configured, background, built_task, stats}
use gokue.Queue.Options.{
  with_worker_count, with_queue_size, with_max_retries, with_job_timeout, with_retry_delay,
  with_backoff_strategy,
}
use gokue.System.{System, finish, ended_with, closes, takes, finishes, exits, Runs, start, later}
use gokue.Programs.{Email, failed, timer_or_done, system_of, submit_each, job_of}
use gokue.Programs.Executions.{IsRunOf}
use gokue.Programs.SingleWorker
use gokue.Programs.RetryJob
use gokue.Examples.Data.{least_int64}
use gokue.Examples.Programs.{
  clock, contents, run_of, run_of-IsRunOf, head_taken, closing, one_exit, task,
}

abbrev retry_queue : Queue
retry_queue = record {
  config = RetryJob.config (pos 1);
  dispatcher =
      count_sent "Email" []
        (submit true (pos 7) (some background)
          (built_task (some (job_of contents SingleWorker.email)) [])
          (new_dispatcher (RetryJob.config (pos 1)) none)).0;
}

abbrev retry_taken : System
retry_taken = head_taken (system_of retry_queue) task

abbrev retry_executed : System
retry_executed =
    finish least_int64 "" (run_of RetryJob.process SingleWorker.email) task [] retry_taken

abbrev retry_drained : System
retry_drained = one_exit (one_exit (one_exit (closing retry_executed)))

unfoldable retry_until_taken : Runs least_int64 (system_of retry_queue) retry_taken
unfolding count_sent configured RetryJob.options with_worker_count with_queue_size with_max_retries
    with_retry_delay with_backoff_strategy with_job_timeout new_dispatcher submit built_task name_of
    receive
retry_until_taken = later start (takes task retry_taken.dispatcher (omega arith) refl)

unfoldable retry_until_executed : Runs least_int64 (system_of retry_queue) retry_executed
retry_until_executed =
    later retry_until_taken
      (finishes [] [] task (run_of RetryJob.process SingleWorker.email) "" refl (λ j h. cc))

unfoldable retry_until_drained : Runs least_int64 (system_of retry_queue) retry_drained
unfolding count_sent configured RetryJob.options with_worker_count with_queue_size with_max_retries
    with_retry_delay with_backoff_strategy with_job_timeout new_dispatcher submit built_task name_of
    receive finish ended_with execute retry_delay close_with_mode RetryJob.process timer_or_done
retry_until_drained =
    later
      (later
        (later (later retry_until_executed (closes (pos 1) (some background) drain_mode refl))
          (exits (closing retry_executed).dispatcher (omega arith) refl))
        (exits (one_exit (closing retry_executed)).dispatcher (omega arith) refl))
      (exits (one_exit (one_exit (closing retry_executed))).dispatcher (omega arith) refl)

retry_drained-IsUniform :
    IsUniform least_int64 NoTask (IsRunOf RetryJob.process) retry_until_drained
unfolding retry_until_drained retry_until_executed retry_until_taken
retry_drained-IsUniform = (
  (
    ((((tt, tt), run_of-IsRunOf RetryJob.process SingleWorker.email task refl refl refl), tt), tt),
    tt,
  ),
  tt,
)

printed_statistics_example :
    ((choice : Bool) (mail : Email)
      → RetryJob.process choice mail (job_timeout retry_queue.config.job_timeout)
        ≡ (failed mail, fails RetryJob.service_failure))
    × (stats (some (record retry_queue { dispatcher = retry_drained.dispatcher })) ≡ record {
      enqueued = 1;
      processed = 0;
      failed = 1;
      retried = 4;
      dropped = 0;
      retry_predicates_failed = 0;
    })
unfolding count_sent configured RetryJob.options with_worker_count with_queue_size with_max_retries
    with_retry_delay with_backoff_strategy with_job_timeout new_dispatcher submit built_task name_of
    receive finish ended_with execute retry_delay close_with_mode RetryJob.process timer_or_done
    await_drain RetryJob.main submit_each new_queue Queue.submit validate is_memory_type
    is_backoff_strategy validate_ranges
printed_statistics_example =
    RetryJob.printed_statistics least_int64 clock contents (pos 1) retry_queue retry_drained true
      (pos 9) background retry_until_drained refl retry_drained-IsUniform refl
