-- ===== src/Examples/Programs/SingleRun.antt =====
-- The program of examples/single-worker run to its end.
use gokue.Prelude.{Bool, true, ◌≡◌, refl, none, some, [], arith}
use gokue.Prelude.Int.{pos}
use gokue.Job.{name_of, deadline_exceeded, timed_out, fails}
use gokue.Backoff.{retry_delay, capped_exp}
use gokue.Float.{to_int64, float_lt, to_float, mul, pow_2, round_53}
use gokue.Programs.Failing.{NoTask}
use gokue.System.Uniform.{IsUniform}
use gokue.Config.{validate, is_memory_type, is_backoff_strategy, validate_ranges}
use gokue.Dispatcher.{new_dispatcher}
use gokue.Execute.{execute, job_timeout}
use gokue.Submission.{submit, count_sent}
use gokue.Shutdown.{drain_mode, close_with_mode, receive, await_drain}
use gokue.Queue
use gokue.Queue.{Queue, new_queue, configured, background, built_task, stats}
use gokue.Queue.Options.{with_worker_count, with_queue_size, with_max_retries, with_job_timeout}
use gokue.System.{System, finish, ended_with, closes, takes, finishes, exits, Runs, start, later}
use gokue.Programs.{Email, failed_to_send, timer_or_done, system_of, submit_each, job_of}
use gokue.Programs.Executions.{IsRunOf}
use gokue.Programs.SingleWorker
use gokue.Examples.Data.{least_int64}
use gokue.Examples.Programs.{
  clock, contents, run_of, run_of-IsRunOf, head_taken, closing, one_exit, task,
}

abbrev single_queue : Queue
single_queue = record {
  config = SingleWorker.config (pos 1);
  dispatcher =
      count_sent "Email" []
        (submit true (pos 7) (some background)
          (built_task (some (job_of contents SingleWorker.email)) [])
          (new_dispatcher (SingleWorker.config (pos 1)) none)).0;
}

abbrev single_taken : System
single_taken = head_taken (system_of single_queue) task

abbrev single_executed : System
single_executed =
    finish least_int64 "" (run_of SingleWorker.process SingleWorker.email) task [] single_taken

abbrev single_drained : System
single_drained = one_exit (closing single_executed)

unfoldable single_until_taken : Runs least_int64 (system_of single_queue) single_taken
unfolding count_sent configured SingleWorker.options with_worker_count with_queue_size
    with_max_retries with_job_timeout new_dispatcher submit built_task name_of receive
single_until_taken = later start (takes task single_taken.dispatcher (omega arith) refl)

unfoldable single_until_executed : Runs least_int64 (system_of single_queue) single_executed
single_until_executed =
    later single_until_taken
      (finishes [] [] task (run_of SingleWorker.process SingleWorker.email) "" refl (λ j h. cc))

unfoldable single_until_drained : Runs least_int64 (system_of single_queue) single_drained
unfolding count_sent configured SingleWorker.options with_worker_count with_queue_size
    with_max_retries with_job_timeout new_dispatcher submit built_task name_of receive finish
    ended_with execute retry_delay close_with_mode SingleWorker.process timer_or_done to_int64
    capped_exp float_lt to_float mul pow_2 round_53
single_until_drained =
    later (later single_until_executed (closes (pos 1) (some background) drain_mode refl))
      (exits (closing single_executed).dispatcher (omega arith) refl)

single_drained-IsUniform :
    IsUniform least_int64 NoTask (IsRunOf SingleWorker.process) single_until_drained
unfolding single_until_drained single_until_executed single_until_taken
single_drained-IsUniform = (
  (((tt, tt), run_of-IsRunOf SingleWorker.process SingleWorker.email task refl refl refl), tt),
  tt,
)

sends_nothing_example :
    ((choice : Bool) (mail : Email)
      → SingleWorker.process choice mail (job_timeout single_queue.config.job_timeout)
        ≡ (failed_to_send mail deadline_exceeded, fails (timed_out deadline_exceeded)))
    × (stats (some (record single_queue { dispatcher = single_drained.dispatcher })) ≡ record {
      enqueued = 1;
      processed = 0;
      failed = 1;
      retried = 2;
      dropped = 0;
      retry_predicates_failed = 0;
    })
unfolding count_sent configured SingleWorker.options with_worker_count with_queue_size
    with_max_retries with_job_timeout new_dispatcher submit built_task name_of receive finish
    ended_with execute retry_delay close_with_mode SingleWorker.process timer_or_done to_int64
    capped_exp float_lt to_float mul pow_2 round_53 await_drain SingleWorker.main submit_each
    new_queue Queue.submit validate is_memory_type is_backoff_strategy validate_ranges
sends_nothing_example =
    SingleWorker.sends_nothing least_int64 clock contents (pos 1) single_queue single_drained true
      (pos 9) background single_until_drained refl single_drained-IsUniform refl
