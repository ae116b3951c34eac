-- ===== src/Programs/MultipleJobs.antt =====
-- examples/multiple-jobs/main.go: sixteen e-mails, which pay no attention to their context.
use gokue.Prelude.{ℕ, String, ◌≡◌, refl, Bool, Option, none, some, List, [], ◌∷◌, length}
use gokue.Prelude.Int.{ℤ, pos}
use gokue.Prelude.Bytes.{Bytes}
use gokue.Job.{name_of, Outcome, succeeds}
use gokue.Config.{Config, validate, is_memory_type, is_backoff_strategy, validate_ranges}
use gokue.Dispatcher.{new_dispatcher}
use gokue.Submission.{submit, count_sent}
use gokue.Queue
use gokue.Queue.{Queue, new_queue, configured, built_task}
use gokue.Queue.Options.{
  QueueOption, with_worker_count, with_queue_size, with_max_retries, with_job_timeout,
}
use gokue.Programs.{Email, Line, sending, seconds, new_or_panic, submit_each}

-- A sleep of 5 s, which nothing interrupts, and the print.
unfoldable pub process : Bool → Email → Option ℤ → Line × Outcome
process choice email timeout = (sending email, succeeds)

unfoldable pub options : List QueueOption
options =
    with_worker_count (pos 4)
    ∷ with_queue_size (pos 64)
    ∷ with_max_retries (pos 2)
    ∷ with_job_timeout (seconds 5)
    ∷ []

abbrev to_send : String → String → Email
to_send address message = record { address = address; message = message }

unfoldable pub emails_to_send : List Email
emails_to_send =
    to_send "alice.johnson@example.com" "Welcome to our platform, Alice!"
    ∷ to_send "michael.brown@example.com" "Your account has been created successfully."
    ∷ to_send "sarah.williams@example.com" "Your password was updated successfully."
    ∷ to_send "david.miller@example.com" "Your order has been confirmed."
    ∷ to_send "emily.davis@example.com" "Your payment was received. Thank you!"
    ∷ to_send "james.wilson@example.com" "Your weekly activity report is ready."
    ∷ to_send "olivia.moore@example.com" "You have a new notification waiting."
    ∷ to_send "daniel.taylor@example.com" "Your subscription expires in three days."
    ∷ to_send "sophia.anderson@example.com" "Your support ticket has been received."
    ∷ to_send "ethan.thomas@example.com" "Your requested report is attached."
    ∷ to_send "ava.jackson@example.com" "Thanks for joining our newsletter!"
    ∷ to_send "noah.white@example.com" "Your profile was updated successfully."
    ∷ to_send "isabella.harris@example.com" "Your scheduled meeting starts tomorrow."
    ∷ to_send "liam.martin@example.com" "Your delivery is on its way."
    ∷ to_send "mia.thompson@example.com" "Your email address has been verified."
    ∷ to_send "lucas.garcia@example.com" "Your trial period ends next week."
    ∷ []

-- Up to the deferred `Close`.
unfoldable pub main : (ℕ → ℤ) → (Email → Bytes) → ℤ → Option Queue
unfolding new_queue submit_each options
main clock contents max_procs =
    submit_each clock contents emails_to_send (new_or_panic (new_queue max_procs options))

abbrev pub config : ℤ → Config
config max_procs = configured max_procs none options

-- All sixteen submissions are accepted, even while no worker has taken a task.
main_accepts :
    (clock : ℕ → ℤ) (contents : Email → Bytes) (max_procs : ℤ)
    → (q : Queue) × (main clock contents max_procs ≡ some q) × (length q.dispatcher.tasks ≡ 16)
unfolding main emails_to_send submit_each options configured with_worker_count with_queue_size
    with_max_retries with_job_timeout new_queue new_dispatcher Queue.submit submit count_sent
    built_task name_of validate is_memory_type is_backoff_strategy validate_ranges
main_accepts clock contents max_procs = (_, refl, refl)
