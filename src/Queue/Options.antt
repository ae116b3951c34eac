-- ===== src/Queue/Options.antt =====
-- The options of gokue.go: functions that set one field of the configuration of a queue, or of a
-- task that is submitted. A nil option in a list of options is skipped.
use gokue.Prelude.{String, Option, none, some, List, [], ◌∷◌}
use gokue.Prelude.Int.{ℤ}
use gokue.Logger.{Logger}
use gokue.Config.{Config, mongo_db}
use gokue.Dispatcher.{Task}

abbrev pub QueueOption : Type 0
QueueOption = Option (Config → Config)

abbrev pub SubmitOption : Type 0
SubmitOption = Option (Task → Task)

unfoldable pub max_retries : ℤ → SubmitOption
max_retries n = some (λ t. record t { max_retries = some n })

unfoldable pub retry_delay : ℤ → SubmitOption
retry_delay delay = some (λ t. record t { retry_delay = some delay })

-- The argument of the Go function is not used.
unfoldable pub with_mongo_db : Config → QueueOption
with_mongo_db cfg = some (λ target. record target { memory_type = mongo_db })

unfoldable pub with_worker_count : ℤ → QueueOption
with_worker_count n = some (λ target. record target { worker_count = n })

unfoldable pub with_queue_size : ℤ → QueueOption
with_queue_size n = some (λ target. record target { queue_size = n })

unfoldable pub with_max_retries : ℤ → QueueOption
with_max_retries n = some (λ target. record target { max_retries = n })

unfoldable pub with_job_timeout : ℤ → QueueOption
with_job_timeout timeout = some (λ target. record target { job_timeout = timeout })

unfoldable pub with_retry_delay : ℤ → QueueOption
with_retry_delay delay = some (λ target. record target { retry_delay = delay })

unfoldable pub with_max_retry_delay : ℤ → QueueOption
with_max_retry_delay delay = some (λ target. record target { max_retry_delay = delay })

unfoldable pub with_shutdown_timeout : ℤ → QueueOption
with_shutdown_timeout timeout = some (λ target. record target { shutdown_timeout = timeout })

-- The logger is the one that `NewLogger` makes of a writer.
unfoldable pub with_logger : Logger → QueueOption
with_logger logger = some (λ target. record target { logger = some logger })

unfoldable pub with_backoff_strategy : String → QueueOption
with_backoff_strategy strategy = some (λ target. record target { backoff_strategy = strategy })

-- The loops over a list of options.
unfoldable pub apply_options {ℓ} : {A : Type ℓ} → List (Option (A → A)) → A → A
apply_options [] a = a
apply_options (none ∷ options) a = apply_options options a
apply_options (some option ∷ options) a = apply_options options (option a)
