-- ===== src/Config.antt =====
-- config/config.go: the configuration of a queue, its defaults and its validation. `int` and
-- `time.Duration` are integers, a duration in nanoseconds.
pub mod Validity
use gokue.Prelude.{
  String, ◌=?◌, Bool, true, false, ◌||◌, Option, none, some, if◌then◌else◌, ◌*◌, ◌^◌,
}
use gokue.Prelude.Int.{ℤ, pos, ltb_ℤ, leb_ℤ}
use gokue.Job.{JobError}
use gokue.Logger.{Logger}

-- MemoryType
abbrev pub in_memory : String
in_memory = "in-memory"

abbrev pub mongo_db : String
mongo_db = "mongo-db"

-- BackoffStrategy
abbrev pub constant : String
constant = "constant"

abbrev pub linear : String
linear = "linear"

abbrev pub exponential : String
exponential = "exponential"

abbrev pub exponential_jitter : String
exponential_jitter = "exponential-jitter"

pub record Config : Type 0 where
  pub memory_type : String
  pub worker_count : ℤ
  pub queue_size : ℤ
  pub max_retries : ℤ
  pub job_timeout : ℤ
  pub retry_delay : ℤ
  pub max_retry_delay : ℤ
  pub backoff_strategy : String
  pub shutdown_timeout : ℤ
  pub retry_predicates : Option (JobError → Bool)
  pub logger : Option Logger

-- The result of `runtime.GOMAXPROCS(0)` is an argument.
unfoldable pub default : ℤ → Config
default max_procs = record {
  memory_type = in_memory;
  worker_count = max_procs;
  queue_size = pos 1024;
  max_retries = pos 3;
  job_timeout = pos 30_000_000_000;
  retry_delay = pos 250_000_000;
  max_retry_delay = pos 30_000_000_000;
  backoff_strategy = exponential;
  shutdown_timeout = pos 10_000_000_000;
  retry_predicates = none;
  logger = none;
}

-- The messages that `Validate` wraps around `ErrInvalidConfig`.
pub data InvalidConfig : Type 0 where
  unsupported_backend : String → InvalidConfig
  unsupported_backoff : String → InvalidConfig
  worker_count_not_positive queue_size_not_positive max_retries_negative : InvalidConfig
  job_timeout_negative shutdown_timeout_negative : InvalidConfig
  retry_delay_negative max_retry_delay_negative : InvalidConfig

-- The two `switch` statements.
unfoldable pub is_memory_type : String → Bool
is_memory_type s = (s =? in_memory) || (s =? mongo_db)

unfoldable pub is_backoff_strategy : String → Bool
is_backoff_strategy s =
    (s =? constant) || ((s =? linear) || ((s =? exponential) || (s =? exponential_jitter)))

-- The `if` statements.
unfoldable pub validate_ranges : Config → Option InvalidConfig
validate_ranges c =
    if leb_ℤ c.worker_count (pos 0)
    then some worker_count_not_positive
    else if leb_ℤ c.queue_size (pos 0)
    then some queue_size_not_positive
    else if ltb_ℤ c.max_retries (pos 0)
    then some max_retries_negative
    else if ltb_ℤ c.job_timeout (pos 0)
    then some job_timeout_negative
    else if ltb_ℤ c.shutdown_timeout (pos 0)
    then some shutdown_timeout_negative
    else if ltb_ℤ c.retry_delay (pos 0)
    then some retry_delay_negative
    else if ltb_ℤ c.max_retry_delay (pos 0)
    then some max_retry_delay_negative
    else none

unfoldable pub validate : Config → Option InvalidConfig
validate c =
    if is_memory_type c.memory_type
    then (if is_backoff_strategy c.backoff_strategy
        then validate_ranges c
        else some (unsupported_backoff c.backoff_strategy))
    else some (unsupported_backend c.memory_type)
