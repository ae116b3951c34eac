-- ===== src/Config/Validity.antt =====
-- What `Validate` of config/config.go accepts.
use gokue.Prelude.{◌≡◌, refl, ◌↔◌, ◌⊎◌, inl, inr, String, arith, eq_iff, none, true}
use gokue.Prelude.Int.{ℤ, pos, ◌≤ℤ◌, ◌<ℤ◌}
use gokue.Config.{
  Config, in_memory, mongo_db, constant, linear, exponential, exponential_jitter, default,
  is_memory_type, is_backoff_strategy, validate_ranges, validate,
}

abbrev pub MemoryKnown : String → Type 0
MemoryKnown s = (s ≡ in_memory) ⊎ (s ≡ mongo_db)

abbrev pub BackoffKnown : String → Type 0
BackoffKnown s = (s ≡ constant) ⊎ ((s ≡ linear) ⊎ ((s ≡ exponential) ⊎ (s ≡ exponential_jitter)))

-- The ranges that the comments on the fields of `Config` and the tables of README.md give.
pub record InRange (c : Config) : Type 0 where
  pub some_worker : pos 0 <ℤ c.worker_count
  pub some_room : pos 0 <ℤ c.queue_size
  pub retries : pos 0 ≤ℤ c.max_retries
  pub job_timeout : pos 0 ≤ℤ c.job_timeout
  pub shutdown_timeout : pos 0 ≤ℤ c.shutdown_timeout
  pub retry_delay : pos 0 ≤ℤ c.retry_delay
  pub max_retry_delay : pos 0 ≤ℤ c.max_retry_delay

abbrev pub IsValid : Config → Type 0
IsValid c = MemoryKnown c.memory_type × BackoffKnown c.backoff_strategy × InRange c

is_memory_type_iff : (s : String) → (is_memory_type s ≡ true) ↔ MemoryKnown s
unfolding is_memory_type
is_memory_type_iff s = (
  λ h. ground (arith, eq_iff s in_memory, eq_iff s mongo_db),
  λ h. ground (arith, eq_iff s in_memory, eq_iff s mongo_db),
)

is_backoff_strategy_iff : (s : String) → (is_backoff_strategy s ≡ true) ↔ BackoffKnown s
unfolding is_backoff_strategy
is_backoff_strategy_iff s = (
  λ h. ground (
    arith,
    eq_iff s constant,
    eq_iff s linear,
    eq_iff s exponential,
    eq_iff s exponential_jitter,
  ),
  λ h. ground (
    arith,
    eq_iff s constant,
    eq_iff s linear,
    eq_iff s exponential,
    eq_iff s exponential_jitter,
  ),
)

validate_ranges_iff : (c : Config) → (validate_ranges c ≡ none) ↔ InRange c
unfolding validate_ranges
validate_ranges_iff c = (λ h. ground arith, λ v. ground arith)

-- `Validate` returns no error exactly on the configurations whose memory type and backoff strategy
-- are known, whose worker count and queue size are positive and whose other numbers are not negative.
pub validate-eq-none_iff : (c : Config) → (validate c ≡ none) ↔ IsValid c
unfolding validate
validate-eq-none_iff c = (
  λ h. ground (
    arith,
    is_memory_type_iff c.memory_type,
    is_backoff_strategy_iff c.backoff_strategy,
    validate_ranges_iff c,
  ),
  λ v. ground (
    arith,
    is_memory_type_iff c.memory_type,
    is_backoff_strategy_iff c.backoff_strategy,
    validate_ranges_iff c,
  ),
)

-- The default configuration is valid as soon as there is a processor.
pub validate-default : (max_procs : ℤ) → pos 0 <ℤ max_procs → validate (default max_procs) ≡ none
unfolding default
validate-default n h =
    (validate-eq-none_iff (default n)).1 (inl refl, inr (inr (inl refl)), omega arith)
