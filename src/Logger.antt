-- ===== src/Logger.antt =====
-- internal/logger/events.go and the interface of logger.go: each `Log…` helper as the entries that
-- it sends to a logger, none when the logger is nil. The zap library that formats and writes them
-- is not modelled: a logger is known by a number, and an error's text by the error.
pub mod Events
pub mod Zap
use gokue.Prelude.{ℕ, ◌+◌, ◌/◌, String, Option, none, some, List, [], ◌∷◌}
use gokue.Prelude.Int.{ℤ, pos, negsuc, sub_ℕ}
use gokue.Job.{JobError, ContextError}
use gokue.Logger.Events.{
  event_close_completed, event_close_started, event_job_abandoned, event_job_completed,
  event_job_failed, event_job_panic, event_job_processing, event_job_retry, event_submit_enqueued,
  event_submit_rejected, event_worker_panic, field_attempt, field_duration_ms, field_error,
  field_job_name, field_mode, field_panic, field_reason, field_retry_delay_ms, field_status,
  status_enqueued, status_final_failure, status_success,
}

pub data Level : Type 0 where
  debug info warn error : Level

-- A logged value: a text, a number, the text `err.Error()` of an error, or a recovered value
-- printed by `%v`.
pub data Value : Type 0 where
  text : String → Value
  number : ℤ → Value
  error_text : JobError → Value
  context_error : ContextError → Value

pub record Entry : Type 0 where
  pub level : Level
  pub message : String
  pub fields : List (String × Value)

abbrev pub Logger : Type 0
Logger = ℕ

-- `d.Milliseconds()`: the quotient by 10^6, truncated towards zero.
unfoldable pub milliseconds : ℤ → ℤ
milliseconds (pos n) = pos (n / 1_000_000)
milliseconds (negsuc n) = sub_ℕ 0 ((n + 1) / 1_000_000)

abbrev emit : Option Logger → Level → String → List (String × Value) → List Entry
emit none level message fields = []
emit (some l) level message fields =
    record { level = level; message = message; fields = fields } ∷ []

-- The text of an error that may be nil.
abbrev error_field : Option JobError → Value
error_field none = text ""
error_field (some e) = error_text e

unfoldable pub log_submit_enqueued : Option Logger → String → List Entry
log_submit_enqueued logger job_name =
    emit logger debug event_submit_enqueued
      ((field_job_name, text job_name) ∷ (field_status, text status_enqueued) ∷ [])

unfoldable pub log_submit_rejected : Option Logger → String → String → List Entry
log_submit_rejected logger job_name reason =
    emit logger warn event_submit_rejected
      ((field_job_name, text job_name) ∷ (field_reason, text reason) ∷ [])

unfoldable pub log_job_processing : Option Logger → String → ℤ → List Entry
log_job_processing logger job_name attempt =
    emit logger debug event_job_processing
      ((field_job_name, text job_name) ∷ (field_attempt, number attempt) ∷ [])

unfoldable pub log_job_retry : Option Logger → String → ℤ → Option JobError → ℤ → List Entry
unfolding milliseconds
log_job_retry logger job_name attempt err delay = emit logger info event_job_retry (
    (field_job_name, text job_name)
    ∷ (field_attempt, number attempt)
    ∷ (field_error, error_field err)
    ∷ (field_retry_delay_ms, number (milliseconds delay))
    ∷ [])

unfoldable pub log_job_success : Option Logger → String → ℤ → List Entry
unfolding milliseconds
log_job_success logger job_name duration = emit logger info event_job_completed (
    (field_job_name, text job_name)
    ∷ (field_status, text status_success)
    ∷ (field_duration_ms, number (milliseconds duration))
    ∷ [])

unfoldable pub log_job_failure : Option Logger → String → ℤ → Option JobError → ℤ → List Entry
unfolding milliseconds
log_job_failure logger job_name attempt err duration = emit logger error event_job_failed (
    (field_job_name, text job_name)
    ∷ (field_attempt, number attempt)
    ∷ (field_error, error_field err)
    ∷ (field_duration_ms, number (milliseconds duration))
    ∷ (field_status, text status_final_failure)
    ∷ [])

unfoldable pub log_job_abandoned : Option Logger → String → ℤ → String → ℤ → List Entry
unfolding milliseconds
log_job_abandoned logger job_name attempt reason duration = emit logger warn event_job_abandoned (
    (field_job_name, text job_name)
    ∷ (field_attempt, number attempt)
    ∷ (field_reason, text reason)
    ∷ (field_duration_ms, number (milliseconds duration))
    ∷ [])

unfoldable pub log_close_start : Option Logger → String → List Entry
log_close_start logger mode = emit logger info event_close_started ((field_mode, text mode) ∷ [])

unfoldable pub log_close_complete : Option Logger → String → ℤ → Option ContextError → List Entry
unfolding milliseconds
log_close_complete logger mode duration none = emit logger info event_close_completed (
    (field_mode, text mode)
    ∷ (field_duration_ms, number (milliseconds duration))
    ∷ (field_status, text status_success)
    ∷ [])
log_close_complete logger mode duration (some err) = emit logger error event_close_completed (
    (field_mode, text mode)
    ∷ (field_duration_ms, number (milliseconds duration))
    ∷ (field_error, context_error err)
    ∷ [])

unfoldable pub log_job_panic : Option Logger → String → String → List Entry
log_job_panic logger job_name recovered =
    emit logger error event_job_panic
      ((field_job_name, text job_name) ∷ (field_panic, text recovered) ∷ [])

unfoldable pub log_worker_panic : Option Logger → String → List Entry
log_worker_panic logger recovered =
    emit logger error event_worker_panic ((field_panic, text recovered) ∷ [])
