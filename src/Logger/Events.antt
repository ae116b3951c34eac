-- ===== src/Logger/Events.antt =====
-- The names that the helpers of internal/logger/events.go log under.
use gokue.Prelude.{String}

-- The identifiers of the events.
abbrev pub event_submit_enqueued : String
event_submit_enqueued = "job_submitted"

abbrev pub event_submit_rejected : String
event_submit_rejected = "job_submission_rejected"

abbrev pub event_job_processing : String
event_job_processing = "job_processing_started"

abbrev pub event_job_retry : String
event_job_retry = "job_retry"

abbrev pub event_job_completed : String
event_job_completed = "job_completed"

abbrev pub event_job_failed : String
event_job_failed = "job_failed"

abbrev pub event_job_abandoned : String
event_job_abandoned = "job_abandoned"

abbrev pub event_job_panic : String
event_job_panic = "job_panic"

abbrev pub event_worker_panic : String
event_worker_panic = "worker_panic"

abbrev pub event_close_started : String
event_close_started = "dispatcher_close_started"

abbrev pub event_close_completed : String
event_close_completed = "dispatcher_close_completed"

-- The keys of the fields.
abbrev pub field_job_name : String
field_job_name = "job_name"

abbrev pub field_attempt : String
field_attempt = "attempt"

abbrev pub field_error : String
field_error = "error"

abbrev pub field_duration_ms : String
field_duration_ms = "duration_ms"

abbrev pub field_retry_delay_ms : String
field_retry_delay_ms = "retry_delay_ms"

abbrev pub field_mode : String
field_mode = "mode"

abbrev pub field_status : String
field_status = "status"

abbrev pub field_reason : String
field_reason = "reason"

abbrev pub field_panic : String
field_panic = "panic"

-- The values of a status field.
abbrev pub status_enqueued : String
status_enqueued = "enqueued"

abbrev pub status_success : String
status_success = "success"

abbrev pub status_final_failure : String
status_final_failure = "final_failure"

-- The values of a reason field.
abbrev pub reason_dispatcher_closed : String
reason_dispatcher_closed = "dispatcher_closed"

abbrev pub reason_context_cancelled : String
reason_context_cancelled = "context_cancelled"

abbrev pub reason_queue_full : String
reason_queue_full = "queue_full"

abbrev pub reason_dispatcher_shutdown : String
reason_dispatcher_shutdown = "dispatcher_shutdown"
