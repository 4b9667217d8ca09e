-- ===== src/Execution/Types.antt =====
-- execution/types.py and the status sets of execution/service.py.
use modall.Common.{ℕ, ◌*◌, String, Bool, true, false, Option, none, some, ◌||◌, leb, ltb}

pub data RunStatus : Type 0 where
  queued preparing session_fenced dispatch_fenced : RunStatus
  succeeded failed cancelled timed_out indeterminate : RunStatus

pub data JobStatus : Type 0 where
  queued leased succeeded failed cancelled timed_out indeterminate : JobStatus

pub data RunEventType : Type 0 where
  admitted attempt_started session_fenced dispatch_fenced lease_lost cancel_requested : RunEventType
  terminal content_expired restore_reconciled : RunEventType

pub data RunFailureCode : Type 0 where
  worker_lost_before_dispatch worker_lost_after_dispatch deadline_exceeded : RunFailureCode
  cancelled_before_dispatch restore_reconciliation content_retention_deadline : RunFailureCode
  preparation_failed session_initialization_failed tool_call_failed : RunFailureCode
  invalid_tool_result unsupported_tool_result sensitive_tool_result : RunFailureCode
  upstream_outcome_unknown : RunFailureCode

-- `status in _TERMINAL_RUN_STATUSES`
abbrev pub is_terminal : RunStatus → Bool
is_terminal RunStatus.queued = false
is_terminal RunStatus.preparing = false
is_terminal RunStatus.session_fenced = false
is_terminal RunStatus.dispatch_fenced = false
is_terminal _ = true

-- `status in _ACTIVE_RUN_STATUS_VALUES`
abbrev pub is_active : RunStatus → Bool
is_active RunStatus.queued = true
is_active RunStatus.preparing = true
is_active RunStatus.session_fenced = true
is_active RunStatus.dispatch_fenced = true
is_active _ = false

-- `a == b` on statuses
abbrev pub same_status : RunStatus → RunStatus → Bool
same_status RunStatus.queued RunStatus.queued = true
same_status RunStatus.preparing RunStatus.preparing = true
same_status RunStatus.session_fenced RunStatus.session_fenced = true
same_status RunStatus.dispatch_fenced RunStatus.dispatch_fenced = true
same_status RunStatus.succeeded RunStatus.succeeded = true
same_status RunStatus.failed RunStatus.failed = true
same_status RunStatus.cancelled RunStatus.cancelled = true
same_status RunStatus.timed_out RunStatus.timed_out = true
same_status RunStatus.indeterminate RunStatus.indeterminate = true
same_status _ _ = false

abbrev pub is_leased : JobStatus → Bool
is_leased JobStatus.leased = true
is_leased _ = false

abbrev pub is_job_queued : JobStatus → Bool
is_job_queued JobStatus.queued = true
is_job_queued _ = false

-- `JobStatus(status.value)`, which raises `ValueError` for a status that jobs do not have
abbrev pub job_status : RunStatus → Option JobStatus
job_status RunStatus.queued = some JobStatus.queued
job_status RunStatus.preparing = none
job_status RunStatus.session_fenced = none
job_status RunStatus.dispatch_fenced = none
job_status RunStatus.succeeded = some JobStatus.succeeded
job_status RunStatus.failed = some JobStatus.failed
job_status RunStatus.cancelled = some JobStatus.cancelled
job_status RunStatus.timed_out = some JobStatus.timed_out
job_status RunStatus.indeterminate = some JobStatus.indeterminate

-- `ExecutionLimits`, the two schema-validation limits apart: they go to the validation process
pub record ExecutionLimits : Type 0 where
  pub max_argument_bytes : ℕ
  pub max_result_bytes : ℕ
  pub confirmation_ttl_seconds : ℕ
  pub max_run_seconds : ℕ
  pub argument_retention_days : ℕ
  pub result_retention_days : ℕ
  pub run_retention_days : ℕ
  pub max_idempotency_key_characters : ℕ
  pub max_historical_hmac_keys : ℕ
  pub reconciliation_batch_size : ℕ
  pub max_active_runs_per_workspace : ℕ

abbrev pub max_active_runs_cap : ℕ
max_active_runs_cap = 100

-- `not low <= value <= high`
abbrev pub outside : ℕ → ℕ → ℕ → Bool
outside low high value = ltb value low || ltb high value

-- `ExecutionLimits.__post_init__`
pub limits_invalid : ExecutionLimits → Bool
limits_invalid l =
    leb l.max_argument_bytes 0
    || leb l.max_result_bytes 0
    || outside 1 300 l.confirmation_ttl_seconds
    || leb l.max_run_seconds 0
    || outside 1 14 l.argument_retention_days
    || outside 1 14 l.result_retention_days
    || ltb l.run_retention_days l.argument_retention_days
    || ltb l.run_retention_days l.result_retention_days
    || leb l.max_idempotency_key_characters 0
    || outside 1 16 l.max_historical_hmac_keys
    || outside 1 1000 l.reconciliation_batch_size
    || outside 1 max_active_runs_cap l.max_active_runs_per_workspace

-- Times are counted in microseconds, the resolution of `datetime`.
abbrev pub second : ℕ
second = 1000000

abbrev pub seconds : ℕ → ℕ
seconds n = n * second

abbrev pub days : ℕ → ℕ
days n = n * (86400 * second)

pub record JobLease : Type 0 where
  pub job_id : ℕ
  pub run_id : ℕ
  pub workspace_id : ℕ
  pub correlation_id : ℕ
  pub worker_id : String
  pub lease_epoch : ℕ
  pub execution_epoch : ℕ
  pub expires_at : ℕ

pub record ReconciledJob : Type 0 where
  pub job_id : ℕ
  pub run_id : ℕ
  pub workspace_id : ℕ
  pub correlation_id : ℕ
  pub lease_epoch : ℕ
  pub status : RunStatus

pub record AcceptedToolResult : Type 0 where
  pub payload : String
  pub canonical_digest : String
  pub byte_count : ℕ
