-- ===== src/Execution/Rows.antt =====
-- persistence/models.py: `Run` with the rows that reference it. A job is unique per run and is
-- deleted with it (`UniqueConstraint("run_id")`, `ondelete="CASCADE"`), and so are attempts, events
-- and the result; they are kept beside their run, attempts and events newest first.
use modall.Common.{ℕ, String, Bool, Option, List}
use modall.Execution.Types.{RunStatus, JobStatus, RunEventType, RunFailureCode}

pub record Run : Type 0 where
  pub id : ℕ
  pub workspace_id : ℕ
  pub correlation_id : ℕ
  pub actor_user_id : ℕ
  pub capability_id : ℕ
  pub capability_version_id : ℕ
  pub connection_id : ℕ
  pub connection_version_id : ℕ
  pub connection_control_epoch : ℕ
  pub capability_status_epoch : ℕ
  pub protocol_revision : String
  pub status : RunStatus
  pub arguments : Option String
  pub argument_digest : Option String
  pub arguments_expires_at : ℕ
  pub deadline : ℕ
  pub cancellation_requested : Bool
  pub safe_error_code : Option RunFailureCode
  pub created_at : ℕ
  pub updated_at : ℕ
  pub terminal_at : Option ℕ

pub record Job : Type 0 where
  pub id : ℕ
  pub workspace_id : ℕ
  pub run_id : ℕ
  pub actor_user_id : ℕ
  pub execution_epoch : ℕ
  pub status : JobStatus
  pub lease_owner : Option String
  pub lease_epoch : ℕ
  pub lease_expires_at : Option ℕ
  pub available_at : ℕ
  pub deadline : ℕ
  pub created_at : ℕ
  pub completed_at : Option ℕ

pub record RunAttempt : Type 0 where
  pub job_id : ℕ
  pub sequence : ℕ
  pub lease_epoch : ℕ
  pub status : RunStatus
  pub started_at : ℕ
  pub terminal_at : Option ℕ
  pub safe_error_code : Option RunFailureCode

pub record RunEvent : Type 0 where
  pub sequence : ℕ
  pub event_type : RunEventType
  pub status : RunStatus
  pub safe_error_code : Option RunFailureCode
  pub occurred_at : ℕ

pub record RunResult : Type 0 where
  pub payload : String
  pub canonical_digest : String
  pub byte_count : ℕ
  pub captured_at : ℕ
  pub expires_at : ℕ

pub record RunRows : Type 0 where
  pub run : Run
  pub job : Option Job
  pub attempts : List RunAttempt
  pub events : List RunEvent
  pub result : Option RunResult
