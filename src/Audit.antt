-- ===== src/Audit.antt =====
-- audit/types.py, and the audit rows of persistence/models.py.
use modall.Common.{ℕ}

-- the members of `AuditAction` that the services of this library write
pub data AuditAction : Type 0 where
  connection_created connection_version_appended connection_verified : AuditAction
  connection_disabled connection_enabled : AuditAction
  capability_version_recorded capability_enabled capability_disabled : AuditAction
  run_created run_cancellation_requested run_cancelled : AuditAction

pub data ResourceType : Type 0 where
  server_connection capability run : ResourceType

-- an event of outcome `succeeded`
pub record AuditEvent : Type 0 where
  pub workspace_id : ℕ
  pub actor_user_id : ℕ
  pub action : AuditAction
  pub resource_type : ResourceType
  pub resource_id : ℕ
  pub correlation_id : ℕ
