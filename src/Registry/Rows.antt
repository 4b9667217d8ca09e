-- ===== src/Registry/Rows.antt =====
-- registry/types.py, and the registry rows of persistence/models.py that the execution service reads.
use modall.Common.{
  ℕ, String, Bool, true, false, Option, none, some, List, ◌==◌, str_eq, ◌&&◌, find, any,
}
use modall.Identity.{WorkspaceMembership}

pub data ConnectionLifecycle : Type 0 where
  verifying active degraded disabled : ConnectionLifecycle

pub data CapabilityStatus : Type 0 where
  pending_review enabled disabled unavailable : CapabilityStatus

pub data DiscoveryFailureCode : Type 0 where
  authentication_failed endpoint_rejected protocol_mismatch : DiscoveryFailureCode
  response_limit timeout transport_failed invalid_metadata : DiscoveryFailureCode

abbrev pub is_active_connection : ConnectionLifecycle → Bool
is_active_connection ConnectionLifecycle.active = true
is_active_connection _ = false

abbrev pub is_enabled : CapabilityStatus → Bool
is_enabled CapabilityStatus.enabled = true
is_enabled _ = false

pub record ServerConnection : Type 0 where
  pub id : ℕ
  pub workspace_id : ℕ
  pub name : List ℕ
  pub lifecycle : ConnectionLifecycle
  pub pending_version_id : Option ℕ
  pub verified_version_id : Option ℕ
  pub control_epoch : ℕ
  pub refresh_generation : ℕ
  pub allocated_control_epoch : Option ℕ
  pub allocated_target_version_id : Option ℕ
  pub current_snapshot_id : Option ℕ
  pub last_refresh_error_code : Option DiscoveryFailureCode
  pub last_refresh_at : Option ℕ
  pub created_by_user_id : ℕ

pub record Capability : Type 0 where
  pub id : ℕ
  pub workspace_id : ℕ
  pub connection_id : ℕ
  pub tool_identity : String
  pub pending_version_id : Option ℕ
  pub enabled_version_id : Option ℕ
  pub status : CapabilityStatus
  pub status_epoch : ℕ

pub record CapabilityVersion : Type 0 where
  pub id : ℕ
  pub workspace_id : ℕ
  pub capability_id : ℕ
  pub sequence : ℕ
  pub display_name : String
  pub description : Option String
  pub input_schema : String
  pub output_schema : Option String
  pub metadata_digest : String
  pub schema_supported : Bool

pub record McpToolBinding : Type 0 where
  pub capability_version_id : ℕ
  pub capability_id : ℕ
  pub workspace_id : ℕ
  pub connection_id : ℕ
  pub connection_version_id : ℕ
  pub tool_name : String
  pub protocol_revision : String

pub record DiscoverySnapshotCapability : Type 0 where
  pub workspace_id : ℕ
  pub connection_id : ℕ
  pub connection_version_id : ℕ
  pub snapshot_id : ℕ
  pub capability_version_id : ℕ

pub record Tables : Type 0 where
  pub workspaces : List ℕ
  pub memberships : List WorkspaceMembership
  pub connections : List ServerConnection
  pub capabilities : List Capability
  pub versions : List CapabilityVersion
  pub bindings : List McpToolBinding
  pub observations : List DiscoverySnapshotCapability

-- `QUALIFIED_PROTOCOL_REVISION`
abbrev pub qualified_protocol_revision : String
qualified_protocol_revision = "2025-06-18"

unfoldable pub has_workspace : Tables → ℕ → Bool
has_workspace t id = any (λ w. w == id) t.workspaces

unfoldable pub find_membership : Tables → ℕ → ℕ → Option WorkspaceMembership
find_membership t workspace user =
    find (λ m. m.workspace_id == workspace && m.user_id == user) t.memberships

unfoldable pub find_capability : Tables → ℕ → ℕ → Option Capability
find_capability t workspace id =
    find (λ c. c.id == id && c.workspace_id == workspace) t.capabilities

unfoldable pub find_connection : Tables → ℕ → ℕ → Option ServerConnection
find_connection t workspace id = find (λ c. c.id == id && c.workspace_id == workspace) t.connections

unfoldable pub find_version : Tables → ℕ → ℕ → Option CapabilityVersion
find_version t workspace id = find (λ v. v.id == id && v.workspace_id == workspace) t.versions

-- the query on `DiscoverySnapshotCapability` at the current snapshot of a connection that was found;
-- the row stands for the id that the code selects
unfoldable pub find_observed :
    Tables → ℕ → ℕ → ℕ → ℕ → Option ServerConnection → Option DiscoverySnapshotCapability
find_observed t workspace connection version capability_version none = none
find_observed t workspace connection version capability_version (some c) =
    elim c.current_snapshot_id [
      | none ↦ none
      | some snapshot ↦
          find
            (λ o.
              o.workspace_id == workspace
              && o.connection_id == connection
              && o.connection_version_id == version
              && o.snapshot_id == snapshot
              && o.capability_version_id == capability_version)
            t.observations
    ]

-- the binding of a run: every pinned column, the protocol revision too
unfoldable pub find_run_binding : Tables → ℕ → ℕ → ℕ → ℕ → ℕ → String → Option McpToolBinding
find_run_binding t workspace capability capability_version connection connection_version revision =
    find
      (λ b.
        b.workspace_id == workspace
        && b.capability_id == capability
        && b.capability_version_id == capability_version
        && b.connection_id == connection
        && b.connection_version_id == connection_version
        && str_eq b.protocol_revision revision)
      t.bindings
