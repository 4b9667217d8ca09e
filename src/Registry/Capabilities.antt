-- ===== src/Registry/Capabilities.antt =====
-- registry/service.py: `CapabilityService.enable` and `CapabilityService.disable`, and what they
-- write into a capability.
pub mod Projects
pub mod Recording
use modall.Audit.{AuditAction, ResourceType}
use modall.Common.{
  ℕ, Option, ◌+◌, some, Bool, none, not, Act, true, ◌||◌, false, find, is_some, holds_id, str_eq,
  ◌==◌, ◌&&◌, ◌>>◌, ◌>>=◌, raise_if, invalid_capability_transition, gets, pure,
}
use modall.Registry.Rows.{
  Tables, CapabilityStatus, Capability, CapabilityVersion, ServerConnection, McpToolBinding,
  find_connection, is_active_connection, qualified_protocol_revision, find_observed, is_enabled,
}
use modall.Registry.Store.{
  Source, Catalog, put_capability, require_workspace_role, append_status_event, locked_capability,
  is_capability, audit,
}
use modall.Registry.Connections.{either_id}
use modall.Identity.{WorkspaceContext, can_operate}

abbrev pub is_disabled_status : CapabilityStatus → Bool
is_disabled_status CapabilityStatus.disabled = true
is_disabled_status _ = false

abbrev pub is_unavailable : CapabilityStatus → Bool
is_unavailable CapabilityStatus.unavailable = true
is_unavailable _ = false

abbrev pub is_pending_review : CapabilityStatus → Bool
is_pending_review CapabilityStatus.pending_review = true
is_pending_review _ = false

-- `capability.pending_version_id or capability.enabled_version_id`
abbrev pub decision_version : Capability → Option ℕ
decision_version c = either_id c.pending_version_id c.enabled_version_id

unfoldable pub enabled_with : ℕ → Capability → Capability
enabled_with version c = record c {
  enabled_version_id = some version;
  pending_version_id = none;
  status = CapabilityStatus.enabled;
  status_epoch = c.status_epoch + 1;
}

unfoldable pub switched_off : Capability → Capability
switched_off c = record c { status = CapabilityStatus.disabled; status_epoch = c.status_epoch + 1 }

-- what `_mark_missing_unavailable` of registry/discovery.py writes
unfoldable pub now_unavailable : Capability → Capability
now_unavailable c = record c {
  status = CapabilityStatus.unavailable;
  status_epoch = c.status_epoch + 1;
}

-- the binding that `enable` reads
unfoldable pub find_binding : Tables → ℕ → ℕ → ℕ → Option McpToolBinding
find_binding t workspace capability version =
    find
      (λ b.
        b.capability_version_id == version
        && b.capability_id == capability
        && b.workspace_id == workspace)
      t.bindings

-- the version that `enable` reads
unfoldable pub find_capability_version : Tables → ℕ → ℕ → ℕ → Option CapabilityVersion
find_capability_version t workspace capability version =
    find (λ v. v.id == version && v.capability_id == capability && v.workspace_id == workspace)
      t.versions

-- the observation is only looked for where connection, snapshot and binding are there
unfoldable pub observed_at :
    Tables → ℕ → ℕ → ℕ → Option ServerConnection → Option McpToolBinding → Bool
observed_at t workspace connection version c none = false
observed_at t workspace connection version c (some b) =
    is_some (find_observed t workspace connection b.connection_version_id version c)

version_refused : Option CapabilityVersion → Bool
version_refused none = true
version_refused (some v) = not v.schema_supported

connection_unready : Option ServerConnection → McpToolBinding → Bool
connection_unready none b = true
connection_unready (some c) b =
    not (is_active_connection c.lifecycle)
    || is_some c.pending_version_id
    || not (holds_id c.verified_version_id b.connection_version_id)

binding_refused : Option ServerConnection → Option McpToolBinding → Bool
unfolding connection_unready
binding_refused c none = true
binding_refused c (some b) =
    not (str_eq b.protocol_revision qualified_protocol_revision) || connection_unready c b

-- the evidence that `enable` asks for
unfoldable pub evidence_refused : Tables → ℕ → Capability → ℕ → Bool
unfolding version_refused binding_refused
evidence_refused t workspace capability version =
    let b = find_binding t workspace capability.id version in
    let c = find_connection t workspace capability.connection_id in
    version_refused (find_capability_version t workspace capability.id version)
    || not (observed_at t workspace capability.connection_id version c b)
    || binding_refused c b

unfoldable pub enable_refused : Capability → ℕ → Bool
enable_refused c version = not (holds_id (decision_version c) version) || is_enabled c.status

unfoldable pub disable_refused : Capability → ℕ → Bool
disable_refused c version =
    is_disabled_status c.status || not (holds_id (decision_version c) version)

-- the changed capability with its status event
unfoldable pub publish_status :
    (Capability → Bool) → WorkspaceContext → Capability → Option ℕ → Act Catalog Unit
publish_status test context c version =
    put_capability test c >> append_status_event context c version

module _ (source : Source) where
  unfoldable pub enable : WorkspaceContext → ℕ → ℕ → Option ℕ → Act Catalog Capability
  enable context capability_id version correlation = do
    require_workspace_role context can_operate
    c ← locked_capability context capability_id
    raise_if (enable_refused c version) invalid_capability_transition
    tables ← gets (λ s. s.tables)
    raise_if (evidence_refused tables context.workspace_id c version) invalid_capability_transition
    publish_status (is_capability context.workspace_id capability_id) context
        (enabled_with version c) (some version)
    audit source context AuditAction.capability_enabled ResourceType.capability c.id correlation
    pure (enabled_with version c)

  unfoldable pub disable : WorkspaceContext → ℕ → ℕ → Option ℕ → Act Catalog Capability
  disable context capability_id version correlation = do
    require_workspace_role context can_operate
    c ← locked_capability context capability_id
    raise_if (disable_refused c version) invalid_capability_transition
    publish_status (is_capability context.workspace_id capability_id) context (switched_off c)
        (decision_version c)
    audit source context AuditAction.capability_disabled ResourceType.capability c.id correlation
    pure (switched_off c)
