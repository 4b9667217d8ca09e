-- ===== src/Registry/Publication.antt =====
-- registry/discovery.py: `DiscoveryPublicationService`.
use modall.Common.{
  ℕ, String, List, Option, some, Bool, Act, none, any, if◌then◌else◌, ◌==◌, pure, str_eq, modify,
  ◌&&◌, ◌>>=◌, ◌>>◌, not, gets, ◌+◌, map, ◌∷◌, ◌++◌, find, true, filter, raise_if, false, ◌||◌, [],
  invalid_connection_transition, is_some,
}
use modall.Identity.{WorkspaceContext, can_operate}
use modall.Registry.Rows.{
  DiscoveryFailureCode, Capability, ServerConnection, ConnectionLifecycle, CapabilityStatus,
}
use modall.Registry.Store.{
  RefreshJobStatus, Source, DiscoveryRefreshJob, CapabilityStatusEvent, Catalog, DiscoveryPayload,
  DiscoverySnapshot, fresh_id, require_workspace_role, add_payload, add_observation, add_snapshot,
  database_now, put_connection, update_connection, is_connection, update_job,
}
use modall.Registry.Capabilities.Recording.{ToolMetadata, record_version}
use modall.Registry.Refresh.{
  RefreshLease, locked_active_job, lock_eligible_connection, is_active_job,
}
use modall.Registry.Capabilities.{
  decision_version, now_unavailable, is_unavailable, is_disabled_status,
}
use modall.Registry.Connections.{promote_pending}
use modall.Registry.Connections.{complete_refresh}

pub record ToolDefinition : Type 0 where
  pub identity : String
  pub name : String
  pub display_name : String
  pub description : Option String
  pub input_schema : String
  pub output_schema : Option String
  pub metadata_digest : String
  pub schema_supported : Bool

-- `byte_count` is the length of the canonical bytes
pub record DiscoveryResult : Type 0 where
  pub canonical_digest : String
  pub normalized_payload : String
  pub byte_count : ℕ
  pub protocol_revision : String
  pub tools : List ToolDefinition

abbrev pub has_text : String → List String → Bool
has_text text texts = any (λ t. str_eq t text) texts

unfoldable pub is_missing : ℕ → ℕ → List String → Capability → Bool
is_missing workspace connection identities c =
    c.workspace_id == workspace
    && c.connection_id == connection
    && not (has_text c.tool_identity identities)
    && not (is_unavailable c.status)
    && not (is_disabled_status c.status)

unfoldable pub marked : (Capability → Bool) → Capability → Capability
marked missing c = if missing c then now_unavailable c else c

missing_event : WorkspaceContext → Capability → CapabilityStatusEvent
missing_event context c = record {
  workspace_id = context.workspace_id;
  capability_id = c.id;
  capability_version_id = decision_version c;
  status = CapabilityStatus.unavailable;
  status_epoch = c.status_epoch + 1;
  actor_user_id = context.actor_user_id;
}

-- `_mark_missing_unavailable`
unfoldable pub mark_missing_unavailable : WorkspaceContext → ℕ → List String → Act Catalog Unit
unfolding missing_event
mark_missing_unavailable context connection identities =
    let missing = is_missing context.workspace_id connection identities in
    modify (λ s. record s {
      tables = record s.tables { capabilities = map (marked missing) s.tables.capabilities };
      status_events =
          s.status_events ++ map (missing_event context) (filter missing s.tables.capabilities);
    })

unfoldable pub tool_metadata : String → ToolDefinition → ToolMetadata
tool_metadata revision tool = record {
  tool_identity = tool.identity;
  tool_name = tool.name;
  display_name = tool.display_name;
  description = tool.description;
  input_schema = tool.input_schema;
  output_schema = tool.output_schema;
  metadata_digest = tool.metadata_digest;
  protocol_revision = revision;
  schema_supported = tool.schema_supported;
}

-- `setattr`s on the connection after the refresh was completed
unfoldable pub refreshed : ℕ → ℕ → ServerConnection → ServerConnection
refreshed snapshot now c = record c {
  current_snapshot_id = some snapshot;
  last_refresh_error_code = none;
  last_refresh_at = some now;
}

unfoldable pub degraded_by : DiscoveryFailureCode → ℕ → ServerConnection → ServerConnection
degraded_by code now c = record c {
  lifecycle = ConnectionLifecycle.degraded;
  last_refresh_error_code = some code;
  last_refresh_at = some now;
  allocated_control_epoch = none;
  allocated_target_version_id = none;
}

unfoldable pub closed_as : RefreshJobStatus → DiscoveryRefreshJob → DiscoveryRefreshJob
closed_as status j = record j { status = status; lease_owner = none; lease_expires_at = none }

module _ (source : Source) (validate_metadata : ToolMetadata → Bool) (context : WorkspaceContext)
    (lease : RefreshLease) where
  unfoldable pub payload_for : DiscoveryResult → Option DiscoveryPayload → Act Catalog ℕ
  payload_for result none = do
    payload_id ← fresh_id source
    add_payload (record {
      id = payload_id;
      workspace_id = context.workspace_id;
      canonical_digest = result.canonical_digest;
      normalized_payload = result.normalized_payload;
      byte_count = result.byte_count;
    })
    pure payload_id
  payload_for result (some p) = do
    raise_if
        (not (p.byte_count == result.byte_count)
          || not (str_eq p.normalized_payload result.normalized_payload))
        invalid_connection_transition
    pure p.id

  -- the payload with this digest, recorded once per workspace
  unfoldable pub recorded_payload : DiscoveryResult → Act Catalog ℕ
  unfolding payload_for
  recorded_payload result = do
    found ← gets (λ s.
        find
          (λ p.
            p.workspace_id == context.workspace_id
            && str_eq p.canonical_digest result.canonical_digest)
          s.payloads)
    payload_for result found

  unfoldable pub record_observed : String → ℕ → ToolDefinition → Act Catalog Unit
  unfolding tool_metadata
  record_observed revision snapshot tool = do
    v ←
        record_version source context
          (record {
            connection_id = lease.connection_id;
            connection_version_id = lease.connection_version_id;
            control_epoch = lease.control_epoch;
            generation = lease.generation;
            tool = tool_metadata revision tool;
            correlation = none;
          })
          validate_metadata
    add_observation (record {
      workspace_id = context.workspace_id;
      connection_id = lease.connection_id;
      connection_version_id = lease.connection_version_id;
      snapshot_id = snapshot;
      capability_version_id = v.id;
    })

  -- `for tool in result.tools`
  unfoldable pub record_tools : String → ℕ → List ToolDefinition → Act Catalog Unit
  record_tools revision snapshot [] = pure tt
  record_tools revision snapshot (tool ∷ rest) =
      record_observed revision snapshot tool >> record_tools revision snapshot rest

  -- the allocation is used up: by a promotion where a version is pending
  unfoldable pub finish_allocation : Bool → Act Catalog ServerConnection
  finish_allocation true =
      promote_pending source context lease.connection_id lease.connection_version_id
        lease.control_epoch lease.generation none
  finish_allocation false =
      complete_refresh context lease.connection_id lease.connection_version_id lease.control_epoch
        lease.generation

  -- the end of `publish_success`
  unfoldable pub finish_publication : ℕ → ℕ → Bool → Act Catalog Unit
  finish_publication locked_at snapshot_id pending = do
    _ ← finish_allocation pending
    refreshed_at ← database_now source
    update_connection (is_connection context.workspace_id lease.connection_id)
        (refreshed snapshot_id refreshed_at)
    update_job (is_active_job context lease locked_at) (closed_as RefreshJobStatus.succeeded)

  unfoldable pub publish_success : DiscoveryResult → Act Catalog DiscoverySnapshot
  publish_success result = do
    require_workspace_role context can_operate
    locked ← locked_active_job source context lease
    connection ←
        lock_eligible_connection context lease.connection_id lease.connection_version_id
          lease.control_epoch lease.generation
    payload_id ← recorded_payload result
    snapshot_id ← fresh_id source
    let snapshot : DiscoverySnapshot = record {
      id = snapshot_id;
      workspace_id = context.workspace_id;
      connection_id = lease.connection_id;
      connection_version_id = lease.connection_version_id;
      payload_id = payload_id;
      generation = lease.generation;
      control_epoch = lease.control_epoch;
      protocol_revision = result.protocol_revision;
    }
    add_snapshot snapshot
    record_tools result.protocol_revision snapshot_id result.tools
    mark_missing_unavailable context lease.connection_id (map (λ t. t.identity) result.tools)
    finish_publication locked.0 snapshot_id (is_some connection.pending_version_id)
    pure snapshot

  unfoldable pub publish_failure : DiscoveryFailureCode → Act Catalog ServerConnection
  publish_failure code = do
    require_workspace_role context can_operate
    locked ← locked_active_job source context lease
    c ←
        lock_eligible_connection context lease.connection_id lease.connection_version_id
          lease.control_epoch lease.generation
    failed_at ← database_now source
    put_connection (is_connection context.workspace_id lease.connection_id)
        (degraded_by code failed_at c)
    update_job (is_active_job context lease locked.0) (closed_as RefreshJobStatus.failed)
    pure (degraded_by code failed_at c)
