-- ===== src/Registry/Store.antt =====
-- What a call of the registry services works on: the registry's tables with the clock and the
-- generator of identifiers; `require_current_role`, and the queries that lock one row.
use modall.Common.{
  ℕ, ◌+◌, String, Bool, true, false, Option, none, some, List, [], ◌∷◌, ◌++◌, if◌then◌else◌, ◌==◌,
  ◌&&◌, update_first, authorization_denied, ok, Act, pure, raise_if, or_raise, gets, modify, ◌>>=◌,
  ◌>>◌,
}
use modall.Identity.{WorkspaceContext, WorkspaceMembership, Role}
use modall.Audit.{AuditAction, AuditEvent, ResourceType}
use modall.Registry.Rows.{
  Tables, ServerConnection, Capability, CapabilityStatus, has_workspace, find_membership,
  find_connection, find_capability, CapabilityVersion, McpToolBinding, DiscoverySnapshotCapability,
}

-- `transport` is the one member of `Transport`
pub record ServerConnectionVersion : Type 0 where
  pub id : ℕ
  pub workspace_id : ℕ
  pub connection_id : ℕ
  pub sequence : ℕ
  pub endpoint_url : List ℕ
  pub secret_binding_id : Option ℕ
  pub policy_version : List ℕ
  pub created_by_user_id : ℕ

pub record SecretBinding : Type 0 where
  pub id : ℕ
  pub workspace_id : ℕ

pub data RefreshJobStatus : Type 0 where
  queued leased succeeded failed obsolete : RefreshJobStatus

pub record DiscoveryRefreshJob : Type 0 where
  pub id : ℕ
  pub workspace_id : ℕ
  pub actor_user_id : ℕ
  pub connection_id : ℕ
  pub connection_version_id : ℕ
  pub generation : ℕ
  pub control_epoch : ℕ
  pub status : RefreshJobStatus
  pub lease_owner : Option String
  pub lease_epoch : ℕ
  pub lease_expires_at : Option ℕ

pub record CapabilityStatusEvent : Type 0 where
  pub workspace_id : ℕ
  pub capability_id : ℕ
  pub capability_version_id : Option ℕ
  pub status : CapabilityStatus
  pub status_epoch : ℕ
  pub actor_user_id : ℕ

pub record DiscoveryPayload : Type 0 where
  pub id : ℕ
  pub workspace_id : ℕ
  pub canonical_digest : String
  pub normalized_payload : String
  pub byte_count : ℕ

pub record DiscoverySnapshot : Type 0 where
  pub id : ℕ
  pub workspace_id : ℕ
  pub connection_id : ℕ
  pub connection_version_id : ℕ
  pub payload_id : ℕ
  pub generation : ℕ
  pub control_epoch : ℕ
  pub protocol_revision : String

pub record Catalog : Type 0 where
  pub tables : Tables
  pub connection_versions : List ServerConnectionVersion
  pub secrets : List SecretBinding
  pub refresh_jobs : List DiscoveryRefreshJob
  pub status_events : List CapabilityStatusEvent
  pub payloads : List DiscoveryPayload
  pub snapshots : List DiscoverySnapshot
  pub audits : List AuditEvent
  -- readings of the clock so far, and identifiers drawn so far
  pub reads : ℕ
  pub draws : ℕ

-- what the database and `uuid4` return
pub record Source : Type 0 where
  pub clock : ℕ → ℕ
  pub uuid : ℕ → ℕ

module _ (source : Source) where
  -- `_database_now`
  unfoldable pub database_now : Act Catalog ℕ
  database_now s = (ok (source.clock s.reads), record s { reads = s.reads + 1 })

  unfoldable pub fresh_id : Act Catalog ℕ
  fresh_id s = (ok (source.uuid s.draws), record s { draws = s.draws + 1 })

  -- `correlation_id or uuid4()`
  unfoldable pub trace_id : Option ℕ → Act Catalog ℕ
  unfolding fresh_id
  trace_id none = fresh_id
  trace_id (some id) = pure id

  -- `_audit` of both services
  unfoldable pub audit :
      WorkspaceContext → AuditAction → ResourceType → ℕ → Option ℕ → Act Catalog Unit
  unfolding trace_id
  audit context action resource_type resource_id correlation_id = do
    trace ← trace_id correlation_id
    let event : AuditEvent = record {
      workspace_id = context.workspace_id;
      actor_user_id = context.actor_user_id;
      action = action;
      resource_type = resource_type;
      resource_id = resource_id;
      correlation_id = trace;
    }
    modify (λ s. record s { audits = event ∷ s.audits })

current_membership : (Role → Bool) → Option WorkspaceMembership → Bool
current_membership allowed none = false
current_membership allowed (some m) = allowed m.role

-- `require_current_role(..., serialize_workspace=True)` of identity/repository.py on these tables
unfoldable pub require_workspace_role : WorkspaceContext → (Role → Bool) → Act Catalog Unit
unfolding current_membership
require_workspace_role context allowed = do
  raise_if (if allowed context.role then false else true) authorization_denied
  known ← gets (λ s. has_workspace s.tables context.workspace_id)
  raise_if (if known then false else true) authorization_denied
  membership ← gets (λ s. find_membership s.tables context.workspace_id context.actor_user_id)
  raise_if (if current_membership allowed membership then false else true) authorization_denied

abbrev pub is_connection : ℕ → ℕ → ServerConnection → Bool
is_connection workspace id c = c.id == id && c.workspace_id == workspace

abbrev pub is_capability : ℕ → ℕ → Capability → Bool
is_capability workspace id c = c.id == id && c.workspace_id == workspace

-- `_locked_connection`
unfoldable pub locked_connection : WorkspaceContext → ℕ → Act Catalog ServerConnection
locked_connection context id = do
  found ← gets (λ s. find_connection s.tables context.workspace_id id)
  or_raise found authorization_denied

-- `_locked_capability`
unfoldable pub locked_capability : WorkspaceContext → ℕ → Act Catalog Capability
locked_capability context id = do
  found ← gets (λ s. find_capability s.tables context.workspace_id id)
  or_raise found authorization_denied

-- the attributes of a locked row are written where it stands: it is found by the query that locked it
unfoldable pub put_connection : (ServerConnection → Bool) → ServerConnection → Act Catalog Unit
put_connection test c = modify (λ s. record s {
  tables = record s.tables { connections = update_first test (λ _. c) s.tables.connections };
})

unfoldable pub put_capability : (Capability → Bool) → Capability → Act Catalog Unit
put_capability test c = modify (λ s. record s {
  tables = record s.tables { capabilities = update_first test (λ _. c) s.tables.capabilities };
})

-- attributes that are assigned to a row which the transaction has locked before
unfoldable pub update_connection :
    (ServerConnection → Bool) → (ServerConnection → ServerConnection) → Act Catalog Unit
update_connection test f = modify (λ s. record s {
  tables = record s.tables { connections = update_first test f s.tables.connections };
})

unfoldable pub update_job :
    (DiscoveryRefreshJob → Bool) → (DiscoveryRefreshJob → DiscoveryRefreshJob) → Act Catalog Unit
update_job test f = modify (λ s. record s { refresh_jobs = update_first test f s.refresh_jobs })

-- `session.add`: a new row stands behind the others
unfoldable pub add_connection : ServerConnection → Act Catalog Unit
add_connection c =
    modify
      (λ s. record s { tables = record s.tables { connections = s.tables.connections ++ c ∷ [] } })

unfoldable pub add_connection_version : ServerConnectionVersion → Act Catalog Unit
add_connection_version v =
    modify (λ s. record s { connection_versions = s.connection_versions ++ v ∷ [] })

unfoldable pub add_capability : Capability → Act Catalog Unit
add_capability c =
    modify (λ s. record s {
      tables = record s.tables { capabilities = s.tables.capabilities ++ c ∷ [] };
    })

unfoldable pub add_version : CapabilityVersion → McpToolBinding → Act Catalog Unit
add_version v b = modify (λ s. record s {
  tables = record s.tables {
    versions = s.tables.versions ++ v ∷ [];
    bindings = s.tables.bindings ++ b ∷ [];
  };
})

-- `_append_status_event`
unfoldable pub append_status_event : WorkspaceContext → Capability → Option ℕ → Act Catalog Unit
append_status_event context c version = modify (λ s. record s {
  status_events =
      s.status_events
      ++ record {
        workspace_id = context.workspace_id;
        capability_id = c.id;
        capability_version_id = version;
        status = c.status;
        status_epoch = c.status_epoch;
        actor_user_id = context.actor_user_id;
      }
        ∷ [];
})

unfoldable pub add_job : DiscoveryRefreshJob → Act Catalog Unit
add_job j = modify (λ s. record s { refresh_jobs = s.refresh_jobs ++ j ∷ [] })

unfoldable pub add_payload : DiscoveryPayload → Act Catalog Unit
add_payload p = modify (λ s. record s { payloads = s.payloads ++ p ∷ [] })

unfoldable pub add_snapshot : DiscoverySnapshot → Act Catalog Unit
add_snapshot p = modify (λ s. record s { snapshots = s.snapshots ++ p ∷ [] })

unfoldable pub add_observation : DiscoverySnapshotCapability → Act Catalog Unit
add_observation o =
    modify (λ s. record s {
      tables = record s.tables { observations = s.tables.observations ++ o ∷ [] };
    })
