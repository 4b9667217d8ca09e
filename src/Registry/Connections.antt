-- ===== src/Registry/Connections.antt =====
-- registry/service.py: `ConnectionService`.
pub mod Moves
use modall.Common.{
  ℕ, ◌+◌, Bool, true, false, Option, none, some, List, [], ◌∷◌, map, if◌then◌else◌, ◌==◌, ◌&&◌,
  ◌||◌, not, ltb, is_none, is_some, holds_id, find, authorization_denied,
  invalid_connection_transition, value_error, Act, pure, raise_if, or_raise, gets, modify, ◌>>=◌,
  ◌>>◌,
}
use modall.Identity.{WorkspaceContext, can_operate, can_administer}
use modall.Audit.{AuditAction, ResourceType}
use modall.Registry.Rows.{ServerConnection, ConnectionLifecycle}
use modall.Registry.Store.{
  Catalog, Source, ServerConnectionVersion, DiscoveryRefreshJob, RefreshJobStatus, fresh_id, audit,
  require_workspace_role, locked_connection, put_connection, add_connection, add_connection_version,
  is_connection,
}

abbrev pub is_disabled : ConnectionLifecycle → Bool
is_disabled ConnectionLifecycle.disabled = true
is_disabled _ = false

abbrev pub is_verifying : ConnectionLifecycle → Bool
is_verifying ConnectionLifecycle.verifying = true
is_verifying _ = false

abbrev pub is_active : ConnectionLifecycle → Bool
is_active ConnectionLifecycle.active = true
is_active _ = false

abbrev pub is_degraded : ConnectionLifecycle → Bool
is_degraded ConnectionLifecycle.degraded = true
is_degraded _ = false

-- `connection.pending_version_id or connection.verified_version_id`
abbrev pub either_id : Option ℕ → Option ℕ → Option ℕ
either_id none b = b
either_id (some a) b = some a

abbrev pub current_target : ServerConnection → Option ℕ
current_target c = either_id c.pending_version_id c.verified_version_id

-- the allocation that `promote_pending`, `complete_refresh`, `record_version` and
-- `_lock_eligible_connection` compare
abbrev pub not_allocated : ServerConnection → ℕ → ℕ → ℕ → Bool
not_allocated c version epoch generation =
    not (c.control_epoch == epoch)
    || not (c.refresh_generation == generation)
    || not (holds_id c.allocated_control_epoch epoch)
    || not (holds_id c.allocated_target_version_id version)

abbrev pub is_outstanding : RefreshJobStatus → Bool
is_outstanding RefreshJobStatus.queued = true
is_outstanding RefreshJobStatus.leased = true
is_outstanding _ = false

unfoldable pub obsolete_job : ℕ → ℕ → DiscoveryRefreshJob → DiscoveryRefreshJob
obsolete_job workspace connection job =
    if job.workspace_id == workspace && job.connection_id == connection && is_outstanding job.status
    then record job {
      status = RefreshJobStatus.obsolete;
      lease_owner = none;
      lease_expires_at = none;
    }
    else job

-- `_obsolete_refresh_jobs`, and the same loop of `enqueue`
unfoldable pub obsolete_refresh_jobs : WorkspaceContext → ℕ → Act Catalog Unit
unfolding obsolete_job
obsolete_refresh_jobs context connection = modify (λ s. record s {
  refresh_jobs = map (obsolete_job context.workspace_id connection) s.refresh_jobs;
})

-- `func.max(ServerConnectionVersion.sequence)`, 0 where there is none
unfoldable pub max_sequence : ℕ → List ServerConnectionVersion → ℕ
max_sequence connection [] = 0
max_sequence connection (v ∷ rest) =
    let later = max_sequence connection rest in
    if v.connection_id == connection && ltb later v.sequence then v.sequence else later

-- `_require_scoped_secret`
unfoldable pub require_scoped_secret : WorkspaceContext → Option ℕ → Act Catalog Unit
require_scoped_secret context none = pure tt
require_scoped_secret context (some secret) = do
  found ← gets (λ s. find (λ b. b.id == secret && b.workspace_id == context.workspace_id) s.secrets)
  raise_if (is_none found) authorization_denied

-- `is_executable`
unfoldable pub is_executable : ServerConnection → ℕ → Bool
is_executable c version =
    is_active c.lifecycle && is_none c.pending_version_id && holds_id c.verified_version_id version

-- what a service checks before it asks the database: `_validate_name` and `_validate_configuration`
pub record Validation : Type 0 where
  -- the normalized name, or `ValueError`
  pub validate_name : List ℕ → Option (List ℕ)
  -- endpoint, policy version, and whether there is a secret
  pub validate_configuration : List ℕ → List ℕ → Bool → Bool

unfoldable pub appended : ℕ → ServerConnection → ServerConnection
appended version c = record c {
  pending_version_id = some version;
  lifecycle = ConnectionLifecycle.verifying;
  control_epoch = c.control_epoch + 1;
  allocated_control_epoch = none;
  allocated_target_version_id = none;
}

unfoldable pub promoted : ℕ → ServerConnection → ServerConnection
promoted version c = record c {
  verified_version_id = some version;
  pending_version_id = none;
  lifecycle = ConnectionLifecycle.active;
  allocated_control_epoch = none;
  allocated_target_version_id = none;
}

-- `disable` and `enable` write the same attributes
unfoldable pub moved_to : ConnectionLifecycle → ServerConnection → ServerConnection
moved_to lifecycle c = record c {
  lifecycle = lifecycle;
  control_epoch = c.control_epoch + 1;
  allocated_control_epoch = none;
  allocated_target_version_id = none;
}

unfoldable pub allocated : ℕ → ServerConnection → ServerConnection
allocated target c = record c {
  lifecycle =
      if is_some c.pending_version_id && is_degraded c.lifecycle
      then ConnectionLifecycle.verifying
      else c.lifecycle;
  refresh_generation = c.refresh_generation + 1;
  allocated_control_epoch = some c.control_epoch;
  allocated_target_version_id = some target;
}

unfoldable pub completed : ServerConnection → ServerConnection
completed c = record c {
  lifecycle = ConnectionLifecycle.active;
  allocated_control_epoch = none;
  allocated_target_version_id = none;
}

unfoldable pub promote_refused : ServerConnection → ℕ → ℕ → ℕ → Bool
promote_refused c version epoch generation =
    not (is_verifying c.lifecycle)
    || not (holds_id (current_target c) version)
    || not_allocated c version epoch generation

unfoldable pub complete_refused : ServerConnection → ℕ → ℕ → ℕ → Bool
complete_refused c version epoch generation =
    is_disabled c.lifecycle
    || is_some c.pending_version_id
    || not (holds_id c.verified_version_id version)
    || not_allocated c version epoch generation

module _ (source : Source) (validation : Validation) where
  unfoldable pub create :
      WorkspaceContext
      → List ℕ
      → List ℕ
      → Option ℕ
      → List ℕ
      → Option ℕ
      → Act Catalog ServerConnection
  unfolding require_scoped_secret
  create context name endpoint_url secret policy_version correlation = do
    require_workspace_role context can_administer
    normalized_name ← or_raise (validation.validate_name name) value_error
    raise_if (not (validation.validate_configuration endpoint_url policy_version (is_some secret)))
        value_error
    require_scoped_secret context secret
    connection_id ← fresh_id source
    version_id ← fresh_id source
    let connection : ServerConnection = record {
      id = connection_id;
      workspace_id = context.workspace_id;
      name = normalized_name;
      lifecycle = ConnectionLifecycle.verifying;
      pending_version_id = some version_id;
      verified_version_id = none;
      control_epoch = 0;
      refresh_generation = 0;
      allocated_control_epoch = none;
      allocated_target_version_id = none;
      current_snapshot_id = none;
      last_refresh_error_code = none;
      last_refresh_at = none;
      created_by_user_id = context.actor_user_id;
    }
    add_connection connection
    add_connection_version (record {
      id = version_id;
      workspace_id = context.workspace_id;
      connection_id = connection_id;
      sequence = 1;
      endpoint_url = endpoint_url;
      secret_binding_id = secret;
      policy_version = policy_version;
      created_by_user_id = context.actor_user_id;
    })
    audit source context AuditAction.connection_created ResourceType.server_connection connection_id
        correlation
    pure connection

  unfoldable pub append_version :
      WorkspaceContext
      → ℕ
      → List ℕ
      → Option ℕ
      → List ℕ
      → Option ℕ
      → Act Catalog ServerConnectionVersion
  unfolding require_scoped_secret appended
  append_version context connection_id endpoint_url secret policy_version correlation = do
    require_workspace_role context can_administer
    raise_if (not (validation.validate_configuration endpoint_url policy_version (is_some secret)))
        value_error
    require_scoped_secret context secret
    c ← locked_connection context connection_id
    raise_if (is_disabled c.lifecycle) invalid_connection_transition
    sequence ← gets (λ s. max_sequence c.id s.connection_versions)
    version_id ← fresh_id source
    let version : ServerConnectionVersion = record {
      id = version_id;
      workspace_id = context.workspace_id;
      connection_id = c.id;
      sequence = sequence + 1;
      endpoint_url = endpoint_url;
      secret_binding_id = secret;
      policy_version = policy_version;
      created_by_user_id = context.actor_user_id;
    }
    add_connection_version version
    put_connection (is_connection context.workspace_id connection_id) (appended version_id c)
    obsolete_refresh_jobs context c.id
    audit source context AuditAction.connection_version_appended ResourceType.server_connection c.id
        correlation
    pure version

module _ (source : Source) where
  unfoldable pub promote_pending :
      WorkspaceContext → ℕ → ℕ → ℕ → ℕ → Option ℕ → Act Catalog ServerConnection
  unfolding promoted promote_refused
  promote_pending context connection_id version epoch generation correlation = do
    require_workspace_role context can_operate
    c ← locked_connection context connection_id
    raise_if (promote_refused c version epoch generation) invalid_connection_transition
    put_connection (is_connection context.workspace_id connection_id) (promoted version c)
    audit source context AuditAction.connection_verified ResourceType.server_connection c.id
        correlation
    pure (promoted version c)

  unfoldable pub disable : WorkspaceContext → ℕ → Option ℕ → Act Catalog ServerConnection
  unfolding moved_to
  disable context connection_id correlation = do
    require_workspace_role context can_operate
    c ← locked_connection context connection_id
    raise_if (is_disabled c.lifecycle) invalid_connection_transition
    put_connection (is_connection context.workspace_id connection_id)
        (moved_to ConnectionLifecycle.disabled c)
    obsolete_refresh_jobs context c.id
    audit source context AuditAction.connection_disabled ResourceType.server_connection c.id
        correlation
    pure (moved_to ConnectionLifecycle.disabled c)

  unfoldable pub enable : WorkspaceContext → ℕ → Option ℕ → Act Catalog ServerConnection
  unfolding moved_to
  enable context connection_id correlation = do
    require_workspace_role context can_administer
    c ← locked_connection context connection_id
    raise_if (not (is_disabled c.lifecycle)) invalid_connection_transition
    put_connection (is_connection context.workspace_id connection_id)
        (moved_to ConnectionLifecycle.verifying c)
    audit source context AuditAction.connection_enabled ResourceType.server_connection c.id
        correlation
    pure (moved_to ConnectionLifecycle.verifying c)

-- the generation, the control epoch and the version that a refresh works for
unfoldable pub allocate_refresh_generation : WorkspaceContext → ℕ → Act Catalog (ℕ × ℕ × ℕ)
unfolding allocated
allocate_refresh_generation context connection_id = do
  require_workspace_role context can_operate
  c ← locked_connection context connection_id
  raise_if (is_disabled c.lifecycle) invalid_connection_transition
  target ← or_raise (current_target c) invalid_connection_transition
  put_connection (is_connection context.workspace_id connection_id) (allocated target c)
  pure (c.refresh_generation + 1, c.control_epoch, target)

unfoldable pub complete_refresh : WorkspaceContext → ℕ → ℕ → ℕ → ℕ → Act Catalog ServerConnection
unfolding completed complete_refused
complete_refresh context connection_id version epoch generation = do
  require_workspace_role context can_operate
  c ← locked_connection context connection_id
  raise_if (complete_refused c version epoch generation) invalid_connection_transition
  put_connection (is_connection context.workspace_id connection_id) (completed c)
  pure (completed c)
