-- ===== src/Registry/Refresh.antt =====
-- registry/discovery.py: `RefreshJobService`, and `_lock_eligible_connection`.
use modall.Common.{
  ℕ, Act, if◌then◌else◌, Option, String, Bool, ◌+◌, some, ltb, true, ◌==◌, ◌&&◌, false, ◌||◌, ◌>>=◌,
  ◌>>◌, is_due, not, pure, holds_text, gets, none, holds_id, raise_if, find,
  invalid_connection_transition, leb, or_raise, authorization_denied, value_error,
}
use Prim.Native.String.{count}
use modall.Identity.{WorkspaceContext, can_operate}
use modall.Registry.Store.{
  DiscoveryRefreshJob, RefreshJobStatus, Source, Catalog, locked_connection, database_now,
  require_workspace_role, fresh_id, add_job, update_job,
}
use modall.Registry.Rows.{ServerConnection, find_membership}
use modall.Registry.Connections.{is_disabled, obsolete_refresh_jobs, current_target, not_allocated}
use modall.Registry.Connections.{allocate_refresh_generation}

pub record RefreshLease : Type 0 where
  pub job_id : ℕ
  pub actor_user_id : ℕ
  pub worker_id : String
  pub lease_epoch : ℕ
  pub connection_id : ℕ
  pub connection_version_id : ℕ
  pub control_epoch : ℕ
  pub generation : ℕ

abbrev pub is_leased_job : RefreshJobStatus → Bool
is_leased_job RefreshJobStatus.leased = true
is_leased_job _ = false

abbrev pub is_queued_job : RefreshJobStatus → Bool
is_queued_job RefreshJobStatus.queued = true
is_queued_job _ = false

unfoldable pub eligible_refused : ServerConnection → ℕ → ℕ → ℕ → Bool
eligible_refused c version epoch generation =
    is_disabled c.lifecycle
    || not (holds_id (current_target c) version)
    || not_allocated c version epoch generation

-- `_lock_eligible_connection`
unfoldable pub lock_eligible_connection :
    WorkspaceContext → ℕ → ℕ → ℕ → ℕ → Act Catalog ServerConnection
lock_eligible_connection context connection_id version epoch generation = do
  c ← locked_connection context connection_id
  raise_if (eligible_refused c version epoch generation) invalid_connection_transition
  pure c

-- the conditions that `_locked_job_for_lease` and `_locked_active_job` share
abbrev pub is_job_of_lease : WorkspaceContext → RefreshLease → DiscoveryRefreshJob → Bool
is_job_of_lease context lease j =
    j.id == lease.job_id
    && j.workspace_id == context.workspace_id
    && j.actor_user_id == context.actor_user_id
    && j.actor_user_id == lease.actor_user_id
    && is_leased_job j.status
    && holds_text j.lease_owner lease.worker_id
    && j.lease_epoch == lease.lease_epoch
    && j.connection_id == lease.connection_id
    && j.connection_version_id == lease.connection_version_id
    && j.control_epoch == lease.control_epoch
    && j.generation == lease.generation

-- `lease_expires_at > now` on the nullable column
abbrev pub expires_after : ℕ → Option ℕ → Bool
expires_after now none = false
expires_after now (some t) = ltb now t

abbrev pub is_active_job : WorkspaceContext → RefreshLease → ℕ → DiscoveryRefreshJob → Bool
is_active_job context lease now j =
    is_job_of_lease context lease j && expires_after now j.lease_expires_at

abbrev pub is_own_job : WorkspaceContext → ℕ → DiscoveryRefreshJob → Bool
is_own_job context id j =
    j.id == id && j.workspace_id == context.workspace_id && j.actor_user_id == context.actor_user_id

-- a job that a worker may take: queued, or leased with a lease that has run out
unfoldable pub reclaimable : ℕ → DiscoveryRefreshJob → Bool
reclaimable now j =
    is_queued_job j.status || (is_leased_job j.status && is_due j.lease_expires_at now)

unfoldable pub leased_to : String → ℕ → DiscoveryRefreshJob → DiscoveryRefreshJob
leased_to worker_id expires_at j = record j {
  status = RefreshJobStatus.leased;
  lease_owner = some worker_id;
  lease_epoch = j.lease_epoch + 1;
  lease_expires_at = some expires_at;
}

max : ℕ → ℕ → ℕ
max a b = if ltb a b then b else a

unfoldable pub renewed_until : ℕ → DiscoveryRefreshJob → DiscoveryRefreshJob
renewed_until expires_at j = record j { lease_expires_at = some expires_at }

granted_refresh : String → DiscoveryRefreshJob → RefreshLease
granted_refresh worker_id j = record {
  job_id = j.id;
  actor_user_id = j.actor_user_id;
  worker_id = worker_id;
  lease_epoch = j.lease_epoch + 1;
  connection_id = j.connection_id;
  connection_version_id = j.connection_version_id;
  control_epoch = j.control_epoch;
  generation = j.generation;
}

-- `_locked_job_for_lease(..., require_unexpired=True)`, and `_locked_active_job`
unfoldable pub locked_active_job :
    Source → WorkspaceContext → RefreshLease → Act Catalog (ℕ × DiscoveryRefreshJob)
locked_active_job source context lease = do
  now ← database_now source
  found ← gets (λ s. find (is_active_job context lease now) s.refresh_jobs)
  job ← or_raise found invalid_connection_transition
  pure (now, job)

module _ (source : Source) where
  unfoldable pub enqueue : WorkspaceContext → ℕ → Act Catalog DiscoveryRefreshJob
  enqueue context connection_id = do
    allocation ← allocate_refresh_generation context connection_id
    obsolete_refresh_jobs context connection_id
    job_id ← fresh_id source
    let job : DiscoveryRefreshJob = record {
      id = job_id;
      workspace_id = context.workspace_id;
      actor_user_id = context.actor_user_id;
      connection_id = connection_id;
      connection_version_id = allocation.2;
      generation = allocation.0;
      control_epoch = allocation.1;
      status = RefreshJobStatus.queued;
      lease_owner = none;
      lease_epoch = 0;
      lease_expires_at = none;
    }
    add_job job
    pure job

  -- the principal that a durable worker acts for
  unfoldable pub context_for_job : ℕ → Act Catalog WorkspaceContext
  context_for_job job_id = do
    found ← gets (λ s. find (λ j. j.id == job_id) s.refresh_jobs)
    job ← or_raise found authorization_denied
    membership ← gets (λ s. find_membership s.tables job.workspace_id job.actor_user_id)
    m ← or_raise membership authorization_denied
    pure (record {
      workspace_id = job.workspace_id;
      actor_user_id = job.actor_user_id;
      role = m.role;
    })

  unfoldable pub claim : WorkspaceContext → ℕ → String → ℕ → Act Catalog RefreshLease
  unfolding granted_refresh
  claim context job_id worker_id lease_duration = do
    require_workspace_role context can_operate
    raise_if (leb (count worker_id) 0 || ltb 128 (count worker_id) || leb lease_duration 0)
        value_error
    found ← gets (λ s. find (is_own_job context job_id) s.refresh_jobs)
    job ← or_raise found authorization_denied
    claimed_at ← database_now source
    raise_if (not (reclaimable claimed_at job)) invalid_connection_transition
    _ ←
        lock_eligible_connection context job.connection_id job.connection_version_id
          job.control_epoch job.generation
    update_job (λ j. is_own_job context job_id j && reclaimable claimed_at j)
        (leased_to worker_id (claimed_at + lease_duration))
    pure (granted_refresh worker_id job)

  unfoldable pub claim_durable : ℕ → String → ℕ → Act Catalog (WorkspaceContext × RefreshLease)
  claim_durable job_id worker_id lease_duration = do
    context ← context_for_job job_id
    lease ← claim context job_id worker_id lease_duration
    pure (context, lease)

  unfoldable pub renew : WorkspaceContext → RefreshLease → ℕ → Act Catalog RefreshLease
  unfolding max
  renew context lease lease_duration = do
    require_workspace_role context can_operate
    raise_if (leb lease_duration 0) value_error
    found ← gets (λ s. find (is_job_of_lease context lease) s.refresh_jobs)
    job ← or_raise found invalid_connection_transition
    renewed_at ← database_now source
    expires_at ← or_raise job.lease_expires_at invalid_connection_transition
    raise_if (leb expires_at renewed_at) invalid_connection_transition
    _ ←
        lock_eligible_connection context lease.connection_id lease.connection_version_id
          lease.control_epoch lease.generation
    update_job (is_job_of_lease context lease)
        (renewed_until (max expires_at (renewed_at + lease_duration)))
    pure lease

  unfoldable pub validate_for_contact : WorkspaceContext → RefreshLease → Act Catalog Unit
  validate_for_contact context lease = do
    require_workspace_role context can_operate
    _ ← locked_active_job source context lease
    _ ←
        lock_eligible_connection context lease.connection_id lease.connection_version_id
          lease.control_epoch lease.generation
    pure tt
