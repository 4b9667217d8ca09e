-- ===== src/Execution/Admission.antt =====
-- execution/service.py: `create_run`, with the confirmation and the idempotency records.
pub mod Checks
pub mod Returns
pub mod Meanings
pub mod Stored
pub mod Admits
pub mod Replays
pub mod Steps
pub mod Settles
pub mod Creation
pub mod History
pub mod Acceptance
use modall.Audit.{AuditAction, ResourceType}
use modall.Execution.Types.{RunStatus, is_active}
use modall.Common.{ExecutionFailureCode}
use modall.Common.{
  ℕ, Act, Option, String, pure, count_if, modify, ◌∷◌, Bool, ◌==◌, ◌+◌, some, ◌>>=◌, ◌>>◌, raise_if,
  ◌*◌, ◌++◌, str_eq, gets, not, ◌&&◌, none, execution_error, false, ◌||◌, [], find,
  confirmation_replayed, true, idempotency_conflict, leb, confirmation_expired, ltb, or_raise,
  is_some, any, invalid_confirmation, active_run_limit,
}
use modall.Execution.Admission.Checks.{
  Codec, Keyrings, IdempotencyRecord, Claims, Desk, on_world, CanonicalRequest, ConfirmationNonce,
  AdmissionTarget, active_key, key_by_version, normalize_arguments,
  require_confirmation_key_history, require_idempotency_key_history, invalid_arguments,
  find_idempotency_record, decode_confirmation, load_admission_target, bindings_refused,
  target_differs, validate_idempotency_key, validate_normalized_arguments,
}
use modall.Execution.World.{
  World, Env, require_current_role, execution_state, SystemExecutionState, uuid4, durable_now,
  add_audit,
}
use modall.Identity.{WorkspaceContext, can_operate}
use modall.Execution.Rows.{Run, RunRows}
use modall.Execution.Ledger.{append_event}
use modall.Execution.Types.{days, second, RunEventType, JobStatus}
use modall.Execution.Cancel.{is_run}

-- `_replay_existing_run` once the idempotency record has been found, and the run with it
module _ (codec : Codec) (env : Env) (keys : Keyrings) where
  unfoldable pub consume_nonce : WorkspaceContext → Claims → String → ℕ → ℕ → Act Desk Unit
  consume_nonce context claims digest run_id now = modify (λ d. record d {
    nonces =
        record {
          workspace_id = context.workspace_id;
          actor_user_id = context.actor_user_id;
          nonce_digest = digest;
          run_id = run_id;
          key_version = claims.key_version;
          expires_at = claims.expires_at;
          consumed_at = now;
        }
        ∷ d.nonces;
  })

  abbrev pub is_nonce : String → ConfirmationNonce → Bool
  is_nonce digest n = str_eq n.nonce_digest digest

  -- the claims name the target of the run
  unfoldable pub claims_differ : Claims → Run → Bool
  claims_differ claims run =
      not (run.capability_id == claims.capability_id)
      || not (run.capability_version_id == claims.capability_version_id)
      || not (run.connection_id == claims.connection_id)
      || not (run.connection_version_id == claims.connection_version_id)

  unfoldable pub use_nonce_again :
      WorkspaceContext → Claims → String → Run → ℕ → Option ConfirmationNonce → Act Desk Unit
  unfolding consume_nonce
  use_nonce_again context claims digest run now none =
      consume_nonce context claims digest run.id now
  use_nonce_again context claims digest run now (some n) =
      raise_if (not (n.run_id == run.id)) (execution_error confirmation_replayed)

  unfoldable pub request_matches : IdempotencyRecord → CanonicalRequest → Bool
  request_matches r request = elim (key_by_version keys.idempotency r.key_version) [
    | none ↦ false
    | some key ↦ str_eq r.request_hmac (codec.request_hmac key request)
  ]

  unfoldable pub replay_existing_run :
      WorkspaceContext → IdempotencyRecord → CanonicalRequest → Claims → String → Act Desk Run
  unfolding use_nonce_again request_matches
  replay_existing_run context existing request claims digest = do
    raise_if (not (request_matches existing request)) (execution_error idempotency_conflict)
    found ← gets (λ d. find (is_run context.workspace_id existing.resource_id) d.world.db.rows)
    rows ← or_raise found (execution_error idempotency_conflict)
    record_there ← gets (λ d. any (λ r. r.id == existing.id) d.records)
    raise_if (not record_there) (execution_error idempotency_conflict)
    on_world (require_current_role context can_operate true)
    raise_if (claims_differ claims rows.run) (execution_error idempotency_conflict)
    used ← gets (λ d. find (is_nonce digest) d.nonces)
    now ← on_world (durable_now env)
    use_nonce_again context claims digest rows.run now used
    pure rows.run

  unfoldable pub new_run :
      WorkspaceContext → AdmissionTarget → ℕ → ℕ → String → String → ℕ → ℕ → Run
  new_run context target run_id trace arguments digest deadline now = record {
    id = run_id;
    workspace_id = context.workspace_id;
    correlation_id = trace;
    actor_user_id = context.actor_user_id;
    capability_id = target.capability.id;
    capability_version_id = target.version.id;
    connection_id = target.connection.id;
    connection_version_id = target.binding.connection_version_id;
    connection_control_epoch = target.connection.control_epoch;
    capability_status_epoch = target.capability.status_epoch;
    protocol_revision = target.binding.protocol_revision;
    status = RunStatus.queued;
    arguments = some arguments;
    argument_digest = some digest;
    arguments_expires_at = now + days env.limits.argument_retention_days;
    deadline = deadline;
    cancellation_requested = false;
    safe_error_code = none;
    created_at = now;
    updated_at = now;
    terminal_at = none;
  }

  -- the run with its job and its first event
  unfoldable pub admitted_rows :
      SystemExecutionState
      → WorkspaceContext
      → AdmissionTarget
      → ℕ
      → ℕ
      → ℕ
      → String
      → String
      → ℕ
      → ℕ
      → RunRows
  unfolding new_run
  admitted_rows state context target run_id job_id trace arguments digest deadline now =
      append_event RunEventType.admitted RunStatus.queued none now 1 (record {
        run = new_run context target run_id trace arguments digest deadline now;
        job = some (record {
          id = job_id;
          workspace_id = context.workspace_id;
          run_id = run_id;
          actor_user_id = context.actor_user_id;
          execution_epoch = state.execution_epoch;
          status = JobStatus.queued;
          lease_owner = none;
          lease_epoch = 0;
          lease_expires_at = none;
          available_at = now;
          deadline = deadline;
          created_at = now;
          completed_at = none;
        });
        attempts = [];
        events = [];
        result = none;
      })

  unfoldable pub trace : Option ℕ → Act Desk ℕ
  trace none = on_world (uuid4 env)
  trace (some id) = pure id

  unfoldable pub record_key :
      WorkspaceContext → Claims → String → CanonicalRequest → ℕ → ℕ → Act Desk Unit
  record_key context claims raw_key request run_id now = do
    id ← on_world (uuid4 env)
    let key = active_key keys.idempotency
    modify (λ d. record d {
      records =
          record {
            id = id;
            workspace_id = context.workspace_id;
            actor_user_id = context.actor_user_id;
            confirmation_key_version = claims.key_version;
            key_version = key.version;
            key_hmac = codec.key_hmac key context raw_key;
            request_hmac = codec.request_hmac key request;
            resource_id = run_id;
            created_at = now;
            completed_at = now;
            expires_at = now + days env.limits.run_retention_days;
          }
          ∷ d.records;
    })

  -- from `run_id = uuid4()` on
  unfoldable pub store_run :
      SystemExecutionState
      → WorkspaceContext
      → AdmissionTarget
      → Claims
      → String
      → String
      → CanonicalRequest
      → String × String
      → ℕ
      → Option ℕ
      → ℕ
      → Act Desk Run
  unfolding trace consume_nonce record_key
  store_run state context target claims nonce_digest raw_key request normalized deadline
        correlation_id now =
      do
        run_id ← on_world (uuid4 env)
        trace_id ← trace correlation_id
        job_id ← on_world (uuid4 env)
        let r : RunRows =
            admitted_rows state context target run_id job_id trace_id normalized.0 normalized.1
              deadline now
        on_world (modify (λ w. record w { db = record w.db { rows = w.db.rows ++ r ∷ [] } }))
        consume_nonce context claims nonce_digest run_id now
        record_key context claims raw_key request run_id now
        on_world (
            add_audit (record {
              workspace_id = context.workspace_id;
              actor_user_id = context.actor_user_id;
              action = AuditAction.run_created;
              resource_type = ResourceType.run;
              resource_id = run_id;
              correlation_id = trace_id;
            }))
        pure r.run

  -- `_admission_deadline`
  unfoldable pub admission_deadline : Option ℕ → ℕ → Act Desk ℕ
  admission_deadline none now = pure (now + env.limits.max_run_seconds * second)
  admission_deadline (some requested) now = do
    raise_if (leb requested now || ltb (now + env.limits.max_run_seconds * second) requested)
        (execution_error ExecutionFailureCode.invalid_arguments)
    pure requested

  unfoldable pub active_runs : ℕ → Desk → ℕ
  active_runs workspace d =
      count_if (λ r. r.run.workspace_id == workspace && is_active r.run.status) d.world.db.rows

  -- from the lookup of the nonce on, when there is no run for this key
  unfoldable pub admit_new_run :
      SystemExecutionState
      → WorkspaceContext
      → ℕ
      → Claims
      → String
      → String
      → CanonicalRequest
      → String × String
      → Option ℕ
      → Option ℕ
      → ℕ
      → Act Desk Run
  unfolding active_runs
  admit_new_run state context version_id claims nonce_digest raw_key request normalized requested
        correlation_id locked_at =
      do
        used ← gets (λ d. find (is_nonce nonce_digest) d.nonces)
        raise_if (leb claims.expires_at locked_at) (execution_error confirmation_expired)
        raise_if (is_some used) (execution_error confirmation_replayed)
        _ ← admission_deadline requested locked_at
        target ← load_admission_target context version_id
        raise_if (target_differs claims target) (execution_error invalid_confirmation)
        validate_normalized_arguments codec normalized.0 target.version.input_schema
        now ← on_world (durable_now env)
        raise_if (leb claims.expires_at now) (execution_error confirmation_expired)
        deadline ← admission_deadline requested now
        raise_if state.dispatch_quarantined
            (execution_error ExecutionFailureCode.dispatch_quarantined)
        active ← gets (active_runs context.workspace_id)
        raise_if (leb env.limits.max_active_runs_per_workspace active)
            (execution_error active_run_limit)
        store_run state context target claims nonce_digest raw_key request normalized deadline
            correlation_id now

  unfoldable pub resolve :
      Act Desk Run
      → WorkspaceContext
      → CanonicalRequest
      → Claims
      → String
      → Option IdempotencyRecord
      → Act Desk Run
  resolve otherwise context request claims digest none = otherwise
  resolve otherwise context request claims digest (some existing) =
      replay_existing_run context existing request claims digest

  -- from the savepoint on: the workspace is locked, and the key is looked up again
  unfoldable pub admit_locked :
      WorkspaceContext
      → ℕ
      → Claims
      → String
      → String
      → CanonicalRequest
      → String × String
      → Option ℕ
      → Option ℕ
      → SystemExecutionState
      → Act Desk Run
  unfolding resolve
  admit_locked context version_id claims nonce_digest raw_key request normalized requested
        correlation_id state =
      do
        on_world (require_current_role context can_operate true)
        now ← on_world (durable_now env)
        require_confirmation_key_history env.limits keys
        require_idempotency_key_history env.limits keys
        existing ← gets (find_idempotency_record codec keys context raw_key)
        resolve
            (admit_new_run state context version_id claims nonce_digest raw_key request normalized
              requested correlation_id now)
            context request claims nonce_digest existing

  unfoldable pub create_run :
      WorkspaceContext → ℕ → String → String → String → Option ℕ → Option ℕ → Act Desk Run
  unfolding resolve
  create_run context version_id arguments token idempotency_key requested correlation_id = do
    state ← on_world (execution_state env)
    on_world (require_current_role context can_operate false)
    normalized ← normalize_arguments codec env.limits arguments
    require_confirmation_key_history env.limits keys
    require_idempotency_key_history env.limits keys
    claims ← decode_confirmation codec keys token
    now ← on_world (durable_now env)
    raise_if (bindings_refused claims context version_id normalized.1 now)
        (execution_error invalid_confirmation)
    raw_key ← validate_idempotency_key env.limits idempotency_key
    let request : CanonicalRequest = record {
      capability_id = claims.capability_id;
      capability_version_id = version_id;
      connection_id = claims.connection_id;
      connection_version_id = claims.connection_version_id;
      argument_digest = normalized.1;
      deadline = requested;
    }
    let nonce_digest = codec.sha256 claims.nonce
    existing ← gets (find_idempotency_record codec keys context raw_key)
    resolve
        (admit_locked context version_id claims nonce_digest raw_key request normalized requested
          correlation_id state)
        context request claims nonce_digest existing
