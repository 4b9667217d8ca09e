-- ===== src/Execution/Examples.antt =====
-- A small ledger for the tests: one run that waits, with its target, and the same run with a lease.
mod Admissions
mod Claims
mod Histories
mod Leases
use modall.Identity.{operator}
use modall.Execution.Restore.{
  reconcile_restore_quarantine, enter_restore_quarantine, clear_restore_quarantine, is_unreconciled,
  by_creation,
}
use modall.Common.{
  ℕ, ◌∷◌, ◌+◌, arith, false, true, some, [], none, ◌≡◌, ok, refl, List, All, ◌⊎◌, find, ◌≤◌, err,
  execution_error, invalid_transition, ◌≢◌, inr, ExecutionFailureCode, ◌<◌, length, value_error,
}
use modall.Execution.Types.{
  failed, preparation_failed, JobLease, ExecutionLimits, JobStatus, queued, RunEventType, preparing,
  cancelled, succeeded, session_fenced,
}
use modall.Execution.World.{
  World, Held, SystemExecutionState, Env, held_now, filter_rows, select_rows,
}
use modall.Execution.Rows.{Job, Run, RunRows, RunEvent, RunAttempt}
use modall.Registry.Rows.{
  Tables, qualified_protocol_revision, has_workspace, find_membership, find_capability,
  find_connection, find_observed, find_run_binding, ConnectionLifecycle, CapabilityStatus,
}
use modall.Execution.Ledger.Invariant.{IsConsistent, Dispatched, dispatches}
use modall.Execution.Success.{ResultScreen}
use modall.Execution.Claim
use modall.Execution.Claim.{claim_held, claim_rows, is_next, by_age}
use modall.Execution.Evolution.{Consistent, Evolves}
use modall.Execution.Lease.{
  target_refused, is_leased_job, fence_held, fence_rows, heartbeat_held, complete_held,
  valid_worker_completion, held_job, lease_refused,
}
use modall.Execution.Lease.Permit.{Permit}
use modall.Execution.Cancel.{cancel_held}
use modall.Execution.Projection.{replay_projection, sort_events}
use modall.Execution.Service.{perform, serve, Request, Call, transaction}
use modall.Execution.Claim.Honoured.{claim_held-Permit}
use modall.Execution.Service.History.{serve-Evolves, serve-replay_projection, serve-dispatches}
use modall.Execution.Cancel.Outcome.{cancel_held-outcome}
use modall.Execution.Service.Revocation.{enter_restore_quarantine-revokes, perform-Refuses}
use modall.Execution.Service.Quarantine.{
  perform-quarantined, by_claim, clear_restore_quarantine-decides, Idle,
}
use modall.Execution.Ledger.{append_next_event, append_event, active_attempt}
use modall.Execution.Projection.Replay.{Contiguous, last_status, replay_projection-Contiguous}
use modall.Execution.Service.Restoration.{restore-completes, reconcile_restore_quarantine_complete}
use modall.Execution.Lease.Renewal.{Renews, heartbeat_held-Renews}
use modall.Execution.Lease.Acceptance.{complete_held-accepts}
use modall.Execution.World.Order.{Earlier}
use modall.Execution.Lease.Fencing.{fence_held-decides}
use modall.Execution.Service.Refusal.{Refuses, to_dispatch}

abbrev pub limits : ExecutionLimits
limits = record {
  max_argument_bytes = 16384;
  max_result_bytes = 1048576;
  confirmation_ttl_seconds = 60;
  max_run_seconds = 300;
  argument_retention_days = 7;
  result_retention_days = 7;
  run_retention_days = 30;
  max_idempotency_key_characters = 128;
  max_historical_hmac_keys = 4;
  reconciliation_batch_size = 100;
  max_active_runs_per_workspace = 10;
}

-- the n-th reading of the clock is n microseconds after the given time
abbrev pub env_at : ℕ → Env
env_at start = record {
  clock = λ n. start + n;
  uuid = λ n. 900 + n;
  locked = λ _. false;
  limits = limits;
  system_authority = true;
}

abbrev pub test_screen : ResultScreen
test_screen = record {
  encodable = λ _. true;
  canonical_length = λ _. 2;
  canonical_sha256 = λ _. "digest";
  contains_sensitive_json = λ _. false;
}

abbrev pub tables : Tables
tables = record {
  workspaces = 1 ∷ [];
  memberships = record { workspace_id = 1; user_id = 2; role = operator } ∷ [];
  connections =
      record {
        id = 3;
        workspace_id = 1;
        name = 65 ∷ [];
        lifecycle = ConnectionLifecycle.active;
        pending_version_id = none;
        verified_version_id = some 4;
        current_snapshot_id = some 5;
        control_epoch = 1;
        refresh_generation = 1;
        allocated_control_epoch = none;
        allocated_target_version_id = none;
        last_refresh_error_code = none;
        last_refresh_at = none;
        created_by_user_id = 2;
      }
      ∷ [];
  capabilities =
      record {
        id = 6;
        workspace_id = 1;
        connection_id = 3;
        tool_identity = "tool";
        pending_version_id = none;
        enabled_version_id = some 7;
        status = CapabilityStatus.enabled;
        status_epoch = 1;
      }
      ∷ [];
  versions = [];
  bindings =
      record {
        capability_version_id = 7;
        capability_id = 6;
        workspace_id = 1;
        connection_id = 3;
        connection_version_id = 4;
        tool_name = "tool";
        protocol_revision = qualified_protocol_revision;
      }
      ∷ [];
  observations =
      record {
        workspace_id = 1;
        connection_id = 3;
        connection_version_id = 4;
        snapshot_id = 5;
        capability_version_id = 7;
      }
      ∷ [];
}

-- a run that was admitted at time 100, with 1000 microseconds to its deadline
abbrev pub run : Run
run = record {
  id = 10;
  workspace_id = 1;
  correlation_id = 11;
  actor_user_id = 2;
  capability_id = 6;
  capability_version_id = 7;
  connection_id = 3;
  connection_version_id = 4;
  connection_control_epoch = 1;
  capability_status_epoch = 1;
  protocol_revision = qualified_protocol_revision;
  status = queued;
  arguments = some "{}";
  argument_digest = some "digest";
  arguments_expires_at = 5000;
  deadline = 1100;
  cancellation_requested = false;
  safe_error_code = none;
  created_at = 100;
  updated_at = 100;
  terminal_at = none;
}

abbrev pub job : Job
job = record {
  id = 12;
  workspace_id = 1;
  run_id = 10;
  actor_user_id = 2;
  execution_epoch = 1;
  status = JobStatus.queued;
  lease_owner = none;
  lease_epoch = 0;
  lease_expires_at = none;
  available_at = 100;
  deadline = 1100;
  created_at = 100;
  completed_at = none;
}

abbrev pub rows : RunRows
rows = record {
  run = run;
  job = some job;
  attempts = [];
  events =
      record {
        sequence = 1;
        event_type = RunEventType.admitted;
        status = queued;
        safe_error_code = none;
        occurred_at = 100;
      }
      ∷ [];
  result = none;
}

abbrev pub state : SystemExecutionState
state = record { execution_epoch = 1; dispatch_quarantined = false; updated_at = 100 }

abbrev pub quarantined : SystemExecutionState
quarantined = record state { dispatch_quarantined = true }

abbrev pub world : World
world = record {
  db = record { state = some state; rows = rows ∷ []; audits = []; tables = tables };
  reads = 0;
  draws = 0;
}

abbrev pub held : Held
held = record { rows = rows; reads = 0 }

abbrev pub lease : JobLease
lease = record {
  job_id = 12;
  run_id = 10;
  workspace_id = 1;
  correlation_id = 11;
  worker_id = "worker";
  lease_epoch = 1;
  execution_epoch = 1;
  expires_at = 701;
}

pub rows-IsConsistent : IsConsistent rows
rows-IsConsistent = ground arith

pub world-Consistent : Consistent world.db.rows
world-Consistent = (rows-IsConsistent, tt)

pub claim_held-lease : (claim_held (env_at 200) tables "worker" 500 held).0 ≡ ok (some lease, [])
unfolding claim_held held_now target_refused has_workspace find_membership find_capability
    find_connection find_observed find_run_binding
claim_held-lease = refl

-- the requests of a whole life: claim, both fences, success, retention
abbrev pub requests : List Request
requests =
    record { screen = test_screen; env = env_at 200; call = Call.claim_job "worker" 500 }
    ∷ record { screen = test_screen; env = env_at 300; call = Call.fence_session lease }
    ∷ record { screen = test_screen; env = env_at 310; call = Call.fence_dispatch lease }
    ∷ record {
      screen = test_screen;
      env = env_at 400;
      call = Call.complete_lease lease succeeded none;
    }
    ∷ record { screen = test_screen; env = env_at 9000; call = Call.expire_retained_content 10 }
    ∷ []

abbrev pub restored : World
restored = record world { db = record world.db { state = some quarantined; rows = [] } }

-- the run with its first lease, and the job of that lease
abbrev pub claimed : Held
claimed = (claim_held (env_at 200) tables "worker" 500 held).1

abbrev pub leased_job : Job
leased_job = record job {
  status = JobStatus.leased;
  lease_owner = some "worker";
  lease_epoch = 1;
  lease_expires_at = some 701;
}

pub claimed-job : claimed.rows.job ≡ some leased_job
unfolding claim_held held_now target_refused has_workspace find_membership find_capability
    find_connection find_observed find_run_binding claim_rows append_next_event append_event
claimed-job = refl

abbrev pub unordered : List RunEvent
unordered =
    record {
      sequence = 2;
      event_type = RunEventType.attempt_started;
      status = preparing;
      safe_error_code = none;
      occurred_at = 202;
    }
    ∷ record {
      sequence = 1;
      event_type = RunEventType.admitted;
      status = queued;
      safe_error_code = none;
      occurred_at = 100;
    }
    ∷ []

-- the ledger in the quarantine, with the run in it
abbrev pub stopped : World
stopped = record world { db = record world.db { state = some quarantined } }

abbrev pub attempt : RunAttempt
attempt = record {
  job_id = 12;
  sequence = 1;
  lease_epoch = 1;
  status = preparing;
  started_at = 201;
  terminal_at = none;
  safe_error_code = none;
}
