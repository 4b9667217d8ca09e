-- ===== src/Execution/Lease.antt =====
-- execution/service.py: the calls of a worker that holds a lease (`fence_session`,
-- `fence_dispatch`, `heartbeat`, `complete_lease`).
pub mod Fences
pub mod Completion
pub mod Permit
pub mod Fencing
pub mod Renewal
pub mod Acceptance
use modall.Common.{
  ℕ, ◌+◌, Bool, true, false, not, Option, none, some, if◌then◌else◌, min, leb, ◌==◌, str_eq,
  is_none, is_some, holds_id, holds_text, is_due, ◌&&◌, ◌||◌, execution_error, value_error,
  lease_lost, invalid_transition, Act, pure, raise, raise_if, or_raise, gets, modify, ◌>>=◌, ◌>>◌,
  List,
}
use modall.Identity.{WorkspaceMembership, can_operate}
use modall.Registry.Rows.{
  Tables, ServerConnection, Capability, is_enabled, is_active_connection,
  qualified_protocol_revision, has_workspace, find_membership, find_capability, find_connection,
  find_observed, find_run_binding,
}
use modall.Execution.Types.{
  RunStatus, JobStatus, RunEventType, RunFailureCode, JobLease, preparing, session_fenced,
  dispatch_fenced, succeeded, timed_out, indeterminate, is_terminal, same_status, is_leased,
  job_status, deadline_exceeded,
}
use modall.Execution.Rows.{Run, Job, RunAttempt, RunRows}
use modall.Execution.Ledger.{active_attempt, set_attempt, append_next_event, terminalize_run}
use modall.Execution.World.{World, Held, Env, SystemExecutionState, held_now, execution_state, lock}

-- the rows whose job the lease names (`_locked_lease_lineage`, `_locked_job`)
abbrev pub is_leased_job : JobLease → RunRows → Bool
is_leased_job lease r = elim r.job [
  | none ↦ false
  | some j ↦ j.id == lease.job_id && j.workspace_id == lease.workspace_id
]

-- `row.run_id != lease.run_id` in `_locked_lease_lineage`; gives the locked job
unfoldable pub held_job : JobLease → Act Held Job
held_job lease = do
  found ← gets (λ h. h.rows.job)
  job ← or_raise found (execution_error lease_lost)
  raise_if (not (job.run_id == lease.run_id)) (execution_error lease_lost)
  pure job

-- the part of the lease checks that `heartbeat`, `complete_lease` and the fences share
unfoldable pub lease_refused : SystemExecutionState → JobLease → Job → Bool
lease_refused state lease job =
    not (state.execution_epoch == lease.execution_epoch)
    || not (is_leased job.status)
    || not (holds_text job.lease_owner lease.worker_id)
    || not (job.lease_epoch == lease.lease_epoch)
    || is_none job.lease_expires_at

-- an inner `Act RunRows` inside the lock
unfoldable pub on_rows : {A : Type 0} → Act RunRows A → Act Held A
on_rows m h = let (r, rows) = m h.rows in (r, record h { rows = rows })

-- what the fences read besides the run: `membership`, `capability`, `connection`, `observed` and
-- `binding`, with the comparisons of the condition
pub membership_refused : Option WorkspaceMembership → Bool
membership_refused none = true
membership_refused (some m) = not (can_operate m.role)

pub capability_refused : Run → Option Capability → Bool
capability_refused run none = true
capability_refused run (some c) =
    not (is_enabled c.status)
    || not (holds_id c.enabled_version_id run.capability_version_id)
    || is_some c.pending_version_id
    || not (c.status_epoch == run.capability_status_epoch)

pub connection_refused : Run → Option ServerConnection → Bool
connection_refused run none = true
connection_refused run (some c) =
    not (is_active_connection c.lifecycle)
    || is_some c.pending_version_id
    || not (holds_id c.verified_version_id run.connection_version_id)
    || not (c.control_epoch == run.connection_control_epoch)

-- the authority and the configuration that the run is pinned to; also the condition of
-- `_claim_target_is_current`
unfoldable pub target_refused : Tables → Run → Bool
unfolding membership_refused capability_refused connection_refused
target_refused t run =
    let connection = find_connection t run.workspace_id run.connection_id in
    not (str_eq run.protocol_revision qualified_protocol_revision)
    || membership_refused (find_membership t run.workspace_id run.actor_user_id)
    || capability_refused run (find_capability t run.workspace_id run.capability_id)
    || connection_refused run connection
    || is_none (
        find_observed t run.workspace_id run.connection_id run.connection_version_id
          run.capability_version_id connection)
    || is_none (
        find_run_binding t run.workspace_id run.capability_id run.capability_version_id
          run.connection_id run.connection_version_id run.protocol_revision)

pub attempt_refused : JobLease → RunStatus → Option RunAttempt → Bool
attempt_refused lease expected none = true
attempt_refused lease expected (some a) =
    not (a.lease_epoch == lease.lease_epoch) || not (same_status a.status expected)

-- the condition of `_fence_attempt`
unfoldable pub fence_refused :
    SystemExecutionState → Tables → JobLease → RunStatus → ℕ → RunRows → Job → Bool
unfolding attempt_refused
fence_refused state tables lease expected now r job =
    state.dispatch_quarantined
    || lease_refused state lease job
    || not (job.execution_epoch == lease.execution_epoch)
    || is_due job.lease_expires_at now
    || leb job.deadline now
    || r.run.cancellation_requested
    || not (same_status r.run.status expected)
    || target_refused tables r.run
    || attempt_refused lease expected (active_attempt r.attempts)

unfoldable pub mark_attempts : RunStatus → List RunAttempt → List RunAttempt
mark_attempts target attempts = elim (active_attempt attempts) [
  | none ↦ attempts
  | some a ↦ set_attempt (record a { status = target }) attempts
]

-- the writes of `_fence_attempt`
unfoldable pub fence_rows : RunStatus → RunEventType → ℕ → RunRows → RunRows
fence_rows target event_type now r = append_next_event event_type target none now (record r {
  run = record r.run { status = target; updated_at = now };
  attempts = mark_attempts target r.attempts;
})

module _ (env : Env) where
  unfoldable pub fence_held :
      SystemExecutionState → Tables → JobLease → RunStatus → RunStatus → RunEventType → Act Held Run
  unfolding held_job
  fence_held state tables lease expected target event_type = do
    job ← held_job lease
    raise_if (not (has_workspace tables lease.workspace_id)) (execution_error lease_lost)
    now ← held_now env
    r ← gets (λ h. h.rows)
    raise_if (fence_refused state tables lease expected now r job) (execution_error lease_lost)
    modify (λ h. record h { rows = fence_rows target event_type now h.rows })
    gets (λ h. h.rows.run)

  -- `_fence_attempt`
  unfoldable pub fence_attempt : JobLease → RunStatus → RunStatus → RunEventType → Act World Run
  fence_attempt lease expected target event_type = do
    state ← execution_state env
    tables ← gets (λ w. w.db.tables)
    lock (is_leased_job lease) (raise (execution_error lease_lost))
        (fence_held state tables lease expected target event_type)

  unfoldable pub fence_session : JobLease → Act World Run
  fence_session lease = fence_attempt lease preparing session_fenced RunEventType.session_fenced

  unfoldable pub fence_dispatch : JobLease → Act World Run
  fence_dispatch lease =
      fence_attempt lease session_fenced dispatch_fenced RunEventType.dispatch_fenced

  unfoldable pub heartbeat_held : SystemExecutionState → JobLease → ℕ → Act Held JobLease
  unfolding held_job
  heartbeat_held state lease lease_duration = do
    job ← held_job lease
    now ← held_now env
    raise_if
        (state.dispatch_quarantined
          || lease_refused state lease job
          || is_due job.lease_expires_at now
          || leb job.deadline now)
        (execution_error lease_lost)
    run ← gets (λ h. h.rows.run)
    raise_if (is_terminal run.status) (execution_error lease_lost)
    let expires = min (now + lease_duration) job.deadline
    modify (λ h. record h {
      rows = record h.rows { job = some (record job { lease_expires_at = some expires }) };
    })
    pure (record {
      job_id = job.id;
      run_id = job.run_id;
      workspace_id = job.workspace_id;
      correlation_id = lease.correlation_id;
      worker_id = lease.worker_id;
      lease_epoch = lease.lease_epoch;
      execution_epoch = lease.execution_epoch;
      expires_at = expires;
    })

  unfoldable pub heartbeat : JobLease → ℕ → Act World JobLease
  heartbeat lease lease_duration = do
    raise_if (leb lease_duration 0) value_error
    state ← execution_state env
    lock (is_leased_job lease) (raise (execution_error lease_lost))
        (heartbeat_held state lease lease_duration)

-- `safe_error_code in allowed_codes.get(source, set())`
abbrev pub failure_allowed : RunStatus → Option RunFailureCode → Bool
failure_allowed preparing (some RunFailureCode.preparation_failed) = true
failure_allowed session_fenced (some RunFailureCode.session_initialization_failed) = true
failure_allowed dispatch_fenced (some RunFailureCode.tool_call_failed) = true
failure_allowed dispatch_fenced (some RunFailureCode.invalid_tool_result) = true
failure_allowed dispatch_fenced (some RunFailureCode.unsupported_tool_result) = true
failure_allowed dispatch_fenced (some RunFailureCode.sensitive_tool_result) = true
failure_allowed _ _ = false

abbrev is_cancel_code : Option RunFailureCode → Bool
is_cancel_code (some RunFailureCode.cancelled_before_dispatch) = true
is_cancel_code _ = false

abbrev is_unknown_code : Option RunFailureCode → Bool
is_unknown_code (some RunFailureCode.upstream_outcome_unknown) = true
is_unknown_code _ = false

completion_allowed : RunStatus → Bool → RunStatus → Option RunFailureCode → Bool
completion_allowed source requested RunStatus.succeeded code =
    same_status source dispatch_fenced && is_none code
completion_allowed source requested RunStatus.failed code = failure_allowed source code
completion_allowed source requested RunStatus.cancelled code =
    requested
    && (same_status source preparing || same_status source session_fenced)
    && is_cancel_code code
completion_allowed source requested RunStatus.indeterminate code =
    same_status source dispatch_fenced && is_unknown_code code
completion_allowed source requested _ code = false

-- `_valid_worker_completion`
unfoldable pub valid_worker_completion : Run → RunAttempt → RunStatus → Option RunFailureCode → Bool
unfolding completion_allowed
valid_worker_completion run attempt status code =
    same_status attempt.status run.status
    && completion_allowed run.status run.cancellation_requested status code

-- the writes of `complete_lease` on an accepted completion
unfoldable pub complete_rows :
    RunStatus → JobStatus → Option RunFailureCode → ℕ → Job → RunAttempt → RunRows → RunRows
complete_rows status job_state code now job attempt r =
    append_next_event RunEventType.terminal status code now (record r {
      run = record r.run {
        status = status;
        safe_error_code = code;
        updated_at = now;
        terminal_at = some now;
      };
      attempts =
          set_attempt
            (record attempt { status = status; safe_error_code = code; terminal_at = some now })
            r.attempts;
      job = some (record job {
        status = job_state;
        lease_owner = none;
        lease_expires_at = none;
        completed_at = some now;
      });
    })

-- the status of a run whose deadline has passed
abbrev pub deadline_status : RunStatus → RunStatus
deadline_status s = if same_status s dispatch_fenced then indeterminate else timed_out

-- the end of `complete_lease`, before the deadline
unfoldable pub complete_in_time :
    JobLease → RunStatus → Option RunFailureCode → ℕ → Job → Act Held Run
complete_in_time lease status code now job = do
  raise_if (is_due job.lease_expires_at now) (execution_error lease_lost)
  r ← gets (λ h. h.rows)
  attempt ← or_raise (active_attempt r.attempts) (execution_error lease_lost)
  raise_if (not (attempt.lease_epoch == lease.lease_epoch)) (execution_error lease_lost)
  raise_if (not (valid_worker_completion r.run attempt status code))
      (execution_error invalid_transition)
  job_state ← or_raise (job_status status) value_error
  modify (λ h. record h { rows = complete_rows status job_state code now job attempt h.rows })
  gets (λ h. h.rows.run)

unfoldable pub complete_late : ℕ → Act Held Run
complete_late now = do
  r ← gets (λ h. h.rows)
  on_rows
      (terminalize_run (deadline_status r.run.status) now deadline_exceeded RunEventType.terminal)
  gets (λ h. h.rows.run)

module _ (env : Env) where
  unfoldable pub complete_held :
      SystemExecutionState → JobLease → RunStatus → Option RunFailureCode → Act Held Run
  unfolding held_job complete_late complete_in_time
  complete_held state lease status code = do
    job ← held_job lease
    now ← held_now env
    raise_if (lease_refused state lease job) (execution_error lease_lost)
    run ← gets (λ h. h.rows.run)
    raise_if (is_terminal run.status) (execution_error invalid_transition)
    if leb job.deadline now then complete_late now else complete_in_time lease status code now job

  unfoldable pub complete_lease : JobLease → RunStatus → Option RunFailureCode → Act World Run
  complete_lease lease status code = do
    raise_if (not (is_terminal status)) (execution_error invalid_transition)
    raise_if (same_status status succeeded && is_some code) (execution_error invalid_transition)
    state ← execution_state env
    lock (is_leased_job lease) (raise (execution_error lease_lost))
        (complete_held state lease status code)
