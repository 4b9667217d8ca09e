-- ===== src/Execution/Examples/Leases.antt =====
-- Tests of execution/service.py on the small ledger: one run under its row lock.
use modall.Common.{
  ◌+◌, arith, true, some, [], none, ◌≡◌, ok, refl, ◌⊎◌, err, execution_error, ExecutionFailureCode,
}
use modall.Execution.Types.{
  failed, preparation_failed, JobStatus, RunEventType, preparing, cancelled, session_fenced,
}
use modall.Execution.World.{held_now}
use modall.Execution.Rows.{Job}
use modall.Registry.Rows.{
  has_workspace, find_membership, find_capability, find_connection, find_observed, find_run_binding,
}
use modall.Execution.Claim
use modall.Execution.Claim.{claim_held, claim_rows, is_next, by_age}
use modall.Execution.Lease.{
  target_refused, fence_held, fence_rows, heartbeat_held, complete_held, valid_worker_completion,
  held_job, lease_refused,
}
use modall.Execution.Lease.Permit.{Permit}
use modall.Execution.Cancel.{cancel_held}
use modall.Execution.Claim.Honoured.{claim_held-Permit}
use modall.Execution.Cancel.Outcome.{cancel_held-outcome}
use modall.Execution.Ledger.{append_next_event, append_event, active_attempt}
use modall.Execution.Lease.Renewal.{Renews, heartbeat_held-Renews}
use modall.Execution.Lease.Acceptance.{complete_held-accepts}
use modall.Execution.Lease.Fencing.{fence_held-decides}
use modall.Execution.Examples.{
  env_at, claimed, state, lease, tables, held, attempt, leased_job, job, claimed-job,
  rows-IsConsistent, claim_held-lease,
}

cancel_held-outcome_example :
    ((cancel_held (env_at 200) held).0 ≡ ok ((cancel_held (env_at 200) held).1.rows.run, true))
    × ((cancel_held (env_at 200) held).1.rows.run.status ≡ cancelled)
    × ((cancel_held (env_at 200) held).1.rows.run.cancellation_requested ≡ true)
cancel_held-outcome_example = cancel_held-outcome (env_at 200) held rows-IsConsistent

claim_held-Permit_example :
    (j' : Job) × ((claim_held (env_at 200) tables "worker" 500 held).1.rows.job ≡ some j')
    × Permit state tables lease preparing 300
        (claim_held (env_at 200) tables "worker" 500 held).1.rows
        j'
claim_held-Permit_example =
    claim_held-Permit (env_at 200) state tables "worker" 500 300 held job lease [] rows-IsConsistent
      refl refl refl refl claim_held-lease (omega arith)

has_workspace-tables : has_workspace tables 1 ≡ true
unfolding has_workspace
has_workspace-tables = refl

fence_held-decides_example :
    (Permit state tables lease preparing ((env_at 300).clock claimed.reads) claimed.rows leased_job
      × (fence_held
            (env_at 300)
            state
            tables
            lease
            preparing
            session_fenced
            RunEventType.session_fenced
            claimed
          ≡ (
            ok
                (fence_rows session_fenced RunEventType.session_fenced
                  ((env_at 300).clock claimed.reads)
                  claimed.rows).run,
            record {
              rows =
                  fence_rows session_fenced RunEventType.session_fenced
                    ((env_at 300).clock claimed.reads)
                    claimed.rows;
              reads = claimed.reads + 1;
            },
          )))
    ⊎ (¬ (
          Permit state tables lease preparing
            ((env_at 300).clock claimed.reads)
            claimed.rows
            leased_job)
        × (fence_held
              (env_at 300)
              state
              tables
              lease
              preparing
              session_fenced
              RunEventType.session_fenced
              claimed
            ≡ (
              err (execution_error ExecutionFailureCode.lease_lost),
              record claimed { reads = claimed.reads + 1 },
            )))
fence_held-decides_example =
    fence_held-decides (env_at 300) state tables lease preparing session_fenced
      RunEventType.session_fenced claimed leased_job claimed-job refl has_workspace-tables

claimed-Permit : Permit state tables lease preparing 302 claimed.rows leased_job
unfolding claim_held held_now target_refused has_workspace find_membership find_capability
    find_connection find_observed find_run_binding claim_rows append_next_event append_event
    active_attempt
claimed-Permit = record {
  not_quarantined = refl;
  current_epoch = refl;
  job_epoch = refl;
  leased = refl;
  owner = refl;
  fencing_token = refl;
  unlapsed = omega arith;
  before_deadline = omega arith;
  not_cancelled = refl;
  status = refl;
  target = record {
    revision = refl;
    actor = refl;
    capability = (refl, refl, refl, refl);
    connection = (refl, refl, refl, refl);
    observed = refl;
    binding = refl;
  };
  attempt = (refl, refl);
}

claimed-attempt : active_attempt claimed.rows.attempts ≡ some attempt
unfolding claim_held held_now target_refused has_workspace find_membership find_capability
    find_connection find_observed find_run_binding claim_rows append_next_event append_event
    active_attempt Claim.max_attempt
claimed-attempt = refl

claimed-valid :
    valid_worker_completion claimed.rows.run attempt failed (some preparation_failed) ≡ true
unfolding claim_held held_now target_refused has_workspace find_membership find_capability
    find_connection find_observed find_run_binding claim_rows append_next_event append_event
    valid_worker_completion
claimed-valid = refl

complete_held-accepts_example :
    let after = complete_held (env_at 300) state lease failed (some preparation_failed) claimed in
    (after.0 ≡ ok after.1.rows.run)
    × (after.1.rows.run.status ≡ failed)
    × (after.1.rows.run.safe_error_code ≡ some preparation_failed)
    × (after.1.rows.run.terminal_at ≡ some ((env_at 300).clock claimed.reads))
    × (after.1.rows.job
        ≡ some (record leased_job {
          status = JobStatus.failed;
          lease_owner = none;
          lease_expires_at = none;
          completed_at = some ((env_at 300).clock claimed.reads);
        }))
unfolding claim_held held_now target_refused has_workspace find_membership find_capability
    find_connection find_observed find_run_binding claim_rows append_next_event append_event
complete_held-accepts_example =
    complete_held-accepts (env_at 300) state tables lease preparing failed (some preparation_failed)
      claimed leased_job attempt claimed-job refl claimed-Permit claimed-attempt claimed-valid

claimed-renewed :
    (heartbeat_held (env_at 300) state lease 500 claimed).0 ≡ ok (record lease { expires_at = 802 })
unfolding claim_held held_now target_refused has_workspace find_membership find_capability
    find_connection find_observed find_run_binding claim_rows append_next_event append_event
    heartbeat_held held_job lease_refused
claimed-renewed = refl

heartbeat_held-Renews_example :
    Renews lease 500
      ((env_at 300).clock claimed.reads)
      leased_job
      claimed.rows
      (heartbeat_held (env_at 300) state lease 500 claimed).1.rows
      (record lease { expires_at = 802 })
heartbeat_held-Renews_example =
    heartbeat_held-Renews (env_at 300) state lease (record lease { expires_at = 802 }) 500 claimed
      leased_job claimed-job claimed-renewed
