-- ===== src/Execution/Service/Revocation.antt =====
-- Leases that no longer count: of an earlier execution epoch, or of an earlier lease of the job.
use modall.Execution.Restore
use modall.Execution.Service.{perform, Call}
use modall.Execution.Success.{ResultScreen}
use modall.Execution.World.{
  Env, World, SystemExecutionState, require_system_authority, durable_now, execution_state,
  put_state,
}
use modall.Execution.Types.{JobLease}
use modall.Common.{◌≡◌, true, some, ◌≤◌, ◌+◌, ◌⊎◌, find, inl, arith, ◌≢◌, inr}
use modall.Execution.Rows.{RunRows, Job}
use modall.Execution.Lease.{is_leased_job}
use modall.Execution.Service.Stale.{Revoked, Superseded, perform-stale, lease_refused-stale}
use modall.Execution.Service.Refusal.{UsesLease, Refuses}

-- A lease of another execution epoch, or with another fencing token than its job has, is worth
-- nothing: each call that is made with it raises and leaves the database as it was.
pub perform-Refuses :
    (screen : ResultScreen) (env : Env) (state : SystemExecutionState) (w : World)
    (lease : JobLease) (call : Call)
    → w.db.state ≡ some state
    → Revoked state lease
      ⊎ ((r : RunRows) → find (is_leased_job lease) w.db.rows ≡ some r → Superseded lease r)
    → UsesLease lease call
    → Refuses (perform screen env call) w
perform-Refuses screen env state w lease call known stale uses =
    perform-stale env state w lease known
      (λ r found j e. lease_refused-stale state lease j (reason r found j e)) screen call uses
  where
    reason :
        (r : RunRows)
        → find (is_leased_job lease) w.db.rows ≡ some r
        → (j : Job) → r.job ≡ some j
        → Revoked state lease ⊎ (j.lease_epoch ≢ lease.lease_epoch)
    reason r found j e = elim stale [
      | inl revoked ↦ inl revoked
      | inr superseded ↦ inr (superseded r found j e)
    ]

-- the state that `enter_restore_quarantine` leaves
entered :
    (env : Env) (w : World) (state : SystemExecutionState)
    → env.system_authority ≡ true
    → w.db.state ≡ some state
    → (Restore.enter_restore_quarantine env w).1.db.state
      ≡ some (record {
        execution_epoch = state.execution_epoch + 1;
        dispatch_quarantined = true;
        updated_at = env.clock w.reads;
      })
entered env w state a e =
    unfold Restore.enter_restore_quarantine require_system_authority durable_now execution_state
      put_state in
    ground arith

-- Entering the restore quarantine revokes every lease granted so far: after it, each call that is
-- made with a lease of the epoch before, or of an earlier one, raises and leaves the database as it
-- was.
pub enter_restore_quarantine-revokes :
    (screen : ResultScreen) (env env' : Env) (state : SystemExecutionState) (w : World)
    (lease : JobLease) (call : Call)
    → env.system_authority ≡ true
    → w.db.state ≡ some state
    → lease.execution_epoch ≤ state.execution_epoch
    → UsesLease lease call
    → Refuses (perform screen env' call) (Restore.enter_restore_quarantine env w).1
enter_restore_quarantine-revokes screen env env' state w lease call authority known le uses =
    perform-Refuses screen env' _ (Restore.enter_restore_quarantine env w).1 lease call
      (entered env w state authority known) (inl (λ e. absurd (omega arith))) uses
