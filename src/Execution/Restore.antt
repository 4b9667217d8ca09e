-- ===== src/Execution/Restore.antt =====
-- execution/service.py: `enter_restore_quarantine`, `reconcile_restore_quarantine` and
-- `clear_restore_quarantine`.
pub mod Preserves
use modall.Common.{
  ℕ, ◌+◌, Bool, true, false, not, length, any, if◌then◌else◌, ltb, leb, ◌&&◌, ◌||◌, execution_error,
  value_error, invalid_transition, Act, pure, raise_if, gets, ◌>>=◌, ◌>>◌,
}
use modall.Execution.Types.{
  RunStatus, RunEventType, cancelled, indeterminate, dispatch_fenced, is_active, same_status,
  restore_reconciliation,
}
use modall.Execution.Rows.{RunRows}
use modall.Execution.Ledger.{terminalize_run}
use modall.Execution.World.{
  World, Held, Env, durable_now, execution_state, put_state, require_system_authority, select_rows,
  for_each,
}
use modall.Execution.Lease.{on_rows}

pub by_creation : RunRows → ℕ × ℕ
by_creation r = (r.run.created_at, r.run.id)

-- the status that a restored run is reconciled to
abbrev pub restored_status : RunStatus → RunStatus
restored_status s = if same_status s dispatch_fenced then indeterminate else cancelled

unfoldable pub restore_held : ℕ → Act Held Unit
restore_held now = do
  r ← gets (λ h. h.rows)
  on_rows (
      terminalize_run (restored_status r.run.status) now restore_reconciliation
        RunEventType.restore_reconciled)

module _ (env : Env) where
  unfoldable pub enter_restore_quarantine : Act World ℕ
  enter_restore_quarantine = do
    require_system_authority env
    now ← durable_now env
    state ← execution_state env
    put_state (record {
      execution_epoch = state.execution_epoch + 1;
      dispatch_quarantined = true;
      updated_at = now;
    })
    pure (state.execution_epoch + 1)

  -- `Run.status.in_(_ACTIVE_RUN_STATUS_VALUES)`, with `skip_locked`
  unfoldable pub is_unreconciled : RunRows → Bool
  is_unreconciled r = is_active r.run.status && not (env.locked r.run.id)

  unfoldable pub reconcile_restore_quarantine : ℕ → Act World ℕ
  unfolding by_creation restore_held
  reconcile_restore_quarantine batch_size = do
    require_system_authority env
    raise_if (leb batch_size 0 || ltb 1000 batch_size) value_error
    state ← execution_state env
    raise_if (not state.dispatch_quarantined) (execution_error invalid_transition)
    now ← durable_now env
    picked ← gets (λ w. select_rows is_unreconciled by_creation batch_size w.db.rows)
    for_each is_unreconciled picked (restore_held now)
    pure (length picked)

  unfoldable pub clear_restore_quarantine : Act World ℕ
  clear_restore_quarantine = do
    require_system_authority env
    state ← execution_state env
    unreconciled ← gets (λ w. any (λ r. is_active r.run.status) w.db.rows)
    raise_if (not state.dispatch_quarantined || unreconciled) (execution_error invalid_transition)
    now ← durable_now env
    put_state (record state { dispatch_quarantined = false; updated_at = now })
    pure state.execution_epoch
