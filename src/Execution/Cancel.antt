-- ===== src/Execution/Cancel.antt =====
-- execution/service.py: `cancel_run`.
pub mod Preserves
pub mod Outcome
use modall.Common.{
  ℕ, Bool, true, false, Option, none, some, if◌then◌else◌, leb, ◌==◌, ◌&&◌, execution_error, find,
  invalid_transition, Act, pure, raise, or_raise, gets, modify, ◌>>=◌, ◌>>◌,
}
use modall.Audit.{AuditAction, ResourceType}
use modall.Identity.{WorkspaceContext, can_operate}
use modall.Execution.Types.{
  RunStatus, RunEventType, cancelled, is_terminal, same_status, dispatch_fenced, deadline_exceeded,
  cancelled_before_dispatch,
}
use modall.Execution.Rows.{Run, RunRows}
use modall.Execution.Ledger.{append_next_event, terminalize_run}
use modall.Execution.World.{
  World, Held, Env, held_now, uuid4, add_audit, require_current_role, lock,
}
use modall.Execution.Lease.{on_rows, deadline_status}

-- the run that `_locked_run` selects
abbrev pub is_run : ℕ → ℕ → RunRows → Bool
is_run workspace_id run_id r = r.run.id == run_id && r.run.workspace_id == workspace_id

-- a cancellation before the deadline
cancel_in_time : ℕ → RunStatus → Act RunRows Unit
cancel_in_time now dispatch_fenced = do
  modify (λ r. record r { run = record r.run { updated_at = now } })
  modify (append_next_event RunEventType.cancel_requested dispatch_fenced none now)
cancel_in_time now _ =
    terminalize_run cancelled now cancelled_before_dispatch RunEventType.cancel_requested

request_cancel : ℕ → Act RunRows Unit
unfolding cancel_in_time
request_cancel now = do
  modify (λ r. record r { run = record r.run { cancellation_requested = true } })
  r ← gets (λ r. r)
  if leb r.run.deadline now
      then terminalize_run (deadline_status r.run.status) now deadline_exceeded
          RunEventType.terminal
      else cancel_in_time now r.run.status

module _ (env : Env) where
  apply_cancel : Act Held Unit
  unfolding request_cancel
  apply_cancel = do now ← held_now env; on_rows (request_cancel now)

  -- the run, and whether this call changed it
  unfoldable pub cancel_held : Act Held (Run × Bool)
  unfolding apply_cancel
  cancel_held = do
    run ← gets (λ h. h.rows.run)
    if is_terminal run.status
        then pure (run, false)
        else (apply_cancel >> gets (λ h. (h.rows.run, true)))

  cancel_action : RunStatus → AuditAction
  cancel_action status =
      if same_status status cancelled
      then AuditAction.run_cancelled
      else AuditAction.run_cancellation_requested

  correlation : Option ℕ → Act World ℕ
  correlation none = uuid4 env
  correlation (some id) = pure id

  unfoldable pub audit_cancel : WorkspaceContext → Option ℕ → Run → Bool → Act World Run
  unfolding correlation cancel_action
  audit_cancel context correlation_id run false = pure run
  audit_cancel context correlation_id run true = do
    trace ← correlation correlation_id
    add_audit (record {
      workspace_id = context.workspace_id;
      actor_user_id = context.actor_user_id;
      action = cancel_action run.status;
      resource_type = ResourceType.run;
      resource_id = run.id;
      correlation_id = trace;
    })
    pure run

  unfoldable pub cancel_run : WorkspaceContext → ℕ → Option ℕ → Act World Run
  unfolding audit_cancel
  cancel_run context run_id correlation_id = do
    require_current_role context can_operate false
    found ← gets (λ w. find (is_run context.workspace_id run_id) w.db.rows)
    _ ← or_raise found (execution_error invalid_transition)
    require_current_role context can_operate true
    done ←
        lock (is_run context.workspace_id run_id) (raise (execution_error invalid_transition))
          cancel_held
    audit_cancel context correlation_id done.0 done.1
