-- ===== src/Execution/Evolution/Calls.antt =====
-- The calls of execution/service.py against the specification of the ledger.
use modall.Common.{
  raise, execution_error, ExecutionFailureCode, Option, ℕ, List, String, ◌≡◌, true, Bool, ◌∷◌, some,
  arith, false, none, [], find,
}
use modall.Execution.World.{Env, SystemExecutionState, lock, for_each, selected, held_now, Held}
use modall.Execution.Lease.{
  fence_session, fence_attempt, is_leased_job, fence_held, complete_lease, fence_dispatch,
  heartbeat, heartbeat_held, complete_held,
}
use modall.Execution.Types.{
  JobLease, RunStatus, RunEventType, RunFailureCode, AcceptedToolResult, succeeded,
}
use modall.Execution.Evolution.Rules.{
  Evolving, evolving_rules, Evolving-lock, Evolving-raise, Evolving-for_each, Evolving-pure,
  Evolving-bind, Evolving-gets, Evolving-seq, Evolving-require_current_role, Evolving-if,
  Evolving-raise_if, Evolving-or_raise,
}
use modall.Execution.Lease.Fences.{
  session, Fence, fence_held-Advanced, tool_call, heartbeat_held-Advanced,
}
use modall.Registry.Rows.{Tables}
use modall.Execution.Claim.{
  terminalize_abandoned_dispatches, terminalize_expired_jobs, is_abandoned, is_expired,
  abandon_held, expire_held, is_next, claim_job, claim_next, is_claimable,
}
use modall.Execution.Restore.{
  enter_restore_quarantine, reconcile_restore_quarantine, clear_restore_quarantine, is_unreconciled,
  restore_held,
}
use modall.Execution.Retention.{
  expire_retained_content, expire_retained_results, content_due, results_due, drop_result,
  content_held,
}
use modall.Execution.Cancel.{is_run, cancel_held, cancel_run, audit_cancel}
use modall.Execution.Rows.{RunRows, Run}
use modall.Execution.Lease.Completion.{complete_held-Advanced}
use modall.Execution.Cancel.Preserves.{cancel_held-Advanced}
use modall.Execution.Claim.Reconcile.{
  expire_held-Advanced, abandon_held-Advanced, claim_held-Advanced,
}
use modall.Execution.Restore.Preserves.{restore_held-Advanced}
use modall.Execution.Retention.Preserves.{content_held-Advanced, drop_result-Advanced}
use modall.Identity.{WorkspaceContext, can_operate}
use modall.Execution.Ledger.Invariant.{IsConsistent}
use modall.Execution.Success.{
  ResultScreen, store_held, complete_invocation_success, finish_success, store_at,
}
use modall.Execution.Ledger.Advance.{Advanced}
use modall.Execution.Ledger.Notes.{stored-Advanced}

module _ (env : Env) where
  fence_lock-Evolving :
      (lease : JobLease) (expected target : RunStatus) (event_type : RunEventType)
      → Fence expected target event_type
      → (state : SystemExecutionState) (tables : Tables)
      → Evolving (
          lock
            (is_leased_job lease)
            (raise (execution_error ExecutionFailureCode.lease_lost))
            (fence_held env state tables lease expected target event_type))
  fence_lock-Evolving lease expected target event_type fence state tables =
      Evolving-lock _ _ _
        (λ h c _. fence_held-Advanced env state tables lease expected target event_type h c fence)
        (Evolving-raise _)

  fence_attempt-Evolving :
      (lease : JobLease) (expected target : RunStatus) (event_type : RunEventType)
      → Fence expected target event_type
      → Evolving (fence_attempt env lease expected target event_type)
  unfolding fence_attempt
  fence_attempt-Evolving lease expected target event_type fence =
      search (evolving_rules, fence_lock-Evolving lease expected target event_type fence)

  pub fence_session-Evolving : (lease : JobLease) → Evolving (fence_session env lease)
  unfolding fence_session
  fence_session-Evolving lease = fence_attempt-Evolving lease _ _ _ session

  pub fence_dispatch-Evolving : (lease : JobLease) → Evolving (fence_dispatch env lease)
  unfolding fence_dispatch
  fence_dispatch-Evolving lease = fence_attempt-Evolving lease _ _ _ tool_call

  heartbeat_lock-Evolving :
      (lease : JobLease) (duration : ℕ) (state : SystemExecutionState)
      → Evolving (
          lock
            (is_leased_job lease)
            (raise (execution_error ExecutionFailureCode.lease_lost))
            (heartbeat_held env state lease duration))
  heartbeat_lock-Evolving lease duration state =
      Evolving-lock _ _ _ (λ h c _. heartbeat_held-Advanced env state lease duration h c)
        (Evolving-raise _)

  pub heartbeat-Evolving :
      (lease : JobLease) (duration : ℕ) → Evolving (heartbeat env lease duration)
  unfolding heartbeat
  heartbeat-Evolving lease duration =
      search (evolving_rules, heartbeat_lock-Evolving lease duration)

  complete_lock-Evolving :
      (lease : JobLease) (status : RunStatus) (code : Option RunFailureCode)
      (state : SystemExecutionState)
      → Evolving (
          lock
            (is_leased_job lease)
            (raise (execution_error ExecutionFailureCode.lease_lost))
            (complete_held env state lease status code))
  complete_lock-Evolving lease status code state =
      Evolving-lock _ _ _ (λ h c _. complete_held-Advanced env state lease status code h c)
        (Evolving-raise _)

  pub complete_lease-Evolving :
      (lease : JobLease) (status : RunStatus) (code : Option RunFailureCode)
      → Evolving (complete_lease env lease status code)
  unfolding complete_lease
  complete_lease-Evolving lease status code =
      search (evolving_rules, complete_lock-Evolving lease status code)

  cancel_lock-Evolving :
      (workspace_id run_id : ℕ)
      → Evolving (
          lock
            (is_run workspace_id run_id)
            (raise (execution_error ExecutionFailureCode.invalid_transition))
            (cancel_held env))
  cancel_lock-Evolving workspace_id run_id =
      Evolving-lock _ _ _ (λ h c _. cancel_held-Advanced env h c) (Evolving-raise _)

  pub enter_restore_quarantine-Evolving : Evolving (enter_restore_quarantine env)
  unfolding enter_restore_quarantine
  enter_restore_quarantine-Evolving = search evolving_rules

  restore_loop-Evolving :
      (now : ℕ) (picked : List RunRows)
      → Evolving (for_each (is_unreconciled env) picked (restore_held now))
  restore_loop-Evolving now = Evolving-for_each _ _ (restore_held-Advanced env now)

  pub reconcile_restore_quarantine-Evolving :
      (batch_size : ℕ) → Evolving (reconcile_restore_quarantine env batch_size)
  unfolding reconcile_restore_quarantine
  reconcile_restore_quarantine-Evolving batch_size =
      search (evolving_rules, restore_loop-Evolving) depth 12

  pub clear_restore_quarantine-Evolving : Evolving (clear_restore_quarantine env)
  unfolding clear_restore_quarantine
  clear_restore_quarantine-Evolving = search evolving_rules depth 12

  content_loop-Evolving :
      (now : ℕ) (picked : List RunRows)
      → Evolving (for_each (content_due env now) picked (content_held now))
  content_loop-Evolving now = Evolving-for_each _ _ (λ h c _. content_held-Advanced now h c)

  pub expire_retained_content-Evolving :
      (batch_size : ℕ) → Evolving (expire_retained_content env batch_size)
  unfolding expire_retained_content
  expire_retained_content-Evolving batch_size = search (evolving_rules, content_loop-Evolving)

  results_loop-Evolving :
      (now : ℕ) (picked : List RunRows)
      → Evolving (for_each (results_due env now) picked drop_result)
  results_loop-Evolving now = Evolving-for_each _ _ (λ h c _. drop_result-Advanced h c)

  pub expire_retained_results-Evolving :
      (batch_size : ℕ) → Evolving (expire_retained_results env batch_size)
  unfolding expire_retained_results
  expire_retained_results-Evolving batch_size = search (evolving_rules, results_loop-Evolving)

  expired_loop-Evolving :
      (now : ℕ) (picked : List RunRows)
      → Evolving (for_each (is_expired env now) picked (expire_held env now))
  expired_loop-Evolving now = Evolving-for_each _ _ (expire_held-Advanced env now)

  pub terminalize_expired_jobs-Evolving : (now : ℕ) → Evolving (terminalize_expired_jobs env now)
  unfolding terminalize_expired_jobs
  terminalize_expired_jobs-Evolving now = search (evolving_rules, expired_loop-Evolving)

  abandoned_loop-Evolving :
      (now : ℕ) (picked : List RunRows)
      → Evolving (for_each (is_abandoned env now) picked (abandon_held env now))
  abandoned_loop-Evolving now = Evolving-for_each _ _ (abandon_held-Advanced env now)

  pub terminalize_abandoned_dispatches-Evolving :
      (now : ℕ) → Evolving (terminalize_abandoned_dispatches env now)
  unfolding terminalize_abandoned_dispatches
  terminalize_abandoned_dispatches-Evolving now = search (evolving_rules, abandoned_loop-Evolving)

  audit_cancel-Evolving :
      (context : WorkspaceContext) (correlation_id : Option ℕ) (run : Run) (changed : Bool)
      → Evolving (audit_cancel env context correlation_id run changed)
  unfolding audit_cancel
  audit_cancel-Evolving context correlation_id run false = Evolving-pure run
  audit_cancel-Evolving context none run true = search evolving_rules
  audit_cancel-Evolving context (some id) run true = search evolving_rules

  pub cancel_run-Evolving :
      (context : WorkspaceContext) (run_id : ℕ) (correlation_id : Option ℕ)
      → Evolving (cancel_run env context run_id correlation_id)
  unfolding cancel_run
  cancel_run-Evolving context run_id correlation_id =
      Evolving-seq _ _ (Evolving-require_current_role context can_operate false) (
        Evolving-bind {A = Option RunRows} _ _
          (Evolving-gets (λ x. find (is_run context.workspace_id run_id) x.db.rows))
          λ found.
            Evolving-bind _ _
              (Evolving-or_raise found (execution_error ExecutionFailureCode.invalid_transition))
              λ _. Evolving-seq _ _ (Evolving-require_current_role context can_operate true) (
                Evolving-bind _ _ (cancel_lock-Evolving context.workspace_id run_id)
                  λ done. audit_cancel-Evolving context correlation_id done.0 done.1))

  next-claimable :
      (epoch now : ℕ) (p r : RunRows)
      → selected (is_next env epoch now) p r ≡ true
      → is_claimable r.run.status ≡ true
  unfolding is_next
  next-claimable epoch now p r e = ground arith

  claim_next-Evolving :
      (worker_id : String) (lease_duration epoch now : ℕ) (picked : List RunRows)
      → Evolving (claim_next env worker_id lease_duration epoch now picked)
  unfolding claim_next
  claim_next-Evolving worker_id lease_duration epoch now [] = Evolving-pure _
  claim_next-Evolving worker_id lease_duration epoch now (p ∷ _) =
      Evolving-bind _ _ (Evolving-gets _) λ tables.
        Evolving-lock _ _ _
          (λ h c e.
            claim_held-Advanced env tables worker_id lease_duration h c
              (next-claimable epoch now p h.rows e))
          (Evolving-pure _)

  pub claim_job-Evolving :
      (worker_id : String) (lease_duration : ℕ) → Evolving (claim_job env worker_id lease_duration)
  unfolding claim_job
  claim_job-Evolving worker_id lease_duration =
      search
        (
          evolving_rules, terminalize_expired_jobs-Evolving,
          terminalize_abandoned_dispatches-Evolving, claim_next-Evolving,
        )
        depth 16

module _ (screen : ResultScreen) (env : Env) where
  store_at-Advanced :
      (x : AcceptedToolResult) (t : Option ℕ) (h : Held)
      → IsConsistent h.rows
      → Advanced h.rows (store_at screen env x t h).1.rows
  unfolding store_at held_now
  store_at-Advanced x none h c = stored-Advanced h.rows _ c
  store_at-Advanced x (some t) h c = stored-Advanced h.rows _ c

  store_held-Advanced :
      (x : AcceptedToolResult) (h : Held)
      → IsConsistent h.rows
      → Advanced h.rows (store_held screen env x h).1.rows
  unfolding store_held
  store_held-Advanced x h c = store_at-Advanced x h.rows.run.terminal_at h c

  finish_success-Evolving :
      (x : AcceptedToolResult) (run : Run) → Evolving (finish_success screen env x run)
  unfolding finish_success
  finish_success-Evolving x run =
      Evolving-if _ _ _
        (Evolving-seq _ _
          (Evolving-lock _ _ _ (λ h c _. store_held-Advanced x h c) (Evolving-raise _))
          (Evolving-pure run))
        (Evolving-pure run)

  pub complete_invocation_success-Evolving :
      (lease : JobLease) (x : AcceptedToolResult)
      → Evolving (complete_invocation_success screen env lease x)
  unfolding complete_invocation_success
  complete_invocation_success-Evolving lease x = Evolving-seq _ _ (Evolving-raise_if _ _) (
      Evolving-bind _ _ (complete_lease-Evolving env lease succeeded none)
        (finish_success-Evolving x))
