-- ===== src/Execution/Service/Quarantine.antt =====
-- The restore quarantine: what it stops, and when it can be cleared.
use modall.Execution.Claim
use modall.Execution.Restore
use modall.Execution.Lease
use modall.Execution.Service.{perform, Call}
use modall.Execution.World.{
  durable_now, Env, SystemExecutionState, World, require_system_authority, put_state,
}
use modall.Common.{
  String, ℕ, ◌≡◌, some, true, All, false, ok, ◌⊎◌, err, execution_error, invalid_transition, ◌+◌,
  any_iff, pure, arith, Bool-cases, inr, inl, any, sym, ◌∙◌, List,
}
use modall.Execution.Types.{JobLease, is_active}
use modall.Execution.Success.{ResultScreen}
use mathlib.Core.Bool.{false≢true}
use modall.Execution.Rows.{RunRows}
use modall.Execution.Service.Refusal.{execution_state-some, Refuses, Refuses-first}
use modall.Execution.Service.Stale.{fence_attempt-stale, heartbeat-stale}

-- the calls that could start or continue a dispatch
pub data Dispatches : Call → Type 0 where
  by_claim : {worker : String} {d : ℕ} → Dispatches (Call.claim_job worker d)
  by_session : {lease : JobLease} → Dispatches (Call.fence_session lease)
  by_dispatch : {lease : JobLease} → Dispatches (Call.fence_dispatch lease)
  by_renewal : {lease : JobLease} {d : ℕ} → Dispatches (Call.heartbeat lease d)

claim_job-quarantined :
    (env : Env) (state : SystemExecutionState) (w : World) (worker : String) (d : ℕ)
    → w.db.state ≡ some state
    → state.dispatch_quarantined ≡ true
    → Refuses (Claim.claim_job env worker d) w
unfolding Claim.claim_job durable_now
claim_job-quarantined env state w worker d known q =
    let found = execution_state-some env state (record w { reads = w.reads + 1 }) known in
    record { raises = ground arith; unchanged = ground arith }

-- In the restore quarantine, no job is claimed, no fence is passed and no lease is renewed: each of
-- these calls raises and leaves the database as it was.
pub perform-quarantined :
    (screen : ResultScreen) (env : Env) (state : SystemExecutionState) (w : World) (call : Call)
    → w.db.state ≡ some state
    → state.dispatch_quarantined ≡ true
    → Dispatches call
    → Refuses (perform screen env call) w
unfolding perform Lease.fence_session Lease.fence_dispatch
perform-quarantined screen env state w _ known q (by_claim {worker} {d}) =
    Refuses-first (Claim.claim_job env worker d) (λ _. pure tt) w
      (claim_job-quarantined env state w worker d known q)
perform-quarantined screen env state w _ known q (by_session {lease}) =
    Refuses-first (Lease.fence_session env lease) (λ _. pure tt) w
      (fence_attempt-stale env state w lease known (λ r found j e. ground arith) _ _ _)
perform-quarantined screen env state w _ known q (by_dispatch {lease}) =
    Refuses-first (Lease.fence_dispatch env lease) (λ _. pure tt) w
      (fence_attempt-stale env state w lease known (λ r found j e. ground arith) _ _ _)
perform-quarantined screen env state w _ known q (by_renewal {lease} {d}) =
    Refuses-first (Lease.heartbeat env lease d) (λ _. pure tt) w
      (heartbeat-stale env state w lease known (λ r found j e. ground arith) d)

-- no run is active
abbrev pub Idle : List RunRows → Type 0
Idle = All (λ r. is_active r.run.status ≡ false)

-- `clear_restore_quarantine`, given the authority, clears a quarantine exactly if no run is active: it
-- returns the execution epoch then, and raises `invalid_transition` with the database unchanged
-- otherwise.
pub clear_restore_quarantine-decides :
    (env : Env) (state : SystemExecutionState) (w : World)
    → w.db.state ≡ some state
    → env.system_authority ≡ true
    → ((state.dispatch_quarantined ≡ true)
        × Idle w.db.rows
        × ((Restore.clear_restore_quarantine env w).0 ≡ ok state.execution_epoch)
        × ((Restore.clear_restore_quarantine env w).1.db ≡ record w.db {
          state =
              some (record state { dispatch_quarantined = false; updated_at = env.clock w.reads });
        }))
      ⊎ (((state.dispatch_quarantined ≡ false) ⊎ ¬ Idle w.db.rows)
          × (Restore.clear_restore_quarantine env w
              ≡ (err (execution_error invalid_transition), w)))
unfolding Restore.clear_restore_quarantine require_system_authority durable_now put_state
clear_restore_quarantine-decides env state w known authority =
    let found = execution_state-some env state w known in
    let none_active = any_iff (λ r. is_active r.run.status) w.db.rows in
    elim (Bool-cases state.dispatch_quarantined) [
      | inr lifted ↦ inr (inl lifted, ground arith)
      | inl q ↦ elim (Bool-cases (any (λ r. is_active r.run.status) w.db.rows)) [
        | inl busy ↦
            inr (inr (λ idle. absurd (false≢true (sym (none_active.1 idle) ∙ busy))), ground arith)
        | inr idle ↦ inl (q, none_active.0 idle, ground arith, ground arith)
      ]
    ]
