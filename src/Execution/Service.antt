-- ===== src/Execution/Service.antt =====
-- The calls of the execution service as requests, each in a transaction of its own
-- (`transaction` of persistence/database.py), and histories of such transactions.
pub mod History
pub mod Refusal
pub mod Stale
pub mod Revocation
pub mod Quarantine
pub mod Restoration
pub mod Withdrawal
use modall.Execution.Claim
use modall.Execution.Lease
use modall.Execution.Success
use modall.Execution.Cancel
use modall.Execution.Restore
use modall.Execution.Retention
use modall.Common.{ℕ, String, Act, List, ok, err, ◌>>=◌, ◌∷◌, Option, [], pure}
use modall.Execution.World.{World, Env}
use modall.Execution.Success.{ResultScreen}
use modall.Execution.Types.{JobLease, RunStatus, RunFailureCode, AcceptedToolResult}
use modall.Identity.{WorkspaceContext}

-- SQLAlchemy's `session.begin()`: commit all writes together, or roll everything back; clock
-- readings are not taken back
unfoldable pub transaction : {A : Type 0} → Act World A → Act World A
transaction m w =
    let (r, w') = m w in elim r [ ok a ↦ (ok a, w') | err e ↦ (err e, record w' { db = w.db }) ]

-- the public methods of `ExecutionService` that work on admitted runs, with their arguments
pub data Call : Type 0 where
  claim_job : String → ℕ → Call
  fence_session fence_dispatch : JobLease → Call
  heartbeat : JobLease → ℕ → Call
  complete_lease : JobLease → RunStatus → Option RunFailureCode → Call
  complete_invocation_success : JobLease → AcceptedToolResult → Call
  cancel_run : WorkspaceContext → ℕ → Option ℕ → Call
  enter_restore_quarantine clear_restore_quarantine : Call
  reconcile_restore_quarantine : ℕ → Call
  expire_retained_content delete_expired_run_metadata expire_retained_results : ℕ → Call

module _ (screen : ResultScreen) (env : Env) where
  unfoldable pub perform : Call → Act World Unit
  perform (Call.claim_job worker duration) = do _ ← Claim.claim_job env worker duration; pure tt
  perform (Call.fence_session lease) = do _ ← Lease.fence_session env lease; pure tt
  perform (Call.fence_dispatch lease) = do _ ← Lease.fence_dispatch env lease; pure tt
  perform (Call.heartbeat lease duration) = do _ ← Lease.heartbeat env lease duration; pure tt
  perform (Call.complete_lease lease status code) = do
    _ ← Lease.complete_lease env lease status code
    pure tt
  perform (Call.complete_invocation_success lease result) = do
    _ ← Success.complete_invocation_success screen env lease result
    pure tt
  perform (Call.cancel_run context run correlation) = do
    _ ← Cancel.cancel_run env context run correlation
    pure tt
  perform Call.enter_restore_quarantine = do _ ← Restore.enter_restore_quarantine env; pure tt
  perform Call.clear_restore_quarantine = do _ ← Restore.clear_restore_quarantine env; pure tt
  perform (Call.reconcile_restore_quarantine n) = do
    _ ← Restore.reconcile_restore_quarantine env n
    pure tt
  perform (Call.expire_retained_content n) = do _ ← Retention.expire_retained_content env n; pure tt
  perform (Call.delete_expired_run_metadata n) = do
    _ ← Retention.delete_expired_run_metadata env n
    pure tt
  perform (Call.expire_retained_results n) = do _ ← Retention.expire_retained_results env n; pure tt

-- one transaction of some process: its environment, its screening and its call
pub record Request : Type 0 where
  pub screen : ResultScreen
  pub env : Env
  pub call : Call

-- the ledger after a sequence of transactions, failed ones included
unfoldable pub serve : World → List Request → World
serve w [] = w
serve w (q ∷ rest) = serve (transaction (perform q.screen q.env q.call) w).1 rest
