-- ===== src/Execution/Service/History.antt =====
-- What holds of the ledger after every history of transactions.
use modall.Execution.Retention
use modall.Common.{
  Act, List, Result, ok, err, ◌∷◌, [], All, ◌≡◌, arith, ◌≤◌, ℕ, All-map, ◌>>=◌, pure, refl, sym,
}
use modall.Execution.Service.{serve, perform, transaction, Call, Request}
use modall.Execution.World.{World, Env}
use modall.Execution.Success.{ResultScreen}
use modall.Execution.Evolution.Rules.{Evolving, Evolving-bind, Evolving-pure}
use modall.Execution.Evolution.{
  Consistent, Evolves, Evolves-refl, Evolves-Consistent, Prunes, Prunes-Consistent, Prunes-refl,
}
use modall.Execution.Evolution.Calls.{
  claim_job-Evolving, fence_session-Evolving, fence_dispatch-Evolving, heartbeat-Evolving,
  complete_lease-Evolving, complete_invocation_success-Evolving, cancel_run-Evolving,
  enter_restore_quarantine-Evolving, clear_restore_quarantine-Evolving,
  reconcile_restore_quarantine-Evolving, expire_retained_content-Evolving,
  expire_retained_results-Evolving,
}
use modall.Execution.Projection.{replay_projection}
use modall.Execution.Ledger.Invariant.{Dispatched, dispatches}
use modall.Execution.Types.{RunStatus}
use modall.Execution.Projection.Replay.{replay_projection-status}
use modall.Execution.Rows.{RunRows}
use modall.Execution.Evolution.Deletion.{Retired, delete_expired_run_metadata-Prunes}
use mathlib.Core.Path.{subst}

-- what a transaction with this call may do to the ledger: the metadata retention deletes runs that
-- ended long enough ago, and every other call keeps and advances every run
abbrev pub Allowed : Env → Call → ℕ → List RunRows → List RunRows → Type 0
Allowed env (Call.delete_expired_run_metadata n) now = Prunes (Retired env now)
Allowed env _ now = Evolves

abbrev pub next : Request → World → World
next q w = (transaction (perform q.screen q.env q.call) w).1

-- each transaction of a history does what it is allowed to
abbrev pub Steps : World → List Request → Type 0
Steps w [] = Unit
Steps w (q ∷ rest) =
    Allowed q.env q.call (q.env.clock w.reads) w.db.rows (next q w).db.rows × Steps (next q w) rest

settled :
    {A : Type 0} (P : List RunRows → List RunRows → Type 0) (m : Act World A) (w : World)
    → P w.db.rows w.db.rows
    → P w.db.rows (m w).1.db.rows
    → P w.db.rows (transaction m w).1.db.rows
unfolding transaction
settled {A} P m w same done = settle (m w).0 (m w).1 done
  where
    settle :
        (r : Result A) (w' : World)
        → P w.db.rows w'.db.rows
        → P w.db.rows (transaction (λ _. (r, w')) w).1.db.rows
    settle (ok a) w' e = e
    settle (err x) w' e = same

advanced :
    (m : Act World Unit)
    → Evolving m
    → (w : World) → Consistent w.db.rows
    → Evolves w.db.rows (transaction m w).1.db.rows
advanced m km w h = settled Evolves m w (Evolves-refl w.db.rows h) (km.at w h)

module _ (w : World) where
  returned : {A : Type 0} (m : Act World A) → ((do _ ← m; pure tt) w).1.db.rows ≡ (m w).1.db.rows
  returned {A} m = go (m w).0 (m w).1
    where
      go :
          (r : Result A) (w' : World)
          → ((do _ ← (λ (_ : World). (r, w')); pure tt) w).1.db.rows ≡ w'.db.rows
      go (ok a) w' = refl
      go (err e) w' = refl

step-Allowed :
    (screen : ResultScreen) (env : Env) (call : Call) (w : World)
    → Consistent w.db.rows
    → Allowed env call
        (env.clock w.reads)
        w.db.rows
        (transaction (perform screen env call) w).1.db.rows
unfolding perform
step-Allowed screen env (Call.claim_job worker duration) w h =
    advanced _ (Evolving-bind _ _ (claim_job-Evolving env worker duration) (λ _. Evolving-pure tt))
      w h
step-Allowed screen env (Call.fence_session lease) w h =
    advanced _ (Evolving-bind _ _ (fence_session-Evolving env lease) (λ _. Evolving-pure tt)) w h
step-Allowed screen env (Call.fence_dispatch lease) w h =
    advanced _ (Evolving-bind _ _ (fence_dispatch-Evolving env lease) (λ _. Evolving-pure tt)) w h
step-Allowed screen env (Call.heartbeat lease duration) w h =
    advanced _ (Evolving-bind _ _ (heartbeat-Evolving env lease duration) (λ _. Evolving-pure tt)) w
      h
step-Allowed screen env (Call.complete_lease lease status code) w h =
    advanced _
      (Evolving-bind _ _ (complete_lease-Evolving env lease status code) (λ _. Evolving-pure tt)) w
      h
step-Allowed screen env (Call.complete_invocation_success lease result) w h =
    advanced _
      (Evolving-bind _ _ (complete_invocation_success-Evolving screen env lease result)
        (λ _. Evolving-pure tt))
      w h
step-Allowed screen env (Call.cancel_run context run correlation) w h =
    advanced _
      (Evolving-bind _ _ (cancel_run-Evolving env context run correlation) (λ _. Evolving-pure tt))
      w h
step-Allowed screen env Call.enter_restore_quarantine w h =
    advanced _ (Evolving-bind _ _ (enter_restore_quarantine-Evolving env) (λ _. Evolving-pure tt)) w
      h
step-Allowed screen env Call.clear_restore_quarantine w h =
    advanced _ (Evolving-bind _ _ (clear_restore_quarantine-Evolving env) (λ _. Evolving-pure tt)) w
      h
step-Allowed screen env (Call.reconcile_restore_quarantine n) w h =
    advanced _
      (Evolving-bind _ _ (reconcile_restore_quarantine-Evolving env n) (λ _. Evolving-pure tt)) w h
step-Allowed screen env (Call.expire_retained_content n) w h =
    advanced _ (Evolving-bind _ _ (expire_retained_content-Evolving env n) (λ _. Evolving-pure tt))
      w h
step-Allowed screen env (Call.delete_expired_run_metadata n) w h =
    settled (Prunes (Retired env (env.clock w.reads))) _ w (Prunes-refl w.db.rows) (
      subst (Prunes (Retired env (env.clock w.reads)) w.db.rows)
        (sym (returned w (Retention.delete_expired_run_metadata env n)))
        (delete_expired_run_metadata-Prunes env n w h))
step-Allowed screen env (Call.expire_retained_results n) w h =
    advanced _ (Evolving-bind _ _ (expire_retained_results-Evolving env n) (λ _. Evolving-pure tt))
      w h

Allowed-Consistent :
    (env : Env) (call : Call) (now : ℕ) (rs rs' : List RunRows)
    → Consistent rs
    → Allowed env call now rs rs'
    → Consistent rs'
Allowed-Consistent env (Call.claim_job worker duration) now rs rs' h e = Evolves-Consistent e
Allowed-Consistent env (Call.fence_session lease) now rs rs' h e = Evolves-Consistent e
Allowed-Consistent env (Call.fence_dispatch lease) now rs rs' h e = Evolves-Consistent e
Allowed-Consistent env (Call.heartbeat lease duration) now rs rs' h e = Evolves-Consistent e
Allowed-Consistent env (Call.complete_lease lease status code) now rs rs' h e = Evolves-Consistent e
Allowed-Consistent env (Call.complete_invocation_success lease result) now rs rs' h e =
    Evolves-Consistent e
Allowed-Consistent env (Call.cancel_run context run correlation) now rs rs' h e =
    Evolves-Consistent e
Allowed-Consistent env Call.enter_restore_quarantine now rs rs' h e = Evolves-Consistent e
Allowed-Consistent env Call.clear_restore_quarantine now rs rs' h e = Evolves-Consistent e
Allowed-Consistent env (Call.reconcile_restore_quarantine n) now rs rs' h e = Evolves-Consistent e
Allowed-Consistent env (Call.expire_retained_content n) now rs rs' h e = Evolves-Consistent e
Allowed-Consistent env (Call.delete_expired_run_metadata n) now rs rs' h e = Prunes-Consistent e h
Allowed-Consistent env (Call.expire_retained_results n) now rs rs' h e = Evolves-Consistent e

-- From a consistent ledger, in every history of transactions, each transaction does to the ledger
-- only what its call may do: the metadata retention deletes only runs that had ended, and whose
-- retention time is over by its reading of the clock, and leaves every other run as it is; every
-- other call keeps every run, moves it along the transition diagram only, and keeps what it was
-- admitted with (its content may be erased), its past events and, once it has ended, its outcome.
pub serve-Evolves : (w : World) (requests : List Request) → Consistent w.db.rows → Steps w requests
serve-Evolves w [] h = tt
serve-Evolves w (q ∷ rest) h =
    let e = step-Allowed q.screen q.env q.call w h in
    (
      e,
      serve-Evolves (next q w) rest (Allowed-Consistent q.env q.call (q.env.clock w.reads) _ _ h e),
    )

pub serve-Consistent :
    (w : World) (requests : List Request)
    → Consistent w.db.rows
    → Consistent (serve w requests).db.rows
unfolding serve
serve-Consistent w [] h = h
serve-Consistent w (q ∷ rest) h = serve-Consistent (next q w) rest (
    Allowed-Consistent q.env q.call (q.env.clock w.reads) _ _ h
      (step-Allowed q.screen q.env q.call w h))

-- From a consistent ledger, after every history of transactions, the one permitted tool call of
-- each run has been released at most once: not at all for a run that waits, was cancelled or timed
-- out, exactly once for one that succeeded or whose outcome is unknown.
pub serve-dispatches :
    (w : World) (requests : List Request)
    → Consistent w.db.rows
    → All
        (λ r. Dispatched r.run.status (dispatches r.events) × (dispatches r.events ≤ 1))
        (serve w requests).db.rows
serve-dispatches w requests h =
    All-map (λ r c. (c.dispatched, Dispatched-le r.run.status (dispatches r.events) c.dispatched))
      (serve w requests).db.rows (serve-Consistent w requests h)
  where
    Dispatched-le : (s : RunStatus) (n : ℕ) → Dispatched s n → n ≤ 1
    Dispatched-le s n d = ground arith

-- From a consistent ledger, after every history of transactions, the projection of each run's
-- events returns the run's status.
pub serve-replay_projection :
    (w : World) (requests : List Request)
    → Consistent w.db.rows
    → All (λ r. replay_projection r.events ≡ ok r.run.status) (serve w requests).db.rows
serve-replay_projection w requests h =
    All-map replay_projection-status (serve w requests).db.rows (serve-Consistent w requests h)
