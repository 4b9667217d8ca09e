-- ===== src/Execution/Claim/Reconcile.antt =====
-- execution/service.py: the loops of `claim_job` over expired and abandoned jobs, and the claim
-- itself, against the specification of the ledger.
use modall.Common.{
  ℕ, ◌≡◌, String, some, true, ◌||◌, false, ok, arith, refl, inl, inr, ◌+◌, Bool-cases, leb, sym,
}
use modall.Execution.Claim.{
  is_expired, expire_held, abandon_held, is_abandoned, is_claimable, claim_held, decide_claim,
  end_claim, claim_with_job, grant_claim, claim_target_is_current,
}
use modall.Execution.Lease.{on_rows}
use modall.Execution.World.{Env, Held, held_now}
use modall.Execution.Rows.{RunRows, Job}
use modall.Execution.Ledger.Invariant.{IsConsistent, is_dispatch, job_of, JobAgrees, HasJob}
use modall.Execution.Types.{
  RunStatus, RunFailureCode, RunEventType, is_terminal, is_job_queued, indeterminate, timed_out,
  is_leased, deadline_exceeded, failed, preparation_failed, same_status, dispatch_fenced,
}
use modall.Registry.Rows.{Tables}
use modall.Execution.Ledger.Advance.{Advanced}
use modall.Execution.Lease.Completion.{deadline_status-ends}
use modall.Execution.Ledger.Terminalize.{ends, HasJob-some, terminalize_run-Advanced}
use modall.Execution.Ledger.{terminalize_run}
use mathlib.Core.Path.{subst}
use modall.Execution.Claim.Grant.{claim_rows-Advanced}
use modall.Execution.Lease.Fences.{same_status-eq}

-- ending a run inside a lock
pub ended_held-Advanced :
    (status : RunStatus) (now : ℕ) (code : RunFailureCode) (event_type : RunEventType) (h : Held)
    → IsConsistent h.rows
    → is_dispatch event_type ≡ false
    → ends h.rows.run.status status ≡ true
    → ((on_rows (terminalize_run status now code event_type) h).0 ≡ ok tt)
      × Advanced h.rows (on_rows (terminalize_run status now code event_type) h).1.rows
unfolding on_rows
ended_held-Advanced status now code event_type h c quiet e =
    terminalize_run-Advanced status now code event_type h.rows c quiet e

running_of_job :
    (r : RunRows) (j : Job)
    → IsConsistent r
    → r.job ≡ some j
    → is_job_queued j.status || is_leased j.status ≡ true
    → is_terminal r.run.status ≡ false
running_of_job r j h e p =
    let agrees : JobAgrees r.run j = subst (HasJob r.run) e h.has_job in
    waiting r.run.status (rw (← agrees.status_agrees) p)
  where
    waiting :
        (s : RunStatus)
        → is_job_queued (job_of s) || is_leased (job_of s) ≡ true
        → is_terminal s ≡ false
    waiting s q = ground arith

-- an expired job belongs to a run that has not ended
expired-running :
    (env : Env) (now : ℕ) (r : RunRows)
    → IsConsistent r
    → is_expired env now r ≡ true
    → is_terminal r.run.status ≡ false
unfolding is_expired
expired-running env now r h p =
    let (j, e) = HasJob-some r h.has_job in running_of_job r j h e (ground arith)

pub expire_held-Advanced :
    (env : Env) (now : ℕ) (h : Held)
    → IsConsistent h.rows
    → is_expired env now h.rows ≡ true
    → Advanced h.rows (expire_held env now h).1.rows
unfolding expire_held
expire_held-Advanced env now h c p =
    (ended_held-Advanced _ now _ _ h c refl
      (deadline_status-ends _ (expired-running env now h.rows c p))).1

abandoned-ends :
    (env : Env) (now : ℕ) (r : RunRows)
    → is_abandoned env now r ≡ true
    → ends r.run.status indeterminate ≡ true
unfolding is_abandoned
abandoned-ends env now r p =
    let found : same_status r.run.status dispatch_fenced ≡ true = ground arith in
    rw (same_status-eq _ _ found)

pub abandon_held-Advanced :
    (env : Env) (now : ℕ) (h : Held)
    → IsConsistent h.rows
    → is_abandoned env now h.rows ≡ true
    → Advanced h.rows (abandon_held env now h).1.rows
unfolding abandon_held
abandon_held-Advanced env now h c p =
    (ended_held-Advanced indeterminate now _ _ h c refl (abandoned-ends env now h.rows p)).1

module _ (status : RunStatus) (now : ℕ) (code : RunFailureCode) (j : Job) where
  end_claim-Advanced :
      (h : Held)
      → IsConsistent h.rows
      → ends h.rows.run.status status ≡ true
      → Advanced h.rows (end_claim status now code j h).1.rows
  unfolding end_claim on_rows terminalize_run
  end_claim-Advanced h c e =
      let t = terminalize_run-Advanced status now code RunEventType.terminal h.rows c refl e in
      rw t.0 t.1

claimable_times_out : (s : RunStatus) → is_claimable s ≡ true → ends s timed_out ≡ true
claimable_times_out s p = ground arith

claimable_fails : (s : RunStatus) → is_claimable s ≡ true → ends s failed ≡ true
claimable_fails s p = ground arith

module _ (env : Env) (tables : Tables) (worker_id : String) (lease_duration : ℕ) where
  decide_claim-Advanced :
      (now : ℕ) (j : Job) (h : Held)
      → IsConsistent h.rows
      → h.rows.job ≡ some j
      → is_claimable h.rows.run.status ≡ true
      → Advanced h.rows (decide_claim tables worker_id lease_duration now j h).1.rows
  unfolding decide_claim grant_claim
  decide_claim-Advanced now j h c e claimable = elim (Bool-cases (leb j.deadline now)) [
    | inl late ↦
        rw late (
          end_claim-Advanced timed_out now deadline_exceeded j h c
            (claimable_times_out _ claimable))
    | inr early ↦ rw early (elim (Bool-cases (claim_target_is_current tables h.rows.run)) [
      | inl current ↦
          rw current (claim_rows-Advanced worker_id lease_duration now j h.rows c e claimable)
      | inr stale ↦
          rw stale
            (end_claim-Advanced failed now preparation_failed j h c (claimable_fails _ claimable))
    ])
  ]

  claim_with_job-Advanced :
      (j : Job) (h : Held)
      → IsConsistent h.rows
      → h.rows.job ≡ some j
      → is_claimable h.rows.run.status ≡ true
      → Advanced h.rows (claim_with_job env tables worker_id lease_duration (some j) h).1.rows
  unfolding claim_with_job held_now
  claim_with_job-Advanced j h c e claimable =
      let now = env.clock h.reads in
      let later : Held = record { rows = h.rows; reads = h.reads + 1 } in
      let last : Held = record { rows = h.rows; reads = h.reads + 1 + 1 } in
      elim (Bool-cases (leb j.deadline now)) [
        | inl late ↦ rw late (
            end_claim-Advanced timed_out now deadline_exceeded j later c
              (claimable_times_out _ claimable))
        | inr early ↦
            rw early (decide_claim-Advanced (env.clock (h.reads + 1)) j last c e claimable)
      ]

  pub claim_held-Advanced :
      (h : Held)
      → IsConsistent h.rows
      → is_claimable h.rows.run.status ≡ true
      → Advanced h.rows (claim_held env tables worker_id lease_duration h).1.rows
  unfolding claim_held
  claim_held-Advanced h c claimable =
      let (j, e) = HasJob-some h.rows c.has_job in
      subst
        (λ job. Advanced h.rows (claim_with_job env tables worker_id lease_duration job h).1.rows)
        (sym e) (claim_with_job-Advanced j h c e claimable)
