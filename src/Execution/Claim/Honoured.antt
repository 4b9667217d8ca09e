-- ===== src/Execution/Claim/Honoured.antt =====
-- execution/service.py: the lease that `claim_job` grants, and the first fence.
use modall.Common.{
  ℕ, String, List, ◌≡◌, some, ok, ◌+◌, true, leb, false, Bool-cases, inl, arith, inr, ap, refl, sym,
  ◌∙◌, min, ◌<◌,
}
use modall.Execution.Claim.{
  claim_held, claim_with_job, check_claim, decide_claim, end_claim, grant_claim, claim_rows,
  granted_lease, claim_target_is_current, grant,
}
use modall.Execution.World.{held_now, Env, Held, SystemExecutionState}
use modall.Registry.Rows.{Tables}
use modall.Execution.Rows.{Job, RunRows}
use modall.Execution.Types.{
  JobLease, ReconciledJob, RunStatus, RunFailureCode, timed_out, deadline_exceeded, failed,
  preparation_failed, JobStatus, preparing,
}
use modall.Execution.Ledger.Invariant.{IsConsistent, JobAgrees, active_attempt-Closed, HasJob}
use modall.Execution.Claim.Grant.{prepared-Ready, Ready}
use modall.Execution.Lease.Permit.{Attempts, Permit, Target-iff, target_refused-marked}
use modall.Execution.Ledger.{active_attempt, append_next_event, append_event}
use modall.Execution.Lease.{target_refused}
use mathlib.Core.Path.{subst}

end_claim-none :
    (status : RunStatus) (now : ℕ) (code : RunFailureCode) (j : Job) (h : Held) (lease : JobLease)
    (recs : List ReconciledJob)
    → (end_claim status now code j h).0 ≡ ok (some lease, recs)
    → ⊥
unfolding end_claim
end_claim-none status now code j h lease recs e = ground arith

decide_claim-granted :
    (tables : Tables) (worker : String) (d now : ℕ) (h : Held) (j : Job) (lease : JobLease)
    (recs : List ReconciledJob)
    → (decide_claim tables worker d now j h).0 ≡ ok (some lease, recs)
    → ((decide_claim tables worker d now j h).1.rows ≡ claim_rows worker d now j h.rows)
      × (lease ≡ granted_lease worker d now h.rows.run j)
      × (claim_target_is_current tables h.rows.run ≡ true)
      × (leb j.deadline now ≡ false)
unfolding decide_claim grant_claim
decide_claim-granted tables worker d now h j lease recs g = elim (Bool-cases (leb j.deadline now)) [
  | inl late ↦ absurd (end_claim-none timed_out now deadline_exceeded j h lease recs (rw late at g))
  | inr early ↦ elim (Bool-cases (claim_target_is_current tables h.rows.run)) [
    | inl current ↦
        let given = rw (early, current) at g in rw (early, current) (refl, cc, refl, refl)
    | inr lost ↦
        absurd (end_claim-none failed now preparation_failed j h lease recs (rw (early, lost) at g))
  ]
]

claim_with_job-granted :
    (env : Env) (tables : Tables) (worker : String) (d : ℕ) (h : Held) (j : Job) (lease : JobLease)
    (recs : List ReconciledJob)
    → (claim_with_job env tables worker d (some j) h).0 ≡ ok (some lease, recs)
    → ((claim_with_job env tables worker d (some j) h).1.rows
        ≡ claim_rows worker d (env.clock (h.reads + 1)) j h.rows)
      × (lease ≡ granted_lease worker d (env.clock (h.reads + 1)) h.rows.run j)
      × (claim_target_is_current tables h.rows.run ≡ true)
      × (leb j.deadline (env.clock (h.reads + 1)) ≡ false)
unfolding claim_with_job check_claim held_now
claim_with_job-granted env tables worker d h j lease recs g =
    elim (Bool-cases (leb j.deadline (env.clock h.reads))) [
      | inl late ↦ absurd (
          end_claim-none timed_out (env.clock h.reads) deadline_exceeded j
            (record h { reads = h.reads + 1 }) lease recs (rw late at g))
      | inr early ↦ rw early (
          decide_claim-granted tables worker d (env.clock (h.reads + 1))
            (record h { reads = h.reads + 1 + 1 }) j lease recs (rw early at g))
    ]

pub claim_held-granted :
    (env : Env) (tables : Tables) (worker : String) (d : ℕ) (h : Held) (j : Job) (lease : JobLease)
    (recs : List ReconciledJob)
    → h.rows.job ≡ some j
    → (claim_held env tables worker d h).0 ≡ ok (some lease, recs)
    → ((claim_held env tables worker d h).1.rows
        ≡ claim_rows worker d (env.clock (h.reads + 1)) j h.rows)
      × (lease ≡ granted_lease worker d (env.clock (h.reads + 1)) h.rows.run j)
      × (claim_target_is_current tables h.rows.run ≡ true)
      × (leb j.deadline (env.clock (h.reads + 1)) ≡ false)
unfolding claim_held
claim_held-granted env tables worker d h j lease recs e g =
    let there = ap (λ o. claim_with_job env tables worker d o h) e in
    let (rows, lease_eq, current, early) =
      claim_with_job-granted env tables worker d h j lease recs (ap (λ p. p.0) (sym there) ∙ g) in
    (ap (λ p. p.1.rows) there ∙ rows, lease_eq, current, early)

-- the job and the run after a grant
record Granted (worker : String) (d now : ℕ) (j : Job) (r r' : RunRows) : Type 0 where
  job :
      r'.job
      ≡ some (record j {
        status = JobStatus.leased;
        lease_owner = some worker;
        lease_epoch = j.lease_epoch + 1;
        lease_expires_at = some (min (now + d) j.deadline);
      })
  run : r'.run ≡ record r.run { status = preparing; updated_at = now }
  attempt : Attempts (granted_lease worker d now r.run j) preparing (active_attempt r'.attempts)

grant-Granted :
    (worker : String) (d now : ℕ) (j : Job) (r r' : RunRows)
    → Ready r r'
    → Granted worker d now j r (grant worker d now j r')
unfolding grant append_next_event append_event active_attempt
grant-Granted worker d now j r r' ready =
    let closed = active_attempt-Closed r'.attempts ready.closed in
    record { job = refl; run = rw ready.same_run refl; attempt = rw closed (refl, refl) }

claim_rows-Granted :
    (worker : String) (d now : ℕ) (j : Job) (r : RunRows)
    → IsConsistent r
    → r.job ≡ some j
    → Granted worker d now j r (claim_rows worker d now j r)
unfolding claim_rows
claim_rows-Granted worker d now j r c e =
    grant-Granted worker d now j r _ (prepared-Ready worker d now j r c e)

-- A lease that a claim grants is honoured: before it runs out it is a permit for the session fence, on
-- the rows that the claim leaves. This holds for a consistent run whose cancellation was not
-- requested and whose job is of the execution epoch, outside of a quarantine.
pub claim_held-Permit :
    (env : Env) (state : SystemExecutionState) (tables : Tables) (worker : String) (d now : ℕ)
    (h : Held) (j : Job) (lease : JobLease) (recs : List ReconciledJob)
    → IsConsistent h.rows
    → h.rows.job ≡ some j
    → h.rows.run.cancellation_requested ≡ false
    → state.dispatch_quarantined ≡ false
    → j.execution_epoch ≡ state.execution_epoch
    → (claim_held env tables worker d h).0 ≡ ok (some lease, recs)
    → now < lease.expires_at
    → (j' : Job) × ((claim_held env tables worker d h).1.rows.job ≡ some j')
      × Permit state tables lease preparing now (claim_held env tables worker d h).1.rows j'
claim_held-Permit env state tables worker d now h j lease recs c e requested lifted epoch g early =
    let (rows, lease_eq, current, before) =
      claim_held-granted env tables worker d h j lease recs e g in
    let granted = claim_rows-Granted worker d (env.clock (h.reads + 1)) j h.rows c e in
    let leased : JobAgrees h.rows.run j = subst (HasJob h.rows.run) e c.has_job in
    (
      record j {
        status = JobStatus.leased;
        lease_owner = some worker;
        lease_epoch = j.lease_epoch + 1;
        lease_expires_at = some (min (env.clock (h.reads + 1) + d) j.deadline);
      },
      ap (λ r. r.job) rows ∙ granted.job,
      rw (rows, lease_eq)
          (record {
            not_quarantined = lifted;
            current_epoch = sym epoch;
            job_epoch = refl;
            leased = refl;
            owner = refl;
            fencing_token = refl;
            unlapsed = omega (arith, ap (λ l. l.expires_at) lease_eq);
            before_deadline = omega (arith, ap (λ l. l.expires_at) lease_eq);
            not_cancelled = rw granted.run requested;
            status = rw granted.run refl;
            target = (Target-iff tables _).0 (
                ap (target_refused tables) granted.run
                ∙ target_refused-marked tables h.rows.run preparing (env.clock (h.reads + 1))
                ∙ ground arith);
            attempt = granted.attempt;
          }),
    )
