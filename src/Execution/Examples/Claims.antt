-- ===== src/Execution/Examples/Claims.antt =====
-- A claim on a ledger with two waiting runs.
use modall.Execution.Examples.{job, run}
use modall.Common.{arith, ◌∷◌, ◌≡◌, [], some, ok, refl}
use modall.Execution.World.{
  World, for_each, durable_now, execution_state, select_rows, filter_rows, insert_state, sort_by,
  insert_by, before, lock, put_back, held_now,
}
use modall.Execution.Ledger.Invariant.{IsConsistent}
use modall.Execution.Types.{JobLease}
use modall.Execution.Rows.{RunRows, Job}
use modall.Execution.Claim.{
  terminalize_expired_jobs, claim_job, terminalize_abandoned_dispatches, is_expired, is_abandoned,
  is_next, by_age, claim_next, claim_held,
}
use modall.Execution.Claim.Oldest.{LeasesOldest}
use modall.Execution.World.Passes.{Distinct}
use modall.Execution.Examples.{env_at, rows, world, lease, state, rows-IsConsistent}
use modall.Execution.Claim.Reconciled.{reconciled, claim_job-oldest}
use modall.Execution.Lease.{target_refused}
use modall.Registry.Rows.{
  has_workspace, find_membership, find_capability, find_connection, find_observed, find_run_binding,
}

abbrev older_job : Job
older_job = record job { id = 22; run_id = 20; created_at = 90 }

abbrev older_rows : RunRows
older_rows = record rows { run = record run { id = 20 }; job = some older_job }

abbrev two_runs : World
two_runs = record world { db = record world.db { rows = rows ∷ older_rows ∷ [] } }

abbrev older_lease : JobLease
older_lease = record lease { job_id = 22; run_id = 20; expires_at = 702 }

older_rows-IsConsistent : IsConsistent older_rows
older_rows-IsConsistent = ground arith

two_runs-Distinct : Distinct two_runs.db.rows
two_runs-Distinct = (((λ e. omega (arith, e)), tt), (tt, tt))

claim_job-older : (claim_job (env_at 200) "worker" 500 two_runs).0 ≡ ok (some older_lease, [])
unfolding claim_job durable_now execution_state insert_state terminalize_expired_jobs
    terminalize_abandoned_dispatches for_each select_rows filter_rows sort_by insert_by before
    is_expired is_abandoned is_next by_age claim_next lock put_back claim_held held_now
    target_refused has_workspace find_membership find_capability find_connection find_observed
    find_run_binding
claim_job-older = refl

claim_job-oldest_example :
    LeasesOldest (env_at 200) 1 200 (reconciled (env_at 200) "worker" 500 two_runs) older_lease
claim_job-oldest_example =
    claim_job-oldest (env_at 200) "worker" 500 older_lease state [] two_runs
      (rows-IsConsistent, (older_rows-IsConsistent, tt)) two_runs-Distinct refl claim_job-older
