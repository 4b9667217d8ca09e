-- ===== src/Execution/Claim.antt =====
-- execution/service.py: `claim_job` with the reconciliation of expired and abandoned jobs.
pub mod Grant
pub mod Reconcile
pub mod Honoured
pub mod Oldest
pub mod Reconciled
use Prim.Native.String.{count}
use modall.Common.{
  ℕ, ◌+◌, String, Bool, true, false, not, Option, none, some, List, [], ◌∷◌, ◌++◌, if◌then◌else◌,
  min, leb, ltb, ◌==◌, is_due, ◌&&◌, ◌||◌, execution_error, value_error, dispatch_quarantined, Act,
  pure, raise_if, gets, modify, ◌>>=◌, ◌>>◌,
}
use modall.Registry.Rows.{Tables, has_workspace}
use modall.Execution.Types.{
  RunStatus, JobStatus, RunEventType, RunFailureCode, JobLease, ReconciledJob, queued, preparing,
  session_fenced, dispatch_fenced, failed, timed_out, indeterminate, same_status, is_leased,
  is_job_queued, deadline_exceeded, worker_lost_after_dispatch, worker_lost_before_dispatch,
  preparation_failed,
}
use modall.Execution.Rows.{Run, Job, RunAttempt, RunRows}
use modall.Execution.Ledger.{active_attempt, set_attempt, append_next_event, terminalize_run}
use modall.Execution.World.{
  World, Held, Env, held_now, durable_now, execution_state, lock, select_rows, for_each, selected,
}
use modall.Execution.Lease.{on_rows, target_refused, deadline_status}

-- `ReconciledJob` for a run that is ended with this status; the code drops nothing here, since a
-- selected run was joined to its job
abbrev pub reconciled_job : RunStatus → RunRows → Job → ReconciledJob
reconciled_job status r j = record {
  job_id = j.id;
  run_id = r.run.id;
  workspace_id = r.run.workspace_id;
  correlation_id = r.run.correlation_id;
  lease_epoch = j.lease_epoch;
  status = status;
}

abbrev pub reconciled_rows : (RunRows → RunStatus) → List RunRows → List ReconciledJob
reconciled_rows status [] = []
reconciled_rows status (r ∷ rest) =
    let later = reconciled_rows status rest in
    elim r.job [ none ↦ later | some j ↦ reconciled_job (status r) r j ∷ later ]

-- `order_by(Job.deadline, Job.id)`, `order_by(Job.lease_expires_at, Job.id)` and
-- `order_by(Job.created_at, Job.id)`
by_deadline : RunRows → ℕ × ℕ
by_deadline r = elim r.job [ none ↦ (0, 0) | some j ↦ (j.deadline, j.id) ]

by_lease : RunRows → ℕ × ℕ
by_lease r = elim r.job [
  | none ↦ (0, 0)
  | some j ↦ elim j.lease_expires_at [ none ↦ (0, j.id) | some t ↦ (t, j.id) ]
]

unfoldable pub by_age : RunRows → ℕ × ℕ
by_age r = elim r.job [ none ↦ (0, 0) | some j ↦ (j.created_at, j.id) ]

expired_job : ℕ → Option Job → Bool
expired_job now none = false
expired_job now (some j) = (is_job_queued j.status || is_leased j.status) && leb j.deadline now

abandoned_job : ℕ → Option Job → Bool
abandoned_job now none = false
abandoned_job now (some j) = is_leased j.status && is_due j.lease_expires_at now

claimable_job : ℕ → ℕ → Option Job → Bool
claimable_job epoch now none = false
claimable_job epoch now (some j) =
    j.execution_epoch == epoch
    && leb j.available_at now
    && ltb now j.deadline
    && (is_job_queued j.status || (is_leased j.status && is_due j.lease_expires_at now))

-- the statuses that a run may be claimed in
abbrev pub is_claimable : RunStatus → Bool
is_claimable queued = true
is_claimable preparing = true
is_claimable session_fenced = true
is_claimable _ = false

module _ (env : Env) where
  -- the `where` clauses of the three queries, with `skip_locked`
  unfoldable pub is_expired : ℕ → RunRows → Bool
  unfolding expired_job
  is_expired now r = expired_job now r.job && not (env.locked r.run.id)

  unfoldable pub is_abandoned : ℕ → RunRows → Bool
  unfolding abandoned_job
  is_abandoned now r =
      abandoned_job now r.job
      && same_status r.run.status dispatch_fenced
      && not (env.locked r.run.id)

  unfoldable pub is_next : ℕ → ℕ → RunRows → Bool
  unfolding claimable_job
  is_next epoch now r =
      claimable_job epoch now r.job && is_claimable r.run.status && not (env.locked r.run.id)

  -- the loop body of `_terminalize_expired_jobs`
  unfoldable pub expire_held : ℕ → Act Held Unit
  expire_held now = do
    r ← gets (λ h. h.rows)
    on_rows
        (terminalize_run (deadline_status r.run.status) now deadline_exceeded RunEventType.terminal)

  unfoldable pub terminalize_expired_jobs : ℕ → Act World (List ReconciledJob)
  unfolding by_deadline expire_held
  terminalize_expired_jobs now = do
    picked ← gets (λ w.
        select_rows (is_expired now) by_deadline env.limits.reconciliation_batch_size w.db.rows)
    for_each (is_expired now) picked (expire_held now)
    pure (reconciled_rows (λ r. deadline_status r.run.status) picked)

  unfoldable pub abandon_held : ℕ → Act Held Unit
  abandon_held now =
      on_rows (terminalize_run indeterminate now worker_lost_after_dispatch RunEventType.terminal)

  unfoldable pub terminalize_abandoned_dispatches : ℕ → Act World (List ReconciledJob)
  unfolding by_lease abandon_held
  terminalize_abandoned_dispatches now = do
    picked ← gets (λ w.
        select_rows (is_abandoned now) by_lease env.limits.reconciliation_batch_size w.db.rows)
    for_each (is_abandoned now) picked (abandon_held now)
    pure (reconciled_rows (λ r. indeterminate) picked)

-- a claimed run whose previous worker lost its lease before dispatch
pub close_lost : ℕ → RunRows → RunRows
close_lost now r = elim (active_attempt r.attempts) [
  | none ↦ r
  | some a ↦
      append_next_event RunEventType.lease_lost r.run.status (some worker_lost_before_dispatch) now
        (record r {
          attempts =
              set_attempt
                (record a {
                  status = failed;
                  safe_error_code = some worker_lost_before_dispatch;
                  terminal_at = some now;
                })
                r.attempts;
        })
]

-- `select(func.max(RunAttempt.sequence))`, with `or 0` for no row
unfoldable pub max_attempt : List RunAttempt → ℕ
max_attempt [] = 0
max_attempt (a ∷ rest) =
    let older = max_attempt rest in if ltb older a.sequence then a.sequence else older

-- the job and the attempt of a new lease
grant : String → ℕ → ℕ → Job → RunRows → RunRows
grant worker_id lease_duration now job r =
    append_next_event RunEventType.attempt_started preparing none now (record r {
      job = some (record job {
        status = JobStatus.leased;
        lease_owner = some worker_id;
        lease_epoch = job.lease_epoch + 1;
        lease_expires_at = some (min (now + lease_duration) job.deadline);
      });
      attempts =
          record {
            job_id = job.id;
            sequence = max_attempt r.attempts + 1;
            lease_epoch = job.lease_epoch + 1;
            status = preparing;
            started_at = now;
            terminal_at = none;
            safe_error_code = none;
          }
          ∷ r.attempts;
      run = record r.run { status = preparing; updated_at = now };
    })

-- the writes of `claim_job` on the claimed run
unfoldable pub claim_rows : String → ℕ → ℕ → Job → RunRows → RunRows
unfolding close_lost grant
claim_rows worker_id lease_duration now job r =
    grant worker_id lease_duration now job (if is_leased job.status then close_lost now r else r)

abbrev pub granted_lease : String → ℕ → ℕ → Run → Job → JobLease
granted_lease worker_id lease_duration now run job = record {
  job_id = job.id;
  run_id = job.run_id;
  workspace_id = run.workspace_id;
  correlation_id = run.correlation_id;
  worker_id = worker_id;
  lease_epoch = job.lease_epoch + 1;
  execution_epoch = job.execution_epoch;
  expires_at = min (now + lease_duration) job.deadline;
}

-- `_claim_target_is_current`: the workspace, and what the fences check too
abbrev pub claim_target_is_current : Tables → Run → Bool
claim_target_is_current t run = has_workspace t run.workspace_id && not (target_refused t run)

-- what `claim_job` returns, with the rows that it adds to `reconciled_jobs`
abbrev pub Claimed : Type 0
Claimed = Option JobLease × List ReconciledJob

end_claim : RunStatus → ℕ → RunFailureCode → Job → Act Held Claimed
end_claim status now code job = do
  r ← gets (λ h. h.rows)
  on_rows (terminalize_run status now code RunEventType.terminal)
  pure (none, reconciled_job status r job ∷ [])

grant_claim : String → ℕ → ℕ → Job → Act Held Claimed
grant_claim worker_id lease_duration now job = do
  r ← gets (λ h. h.rows)
  modify (λ h. record h { rows = claim_rows worker_id lease_duration now job h.rows })
  pure (some (granted_lease worker_id lease_duration now r.run job), [])

-- after `_claim_target_is_current`
decide_claim : Tables → String → ℕ → ℕ → Job → Act Held Claimed
unfolding end_claim grant_claim
decide_claim tables worker_id lease_duration now job = do
  r ← gets (λ h. h.rows)
  if leb job.deadline now
      then end_claim timed_out now deadline_exceeded job
      else if not (claim_target_is_current tables r.run)
      then end_claim failed now preparation_failed job
      else grant_claim worker_id lease_duration now job

module _ (env : Env) where
  check_claim : Tables → String → ℕ → Job → Act Held Claimed
  unfolding decide_claim
  check_claim tables worker_id lease_duration job = do
    now ← held_now env
    decide_claim tables worker_id lease_duration now job

  claim_with_job : Tables → String → ℕ → Option Job → Act Held Claimed
  unfolding check_claim
  claim_with_job tables worker_id lease_duration none = pure (none, [])
  claim_with_job tables worker_id lease_duration (some job) = do
    now ← held_now env
    if leb job.deadline now
        then end_claim timed_out now deadline_exceeded job
        else check_claim tables worker_id lease_duration job

  -- `claim_job` from the lock on the claimed run
  unfoldable pub claim_held : Tables → String → ℕ → Act Held Claimed
  unfolding claim_with_job end_claim
  claim_held tables worker_id lease_duration = do
    job ← gets (λ h. h.rows.job)
    claim_with_job tables worker_id lease_duration job

  unfoldable pub claim_next : String → ℕ → ℕ → ℕ → List RunRows → Act World Claimed
  claim_next worker_id lease_duration epoch now [] = pure (none, [])
  claim_next worker_id lease_duration epoch now (p ∷ _) = do
    tables ← gets (λ w. w.db.tables)
    lock (selected (is_next env epoch now) p) (pure (none, []))
        (claim_held tables worker_id lease_duration)

  -- `claim_job`
  unfoldable pub claim_job : String → ℕ → Act World Claimed
  unfolding by_age claim_next
  claim_job worker_id lease_duration = do
    raise_if (leb (count worker_id) 0 || ltb 128 (count worker_id) || leb lease_duration 0)
        value_error
    now ← durable_now env
    state ← execution_state env
    raise_if state.dispatch_quarantined (execution_error dispatch_quarantined)
    expired ← terminalize_expired_jobs env now
    abandoned ← terminalize_abandoned_dispatches env now
    picked ← gets (λ w. select_rows (is_next env state.execution_epoch now) by_age 1 w.db.rows)
    claimed ← claim_next worker_id lease_duration state.execution_epoch now picked
    pure (claimed.0, expired ++ abandoned ++ claimed.1)
