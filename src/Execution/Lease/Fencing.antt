-- ===== src/Execution/Lease/Fencing.antt =====
-- The condition of `_fence_attempt` against the permit, and what a fence does by it.
use modall.Common.{
  ℕ, ◌≡◌, some, ◌<◌, false, holds_text, true, ◌↔◌, arith, is_none, is_due, if◌then◌else◌, err,
  execution_error, ExecutionFailureCode, ◌+◌, ok, Bool-cases, inl, inr, ◌⊎◌, sym, ◌∙◌,
}
use modall.Execution.Lease.{
  target_refused, fence_refused, attempt_refused, lease_refused, fence_held, held_job, fence_rows,
}
use modall.Execution.World.{SystemExecutionState, Env, held_now, Held}
use modall.Execution.Types.{JobLease, RunStatus, JobStatus, same_status, RunEventType}
use modall.Registry.Rows.{Tables, has_workspace}
use modall.Execution.Rows.{RunRows, Job}
use modall.Execution.Ledger.{active_attempt}
use modall.Execution.Lease.Fences.{same_status-eq}
use mathlib.Core.Bool.{false≢true}
use modall.Execution.Lease.Permit.{Permit, holds_text_iff, Unlapsed-iff, Target-iff, Attempts-iff}

module _ (state : SystemExecutionState) (tables : Tables) (lease : JobLease) (expected : RunStatus)
    (now : ℕ) (r : RunRows) (job : Job) where
  not_refused :
      fence_refused state tables lease expected now r job ≡ false
      → Permit state tables lease expected now r job
  unfolding fence_refused lease_refused
  not_refused e = record {
    not_quarantined = ground arith;
    current_epoch = ground arith;
    job_epoch = ground arith;
    leased = ground arith;
    owner = (holds_text_iff job.lease_owner lease.worker_id).0 (ground arith);
    fencing_token = ground arith;
    unlapsed = (Unlapsed-iff job.lease_expires_at now).0 (ground arith, ground arith);
    before_deadline = ground arith;
    not_cancelled = ground arith;
    status = same_status-eq r.run.status expected (ground arith);
    target = (Target-iff tables r.run).0 (ground arith);
    attempt = (Attempts-iff lease expected (active_attempt r.attempts)).0 (ground arith);
  }

  permitted :
      Permit state tables lease expected now r job
      → fence_refused state tables lease expected now r job ≡ false
  permitted h =
      let same : same_status r.run.status expected ≡ true =
        unrefused r.run.status expected h.status in
      let owner = (holds_text_iff job.lease_owner lease.worker_id).1 h.owner in
      let (dated, due) = (Unlapsed-iff job.lease_expires_at now).1 h.unlapsed in
      let target = (Target-iff tables r.run).1 h.target in
      let attempt = (Attempts-iff lease expected (active_attempt r.attempts)).1 h.attempt in
      accepted h.not_quarantined h.current_epoch h.job_epoch h.leased owner h.fencing_token dated
        due h.before_deadline h.not_cancelled same target attempt
    where
      unrefused : (a b : RunStatus) → a ≡ b → same_status a b ≡ true
      unrefused a b e = ground arith

      accepted :
          state.dispatch_quarantined ≡ false
          → state.execution_epoch ≡ lease.execution_epoch
          → job.execution_epoch ≡ lease.execution_epoch
          → job.status ≡ JobStatus.leased
          → holds_text job.lease_owner lease.worker_id ≡ true
          → job.lease_epoch ≡ lease.lease_epoch
          → is_none job.lease_expires_at ≡ false
          → is_due job.lease_expires_at now ≡ false
          → now < job.deadline
          → r.run.cancellation_requested ≡ false
          → same_status r.run.status expected ≡ true
          → target_refused tables r.run ≡ false
          → attempt_refused lease expected (active_attempt r.attempts) ≡ false
          → fence_refused state tables lease expected now r job ≡ false
      accepted = unfold fence_refused lease_refused in ground arith

  -- The check of a fence accepts exactly the lineage that the permit describes.
  pub fence_refused_iff :
      (fence_refused state tables lease expected now r job ≡ false)
      ↔ Permit state tables lease expected now r job
  fence_refused_iff = (not_refused, permitted)

module _ (env : Env) (state : SystemExecutionState) (tables : Tables) (lease : JobLease)
    (expected target : RunStatus) (event_type : RunEventType) where
  fenced :
      (h : Held) (job : Job)
      → h.rows.job ≡ some job
      → job.run_id ≡ lease.run_id
      → has_workspace tables lease.workspace_id ≡ true
      → fence_held env state tables lease expected target event_type h ≡ (
          if fence_refused state tables lease expected (env.clock h.reads) h.rows job
          then (
            err (execution_error ExecutionFailureCode.lease_lost),
            record h { reads = h.reads + 1 },
          )
          else (
            ok (fence_rows target event_type (env.clock h.reads) h.rows).run,
            record {
              rows = fence_rows target event_type (env.clock h.reads) h.rows;
              reads = h.reads + 1;
            },
          ))
  unfolding fence_held held_job held_now
  fenced h job e p q = ground arith

  -- A fence on the job that the lease names, in a workspace that exists, takes one clock reading
  -- and decides by the permit at that time: with it, the run, the attempt and the history take the
  -- fenced status and the run is returned; without it, it raises `lease_lost` and writes nothing.
  pub fence_held-decides :
      (h : Held) (job : Job)
      → h.rows.job ≡ some job
      → job.run_id ≡ lease.run_id
      → has_workspace tables lease.workspace_id ≡ true
      → (Permit state tables lease expected (env.clock h.reads) h.rows job
          × (fence_held env state tables lease expected target event_type h ≡ (
            ok (fence_rows target event_type (env.clock h.reads) h.rows).run,
            record {
              rows = fence_rows target event_type (env.clock h.reads) h.rows;
              reads = h.reads + 1;
            },
          )))
        ⊎ (¬ (Permit state tables lease expected (env.clock h.reads) h.rows job)
            × (fence_held env state tables lease expected target event_type h ≡ (
              err (execution_error ExecutionFailureCode.lease_lost),
              record h { reads = h.reads + 1 },
            )))
  fence_held-decides h job e p q =
      let same = fence_refused_iff state tables lease expected (env.clock h.reads) h.rows job in
      elim (Bool-cases (fence_refused state tables lease expected (env.clock h.reads) h.rows job)) [
        | inl refused ↦
            inr (
              λ permit. absurd (false≢true (sym (same.1 permit) ∙ refused)),
              fenced h job e p q ∙ cc,
            )
        | inr passed ↦ inl (same.0 passed, fenced h job e p q ∙ cc)
      ]
