-- ===== src/Execution/Lease/Acceptance.antt =====
-- Which completions are accepted.
use modall.Common.{ℕ, Option, ◌≡◌, false, some, is_due, leb, arith, true, ok, ◌+◌, none, refl}
use modall.Execution.World.{Env, SystemExecutionState, held_now, Held}
use modall.Execution.Lease.{
  complete_held, fence_refused, held_job, complete_in_time, lease_refused, valid_worker_completion,
  complete_rows,
}
use modall.Registry.Rows.{Tables}
use modall.Execution.Types.{JobLease, RunStatus, RunFailureCode, JobStatus, is_terminal, job_status}
use modall.Execution.Rows.{RunRows, Job, RunAttempt}
use modall.Execution.Lease.Permit.{Permit, Attempts}
use modall.Execution.Ledger.{active_attempt, append_next_event, append_event}
use modall.Execution.Ledger.Invariant.{job_of}
use modall.Execution.Lease.Completion.{valid-CompletionFacts}
use mathlib.Core.Path.{subst}
use modall.Execution.Lease.Fencing.{fence_refused_iff}

not_lease_refused :
    (state : SystemExecutionState) (tables : Tables) (lease : JobLease) (expected : RunStatus)
    (now : ℕ) (r : RunRows) (j : Job)
    → fence_refused state tables lease expected now r j ≡ false
    → (lease_refused state lease j ≡ false)
      × (is_due j.lease_expires_at now ≡ false)
      × (leb j.deadline now ≡ false)
unfolding fence_refused
not_lease_refused state tables lease expected now r j e = ground arith

accepted :
    (env : Env) (state : SystemExecutionState) (lease : JobLease) (status : RunStatus)
    (code : Option RunFailureCode) (h : Held) (j : Job) (a : RunAttempt) (js : JobStatus)
    → h.rows.job ≡ some j
    → j.run_id ≡ lease.run_id
    → lease_refused state lease j ≡ false
    → is_due j.lease_expires_at (env.clock h.reads) ≡ false
    → leb j.deadline (env.clock h.reads) ≡ false
    → is_terminal h.rows.run.status ≡ false
    → active_attempt h.rows.attempts ≡ some a
    → a.lease_epoch ≡ lease.lease_epoch
    → valid_worker_completion h.rows.run a status code ≡ true
    → job_status status ≡ some js
    → complete_held env state lease status code h ≡ (
      ok (complete_rows status js code (env.clock h.reads) j a h.rows).run,
      record {
        rows = complete_rows status js code (env.clock h.reads) j a h.rows;
        reads = h.reads + 1;
      },
    )
unfolding complete_held held_job held_now complete_in_time
accepted env state lease status code h j a js e i refused due late running newest token valid
      known =
    ground arith

-- A worker whose lease is a permit for the current status of the run, and that completes it in a way
-- that is valid from there, ends it so: the run is returned with the status, the error code and the
-- time, and its job has ended with it and is free.
pub complete_held-accepts :
    (env : Env) (state : SystemExecutionState) (tables : Tables) (lease : JobLease)
    (expected status : RunStatus) (code : Option RunFailureCode) (h : Held) (j : Job)
    (a : RunAttempt)
    → h.rows.job ≡ some j
    → j.run_id ≡ lease.run_id
    → Permit state tables lease expected (env.clock h.reads) h.rows j
    → active_attempt h.rows.attempts ≡ some a
    → valid_worker_completion h.rows.run a status code ≡ true
    → ((complete_held env state lease status code h).0
        ≡ ok (complete_held env state lease status code h).1.rows.run)
      × ((complete_held env state lease status code h).1.rows.run.status ≡ status)
      × ((complete_held env state lease status code h).1.rows.run.safe_error_code ≡ code)
      × ((complete_held env state lease status code h).1.rows.run.terminal_at
          ≡ some (env.clock h.reads))
      × ((complete_held env state lease status code h).1.rows.job
          ≡ some (record j {
            status = job_of status;
            lease_owner = none;
            lease_expires_at = none;
            completed_at = some (env.clock h.reads);
          }))
complete_held-accepts env state tables lease expected status code h j a e i permit active valid =
    let facts = valid-CompletionFacts h.rows.run a status code valid in
    let (current, due, late) =
      not_lease_refused state tables lease expected (env.clock h.reads) h.rows j
        ((fence_refused_iff state tables lease expected (env.clock h.reads) h.rows j).1 permit) in
    let token : Attempts lease expected (some a) =
      subst (Attempts lease expected) active permit.attempt in
    let there =
      accepted env state lease status code h j a (job_of status) e i current due late facts.running
        active token.0 valid facts.job_state in
    written there
  where
    written :
        complete_held env state lease status code h ≡ (
          ok (complete_rows status (job_of status) code (env.clock h.reads) j a h.rows).run,
          record {
            rows = complete_rows status (job_of status) code (env.clock h.reads) j a h.rows;
            reads = h.reads + 1;
          },
        )
        → ((complete_held env state lease status code h).0
            ≡ ok (complete_held env state lease status code h).1.rows.run)
          × ((complete_held env state lease status code h).1.rows.run.status ≡ status)
          × ((complete_held env state lease status code h).1.rows.run.safe_error_code ≡ code)
          × ((complete_held env state lease status code h).1.rows.run.terminal_at
              ≡ some (env.clock h.reads))
          × ((complete_held env state lease status code h).1.rows.job
              ≡ some (record j {
                status = job_of status;
                lease_owner = none;
                lease_expires_at = none;
                completed_at = some (env.clock h.reads);
              }))
    written there =
        rw there
          (unfold complete_rows append_next_event append_event in (refl, refl, refl, refl, refl))
