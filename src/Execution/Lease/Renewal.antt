-- ===== src/Execution/Lease/Renewal.antt =====
-- What a heartbeat grants.
use modall.Common.{
  ℕ, ◌≡◌, ◌<◌, some, ok, false, is_none, arith, is_due, ◌≤◌, ◌+◌, ◌∙◌, leb, sym, min, ap,
}
use modall.Execution.World.{Env, SystemExecutionState, Held, held_now}
use modall.Execution.Types.{JobLease, is_terminal}
use modall.Execution.Lease.{heartbeat_held, held_job, lease_refused}
use modall.Execution.Rows.{Job, RunRows}
use modall.Execution.Lease.Permit.{Unlapsed, Unlapsed-iff}

-- the lease that a heartbeat returns, and the rows before and after
pub record Renews (lease : JobLease) (d now : ℕ) (j : Job) (r r' : RunRows) (lease' : JobLease)
    : Type 0 where
  pub unlapsed : Unlapsed j.lease_expires_at now
  pub before_deadline : now < j.deadline
  pub running : is_terminal r.run.status ≡ false
  pub longest : (lease'.expires_at ≤ now + d) × (lease'.expires_at ≤ j.deadline)
  pub same_token : (lease'.lease_epoch ≡ j.lease_epoch) × (lease'.worker_id ≡ lease.worker_id)
  pub stored : r' ≡ record r { job = some (record j { lease_expires_at = some lease'.expires_at }) }

renewed :
    (env : Env) (state : SystemExecutionState) (lease lease' : JobLease) (d : ℕ) (h : Held)
    (j : Job)
    → h.rows.job ≡ some j
    → (heartbeat_held env state lease d h).0 ≡ ok lease'
    → (is_none j.lease_expires_at ≡ false)
      × (is_due j.lease_expires_at (env.clock h.reads) ≡ false)
      × (leb j.deadline (env.clock h.reads) ≡ false)
      × (is_terminal h.rows.run.status ≡ false)
      × (j.lease_epoch ≡ lease.lease_epoch)
      × (lease'.expires_at ≡ min (env.clock h.reads + d) j.deadline)
      × (lease'.lease_epoch ≡ lease.lease_epoch)
      × (lease'.worker_id ≡ lease.worker_id)
      × ((heartbeat_held env state lease d h).1.rows ≡ record h.rows {
        job = some (record j { lease_expires_at = some (min (env.clock h.reads + d) j.deadline) });
      })
unfolding heartbeat_held held_job held_now lease_refused
renewed env state lease lease' d h j e g = ground arith

-- A heartbeat that returns found a running lease before the deadline of the job. The new lease has the
-- same worker and fencing token, and ends within the asked duration and by the deadline; the job
-- holds the new end, and nothing else of the run changes.
pub heartbeat_held-Renews :
    (env : Env) (state : SystemExecutionState) (lease lease' : JobLease) (d : ℕ) (h : Held)
    (j : Job)
    → h.rows.job ≡ some j
    → (heartbeat_held env state lease d h).0 ≡ ok lease'
    → Renews lease d (env.clock h.reads) j h.rows (heartbeat_held env state lease d h).1.rows lease'
heartbeat_held-Renews env state lease lease' d h j e g =
    let (dated, due, early, running, token, expires, epoch, worker, rows) =
      renewed env state lease lease' d h j e g in
    record {
      unlapsed = (Unlapsed-iff j.lease_expires_at (env.clock h.reads)).0 (dated, due);
      before_deadline = ground arith;
      running = running;
      longest = (omega (arith, expires), omega (arith, expires));
      same_token = (epoch ∙ sym token, worker);
      stored =
          rows
          ∙ ap (λ n. record h.rows { job = some (record j { lease_expires_at = some n }) })
              (sym expires);
    }
