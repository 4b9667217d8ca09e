-- ===== src/Execution/Ledger.antt =====
-- The helpers of execution/service.py that write to one run and the rows beside it.
pub mod Invariant
pub mod Advance
pub mod Terminalize
pub mod Notes
use modall.Common.{
  ℕ, ◌+◌, Bool, true, false, Option, none, some, List, [], ◌∷◌, if◌then◌else◌, ltb, ◌==◌,
  update_first, value_error, Act, pure, raise, gets, modify, ◌>>=◌, ◌>>◌,
}
use modall.Execution.Types.{
  RunStatus, JobStatus, RunEventType, RunFailureCode, preparing, session_fenced, dispatch_fenced,
  job_status,
}
use modall.Execution.Rows.{Job, RunAttempt, RunEvent, RunRows}

-- `select(func.max(RunEvent.sequence))`, with `or 0` for no row
unfoldable pub max_sequence : List RunEvent → ℕ
max_sequence [] = 0
max_sequence (e ∷ es) =
    let rest = max_sequence es in if ltb rest e.sequence then e.sequence else rest

-- `_append_event`
unfoldable pub append_event :
    RunEventType → RunStatus → Option RunFailureCode → ℕ → ℕ → RunRows → RunRows
append_event event_type status code now sequence r = record r {
  events =
      record {
        sequence = sequence;
        event_type = event_type;
        status = status;
        safe_error_code = code;
        occurred_at = now;
      }
      ∷ r.events;
}

-- `_append_next_event`
unfoldable pub append_next_event :
    RunEventType → RunStatus → Option RunFailureCode → ℕ → RunRows → RunRows
unfolding append_event
append_next_event event_type status code now r =
    append_event event_type status code now (max_sequence r.events + 1) r

-- `RunAttempt.status.in_([PREPARING, SESSION_FENCED, DISPATCH_FENCED])`
abbrev pub is_open : RunStatus → Bool
is_open preparing = true
is_open session_fenced = true
is_open dispatch_fenced = true
is_open _ = false

newer : RunAttempt → Option RunAttempt → RunAttempt
newer a none = a
newer a (some b) = if ltb b.sequence a.sequence then a else b

-- `_active_attempt`: the open attempt with the greatest sequence
unfoldable pub active_attempt : List RunAttempt → Option RunAttempt
unfolding newer
active_attempt [] = none
active_attempt (a ∷ rest) =
    let older = active_attempt rest in if is_open a.status then some (newer a older) else older

-- a write to the attempt with this sequence, which is unique in the run
unfoldable pub set_attempt : RunAttempt → List RunAttempt → List RunAttempt
set_attempt a = update_first (λ b. b.sequence == a.sequence) (λ _. a)

-- the part of `_terminalize_run` on the job, with `JobStatus(status.value)` at hand
unfoldable pub end_job : JobStatus → ℕ → Job → Job
end_job status now j = record j {
  status = status;
  lease_owner = none;
  lease_expires_at = none;
  completed_at = some now;
}

unfoldable pub end_attempts : RunStatus → RunFailureCode → ℕ → List RunAttempt → List RunAttempt
end_attempts status code now attempts = elim (active_attempt attempts) [
  | none ↦ attempts
  | some a ↦
      set_attempt
        (record a { status = status; safe_error_code = some code; terminal_at = some now }) attempts
]

end_jobs : RunStatus → ℕ → Option Job → Act RunRows Unit
unfolding end_job
end_jobs status now none = pure tt
end_jobs status now (some j) = elim (job_status status) [
  | none ↦ raise value_error
  | some s ↦ modify (λ r. record r { job = some (end_job s now j) })
]

-- `_terminalize_run`
unfoldable pub terminalize_run : RunStatus → ℕ → RunFailureCode → RunEventType → Act RunRows Unit
unfolding end_jobs end_attempts
terminalize_run status now code event_type = do
  modify (λ r. record r {
    run = record r.run {
      status = status;
      safe_error_code = some code;
      updated_at = now;
      terminal_at = some now;
    };
  })
  job ← gets (λ r. r.job)
  end_jobs status now job
  modify (λ r. record r { attempts = end_attempts status code now r.attempts })
  modify (append_next_event event_type status (some code) now)
