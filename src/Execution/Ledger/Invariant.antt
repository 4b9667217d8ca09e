-- ===== src/Execution/Ledger/Invariant.antt =====
-- What holds of a run and the rows beside it between two calls of the service: the constraints of
-- persistence/models.py, and what the service keeps beyond them.
use modall.Common.{
  ℕ, suc, ◌≤◌, ◌≡◌, refl, Bool, true, false, Option, none, some, List, [], ◌∷◌, arith, is_some,
  length, if◌then◌else◌,
}
use modall.Execution.Types.{
  RunStatus, JobStatus, RunEventType, RunFailureCode, is_terminal, is_leased,
}
use modall.Execution.Rows.{Run, Job, RunAttempt, RunEvent, RunRows}
use modall.Execution.Ledger.{max_sequence, is_open, active_attempt}

-- the events are numbered 1, 2, …
abbrev pub Numbered : List RunEvent → Type 0
Numbered [] = Unit
Numbered (e ∷ es) = (e.sequence ≡ suc (length es)) × Numbered es

abbrev pub Latest : RunStatus → List RunEvent → Type 0
Latest s [] = ⊥
Latest s (e ∷ es) = e.status ≡ s

abbrev pub is_dispatch : RunEventType → Bool
is_dispatch RunEventType.dispatch_fenced = true
is_dispatch _ = false

-- how often the one permitted tool call was released
abbrev pub dispatches : List RunEvent → ℕ
dispatches [] = 0
dispatches (e ∷ es) =
    let rest = dispatches es in if is_dispatch e.event_type then suc rest else rest

-- the number of releases that a status allows
abbrev pub Dispatched : RunStatus → ℕ → Type 0
Dispatched RunStatus.queued n = n ≡ 0
Dispatched RunStatus.preparing n = n ≡ 0
Dispatched RunStatus.session_fenced n = n ≡ 0
Dispatched RunStatus.dispatch_fenced n = n ≡ 1
Dispatched RunStatus.succeeded n = n ≡ 1
Dispatched RunStatus.failed n = n ≤ 1
Dispatched RunStatus.cancelled n = n ≡ 0
Dispatched RunStatus.timed_out n = n ≡ 0
Dispatched RunStatus.indeterminate n = n ≡ 1

-- `ck_run_success_has_no_error` and `ck_run_terminal_has_error`
abbrev pub ErrorCode : RunStatus → Option RunFailureCode → Type 0
ErrorCode RunStatus.succeeded code = code ≡ none
ErrorCode RunStatus.failed code = is_some code ≡ true
ErrorCode RunStatus.cancelled code = is_some code ≡ true
ErrorCode RunStatus.timed_out code = is_some code ≡ true
ErrorCode RunStatus.indeterminate code = is_some code ≡ true
ErrorCode _ code = Unit

-- the status of the job of a run
abbrev pub job_of : RunStatus → JobStatus
job_of RunStatus.queued = JobStatus.queued
job_of RunStatus.preparing = JobStatus.leased
job_of RunStatus.session_fenced = JobStatus.leased
job_of RunStatus.dispatch_fenced = JobStatus.leased
job_of RunStatus.succeeded = JobStatus.succeeded
job_of RunStatus.failed = JobStatus.failed
job_of RunStatus.cancelled = JobStatus.cancelled
job_of RunStatus.timed_out = JobStatus.timed_out
job_of RunStatus.indeterminate = JobStatus.indeterminate

abbrev pub Within : Option ℕ → ℕ → Type 0
Within none deadline = Unit
Within (some t) deadline = t ≤ deadline

-- `ck_job_active_lease`, `ck_job_completion_time`, and the agreement of a job with its run
pub record JobAgrees (run : Run) (j : Job) : Type 0 where
  pub status_agrees : j.status ≡ job_of run.status
  pub same_run : j.run_id ≡ run.id
  pub same_workspace : j.workspace_id ≡ run.workspace_id
  pub same_deadline : j.deadline ≡ run.deadline
  pub owned : is_some j.lease_owner ≡ is_leased j.status
  pub expires : is_some j.lease_expires_at ≡ is_leased j.status
  pub within_deadline : Within j.lease_expires_at j.deadline
  pub completed : is_some j.completed_at ≡ is_terminal run.status

abbrev pub HasJob : Run → Option Job → Type 0
HasJob run none = ⊥
HasJob run (some j) = JobAgrees run j

abbrev pub lease_epoch_of : Option Job → ℕ
lease_epoch_of none = 0
lease_epoch_of (some j) = j.lease_epoch

-- closed attempts, numbered by their lease epoch
abbrev pub Closed : List RunAttempt → Type 0
Closed [] = Unit
Closed (a ∷ older) =
    (is_open a.status ≡ false)
    × (a.sequence ≡ suc (length older))
    × (a.lease_epoch ≡ suc (length older))
    × Closed older

-- the newest attempt is open exactly if the run is, and then it has the run's status
abbrev pub Attempted : RunStatus → List RunAttempt → Type 0
Attempted s [] = is_open s ≡ false
Attempted s (a ∷ older) =
    (is_open a.status ≡ is_open s)
    × (is_open s ≡ true → a.status ≡ s)
    × (a.sequence ≡ suc (length older))
    × (a.lease_epoch ≡ suc (length older))
    × Closed older

pub record IsConsistent (r : RunRows) : Type 0 where
  pub numbered : Numbered r.events
  pub latest : Latest r.run.status r.events
  pub dispatched : Dispatched r.run.status (dispatches r.events)
  pub error_code : ErrorCode r.run.status r.run.safe_error_code
  pub terminal_time : is_some r.run.terminal_at ≡ is_terminal r.run.status
  pub content : is_some r.run.arguments ≡ is_some r.run.argument_digest
  pub has_job : HasJob r.run r.job
  pub epoch : lease_epoch_of r.job ≡ length r.attempts
  pub attempted : Attempted r.run.status r.attempts

pub max_sequence-eq-length : (es : List RunEvent) → Numbered es → max_sequence es ≡ length es
unfolding max_sequence
max_sequence-eq-length [] h = refl
max_sequence-eq-length (e ∷ es) h = ground (arith, max_sequence-eq-length es h.1)

-- no attempt is open among closed ones
pub active_attempt-Closed : (older : List RunAttempt) → Closed older → active_attempt older ≡ none
unfolding active_attempt
active_attempt-Closed [] h = refl
active_attempt-Closed (a ∷ older) h = ground (arith, active_attempt-Closed older h.3)

-- the open attempt is the newest, if the run is open
pub active_attempt-open :
    (s : RunStatus) (a : RunAttempt) (older : List RunAttempt)
    → Attempted s (a ∷ older)
    → active_attempt (a ∷ older) ≡ (if is_open s then some a else none)
unfolding active_attempt
active_attempt-open s a older h = ground (arith, active_attempt-Closed older h.4)

pub active_attempt-none :
    (s : RunStatus) (older : List RunAttempt)
    → Attempted s older
    → is_open s ≡ false
    → active_attempt older ≡ none
active_attempt-none s [] h p = unfold active_attempt in refl
active_attempt-none s (a ∷ older) h p = ground (arith, active_attempt-open s a older h)
