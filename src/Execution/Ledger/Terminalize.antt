-- ===== src/Execution/Ledger/Terminalize.antt =====
-- execution/service.py: `_terminalize_run` against the specification of the ledger.
use mathlib.Core.Path.{subst}
use mathlib.Core.Bool.{false≢true}
use modall.Common.{
  ℕ, ◌≡◌, Bool, true, false, some, List, [], ◌∷◌, arith, length, ◌∙◌, refl, sym, ok, Option-cases,
  ap, inl, inr,
}
use modall.Execution.Types.{
  RunStatus, RunFailureCode, queued, preparing, session_fenced, dispatch_fenced, failed, cancelled,
  timed_out, indeterminate, job_status, is_leased, is_terminal, RunEventType,
}
use modall.Execution.Rows.{Job, RunAttempt, Run, RunRows}
use modall.Execution.Ledger.{
  end_job, end_attempts, is_open, active_attempt, set_attempt, terminalize_run, append_next_event,
  append_event,
}
use modall.Execution.Ledger.Invariant.{
  active_attempt-open, Dispatched, ErrorCode, job_of, JobAgrees, Attempted, IsConsistent,
  is_dispatch, HasJob, max_sequence-eq-length, dispatches, lease_epoch_of,
}
use modall.Execution.Ledger.Advance.{
  EndsUndispatched, ◌⟶◌, give_up, conclude, in_queue, in_preparation, in_session, as_indeterminate,
  Advanced, step, here, more, same,
}

-- the ends that the service itself brings about
abbrev pub ends : RunStatus → RunStatus → Bool
ends queued failed = true
ends queued cancelled = true
ends queued timed_out = true
ends preparing failed = true
ends preparing cancelled = true
ends preparing timed_out = true
ends session_fenced failed = true
ends session_fenced cancelled = true
ends session_fenced timed_out = true
ends dispatch_fenced indeterminate = true
ends _ _ = false

pub ends-⟶ : (s t : RunStatus) → ends s t ≡ true → s ⟶ t
ends-⟶ queued failed h = give_up in_queue EndsUndispatched.as_failed
ends-⟶ queued cancelled h = give_up in_queue EndsUndispatched.as_cancelled
ends-⟶ queued timed_out h = give_up in_queue EndsUndispatched.as_timed_out
ends-⟶ preparing failed h = give_up in_preparation EndsUndispatched.as_failed
ends-⟶ preparing cancelled h = give_up in_preparation EndsUndispatched.as_cancelled
ends-⟶ preparing timed_out h = give_up in_preparation EndsUndispatched.as_timed_out
ends-⟶ session_fenced failed h = give_up in_session EndsUndispatched.as_failed
ends-⟶ session_fenced cancelled h = give_up in_session EndsUndispatched.as_cancelled
ends-⟶ session_fenced timed_out h = give_up in_session EndsUndispatched.as_timed_out
ends-⟶ dispatch_fenced indeterminate h = conclude as_indeterminate
ends-⟶ _ _ h = cc

pub record EndFacts (s t : RunStatus) : Type 0 where
  pub job_state : job_status t ≡ some (job_of t)
  pub free : is_leased (job_of t) ≡ false
  pub over : is_terminal t ≡ true
  pub shut : is_open t ≡ false
  pub running : is_terminal s ≡ false
  pub coded : (code : RunFailureCode) → ErrorCode t (some code)
  pub released : (n : ℕ) → Dispatched s n → Dispatched t n

pub ends-EndFacts : (s t : RunStatus) → ends s t ≡ true → EndFacts s t
ends-EndFacts s t h = record {
  job_state = ground arith;
  free = ground arith;
  over = ground arith;
  shut = ground arith;
  running = ground arith;
  coded = λ c. ground arith;
  released = λ n d. ground arith;
}

-- the newest attempt, if it is open, is closed; the numbering stays
end_attempts-Attempted :
    (s t : RunStatus) (code : RunFailureCode) (now : ℕ) (attempts : List RunAttempt)
    → Attempted s attempts
    → is_open t ≡ false
    → (Attempted t (end_attempts t code now attempts))
      × (length (end_attempts t code now attempts) ≡ length attempts)
unfolding end_attempts active_attempt set_attempt
end_attempts-Attempted s t code now [] h shut = (shut, refl)
end_attempts-Attempted s t code now (a ∷ rest) h shut =
    ground (arith, active_attempt-open s a rest h)

end_job-JobAgrees :
    (run run' : Run) (j : Job) (now : ℕ)
    → JobAgrees run j
    → run'.id ≡ run.id
    → run'.workspace_id ≡ run.workspace_id
    → run'.deadline ≡ run.deadline
    → is_leased (job_of run'.status) ≡ false
    → is_terminal run'.status ≡ true
    → JobAgrees run' (end_job (job_of run'.status) now j)
unfolding end_job
end_job-JobAgrees run run' j now h i w d free over = record {
  status_agrees = refl;
  same_run = h.same_run ∙ sym i;
  same_workspace = h.same_workspace ∙ sym w;
  same_deadline = h.same_deadline ∙ sym d;
  owned = sym free;
  expires = sym free;
  within_deadline = tt;
  completed = sym over;
}

-- the rows that `_terminalize_run` leaves
abbrev ended_run : RunStatus → ℕ → RunFailureCode → Run → Run
ended_run status now code run = record run {
  status = status;
  safe_error_code = some code;
  updated_at = now;
  terminal_at = some now;
}

abbrev pub ended_rows : RunStatus → ℕ → RunFailureCode → RunEventType → Job → RunRows → RunRows
ended_rows status now code event_type j r =
    append_next_event event_type status (some code) now (record r {
      run = ended_run status now code r.run;
      job = some (end_job (job_of status) now j);
      attempts = end_attempts status code now r.attempts;
    })

module _ (status : RunStatus) (now : ℕ) (code : RunFailureCode) (event_type : RunEventType) where
  pub terminalize_run-eq :
      (r : RunRows) (j : Job)
      → r.job ≡ some j
      → job_status status ≡ some (job_of status)
      → terminalize_run status now code event_type r
        ≡ (ok tt, ended_rows status now code event_type j r)
  unfolding terminalize_run append_next_event
  terminalize_run-eq r j e s = ground arith

  module _ (r : RunRows) (j : Job) (job_eq : r.job ≡ some j) (h : IsConsistent r)
      (quiet : is_dispatch event_type ≡ false) (facts : EndFacts r.run.status status) where
    ended_rows-IsConsistent : IsConsistent (ended_rows status now code event_type j r)
    unfolding append_next_event append_event end_job
    ended_rows-IsConsistent = record {
      numbered = (omega (arith, max_sequence-eq-length r.events h.numbered), h.numbered);
      latest = refl;
      dispatched = rw quiet (facts.released (dispatches r.events) h.dispatched);
      error_code = facts.coded code;
      terminal_time = sym facts.over;
      content = h.content;
      has_job =
          end_job-JobAgrees r.run (ended_run status now code r.run) j now
            (subst (HasJob r.run) job_eq h.has_job) refl refl refl facts.free facts.over;
      epoch =
          ap lease_epoch_of (sym job_eq)
          ∙ h.epoch
          ∙ sym
              (end_attempts-Attempted r.run.status status code now r.attempts h.attempted
                facts.shut).1;
      attempted =
          (end_attempts-Attempted r.run.status status code now r.attempts h.attempted facts.shut).0;
    }

    pub ended_rows-Advanced :
        r.run.status ⟶ status → Advanced r (ended_rows status now code event_type j r)
    unfolding append_next_event append_event end_job
    ended_rows-Advanced edge = record {
      consistent = ended_rows-IsConsistent;
      moved = step edge here;
      settled = λ e. absurd (false≢true (sym facts.running ∙ e));
      pinned = ground arith;
      history = more _ same;
      epochs = omega (arith, ap lease_epoch_of job_eq);
    }

pub HasJob-some : (r : RunRows) → HasJob r.run r.job → (j : Job) × (r.job ≡ some j)
HasJob-some r h = elim (Option-cases r.job) [
  | inl e ↦ absurd (subst (HasJob r.run) e h)
  | inr p ↦ p
]

-- A run that is consistent and has not ended is ended along the diagram, and nothing raises.
pub terminalize_run-Advanced :
    (status : RunStatus) (now : ℕ) (code : RunFailureCode) (event_type : RunEventType) (r : RunRows)
    → IsConsistent r
    → is_dispatch event_type ≡ false
    → ends r.run.status status ≡ true
    → ((terminalize_run status now code event_type r).0 ≡ ok tt)
      × Advanced r (terminalize_run status now code event_type r).1
terminalize_run-Advanced status now code event_type r h quiet e =
    let facts = ends-EndFacts r.run.status status e in
    let (j, job_eq) = HasJob-some r h.has_job in
    rw (terminalize_run-eq status now code event_type r j job_eq facts.job_state)
      (refl, ended_rows-Advanced status now code event_type r j job_eq h quiet facts (ends-⟶ _ _ e))

-- the status that it leaves
pub terminalize_run-run :
    (status : RunStatus) (now : ℕ) (code : RunFailureCode) (event_type : RunEventType) (r : RunRows)
    → IsConsistent r
    → ends r.run.status status ≡ true
    → ((terminalize_run status now code event_type r).0 ≡ ok tt)
      × ((terminalize_run status now code event_type r).1.run.status ≡ status)
      × ((terminalize_run status now code event_type r).1.run.cancellation_requested
          ≡ r.run.cancellation_requested)
unfolding append_next_event append_event
terminalize_run-run status now code event_type r h e =
    let facts = ends-EndFacts r.run.status status e in
    let (j, job_eq) = HasJob-some r h.has_job in
    rw (terminalize_run-eq status now code event_type r j job_eq facts.job_state) (refl, refl, refl)
