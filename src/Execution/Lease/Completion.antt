-- ===== src/Execution/Lease/Completion.antt =====
-- execution/service.py: `complete_lease` against the specification of the ledger.
use modall.Common.{
  ℕ, Option, ◌≡◌, true, false, some, Bool, arith, List, length, ◌∷◌, [], refl, sym, ap, ◌∙◌, none,
  ◌⊎◌, inl, ◌+◌, inr, Option-cases,
}
use modall.Execution.Types.{
  RunStatus, RunFailureCode, dispatch_fenced, is_leased, is_terminal, job_status, preparing,
  session_fenced, failed, cancelled, succeeded, indeterminate, JobLease, JobStatus,
  deadline_exceeded, RunEventType,
}
use modall.Execution.Ledger.Advance.{
  ◌⟶◌, EndsDispatched, EndsUndispatched, conclude, give_up, in_preparation, in_session, Advanced,
  step, here, more, same, Advanced-refl,
}
use modall.Execution.Ledger.{
  is_open, set_attempt, active_attempt, append_next_event, append_event, terminalize_run,
}
use modall.Execution.Ledger.Invariant.{
  ErrorCode, job_of, Dispatched, Attempted, active_attempt-open, IsConsistent, JobAgrees, HasJob,
  max_sequence-eq-length, dispatches, lease_epoch_of,
}
use modall.Execution.Lease.{
  completion_allowed, deadline_status, complete_rows, valid_worker_completion, complete_in_time,
  complete_late, complete_held, on_rows,
}
use modall.Execution.Rows.{Job, RunAttempt, RunRows, Run}
use modall.Execution.Ledger.Terminalize.{ends, HasJob-some, terminalize_run-Advanced}
use mathlib.Core.Path.{subst}
use mathlib.Core.Bool.{false≢true}
use modall.Execution.World.{Env, SystemExecutionState, Held, held_now}

-- what an accepted completion says of the statuses
pub record CompletionFacts (s t : RunStatus) (code : Option RunFailureCode) : Type 0 where
  pub edge : s ⟶ t
  pub open_before : is_open s ≡ true
  pub shut : is_open t ≡ false
  pub free : is_leased (job_of t) ≡ false
  pub over : is_terminal t ≡ true
  pub running : is_terminal s ≡ false
  pub coded : ErrorCode t code
  pub job_state : job_status t ≡ some (job_of t)
  pub released : (n : ℕ) → Dispatched s n → Dispatched t n

completion_allowed-CompletionFacts :
    (s : RunStatus) (requested : Bool) (t : RunStatus) (code : Option RunFailureCode)
    → completion_allowed s requested t code ≡ true
    → CompletionFacts s t code
unfolding completion_allowed
completion_allowed-CompletionFacts dispatch_fenced requested succeeded none h = record {
  edge = conclude EndsDispatched.as_succeeded;
  open_before = refl;
  shut = refl;
  free = refl;
  over = refl;
  running = refl;
  coded = refl;
  job_state = refl;
  released = λ n d. d;
}
completion_allowed-CompletionFacts preparing requested failed (some c) h = record {
  edge = give_up in_preparation EndsUndispatched.as_failed;
  open_before = refl;
  shut = refl;
  free = refl;
  over = refl;
  running = refl;
  coded = refl;
  job_state = refl;
  released = λ n d. omega arith;
}
completion_allowed-CompletionFacts session_fenced requested failed (some c) h = record {
  edge = give_up in_session EndsUndispatched.as_failed;
  open_before = refl;
  shut = refl;
  free = refl;
  over = refl;
  running = refl;
  coded = refl;
  job_state = refl;
  released = λ n d. omega arith;
}
completion_allowed-CompletionFacts dispatch_fenced requested failed (some c) h = record {
  edge = conclude EndsDispatched.as_failed;
  open_before = refl;
  shut = refl;
  free = refl;
  over = refl;
  running = refl;
  coded = refl;
  job_state = refl;
  released = λ n d. omega arith;
}
completion_allowed-CompletionFacts preparing requested cancelled (some c) h = record {
  edge = give_up in_preparation EndsUndispatched.as_cancelled;
  open_before = refl;
  shut = refl;
  free = refl;
  over = refl;
  running = refl;
  coded = refl;
  job_state = refl;
  released = λ n d. d;
}
completion_allowed-CompletionFacts session_fenced requested cancelled (some c) h = record {
  edge = give_up in_session EndsUndispatched.as_cancelled;
  open_before = refl;
  shut = refl;
  free = refl;
  over = refl;
  running = refl;
  coded = refl;
  job_state = refl;
  released = λ n d. d;
}
completion_allowed-CompletionFacts dispatch_fenced requested indeterminate (some c) h = record {
  edge = conclude EndsDispatched.as_indeterminate;
  open_before = refl;
  shut = refl;
  free = refl;
  over = refl;
  running = refl;
  coded = refl;
  job_state = refl;
  released = λ n d. d;
}
completion_allowed-CompletionFacts _ _ _ _ h = ground arith

-- the newest attempt of an open run is closed with the run
close_attempts-Attempted :
    (s t : RunStatus) (code : Option RunFailureCode) (now : ℕ) (attempts : List RunAttempt)
    (a : RunAttempt)
    → Attempted s attempts
    → active_attempt attempts ≡ some a
    → is_open s ≡ true
    → is_open t ≡ false
    → let after =
        set_attempt
          (record a { status = t; safe_error_code = code; terminal_at = some now })
          attempts in
      Attempted t after × (length after ≡ length attempts)
unfolding set_attempt active_attempt
close_attempts-Attempted s t code now [] a h e o shut = cc
close_attempts-Attempted s t code now (x ∷ rest) a h e o shut =
    ground (arith, active_attempt-open s x rest h)

module _ (status : RunStatus) (code : Option RunFailureCode) (now : ℕ) (j : Job)
    (a : RunAttempt) where
  complete_rows-Advanced :
      (r : RunRows)
      → IsConsistent r
      → r.job ≡ some j
      → active_attempt r.attempts ≡ some a
      → CompletionFacts r.run.status status code
      → Advanced r (complete_rows status (job_of status) code now j a r)
  unfolding complete_rows append_next_event append_event
  complete_rows-Advanced r h e newest f =
      let agrees : JobAgrees r.run j = subst (HasJob r.run) e h.has_job in
      let closed =
        close_attempts-Attempted r.run.status status code now r.attempts a h.attempted newest
          f.open_before f.shut in
      record {
        consistent = record {
          numbered = (omega (arith, max_sequence-eq-length r.events h.numbered), h.numbered);
          latest = refl;
          dispatched = f.released (dispatches r.events) h.dispatched;
          error_code = f.coded;
          terminal_time = sym f.over;
          content = h.content;
          has_job = record {
            status_agrees = refl;
            same_run = agrees.same_run;
            same_workspace = agrees.same_workspace;
            same_deadline = agrees.same_deadline;
            owned = sym f.free;
            expires = sym f.free;
            within_deadline = tt;
            completed = sym f.over;
          };
          epoch = ap lease_epoch_of (sym e) ∙ h.epoch ∙ sym closed.1;
          attempted = closed.0;
        };
        moved = step f.edge here;
        settled = λ over. absurd (false≢true (sym f.running ∙ over));
        pinned = ground arith;
        history = more _ same;
        epochs = omega (arith, ap lease_epoch_of e);
      }

-- the status of a run past its deadline is one that the diagram allows
pub deadline_status-ends :
    (s : RunStatus) → is_terminal s ≡ false → ends s (deadline_status s) ≡ true
deadline_status-ends s h = ground arith

pub valid-CompletionFacts :
    (run : Run) (a : RunAttempt) (status : RunStatus) (code : Option RunFailureCode)
    → valid_worker_completion run a status code ≡ true
    → CompletionFacts run.status status code
unfolding valid_worker_completion
valid-CompletionFacts run a status code h =
    completion_allowed-CompletionFacts run.status run.cancellation_requested status code
      (ground arith)

module _ (lease : JobLease) (status : RunStatus) (code : Option RunFailureCode) where
  complete_in_time-none :
      (now : ℕ) (j : Job) (h : Held)
      → (active_attempt h.rows.attempts ≡ none) ⊎ (job_status status ≡ none)
      → (complete_in_time lease status code now j h).1.rows ≡ h.rows
  unfolding complete_in_time
  complete_in_time-none now j h (inl e) = grind arith
  complete_in_time-none now j h (inr e) = grind arith

  -- before the deadline: no write, or the accepted completion of the newest attempt
  complete_in_time-cases :
      (now : ℕ) (j : Job) (a : RunAttempt) (js : JobStatus) (h : Held)
      → active_attempt h.rows.attempts ≡ some a
      → job_status status ≡ some js
      → let rows = (complete_in_time lease status code now j h).1.rows in
        (rows ≡ h.rows)
        ⊎ ((valid_worker_completion h.rows.run a status code ≡ true)
            × (rows ≡ complete_rows status js code now j a h.rows))
  unfolding complete_in_time
  complete_in_time-cases now j a js h e f = grind arith

  complete_in_time-Advanced :
      (now : ℕ) (j : Job) (h : Held)
      → IsConsistent h.rows
      → h.rows.job ≡ some j
      → Advanced h.rows (complete_in_time lease status code now j h).1.rows
  complete_in_time-Advanced now j h c e =
      split (Option-cases (active_attempt h.rows.attempts)) (Option-cases (job_status status))
    where
      accepted :
          (a : RunAttempt) (js : JobStatus)
          → active_attempt h.rows.attempts ≡ some a
          → job_status status ≡ some js
          → valid_worker_completion h.rows.run a status code ≡ true
          → Advanced h.rows (complete_rows status js code now j a h.rows)
      accepted a js newest state_eq valid =
          let facts = valid-CompletionFacts h.rows.run a status code valid in
          let same_state : js ≡ job_of status = cc (sym state_eq ∙ facts.job_state) in
          subst (λ x. Advanced h.rows (complete_rows status x code now j a h.rows)) (sym same_state)
            (complete_rows-Advanced status code now j a h.rows c e newest facts)

      split :
          (active_attempt h.rows.attempts ≡ none)
            ⊎ ((a : RunAttempt) × (active_attempt h.rows.attempts ≡ some a))
          → (job_status status ≡ none) ⊎ ((js : JobStatus) × (job_status status ≡ some js))
          → Advanced h.rows (complete_in_time lease status code now j h).1.rows
      split (inl p) q = rw (complete_in_time-none now j h (inl p)) (Advanced-refl h.rows c)
      split (inr p) (inl q) = rw (complete_in_time-none now j h (inr q)) (Advanced-refl h.rows c)
      split (inr (a, p)) (inr (js, q)) = elim (complete_in_time-cases now j a js h p q) [
        | inl kept ↦ rw kept (Advanced-refl h.rows c)
        | inr (valid, written) ↦ rw written (accepted a js p q valid)
      ]

complete_late-Advanced :
    (now : ℕ) (h : Held)
    → IsConsistent h.rows
    → is_terminal h.rows.run.status ≡ false
    → Advanced h.rows (complete_late now h).1.rows
unfolding complete_late on_rows terminalize_run
complete_late-Advanced now h c running =
    let t =
      terminalize_run-Advanced (deadline_status h.rows.run.status) now deadline_exceeded
        RunEventType.terminal h.rows c refl (deadline_status-ends h.rows.run.status running) in
    rw t.0 t.1

module _ (env : Env) (state : SystemExecutionState) (lease : JobLease) (status : RunStatus)
    (code : Option RunFailureCode) where
  complete_held-cases :
      (h : Held) (j : Job)
      → h.rows.job ≡ some j
      → let now = env.clock h.reads in
        let later : Held = record { rows = h.rows; reads = h.reads + 1 } in
        let rows = (complete_held env state lease status code h).1.rows in
        (rows ≡ h.rows)
        ⊎ ((is_terminal h.rows.run.status ≡ false) × (rows ≡ (complete_late now later).1.rows))
        ⊎ (rows ≡ (complete_in_time lease status code now j later).1.rows)
  unfolding complete_held held_now
  complete_held-cases h j e = grind arith

  pub complete_held-Advanced :
      (h : Held)
      → IsConsistent h.rows
      → Advanced h.rows (complete_held env state lease status code h).1.rows
  complete_held-Advanced h c =
      let (j, e) = HasJob-some h.rows c.has_job in
      let later : Held = record { rows = h.rows; reads = h.reads + 1 } in
      elim (complete_held-cases h j e) [
        | inl kept ↦ rw kept (Advanced-refl h.rows c)
        | inr (inl (running, late)) ↦
            rw late (complete_late-Advanced (env.clock h.reads) later c running)
        | inr (inr in_time) ↦
            rw in_time (complete_in_time-Advanced lease status code (env.clock h.reads) j later c e)
      ]
