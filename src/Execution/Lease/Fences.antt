-- ===== src/Execution/Lease/Fences.antt =====
-- execution/service.py: the fences and the heartbeat against the specification of the ledger.
use modall.Common.{
  ℕ, Option, List, ap, arith, suc, ◌∙◌, ◌≡◌, true, sym, false, length, some, ◌∷◌, refl, [], none,
  if◌then◌else◌, ◌⊎◌, inl, inr, min, ◌≤◌, ◌+◌,
}
use modall.Execution.Types.{
  RunStatus, RunEventType, preparing, session_fenced, dispatch_fenced, is_terminal, RunFailureCode,
  same_status, JobLease, is_leased,
}
use modall.Execution.Lease.{
  fence_rows, mark_attempts, fence_refused, fence_held, heartbeat_held, lease_refused,
}
use modall.Execution.Rows.{Run, Job, RunRows, RunAttempt}
use modall.Execution.Ledger.{active_attempt, append_next_event, append_event, set_attempt, is_open}
use modall.Execution.Ledger.Invariant.{
  JobAgrees, HasJob, job_of, IsConsistent, Attempted, max_sequence-eq-length, active_attempt-open,
  ErrorCode, Dispatched, dispatches, is_dispatch, lease_epoch_of,
}
use modall.Execution.Ledger.Advance.{
  Pinned, ◌⟶◌, Advanced, step, here, more, same, Advanced-refl, Pinned-refl,
}
use mathlib.Core.Bool.{false≢true}
use modall.Execution.World.{Env, SystemExecutionState, held_now, Held}
use modall.Registry.Rows.{Tables}
use mathlib.Core.Path.{subst}
use modall.Execution.Ledger.Terminalize.{HasJob-some}

-- the two fences
pub data Fence : RunStatus → RunStatus → RunEventType → Type 0 where
  session : Fence preparing session_fenced RunEventType.session_fenced
  tool_call : Fence session_fenced dispatch_fenced RunEventType.dispatch_fenced

mark_attempts-Attempted :
    (s t : RunStatus) (attempts : List RunAttempt)
    → Attempted s attempts
    → is_open s ≡ true
    → is_open t ≡ true
    → Attempted t (mark_attempts t attempts) × (length (mark_attempts t attempts) ≡ length attempts)
unfolding mark_attempts active_attempt set_attempt
mark_attempts-Attempted s t [] h p q = cc
mark_attempts-Attempted s t (a ∷ rest) h p q = ground (arith, active_attempt-open s a rest h)

-- a job that stays leased
JobAgrees-leased :
    (run run' : Run) (j : Job)
    → JobAgrees run j
    → Pinned run run'
    → job_of run'.status ≡ job_of run.status
    → is_terminal run'.status ≡ is_terminal run.status
    → JobAgrees run' j
JobAgrees-leased run run' j h p s t = record {
  status_agrees = h.status_agrees ∙ sym s;
  same_run = h.same_run ∙ sym p.id;
  same_workspace = h.same_workspace ∙ sym p.workspace_id;
  same_deadline = h.same_deadline ∙ sym p.deadline;
  owned = h.owned;
  expires = h.expires;
  within_deadline = h.within_deadline;
  completed = h.completed ∙ sym t;
}

HasJob-leased :
    (run run' : Run) (job : Option Job)
    → HasJob run job
    → Pinned run run'
    → job_of run'.status ≡ job_of run.status
    → is_terminal run'.status ≡ is_terminal run.status
    → HasJob run' job
HasJob-leased run run' none h p s t = h
HasJob-leased run run' (some j) h p s t = JobAgrees-leased run run' j h p s t

fenced_run : RunStatus → ℕ → Run → Run
fenced_run target now run = record run { status = target; updated_at = now }

-- what a fence needs of the two statuses
record FenceFacts (s t : RunStatus) (event_type : RunEventType) : Type 0 where
  edge : s ⟶ t
  open_before : is_open s ≡ true
  open_after : is_open t ≡ true
  running : is_terminal s ≡ false
  same_job : job_of t ≡ job_of s
  same_end : is_terminal t ≡ is_terminal s
  uncoded : (code : Option RunFailureCode) → ErrorCode t code
  released : (n : ℕ) → Dispatched s n → Dispatched t (if is_dispatch event_type then suc n else n)

Fence-FenceFacts :
    {s t : RunStatus} {event_type : RunEventType} → Fence s t event_type → FenceFacts s t event_type
Fence-FenceFacts session = record {
  edge = ◌⟶◌.open_session;
  open_before = refl;
  open_after = refl;
  running = refl;
  same_job = refl;
  same_end = refl;
  uncoded = λ _. tt;
  released = λ n d. d;
}
Fence-FenceFacts tool_call = record {
  edge = ◌⟶◌.dispatch;
  open_before = refl;
  open_after = refl;
  running = refl;
  same_job = refl;
  same_end = refl;
  uncoded = λ _. tt;
  released = λ n d. ap suc d;
}

pub fence_rows-Advanced :
    (t : RunStatus) (event_type : RunEventType) (now : ℕ) (r : RunRows)
    → IsConsistent r
    → Fence r.run.status t event_type
    → Advanced r (fence_rows t event_type now r)
unfolding fence_rows append_next_event append_event
fence_rows-Advanced t event_type now r h fence =
    let f = Fence-FenceFacts fence in
    let marked =
      mark_attempts-Attempted r.run.status t r.attempts h.attempted f.open_before f.open_after in
    record {
      consistent = record {
        numbered = (omega (arith, max_sequence-eq-length r.events h.numbered), h.numbered);
        latest = refl;
        dispatched = f.released (dispatches r.events) h.dispatched;
        error_code = f.uncoded r.run.safe_error_code;
        terminal_time = h.terminal_time ∙ sym f.same_end;
        content = h.content;
        has_job = HasJob-leased r.run _ r.job h.has_job (ground arith) f.same_job f.same_end;
        epoch = h.epoch ∙ sym marked.1;
        attempted = marked.0;
      };
      moved = step f.edge here;
      settled = λ e. absurd (false≢true (sym f.running ∙ e));
      pinned = ground arith;
      history = more _ same;
      epochs = omega arith;
    }

pub same_status-eq : (a b : RunStatus) → same_status a b ≡ true → a ≡ b
same_status-eq a b h = ground arith

-- an accepted fence found the run in the expected status
fence_refused-status :
    (state : SystemExecutionState) (tables : Tables) (lease : JobLease) (expected : RunStatus)
    (now : ℕ) (r : RunRows) (job : Job)
    → fence_refused state tables lease expected now r job ≡ false
    → same_status r.run.status expected ≡ true
unfolding fence_refused
fence_refused-status state tables lease expected now r job h = ground arith

module _ (env : Env) (state : SystemExecutionState) (tables : Tables) (lease : JobLease) where
  -- a fence writes nothing, or it found the expected status
  fence_held-cases :
      (expected target : RunStatus) (event_type : RunEventType) (h : Held)
      → let rows = (fence_held env state tables lease expected target event_type h).1.rows in
        (rows ≡ h.rows)
        ⊎ ((same_status h.rows.run.status expected ≡ true)
            × (rows ≡ fence_rows target event_type (env.clock h.reads) h.rows))
  unfolding fence_held held_now
  fence_held-cases expected target event_type h = grind (arith, fence_refused-status)

  pub fence_held-Advanced :
      (expected target : RunStatus) (event_type : RunEventType) (h : Held)
      → IsConsistent h.rows
      → Fence expected target event_type
      → Advanced h.rows (fence_held env state tables lease expected target event_type h).1.rows
  fence_held-Advanced expected target event_type h c fence =
      elim (fence_held-cases expected target event_type h) [
        | inl e ↦ rw e (Advanced-refl h.rows c)
        | inr p ↦ rw p.1 (
            fence_rows-Advanced target event_type (env.clock h.reads) h.rows c
              (subst (λ s. Fence s target event_type) (sym (same_status-eq _ _ p.0)) fence))
      ]

-- the write of `heartbeat`
abbrev renewed_rows : ℕ → Job → RunRows → RunRows
renewed_rows expires j r = record r { job = some (record j { lease_expires_at = some expires }) }

renewed_rows-Advanced :
    (expires : ℕ) (j : Job) (r : RunRows)
    → IsConsistent r
    → r.job ≡ some j
    → is_leased j.status ≡ true
    → expires ≤ j.deadline
    → Advanced r (renewed_rows expires j r)
renewed_rows-Advanced expires j r h e leased within =
    let agrees : JobAgrees r.run j = subst (HasJob r.run) e h.has_job in
    record {
      consistent = record {
        numbered = h.numbered;
        latest = h.latest;
        dispatched = h.dispatched;
        error_code = h.error_code;
        terminal_time = h.terminal_time;
        content = h.content;
        has_job = record {
          status_agrees = agrees.status_agrees;
          same_run = agrees.same_run;
          same_workspace = agrees.same_workspace;
          same_deadline = agrees.same_deadline;
          owned = agrees.owned;
          expires = sym leased;
          within_deadline = within;
          completed = agrees.completed;
        };
        epoch = ap lease_epoch_of (sym e) ∙ h.epoch;
        attempted = h.attempted;
      };
      moved = here;
      settled = λ over. absurd (
          false≢true
            (leased_running r.run.status (ap is_leased (sym agrees.status_agrees) ∙ leased) over));
      pinned = Pinned-refl r.run;
      history = same;
      epochs = omega (arith, ap lease_epoch_of e);
    }
  where
    leased_running :
        (s : RunStatus) → is_leased (job_of s) ≡ true → is_terminal s ≡ true → false ≡ true
    leased_running s p q = ground arith

lease_refused-leased :
    (state : SystemExecutionState) (lease : JobLease) (job : Job)
    → lease_refused state lease job ≡ false
    → is_leased job.status ≡ true
unfolding lease_refused
lease_refused-leased state lease job h = ground arith

module _ (env : Env) (state : SystemExecutionState) (lease : JobLease) (duration : ℕ) where
  heartbeat_held-cases :
      (h : Held) (j : Job)
      → h.rows.job ≡ some j
      → let rows = (heartbeat_held env state lease duration h).1.rows in
        (rows ≡ h.rows)
        ⊎ ((is_leased j.status ≡ true)
            × (rows ≡ renewed_rows (min (env.clock h.reads + duration) j.deadline) j h.rows))
  unfolding heartbeat_held held_now
  heartbeat_held-cases h j e = ground (arith, lease_refused-leased state lease j)

  pub heartbeat_held-Advanced :
      (h : Held)
      → IsConsistent h.rows
      → Advanced h.rows (heartbeat_held env state lease duration h).1.rows
  heartbeat_held-Advanced h c =
      let (j, e) = HasJob-some h.rows c.has_job in
      elim (heartbeat_held-cases h j e) [
        | inl same_rows ↦ rw same_rows (Advanced-refl h.rows c)
        | inr p ↦ rw p.1 (renewed_rows-Advanced _ j h.rows c e p.0 (omega arith))
      ]
