-- ===== src/Execution/Ledger/Notes.antt =====
-- Writes that leave the status of a run alone.
use modall.Common.{ℕ, Option, Bool, none, ◌≡◌, arith, false, some, ◌∙◌, refl, ap, sym}
use modall.Execution.Ledger.{append_next_event, append_event}
use modall.Execution.Rows.{Run, RunRows, Job, RunResult}
use modall.Execution.Ledger.Invariant.{
  IsConsistent, HasJob, is_dispatch, max_sequence-eq-length, job_of,
}
use modall.Execution.Types.{RunEventType, RunFailureCode, is_terminal}
use modall.Execution.Ledger.Advance.{Advanced, here, same, more}

HasJob-kept :
    (run run' : Run) (job : Option Job)
    → HasJob run job
    → run'.status ≡ run.status
    → run'.id ≡ run.id
    → run'.workspace_id ≡ run.workspace_id
    → run'.deadline ≡ run.deadline
    → HasJob run' job
HasJob-kept run run' none h s i w d = h
HasJob-kept run run' (some j) h s i w d = record {
  status_agrees = h.status_agrees ∙ ap job_of (sym s);
  same_run = h.same_run ∙ sym i;
  same_workspace = h.same_workspace ∙ sym w;
  same_deadline = h.same_deadline ∙ sym d;
  owned = h.owned;
  expires = h.expires;
  within_deadline = h.within_deadline;
  completed = h.completed ∙ ap is_terminal (sym s);
}

-- fields that no other row depends on
pub touched-Advanced :
    (r : RunRows) (requested : Bool) (updated_at : ℕ)
    → IsConsistent r
    → Advanced r (record r {
      run = record r.run { cancellation_requested = requested; updated_at = updated_at };
    })
touched-Advanced r requested updated_at h = record {
  consistent = record {
    numbered = h.numbered;
    latest = h.latest;
    dispatched = h.dispatched;
    error_code = h.error_code;
    terminal_time = h.terminal_time;
    content = h.content;
    has_job = HasJob-kept r.run _ r.job h.has_job refl refl refl refl;
    epoch = h.epoch;
    attempted = h.attempted;
  };
  moved = here;
  settled = λ _. ground arith;
  pinned = ground arith;
  history = same;
  epochs = omega arith;
}

pub dropped-Advanced :
    (r : RunRows) (updated_at : ℕ)
    → IsConsistent r
    → Advanced r (record r {
      run = record r.run { arguments = none; argument_digest = none; updated_at = updated_at };
    })
dropped-Advanced r updated_at h = record {
  consistent = record {
    numbered = h.numbered;
    latest = h.latest;
    dispatched = h.dispatched;
    error_code = h.error_code;
    terminal_time = h.terminal_time;
    content = refl;
    has_job = HasJob-kept r.run _ r.job h.has_job refl refl refl refl;
    epoch = h.epoch;
    attempted = h.attempted;
  };
  moved = here;
  settled = λ _. ground arith;
  pinned = ground arith;
  history = same;
  epochs = omega arith;
}

pub stored-Advanced :
    (r : RunRows) (result : Option RunResult)
    → IsConsistent r
    → Advanced r (record r { result = result })
stored-Advanced r result h = record {
  consistent = record {
    numbered = h.numbered;
    latest = h.latest;
    dispatched = h.dispatched;
    error_code = h.error_code;
    terminal_time = h.terminal_time;
    content = h.content;
    has_job = h.has_job;
    epoch = h.epoch;
    attempted = h.attempted;
  };
  moved = here;
  settled = λ _. ground arith;
  pinned = ground arith;
  history = same;
  epochs = omega arith;
}

-- an event that records the present status
pub noted-Advanced :
    (r : RunRows) (event_type : RunEventType) (code : Option RunFailureCode) (now : ℕ)
    → IsConsistent r
    → is_dispatch event_type ≡ false
    → Advanced r (append_next_event event_type r.run.status code now r)
unfolding append_next_event append_event
noted-Advanced r event_type code now h quiet = record {
  consistent = record {
    numbered = (omega (arith, max_sequence-eq-length r.events h.numbered), h.numbered);
    latest = refl;
    dispatched = rw quiet h.dispatched;
    error_code = h.error_code;
    terminal_time = h.terminal_time;
    content = h.content;
    has_job = h.has_job;
    epoch = h.epoch;
    attempted = h.attempted;
  };
  moved = here;
  settled = λ _. ground arith;
  pinned = ground arith;
  history = more _ same;
  epochs = omega arith;
}
