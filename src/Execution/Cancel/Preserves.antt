-- ===== src/Execution/Cancel/Preserves.antt =====
-- execution/service.py: `cancel_run` against the specification of the ledger.
use modall.Common.{
  ℕ, ◌≡◌, false, Bool-cases, true, inl, leb, inr, none, refl, sym, Act, ◌>>◌, gets, arith,
}
use modall.Execution.Cancel.{cancel_held, cancel_in_time, request_cancel, apply_cancel}
use modall.Execution.Types.{
  RunStatus, is_terminal, RunEventType, dispatch_fenced, queued, preparing, session_fenced,
}
use modall.Execution.Rows.{RunRows}
use modall.Execution.World.{held_now, Env, Held}
use modall.Execution.Ledger.Invariant.{IsConsistent}
use modall.Execution.Lease.{on_rows}
use modall.Execution.Ledger.Advance.{Advanced, Advanced-trans, Advanced-refl}
use modall.Execution.Ledger.Notes.{touched-Advanced, noted-Advanced}
use modall.Execution.Ledger.Terminalize.{terminalize_run-Advanced}
use modall.Execution.Lease.Completion.{deadline_status-ends}
use mathlib.Core.Bool.{false≢true}
use mathlib.Core.Path.{subst}

cancel_in_time-Advanced :
    (now : ℕ) (s : RunStatus) (r : RunRows)
    → IsConsistent r
    → r.run.status ≡ s
    → is_terminal s ≡ false
    → Advanced r (cancel_in_time now s r).1
unfolding cancel_in_time
cancel_in_time-Advanced now dispatch_fenced r h e running =
    let t = touched-Advanced r r.run.cancellation_requested now h in
    Advanced-trans t
      (rw (← e) (noted-Advanced _ RunEventType.cancel_requested none now t.consistent refl))
cancel_in_time-Advanced now queued r h e running =
    (terminalize_run-Advanced _ now _ _ r h refl (rw e refl)).1
cancel_in_time-Advanced now preparing r h e running =
    (terminalize_run-Advanced _ now _ _ r h refl (rw e refl)).1
cancel_in_time-Advanced now session_fenced r h e running =
    (terminalize_run-Advanced _ now _ _ r h refl (rw e refl)).1
cancel_in_time-Advanced now _ r h e running = absurd (false≢true (sym running))

request_cancel-Advanced :
    (now : ℕ) (r : RunRows)
    → IsConsistent r
    → is_terminal r.run.status ≡ false
    → Advanced r (request_cancel now r).1
unfolding request_cancel
request_cancel-Advanced now r h running =
    let t = touched-Advanced r true r.run.updated_at h in
    elim (Bool-cases (leb r.run.deadline now)) [
      | inl late ↦ rw late (
          Advanced-trans t
            (terminalize_run-Advanced _ now _ _ _ t.consistent refl
              (deadline_status-ends _ running)).1)
      | inr early ↦
          rw early (
            Advanced-trans t (cancel_in_time-Advanced now r.run.status _ t.consistent refl running))
    ]

-- a read after an action leaves the state that the action left, also where it raised
read_after :
    {A : Type 0} (m : Act Held Unit) (f : Held → A) (h : Held) → ((m >> gets f) h).1 ≡ (m h).1
read_after m f h = ground arith

apply_cancel-Advanced :
    (env : Env) (h : Held)
    → IsConsistent h.rows
    → is_terminal h.rows.run.status ≡ false
    → Advanced h.rows (apply_cancel env h).1.rows
unfolding apply_cancel held_now on_rows
apply_cancel-Advanced env h c running = request_cancel-Advanced (env.clock h.reads) h.rows c running

pub cancel_held-Advanced :
    (env : Env) (h : Held) → IsConsistent h.rows → Advanced h.rows (cancel_held env h).1.rows
unfolding cancel_held
cancel_held-Advanced env h c = elim (Bool-cases (is_terminal h.rows.run.status)) [
  | inl over ↦ rw over (Advanced-refl h.rows c)
  | inr running ↦ rw running (
      subst (λ x. Advanced h.rows x.rows)
        (sym (read_after (apply_cancel env) (λ x. (x.rows.run, true)) h))
        (apply_cancel-Advanced env h c running))
]
