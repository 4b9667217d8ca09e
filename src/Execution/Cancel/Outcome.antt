-- ===== src/Execution/Cancel/Outcome.antt =====
-- What `cancel_run` does to the run that it locks, on every branch.
use modall.Common.{
  ℕ, if◌then◌else◌, ◌≡◌, true, leb, false, ok, Bool-cases, inl, sym, refl, inr, ◌∙◌, arith, not,
  Act, ◌>>◌, gets, Bool,
}
use modall.Execution.Ledger.Terminalize.{terminalize_run-run}
use modall.Execution.Ledger.{append_next_event, append_event}
use modall.Execution.Rows.{RunRows, Run}
use modall.Execution.Types.{
  RunStatus, is_terminal, timed_out, RunEventType, cancelled, indeterminate, same_status,
  dispatch_fenced, queued, preparing, session_fenced, deadline_exceeded,
}
use modall.Execution.Cancel.{request_cancel, cancel_in_time, apply_cancel, cancel_held}
use modall.Execution.Ledger.Invariant.{IsConsistent}
use modall.Execution.Ledger.Notes.{touched-Advanced}
use mathlib.Core.Bool.{false≢true}
use modall.Execution.Lease.{deadline_status, on_rows}
use modall.Execution.Lease.Completion.{deadline_status-ends}
use modall.Execution.World.{Env, Held, held_now}

-- the status that a cancellation leaves, from the status, the deadline and the time
abbrev pub cancelled_status : RunStatus → ℕ → ℕ → RunStatus
cancelled_status queued deadline now = if leb deadline now then timed_out else cancelled
cancelled_status preparing deadline now = if leb deadline now then timed_out else cancelled
cancelled_status session_fenced deadline now = if leb deadline now then timed_out else cancelled
cancelled_status dispatch_fenced deadline now =
    if leb deadline now then indeterminate else dispatch_fenced
cancelled_status s deadline now = s

cancel_in_time-lem :
    (now : ℕ) (s : RunStatus) (r : RunRows)
    → IsConsistent r
    → r.run.status ≡ s
    → is_terminal s ≡ false
    → ((cancel_in_time now s r).0 ≡ ok tt)
      × ((cancel_in_time now s r).1.run.status
          ≡ (if same_status s dispatch_fenced then dispatch_fenced else cancelled))
      × ((cancel_in_time now s r).1.run.cancellation_requested ≡ r.run.cancellation_requested)
unfolding cancel_in_time append_next_event append_event
cancel_in_time-lem now dispatch_fenced r h e running = (refl, e, refl)
cancel_in_time-lem now queued r h e running = terminalize_run-run cancelled now _ _ r h (rw e refl)
cancel_in_time-lem now preparing r h e running =
    terminalize_run-run cancelled now _ _ r h (rw e refl)
cancel_in_time-lem now session_fenced r h e running =
    terminalize_run-run cancelled now _ _ r h (rw e refl)
cancel_in_time-lem now _ r h e running = absurd (false≢true (sym running))

abbrev requested : RunRows → RunRows
requested r = record r { run = record r.run { cancellation_requested = true } }

late_status :
    (s : RunStatus) (deadline now : ℕ)
    → is_terminal s ≡ false
    → leb deadline now ≡ true
    → deadline_status s ≡ cancelled_status s deadline now
late_status s deadline now h e = ground arith

early_status :
    (s : RunStatus) (deadline now : ℕ)
    → is_terminal s ≡ false
    → leb deadline now ≡ false
    → (if same_status s dispatch_fenced then dispatch_fenced else cancelled)
      ≡ cancelled_status s deadline now
early_status s deadline now h e = ground arith

request_cancel-lem :
    (now : ℕ) (r : RunRows)
    → IsConsistent r
    → is_terminal r.run.status ≡ false
    → ((request_cancel now r).0 ≡ ok tt)
      × ((request_cancel now r).1.run.status ≡ cancelled_status r.run.status r.run.deadline now)
      × ((request_cancel now r).1.run.cancellation_requested ≡ true)
unfolding request_cancel
request_cancel-lem now r h running =
    let t = (touched-Advanced r true r.run.updated_at h).consistent in
    elim (Bool-cases (leb r.run.deadline now)) [
      | inl late ↦
          let p =
            terminalize_run-run (deadline_status r.run.status) now deadline_exceeded
              RunEventType.terminal (requested r) t (deadline_status-ends _ running) in
          rw late (p.0, p.1 ∙ late_status r.run.status r.run.deadline now running late, p.2)
      | inr early ↦
          let p = cancel_in_time-lem now r.run.status (requested r) t refl running in
          rw early (p.0, p.1 ∙ early_status r.run.status r.run.deadline now running early, p.2)
    ]

unmoved :
    (s : RunStatus) (deadline now : ℕ) → is_terminal s ≡ true → s ≡ cancelled_status s deadline now
unmoved s deadline now e = ground arith

then_read :
    {A : Type 0} (m : Act Held Unit) (f : Held → A) (h : Held)
    → (m h).0 ≡ ok tt
    → (m >> gets f) h ≡ (ok (f (m h).1), (m h).1)
then_read m f h e = ground arith

module _ (env : Env) (h : Held) (c : IsConsistent h.rows) where
  apply_cancel-lem :
      is_terminal h.rows.run.status ≡ false
      → ((apply_cancel env h).0 ≡ ok tt)
        × ((apply_cancel env h).1.rows.run.status
            ≡ cancelled_status h.rows.run.status h.rows.run.deadline (env.clock h.reads))
        × ((apply_cancel env h).1.rows.run.cancellation_requested ≡ true)
  unfolding apply_cancel held_now on_rows
  apply_cancel-lem running = request_cancel-lem (env.clock h.reads) h.rows c running

  -- A cancellation of a consistent run returns the run as it leaves it, and whether the run had not
  -- ended. A run that has ended is left as it was. Any other has the cancellation requested: before
  -- its deadline it is cancelled, unless its tool call was released, which goes on; after its deadline
  -- it times out, or its outcome is unknown if the call was released.
  pub cancel_held-outcome :
      let run = h.rows.run in
      let after = (cancel_held env h).1.rows.run in
      ((cancel_held env h).0 ≡ ok (after, not (is_terminal run.status)))
      × (after.status ≡ cancelled_status run.status run.deadline (env.clock h.reads))
      × (if is_terminal run.status
          then (cancel_held env h).1 ≡ h
          else after.cancellation_requested ≡ true)
  unfolding cancel_held
  cancel_held-outcome = elim (Bool-cases (is_terminal h.rows.run.status)) [
    | inl over ↦
        rw over (refl, unmoved h.rows.run.status h.rows.run.deadline (env.clock h.reads) over, refl)
    | inr running ↦
        let a = apply_cancel-lem running in
        rw (running, then_read {A = Run × Bool} (apply_cancel env) (λ x. (x.rows.run, true)) h a.0)
          (refl, a.1, a.2)
  ]
