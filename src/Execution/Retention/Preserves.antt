-- ===== src/Execution/Retention/Preserves.antt =====
-- execution/service.py: the retention passes against the specification of the ledger.
use modall.Common.{ℕ, Bool-cases, none, inl, inr, refl}
use modall.Execution.Retention.{drop_result, content_held, end_content, drop_content}
use modall.Execution.World.{Held}
use modall.Execution.Ledger.Invariant.{IsConsistent}
use modall.Execution.Lease.{on_rows, deadline_status}
use modall.Execution.Ledger.Advance.{Advanced, Advanced-trans}
use modall.Execution.Ledger.Notes.{stored-Advanced, noted-Advanced, dropped-Advanced}
use modall.Execution.Ledger.{terminalize_run}
use modall.Execution.Types.{is_terminal, RunEventType, content_retention_deadline}
use modall.Execution.Ledger.Terminalize.{terminalize_run-Advanced}
use modall.Execution.Lease.Completion.{deadline_status-ends}

pub content_held-Advanced :
    (now : ℕ) (h : Held) → IsConsistent h.rows → Advanced h.rows (content_held now h).1.rows
unfolding content_held end_content on_rows drop_content terminalize_run
content_held-Advanced now h c = elim (Bool-cases (is_terminal h.rows.run.status)) [
  | inl over ↦
      let t =
        noted-Advanced h.rows RunEventType.content_expired h.rows.run.safe_error_code now c refl in
      rw over (Advanced-trans t (dropped-Advanced _ now t.consistent))
  | inr running ↦
      let t =
        terminalize_run-Advanced (deadline_status h.rows.run.status) now content_retention_deadline
          RunEventType.content_expired h.rows c refl (deadline_status-ends _ running) in
      rw (running, t.0) (Advanced-trans t.1 (dropped-Advanced _ now t.1.consistent))
]

pub drop_result-Advanced : (h : Held) → IsConsistent h.rows → Advanced h.rows (drop_result h).1.rows
unfolding drop_result
drop_result-Advanced h c = stored-Advanced h.rows none c
