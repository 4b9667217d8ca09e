-- ===== src/Execution/Restore/Preserves.antt =====
-- execution/service.py: `reconcile_restore_quarantine` against the specification of the ledger.
use modall.Common.{ℕ, ◌≡◌, true, arith, refl}
use modall.Execution.Restore.{is_unreconciled, restore_held, restored_status}
use modall.Execution.Types.{RunStatus, is_active}
use modall.Execution.World.{Env, Held}
use modall.Execution.Rows.{RunRows}
use modall.Execution.Ledger.Invariant.{IsConsistent}
use modall.Execution.Ledger.Terminalize.{ends}
use modall.Execution.Ledger.Advance.{Advanced}
use modall.Execution.Claim.Reconcile.{ended_held-Advanced}

pub restored_status-ends : (s : RunStatus) → is_active s ≡ true → ends s (restored_status s) ≡ true
restored_status-ends s h = ground arith

unreconciled-active :
    (env : Env) (r : RunRows) → is_unreconciled env r ≡ true → is_active r.run.status ≡ true
unfolding is_unreconciled
unreconciled-active env r h = ground arith

pub restore_held-Advanced :
    (env : Env) (now : ℕ) (h : Held)
    → IsConsistent h.rows
    → is_unreconciled env h.rows ≡ true
    → Advanced h.rows (restore_held now h).1.rows
unfolding restore_held
restore_held-Advanced env now h c p =
    (ended_held-Advanced _ now _ _ h c refl
      (restored_status-ends _ (unreconciled-active env h.rows p))).1
