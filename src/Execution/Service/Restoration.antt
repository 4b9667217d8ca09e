-- ===== src/Execution/Service/Restoration.antt =====
-- A whole restore: enter the quarantine, reconcile, and clear it.
use modall.Execution.Restore
use modall.Execution.Restore.Preserves.{restore_held-Advanced, restored_status-ends}
use modall.Execution.Types.{RunStatus, is_active, restore_reconciliation, RunEventType}
use modall.Execution.World.{
  Env, SystemExecutionState, Held, World, filter_rows, require_system_authority, select_rows,
  durable_now, for_each,
}
use modall.Common.{
  ℕ, ◌≡◌, true, ◌≤◌, false, some, arith, ok, ap, ◌∙◌, length, All, List, All-map, Act, ◌>>◌, ◌+◌,
  pure, inl, inr, sym,
}
use modall.Execution.Ledger.Invariant.{IsConsistent}
use modall.Execution.Restore.{restored_status, is_unreconciled, restore_held, by_creation}
use modall.Execution.World.Passes.{Takes, Distinct, for_each-Passed}
use modall.Execution.Evolution.{Consistent}
use modall.Execution.Rows.{RunRows}
use modall.Execution.Lease.{on_rows}
use modall.Execution.Ledger.Terminalize.{terminalize_run-run}
use modall.Execution.Service.Quarantine.{clear_restore_quarantine-decides}
use modall.Execution.World.Selection.{select_rows-Covered}
use mathlib.Core.Bool.{false≢true}
use mathlib.Core.Path.{subst}
use modall.Execution.Service.Refusal.{execution_state-some}

restored_status-idle : (s : RunStatus) → is_active s ≡ true → is_active (restored_status s) ≡ false
restored_status-idle s h = ground arith

module _ (env : Env) (now : ℕ) (h : Held) (c : IsConsistent h.rows)
    (p : is_unreconciled env h.rows ≡ true) where
  active : is_active h.rows.run.status ≡ true
  active = unfold is_unreconciled in ground arith

  restore_held-run :
      ((restore_held now h).0 ≡ ok tt)
      × ((restore_held now h).1.rows.run.status ≡ restored_status h.rows.run.status)
  unfolding restore_held on_rows
  restore_held-run =
      let e =
        terminalize_run-run (restored_status h.rows.run.status) now restore_reconciliation
          RunEventType.restore_reconciled h.rows c
          (restored_status-ends h.rows.run.status active) in
      (e.0, e.1)

  restore_held-Takes : Takes (is_unreconciled env) (restore_held now) h
  restore_held-Takes =
      let a = restore_held-Advanced env now h c p in
      let e = restore_held-run in
      record {
        returns = e.0;
        taken =
            idle (restore_held now h).1.rows
              (ap is_active e.1 ∙ restored_status-idle h.rows.run.status active);
        same_id = a.pinned.id;
        consistent = a.consistent;
      }
    where
      idle : (r : RunRows) → is_active r.run.status ≡ false → is_unreconciled env r ≡ false
      idle r e = unfold is_unreconciled in ground arith

module _ (env : Env) (w : World) (n : ℕ) where
  abbrev batch : List RunRows
  batch = select_rows (is_unreconciled env) by_creation n w.db.rows

  abbrev pass : Act World Unit
  pass = for_each (is_unreconciled env) batch (restore_held (env.clock w.reads))

  -- the call, past its checks
  reconcile-eq :
      (state : SystemExecutionState)
      → env.system_authority ≡ true
      → 1 ≤ n
      → n ≤ 1000
      → w.db.state ≡ some state
      → state.dispatch_quarantined ≡ true
      → Restore.reconcile_restore_quarantine env n w
        ≡ (pass >> pure (length batch)) (record w { reads = w.reads + 1 })
  unfolding Restore.reconcile_restore_quarantine require_system_authority durable_now
  reconcile-eq state a l u known q =
      let found = execution_state-some env state w known in ground arith

then_pure :
    {A : Type 0} (m : Act World Unit) (a : A) (w : World)
    → (m w).0 ≡ ok tt
    → (m >> pure a) w ≡ (ok a, (m w).1)
then_pure m a w e = ground arith

-- A reconciliation pass whose batch is large enough, over a consistent ledger with distinct run
-- identities in quarantine, returns how many runs it selected and leaves no active run that is not
-- locked by another transaction, and the same execution state.
pub reconcile_restore_quarantine_complete :
    (env : Env) (state : SystemExecutionState) (w : World) (n : ℕ)
    → env.system_authority ≡ true
    → 1 ≤ n
    → n ≤ 1000
    → w.db.state ≡ some state
    → state.dispatch_quarantined ≡ true
    → Consistent w.db.rows
    → Distinct w.db.rows
    → length (filter_rows (is_unreconciled env) w.db.rows) ≤ n
    → ((Restore.reconcile_restore_quarantine env n w).0
        ≡ ok (length (select_rows (is_unreconciled env) by_creation n w.db.rows)))
      × All
          (λ r. is_unreconciled env r ≡ false)
          (Restore.reconcile_restore_quarantine env n w).1.db.rows
      × ((Restore.reconcile_restore_quarantine env n w).1.db.state ≡ some state)
reconcile_restore_quarantine_complete env state w n a l u known q c d fits =
    let later : World = record w { reads = w.reads + 1 } in
    let passed =
      for_each-Passed (is_unreconciled env) (restore_held (env.clock w.reads))
        (λ h c p. restore_held-Takes env (env.clock w.reads) h c p) (batch env w n) later c d
        (select_rows-Covered (is_unreconciled env) by_creation n w.db.rows fits) in
    let there =
      reconcile-eq env w n state a l u known q
      ∙ then_pure (pass env w n) (length (batch env w n)) later passed.returns in
    (
      ap (λ x. x.0) there,
      subst (λ x. All (λ r. is_unreconciled env r ≡ false) x.1.db.rows) (sym there)
          passed.none_left,
      ap (λ x. x.1.db.state) there ∙ passed.same_state ∙ known,
    )

-- A restore completes: if no other transaction holds a run, and the batch is large enough, the
-- quarantine can be cleared right after a reconciliation, which returns the execution epoch.
pub restore-completes :
    (env env' : Env) (state : SystemExecutionState) (w : World) (n : ℕ)
    → env.system_authority ≡ true
    → env'.system_authority ≡ true
    → 1 ≤ n
    → n ≤ 1000
    → w.db.state ≡ some state
    → state.dispatch_quarantined ≡ true
    → Consistent w.db.rows
    → Distinct w.db.rows
    → length (filter_rows (is_unreconciled env) w.db.rows) ≤ n
    → ((id : ℕ) → env.locked id ≡ false)
    → (Restore.clear_restore_quarantine env' (Restore.reconcile_restore_quarantine env n w).1).0
      ≡ ok state.execution_epoch
restore-completes env env' state w n a a' l u known q c d fits free =
    let (returns, unreconciled, same_state) =
      reconcile_restore_quarantine_complete env state w n a l u known q c d fits in
    let idle =
      All-map (λ r e. inactive r e) (Restore.reconcile_restore_quarantine env n w).1.db.rows
        unreconciled in
    elim (clear_restore_quarantine-decides env' state
      (Restore.reconcile_restore_quarantine env n w).1 same_state a') [
        | inl cleared ↦ cleared.2
        | inr refused ↦ elim refused.0 [
          | inl lifted ↦ absurd (false≢true (sym lifted ∙ q))
          | inr busy ↦ absurd (busy idle)
        ]
      ]
  where
    inactive : (r : RunRows) → is_unreconciled env r ≡ false → is_active r.run.status ≡ false
    inactive r e = let unlocked = free r.run.id in unfold is_unreconciled in ground arith
