-- ===== src/Execution/Evolution/Deletion.antt =====
-- `delete_expired_run_metadata` deletes runs that ended long enough ago, and nothing else.
use modall.Common.{
  ℕ, List, Bool, Option, any, ◌≡◌, true, Bool-cases, delete_where, some, arith, ◌∷◌, ◌+◌, sym, inl,
  ◌∙◌, inr, ◌≤◌, none, [], refl,
}
use modall.Execution.World.{Env, durable_now, World, selected}
use modall.Execution.Retention.{delete_expired_run_metadata, retired, metadata_due, bad_batch}
use modall.Execution.Rows.{RunRows}
use modall.Execution.Types.{is_terminal, days}
use modall.Execution.Ledger.Invariant.{IsConsistent}
use modall.Execution.Evolution.{Consistent, Prunes, none_left, Prunes-refl, remove, leave}

module _ (env : Env) (now : ℕ) where
  -- a run that ended, and whose rows have been retained long enough
  pub record Retired (r : RunRows) : Type 0 where
    pub ended : is_terminal r.run.status ≡ true
    pub ended_at : ℕ
    pub terminal_at : r.run.terminal_at ≡ some ended_at
    pub retained : ended_at + days env.limits.run_retention_days ≤ now

  retired-due :
      (t : Option ℕ)
      → retired env now t ≡ true
      → (n : ℕ) × (t ≡ some n) × (n + days env.limits.run_retention_days ≤ now)
  unfolding retired
  retired-due none e = cc
  retired-due (some n) e = (n, refl, ground (arith, e))

  due-Retired : (r : RunRows) → IsConsistent r → metadata_due env now r ≡ true → Retired r
  unfolding metadata_due
  due-Retired r h e =
      let (n, at, long) = retired-due r.run.terminal_at (ground (arith, e)) in
      record {
        ended = sym h.terminal_time ∙ rw at refl;
        ended_at = n;
        terminal_at = at;
        retained = long;
      }

  picked-Retired :
      (picked : List RunRows) (r : RunRows)
      → IsConsistent r
      → any (λ p. selected (metadata_due env now) p r) picked ≡ true
      → Retired r
  picked-Retired [] r h e = cc
  picked-Retired (p ∷ picked) r h e = elim (Bool-cases (selected (metadata_due env now) p r)) [
    | inl hit ↦ due-Retired r h (ground (arith, hit))
    | inr miss ↦ picked-Retired picked r h (rw miss at e)
  ]

  delete_where-Prunes :
      (test : RunRows → Bool) (rs : List RunRows)
      → ((r : RunRows) → IsConsistent r → test r ≡ true → Retired r)
      → Consistent rs
      → Prunes Retired rs (delete_where test rs)
  delete_where-Prunes test [] over h = none_left
  delete_where-Prunes test (r ∷ rs) over h = elim (Bool-cases (test r)) [
    | inl hit ↦ rw hit (remove (over r h.0 hit) (delete_where-Prunes test rs over h.1))
    | inr miss ↦ rw miss (leave (delete_where-Prunes test rs over h.1))
  ]

pub delete_expired_run_metadata-Prunes :
    (env : Env) (batch_size : ℕ) (w : World)
    → Consistent w.db.rows
    → Prunes
        (Retired env (env.clock w.reads))
        w.db.rows
        (delete_expired_run_metadata env batch_size w).1.db.rows
unfolding delete_expired_run_metadata durable_now
delete_expired_run_metadata-Prunes env batch_size w h = elim (Bool-cases (bad_batch batch_size)) [
  | inl bad ↦ rw bad (Prunes-refl w.db.rows)
  | inr good ↦ rw good (
      delete_where-Prunes env (env.clock w.reads) _ w.db.rows
        (picked-Retired env (env.clock w.reads) _) h)
]
