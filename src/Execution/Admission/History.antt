-- ===== src/Execution/Admission/History.antt =====
-- `create_run` and the histories of the ledger.
use mathlib.Core.Path.{subst}
use modall.Execution.Service.{Request}
use modall.Execution.Service.History.{serve-Evolves}
use modall.Execution.Service.History.{Steps}
use modall.Execution.Evolution.{Consistent}
use modall.Common.{refl, ℕ, List, ◌++◌, String, ◌∷◌, Option, [], ◌≡◌, some, sym}
use modall.Execution.Admission.Checks.{Codec, Keyrings, Desk, Claims}
use modall.Execution.Rows.{RunRows, Run}
use modall.Execution.World.{Env, SystemExecutionState}
use modall.Execution.Evolution.{Consistent, IsAdmitted}
use modall.Identity.{WorkspaceContext}
use modall.Execution.Admission.Settles.{Outcome, replayed, Settles, created}
use modall.Execution.Admission.Returns.{Returns, map-Returns}
use modall.Execution.Admission.{create_run}
use modall.Execution.Service.History.{serve-Evolves}
use modall.Execution.Admission.Creation.{create_run-Settles}
use modall.Execution.Ledger.Invariant.{IsConsistent}

-- nothing was added, or exactly the run
pub data Grown (run : Run) (rs : List RunRows) : List RunRows → Type 0 where
  as_before : Grown run rs rs
  by_run : (r : RunRows) → r.run ≡ run → IsAdmitted r → Grown run rs (rs ++ r ∷ [])

append-Consistent :
    (rs : List RunRows) (r : RunRows) → Consistent rs → IsConsistent r → Consistent (rs ++ r ∷ [])
append-Consistent [] r h c = (c, tt)
append-Consistent (x ∷ rs) r h c = (h.0, append-Consistent rs r h.1 c)

Grown-Consistent :
    (run : Run) (rs rs' : List RunRows) → Consistent rs → Grown run rs rs' → Consistent rs'
Grown-Consistent run rs rs' h as_before = h
Grown-Consistent run rs rs' h (by_run r e a) = append-Consistent rs r h a.consistent

module _ (codec : Codec) (env : Env) (keys : Keyrings) (state : SystemExecutionState)
    (context : WorkspaceContext) (version_id : ℕ) (arguments token raw_key : String)
    (requested correlation : Option ℕ) (d : Desk) where
  Outcome-Grown :
      (claims : Claims) (encoded : String) (run : Run) (t : Desk)
      → Outcome codec env keys state context version_id arguments token raw_key requested claims
          encoded d run t
      → Grown run d.world.db.rows t.world.db.rows × (t.world.db.tables ≡ d.world.db.tables)
  Outcome-Grown claims encoded run t (replayed existing e s) = (
    subst (λ x. Grown run d.world.db.rows x.rows) (sym s.kept) as_before,
    subst (λ x. x.tables ≡ d.world.db.tables) (sym s.kept) refl,
  )
  Outcome-Grown claims encoded run t (created e a) = (
    subst (λ x. Grown run d.world.db.rows x) (sym a.stores.appended)
        (by_run a.stores.rows a.stores.same_run a.stores.admitted),
    a.stores.same_tables,
  )

  -- When create_run returns from a consistent ledger, the runs are as before or have grown by
  -- exactly the returned run, admitted with its job and its first event, the registry's rows are
  -- as they were, and in every history that follows each transaction does to the ledger only what
  -- its call may do.
  pub create_run-Evolves :
      (requests : List Request)
      → d.world.db.state ≡ some state
      → Consistent d.world.db.rows
      → Returns
          (λ run t.
            Grown run d.world.db.rows t.world.db.rows
            × (t.world.db.tables ≡ d.world.db.tables)
            × Steps t.world requests)
          (create_run codec env keys context version_id arguments token raw_key requested
            correlation)
          d
  create_run-Evolves requests e h =
      map-Returns
        (Settles codec env keys state context version_id arguments token raw_key requested d) _ _ d
        (λ run t s.
          let (grown, same) = Outcome-Grown s.claims s.encoded run t s.outcome in
          (grown, same, serve-Evolves t.world requests (Grown-Consistent run _ _ h grown)))
        (create_run-Settles codec env keys state context version_id arguments token raw_key
          requested correlation d e)
