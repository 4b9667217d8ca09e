-- ===== src/Execution/Claim/Reconciled.antt =====
-- `claim_job` as a whole: what its reconciliation leaves, and the job that it takes then.
use modall.Execution.Claim.Oldest.{LeasesOldest}
use modall.Common.{dispatch_quarantined, Option, none, leb, ◌||◌, ltb, value_error}
use modall.Common.{
  ℕ, Act, Bool, List, Failure, String, ◌>>=◌, raise_if, All, ◌>>◌, ◌≡◌, gets, ok, ◌≢◌,
  execution_error, ◌+◌, some, ◌∙◌, Result, true, sym, err, false, pure, ◌++◌, refl,
}
use modall.Execution.World.{
  Env, World, execution_state, SystemExecutionState, select_rows, durable_now, insert_state,
}
use modall.Execution.Rows.{RunRows}
use modall.Execution.Types.{JobLease, ReconciledJob}
use modall.Execution.Evolution.{Evolves, Consistent, keep, done, Evolves-Consistent, Evolves-trans}
use modall.Execution.Claim.{
  Claimed, terminalize_abandoned_dispatches, claim_job, terminalize_expired_jobs, is_next,
  claim_next, by_age,
}
use modall.Execution.World.Passes.{Distinct}
use mathlib.Core.Path.{subst}
use modall.Execution.Evolution.{done}
use modall.Execution.Claim.Oldest.{claim_next-oldest}
use modall.Execution.Evolution.Calls.{
  terminalize_expired_jobs-Evolving, terminalize_abandoned_dispatches-Evolving,
}
use Prim.Native.String.{count}

bind-returns :
    {A B : Type 0} (m : Act World A) (f : A → Act World B) (w : World) (b : B)
    → ((m >>= f) w).0 ≡ ok b
    → (a : A) × ((m w).0 ≡ ok a) × ((f a (m w).1).0 ≡ ok b)
bind-returns {A} {B} m f w b e = go (m w).0 (m w).1 refl e
  where
    go :
        (r : Result A) (t : World)
        → (m w).0 ≡ r
        → (((λ (_ : World). (r, t)) >>= f) w).0 ≡ ok b
        → (a : A) × ((m w).0 ≡ ok a) × ((f a t).0 ≡ ok b)
    go (ok a) t q h = (a, q, h)
    go (err x) t q h = cc

guard-returns :
    {B : Type 0} (b : Bool) (e : Failure) (k : Act World B) (w : World) (x : B)
    → ((raise_if b e >> k) w).0 ≡ ok x
    → (k w).0 ≡ ok x
guard-returns true e k w x h = cc
guard-returns false e k w x h = h

-- the ledger keeps its identities
Evolves-ids :
    (n : ℕ) {rs rs' : List RunRows}
    → Evolves rs rs'
    → All (λ y. n ≢ y.run.id) rs
    → All (λ y. n ≢ y.run.id) rs'
Evolves-ids n done h = tt
Evolves-ids n (keep a e) h = ((λ q. h.0 (q ∙ a.pinned.id)), Evolves-ids n e h.1)

Evolves-Distinct : {rs rs' : List RunRows} → Evolves rs rs' → Distinct rs → Distinct rs'
Evolves-Distinct done h = tt
Evolves-Distinct (keep {r} {r'} {rs} {rs'} a e) h = (
  Evolves-ids r'.run.id e (subst (λ n. All (λ y. n ≢ y.run.id) rs) (sym a.pinned.id) h.0),
  Evolves-Distinct e h.1,
)

module _ (env : Env) (worker : String) (d : ℕ) where
  -- the ledger after the two passes of `claim_job`, which reads the clock once before them
  abbrev pub reconciled : World → World
  reconciled w =
      let now = env.clock w.reads in
      (terminalize_abandoned_dispatches env now
        (terminalize_expired_jobs env now (record w { reads = w.reads + 1 })).1).1

  abbrev choose : ℕ → ℕ → List ReconciledJob → List ReconciledJob → Act World Claimed
  choose epoch now expired abandoned = do
    picked ← gets (λ w. select_rows (is_next env epoch now) by_age 1 w.db.rows)
    claimed ← claim_next env worker d epoch now picked
    pure (claimed.0, expired ++ abandoned ++ claimed.1)

  abbrev passes : ℕ → ℕ → Act World Claimed
  passes epoch now = do
    expired ← terminalize_expired_jobs env now
    abandoned ← terminalize_abandoned_dispatches env now
    choose epoch now expired abandoned

  abbrev with_state : ℕ → SystemExecutionState → Act World Claimed
  with_state now state = do
    raise_if state.dispatch_quarantined (execution_error dispatch_quarantined)
    passes state.execution_epoch now

  module _ (lease : JobLease) where
    choose-claims :
        (epoch now : ℕ) (expired abandoned recs : List ReconciledJob) (w : World)
        → (choose epoch now expired abandoned w).0 ≡ ok (some lease, recs)
        → (claimed : List ReconciledJob) × ((claim_next env worker d epoch now
              (select_rows (is_next env epoch now) by_age 1 w.db.rows)
              w).0
            ≡ ok (some lease, claimed))
    choose-claims epoch now expired abandoned recs w g =
        let (a, e, p) =
          bind-returns
            (claim_next env worker d epoch now
              (select_rows (is_next env epoch now) by_age 1 w.db.rows))
            (λ (claimed : Claimed). pure (claimed.0, expired ++ abandoned ++ claimed.1)) w
            (some lease, recs) g in
        leased a e p
      where
        leased :
            (a : Claimed)
            → (claim_next env worker d epoch now
                (select_rows (is_next env epoch now) by_age 1 w.db.rows)
                w).0
              ≡ ok a
            → ◌≡◌ {A = Result Claimed}
                (ok (a.0, expired ++ abandoned ++ a.1))
                (ok (some lease, recs))
            → (claimed : List ReconciledJob) × ((claim_next env worker d epoch now
                  (select_rows (is_next env epoch now) by_age 1 w.db.rows)
                  w).0
                ≡ ok (some lease, claimed))
        leased (none, l) e p = cc
        leased (some x, l) e p =
            let same : x ≡ lease = cc in
            (
              l,
              subst
                  (λ z.
                    ◌≡◌ {A = Result Claimed}
                      (claim_next env worker d epoch now
                        (select_rows (is_next env epoch now) by_age 1 w.db.rows) w).0
                      (ok (some z, l)))
                  same e,
            )

    passes-claims :
        (epoch now : ℕ) (recs : List ReconciledJob) (w : World)
        → (passes epoch now w).0 ≡ ok (some lease, recs)
        → (expired abandoned : List ReconciledJob) × ((choose epoch now expired abandoned
              (terminalize_abandoned_dispatches env now (terminalize_expired_jobs env now w).1).1).0
            ≡ ok (some lease, recs))
    passes-claims epoch now recs w g =
        let (x, e, p) =
          bind-returns (terminalize_expired_jobs env now)
            (λ expired. terminalize_abandoned_dispatches env now >>= λ abandoned.
              choose epoch now expired abandoned)
            w (some lease, recs) g in
        let (y, f, q) =
          bind-returns (terminalize_abandoned_dispatches env now)
            (λ abandoned. choose epoch now x abandoned) (terminalize_expired_jobs env now w).1
            (some lease, recs) p in
        (x, y, q)

    claim_job-claims :
        (state : SystemExecutionState) (recs : List ReconciledJob) (w : World)
        → w.db.state ≡ some state
        → (claim_job env worker d w).0 ≡ ok (some lease, recs)
        → (passes state.execution_epoch (env.clock w.reads) (record w { reads = w.reads + 1 })).0
          ≡ ok (some lease, recs)
    unfolding claim_job durable_now execution_state insert_state
    claim_job-claims state recs w s g =
        let now = env.clock w.reads in
        by_state now (record w { reads = w.reads + 1 }) w.db.state s
          (guard-returns (leb (count worker) 0 || ltb 128 (count worker) || leb d 0) value_error
            (durable_now env >>= λ t. execution_state env >>= λ x. with_state t x) w
            (some lease, recs) g)
      where
        by_state :
            (now : ℕ) (t : World) (o : Option SystemExecutionState)
            → o ≡ some state
            → ((insert_state env o >>= λ x. with_state now x) t).0 ≡ ok (some lease, recs)
            → (passes state.execution_epoch now t).0 ≡ ok (some lease, recs)
        by_state now t none e g = cc
        by_state now t (some x) e g =
            let same : x ≡ state = cc in
            subst (λ y. (passes y.execution_epoch now t).0 ≡ ok (some lease, recs)) same
              (guard-returns x.dispatch_quarantined (execution_error dispatch_quarantined)
                (passes x.execution_epoch now) t (some lease, recs) g)

    -- When claim_job grants a lease on a consistent ledger with distinct run identities, the lease
    -- is of a job that was waiting once the expired and the abandoned jobs had been reconciled: of
    -- the current epoch, available, before its deadline, not dispatched, without a running lease
    -- and not locked; and no other job that waits then was created earlier, or at the same time
    -- with a smaller identity.
    pub claim_job-oldest :
        (state : SystemExecutionState) (recs : List ReconciledJob) (w : World)
        → Consistent w.db.rows
        → Distinct w.db.rows
        → w.db.state ≡ some state
        → (claim_job env worker d w).0 ≡ ok (some lease, recs)
        → LeasesOldest env state.execution_epoch (env.clock w.reads) (reconciled w) lease
    claim_job-oldest state recs w c u s g =
        let now = env.clock w.reads in
        let read : World = record w { reads = w.reads + 1 } in
        let (x, y, chosen) =
          passes-claims state.execution_epoch now recs read (claim_job-claims state recs w s g) in
        let (claimed, granted) =
          choose-claims state.execution_epoch now x y recs (reconciled w) chosen in
        let first = (terminalize_expired_jobs-Evolving env now).at read c in
        let second =
          (terminalize_abandoned_dispatches-Evolving env now).at
            (terminalize_expired_jobs env now read).1 (Evolves-Consistent first) in
        claim_next-oldest env worker d state.execution_epoch now (reconciled w) lease claimed
          (Evolves-Distinct (Evolves-trans first second) u) granted
