-- ===== src/Execution/Service/Refusal.antt =====
-- Calls of the service that raise and write nothing.
use modall.Common.{
  ℕ, Result, Act, Bool, ◌≡◌, ok, false, true, Option, some, arith, err, Option-cases, List, Failure,
  find, inl, raise, update_first, inr, ◌∷◌, Bool-cases, [], refl, ap, ◌∙◌, raise_if, ◌>>=◌, ◌>>◌,
  raised,
}
use modall.Execution.Types.{JobLease, RunStatus, RunFailureCode, AcceptedToolResult}
use modall.Execution.World.{SystemExecutionState, Env, World, Held, lock, execution_state}
use modall.Execution.Rows.{RunRows}
use modall.Execution.Service.{Call}

-- the calls that a worker makes with its lease
pub data UsesLease (lease : JobLease) : Call → Type 0 where
  to_session : UsesLease lease (Call.fence_session lease)
  to_dispatch : UsesLease lease (Call.fence_dispatch lease)
  to_renew : {d : ℕ} → UsesLease lease (Call.heartbeat lease d)
  to_complete :
      {s : RunStatus} {c : Option RunFailureCode} → UsesLease lease (Call.complete_lease lease s c)
  to_succeed : {x : AcceptedToolResult} → UsesLease lease (Call.complete_invocation_success lease x)

-- an action that raises and writes nothing
pub record Refuses {A : Type 0} (m : Act World A) (w : World) : Type 0 where
  pub raises : raised (m w).0 ≡ true
  pub unchanged : (m w).1.db ≡ w.db

-- inside the lock
abbrev pub HeldRefuses : {A : Type 0} → Act Held A → Held → Type 0
HeldRefuses m h = (raised (m h).0 ≡ true) × ((m h).1.rows ≡ h.rows)

-- what a row lock finds is what it writes back
update_first-find :
    (test : RunRows → Bool) (rs : List RunRows) (r : RunRows)
    → find test rs ≡ some r
    → update_first test (λ _. r) rs ≡ rs
update_first-find test [] r e = refl
update_first-find test (x ∷ rs) r e = elim (Bool-cases (test x)) [
  | inl hit ↦ ground arith
  | inr miss ↦ ground (arith, update_first-find test rs r)
]

module _ {A : Type 0} (test : RunRows → Bool) (e : Failure) (body : Act Held A) (w : World) where
  pub lock-Refuses :
      ((r : RunRows)
        → find test w.db.rows ≡ some r
        → HeldRefuses body (record { rows = r; reads = w.reads }))
      → Refuses (lock test (raise e) body) w
  unfolding lock
  lock-Refuses refuses = elim (Option-cases (find test w.db.rows)) [
    | inl none_found ↦ record {
      raises = rw (none_found, lock) refl;
      unchanged = rw (none_found, lock) refl;
    }
    | inr (r, found) ↦
        let held = refuses r found in
        let same = update_first-find test w.db.rows r found in
        record {
          raises = rw (found, lock) held.0;
          unchanged =
              rw (found, lock)
                (ap (λ rows. record w.db { rows = rows })
                  (ap (λ x. update_first test (λ _. x) w.db.rows) held.1 ∙ same));
        }
  ]

-- `_execution_state` when the row is there
pub execution_state-some :
    (env : Env) (state : SystemExecutionState) (w : World)
    → w.db.state ≡ some state
    → execution_state env w ≡ (ok state, w)
unfolding execution_state
execution_state-some env state w e = ground arith

module _ {A B : Type 0} (m : Act World A) (f : A → Act World B) (w : World) where
  abbrev next : Result A × World → Result B × World
  next (r, w') = elim r [ ok a ↦ f a w' | err e ↦ (err e, w') ]

  pub Refuses-after : (a : A) → m w ≡ (ok a, w) → Refuses (f a) w → Refuses (m >>= f) w
  Refuses-after a e refuses = record {
    raises = ap (λ p. raised (next p).0) e ∙ refuses.raises;
    unchanged = ap (λ p. (next p).1.db) e ∙ refuses.unchanged;
  }

  pub Refuses-first : Refuses m w → Refuses (m >>= f) w
  Refuses-first refuses =
      let (raises, unchanged) = go (m w).0 (m w).1 refuses.raises refuses.unchanged in
      record { raises = raises; unchanged = unchanged }
    where
      go :
          (r : Result A) (w' : World)
          → raised r ≡ true
          → w'.db ≡ w.db
          → (raised (next (r, w')).0 ≡ true) × ((next (r, w')).1.db ≡ w.db)
      go (ok a) w' p q = cc
      go (err e) w' p q = (refl, q)

-- a guard before the rest
pub Refuses-guard :
    {B : Type 0} (b : Bool) (e : Failure) (k : Act World B) (w : World)
    → Refuses k w
    → Refuses (raise_if b e >> k) w
Refuses-guard true e k w h = record { raises = refl; unchanged = refl }
Refuses-guard false e k w h = h
