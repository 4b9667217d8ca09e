-- ===== src/Execution/Evolution/Rules.antt =====
-- Which actions evolve the ledger: a rule for each construct that the service is written with.
use modall.Common.{
  Act, Option, Bool, Result, Failure, pure, or_raise, raise_if, ◌>>◌, gets, raise, if◌then◌else◌,
  ◌>>=◌, some, ok, true, none, err, false, List, ◌≡◌, find, arith, ◌∷◌, update_first, Option-cases,
  Bool-cases, sym, inl, [], inr,
}
use modall.Audit.{AuditEvent}
use modall.Execution.World.{
  World, put_state, Env, require_current_role, add_audit, require_system_authority, uuid4,
  durable_now, Held, execution_state, SystemExecutionState, lock, for_each, selected,
}
use modall.Execution.Evolution.{
  Evolves-refl, Consistent, Evolves, Evolves-trans, Evolves-Consistent, keep,
}
use modall.Execution.Rows.{RunRows}
use modall.Execution.Ledger.Invariant.{IsConsistent}
use modall.Identity.{WorkspaceContext, Role}
use modall.Execution.Ledger.Advance.{Advanced, Advanced-refl}
use mathlib.Core.Path.{subst}

-- an action that evolves the ledger, whether it returns or raises
pub record Evolving {A : Type 0} (m : Act World A) : Type 0 where
  pub at : (w : World) → Consistent w.db.rows → Evolves w.db.rows (m w).1.db.rows

module _ {A : Type 0} where
  pub Evolving-pure : (a : A) → Evolving (pure a)
  Evolving-pure a = record { at = λ w h. Evolves-refl w.db.rows h }

  pub Evolving-raise : (e : Failure) → Evolving (raise {A = A} e)
  Evolving-raise e = record { at = λ w h. Evolves-refl w.db.rows h }

  pub Evolving-gets : (f : World → A) → Evolving (gets f)
  Evolving-gets f = record { at = λ w h. Evolves-refl w.db.rows h }

  pub Evolving-or_raise : (o : Option A) (e : Failure) → Evolving (or_raise o e)
  Evolving-or_raise none e = record { at = λ w h. Evolves-refl w.db.rows h }
  Evolving-or_raise (some a) e = record { at = λ w h. Evolves-refl w.db.rows h }

  pub Evolving-if :
      (b : Bool) (m n : Act World A) → Evolving m → Evolving n → Evolving (if b then m else n)
  Evolving-if true m n km kn = km
  Evolving-if false m n km kn = kn

pub Evolving-raise_if : (b : Bool) (e : Failure) → Evolving (raise_if b e)
Evolving-raise_if true e = record { at = λ w h. Evolves-refl w.db.rows h }
Evolving-raise_if false e = record { at = λ w h. Evolves-refl w.db.rows h }

module _ {A B : Type 0} where
  after :
      (r : Result A) (f : A → Act World B) (w : World)
      → ((a : A) → Evolving (f a))
      → Consistent w.db.rows
      → Evolves w.db.rows (((λ s. (r, s)) >>= f) w).1.db.rows
  after (ok a) f w kf h = (kf a).at w h
  after (err e) f w kf h = Evolves-refl w.db.rows h

  pub Evolving-bind :
      (m : Act World A) (f : A → Act World B)
      → Evolving m
      → ((a : A) → Evolving (f a))
      → Evolving (m >>= f)
  Evolving-bind m f km kf = record {
    at = λ w h.
        let e = km.at w h in Evolves-trans e (after (m w).0 f (m w).1 kf (Evolves-Consistent e));
  }

pub Evolving-seq :
    {B : Type 0} (m : Act World Unit) (k : Act World B)
    → Evolving m
    → Evolving k
    → Evolving (m >> k)
Evolving-seq m k km kk = Evolving-bind m (λ _. k) km (λ _. kk)

-- the row that a query finds
record Found (test : RunRows → Bool) (rs : List RunRows) (r : RunRows) : Type 0 where
  accepted : test r ≡ true
  consistent : IsConsistent r
  written : (r' : RunRows) → Advanced r r' → Evolves rs (update_first test (λ _. r') rs)

find-Found :
    (test : RunRows → Bool) (rs : List RunRows) (r : RunRows)
    → Consistent rs
    → find test rs ≡ some r
    → Found test rs r
find-Found test [] r h e = cc
find-Found test (x ∷ rs) r h e = elim (Bool-cases (test x)) [
  | inl hit ↦
      let same_row : x ≡ r = cc (rw hit at e) in
      record {
        accepted = subst (λ y. test y ≡ true) same_row hit;
        consistent = subst IsConsistent same_row h.0;
        written = λ r' a.
            rw hit (keep (subst (λ y. Advanced y r') (sym same_row) a) (Evolves-refl rs h.1));
      }
  | inr miss ↦
      let later = find-Found test rs r h.1 (rw miss at e) in
      record {
        accepted = later.accepted;
        consistent = later.consistent;
        written = λ r' a. rw miss (keep (Advanced-refl x h.0) (later.written r' a));
      }
]

module _ {A : Type 0} (test : RunRows → Bool) (missing : Act World A) (body : Act Held A) where
  -- a lock evolves the ledger if its body advances the rows that it finds
  pub Evolving-lock :
      ((h : Held) → IsConsistent h.rows → test h.rows ≡ true → Advanced h.rows (body h).1.rows)
      → Evolving missing
      → Evolving (lock test missing body)
  unfolding lock
  Evolving-lock advances km = record {
    at = λ w h. elim (Option-cases (find test w.db.rows)) [
      | inl e ↦ rw (e, lock) (km.at w h)
      | inr (r, e) ↦
          let found = find-Found test w.db.rows r h e in
          let held : Held = record { rows = r; reads = w.reads } in
          rw (e, lock) (found.written _ (advances held found.consistent found.accepted))
    ];
  }

module _ (test : RunRows → Bool) (body : Act Held Unit) where
  pub Evolving-for_each :
      ((h : Held) → IsConsistent h.rows → test h.rows ≡ true → Advanced h.rows (body h).1.rows)
      → (picked : List RunRows) → Evolving (for_each test picked body)
  unfolding for_each
  Evolving-for_each advances [] = Evolving-pure tt
  Evolving-for_each advances (p ∷ picked) =
      Evolving-seq (lock (selected test p) (pure tt) body) (for_each test picked body)
        (Evolving-lock (selected test p) (pure tt) body (λ h c e. advances h c (chosen h.rows e))
          (Evolving-pure tt))
        (Evolving-for_each advances picked)
    where
      chosen : (r : RunRows) → selected test p r ≡ true → test r ≡ true
      chosen r e = ground arith

module _ (env : Env) where
  pub Evolving-durable_now : Evolving (durable_now env)
  unfolding durable_now
  Evolving-durable_now = record { at = λ w h. Evolves-refl w.db.rows h }

  pub Evolving-uuid4 : Evolving (uuid4 env)
  unfolding uuid4
  Evolving-uuid4 = record { at = λ w h. Evolves-refl w.db.rows h }

  pub Evolving-execution_state : Evolving (execution_state env)
  unfolding execution_state durable_now
  Evolving-execution_state = record {
    at = λ w h. subst (Evolves w.db.rows) (sym (rows_kept w)) (Evolves-refl w.db.rows h);
  }
    where
      rows_kept : (w : World) → (execution_state env w).1.db.rows ≡ w.db.rows
      rows_kept w = ground arith

  pub Evolving-require_system_authority : Evolving (require_system_authority env)
  unfolding require_system_authority
  Evolving-require_system_authority = Evolving-raise_if _ _

pub Evolving-put_state : (s : SystemExecutionState) → Evolving (put_state s)
unfolding put_state
Evolving-put_state s = record { at = λ w h. Evolves-refl w.db.rows h }

pub Evolving-add_audit : (e : AuditEvent) → Evolving (add_audit e)
unfolding add_audit
Evolving-add_audit e = record { at = λ w h. Evolves-refl w.db.rows h }

pub Evolving-require_current_role :
    (context : WorkspaceContext) (allowed : Role → Bool) (serialize : Bool)
    → Evolving (require_current_role context allowed serialize)
unfolding require_current_role
Evolving-require_current_role context allowed serialize = record {
  at = λ w h. subst (Evolves w.db.rows) (sym (rows_kept w)) (Evolves-refl w.db.rows h);
}
  where
    rows_kept :
        (w : World) → (require_current_role context allowed serialize w).1.db.rows ≡ w.db.rows
    rows_kept w = grind arith

pub ruleset evolving_rules = (
  Evolving-pure, Evolving-raise, Evolving-gets, Evolving-or_raise, Evolving-if, Evolving-raise_if,
  Evolving-bind, Evolving-seq, Evolving-durable_now, Evolving-uuid4, Evolving-execution_state,
  Evolving-require_system_authority, Evolving-put_state, Evolving-add_audit,
  Evolving-require_current_role,
)
