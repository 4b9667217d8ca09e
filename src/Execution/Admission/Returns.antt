-- ===== src/Execution/Admission/Returns.antt =====
-- What holds when an action of the admission has returned.
use modall.Common.{
  ℕ, Act, Option, pure, Bool, ◌≡◌, gets, ok, Failure, Result, ◌>>=◌, false, some, err, arith,
  raise_if, ◌>>◌, ◌+◌, or_raise, true, none, refl, sym, ◌∙◌, raise,
}
use mathlib.Core.Path.{subst}
use modall.Execution.Admission.Checks.{Desk, on_world}
use modall.Execution.World.{require_current_role, durable_now, Env}
use modall.Identity.{WorkspaceContext, Role}

pub record Returns {A : Type 0} (P : A → Desk → Type 0) (m : Act Desk A) (d : Desk) : Type 0 where
  pub at : (a : A) → (m d).0 ≡ ok a → P a (m d).1

module _ {A B : Type 0} (P : B → Desk → Type 0) (d : Desk) (m : Act Desk A)
    (f : A → Act Desk B) where
  abbrev after : Result A × Desk → Result B × Desk
  after (r, t) = elim r [ ok a ↦ f a t | err e ↦ (err e, t) ]

  -- after a reading that writes nothing
  pub read-Returns :
      (m d).1 ≡ d → ((a : A) → (m d).0 ≡ ok a → Returns P (f a) d) → Returns P (m >>= f) d
  read-Returns same h = record { at = go (m d).0 (m d).1 same h }
    where
      back : (a : A) (t : Desk) → t ≡ d → Returns P (f a) d → Returns P (f a) t
      back a t q h = rw q h

      go :
          (r : Result A) (t : Desk)
          → t ≡ d
          → ((a : A) → r ≡ ok a → Returns P (f a) d)
          → (b : B) → (after (r, t)).0 ≡ ok b
          → P b (after (r, t)).1
      go (ok a) t q k b p = (back a t q (k a refl)).at b p
      go (err e) t q k b p = cc

  -- after a check that writes nothing when it returns
  pub check-Returns :
      (Q : A → Type 0)
      → Returns (λ a t. (t ≡ d) × Q a) m d
      → ((a : A) → Q a → Returns P (f a) d)
      → Returns P (m >>= f) d
  check-Returns Q checked h = record { at = go (m d).0 (m d).1 checked.at }
    where
      back : (a : A) (t : Desk) → t ≡ d → Returns P (f a) d → Returns P (f a) t
      back a t q k = rw q k

      go :
          (r : Result A) (t : Desk)
          → ((a : A) → r ≡ ok a → (t ≡ d) × Q a)
          → (b : B) → (after (r, t)).0 ≡ ok b
          → P b (after (r, t)).1
      go (ok a) t k b p = let (same, q) = k a refl in (back a t same (h a q)).at b p
      go (err e) t k b p = cc

module _ {B : Type 0} (P : B → Desk → Type 0) (d : Desk) where
  pub guard-Returns :
      (k : Act Desk B) (b : Bool) (e : Failure)
      → (b ≡ false → Returns P k d)
      → Returns P (raise_if b e >> k) d
  guard-Returns k true e h = record { at = λ a q. cc }
  guard-Returns k false e h = record { at = (h refl).at }

  pub raise-Returns : (e : Failure) → Returns P (raise {A = B} e) d
  raise-Returns e = record { at = λ a q. cc }

  pub gets-Returns :
      {A : Type 0} (g : Desk → A) (k : A → Act Desk B)
      → Returns P (k (g d)) d
      → Returns P (gets g >>= k) d
  gets-Returns g k h = record { at = h.at }

  pub or_raise-Returns :
      {A : Type 0} (o : Option A) (e : Failure) (k : A → Act Desk B)
      → ((a : A) → o ≡ some a → Returns P (k a) d)
      → Returns P (or_raise o e >>= k) d
  or_raise-Returns none e k h = record { at = λ a q. cc }
  or_raise-Returns (some a) e k h = record { at = (h a refl).at }

  pub now-Returns :
      (env : Env) (k : ℕ → Act Desk B)
      → Returns P
          (k (env.clock d.world.reads))
          (record d { world = record d.world { reads = d.world.reads + 1 } })
      → Returns P (on_world (durable_now env) >>= k) d
  unfolding on_world durable_now
  now-Returns env k h = record { at = h.at }

  role-same :
      (context : WorkspaceContext) (allowed : Role → Bool) (serialize : Bool)
      → (on_world (require_current_role context allowed serialize) d).1 ≡ d
  unfolding on_world require_current_role
  role-same context allowed true = ground arith
  role-same context allowed false = ground arith

  pub role-Returns :
      (k : Act Desk B) (context : WorkspaceContext) (allowed : Role → Bool) (serialize : Bool)
      → Returns P k d
      → Returns P (on_world (require_current_role context allowed serialize) >> k) d
  role-Returns k context allowed serialize h =
      read-Returns P d (on_world (require_current_role context allowed serialize)) (λ _. k)
        (role-same context allowed serialize) (λ _ _. h)

  pub returned-Returns : (m : Act Desk B) (b : B) → (m d).0 ≡ ok b → P b (m d).1 → Returns P m d
  returned-Returns m b h p = record { at = λ a e. subst (λ x. P x (m d).1) (ok-inj (sym h ∙ e)) p }
    where
      ok-inj : {X : Type 0} {x y : X} → ok x ≡ ok y → x ≡ y
      ok-inj e = cc

  pub pure-Returns : (b : B) → P b d → Returns P (pure b) d
  pure-Returns b h = returned-Returns (pure b) b refl h

pub map-Returns :
    {A : Type 0} (P Q : A → Desk → Type 0) (m : Act Desk A) (d : Desk)
    → ((a : A) (t : Desk) → P a t → Q a t)
    → Returns P m d
    → Returns Q m d
map-Returns P Q m d f h = record { at = λ a e. f a _ (h.at a e) }

pub ruleset returning_rules =
    (guard-Returns, gets-Returns, or_raise-Returns, now-Returns, role-Returns, pure-Returns)
