-- ===== src/Common/Monad.antt =====
-- The monad of a service call: a state, and the exceptions that the code raises. What was written
-- before a raise stays written, until the transaction boundary takes it back.
use mathlib.Core.Bool.{Bool, true, false}
use mathlib.Core.Option.{Option, none, some}

-- `ExecutionFailureCode` of execution/types.py
pub data ExecutionFailureCode : Type 0 where
  invalid_arguments argument_limit sensitive_arguments scanner_failed : ExecutionFailureCode
  capability_unavailable invalid_confirmation confirmation_expired : ExecutionFailureCode
  confirmation_replayed invalid_idempotency_key idempotency_conflict : ExecutionFailureCode
  idempotency_key_history_incomplete confirmation_key_history_incomplete : ExecutionFailureCode
  dispatch_quarantined active_run_limit no_job_available lease_lost : ExecutionFailureCode
  invalid_transition persistence_failure : ExecutionFailureCode

-- what a call can raise: `ExecutionError(code)`, `ValueError`, `PermissionError`,
-- `AuthorizationDenied`, `InvalidConnectionTransition`, `InvalidCapabilityTransition`
pub data Failure : Type 0 where
  execution_error : ExecutionFailureCode → Failure
  value_error permission_error authorization_denied : Failure
  invalid_connection_transition invalid_capability_transition : Failure

pub data Result {ℓ} (A : Type ℓ) : Type ℓ where
  ok : A → Result A
  err : Failure → Result A

abbrev pub raised : {A : Type 0} → Result A → Bool
raised (ok a) = false
raised (err e) = true

abbrev pub Act : Type 0 → Type 0 → Type 0
Act S A = S → Result A × S

module _ {S : Type 0} where
  abbrev pub pure : {A : Type 0} → A → Act S A
  pure a s = (ok a, s)

  abbrev pub raise : {A : Type 0} → Failure → Act S A
  raise e s = (err e, s)

  abbrev pub gets : {A : Type 0} → (S → A) → Act S A
  gets f s = (ok (f s), s)

  abbrev pub modify : (S → S) → Act S Unit
  modify f s = (ok tt, f s)

  abbrev pub raise_if : Bool → Failure → Act S Unit
  raise_if true e s = (err e, s)
  raise_if false e s = (ok tt, s)

  abbrev pub or_raise : {A : Type 0} → Option A → Failure → Act S A
  or_raise none e s = (err e, s)
  or_raise (some a) e s = (ok a, s)

  infixl 5 ◌>>=◌ ◌>>◌
  abbrev pub ◌>>=◌ : {A B : Type 0} → Act S A → (A → Act S B) → Act S B
  ◌>>=◌ m f s = let (r, s') = m s in elim r [ ok a ↦ f a s' | err e ↦ (err e, s') ]

  abbrev pub ◌>>◌ : {B : Type 0} → Act S Unit → Act S B → Act S B
  m >> k = m >>= λ _. k
