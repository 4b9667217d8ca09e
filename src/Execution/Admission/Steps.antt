-- ===== src/Execution/Admission/Steps.antt =====
-- The steps of `create_run` that only read.
use mathlib.Core.Path.{subst}
use modall.Execution.Types.{ExecutionLimits}
use modall.Common.{
  Bool, Act, String, Failure, ◌≡◌, ◌>>◌, ◌>>=◌, some, raise_if, ok, true, sym, false, ◌∙◌, refl,
}
use modall.Execution.Admission.Checks.{
  Codec, Desk, validate_idempotency_key, normalize_arguments, require_confirmation_key_history,
  Keyrings, decode_confirmation, require_idempotency_key_history, on_world, HmacKeyVersion, Claims,
  key_by_version,
}
use modall.Execution.World.{execution_state, insert_state, Env, SystemExecutionState}
use modall.Execution.Admission.Returns.{
  Returns, raise-Returns, check-Returns, returning_rules, pure-Returns, read-Returns,
}

pub record Decodes (codec : Codec) (keys : Keyrings) (token : String) (claims : Claims)
    : Type 0 where
  pub kid : String
  pub key : HmacKeyVersion
  pub in_ring : key_by_version keys.confirmation kid ≡ some key
  pub signed : Claims
  pub decoded : codec.decode_token key token ≡ some signed
  pub claims_of : claims ≡ record signed { key_version = key.version }

decodes :
    (codec : Codec) (keys : Keyrings) (token kid : String) (key : HmacKeyVersion) (signed : Claims)
    → key_by_version keys.confirmation kid ≡ some key
    → codec.decode_token key token ≡ some signed
    → Decodes codec keys token (record signed { key_version = key.version })
decodes codec keys token kid key signed a b = record {
  kid = kid;
  key = key;
  in_ring = a;
  signed = signed;
  decoded = b;
  claims_of = refl;
}

module _ {B : Type 0} (P : B → Desk → Type 0) (d : Desk) where
  pub state-Returns :
      (env : Env) (s : SystemExecutionState) (k : SystemExecutionState → Act Desk B)
      → d.world.db.state ≡ some s
      → Returns P (k s) d
      → Returns P (on_world (execution_state env) >>= k) d
  unfolding on_world execution_state insert_state
  state-Returns env s k e h =
      read-Returns P d (on_world (execution_state env)) k (rw e refl)
        (λ a q. subst (λ x. Returns P (k x) d) (ok_inj (sym (state_ok) ∙ q)) h)
    where
      state_ok : (on_world (execution_state env) d).0 ≡ ok s
      state_ok = rw e refl

      ok_inj : {x y : SystemExecutionState} → ok x ≡ ok y → x ≡ y
      ok_inj q = cc

  refuse-reads : (b : Bool) (e : Failure) → Returns (λ _ t. (t ≡ d) × Unit) (raise_if b e) d
  refuse-reads true e = raise-Returns _ d e
  refuse-reads false e = pure-Returns _ d tt (refl, tt)

  pub idempotency-Returns :
      (limits : ExecutionLimits) (keys : Keyrings) (k : Act Desk B)
      → Returns P k d
      → Returns P (require_idempotency_key_history limits keys >> k) d
  unfolding require_idempotency_key_history
  idempotency-Returns limits keys k h =
      check-Returns P d (require_idempotency_key_history limits keys) (λ _. k) (λ _. Unit)
        (search (returning_rules, refuse-reads) depth 8) (λ _ _. h)

  pub confirmation-Returns :
      (limits : ExecutionLimits) (keys : Keyrings) (k : Act Desk B)
      → Returns P k d
      → Returns P (require_confirmation_key_history limits keys >> k) d
  unfolding require_confirmation_key_history
  confirmation-Returns limits keys k h =
      check-Returns P d (require_confirmation_key_history limits keys) (λ _. k) (λ _. Unit)
        (search (returning_rules, refuse-reads) depth 8) (λ _ _. h)

  -- the canonical text of the arguments, and its digest
  pub arguments-Returns :
      (codec : Codec) (limits : ExecutionLimits) (arguments : String)
      (k : String × String → Act Desk B)
      → ((encoded : String)
          → codec.encode arguments ≡ some encoded
          → Returns P (k (encoded, codec.sha256 encoded)) d)
      → Returns P (normalize_arguments codec limits arguments >>= k) d
  unfolding normalize_arguments
  arguments-Returns codec limits arguments k h =
      check-Returns P d (normalize_arguments codec limits arguments) k
        (λ n. (codec.encode arguments ≡ some n.0) × (codec.sha256 n.0 ≡ n.1))
        (search returning_rules depth 10)
        (λ n q. subst (λ x. Returns P (k (n.0, x)) d) q.1 (h n.0 q.0))

  pub key-Returns :
      (limits : ExecutionLimits) (value : String) (k : String → Act Desk B)
      → Returns P (k value) d
      → Returns P (validate_idempotency_key limits value >>= k) d
  unfolding validate_idempotency_key
  key-Returns limits value k h =
      check-Returns P d (validate_idempotency_key limits value) k (λ v. value ≡ v)
        (search returning_rules depth 10) (λ v q. subst (λ x. Returns P (k x) d) q h)

  pub decode-Returns :
      (codec : Codec) (keys : Keyrings) (token : String) (k : Claims → Act Desk B)
      → ((c : Claims) → Decodes codec keys token c → Returns P (k c) d)
      → Returns P (decode_confirmation codec keys token >>= k) d
  unfolding decode_confirmation
  decode-Returns codec keys token k h =
      check-Returns P d (decode_confirmation codec keys token) k (λ c. Decodes codec keys token c)
        (search (returning_rules, decodes) depth 14) h

pub ruleset reading_rules = (
  state-Returns, idempotency-Returns, confirmation-Returns, arguments-Returns, key-Returns,
  decode-Returns,
)
