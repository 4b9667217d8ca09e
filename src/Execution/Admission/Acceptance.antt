-- ===== src/Execution/Admission/Acceptance.antt =====
-- When `create_run` admits a new run.
use modall.Execution.Types.{second}
use modall.Common.{
  ℕ, arith, Act, String, ◌≡◌, Bool, gets, ok, ◌>>=◌, Failure, Result, ◌>>◌, ◌+◌, false, raise_if,
  ◌*◌, err, none, true, Option, ◌<◌, find, some, is_some, refl, leb,
}
use modall.Execution.Admission.Checks.{
  Codec, Desk, on_world, Keyrings, validate_normalized_arguments, AdmissionTarget,
  load_admission_target, Claims, CanonicalRequest, target_differs,
}
use modall.Identity.{WorkspaceContext}
use modall.Execution.World.{Env, durable_now, SystemExecutionState, uuid4, add_audit}
use modall.Execution.Admission.{
  admission_deadline, store_run, trace, admit_new_run, consume_nonce, active_runs, record_key,
  is_nonce,
}
use modall.Execution.Admission.Meanings.{Names}
use modall.Execution.Admission.Admits.{Stores-read}
use modall.Execution.Rows.{Run}
use modall.Execution.Admission.Stored.{Stores, store_run-Stores}

-- the action returns, and P holds of what it returns and leaves
pub record Accepts {A : Type 0} (P : A → Desk → Type 0) (m : Act Desk A) (d : Desk) : Type 0 where
  pub result : A
  pub returns : (m d).0 ≡ ok result
  pub holds : P result (m d).1

module _ {A B : Type 0} (P : B → Desk → Type 0) (d : Desk) where
  abbrev after : (A → Act Desk B) → Result A × Desk → Result B × Desk
  after f (r, t) = elim r [ ok a ↦ f a t | err e ↦ (err e, t) ]

  bind-Accepts :
      (m : Act Desk A) (f : A → Act Desk B) (a : A) (t : Desk)
      → m d ≡ (ok a, t)
      → Accepts P (f a) t
      → Accepts P (m >>= f) d
  bind-Accepts m f a t e h = record {
    result = h.result;
    returns = (go (m d) e).0;
    holds = (go (m d) e).1;
  }
    where
      go :
          (p : Result A × Desk)
          → p ≡ (ok a, t)
          → ((after f p).0 ≡ ok h.result) × P h.result (after f p).1
      go p q = rw q (h.returns, h.holds)

module _ {B : Type 0} (P : B → Desk → Type 0) (d : Desk) where
  guard-Accepts :
      (k : Act Desk B) (b : Bool) (e : Failure)
      → b ≡ false
      → Accepts P k d
      → Accepts P (raise_if b e >> k) d
  guard-Accepts k true e q h = cc
  guard-Accepts k false e q h = record { result = h.result; returns = h.returns; holds = h.holds }

  gets-Accepts :
      {A : Type 0} (g : Desk → A) (k : A → Act Desk B)
      → Accepts P (k (g d)) d
      → Accepts P (gets g >>= k) d
  gets-Accepts g k h = record { result = h.result; returns = h.returns; holds = h.holds }

  now-Accepts :
      (env : Env) (k : ℕ → Act Desk B)
      → Accepts P
          (k (env.clock d.world.reads))
          (record d { world = record d.world { reads = d.world.reads + 1 } })
      → Accepts P (on_world (durable_now env) >>= k) d
  unfolding on_world durable_now
  now-Accepts env k h = record { result = h.result; returns = h.returns; holds = h.holds }

  -- no deadline was asked for
  admission_deadline-Accepts :
      (codec : Codec) (env : Env) (keys : Keyrings) (now : ℕ) (k : ℕ → Act Desk B)
      → Accepts P (k (now + env.limits.max_run_seconds * second)) d
      → Accepts P (admission_deadline codec env keys none now >>= k) d
  unfolding admission_deadline
  admission_deadline-Accepts codec env keys now k h = record {
    result = h.result;
    returns = h.returns;
    holds = h.holds;
  }

  load_admission_target-Accepts :
      (context : WorkspaceContext) (version_id : ℕ) (a : AdmissionTarget)
      (k : AdmissionTarget → Act Desk B)
      → load_admission_target context version_id d ≡ (ok a, d)
      → Accepts P (k a) d
      → Accepts P (load_admission_target context version_id >>= k) d
  load_admission_target-Accepts context version_id a k e h =
      bind-Accepts P d (load_admission_target context version_id) k a d e h

  validate-Accepts :
      (codec : Codec) (arguments schema : String) (k : Act Desk B)
      → validate_normalized_arguments codec arguments schema d ≡ (ok tt, d)
      → Accepts P k d
      → Accepts P (validate_normalized_arguments codec arguments schema >> k) d
  validate-Accepts codec arguments schema k e h =
      bind-Accepts P d (validate_normalized_arguments codec arguments schema) (λ _. k) tt d e h

ruleset accepting_rules = (
  guard-Accepts, gets-Accepts, now-Accepts, admission_deadline-Accepts,
  load_admission_target-Accepts, validate-Accepts,
)

target_differs-Names :
    (claims : Claims) (a : AdmissionTarget) → Names claims a → target_differs claims a ≡ false
unfolding target_differs
target_differs-Names claims a n = ground (arith, n.capability, n.connection, n.connection_version)

module _ (codec : Codec) (env : Env) (keys : Keyrings) (state : SystemExecutionState)
    (context : WorkspaceContext) (version_id : ℕ) (claims : Claims) (nonce_digest raw_key : String)
    (request : CanonicalRequest) (normalized : String × String) where
  module _ (target : AdmissionTarget) (deadline now : ℕ) (d : Desk) (n : ℕ) where
    abbrev Stored : Run → Desk → Type 0
    Stored = Stores codec env keys state context target claims nonce_digest now deadline d

    abbrev read : Desk
    read = record d { world = record d.world { reads = n } }

    store_run-returns :
        (correlation : Option ℕ)
        → (run : Run) × ((store_run codec env keys state context target claims nonce_digest raw_key
              request normalized deadline correlation now read).0
            ≡ ok run)
    unfolding store_run trace consume_nonce record_key on_world uuid4 add_audit
    store_run-returns none = (_, refl)
    store_run-returns (some x) = (_, refl)

    store_run-Accepts :
        (correlation : Option ℕ)
        → Accepts Stored
            (store_run codec env keys state context target claims nonce_digest raw_key request
              normalized deadline correlation now)
            read
    store_run-Accepts correlation =
        let (run, e) = store_run-returns correlation in
        record {
          result = run;
          returns = e;
          holds =
              Stores-read codec env keys state context target claims nonce_digest now deadline d n
                run _
                ((store_run-Stores codec env keys state context target claims nonce_digest raw_key
                    request normalized deadline now read correlation).at
                  run e);
        }

  module _ (correlation : Option ℕ) (d : Desk) where
    -- A new run without a deadline of its own is created when the claims are for the current
    -- target, expire later than the two readings of the clock, and were not used before, the
    -- arguments are valid, there is no quarantine and the limit of active runs is not reached: the
    -- ledger has grown by that run, pinned to the target, and one nonce and one idempotency record
    -- name it.
    pub admit_new_run-Accepts :
        (target : AdmissionTarget) (locked_at : ℕ)
        → locked_at < claims.expires_at
        → env.clock d.world.reads < claims.expires_at
        → find (is_nonce codec env keys nonce_digest) d.nonces ≡ none
        → load_admission_target context version_id d ≡ (ok target, d)
        → Names claims target
        → validate_normalized_arguments codec normalized.0 target.version.input_schema d
          ≡ (ok tt, d)
        → state.dispatch_quarantined ≡ false
        → active_runs codec env keys context.workspace_id d
          < env.limits.max_active_runs_per_workspace
        → Accepts
            (Stores codec env keys state context target claims nonce_digest
              (env.clock d.world.reads)
              (env.clock d.world.reads + env.limits.max_run_seconds * second)
              d)
            (admit_new_run codec env keys state context version_id claims nonce_digest raw_key
              request normalized none correlation locked_at)
            d
    unfolding admit_new_run active_runs
    admit_new_run-Accepts target locked_at early unexpired unused loaded same valid running room =
        let e0 : is_some (find (is_nonce codec env keys nonce_digest) d.nonces) ≡ false =
          rw unused refl in
        let e1 : leb claims.expires_at locked_at ≡ false = ground (arith, early) in
        let e2 : leb claims.expires_at (env.clock d.world.reads) ≡ false =
          ground (arith, unexpired) in
        let e3 : leb env.limits.max_active_runs_per_workspace
              (active_runs codec env keys context.workspace_id d)
            ≡ false =
          ground (arith, room) in
        let e4 : target_differs claims target ≡ false = target_differs-Names claims target same in
        search (accepting_rules, store_run-Accepts) depth 18
