-- ===== src/Execution/Admission/Admits.antt =====
-- What `create_run` has established when it returns a new run.
use modall.Common.{
  refl, ℕ, Option, ◌≤◌, String, ◌≡◌, ◌+◌, ◌*◌, some, ◌<◌, none, false, arith, find, is_some, leb,
  Act, ◌>>=◌, ◌>>◌,
}
use modall.Registry.Rows.{Tables, find_version, find_capability, find_connection}
use modall.Execution.Admission.{admission_deadline, is_nonce, active_runs, admit_new_run, store_run}
use modall.Execution.Admission.Checks.{
  load_admission_target, validate_normalized_arguments, AdmissionTarget, schema_result, Codec, Desk,
  Keyrings, find_target_binding, SchemaValidationResult, Claims, target_differs, CanonicalRequest,
}
use modall.Execution.World.{Env, SystemExecutionState}
use modall.Identity.{WorkspaceContext}
use modall.Execution.Admission.Returns.{
  Returns, returning_rules, pure-Returns, raise-Returns, guard-Returns, check-Returns, map-Returns,
}
use modall.Execution.Types.{second}
use modall.Execution.Rows.{Run}
use modall.Execution.Admission.Stored.{Stores, store_run-Stores}
use modall.Execution.Admission.Meanings.{differs-Names, refused-Offered, Names, Offered}

-- the rows that `_load_admission_target` found, and what it required of them
pub record Loaded (t : Tables) (workspace version_id : ℕ) (a : AdmissionTarget) : Type 0 where
  pub version : find_version t workspace version_id ≡ some a.version
  pub capability : find_capability t workspace a.version.capability_id ≡ some a.capability
  pub binding : find_target_binding t workspace a.version.id ≡ some a.binding
  pub connection : find_connection t workspace a.binding.connection_id ≡ some a.connection
  pub offered : Offered t workspace a

load_admission_target-Loaded :
    (context : WorkspaceContext) (version_id : ℕ) (d : Desk)
    → Returns
        (λ a t. (t ≡ d) × Loaded d.world.db.tables context.workspace_id version_id a)
        (load_admission_target context version_id)
        d
unfolding load_admission_target
load_admission_target-Loaded context version_id d =
    search (returning_rules, refused-Offered) depth 16

abbrev pub Always : {A : Type 0} → A → Type 0
Always a = Unit

schema_result-reads :
    (r : SchemaValidationResult) (d : Desk)
    → Returns (λ a t. (t ≡ d) × Always a) (schema_result r) d
unfolding schema_result
schema_result-reads SchemaValidationResult.valid d = pure-Returns _ d tt (refl, tt)
schema_result-reads SchemaValidationResult.invalid_arguments d = raise-Returns _ d _
schema_result-reads SchemaValidationResult.invalid_schema d = raise-Returns _ d _
schema_result-reads SchemaValidationResult.failed d = raise-Returns _ d _

validate_normalized_arguments-reads :
    (codec : Codec) (arguments schema : String) (d : Desk)
    → Returns (λ a t. (t ≡ d) × Always a) (validate_normalized_arguments codec arguments schema) d
unfolding validate_normalized_arguments
validate_normalized_arguments-reads codec arguments schema d =
    search (returning_rules, schema_result-reads) depth 10

-- a deadline of the request lies ahead, and every deadline lies within the limit
pub record Deadline (env : Env) (requested : Option ℕ) (now deadline : ℕ) : Type 0 where
  pub within : deadline ≤ now + env.limits.max_run_seconds * second
  pub ahead : 0 < env.limits.max_run_seconds → now < deadline
  pub as_requested : (r : ℕ) → requested ≡ some r → deadline ≡ r

admission_deadline-Deadline :
    (codec : Codec) (env : Env) (keys : Keyrings) (requested : Option ℕ) (now : ℕ) (d : Desk)
    → Returns
        (λ deadline t. (t ≡ d) × Deadline env requested now deadline)
        (admission_deadline codec env keys requested now)
        d
unfolding admission_deadline
admission_deadline-Deadline codec env keys none now d =
    pure-Returns _ d _
      (refl, record { within = omega arith; ahead = λ h. omega arith; as_requested = λ r e. cc })
admission_deadline-Deadline codec env keys (some r) now d = guard-Returns _ d _ _ _ (λ allowed.
    pure-Returns _ d r
      (refl, record { within = ground arith; ahead = λ h. ground arith; as_requested = λ x e. cc }))

module _ {B : Type 0} (P : B → Desk → Type 0) (d : Desk) (codec : Codec) where
  load-Returns :
      (context : WorkspaceContext) (version_id : ℕ) (k : AdmissionTarget → Act Desk B)
      → ((a : AdmissionTarget)
          → Loaded d.world.db.tables context.workspace_id version_id a
          → Returns P (k a) d)
      → Returns P (load_admission_target context version_id >>= k) d
  load-Returns context version_id k h =
      check-Returns P d (load_admission_target context version_id) k
        (Loaded d.world.db.tables context.workspace_id version_id)
        (load_admission_target-Loaded context version_id d) h

  validate-Returns :
      (arguments schema : String) (k : Act Desk B)
      → Returns P k d
      → Returns P (validate_normalized_arguments codec arguments schema >> k) d
  validate-Returns arguments schema k h =
      check-Returns P d (validate_normalized_arguments codec arguments schema) (λ _. k) Always
        (validate_normalized_arguments-reads codec arguments schema d) (λ _ _. h)

  admission_deadline-Returns :
      (env : Env) (keys : Keyrings) (requested : Option ℕ) (now : ℕ) (k : ℕ → Act Desk B)
      → ((deadline : ℕ) → Deadline env requested now deadline → Returns P (k deadline) d)
      → Returns P (admission_deadline codec env keys requested now >>= k) d
  admission_deadline-Returns env keys requested now k h =
      check-Returns P d (admission_deadline codec env keys requested now) k
        (Deadline env requested now) (admission_deadline-Deadline codec env keys requested now d) h

-- A new run of `create_run`: the target is the one that the registry offers now and that the
-- confirmation names, and the confirmation has been neither used nor has it expired.
pub record Admits (codec : Codec) (env : Env) (keys : Keyrings) (state : SystemExecutionState)
    (context : WorkspaceContext) (version_id : ℕ) (claims : Claims) (nonce_digest : String)
    (requested : Option ℕ) (d : Desk) (run : Run) (t : Desk) : Type 0 where
  pub target : AdmissionTarget
  pub loaded : Loaded d.world.db.tables context.workspace_id version_id target
  pub confirmed : Names claims target
  pub now : ℕ
  pub deadline : ℕ
  pub in_time : Deadline env requested now deadline
  pub unexpired : now < claims.expires_at
  pub unused : find (is_nonce codec env keys nonce_digest) d.nonces ≡ none
  pub not_quarantined : state.dispatch_quarantined ≡ false
  pub room :
      active_runs codec env keys context.workspace_id d < env.limits.max_active_runs_per_workspace
  pub stores : Stores codec env keys state context target claims nonce_digest now deadline d run t

module _ (codec : Codec) (env : Env) (keys : Keyrings) (state : SystemExecutionState)
    (context : WorkspaceContext) (target : AdmissionTarget) (claims : Claims)
    (nonce_digest : String) (now deadline : ℕ) (d : Desk) (n : ℕ) (run : Run) (t : Desk) where
  -- readings of the clock are not part of what is written
  pub Stores-read :
      Stores codec env keys state context target claims nonce_digest now deadline
        (record d { world = record d.world { reads = n } })
        run
        t
      → Stores codec env keys state context target claims nonce_digest now deadline d run t
  Stores-read s = record {
    rows = s.rows;
    same_run = s.same_run;
    appended = s.appended;
    same_tables = s.same_tables;
    admitted = s.admitted;
    pinned = s.pinned;
    deadline_of = s.deadline_of;
    created = s.created;
    consumed = s.consumed;
    of_run = s.of_run;
    resource = s.resource;
  }

is_some-false {ℓ} : {A : Type ℓ} (o : Option A) → is_some o ≡ false → o ≡ none
is_some-false none e = refl
is_some-false (some a) e = cc

module _ (codec : Codec) (env : Env) (keys : Keyrings) (state : SystemExecutionState)
    (context : WorkspaceContext) (version_id : ℕ) (claims : Claims) (nonce_digest raw_key : String)
    (request : CanonicalRequest) (normalized : String × String) (requested correlation : Option ℕ)
    (d : Desk) where
  abbrev Admitting : Run → Desk → Type 0
  Admitting = Admits codec env keys state context version_id claims nonce_digest requested d

  stored-Admits :
      (target : AdmissionTarget) (deadline : ℕ)
      → Loaded d.world.db.tables context.workspace_id version_id target
      → target_differs claims target ≡ false
      → is_some (find (is_nonce codec env keys nonce_digest) d.nonces) ≡ false
      → leb claims.expires_at (env.clock d.world.reads) ≡ false
      → Deadline env requested (env.clock d.world.reads) deadline
      → state.dispatch_quarantined ≡ false
      → leb env.limits.max_active_runs_per_workspace
          (active_runs codec env keys context.workspace_id d)
        ≡ false
      → Returns Admitting
          (store_run codec env keys state context target claims nonce_digest raw_key request
            normalized deadline correlation
            (env.clock d.world.reads))
          (record d { world = record d.world { reads = d.world.reads + 1 } })
  stored-Admits target deadline loaded confirmed unused unexpired in_time running room =
      let read = record d { world = record d.world { reads = d.world.reads + 1 } } in
      let now = env.clock d.world.reads in
      map-Returns (Stores codec env keys state context target claims nonce_digest now deadline read)
        Admitting _ read
        (λ run t h. record {
          target = target;
          loaded = loaded;
          confirmed = differs-Names claims target confirmed;
          now = now;
          deadline = deadline;
          in_time = in_time;
          unexpired = ground (arith, unexpired);
          unused = is_some-false _ unused;
          not_quarantined = running;
          room = ground (arith, room);
          stores =
              Stores-read codec env keys state context target claims nonce_digest now deadline d
                (d.world.reads + 1) run t h;
        })
        (store_run-Stores codec env keys state context target claims nonce_digest raw_key request
          normalized deadline now read correlation)

  pub admit_new_run-Admits :
      (locked_at : ℕ)
      → Returns Admitting
          (admit_new_run codec env keys state context version_id claims nonce_digest raw_key request
            normalized requested correlation locked_at)
          d
  unfolding admit_new_run
  admit_new_run-Admits locked_at =
      search
        (returning_rules, load-Returns, validate-Returns, admission_deadline-Returns, stored-Admits)
        depth 24

module _ (codec : Codec) (env : Env) (keys : Keyrings) (state : SystemExecutionState)
    (context : WorkspaceContext) (version_id : ℕ) (claims : Claims) (nonce_digest : String)
    (requested : Option ℕ) (d : Desk) (n : ℕ) (run : Run) (t : Desk) where
  pub Admits-read :
      Admits codec env keys state context version_id claims nonce_digest requested
        (record d { world = record d.world { reads = n } })
        run
        t
      → Admits codec env keys state context version_id claims nonce_digest requested d run t
  unfolding active_runs
  Admits-read a = record {
    target = a.target;
    loaded = a.loaded;
    confirmed = a.confirmed;
    now = a.now;
    deadline = a.deadline;
    in_time = a.in_time;
    unexpired = a.unexpired;
    unused = a.unused;
    not_quarantined = a.not_quarantined;
    room = a.room;
    stores =
        Stores-read codec env keys state context a.target claims nonce_digest a.now a.deadline d n
          run t a.stores;
  }
