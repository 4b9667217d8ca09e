-- ===== src/Execution/Admission/Meanings.antt =====
-- What the tests of `create_run` say.
use text.Mathlib.TextEquality.{eq_iff}
use modall.Common.{
  ℕ, Bool, Option, String, not, is_none, is_some, ◌≡◌, holds_id, str_eq, false, true, ◌≤◌, none,
  some, arith, ◌<◌, refl,
}
use modall.Execution.Admission.Checks.{
  bindings_refused, Claims, admission_refused, target_differs, Codec, AdmissionTarget, Keyrings,
  IdempotencyRecord, CanonicalRequest, HmacKeyVersion, key_by_version,
}
use modall.Registry.Rows.{
  CapabilityStatus, Tables, ConnectionLifecycle, is_enabled, is_active_connection,
  qualified_protocol_revision, find_observed,
}
use modall.Execution.Admission.{claims_differ, request_matches}
use modall.Execution.Rows.{Run}
use modall.Identity.{WorkspaceContext}
use modall.Execution.World.{Env}

-- a target that may be called now
pub record Offered (t : Tables) (workspace : ℕ) (a : AdmissionTarget) : Type 0 where
  pub supported : a.version.schema_supported ≡ true
  pub enabled : a.capability.status ≡ CapabilityStatus.enabled
  pub enabled_version : a.capability.enabled_version_id ≡ some a.version.id
  pub reviewed : a.capability.pending_version_id ≡ none
  pub active : a.connection.lifecycle ≡ ConnectionLifecycle.active
  pub settled : a.connection.pending_version_id ≡ none
  pub verified : a.connection.verified_version_id ≡ some a.binding.connection_version_id
  pub revision : a.binding.protocol_revision ≡ qualified_protocol_revision
  pub observed :
      is_some (
        find_observed t workspace a.connection.id a.binding.connection_version_id a.version.id
          (some a.connection))
      ≡ true

-- the claims name the target
pub record Names (claims : Claims) (a : AdmissionTarget) : Type 0 where
  pub capability : claims.capability_id ≡ a.capability.id
  pub connection : claims.connection_id ≡ a.connection.id
  pub connection_version : claims.connection_version_id ≡ a.binding.connection_version_id

-- the claims name the target of the run
pub record NamesRun (claims : Claims) (run : Run) : Type 0 where
  pub capability : claims.capability_id ≡ run.capability_id
  pub version : claims.capability_version_id ≡ run.capability_version_id
  pub connection : claims.connection_id ≡ run.connection_id
  pub connection_version : claims.connection_version_id ≡ run.connection_version_id

-- the claims are for this actor, this version and these arguments
pub record Bound (claims : Claims) (context : WorkspaceContext) (version_id : ℕ) (digest : String)
    (now : ℕ) : Type 0 where
  pub workspace : claims.workspace_id ≡ context.workspace_id
  pub actor : claims.actor_user_id ≡ context.actor_user_id
  pub version : claims.capability_version_id ≡ version_id
  pub arguments : claims.argument_digest ≡ digest
  pub route : claims.route ≡ "/v1/runs"
  pub issued : claims.issued_at ≤ now
  pub lasting : claims.issued_at < claims.expires_at

not-false : (b : Bool) → not b ≡ false → b ≡ true
not-false true e = refl
not-false false e = cc

same_text : (a b : String) → not (str_eq a b) ≡ false → a ≡ b
same_text a b h = (eq_iff a b).0 (not-false _ h)

enabled_status : (s : CapabilityStatus) → not (is_enabled s) ≡ false → s ≡ CapabilityStatus.enabled
enabled_status s h = ground (arith, h)

active_lifecycle :
    (s : ConnectionLifecycle)
    → not (is_active_connection s) ≡ false
    → s ≡ ConnectionLifecycle.active
active_lifecycle s h = ground (arith, h)

held_id : (o : Option ℕ) (n : ℕ) → not (holds_id o n) ≡ false → o ≡ some n
held_id none n h = cc
held_id (some a) n h = ground (arith, h)

no_id : (o : Option ℕ) → is_some o ≡ false → o ≡ none
no_id none h = refl
no_id (some a) h = cc

there : {A : Type 0} (o : Option A) → is_none o ≡ false → is_some o ≡ true
there none h = cc
there (some a) h = refl

pub refused-Offered :
    (t : Tables) (workspace : ℕ) (a : AdmissionTarget)
    → admission_refused t workspace a ≡ false
    → Offered t workspace a
unfolding admission_refused
refused-Offered t workspace a h = record {
  supported = ground (arith, h);
  enabled = enabled_status _ (ground (arith, h));
  enabled_version = held_id _ _ (ground (arith, h));
  reviewed = no_id _ (ground (arith, h));
  active = active_lifecycle _ (ground (arith, h));
  settled = no_id _ (ground (arith, h));
  verified = held_id _ _ (ground (arith, h));
  revision = same_text _ _ (ground (arith, h));
  observed = there _ (ground (arith, h));
}

pub differs-Names :
    (claims : Claims) (a : AdmissionTarget) → target_differs claims a ≡ false → Names claims a
unfolding target_differs
differs-Names claims a h = record {
  capability = ground (arith, h);
  connection = ground (arith, h);
  connection_version = ground (arith, h);
}

pub differ-NamesRun :
    (codec : Codec) (env : Env) (keys : Keyrings) (claims : Claims) (run : Run)
    → claims_differ codec env keys claims run ≡ false
    → NamesRun claims run
unfolding claims_differ
differ-NamesRun codec env keys claims run h = record {
  capability = ground (arith, h);
  version = ground (arith, h);
  connection = ground (arith, h);
  connection_version = ground (arith, h);
}

pub refused-Bound :
    (claims : Claims) (context : WorkspaceContext) (version_id : ℕ) (digest : String) (now : ℕ)
    → bindings_refused claims context version_id digest now ≡ false
    → Bound claims context version_id digest now
unfolding bindings_refused
refused-Bound claims context version_id digest now h = record {
  workspace = ground (arith, h);
  actor = ground (arith, h);
  version = ground (arith, h);
  arguments = same_text _ _ (ground (arith, h));
  route = same_text _ _ (ground (arith, h));
  issued = ground (arith, h);
  lasting = ground (arith, h);
}

module _ (codec : Codec) (env : Env) (keys : Keyrings) (existing : IdempotencyRecord)
    (request : CanonicalRequest) where
  -- the record is of this request, under the key that it names
  pub record Matches : Type 0 where
    pub key : HmacKeyVersion
    pub in_ring : key_by_version keys.idempotency existing.key_version ≡ some key
    pub same : existing.request_hmac ≡ codec.request_hmac key request

  abbrev same_hmac : Option HmacKeyVersion → Bool
  same_hmac o = elim o [
    | none ↦ false
    | some key ↦ str_eq existing.request_hmac (codec.request_hmac key request)
  ]

  pub request_matches-Matches : request_matches codec env keys existing request ≡ true → Matches
  unfolding request_matches
  request_matches-Matches h = go (key_by_version keys.idempotency existing.key_version) refl h
    where
      go :
          (o : Option HmacKeyVersion)
          → key_by_version keys.idempotency existing.key_version ≡ o
          → same_hmac o ≡ true
          → Matches
      go none e q = cc
      go (some key) e q = record {
        key = key;
        in_ring = e;
        same = (eq_iff existing.request_hmac (codec.request_hmac key request)).0 q;
      }
