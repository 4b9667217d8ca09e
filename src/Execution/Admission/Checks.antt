-- ===== src/Execution/Admission/Checks.antt =====
-- execution/service.py: the checks of `create_run`, and the rows that only the admission uses.
use modall.Common.{
  ℕ, Bool, Option, List, String, Act, not, ◌∷◌, is_none, is_some, pure, true, none, find, ◌==◌,
  some, suc, ◌>>=◌, ◌>>◌, raise, ◌&&◌, str_eq, gets, or_raise, false, raise_if, ◌||◌, if◌then◌else◌,
  any, ltb, execution_error, map, [], zero, scanner_failed, leb, holds_id, ExecutionFailureCode,
  capability_unavailable, ◌+◌, invalid_idempotency_key, invalid_confirmation,
  confirmation_key_history_incomplete, idempotency_key_history_incomplete, argument_limit,
  sensitive_arguments,
}
use Prim.Native.String.{count, compare}
use Prim.Native.Nat.{Ordering}
use Prim.Native.Char.{code}
use modall.Registry.Rows.{
  Capability, Tables, McpToolBinding, CapabilityVersion, ServerConnection, find_observed,
  find_version, is_enabled, find_capability, is_active_connection, find_connection,
  qualified_protocol_revision,
}
use modall.Execution.World.{World}
use modall.Execution.Types.{ExecutionLimits}
use modall.Identity.{WorkspaceContext}

pub record HmacKeyVersion : Type 0 where
  pub version : String
  pub secret : List ℕ

-- `_ConfirmationClaims`; times in microseconds
pub record Claims : Type 0 where
  pub workspace_id : ℕ
  pub actor_user_id : ℕ
  pub capability_version_id : ℕ
  pub capability_id : ℕ
  pub connection_id : ℕ
  pub connection_version_id : ℕ
  pub argument_digest : String
  pub route : String
  pub nonce : String
  pub key_version : String
  pub issued_at : ℕ
  pub expires_at : ℕ

pub record ConfirmationNonce : Type 0 where
  pub workspace_id : ℕ
  pub actor_user_id : ℕ
  pub nonce_digest : String
  pub run_id : ℕ
  pub key_version : String
  pub expires_at : ℕ
  pub consumed_at : ℕ

-- `method` and `route` are constants of the service
pub record IdempotencyRecord : Type 0 where
  pub id : ℕ
  pub workspace_id : ℕ
  pub actor_user_id : ℕ
  pub confirmation_key_version : String
  pub key_version : String
  pub key_hmac : String
  pub request_hmac : String
  pub resource_id : ℕ
  pub created_at : ℕ
  pub completed_at : ℕ
  pub expires_at : ℕ

-- what `_canonical_request` puts into its JSON text
pub record CanonicalRequest : Type 0 where
  pub capability_id : ℕ
  pub capability_version_id : ℕ
  pub connection_id : ℕ
  pub connection_version_id : ℕ
  pub argument_digest : String
  pub deadline : Option ℕ

-- the ledger with the rows of the admission
pub record Desk : Type 0 where
  pub world : World
  pub nonces : List ConfirmationNonce
  pub records : List IdempotencyRecord

pub data SchemaValidationResult : Type 0 where
  valid invalid_arguments invalid_schema failed : SchemaValidationResult

-- json, jsonschema, jwt and hmac, and the screening of security/metadata.py
pub record Codec : Type 0 where
  -- the canonical text of bounded JSON arguments, and its length in bytes
  pub encode : String → Option String
  pub byte_length : String → ℕ
  pub is_object : String → Bool
  pub sha256 : String → String
  -- none where the scanner raises
  pub contains_sensitive_json : String → Option Bool
  pub validate_schema_arguments : String → String → SchemaValidationResult
  -- `kid` of the unverified header, where it is a text
  pub token_key : String → Option String
  -- `jwt.decode` with this key, for the issuer and the audience of the service
  pub decode_token : HmacKeyVersion → String → Option Claims
  pub key_hmac : HmacKeyVersion → WorkspaceContext → String → String
  pub request_hmac : HmacKeyVersion → CanonicalRequest → String

-- `_validate_keyring` accepts no empty ring: the active key and the older ones
pub record Keyring : Type 0 where
  pub active : HmacKeyVersion
  pub older : List HmacKeyVersion

pub record Keyrings : Type 0 where
  pub confirmation : Keyring
  pub idempotency : Keyring

abbrev pub active_key : Keyring → HmacKeyVersion
active_key ring = ring.active

abbrev pub keys_of : Keyring → List HmacKeyVersion
keys_of ring = ring.active ∷ ring.older

-- an action on the ledger
unfoldable pub on_world : {A : Type 0} → Act World A → Act Desk A
on_world m d = let (r, w) = m d.world in (r, record d { world = w })

-- `_key_by_version`
unfoldable pub key_by_version : Keyring → String → Option HmacKeyVersion
key_by_version ring version = find (λ k. str_eq k.version version) (keys_of ring)

abbrev pub is_empty : String → Bool
is_empty text = count text == 0

-- `_normalize_arguments`: the canonical text, and its digest
unfoldable pub normalize_arguments : Codec → ExecutionLimits → String → Act Desk (String × String)
normalize_arguments codec limits arguments = do
  encoded ←
      or_raise (codec.encode arguments) (execution_error ExecutionFailureCode.invalid_arguments)
  raise_if (ltb limits.max_argument_bytes (codec.byte_length encoded))
      (execution_error argument_limit)
  raise_if (not (codec.is_object encoded)) (execution_error ExecutionFailureCode.invalid_arguments)
  pure (encoded, codec.sha256 encoded)

unfoldable pub schema_result : SchemaValidationResult → Act Desk Unit
schema_result SchemaValidationResult.valid = pure tt
schema_result SchemaValidationResult.invalid_arguments =
    raise (execution_error ExecutionFailureCode.invalid_arguments)
schema_result SchemaValidationResult.invalid_schema = raise (execution_error capability_unavailable)
schema_result SchemaValidationResult.failed = raise (execution_error scanner_failed)

-- `_validate_normalized_arguments`
unfoldable pub validate_normalized_arguments : Codec → String → String → Act Desk Unit
unfolding schema_result
validate_normalized_arguments codec arguments schema = do
  sensitive ← or_raise (codec.contains_sensitive_json arguments) (execution_error scanner_failed)
  raise_if sensitive (execution_error sensitive_arguments)
  schema_result (codec.validate_schema_arguments arguments schema)

-- `order_by(column).limit(1)` over the texts that follow the previous one
unfoldable pub smaller : String → Option String → String
smaller a none = a
smaller a (some b) = elim (compare b a) [ Ordering.lt ↦ b | _ ↦ a ]

unfoldable pub follows : Option String → String → Bool
follows none a = true
follows (some p) a = elim (compare p a) [ Ordering.lt ↦ true | _ ↦ false ]

unfoldable pub next_version : Option String → List String → Option String
unfolding smaller follows
next_version previous [] = none
next_version previous (v ∷ rest) =
    let later = next_version previous rest in
    if follows previous v then some (smaller v later) else later

-- `_find_unconfigured_key_version`, with the number of probes that are left
unfoldable pub find_unconfigured : List String → (String → Bool) → ℕ → Option String → Option String
find_unconfigured column configured zero previous = previous
find_unconfigured column configured (suc n) previous = elim (next_version previous column) [
  | none ↦ none
  | some v ↦
      let rest = find_unconfigured column configured n (some v) in
      if configured v then rest else some v
]

abbrev pub is_configured : Keyring → String → Bool
is_configured ring v = is_some (key_by_version ring v)

unfoldable pub require_idempotency_key_history : ExecutionLimits → Keyrings → Act Desk Unit
require_idempotency_key_history limits keys = do
  missing ← gets (λ d.
      find_unconfigured (map (λ r. r.key_version) d.records) (is_configured keys.idempotency)
        (limits.max_historical_hmac_keys + 1) none)
  raise_if (is_some missing) (execution_error idempotency_key_history_incomplete)

unfoldable pub require_confirmation_key_history : ExecutionLimits → Keyrings → Act Desk Unit
require_confirmation_key_history limits keys = do
  missing ← gets (λ d.
      find_unconfigured (map (λ r. r.confirmation_key_version) d.records)
        (is_configured keys.confirmation) (limits.max_historical_hmac_keys + 1) none)
  raise_if (is_some missing) (execution_error confirmation_key_history_incomplete)
  missing_nonce ← gets (λ d.
      find_unconfigured (map (λ n. n.key_version) d.nonces) (is_configured keys.confirmation)
        (limits.max_historical_hmac_keys + 1) none)
  raise_if (is_some missing_nonce) (execution_error confirmation_key_history_incomplete)

-- `_decode_confirmation`
unfoldable pub decode_confirmation : Codec → Keyrings → String → Act Desk Claims
decode_confirmation codec keys token = do
  raise_if (is_empty token || ltb 4096 (count token)) (execution_error invalid_confirmation)
  key ←
      or_raise
        (key_by_version keys.confirmation
          (elim (codec.token_key token) [ none ↦ "" | some kid ↦ kid ]))
        (execution_error invalid_confirmation)
  claims ← or_raise (codec.decode_token key token) (execution_error invalid_confirmation)
  pure (record claims { key_version = key.version })

-- `_require_confirmation_bindings`
unfoldable pub bindings_refused : Claims → WorkspaceContext → ℕ → String → ℕ → Bool
bindings_refused claims context version_id digest now =
    not (claims.workspace_id == context.workspace_id)
    || not (claims.actor_user_id == context.actor_user_id)
    || not (claims.capability_version_id == version_id)
    || not (str_eq claims.argument_digest digest)
    || not (str_eq claims.route "/v1/runs")
    || is_empty claims.nonce
    || ltb now claims.issued_at
    || leb claims.expires_at claims.issued_at

unfoldable pub printable : String → Bool
printable String.[] = true
printable (String.◌∷◌ c rest) =
    let later = printable rest in if ltb (code c) 33 || ltb 126 (code c) then false else later

-- `_validate_idempotency_key`
unfoldable pub validate_idempotency_key : ExecutionLimits → String → Act Desk String
unfolding printable
validate_idempotency_key limits value = do
  raise_if
      (is_empty value
        || ltb limits.max_idempotency_key_characters (count value)
        || not (printable value))
      (execution_error invalid_idempotency_key)
  pure value

-- `_find_idempotency_record`: under any key of the ring
unfoldable pub find_idempotency_record :
    Codec → Keyrings → WorkspaceContext → String → Desk → Option IdempotencyRecord
find_idempotency_record codec keys context raw_key d =
    find
      (λ r.
        r.workspace_id == context.workspace_id
        && r.actor_user_id == context.actor_user_id
        && any
            (λ k.
              str_eq r.key_version k.version
              && str_eq r.key_hmac (codec.key_hmac k context raw_key))
            (keys_of keys.idempotency))
      d.records

-- `_AdmissionTarget`
pub record AdmissionTarget : Type 0 where
  pub capability : Capability
  pub version : CapabilityVersion
  pub binding : McpToolBinding
  pub connection : ServerConnection

unfoldable pub find_target_binding : Tables → ℕ → ℕ → Option McpToolBinding
find_target_binding t workspace version =
    find (λ b. b.capability_version_id == version && b.workspace_id == workspace) t.bindings

unfoldable pub admission_refused : Tables → ℕ → AdmissionTarget → Bool
admission_refused t workspace a =
    is_none (
      find_observed t workspace a.connection.id a.binding.connection_version_id a.version.id
        (some a.connection))
    || not a.version.schema_supported
    || not (is_enabled a.capability.status)
    || not (holds_id a.capability.enabled_version_id a.version.id)
    || is_some a.capability.pending_version_id
    || not (is_active_connection a.connection.lifecycle)
    || is_some a.connection.pending_version_id
    || not (holds_id a.connection.verified_version_id a.binding.connection_version_id)
    || not (str_eq a.binding.protocol_revision qualified_protocol_revision)

-- `_load_admission_target`
unfoldable pub load_admission_target : WorkspaceContext → ℕ → Act Desk AdmissionTarget
load_admission_target context version_id = do
  t ← gets (λ d. d.world.db.tables)
  version ←
      or_raise (find_version t context.workspace_id version_id)
        (execution_error capability_unavailable)
  capability ←
      or_raise (find_capability t context.workspace_id version.capability_id)
        (execution_error capability_unavailable)
  binding ←
      or_raise (find_target_binding t context.workspace_id version.id)
        (execution_error capability_unavailable)
  connection ←
      or_raise (find_connection t context.workspace_id binding.connection_id)
        (execution_error capability_unavailable)
  let a : AdmissionTarget = record {
    capability = capability;
    version = version;
    binding = binding;
    connection = connection;
  }
  raise_if (admission_refused t context.workspace_id a) (execution_error capability_unavailable)
  pure a

unfoldable pub target_differs : Claims → AdmissionTarget → Bool
target_differs claims a =
    not (claims.capability_id == a.capability.id)
    || not (claims.connection_id == a.connection.id)
    || not (claims.connection_version_id == a.binding.connection_version_id)
