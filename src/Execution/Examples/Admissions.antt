-- ===== src/Execution/Examples/Admissions.antt =====
-- The admission of a run over the small ledger of the tests.
use modall.Execution.Examples.{tables}
use modall.Execution.Admission.{
  admitted_rows, claims_differ, replay_existing_run, request_matches, resolve, store_run,
  consume_nonce, use_nonce_again, new_run, trace, record_key,
}
use modall.Execution.Examples.{requests, world-Consistent}
use modall.Common.{
  ℕ, Result, [], some, none, Option, true, ◌≡◌, false, ◌∷◌, ok, refl, err, Act, map, ◌<◌, arith,
}
use modall.Identity.{WorkspaceContext, operator}
use modall.Execution.Admission.{
  create_run, admit_locked, admit_new_run, active_runs, admission_deadline,
}
use modall.Execution.Admission.Checks.{
  Desk, Claims, Codec, Keyrings, HmacKeyVersion, SchemaValidationResult, on_world,
  normalize_arguments, require_confirmation_key_history, find_unconfigured, next_version,
  require_idempotency_key_history, decode_confirmation, key_by_version, bindings_refused,
  validate_idempotency_key, find_idempotency_record, admission_refused, find_target_binding,
  load_admission_target, schema_result, target_differs, validate_normalized_arguments, printable,
  smaller, follows, CanonicalRequest, AdmissionTarget,
}
use modall.Registry.Rows.{
  CapabilityVersion, find_membership, has_workspace, find_capability, find_connection,
  find_observed, find_version, ServerConnection, CapabilityStatus, ConnectionLifecycle,
  qualified_protocol_revision,
}
use modall.Execution.Admission.Returns.{Returns}
use modall.Execution.Rows.{Run}
use modall.Execution.Examples.{env_at, world, state}
use modall.Execution.Admission.Settles.{Settles}
use modall.Execution.Admission.Creation.{create_run-Settles}
use modall.Execution.World.{
  execution_state, require_current_role, add_audit, durable_now, insert_state, uuid4,
}
use modall.Execution.Ledger.{append_event}
use modall.Execution.Admission.History.{create_run-Evolves, Grown}
use modall.Execution.Admission.Acceptance.{Accepts, admit_new_run-Accepts}
use modall.Execution.Admission.Stored.{Stores}
use modall.Execution.Service.History.{Steps}

abbrev version : CapabilityVersion
version = record {
  id = 7;
  workspace_id = 1;
  capability_id = 6;
  sequence = 1;
  display_name = "Tool";
  description = none;
  input_schema = "{}";
  output_schema = none;
  metadata_digest = "metadata";
  schema_supported = true;
}

abbrev key : HmacKeyVersion
key = record { version = "v1"; secret = [] }

abbrev keys : Keyrings
keys = record {
  confirmation = record { active = key; older = [] };
  idempotency = record { active = key; older = [] };
}

abbrev claims : Claims
claims = record {
  workspace_id = 1;
  actor_user_id = 2;
  capability_version_id = 7;
  capability_id = 6;
  connection_id = 3;
  connection_version_id = 4;
  argument_digest = "{}";
  route = "/v1/runs";
  nonce = "nonce";
  key_version = "v1";
  issued_at = 100;
  expires_at = 400;
}

abbrev codec : Codec
codec = record {
  encode = λ a. some a;
  byte_length = λ _. 2;
  is_object = λ _. true;
  sha256 = λ a. a;
  contains_sensitive_json = λ _. some false;
  validate_schema_arguments = λ _ _. SchemaValidationResult.valid;
  token_key = λ _. some "v1";
  decode_token = λ _ _. some claims;
  key_hmac = λ _ _ raw. raw;
  request_hmac = λ _ request. request.argument_digest;
}

abbrev context : WorkspaceContext
context = record { workspace_id = 1; actor_user_id = 2; role = operator }

abbrev desk : Desk
desk = record {
  world = record world {
    db = record world.db { tables = record tables { versions = version ∷ [] } };
  };
  nonces = [];
  records = [];
}

abbrev id_of : Result Run → Option ℕ
id_of (ok r) = some r.id
id_of (err e) = none

abbrev call : Act Desk Run
call = create_run codec (env_at 200) keys context 7 "{}" "token" "key" none none

-- a run is created; a second call with its key returns the same run and uses no other nonce
create_run-twice :
    (id_of (call desk).0 ≡ some 900)
    × (id_of (call (call desk).1).0 ≡ some 900)
    × (map (λ n. n.run_id) (call (call desk).1).1.nonces ≡ 900 ∷ [])
unfolding create_run consume_nonce use_nonce_again new_run trace record_key printable smaller
    follows find_version on_world execution_state require_current_role find_membership
    normalize_arguments require_confirmation_key_history find_unconfigured next_version
    require_idempotency_key_history decode_confirmation key_by_version bindings_refused
    validate_idempotency_key find_idempotency_record admit_locked has_workspace admit_new_run
    admission_refused find_target_binding load_admission_target schema_result target_differs
    validate_normalized_arguments active_runs admission_deadline admitted_rows claims_differ
    replay_existing_run request_matches resolve store_run append_event add_audit durable_now
    insert_state uuid4 find_capability find_connection find_observed
create_run-twice = (refl, refl, refl)

create_run-Settles_example :
    Returns (Settles codec (env_at 200) keys state context 7 "{}" "token" "key" none desk) call desk
create_run-Settles_example =
    create_run-Settles codec (env_at 200) keys state context 7 "{}" "token" "key" none none desk
      refl

create_run-Evolves_example :
    Returns
      (λ run t.
        Grown run desk.world.db.rows t.world.db.rows
        × (t.world.db.tables ≡ desk.world.db.tables)
        × Steps t.world requests)
      call
      desk
create_run-Evolves_example =
    create_run-Evolves codec (env_at 200) keys state context 7 "{}" "token" "key" none none desk
      requests refl world-Consistent

abbrev connection : ServerConnection
connection = record {
  id = 3;
  workspace_id = 1;
  name = 65 ∷ [];
  lifecycle = ConnectionLifecycle.active;
  pending_version_id = none;
  verified_version_id = some 4;
  current_snapshot_id = some 5;
  control_epoch = 1;
  refresh_generation = 1;
  allocated_control_epoch = none;
  allocated_target_version_id = none;
  last_refresh_error_code = none;
  last_refresh_at = none;
  created_by_user_id = 2;
}

abbrev target : AdmissionTarget
target = record {
  capability = record {
    id = 6;
    workspace_id = 1;
    connection_id = 3;
    tool_identity = "tool";
    pending_version_id = none;
    enabled_version_id = some 7;
    status = CapabilityStatus.enabled;
    status_epoch = 1;
  };
  version = version;
  binding = record {
    capability_version_id = 7;
    capability_id = 6;
    workspace_id = 1;
    connection_id = 3;
    connection_version_id = 4;
    tool_name = "tool";
    protocol_revision = qualified_protocol_revision;
  };
  connection = connection;
}

load_admission_target-desk : load_admission_target context 7 desk ≡ (ok target, desk)
unfolding load_admission_target find_version find_capability find_target_binding find_connection
    admission_refused find_observed
load_admission_target-desk = refl

validate_normalized_arguments-desk :
    validate_normalized_arguments codec "{}" "{}" desk ≡ (ok tt, desk)
unfolding validate_normalized_arguments schema_result
validate_normalized_arguments-desk = refl

active_runs-desk : active_runs codec (env_at 200) keys 1 desk < 10
unfolding active_runs
active_runs-desk = omega arith

abbrev request : CanonicalRequest
request = record {
  capability_id = 6;
  capability_version_id = 7;
  connection_id = 3;
  connection_version_id = 4;
  argument_digest = "{}";
  deadline = none;
}

admit_new_run-Accepts_example :
    Accepts
      (Stores codec (env_at 200) keys state context target claims "nonce" 200 300000200 desk)
      (admit_new_run codec
        (env_at 200)
        keys
        state
        context
        7
        claims
        "nonce"
        "key"
        request
        ("{}", "{}")
        none
        none
        200)
      desk
admit_new_run-Accepts_example =
    admit_new_run-Accepts codec (env_at 200) keys state context 7 claims "nonce" "key" request
      ("{}", "{}") none desk target 200 (omega arith) (omega arith) refl load_admission_target-desk
      (record { capability = refl; connection = refl; connection_version = refl })
      validate_normalized_arguments-desk refl active_runs-desk
