-- ===== src/Execution/Success.antt =====
-- execution/service.py: `complete_invocation_success`, which stores an accepted result with the
-- successful completion.
use modall.Common.{
  ℕ, String, Option, Act, Bool, some, not, ◌||◌, if◌then◌else◌, ◌+◌, leb, pure, ltb, none, ◌==◌,
  raise, str_eq, execution_error, persistence_failure, ◌>>◌, raise_if, invalid_arguments, ◌>>=◌,
  gets, modify,
}
use modall.Execution.World.{Env, Held, World, held_now, lock}
use modall.Execution.Types.{AcceptedToolResult, JobLease, days, same_status, succeeded}
use modall.Execution.Rows.{RunRows, Run}
use modall.Execution.Lease.{complete_lease}

-- what the code takes from elsewhere: the canonical encoding of a payload (json.dumps with sorted
-- keys, as bytes are counted), SHA-256, and the screening of security/metadata.py
pub record ResultScreen : Type 0 where
  -- `validate_bounded_json` returns and the payload can be encoded
  pub encodable : String → Bool
  pub canonical_length : String → ℕ
  pub canonical_sha256 : String → String
  pub contains_sensitive_json : String → Bool

-- the condition under which the code raises `ValueError` for a result
result_refused : ResultScreen → ℕ → AcceptedToolResult → Bool
result_refused screen max_result_bytes x =
    not (screen.encodable x.payload)
    || leb (screen.canonical_length x.payload) 0
    || ltb max_result_bytes (screen.canonical_length x.payload)
    || not (screen.canonical_length x.payload == x.byte_count)
    || not (str_eq (screen.canonical_sha256 x.payload) x.canonical_digest)
    || screen.contains_sensitive_json x.payload

-- the row that is added, captured when the run ended
store_result : ℕ → AcceptedToolResult → ℕ → RunRows → RunRows
store_result retention_days x captured_at r = record r {
  result = some (record {
    payload = x.payload;
    canonical_digest = x.canonical_digest;
    byte_count = x.byte_count;
    captured_at = captured_at;
    expires_at = captured_at + days retention_days;
  });
}

module _ (screen : ResultScreen) (env : Env) where
  captured : Option ℕ → Act Held ℕ
  captured none = held_now env
  captured (some t) = pure t

  unfoldable pub store_at : AcceptedToolResult → Option ℕ → Act Held Unit
  unfolding captured store_result
  store_at x terminal_at = do
    captured_at ← captured terminal_at
    modify (λ h. record h {
      rows = store_result env.limits.result_retention_days x captured_at h.rows;
    })

  unfoldable pub store_held : AcceptedToolResult → Act Held Unit
  store_held x = do terminal_at ← gets (λ h. h.rows.run.terminal_at); store_at x terminal_at

  unfoldable pub finish_success : AcceptedToolResult → Run → Act World Run
  unfolding store_held
  finish_success x run =
      if same_status run.status succeeded
      then (lock (λ r. r.run.id == run.id) (raise (execution_error persistence_failure))
            (store_held x)
          >> pure run)
      else pure run

  unfoldable pub complete_invocation_success : JobLease → AcceptedToolResult → Act World Run
  unfolding result_refused finish_success
  complete_invocation_success lease x = do
    raise_if (result_refused screen env.limits.max_result_bytes x)
        (execution_error invalid_arguments)
    run ← complete_lease env lease succeeded none
    finish_success x run
