-- ===== src/Execution/Admission/Settles.antt =====
-- What `create_run` has done when it returns a run.
use modall.Common.{ℕ, String, Option, ◌≡◌, some, none}
use modall.Execution.Admission.Checks.{
  Codec, Keyrings, Desk, Claims, CanonicalRequest, IdempotencyRecord, find_idempotency_record,
}
use modall.Execution.World.{Env, SystemExecutionState}
use modall.Identity.{WorkspaceContext}
use modall.Execution.Rows.{Run}
use modall.Execution.Admission.Replays.{Replays}
use modall.Execution.Admission.Admits.{Admits}
use modall.Execution.Admission.Steps.{Decodes}
use modall.Execution.Admission.Meanings.{Bound}

module _ (codec : Codec) (env : Env) (keys : Keyrings) (state : SystemExecutionState)
    (context : WorkspaceContext) (version_id : ℕ) (arguments token raw_key : String)
    (requested : Option ℕ) where
  -- the confirmation was signed with a key of the ring, for this actor and these arguments
  pub record Confirmed (encoded : String) (claims : Claims) (now : ℕ) : Type 0 where
    pub encodes : codec.encode arguments ≡ some encoded
    pub genuine : Decodes codec keys token claims
    pub bound : Bound claims context version_id (codec.sha256 encoded) now

  abbrev pub request_of : Claims → String → CanonicalRequest
  request_of claims encoded = record {
    capability_id = claims.capability_id;
    capability_version_id = version_id;
    connection_id = claims.connection_id;
    connection_version_id = claims.connection_version_id;
    argument_digest = codec.sha256 encoded;
    deadline = requested;
  }

  -- the run of the record of this key, or else a new run
  pub data Outcome (claims : Claims) (encoded : String) (d : Desk) (run : Run) (t : Desk)
      : Type 0 where
    replayed :
        (existing : IdempotencyRecord)
        → find_idempotency_record codec keys context raw_key d ≡ some existing
        → Replays codec env keys context existing
            (request_of claims encoded)
            claims
            (codec.sha256 claims.nonce)
            d
            run
            t
        → Outcome claims encoded d run t
    created :
        find_idempotency_record codec keys context raw_key d ≡ none
        → Admits codec env keys state context version_id claims
            (codec.sha256 claims.nonce)
            requested
            d
            run
            t
        → Outcome claims encoded d run t

  pub record Settles (d : Desk) (run : Run) (t : Desk) : Type 0 where
    pub encoded : String
    pub claims : Claims
    pub now : ℕ
    pub confirmed : Confirmed encoded claims now
    pub outcome : Outcome claims encoded d run t
