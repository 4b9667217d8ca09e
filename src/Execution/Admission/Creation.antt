-- ===== src/Execution/Admission/Creation.antt =====
-- `create_run` as a whole: the run of the idempotency record, or a new one.
use modall.Common.{ℕ, String, Option, ◌≡◌, some, false, Act, none, refl}
use modall.Execution.Admission.Checks.{
  Codec, Keyrings, Desk, Claims, bindings_refused, find_idempotency_record, IdempotencyRecord,
  CanonicalRequest,
}
use modall.Execution.World.{Env, SystemExecutionState}
use modall.Identity.{WorkspaceContext}
use modall.Execution.Rows.{Run}
use modall.Execution.Admission.Settles.{Settles, Outcome, request_of}
use modall.Execution.Admission.Steps.{Decodes, reading_rules}
use modall.Execution.Admission.Returns.{Returns, map-Returns, returning_rules}
use modall.Execution.Admission.{
  admit_new_run, replay_existing_run, create_run, resolve, admit_locked,
}
use modall.Execution.Admission.Admits.{admit_new_run-Admits, Admits-read}
use modall.Execution.Admission.Replays.{replay_existing_run-Replays, Replays-read}
use modall.Execution.Admission.Meanings.{refused-Bound}

module _ (codec : Codec) (env : Env) (keys : Keyrings) (state : SystemExecutionState)
    (context : WorkspaceContext) (version_id : ℕ) (arguments token raw_key : String)
    (requested correlation : Option ℕ) (d : Desk) where
  abbrev Settled : Run → Desk → Type 0
  Settled = Settles codec env keys state context version_id arguments token raw_key requested d

  abbrev at_reading : ℕ → Desk
  at_reading n = record d { world = record d.world { reads = n } }

  module _ (encoded : String) (claims : Claims) (now n : ℕ)
      (encodes : codec.encode arguments ≡ some encoded) (genuine : Decodes codec keys token claims)
      (bound : bindings_refused claims context version_id (codec.sha256 encoded) now ≡ false) where
    settled :
        (m : Act Desk Run) (P : Run → Desk → Type 0)
        → ((run : Run) (t : Desk)
            → P run t
            → Outcome codec env keys state context version_id arguments token raw_key requested
                claims encoded d run t)
        → Returns P m (at_reading n)
        → Returns Settled m (at_reading n)
    settled m P f h =
        map-Returns P Settled m (at_reading n)
          (λ run t q. record {
            encoded = encoded;
            claims = claims;
            now = now;
            confirmed = record {
              encodes = encodes;
              genuine = genuine;
              bound = refused-Bound claims context version_id (codec.sha256 encoded) now bound;
            };
            outcome = f run t q;
          })
          h

    replayed-Settled :
        (existing : IdempotencyRecord)
        → find_idempotency_record codec keys context raw_key (at_reading n) ≡ some existing
        → Returns Settled
            (replay_existing_run codec env keys context existing
              (request_of codec env keys state context version_id arguments token raw_key requested
                claims encoded)
              claims
              (codec.sha256 claims.nonce))
            (at_reading n)
    unfolding find_idempotency_record
    replayed-Settled existing e =
        settled _ _
          (λ run t h. Outcome.replayed existing e (
            Replays-read codec env keys context existing
              (request_of codec env keys state context version_id arguments token raw_key requested
                claims encoded)
              claims (codec.sha256 claims.nonce) d n run t h))
          (replay_existing_run-Replays codec env keys context existing
            (request_of codec env keys state context version_id arguments token raw_key requested
              claims encoded)
            claims (codec.sha256 claims.nonce) (at_reading n))

    created-Settled :
        (locked_at : ℕ)
        → find_idempotency_record codec keys context raw_key (at_reading n) ≡ none
        → Returns Settled
            (admit_new_run codec env keys state context version_id claims
              (codec.sha256 claims.nonce)
              raw_key
              (request_of codec env keys state context version_id arguments token raw_key requested
                claims encoded)
              (encoded, codec.sha256 encoded)
              requested
              correlation
              locked_at)
            (at_reading n)
    unfolding find_idempotency_record
    created-Settled locked_at e =
        settled _ _
          (λ run t h. Outcome.created e (
            Admits-read codec env keys state context version_id claims (codec.sha256 claims.nonce)
              requested d n run t h))
          (admit_new_run-Admits codec env keys state context version_id claims
            (codec.sha256 claims.nonce) raw_key
            (request_of codec env keys state context version_id arguments token raw_key requested
              claims encoded)
            (encoded, codec.sha256 encoded) requested correlation (at_reading n) locked_at)

  resolve-Returns :
      (n : ℕ) (otherwise : Act Desk Run) (request : CanonicalRequest) (claims : Claims)
      (digest : String) (o : Option IdempotencyRecord)
      → (o ≡ none → Returns Settled otherwise (at_reading n))
      → ((existing : IdempotencyRecord)
          → o ≡ some existing
          → Returns Settled
              (replay_existing_run codec env keys context existing request claims digest)
              (at_reading n))
      → Returns Settled
          (resolve codec env keys otherwise context request claims digest o)
          (at_reading n)
  unfolding resolve
  resolve-Returns n otherwise request claims digest none f g = f refl
  resolve-Returns n otherwise request claims digest (some x) f g = g x refl

  locked-Settled :
      (encoded : String) (claims : Claims) (now n : ℕ)
      → codec.encode arguments ≡ some encoded
      → Decodes codec keys token claims
      → bindings_refused claims context version_id (codec.sha256 encoded) now ≡ false
      → Returns Settled
          (admit_locked codec env keys context version_id claims
            (codec.sha256 claims.nonce)
            raw_key
            (request_of codec env keys state context version_id arguments token raw_key requested
              claims encoded)
            (encoded, codec.sha256 encoded)
            requested
            correlation
            state)
          (at_reading n)
  unfolding admit_locked
  locked-Settled encoded claims now n encodes genuine bound =
      search (returning_rules, reading_rules, resolve-Returns, replayed-Settled, created-Settled)
        depth 14

  -- When create_run returns a run, the token was signed for this actor, version and arguments; the
  -- run is the one that the idempotency record of this key names, if it was for the same request
  -- and target, or a new one that is pinned to the enabled target, within its deadline and the
  -- limit of active runs, outside of a quarantine, with a confirmation that was unused and
  -- unexpired.
  pub create_run-Settles :
      d.world.db.state ≡ some state
      → Returns Settled
          (create_run codec env keys context version_id arguments token raw_key requested
            correlation)
          d
  unfolding create_run
  create_run-Settles e =
      search (returning_rules, reading_rules, resolve-Returns, replayed-Settled, locked-Settled)
        depth 20
