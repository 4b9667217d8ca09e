-- ===== src/Execution/Admission/Replays.antt =====
-- `_replay_existing_run`: the run that an idempotency record names.
use text.Mathlib.TextEquality.{eq_iff}
use modall.Common.{
  ℕ, String, Bool, find, not, ◌≡◌, some, false, true, refl, Option, ◌>>◌, pure, arith, none, ◌==◌,
}
use modall.Execution.Admission.Checks.{
  Codec, Keyrings, IdempotencyRecord, CanonicalRequest, Claims, Desk, ConfirmationNonce,
}
use modall.Execution.World.{Env}
use modall.Identity.{WorkspaceContext}
use modall.Execution.Rows.{RunRows, Run}
use modall.Execution.Admission.{
  replay_existing_run, request_matches, claims_differ, use_nonce_again, is_nonce, consume_nonce,
}
use modall.Execution.Admission.Returns.{
  Returns, returning_rules, returned-Returns, guard-Returns, pure-Returns,
}
use modall.Execution.Cancel.{is_run}
use modall.Execution.Admission.Meanings.{
  Matches, differ-NamesRun, NamesRun, request_matches-Matches,
}

module _ (codec : Codec) (env : Env) (keys : Keyrings) (context : WorkspaceContext)
    (existing : IdempotencyRecord) (request : CanonicalRequest) (claims : Claims)
    (nonce_digest : String) where
  -- nothing of the ledger has changed, and the confirmation is now used by this run
  pub record Replays (d : Desk) (run : Run) (t : Desk) : Type 0 where
    pub rows : RunRows
    pub same_run : rows.run ≡ run
    pub found : find (is_run context.workspace_id existing.resource_id) d.world.db.rows ≡ some rows
    pub same_request : Matches codec env keys existing request
    pub same_target : NamesRun claims run
    pub kept : t.world.db ≡ d.world.db
    pub same_records : t.records ≡ d.records
    pub nonce : ConfirmationNonce
    pub used : find (is_nonce codec env keys nonce_digest) t.nonces ≡ some nonce
    pub by_run : nonce.run_id ≡ run.id

  not-false : (b : Bool) → not b ≡ false → b ≡ true
  not-false true e = refl
  not-false false e = cc

  module _ (rows : RunRows) (d : Desk)
      (found : find (is_run context.workspace_id existing.resource_id) d.world.db.rows ≡ some rows)
      (same_request : request_matches codec env keys existing request ≡ true)
      (same_target : claims_differ codec env keys claims rows.run ≡ false) where
    used-Replays :
        (now n : ℕ) (o : Option ConfirmationNonce)
        → find (is_nonce codec env keys nonce_digest) d.nonces ≡ o
        → Returns
            (Replays d)
            (use_nonce_again codec env keys context claims nonce_digest rows.run now o
              >> pure rows.run)
            (record d { world = record d.world { reads = n } })
    unfolding use_nonce_again consume_nonce
    used-Replays now n none e = returned-Returns (Replays d) _ _ rows.run refl (record {
      rows = rows;
      same_run = refl;
      found = found;
      same_request = request_matches-Matches codec env keys existing request same_request;
      same_target = differ-NamesRun codec env keys claims rows.run same_target;
      kept = refl;
      same_records = refl;
      nonce = record {
        workspace_id = context.workspace_id;
        actor_user_id = context.actor_user_id;
        nonce_digest = nonce_digest;
        run_id = rows.run.id;
        key_version = claims.key_version;
        expires_at = claims.expires_at;
        consumed_at = now;
      };
      used = rw ((eq_iff nonce_digest nonce_digest).1 refl) refl;
      by_run = refl;
    })
    used-Replays now n (some x) e =
        guard-Returns (Replays d) _ (pure rows.run) (not (x.run_id == rows.run.id)) _ (λ same.
          pure-Returns (Replays d) (record d { world = record d.world { reads = n } }) rows.run
            (record {
              rows = rows;
              same_run = refl;
              found = found;
              same_request = request_matches-Matches codec env keys existing request same_request;
              same_target = differ-NamesRun codec env keys claims rows.run same_target;
              kept = refl;
              same_records = refl;
              nonce = x;
              used = e;
              by_run = ground arith;
            }))

  pub replay_existing_run-Replays :
      (d : Desk)
      → Returns
          (Replays d)
          (replay_existing_run codec env keys context existing request claims nonce_digest)
          d
  unfolding replay_existing_run
  replay_existing_run-Replays d = search (returning_rules, not-false, used-Replays) depth 20

  -- readings of the clock play no part
  pub Replays-read :
      (d : Desk) (n : ℕ) (run : Run) (t : Desk)
      → Replays (record d { world = record d.world { reads = n } }) run t
      → Replays d run t
  Replays-read d n run t s = record {
    rows = s.rows;
    same_run = s.same_run;
    found = s.found;
    same_request = s.same_request;
    same_target = s.same_target;
    kept = s.kept;
    same_records = s.same_records;
    nonce = s.nonce;
    used = s.used;
    by_run = s.by_run;
  }
