-- ===== src/Execution/Admission/Stored.antt =====
-- The rows that `create_run` writes for a new run.
use modall.Common.{ℕ, String, refl, arith, ◌≡◌, ◌++◌, ◌∷◌, [], Option, some, none, map, ◌+◌}
use modall.Execution.Admission.Checks.{
  Codec, Keyrings, AdmissionTarget, Claims, Desk, CanonicalRequest, on_world,
}
use modall.Execution.World.{Env, SystemExecutionState, uuid4, add_audit}
use modall.Identity.{WorkspaceContext}
use modall.Execution.Admission.{admitted_rows, new_run, store_run, trace, consume_nonce, record_key}
use modall.Execution.Ledger.{append_event}
use modall.Execution.Evolution.{IsAdmitted}
use modall.Execution.Rows.{Run, RunRows}
use modall.Execution.Admission.Returns.{Returns, returned-Returns}

module _ (codec : Codec) (env : Env) (keys : Keyrings) (state : SystemExecutionState)
    (context : WorkspaceContext) (target : AdmissionTarget) where
  -- a new run has its job and its first event
  pub admitted_rows-IsAdmitted :
      (run_id job_id trace now deadline : ℕ) (arguments digest : String)
      → IsAdmitted (
          admitted_rows codec env keys state context target run_id job_id trace arguments digest
            deadline now)
  unfolding admitted_rows new_run append_event
  admitted_rows-IsAdmitted run_id job_id trace now deadline arguments digest = record {
    consistent = ground arith;
    queued_first = refl;
    one_event = refl;
  }

  -- the run is pinned to the target that was loaded
  pub record Pinned (run : Run) : Type 0 where
    pub workspace : run.workspace_id ≡ context.workspace_id
    pub actor : run.actor_user_id ≡ context.actor_user_id
    pub capability : run.capability_id ≡ target.capability.id
    pub version : run.capability_version_id ≡ target.version.id
    pub connection : run.connection_id ≡ target.connection.id
    pub connection_version : run.connection_version_id ≡ target.binding.connection_version_id
    pub control_epoch : run.connection_control_epoch ≡ target.connection.control_epoch
    pub status_epoch : run.capability_status_epoch ≡ target.capability.status_epoch
    pub revision : run.protocol_revision ≡ target.binding.protocol_revision

  new_run-Pinned :
      (run_id trace now deadline : ℕ) (arguments digest : String)
      → Pinned (new_run codec env keys context target run_id trace arguments digest deadline now)
  unfolding new_run
  new_run-Pinned run_id trace now deadline arguments digest = record {
    workspace = refl;
    actor = refl;
    capability = refl;
    version = refl;
    connection = refl;
    connection_version = refl;
    control_epoch = refl;
    status_epoch = refl;
    revision = refl;
  }

  -- what is written when a run is created
  pub record Stores (claims : Claims) (nonce_digest : String) (now deadline : ℕ) (d : Desk)
      (run : Run) (t : Desk) : Type 0 where
    pub rows : RunRows
    pub same_run : rows.run ≡ run
    pub appended : t.world.db.rows ≡ d.world.db.rows ++ rows ∷ []
    pub same_tables : t.world.db.tables ≡ d.world.db.tables
    pub admitted : IsAdmitted rows
    pub pinned : Pinned run
    pub deadline_of : run.deadline ≡ deadline
    pub created : run.created_at ≡ now
    -- one nonce and one idempotency record, both of this run
    pub consumed :
        map (λ n. n.nonce_digest) t.nonces ≡ nonce_digest ∷ map (λ n. n.nonce_digest) d.nonces
    pub of_run : map (λ n. n.run_id) t.nonces ≡ run.id ∷ map (λ n. n.run_id) d.nonces
    pub resource : map (λ r. r.resource_id) t.records ≡ run.id ∷ map (λ r. r.resource_id) d.records

  module _ (claims : Claims) (nonce_digest raw_key : String) (request : CanonicalRequest)
      (normalized : String × String) (deadline now : ℕ) (d : Desk) where
    pub store_run-Stores :
        (correlation : Option ℕ)
        → Returns
            (Stores claims nonce_digest now deadline d)
            (store_run codec env keys state context target claims nonce_digest raw_key request
              normalized deadline correlation now)
            d
    unfolding store_run trace consume_nonce record_key on_world uuid4 add_audit admitted_rows
        append_event
    store_run-Stores none =
        returned-Returns (Stores claims nonce_digest now deadline d) d _ _ refl (record {
          rows =
              admitted_rows codec env keys state context target (env.uuid d.world.draws)
                (env.uuid (d.world.draws + 1 + 1)) (env.uuid (d.world.draws + 1)) normalized.0
                normalized.1 deadline now;
          same_run = refl;
          appended = refl;
          same_tables = refl;
          admitted =
              admitted_rows-IsAdmitted (env.uuid d.world.draws) (env.uuid (d.world.draws + 1 + 1))
                (env.uuid (d.world.draws + 1)) now deadline normalized.0 normalized.1;
          pinned =
              new_run-Pinned (env.uuid d.world.draws) (env.uuid (d.world.draws + 1)) now deadline
                normalized.0 normalized.1;
          deadline_of = refl;
          created = refl;
          consumed = refl;
          of_run = refl;
          resource = refl;
        })
    store_run-Stores (some trace_id) =
        returned-Returns (Stores claims nonce_digest now deadline d) d _ _ refl (record {
          rows =
              admitted_rows codec env keys state context target (env.uuid d.world.draws)
                (env.uuid (d.world.draws + 1)) trace_id normalized.0 normalized.1 deadline now;
          same_run = refl;
          appended = refl;
          same_tables = refl;
          admitted =
              admitted_rows-IsAdmitted (env.uuid d.world.draws) (env.uuid (d.world.draws + 1))
                trace_id now deadline normalized.0 normalized.1;
          pinned =
              new_run-Pinned (env.uuid d.world.draws) trace_id now deadline normalized.0
                normalized.1;
          deadline_of = refl;
          created = refl;
          consumed = refl;
          of_run = refl;
          resource = refl;
        })
