-- ===== src/Registry/Examples.antt =====
-- Tests of registry/service.py and registry/discovery.py on a small registry.
use modall.Common.{All, raised, some, true, ◌+◌, arith, [], ◌∷◌, ◌≡◌, refl, none, ok}
use modall.Registry.Calls
use modall.Execution.Service
use modall.Registry.Connections
use modall.Identity.{Role}
use modall.Execution.Examples.{world, run, tables, state, lease, env_at, test_screen}
use modall.Registry.Store.{
  require_workspace_role, Source, Catalog, locked_connection, put_connection, audit, trace_id,
  fresh_id,
}
use modall.Execution.Service.Withdrawal.{Reached, by_disabled_connection}
use modall.Execution.World.{World}
use modall.Registry.Connections.{promote_pending, promote_refused, obsolete_refresh_jobs}
use modall.Registry.Refresh.{RefreshLease}
use modall.Registry.Advance.{Advances}
use modall.Execution.Service.Refusal.{Refuses}
use modall.Registry.Rows.{
  ServerConnection, ConnectionLifecycle, has_workspace, find_membership, find_connection,
}
use modall.Registry.Calls.Refusal.{actor, by_promotion, to_contact}
use modall.Registry.Connections.Moves.{IsSound}
use modall.Execution.Service.Withdrawal.Fencing.{perform-Withdrawn, dispatch}
use modall.Registry.Calls.History.{serve-Advances}
use modall.Registry.Calls.Allocation.{consumed-raises}

abbrev source : Source
source = record { clock = λ n. 1000 + n; uuid = λ n. 900 + n }

abbrev catalog : Catalog
catalog = record {
  tables = tables;
  connection_versions = [];
  secrets = [];
  refresh_jobs = [];
  status_events = [];
  payloads = [];
  snapshots = [];
  audits = [];
  reads = 0;
  draws = 0;
}

abbrev request : Calls.Call → Calls.Request
request call = record {
  source = source;
  validation = record { validate_name = λ n. some n; validate_configuration = λ _ _ _. true };
  validate_metadata = λ _. true;
  call = call;
}

-- an operator disables the connection that the run of the small ledger is pinned to
abbrev disabling : Calls.Request
disabling = request (Calls.Call.disable_connection (actor 1 2 Role.operator) 3 none)

disabling-returns : (Calls.perform disabling disabling.call catalog).0 ≡ ok tt
unfolding Calls.perform Connections.disable require_workspace_role locked_connection put_connection
    obsolete_refresh_jobs audit trace_id fresh_id has_workspace find_membership find_connection
disabling-returns = refl

run-Reached : Reached catalog.tables run
run-Reached = record {
  connection_epoch = λ c found. ground arith;
  status_epoch = λ c found. ground arith;
}

-- the ledger with the registry after the decision
abbrev after_disabling : World
after_disabling = record world {
  db = record world.db {
    tables = (Calls.serve (Calls.perform disabling disabling.call catalog).1 []).tables;
  };
}

perform-Withdrawn_example :
    Refuses
      (Service.perform test_screen (env_at 300) (Service.Call.fence_dispatch lease))
      after_disabling
perform-Withdrawn_example =
    perform-Withdrawn catalog disabling [] run test_screen (env_at 300) state after_disabling lease
      (Service.Call.fence_dispatch lease) run-Reached by_disabled_connection disabling-returns refl
      refl (λ r found. ground arith) dispatch

-- a connection whose first version is being verified, with an allocation in force
abbrev verifying : ServerConnection
verifying = record {
  id = 3;
  workspace_id = 1;
  name = 65 ∷ [];
  lifecycle = ConnectionLifecycle.verifying;
  pending_version_id = some 4;
  verified_version_id = none;
  control_epoch = 1;
  refresh_generation = 1;
  allocated_control_epoch = some 1;
  allocated_target_version_id = some 4;
  current_snapshot_id = none;
  last_refresh_error_code = none;
  last_refresh_at = none;
  created_by_user_id = 2;
}

abbrev allocated_catalog : Catalog
allocated_catalog = record catalog { tables = record tables { connections = verifying ∷ [] } }

allocated_catalog-IsSound : All IsSound allocated_catalog.tables.connections
allocated_catalog-IsSound = (
  record { has_version = refl; allocation = (refl, refl, omega arith, refl); verified = λ e. cc },
  tt,
)

abbrev refresh : RefreshLease
refresh = record {
  job_id = 20;
  actor_user_id = 2;
  worker_id = "worker";
  lease_epoch = 1;
  connection_id = 3;
  connection_version_id = 4;
  control_epoch = 1;
  generation = 1;
}

abbrev promoting : Calls.Request
promoting = request (Calls.Call.promote_pending (actor 1 2 Role.operator) 3 4 1 1 none)

abbrev contacting : Calls.Request
contacting = request (Calls.Call.validate_for_contact (actor 1 2 Role.operator) refresh)

promoting-returns : (Calls.perform promoting promoting.call allocated_catalog).0 ≡ ok tt
unfolding Calls.perform promote_pending promote_refused require_workspace_role locked_connection
    put_connection audit trace_id fresh_id has_workspace find_membership find_connection
promoting-returns = refl

consumed-raises_example :
    raised
      (Calls.perform contacting contacting.call
        (Calls.serve (Calls.perform promoting promoting.call allocated_catalog).1 [])).0
    ≡ true
consumed-raises_example =
    consumed-raises 1 refresh allocated_catalog promoting [] contacting allocated_catalog-IsSound
      by_promotion promoting-returns to_contact

serve-Advances_example :
    Advances allocated_catalog (Calls.serve allocated_catalog (promoting ∷ disabling ∷ []))
serve-Advances_example = serve-Advances allocated_catalog (promoting ∷ disabling ∷ [])
