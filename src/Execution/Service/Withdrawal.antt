-- ===== src/Execution/Service/Withdrawal.antt =====
-- A decision on a connection or a capability, and the runs that were admitted before it.
pub mod Decisions
pub mod Fencing
use modall.Common.{
  ℕ, find, ◌⊎◌, Option, ◌≡◌, inl, true, Grows-find, List, some, refl, ◌<◌, ◌≤◌, find-accepted, inr,
  find-update_first, arith, ◌∙◌, ok, Act, ◌>>=◌, pure, Option-cases,
}
use modall.Registry.Calls
use modall.Registry.Connections
use modall.Registry.Capabilities
use modall.Execution.Lease
use modall.Execution.Service.{Call, perform}
use modall.Registry.Rows.{
  Capability, Tables, ServerConnection, find_connection, find_capability, ConnectionLifecycle,
}
use modall.Execution.Rows.{Run, RunRows, Job}
use modall.Registry.Capabilities.Projects.{Projects}
use modall.Identity.{Role, WorkspaceContext}
use modall.Registry.Store.{
  Catalog, put_capability, put_connection, is_capability, is_connection, Source,
  append_status_event,
}
use modall.Execution.Lease.{
  is_leased_job, target_refused, connection_refused, capability_refused, fence_refused, fence_held,
}
use modall.Registry.Ensures.{Lasting, Ensures, ensuring_rules, lasting-Ensures, returned-Ensures}
use modall.Registry.Advance.{Advances}
use modall.Registry.Calls.Refusal.{actor, is_connection-Moves}
use modall.Registry.Connections.Moves.{Moves}
use modall.Registry.Capabilities.{enabled_with, switched_off, publish_status}
use modall.Execution.Types.{JobLease, RunStatus, RunEventType}
use modall.Registry.Connections.{appended, append_version, moved_to, Validation}
use modall.Execution.Success.{ResultScreen}
use modall.Execution.World.{SystemExecutionState, held_now, Env, Held, World}
use modall.Registry.Calls.History.{serve-Advances}
use modall.Registry.Advance.Connections.{connection_rules}
use modall.Registry.Advance.Capabilities.{capability_rules}
use modall.Registry.Advance.Rules.{pure-AdvancesAt}
use modall.Execution.Service.Refusal.{HeldRefuses, Refuses, Refuses-first}
use modall.Execution.Service.Stale.{fence_attempt-held}

-- the connection that the run is pinned to has moved past the epoch of its admission
abbrev pub ConnectionMoved : Tables → Run → Type 0
ConnectionMoved t run =
    (c : ServerConnection) × (find (is_connection run.workspace_id run.connection_id) t.connections
      ≡ some c)
    × (run.connection_control_epoch < c.control_epoch)

abbrev pub CapabilityMoved : Tables → Run → Type 0
CapabilityMoved t run =
    (c : Capability) × (find (is_capability run.workspace_id run.capability_id) t.capabilities
      ≡ some c)
    × (run.capability_status_epoch < c.status_epoch)

abbrev pub Withdrawn : Tables → Run → Type 0
Withdrawn t run = ConnectionMoved t run ⊎ CapabilityMoved t run

-- the epochs that a run was admitted with are those of the registry, or earlier ones
pub record Reached (t : Tables) (run : Run) : Type 0 where
  pub connection_epoch :
      (c : ServerConnection)
      → find (is_connection run.workspace_id run.connection_id) t.connections ≡ some c
      → run.connection_control_epoch ≤ c.control_epoch
  pub status_epoch :
      (c : Capability)
      → find (is_capability run.workspace_id run.capability_id) t.capabilities ≡ some c
      → run.capability_status_epoch ≤ c.status_epoch

pub same_capability :
    (workspace id : ℕ) (c d : Capability)
    → Projects c d
    → is_capability workspace id d ≡ is_capability workspace id c
same_capability workspace id c d p = rw (p.same_id, p.same_workspace) refl

module _ (run : Run) where
  abbrev pub Stopped : Catalog → Type 0
  Stopped s = Withdrawn s.tables run

  pub Stopped-Lasting : Lasting Stopped
  Stopped-Lasting = record { lasts = stays }
    where
      stays : (s t : Catalog) → Advances s t → Stopped s → Stopped t
      stays s t a (inl (c, found, h)) =
          let (d, found', m) =
            Grows-find Moves (is_connection run.workspace_id run.connection_id)
              (is_connection-Moves run.workspace_id run.connection_id) _ _ c
              a.tables.connections.grows found in
          inl (d, found', omega (arith, h, m.epoch))
      stays s t a (inr (c, found, h)) =
          let (d, found', p) =
            Grows-find Projects (is_capability run.workspace_id run.capability_id)
              (same_capability run.workspace_id run.capability_id) _ _ c a.tables.capabilities.grows
              found in
          inr (d, found', omega (arith, h, p.epoch))

  pub target_refused-Withdrawn : (t : Tables) → Withdrawn t run → target_refused t run ≡ true
  unfolding target_refused find_connection find_capability
  target_refused-Withdrawn t (inl (c, found, h)) =
      let moved = connection_behind c h in rw found (ground (arith, moved))
    where
      connection_behind :
          (c : ServerConnection)
          → run.connection_control_epoch < c.control_epoch
          → connection_refused run (some c) ≡ true
      connection_behind c h = ground arith
  target_refused-Withdrawn t (inr (c, found, h)) =
      let moved = capability_behind c h in rw found (ground (arith, moved))
    where
      capability_behind :
          (c : Capability)
          → run.capability_status_epoch < c.status_epoch
          → capability_refused run (some c) ≡ true
      capability_behind c h = ground arith

-- the decisions on the connection or on the capability of a run
pub data Withdraws (run : Run) : Calls.Call → Type 0 where
  by_disabled_connection :
      {user : ℕ} {role : Role} {k : Option ℕ}
      → Withdraws run
          (Calls.Call.disable_connection (actor run.workspace_id user role) run.connection_id k)
  by_enabled_connection :
      {user : ℕ} {role : Role} {k : Option ℕ}
      → Withdraws run
          (Calls.Call.enable_connection (actor run.workspace_id user role) run.connection_id k)
  by_appended_version :
      {user : ℕ} {role : Role} {url policy : List ℕ} {secret k : Option ℕ}
      → Withdraws run (
          Calls.Call.append_version
            (actor run.workspace_id user role)
            run.connection_id
            url
            secret
            policy
            k)
  by_disabled_capability :
      {user v : ℕ} {role : Role} {k : Option ℕ}
      → Withdraws run
          (Calls.Call.disable_capability (actor run.workspace_id user role) run.capability_id v k)
  by_enabled_capability :
      {user v : ℕ} {role : Role} {k : Option ℕ}
      → Withdraws run
          (Calls.Call.enable_capability (actor run.workspace_id user role) run.capability_id v k)
