-- ===== src/Execution/Service/Withdrawal/Decisions.antt =====
-- The calls of registry/service.py that decide on the connection or the capability of a run.
use modall.Common.{
  ℕ, find, Option, ◌≡◌, inl, List, some, ◌<◌, find-accepted, inr, find-update_first, arith, ◌∙◌,
  Act, ◌>>=◌, pure,
}
use modall.Registry.Calls
use modall.Registry.Connections
use modall.Registry.Capabilities
use modall.Registry.Rows.{Capability, ServerConnection, ConnectionLifecycle}
use modall.Execution.Rows.{Run}
use modall.Registry.Capabilities.Projects.{Projects}
use modall.Identity.{Role, WorkspaceContext}
use modall.Registry.Store.{
  Catalog, put_capability, put_connection, is_capability, is_connection, Source,
  append_status_event,
}
use modall.Registry.Ensures.{Ensures, ensuring_rules, lasting-Ensures, returned-Ensures}
use modall.Registry.Calls.Refusal.{actor, is_connection-Moves}
use modall.Registry.Connections.Moves.{Moves}
use modall.Registry.Capabilities.{enabled_with, switched_off, publish_status}
use modall.Registry.Connections.{appended, append_version, moved_to, Validation}
use modall.Registry.Advance.Connections.{connection_rules}
use modall.Registry.Advance.Capabilities.{capability_rules}
use modall.Registry.Advance.Rules.{pure-AdvancesAt}
use modall.Execution.Service.Withdrawal.{
  Stopped, Reached, same_capability, Withdraws, Stopped-Lasting, by_disabled_connection,
  by_enabled_connection, by_appended_version, by_disabled_capability, by_enabled_capability,
}

module _ (run : Run) (s : Catalog) (reached : Reached s.tables run) where
  put_connection-Stopped :
      (c d : ServerConnection)
      → find (is_connection run.workspace_id run.connection_id) s.tables.connections ≡ some c
      → Moves c d
      → c.control_epoch < d.control_epoch
      → Stopped run (put_connection (is_connection run.workspace_id run.connection_id) d s).1
  unfolding put_connection
  put_connection-Stopped c d found moves later =
      let test = is_connection run.workspace_id run.connection_id in
      let accepted = find-accepted test s.tables.connections c found in
      let same = is_connection-Moves run.workspace_id run.connection_id c d moves in
      inl (
        d,
        find-update_first test s.tables.connections c d found (same ∙ accepted),
        omega (arith, reached.connection_epoch c found, later),
      )

  put_capability-Stopped :
      (c d : Capability)
      → find (is_capability run.workspace_id run.capability_id) s.tables.capabilities ≡ some c
      → Projects c d
      → c.status_epoch < d.status_epoch
      → Stopped run (put_capability (is_capability run.workspace_id run.capability_id) d s).1
  unfolding put_capability
  put_capability-Stopped c d found projects later =
      let test = is_capability run.workspace_id run.capability_id in
      let accepted = find-accepted test s.tables.capabilities c found in
      let same = same_capability run.workspace_id run.capability_id c d projects in
      inr (
        d,
        find-update_first test s.tables.capabilities c d found (same ∙ accepted),
        omega (arith, reached.status_epoch c found, later),
      )

  publish_status-Stopped :
      (context : WorkspaceContext) (v : Option ℕ) (c d : Capability)
      → find (is_capability run.workspace_id run.capability_id) s.tables.capabilities ≡ some c
      → Projects c d
      → c.status_epoch < d.status_epoch
      → Stopped run
          (publish_status (is_capability run.workspace_id run.capability_id) context d v s).1
  unfolding publish_status append_status_event put_capability
  publish_status-Stopped context v c d found projects later =
      put_capability-Stopped c d found projects later

moved_to-later :
    (l : ConnectionLifecycle) (c : ServerConnection)
    → c.control_epoch < (moved_to l c).control_epoch
moved_to-later l c = unfold moved_to in omega arith

appended-later : (v : ℕ) (c : ServerConnection) → c.control_epoch < (appended v c).control_epoch
appended-later v c = unfold appended in omega arith

enabled_with-later : (v : ℕ) (c : Capability) → c.status_epoch < (enabled_with v c).status_epoch
enabled_with-later v c = unfold enabled_with in omega arith

switched_off-later : (c : Capability) → c.status_epoch < (switched_off c).status_epoch
switched_off-later c = unfold switched_off in omega arith

ruleset stopping_rules = (
  ensuring_rules, lasting-Ensures, moved_to-later, appended-later, enabled_with-later,
  switched_off-later, connection_rules, capability_rules,
)

module _ (run : Run) (source : Source) (user : ℕ) (role : Role) where
  abbrev decider : WorkspaceContext
  decider = actor run.workspace_id user role

  disable_connection-Stopped :
      (s : Catalog) (k : Option ℕ)
      → Reached s.tables run
      → Ensures (Stopped run) (Connections.disable source decider run.connection_id k) s
  unfolding Connections.disable
  disable_connection-Stopped s k reached =
      let lasting = Stopped-Lasting run in
      let stopped = put_connection-Stopped run in search (lasting, stopped, stopping_rules) depth 14

  enable_connection-Stopped :
      (s : Catalog) (k : Option ℕ)
      → Reached s.tables run
      → Ensures (Stopped run) (Connections.enable source decider run.connection_id k) s
  unfolding Connections.enable
  enable_connection-Stopped s k reached =
      let lasting = Stopped-Lasting run in
      let stopped = put_connection-Stopped run in search (lasting, stopped, stopping_rules) depth 14

  append_version-Stopped :
      (validation : Validation) (s : Catalog) (url policy : List ℕ) (secret k : Option ℕ)
      → Reached s.tables run
      → Ensures
          (Stopped run)
          (append_version source validation decider run.connection_id url secret policy k)
          s
  unfolding append_version
  append_version-Stopped validation s url policy secret k reached =
      let lasting = Stopped-Lasting run in
      let stopped = put_connection-Stopped run in search (lasting, stopped, stopping_rules) depth 18

  disable_capability-Stopped :
      (s : Catalog) (v : ℕ) (k : Option ℕ)
      → Reached s.tables run
      → Ensures (Stopped run) (Capabilities.disable source decider run.capability_id v k) s
  unfolding Capabilities.disable
  disable_capability-Stopped s v k reached =
      let lasting = Stopped-Lasting run in
      let stopped = publish_status-Stopped run in search (lasting, stopped, stopping_rules) depth 14

  enable_capability-Stopped :
      (s : Catalog) (v : ℕ) (k : Option ℕ)
      → Reached s.tables run
      → Ensures (Stopped run) (Capabilities.enable source decider run.capability_id v k) s
  unfolding Capabilities.enable
  enable_capability-Stopped s v k reached =
      let lasting = Stopped-Lasting run in
      let stopped = publish_status-Stopped run in search (lasting, stopped, stopping_rules) depth 14

module _ (run : Run) where
  done-Stopped :
      {A : Type 0} (s : Catalog) (m : Act Catalog A)
      → Ensures (Stopped run) m s
      → Ensures (Stopped run) (m >>= λ _. pure tt) s
  done-Stopped s m h =
      returned-Ensures (Stopped run) s m (λ _. pure tt) (Stopped-Lasting run) h
        (λ a t. pure-AdvancesAt t tt)

  pub perform-Stopped :
      (q : Calls.Request) (s : Catalog) (call : Calls.Call)
      → Reached s.tables run
      → Withdraws run call
      → Ensures (Stopped run) (Calls.perform q call) s
  unfolding Calls.perform
  perform-Stopped q s _ reached by_disabled_connection =
      done-Stopped s _ (disable_connection-Stopped run q.source _ _ s _ reached)
  perform-Stopped q s _ reached by_enabled_connection =
      done-Stopped s _ (enable_connection-Stopped run q.source _ _ s _ reached)
  perform-Stopped q s _ reached by_appended_version =
      done-Stopped s _ (append_version-Stopped run q.source _ _ q.validation s _ _ _ _ reached)
  perform-Stopped q s _ reached by_disabled_capability =
      done-Stopped s _ (disable_capability-Stopped run q.source _ _ s _ _ reached)
  perform-Stopped q s _ reached by_enabled_capability =
      done-Stopped s _ (enable_capability-Stopped run q.source _ _ s _ _ reached)
