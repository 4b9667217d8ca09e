-- ===== src/Registry/Advance/Connections.antt =====
-- registry/service.py, `ConnectionService`: each call by the rules for its constructs.
use modall.Common.{ℕ, List, Option, some, none, refl, Act, ◌>>◌, arith}
use modall.Registry.Connections
use modall.Registry.Rows.{ConnectionLifecycle}
use modall.Registry.Advance.Rules.{advancing_rules, AdvancesAt, read-AdvancesAt}
use modall.Registry.Connections.Moves.{
  appended-Moves, appended-IsSound, IsSound, moved_to-Moves, moved_to-IsSound, allocated-Moves,
  allocated-IsSound, promoted-Moves, promoted-IsSound, completed-Moves, completed-IsSound,
}
use modall.Registry.Store.{Source, Catalog}
use modall.Identity.{WorkspaceContext}
use modall.Registry.Connections.{
  allocate_refresh_generation, promote_pending, complete_refresh, require_scoped_secret, Validation,
  append_version,
}

pub first-IsSound :
    (id workspace version actor : ℕ) (name : List ℕ)
    → IsSound (record {
      id = id;
      workspace_id = workspace;
      name = name;
      lifecycle = ConnectionLifecycle.verifying;
      pending_version_id = some version;
      verified_version_id = none;
      control_epoch = 0;
      refresh_generation = 0;
      allocated_control_epoch = none;
      allocated_target_version_id = none;
      current_snapshot_id = none;
      last_refresh_error_code = none;
      last_refresh_at = none;
      created_by_user_id = actor;
    })
first-IsSound id workspace version actor name = record {
  has_version = refl;
  allocation = tt;
  verified = λ e. cc;
}

pub scoped_secret-AdvancesAt :
    {B : Type 0} (s : Catalog) (k : Act Catalog B) (context : WorkspaceContext) (secret : Option ℕ)
    → AdvancesAt k s
    → AdvancesAt (require_scoped_secret context secret >> k) s
unfolding require_scoped_secret
scoped_secret-AdvancesAt s k context none h = record { at = h.at }
scoped_secret-AdvancesAt s k context (some b) h =
    read-AdvancesAt s (require_scoped_secret context (some b)) (λ _. k) (ground arith) (λ _. h)

pub ruleset connection_rules = (
  advancing_rules, appended-Moves, appended-IsSound, moved_to-Moves, moved_to-IsSound,
  allocated-Moves, allocated-IsSound, promoted-Moves, promoted-IsSound, completed-Moves,
  completed-IsSound, first-IsSound, scoped_secret-AdvancesAt,
)

module _ (source : Source) (s : Catalog) (context : WorkspaceContext) (id : ℕ) where
  pub disable-AdvancesAt :
      (correlation : Option ℕ) → AdvancesAt (Connections.disable source context id correlation) s
  unfolding Connections.disable
  disable-AdvancesAt correlation = search connection_rules depth 14

  pub enable-AdvancesAt :
      (correlation : Option ℕ) → AdvancesAt (Connections.enable source context id correlation) s
  unfolding Connections.enable
  enable-AdvancesAt correlation = search connection_rules depth 14

  pub promote_pending-AdvancesAt :
      (v e g : ℕ) (correlation : Option ℕ)
      → AdvancesAt (promote_pending source context id v e g correlation) s
  unfolding promote_pending
  promote_pending-AdvancesAt v e g correlation = search connection_rules depth 14

  pub complete_refresh-AdvancesAt : (v e g : ℕ) → AdvancesAt (complete_refresh context id v e g) s
  unfolding complete_refresh
  complete_refresh-AdvancesAt v e g = search connection_rules depth 14

  pub allocate_refresh_generation-AdvancesAt : AdvancesAt (allocate_refresh_generation context id) s
  unfolding allocate_refresh_generation
  allocate_refresh_generation-AdvancesAt = search connection_rules depth 14

module _ (source : Source) (validation : Validation) (s : Catalog) (context : WorkspaceContext)
    (url policy : List ℕ) (secret correlation : Option ℕ) where
  pub append_version-AdvancesAt :
      (id : ℕ)
      → AdvancesAt (append_version source validation context id url secret policy correlation) s
  unfolding append_version
  append_version-AdvancesAt id = search connection_rules depth 16

  pub create-AdvancesAt :
      (name : List ℕ)
      → AdvancesAt
          (Connections.create source validation context name url secret policy correlation)
          s
  unfolding Connections.create
  create-AdvancesAt name = search connection_rules depth 16
