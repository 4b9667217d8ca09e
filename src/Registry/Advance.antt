-- ===== src/Registry/Advance.antt =====
-- How the registry may change in a call: connections and capabilities follow their epochs, what was
-- recorded stays recorded, and every row stays well formed.
pub mod Rules
pub mod Connections
pub mod Capabilities
pub mod Discovery
use modall.Common.{
  ℕ, Act, ◌≡◌, Result, Grows-refl, ◌>>=◌, Bool, Option, Grows-trans, Grows, ◌∙◌, Failure, ok,
  Grows-append, some, false, find, Grows-map, err, raise_if, or_raise, Grows-update_first,
  All-append, ◌>>◌, All, All-update_first, All-find, true, none, refl, List, map, update_first,
  ◌++◌, All-of_map, ◌∷◌, [], arith, Grows-update_where, All-update_where,
}
use modall.Registry.Store.{
  Catalog, put_connection, database_now, add_capability, add_version, audit, require_workspace_role,
  locked_connection, add_connection_version, add_connection, append_status_event, locked_capability,
  put_capability, fresh_id, trace_id, ServerConnectionVersion, Source, is_capability, is_connection,
}
use modall.Registry.Connections.{obsolete_refresh_jobs, obsolete_job}
use modall.Registry.Rows.{
  CapabilityVersion, find_capability, find_connection, ServerConnection, Capability, McpToolBinding,
  Tables, DiscoverySnapshotCapability,
}
use modall.Registry.Connections.Moves.{Moves, Moves-refl, IsSound, Moves-trans}
use modall.Identity.{WorkspaceContext, Role}
use modall.Registry.Capabilities.Projects.{Projects, IsProjected, Projects-trans, Projects-refl}
use modall.Audit.{AuditAction, ResourceType}
use modall.Registry.Jobs.{JobMoves, JobMoves-refl, JobMoves-trans, obsolete_job-JobMoves}

-- rows that grow by a relation, and stay well formed
pub record Keeps {A : Type 0} (R : A → A → Type 0) (P : A → Type 0) (xs ys : List A) : Type 0 where
  pub grows : Grows R xs ys
  pub kept : All P xs → All P ys

pub record TablesAdvance (s t : Tables) : Type 0 where
  pub connections : Keeps Moves IsSound s.connections t.connections
  pub capabilities : Keeps Projects IsProjected s.capabilities t.capabilities
  pub versions : Grows ◌≡◌ s.versions t.versions
  pub bindings : Grows ◌≡◌ s.bindings t.bindings
  pub observations : Grows ◌≡◌ s.observations t.observations
  pub workspaces : t.workspaces ≡ s.workspaces
  pub memberships : t.memberships ≡ s.memberships

pub record Advances (s t : Catalog) : Type 0 where
  pub tables : TablesAdvance s.tables t.tables
  pub jobs : Grows JobMoves s.refresh_jobs t.refresh_jobs
  pub events : Grows ◌≡◌ s.status_events t.status_events

pub unchanged {ℓ} : {A : Type ℓ} (x : A) → x ≡ x
unchanged x = refl

pub still : {A : Type 0} (xs : List A) → Grows ◌≡◌ xs xs
still xs = Grows-refl ◌≡◌ unchanged xs

module _ {A : Type 0} (R : A → A → Type 0) (P : A → Type 0) where
  pub Keeps-refl : ((x : A) → R x x) → (xs : List A) → Keeps R P xs xs
  Keeps-refl reflexive xs = record { grows = Grows-refl R reflexive xs; kept = λ h. h }

  Keeps-trans :
      ((x y z : A) → R x y → R y z → R x z)
      → (xs ys zs : List A) → Keeps R P xs ys
      → Keeps R P ys zs
      → Keeps R P xs zs
  Keeps-trans transitive xs ys zs p q = record {
    grows = Grows-trans R transitive xs ys zs p.grows q.grows;
    kept = λ h. q.kept (p.kept h);
  }

  pub Keeps-append : ((x : A) → R x x) → (xs : List A) (x : A) → P x → Keeps R P xs (xs ++ x ∷ [])
  Keeps-append reflexive xs x h = record {
    grows = Grows-append R reflexive xs (x ∷ []);
    kept = λ k. All-append P xs (x ∷ []) k (h, tt);
  }

  pub Keeps-update_first :
      ((x : A) → R x x)
      → (test : A → Bool) (xs : List A) (x y : A) → find test xs ≡ some x
      → R x y
      → (P x → P y)
      → Keeps R P xs (update_first test (λ _. y) xs)
  Keeps-update_first reflexive test xs x y e r k = record {
    grows = Grows-update_first R reflexive test xs x y e r;
    kept = λ h. All-update_first P test xs y h (k (All-find P test xs x h e).0);
  }

  pub Keeps-update_where :
      ((x : A) → R x x)
      → (test : A → Bool) (f : A → A) → ((x : A) → test x ≡ true → R x (f x))
      → ((x : A) → test x ≡ true → P x → P (f x))
      → (xs : List A) → Keeps R P xs (update_first test f xs)
  Keeps-update_where reflexive test f r k xs = record {
    grows = Grows-update_where R reflexive test f r xs;
    kept = All-update_where P test f k xs;
  }

  pub Keeps-map :
      (f : A → A)
      → ((x : A) → R x (f x))
      → ((x : A) → P x → P (f x))
      → (xs : List A) → Keeps R P xs (map f xs)
  Keeps-map f r k xs = record { grows = Grows-map R f r xs; kept = All-of_map P f k xs }

abbrev connections_kept : (xs : List ServerConnection) → Keeps Moves IsSound xs xs
connections_kept = Keeps-refl Moves IsSound Moves-refl

abbrev capabilities_kept : (xs : List Capability) → Keeps Projects IsProjected xs xs
capabilities_kept = Keeps-refl Projects IsProjected Projects-refl

module _ (t : Tables) where
  pub with_connections :
      (cs : List ServerConnection)
      → Keeps Moves IsSound t.connections cs
      → TablesAdvance t (record t { connections = cs })
  with_connections cs h = record {
    connections = h;
    capabilities = capabilities_kept _;
    versions = still _;
    bindings = still _;
    observations = still _;
    workspaces = refl;
    memberships = refl;
  }

  pub with_capabilities :
      (cs : List Capability)
      → Keeps Projects IsProjected t.capabilities cs
      → TablesAdvance t (record t { capabilities = cs })
  with_capabilities cs h = record {
    connections = connections_kept _;
    capabilities = h;
    versions = still _;
    bindings = still _;
    observations = still _;
    workspaces = refl;
    memberships = refl;
  }

  pub TablesAdvance-refl : TablesAdvance t t
  TablesAdvance-refl = with_capabilities t.capabilities (capabilities_kept _)

  pub with_evidence :
      (vs : List CapabilityVersion) (bs : List McpToolBinding)
      (os : List DiscoverySnapshotCapability)
      → Grows ◌≡◌ t.versions vs
      → Grows ◌≡◌ t.bindings bs
      → Grows ◌≡◌ t.observations os
      → TablesAdvance t (record t { versions = vs; bindings = bs; observations = os })
  with_evidence vs bs os p q r = record {
    connections = connections_kept _;
    capabilities = capabilities_kept _;
    versions = p;
    bindings = q;
    observations = r;
    workspaces = refl;
    memberships = refl;
  }

pub TablesAdvance-trans :
    (s t u : Tables) → TablesAdvance s t → TablesAdvance t u → TablesAdvance s u
TablesAdvance-trans s t u p q = record {
  connections = Keeps-trans Moves IsSound Moves-trans _ _ _ p.connections q.connections;
  capabilities =
      Keeps-trans Projects IsProjected Projects-trans _ _ _ p.capabilities q.capabilities;
  versions = Grows-trans ◌≡◌ (λ x y z e f. e ∙ f) _ _ _ p.versions q.versions;
  bindings = Grows-trans ◌≡◌ (λ x y z e f. e ∙ f) _ _ _ p.bindings q.bindings;
  observations = Grows-trans ◌≡◌ (λ x y z e f. e ∙ f) _ _ _ p.observations q.observations;
  workspaces = q.workspaces ∙ p.workspaces;
  memberships = q.memberships ∙ p.memberships;
}

-- nothing but the tables, or nothing of what is followed here
pub with_tables :
    (s t : Catalog)
    → TablesAdvance s.tables t.tables
    → t.refresh_jobs ≡ s.refresh_jobs
    → t.status_events ≡ s.status_events
    → Advances s t
with_tables s t h j e = record {
  tables = h;
  jobs = rw j (Grows-refl JobMoves JobMoves-refl _);
  events = rw e (still _);
}

pub Advances-refl : (s : Catalog) → Advances s s
Advances-refl s = with_tables s s (TablesAdvance-refl _) refl refl

pub Advances-trans : (s t u : Catalog) → Advances s t → Advances t u → Advances s u
Advances-trans s t u p q = record {
  tables = TablesAdvance-trans _ _ _ p.tables q.tables;
  jobs = Grows-trans JobMoves JobMoves-trans _ _ _ p.jobs q.jobs;
  events = Grows-trans ◌≡◌ (λ x y z e f. e ∙ f) _ _ _ p.events q.events;
}
