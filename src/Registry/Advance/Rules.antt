-- ===== src/Registry/Advance/Rules.antt =====
-- What each construct of a registry call does to the registry.
use modall.Common.{
  ℕ, Act, Option, Bool, ◌≡◌, Result, ◌>>=◌, Failure, ok, ◌>>◌, Grows-map, some, arith, Grows-refl,
  find, false, err, or_raise, raise_if, Grows-append, true, none, refl, if◌then◌else◌, ◌++◌, gets,
  ◌+◌, raise, pure, ◌∷◌, [], Grows-update_where, Option-cases, inl, inr, Bool-cases,
  invalid_connection_transition, authorization_denied, sym,
}
use modall.Registry.Store.{
  require_workspace_role, Catalog, locked_connection, add_capability, put_connection, database_now,
  add_version, audit, put_capability, add_connection_version, locked_capability, add_connection,
  fresh_id, append_status_event, Source, ServerConnectionVersion, trace_id, is_capability,
  is_connection, update_job, add_job, update_connection, add_observation, add_snapshot, add_payload,
  DiscoverySnapshot, DiscoveryRefreshJob, DiscoveryPayload,
}
use modall.Registry.Connections.{obsolete_refresh_jobs, obsolete_job}
use modall.Identity.{WorkspaceContext, Role}
use modall.Registry.Advance.{
  Advances, TablesAdvance-refl, with_tables, Advances-trans, Advances-refl, with_connections,
  with_evidence, with_capabilities, Keeps-append, Keeps-update_first, unchanged, still,
  Keeps-update_where,
}
use modall.Registry.Rows.{
  ServerConnection, CapabilityVersion, find_capability, Capability, find_connection, McpToolBinding,
  DiscoverySnapshotCapability,
}
use modall.Audit.{AuditAction, ResourceType}
use modall.Registry.Connections.Moves.{IsSound, Moves, Moves-refl}
use modall.Registry.Capabilities.Projects.{IsProjected, Projects, Projects-refl}
use modall.Registry.Jobs.{JobMoves, JobMoves-refl, obsolete_job-JobMoves}
use modall.Registry.Refresh.{lock_eligible_connection, eligible_refused}
use mathlib.Core.Path.{subst}

-- an action that advances the registry from a state
pub record AdvancesAt {A : Type 0} (m : Act Catalog A) (s : Catalog) : Type 0 where
  pub at : Advances s (m s).1

module _ {A : Type 0} (s : Catalog) where
  pub pure-AdvancesAt : (a : A) → AdvancesAt (pure a) s
  pure-AdvancesAt a = record { at = Advances-refl s }

  pub raise-AdvancesAt : (e : Failure) → AdvancesAt (raise {A = A} e) s
  raise-AdvancesAt e = record { at = Advances-refl s }

  pub if-AdvancesAt :
      (b : Bool) (m n : Act Catalog A)
      → AdvancesAt m s
      → AdvancesAt n s
      → AdvancesAt (if b then m else n) s
  if-AdvancesAt true m n p q = p
  if-AdvancesAt false m n p q = q

module _ {A B : Type 0} (s : Catalog) (m : Act Catalog A) (f : A → Act Catalog B) where
  abbrev pub next : Result A × Catalog → Result B × Catalog
  next (r, t) = elim r [ ok a ↦ f a t | err e ↦ (err e, t) ]

  pub bind-AdvancesAt :
      AdvancesAt m s → ((a : A) (t : Catalog) → AdvancesAt (f a) t) → AdvancesAt (m >>= f) s
  bind-AdvancesAt p q = record { at = go (m s).0 (m s).1 p.at }
    where
      go : (r : Result A) (t : Catalog) → Advances s t → Advances s (next (r, t)).1
      go (ok a) t h = Advances-trans s t _ h (q a t).at
      go (err e) t h = h

  -- after a reading that writes nothing
  pub read-AdvancesAt : (m s).1 ≡ s → ((a : A) → AdvancesAt (f a) s) → AdvancesAt (m >>= f) s
  read-AdvancesAt p q = record { at = go (m s).0 (m s).1 p }
    where
      go : (r : Result A) (t : Catalog) → t ≡ s → Advances s (next (r, t)).1
      go (ok a) t h = rw h (q a).at
      go (err e) t h = rw h (Advances-refl s)

  pub known-AdvancesAt : (a : A) → m s ≡ (ok a, s) → AdvancesAt (f a) s → AdvancesAt (m >>= f) s
  known-AdvancesAt a e h = record { at = subst (λ p. Advances s (next p).1) (sym e) h.at }

  pub failed-AdvancesAt : (e : Failure) → m s ≡ (err e, s) → AdvancesAt (m >>= f) s
  failed-AdvancesAt e p = record {
    at = subst (λ p. Advances s (next p).1) (sym p) (Advances-refl s);
  }

pub seq-AdvancesAt :
    {B : Type 0} (s : Catalog) (m : Act Catalog Unit) (k : Act Catalog B)
    → AdvancesAt m s
    → ((t : Catalog) → AdvancesAt k t)
    → AdvancesAt (m >> k) s
seq-AdvancesAt s m k p q = bind-AdvancesAt s m (λ _. k) p (λ _. q)

-- a role check writes nothing
pub role-reads :
    (context : WorkspaceContext) (allowed : Role → Bool) (s : Catalog)
    → (require_workspace_role context allowed s).1 ≡ s
unfolding require_workspace_role
role-reads context allowed s = ground arith

module _ {B : Type 0} (s : Catalog) (k : Act Catalog B) where
  pub guard-AdvancesAt :
      (b : Bool) (e : Failure) → (b ≡ false → AdvancesAt k s) → AdvancesAt (raise_if b e >> k) s
  guard-AdvancesAt true e h = record { at = Advances-refl s }
  guard-AdvancesAt false e h = record { at = (h refl).at }

  pub role-AdvancesAt :
      (context : WorkspaceContext) (allowed : Role → Bool)
      → AdvancesAt k s
      → AdvancesAt (require_workspace_role context allowed >> k) s
  role-AdvancesAt context allowed h =
      read-AdvancesAt s (require_workspace_role context allowed) (λ _. k)
        (role-reads context allowed s) (λ _. h)

  pub add_connection_version-AdvancesAt :
      (v : ServerConnectionVersion)
      → AdvancesAt k (record s { connection_versions = s.connection_versions ++ v ∷ [] })
      → AdvancesAt (add_connection_version v >> k) s
  unfolding add_connection_version
  add_connection_version-AdvancesAt v h = record {
    at = Advances-trans s _ _ (with_tables s _ (TablesAdvance-refl _) refl refl) h.at;
  }

module _ {B : Type 0} (s : Catalog) where
  pub gets-AdvancesAt :
      {A : Type 0} (g : Catalog → A) (k : A → Act Catalog B)
      → AdvancesAt (k (g s)) s
      → AdvancesAt (gets g >>= k) s
  gets-AdvancesAt g k h = record { at = h.at }

  pub or_raise-AdvancesAt :
      {A : Type 0} (o : Option A) (e : Failure) (k : A → Act Catalog B)
      → ((a : A) → o ≡ some a → AdvancesAt (k a) s)
      → AdvancesAt (or_raise o e >>= k) s
  or_raise-AdvancesAt none e k h = record { at = Advances-refl s }
  or_raise-AdvancesAt (some a) e k h = record { at = (h a refl).at }

  pub connection-AdvancesAt :
      (context : WorkspaceContext) (id : ℕ) (k : ServerConnection → Act Catalog B)
      → ((c : ServerConnection)
          → find (is_connection context.workspace_id id) s.tables.connections ≡ some c
          → AdvancesAt (k c) s)
      → AdvancesAt (locked_connection context id >>= k) s
  unfolding locked_connection find_connection
  connection-AdvancesAt context id k h = record {
    at =
        let h' =
          or_raise-AdvancesAt (find (is_connection context.workspace_id id) s.tables.connections) _
            k h in
        h'.at;
  }

  pub capability-AdvancesAt :
      (context : WorkspaceContext) (id : ℕ) (k : Capability → Act Catalog B)
      → ((c : Capability)
          → find (is_capability context.workspace_id id) s.tables.capabilities ≡ some c
          → AdvancesAt (k c) s)
      → AdvancesAt (locked_capability context id >>= k) s
  unfolding locked_capability find_capability
  capability-AdvancesAt context id k h = record {
    at =
        let h' =
          or_raise-AdvancesAt (find (is_capability context.workspace_id id) s.tables.capabilities) _
            k h in
        h'.at;
  }

module _ (s : Catalog) (context : WorkspaceContext) (id v e g : ℕ) where
  -- what the lock on an eligible connection returns
  pub lock_eligible_connection-missing :
      find (is_connection context.workspace_id id) s.tables.connections ≡ none
      → lock_eligible_connection context id v e g s ≡ (err authorization_denied, s)
  unfolding lock_eligible_connection locked_connection find_connection
  lock_eligible_connection-missing missing = ground arith

  module _ (c : ServerConnection)
      (found : find (is_connection context.workspace_id id) s.tables.connections ≡ some c) where
    pub lock_eligible_connection-refused :
        eligible_refused c v e g ≡ true
        → lock_eligible_connection context id v e g s ≡ (err invalid_connection_transition, s)
    unfolding lock_eligible_connection locked_connection find_connection
    lock_eligible_connection-refused refused = ground arith

    pub lock_eligible_connection-allowed :
        eligible_refused c v e g ≡ false → lock_eligible_connection context id v e g s ≡ (ok c, s)
    unfolding lock_eligible_connection locked_connection find_connection
    lock_eligible_connection-allowed allowed = ground arith

  module _ {B : Type 0} (k : ServerConnection → Act Catalog B) where
    pub eligible-AdvancesAt :
        ((c : ServerConnection)
          → find (is_connection context.workspace_id id) s.tables.connections ≡ some c
          → eligible_refused c v e g ≡ false
          → AdvancesAt (k c) s)
        → AdvancesAt (lock_eligible_connection context id v e g >>= k) s
    eligible-AdvancesAt h =
        elim (Option-cases (find (is_connection context.workspace_id id) s.tables.connections)) [
          | inl missing ↦ failed-AdvancesAt s _ k _ (lock_eligible_connection-missing missing)
          | inr (c, found) ↦ elim (Bool-cases (eligible_refused c v e g)) [
            | inl refused ↦
                failed-AdvancesAt s _ k _ (lock_eligible_connection-refused c found refused)
            | inr allowed ↦
                known-AdvancesAt s _ k c (lock_eligible_connection-allowed c found allowed)
                  (h c found allowed)
          ]
        ]

module _ {B : Type 0} (s : Catalog) (source : Source) (k : ℕ → Act Catalog B) where
  pub database_now-AdvancesAt :
      ((now : ℕ) → AdvancesAt (k now) (record s { reads = s.reads + 1 }))
      → AdvancesAt (database_now source >>= k) s
  unfolding database_now
  database_now-AdvancesAt h = record {
    at = Advances-trans s _ _ (with_tables s _ (TablesAdvance-refl _) refl refl) (h _).at;
  }

  pub fresh_id-AdvancesAt :
      ((id : ℕ) → AdvancesAt (k id) (record s { draws = s.draws + 1 }))
      → AdvancesAt (fresh_id source >>= k) s
  unfolding fresh_id
  fresh_id-AdvancesAt h = record {
    at = Advances-trans s _ _ (with_tables s _ (TablesAdvance-refl _) refl refl) (h _).at;
  }

module _ (s : Catalog) where
  quiet :
      (t : Catalog)
      → t.tables ≡ s.tables
      → t.refresh_jobs ≡ s.refresh_jobs
      → t.status_events ≡ s.status_events
      → Advances s t
  quiet t h j e = with_tables s t (rw h (TablesAdvance-refl _)) j e

  pub put_connection-AdvancesAt :
      (test : ServerConnection → Bool) (c d : ServerConnection)
      → find test s.tables.connections ≡ some c
      → Moves c d
      → (IsSound c → IsSound d)
      → AdvancesAt (put_connection test d) s
  unfolding put_connection
  put_connection-AdvancesAt test c d e moves kept = record {
    at =
        with_tables s _
          (with_connections _ _
            (Keeps-update_first Moves IsSound Moves-refl test _ c d e moves kept))
          refl refl;
  }

  pub put_capability-AdvancesAt :
      (test : Capability → Bool) (c d : Capability)
      → find test s.tables.capabilities ≡ some c
      → Projects c d
      → (IsProjected c → IsProjected d)
      → AdvancesAt (put_capability test d) s
  unfolding put_capability
  put_capability-AdvancesAt test c d e moves kept = record {
    at =
        with_tables s _
          (with_capabilities _ _
            (Keeps-update_first Projects IsProjected Projects-refl test _ c d e moves kept))
          refl refl;
  }

  pub add_connection-AdvancesAt :
      (c : ServerConnection) → IsSound c → AdvancesAt (add_connection c) s
  unfolding add_connection
  add_connection-AdvancesAt c h = record {
    at =
        with_tables s _ (with_connections _ _ (Keeps-append Moves IsSound Moves-refl _ c h)) refl
          refl;
  }

  pub add_capability-AdvancesAt : (c : Capability) → IsProjected c → AdvancesAt (add_capability c) s
  unfolding add_capability
  add_capability-AdvancesAt c h = record {
    at =
        with_tables s _
          (with_capabilities _ _ (Keeps-append Projects IsProjected Projects-refl _ c h)) refl refl;
  }

  pub add_version-AdvancesAt :
      (v : CapabilityVersion) (b : McpToolBinding) → AdvancesAt (add_version v b) s
  unfolding add_version
  add_version-AdvancesAt v b = record {
    at =
        with_tables s _
          (with_evidence _ _ _ _ (Grows-append ◌≡◌ unchanged _ _) (Grows-append ◌≡◌ unchanged _ _)
            (still _))
          refl refl;
  }

  pub append_status_event-AdvancesAt :
      (context : WorkspaceContext) (c : Capability) (v : Option ℕ)
      → AdvancesAt (append_status_event context c v) s
  unfolding append_status_event
  append_status_event-AdvancesAt context c v = record {
    at = record {
      tables = TablesAdvance-refl _;
      jobs = Grows-refl JobMoves JobMoves-refl _;
      events = Grows-append ◌≡◌ unchanged _ _;
    };
  }

  pub obsolete_refresh_jobs-AdvancesAt :
      (context : WorkspaceContext) (id : ℕ) → AdvancesAt (obsolete_refresh_jobs context id) s
  unfolding obsolete_refresh_jobs
  obsolete_refresh_jobs-AdvancesAt context id = record {
    at = record {
      tables = TablesAdvance-refl _;
      jobs =
          Grows-map JobMoves (obsolete_job context.workspace_id id) (obsolete_job-JobMoves _ _) _;
      events = still _;
    };
  }

  -- only the first row that the test accepts is written
  pub update_connection-AdvancesAt :
      (test : ServerConnection → Bool) (f : ServerConnection → ServerConnection)
      → ((c : ServerConnection) → Moves c (f c))
      → ((c : ServerConnection) → IsSound c → IsSound (f c))
      → AdvancesAt (update_connection test f) s
  unfolding update_connection
  update_connection-AdvancesAt test f moves kept = record {
    at =
        with_tables s _
          (with_connections _ _
            (Keeps-update_where Moves IsSound Moves-refl test f (λ c _. moves c) (λ c _. kept c) _))
          refl refl;
  }

  pub update_job-AdvancesAt :
      (test : DiscoveryRefreshJob → Bool) (f : DiscoveryRefreshJob → DiscoveryRefreshJob)
      → ((j : DiscoveryRefreshJob) → test j ≡ true → JobMoves j (f j))
      → AdvancesAt (update_job test f) s
  unfolding update_job
  update_job-AdvancesAt test f moves = record {
    at = record {
      tables = TablesAdvance-refl _;
      jobs = Grows-update_where JobMoves JobMoves-refl test f moves _;
      events = still _;
    };
  }

  pub add_job-AdvancesAt : (j : DiscoveryRefreshJob) → AdvancesAt (add_job j) s
  unfolding add_job
  add_job-AdvancesAt j = record {
    at = record {
      tables = TablesAdvance-refl _;
      jobs = Grows-append JobMoves JobMoves-refl _ _;
      events = still _;
    };
  }

  pub add_payload-AdvancesAt : (p : DiscoveryPayload) → AdvancesAt (add_payload p) s
  unfolding add_payload
  add_payload-AdvancesAt p = record { at = quiet _ refl refl refl }

  pub add_snapshot-AdvancesAt : (p : DiscoverySnapshot) → AdvancesAt (add_snapshot p) s
  unfolding add_snapshot
  add_snapshot-AdvancesAt p = record { at = quiet _ refl refl refl }

  pub add_observation-AdvancesAt :
      (o : DiscoverySnapshotCapability) → AdvancesAt (add_observation o) s
  unfolding add_observation
  add_observation-AdvancesAt o = record {
    at =
        with_tables s _ (with_evidence _ _ _ _ (still _) (still _) (Grows-append ◌≡◌ unchanged _ _))
          refl refl;
  }

  pub audit-AdvancesAt :
      (source : Source) (context : WorkspaceContext) (a : AuditAction) (r : ResourceType) (id : ℕ)
      (correlation : Option ℕ)
      → AdvancesAt (audit source context a r id correlation) s
  unfolding audit trace_id fresh_id
  audit-AdvancesAt source context a r id none = record { at = quiet _ refl refl refl }
  audit-AdvancesAt source context a r id (some t) = record { at = quiet _ refl refl refl }

pub ruleset advancing_rules = (
  pure-AdvancesAt, raise-AdvancesAt, if-AdvancesAt, seq-AdvancesAt, guard-AdvancesAt,
  role-AdvancesAt, add_connection_version-AdvancesAt, gets-AdvancesAt, or_raise-AdvancesAt,
  connection-AdvancesAt, capability-AdvancesAt, eligible-AdvancesAt, database_now-AdvancesAt,
  fresh_id-AdvancesAt, put_connection-AdvancesAt, put_capability-AdvancesAt,
  add_connection-AdvancesAt, add_capability-AdvancesAt, add_version-AdvancesAt,
  append_status_event-AdvancesAt, obsolete_refresh_jobs-AdvancesAt, update_connection-AdvancesAt,
  update_job-AdvancesAt, add_job-AdvancesAt, add_payload-AdvancesAt, add_snapshot-AdvancesAt,
  add_observation-AdvancesAt, audit-AdvancesAt,
)
