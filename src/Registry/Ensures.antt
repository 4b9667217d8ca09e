-- ===== src/Registry/Ensures.antt =====
-- What holds in the registry when a call has returned; a call that raises is rolled back.
use modall.Common.{
  ℕ, Act, Option, Failure, Result, ◌>>◌, Bool, ◌≡◌, raise, ◌+◌, ◌>>=◌, gets, some, find, false, err,
  ok, sym, raise_if, or_raise, Option-cases, true, none, refl, inl, inr, Bool-cases, All, ◌++◌, ◌∷◌,
  [], is_none, authorization_denied, ◌==◌, ◌&&◌,
}
use mathlib.Core.Path.{subst}
use modall.Registry.Store.{
  Catalog, locked_capability, fresh_id, locked_connection, database_now, Source,
  DiscoveryRefreshJob, require_workspace_role, is_connection, is_capability, add_connection_version,
  ServerConnectionVersion,
}
use modall.Identity.{WorkspaceContext, Role}
use modall.Registry.Advance.{Advances}
use modall.Registry.Rows.{ServerConnection, find_connection, find_capability, Capability}
use modall.Registry.Refresh.{
  RefreshLease, locked_active_job, eligible_refused, lock_eligible_connection, is_active_job,
}
use modall.Registry.Advance.Rules.{
  AdvancesAt, role-reads, lock_eligible_connection-missing, lock_eligible_connection-refused,
  lock_eligible_connection-allowed,
}
use modall.Registry.Advance.Discovery.{locked_active_job-missing, locked_active_job-found}
use modall.Registry.Connections.Moves.{IsSound}
use modall.Registry.Connections.{require_scoped_secret}

-- a property that no registry call can end
pub record Lasting (P : Catalog → Type 0) : Type 1 where
  pub lasts : (s t : Catalog) → Advances s t → P s → P t

pub record Ensures (P : Catalog → Type 0) {A : Type 0} (m : Act Catalog A) (s : Catalog)
    : Type 0 where
  pub at : (a : A) → (m s).0 ≡ ok a → P (m s).1

module _ (P : Catalog → Type 0) {A : Type 0} (s : Catalog) where
  pub holds-Ensures : (m : Act Catalog A) → P (m s).1 → Ensures P m s
  holds-Ensures m h = record { at = λ a e. h }

  pub raise-Ensures : (e : Failure) → Ensures P (raise {A = A} e) s
  raise-Ensures e = record { at = λ a p. cc }

module _ (P : Catalog → Type 0) {A B : Type 0} (s : Catalog) (m : Act Catalog A)
    (f : A → Act Catalog B) where
  abbrev pub after : Result A × Catalog → Result B × Catalog
  after (r, t) = elim r [ ok a ↦ f a t | err e ↦ (err e, t) ]

  -- what the rest ensures from every state
  pub bind-Ensures : ((a : A) (t : Catalog) → Ensures P (f a) t) → Ensures P (m >>= f) s
  bind-Ensures h = record { at = go (m s).0 (m s).1 }
    where
      go : (r : Result A) (t : Catalog) (b : B) → (after (r, t)).0 ≡ ok b → P (after (r, t)).1
      go (ok a) t b e = (h a t).at b e
      go (err x) t b e = cc

  -- a property that holds before the rest, which only advances the registry
  pub lasting-Ensures :
      Lasting P → P (m s).1 → ((a : A) (t : Catalog) → AdvancesAt (f a) t) → Ensures P (m >>= f) s
  lasting-Ensures lasting h steady = record { at = go (m s).0 (m s).1 h }
    where
      go :
          (r : Result A) (t : Catalog)
          → P t
          → (b : B) → (after (r, t)).0 ≡ ok b
          → P (after (r, t)).1
      go (ok a) t p b e = lasting.lasts t _ (steady a t).at p
      go (err x) t p b e = cc

  -- a property that the first part ensures
  pub returned-Ensures :
      Lasting P
      → Ensures P m s
      → ((a : A) (t : Catalog) → AdvancesAt (f a) t)
      → Ensures P (m >>= f) s
  returned-Ensures lasting h steady = record { at = go (m s).0 (m s).1 h.at }
    where
      go :
          (r : Result A) (t : Catalog)
          → ((a : A) → r ≡ ok a → P t)
          → (b : B) → (after (r, t)).0 ≡ ok b
          → P (after (r, t)).1
      go (ok a) t p b e = lasting.lasts t _ (steady a t).at (p a refl)
      go (err x) t p b e = cc

  -- the rest starts from sound connections again
  pub sound-Ensures :
      All IsSound s.tables.connections
      → AdvancesAt m s
      → ((a : A) (t : Catalog) → All IsSound t.tables.connections → Ensures P (f a) t)
      → Ensures P (m >>= f) s
  sound-Ensures sound steady h = record {
    at = go (m s).0 (m s).1 (steady.at.tables.connections.kept sound);
  }
    where
      go :
          (r : Result A) (t : Catalog)
          → All IsSound t.tables.connections
          → (b : B) → (after (r, t)).0 ≡ ok b
          → P (after (r, t)).1
      go (ok a) t k b e = (h a t k).at b e
      go (err x) t k b e = cc

  pub known-Ensures :
      (a : A) (t : Catalog) → m s ≡ (ok a, t) → Ensures P (f a) t → Ensures P (m >>= f) s
  known-Ensures a t e h = record {
    at = subst (λ p. (b : B) → (after p).0 ≡ ok b → P (after p).1) (sym e) h.at;
  }

  pub failed-Ensures : (x : Failure) (t : Catalog) → m s ≡ (err x, t) → Ensures P (m >>= f) s
  failed-Ensures x t e = record {
    at = subst (λ p. (b : B) → (after p).0 ≡ ok b → P (after p).1) (sym e) (λ b q. cc);
  }

module _ (P : Catalog → Type 0) {B : Type 0} (s : Catalog) where
  pub seq-Ensures :
      (m : Act Catalog Unit) (k : Act Catalog B)
      → ((t : Catalog) → Ensures P k t)
      → Ensures P (m >> k) s
  seq-Ensures m k h = bind-Ensures P s m (λ _. k) (λ _. h)

  pub guard-Ensures :
      (k : Act Catalog B) (b : Bool) (e : Failure)
      → (b ≡ false → Ensures P k s)
      → Ensures P (raise_if b e >> k) s
  guard-Ensures k true e h = record { at = λ a q. cc }
  guard-Ensures k false e h = record { at = (h refl).at }

  pub role-Ensures :
      (k : Act Catalog B) (context : WorkspaceContext) (allowed : Role → Bool)
      → Ensures P k s
      → Ensures P (require_workspace_role context allowed >> k) s
  role-Ensures k context allowed h =
      go (require_workspace_role context allowed s).0 (require_workspace_role context allowed s).1
        refl (role-reads context allowed s)
    where
      go :
          (r : Result Unit) (t : Catalog)
          → require_workspace_role context allowed s ≡ (r, t)
          → t ≡ s
          → Ensures P (require_workspace_role context allowed >> k) s
      go (ok tt) t e q =
          known-Ensures P s (require_workspace_role context allowed) (λ _. k) tt t e (rw q h)
      go (err x) t e q = failed-Ensures P s (require_workspace_role context allowed) (λ _. k) x t e

  pub scoped_secret-Ensures :
      (k : Act Catalog B) (context : WorkspaceContext) (secret : Option ℕ)
      → Ensures P k s
      → Ensures P (require_scoped_secret context secret >> k) s
  unfolding require_scoped_secret
  scoped_secret-Ensures k context none h = record { at = h.at }
  scoped_secret-Ensures k context (some b) h =
      let found = find (λ x. x.id == b && x.workspace_id == context.workspace_id) s.secrets in
      let rest = guard-Ensures k (is_none found) authorization_denied (λ _. h) in
      record { at = rest.at }

  pub add_connection_version-Ensures :
      (k : Act Catalog B) (v : ServerConnectionVersion)
      → Ensures P k (record s { connection_versions = s.connection_versions ++ v ∷ [] })
      → Ensures P (add_connection_version v >> k) s
  unfolding add_connection_version
  add_connection_version-Ensures k v h = record { at = h.at }

  pub gets-Ensures :
      {A : Type 0} (g : Catalog → A) (k : A → Act Catalog B)
      → Ensures P (k (g s)) s
      → Ensures P (gets g >>= k) s
  gets-Ensures g k h = record { at = h.at }

  pub or_raise-Ensures :
      {A : Type 0} (o : Option A) (e : Failure) (k : A → Act Catalog B)
      → ((a : A) → o ≡ some a → Ensures P (k a) s)
      → Ensures P (or_raise o e >>= k) s
  or_raise-Ensures none e k h = record { at = λ a q. cc }
  or_raise-Ensures (some a) e k h = record { at = (h a refl).at }

  pub connection-Ensures :
      (context : WorkspaceContext) (id : ℕ) (k : ServerConnection → Act Catalog B)
      → ((c : ServerConnection)
          → find (is_connection context.workspace_id id) s.tables.connections ≡ some c
          → Ensures P (k c) s)
      → Ensures P (locked_connection context id >>= k) s
  unfolding locked_connection find_connection
  connection-Ensures context id k h = record {
    at =
        let h' =
          or_raise-Ensures (find (is_connection context.workspace_id id) s.tables.connections) _ k
            h in
        h'.at;
  }

  pub capability-Ensures :
      (context : WorkspaceContext) (id : ℕ) (k : Capability → Act Catalog B)
      → ((c : Capability)
          → find (is_capability context.workspace_id id) s.tables.capabilities ≡ some c
          → Ensures P (k c) s)
      → Ensures P (locked_capability context id >>= k) s
  unfolding locked_capability find_capability
  capability-Ensures context id k h = record {
    at =
        let h' =
          or_raise-Ensures (find (is_capability context.workspace_id id) s.tables.capabilities) _ k
            h in
        h'.at;
  }

  pub eligible-Ensures :
      (context : WorkspaceContext) (id v e g : ℕ) (k : ServerConnection → Act Catalog B)
      → ((c : ServerConnection)
          → find (is_connection context.workspace_id id) s.tables.connections ≡ some c
          → eligible_refused c v e g ≡ false
          → Ensures P (k c) s)
      → Ensures P (lock_eligible_connection context id v e g >>= k) s
  eligible-Ensures context id v e g k h =
      elim (Option-cases (find (is_connection context.workspace_id id) s.tables.connections)) [
        | inl missing ↦
            failed-Ensures P s _ k _ _ (lock_eligible_connection-missing s context id v e g missing)
        | inr (c, found) ↦ elim (Bool-cases (eligible_refused c v e g)) [
          | inl refused ↦
              failed-Ensures P s _ k _ _
                (lock_eligible_connection-refused s context id v e g c found refused)
          | inr allowed ↦
              known-Ensures P s _ k c s
                (lock_eligible_connection-allowed s context id v e g c found allowed)
                (h c found allowed)
        ]
      ]

  pub database_now-Ensures :
      (source : Source) (k : ℕ → Act Catalog B)
      → ((now : ℕ) → Ensures P (k now) (record s { reads = s.reads + 1 }))
      → Ensures P (database_now source >>= k) s
  unfolding database_now
  database_now-Ensures source k h = record { at = (h _).at }

  pub fresh_id-Ensures :
      (source : Source) (k : ℕ → Act Catalog B)
      → ((id : ℕ) → Ensures P (k id) (record s { draws = s.draws + 1 }))
      → Ensures P (fresh_id source >>= k) s
  unfolding fresh_id
  fresh_id-Ensures source k h = record { at = (h _).at }

  pub locked_active_job-Ensures :
      (source : Source) (context : WorkspaceContext) (lease : RefreshLease)
      (k : ℕ × DiscoveryRefreshJob → Act Catalog B)
      → ((a : ℕ × DiscoveryRefreshJob) → Ensures P (k a) (record s { reads = s.reads + 1 }))
      → Ensures P (locked_active_job source context lease >>= k) s
  locked_active_job-Ensures source context lease k h =
      elim (Option-cases
        (find (is_active_job context lease (source.clock s.reads)) s.refresh_jobs)) [
          | inl missing ↦
              failed-Ensures P s _ k _ _ (locked_active_job-missing s source context lease missing)
          | inr (j, found) ↦
              known-Ensures P s _ k _ _ (locked_active_job-found s source context lease j found)
                (h (source.clock s.reads, j))
        ]

pub ruleset ensuring_rules = (
  raise-Ensures, guard-Ensures, role-Ensures, scoped_secret-Ensures, add_connection_version-Ensures,
  gets-Ensures, or_raise-Ensures, connection-Ensures, capability-Ensures, eligible-Ensures,
  database_now-Ensures, fresh_id-Ensures, locked_active_job-Ensures,
)
