-- ===== src/Registry/Calls/Refusal.antt =====
-- An allocation of a refresh: what uses it up, and which calls it then can no longer make.
use modall.Registry.Calls.{Call, perform, Request}
use modall.Common.{
  ℕ, Option, All, ◌≡◌, ◌≤◌, Grows-find, find, some, arith, Bool-cases, holds_id, All-find, true,
  refl, inl, sym, inr, none, false, Act, String, ◌∙◌, ◌>>=◌, pure, Result, ok, Bool, err,
}
use mathlib.Core.Path.{subst}
use modall.Registry.Ensures.{Lasting, Ensures, ensuring_rules, after}
use modall.Registry.Store.{Catalog, is_connection, Source}
use modall.Registry.Rows.{ServerConnection, DiscoveryFailureCode}
use modall.Registry.Connections.Moves.{IsSound, Moves, IsAllocated, holds_id-eq}
use modall.Registry.Connections.{
  not_allocated, current_target, complete_refused, promote_refused, promote_pending,
  complete_refresh,
}
use modall.Registry.Refresh.{eligible_refused, RefreshLease, renew, validate_for_contact}
use modall.Identity.{WorkspaceContext, Role}
use modall.Registry.Publication.{DiscoveryResult, publish_success, publish_failure}
use modall.Registry.Capabilities.Recording.{
  ToolMetadata, record_refused, record_version, Observation,
}

-- an actor of the workspace
abbrev pub actor : ℕ → ℕ → Role → WorkspaceContext
actor workspace user role = record { workspace_id = workspace; actor_user_id = user; role = role }

-- a lease of any job, worker and lease epoch for the same allocation
abbrev pub lease_for : RefreshLease → ℕ → ℕ → String → ℕ → RefreshLease
lease_for lease job user worker epoch = record lease {
  job_id = job;
  actor_user_id = user;
  worker_id = worker;
  lease_epoch = epoch;
}

-- the calls that use up the allocation which a lease names: connection, version, control epoch and
-- generation
pub data Consumes (workspace : ℕ) (lease : RefreshLease) : Call → Type 0 where
  by_promotion :
      {user : ℕ} {role : Role} {k : Option ℕ}
      → Consumes workspace lease (
          Call.promote_pending
            (actor workspace user role)
            lease.connection_id
            lease.connection_version_id
            lease.control_epoch
            lease.generation
            k)
  by_completion :
      {user : ℕ} {role : Role}
      → Consumes workspace lease (
          Call.complete_refresh
            (actor workspace user role)
            lease.connection_id
            lease.connection_version_id
            lease.control_epoch
            lease.generation)
  by_publication :
      {user job owner epoch : ℕ} {role : Role} {worker : String} {r : DiscoveryResult}
      → Consumes workspace lease (
          Call.publish_success
            (actor workspace user role)
            (lease_for lease job owner worker epoch)
            r)
  by_failure :
      {user job owner epoch : ℕ} {role : Role} {worker : String} {x : DiscoveryFailureCode}
      → Consumes workspace lease (
          Call.publish_failure
            (actor workspace user role)
            (lease_for lease job owner worker epoch)
            x)

-- the calls that need the allocation
pub data Needs (workspace : ℕ) (lease : RefreshLease) : Call → Type 0 where
  to_consume : {call : Call} → Consumes workspace lease call → Needs workspace lease call
  to_contact :
      {user job owner epoch : ℕ} {role : Role} {worker : String}
      → Needs workspace lease (
          Call.validate_for_contact
            (actor workspace user role)
            (lease_for lease job owner worker epoch))
  to_renew :
      {user job owner epoch duration : ℕ} {role : Role} {worker : String}
      → Needs workspace lease
          (Call.renew (actor workspace user role) (lease_for lease job owner worker epoch) duration)
  to_record :
      {user : ℕ} {role : Role} {tool : ToolMetadata} {k : Option ℕ}
      → Needs workspace lease (
          Call.record_version (actor workspace user role) (record {
            connection_id = lease.connection_id;
            connection_version_id = lease.connection_version_id;
            control_epoch = lease.control_epoch;
            generation = lease.generation;
            tool = tool;
            correlation = k;
          }))

-- the allocation is not in force, and its epoch and generation have been reached
pub record UsedUp (workspace id v e g : ℕ) (c : ServerConnection) : Type 0 where
  pub reached : e ≤ c.control_epoch
  pub generated : e ≡ c.control_epoch → g ≤ c.refresh_generation
  pub gone : not_allocated c v e g ≡ true

abbrev pub Gone : ℕ → ℕ → ℕ → ℕ → ℕ → Catalog → Type 0
Gone workspace id v e g s =
    All IsSound s.tables.connections
    × (c : ServerConnection) × (find (is_connection workspace id) s.tables.connections ≡ some c)
    × UsedUp workspace id v e g c

pub is_connection-Moves :
    (workspace id : ℕ) (c d : ServerConnection)
    → Moves c d
    → is_connection workspace id d ≡ is_connection workspace id c
is_connection-Moves workspace id c d m = rw (m.same_id, m.same_workspace) refl

-- sound rows name the current target and epoch in their allocation
allocated_target :
    (c : ServerConnection) (e : ℕ)
    → IsSound c
    → c.allocated_control_epoch ≡ some e
    → c.allocated_target_version_id ≡ current_target c
allocated_target c e h p = go c.allocated_control_epoch c.allocated_target_version_id h.allocation p
  where
    go : (a t : Option ℕ) → IsAllocated c a t → a ≡ some e → t ≡ current_target c
    go none t k q = cc
    go (some x) none k q = elim k [ ]
    go (some x) (some t) k q = sym k.1

holds_id-of : (o : Option ℕ) (n : ℕ) → o ≡ some n → holds_id o n ≡ true
holds_id-of o n e = ground arith

module _ (workspace id v e g : ℕ) where
  moved-UsedUp :
      (c d : ServerConnection)
      → IsSound c
      → IsSound d
      → Moves c d
      → UsedUp workspace id v e g c
      → UsedUp workspace id v e g d
  moved-UsedUp c d hc hd m u = record {
    reached = omega (arith, u.reached, m.epoch);
    generated = λ p. later (omega (arith, u.reached, m.epoch, p)) p;
    gone = elim (Bool-cases (not_allocated d v e g)) [
      | inl gone ↦ gone
      | inr held ↦ elim (never held) [ ]
    ];
  }
    where
      released :
          c.control_epoch ≡ e
          → c.refresh_generation ≡ g
          → c.allocated_control_epoch ≡ some e
          → c.allocated_target_version_id ≡ some v
          → ⊥
      released p q x y =
          let hx = holds_id-of c.allocated_control_epoch e x in
          let hy = holds_id-of c.allocated_target_version_id v y in
          let gone = u.gone in ground arith

      never : not_allocated d v e g ≡ false → ⊥
      never held =
          let ed : d.control_epoch ≡ e = ground arith in
          let gd : d.refresh_generation ≡ g = ground arith in
          let ad = holds_id-eq d.allocated_control_epoch e (ground arith) in
          let td = holds_id-eq d.allocated_target_version_id v (ground arith) in
          let ec : c.control_epoch ≡ e = omega (arith, u.reached, m.epoch, ed) in
          let gc : c.refresh_generation ≡ g =
            omega (arith, u.generated (sym ec), m.generation, gd) in
          elim (m.spent (ec ∙ sym ed) (gc ∙ sym gd)) [
            | inl gone ↦ cc
            | inr same ↦
                let ac : c.allocated_control_epoch ≡ some e = sym same ∙ ad in
                released ec gc ac (
                  allocated_target c e hc ac
                  ∙ sym (m.target (ec ∙ sym ed))
                  ∙ sym (allocated_target d e hd ad)
                  ∙ td)
          ]

      later : e ≡ c.control_epoch → e ≡ d.control_epoch → g ≤ d.refresh_generation
      later p q = omega (arith, u.generated p, m.generation)

  pub Gone-Lasting : Lasting (Gone workspace id v e g)
  Gone-Lasting = record {
    lasts = λ s t a h.
        let (sound, c, found, used) = h in
        let connections = a.tables.connections in
        let sound' = connections.kept sound in
        let (d, found', moves) =
          Grows-find Moves (is_connection workspace id) (is_connection-Moves workspace id) _ _ c
            connections.grows found in
        let hc = (All-find IsSound (is_connection workspace id) _ c sound found).0 in
        let hd = (All-find IsSound (is_connection workspace id) _ d sound' found').0 in
        (sound', d, found', moved-UsedUp c d hc hd moves used);
  }

-- no call returns
abbrev pub Never : Catalog → Type 0
Never s = ⊥

module _ (workspace : ℕ) (lease : RefreshLease) (s : Catalog)
    (gone : Gone workspace lease.connection_id lease.connection_version_id lease.control_epoch
      lease.generation s) where
  refused :
      (c : ServerConnection)
      → find (is_connection workspace lease.connection_id) s.tables.connections ≡ some c
      → not_allocated c lease.connection_version_id lease.control_epoch lease.generation ≡ true
  refused c found =
      let (sound, d, found', used) = gone in
      let same : some d ≡ some c = sym found' ∙ found in
      subst
        (λ x. elim x [
          | none ↦ Unit
          | some y ↦
              not_allocated y lease.connection_version_id lease.control_epoch lease.generation
              ≡ true
        ])
        same used.gone

  module _ {B : Type 0} (t : Catalog) (m : Act Catalog B) (c : ServerConnection)
      (found : find (is_connection workspace lease.connection_id) s.tables.connections
        ≡ some c) where
    allocated-Never :
        not_allocated c lease.connection_version_id lease.control_epoch lease.generation ≡ false
        → Ensures Never m t
    allocated-Never h = let gone = refused c found in cc

    promotion-Never :
        promote_refused c lease.connection_version_id lease.control_epoch lease.generation ≡ false
        → Ensures Never m t
    unfolding promote_refused
    promotion-Never h = allocated-Never (ground arith)

    completion-Never :
        complete_refused c lease.connection_version_id lease.control_epoch lease.generation ≡ false
        → Ensures Never m t
    unfolding complete_refused
    completion-Never h = allocated-Never (ground arith)

    eligible-Never :
        eligible_refused c lease.connection_version_id lease.control_epoch lease.generation ≡ false
        → Ensures Never m t
    unfolding eligible_refused
    eligible-Never h = allocated-Never (ground arith)

    record-Never :
        record_refused c lease.connection_version_id lease.control_epoch lease.generation ≡ false
        → Ensures Never m t
    unfolding record_refused
    record-Never h = allocated-Never (ground arith)

  module _ (source : Source) (user : ℕ) (role : Role) where
    promote_pending-Never :
        (k : Option ℕ)
        → Ensures Never
            (promote_pending source
              (actor workspace user role)
              lease.connection_id
              lease.connection_version_id
              lease.control_epoch
              lease.generation
              k)
            s
    unfolding promote_pending
    promote_pending-Never k = search (ensuring_rules, promotion-Never) depth 10

    complete_refresh-Never :
        Ensures Never
          (complete_refresh
            (actor workspace user role)
            lease.connection_id
            lease.connection_version_id
            lease.control_epoch
            lease.generation)
          s
    unfolding complete_refresh
    complete_refresh-Never = search (ensuring_rules, completion-Never) depth 10

    record_version-Never :
        (o : Observation) (validate_metadata : ToolMetadata → Bool)
        → o.connection_id ≡ lease.connection_id
        → o.connection_version_id ≡ lease.connection_version_id
        → o.control_epoch ≡ lease.control_epoch
        → o.generation ≡ lease.generation
        → Ensures Never (record_version source (actor workspace user role) o validate_metadata) s
    unfolding record_version
    record_version-Never o validate_metadata a b c d =
        rw (a, b, c, d) (search (ensuring_rules, record-Never) depth 10)

    module _ (job owner epoch : ℕ) (worker : String) where
      contact-Never :
          Ensures Never
            (validate_for_contact source
              (actor workspace user role)
              (lease_for lease job owner worker epoch))
            s
      unfolding validate_for_contact
      contact-Never = search (ensuring_rules, eligible-Never) depth 10

      renew-Never :
          (duration : ℕ)
          → Ensures Never
              (renew source
                (actor workspace user role)
                (lease_for lease job owner worker epoch)
                duration)
              s
      unfolding renew
      renew-Never duration = search (ensuring_rules, eligible-Never) depth 12

      publish_failure-Never :
          (validate_metadata : ToolMetadata → Bool) (code : DiscoveryFailureCode)
          → Ensures Never
              (publish_failure source validate_metadata
                (actor workspace user role)
                (lease_for lease job owner worker epoch)
                code)
              s
      unfolding publish_failure
      publish_failure-Never validate_metadata code =
          search (ensuring_rules, eligible-Never) depth 10

      publish_success-Never :
          (validate_metadata : ToolMetadata → Bool) (result : DiscoveryResult)
          → Ensures Never
              (publish_success source validate_metadata
                (actor workspace user role)
                (lease_for lease job owner worker epoch)
                result)
              s
      unfolding publish_success
      publish_success-Never validate_metadata result =
          search (ensuring_rules, eligible-Never) depth 10

  done-Never :
      {A : Type 0} (m : Act Catalog A) → Ensures Never m s → Ensures Never (m >>= λ _. pure tt) s
  done-Never m h = record { at = go m (m s).0 (m s).1 h.at }
    where
      go :
          {A : Type 0} (m : Act Catalog A) (r : Result A) (t : Catalog)
          → ((a : A) → r ≡ ok a → ⊥)
          → (b : Unit) → (after Never s m (λ _. pure tt) (r, t)).0 ≡ ok b
          → ⊥
      go m (ok a) t k b e = k a refl
      go m (err x) t k b e = cc

  pub perform-Never :
      (q : Request) (call : Call) → Needs workspace lease call → Ensures Never (perform q call) s
  unfolding perform
  perform-Never q _ (to_consume by_promotion) = done-Never _ (promote_pending-Never q.source _ _ _)
  perform-Never q _ (to_consume by_completion) = done-Never _ (complete_refresh-Never q.source _ _)
  perform-Never q _ (to_consume by_publication) =
      done-Never _ (publish_success-Never q.source _ _ _ _ _ _ q.validate_metadata _)
  perform-Never q _ (to_consume by_failure) =
      done-Never _ (publish_failure-Never q.source _ _ _ _ _ _ q.validate_metadata _)
  perform-Never q _ to_contact = contact-Never q.source _ _ _ _ _ _
  perform-Never q _ to_renew = done-Never _ (renew-Never q.source _ _ _ _ _ _ _)
  perform-Never q _ to_record =
      done-Never _ (record_version-Never q.source _ _ _ q.validate_metadata refl refl refl refl)
