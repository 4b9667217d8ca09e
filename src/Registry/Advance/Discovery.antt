-- ===== src/Registry/Advance/Discovery.antt =====
-- registry/discovery.py: each call by the rules for its constructs.
use modall.Common.{
  ℕ, Bool, String, Option, arith, Act, ◌&&◌, ◌≡◌, inr, ◌+◌, refl, ◌>>=◌, false, true, inl, some,
  none, find, List, err, ok, invalid_connection_transition, ◌∷◌, Option-cases, sym, Bool-cases, [],
  Grows-refl, Grows-append,
}
use modall.Registry.Advance.Rules.{
  advancing_rules, AdvancesAt, bind-AdvancesAt, gets-AdvancesAt, pure-AdvancesAt, next,
  seq-AdvancesAt, add_observation-AdvancesAt,
}
use modall.Registry.Publication.{
  refreshed, closed_as, degraded_by, publish_failure, payload_for, mark_missing_unavailable,
  finish_allocation, record_tools, recorded_payload, publish_success, DiscoveryResult,
  ToolDefinition, marked, is_missing, record_observed, finish_publication,
}
use modall.Registry.Refresh.{
  leased_to, locked_active_job, renewed_until, reclaimable, validate_for_contact, RefreshLease,
  enqueue, claim, renew, eligible_refused, is_own_job, is_active_job, is_leased_job, claim_durable,
  context_for_job,
}
use modall.Registry.Rows.{DiscoveryFailureCode, ServerConnection, Capability}
use modall.Registry.Store.{
  Source, DiscoveryRefreshJob, database_now, Catalog, RefreshJobStatus, DiscoveryPayload,
}
use modall.Registry.Capabilities.Recording.{ToolMetadata}
use modall.Identity.{WorkspaceContext}
use modall.Registry.Connections.Moves.{IsSound, Moves, IsAllocated}
use modall.Registry.Jobs.{JobMoves, outstanding-JobMoves, JobMoves-refl}
use modall.Registry.Advance.Connections.{
  allocate_refresh_generation-AdvancesAt, promote_pending-AdvancesAt, complete_refresh-AdvancesAt,
}
use modall.Registry.Connections.{is_outstanding}
use modall.Registry.Advance.{
  Advances, with_tables, TablesAdvance-refl, Advances-trans, with_capabilities, Keeps-map,
  unchanged,
}
use modall.Registry.Capabilities.Projects.{
  Projects, unavailable-Projects, Projects-refl, IsProjected, unavailable-IsProjected,
}
use modall.Registry.Advance.Capabilities.{record_version-AdvancesAt}
use mathlib.Core.Path.{subst}

pub leased_to-JobMoves :
    (context : WorkspaceContext) (id now : ℕ) (worker : String) (expires : ℕ)
    (j : DiscoveryRefreshJob)
    → is_own_job context id j && reclaimable now j ≡ true
    → JobMoves j (leased_to worker expires j)
unfolding leased_to reclaimable
leased_to-JobMoves context id now worker expires j h =
    outstanding-JobMoves j RefreshJobStatus.leased (some worker) (j.lease_epoch + 1) (some expires)
      (ground arith) (omega arith)

pub renewed_until-JobMoves :
    (expires : ℕ) (j : DiscoveryRefreshJob) → JobMoves j (renewed_until expires j)
unfolding renewed_until
renewed_until-JobMoves expires j = record {
  same_id = refl;
  same_allocation = (refl, refl, refl, refl, refl, refl);
  epoch = omega arith;
  final = λ _. refl;
}

pub closed_as-JobMoves :
    (context : WorkspaceContext) (lease : RefreshLease) (now : ℕ) (status : RefreshJobStatus)
    (j : DiscoveryRefreshJob)
    → is_active_job context lease now j ≡ true
    → JobMoves j (closed_as status j)
unfolding closed_as
closed_as-JobMoves context lease now status j h =
    outstanding-JobMoves j status none j.lease_epoch none (running j.status (ground arith))
      (omega arith)
  where
    running : (s : RefreshJobStatus) → is_leased_job s ≡ true → is_outstanding s ≡ true
    running s e = ground arith

pub refreshed-Moves : (snapshot now : ℕ) (c : ServerConnection) → Moves c (refreshed snapshot now c)
unfolding refreshed
refreshed-Moves snapshot now c = record {
  same_id = refl;
  same_workspace = refl;
  epoch = omega arith;
  generation = omega arith;
  target = λ _. refl;
  decision = λ _. refl;
  spent = λ _ _. inr refl;
}

pub refreshed-IsSound :
    (snapshot now : ℕ) (c : ServerConnection) → IsSound c → IsSound (refreshed snapshot now c)
unfolding refreshed
refreshed-IsSound snapshot now c h = record {
  has_version = h.has_version;
  allocation = same c.allocated_control_epoch c.allocated_target_version_id h.allocation;
  verified = h.verified;
}
  where
    same : (e t : Option ℕ) → IsAllocated c e t → IsAllocated (refreshed snapshot now c) e t
    same none none k = k
    same none (some t) k = k
    same (some e) none k = k
    same (some e) (some t) k = k

module _ (code : DiscoveryFailureCode) (now : ℕ) (c : ServerConnection) where
  pub degraded_by-Moves :
      (v e g : ℕ) → eligible_refused c v e g ≡ false → Moves c (degraded_by code now c)
  unfolding degraded_by eligible_refused
  degraded_by-Moves v e g h = record {
    same_id = refl;
    same_workspace = refl;
    epoch = omega arith;
    generation = omega arith;
    target = λ _. refl;
    decision = λ _. ground arith;
    spent = λ _ _. inl refl;
  }

  pub degraded_by-IsSound : IsSound c → IsSound (degraded_by code now c)
  unfolding degraded_by
  degraded_by-IsSound h = record {
    has_version = h.has_version;
    allocation = tt;
    verified = λ e. cc;
  }

pub ruleset discovery_rules = (
  advancing_rules, leased_to-JobMoves, renewed_until-JobMoves, closed_as-JobMoves, refreshed-Moves,
  refreshed-IsSound, degraded_by-Moves, degraded_by-IsSound,
)

module _ (s : Catalog) (source : Source) (context : WorkspaceContext) (lease : RefreshLease) where
  -- one reading of the clock, and the job while its lease runs
  pub locked_active_job-missing :
      find (is_active_job context lease (source.clock s.reads)) s.refresh_jobs ≡ none
      → locked_active_job source context lease s
        ≡ (err invalid_connection_transition, record s { reads = s.reads + 1 })
  unfolding locked_active_job database_now
  locked_active_job-missing e = ground arith

  pub locked_active_job-found :
      (j : DiscoveryRefreshJob)
      → find (is_active_job context lease (source.clock s.reads)) s.refresh_jobs ≡ some j
      → locked_active_job source context lease s
        ≡ (ok (source.clock s.reads, j), record s { reads = s.reads + 1 })
  unfolding locked_active_job database_now
  locked_active_job-found j e = ground arith

  module _ {B : Type 0} (k : ℕ × DiscoveryRefreshJob → Act Catalog B) where
    locked_active_job-AdvancesAt :
        ((a : ℕ × DiscoveryRefreshJob) → AdvancesAt (k a) (record s { reads = s.reads + 1 }))
        → AdvancesAt (locked_active_job source context lease >>= k) s
    locked_active_job-AdvancesAt h =
        let read : Advances s (record s { reads = s.reads + 1 }) =
          with_tables s _ (TablesAdvance-refl _) refl refl in
        let after = next s (locked_active_job source context lease) k in
        elim (Option-cases
          (find (is_active_job context lease (source.clock s.reads)) s.refresh_jobs)) [
            | inl missing ↦ record {
              at =
                  subst (λ p. Advances s (after p).1) (sym (locked_active_job-missing missing))
                    read;
            }
            | inr (j, found) ↦ record {
              at =
                  subst (λ p. Advances s (after p).1) (sym (locked_active_job-found j found))
                    (Advances-trans s _ _ read (h (source.clock s.reads, j)).at);
            }
          ]

module _ (source : Source) where
  pub enqueue-AdvancesAt :
      (s : Catalog) (context : WorkspaceContext) (id : ℕ) → AdvancesAt (enqueue source context id) s
  unfolding enqueue
  enqueue-AdvancesAt s context id =
      search (bind-AdvancesAt, allocate_refresh_generation-AdvancesAt, advancing_rules) depth 10

  pub claim-AdvancesAt :
      (s : Catalog) (context : WorkspaceContext) (id : ℕ) (worker : String) (duration : ℕ)
      → AdvancesAt (claim source context id worker duration) s
  unfolding claim
  claim-AdvancesAt s context id worker duration = search discovery_rules depth 16

  context_for_job-AdvancesAt : (s : Catalog) (id : ℕ) → AdvancesAt (context_for_job source id) s
  unfolding context_for_job
  context_for_job-AdvancesAt s id = search advancing_rules depth 10

  pub claim_durable-AdvancesAt :
      (s : Catalog) (id : ℕ) (worker : String) (duration : ℕ)
      → AdvancesAt (claim_durable source id worker duration) s
  unfolding claim_durable
  claim_durable-AdvancesAt s id worker duration =
      search (bind-AdvancesAt, context_for_job-AdvancesAt, claim-AdvancesAt, pure-AdvancesAt)

  pub renew-AdvancesAt :
      (s : Catalog) (context : WorkspaceContext) (lease : RefreshLease) (duration : ℕ)
      → AdvancesAt (renew source context lease duration) s
  unfolding renew
  renew-AdvancesAt s context lease duration = search discovery_rules depth 16

  pub validate_for_contact-AdvancesAt :
      (s : Catalog) (context : WorkspaceContext) (lease : RefreshLease)
      → AdvancesAt (validate_for_contact source context lease) s
  unfolding validate_for_contact
  validate_for_contact-AdvancesAt s context lease =
      search (locked_active_job-AdvancesAt, discovery_rules) depth 10

module _ (source : Source) (validate_metadata : ToolMetadata → Bool) (context : WorkspaceContext)
    (lease : RefreshLease) where
  pub publish_failure-AdvancesAt :
      (s : Catalog) (code : DiscoveryFailureCode)
      → AdvancesAt (publish_failure source validate_metadata context lease code) s
  unfolding publish_failure
  publish_failure-AdvancesAt s code =
      search (locked_active_job-AdvancesAt, discovery_rules) depth 16

  pub mark_missing_unavailable-AdvancesAt :
      (s : Catalog) (id : ℕ) (identities : List String)
      → AdvancesAt (mark_missing_unavailable context id identities) s
  unfolding mark_missing_unavailable
  mark_missing_unavailable-AdvancesAt s id identities = record {
    at = record {
      tables = with_capabilities _ _ (
          Keeps-map Projects IsProjected (marked (is_missing context.workspace_id id identities))
            marked-Projects marked-IsProjected _);
      jobs = Grows-refl JobMoves JobMoves-refl _;
      events = Grows-append ◌≡◌ unchanged _ _;
    };
  }
    where
      marked-Projects :
          (c : Capability) → Projects c (marked (is_missing context.workspace_id id identities) c)
      marked-Projects c =
          unfold marked in
          elim (Bool-cases (is_missing context.workspace_id id identities c)) [
            | inl hit ↦ rw hit (unavailable-Projects c)
            | inr miss ↦ rw miss (Projects-refl c)
          ]

      marked-IsProjected :
          (c : Capability)
          → IsProjected c
          → IsProjected (marked (is_missing context.workspace_id id identities) c)
      marked-IsProjected c h =
          unfold marked in
          elim (Bool-cases (is_missing context.workspace_id id identities c)) [
            | inl hit ↦ rw hit (unavailable-IsProjected c)
            | inr miss ↦ rw miss h
          ]

  payload_for-AdvancesAt :
      (s : Catalog) (result : DiscoveryResult) (p : Option DiscoveryPayload)
      → AdvancesAt (payload_for source validate_metadata context lease result p) s
  unfolding payload_for
  payload_for-AdvancesAt s result none = search advancing_rules depth 8
  payload_for-AdvancesAt s result (some p) = search advancing_rules

  pub recorded_payload-AdvancesAt :
      (s : Catalog) (result : DiscoveryResult)
      → AdvancesAt (recorded_payload source validate_metadata context lease result) s
  unfolding recorded_payload
  recorded_payload-AdvancesAt s result = search (gets-AdvancesAt, payload_for-AdvancesAt)

  record_observed-AdvancesAt :
      (s : Catalog) (revision : String) (snapshot : ℕ) (tool : ToolDefinition)
      → AdvancesAt (record_observed source validate_metadata context lease revision snapshot tool) s
  unfolding record_observed
  record_observed-AdvancesAt s revision snapshot tool =
      let version = record_version-AdvancesAt source context in
      search (bind-AdvancesAt, version, add_observation-AdvancesAt)

  pub record_tools-AdvancesAt :
      (s : Catalog) (revision : String) (snapshot : ℕ) (tools : List ToolDefinition)
      → AdvancesAt (record_tools source validate_metadata context lease revision snapshot tools) s
  unfolding record_tools
  record_tools-AdvancesAt s revision snapshot [] = pure-AdvancesAt s tt
  record_tools-AdvancesAt s revision snapshot (tool ∷ rest) =
      seq-AdvancesAt s _ _ (record_observed-AdvancesAt s revision snapshot tool)
        (λ t. record_tools-AdvancesAt t revision snapshot rest)

  pub finish_allocation-AdvancesAt :
      (s : Catalog) (pending : Bool)
      → AdvancesAt (finish_allocation source validate_metadata context lease pending) s
  unfolding finish_allocation
  finish_allocation-AdvancesAt s true = promote_pending-AdvancesAt source s context _ _ _ _ none
  finish_allocation-AdvancesAt s false = complete_refresh-AdvancesAt source s context _ _ _ _

  finish_publication-AdvancesAt :
      (s : Catalog) (locked_at snapshot : ℕ) (pending : Bool)
      → AdvancesAt
          (finish_publication source validate_metadata context lease locked_at snapshot pending)
          s
  unfolding finish_publication
  finish_publication-AdvancesAt s locked_at snapshot pending =
      search (bind-AdvancesAt, finish_allocation-AdvancesAt, discovery_rules) depth 12

  pub publish_success-AdvancesAt :
      (s : Catalog) (result : DiscoveryResult)
      → AdvancesAt (publish_success source validate_metadata context lease result) s
  unfolding publish_success
  publish_success-AdvancesAt s result =
      search
        (
          locked_active_job-AdvancesAt, discovery_rules, mark_missing_unavailable-AdvancesAt,
          recorded_payload-AdvancesAt, record_tools-AdvancesAt, finish_publication-AdvancesAt,
          bind-AdvancesAt,
        )
        depth 24
