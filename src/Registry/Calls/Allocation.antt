-- ===== src/Registry/Calls/Allocation.antt =====
-- registry/service.py and registry/discovery.py: the calls that use up an allocation.
use modall.Common.{
  ℕ, All, find, ◌≡◌, some, none, All-find, find-update_first, ◌∙◌, arith, true, false, Option, refl,
  String, Bool, Act, List, ◌>>=◌, pure, ok, raised, Result, err,
}
use modall.Registry.Refresh.{RefreshLease, eligible_refused}
use modall.Registry.Store.{Catalog, is_connection, put_connection, Source}
use modall.Registry.Ensures.{
  Lasting, Ensures, ensuring_rules, lasting-Ensures, returned-Ensures, sound-Ensures,
}
use modall.Registry.Calls.Refusal.{
  Gone, Gone-Lasting, is_connection-Moves, actor, lease_for, Consumes, Needs, perform-Never,
  by_promotion, by_completion, by_publication, by_failure,
}
use modall.Registry.Rows.{ServerConnection, DiscoveryFailureCode}
use modall.Registry.Connections.Moves.{
  IsSound, Moves, completed-Moves, promoted-Moves, promoted-IsSound, completed-IsSound,
}
use modall.Registry.Advance.Rules.{
  put_connection-AdvancesAt, advancing_rules, pure-AdvancesAt, add_snapshot-AdvancesAt,
}
use modall.Registry.Capabilities.Projects.{}
use modall.Identity.{Role, WorkspaceContext}
use modall.Registry.Connections.{
  not_allocated, complete_refused, complete_refresh, promote_refused, promote_pending, completed,
  promoted,
}
use modall.Registry.Publication.{
  degraded_by, publish_failure, publish_success, finish_allocation, finish_publication,
  DiscoveryResult,
}
use modall.Registry.Advance.Discovery.{
  degraded_by-Moves, degraded_by-IsSound, discovery_rules, recorded_payload-AdvancesAt,
  record_tools-AdvancesAt, mark_missing_unavailable-AdvancesAt,
}
use modall.Registry.Capabilities.Recording.{ToolMetadata}
use modall.Registry.Calls.{Call, Request, perform, serve}
use modall.Registry.Calls.History.{serve-Advances}

no_allocation :
    (d : ServerConnection) (v e g : ℕ)
    → d.allocated_control_epoch ≡ none
    → not_allocated d v e g ≡ true
no_allocation d v e g gone = ground arith

module _ (workspace : ℕ) (lease : RefreshLease) where
  abbrev Used : Catalog → Type 0
  Used =
      Gone workspace lease.connection_id lease.connection_version_id lease.control_epoch
        lease.generation

  Used-Lasting : Lasting Used
  Used-Lasting =
      Gone-Lasting workspace lease.connection_id lease.connection_version_id lease.control_epoch
        lease.generation

  -- a connection that is written without an allocation, under the same epoch and generation
  module _ (s : Catalog) (c d : ServerConnection) (sound : All IsSound s.tables.connections)
      (found : find (is_connection workspace lease.connection_id) s.tables.connections ≡ some c)
      (moves : Moves c d) (kept : IsSound c → IsSound d) where
    released-Used :
        d.control_epoch ≡ lease.control_epoch
        → d.refresh_generation ≡ lease.generation
        → d.allocated_control_epoch ≡ none
        → Used (put_connection (is_connection workspace lease.connection_id) d s).1
    unfolding put_connection
    released-Used e g gone =
        let test = is_connection workspace lease.connection_id in
        let steady = put_connection-AdvancesAt s test c d found moves kept in
        let accepted = (All-find IsSound test _ c sound found).1 in
        let same = is_connection-Moves workspace lease.connection_id c d moves in
        (
          steady.at.tables.connections.kept sound,
          d,
          find-update_first test s.tables.connections c d found (same ∙ accepted),
          record {
            reached = omega (arith, e);
            generated = λ _. omega (arith, g);
            gone =
                no_allocation d lease.connection_version_id lease.control_epoch lease.generation
                  gone;
          },
        )

  module _ (s : Catalog) (sound : All IsSound s.tables.connections) where
    promoted-Used :
        (c : ServerConnection)
        → find (is_connection workspace lease.connection_id) s.tables.connections ≡ some c
        → promote_refused c lease.connection_version_id lease.control_epoch lease.generation ≡ false
        → Used
            (put_connection
              (is_connection workspace lease.connection_id)
              (promoted lease.connection_version_id c)
              s).1
    unfolding promote_refused promoted
    promoted-Used c found allowed =
        released-Used s c _ sound found (promoted-Moves c _ _ _ allowed)
          (λ _. promoted-IsSound c lease.connection_version_id lease.control_epoch lease.generation)
          (ground arith) (ground arith) refl

    promote_pending-Used :
        (source : Source) (user : ℕ) (role : Role) (k : Option ℕ)
        → Ensures Used
            (promote_pending source
              (actor workspace user role)
              lease.connection_id
              lease.connection_version_id
              lease.control_epoch
              lease.generation
              k)
            s
    unfolding promote_pending
    promote_pending-Used source user role k =
        search (ensuring_rules, lasting-Ensures, Used-Lasting, promoted-Used, advancing_rules) depth
          14

    completed-Used :
        (c : ServerConnection)
        → find (is_connection workspace lease.connection_id) s.tables.connections ≡ some c
        → complete_refused c lease.connection_version_id lease.control_epoch lease.generation
          ≡ false
        → Used (put_connection (is_connection workspace lease.connection_id) (completed c) s).1
    unfolding complete_refused completed
    completed-Used c found allowed =
        released-Used s c _ sound found (completed-Moves c _ _ _ allowed)
          (completed-IsSound c _ _ _ allowed) (ground arith) (ground arith) refl

    complete_refresh-Used :
        (user : ℕ) (role : Role)
        → Ensures Used
            (complete_refresh
              (actor workspace user role)
              lease.connection_id
              lease.connection_version_id
              lease.control_epoch
              lease.generation)
            s
    unfolding complete_refresh
    complete_refresh-Used user role =
        search (ensuring_rules, lasting-Ensures, Used-Lasting, completed-Used, advancing_rules)
          depth 14

    degraded-Used :
        (c : ServerConnection) (code : DiscoveryFailureCode) (now : ℕ)
        → find (is_connection workspace lease.connection_id) s.tables.connections ≡ some c
        → eligible_refused c lease.connection_version_id lease.control_epoch lease.generation
          ≡ false
        → Used
            (put_connection
              (is_connection workspace lease.connection_id)
              (degraded_by code now c)
              s).1
    unfolding eligible_refused degraded_by
    degraded-Used c code now found allowed =
        released-Used s c _ sound found (degraded_by-Moves code now c _ _ _ allowed)
          (degraded_by-IsSound code now c) (ground arith) (ground arith) refl

module _ (workspace : ℕ) (lease : RefreshLease) (source : Source) (user : ℕ) (role : Role)
    (job owner epoch : ℕ) (worker : String) (validate_metadata : ToolMetadata → Bool) where
  abbrev publisher : WorkspaceContext
  publisher = actor workspace user role

  abbrev publishing : RefreshLease
  publishing = lease_for lease job owner worker epoch

  publish_failure-Used :
      (s : Catalog) (code : DiscoveryFailureCode)
      → All IsSound s.tables.connections
      → Ensures
          (Used workspace lease)
          (publish_failure source validate_metadata publisher publishing code)
          s
  unfolding publish_failure
  publish_failure-Used s code sound =
      let lasting = Used-Lasting workspace lease in
      let degraded = degraded-Used workspace lease in
      search (ensuring_rules, lasting-Ensures, lasting, degraded, discovery_rules) depth 14

  finish_allocation-Used :
      (s : Catalog) (pending : Bool)
      → All IsSound s.tables.connections
      → Ensures
          (Used workspace lease)
          (finish_allocation source validate_metadata publisher publishing pending)
          s
  unfolding finish_allocation
  finish_allocation-Used s true sound =
      promote_pending-Used workspace lease s sound source user role none
  finish_allocation-Used s false sound = complete_refresh-Used workspace lease s sound user role

  finish_publication-Used :
      (s : Catalog) (locked_at snapshot : ℕ) (pending : Bool)
      → All IsSound s.tables.connections
      → Ensures
          (Used workspace lease)
          (finish_publication source validate_metadata publisher publishing locked_at snapshot
            pending)
          s
  unfolding finish_publication
  finish_publication-Used s locked_at snapshot pending sound =
      let lasting = Used-Lasting workspace lease in
      search (returned-Ensures, lasting, finish_allocation-Used, discovery_rules) depth 14

  publish_success-Used :
      (s : Catalog) (result : DiscoveryResult)
      → All IsSound s.tables.connections
      → Ensures
          (Used workspace lease)
          (publish_success source validate_metadata publisher publishing result)
          s
  unfolding publish_success
  publish_success-Used s result sound =
      let lasting = Used-Lasting workspace lease in
      search
        (
          ensuring_rules, returned-Ensures, sound-Ensures, lasting, pure-AdvancesAt,
          recorded_payload-AdvancesAt, add_snapshot-AdvancesAt, record_tools-AdvancesAt,
          mark_missing_unavailable-AdvancesAt, finish_publication-Used,
        )
        depth 20

module _ (workspace : ℕ) (lease : RefreshLease) where
  done-Used :
      {A : Type 0} (s : Catalog) (m : Act Catalog A)
      → Ensures (Used workspace lease) m s
      → Ensures (Used workspace lease) (m >>= λ _. pure tt) s
  done-Used s m h =
      returned-Ensures (Used workspace lease) s m (λ _. pure tt) (Used-Lasting workspace lease) h
        (λ a t. pure-AdvancesAt t tt)

  perform-Used :
      (q : Request) (s : Catalog) (call : Call)
      → All IsSound s.tables.connections
      → Consumes workspace lease call
      → Ensures (Used workspace lease) (perform q call) s
  unfolding perform
  perform-Used q s _ sound by_promotion =
      done-Used s _ (promote_pending-Used workspace lease s sound q.source _ _ _)
  perform-Used q s _ sound by_completion =
      done-Used s _ (complete_refresh-Used workspace lease s sound _ _)
  perform-Used q s _ sound by_publication =
      done-Used s _
        (publish_success-Used workspace lease q.source _ _ _ _ _ _ q.validate_metadata s _ sound)
  perform-Used q s _ sound by_failure =
      done-Used s _
        (publish_failure-Used workspace lease q.source _ _ _ _ _ _ q.validate_metadata s _ sound)

  -- An allocation is used up once: when a promotion, a completion or a publication that names it has
  -- returned, then after any further calls, every call that names the same connection, version,
  -- control epoch and generation raises, whatever job, worker, actor and lease epoch it comes with.
  pub consumed-raises :
      (s : Catalog) (q : Request) (later : List Request) (q' : Request)
      → All IsSound s.tables.connections
      → Consumes workspace lease q.call
      → (perform q q.call s).0 ≡ ok tt
      → Needs workspace lease q'.call
      → raised (perform q' q'.call (serve (perform q q.call s).1 later)).0 ≡ true
  consumed-raises s q later q' sound consumes returned needs =
      let used = (perform-Used q s q.call sound consumes).at tt returned in
      let t = (perform q q.call s).1 in
      let gone = (Used-Lasting workspace lease).lasts t _ (serve-Advances t later) used in
      raises (perform q' q'.call (serve t later)).0
        (perform-Never workspace lease (serve t later) gone q' q'.call needs).at
    where
      raises : (r : Result Unit) → ((a : Unit) → r ≡ ok a → ⊥) → raised r ≡ true
      raises (ok a) never = elim (never a refl) [ ]
      raises (err e) never = refl
