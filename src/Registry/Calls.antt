-- ===== src/Registry/Calls.antt =====
-- The calls of the registry services as requests, and histories of them.
pub mod History
pub mod Refusal
pub mod Allocation
use modall.Registry.Connections
use modall.Registry.Capabilities
use modall.Registry.Capabilities.Recording
use modall.Registry.Refresh
use modall.Registry.Publication
use modall.Common.{ℕ, Act, Result, List, ◌>>=◌, pure, Option, ok, ◌∷◌, Bool, err, String, []}
use modall.Identity.{WorkspaceContext}
use modall.Registry.Store.{Catalog, Source}
use modall.Registry.Connections.{Validation}
use modall.Registry.Capabilities.Recording.{ToolMetadata, Observation}
use modall.Registry.Refresh.{RefreshLease}
use modall.Registry.Publication.{DiscoveryResult}
use modall.Registry.Rows.{DiscoveryFailureCode}

-- the public methods of the four services, with their arguments
pub data Call : Type 0 where
  create : WorkspaceContext → List ℕ → List ℕ → Option ℕ → List ℕ → Option ℕ → Call
  append_version : WorkspaceContext → ℕ → List ℕ → Option ℕ → List ℕ → Option ℕ → Call
  promote_pending : WorkspaceContext → ℕ → ℕ → ℕ → ℕ → Option ℕ → Call
  disable_connection enable_connection : WorkspaceContext → ℕ → Option ℕ → Call
  allocate_refresh_generation : WorkspaceContext → ℕ → Call
  complete_refresh : WorkspaceContext → ℕ → ℕ → ℕ → ℕ → Call
  record_version : WorkspaceContext → Observation → Call
  enable_capability disable_capability : WorkspaceContext → ℕ → ℕ → Option ℕ → Call
  enqueue : WorkspaceContext → ℕ → Call
  claim : WorkspaceContext → ℕ → String → ℕ → Call
  claim_durable : ℕ → String → ℕ → Call
  renew : WorkspaceContext → RefreshLease → ℕ → Call
  validate_for_contact : WorkspaceContext → RefreshLease → Call
  publish_success : WorkspaceContext → RefreshLease → DiscoveryResult → Call
  publish_failure : WorkspaceContext → RefreshLease → DiscoveryFailureCode → Call

-- one call with what the database and the checks of its arguments answer
pub record Request : Type 0 where
  pub source : Source
  pub validation : Validation
  pub validate_metadata : ToolMetadata → Bool
  pub call : Call

module _ (q : Request) where
  unfoldable pub perform : Call → Act Catalog Unit
  perform (Call.create c name url secret policy k) = do
    _ ← Connections.create q.source q.validation c name url secret policy k
    pure tt
  perform (Call.append_version c id url secret policy k) = do
    _ ← Connections.append_version q.source q.validation c id url secret policy k
    pure tt
  perform (Call.promote_pending c id v e g k) = do
    _ ← Connections.promote_pending q.source c id v e g k
    pure tt
  perform (Call.disable_connection c id k) = do _ ← Connections.disable q.source c id k; pure tt
  perform (Call.enable_connection c id k) = do _ ← Connections.enable q.source c id k; pure tt
  perform (Call.allocate_refresh_generation c id) = do
    _ ← Connections.allocate_refresh_generation c id
    pure tt
  perform (Call.complete_refresh c id v e g) = do
    _ ← Connections.complete_refresh c id v e g
    pure tt
  perform (Call.record_version c o) = do
    _ ← Recording.record_version q.source c o q.validate_metadata
    pure tt
  perform (Call.enable_capability c id v k) = do _ ← Capabilities.enable q.source c id v k; pure tt
  perform (Call.disable_capability c id v k) = do
    _ ← Capabilities.disable q.source c id v k
    pure tt
  perform (Call.enqueue c id) = do _ ← Refresh.enqueue q.source c id; pure tt
  perform (Call.claim c id worker d) = do _ ← Refresh.claim q.source c id worker d; pure tt
  perform (Call.claim_durable id worker d) = do
    _ ← Refresh.claim_durable q.source id worker d
    pure tt
  perform (Call.renew c lease d) = do _ ← Refresh.renew q.source c lease d; pure tt
  perform (Call.validate_for_contact c lease) = Refresh.validate_for_contact q.source c lease
  perform (Call.publish_success c lease result) = do
    _ ← Publication.publish_success q.source q.validate_metadata c lease result
    pure tt
  perform (Call.publish_failure c lease code) = do
    _ ← Publication.publish_failure q.source q.validate_metadata c lease code
    pure tt

-- a call that raises is rolled back; readings of the clock and identifiers are not
unfoldable pub settle : {A : Type 0} → Catalog → Result A × Catalog → Catalog
settle s (ok a, t) = t
settle s (err e, t) = record s { reads = t.reads; draws = t.draws }

-- the registry after a sequence of calls, each in a transaction of its own
unfoldable pub serve : Catalog → List Request → Catalog
unfolding settle
serve s [] = s
serve s (q ∷ rest) = serve (settle s (perform q q.call s)) rest
