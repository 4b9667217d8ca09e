-- ===== src/Registry/Calls/History.antt =====
-- The requests of Registry/Calls against the relation of Registry/Advance.
use modall.Common.{Act, List, Result, ◌>>=◌, ok, pure, err, ◌∷◌, [], refl}
use modall.Registry.Advance.Capabilities
use modall.Registry.Advance.Connections
use modall.Registry.Calls.{Call, serve, Request, settle, perform}
use modall.Registry.Store.{Catalog}
use modall.Registry.Advance.Rules.{AdvancesAt, bind-AdvancesAt, pure-AdvancesAt}
use modall.Registry.Advance.{
  Advances, Advances-refl, with_tables, Advances-trans, TablesAdvance-refl,
}
use modall.Registry.Advance.Connections.{
  create-AdvancesAt, append_version-AdvancesAt, promote_pending-AdvancesAt,
  allocate_refresh_generation-AdvancesAt, complete_refresh-AdvancesAt,
}
use modall.Registry.Advance.Capabilities.{record_version-AdvancesAt}
use modall.Registry.Advance.Discovery.{
  enqueue-AdvancesAt, claim-AdvancesAt, claim_durable-AdvancesAt, renew-AdvancesAt,
  validate_for_contact-AdvancesAt, publish_success-AdvancesAt, publish_failure-AdvancesAt,
}

module _ (q : Request) (s : Catalog) where
  done : {A : Type 0} (m : Act Catalog A) → AdvancesAt m s → AdvancesAt (m >>= λ _. pure tt) s
  done m h = bind-AdvancesAt s m (λ _. pure tt) h (λ _ t. pure-AdvancesAt t tt)

  perform-AdvancesAt : (c : Call) → AdvancesAt (perform q c) s
  unfolding perform
  perform-AdvancesAt (Call.create c name url secret policy k) =
      done _ (create-AdvancesAt q.source q.validation s c url policy secret k name)
  perform-AdvancesAt (Call.append_version c id url secret policy k) =
      done _ (append_version-AdvancesAt q.source q.validation s c url policy secret k id)
  perform-AdvancesAt (Call.promote_pending c id v e g k) =
      done _ (promote_pending-AdvancesAt q.source s c id v e g k)
  perform-AdvancesAt (Call.disable_connection c id k) =
      done _ (Connections.disable-AdvancesAt q.source s c id k)
  perform-AdvancesAt (Call.enable_connection c id k) =
      done _ (Connections.enable-AdvancesAt q.source s c id k)
  perform-AdvancesAt (Call.allocate_refresh_generation c id) =
      done _ (allocate_refresh_generation-AdvancesAt q.source s c id)
  perform-AdvancesAt (Call.complete_refresh c id v e g) =
      done _ (complete_refresh-AdvancesAt q.source s c id v e g)
  perform-AdvancesAt (Call.record_version c o) =
      done _ (record_version-AdvancesAt q.source c o q.validate_metadata s)
  perform-AdvancesAt (Call.enable_capability c id v k) =
      done _ (Capabilities.enable-AdvancesAt q.source s c id v k)
  perform-AdvancesAt (Call.disable_capability c id v k) =
      done _ (Capabilities.disable-AdvancesAt q.source s c id v k)
  perform-AdvancesAt (Call.enqueue c id) = done _ (enqueue-AdvancesAt q.source s c id)
  perform-AdvancesAt (Call.claim c id worker d) = done _ (claim-AdvancesAt q.source s c id worker d)
  perform-AdvancesAt (Call.claim_durable id worker d) =
      done _ (claim_durable-AdvancesAt q.source s id worker d)
  perform-AdvancesAt (Call.renew c lease d) = done _ (renew-AdvancesAt q.source s c lease d)
  perform-AdvancesAt (Call.validate_for_contact c lease) =
      validate_for_contact-AdvancesAt q.source s c lease
  perform-AdvancesAt (Call.publish_success c lease result) =
      done _ (publish_success-AdvancesAt q.source q.validate_metadata c lease s result)
  perform-AdvancesAt (Call.publish_failure c lease code) =
      done _ (publish_failure-AdvancesAt q.source q.validate_metadata c lease s code)

  settle-Advances : (r : Result Unit × Catalog) → Advances s r.1 → Advances s (settle s r)
  unfolding settle
  settle-Advances (ok a, t) h = h
  settle-Advances (err e, t) h = with_tables s _ (TablesAdvance-refl _) refl refl

-- Every sequence of calls, in any order and with any answers of the environment, lets the registry
-- only advance: a connection keeps its target and its enablement as long as its control epoch, a
-- capability its status and versions as long as its status epoch, both epochs never fall, a refresh
-- job that is done stays done, recorded versions, bindings, observations and status events stay, and
-- well-formed rows stay well formed.
pub serve-Advances : (s : Catalog) (qs : List Request) → Advances s (serve s qs)
unfolding serve
serve-Advances s [] = Advances-refl s
serve-Advances s (q ∷ rest) =
    Advances-trans s _ _ (settle-Advances q s _ (perform-AdvancesAt q s q.call).at)
      (serve-Advances (settle s (perform q q.call s)) rest)
