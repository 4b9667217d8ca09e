-- ===== src/Registry/Advance/Capabilities.antt =====
-- registry/service.py, `CapabilityService`: each call by the rules for its constructs.
use modall.Common.{ℕ, Option, Bool, find, ◌≡◌, some, none, refl}
use modall.Registry.Capabilities
use modall.Registry.Advance.Rules.{
  advancing_rules, AdvancesAt, pure-AdvancesAt, seq-AdvancesAt, put_capability-AdvancesAt,
  append_status_event-AdvancesAt, gets-AdvancesAt,
}
use modall.Registry.Store.{Source, Catalog}
use modall.Registry.Capabilities.Projects.{
  enabled_with-Projects, enabled_with-IsProjected, switched_off-Projects, switched_off-IsProjected,
  recorded-Projects, recorded-IsProjected, Projects, IsProjected, observed_again-Observed,
}
use modall.Identity.{WorkspaceContext}
use modall.Registry.Capabilities.{publish_status}
use modall.Registry.Capabilities.Recording.{
  Observation, store_version, record_known, observe, record_tool, record_version, record_first,
  record_next, ToolMetadata, the_tool, observed_again, record_matched, record_found,
}
use modall.Registry.Rows.{Capability, CapabilityVersion}

module _ (s : Catalog) (context : WorkspaceContext) where
  pub publish_status-AdvancesAt :
      (test : Capability → Bool) (c d : Capability) (version : Option ℕ)
      → find test s.tables.capabilities ≡ some c
      → Projects c d
      → (IsProjected c → IsProjected d)
      → AdvancesAt (publish_status test context d version) s
  unfolding publish_status
  publish_status-AdvancesAt test c d version found projects kept =
      seq-AdvancesAt s _ _ (put_capability-AdvancesAt s test c d found projects kept)
        (λ t. append_status_event-AdvancesAt t context d version)

pub ruleset capability_rules = (
  advancing_rules, publish_status-AdvancesAt, enabled_with-Projects, enabled_with-IsProjected,
  switched_off-Projects, switched_off-IsProjected, recorded-Projects, recorded-IsProjected,
)

module _ (source : Source) (s : Catalog) (context : WorkspaceContext) (id v : ℕ)
    (correlation : Option ℕ) where
  pub enable-AdvancesAt : AdvancesAt (Capabilities.enable source context id v correlation) s
  unfolding Capabilities.enable
  enable-AdvancesAt = search capability_rules depth 16

  pub disable-AdvancesAt : AdvancesAt (Capabilities.disable source context id v correlation) s
  unfolding Capabilities.disable
  disable-AdvancesAt = search capability_rules depth 16

module _ (source : Source) (context : WorkspaceContext) (o : Observation) where
  store_version-AdvancesAt :
      (s : Catalog) (c : Capability) (id sequence : ℕ)
      → AdvancesAt (store_version source context o c id sequence) s
  unfolding store_version
  store_version-AdvancesAt s c id sequence = search capability_rules depth 12

  record_first-AdvancesAt : (s : Catalog) → AdvancesAt (record_first source context o) s
  unfolding record_first
  record_first-AdvancesAt s = search (capability_rules, store_version-AdvancesAt) depth 12

  record_next-AdvancesAt :
      (s : Catalog) (c : Capability)
      → find (the_tool source context o) s.tables.capabilities ≡ some c
      → AdvancesAt (record_next source context o c) s
  unfolding record_next
  record_next-AdvancesAt s c found = search (capability_rules, store_version-AdvancesAt) depth 12

  observe-AdvancesAt :
      (s : Catalog) (c : Capability) (v : ℕ)
      → find (the_tool source context o) s.tables.capabilities ≡ some c
      → AdvancesAt (observe source context o c (observed_again c v) v) s
  unfolding observe
  observe-AdvancesAt s c v found = go (observed_again c v) refl
    where
      go :
          (d : Option Capability)
          → observed_again c v ≡ d
          → AdvancesAt (observe source context o c d v) s
      go none e = pure-AdvancesAt s tt
      go (some d) e =
          let (p, q) = observed_again-Observed c d v e in
          publish_status-AdvancesAt s context _ c d (some v) found p (λ _. q)

  matched-AdvancesAt :
      (s : Catalog) (c : Capability) (m : Option CapabilityVersion)
      → find (the_tool source context o) s.tables.capabilities ≡ some c
      → AdvancesAt (record_matched source context o c m) s
  unfolding record_matched
  matched-AdvancesAt s c none found = record_next-AdvancesAt s c found
  matched-AdvancesAt s c (some v) found =
      seq-AdvancesAt s _ _ (observe-AdvancesAt s c v.id found) (λ t. pure-AdvancesAt t v)

  known-AdvancesAt :
      (s : Catalog) (c : Capability)
      → find (the_tool source context o) s.tables.capabilities ≡ some c
      → AdvancesAt (record_known source context o c) s
  unfolding record_known
  known-AdvancesAt s c found = search (gets-AdvancesAt, matched-AdvancesAt)

  found-AdvancesAt :
      (s : Catalog) (m : Option Capability)
      → find (the_tool source context o) s.tables.capabilities ≡ m
      → AdvancesAt (record_found source context o m) s
  unfolding record_found
  found-AdvancesAt s none e = record_first-AdvancesAt s
  found-AdvancesAt s (some c) e = known-AdvancesAt s c e

  tool-AdvancesAt : (s : Catalog) → AdvancesAt (record_tool source context o) s
  unfolding record_tool
  tool-AdvancesAt s = let h = found-AdvancesAt s _ refl in search (gets-AdvancesAt, h)

  pub record_version-AdvancesAt :
      (validate_metadata : ToolMetadata → Bool) (s : Catalog)
      → AdvancesAt (record_version source context o validate_metadata) s
  unfolding record_version
  record_version-AdvancesAt validate_metadata s = search (advancing_rules, tool-AdvancesAt) depth 12
