-- ===== src/Registry/Capabilities/Recording.antt =====
-- registry/service.py: `CapabilityService.record_version` and `_matching_current_version`.
use modall.Audit.{AuditAction, ResourceType}
use modall.Common.{
  ℕ, String, Option, List, some, ◌∷◌, find, ◌++◌, [], Bool, holds_id, ◌+◌, Act, if◌then◌else◌,
  str_eq, ◌==◌, ◌||◌, ltb, ◌&&◌, not, is_some, any, pure, ◌>>=◌, ◌>>◌, none, gets, true, raise_if,
  false, value_error, invalid_connection_transition, filter,
}
use modall.Registry.Rows.{
  Tables, ServerConnection, CapabilityVersion, CapabilityStatus, Capability, McpToolBinding,
}
use modall.Registry.Store.{
  Source, Catalog, fresh_id, require_workspace_role, add_version, add_capability,
  append_status_event, put_capability, audit, locked_connection,
}
use modall.Identity.{WorkspaceContext, can_operate}
use modall.Registry.Connections.{is_disabled, current_target, not_allocated}
use modall.Registry.Capabilities.{publish_status, is_unavailable}

pub record ToolMetadata : Type 0 where
  pub tool_identity : String
  pub tool_name : String
  pub display_name : String
  pub description : Option String
  pub input_schema : String
  pub output_schema : Option String
  pub metadata_digest : String
  pub protocol_revision : String
  pub schema_supported : Bool

same_text : Option String → Option String → Bool
same_text none none = true
same_text (some a) (some b) = str_eq a b
same_text _ _ = false

-- the joined query: the versions of the capability with this digest, whose binding is of this
-- connection version, tool name and revision; a version has one binding, which it is the key of
recorded_versions : Tables → Capability → ℕ → ToolMetadata → List CapabilityVersion
recorded_versions t c connection_version tool = filter matching t.versions
  where
    bound : ℕ → McpToolBinding → Bool
    bound id b =
        b.capability_version_id == id
        && b.connection_version_id == connection_version
        && str_eq b.tool_name tool.tool_name
        && str_eq b.protocol_revision tool.protocol_revision

    matching : CapabilityVersion → Bool
    matching v =
        v.capability_id == c.id
        && v.workspace_id == c.workspace_id
        && str_eq v.metadata_digest tool.metadata_digest
        && any (bound v.id) t.bindings

-- `sorted(..., key=sequence, reverse=True)`
insert_newest : CapabilityVersion → List CapabilityVersion → List CapabilityVersion
insert_newest v [] = v ∷ []
insert_newest v (w ∷ rest) =
    let later = insert_newest v rest in
    if ltb v.sequence w.sequence then w ∷ later else v ∷ w ∷ rest

unfoldable pub newest_first : List CapabilityVersion → List CapabilityVersion
unfolding insert_newest
newest_first [] = []
newest_first (v ∷ rest) = insert_newest v (newest_first rest)

by_id : List CapabilityVersion → Option ℕ → List CapabilityVersion
by_id found none = []
by_id found (some id) = elim (find (λ v. v.id == id) found) [ none ↦ [] | some v ↦ v ∷ [] ]

-- the enabled version, the pending one, and the others from the newest on
candidates : Capability → List CapabilityVersion → List CapabilityVersion
unfolding by_id
candidates c found =
    by_id found c.enabled_version_id
    ++ by_id found c.pending_version_id
    ++ newest_first (
        filter (λ v. not (holds_id c.enabled_version_id v.id || holds_id c.pending_version_id v.id))
          found)

same_content : ToolMetadata → CapabilityVersion → Bool
unfolding same_text
same_content tool v =
    str_eq v.display_name tool.display_name
    && same_text v.description tool.description
    && str_eq v.input_schema tool.input_schema
    && same_text v.output_schema tool.output_schema
    && str_eq v.metadata_digest tool.metadata_digest
    && (if v.schema_supported then tool.schema_supported else not tool.schema_supported)

unfoldable pub matching_current_version :
    Tables → Capability → ℕ → ToolMetadata → Option CapabilityVersion
unfolding recorded_versions candidates same_content
matching_current_version t c connection_version tool =
    find (same_content tool) (candidates c (recorded_versions t c connection_version tool))

-- `status = value unless the capability is disabled`
unfoldable pub unless_disabled : CapabilityStatus → CapabilityStatus → CapabilityStatus
unless_disabled CapabilityStatus.disabled s = CapabilityStatus.disabled
unless_disabled _ s = s

-- what a recorded version that is observed again changes
unfoldable pub observed_again : Capability → ℕ → Option Capability
unfolding unless_disabled
observed_again c existing =
    let enabled = holds_id c.enabled_version_id existing in
    let pending = holds_id c.pending_version_id existing in
    if enabled && is_some c.pending_version_id
    then some (record c {
      pending_version_id = none;
      status = unless_disabled c.status CapabilityStatus.enabled;
      status_epoch = c.status_epoch + 1;
    })
    else if enabled && is_unavailable c.status
    then some (record c { status = CapabilityStatus.enabled; status_epoch = c.status_epoch + 1 })
    else if is_unavailable c.status && pending
    then some
        (record c { status = CapabilityStatus.pending_review; status_epoch = c.status_epoch + 1 })
    else if not enabled && not pending
    then some (record c {
      pending_version_id = some existing;
      status = unless_disabled c.status CapabilityStatus.pending_review;
      status_epoch = c.status_epoch + 1;
    })
    else none

unfoldable pub recorded : ℕ → Capability → Capability
unfolding unless_disabled
recorded version c = record c {
  pending_version_id = some version;
  status = unless_disabled c.status CapabilityStatus.pending_review;
  status_epoch = c.status_epoch + 1;
}

unfoldable pub record_refused : ServerConnection → ℕ → ℕ → ℕ → Bool
record_refused c version epoch generation =
    is_disabled c.lifecycle
    || not (holds_id (current_target c) version)
    || not_allocated c version epoch generation

-- `func.max(CapabilityVersion.sequence)`, 0 where there is none
unfoldable pub max_capability_sequence : ℕ → List CapabilityVersion → ℕ
max_capability_sequence capability [] = 0
max_capability_sequence capability (v ∷ rest) =
    let later = max_capability_sequence capability rest in
    if v.capability_id == capability && ltb later v.sequence then v.sequence else later

abbrev pub is_tool : ℕ → ℕ → String → Capability → Bool
is_tool workspace connection identity c =
    c.workspace_id == workspace && c.connection_id == connection && str_eq c.tool_identity identity

-- the connection version that a tool was observed at, under its allocation
pub record Observation : Type 0 where
  pub connection_id : ℕ
  pub connection_version_id : ℕ
  pub control_epoch : ℕ
  pub generation : ℕ
  pub tool : ToolMetadata
  pub correlation : Option ℕ

module _ (source : Source) (context : WorkspaceContext) (o : Observation) where
  new_version : ℕ → ℕ → ℕ → CapabilityVersion
  new_version capability id sequence = record {
    id = id;
    workspace_id = context.workspace_id;
    capability_id = capability;
    sequence = sequence;
    display_name = o.tool.display_name;
    description = o.tool.description;
    input_schema = o.tool.input_schema;
    output_schema = o.tool.output_schema;
    metadata_digest = o.tool.metadata_digest;
    schema_supported = o.tool.schema_supported;
  }

  new_binding : ℕ → ℕ → McpToolBinding
  new_binding capability id = record {
    capability_version_id = id;
    capability_id = capability;
    workspace_id = context.workspace_id;
    connection_id = o.connection_id;
    connection_version_id = o.connection_version_id;
    tool_name = o.tool.tool_name;
    protocol_revision = o.tool.protocol_revision;
  }

  -- version, binding, status event and audit event of the changed capability
  unfoldable pub store_version : Capability → ℕ → ℕ → Act Catalog CapabilityVersion
  unfolding new_version new_binding
  store_version c id sequence = do
    add_version (new_version c.id id sequence) (new_binding c.id id)
    append_status_event context c (some id)
    audit source context AuditAction.capability_version_recorded ResourceType.capability c.id
        o.correlation
    pure (new_version c.id id sequence)

  unfoldable pub record_first : Act Catalog CapabilityVersion
  record_first = do
    capability_id ← fresh_id source
    version_id ← fresh_id source
    let c : Capability = recorded version_id (record {
      id = capability_id;
      workspace_id = context.workspace_id;
      connection_id = o.connection_id;
      tool_identity = o.tool.tool_identity;
      pending_version_id = none;
      enabled_version_id = none;
      status = CapabilityStatus.pending_review;
      status_epoch = 0;
    })
    add_capability c
    store_version c version_id 1

  abbrev pub the_tool : Capability → Bool
  the_tool = is_tool context.workspace_id o.connection_id o.tool.tool_identity

  unfoldable pub record_next : Capability → Act Catalog CapabilityVersion
  record_next c = do
    sequence ← gets (λ s. max_capability_sequence c.id s.tables.versions)
    version_id ← fresh_id source
    put_capability the_tool (recorded version_id c)
    store_version (recorded version_id c) version_id (sequence + 1)

  unfoldable pub observe : Capability → Option Capability → ℕ → Act Catalog Unit
  observe c none existing = pure tt
  observe c (some changed) existing = publish_status the_tool context changed (some existing)

  unfoldable pub record_matched :
      Capability → Option CapabilityVersion → Act Catalog CapabilityVersion
  record_matched c none = record_next c
  record_matched c (some v) = observe c (observed_again c v.id) v.id >> pure v

  unfoldable pub record_known : Capability → Act Catalog CapabilityVersion
  record_known c = do
    found ← gets (λ s. matching_current_version s.tables c o.connection_version_id o.tool)
    record_matched c found

  unfoldable pub record_found : Option Capability → Act Catalog CapabilityVersion
  record_found none = record_first
  record_found (some c) = record_known c

  unfoldable pub record_tool : Act Catalog CapabilityVersion
  record_tool = do
    capability ← gets (λ s. find the_tool s.tables.capabilities)
    record_found capability

  -- `validate_metadata` is `_validate_metadata`, whether it raises no `ValueError`
  unfoldable pub record_version : (ToolMetadata → Bool) → Act Catalog CapabilityVersion
  record_version validate_metadata = do
    require_workspace_role context can_operate
    raise_if (not (validate_metadata o.tool)) value_error
    c ← locked_connection context o.connection_id
    raise_if (record_refused c o.connection_version_id o.control_epoch o.generation)
        invalid_connection_transition
    record_tool
