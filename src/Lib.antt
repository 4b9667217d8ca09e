-- ===== src/Lib.antt =====
-- The run ledger of Modall: a workspace admits tool calls as runs, workers claim their jobs under a
-- lease, and the service decides when the one permitted call of a run may be released, and how each
-- run ends. Before that, operators connect tool servers, a discovery records what they offer, and a
-- review enables it. This library models the registry, src/modall/registry/service.py and
-- src/modall/registry/discovery.py, and the execution service, src/modall/execution/service.py, with
-- the rows of src/modall/persistence/models.py that they read and write. The two meet in the registry
-- tables: a run is pinned to the epochs of its connection and capability, and the fences compare them.
--
-- Parts, and the code that they follow:
--   * Common: Boolean tests, lists as tables, failures (`ExecutionFailureCode` of
--     src/modall/execution/types.py, `ValueError`, `PermissionError`, `AuthorizationDenied`,
--     `InvalidConnectionTransition`, `InvalidCapabilityTransition`), tables that only grow
--     (Common/Growth), and the action `Act S A` of stateful code that can raise.
--   * Identity: src/modall/identity/types.py, roles and workspace members.
--   * Audit: src/modall/audit/types.py.
--   * Registry/Rows: the registry rows that decide whether the target of a run is still current.
--   * Registry/Store: the other rows of the registry, the state `Catalog` of a call, and its queries.
--   * Registry/Connections: `ConnectionService`. Registry/Capabilities: `CapabilityService`, with
--     `record_version` in Capabilities/Recording. Registry/Refresh: `RefreshJobService` and
--     `_lock_eligible_connection`. Registry/Publication: `DiscoveryPublicationService`.
--   * Registry/Connections/Moves, Registry/Capabilities/Projects, Registry/Jobs: what may become of a
--     connection, of a capability and of a refresh job, with the check constraints of their tables.
--     Registry/Advance is the same for the registry as a whole, with a rule for each construct of a
--     call; Registry/Ensures says what holds when a call has returned.
--   * Registry/Calls: the calls as requests, and histories of them.
--   * Execution/Types, Execution/Rows: src/modall/execution/types.py and the rows of a run. `RunRows`
--     is a run with its job, attempts, events and result, newest first: the job and the result are
--     unique for a run, and all of them are deleted with it.
--   * Execution/Ledger: `_active_attempt`, `_append_event`, `_append_next_event`, `_terminalize_run`.
--     Ledger/Invariant says what is consistent: the check constraints of the tables, and what the
--     service keeps beyond them. Ledger/Advance is the abstract specification: the transition diagram of
--     a run, and what one step may do to its rows.
--   * Execution/World: the database with the clock; `_durable_now`, `_execution_state`,
--     `_require_system_authority`, `require_current_role` of src/modall/identity/repository.py, and the
--     queries with their row locks.
--   * Execution/Lease: `fence_session`, `fence_dispatch`, `heartbeat`, `complete_lease`. Lease/Permit
--     describes the lineage that a fence asks for, independently of the code's condition, and
--     Lease/Fencing compares the two.
--   * Execution/Admission: `create_run` with the idempotency records and the nonces, over the ledger
--     (`Desk`). Admission/Checks holds its checks, Admission/Meanings what they say, and Admits,
--     Replays and Settles what has been done when it returns; Admission/Acceptance is about when it
--     admits, Admission/History joins it to the histories of the ledger.
--   * Execution/Success: `complete_invocation_success`.
--   * Execution/Claim: `claim_job`, `_terminalize_expired_jobs`, `_terminalize_abandoned_dispatches`.
--   * Execution/Cancel: `cancel_run`. Execution/Restore: the restore quarantine.
--     Execution/Retention: the three retention passes. Execution/Projection: `replay_projection`.
--   * Execution/Evolution: how the ledger as a whole may change, with a rule for each construct of the
--     calls. Execution/Service: the calls as requests, each in a transaction (`transaction` of
--     src/modall/persistence/database.py), and histories of requests. Service/Withdrawal joins the
--     two services: a decision in the registry, and the fences of the runs before it.
--   * Ops/Limits: `FixedWindowRateLimiter` of src/modall/ops/limits.py, which bounds the requests of a
--     peer in a minute.
--
-- What is assumed. A transaction is atomic: SQLAlchemy's `session.begin()`, which `transaction` of
-- src/modall/persistence/database.py enters, rolls back all writes of a call that raises. The
-- service takes its row locks before it reads what it decides on, and a history is a sequence of
-- transactions in any order. A write is seen by the next read of the same transaction, so `flush`
-- does nothing. Rows that another transaction has locked are passed over by `skip_locked`:
-- `Env.locked` says which, for each request anew. A selected row is found again by its identity
-- and the condition that selected it. The clock is any function of the reading, so it may stand
-- still or go back; times are microseconds, identifiers numbers. Loops run over the rows that were
-- selected, so there is no fuel.
--
-- What comes from elsewhere is a parameter: the canonical JSON text of a payload, its SHA-256 and the
-- screening of src/modall/security/metadata.py are the record `ResultScreen`; for the admission, with
-- jsonschema, jwt and hmac, the record `Codec`. Arguments, schemas and payloads are their canonical
-- JSON text. What `_validate_name`, `_validate_configuration` and
-- `_validate_metadata` accept is a parameter of the registry calls.
--
-- What is not modelled: keys of events, attempts and audit rows that nothing reads; metrics and logs;
-- the limits of the schema validation process. `preflight`, `_validate_keyring` and a flush that
-- fails in `create_run`. A history starts from a consistent ledger. The MCP client, the HTTP
-- interface, secrets and the worker's process are not modelled.
pub mod Common
pub mod Identity
pub mod Audit
pub mod Registry
pub mod Execution
pub mod Ops
