-- ===== src/Execution/Lease/Permit.antt =====
-- When a fence is granted: an independent description of the lineage that `_fence_attempt` checks.
use modall.Common.{
  ℕ, Option, ◌≡◌, String, some, ◌<◌, false, holds_text, true, none, ◌↔◌, arith, is_some, str_eq, ap,
  eq_iff, is_none, is_due, refl,
}
use modall.Execution.Lease.{
  target_refused, membership_refused, capability_refused, connection_refused, attempt_refused,
}
use modall.Execution.World.{SystemExecutionState}
use modall.Execution.Types.{JobLease, RunStatus, JobStatus, same_status}
use modall.Registry.Rows.{
  Tables, Capability, ServerConnection, qualified_protocol_revision, CapabilityStatus,
  ConnectionLifecycle, find_membership, find_capability, find_connection, find_observed,
  find_run_binding,
}
use modall.Execution.Rows.{Run, RunRows, RunAttempt, Job}
use modall.Identity.{WorkspaceMembership, can_operate}
use modall.Execution.Ledger.{active_attempt}
use modall.Execution.Lease.Fences.{same_status-eq}

-- an actor who may still operate
abbrev pub Operates : Option WorkspaceMembership → Type 0
Operates none = ⊥
Operates (some m) = can_operate m.role ≡ true

-- the capability is enabled in the version that the run was admitted with
abbrev pub Offers : Run → Option Capability → Type 0
Offers run none = ⊥
Offers run (some c) =
    (c.status ≡ CapabilityStatus.enabled)
    × (c.enabled_version_id ≡ some run.capability_version_id)
    × (c.pending_version_id ≡ none)
    × (c.status_epoch ≡ run.capability_status_epoch)

-- the connection is active in the version that the run was admitted with
abbrev pub Connects : Run → Option ServerConnection → Type 0
Connects run none = ⊥
Connects run (some c) =
    (c.lifecycle ≡ ConnectionLifecycle.active)
    × (c.pending_version_id ≡ none)
    × (c.verified_version_id ≡ some run.connection_version_id)
    × (c.control_epoch ≡ run.connection_control_epoch)

pub record Target (t : Tables) (run : Run) : Type 0 where
  pub revision : run.protocol_revision ≡ qualified_protocol_revision
  pub actor : Operates (find_membership t run.workspace_id run.actor_user_id)
  pub capability : Offers run (find_capability t run.workspace_id run.capability_id)
  pub connection : Connects run (find_connection t run.workspace_id run.connection_id)
  pub observed :
      is_some (
        find_observed t run.workspace_id run.connection_id run.connection_version_id
          run.capability_version_id
          (find_connection t run.workspace_id run.connection_id))
      ≡ true
  pub binding :
      is_some (
        find_run_binding t run.workspace_id run.capability_id run.capability_version_id
          run.connection_id run.connection_version_id run.protocol_revision)
      ≡ true

-- a lease that has not run out
abbrev pub Unlapsed : Option ℕ → ℕ → Type 0
Unlapsed none now = ⊥
Unlapsed (some t) now = now < t

-- the open attempt is the one that the lease started
abbrev pub Attempts : JobLease → RunStatus → Option RunAttempt → Type 0
Attempts lease expected none = ⊥
Attempts lease expected (some a) = (a.lease_epoch ≡ lease.lease_epoch) × (a.status ≡ expected)

-- what the database must say for a worker to pass a fence
pub record Permit (state : SystemExecutionState) (tables : Tables) (lease : JobLease)
    (expected : RunStatus) (now : ℕ) (r : RunRows) (job : Job) : Type 0 where
  pub not_quarantined : state.dispatch_quarantined ≡ false
  pub current_epoch : state.execution_epoch ≡ lease.execution_epoch
  pub job_epoch : job.execution_epoch ≡ lease.execution_epoch
  pub leased : job.status ≡ JobStatus.leased
  pub owner : job.lease_owner ≡ some lease.worker_id
  pub fencing_token : job.lease_epoch ≡ lease.lease_epoch
  pub unlapsed : Unlapsed job.lease_expires_at now
  pub before_deadline : now < job.deadline
  pub not_cancelled : r.run.cancellation_requested ≡ false
  pub status : r.run.status ≡ expected
  pub target : Target tables r.run
  pub attempt : Attempts lease expected (active_attempt r.attempts)

Operates-iff : (m : Option WorkspaceMembership) → (membership_refused m ≡ false) ↔ Operates m
unfolding membership_refused
Operates-iff none = ground arith
Operates-iff (some m) = ground arith

Offers-iff : (run : Run) (c : Option Capability) → (capability_refused run c ≡ false) ↔ Offers run c
unfolding capability_refused
Offers-iff run none = ground arith
Offers-iff run (some c) = ground arith

Connects-iff :
    (run : Run) (c : Option ServerConnection) → (connection_refused run c ≡ false) ↔ Connects run c
unfolding connection_refused
Connects-iff run none = ground arith
Connects-iff run (some c) = ground arith

connection_refused-marked :
    (run : Run) (s : RunStatus) (now : ℕ) (c : Option ServerConnection)
    → connection_refused (record run { status = s; updated_at = now }) c ≡ connection_refused run c
connection_refused-marked run s now c = unfold connection_refused in ground arith

capability_refused-marked :
    (run : Run) (s : RunStatus) (now : ℕ) (c : Option Capability)
    → capability_refused (record run { status = s; updated_at = now }) c ≡ capability_refused run c
capability_refused-marked run s now c = unfold capability_refused in ground arith

-- a new status changes nothing about the target
pub target_refused-marked :
    (t : Tables) (run : Run) (s : RunStatus) (now : ℕ)
    → target_refused t (record run { status = s; updated_at = now }) ≡ target_refused t run
target_refused-marked t run s now =
    unfold target_refused in
    rw
      (
        connection_refused-marked run s now (find_connection t run.workspace_id run.connection_id),
        capability_refused-marked run s now (find_capability t run.workspace_id run.capability_id),
      )
      refl

pub Target-iff : (t : Tables) (run : Run) → (target_refused t run ≡ false) ↔ Target t run
unfolding target_refused
Target-iff t run =
    let m = Operates-iff (find_membership t run.workspace_id run.actor_user_id) in
    let c = Offers-iff run (find_capability t run.workspace_id run.capability_id) in
    let k = Connects-iff run (find_connection t run.workspace_id run.connection_id) in
    let v = eq_iff run.protocol_revision qualified_protocol_revision in
    (
      λ e. record {
        revision = v.0 (ground arith);
        actor = m.0 (ground arith);
        capability = c.0 (ground arith);
        connection = k.0 (ground arith);
        observed = ground arith;
        binding = ground arith;
      },
      λ h.
          granted (v.1 h.revision) (m.1 h.actor) (c.1 h.capability) (k.1 h.connection) h.observed
            h.binding,
    )
  where
    granted :
        str_eq run.protocol_revision qualified_protocol_revision ≡ true
        → membership_refused (find_membership t run.workspace_id run.actor_user_id) ≡ false
        → capability_refused run (find_capability t run.workspace_id run.capability_id) ≡ false
        → connection_refused run (find_connection t run.workspace_id run.connection_id) ≡ false
        → is_some (
            find_observed t run.workspace_id run.connection_id run.connection_version_id
              run.capability_version_id
              (find_connection t run.workspace_id run.connection_id))
          ≡ true
        → is_some (
            find_run_binding t run.workspace_id run.capability_id run.capability_version_id
              run.connection_id run.connection_version_id run.protocol_revision)
          ≡ true
        → target_refused t run ≡ false
    granted a b c d e f = ground arith

pub holds_text_iff : (a : Option String) (b : String) → (holds_text a b ≡ true) ↔ (a ≡ some b)
holds_text_iff none b = ground arith
holds_text_iff (some a) b = (λ e. ap some ((eq_iff a b).0 e), λ e. (eq_iff a b).1 cc)

pub Attempts-iff :
    (lease : JobLease) (expected : RunStatus) (a : Option RunAttempt)
    → (attempt_refused lease expected a ≡ false) ↔ Attempts lease expected a
unfolding attempt_refused
Attempts-iff lease expected none = ground arith
Attempts-iff lease expected (some a) = (
  λ e. (ground arith, same_status-eq a.status expected (ground arith)),
  λ h. attempted h.0 (same_status-refl a.status expected h.1),
)
  where
    same_status-refl : (a b : RunStatus) → a ≡ b → same_status a b ≡ true
    same_status-refl a b e = ground arith

    attempted :
        a.lease_epoch ≡ lease.lease_epoch
        → same_status a.status expected ≡ true
        → attempt_refused lease expected (some a) ≡ false
    attempted p q = ground arith

pub Unlapsed-iff :
    (o : Option ℕ) (now : ℕ) → (is_none o ≡ false) × (is_due o now ≡ false) ↔ Unlapsed o now
Unlapsed-iff none now = ground arith
Unlapsed-iff (some t) now = ground arith
