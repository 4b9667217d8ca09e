-- ===== src/Execution/Service/Stale.antt =====
-- Calls that are made with a lease which does not count.
use modall.Execution.Lease
use modall.Execution.Success
use modall.Common.{
  ℕ, Act, ◌≢◌, ◌≡◌, ◌⊎◌, true, Option, some, arith, Option-cases, find, inl, raise, inr, refl,
  raise_if, ◌>>=◌, ◌>>◌, leb, gets, execution_error, pure, not, ExecutionFailureCode, value_error,
  invalid_transition, ◌&&◌, is_some, ◌||◌,
}
use modall.Execution.Lease.{
  lease_refused, fence_refused, heartbeat_held, fence_held, complete_held, is_leased_job,
  fence_attempt,
}
use modall.Execution.Types.{
  JobLease, RunStatus, RunEventType, RunFailureCode, succeeded, is_terminal, same_status,
}
use modall.Execution.World.{SystemExecutionState, Env, World, Held, held_now, lock, execution_state}
use modall.Execution.Rows.{RunRows, Job}
use modall.Registry.Rows.{Tables}
use modall.Execution.Service.{Call, perform}
use modall.Execution.Success.{ResultScreen}
use modall.Execution.Service.Refusal.{
  UsesLease, Refuses, HeldRefuses, Refuses-first, Refuses-after, Refuses-guard, lock-Refuses,
  execution_state-some, to_renew, to_complete, to_succeed, to_session, to_dispatch,
}

-- the epochs differ
abbrev pub Revoked : SystemExecutionState → JobLease → Type 0
Revoked state lease = state.execution_epoch ≢ lease.execution_epoch

-- the job was leased again, or its lease was ended
abbrev pub Superseded : JobLease → RunRows → Type 0
Superseded lease r = (j : Job) → r.job ≡ some j → j.lease_epoch ≢ lease.lease_epoch

pub lease_refused-stale :
    (state : SystemExecutionState) (lease : JobLease) (j : Job)
    → Revoked state lease ⊎ (j.lease_epoch ≢ lease.lease_epoch)
    → lease_refused state lease j ≡ true
unfolding lease_refused
lease_refused-stale state lease j h = ground arith

fence_refused-stale :
    (state : SystemExecutionState) (tables : Tables) (lease : JobLease) (expected : RunStatus)
    (now : ℕ) (r : RunRows) (j : Job)
    → (state.dispatch_quarantined || lease_refused state lease j) ≡ true
    → fence_refused state tables lease expected now r j ≡ true
unfolding fence_refused
fence_refused-stale state tables lease expected now r j h = ground arith

module _ (env : Env) (state : SystemExecutionState) (lease : JobLease) (h : Held) where
  fence_held-stale :
      (tables : Tables) (expected target : RunStatus) (event_type : RunEventType)
      → ((j : Job)
          → h.rows.job ≡ some j
          → (state.dispatch_quarantined || lease_refused state lease j) ≡ true)
      → HeldRefuses (fence_held env state tables lease expected target event_type) h
  unfolding fence_held held_now
  fence_held-stale tables expected target event_type stale = elim (Option-cases h.rows.job) [
    | inl e ↦ (ground arith, ground arith)
    | inr (j, e) ↦
        let refused =
          fence_refused-stale state tables lease expected (env.clock h.reads) h.rows j
            (stale j e) in
        (ground arith, ground arith)
  ]

  heartbeat_held-stale :
      (d : ℕ)
      → ((j : Job)
          → h.rows.job ≡ some j
          → (state.dispatch_quarantined || lease_refused state lease j) ≡ true)
      → HeldRefuses (heartbeat_held env state lease d) h
  unfolding heartbeat_held held_now
  heartbeat_held-stale d stale = elim (Option-cases h.rows.job) [
    | inl e ↦ (ground arith, ground arith)
    | inr (j, e) ↦ let refused = stale j e in (ground arith, ground arith)
  ]

  complete_held-stale :
      (status : RunStatus) (code : Option RunFailureCode)
      → ((j : Job) → h.rows.job ≡ some j → lease_refused state lease j ≡ true)
      → HeldRefuses (complete_held env state lease status code) h
  unfolding complete_held held_now
  complete_held-stale status code stale = elim (Option-cases h.rows.job) [
    | inl e ↦ (ground arith, ground arith)
    | inr (j, e) ↦ let refused = stale j e in (ground arith, ground arith)
  ]

module _ (env : Env) (state : SystemExecutionState) (w : World) (lease : JobLease)
    (known : w.db.state ≡ some state) where
  -- the common shape of the calls
  abbrev locked : {A : Type 0} → Act Held A → Act World A
  locked body =
      lock (is_leased_job lease) (raise (execution_error ExecutionFailureCode.lease_lost)) body

  after_state :
      {A : Type 0} (k : SystemExecutionState → Act World A)
      → Refuses (k state) w
      → Refuses (execution_state env >>= k) w
  after_state k =
      Refuses-after (execution_state env) k w state (execution_state-some env state w known)

  -- a fence refuses when its checks refuse under the lock
  pub fence_attempt-held :
      (expected target : RunStatus) (event_type : RunEventType)
      → ((r : RunRows)
          → find (is_leased_job lease) w.db.rows ≡ some r
          → HeldRefuses
              (fence_held env state w.db.tables lease expected target event_type)
              (record { rows = r; reads = w.reads }))
      → Refuses (fence_attempt env lease expected target event_type) w
  unfolding fence_attempt
  fence_attempt-held expected target event_type refuses =
      after_state
        (λ s. gets (λ w. w.db.tables) >>= λ tables.
          locked (fence_held env s tables lease expected target event_type))
        (Refuses-after (gets (λ w. w.db.tables))
          (λ tables. locked (fence_held env state tables lease expected target event_type)) w
          w.db.tables refl
          (lock-Refuses (is_leased_job lease) (execution_error ExecutionFailureCode.lease_lost)
            (fence_held env state w.db.tables lease expected target event_type) w refuses))

  module _
      (stopped : (r : RunRows)
        → find (is_leased_job lease) w.db.rows ≡ some r
        → (j : Job) → r.job ≡ some j
        → (state.dispatch_quarantined || lease_refused state lease j) ≡ true) where
    pub fence_attempt-stale :
        (expected target : RunStatus) (event_type : RunEventType)
        → Refuses (fence_attempt env lease expected target event_type) w
    fence_attempt-stale expected target event_type =
        fence_attempt-held expected target event_type (λ r found.
          fence_held-stale env state lease (record { rows = r; reads = w.reads }) w.db.tables
            expected target event_type (stopped r found))

    pub heartbeat-stale : (d : ℕ) → Refuses (Lease.heartbeat env lease d) w
    unfolding Lease.heartbeat
    heartbeat-stale d =
        Refuses-guard (leb d 0) value_error
          (execution_state env >>= λ s. locked (heartbeat_held env s lease d)) w
          (after_state (λ s. locked (heartbeat_held env s lease d))
            (lock-Refuses (is_leased_job lease) (execution_error ExecutionFailureCode.lease_lost)
              (heartbeat_held env state lease d) w
              (λ r found.
                heartbeat_held-stale env state lease (record { rows = r; reads = w.reads }) d
                  (stopped r found))))

  module _
      (stale : (r : RunRows)
        → find (is_leased_job lease) w.db.rows ≡ some r
        → (j : Job) → r.job ≡ some j
        → lease_refused state lease j ≡ true) where
    stopped :
        (r : RunRows)
        → find (is_leased_job lease) w.db.rows ≡ some r
        → (j : Job) → r.job ≡ some j
        → (state.dispatch_quarantined || lease_refused state lease j) ≡ true
    stopped r found j e = let refused = stale r found j e in ground arith

    complete_lease-stale :
        (s : RunStatus) (c : Option RunFailureCode) → Refuses (Lease.complete_lease env lease s c) w
    unfolding Lease.complete_lease
    complete_lease-stale status c =
        let rest = execution_state env >>= λ s. locked (complete_held env s lease status c) in
        Refuses-guard (not (is_terminal status)) (execution_error invalid_transition)
          (raise_if (same_status status succeeded && is_some c) (execution_error invalid_transition)
            >> rest)
          w
          (Refuses-guard (same_status status succeeded && is_some c)
            (execution_error invalid_transition) rest w
            (after_state (λ s. locked (complete_held env s lease status c))
              (lock-Refuses (is_leased_job lease) (execution_error ExecutionFailureCode.lease_lost)
                (complete_held env state lease status c) w
                (λ r found.
                  complete_held-stale env state lease (record { rows = r; reads = w.reads }) status
                    c (stale r found)))))

    pub perform-stale :
        (screen : ResultScreen) (call : Call)
        → UsesLease lease call
        → Refuses (perform screen env call) w
    unfolding perform Lease.fence_session Lease.fence_dispatch Success.complete_invocation_success
    perform-stale screen _ to_session =
        Refuses-first (Lease.fence_session env lease) (λ _. pure tt) w
          (fence_attempt-stale stopped _ _ _)
    perform-stale screen _ to_dispatch =
        Refuses-first (Lease.fence_dispatch env lease) (λ _. pure tt) w
          (fence_attempt-stale stopped _ _ _)
    perform-stale screen _ (to_renew {d}) =
        Refuses-first (Lease.heartbeat env lease d) (λ _. pure tt) w (heartbeat-stale stopped d)
    perform-stale screen _ (to_complete {s} {c}) =
        Refuses-first (Lease.complete_lease env lease s c) (λ _. pure tt) w
          (complete_lease-stale s c)
    perform-stale screen _ (to_succeed {x}) =
        Refuses-first (Success.complete_invocation_success screen env lease x) (λ _. pure tt) w
          (search (Refuses-guard, Refuses-first, complete_lease-stale))
