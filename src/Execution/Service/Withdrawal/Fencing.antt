-- ===== src/Execution/Service/Withdrawal/Fencing.antt =====
-- The fences of execution/service.py on a run that was withdrawn.
use modall.Common.{ℕ, find, ◌≡◌, inl, true, List, some, inr, arith, ok, pure, Option-cases}
use modall.Registry.Calls
use modall.Execution.Lease
use modall.Execution.Service.{Call, perform}
use modall.Registry.Rows.{Tables}
use modall.Execution.Rows.{Run, RunRows, Job}
use modall.Registry.Store.{Catalog}
use modall.Execution.Lease.{
  is_leased_job, target_refused, connection_refused, capability_refused, fence_refused, fence_held,
}
use modall.Execution.Types.{JobLease, RunStatus, RunEventType}
use modall.Execution.Success.{ResultScreen}
use modall.Execution.World.{SystemExecutionState, held_now, Env, Held, World}
use modall.Registry.Calls.History.{serve-Advances}
use modall.Execution.Service.Refusal.{HeldRefuses, Refuses, Refuses-first}
use modall.Execution.Service.Stale.{fence_attempt-held}
use modall.Execution.Service.Withdrawal.{
  Reached, Withdraws, target_refused-Withdrawn, Stopped-Lasting,
}
use modall.Execution.Service.Withdrawal.Decisions.{perform-Stopped}

-- a fence on a withdrawn run refuses under the lock
fence_refused-target :
    (state : SystemExecutionState) (tables : Tables) (lease : JobLease) (expected : RunStatus)
    (now : ℕ) (r : RunRows) (j : Job)
    → target_refused tables r.run ≡ true
    → fence_refused state tables lease expected now r j ≡ true
unfolding fence_refused
fence_refused-target state tables lease expected now r j h = ground arith

fence_held-Withdrawn :
    (env : Env) (state : SystemExecutionState) (tables : Tables) (lease : JobLease) (h : Held)
    (expected target : RunStatus) (event_type : RunEventType)
    → target_refused tables h.rows.run ≡ true
    → HeldRefuses (fence_held env state tables lease expected target event_type) h
unfolding fence_held held_now
fence_held-Withdrawn env state tables lease h expected target event_type e =
    elim (Option-cases h.rows.job) [
      | inl none_there ↦ (ground arith, ground arith)
      | inr (j, there) ↦
          let refused =
            fence_refused-target state tables lease expected (env.clock h.reads) h.rows j e in
          (ground arith, ground arith)
    ]

refused :
    (s : Catalog) (q : Calls.Request) (later : List Calls.Request) (run : Run)
    → Reached s.tables run
    → Withdraws run q.call
    → (Calls.perform q q.call s).0 ≡ ok tt
    → target_refused (Calls.serve (Calls.perform q q.call s).1 later).tables run ≡ true
refused s q later run reached withdraws returned =
    let t = (Calls.perform q q.call s).1 in
    let stopped = (perform-Stopped run q s q.call reached withdraws).at tt returned in
    target_refused-Withdrawn run (Calls.serve t later).tables
      ((Stopped-Lasting run).lasts t (Calls.serve t later) (serve-Advances t later) stopped)

-- the fences, which release the session and the tool call of a run
pub data Fences (lease : JobLease) : Call → Type 0 where
  session : Fences lease (Call.fence_session lease)
  dispatch : Fences lease (Call.fence_dispatch lease)

-- A decision on the connection or on the capability of a run withdraws it: once a call has returned
-- that disabled or enabled its connection, appended a version to it, or enabled or disabled its
-- capability, then after any further registry calls, every fence on a run whose epochs are those of
-- the time before the decision, or earlier ones, raises and leaves the ledger as it was.
pub perform-Withdrawn :
    (s : Catalog) (q : Calls.Request) (later : List Calls.Request) (run : Run)
    (screen : ResultScreen) (env : Env) (state : SystemExecutionState) (w : World)
    (lease : JobLease) (call : Call)
    → Reached s.tables run
    → Withdraws run q.call
    → (Calls.perform q q.call s).0 ≡ ok tt
    → w.db.tables ≡ (Calls.serve (Calls.perform q q.call s).1 later).tables
    → w.db.state ≡ some state
    → ((r : RunRows) → find (is_leased_job lease) w.db.rows ≡ some r → r.run ≡ run)
    → Fences lease call
    → Refuses (perform screen env call) w
unfolding perform Lease.fence_session Lease.fence_dispatch
perform-Withdrawn s q later run screen env state w lease _ reached withdraws returned tables known
      the_run session =
    Refuses-first (Lease.fence_session env lease) (λ _. pure tt) w
      (fence_attempt-held env state w lease known _ _ _ (λ r found.
        fence_held-Withdrawn env state w.db.tables lease (record { rows = r; reads = w.reads }) _ _
          _ (rw (the_run r found, tables) (refused s q later run reached withdraws returned))))
perform-Withdrawn s q later run screen env state w lease _ reached withdraws returned tables known
      the_run dispatch =
    Refuses-first (Lease.fence_dispatch env lease) (λ _. pure tt) w
      (fence_attempt-held env state w lease known _ _ _ (λ r found.
        fence_held-Withdrawn env state w.db.tables lease (record { rows = r; reads = w.reads }) _ _
          _ (rw (the_run r found, tables) (refused s q later run reached withdraws returned))))
