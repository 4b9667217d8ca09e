-- ===== src/Execution/Projection.antt =====
-- execution/service.py: `replay_projection`, which rebuilds a run's status from its events.
pub mod Replay
use modall.Common.{
  ℕ, ◌+◌, not, List, [], ◌∷◌, if◌then◌else◌, leb, ◌==◌, value_error, Result, ok, err,
}
use modall.Execution.Types.{RunStatus, queued}
use modall.Execution.Rows.{RunEvent}

insert_event : RunEvent → List RunEvent → List RunEvent
insert_event e [] = e ∷ []
insert_event e (x ∷ xs) =
    let later = insert_event e xs in if leb e.sequence x.sequence then e ∷ x ∷ xs else x ∷ later

-- `sorted(events, key=lambda candidate: candidate.sequence)`
unfoldable pub sort_events : List RunEvent → List RunEvent
unfolding insert_event
sort_events [] = []
sort_events (e ∷ es) = insert_event e (sort_events es)

unfoldable pub replay_from : ℕ → RunStatus → List RunEvent → Result RunStatus
replay_from expected_sequence current [] = ok current
replay_from expected_sequence current (e ∷ es) =
    let rest = replay_from (expected_sequence + 1) e.status es in
    if not (e.sequence == expected_sequence) then err value_error else rest

replay_sorted : List RunEvent → Result RunStatus
unfolding replay_from
replay_sorted [] = err value_error
replay_sorted (e ∷ es) = replay_from 1 queued (e ∷ es)

unfoldable pub replay_projection : List RunEvent → Result RunStatus
unfolding sort_events replay_sorted
replay_projection events = replay_sorted (sort_events events)
