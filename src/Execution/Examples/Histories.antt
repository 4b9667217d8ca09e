-- ===== src/Execution/Examples/Histories.antt =====
-- Tests of execution/service.py on the small ledger: transactions, histories and the restore.
use modall.Execution.Restore.{
  reconcile_restore_quarantine, enter_restore_quarantine, clear_restore_quarantine, is_unreconciled,
  by_creation,
}
use modall.Common.{
  arith, false, true, some, [], ◌≡◌, ok, refl, All, ◌⊎◌, find, ◌≤◌, err, execution_error,
  invalid_transition, ◌≢◌, inr, ◌<◌, length,
}
use modall.Execution.Types.{queued, preparing}
use modall.Execution.World.{filter_rows, select_rows}
use modall.Execution.Rows.{Job, RunRows}
use modall.Execution.Ledger.Invariant.{Dispatched, dispatches}
use modall.Execution.Lease.{is_leased_job}
use modall.Execution.Projection.{replay_projection, sort_events}
use modall.Execution.Service.{perform, serve, Call}
use modall.Execution.Service.History.{
  serve-Evolves, serve-replay_projection, serve-dispatches, Steps,
}
use modall.Execution.Service.Revocation.{enter_restore_quarantine-revokes, perform-Refuses}
use modall.Execution.Service.Quarantine.{
  perform-quarantined, by_claim, clear_restore_quarantine-decides, Idle,
}
use modall.Execution.Projection.Replay.{Contiguous, last_status, replay_projection-Contiguous}
use modall.Execution.Service.Restoration.{restore-completes, reconcile_restore_quarantine_complete}
use modall.Execution.Service.Refusal.{Refuses, to_dispatch}
use modall.Execution.Examples.{
  world, env_at, unordered, quarantined, stopped, requests, lease, restored, world-Consistent,
  state, test_screen,
}

serve-Evolves_example : Steps world requests
serve-Evolves_example = serve-Evolves world requests world-Consistent

serve-dispatches_example :
    All
      (λ r. Dispatched r.run.status (dispatches r.events) × (dispatches r.events ≤ 1))
      (serve world requests).db.rows
serve-dispatches_example = serve-dispatches world requests world-Consistent

serve-replay_projection_example :
    All (λ r. replay_projection r.events ≡ ok r.run.status) (serve world requests).db.rows
serve-replay_projection_example = serve-replay_projection world requests world-Consistent

-- the run has had no lease yet, so its job has another fencing token
perform-Refuses_example :
    Refuses (perform test_screen (env_at 300) (Call.fence_dispatch lease)) world
perform-Refuses_example =
    perform-Refuses test_screen (env_at 300) state world lease (Call.fence_dispatch lease) refl
      (inr (λ r found j e. unleased r j found e)) to_dispatch
  where
    unleased :
        (r : RunRows) (j : Job)
        → find (is_leased_job lease) world.db.rows ≡ some r
        → r.job ≡ some j
        → j.lease_epoch ≢ 1
    unleased r j found e = ground arith

enter_restore_quarantine-revokes_example :
    Refuses
      (perform test_screen (env_at 300) (Call.fence_dispatch lease))
      (enter_restore_quarantine (env_at 250) world).1
enter_restore_quarantine-revokes_example =
    enter_restore_quarantine-revokes test_screen (env_at 250) (env_at 300) state world lease
      (Call.fence_dispatch lease) refl refl (omega arith) to_dispatch

perform-quarantined_example :
    Refuses
      (perform test_screen (env_at 300) (Call.claim_job "worker" 500))
      (record world { db = record world.db { state = some quarantined } })
perform-quarantined_example =
    perform-quarantined test_screen (env_at 300) quarantined
      (record world { db = record world.db { state = some quarantined } })
      (Call.claim_job "worker" 500) refl refl by_claim

clear_restore_quarantine-decides_example :
    (((quarantined.dispatch_quarantined ≡ true)
        × Idle []
        × ((clear_restore_quarantine (env_at 300) restored).0 ≡ ok 1)
        × ((clear_restore_quarantine (env_at 300) restored).1.db ≡ record world.db {
          rows = [];
          state = some (record quarantined { dispatch_quarantined = false; updated_at = 300 });
        }))
      ⊎ (((quarantined.dispatch_quarantined ≡ false) ⊎ ¬ Idle [])
          × (clear_restore_quarantine (env_at 300) restored ≡ (
            err (execution_error invalid_transition),
            record world { db = record world.db { state = some quarantined; rows = [] } },
          ))))
clear_restore_quarantine-decides_example =
    clear_restore_quarantine-decides (env_at 300) quarantined restored refl refl

unordered-replay : replay_projection unordered ≡ ok preparing
unfolding replay_projection
unordered-replay = refl

replay_projection-Contiguous_example :
    (0 < length (sort_events unordered))
    × Contiguous 1 (sort_events unordered)
    × (last_status queued (sort_events unordered) ≡ preparing)
replay_projection-Contiguous_example =
    replay_projection-Contiguous unordered preparing unordered-replay

stopped-fits : length (filter_rows (is_unreconciled (env_at 300)) stopped.db.rows) ≤ 10
unfolding filter_rows is_unreconciled
stopped-fits = omega arith

reconcile_restore_quarantine_complete_example :
    ((reconcile_restore_quarantine (env_at 300) 10 stopped).0
      ≡ ok (length (select_rows (is_unreconciled (env_at 300)) by_creation 10 stopped.db.rows)))
    × All
        (λ r. is_unreconciled (env_at 300) r ≡ false)
        (reconcile_restore_quarantine (env_at 300) 10 stopped).1.db.rows
    × ((reconcile_restore_quarantine (env_at 300) 10 stopped).1.db.state ≡ some quarantined)
reconcile_restore_quarantine_complete_example =
    reconcile_restore_quarantine_complete (env_at 300) quarantined stopped 10 refl (omega arith)
      (omega arith) refl refl world-Consistent (tt, tt) stopped-fits

restore-completes_example :
    (clear_restore_quarantine
      (env_at 400)
      (reconcile_restore_quarantine (env_at 300) 10 stopped).1).0
    ≡ ok 1
restore-completes_example =
    restore-completes (env_at 300) (env_at 400) quarantined stopped 10 refl refl (omega arith)
      (omega arith) refl refl world-Consistent (tt, tt) stopped-fits (λ id. refl)
