-- ===== src/Execution/Retention.antt =====
-- execution/service.py: `expire_retained_content`, `delete_expired_run_metadata` and
-- `expire_retained_results`.
pub mod Preserves
use modall.Common.{
  ℕ, ◌-◌, Bool, false, not, Option, none, some, length, if◌then◌else◌, ltb, leb, ◌==◌, is_some,
  is_due, ◌&&◌, ◌||◌, any, delete_where, value_error, Act, pure, raise_if, gets, modify, ◌>>=◌,
  ◌>>◌, ◌+◌,
}
use modall.Execution.Types.{RunEventType, is_terminal, content_retention_deadline, days}
use modall.Execution.Rows.{RunResult, RunRows}
use modall.Execution.Ledger.{append_next_event, terminalize_run}
use modall.Execution.World.{World, Held, Env, durable_now, select_rows, for_each, selected}
use modall.Execution.Lease.{on_rows, deadline_status}

by_argument_expiry : RunRows → ℕ × ℕ
by_argument_expiry r = (r.run.arguments_expires_at, r.run.id)

by_terminal_time : RunRows → ℕ × ℕ
by_terminal_time r = elim r.run.terminal_at [ none ↦ (0, r.run.id) | some t ↦ (t, r.run.id) ]

by_result_expiry : RunRows → ℕ × ℕ
by_result_expiry r = elim r.result [ none ↦ (0, r.run.id) | some x ↦ (x.expires_at, r.run.id) ]

-- `batch_size <= 0 or batch_size > 1000`
abbrev pub bad_batch : ℕ → Bool
bad_batch n = leb n 0 || ltb 1000 n

-- what the loop of `expire_retained_content` does first
end_content : ℕ → RunRows → Act RunRows Unit
end_content now r =
    if is_terminal r.run.status
    then modify
        (append_next_event RunEventType.content_expired r.run.status r.run.safe_error_code now)
    else terminalize_run (deadline_status r.run.status) now content_retention_deadline
        RunEventType.content_expired

-- `run.arguments = None`
drop_content : ℕ → RunRows → RunRows
drop_content now r = record r {
  run = record r.run { arguments = none; argument_digest = none; updated_at = now };
}

unfoldable pub content_held : ℕ → Act Held Unit
unfolding end_content drop_content
content_held now = do
  r ← gets (λ h. h.rows)
  on_rows (end_content now r)
  modify (λ h. record h { rows = drop_content now h.rows })

result_due : ℕ → Option RunResult → Bool
result_due now none = false
result_due now (some x) = leb x.expires_at now

unfoldable pub drop_result : Act Held Unit
drop_result = modify (λ h. record h { rows = record h.rows { result = none } })

module _ (env : Env) where
  unfoldable pub content_due : ℕ → RunRows → Bool
  content_due now r =
      is_some r.run.arguments && leb r.run.arguments_expires_at now && not (env.locked r.run.id)

  unfoldable pub expire_retained_content : ℕ → Act World ℕ
  unfolding by_argument_expiry
  expire_retained_content batch_size = do
    raise_if (bad_batch batch_size) value_error
    now ← durable_now env
    picked ← gets (λ w. select_rows (content_due now) by_argument_expiry batch_size w.db.rows)
    for_each (content_due now) picked (content_held now)
    pure (length picked)

  -- `terminal_at <= now - retention`
  unfoldable pub retired : ℕ → Option ℕ → Bool
  retired now none = false
  retired now (some t) = leb (t + days env.limits.run_retention_days) now

  unfoldable pub metadata_due : ℕ → RunRows → Bool
  unfolding retired
  metadata_due now r = retired now r.run.terminal_at && not (env.locked r.run.id)

  -- `delete(Run).where(Run.id.in_(run_ids))`, with the rows that are deleted with a run
  unfoldable pub delete_expired_run_metadata : ℕ → Act World ℕ
  unfolding by_terminal_time
  delete_expired_run_metadata batch_size = do
    raise_if (bad_batch batch_size) value_error
    now ← durable_now env
    picked ← gets (λ w. select_rows (metadata_due now) by_terminal_time batch_size w.db.rows)
    modify (λ w. record w {
      db = record w.db {
        rows = delete_where (λ r. any (λ p. selected (metadata_due now) p r) picked) w.db.rows;
      };
    })
    pure (length picked)

  unfoldable pub results_due : ℕ → RunRows → Bool
  unfolding result_due
  results_due now r = result_due now r.result && not (env.locked r.run.id)

  -- `delete(RunResult).where(RunResult.run_id.in_(result_ids))`
  unfoldable pub expire_retained_results : ℕ → Act World ℕ
  unfolding by_result_expiry
  expire_retained_results batch_size = do
    raise_if (bad_batch batch_size) value_error
    now ← durable_now env
    picked ← gets (λ w. select_rows (results_due now) by_result_expiry batch_size w.db.rows)
    for_each (results_due now) picked drop_result
    pure (length picked)
