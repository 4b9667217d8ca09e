-- ===== src/Execution/Claim/Grant.antt =====
-- execution/service.py: the writes of a granted lease against the specification of the ledger.
use modall.Common.{
  ℕ, ◌≡◌, List, some, length, false, ◌∷◌, ◌∙◌, arith, [], refl, Option-cases, none, String, true,
  inl, inr, ap, Bool-cases, sym, if◌then◌else◌,
}
use modall.Execution.Claim.{close_lost, max_attempt, is_claimable, grant, claim_rows}
use modall.Execution.Ledger.{active_attempt, append_next_event, set_attempt, append_event, is_open}
use modall.Execution.Rows.{RunRows, RunAttempt, Job}
use modall.Execution.Types.{
  RunStatus, failed, worker_lost_before_dispatch, preparing, is_terminal, is_leased, queued,
  session_fenced,
}
use modall.Execution.Ledger.Invariant.{
  Numbered, dispatches, IsConsistent, Attempted, Closed, active_attempt-open,
  max_sequence-eq-length, Dispatched, JobAgrees, job_of, HasJob, lease_epoch_of,
}
use modall.Execution.Ledger.Advance.{
  Extends, ◌⟶◌, same, claim, reclaim, Advanced, restart, more, step, here,
}
use mathlib.Core.Path.{subst}
use mathlib.Core.Bool.{false≢true}

max_attempt-Closed :
    (attempts : List RunAttempt) → Closed attempts → max_attempt attempts ≡ length attempts
unfolding max_attempt
max_attempt-Closed [] h = refl
max_attempt-Closed (a ∷ rest) h = ground (arith, max_attempt-Closed rest h.3)

-- what is ready for a new attempt
pub record Ready (r r' : RunRows) : Type 0 where
  pub same_run : r'.run ≡ r.run
  pub same_job : r'.job ≡ r.job
  pub numbered : Numbered r'.events
  pub released : dispatches r'.events ≡ dispatches r.events
  pub history : Extends r.events r'.events
  pub closed : Closed r'.attempts
  pub counted : length r'.attempts ≡ length r.attempts

Closed-of_shut :
    (s : RunStatus) (attempts : List RunAttempt)
    → Attempted s attempts
    → is_open s ≡ false
    → Closed attempts
Closed-of_shut s [] h e = tt
Closed-of_shut s (a ∷ rest) h e = (h.0 ∙ e, h.2, h.3, h.4)

lost_attempts :
    (s : RunStatus) (now : ℕ) (attempts : List RunAttempt) (a : RunAttempt)
    → Attempted s attempts
    → active_attempt attempts ≡ some a
    → let after =
        set_attempt
          (record a {
            status = failed;
            safe_error_code = some worker_lost_before_dispatch;
            terminal_at = some now;
          })
          attempts in
      Closed after × (length after ≡ length attempts)
unfolding active_attempt set_attempt
lost_attempts s now [] a h e = cc
lost_attempts s now (x ∷ rest) a h e = ground (arith, active_attempt-open s x rest h)

shut_of_none :
    (s : RunStatus) (attempts : List RunAttempt)
    → Attempted s attempts
    → active_attempt attempts ≡ none
    → is_open s ≡ false
shut_of_none s [] h e = h
shut_of_none s (a ∷ rest) h e = ground (arith, active_attempt-open s a rest h)

kept-Ready : (r : RunRows) → IsConsistent r → is_open r.run.status ≡ false → Ready r r
kept-Ready r h shut = record {
  same_run = refl;
  same_job = refl;
  numbered = h.numbered;
  released = refl;
  history = same;
  closed = Closed-of_shut r.run.status r.attempts h.attempted shut;
  counted = refl;
}

close_lost-Ready : (now : ℕ) (r : RunRows) → IsConsistent r → Ready r (close_lost now r)
unfolding close_lost append_next_event append_event
close_lost-Ready now r h = elim (Option-cases (active_attempt r.attempts)) [
  | inl e ↦ rw (e, close_lost) (kept-Ready r h (shut_of_none r.run.status r.attempts h.attempted e))
  | inr (a, e) ↦
      let lost = lost_attempts r.run.status now r.attempts a h.attempted e in
      rw (e, close_lost)
        (record {
          same_run = refl;
          same_job = refl;
          numbered = (omega (arith, max_sequence-eq-length r.events h.numbered), h.numbered);
          released = refl;
          history = more _ same;
          closed = lost.0;
          counted = lost.1;
        })
]

-- the statuses that are claimed
record ClaimFacts (s : RunStatus) : Type 0 where
  edge : s ⟶ preparing
  running : is_terminal s ≡ false
  unreleased : (n : ℕ) → Dispatched s n → n ≡ 0

is_claimable-ClaimFacts : (s : RunStatus) → is_claimable s ≡ true → ClaimFacts s
is_claimable-ClaimFacts queued h = record { edge = claim; running = refl; unreleased = λ n d. d }
is_claimable-ClaimFacts preparing h = record {
  edge = reclaim;
  running = refl;
  unreleased = λ n d. d;
}
is_claimable-ClaimFacts session_fenced h = record {
  edge = restart;
  running = refl;
  unreleased = λ n d. d;
}
is_claimable-ClaimFacts _ h = cc

module _ (worker_id : String) (lease_duration now : ℕ) (j : Job) where
  grant-Advanced :
      (r r' : RunRows)
      → IsConsistent r
      → Ready r r'
      → r.job ≡ some j
      → is_claimable r.run.status ≡ true
      → Advanced r (grant worker_id lease_duration now j r')
  unfolding grant append_next_event append_event
  grant-Advanced r r' h ready e claimable =
      let f = is_claimable-ClaimFacts r.run.status claimable in
      let agrees : JobAgrees r.run j = subst (HasJob r.run) e h.has_job in
      let count : j.lease_epoch ≡ length r'.attempts =
        ap lease_epoch_of (sym e) ∙ h.epoch ∙ sym ready.counted in
      record {
        consistent = record {
          numbered =
              (omega (arith, max_sequence-eq-length r'.events ready.numbered), ready.numbered);
          latest = refl;
          dispatched = ready.released ∙ f.unreleased (dispatches r.events) h.dispatched;
          error_code = tt;
          terminal_time = rw ready.same_run (h.terminal_time ∙ f.running);
          content = rw ready.same_run h.content;
          has_job = record {
            status_agrees = refl;
            same_run = rw ready.same_run agrees.same_run;
            same_workspace = rw ready.same_run agrees.same_workspace;
            same_deadline = rw ready.same_run agrees.same_deadline;
            owned = refl;
            expires = refl;
            within_deadline = omega arith;
            completed = agrees.completed ∙ f.running;
          };
          epoch = omega (arith, count);
          attempted = (
            refl,
            λ _. refl,
            omega (arith, max_attempt-Closed r'.attempts ready.closed),
            omega (arith, count),
            ready.closed,
          );
        };
        moved = step f.edge here;
        settled = λ over. absurd (false≢true (sym f.running ∙ over));
        pinned = rw ready.same_run (ground arith);
        history = more _ ready.history;
        epochs = omega (arith, ap lease_epoch_of e);
      }

  -- what the new attempt starts from
  pub prepared-Ready :
      (r : RunRows)
      → IsConsistent r
      → r.job ≡ some j
      → Ready r (if is_leased j.status then close_lost now r else r)
  prepared-Ready r h e =
      let agrees : JobAgrees r.run j = subst (HasJob r.run) e h.has_job in
      elim (Bool-cases (is_leased j.status)) [
        | inl leased ↦ rw leased (close_lost-Ready now r h)
        | inr free ↦ rw free (
            kept-Ready r h
              (shut_of_free r.run.status (ap is_leased (sym agrees.status_agrees) ∙ free)))
      ]
    where
      shut_of_free : (s : RunStatus) → is_leased (job_of s) ≡ false → is_open s ≡ false
      shut_of_free s p = ground arith

  pub claim_rows-Advanced :
      (r : RunRows)
      → IsConsistent r
      → r.job ≡ some j
      → is_claimable r.run.status ≡ true
      → Advanced r (claim_rows worker_id lease_duration now j r)
  unfolding claim_rows
  claim_rows-Advanced r h e claimable = grant-Advanced r _ h (prepared-Ready r h e) e claimable
