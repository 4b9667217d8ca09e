-- ===== src/Execution/Ledger/Advance.antt =====
-- What a call of the service may do to a run and the rows beside it: an abstract specification of
-- the ledger, as a relation between the rows before and after.
use modall.Common.{◌≤◌, ◌≡◌, true, List, ◌∷◌, arith, ap, ◌∙◌, Option, String, ◌⊎◌, none}
use modall.Execution.Types.{
  RunStatus, queued, preparing, session_fenced, dispatch_fenced, succeeded, failed, cancelled,
  timed_out, indeterminate, is_terminal,
}
use modall.Execution.Rows.{Run, RunEvent, RunRows}
use modall.Execution.Ledger.Invariant.{IsConsistent, lease_epoch_of}

pub data BeforeDispatch : RunStatus → Type 0 where
  in_queue : BeforeDispatch queued
  in_preparation : BeforeDispatch preparing
  in_session : BeforeDispatch session_fenced

pub data EndsUndispatched : RunStatus → Type 0 where
  as_failed : EndsUndispatched failed
  as_cancelled : EndsUndispatched cancelled
  as_timed_out : EndsUndispatched timed_out

pub data EndsDispatched : RunStatus → Type 0 where
  as_succeeded : EndsDispatched succeeded
  as_failed : EndsDispatched failed
  as_indeterminate : EndsDispatched indeterminate

-- the transition diagram of a run
infix 40 ◌⟶◌ ◌⟶*◌
pub data ◌⟶◌ : RunStatus → RunStatus → Type 0 where
  claim : queued ⟶ preparing
  reclaim : preparing ⟶ preparing
  restart : session_fenced ⟶ preparing
  open_session : preparing ⟶ session_fenced
  dispatch : session_fenced ⟶ dispatch_fenced
  give_up : {s t : RunStatus} → BeforeDispatch s → EndsUndispatched t → s ⟶ t
  conclude : {t : RunStatus} → EndsDispatched t → dispatch_fenced ⟶ t

pub data ◌⟶*◌ : RunStatus → RunStatus → Type 0 where
  here : {s : RunStatus} → s ⟶* s
  step : {s t u : RunStatus} → s ⟶ t → t ⟶* u → s ⟶* u

pub ⟶*-trans : {s t u : RunStatus} → s ⟶* t → t ⟶* u → s ⟶* u
⟶*-trans here q = q
⟶*-trans (step e p) q = step e (⟶*-trans p q)

-- events are only added, at the newest end
pub data Extends (old : List RunEvent) : List RunEvent → Type 0 where
  same : Extends old old
  more : {new : List RunEvent} (e : RunEvent) → Extends old new → Extends old (e ∷ new)

pub Extends-trans : {xs ys zs : List RunEvent} → Extends xs ys → Extends ys zs → Extends xs zs
Extends-trans p same = p
Extends-trans p (more e q) = more e (Extends-trans p q)

-- the same content, or none
abbrev pub Erases : Option String → Option String → Type 0
Erases a b = (b ≡ a) ⊎ (b ≡ none)

Erases-trans : (a b c : Option String) → Erases a b → Erases b c → Erases a c
Erases-trans a b c p q = ground arith

-- what a run is admitted with
pub record Pinned (a b : Run) : Type 0 where
  pub id : b.id ≡ a.id
  pub workspace_id : b.workspace_id ≡ a.workspace_id
  pub actor_user_id : b.actor_user_id ≡ a.actor_user_id
  pub capability_id : b.capability_id ≡ a.capability_id
  pub capability_version_id : b.capability_version_id ≡ a.capability_version_id
  pub connection_id : b.connection_id ≡ a.connection_id
  pub connection_version_id : b.connection_version_id ≡ a.connection_version_id
  pub connection_control_epoch : b.connection_control_epoch ≡ a.connection_control_epoch
  pub capability_status_epoch : b.capability_status_epoch ≡ a.capability_status_epoch
  pub protocol_revision : b.protocol_revision ≡ a.protocol_revision
  pub deadline : b.deadline ≡ a.deadline
  pub correlation_id : b.correlation_id ≡ a.correlation_id
  pub created_at : b.created_at ≡ a.created_at
  pub arguments_expires_at : b.arguments_expires_at ≡ a.arguments_expires_at
  -- the content may only be erased
  pub arguments : Erases a.arguments b.arguments
  pub argument_digest : Erases a.argument_digest b.argument_digest

-- the outcome of a run that has ended
pub record Settled (r r' : RunRows) : Type 0 where
  pub status : r'.run.status ≡ r.run.status
  pub safe_error_code : r'.run.safe_error_code ≡ r.run.safe_error_code
  pub terminal_at : r'.run.terminal_at ≡ r.run.terminal_at
  pub job : r'.job ≡ r.job
  pub attempts : r'.attempts ≡ r.attempts

pub record Advanced (r r' : RunRows) : Type 0 where
  pub consistent : IsConsistent r'
  pub moved : r.run.status ⟶* r'.run.status
  pub settled : is_terminal r.run.status ≡ true → Settled r r'
  pub pinned : Pinned r.run r'.run
  pub history : Extends r.events r'.events
  pub epochs : lease_epoch_of r.job ≤ lease_epoch_of r'.job

pub Pinned-refl : (a : Run) → Pinned a a
Pinned-refl a = ground arith

pub Pinned-trans : {a b c : Run} → Pinned a b → Pinned b c → Pinned a c
Pinned-trans p q = record {
  id = q.id ∙ p.id;
  workspace_id = q.workspace_id ∙ p.workspace_id;
  actor_user_id = q.actor_user_id ∙ p.actor_user_id;
  capability_id = q.capability_id ∙ p.capability_id;
  capability_version_id = q.capability_version_id ∙ p.capability_version_id;
  connection_id = q.connection_id ∙ p.connection_id;
  connection_version_id = q.connection_version_id ∙ p.connection_version_id;
  connection_control_epoch = q.connection_control_epoch ∙ p.connection_control_epoch;
  capability_status_epoch = q.capability_status_epoch ∙ p.capability_status_epoch;
  protocol_revision = q.protocol_revision ∙ p.protocol_revision;
  deadline = q.deadline ∙ p.deadline;
  correlation_id = q.correlation_id ∙ p.correlation_id;
  created_at = q.created_at ∙ p.created_at;
  arguments_expires_at = q.arguments_expires_at ∙ p.arguments_expires_at;
  arguments = Erases-trans _ _ _ p.arguments q.arguments;
  argument_digest = Erases-trans _ _ _ p.argument_digest q.argument_digest;
}

pub Settled-refl : (r : RunRows) → Settled r r
Settled-refl r = ground arith

pub Settled-trans : {r s t : RunRows} → Settled r s → Settled s t → Settled r t
Settled-trans p q = record {
  status = q.status ∙ p.status;
  safe_error_code = q.safe_error_code ∙ p.safe_error_code;
  terminal_at = q.terminal_at ∙ p.terminal_at;
  job = q.job ∙ p.job;
  attempts = q.attempts ∙ p.attempts;
}

pub Advanced-refl : (r : RunRows) → IsConsistent r → Advanced r r
Advanced-refl r h = record {
  consistent = h;
  moved = here;
  settled = λ _. Settled-refl r;
  pinned = Pinned-refl r.run;
  history = same;
  epochs = omega arith;
}

pub Advanced-trans : {r s t : RunRows} → Advanced r s → Advanced s t → Advanced r t
Advanced-trans p q = record {
  consistent = q.consistent;
  moved = ⟶*-trans p.moved q.moved;
  settled = λ e. Settled-trans (p.settled e) (q.settled (ap is_terminal (p.settled e).status ∙ e));
  pinned = Pinned-trans p.pinned q.pinned;
  history = Extends-trans p.history q.history;
  epochs = omega (arith, p.epochs, q.epochs);
}

-- A row update on consistent rows is an advance.
abbrev pub Advances : (RunRows → RunRows) → RunRows → Type 0
Advances f r = IsConsistent r → Advanced r (f r)
