-- ===== src/Execution/World.antt =====
-- What a call of the execution service works on: the database with the clock and the generator of
-- identifiers, and, inside a row lock, the rows of one run with the same clock.
pub mod Selection
pub mod Order
pub mod Passes
use modall.Common.{
  ℕ, ◌+◌, Bool, true, false, Option, none, some, List, [], ◌∷◌, if◌then◌else◌, ltb, leb, ◌==◌, ◌&&◌,
  ◌||◌, find, update_first, take, authorization_denied, permission_error, Result, ok, Act, pure,
  raise_if, gets, modify, ◌>>=◌, ◌>>◌,
}
use modall.Audit.{AuditEvent}
use modall.Identity.{Role, WorkspaceContext, WorkspaceMembership}
use modall.Registry.Rows.{Tables, has_workspace, find_membership}
use modall.Execution.Types.{ExecutionLimits}
use modall.Execution.Rows.{RunRows}

pub record SystemExecutionState : Type 0 where
  pub execution_epoch : ℕ
  pub dispatch_quarantined : Bool
  pub updated_at : ℕ

pub record Db : Type 0 where
  pub state : Option SystemExecutionState
  pub rows : List RunRows
  pub audits : List AuditEvent
  pub tables : Tables

pub record World : Type 0 where
  pub db : Db
  -- readings of the clock so far, and identifiers drawn so far
  pub reads : ℕ
  pub draws : ℕ

pub record Held : Type 0 where
  pub rows : RunRows
  pub reads : ℕ

-- the environment of a service object
pub record Env : Type 0 where
  -- what the n-th reading of the database clock returns, in microseconds
  pub clock : ℕ → ℕ
  -- what the n-th call of `uuid4` returns
  pub uuid : ℕ → ℕ
  -- the runs whose rows other transactions hold, which `skip_locked` passes over
  pub locked : ℕ → Bool
  pub limits : ExecutionLimits
  -- whether the service was given a `SystemExecutionAuthority`
  pub system_authority : Bool

module _ (env : Env) where
  -- `_durable_now`
  unfoldable pub durable_now : Act World ℕ
  durable_now w = (ok (env.clock w.reads), record w { reads = w.reads + 1 })

  unfoldable pub held_now : Act Held ℕ
  held_now h = (ok (env.clock h.reads), record h { reads = h.reads + 1 })

  unfoldable pub uuid4 : Act World ℕ
  uuid4 w = (ok (env.uuid w.draws), record w { draws = w.draws + 1 })

  unfoldable pub insert_state : Option SystemExecutionState → Act World SystemExecutionState
  unfolding durable_now
  insert_state (some s) = pure s
  insert_state none = do
    now ← durable_now
    let s : SystemExecutionState = record {
      execution_epoch = 1;
      dispatch_quarantined = false;
      updated_at = now;
    }
    modify (λ w. record w { db = record w.db { state = some s } })
    pure s

  -- `_execution_state`: the single row, inserted when it is missing
  unfoldable pub execution_state : Act World SystemExecutionState
  unfolding insert_state
  execution_state = do found ← gets (λ w. w.db.state); insert_state found

  -- `_require_system_authority`
  unfoldable pub require_system_authority : Act World Unit
  require_system_authority =
      raise_if (if env.system_authority then false else true) permission_error

unfoldable pub put_state : SystemExecutionState → Act World Unit
put_state s = modify (λ w. record w { db = record w.db { state = some s } })

unfoldable pub add_audit : AuditEvent → Act World Unit
add_audit e = modify (λ w. record w { db = record w.db { audits = e ∷ w.db.audits } })

require_workspace : Bool → ℕ → Act World Unit
require_workspace true id w =
    raise_if (if has_workspace w.db.tables id then false else true) authorization_denied w
require_workspace false id w = (ok tt, w)

membership_allows : (Role → Bool) → Option WorkspaceMembership → Bool
membership_allows allowed none = false
membership_allows allowed (some m) = allowed m.role

-- `require_current_role` of identity/repository.py; the roles are given by a test
unfoldable pub require_current_role : WorkspaceContext → (Role → Bool) → Bool → Act World Unit
unfolding require_workspace membership_allows
require_current_role context allowed serialize_workspace = do
  raise_if (if allowed context.role then false else true) authorization_denied
  require_workspace serialize_workspace context.workspace_id
  membership ← gets (λ w. find_membership w.db.tables context.workspace_id context.actor_user_id)
  raise_if (if membership_allows allowed membership then false else true) authorization_denied

-- `with_for_update` on one run: the rows of the first run that the test accepts, `missing` if there
-- is none; the call works on the rows alone, and they are written back where they stood
unfoldable pub put_back :
    (RunRows → Bool) → World → {A : Type 0} → Result A × Held → Result A × World
put_back test w (r, h) = (
  r,
  record w {
    db = record w.db { rows = update_first test (λ _. h.rows) w.db.rows };
    reads = h.reads;
  },
)

unfoldable pub lock : {A : Type 0} → (RunRows → Bool) → Act World A → Act Held A → Act World A
unfolding put_back
lock test missing body w = elim (find test w.db.rows) [
  | none ↦ missing w
  | some r ↦ put_back test w (body (record { rows = r; reads = w.reads }))
]

-- `order_by(key, id)`
unfoldable pub before : ℕ × ℕ → ℕ × ℕ → Bool
before (k, i) (l, j) = ltb k l || (k == l && leb i j)

unfoldable pub insert_by : (RunRows → ℕ × ℕ) → RunRows → List RunRows → List RunRows
unfolding before
insert_by key r [] = r ∷ []
insert_by key r (s ∷ rest) =
    let later = insert_by key r rest in if before (key r) (key s) then r ∷ s ∷ rest else s ∷ later

unfoldable pub sort_by : (RunRows → ℕ × ℕ) → List RunRows → List RunRows
unfolding insert_by
sort_by key [] = []
sort_by key (r ∷ rest) = insert_by key r (sort_by key rest)

-- `where(test)`
unfoldable pub filter_rows : (RunRows → Bool) → List RunRows → List RunRows
filter_rows test [] = []
filter_rows test (r ∷ rest) =
    let later = filter_rows test rest in if test r then r ∷ later else later

-- `select(...).where(test).order_by(key, id).limit(n)`
unfoldable pub select_rows : (RunRows → Bool) → (RunRows → ℕ × ℕ) → ℕ → List RunRows → List RunRows
unfolding sort_by filter_rows
select_rows test key n rows = take n (sort_by key (filter_rows test rows))

-- the selected row, once more by its identity
abbrev pub selected : (RunRows → Bool) → RunRows → RunRows → Bool
selected test picked r = r.run.id == picked.run.id && test r

-- `for run in runs:` over selected rows, each of them locked by the selection
unfoldable pub for_each : (RunRows → Bool) → List RunRows → Act Held Unit → Act World Unit
unfolding lock
for_each test [] body = pure tt
for_each test (p ∷ picked) body = lock (selected test p) (pure tt) body >> for_each test picked body
