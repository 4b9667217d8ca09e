-- ===== src/Execution/Claim/Oldest.antt =====
-- Which job `claim_job` takes.
use mathlib.Core.List.{Memᴰ}
use mathlib.Core.Path.{subst}
use modall.Common.{
  ℕ, arith, Option, List, ◌≡◌, Bool, ◌<◌, some, true, ◌≤◌, ◌⊎◌, All, find, ◌+◌, ◌∷◌, Bool-cases,
  ◌||◌, ◌≢◌, none, false, inl, inr, sym, ◌&&◌, is_due, All-map, [], refl, String, ok, length, ap,
  find-accepted,
}
use modall.Execution.World.{Env, World, select_rows, lock, selected}
use modall.Execution.Rows.{RunRows, Job}
use modall.Execution.Claim.{by_age, claimable_job, is_next, is_claimable, claim_held, claim_next}
use modall.Execution.Types.{JobLease, JobStatus, is_job_queued, is_leased, ReconciledJob, RunStatus}
use modall.Execution.World.Passes.{Distinct}
use modall.Execution.Claim.Honoured.{claim_held-granted}
use modall.Execution.World.Order.{Earlier, select_rows-All, select_rows-first}
use modall.Execution.World.Selection.{select_rows-length}
use modall.Execution.Ledger.Advance.{BeforeDispatch}

abbrev Lapsed : Option ℕ → ℕ → Type 0
Lapsed none now = ⊥
Lapsed (some t) now = t ≤ now

-- a job that may be claimed, with its run
pub record Waits (env : Env) (epoch now : ℕ) (r : RunRows) (j : Job) : Type 0 where
  pub has_job : r.job ≡ some j
  pub of_epoch : j.execution_epoch ≡ epoch
  pub available : j.available_at ≤ now
  pub in_time : now < j.deadline
  pub before_dispatch : BeforeDispatch r.run.status
  pub free :
      (j.status ≡ JobStatus.queued)
      ⊎ ((j.status ≡ JobStatus.leased) × Lapsed j.lease_expires_at now)
  pub unlocked : env.locked r.run.id ≡ false

-- created before, or at the same time and with no greater identity
abbrev pub Older : Job → Job → Type 0
Older j k = (j.created_at < k.created_at) ⊎ ((j.created_at ≡ k.created_at) × (j.id ≤ k.id))

-- the lease is of this job
pub record LeaseOf (lease : JobLease) (r : RunRows) (j : Job) : Type 0 where
  pub job : lease.job_id ≡ j.id
  pub run : lease.run_id ≡ j.run_id
  pub workspace : lease.workspace_id ≡ r.run.workspace_id
  pub fencing_token : lease.lease_epoch ≡ j.lease_epoch + 1

claimable-BeforeDispatch : (s : RunStatus) → is_claimable s ≡ true → BeforeDispatch s
claimable-BeforeDispatch RunStatus.queued e = BeforeDispatch.in_queue
claimable-BeforeDispatch RunStatus.preparing e = BeforeDispatch.in_preparation
claimable-BeforeDispatch RunStatus.session_fenced e = BeforeDispatch.in_session
claimable-BeforeDispatch RunStatus.dispatch_fenced e = cc
claimable-BeforeDispatch RunStatus.succeeded e = cc
claimable-BeforeDispatch RunStatus.failed e = cc
claimable-BeforeDispatch RunStatus.cancelled e = cc
claimable-BeforeDispatch RunStatus.timed_out e = cc
claimable-BeforeDispatch RunStatus.indeterminate e = cc

BeforeDispatch-claimable : (s : RunStatus) → BeforeDispatch s → is_claimable s ≡ true
BeforeDispatch-claimable s BeforeDispatch.in_queue = refl
BeforeDispatch-claimable s BeforeDispatch.in_preparation = refl
BeforeDispatch-claimable s BeforeDispatch.in_session = refl

module _ (env : Env) (epoch now : ℕ) where
  free-status :
      (s : JobStatus) (t : Option ℕ)
      → (is_job_queued s || (is_leased s && is_due t now)) ≡ true
      → (s ≡ JobStatus.queued) ⊎ ((s ≡ JobStatus.leased) × Lapsed t now)
  free-status JobStatus.queued t e = inl refl
  free-status JobStatus.leased none e = cc
  free-status JobStatus.leased (some t) e = inr (refl, ground (arith, e))
  free-status JobStatus.succeeded t e = cc
  free-status JobStatus.failed t e = cc
  free-status JobStatus.cancelled t e = cc
  free-status JobStatus.timed_out t e = cc
  free-status JobStatus.indeterminate t e = cc

  claimable-free :
      (j : Job)
      → claimable_job epoch now (some j) ≡ true
      → (j.execution_epoch ≡ epoch)
        × (j.available_at ≤ now)
        × (now < j.deadline)
        × ((is_job_queued j.status || (is_leased j.status && is_due j.lease_expires_at now)) ≡ true)
  unfolding claimable_job
  claimable-free j e = (ground (arith, e), ground (arith, e), ground (arith, e), ground (arith, e))

  next-Waits : (r : RunRows) → is_next env epoch now r ≡ true → (j : Job) × Waits env epoch now r j
  unfolding is_next
  next-Waits r e = by_job r.job refl
    where
      by_job : (o : Option Job) → r.job ≡ o → (j : Job) × Waits env epoch now r j
      by_job none q =
          let h : claimable_job epoch now none ≡ true =
            subst (λ o. claimable_job epoch now o ≡ true) q (ground (arith, e)) in
          cc
      by_job (some j) q =
          let h : claimable_job epoch now (some j) ≡ true =
            subst (λ o. claimable_job epoch now o ≡ true) q (ground (arith, e)) in
          let (a, b, c, f) = claimable-free j h in
          (
            j,
            record {
              has_job = q;
              of_epoch = a;
              available = b;
              in_time = c;
              before_dispatch = claimable-BeforeDispatch r.run.status (ground (arith, e));
              free = free-status j.status j.lease_expires_at f;
              unlocked = ground (arith, e);
            },
          )

  free-test :
      (j : Job)
      → (j.status ≡ JobStatus.queued)
        ⊎ ((j.status ≡ JobStatus.leased) × Lapsed j.lease_expires_at now)
      → (is_job_queued j.status || (is_leased j.status && is_due j.lease_expires_at now)) ≡ true
  free-test j (inl e) = rw e refl
  free-test j (inr (e, l)) = rw e (due j.lease_expires_at l)
    where
      due : (t : Option ℕ) → Lapsed t now → is_due t now ≡ true
      due none h = absurd h
      due (some t) h = ground (arith, h)

  Waits-next : (r : RunRows) (k : Job) → Waits env epoch now r k → is_next env epoch now r ≡ true
  unfolding is_next claimable_job
  Waits-next r k h =
      let f = free-test k h.free in
      rw (h.has_job, BeforeDispatch-claimable r.run.status h.before_dispatch, h.unlocked)
        (ground (arith, h.of_epoch, h.available, h.in_time, f))

by_age-job : (r : RunRows) (j : Job) → r.job ≡ some j → by_age r ≡ (j.created_at, j.id)
unfolding by_age
by_age-job r j e = rw e refl

member : (P : RunRows → Type 0) (xs : List RunRows) (x : RunRows) → All P xs → Memᴰ x xs → P x
member P [] x h m = elim m [ ]
member P (y ∷ ys) x h (Memᴰ.head e) = subst P (sym e) h.0
member P (y ∷ ys) x h (Memᴰ.tail m) = member P ys x h.1 m

find-member :
    (test : RunRows → Bool) (xs : List RunRows) (x : RunRows) → find test xs ≡ some x → Memᴰ x xs
find-member test [] x e = cc
find-member test (y ∷ ys) x e = elim (Bool-cases (test y)) [
  | inl hit ↦ let same : y ≡ x = cc (rw hit at e) in Memᴰ.head (sym same)
  | inr miss ↦ Memᴰ.tail (find-member test ys x (rw miss at e))
]

-- where the identities differ, the row that is found is the only one of its identity
found-only :
    (test : RunRows → Bool) (xs : List RunRows) (r : RunRows)
    → Distinct xs
    → find test xs ≡ some r
    → All (λ y. (y.run.id ≢ r.run.id) ⊎ (y ≡ r)) xs
found-only test [] r d e = cc
found-only test (x ∷ xs) r d e = elim (Bool-cases (test x)) [
  | inl hit ↦
      let same : x ≡ r = cc (rw hit at e) in
      (inr same, All-map (λ y q. inl (λ p. subst (λ z. z.run.id ≢ y.run.id) same q (sym p))) xs d.0)
  | inr miss ↦
      let m = find-member test xs r (rw miss at e) in
      (inl (member (λ y. x.run.id ≢ y.run.id) xs r d.0 m), found-only test xs r d.1 (rw miss at e))
]

module _ (env : Env) (epoch now : ℕ) (w : World) (lease : JobLease) where
  -- a run whose job is no older than this one, or has no job that waits
  abbrev pub Behind : Job → RunRows → Type 0
  Behind j r = ((k : Job) × (r.job ≡ some k) × Older j k) ⊎ ¬ ((k : Job) × Waits env epoch now r k)

  -- the lease is of a job that waits, and every other job that waits is no older
  pub record LeasesOldest : Type 0 where
    pub rows : RunRows
    pub job : Job
    pub held : Memᴰ rows w.db.rows
    pub waits : Waits env epoch now rows job
    pub lease_of : LeaseOf lease rows job
    pub oldest : All (Behind job) w.db.rows

  behind :
      (r0 : RunRows) (j : Job)
      → r0.job ≡ some j
      → (r : RunRows) → (is_next env epoch now r ≡ false) ⊎ Earlier (by_age r0) (by_age r)
      → Behind j r
  behind r0 j a r q = elim (Bool-cases (is_next env epoch now r)) [
    | inl next ↦
        let (k, waits) = next-Waits env epoch now r next in
        inl (
          k,
          waits.has_job,
          older r0 r j k (by_age-job r0 j a) (by_age-job r k waits.has_job) (ordered next q),
        )
    | inr idle ↦ inr (λ (k, waits). false_is_not-true (Waits-next env epoch now r k waits) idle)
  ]
    where
      false_is_not-true : {b : Bool} → b ≡ true → b ≡ false → ⊥
      false_is_not-true x y = cc

      ordered :
          is_next env epoch now r ≡ true
          → (is_next env epoch now r ≡ false) ⊎ Earlier (by_age r0) (by_age r)
          → Earlier (by_age r0) (by_age r)
      ordered t (inl f) = cc
      ordered t (inr o) = o

      older :
          (r0 r : RunRows) (j k : Job)
          → by_age r0 ≡ (j.created_at, j.id)
          → by_age r ≡ (k.created_at, k.id)
          → Earlier (by_age r0) (by_age r)
          → Older j k
      older r0 r j k a b o =
          subst (λ y. Earlier (j.created_at, j.id) y) b (subst (λ x. Earlier x (by_age r)) a o)

module _ (env : Env) (worker : String) (d epoch now : ℕ) (w : World) (lease : JobLease)
    (recs : List ReconciledJob) where
  held-LeaseOf :
      (p : RunRows) (j : Job)
      → p.job ≡ some j
      → (claim_held env w.db.tables worker d (record { rows = p; reads = w.reads })).0
        ≡ ok (some lease, recs)
      → LeaseOf lease p j
  held-LeaseOf p j e g =
      let (rows, lease_eq, current, before) =
        claim_held-granted env w.db.tables worker d (record { rows = p; reads = w.reads }) j lease
          recs e g in
      record {
        job = ap (λ l. l.job_id) lease_eq;
        run = ap (λ l. l.run_id) lease_eq;
        workspace = ap (λ l. l.workspace_id) lease_eq;
        fencing_token = ap (λ l. l.lease_epoch) lease_eq;
      }

  -- the lock finds the selected row
  lock-granted :
      (p : RunRows) (o : Option RunRows)
      → find (selected (is_next env epoch now) p) w.db.rows ≡ o
      → (claim_next env worker d epoch now (p ∷ []) w).0 ≡ ok (some lease, recs)
      → (r : RunRows) × (find (selected (is_next env epoch now) p) w.db.rows ≡ some r)
        × ((claim_held env w.db.tables worker d (record { rows = r; reads = w.reads })).0
            ≡ ok (some lease, recs))
  unfolding claim_next lock
  lock-granted p none e g = cc (rw e at g)
  lock-granted p (some r) e g = (r, e, rw e at g)

  claim_next-takes :
      (ps : List RunRows)
      → select_rows (is_next env epoch now) by_age 1 w.db.rows ≡ ps
      → length ps ≤ 1
      → Distinct w.db.rows
      → (claim_next env worker d epoch now ps w).0 ≡ ok (some lease, recs)
      → LeasesOldest env epoch now w lease
  unfolding claim_next
  claim_next-takes [] e l distinct g = cc
  claim_next-takes (p ∷ q ∷ ps) e l distinct g = absurd (omega arith)
  claim_next-takes (p ∷ []) e l distinct g =
      let (r0, found, held) =
        lock-granted p (find (selected (is_next env epoch now) p) w.db.rows) refl g in
      let accepted =
        selected-parts p r0
          (find-accepted (selected (is_next env epoch now) p) w.db.rows r0 found) in
      let (j, taken) = next-Waits env epoch now r0 accepted.1 in
      let only =
        select_rows-All (is_next env epoch now) by_age w.db.rows
          (λ y. (y.run.id ≢ r0.run.id) ⊎ (y ≡ r0)) p [] e
          (found-only (selected (is_next env epoch now) p) w.db.rows r0 distinct found) in
      let first = select_rows-first (is_next env epoch now) by_age w.db.rows p [] e in
      let same : p ≡ r0 = only_one p r0 only (sym accepted.0) in
      record {
        rows = r0;
        job = j;
        held = find-member (selected (is_next env epoch now) p) w.db.rows r0 found;
        waits = taken;
        lease_of = held-LeaseOf r0 j taken.has_job held;
        oldest = All-map (behind env epoch now w lease r0 j taken.has_job) w.db.rows (
            subst
              (λ x.
                All (λ y. (is_next env epoch now y ≡ false) ⊎ Earlier (by_age x) (by_age y))
                  w.db.rows)
              same first.1);
      }
    where
      selected-parts :
          (p r : RunRows)
          → selected (is_next env epoch now) p r ≡ true
          → (r.run.id ≡ p.run.id) × (is_next env epoch now r ≡ true)
      selected-parts p r e = (ground (arith, e), ground (arith, e))

      only_one : (p r : RunRows) → (p.run.id ≢ r.run.id) ⊎ (p ≡ r) → p.run.id ≡ r.run.id → p ≡ r
      only_one p r (inl n) e = absurd (n e)
      only_one p r (inr s) e = s

  pub claim_next-oldest :
      Distinct w.db.rows
      → (claim_next env worker d epoch now
          (select_rows (is_next env epoch now) by_age 1 w.db.rows)
          w).0
        ≡ ok (some lease, recs)
      → LeasesOldest env epoch now w lease
  claim_next-oldest distinct g =
      claim_next-takes (select_rows (is_next env epoch now) by_age 1 w.db.rows) refl
        (select_rows-length (is_next env epoch now) by_age 1 w.db.rows) distinct g
