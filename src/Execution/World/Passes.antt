-- ===== src/Execution/World/Passes.antt =====
-- A pass over selected rows that each step takes out of the selection.
use modall.Common.{
  ℕ, List, Bool, ◌∷◌, ◌≡◌, Act, All, find, some, ◌≢◌, false, update_first, ok, [], arith,
  Bool-cases, true, inl, inr, All-map, ap, ◌∙◌, refl, sym, All-update_first, All-find, Option-cases,
  ◌>>◌, pure, none, find-none,
}
use modall.Execution.Rows.{RunRows}
use modall.Execution.World.{selected, Held, World, for_each, lock}
use modall.Execution.Ledger.Invariant.{IsConsistent}
use modall.Execution.World.Selection.{Covered}
use modall.Execution.Evolution.{Consistent}
use mathlib.Core.Path.{subst}

-- the identities of the runs differ
abbrev pub Distinct : List RunRows → Type 0
Distinct [] = Unit
Distinct (x ∷ xs) = All (λ y. x.run.id ≢ y.run.id) xs × Distinct xs

module _ (test : RunRows → Bool) (p : RunRows) (picked : List RunRows) where
  -- rows of another identity than the first picked row's
  Covered-others :
      (n : ℕ) (xs : List RunRows)
      → n ≡ p.run.id
      → All (λ y. n ≢ y.run.id) xs
      → Covered test (p ∷ picked) xs
      → Covered test picked xs
  Covered-others n [] e d h = tt
  Covered-others n (y ∷ ys) e d h = (ground arith, Covered-others n ys e d.1 h.1)

  -- no row is accepted under the identity of the first picked row
  Covered-missed :
      (xs : List RunRows)
      → All (λ y. selected test p y ≡ false) xs
      → Covered test (p ∷ picked) xs
      → Covered test picked xs
  Covered-missed [] d h = tt
  Covered-missed (y ∷ ys) d h = (ground arith, Covered-missed ys d.1 h.1)

  -- the row that is accepted under it is replaced by one that is not accepted
  Covered-replaced :
      (xs : List RunRows) (r' : RunRows)
      → Distinct xs
      → test r' ≡ false
      → Covered test (p ∷ picked) xs
      → Covered test picked (update_first (selected test p) (λ _. r') xs)
  Covered-replaced [] r' d e h = tt
  Covered-replaced (x ∷ xs) r' d e h = elim (Bool-cases (selected test p x)) [
    | inl hit ↦ rw hit (inl e, Covered-others x.run.id xs (ground arith) d.0 h.1)
    | inr miss ↦ rw miss (ground arith, Covered-replaced xs r' d.1 e h.1)
  ]

-- a replacement of the same identity keeps the identities distinct
update_first-Distinct :
    (test : RunRows → Bool) (xs : List RunRows) (r r' : RunRows)
    → find test xs ≡ some r
    → r'.run.id ≡ r.run.id
    → Distinct xs
    → Distinct (update_first test (λ _. r') xs)
update_first-Distinct test [] r r' e i d = tt
update_first-Distinct test (x ∷ xs) r r' e i d = elim (Bool-cases (test x)) [
  | inl hit ↦
      let same : x ≡ r = cc (rw hit at e) in
      rw hit (subst (λ n. All (λ y. n ≢ y.run.id) xs) (ap (λ z. z.run.id) same ∙ sym i) d.0, d.1)
  | inr miss ↦
      let there = rw miss at e in
      rw miss (
        All-update_first (λ y. x.run.id ≢ y.run.id) test xs r' d.0
            (λ q. (All-find (λ y. x.run.id ≢ y.run.id) test xs r d.0 there).0 (q ∙ i)),
        update_first-Distinct test xs r r' there i d.1,
      )
]

-- what one step of a pass does to an accepted row
pub record Takes (test : RunRows → Bool) (body : Act Held Unit) (h : Held) : Type 0 where
  pub returns : (body h).0 ≡ ok tt
  pub taken : test (body h).1.rows ≡ false
  pub same_id : (body h).1.rows.run.id ≡ h.rows.run.id
  pub consistent : IsConsistent (body h).1.rows

pub record Passed (test : RunRows → Bool) (m : Act World Unit) (w : World) : Type 0 where
  pub returns : (m w).0 ≡ ok tt
  pub none_left : All (λ r. test r ≡ false) (m w).1.db.rows
  pub same_state : (m w).1.db.state ≡ w.db.state

-- a step that returns, and the rest
Passed-after :
    (test : RunRows → Bool) (m k : Act World Unit) (w w' : World)
    → m w ≡ (ok tt, w')
    → w'.db.state ≡ w.db.state
    → Passed test k w'
    → Passed test (m >> k) w
Passed-after test m k w w' e s h =
    let there : (m >> k) w ≡ k w' = ground arith in
    record {
      returns = ap (λ x. x.0) there ∙ h.returns;
      none_left = subst (λ x. All (λ r. test r ≡ false) x.1.db.rows) (sym there) h.none_left;
      same_state = ap (λ x. x.1.db.state) there ∙ h.same_state ∙ s;
    }

-- the world after a lock that found a row
abbrev written : (RunRows → Bool) → World → Held → World
written test w h = record w {
  db = record w.db { rows = update_first test (λ _. h.rows) w.db.rows };
  reads = h.reads;
}

module _ (test : RunRows → Bool) (body : Act Held Unit) (w : World) where
  lock-none : find test w.db.rows ≡ none → lock test (pure tt) body w ≡ (ok tt, w)
  unfolding lock
  lock-none e = ground arith

  lock-some :
      (r : RunRows)
      → find test w.db.rows ≡ some r
      → (body (record { rows = r; reads = w.reads })).0 ≡ ok tt
      → lock test (pure tt) body w
        ≡ (ok tt, written test w (body (record { rows = r; reads = w.reads })).1)
  unfolding lock
  lock-some r e q = ground arith

module _ (test : RunRows → Bool) (body : Act Held Unit)
    (step : (h : Held) → IsConsistent h.rows → test h.rows ≡ true → Takes test body h) where
  -- A pass over rows that cover the selection takes every row out of it, and returns.
  pub for_each-Passed :
      (picked : List RunRows) (w : World)
      → Consistent w.db.rows
      → Distinct w.db.rows
      → Covered test picked w.db.rows
      → Passed test (for_each test picked body) w
  unfolding for_each
  for_each-Passed [] w c d h = record {
    returns = refl;
    none_left = All-map (λ r e. ground arith) w.db.rows h;
    same_state = refl;
  }
  for_each-Passed (p ∷ picked) w c d h = elim (Option-cases (find (selected test p) w.db.rows)) [
    | inl e ↦
        Passed-after test (lock (selected test p) (pure tt) body) (for_each test picked body) w w
          (lock-none (selected test p) body w e) refl
          (for_each-Passed picked w c d
            (Covered-missed test p picked w.db.rows (find-none (selected test p) w.db.rows e) h))
    | inr (r, e) ↦
        let held : Held = record { rows = r; reads = w.reads } in
        let found = All-find IsConsistent (selected test p) w.db.rows r c e in
        let t = step held found.0 (ground arith) in
        Passed-after test (lock (selected test p) (pure tt) body) (for_each test picked body) w
          (written (selected test p) w (body held).1)
          (lock-some (selected test p) body w r e t.returns) refl
          (for_each-Passed picked (written (selected test p) w (body held).1)
            (All-update_first IsConsistent (selected test p) w.db.rows (body held).1.rows c
              t.consistent)
            (update_first-Distinct (selected test p) w.db.rows r (body held).1.rows e t.same_id d)
            (Covered-replaced test p picked w.db.rows (body held).1.rows d t.taken h))
  ]
