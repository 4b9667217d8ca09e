-- ===== src/Execution/World/Order.antt =====
-- The order of the queries of execution/service.py (`order_by`), and their first row.
use modall.Common.{
  ℕ, List, arith, inr, ◌<◌, take, Bool, ◌≡◌, ◌⊎◌, ◌∷◌, Bool-cases, true, ◌≤◌, false, All, [], inl,
  refl, All-map, sym,
}
use modall.Execution.World.{before, insert_by, sort_by, filter_rows, select_rows}
use modall.Execution.Rows.{RunRows}
use mathlib.Core.Path.{subst}

-- an earlier key, or the same key and no greater identity
abbrev pub Earlier : ℕ × ℕ → ℕ × ℕ → Type 0
Earlier (k, i) (l, j) = (k < l) ⊎ ((k ≡ l) × (i ≤ j))

before-Earlier : (a b : ℕ × ℕ) → before a b ≡ true → Earlier a b
unfolding before
before-Earlier (k, i) (l, j) e = ground arith

after-Earlier : (a b : ℕ × ℕ) → before a b ≡ false → Earlier b a
unfolding before
after-Earlier (k, i) (l, j) e = ground arith

Earlier-trans : (a b c : ℕ × ℕ) → Earlier a b → Earlier b c → Earlier a c
Earlier-trans (k, i) (l, j) (m, n) p q = ground arith

Earlier-refl : (a : ℕ × ℕ) → Earlier a a
Earlier-refl (k, i) = inr (refl, omega arith)

module _ (key : RunRows → ℕ × ℕ) where
  abbrev Ordered : List RunRows → Type 0
  Ordered [] = Unit
  Ordered (x ∷ xs) = All (λ r. Earlier (key x) (key r)) xs × Ordered xs

  module _ (P : RunRows → Type 0) where
    insert_by-All : (r : RunRows) (xs : List RunRows) → P r → All P xs → All P (insert_by key r xs)
    unfolding insert_by
    insert_by-All r [] p h = (p, tt)
    insert_by-All r (x ∷ xs) p h = elim (Bool-cases (before (key r) (key x))) [
      | inl first ↦ rw first (p, h)
      | inr later ↦ rw later (h.0, insert_by-All r xs p h.1)
    ]

    All-insert_by : (r : RunRows) (xs : List RunRows) → All P (insert_by key r xs) → P r × All P xs
    unfolding insert_by
    All-insert_by r [] h = (h.0, tt)
    All-insert_by r (x ∷ xs) h = elim (Bool-cases (before (key r) (key x))) [
      | inl first ↦ rw first at h
      | inr later ↦
          let g = rw later at h in let rest = All-insert_by r xs g.1 in (rest.0, (g.0, rest.1))
    ]

    sort_by-All : (xs : List RunRows) → All P xs → All P (sort_by key xs)
    unfolding sort_by
    sort_by-All [] h = tt
    sort_by-All (x ∷ xs) h = insert_by-All x (sort_by key xs) h.0 (sort_by-All xs h.1)

    All-sort_by : (xs : List RunRows) → All P (sort_by key xs) → All P xs
    unfolding sort_by
    All-sort_by [] h = tt
    All-sort_by (x ∷ xs) h =
        let parts = All-insert_by x (sort_by key xs) h in (parts.0, All-sort_by xs parts.1)

  insert_by-Ordered : (r : RunRows) (xs : List RunRows) → Ordered xs → Ordered (insert_by key r xs)
  unfolding insert_by
  insert_by-Ordered r [] h = (tt, tt)
  insert_by-Ordered r (x ∷ xs) h = elim (Bool-cases (before (key r) (key x))) [
    | inl first ↦
        let e = before-Earlier (key r) (key x) first in
        rw first ((e, All-map (λ y q. Earlier-trans (key r) (key x) (key y) e q) xs h.0), h)
    | inr later ↦ rw later (
      insert_by-All (λ y. Earlier (key x) (key y)) r xs (after-Earlier (key r) (key x) later) h.0,
      insert_by-Ordered r xs h.1,
    )
  ]

  sort_by-Ordered : (xs : List RunRows) → Ordered (sort_by key xs)
  unfolding sort_by
  sort_by-Ordered [] = tt
  sort_by-Ordered (x ∷ xs) = insert_by-Ordered x (sort_by key xs) (sort_by-Ordered xs)

  first-Earlier :
      (p : RunRows) (ps xs : List RunRows)
      → sort_by key xs ≡ p ∷ ps
      → All (λ r. Earlier (key p) (key r)) xs
  first-Earlier p ps xs e =
      let ordered = subst Ordered e (sort_by-Ordered xs) in
      All-sort_by (λ r. Earlier (key p) (key r)) xs
        (subst (All (λ r. Earlier (key p) (key r))) (sym e) (Earlier-refl (key p), ordered.0))

module _ (test : RunRows → Bool) where
  filter_rows-accepted : (xs : List RunRows) → All (λ r. test r ≡ true) (filter_rows test xs)
  unfolding filter_rows
  filter_rows-accepted [] = tt
  filter_rows-accepted (x ∷ xs) = elim (Bool-cases (test x)) [
    | inl hit ↦ rw hit (hit, filter_rows-accepted xs)
    | inr miss ↦ rw miss (filter_rows-accepted xs)
  ]

  filter_rows-All :
      (P : RunRows → Type 0) (xs : List RunRows) → All P xs → All P (filter_rows test xs)
  unfolding filter_rows
  filter_rows-All P [] h = tt
  filter_rows-All P (x ∷ xs) h = elim (Bool-cases (test x)) [
    | inl hit ↦ rw hit (h.0, filter_rows-All P xs h.1)
    | inr miss ↦ rw miss (filter_rows-All P xs h.1)
  ]

  All-filter_rows :
      (P : RunRows → Type 0) (xs : List RunRows)
      → All P (filter_rows test xs)
      → All (λ r. (test r ≡ false) ⊎ P r) xs
  unfolding filter_rows
  All-filter_rows P [] h = tt
  All-filter_rows P (x ∷ xs) h = elim (Bool-cases (test x)) [
    | inl hit ↦ let g = rw hit at h in (inr g.0, All-filter_rows P xs g.1)
    | inr miss ↦ let g = rw miss at h in (inl miss, All-filter_rows P xs g)
  ]

take-first :
    (xs : List RunRows) (p : RunRows) (ps : List RunRows)
    → take 1 xs ≡ p ∷ ps
    → (rest : List RunRows) × (xs ≡ p ∷ rest)
take-first [] p ps e = cc
take-first (x ∷ xs) p ps e = (xs, cc)

take-none : (xs : List RunRows) → take 1 xs ≡ [] → xs ≡ []
take-none [] e = refl
take-none (x ∷ xs) e = cc

module _ (test : RunRows → Bool) (key : RunRows → ℕ × ℕ) (rows : List RunRows) where
  -- the first row that a query selects is accepted, and comes before every accepted row
  pub select_rows-first :
      (p : RunRows) (ps : List RunRows)
      → select_rows test key 1 rows ≡ p ∷ ps
      → (test p ≡ true) × All (λ r. (test r ≡ false) ⊎ Earlier (key p) (key r)) rows
  unfolding select_rows
  select_rows-first p ps e =
      let (rest, sorted) = take-first (sort_by key (filter_rows test rows)) p ps e in
      let accepted = subst (All (λ r. test r ≡ true)) sorted (
        sort_by-All key (λ r. test r ≡ true) (filter_rows test rows)
          (filter_rows-accepted test rows)) in
      (
        accepted.0,
        All-filter_rows test (λ r. Earlier (key p) (key r)) rows
            (first-Earlier key p rest (filter_rows test rows) sorted),
      )

  -- what holds of every row holds of the first one
  pub select_rows-All :
      (P : RunRows → Type 0) (p : RunRows) (ps : List RunRows)
      → select_rows test key 1 rows ≡ p ∷ ps
      → All P rows
      → P p
  unfolding select_rows
  select_rows-All P p ps e h =
      let (rest, sorted) = take-first (sort_by key (filter_rows test rows)) p ps e in
      (subst (All P) sorted
        (sort_by-All key P (filter_rows test rows) (filter_rows-All test P rows h))).0

  -- where none is selected, none is accepted
  pub select_rows-none : select_rows test key 1 rows ≡ [] → All (λ r. test r ≡ false) rows
  unfolding select_rows
  select_rows-none e =
      All-map (λ r q. elim q [ inl no_match ↦ no_match | inr b ↦ absurd b ]) rows
        (All-filter_rows test (λ r. ⊥) rows
          (All-sort_by key (λ r. ⊥) (filter_rows test rows)
            (subst (All (λ r. ⊥)) (sym (take-none (sort_by key (filter_rows test rows)) e)) tt)))
