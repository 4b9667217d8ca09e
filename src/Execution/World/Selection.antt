-- ===== src/Execution/World/Selection.antt =====
-- What a query with an order and a limit selects.
use modall.Common.{
  ℕ, List, Bool, length, ◌≤◌, ◌∷◌, ◌≡◌, All, any, false, Bool-cases, take, ◌∙◌, ◌==◌, arith,
  length-take, suc, ap, ◌⊎◌, All-map, inl, [], if◌then◌else◌, true, inr, zero, refl, sym,
}
use modall.Execution.World.{select_rows, filter_rows, insert_by, sort_by}
use modall.Execution.Rows.{RunRows}
use mathlib.Core.Path.{subst}

-- no more than the limit
pub select_rows-length :
    (test : RunRows → Bool) (key : RunRows → ℕ × ℕ) (n : ℕ) (rows : List RunRows)
    → length (select_rows test key n rows) ≤ n
unfolding select_rows
select_rows-length test key n rows = length-take n (sort_by key (filter_rows test rows))

take-all : {A : Type 0} (n : ℕ) (xs : List A) → length xs ≤ n → take n xs ≡ xs
take-all zero [] h = refl
take-all zero (x ∷ xs) h = absurd (omega arith)
take-all (suc n) [] h = refl
take-all (suc n) (x ∷ xs) h = ap (λ ys. x ∷ ys) (take-all n xs (omega arith))

module _ (key : RunRows → ℕ × ℕ) where
  insert_by-length :
      (r : RunRows) (xs : List RunRows) → length (insert_by key r xs) ≡ suc (length xs)
  unfolding insert_by
  insert_by-length r [] = refl
  insert_by-length r (x ∷ xs) = ground (arith, insert_by-length r xs)

  sort_by-length : (xs : List RunRows) → length (sort_by key xs) ≡ length xs
  unfolding sort_by
  sort_by-length [] = refl
  sort_by-length (x ∷ xs) = insert_by-length x (sort_by key xs) ∙ ap suc (sort_by-length xs)

  insert_by-any :
      (f : RunRows → Bool) (r : RunRows) (xs : List RunRows)
      → any f (insert_by key r xs) ≡ any f (r ∷ xs)
  unfolding insert_by
  insert_by-any f r [] = refl
  insert_by-any f r (x ∷ xs) = ground (arith, insert_by-any f r xs)

  sort_by-any : (f : RunRows → Bool) (xs : List RunRows) → any f (sort_by key xs) ≡ any f xs
  unfolding sort_by
  sort_by-any f [] = refl
  sort_by-any f (x ∷ xs) =
      insert_by-any f x (sort_by key xs) ∙ ap (λ b. if f x then true else b) (sort_by-any f xs)

-- a row of the same identity is in the list
abbrev pub covered : List RunRows → RunRows → Bool
covered picked r = any (λ p. r.run.id == p.run.id) picked

abbrev pub Covered : (RunRows → Bool) → List RunRows → List RunRows → Type 0
Covered test picked = All (λ r. (test r ≡ false) ⊎ (covered picked r ≡ true))

filter_rows-Covered-head :
    (test : RunRows → Bool) (x : RunRows) (picked xs : List RunRows)
    → Covered test picked xs
    → Covered test (x ∷ picked) xs
filter_rows-Covered-head test x picked [] h = tt
filter_rows-Covered-head test x picked (y ∷ ys) h =
    (ground (arith, h.0), filter_rows-Covered-head test x picked ys h.1)

filter_rows-Covered :
    (test : RunRows → Bool) (xs : List RunRows) → Covered test (filter_rows test xs) xs
filter_rows-Covered test [] = tt
filter_rows-Covered test (x ∷ xs) = elim (Bool-cases (test x)) [
  | inl hit ↦
      let e : filter_rows test (x ∷ xs) ≡ x ∷ filter_rows test xs =
        unfold filter_rows in ground arith in
      subst (λ ys. Covered test ys (x ∷ xs)) (sym e)
        (
          inr (ground arith),
          filter_rows-Covered-head test x (filter_rows test xs) xs (filter_rows-Covered test xs),
        )
  | inr miss ↦
      let e : filter_rows test (x ∷ xs) ≡ filter_rows test xs =
        unfold filter_rows in ground arith in
      subst (λ ys. Covered test ys (x ∷ xs)) (sym e) (inl miss, filter_rows-Covered test xs)
]

-- within the limit, every accepted row is selected
pub select_rows-Covered :
    (test : RunRows → Bool) (key : RunRows → ℕ × ℕ) (n : ℕ) (rows : List RunRows)
    → length (filter_rows test rows) ≤ n
    → Covered test (select_rows test key n rows) rows
unfolding select_rows
select_rows-Covered test key n rows h =
    rw
      (take-all n (sort_by key (filter_rows test rows))
        (omega (arith, sort_by-length key (filter_rows test rows))))
      (All-map
        (λ r e. elim e [
          | inl p ↦ inl p
          | inr q ↦ inr (sort_by-any key (λ p. r.run.id == p.run.id) (filter_rows test rows) ∙ q)
        ])
        rows (filter_rows-Covered test rows))
