-- ===== src/Common/Lists.antt =====
-- Lists measured by native numbers, and tables of rows as lists.
use Prim.Native.Nat.{ℕ, zero, suc, ◌+◌, ◌≤◌}
use mathlib.Core.Path.{◌≡◌, refl, subst}
use mathlib.Core.Logic.{◌↔◌, inl, inr}
use mathlib.Core.Bool.{Bool, true, false}
use mathlib.Core.Option.{Option, none, some}
use mathlib.Core.List.{List, [], ◌∷◌, ◌++◌}
use native.Mathlib.Omega.{arith}
use modall.Common.Tests.{if◌then◌else◌, Bool-cases}

module _ {ℓ} {A : Type ℓ} where
  abbrev pub length : List A → ℕ
  length [] = 0
  length (x ∷ xs) = suc (length xs)

  abbrev pub All {κ} : (A → Type κ) → List A → Type κ
  All P [] = Unit
  All P (x ∷ xs) = P x × All P xs

  -- `select(...).where(test).limit(1)`: the first row that the test accepts
  abbrev pub find : (A → Bool) → List A → Option A
  find test [] = none
  find test (x ∷ xs) = if test x then some x else find test xs

  abbrev pub any : (A → Bool) → List A → Bool
  any test [] = false
  any test (x ∷ xs) = if test x then true else any test xs

  -- the rows of `where(test)`, in the order of the table
  abbrev pub filter : (A → Bool) → List A → List A
  filter test [] = []
  filter test (x ∷ xs) = let rest = filter test xs in if test x then x ∷ rest else rest

  -- `func.count()` over the rows that the test accepts
  abbrev pub count_if : (A → Bool) → List A → ℕ
  count_if test [] = 0
  count_if test (x ∷ xs) = let rest = count_if test xs in if test x then suc rest else rest

  -- writes a new value over the first row that the test accepts
  abbrev pub update_first : (A → Bool) → (A → A) → List A → List A
  update_first test f [] = []
  update_first test f (x ∷ xs) = if test x then f x ∷ xs else x ∷ update_first test f xs

  -- `delete(...).where(test)`
  abbrev pub delete_where : (A → Bool) → List A → List A
  delete_where test [] = []
  delete_where test (x ∷ xs) = if test x then delete_where test xs else x ∷ delete_where test xs

  abbrev pub take : ℕ → List A → List A
  take zero xs = []
  take (suc n) [] = []
  take (suc n) (x ∷ xs) = x ∷ take n xs

  pub length-append : (xs ys : List A) → length (xs ++ ys) ≡ length xs + length ys
  length-append [] ys = omega arith
  length-append (x ∷ xs) ys = omega (arith, length-append xs ys)

  pub length-take : (n : ℕ) (xs : List A) → length (take n xs) ≤ n
  length-take zero xs = omega arith
  length-take (suc n) [] = omega arith
  length-take (suc n) (x ∷ xs) = omega (arith, length-take n xs)

pub All-map {ℓ κ} :
    {A : Type ℓ} {P Q : A → Type κ} → ((x : A) → P x → Q x) → (xs : List A) → All P xs → All Q xs
All-map f [] h = tt
All-map f (x ∷ xs) h = (f x h.0, All-map f xs h.1)

pub any_iff {ℓ} :
    {A : Type ℓ} (test : A → Bool) (xs : List A)
    → (any test xs ≡ false) ↔ All (λ x. test x ≡ false) xs
any_iff test [] = (λ _. tt, λ _. refl)
any_iff test (x ∷ xs) =
    let later = any_iff test xs in (λ e. ground (arith, later), λ h. ground (arith, later))

module _ {ℓ κ} {A : Type ℓ} (P : A → Type κ) (test : A → Bool) where
  pub All-find : (xs : List A) (x : A) → All P xs → find test xs ≡ some x → P x × (test x ≡ true)
  All-find [] x h e = cc
  All-find (y ∷ ys) x h e = elim (Bool-cases (test y)) [
    | inl hit ↦
        let same : y ≡ x = cc (rw hit at e) in
        (subst P same h.0, subst (λ z. test z ≡ true) same hit)
    | inr miss ↦ All-find ys x h.1 (rw miss at e)
  ]

  pub All-update_first :
      (xs : List A) (y : A) → All P xs → P y → All P (update_first test (λ _. y) xs)
  All-update_first [] y h p = tt
  All-update_first (x ∷ xs) y h p = elim (Bool-cases (test x)) [
    | inl hit ↦ rw hit (p, h.1)
    | inr miss ↦ rw miss (h.0, All-update_first xs y h.1 p)
  ]

pub find-none {ℓ} :
    {A : Type ℓ} (test : A → Bool) (xs : List A)
    → find test xs ≡ none
    → All (λ x. test x ≡ false) xs
find-none test [] e = tt
find-none test (x ∷ xs) e = elim (Bool-cases (test x)) [
  | inl hit ↦ cc (rw hit at e)
  | inr miss ↦ (miss, find-none test xs (rw miss at e))
]
