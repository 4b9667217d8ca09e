-- ===== src/Common/Growth.antt =====
-- Tables that keep their rows, each of them changed by a relation, and take on new rows behind them.
use mathlib.Core.Path.{◌≡◌, refl, subst}
use mathlib.Core.Logic.{inl, inr}
use mathlib.Core.Bool.{Bool, true}
use mathlib.Core.Option.{some}
use mathlib.Core.List.{List, [], ◌∷◌, ◌++◌, map}
use modall.Common.Tests.{Bool-cases}
use modall.Common.Lists.{All, find, update_first}

module _ {ℓ} {A : Type ℓ} (R : A → A → Type 0) where
  abbrev pub Grows : List A → List A → Type 0
  Grows [] ys = Unit
  Grows (x ∷ xs) [] = ⊥
  Grows (x ∷ xs) (y ∷ ys) = R x y × Grows xs ys

  module _ (reflexive : (x : A) → R x x) where
    pub Grows-append : (xs ys : List A) → Grows xs (xs ++ ys)
    Grows-append [] ys = tt
    Grows-append (x ∷ xs) ys = (reflexive x, Grows-append xs ys)

    pub Grows-refl : (xs : List A) → Grows xs xs
    Grows-refl [] = tt
    Grows-refl (x ∷ xs) = (reflexive x, Grows-refl xs)

    pub Grows-update_first :
        (test : A → Bool) (xs : List A) (x y : A)
        → find test xs ≡ some x
        → R x y
        → Grows xs (update_first test (λ _. y) xs)
    Grows-update_first test [] x y e r = tt
    Grows-update_first test (z ∷ zs) x y e r = elim (Bool-cases (test z)) [
      | inl hit ↦
          let same : x ≡ z = cc (rw hit at e) in rw hit (subst (λ v. R v y) same r, Grows-refl zs)
      | inr miss ↦ rw miss (reflexive z, Grows-update_first test zs x y (rw miss at e) r)
    ]

    pub Grows-update_where :
        (test : A → Bool) (f : A → A)
        → ((x : A) → test x ≡ true → R x (f x))
        → (xs : List A) → Grows xs (update_first test f xs)
    Grows-update_where test f r [] = tt
    Grows-update_where test f r (x ∷ xs) = elim (Bool-cases (test x)) [
      | inl hit ↦ rw hit (r x hit, Grows-refl xs)
      | inr miss ↦ rw miss (reflexive x, Grows-update_where test f r xs)
    ]

  pub Grows-trans :
      ((x y z : A) → R x y → R y z → R x z)
      → (xs ys zs : List A) → Grows xs ys
      → Grows ys zs
      → Grows xs zs
  Grows-trans transitive [] ys zs g h = tt
  Grows-trans transitive (x ∷ xs) [] zs g h = elim g [ ]
  Grows-trans transitive (x ∷ xs) (y ∷ ys) [] g h = elim h [ ]
  Grows-trans transitive (x ∷ xs) (y ∷ ys) (z ∷ zs) g h =
      (transitive x y z g.0 h.0, Grows-trans transitive xs ys zs g.1 h.1)

  pub Grows-map : (f : A → A) → ((x : A) → R x (f x)) → (xs : List A) → Grows xs (map f xs)
  Grows-map f related [] = tt
  Grows-map f related (x ∷ xs) = (related x, Grows-map f related xs)

  -- a row that was found is found again, as the relation has changed it
  pub Grows-find :
      (test : A → Bool)
      → ((x y : A) → R x y → test y ≡ test x)
      → (xs ys : List A) (x : A) → Grows xs ys
      → find test xs ≡ some x
      → (y : A) × (find test ys ≡ some y) × R x y
  Grows-find test respected [] ys x g e = cc
  Grows-find test respected (z ∷ zs) [] x g e = elim g [ ]
  Grows-find test respected (z ∷ zs) (y ∷ ys) x g e = elim (Bool-cases (test z)) [
    | inl hit ↦
        let same : z ≡ x = cc (rw hit at e) in
        rw (respected z y g.0, hit) (y, refl, subst (λ v. R v y) same g.0)
    | inr miss ↦ rw (respected z y g.0, miss) (Grows-find test respected zs ys x g.1 (rw miss at e))
  ]

module _ {ℓ κ} {A : Type ℓ} (P : A → Type κ) where
  pub All-append : (xs ys : List A) → All P xs → All P ys → All P (xs ++ ys)
  All-append [] ys h k = k
  All-append (x ∷ xs) ys h k = (h.0, All-append xs ys h.1 k)

  pub All-of_map :
      (f : A → A) → ((x : A) → P x → P (f x)) → (xs : List A) → All P xs → All P (map f xs)
  All-of_map f kept [] h = tt
  All-of_map f kept (x ∷ xs) h = (kept x h.0, All-of_map f kept xs h.1)

  pub All-update_where :
      (test : A → Bool) (f : A → A)
      → ((x : A) → test x ≡ true → P x → P (f x))
      → (xs : List A) → All P xs
      → All P (update_first test f xs)
  All-update_where test f kept [] h = tt
  All-update_where test f kept (x ∷ xs) h = elim (Bool-cases (test x)) [
    | inl hit ↦ rw hit (kept x hit h.0, h.1)
    | inr miss ↦ rw miss (h.0, All-update_where test f kept xs h.1)
  ]

-- a row that was written is found as it was written
pub find-update_first {ℓ} :
    {A : Type ℓ} (test : A → Bool) (xs : List A) (x y : A)
    → find test xs ≡ some x
    → test y ≡ true
    → find test (update_first test (λ _. y) xs) ≡ some y
find-update_first test [] x y e h = cc
find-update_first test (z ∷ zs) x y e h = elim (Bool-cases (test z)) [
  | inl hit ↦ rw (hit, h) refl
  | inr miss ↦ rw (miss, miss) (find-update_first test zs x y (rw miss at e) h)
]

pub find-accepted {ℓ} :
    {A : Type ℓ} (test : A → Bool) (xs : List A) (x : A) → find test xs ≡ some x → test x ≡ true
find-accepted test [] x e = cc
find-accepted test (z ∷ zs) x e = elim (Bool-cases (test z)) [
  | inl hit ↦ let same : z ≡ x = cc (rw hit at e) in subst (λ v. test v ≡ true) same hit
  | inr miss ↦ find-accepted test zs x (rw miss at e)
]
