-- ===== src/Execution/Evolution.antt =====
-- The ledger as a whole: each run advances, or runs that have ended are deleted. This is the
-- specification that the calls of execution/service.py are held against.
pub mod Rules
pub mod Deletion
pub mod Calls
use modall.Common.{ℕ, List, All, [], ◌∷◌, ◌≡◌, true, length}
use modall.Execution.Rows.{RunRows}
use modall.Execution.Ledger.Advance.{Advanced-trans, Advanced-refl, Advanced}
use modall.Execution.Ledger.Invariant.{IsConsistent}
use modall.Execution.Types.{is_terminal, queued}

-- a run as `create_run` leaves it
pub record IsAdmitted (r : RunRows) : Type 0 where
  pub consistent : IsConsistent r
  pub queued_first : r.run.status ≡ queued
  pub one_event : length r.events ≡ 1

-- every run is kept, and advances
pub data Evolves : List RunRows → List RunRows → Type 0 where
  done : Evolves [] []
  keep :
      {r r' : RunRows} {rs rs' : List RunRows}
      → Advanced r r'
      → Evolves rs rs'
      → Evolves (r ∷ rs) (r' ∷ rs')

-- every run is as it was, or may be deleted and is
pub data Prunes (P : RunRows → Type 0) : List RunRows → List RunRows → Type 0 where
  none_left : Prunes P [] []
  leave : {r : RunRows} {rs rs' : List RunRows} → Prunes P rs rs' → Prunes P (r ∷ rs) (r ∷ rs')
  remove : {r : RunRows} {rs rs' : List RunRows} → P r → Prunes P rs rs' → Prunes P (r ∷ rs) rs'

abbrev pub Consistent : List RunRows → Type 0
Consistent = All IsConsistent

pub Evolves-refl : (rs : List RunRows) → Consistent rs → Evolves rs rs
Evolves-refl [] h = done
Evolves-refl (r ∷ rs) h = keep (Advanced-refl r h.0) (Evolves-refl rs h.1)

pub Evolves-Consistent : {rs rs' : List RunRows} → Evolves rs rs' → Consistent rs'
Evolves-Consistent done = tt
Evolves-Consistent (keep a e) = (a.consistent, Evolves-Consistent e)

pub Evolves-trans : {rs ss ts : List RunRows} → Evolves rs ss → Evolves ss ts → Evolves rs ts
Evolves-trans done q = q
Evolves-trans (keep a p) (keep b q) = keep (Advanced-trans a b) (Evolves-trans p q)

module _ {P : RunRows → Type 0} where
  pub Prunes-refl : (rs : List RunRows) → Prunes P rs rs
  Prunes-refl [] = none_left
  Prunes-refl (r ∷ rs) = leave (Prunes-refl rs)

  pub Prunes-Consistent : {rs rs' : List RunRows} → Prunes P rs rs' → Consistent rs → Consistent rs'
  Prunes-Consistent none_left h = tt
  Prunes-Consistent (leave p) h = (h.0, Prunes-Consistent p h.1)
  Prunes-Consistent (remove t p) h = Prunes-Consistent p h.1
