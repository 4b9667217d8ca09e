-- ===== src/Registry/Connections/Moves.antt =====
-- What may become of a connection: the check constraints of persistence/models.py with what the
-- services keep beyond them, and the order of control epochs and refresh generations.
use modall.Common.{
  ℕ, Option, is_some, holds_id, arith, ◌≡◌, true, inr, ◌≤◌, false, ◌∙◌, none, some, inl, ◌<◌, ◌⊎◌,
  refl, Bool, sym, if◌then◌else◌, ◌&&◌,
}
use modall.Registry.Connections.{
  allocated, appended, moved_to, promoted, complete_refused, is_disabled, promote_refused,
  current_target, is_active, completed, is_degraded,
}
use modall.Registry.Rows.{ServerConnection, ConnectionLifecycle}

-- an allocation is whole, and names the current epoch and the current target
abbrev pub IsAllocated : ServerConnection → Option ℕ → Option ℕ → Type 0
IsAllocated c none none = Unit
IsAllocated c none (some t) = ⊥
IsAllocated c (some e) none = ⊥
IsAllocated c (some e) (some t) =
    (e ≡ c.control_epoch)
    × (current_target c ≡ some t)
    × (0 < c.refresh_generation)
    × (is_disabled c.lifecycle ≡ false)

pub record IsSound (c : ServerConnection) : Type 0 where
  pub has_version : is_some (current_target c) ≡ true
  pub allocation : IsAllocated c c.allocated_control_epoch c.allocated_target_version_id
  pub verified : is_active c.lifecycle ≡ true → c.pending_version_id ≡ none

-- a control epoch stands for one target and one decision on it, and a generation of it for one
-- allocation, which is used up once
pub record Moves (c d : ServerConnection) : Type 0 where
  pub same_id : d.id ≡ c.id
  pub same_workspace : d.workspace_id ≡ c.workspace_id
  pub epoch : c.control_epoch ≤ d.control_epoch
  pub generation : c.refresh_generation ≤ d.refresh_generation
  pub target : c.control_epoch ≡ d.control_epoch → current_target d ≡ current_target c
  pub decision :
      c.control_epoch ≡ d.control_epoch → is_disabled d.lifecycle ≡ is_disabled c.lifecycle
  pub spent :
      c.control_epoch ≡ d.control_epoch
      → c.refresh_generation ≡ d.refresh_generation
      → (d.allocated_control_epoch ≡ none) ⊎ (d.allocated_control_epoch ≡ c.allocated_control_epoch)

pub Moves-refl : (c : ServerConnection) → Moves c c
Moves-refl c = record {
  same_id = refl;
  same_workspace = refl;
  epoch = omega arith;
  generation = omega arith;
  target = λ _. refl;
  decision = λ _. refl;
  spent = λ _ _. inr refl;
}

pub Moves-trans : (c d e : ServerConnection) → Moves c d → Moves d e → Moves c e
Moves-trans c d e p q =
    let before : c.control_epoch ≡ e.control_epoch → c.control_epoch ≡ d.control_epoch =
      λ h. omega (arith, p.epoch, q.epoch, h) in
    let after : c.control_epoch ≡ e.control_epoch → d.control_epoch ≡ e.control_epoch =
      λ h. omega (arith, p.epoch, q.epoch, h) in
    record {
      same_id = q.same_id ∙ p.same_id;
      same_workspace = q.same_workspace ∙ p.same_workspace;
      epoch = omega (arith, p.epoch, q.epoch);
      generation = omega (arith, p.generation, q.generation);
      target = λ h. q.target (after h) ∙ p.target (before h);
      decision = λ h. q.decision (after h) ∙ p.decision (before h);
      spent = λ h g. elim (q.spent (after h) (omega (arith, p.generation, q.generation, g))) [
        | inl gone ↦ inl gone
        | inr same ↦ elim (p.spent (before h) (omega (arith, p.generation, q.generation, g))) [
          | inl gone ↦ inl (same ∙ gone)
          | inr kept ↦ inr (same ∙ kept)
        ]
      ];
    }

pub holds_id-eq : (o : Option ℕ) (n : ℕ) → holds_id o n ≡ true → o ≡ some n
holds_id-eq none n e = ground arith
holds_id-eq (some a) n e = ground arith

-- each operation, on a connection that its guard lets through
pub appended-Moves : (version : ℕ) (c : ServerConnection) → Moves c (appended version c)
unfolding appended
appended-Moves version c = record {
  same_id = refl;
  same_workspace = refl;
  epoch = omega arith;
  generation = omega arith;
  target = λ h. ground arith;
  decision = λ h. ground arith;
  spent = λ h g. ground arith;
}

pub appended-IsSound : (version : ℕ) (c : ServerConnection) → IsSound (appended version c)
unfolding appended
appended-IsSound version c = record { has_version = refl; allocation = tt; verified = λ e. cc }

pub moved_to-Moves : (l : ConnectionLifecycle) (c : ServerConnection) → Moves c (moved_to l c)
unfolding moved_to
moved_to-Moves l c = record {
  same_id = refl;
  same_workspace = refl;
  epoch = omega arith;
  generation = omega arith;
  target = λ h. refl;
  decision = λ h. ground arith;
  spent = λ h g. ground arith;
}

pub moved_to-IsSound :
    (l : ConnectionLifecycle) (c : ServerConnection)
    → is_active l ≡ false
    → IsSound c
    → IsSound (moved_to l c)
unfolding moved_to
moved_to-IsSound l c idle h = record {
  has_version = h.has_version;
  allocation = tt;
  verified = λ e. cc;
}

pub allocated-Moves : (t : ℕ) (c : ServerConnection) → Moves c (allocated t c)
unfolding allocated
allocated-Moves t c = record {
  same_id = refl;
  same_workspace = refl;
  epoch = omega arith;
  generation = omega arith;
  target = λ h. refl;
  decision = λ h. waking (is_some c.pending_version_id) c.lifecycle;
  spent = λ h g. ground arith;
}
  where
    waking :
        (b : Bool) (l : ConnectionLifecycle)
        → is_disabled (if b && is_degraded l then ConnectionLifecycle.verifying else l)
          ≡ is_disabled l
    waking b l = ground arith

pub allocated-IsSound :
    (t : ℕ) (c : ServerConnection)
    → is_disabled c.lifecycle ≡ false
    → current_target c ≡ some t
    → IsSound c
    → IsSound (allocated t c)
unfolding allocated
allocated-IsSound t c enabled e h = record {
  has_version = h.has_version;
  allocation = (refl, e, omega arith, ground arith);
  verified = λ a. h.verified (ground arith);
}

module _ (c : ServerConnection) (version epoch generation : ℕ) where
  pub promoted-Moves :
      promote_refused c version epoch generation ≡ false → Moves c (promoted version c)
  unfolding promote_refused promoted
  promoted-Moves e = record {
    same_id = refl;
    same_workspace = refl;
    epoch = omega arith;
    generation = omega arith;
    target = λ _. sym (holds_id-eq (current_target c) version (ground arith));
    decision = λ _. ground arith;
    spent = λ _ _. inl refl;
  }

  pub promoted-IsSound : IsSound (promoted version c)
  unfolding promoted
  promoted-IsSound = record { has_version = refl; allocation = tt; verified = λ _. refl }

  pub completed-Moves : complete_refused c version epoch generation ≡ false → Moves c (completed c)
  unfolding complete_refused completed
  completed-Moves e = record {
    same_id = refl;
    same_workspace = refl;
    epoch = omega arith;
    generation = omega arith;
    target = λ _. refl;
    decision = λ _. ground arith;
    spent = λ _ _. inl refl;
  }

  pub completed-IsSound :
      complete_refused c version epoch generation ≡ false → IsSound c → IsSound (completed c)
  unfolding complete_refused completed
  completed-IsSound e h = record {
    has_version = h.has_version;
    allocation = tt;
    verified = λ _. ground arith;
  }
