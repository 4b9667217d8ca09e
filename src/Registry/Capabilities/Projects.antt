-- ===== src/Registry/Capabilities/Projects.antt =====
-- What may become of a capability: the check constraints of persistence/models.py, and status epochs.
use modall.Common.{
  ℕ, ◌≡◌, none, arith, Option, some, ◌∙◌, ◌≤◌, true, ◌+◌, is_some, refl, holds_id, false, Bool,
  Bool-cases, ◌&&◌, inl, inr, not,
}
use modall.Registry.Capabilities.{
  now_unavailable, switched_off, enabled_with, is_pending_review, is_unavailable,
}
use modall.Registry.Rows.{Capability, CapabilityStatus, is_enabled}
use modall.Registry.Capabilities.Recording.{recorded, observed_again, unless_disabled}
use mathlib.Core.Path.{subst}

-- `ck_capability_enabled_projection` and `ck_capability_pending_projection`
pub record IsProjected (c : Capability) : Type 0 where
  pub enabled_projection :
      is_enabled c.status ≡ true
      → (is_some c.enabled_version_id ≡ true) × (c.pending_version_id ≡ none)
  pub pending_projection : is_pending_review c.status ≡ true → is_some c.pending_version_id ≡ true

-- a status epoch stands for one status with its versions
pub record Projects (c d : Capability) : Type 0 where
  pub same_id : d.id ≡ c.id
  pub same_workspace : d.workspace_id ≡ c.workspace_id
  pub same_connection : d.connection_id ≡ c.connection_id
  pub same_tool : d.tool_identity ≡ c.tool_identity
  pub epoch : c.status_epoch ≤ d.status_epoch
  pub named : c.status_epoch ≡ d.status_epoch → d ≡ c

pub Projects-refl : (c : Capability) → Projects c c
Projects-refl c = record {
  same_id = refl;
  same_workspace = refl;
  same_connection = refl;
  same_tool = refl;
  epoch = omega arith;
  named = λ _. refl;
}

pub Projects-trans : (c d e : Capability) → Projects c d → Projects d e → Projects c e
Projects-trans c d e p q = record {
  same_id = q.same_id ∙ p.same_id;
  same_workspace = q.same_workspace ∙ p.same_workspace;
  same_connection = q.same_connection ∙ p.same_connection;
  same_tool = q.same_tool ∙ p.same_tool;
  epoch = omega (arith, p.epoch, q.epoch);
  named = λ h.
      q.named (omega (arith, p.epoch, q.epoch, h)) ∙ p.named (omega (arith, p.epoch, q.epoch, h));
}

holds_id-some : (o : Option ℕ) (n : ℕ) → holds_id o n ≡ true → is_some o ≡ true
holds_id-some none n e = ground arith
holds_id-some (some a) n e = refl

is_some-none : (o : Option ℕ) → is_some o ≡ false → o ≡ none
is_some-none none e = refl
is_some-none (some a) e = cc

absurd : {b : Bool} → b ≡ false → b ≡ true → ⊥
absurd p q = cc

some-inj : {x y : Capability} → some x ≡ some y → x ≡ y
some-inj e = cc

-- a change of status and versions under the next epoch
abbrev changed : Capability → Option ℕ → Option ℕ → CapabilityStatus → Capability
changed c pending enabled status = record c {
  pending_version_id = pending;
  enabled_version_id = enabled;
  status = status;
  status_epoch = c.status_epoch + 1;
}

changed-Projects :
    (c : Capability) (p e : Option ℕ) (s : CapabilityStatus) → Projects c (changed c p e s)
changed-Projects c p e s = record {
  same_id = refl;
  same_workspace = refl;
  same_connection = refl;
  same_tool = refl;
  epoch = omega arith;
  named = λ h. elim (suc-loop c.status_epoch h) [ ];
}
  where
    suc-loop : (n : ℕ) → n ≡ n + 1 → ⊥
    suc-loop n h = omega (arith, h)

pub enabled_with-Projects : (v : ℕ) (c : Capability) → Projects c (enabled_with v c)
unfolding enabled_with
enabled_with-Projects v c = changed-Projects c none (some v) CapabilityStatus.enabled

pub enabled_with-IsProjected : (v : ℕ) (c : Capability) → IsProjected (enabled_with v c)
unfolding enabled_with
enabled_with-IsProjected v c = record {
  enabled_projection = λ _. (refl, refl);
  pending_projection = λ e. cc;
}

pub switched_off-Projects : (c : Capability) → Projects c (switched_off c)
unfolding switched_off
switched_off-Projects c =
    changed-Projects c c.pending_version_id c.enabled_version_id CapabilityStatus.disabled

pub switched_off-IsProjected : (c : Capability) → IsProjected (switched_off c)
unfolding switched_off
switched_off-IsProjected c = record { enabled_projection = λ e. cc; pending_projection = λ e. cc }

pub recorded-Projects : (v : ℕ) (c : Capability) → Projects c (recorded v c)
unfolding recorded
recorded-Projects v c = changed-Projects c (some v) c.enabled_version_id _

pub recorded-IsProjected : (v : ℕ) (c : Capability) → IsProjected (recorded v c)
unfolding recorded unless_disabled
recorded-IsProjected v c = record {
  enabled_projection = λ e. elim (never c.status e) [ ];
  pending_projection = λ _. refl;
}
  where
    never :
        (s : CapabilityStatus)
        → is_enabled (unless_disabled s CapabilityStatus.pending_review) ≡ true
        → ⊥
    never s e = ground arith

unless_disabled-enabled :
    (s : CapabilityStatus) → is_pending_review (unless_disabled s CapabilityStatus.enabled) ≡ false
unless_disabled-enabled s = unfold unless_disabled in ground arith

unless_disabled-pending :
    (s : CapabilityStatus) → is_enabled (unless_disabled s CapabilityStatus.pending_review) ≡ false
unless_disabled-pending s = unfold unless_disabled in ground arith

-- a change that an observation makes to a known version
abbrev Observed : Capability → Capability → Type 0
Observed c d = Projects c d × IsProjected d

observed :
    (c d : Capability) (p e : Option ℕ) (s : CapabilityStatus)
    → (is_enabled s ≡ true → (is_some e ≡ true) × (p ≡ none))
    → (is_pending_review s ≡ true → is_some p ≡ true)
    → changed c p e s ≡ d
    → Observed c d
observed c d p e s en pe same =
    subst (Observed c) same
      (changed-Projects c p e s, record { enabled_projection = en; pending_projection = pe })

module _ (c d : Capability) (existing : ℕ) where
  pub observed_again-Observed : observed_again c existing ≡ some d → Projects c d × IsProjected d
  unfolding observed_again
  observed_again-Observed e =
      let enabled = holds_id c.enabled_version_id existing in
      let pending = holds_id c.pending_version_id existing in
      elim (Bool-cases (enabled && is_some c.pending_version_id)) [
        | inl a ↦
            observed c d none c.enabled_version_id
              (unless_disabled c.status CapabilityStatus.enabled)
              (λ _. (holds_id-some c.enabled_version_id existing (ground arith), refl))
              (λ q. elim (absurd (unless_disabled-enabled c.status) q) [ ]) (some-inj (rw a at e))
        | inr a ↦ elim (Bool-cases (enabled && is_unavailable c.status)) [
          | inl b ↦
              observed c d c.pending_version_id c.enabled_version_id CapabilityStatus.enabled
                (λ _. (
                  holds_id-some c.enabled_version_id existing (ground arith),
                  is_some-none c.pending_version_id (ground arith),
                ))
                (λ q. cc) (some-inj (rw (a, b) at e))
          | inr b ↦ elim (Bool-cases (is_unavailable c.status && pending)) [
            | inl k ↦
                observed c d c.pending_version_id c.enabled_version_id
                  CapabilityStatus.pending_review (λ q. cc)
                  (λ _. holds_id-some c.pending_version_id existing (ground arith))
                  (some-inj (rw (a, b, k) at e))
            | inr k ↦ elim (Bool-cases (not enabled && not pending)) [
              | inl m ↦
                  observed c d (some existing) c.enabled_version_id
                    (unless_disabled c.status CapabilityStatus.pending_review)
                    (λ q. elim (absurd (unless_disabled-pending c.status) q) [ ]) (λ _. refl)
                    (some-inj (rw (a, b, k, m) at e))
              | inr m ↦ cc (rw (a, b, k, m) at e)
            ]
          ]
        ]
      ]

-- `_mark_missing_unavailable`
pub unavailable-Projects : (c : Capability) → Projects c (now_unavailable c)
unfolding now_unavailable
unavailable-Projects c =
    changed-Projects c c.pending_version_id c.enabled_version_id CapabilityStatus.unavailable

pub unavailable-IsProjected : (c : Capability) → IsProjected (now_unavailable c)
unfolding now_unavailable
unavailable-IsProjected c = record { enabled_projection = λ e. cc; pending_projection = λ e. cc }
