-- ===== src/Identity.antt =====
-- identity/types.py, and the membership rows of persistence/models.py.
use modall.Common.{ℕ, Bool, true, false}

pub data Role : Type 0 where
  admin operator viewer : Role

pub record WorkspaceContext : Type 0 where
  pub workspace_id : ℕ
  pub actor_user_id : ℕ
  pub role : Role

pub record WorkspaceMembership : Type 0 where
  pub workspace_id : ℕ
  pub user_id : ℕ
  pub role : Role

-- `role in {ADMIN, OPERATOR}`
abbrev pub can_operate : Role → Bool
can_operate Role.admin = true
can_operate Role.operator = true
can_operate Role.viewer = false

-- `role in {ADMIN}`
abbrev pub can_administer : Role → Bool
can_administer Role.admin = true
can_administer _ = false
