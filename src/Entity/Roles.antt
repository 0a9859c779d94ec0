-- ===== src/Entity/Roles.antt =====
-- internal/domain/entity/workspace.go, workspace_role.go and channel.go.
use aloqa_claude.Prelude.{
  ℕ, String, ◌≡◌, ◌↔◌, Bool, true, false, Option, List, KeyType, string_key, ◌==◌, arith,
}

pub data WorkspaceRole : Type 0 where
  owner admin member guest : WorkspaceRole
  other_role : String → WorkspaceRole

abbrev role_beq : WorkspaceRole → WorkspaceRole → Bool
role_beq owner owner = true
role_beq admin admin = true
role_beq member member = true
role_beq guest guest = true
role_beq (other_role s) (other_role t) = s == t
role_beq _ _ = false

pub role_beq_iff : (a b : WorkspaceRole) → (role_beq a b ≡ true) ↔ (a ≡ b)
role_beq_iff (other_role s) (other_role t) = ground (arith, string_key.same_key_iff s t)
role_beq_iff _ _ = ground arith

instance abbrev pub role_key : KeyType WorkspaceRole
role_key = record { same_key = role_beq; same_key_iff = role_beq_iff }

pub record WorkspaceMember : Type 0 where
  pub workspace_id : ℕ
  pub user_id : ℕ
  pub role : WorkspaceRole

pub record WorkspaceRoleDefinition : Type 0 where
  pub id : ℕ
  pub workspace_id : ℕ
  pub name : String
  pub base_role : WorkspaceRole
  pub permissions : List String

pub data ChannelType : Type 0 where
  public_channel private_channel dm group_dm saved saved_global : ChannelType
  other_channel : String → ChannelType

unfoldable pub is_self_channel : ChannelType → Bool
is_self_channel saved = true
is_self_channel saved_global = true
is_self_channel _ = false

-- `t == ChannelTypeDM || t == ChannelTypeGroupDM`
abbrev pub is_direct : ChannelType → Bool
is_direct dm = true
is_direct group_dm = true
is_direct _ = false

pub record Channel : Type 0 where
  pub id : ℕ
  pub workspace_id : Option ℕ
  pub type : ChannelType
  pub owner_user_id : Option ℕ
  pub archived : Bool

pub record ChannelMember : Type 0 where
  pub channel_id : ℕ
  pub user_id : ℕ
