-- ===== src/Entity/Connections.antt =====
-- internal/domain/entity/workspace_collaboration.go and channel_access_grant.go.
use aloqa_claude.Prelude.{ℕ, String, Bool, true, false, ◌||◌, ◌&&◌, Option, List, [], ◌∷◌, ◌==◌}
use aloqa_claude.Entity.Roles.{WorkspaceRole, role_key}

pub data WorkspaceConnectionStatus : Type 0 where
  pending active paused revoked : WorkspaceConnectionStatus

abbrev pub is_pending : WorkspaceConnectionStatus → Bool
is_pending pending = true
is_pending _ = false

abbrev pub is_active_status : WorkspaceConnectionStatus → Bool
is_active_status active = true
is_active_status _ = false

-- `unset` is the empty string.
pub data DirectoryVisibility : Type 0 where
  no_directory basic directory unset_directory : DirectoryVisibility
  other_directory : String → DirectoryVisibility

pub data ContactPolicy : Type 0 where
  no_contact role_based mutual_allow open_contact unset_contact : ContactPolicy
  other_contact : String → ContactPolicy

pub record WorkspaceConnectionPolicy : Type 0 where
  pub directory_visibility : DirectoryVisibility
  pub contact_policy : ContactPolicy
  pub allowed_source_roles : List WorkspaceRole
  pub allowed_target_roles : List WorkspaceRole
  pub shared_channels : Bool
  pub shared_calls : Bool
  pub expires_at : Option ℕ

pub record WorkspaceConnection : Type 0 where
  pub id : ℕ
  pub source_workspace_id : ℕ
  pub target_workspace_id : ℕ
  pub status : WorkspaceConnectionStatus
  pub policy : WorkspaceConnectionPolicy
  pub created_by : ℕ
  pub approved_by : Option ℕ
  pub created_at : ℕ
  pub updated_at : ℕ

abbrev shows_directory : DirectoryVisibility → Bool
shows_directory basic = true
shows_directory directory = true
shows_directory _ = false

unfoldable pub can_view_directory : WorkspaceConnectionPolicy → Bool
can_view_directory p = shows_directory p.directory_visibility

unfoldable pub role_allowed : WorkspaceRole → List WorkspaceRole → Bool
role_allowed role [] = false
role_allowed role (candidate ∷ allowed) = role == candidate || role_allowed role allowed

unfoldable pub can_contact_by :
    ContactPolicy → WorkspaceConnectionPolicy → WorkspaceRole → WorkspaceRole → Bool
can_contact_by open_contact p source target = true
can_contact_by role_based p source target =
    role_allowed source p.allowed_source_roles && role_allowed target p.allowed_target_roles
can_contact_by _ p source target = false

-- `CanContact`
unfoldable pub can_contact : WorkspaceConnectionPolicy → WorkspaceRole → WorkspaceRole → Bool
unfolding can_contact_by
can_contact p source target = can_contact_by p.contact_policy p source target

pub record ChannelAccessGrant : Type 0 where
  pub channel_id : ℕ
  pub workspace_id : ℕ
  pub user_id : ℕ
  pub source_user_id : ℕ
  pub remote_workspace_id : ℕ
  pub allow_calls : Bool
