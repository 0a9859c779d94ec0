-- ===== src/Repository.antt =====
-- internal/domain/repository/interfaces.go: the reads of the stores that the checkers make, each a
-- function of its arguments at the time of the check. The request's context is left out.
use aloqa_claude.Prelude.{ℕ, List}
use aloqa_claude.Errors.{Result}
use aloqa_claude.Entity.Roles.{WorkspaceMember, WorkspaceRoleDefinition, Channel, ChannelMember}
use aloqa_claude.Entity.Guests.{GuestAccessGrant}
use aloqa_claude.Entity.Connections.{ChannelAccessGrant}

pub record WorkspaceRepository : Type 0 where
  pub get_member : ℕ → ℕ → Result WorkspaceMember

pub record WorkspaceRoleRepository : Type 0 where
  pub list_assigned_definitions : ℕ → ℕ → Result (List WorkspaceRoleDefinition)

pub record ChannelRepository : Type 0 where
  pub get_by_id : ℕ → Result Channel
  pub get_member : ℕ → ℕ → Result ChannelMember
  pub list_by_user : ℕ → ℕ → Result (List Channel)
  -- By the workspace, the cursor and the limit of the page.
  pub list_by_workspace : ℕ → ℕ → ℕ → Result (List Channel)

-- The current time is the last argument.
pub record GuestAccessRepository : Type 0 where
  pub list_active_by_user_workspace : ℕ → ℕ → ℕ → Result (List GuestAccessGrant)

pub record ChannelAccessGrantRepository : Type 0 where
  pub list_by_channel : ℕ → Result (List ChannelAccessGrant)
