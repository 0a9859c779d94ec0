-- ===== src/AccessPolicy.antt =====
-- internal/security/accesspolicy/checker.go: who may reach a workspace and a channel. A nil checker,
-- store or interface is `none`; `path` is the workspace of the request's path, 0 when it has none;
-- a store that answers without an error answers with a record.
pub mod Channels
pub mod Grounds
pub mod Decisions
pub mod Workspaces
pub mod Guests
pub mod Listing
pub mod Paging
pub mod Truncation
pub mod Listed
mod Tests
use aloqa_claude.Prelude.{
  ℕ, Bool, true, false, not, ◌&&◌, ◌||◌, Option, none, some, List, [], ◌∷◌, if◌then◌else◌, ◌==◌,
  number_key, is_some,
}
use aloqa_claude.Errors.{
  Error, Result, ok, err, ◌>>=◌, ◌>>◌, is_not_found, is_forbidden, not_found_error, forbidden_error,
  internal_error,
}
use aloqa_claude.Entity.Roles.{
  WorkspaceMember, ChannelType, public_channel, private_channel, dm, group_dm, saved, saved_global,
  other_channel, is_self_channel, is_direct, Channel, ChannelMember,
}
use aloqa_claude.Entity.Guests.{points_to}
use aloqa_claude.Repository.{WorkspaceRepository, ChannelRepository}
use aloqa_claude.CollabAccess.{Decision}

pub data Subject : Type 0 where
  as_member as_guest as_collaborator : Subject

pub data Capability : Type 0 where
  view participate manage : Capability

abbrev pub is_manage : Capability → Bool
is_manage manage = true
is_manage _ = false

abbrev pub is_participate : Capability → Bool
is_participate participate = true
is_participate _ = false

pub record GuestAccess : Type 0 where
  pub has_workspace_access : ℕ → ℕ → Result Bool
  pub has_channel_access : ℕ → ℕ → ℕ → Result Bool

pub record CollaborationAccess : Type 0 where
  pub authorize_channel : ℕ → ℕ → Result Decision

pub record ChannelDecision : Type 0 where
  pub subject : Subject
  pub channel : Channel
  pub workspace_member : Option WorkspaceMember
  pub channel_member : Option ChannelMember

pub record Checker : Type 0 where
  pub workspaces : Option WorkspaceRepository
  pub channels : ChannelRepository
  pub guests : Option GuestAccess
  pub collab : Option CollaborationAccess

-- `workspaceMember`
unfoldable pub member_of : Option WorkspaceRepository → ℕ → ℕ → Result WorkspaceMember
member_of none workspace user = err (forbidden_error "workspace access is not configured")
member_of (some workspaces) workspace user = elim (workspaces.get_member workspace user) [
  | ok m ↦ ok m
  | err e ↦
      if is_not_found e
      then err (forbidden_error "user is not a workspace member")
      else err (internal_error "failed to verify workspace membership" e)
]

-- A guest checker that is not there opens nothing.
abbrev pub guest_workspace : Option GuestAccess → ℕ → ℕ → Result Bool
guest_workspace none workspace user = ok false
guest_workspace (some g) workspace user = g.has_workspace_access workspace user

abbrev pub guest_channel : Option GuestAccess → ℕ → ℕ → ℕ → Result Bool
guest_channel none workspace channel user = ok false
guest_channel (some g) workspace channel user = g.has_channel_access workspace channel user

unfoldable pub workspace_access_by : Checker → ℕ → ℕ → Result Subject
workspace_access_by c workspace user = elim (member_of c.workspaces workspace user) [
  | ok _ ↦ ok as_member
  | err e ↦ if not (is_forbidden e) then err e else do
    allowed ← guest_workspace c.guests workspace user
    if allowed
        then ok as_guest
        else err (forbidden_error "user does not have access to this workspace")
]

unfoldable pub workspace_access : Option Checker → ℕ → ℕ → Result Subject
unfolding workspace_access_by
workspace_access none workspace user = err (forbidden_error "workspace access is not configured")
workspace_access (some c) workspace user = workspace_access_by c workspace user
