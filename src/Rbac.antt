-- ===== src/Rbac.antt =====
-- internal/security/rbac/rbac.go: permissions, the default permissions of each workspace role, and
-- the overlay of custom roles. `Permission` is a string type, and a `map[Permission]bool` is a `Dict`.
pub mod Strings
pub mod Parsing
pub mod Checker
pub mod Merging
pub mod Hierarchy
pub mod Normalizing
pub mod Assigned
pub mod Resolving
mod Tests
use aloqa_claude.Prelude.{
  String, Bool, true, false, Option, none, some, List, [], ◌∷◌, Dict, lookup, insert, has_key,
  if◌then◌else◌, string_key, contains, ◌==◌,
}
use aloqa_claude.Errors.{Result, ok, err, foreign, nothing}
use aloqa_claude.Entity.Roles.{
  WorkspaceRole, owner, admin, member, guest, other_role, WorkspaceRoleDefinition,
}

abbrev pub Permission : Type 0
Permission = String

pub record RoleDefinition : Type 0 where
  pub name : String
  pub base_role : WorkspaceRole
  pub permissions : Dict Permission Bool

abbrev granted : Option Bool → Bool
granted none = false
granted (some b) = b

-- `m[permission]`: a missing key reads as false.
abbrev pub permits : Dict Permission Bool → Permission → Bool
permits m permission = granted (lookup permission m)

-- `RoleDefinition.Has`
abbrev pub has : RoleDefinition → Permission → Bool
has r permission = permits r.permissions permission

-- `for _, p := range ps { permissions[p] = true }`
unfoldable pub grant_all : List Permission → Dict Permission Bool → Dict Permission Bool
grant_all [] m = m
grant_all (p ∷ ps) m = grant_all ps (insert p true m)

unfoldable pub admin_permissions : List Permission
admin_permissions =
    "workspace.settings.manage" ∷ "member.read" ∷ "member.invite" ∷ "member.manage"
    ∷ "channel.create" ∷ "channel.manage" ∷ "message.send" ∷ "message.moderate" ∷ "call.start"
    ∷ "call.moderate" ∷ "recording.start" ∷ "recording.read" ∷ "marketplace.manage" ∷ "ai.use"
    ∷ "telephony.use" ∷ "collaboration.manage" ∷ "directory.shared.read"
    ∷ "direct_message.shared.start" ∷ "workspace.external.invite" ∷ []

-- The map literal that every known role but the guest starts from.
unfoldable pub member_permissions : Dict Permission Bool
member_permissions =
    ("member.read", true)
    ∷ ("channel.create", true)
    ∷ ("message.send", true)
    ∷ ("call.start", true)
    ∷ ("recording.read", true)
    ∷ ("ai.use", true)
    ∷ ("directory.shared.read", true)
    ∷ ("direct_message.shared.start", true)
    ∷ []

unfoldable pub guest_permissions : Dict Permission Bool
guest_permissions =
    ("member.read", true)
    ∷ ("message.send", true)
    ∷ ("call.start", true)
    ∷ ("recording.read", true)
    ∷ []

unfoldable pub default_workspace_permissions : WorkspaceRole → Dict Permission Bool
default_workspace_permissions owner =
    insert "white_label.manage" true
      (insert "workspace.manage" true (grant_all admin_permissions member_permissions))
default_workspace_permissions admin = grant_all admin_permissions member_permissions
default_workspace_permissions member = member_permissions
default_workspace_permissions guest = guest_permissions
default_workspace_permissions (other_role _) = []

abbrev role_name : WorkspaceRole → String
role_name owner = "owner"
role_name admin = "admin"
role_name member = "member"
role_name guest = "guest"
role_name (other_role s) = s

unfoldable pub default_workspace_role : WorkspaceRole → RoleDefinition
default_workspace_role role = record {
  name = role_name role;
  base_role = role;
  permissions = default_workspace_permissions role;
}
