-- ===== src/Rbac/Tests.antt =====
-- A member with a custom role, and the permission gate on it.
use aloqa_claude.Prelude.{
  String, ◌≡◌, refl, some, List, [], ◌∷◌, string_key, if◌then◌else◌, contains,
}
use aloqa_claude.Errors.{Error, ok, err, forbidden_error, not_found_error}
use aloqa_claude.Entity.Roles.{owner, admin, member, WorkspaceMember, WorkspaceRoleDefinition}
use aloqa_claude.Repository.{WorkspaceRepository, WorkspaceRoleRepository}
use aloqa_claude.Rbac.{Permission, RoleDefinition, has, default_workspace_role}
use aloqa_claude.Rbac.Parsing.{all_permissions, parse_permission, normalize_permission_strings}
use aloqa_claude.Rbac.Checker.{PermissionChecker, resolve, require}
use aloqa_claude.Rbac.Hierarchy.{owner_permissions_exact}
use aloqa_claude.Rbac.Normalizing.{Normalizes, normalize_permission_strings_ok}
use aloqa_claude.Rbac.Assigned.{lists, stored_error}
use aloqa_claude.Rbac.Resolving.{granted_to, resolve_grants, require_decides, require_fails_closed}

abbrev ann : WorkspaceMember
ann = record { workspace_id = 1; user_id = 7; role = member }

abbrev people : WorkspaceRepository
people = record { get_member = λ workspace user. ok ann }

abbrev nobody : WorkspaceRepository
nobody = record { get_member = λ workspace user. err (not_found_error "no member") }

abbrev moderator : WorkspaceRoleDefinition
moderator = record {
  id = 3;
  workspace_id = 1;
  name = "moderator";
  base_role = member;
  permissions = "message.moderate" ∷ " call.moderate " ∷ [];
}

abbrev for_admins : WorkspaceRoleDefinition
for_admins = record {
  id = 4;
  workspace_id = 1;
  name = "brand";
  base_role = admin;
  permissions = "white_label.manage" ∷ [];
}

abbrev broken : WorkspaceRoleDefinition
broken = record {
  id = 5;
  workspace_id = 1;
  name = "broken";
  base_role = member;
  permissions = "fly" ∷ [];
}

abbrev roles_of : List WorkspaceRoleDefinition → WorkspaceRoleRepository
roles_of ds = record { list_assigned_definitions = λ workspace user. ok ds }

abbrev checker_of : List WorkspaceRoleDefinition → PermissionChecker
checker_of ds = record { members = people; roles = some (roles_of ds) }

abbrev assigned : List WorkspaceRoleDefinition
assigned = moderator ∷ for_admins ∷ []

resolve_grants_example :
    (r : RoleDefinition) × (resolve (checker_of assigned) 1 7 ≡ ok r)
    × ((p : Permission) → has r p ≡ granted_to member assigned p)
unfolding parse_permission
resolve_grants_example =
    resolve_grants (checker_of assigned) 1 7 ann (roles_of assigned) assigned refl refl refl refl

require_decides_example : require (checker_of assigned) 1 7 "white_label.manage" ≡ (
    if granted_to member assigned "white_label.manage"
    then ok tt
    else err (forbidden_error "workspace role does not have required permission"))
unfolding parse_permission
require_decides_example =
    require_decides (checker_of assigned) 1 7 ann (roles_of assigned) assigned refl refl refl
      "white_label.manage" refl

require_fails_closed_example :
    (e : Error) × (require (checker_of (moderator ∷ broken ∷ [])) 1 7 "message.send"
      ≡ err (stored_error e))
unfolding parse_permission
require_fails_closed_example =
    require_fails_closed (checker_of (moderator ∷ broken ∷ [])) 1 7 ann
      (roles_of (moderator ∷ broken ∷ [])) (moderator ∷ broken ∷ []) refl refl refl "message.send"
      refl

abbrev ai_use : Permission
ai_use = "ai.use"

owner_permissions_exact_example :
    has (default_workspace_role owner) "workspace.manage"
    ≡ contains all_permissions "workspace.manage"
owner_permissions_exact_example = owner_permissions_exact "workspace.manage"

abbrev raw : List String
raw = " message.send" ∷ "ai.use" ∷ "message.send " ∷ []

normalize_permission_strings_ok_example : Normalizes (normalize_permission_strings raw) (lists raw)
unfolding parse_permission
normalize_permission_strings_ok_example = normalize_permission_strings_ok raw refl
