-- ===== src/Rbac/Checker.antt =====
-- internal/security/rbac/rbac.go (`Merge`) and checker.go: the effective role of a workspace member.
use aloqa_claude.Prelude.{
  ℕ, Bool, true, false, Option, none, some, List, [], ◌∷◌, Dict, insert, if◌then◌else◌, string_key,
  ◌==◌,
}
use aloqa_claude.Errors.{
  Result, ok, err, foreign, wraps, ◌>>=◌, is_not_found, forbidden_error, internal_error,
}
use aloqa_claude.Entity.Roles.{WorkspaceRole, role_key, WorkspaceRoleDefinition}
use aloqa_claude.Repository.{WorkspaceRepository, WorkspaceRoleRepository}
use aloqa_claude.Rbac.{Permission, RoleDefinition, has, default_workspace_role}
use aloqa_claude.Rbac.Parsing.{role_definition_from_entity}

-- `for permission, allowed := range from { to[permission] = allowed }`
unfoldable pub copy_permissions : Dict Permission Bool → Dict Permission Bool → Dict Permission Bool
copy_permissions [] to = to
copy_permissions ((permission, allowed) ∷ rest) to =
    copy_permissions rest (insert permission allowed to)

-- `for permission, allowed := range overlay { if allowed { to[permission] = true } }`
unfoldable pub overlay_permissions :
    Dict Permission Bool → Dict Permission Bool → Dict Permission Bool
overlay_permissions [] to = to
overlay_permissions ((permission, allowed) ∷ rest) to =
    overlay_permissions rest (if allowed then insert permission true to else to)

unfoldable pub overlay_all : List RoleDefinition → Dict Permission Bool → Dict Permission Bool
overlay_all [] to = to
overlay_all (overlay ∷ overlays) to =
    overlay_all overlays (overlay_permissions overlay.permissions to)

unfoldable pub merge : RoleDefinition → List RoleDefinition → RoleDefinition
merge base overlays = record base {
  permissions = overlay_all overlays (copy_permissions base.permissions []);
}

pub record PermissionChecker : Type 0 where
  pub members : WorkspaceRepository
  pub roles : Option WorkspaceRoleRepository

-- The loop of `Resolve`: definitions made for another base role are skipped.
unfoldable pub apply_definitions :
    WorkspaceRole → RoleDefinition → List WorkspaceRoleDefinition → Result RoleDefinition
apply_definitions role effective [] = ok effective
apply_definitions role effective (definition ∷ definitions) = elim (definition.base_role == role) [
  | false ↦ apply_definitions role effective definitions
  | true ↦ elim (role_definition_from_entity definition) [
    | err e ↦
        err (internal_error "failed to resolve workspace permissions" (foreign "role" (wraps e)))
    | ok overlay ↦ apply_definitions role (merge effective (overlay ∷ [])) definitions
  ]
]

unfoldable pub overlay_assigned :
    Option WorkspaceRoleRepository → WorkspaceRole → ℕ → ℕ → Result RoleDefinition
overlay_assigned none role workspace user = ok (default_workspace_role role)
overlay_assigned (some roles) role workspace user =
    elim (roles.list_assigned_definitions workspace user) [
      | err e ↦ err (internal_error "failed to load assigned workspace roles" e)
      | ok definitions ↦ apply_definitions role (default_workspace_role role) definitions
    ]

unfoldable pub resolve : PermissionChecker → ℕ → ℕ → Result RoleDefinition
resolve c workspace user = elim (c.members.get_member workspace user) [
  | err e ↦
      if is_not_found e
      then err (forbidden_error "user is not a workspace member")
      else err (internal_error "failed to verify workspace membership" e)
  | ok m ↦ overlay_assigned c.roles m.role workspace user
]

unfoldable pub has_permission : PermissionChecker → ℕ → ℕ → Permission → Result Bool
has_permission c workspace user permission = do
  role ← resolve c workspace user
  ok (has role permission)

unfoldable pub require : PermissionChecker → ℕ → ℕ → Permission → Result (Unit {0})
require c workspace user permission = do
  allowed ← has_permission c workspace user permission
  if allowed
      then ok tt
      else err (forbidden_error "workspace role does not have required permission")
