-- ===== src/Rbac/Resolving.antt =====
-- What a workspace member may do, once the custom roles are laid over the default role.
use aloqa_claude.Prelude.{
  ℕ, ◌≡◌, ◌∙◌, Bool, true, false, ◌||◌, List, if◌then◌else◌, string_key, arith, some,
}
use aloqa_claude.Errors.{ok, err, Error, is_not_found, forbidden_error, internal_error}
use aloqa_claude.Entity.Roles.{WorkspaceRole, WorkspaceMember, WorkspaceRoleDefinition, role_key}
use aloqa_claude.Repository.{WorkspaceRoleRepository}
use aloqa_claude.Rbac.{Permission, RoleDefinition, has, default_workspace_role}
use aloqa_claude.Rbac.Hierarchy.{default_workspace_role-IsRole}
use aloqa_claude.Rbac.Checker.{
  PermissionChecker, apply_definitions, resolve, has_permission, require, overlay_assigned,
}
use aloqa_claude.Rbac.Assigned.{
  well_stored, assigns, apply_definitions_ok, stored_error, apply_definitions_unknown,
}

-- What the default role and the assigned definitions grant a member.
abbrev pub granted_to : WorkspaceRole → List WorkspaceRoleDefinition → Permission → Bool
granted_to role ds p = assigns role ds p || has (default_workspace_role role) p

module _ (c : PermissionChecker) (workspace user : ℕ) (m : WorkspaceMember)
    (roles : WorkspaceRoleRepository) (ds : List WorkspaceRoleDefinition)
    (found : c.members.get_member workspace user ≡ ok m) (custom : c.roles ≡ some roles)
    (loaded : roles.list_assigned_definitions workspace user ≡ ok ds) where
  resolve-apply :
      resolve c workspace user ≡ apply_definitions m.role (default_workspace_role m.role) ds
  unfolding resolve overlay_assigned
  resolve-apply =
      rw (found, resolve) (rw (custom, overlay_assigned) (rw (loaded, overlay_assigned)))

  -- A workspace member whose assigned definitions hold known permissions only resolves to a role
  -- that grants exactly the default permissions of the member's role and those of the definitions
  -- made for that role; definitions made for another role count for nothing.
  pub resolve_grants :
      well_stored m.role ds ≡ true
      → (r : RoleDefinition) × (resolve c workspace user ≡ ok r)
        × ((p : Permission) → has r p ≡ granted_to m.role ds p)
  resolve_grants w =
      let (r, e, grants) =
        apply_definitions_ok m.role (default_workspace_role m.role) ds
          (default_workspace_role-IsRole m.role) w in
      (r, resolve-apply ∙ e, grants)

  -- The gate that the services call: with known permissions stored, `Require` passes exactly when
  -- the permission is granted, and refuses with a forbidden error otherwise.
  pub require_decides :
      (p : Permission)
      → well_stored m.role ds ≡ true
      → require c workspace user p ≡ (
          if granted_to m.role ds p
          then ok tt
          else err (forbidden_error "workspace role does not have required permission"))
  unfolding require has_permission
  require_decides p w =
      let (r, e, grants) = resolve_grants w in rw (e, require, has_permission) (rw (grants p))

  -- A definition made for the member's role that holds an unknown permission closes the gate for
  -- every permission: the answer is an internal error, and none of the definitions applies.
  pub require_fails_closed :
      (p : Permission)
      → well_stored m.role ds ≡ false
      → (e : Error) × (require c workspace user p ≡ err (stored_error e))
  unfolding require has_permission
  require_fails_closed p w =
      let (e, fails) =
        apply_definitions_unknown m.role (default_workspace_role m.role) ds
          (default_workspace_role-IsRole m.role) w in
      (e, rw (resolve-apply ∙ fails))

-- A user who is no member is refused with a forbidden error, and a failure of the store with an
-- internal one, which is not mistaken for a refusal; neither passes.
pub require_no_member :
    (c : PermissionChecker) (workspace user : ℕ) (p : Permission) (e : Error)
    → c.members.get_member workspace user ≡ err e
    → require c workspace user p ≡ (
        if is_not_found e
        then err (forbidden_error "user is not a workspace member")
        else err (internal_error "failed to verify workspace membership" e))
unfolding require has_permission resolve
require_no_member c workspace user p e h = ground arith
