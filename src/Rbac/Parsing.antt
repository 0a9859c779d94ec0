-- ===== src/Rbac/Parsing.antt =====
-- internal/security/rbac/rbac.go: the permissions that are known, and the permissions read from
-- stored strings. Formatted values are left out of the messages.
use aloqa_claude.Prelude.{
  String, Bool, true, false, Option, none, some, List, [], ◌∷◌, ◌++◌, Dict, insert, if◌then◌else◌,
  string_key, contains,
}
use aloqa_claude.Errors.{Result, ok, err, foreign, nothing, ◌>>=◌}
use aloqa_claude.Entity.Roles.{WorkspaceRoleDefinition}
use aloqa_claude.Rbac.{Permission, RoleDefinition}
use aloqa_claude.Rbac.Strings.{trim_space, sort_strings}

-- `AllPermissions`, before and after its sort.
abbrev permission_constants : List Permission
permission_constants =
    "workspace.manage" ∷ "workspace.settings.manage" ∷ "member.read" ∷ "member.invite"
    ∷ "member.manage" ∷ "channel.create" ∷ "channel.manage" ∷ "message.send" ∷ "message.moderate"
    ∷ "call.start" ∷ "call.moderate" ∷ "recording.start" ∷ "recording.read" ∷ "marketplace.manage"
    ∷ "ai.use" ∷ "telephony.use" ∷ "white_label.manage" ∷ "collaboration.manage"
    ∷ "directory.shared.read" ∷ "direct_message.shared.start" ∷ "workspace.external.invite" ∷ []

unfoldable pub all_permissions : List Permission
unfolding sort_strings
all_permissions = sort_strings permission_constants

-- `ParsePermission`: `none` for `("", false)`.
unfoldable pub parse_permission : String → Option Permission
unfolding trim_space all_permissions
parse_permission raw =
    if contains all_permissions (trim_space raw) then some (trim_space raw) else none

-- The loop of `NormalizePermissionStrings`; `unique` is the set of the keys met so far.
unfoldable pub normalize_loop : List String → List String → List String → Result (List String)
normalize_loop unique normalized [] = ok normalized
normalize_loop unique normalized (value ∷ raw) = elim (parse_permission value) [
  | none ↦ err (foreign "invalid permission" nothing)
  | some key ↦ elim (contains unique key) [
    | true ↦ normalize_loop unique normalized raw
    | false ↦ normalize_loop (key ∷ unique) (normalized ++ key ∷ []) raw
  ]
]

unfoldable pub normalize_permission_strings : List String → Result (List String)
normalize_permission_strings raw = do
  normalized ← normalize_loop [] [] raw
  ok (sort_strings normalized)

-- The loop of `RoleDefinitionFromEntity` over the stored permissions.
unfoldable pub load_permissions : List String → Dict Permission Bool → Result (Dict Permission Bool)
load_permissions [] permissions = ok permissions
load_permissions (raw ∷ rest) permissions = elim (parse_permission raw) [
  | none ↦ err (foreign "invalid permission in stored role definition" nothing)
  | some permission ↦ load_permissions rest (insert permission true permissions)
]

unfoldable pub role_definition_from_entity : WorkspaceRoleDefinition → Result RoleDefinition
role_definition_from_entity role = do
  permissions ← load_permissions role.permissions []
  ok (record { name = role.name; base_role = role.base_role; permissions = permissions })
