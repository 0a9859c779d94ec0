-- ===== src/Rbac/Assigned.antt =====
-- What the stored role definitions of a member add up to.
use aloqa_claude.Prelude.{
  String, ◌≡◌, refl, ◌∙◌, Bool, true, false, ◌||◌, ◌&&◌, List, [], ◌∷◌, Dict, insert, Distinct,
  Distinct-insert, string_key, ◌==◌, any, arith, Option, none, some, not, is_some, Option-cases,
  Bool-cases, inl, inr,
}
use aloqa_claude.Errors.{Result, ok, err, Error, internal_error, foreign, wraps, nothing}
use aloqa_claude.Entity.Roles.{WorkspaceRole, WorkspaceRoleDefinition, role_key}
use aloqa_claude.Rbac.{Permission, RoleDefinition, permits, has}
use aloqa_claude.Rbac.Parsing.{parse_permission, load_permissions, role_definition_from_entity}
use aloqa_claude.Rbac.Merging.{permits-insert, IsRole, has-merge, merge-IsRole}
use aloqa_claude.Rbac.Checker.{apply_definitions, merge}

abbrev pub names_permission : Permission → Option Permission → Bool
names_permission p none = false
names_permission p (some q) = q == p

-- The stored strings name the permission.
abbrev pub lists : List String → Permission → Bool
lists raws p = any (λ raw. names_permission p (parse_permission raw)) raws

-- Every stored string names a permission that is known.
abbrev pub all_known : List String → Bool
all_known [] = true
all_known (raw ∷ raws) = is_some (parse_permission raw) && all_known raws

pub load_permissions_ok :
    (raws : List String) (m : Dict Permission Bool)
    → all_known raws ≡ true
    → (m' : Dict Permission Bool) × (load_permissions raws m ≡ ok m')
      × ((p : Permission) → permits m' p ≡ (lists raws p || permits m p))
unfolding load_permissions
load_permissions_ok [] m h = (m, refl, λ p. refl)
load_permissions_ok (raw ∷ raws) m h = elim (Option-cases (parse_permission raw)) [
  | inl e ↦ ground (arith)
  | inr (q, e) ↦
      let (m', loads, spec) = load_permissions_ok raws (insert q true m) (ground arith) in
      (m', rw (e, load_permissions) loads, λ p. ground (arith, spec p, permits-insert q p true m))
]

pub load_permissions-Distinct :
    (raws : List String) (m m' : Dict Permission Bool)
    → load_permissions raws m ≡ ok m'
    → Distinct m
    → Distinct m'
unfolding load_permissions
load_permissions-Distinct [] m m' h d = ground arith
load_permissions-Distinct (raw ∷ raws) m m' h d = elim (Option-cases (parse_permission raw)) [
  | inl e ↦ ground arith
  | inr (q, e) ↦
      load_permissions-Distinct raws (insert q true m) m' (rw (e, load_permissions) at h)
        (Distinct-insert q true m d)
]

pub load_permissions_unknown :
    (raws : List String) (m : Dict Permission Bool)
    → all_known raws ≡ false
    → (e : Error) × (load_permissions raws m ≡ err e)
unfolding load_permissions
load_permissions_unknown [] m h = cc
load_permissions_unknown (raw ∷ raws) m h = elim (Option-cases (parse_permission raw)) [
  | inl e ↦
      (foreign "invalid permission in stored role definition" nothing, rw (e, load_permissions))
  | inr (q, e) ↦
      let (x, fails) = load_permissions_unknown raws (insert q true m) (ground arith) in
      (x, rw (e, load_permissions) fails)
]

-- The definition was made for this base role.
abbrev pub applies_to : WorkspaceRole → WorkspaceRoleDefinition → Bool
applies_to role d = d.base_role == role

-- Every definition made for the role has known permissions only.
abbrev pub well_stored : WorkspaceRole → List WorkspaceRoleDefinition → Bool
well_stored role [] = true
well_stored role (d ∷ ds) =
    (not (applies_to role d) || all_known d.permissions) && well_stored role ds

-- Some definition made for the role lists the permission.
abbrev pub assigns : WorkspaceRole → List WorkspaceRoleDefinition → Permission → Bool
assigns role ds p = any (λ d. applies_to role d && lists d.permissions p) ds

pub overlay_of : WorkspaceRoleDefinition → Dict Permission Bool → RoleDefinition
overlay_of d m = record { name = d.name; base_role = d.base_role; permissions = m }

pub apply_definitions-skip :
    (role : WorkspaceRole) (effective : RoleDefinition) (d : WorkspaceRoleDefinition)
    (ds : List WorkspaceRoleDefinition)
    → applies_to role d ≡ false
    → apply_definitions role effective (d ∷ ds) ≡ apply_definitions role effective ds
unfolding apply_definitions
apply_definitions-skip role effective d ds h = rw (h, apply_definitions)

pub apply_definitions-take :
    (role : WorkspaceRole) (effective : RoleDefinition) (d : WorkspaceRoleDefinition)
    (ds : List WorkspaceRoleDefinition) (m : Dict Permission Bool)
    → applies_to role d ≡ true
    → load_permissions d.permissions [] ≡ ok m
    → apply_definitions role effective (d ∷ ds)
      ≡ apply_definitions role (merge effective (overlay_of d m ∷ [])) ds
unfolding apply_definitions role_definition_from_entity overlay_of
apply_definitions-take role effective d ds m h l = ground arith

pub has-overlay :
    (effective : RoleDefinition) (d : WorkspaceRoleDefinition) (m : Dict Permission Bool)
    (p : Permission)
    → IsRole effective
    → load_permissions d.permissions [] ≡ ok m
    → permits m p ≡ (lists d.permissions p || false)
    → has (merge effective (overlay_of d m ∷ [])) p ≡ (lists d.permissions p || has effective p)
unfolding overlay_of
has-overlay effective d m p i l h = ground (
  arith,
  has-merge effective (overlay_of d m ∷ []) p i
      (load_permissions-Distinct d.permissions [] m l tt, tt),
)

-- The loop over the assigned definitions ends with a role that grants what `granted` says.
abbrev pub Resolves : Result RoleDefinition → (Permission → Bool) → Type 0
Resolves result granted =
    (r : RoleDefinition) × (result ≡ ok r) × ((p : Permission) → has r p ≡ granted p)

pub apply_definitions_ok :
    (role : WorkspaceRole) (effective : RoleDefinition) (ds : List WorkspaceRoleDefinition)
    → IsRole effective
    → well_stored role ds ≡ true
    → Resolves (apply_definitions role effective ds) (λ p. assigns role ds p || has effective p)
unfolding apply_definitions
apply_definitions_ok role effective [] i w = (effective, refl, λ p. refl)
apply_definitions_ok role effective (d ∷ ds) i w = elim (Bool-cases (applies_to role d)) [
  | inl same ↦
      let (m, loads, spec) = load_permissions_ok d.permissions [] (ground arith) in
      let next = merge effective (overlay_of d m ∷ []) in
      let (r, resolved, grants) =
        apply_definitions_ok role next ds (merge-IsRole effective (overlay_of d m ∷ []))
          (ground arith) in
      (
        r,
        apply_definitions-take role effective d ds m same loads ∙ resolved,
        λ p. ground (arith, same, grants p, has-overlay effective d m p i loads (spec p)),
      )
  | inr differs ↦
      let (r, resolved, grants) = apply_definitions_ok role effective ds i (ground arith) in
      (
        r,
        apply_definitions-skip role effective d ds differs ∙ resolved,
        λ p. ground (arith, differs, grants p),
      )
]

-- How the error of a stored role definition is reported.
abbrev pub stored_error : Error → Error
stored_error e = internal_error "failed to resolve workspace permissions" (foreign "role" (wraps e))

pub apply_definitions_unknown :
    (role : WorkspaceRole) (effective : RoleDefinition) (ds : List WorkspaceRoleDefinition)
    → IsRole effective
    → well_stored role ds ≡ false
    → (e : Error) × (apply_definitions role effective ds ≡ err (stored_error e))
unfolding apply_definitions role_definition_from_entity
apply_definitions_unknown role effective [] i w = cc
apply_definitions_unknown role effective (d ∷ ds) i w = elim (Bool-cases (applies_to role d)) [
  | inr differs ↦
      let (e, fails) = apply_definitions_unknown role effective ds i (ground arith) in
      (e, apply_definitions-skip role effective d ds differs ∙ fails)
  | inl same ↦ elim (Bool-cases (all_known d.permissions)) [
    | inl known ↦
        let (m, loads, _) = load_permissions_ok d.permissions [] known in
        let (e, fails) =
          apply_definitions_unknown role (merge effective (overlay_of d m ∷ [])) ds
            (merge-IsRole effective (overlay_of d m ∷ [])) (ground arith) in
        (e, apply_definitions-take role effective d ds m same loads ∙ fails)
    | inr unknown ↦
        let (e, fails) = load_permissions_unknown d.permissions [] unknown in
        (e, ground (arith, fails, same))
  ]
]
