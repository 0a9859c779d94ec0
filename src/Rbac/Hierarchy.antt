-- ===== src/Rbac/Hierarchy.antt =====
-- How the default permissions of the workspace roles compare.
use aloqa_claude.Prelude.{
  String, ◌≡◌, refl, ◌∙◌, Bool, true, false, ◌||◌, ◌&&◌, List, [], ◌∷◌, Dict, insert, Distinct,
  Distinct-insert, string_key, ◌==◌, arith, contains,
}
use aloqa_claude.Entity.Roles.{WorkspaceRole, owner, admin, member, guest, other_role}
use aloqa_claude.Rbac.{
  Permission, permits, has, grant_all, default_workspace_permissions, default_workspace_role,
  admin_permissions, member_permissions, guest_permissions,
}
use aloqa_claude.Rbac.Parsing.{all_permissions}
use aloqa_claude.Rbac.Merging.{permits-insert, IsRole}

pub permits-grant_all :
    (ps : List Permission) (m : Dict Permission Bool) (p : Permission)
    → permits (grant_all ps m) p ≡ (contains ps p || permits m p)
unfolding grant_all
permits-grant_all [] m p = refl
permits-grant_all (q ∷ ps) m p =
    ground (arith, permits-insert q p true m, permits-grant_all ps (insert q true m) p)

grant_all-Distinct :
    (ps : List Permission) (m : Dict Permission Bool) → Distinct m → Distinct (grant_all ps m)
unfolding grant_all
grant_all-Distinct [] m d = d
grant_all-Distinct (q ∷ ps) m d =
    grant_all-Distinct ps (insert q true m) (Distinct-insert q true m d)

guest_within_member :
    (p : Permission) → permits guest_permissions p ≡ true → permits member_permissions p ≡ true
unfolding guest_permissions member_permissions
guest_within_member p h = ground arith

-- The owner's default permissions are the administrator's and the two that manage the workspace and
-- its branding; the administrator's are those of `adminPermissions` and of every member; a member has
-- all that a guest has; and an unknown role has none.
pub default_hierarchy :
    (p : Permission) (s : String)
    → (has (default_workspace_role owner) p ≡ (
        "white_label.manage" == p
        || "workspace.manage" == p
        || has (default_workspace_role admin) p))
      × (has (default_workspace_role admin) p
          ≡ (contains admin_permissions p || has (default_workspace_role member) p))
      × (has (default_workspace_role guest) p ≡ true → has (default_workspace_role member) p ≡ true)
      × (has (default_workspace_role (other_role s)) p ≡ false)
unfolding default_workspace_role default_workspace_permissions
default_hierarchy p s = (
  ground (
    arith,
    permits-insert "white_label.manage" p true
        (insert "workspace.manage" true (grant_all admin_permissions member_permissions)),
    permits-insert "workspace.manage" p true (grant_all admin_permissions member_permissions),
  ),
  permits-grant_all admin_permissions member_permissions p,
  guest_within_member p,
  refl,
)

-- The permissions of a map whose every value is true are its keys.
abbrev keys : Dict Permission Bool → List Permission
keys [] = []
keys ((k, _) ∷ m) = k ∷ keys m

abbrev grants_all_keys : Dict Permission Bool → Bool
grants_all_keys [] = true
grants_all_keys ((_, v) ∷ m) = v && grants_all_keys m

permits-keys :
    (m : Dict Permission Bool) (p : Permission)
    → grants_all_keys m ≡ true
    → permits m p ≡ contains (keys m) p
permits-keys [] p h = refl
permits-keys ((k, v) ∷ m) p h = ground (arith, permits-keys m p)

abbrev covers : List Permission → List Permission → Bool
covers [] ys = true
covers (x ∷ xs) ys = contains ys x && covers xs ys

contains-covers :
    (xs ys : List Permission) (p : Permission)
    → covers xs ys ≡ true
    → contains xs p ≡ true
    → contains ys p ≡ true
contains-covers [] ys p c h = cc
contains-covers (x ∷ xs) ys p c h =
    ground (arith, string_key.same_key_iff x p, contains-covers xs ys p)

covers_both :
    (xs ys : List Permission) (p : Permission)
    → covers xs ys ≡ true
    → covers ys xs ≡ true
    → contains xs p ≡ contains ys p
covers_both xs ys p c d = ground (arith, contains-covers xs ys p c, contains-covers ys xs p d)

-- The owner has exactly the permissions that the application knows.
pub owner_permissions_exact :
    (p : Permission) → has (default_workspace_role owner) p ≡ contains all_permissions p
unfolding default_workspace_role default_workspace_permissions all_permissions admin_permissions
    member_permissions grant_all
owner_permissions_exact p =
    permits-keys (default_workspace_permissions owner) p refl
    ∙ covers_both (keys (default_workspace_permissions owner)) all_permissions p refl refl

member_permissions-Distinct : Distinct member_permissions
unfolding member_permissions
member_permissions-Distinct = (refl, (refl, (refl, (refl, (refl, (refl, (refl, (refl, tt))))))))

admin-Distinct : Distinct (grant_all admin_permissions member_permissions)
admin-Distinct = grant_all-Distinct admin_permissions member_permissions member_permissions-Distinct

pub default_workspace_role-IsRole : (role : WorkspaceRole) → IsRole (default_workspace_role role)
unfolding default_workspace_role default_workspace_permissions guest_permissions
default_workspace_role-IsRole owner =
    Distinct-insert "white_label.manage" true _
      (Distinct-insert "workspace.manage" true _ admin-Distinct)
default_workspace_role-IsRole admin = admin-Distinct
default_workspace_role-IsRole member = member_permissions-Distinct
default_workspace_role-IsRole guest = (refl, (refl, (refl, (refl, tt))))
default_workspace_role-IsRole (other_role s) = tt
