-- ===== src/Rbac/Merging.antt =====
-- What a merge of role definitions permits, whatever the order in which Go walks the maps.
use aloqa_claude.Prelude.{
  ◌≡◌, refl, Bool, true, false, ◌||◌, List, [], ◌∷◌, Dict, insert, has_key, Distinct, lookup-insert,
  Distinct-insert, if◌then◌else◌, string_key, ◌==◌, any, All, arith,
}
use aloqa_claude.Rbac.{Permission, RoleDefinition, permits, has}
use aloqa_claude.Rbac.Checker.{copy_permissions, overlay_permissions, overlay_all, merge}

pub permits-insert :
    (k p : Permission) (v : Bool) (m : Dict Permission Bool)
    → permits (insert k v m) p ≡ (if k == p then v else permits m p)
permits-insert k p v m = ground (arith, lookup-insert k p v m)

permits-copy_permissions :
    (from to : Dict Permission Bool) (p : Permission)
    → Distinct from
    → permits (copy_permissions from to) p
      ≡ (if has_key p from then permits from p else permits to p)
unfolding copy_permissions
permits-copy_permissions [] to p d = refl
permits-copy_permissions ((k, v) ∷ rest) to p d = ground (
  arith,
  string_key.same_key_iff k p,
  permits-insert k p v to,
  permits-copy_permissions rest (insert k v to) p d.1,
)

permits-overlay_permissions :
    (from to : Dict Permission Bool) (p : Permission)
    → Distinct from
    → permits (overlay_permissions from to) p ≡ (permits from p || permits to p)
unfolding overlay_permissions
permits-overlay_permissions [] to p d = refl
permits-overlay_permissions ((k, true) ∷ rest) to p d = ground (
  arith,
  string_key.same_key_iff k p,
  permits-insert k p true to,
  permits-overlay_permissions rest (insert k true to) p d.1,
)
permits-overlay_permissions ((k, false) ∷ rest) to p d =
    ground (arith, string_key.same_key_iff k p, permits-overlay_permissions rest to p d.1)

-- The permissions of a definition form a map.
abbrev pub IsRole : RoleDefinition → Type 0
IsRole r = Distinct r.permissions

permits-overlay_all :
    (overlays : List RoleDefinition) (to : Dict Permission Bool) (p : Permission)
    → All IsRole overlays
    → permits (overlay_all overlays to) p ≡ (any (λ o. has o p) overlays || permits to p)
unfolding overlay_all
permits-overlay_all [] to p d = refl
permits-overlay_all (o ∷ os) to p d = ground (
  arith,
  permits-overlay_permissions o.permissions to p d.0,
  permits-overlay_all os (overlay_permissions o.permissions to) p d.1,
)

-- A merge permits exactly what its base or one of its overlays permits: an overlay adds
-- permissions and never takes one away.
pub has-merge :
    (base : RoleDefinition) (overlays : List RoleDefinition) (p : Permission)
    → IsRole base
    → All IsRole overlays
    → has (merge base overlays) p ≡ (any (λ o. has o p) overlays || has base p)
unfolding merge
has-merge base overlays p b d = ground (
  arith,
  permits-overlay_all overlays (copy_permissions base.permissions []) p d,
  permits-copy_permissions base.permissions [] p b,
)

copy_permissions-Distinct :
    (from to : Dict Permission Bool) → Distinct to → Distinct (copy_permissions from to)
unfolding copy_permissions
copy_permissions-Distinct [] to d = d
copy_permissions-Distinct ((k, v) ∷ rest) to d =
    copy_permissions-Distinct rest (insert k v to) (Distinct-insert k v to d)

overlay_permissions-Distinct :
    (from to : Dict Permission Bool) → Distinct to → Distinct (overlay_permissions from to)
unfolding overlay_permissions
overlay_permissions-Distinct [] to d = d
overlay_permissions-Distinct ((k, true) ∷ rest) to d =
    overlay_permissions-Distinct rest (insert k true to) (Distinct-insert k true to d)
overlay_permissions-Distinct ((k, false) ∷ rest) to d = overlay_permissions-Distinct rest to d

overlay_all-Distinct :
    (overlays : List RoleDefinition) (to : Dict Permission Bool)
    → Distinct to
    → Distinct (overlay_all overlays to)
unfolding overlay_all
overlay_all-Distinct [] to d = d
overlay_all-Distinct (o ∷ os) to d =
    overlay_all-Distinct os (overlay_permissions o.permissions to)
      (overlay_permissions-Distinct o.permissions to d)

pub merge-IsRole :
    (base : RoleDefinition) (overlays : List RoleDefinition) → IsRole (merge base overlays)
unfolding merge
merge-IsRole base overlays =
    overlay_all-Distinct overlays (copy_permissions base.permissions [])
      (copy_permissions-Distinct base.permissions [] tt)
