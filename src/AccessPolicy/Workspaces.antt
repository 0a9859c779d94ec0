-- ===== src/AccessPolicy/Workspaces.antt =====
-- Exactly when a user reaches a workspace, and what that has to do with its channels.
use aloqa_claude.Prelude.{ℕ, ◌≡◌, ◌↔◌, inl, inr, true, false, some, arith, subst}
use aloqa_claude.Errors.{Result, ok, Result-cases}
use aloqa_claude.Entity.Roles.{WorkspaceMember}
use aloqa_claude.AccessPolicy.{
  Subject, as_member, as_guest, Checker, member_of, guest_workspace, workspace_access,
  workspace_access_by,
}
use aloqa_claude.AccessPolicy.Grounds.{Outsider}

-- The grounds on which a workspace opens, each with the subject that it makes of the user.
pub data Entry (c : Checker) (workspace user : ℕ) : Subject → Type 0 where
  belongs :
      (m : WorkspaceMember)
      → member_of c.workspaces workspace user ≡ ok m
      → Entry c workspace user as_member
  invited :
      Outsider c workspace user
      → guest_workspace c.guests workspace user ≡ ok true
      → Entry c workspace user as_guest

Entry-access :
    (c : Checker) (workspace user : ℕ) (s : Subject)
    → Entry c workspace user s
    → workspace_access (some c) workspace user ≡ ok s
unfolding workspace_access workspace_access_by
Entry-access c workspace user s (belongs m q) = ground (arith, q)
Entry-access c workspace user s (invited (e, q, f) g) = ground (arith, q, f, g)

by_subject :
    (c : Checker) (workspace user : ℕ) (s t : Subject)
    → ◌≡◌ {A = Result Subject} (ok s) (ok t)
    → Entry c workspace user s
    → Entry c workspace user t
by_subject c workspace user s t e entry = subst (Entry c workspace user) (cc) entry

access-Entry :
    (c : Checker) (workspace user : ℕ) (s : Subject)
    → workspace_access (some c) workspace user ≡ ok s
    → Entry c workspace user s
unfolding workspace_access workspace_access_by
access-Entry c workspace user s h = elim (Result-cases (member_of c.workspaces workspace user)) [
  | inr (m, q) ↦ by_subject c workspace user as_member s (ground (arith, q, h)) (belongs m q)
  | inl (e, q) ↦ elim (Result-cases (guest_workspace c.guests workspace user)) [
    | inl (x, k) ↦ absurd (ground (arith, q, k, h))
    | inr (false, k) ↦ absurd (ground (arith, q, k, h))
    | inr (true, k) ↦
        by_subject c workspace user as_guest s (ground (arith, q, k, h))
          (invited (e, q, ground (arith, q, k, h)) k)
  ]
]

-- A workspace opens exactly to a member who is found, and, as a guest, to a user whose membership is
-- refused (and not just unknown) and whom the guest checker admits; nobody enters a workspace as a
-- collaborator.
pub workspace_access_exact :
    (c : Checker) (workspace user : ℕ) (s : Subject)
    → (workspace_access (some c) workspace user ≡ ok s) ↔ Entry c workspace user s
workspace_access_exact c workspace user s =
    (access-Entry c workspace user s, Entry-access c workspace user s)
