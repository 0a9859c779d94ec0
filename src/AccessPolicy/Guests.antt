-- ===== src/AccessPolicy/Guests.antt =====
-- The access policy with the guest checker of internal/security/guestaccess behind its interface.
use aloqa_claude.Prelude.{ℕ, ◌≡◌, refl, true, false, not, is_some, any, Option, some, List, arith}
use aloqa_claude.Errors.{ok}
use aloqa_claude.Entity.Roles.{Channel}
use aloqa_claude.Entity.Guests.{GuestAccessGrant}
use aloqa_claude.Repository.{GuestAccessRepository}
use aloqa_claude.GuestAccess
use aloqa_claude.GuestAccess.Laws.{call_guest_sees_no_channel}
use aloqa_claude.AccessPolicy.{
  Subject, GuestAccess as GuestInterface, as_guest, Capability, ChannelDecision, Checker,
  guest_channel, guest_workspace, workspace_access,
}
use aloqa_claude.AccessPolicy.Channels.{channel_access}
use aloqa_claude.AccessPolicy.Grounds.{
  Grounds, saved_owner, saved_global_owner, workspace_member, invited_guest, collaborator,
}
use aloqa_claude.AccessPolicy.Decisions.{channel_access_exact}
use aloqa_claude.AccessPolicy.Workspaces.{Entry, belongs, invited, workspace_access_exact}

-- The methods of the guest checker, at a time.
abbrev pub guest_interface : Option GuestAccess.Checker → ℕ → GuestInterface
guest_interface g now = record {
  has_workspace_access = λ workspace user. GuestAccess.has_workspace_access g workspace user now;
  has_channel_access =
      λ workspace channel user. GuestAccess.has_channel_access g workspace channel user now;
}

as_guest-Grounds :
    (c : Checker) (path : ℕ) (ch : Channel) (user : ℕ) (capability : Capability) (workspace : ℕ)
    (d : ChannelDecision)
    → Grounds c path ch user capability d
    → ch.workspace_id ≡ some workspace
    → d.subject ≡ as_guest
    → guest_channel c.guests workspace ch.id user ≡ ok true
as_guest-Grounds c path ch user capability workspace d (saved_owner w t o i p) q g = cc
as_guest-Grounds c path ch user capability workspace d (saved_global_owner m t o p e) q g = cc
as_guest-Grounds c path ch user capability workspace d (workspace_member w m found i p e f a) q g =
    cc
as_guest-Grounds c path ch user capability workspace d (invited_guest w t i p e k) q g =
    ground (arith, i, q, k)
as_guest-Grounds c path ch user capability workspace d (collaborator w m t i p e k f a) q g = cc

as_guest-Entry :
    (c : Checker) (workspace user : ℕ) (s : Subject)
    → Entry c workspace user s
    → s ≡ as_guest
    → guest_workspace c.guests workspace user ≡ ok true
as_guest-Entry c workspace user s (belongs m q) g = cc
as_guest-Entry c workspace user s (invited o k) g = k

-- A guest all of whose grants in a workspace are bound to calls never enters that workspace as a
-- guest, and reaches none of its channels as a guest, whatever the path and the capability.
pub call_guest_reaches_nothing :
    (c : Checker) (repo : GuestAccessRepository) (workspace user now path : ℕ)
    (gs : List GuestAccessGrant) (ch : Channel) (capability : Capability)
    → c.guests ≡ some (guest_interface (some (record { grants = some repo })) now)
    → repo.list_active_by_user_workspace user workspace now ≡ ok gs
    → any (λ g. not (is_some g.call_id)) gs ≡ false
    → c.channels.get_by_id ch.id ≡ ok ch
    → ch.workspace_id ≡ some workspace
    → (¬ (workspace_access (some c) workspace user ≡ ok as_guest))
      × (¬ (
          (d : ChannelDecision) × (channel_access (some c) path ch.id user capability ≡ ok d)
          × (d.subject ≡ as_guest)))
call_guest_reaches_nothing c repo workspace user now path gs ch capability behind listed bound found
      home =
    let (no_workspace, no_channel) =
      call_guest_sees_no_channel repo workspace user now gs listed bound in
    (
      λ h.
          let entry = (workspace_access_exact c workspace user as_guest).0 h in
          ground (arith, behind, as_guest-Entry c workspace user as_guest entry refl, no_workspace),
      λ r.
          let (d, h, g) = r in
          let (ch', q, u, grounds) = (channel_access_exact c path ch.id user capability d).0 h in
          let opened =
            as_guest-Grounds c path ch' user capability workspace d grounds
              (ground (arith, found, q, home)) g in
          ground (arith, behind, opened, no_channel ch'.id),
    )
