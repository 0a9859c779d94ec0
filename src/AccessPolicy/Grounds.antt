-- ===== src/AccessPolicy/Grounds.antt =====
-- The grounds on which a channel opens to a user, and that each of them opens it.
use aloqa_claude.Prelude.{
  ℕ, ◌≡◌, refl, ◌≢◌, true, false, not, ◌&&◌, Option, none, some, number_key, is_some, arith,
}
use aloqa_claude.Errors.{Error, ok, err, is_forbidden}
use aloqa_claude.Entity.Roles.{
  WorkspaceMember, ChannelType, public_channel, private_channel, dm, group_dm, saved, saved_global,
  is_self_channel, is_direct, Channel, ChannelMember,
}
use aloqa_claude.AccessPolicy.{
  as_member, as_guest, as_collaborator, Capability, is_manage, is_participate, ChannelDecision,
  Checker, member_of, guest_channel,
}
use aloqa_claude.AccessPolicy.Channels.{
  authorize_collaboration, find_channel_member, member_switch, require_collaboration,
  channel_decision_for_workspace_member, channel_decision_for_collaborator, off_path, self_switch,
  self_channel_decision, workspace_channel, channel_on_path, found_channel,
}

-- The user is no member of the workspace (and the store did not fail).
abbrev pub Outsider : Checker → ℕ → ℕ → Type 0
Outsider c workspace user =
    (e : Error) × (member_of c.workspaces workspace user ≡ err e) × (is_forbidden e ≡ true)

-- Archived channels open for management only.
abbrev pub Unarchived : Channel → Capability → Type 0
Unarchived ch capability = (ch.archived && not (is_manage capability)) ≡ false

module _ (c : Checker) (path : ℕ) (ch : Channel) (user : ℕ) (capability : Capability) where
  -- What the type of a channel asks of a workspace member, by the row of the channel's member.
  abbrev pub TypeAdmits : ChannelType → Option ChannelMember → Type 0
  TypeAdmits public_channel found = is_participate capability ≡ true → is_some found ≡ true
  TypeAdmits private_channel found = is_some found ≡ true
  TypeAdmits dm found =
      (is_some found ≡ true) × (authorize_collaboration c.collab ch.id user ≡ ok true)
  TypeAdmits group_dm found =
      (is_some found ≡ true) × (authorize_collaboration c.collab ch.id user ≡ ok true)
  TypeAdmits _ found = ⊥

  -- The grounds on which a channel opens, each with the decision that it leads to.
  pub data Grounds : ChannelDecision → Type 0 where
    saved_owner :
        (workspace : ℕ)
        → ch.type ≡ saved
        → ch.owner_user_id ≡ some user
        → ch.workspace_id ≡ some workspace
        → off_path path workspace ≡ false
        → Grounds (record {
          subject = as_member;
          channel = ch;
          workspace_member = none;
          channel_member = none;
        })
    saved_global_owner :
        (m : WorkspaceMember)
        → ch.type ≡ saved_global
        → ch.owner_user_id ≡ some user
        → path ≢ 0
        → member_of c.workspaces path user ≡ ok m
        → Grounds (record {
          subject = as_member;
          channel = ch;
          workspace_member = some m;
          channel_member = none;
        })
    workspace_member :
        (workspace : ℕ) (m : WorkspaceMember) (found : Option ChannelMember)
        → ch.workspace_id ≡ some workspace
        → off_path path workspace ≡ false
        → member_of c.workspaces workspace user ≡ ok m
        → find_channel_member c.channels ch.id user ≡ ok found
        → TypeAdmits ch.type found
        → Grounds (record {
          subject = as_member;
          channel = ch;
          workspace_member = some m;
          channel_member = found;
        })
    invited_guest :
        (workspace : ℕ)
        → is_self_channel ch.type ≡ false
        → ch.workspace_id ≡ some workspace
        → off_path path workspace ≡ false
        → Outsider c workspace user
        → guest_channel c.guests workspace ch.id user ≡ ok true
        → Grounds (record {
          subject = as_guest;
          channel = ch;
          workspace_member = none;
          channel_member = none;
        })
    collaborator :
        (workspace : ℕ) (m : ChannelMember)
        → is_direct ch.type ≡ true
        → ch.workspace_id ≡ some workspace
        → off_path path workspace ≡ false
        → Outsider c workspace user
        → guest_channel c.guests workspace ch.id user ≡ ok false
        → c.channels.get_member ch.id user ≡ ok m
        → authorize_collaboration c.collab ch.id user ≡ ok true
        → Grounds (record {
          subject = as_collaborator;
          channel = ch;
          workspace_member = none;
          channel_member = some m;
        })

  member_switch_ok :
      (t : ChannelType) (m : WorkspaceMember) (found : Option ChannelMember) (d : ChannelDecision)
      → TypeAdmits t found
      → member_switch t c ch capability user found d ≡ ok d
  unfolding member_switch require_collaboration
  member_switch_ok public_channel m found d h = ground arith
  member_switch_ok private_channel m found d h = ground arith
  member_switch_ok dm m found d h = ground arith
  member_switch_ok group_dm m found d h = ground arith
  member_switch_ok _ m found d h = absurd h

  TypeAdmits-not_self :
      (t : ChannelType) (found : Option ChannelMember)
      → TypeAdmits t found
      → is_self_channel t ≡ false
  unfolding is_self_channel
  TypeAdmits-not_self public_channel found h = refl
  TypeAdmits-not_self private_channel found h = refl
  TypeAdmits-not_self dm found h = refl
  TypeAdmits-not_self group_dm found h = refl
  TypeAdmits-not_self _ found h = absurd h

  direct-not_self : (t : ChannelType) → is_direct t ≡ true → is_self_channel t ≡ false
  unfolding is_self_channel
  direct-not_self t h = ground arith

  pub Grounds-found :
      {d : ChannelDecision}
      → Unarchived ch capability
      → Grounds d
      → found_channel c ch path user capability ≡ ok d
  unfolding found_channel self_channel_decision self_switch is_self_channel channel_on_path
      workspace_channel channel_decision_for_workspace_member channel_decision_for_collaborator
      require_collaboration
  Grounds-found u (saved_owner workspace t o w p) = ground (arith)
  Grounds-found u (saved_global_owner m t o p q) = ground (arith)
  Grounds-found u (workspace_member workspace m found w p q f a) = ground (
    arith,
    TypeAdmits-not_self ch.type found a,
    member_switch_ok ch.type m found
        (record {
          subject = as_member;
          channel = ch;
          workspace_member = some m;
          channel_member = found;
        })
        a,
  )
  Grounds-found u (invited_guest workspace t w p (e, q, f) g) = ground (arith)
  Grounds-found u (collaborator workspace m t w p (e, q, f) g k a) =
      ground (arith, direct-not_self ch.type t)
