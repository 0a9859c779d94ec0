-- ===== src/AccessPolicy/Decisions.antt =====
-- Exactly when a user reaches a channel, and as what.
use aloqa_claude.Prelude.{
  ℕ, ◌≡◌, refl, ◌↔◌, inl, inr, true, false, not, ◌&&◌, Option, none, some, number_key, arith,
  Bool-cases, Option-cases, subst,
}
use aloqa_claude.Errors.{Result, ok, Result-cases}
use aloqa_claude.Entity.Roles.{
  ChannelType, public_channel, private_channel, dm, group_dm, saved, saved_global, is_self_channel,
  Channel, ChannelMember,
}
use aloqa_claude.AccessPolicy.{
  as_member, Capability, view, participate, manage, is_manage, ChannelDecision, Checker, member_of,
  guest_channel,
}
use aloqa_claude.AccessPolicy.Channels.{
  find_channel_member, member_switch, require_collaboration, channel_decision_for_workspace_member,
  channel_decision_for_collaborator, off_path, self_switch, self_channel_decision,
  workspace_channel, channel_on_path, found_channel, channel_access,
}
use aloqa_claude.AccessPolicy.Grounds.{
  TypeAdmits, Grounds, saved_owner, saved_global_owner, workspace_member, invited_guest,
  collaborator, Unarchived, Grounds-found,
}

module _ (c : Checker) (path : ℕ) (ch : Channel) (user : ℕ) (capability : Capability) where
  abbrev G : ChannelDecision → Type 0
  G = Grounds c path ch user capability

  -- An equation of successful results carries grounds over.
  by_result :
      {d d' : ChannelDecision} → ◌≡◌ {A = Result ChannelDecision} (ok d) (ok d') → G d → G d'
  by_result e g = subst G (cc) g

  member_switch-TypeAdmits :
      (t : ChannelType) (found : Option ChannelMember) (d d' : ChannelDecision)
      → member_switch t c ch capability user found d ≡ ok d'
      → TypeAdmits c path ch user capability t found
        × (◌≡◌ {A = Result ChannelDecision} (ok d) (ok d'))
  unfolding member_switch require_collaboration
  member_switch-TypeAdmits public_channel found d d' h = (ground arith, ground arith)
  member_switch-TypeAdmits private_channel found d d' h = (ground arith, ground arith)
  member_switch-TypeAdmits dm found d d' h = ((ground arith, ground arith), ground arith)
  member_switch-TypeAdmits group_dm found d d' h = ((ground arith, ground arith), ground arith)
  member_switch-TypeAdmits _ found d d' h = cc

  self_switch-Grounds :
      (t : ChannelType) (w : Option ℕ) (d : ChannelDecision)
      → ch.type ≡ t
      → ch.workspace_id ≡ w
      → ch.owner_user_id ≡ some user
      → self_switch t w c ch path user ≡ ok d
      → G d
  unfolding self_switch
  self_switch-Grounds saved none d t w o h = cc
  self_switch-Grounds saved (some workspace) d t w o h =
      elim (Bool-cases (off_path path workspace)) [
        | inl off ↦ absurd (ground (arith, off, h))
        | inr on ↦ by_result (ground (arith, on, h)) (saved_owner workspace t o w on)
      ]
  self_switch-Grounds saved_global w d t _ o h =
      elim (Result-cases (member_of c.workspaces path user)) [
        | inl (e, q) ↦ absurd (ground (arith, q, h))
        | inr (m, q) ↦
            by_result (ground (arith, q, h)) (saved_global_owner m t o (ground (arith, q, h)) q)
      ]
  self_switch-Grounds _ w d t _ o h = cc

  workspace_channel-Grounds :
      (workspace : ℕ) (d : ChannelDecision)
      → is_self_channel ch.type ≡ false
      → ch.workspace_id ≡ some workspace
      → off_path path workspace ≡ false
      → workspace_channel c ch workspace user capability ≡ ok d
      → G d
  unfolding workspace_channel channel_decision_for_workspace_member
      channel_decision_for_collaborator require_collaboration
  workspace_channel-Grounds workspace d t w p h =
      elim (Result-cases (member_of c.workspaces workspace user)) [
        | inr (m, q) ↦ elim (Result-cases (find_channel_member c.channels ch.id user)) [
          | inl (e, k) ↦ absurd (ground (arith, q, k, h))
          | inr (found, k) ↦
              let (admits, same) =
                member_switch-TypeAdmits ch.type found
                  (record {
                    subject = as_member;
                    channel = ch;
                    workspace_member = some m;
                    channel_member = found;
                  })
                  d (ground (arith, q, k, h)) in
              by_result same (workspace_member workspace m found w p q k admits)
        ]
        | inl (e, q) ↦ elim (Result-cases (guest_channel c.guests workspace ch.id user)) [
          | inl (x, k) ↦ absurd (ground (arith, q, k, h))
          | inr (true, k) ↦
              by_result (ground (arith, q, k, h))
                (invited_guest workspace t w p (e, q, ground (arith, q, k, h)) k)
          | inr (false, k) ↦ elim (Result-cases (c.channels.get_member ch.id user)) [
            | inl (x, l) ↦ absurd (ground (arith, q, k, l, h))
            | inr (m, l) ↦ by_result (ground (arith, q, k, l, h)) (
                collaborator workspace m (ground (arith, q, k, l, h)) w p
                  (e, q, ground (arith, q, k, h)) k l (ground (arith, q, k, l, h)))
          ]
        ]
      ]

  found_channel-Grounds :
      (d : ChannelDecision)
      → found_channel c ch path user capability ≡ ok d
      → Unarchived ch capability × G d
  unfolding found_channel self_channel_decision channel_on_path
  found_channel-Grounds d h = elim (Bool-cases (ch.archived && not (is_manage capability))) [
    | inl hidden ↦ absurd (ground (arith, hidden, h))
    | inr open_to_us ↦ elim (Bool-cases (is_self_channel ch.type)) [
      | inl self ↦ (
        open_to_us,
        self_switch-Grounds ch.type ch.workspace_id d refl refl
            (ground (arith, open_to_us, self, h)) (ground (arith, open_to_us, self, h)),
      )
      | inr shared ↦ elim (Option-cases ch.workspace_id) [
        | inl none_set ↦ absurd (ground (arith, open_to_us, shared, none_set, h))
        | inr (workspace, w) ↦ (
          open_to_us,
          workspace_channel-Grounds workspace d shared w (ground (arith, open_to_us, shared, w, h))
              (ground (arith, open_to_us, shared, w, h)),
        )
      ]
    ]
  ]

-- A channel opens to a user with a decision exactly when it is there, it is not archived (or is to be
-- managed), and one of the grounds leads to that decision: the owner's saved messages, a workspace
-- member whom the channel's type admits, a guest whom a grant admits, or a collaborator from another
-- workspace who is a member of the direct conversation.
pub channel_access_exact :
    (c : Checker) (path channel user : ℕ) (capability : Capability) (d : ChannelDecision)
    → (channel_access (some c) path channel user capability ≡ ok d) ↔ (
        (ch : Channel) × (c.channels.get_by_id channel ≡ ok ch)
        × Unarchived ch capability
        × Grounds c path ch user capability d)
unfolding channel_access
channel_access_exact c path channel user capability d = (
  λ h. elim (Result-cases (c.channels.get_by_id channel)) [
    | inl (e, q) ↦ absurd (ground (arith, q, h))
    | inr (ch, q) ↦
        let (u, g) = found_channel-Grounds c path ch user capability d (ground (arith, q, h)) in
        (ch, q, u, g)
  ],
  λ r. rw (r.1, channel_access) (Grounds-found c path r.0 user capability r.2 r.3),
)

TypeAdmits-weaken :
    (c : Checker) (path : ℕ) (ch : Channel) (user : ℕ) (capability : Capability) (t : ChannelType)
    (found : Option ChannelMember)
    → TypeAdmits c path ch user participate t found
    → TypeAdmits c path ch user capability t found
TypeAdmits-weaken c path ch user capability public_channel found a = λ _. a refl
TypeAdmits-weaken c path ch user capability private_channel found a = a
TypeAdmits-weaken c path ch user capability dm found a = a
TypeAdmits-weaken c path ch user capability group_dm found a = a
TypeAdmits-weaken c path ch user capability _ found a = absurd a

Grounds-weaken :
    (c : Checker) (path : ℕ) (ch : Channel) (user : ℕ) (capability : Capability)
    {d : ChannelDecision}
    → Grounds c path ch user participate d
    → Grounds c path ch user capability d
Grounds-weaken c path ch user capability (saved_owner w t o i p) = saved_owner w t o i p
Grounds-weaken c path ch user capability (saved_global_owner m t o p q) =
    saved_global_owner m t o p q
Grounds-weaken c path ch user capability (workspace_member w m found i p q f a) =
    workspace_member w m found i p q f (TypeAdmits-weaken c path ch user capability ch.type found a)
Grounds-weaken c path ch user capability (invited_guest w t i p q g) = invited_guest w t i p q g
Grounds-weaken c path ch user capability (collaborator w m t i p q g f a) =
    collaborator w m t i p q g f a

-- Whoever may take part in a channel may also view it and manage it, as far as this checker goes, and
-- with the same decision.
pub participant_may_view :
    (c : Checker) (path channel user : ℕ) (d : ChannelDecision)
    → channel_access (some c) path channel user participate ≡ ok d
    → (channel_access (some c) path channel user view ≡ ok d)
      × (channel_access (some c) path channel user manage ≡ ok d)
participant_may_view c path channel user d h =
    let (ch, q, u, g) = (channel_access_exact c path channel user participate d).0 h in
    (
      (channel_access_exact c path channel user view d).1
          (ch, q, u, Grounds-weaken c path ch user view g),
      (channel_access_exact c path channel user manage d).1
          (ch, q, ground arith, Grounds-weaken c path ch user manage g),
    )
