-- ===== src/AccessPolicy/Channels.antt =====
-- internal/security/accesspolicy/checker.go: `Channel` and the decisions that it calls.
use aloqa_claude.Prelude.{
  ℕ, Bool, true, not, ◌&&◌, Option, none, some, if◌then◌else◌, ◌==◌, number_key, is_some,
}
use aloqa_claude.Errors.{
  Result, ok, err, ◌>>=◌, ◌>>◌, is_not_found, is_forbidden, not_found_error, forbidden_error,
  internal_error,
}
use aloqa_claude.Entity.Roles.{
  WorkspaceMember, ChannelType, public_channel, private_channel, saved, saved_global, other_channel,
  is_self_channel, is_direct, Channel, ChannelMember,
}
use aloqa_claude.Entity.Guests.{points_to}
use aloqa_claude.Repository.{ChannelRepository}
use aloqa_claude.AccessPolicy.{
  as_member, as_guest, as_collaborator, Capability, is_manage, is_participate, CollaborationAccess,
  ChannelDecision, Checker, member_of, guest_channel,
}

-- `authorizeCollaboration`
unfoldable pub authorize_collaboration : Option CollaborationAccess → ℕ → ℕ → Result Bool
authorize_collaboration none channel user = ok true
authorize_collaboration (some collab) channel user = do
  decision ← collab.authorize_channel channel user
  ok (if not decision.managed then true else decision.allowed)

abbrev no_channel {ℓ} : {A : Type ℓ} → Result A
no_channel = err (not_found_error "channel not found")

-- `channels.GetMember`, with a missing row as `none`.
unfoldable pub find_channel_member : ChannelRepository → ℕ → ℕ → Result (Option ChannelMember)
find_channel_member channels channel user = elim (channels.get_member channel user) [
  | ok m ↦ ok (some m)
  | err e ↦
      if is_not_found e
      then ok none
      else err (internal_error "failed to verify channel membership" e)
]

unfoldable pub require_collaboration : Checker → ℕ → ℕ → Result (Unit {0})
require_collaboration c channel user = do
  allowed ← authorize_collaboration c.collab channel user
  if allowed
      then ok tt
      else err (forbidden_error "you do not have access to this collaboration channel")

-- The `switch ch.Type` of `channelDecisionForWorkspaceMember`.
unfoldable pub member_switch :
    ChannelType
    → Checker
    → Channel
    → Capability
    → ℕ
    → Option ChannelMember
    → ChannelDecision
    → Result ChannelDecision
member_switch public_channel c ch capability user found decision =
    if is_participate capability && not (is_some found)
    then err (forbidden_error "user is not a member of this channel")
    else ok decision
member_switch private_channel c ch capability user found decision =
    if is_some found
    then ok decision
    else err (forbidden_error "you do not have access to this channel")
member_switch saved c ch capability user found decision = no_channel
member_switch saved_global c ch capability user found decision = no_channel
member_switch (other_channel _) c ch capability user found decision =
    err (forbidden_error "unsupported channel type")
member_switch _ c ch capability user found decision =
    if is_some found
    then (do require_collaboration c ch.id user; ok decision)
    else err (forbidden_error "you do not have access to this channel")

unfoldable pub channel_decision_for_workspace_member :
    Checker → Channel → WorkspaceMember → ℕ → Capability → Result ChannelDecision
unfolding member_switch require_collaboration
channel_decision_for_workspace_member c ch m user capability = do
  found ← find_channel_member c.channels ch.id user
  member_switch ch.type c ch capability user found (record {
    subject = as_member;
    channel = ch;
    workspace_member = some m;
    channel_member = found;
  })

unfoldable pub channel_decision_for_collaborator : Checker → Channel → ℕ → Result ChannelDecision
unfolding require_collaboration
channel_decision_for_collaborator c ch user =
    if not (is_direct ch.type)
    then err (forbidden_error "you do not have access to this channel")
    else elim (c.channels.get_member ch.id user) [
      | err e ↦
          if is_not_found e
          then err (forbidden_error "you do not have access to this channel")
          else err (internal_error "failed to verify channel membership" e)
      | ok m ↦ (do
        require_collaboration c ch.id user
        ok (record {
          subject = as_collaborator;
          channel = ch;
          workspace_member = none;
          channel_member = some m;
        }))
    ]

-- `pathWorkspaceID != uuid.Nil && workspace != pathWorkspaceID`
abbrev pub off_path : ℕ → ℕ → Bool
off_path path workspace = not (path == 0) && not (workspace == path)

-- The `switch ch.Type` of `selfChannelDecision`, for the owner.
unfoldable pub self_switch :
    ChannelType → Option ℕ → Checker → Channel → ℕ → ℕ → Result ChannelDecision
self_switch saved none c ch path user = no_channel
self_switch saved (some workspace) c ch path user =
    if off_path path workspace
    then no_channel
    else ok (record {
      subject = as_member;
      channel = ch;
      workspace_member = none;
      channel_member = none;
    })
self_switch saved_global _ c ch path user =
    if path == 0 then no_channel else elim (member_of c.workspaces path user) [
      | err e ↦
          if is_forbidden e
          then err (forbidden_error "user is not a member of this workspace")
          else err e
      | ok m ↦ ok (record {
        subject = as_member;
        channel = ch;
        workspace_member = some m;
        channel_member = none;
      })
    ]
self_switch _ _ c ch path user = no_channel

unfoldable pub self_channel_decision : Checker → Channel → ℕ → ℕ → Result ChannelDecision
unfolding self_switch
self_channel_decision c ch path user =
    if points_to ch.owner_user_id user
    then self_switch ch.type ch.workspace_id c ch path user
    else no_channel

-- The part of `Channel` after the workspace of the channel is known.
unfoldable pub workspace_channel : Checker → Channel → ℕ → ℕ → Capability → Result ChannelDecision
unfolding channel_decision_for_workspace_member channel_decision_for_collaborator
workspace_channel c ch workspace user capability = elim (member_of c.workspaces workspace user) [
  | ok m ↦ channel_decision_for_workspace_member c ch m user capability
  | err e ↦ if not (is_forbidden e) then err e else (do
    allowed ← guest_channel c.guests workspace ch.id user
    if allowed
        then ok (record {
          subject = as_guest;
          channel = ch;
          workspace_member = none;
          channel_member = none;
        })
        else channel_decision_for_collaborator c ch user)
]

unfoldable pub channel_on_path :
    Option ℕ → Checker → Channel → ℕ → ℕ → Capability → Result ChannelDecision
channel_on_path none c ch path user capability = no_channel
channel_on_path (some workspace) c ch path user capability =
    if off_path path workspace then no_channel else workspace_channel c ch workspace user capability

unfoldable pub found_channel : Checker → Channel → ℕ → ℕ → Capability → Result ChannelDecision
found_channel c ch path user capability =
    if ch.archived && not (is_manage capability)
    then err (forbidden_error "channel is archived")
    else if is_self_channel ch.type
    then self_channel_decision c ch path user
    else channel_on_path ch.workspace_id c ch path user capability

-- `Checker.Channel`
unfoldable pub channel_access : Option Checker → ℕ → ℕ → ℕ → Capability → Result ChannelDecision
unfolding found_channel channel_on_path workspace_channel
channel_access none path channel user capability =
    err (forbidden_error "channel access is not configured")
channel_access (some c) path channel user capability = elim (c.channels.get_by_id channel) [
  | err e ↦ if is_not_found e then no_channel else err (internal_error "failed to get channel" e)
  | ok ch ↦ found_channel c ch path user capability
]
