-- ===== src/Calls/Access.antt =====
-- internal/service/call/service.go: who may reach a call (`requireCallAccess` and the checks that it
-- makes), who is a guest of its workspace, and who moderates it.
use aloqa_claude.Prelude.{
  ℕ, Bool, true, false, not, ◌&&◌, ◌||◌, Option, none, some, if◌then◌else◌, is_some, ◌==◌,
  number_key,
}
use aloqa_claude.Errors.{
  Error, Result, ok, err, ◌>>=◌, ◌>>◌, is_not_found, not_found_error, forbidden_error,
  internal_error,
}
use aloqa_claude.Entity.Roles.{Channel, ChannelType, public_channel, is_direct}
use aloqa_claude.Entity.Calls.{
  Call, is_one_to_one, is_private, resolved_access, is_moderator, is_connected,
}
use aloqa_claude.GuestAccess
use aloqa_claude.CollabAccess.{Decision}
use aloqa_claude.Calls.{Service}
use aloqa_claude.Calls.Store.{Tables, get_by_id, get_participant, is_invited_member}

abbrev pub succeeds {ℓ} : {A : Type ℓ} → Result A → Bool
succeeds (ok _) = true
succeeds (err _) = false

-- A missing record is answered with the first error, any other failure with the second.
abbrev pub or_missing {ℓ} : {A : Type ℓ} → Result A → Error → (Error → Error) → Result A
or_missing (ok a) missing failure = ok a
or_missing (err e) missing failure = if is_not_found e then err missing else err (failure e)

-- A missing record is none, any other failure is answered with the error.
abbrev pub or_none {ℓ} : {A : Type ℓ} → Result A → (Error → Error) → Result (Option A)
or_none (ok a) failure = ok (some a)
or_none (err e) failure = if is_not_found e then ok none else err (failure e)

abbrev is_public : ChannelType → Bool
is_public public_channel = true
is_public _ = false

unfoldable pub is_private_channel_less_call : Call → Bool
is_private_channel_less_call call =
    not (is_some call.channel_id)
    && not (is_one_to_one call.type)
    && is_private (resolved_access call.access_level)

module _ (s : Service) where
  -- `_, err := s.members.GetMember(…); err == nil`
  abbrev pub is_member : ℕ → ℕ → Bool
  is_member workspace user = succeeds (s.members.get_member workspace user)

  -- A failure to read the grants counts as no guest.
  unfoldable pub is_guest_user : ℕ → ℕ → ℕ → Bool
  is_guest_user workspace user now =
      if is_member workspace user
      then false
      else if not (is_some s.guests)
      then false
      else elim (GuestAccess.is_guest s.guests workspace user now) [
        | ok allowed ↦ allowed
        | err _ ↦ false
      ]

  unfoldable pub can_access_workspace_content : ℕ → ℕ → ℕ → Result (Unit {0})
  can_access_workspace_content workspace user now = if is_member workspace user then ok tt else do
    allowed ← GuestAccess.has_workspace_access s.guests workspace user now
    if allowed then ok tt else err (forbidden_error "user does not have access to this workspace")

  ensure_collaboration_by : Option (ℕ → ℕ → Result Decision) → Channel → ℕ → Result Bool
  ensure_collaboration_by none ch user = ok true
  ensure_collaboration_by (some authorize_call) ch user = do
    decision ← authorize_call ch.id user
    ok (if not decision.managed then true else decision.allowed)

  unfoldable pub ensure_collaboration_channel_access : Channel → ℕ → Result Bool
  unfolding ensure_collaboration_by
  ensure_collaboration_channel_access ch user =
      if not (is_direct ch.type) then ok true else ensure_collaboration_by s.collab ch user

  abbrev no_channel_access : Result (Unit {0})
  no_channel_access = err (forbidden_error "you do not have access to this channel")

  -- The part of `requireChannelAccess` for a workspace member.
  unfoldable pub member_channel_access : Channel → ℕ → Result (Unit {0})
  member_channel_access ch user = if is_public ch.type then ok tt else do
    found ←
        or_missing (s.channels.get_member ch.id user)
          (forbidden_error "you do not have access to this channel")
          (internal_error "failed to check channel membership")
    allowed ← ensure_collaboration_channel_access ch user
    if allowed
        then ok tt
        else err (forbidden_error "you do not have access to this collaboration channel")

  -- Its last part, for a member of a direct conversation from another workspace.
  unfoldable pub direct_channel_access : Channel → ℕ → Result (Unit {0})
  direct_channel_access ch user =
      if not (is_direct ch.type)
      then no_channel_access
      else elim (s.channels.get_member ch.id user) [
        | ok _ ↦ (do
          allowed ← ensure_collaboration_channel_access ch user
          if allowed then ok tt else no_channel_access)
        | err e ↦
            if is_not_found e
            then no_channel_access
            else err (internal_error "failed to check channel membership" e)
      ]

  channel_access_in : Option ℕ → Channel → ℕ → ℕ → Result (Unit {0})
  channel_access_in none ch user now = err (not_found_error "channel not found")
  channel_access_in (some workspace) ch user now =
      if is_member workspace user then member_channel_access ch user else do
        allowed ← GuestAccess.has_channel_access s.guests workspace ch.id user now
        if allowed then ok tt else direct_channel_access ch user

  unfoldable pub require_channel_access : Channel → ℕ → ℕ → Result (Unit {0})
  unfolding channel_access_in member_channel_access direct_channel_access
      ensure_collaboration_channel_access
  require_channel_access ch user now = channel_access_in ch.workspace_id ch user now

  unfoldable pub get_call_for_workspace : Tables → ℕ → ℕ → Result Call
  get_call_for_workspace t workspace id = do
    call ←
        or_missing (get_by_id t id) (not_found_error "call not found")
          (internal_error "failed to get call")
    if call.workspace_id == workspace then ok call else err (not_found_error "call not found")

  unfoldable pub can_access_private_channel_less_call :
      Tables → Call → ℕ → Bool → Bool → Result Bool
  can_access_private_channel_less_call t call user member has_grant =
      let by_invitation : Result Bool =
        if not member then ok false else ok (is_invited_member t user) in
      if call.created_by == user || has_grant then ok true else elim (get_participant t user) [
        | ok p ↦ if is_moderator p.role || is_connected p.status then ok true else by_invitation
        | err e ↦
            if is_not_found e
            then by_invitation
            else err (internal_error "failed to check call participation" e)
      ]

  -- The guest branch of `requireCallAccess`: whether it lets the user in, and whether the user holds
  -- a grant for the call.
  unfoldable pub guest_branch : Call → ℕ → ℕ → Result (Bool × Bool)
  guest_branch call user now =
      if is_member call.workspace_id user || not (is_some s.guests) then ok (false, false) else do
        (guest, has_call) ←
            GuestAccess.evaluate_call_access s.guests call.workspace_id call.id user now
        if not guest then ok (false, has_call) else if has_call then ok (true, true) else do
          legacy ← GuestAccess.has_workspace_access s.guests call.workspace_id user now
          if legacy
              then ok (false, false)
              else err (forbidden_error "you do not have access to this call")

  -- A connected participant of a one-to-one call keeps it without a row of the channel.
  unfoldable pub keeps_direct_call : Tables → Call → Channel → ℕ → ℕ → Bool
  keeps_direct_call t call ch user now =
      is_one_to_one call.type
      && is_direct ch.type
      && succeeds (can_access_workspace_content call.workspace_id user now)
      && elim (get_participant t user) [ ok p ↦ is_connected p.status | err _ ↦ false ]

  -- The branches after that of the guests, by the channel of the call.
  unfoldable pub call_access_in : Option ℕ → Tables → Call → ℕ → ℕ → Bool → Result (Unit {0})
  call_access_in (some channel) t call user now has_grant = elim (s.channels.get_by_id channel) [
    | err e ↦ err (internal_error "failed to get channel" e)
    | ok ch ↦
        if keeps_direct_call t call ch user now then ok tt else require_channel_access ch user now
  ]
  call_access_in none t call user now has_grant =
      if is_private_channel_less_call call
      then (do
        allowed ←
            can_access_private_channel_less_call t call user (is_member call.workspace_id user)
              has_grant
        if allowed
            then ok tt
            else err (forbidden_error "you do not have access to this private call"))
      else can_access_workspace_content call.workspace_id user now

  unfoldable pub require_call_access : Tables → ℕ → ℕ → ℕ → ℕ → Result Call
  require_call_access t workspace id user now = do
    call ← get_call_for_workspace t workspace id
    (admitted, has_grant) ← guest_branch call user now
    if admitted
        then ok call
        else do call_access_in call.channel_id t call user now has_grant; ok call

  unfoldable pub can_user_enter_private_channel_less_call :
      Tables → Call → ℕ → ℕ → Result (Unit {0})
  can_user_enter_private_channel_less_call t call user now =
      if not (is_private_channel_less_call call) then ok tt else do
        member ← elim (s.members.get_member call.workspace_id user) [
          | ok _ ↦ ok true
          | err e ↦
              if is_not_found e
              then ok false
              else err (internal_error "failed to verify workspace membership" e)
        ]
        has_grant ←
            if not member && is_some s.guests
            then GuestAccess.has_call_access s.guests call.workspace_id call.id user now
            else ok false
        allowed ← can_access_private_channel_less_call t call user member has_grant
        if allowed
            then ok tt
            else err (forbidden_error "you do not have access to this private call")

unfoldable pub require_host_or_co_host : Tables → ℕ → Result (Unit {0})
require_host_or_co_host t user = do
  p ←
      or_missing (get_participant t user) (forbidden_error "user is not a participant in this call")
        (internal_error "failed to verify participant role")
  if is_moderator p.role
      then ok tt
      else err (forbidden_error "only host or co-host can perform this action")
