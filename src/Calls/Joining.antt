-- ===== src/Calls/Joining.antt =====
-- internal/service/call/service.go: `JoinCall`, with `connectInvitedParticipant`. The call that the
-- access check found is an argument of what follows it, which may run on tables that others have
-- changed since. `id` is the identifier that `id.New()` gives.
use aloqa_claude.Prelude.{
  ℕ, ◌+◌, String, Bool, false, not, ◌&&◌, Option, none, some, if◌then◌else◌, ltb, at_most,
  is_positive,
}
use aloqa_claude.Errors.{
  Result, ok, err, conflict_error, internal_error, call_ended_error, app, waiting_room_declined,
  nothing,
}
use aloqa_claude.Entity.Calls.{
  Call, CallParticipant, CallRole, viewer, participant, ParticipantStatus, connected, waiting,
  EntryMode, manual_admit, password, resolved_entry_mode, is_ended, is_ringing, is_broadcast,
  is_connected, is_waiting, is_invited, is_declined,
}
use aloqa_claude.Calls.{Service, effective_participant_cap, verify_join_password, active_count}
use aloqa_claude.Calls.Store.{
  Tables, get_participant, add_participant, update_participant_status, activate_ringing,
}
use aloqa_claude.Calls.Access.{or_none, is_guest_user, require_call_access}
use aloqa_claude.Calls.Transactions.{
  Handler, ◌>>=◌, ◌>>◌, give, fail, reads, updates, answers, when, within_tx, on_error,
  service_error,
}

-- `participant.LeftAt != nil && time.Since(*participant.LeftAt) < guestReconnectGrace`, 30 seconds.
abbrev pub within_grace : Option ℕ → ℕ → Bool
within_grace none now = false
within_grace (some t) now = ltb now (t + 30000000000)

unfoldable pub guest_within_reconnect_grace : CallParticipant → ℕ → Bool
guest_within_reconnect_grace p now = within_grace p.left_at now

-- The activation of a call that was ringing when it was read; another may have answered it since.
unfoldable pub activate_if_ringing : Call → Handler (Unit {0})
activate_if_ringing call = when (is_ringing call.status) (do
  activated ← answers activate_ringing
  if activated then give tt else fail (conflict_error "call is no longer ringing"))

unfoldable pub connect_invited_participant : Call → CallParticipant → ℕ → Handler CallParticipant
connect_invited_participant call p now =
    on_error
      (within_tx (do
        updates (λ t. update_participant_status t p.id connected now)
        when (is_ringing call.status) (do activated ← answers activate_ringing; give tt)
        give (record p { status = connected; joined_at = some now })))
      (service_error "failed to connect invited participant")

-- A user who has a row already.
unfoldable pub join_again : Call → Bool → CallParticipant → ℕ → Handler CallParticipant
join_again call guest p now =
    if is_declined p.status
    then fail (app waiting_room_declined "the host declined your request to join" nothing)
    else if is_waiting p.status
    then give p
    else if is_invited p.status && not guest
    then connect_invited_participant call p now
    else if guest && not (is_connected p.status) && not (guest_within_reconnect_grace p now)
    then (do
      on_error (updates (λ t. update_participant_status t p.id waiting now))
          (internal_error "failed to return guest to waiting room")
      give (record p { status = waiting }))
    else (do
      on_error (within_tx (updates (λ t. update_participant_status t p.id connected now)))
          (internal_error "failed to update participant status")
      give (record p { status = connected; joined_at = some now }))

-- The `switch` on the entry mode.
unfoldable pub status_by_mode : Service → Call → String → EntryMode → Result ParticipantStatus
status_by_mode s call join_password manual_admit = ok waiting
status_by_mode s call join_password password =
    elim (verify_join_password s call.join_password_hash join_password) [
      | ok _ ↦ ok connected
      | err e ↦ err e
    ]
status_by_mode s call join_password _ = ok connected

unfoldable pub initial_status : Service → Call → Bool → String → Result ParticipantStatus
unfolding status_by_mode
initial_status s call guest join_password =
    if guest
    then ok waiting
    else status_by_mode s call join_password (resolved_entry_mode call.settings)

abbrev pub role_on_join : Call → CallRole
role_on_join call = if is_broadcast call.type then viewer else participant

unfoldable pub new_participant : Call → (id user now : ℕ) → ParticipantStatus → CallParticipant
new_participant call id user now status = record {
  id = id;
  call_id = call.id;
  user_id = user;
  role = role_on_join call;
  status = status;
  audio_muted = call.settings.mute_on_join;
  video_muted = false;
  screen_sharing = false;
  can_screen_share = false;
  joined_at = some now;
  left_at = none;
  left_reason = none;
}

-- A user who has no row yet.
unfoldable pub join_first :
    Service → Call → Bool → (id user : ℕ) → String → ℕ → Handler CallParticipant
join_first s call guest id user join_password now = do
  status ← reads (λ _. initial_status s call guest join_password)
  let p = new_participant call id user now status
  on_error
      (within_tx (do
        updates (λ t. add_participant t p)
        if is_waiting status then give tt else activate_if_ringing call))
      (service_error "failed to add participant")
  give p

-- The capacity check, over every participant who is there, the user included.
unfoldable pub is_full : Service → Call → Tables → Bool
is_full s call t =
    let cap = effective_participant_cap s call in
    is_positive cap && at_most cap (active_count t.participants)

unfoldable pub check_join : Service → Call → Tables → Result (Unit {0})
check_join s call t =
    if is_ended call.status
    then err (call_ended_error "call has already ended")
    else if is_full s call t
    then err (conflict_error "call has reached maximum participant capacity")
    else elim (s.media_room call) [
      | err e ↦ err (service_error "failed to prepare call media room" e)
      | ok _ ↦ ok tt
    ]

unfoldable pub join_by_row :
    Option CallParticipant
    → Service
    → Call
    → Bool
    → (id user : ℕ) → String
    → ℕ
    → Handler CallParticipant
join_by_row (some p) s call guest id user join_password now = join_again call guest p now
join_by_row none s call guest id user join_password now =
    join_first s call guest id user join_password now

-- `JoinCall` after its access check.
unfoldable pub join_found : Service → Call → (id user : ℕ) → String → ℕ → Handler CallParticipant
join_found s call id user join_password now = do
  reads (check_join s call)
  existing ← reads (λ t.
      or_none (get_participant t user) (internal_error "failed to check existing participant"))
  join_by_row existing s call (is_guest_user s call.workspace_id user now) id user join_password now

unfoldable pub join_call :
    Service → (workspace call_id id user : ℕ) → String → ℕ → Handler CallParticipant
join_call s workspace call_id id user join_password now = do
  call ← reads (λ t. require_call_access s t workspace call_id user now)
  join_found s call id user join_password now
