-- ===== src/Calls/Store.antt =====
-- internal/repository/postgres/call.go: one row of `calls` with its rows of `call_participants` and
-- of `call_invited_members`, and the statements on them. A statement that fails for a reason of the
-- database's own is left out, and so is the tombstone of the event `call.started`. The rows of other
-- calls are out of sight: a call of another identifier is not found.
use aloqa_claude.Prelude.{
  ℕ, Bool, true, false, not, ◌&&◌, ◌||◌, Option, none, some, List, [], ◌∷◌, ◌++◌, any, contains,
  filter_by, if◌then◌else◌, is_some, ◌==◌, number_key,
}
use aloqa_claude.Errors.{Result, ok, err, not_found_error, app, already_exists, nothing}
use aloqa_claude.Entity.Calls.{
  Call, active, ended, CallEndReason, CallRole, host, participant, CallParticipant,
  ParticipantStatus, disconnected, ParticipantLeftReason, timed_out, missed_call, is_ended,
  is_ringing, is_host, is_connected, is_waiting, is_present, is_disconnected,
}
use aloqa_claude.Calls.Settings.{load_settings}

pub record Tables : Type 0 where
  pub call : Call
  pub participants : List CallParticipant
  pub invited_members : List ℕ

-- `UPDATE … SET f WHERE test`
unfoldable pub update_where :
    (CallParticipant → Bool)
    → (CallParticipant → CallParticipant)
    → List CallParticipant
    → List CallParticipant
update_where test f [] = []
update_where test f (p ∷ ps) = (if test p then f p else p) ∷ update_where test f ps

abbrev pub with_id : ℕ → CallParticipant → Bool
with_id id p = p.id == id

abbrev pub of_user : ℕ → CallParticipant → Bool
of_user user p = p.user_id == user

abbrev coalesce {ℓ} : {A : Type ℓ} → Option A → Option A → Option A
coalesce none b = b
coalesce (some a) b = some a

unfoldable pub get_by_id : Tables → ℕ → Result Call
get_by_id t id =
    if t.call.id == id
    then ok (record (t.call) { settings = load_settings t.call.settings })
    else err (not_found_error "call not found")

unfoldable pub find_participant : List CallParticipant → ℕ → Result CallParticipant
find_participant [] user = err (not_found_error "call participant not found")
find_participant (p ∷ ps) user = if of_user user p then ok p else find_participant ps user

unfoldable pub get_participant : Tables → ℕ → Result CallParticipant
get_participant t user = find_participant t.participants user

unfoldable pub is_invited_member : Tables → ℕ → Bool
is_invited_member t user = contains t.invited_members user

-- `INSERT … ON CONFLICT DO NOTHING`, once for each user.
unfoldable pub add_invited_members : Tables → List ℕ → Tables
add_invited_members t [] = t
add_invited_members t (user ∷ users) =
    add_invited_members
      (record t {
        invited_members =
            if contains t.invited_members user
            then t.invited_members
            else t.invited_members ++ user ∷ [];
      })
      users

-- The primary key and the unique pair of call and user both answer with 23505.
unfoldable pub add_participant : Tables → CallParticipant → Result Tables
add_participant t p =
    if any (with_id p.id) t.participants || any (of_user p.user_id) t.participants
    then err (app already_exists "participant already in call" nothing)
    else ok (record t { participants = t.participants ++ p ∷ [] })

-- The `SET` of `UpdateParticipantStatusWithReason`.
unfoldable pub set_status :
    ParticipantStatus → Option ParticipantLeftReason → ℕ → CallParticipant → CallParticipant
set_status status reason now p = record p {
  status = status;
  joined_at = if is_connected status && not (is_some p.joined_at) then some now else p.joined_at;
  left_at =
      if is_disconnected status && not (is_some p.left_at)
      then some now
      else if is_connected status
      then none
      else p.left_at;
  left_reason =
      if is_disconnected status
      then reason
      else if is_connected status
      then none
      else p.left_reason;
}

unfoldable pub update_participant_status_with_reason :
    Tables → ℕ → ParticipantStatus → Option ParticipantLeftReason → ℕ → Result Tables
update_participant_status_with_reason t id status reason now =
    if any (with_id id) t.participants
    then ok (record t {
      participants = update_where (with_id id) (set_status status reason now) t.participants;
    })
    else err (not_found_error "call participant not found")

unfoldable pub update_participant_status : Tables → ℕ → ParticipantStatus → ℕ → Result Tables
unfolding update_participant_status_with_reason
update_participant_status t id status now =
    update_participant_status_with_reason t id status none now

-- The `SET` of the statements that disconnect.
unfoldable pub set_disconnected : ParticipantLeftReason → ℕ → CallParticipant → CallParticipant
set_disconnected reason now p = record p {
  status = disconnected;
  left_at = coalesce p.left_at (some now);
  left_reason = coalesce p.left_reason (some reason);
}

abbrev pub still_here : ℕ → CallParticipant → Bool
still_here id p = with_id id p && not (is_disconnected p.status)

-- Also whether a row was met.
unfoldable pub disconnect_participant_if_connected :
    Tables → ℕ → ParticipantLeftReason → ℕ → Result (Bool × Tables)
disconnect_participant_if_connected t id reason now =
    if any (still_here id) t.participants
    then ok (
      true,
      record t {
        participants = update_where (still_here id) (set_disconnected reason now) t.participants;
      },
    )
    else if any (with_id id) t.participants
    then ok (false, t)
    else err (not_found_error "call participant not found")

abbrev pub not_host : ℕ → CallParticipant → Bool
not_host id p = with_id id p && not (is_host p.role)

abbrev pub set_role : CallRole → CallParticipant → CallParticipant
set_role role p = record p { role = role }

unfoldable pub update_participant_role : Tables → ℕ → CallRole → Result Tables
update_participant_role t id role =
    if any (not_host id) t.participants
    then ok (record t { participants = update_where (not_host id) (set_role role) t.participants })
    else err (not_found_error "call participant not found")

-- The loop over the two locked rows: whether the first user is the host, and the other eligible.
unfoldable pub scan_transfer : List CallParticipant → ℕ → ℕ → Bool → Bool → Bool × Bool
scan_transfer [] from to from_is_host target_eligible = (from_is_host, target_eligible)
scan_transfer (p ∷ ps) from to from_is_host target_eligible =
    scan_transfer ps from to (if of_user from p then is_host p.role else from_is_host) (
      if of_user from p
      then target_eligible
      else if of_user to p
      then not (is_host p.role) && is_connected p.status
      else target_eligible)

-- Also whether the roles were swapped.
unfoldable pub transfer_host_rows : Tables → ℕ → ℕ → Bool × Tables
transfer_host_rows t from to =
    let (from_is_host, target_eligible) = scan_transfer t.participants from to false false in
    if from_is_host && target_eligible
    then (
      true,
      record t {
        participants =
            update_where (of_user to) (set_role host)
              (update_where (of_user from) (set_role participant) t.participants);
      },
    )
    else (false, t)

abbrev pub set_media : Bool → Bool → Bool → CallParticipant → CallParticipant
set_media audio_muted video_muted screen_sharing p = record p {
  audio_muted = audio_muted;
  video_muted = video_muted;
  screen_sharing = screen_sharing;
}

unfoldable pub update_participant_media : Tables → ℕ → Bool → Bool → Bool → Result Tables
update_participant_media t id audio_muted video_muted screen_sharing =
    if any (with_id id) t.participants
    then ok (record t {
      participants =
          update_where (with_id id) (set_media audio_muted video_muted screen_sharing)
            t.participants;
    })
    else err (not_found_error "call participant not found")

unfoldable pub remove_participant_row : Tables → ℕ → Result Tables
remove_participant_row t user =
    if any (of_user user) t.participants
    then ok (record t { participants = filter_by (λ p. not (of_user user p)) t.participants })
    else err (not_found_error "call participant not found")

unfoldable pub set_pinned_participant : Tables → Option ℕ → Tables
set_pinned_participant t user = record t {
  call = record (t.call) { pinned_participant_user_id = user };
}

-- Also whether the call was ringing.
unfoldable pub activate_ringing : Tables → Bool × Tables
activate_ringing t =
    if is_ringing t.call.status
    then (true, record t { call = record (t.call) { status = active } })
    else (false, t)

-- The participants whom the end of a call disconnects.
abbrev pub live_status : ParticipantStatus → Bool
live_status status = is_present status || is_waiting status

abbrev pub is_live : CallParticipant → Bool
is_live p = live_status p.status

-- The statement that ends the call and disconnects its live participants.
unfoldable pub end_and_disconnect : Tables → CallEndReason → ParticipantLeftReason → ℕ → Tables
end_and_disconnect t reason participant_reason now = record t {
  call = record (t.call) { status = ended; end_reason = coalesce t.call.end_reason (some reason) };
  participants = update_where is_live (set_disconnected participant_reason now) t.participants;
}

unfoldable pub end_with_reason_if_not_ended : Tables → CallEndReason → ℕ → Bool × Tables
unfolding end_and_disconnect
end_with_reason_if_not_ended t reason now =
    if is_ended t.call.status then (false, t) else (true, end_and_disconnect t reason timed_out now)

unfoldable pub cancel_ringing_with_reason : Tables → CallEndReason → ℕ → Bool × Tables
unfolding end_and_disconnect
cancel_ringing_with_reason t reason now =
    if is_ringing t.call.status
    then (true, end_and_disconnect t reason missed_call now)
    else (false, t)
