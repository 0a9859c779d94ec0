-- ===== src/Calls/Starting.antt =====
-- internal/service/call/service.go: `StartCallWithAccess`, up to the placement of its media. What it
-- reads of other calls, and bcrypt's hash, are arguments; `ids` gives the identifiers of the call and
-- of the host's row. A failure to write is left out.
use aloqa_claude.Prelude.{
  ℕ, String, Bool, true, false, not, ◌&&◌, ◌||◌, Option, none, some, List, [], ◌∷◌, ltb, length,
  contains, if◌then◌else◌, ◌==◌, number_key, string_key, is_some,
}
use aloqa_claude.Errors.{
  Result, ok, err, ◌>>=◌, ◌>>◌, is_not_found, invalid_input_error, not_found_error, forbidden_error,
  internal_error, app, channel_call_exists, user_in_call, nothing,
}
use aloqa_claude.Entity.Guests.{points_to}
use aloqa_claude.Entity.Calls.{
  CallType, is_one_to_one, ringing, EntryMode, password, AccessLevel, public_access, unset_access,
  other_access, CallSettings, Call, CallParticipant, host, connected, is_private, is_connected,
}
use aloqa_claude.Collaboration.{check}
use aloqa_claude.Calls.{Service}
use aloqa_claude.Calls.Settings.{validate_call_settings, finalize_new_call_settings}
use aloqa_claude.Calls.Store.{Tables, add_invited_members}
use aloqa_claude.Calls.Access.{or_missing, require_channel_access}
use aloqa_claude.Calls.Transactions.{service_error}

-- `ListActiveByWorkspace` and `GetParticipant`, over the calls that are not ended.
pub record OtherCalls : Type 0 where
  pub list_active : ℕ → Result (List Call)
  pub participant_of : ℕ → ℕ → Result CallParticipant

-- `bcrypt.GenerateFromPassword`, and the length of a password in bytes.
pub record Passwords : Type 0 where
  pub generate : String → Result String
  pub bytes : String → ℕ

pub record AccessOptions : Type 0 where
  pub access_level : AccessLevel
  pub invited_member_ids : List ℕ

abbrev pub max_join_password_bytes : ℕ
max_join_password_bytes = 72

unfoldable pub require_workspace_member : Service → ℕ → ℕ → Result (Unit {0})
require_workspace_member s workspace user = do
  found ←
      or_missing (s.members.get_member workspace user)
        (forbidden_error "user is not a member of this workspace")
        (internal_error "failed to verify workspace membership")
  ok tt

abbrev level_of : AccessLevel → Result AccessLevel
level_of unset_access = ok public_access
level_of (other_access _) = err (invalid_input_error "invalid access_level")
level_of level = ok level

unfoldable pub resolve_access_level : CallType → Option ℕ → AccessOptions → Result AccessLevel
resolve_access_level type channel options = do
  level ← level_of options.access_level
  check (not (ltb 0 (length options.invited_member_ids) && not (is_private level)))
      (invalid_input_error "invited_member_ids require private access")
  check (not (is_private level && (is_some channel || is_one_to_one type)))
      (invalid_input_error "private access is only supported for channel-less multi-party calls")
  ok level

abbrev pub is_password : EntryMode → Bool
is_password password = true
is_password _ = false

unfoldable pub hash_join_password : Passwords → EntryMode → String → Result String
hash_join_password passwords mode join_password = if not (is_password mode) then ok "" else do
  check (not (join_password == ""))
      (invalid_input_error "a password is required for password entry mode")
  check (not (ltb max_join_password_bytes (passwords.bytes join_password)))
      (invalid_input_error "call password must be at most 72 bytes")
  elim (passwords.generate join_password) [
    | ok hash ↦ ok hash
    | err e ↦ err (internal_error "failed to hash call password" e)
  ]

unfoldable pub validate_invited_members : Service → ℕ → List ℕ → List ℕ → Result (List ℕ)
validate_invited_members s workspace [] seen = ok []
validate_invited_members s workspace (user ∷ users) seen =
    let again = validate_invited_members s workspace users seen in
    let rest = validate_invited_members s workspace users (user ∷ seen) in
    if user == 0
    then err (invalid_input_error "invited_member_ids must not contain nil")
    else if contains seen user
    then again
    else elim (or_missing (s.members.get_member workspace user)
        (invalid_input_error "invited members must belong to the workspace")
        (internal_error "failed to verify invited member")) [
          | err e ↦ err e
          | ok _ ↦ elim rest [ ok users' ↦ ok (user ∷ users') | err e ↦ err e ]
        ]

-- The first listed call of the channel.
unfoldable pub first_in_channel : ℕ → List Call → Option Call
first_in_channel channel [] = none
first_in_channel channel (c ∷ cs) =
    if points_to c.channel_id channel then some c else first_in_channel channel cs

unfoldable pub active_call_in_channel : OtherCalls → (workspace channel : ℕ) → Result (Option Call)
unfolding first_in_channel
active_call_in_channel others workspace channel = elim (others.list_active workspace) [
  | err e ↦ err (internal_error "failed to list active calls" e)
  | ok calls ↦ ok (first_in_channel channel calls)
]

-- The first listed call where the user is connected; a call without the user is passed over.
unfoldable pub first_connected : OtherCalls → ℕ → List Call → Result (Option Call)
first_connected others user [] = ok none
first_connected others user (c ∷ cs) =
    let rest = first_connected others user cs in
    elim (others.participant_of c.id user) [
      | ok p ↦ if is_connected p.status then ok (some c) else rest
      | err e ↦
          if is_not_found e
          then rest
          else err (internal_error "failed to check user participation" e)
    ]

unfoldable pub user_active_call : OtherCalls → (workspace user : ℕ) → Result (Option Call)
unfolding first_connected
user_active_call others workspace user = elim (others.list_active workspace) [
  | err e ↦ err (internal_error "failed to list active calls" e)
  | ok calls ↦ first_connected others user calls
]

-- The checks of a call that is linked to a channel.
unfoldable pub check_call_channel :
    Service → OtherCalls → (workspace user now : ℕ) → Option ℕ → Result (Unit {0})
check_call_channel s others workspace user now none = ok tt
check_call_channel s others workspace user now (some channel) = do
  ch ←
      or_missing (s.channels.get_by_id channel) (not_found_error "channel not found")
        (internal_error "failed to get channel")
  check (points_to ch.workspace_id workspace) (not_found_error "channel not found")
  require_channel_access s ch user now
  existing ← active_call_in_channel others workspace channel
  check (not (is_some existing))
      (app channel_call_exists "channel already has an active call" nothing)

-- The rows that the transaction writes: the call, its host, and those invited to a private call.
unfoldable pub new_tables : Call → (row_id now : ℕ) → List ℕ → Tables
new_tables call row_id now users =
    add_invited_members
      (record {
        call = call;
        participants =
            record {
              id = row_id;
              call_id = call.id;
              user_id = call.created_by;
              role = host;
              status = connected;
              audio_muted = false;
              video_muted = false;
              screen_sharing = false;
              can_screen_share = false;
              joined_at = some now;
              left_at = none;
              left_reason = none;
            }
            ∷ [];
        invited_members = [];
      })
      (if is_private call.access_level then users else [])

-- Every check, then the call to create and the members to invite.
unfoldable pub check_start :
    Service
    → OtherCalls
    → Passwords
    → (workspace user call_id row_id now : ℕ) → CallType
    → Option ℕ
    → CallSettings
    → String
    → AccessOptions
    → Result (Call × List ℕ)
check_start s others passwords workspace user call_id row_id now type channel settings join_password
      options =
    do
      validate_call_settings type settings
      level ← resolve_access_level type channel options
      let final = finalize_new_call_settings s.recording_enabled type settings
      hash ← hash_join_password passwords final.entry_mode join_password
      require_workspace_member s workspace user
      users ← validate_invited_members s workspace options.invited_member_ids []
      check_call_channel s others workspace user now channel
      other ← user_active_call others workspace user
      check (not (is_some other)) (app user_in_call "you are already in another call" nothing)
      let call : Call = record {
        id = call_id;
        workspace_id = workspace;
        channel_id = channel;
        type = type;
        status = ringing;
        created_by = user;
        access_level = level;
        settings = final;
        join_password_hash = hash;
        end_reason = none;
        pinned_participant_user_id = none;
      }
      ok (call, users)

unfoldable pub start_call :
    Service
    → OtherCalls
    → Passwords
    → (workspace user call_id row_id now : ℕ) → CallType
    → Option ℕ
    → CallSettings
    → String
    → AccessOptions
    → Result Tables
start_call s others passwords workspace user call_id row_id now type channel settings join_password
      options =
    elim (check_start s others passwords workspace user call_id row_id now type channel settings
      join_password options) [
        | err e ↦ err e
        | ok (call, users) ↦ elim (s.media_room call) [
          | err e ↦ err (service_error "failed to prepare call media room" e)
          | ok _ ↦ ok (new_tables call row_id now users)
        ]
      ]
