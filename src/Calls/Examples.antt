-- ===== src/Calls/Examples.antt =====
-- A meeting without a channel and its host, for the tests.
use aloqa_claude.Prelude.{
  ℕ, pos, Bool, true, false, none, some, List, [], ◌∷◌, ltb, if◌then◌else◌, ◌==◌, number_key,
  string_key,
}
use aloqa_claude.Errors.{ok, err, not_found_error}
use aloqa_claude.Entity.Roles.{member}
use aloqa_claude.Entity.Calls.{
  meeting, active, manual_admit, by_host, host_adds, public_access, CallSettings, Call,
  CallParticipant, host, participant, connected, waiting, CallStatus, ParticipantStatus, CallRole,
  EntryMode,
}
use aloqa_claude.Repository.{WorkspaceRepository, ChannelRepository}
use aloqa_claude.Calls.{Service}
use aloqa_claude.Calls.Store.{Tables}

-- The users below 9 are the members of every workspace.
abbrev pub staff : WorkspaceRepository
staff = record {
  get_member = λ workspace user.
      if ltb user 9
      then ok (record { workspace_id = workspace; user_id = user; role = member })
      else err (not_found_error "workspace member not found");
}

abbrev pub no_channels : ChannelRepository
no_channels = record {
  get_by_id = λ channel. err (not_found_error "channel not found");
  get_member = λ channel user. err (not_found_error "channel member not found");
  list_by_user = λ workspace user. ok [];
  list_by_workspace = λ workspace cursor limit. ok [];
}

abbrev pub office : Service
office = record {
  members = staff;
  channels = no_channels;
  guests = none;
  collab = none;
  control = none;
  max_viewers_per_call = pos 1000;
  max_screen_shares_per_call = pos 1;
  recording_enabled = false;
  media_room = λ call. ok tt;
  password_matches = λ hash password. hash == password;
}

abbrev pub holds : EntryMode → Bool
holds manual_admit = true
holds _ = false

abbrev pub settings_of : EntryMode → CallSettings
settings_of mode = record {
  waiting_room = holds mode;
  mute_on_join = true;
  recording = false;
  screen_sharing = true;
  chat = true;
  breakout_rooms = true;
  breakout_creation = by_host;
  max_breakout_rooms = pos 8;
  max_participants = pos 0;
  e2ee = false;
  watermark = false;
  entry_mode = mode;
  members_can_unmute_mic = some true;
  members_can_enable_camera = some true;
  who_can_add_guests = host_adds;
}

abbrev pub meeting_of : EntryMode → CallStatus → Call
meeting_of mode status = record {
  id = 5;
  workspace_id = 3;
  channel_id = none;
  type = meeting;
  status = status;
  created_by = 1;
  access_level = public_access;
  settings = settings_of mode;
  join_password_hash = "";
  end_reason = none;
  pinned_participant_user_id = none;
}

abbrev pub row : (id user : ℕ) → CallRole → ParticipantStatus → ℕ → CallParticipant
row id user role status joined = record {
  id = id;
  call_id = 5;
  user_id = user;
  role = role;
  status = status;
  audio_muted = true;
  video_muted = false;
  screen_sharing = false;
  can_screen_share = false;
  joined_at = some joined;
  left_at = none;
  left_reason = none;
}

abbrev pub tables_of : EntryMode → CallStatus → List CallParticipant → Tables
tables_of mode status ps = record {
  call = meeting_of mode status;
  participants = ps;
  invited_members = [];
}

abbrev pub host_row : CallParticipant
host_row = record (row 90 1 host connected 40) { audio_muted = false }

abbrev pub guest_row : CallParticipant
guest_row = row 92 2 participant waiting 50

abbrev pub held : Tables
held = tables_of manual_admit active (host_row ∷ guest_row ∷ [])
