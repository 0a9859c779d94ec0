-- ===== src/Entity/Calls.antt =====
-- internal/domain/entity/call.go: calls, their settings and their participants. The database checks
-- that a stored status is one of the constants. The title, the scheduled call, the featured share and
-- the times of a call are left out, and so is the projected name of a participant.
use aloqa_claude.Prelude.{
  ℕ, ℤ, pos, is_positive, at_most, String, Bool, true, false, not, ◌||◌, Option, none, some,
  if◌then◌else◌,
}

pub data CallType : Type 0 where
  one_to_one group meeting webinar selector : CallType
  other_type : String → CallType

pub data CallStatus : Type 0 where
  ringing active ended : CallStatus

-- `unset_mode` is the empty string.
pub data EntryMode : Type 0 where
  manual_admit password open_entry unset_mode : EntryMode
  other_mode : String → EntryMode

pub data BreakoutCreationPolicy : Type 0 where
  by_host by_everyone unset_creation : BreakoutCreationPolicy
  other_creation : String → BreakoutCreationPolicy

pub data WhoCanAddGuestsPolicy : Type 0 where
  host_adds everyone_adds unset_adds : WhoCanAddGuestsPolicy
  other_adds : String → WhoCanAddGuestsPolicy

pub data AccessLevel : Type 0 where
  public_access private_access unset_access : AccessLevel
  other_access : String → AccessLevel

pub data CallEndReason : Type 0 where
  host_ended all_left failed missed cancelled : CallEndReason

pub data CallRole : Type 0 where
  host co_host presenter participant viewer : CallRole
  other_role : String → CallRole

pub data ParticipantStatus : Type 0 where
  invited waiting joining connected disconnected declined : ParticipantStatus

pub data ParticipantLeftReason : Type 0 where
  left_call timed_out declined_call missed_call : ParticipantLeftReason

abbrev pub valid_entry_mode : EntryMode → Bool
valid_entry_mode manual_admit = true
valid_entry_mode password = true
valid_entry_mode open_entry = true
valid_entry_mode _ = false

abbrev pub valid_creation : BreakoutCreationPolicy → Bool
valid_creation by_host = true
valid_creation by_everyone = true
valid_creation _ = false

abbrev pub valid_adds : WhoCanAddGuestsPolicy → Bool
valid_adds host_adds = true
valid_adds everyone_adds = true
valid_adds _ = false

abbrev pub valid_access : AccessLevel → Bool
valid_access public_access = true
valid_access private_access = true
valid_access _ = false

-- `AccessLevel.Resolved`
abbrev pub resolved_access : AccessLevel → AccessLevel
resolved_access a = if valid_access a then a else public_access

pub record CallSettings : Type 0 where
  pub waiting_room : Bool
  pub mute_on_join : Bool
  pub recording : Bool
  pub screen_sharing : Bool
  pub chat : Bool
  pub breakout_rooms : Bool
  pub breakout_creation : BreakoutCreationPolicy
  pub max_breakout_rooms : ℤ
  pub max_participants : ℤ
  pub e2ee : Bool
  pub watermark : Bool
  pub entry_mode : EntryMode
  pub members_can_unmute_mic : Option Bool
  pub members_can_enable_camera : Option Bool
  pub who_can_add_guests : WhoCanAddGuestsPolicy

unfoldable pub resolved_who_can_add_guests : CallSettings → WhoCanAddGuestsPolicy
resolved_who_can_add_guests s =
    if valid_adds s.who_can_add_guests then s.who_can_add_guests else host_adds

-- `p == nil || *p`
abbrev permitted : Option Bool → Bool
permitted none = true
permitted (some b) = b

unfoldable pub resolved_members_can_unmute_mic : CallSettings → Bool
resolved_members_can_unmute_mic s = permitted s.members_can_unmute_mic

unfoldable pub resolved_members_can_enable_camera : CallSettings → Bool
resolved_members_can_enable_camera s = permitted s.members_can_enable_camera

unfoldable pub resolved_entry_mode : CallSettings → EntryMode
resolved_entry_mode s =
    if valid_entry_mode s.entry_mode
    then s.entry_mode
    else if s.waiting_room
    then manual_admit
    else open_entry

abbrev creation_of : BreakoutCreationPolicy → BreakoutCreationPolicy
creation_of by_everyone = by_everyone
creation_of _ = by_host

unfoldable pub resolved_breakout_creation : CallSettings → BreakoutCreationPolicy
resolved_breakout_creation s = creation_of s.breakout_creation

-- The code's last test, below 1, can no longer hold after the first.
unfoldable pub resolved_max_breakout_rooms : CallSettings → ℤ
resolved_max_breakout_rooms s =
    if not (is_positive s.max_breakout_rooms)
    then pos 8
    else if not (at_most s.max_breakout_rooms 8)
    then pos 8
    else s.max_breakout_rooms

pub record Call : Type 0 where
  pub id : ℕ
  pub workspace_id : ℕ
  pub channel_id : Option ℕ
  pub type : CallType
  pub status : CallStatus
  pub created_by : ℕ
  pub access_level : AccessLevel
  pub settings : CallSettings
  pub join_password_hash : String
  pub end_reason : Option CallEndReason
  pub pinned_participant_user_id : Option ℕ

pub record CallParticipant : Type 0 where
  pub id : ℕ
  pub call_id : ℕ
  pub user_id : ℕ
  pub role : CallRole
  pub status : ParticipantStatus
  pub audio_muted : Bool
  pub video_muted : Bool
  pub screen_sharing : Bool
  pub can_screen_share : Bool
  pub joined_at : Option ℕ
  pub left_at : Option ℕ
  pub left_reason : Option ParticipantLeftReason

-- The comparisons with a constant that the code makes.
abbrev pub is_ended : CallStatus → Bool
is_ended ended = true
is_ended _ = false

abbrev pub is_ringing : CallStatus → Bool
is_ringing ringing = true
is_ringing _ = false

abbrev pub is_one_to_one : CallType → Bool
is_one_to_one one_to_one = true
is_one_to_one _ = false

-- `CallTypeWebinar || CallTypeSelector`
abbrev pub is_broadcast : CallType → Bool
is_broadcast webinar = true
is_broadcast selector = true
is_broadcast _ = false

abbrev pub is_private : AccessLevel → Bool
is_private private_access = true
is_private _ = false

abbrev pub is_host : CallRole → Bool
is_host host = true
is_host _ = false

abbrev pub is_co_host : CallRole → Bool
is_co_host co_host = true
is_co_host _ = false

-- `CallRoleHost || CallRoleCoHost`
abbrev pub is_moderator : CallRole → Bool
is_moderator r = is_host r || is_co_host r

abbrev pub is_viewer : CallRole → Bool
is_viewer viewer = true
is_viewer _ = false

abbrev pub is_connected : ParticipantStatus → Bool
is_connected connected = true
is_connected _ = false

abbrev pub is_waiting : ParticipantStatus → Bool
is_waiting waiting = true
is_waiting _ = false

abbrev pub is_invited : ParticipantStatus → Bool
is_invited invited = true
is_invited _ = false

abbrev pub is_declined : ParticipantStatus → Bool
is_declined declined = true
is_declined _ = false

abbrev pub is_disconnected : ParticipantStatus → Bool
is_disconnected disconnected = true
is_disconnected _ = false

-- `connected` or `joining`
abbrev pub is_present : ParticipantStatus → Bool
is_present connected = true
is_present joining = true
is_present _ = false
