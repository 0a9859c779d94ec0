-- ===== src/Calls/Settings.antt =====
-- The settings of a call: their validation and completion when it starts
-- (internal/service/call/service.go), and how the table of calls keeps them
-- (internal/repository/postgres/call.go, `MarshalJSON` of internal/domain/entity/call.go). JSON texts
-- are a parameter `W`, and so are their printer and parser.
use aloqa_claude.Prelude.{
  ℤ, is_negative, at_most, Bool, true, false, not, ◌&&◌, Option, none, some, if◌then◌else◌,
}
use aloqa_claude.Errors.{Result, ◌>>◌, invalid_input_error}
use aloqa_claude.Entity.Calls.{
  CallType, group, meeting, other_type, EntryMode, manual_admit, other_mode, BreakoutCreationPolicy,
  other_creation, WhoCanAddGuestsPolicy, other_adds, CallSettings, resolved_entry_mode,
  resolved_breakout_creation, resolved_max_breakout_rooms, resolved_who_can_add_guests,
  resolved_members_can_unmute_mic, resolved_members_can_enable_camera,
}
use aloqa_claude.Collaboration.{check}

abbrev pub known_type : CallType → Bool
known_type (other_type _) = false
known_type _ = true

-- `m == "" || m.Valid()`, for the three policies.
abbrev pub known_mode : EntryMode → Bool
known_mode (other_mode _) = false
known_mode _ = true

abbrev pub known_creation : BreakoutCreationPolicy → Bool
known_creation (other_creation _) = false
known_creation _ = true

abbrev pub known_adds : WhoCanAddGuestsPolicy → Bool
known_adds (other_adds _) = false
known_adds _ = true

-- `n == 0 || 1 <= n && n <= 8`
abbrev pub rooms_in_range : ℤ → Bool
rooms_in_range n = not (is_negative n) && at_most n 8

unfoldable pub validate_call_settings : CallType → CallSettings → Result (Unit {0})
validate_call_settings type s = do
  check (known_type type) (invalid_input_error "invalid call type")
  check (not (is_negative s.max_participants))
      (invalid_input_error "max_participants cannot be negative")
  check (known_mode s.entry_mode) (invalid_input_error "invalid entry_mode")
  check (known_creation s.breakout_creation) (invalid_input_error "invalid breakout_creation")
  check (rooms_in_range s.max_breakout_rooms)
      (invalid_input_error "max_breakout_rooms must be between 1 and 8")
  check (known_adds s.who_can_add_guests) (invalid_input_error "invalid who_can_add_guests")

abbrev starts_with_breakouts : CallType → Bool
starts_with_breakouts group = true
starts_with_breakouts meeting = true
starts_with_breakouts _ = false

abbrev permit_by_default : Option Bool → Option Bool
permit_by_default none = some true
permit_by_default (some b) = some b

abbrev pub is_manual : EntryMode → Bool
is_manual manual_admit = true
is_manual _ = false

-- `FinalizeNewCallSettings`
unfoldable pub finalize_new_call_settings : Bool → CallType → CallSettings → CallSettings
finalize_new_call_settings recording_enabled type s = record s {
  breakout_rooms = if starts_with_breakouts type then true else s.breakout_rooms;
  recording = recording_enabled;
  chat = true;
  members_can_unmute_mic = permit_by_default s.members_can_unmute_mic;
  members_can_enable_camera = permit_by_default s.members_can_enable_camera;
  entry_mode = resolved_entry_mode s;
  waiting_room = is_manual (resolved_entry_mode s);
  breakout_creation = resolved_breakout_creation s;
  max_breakout_rooms = resolved_max_breakout_rooms s;
  who_can_add_guests = resolved_who_can_add_guests s;
}

-- encoding/json for a settings object whose two permissions are plain booleans: here the pointers
-- that they are read into, which are then set.
pub record SettingsCodec (W : Type 0) : Type 0 where
  pub encode : CallSettings → W
  pub decode : W → Option CallSettings

-- `MarshalJSON`
unfoldable pub marshal_settings : {W : Type 0} → SettingsCodec W → CallSettings → W
marshal_settings c s = c.encode (record s {
  members_can_unmute_mic = some (resolved_members_can_unmute_mic s);
  members_can_enable_camera = some (resolved_members_can_enable_camera s);
})

-- What the reads of the table of calls do after `json.Unmarshal`.
unfoldable pub load_settings : CallSettings → CallSettings
load_settings s = record s {
  entry_mode = resolved_entry_mode s;
  breakout_creation = resolved_breakout_creation s;
  max_breakout_rooms = resolved_max_breakout_rooms s;
  who_can_add_guests = resolved_who_can_add_guests s;
}

unfoldable pub read_settings : {W : Type 0} → SettingsCodec W → W → Option CallSettings
unfolding load_settings
read_settings c text = elim (c.decode text) [ none ↦ none | some s ↦ some (load_settings s) ]
