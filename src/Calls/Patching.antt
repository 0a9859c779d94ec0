-- ===== src/Calls/Patching.antt =====
-- internal/service/call/settings.go: the settings and the access level that `UpdateCallSettings`
-- makes of a patch. The closing of breakout rooms, the media server and the write are left out.
use aloqa_claude.Prelude.{
  ℤ, is_positive, at_most, Bool, false, not, ◌&&◌, ◌||◌, Option, none, some, is_some, if◌then◌else◌,
  ◌==◌, string_key,
}
use aloqa_claude.Errors.{Result, ok, ◌>>◌, invalid_input_error}
use aloqa_claude.Entity.Calls.{
  Call, CallSettings, EntryMode, BreakoutCreationPolicy, AccessLevel, WhoCanAddGuestsPolicy,
  valid_entry_mode, valid_creation, valid_adds, valid_access, resolved_access, is_private,
  is_one_to_one,
}
use aloqa_claude.Collaboration.{check}
use aloqa_claude.Calls.Settings.{is_manual}
use aloqa_claude.Calls.Starting.{is_password}

-- A field that is not sent is `none`.
pub record CallSettingsPatch : Type 0 where
  pub entry_mode : Option EntryMode
  pub mute_on_join : Option Bool
  pub breakout_rooms : Option Bool
  pub breakout_creation : Option BreakoutCreationPolicy
  pub max_breakout_rooms : Option ℤ
  pub access_level : Option AccessLevel
  pub screen_sharing : Option Bool
  pub chat : Option Bool
  pub members_can_unmute_mic : Option Bool
  pub members_can_enable_camera : Option Bool
  pub who_can_add_guests : Option WhoCanAddGuestsPolicy

abbrev pub or_keep {ℓ} : {A : Type ℓ} → Option A → A → A
or_keep none a = a
or_keep (some b) a = b

abbrev pub sent {ℓ} : {A : Type ℓ} → (A → Bool) → Option A → Bool
sent test none = false
sent test (some a) = test a

abbrev or_keep_set : Option Bool → Option Bool → Option Bool
or_keep_set none b = b
or_keep_set (some a) _ = some a

abbrev pub one_to_eight : ℤ → Bool
one_to_eight n = is_positive n && at_most n 8

unfoldable pub patched : CallSettings → CallSettingsPatch → CallSettings
patched s patch = record s {
  mute_on_join = or_keep patch.mute_on_join s.mute_on_join;
  screen_sharing = or_keep patch.screen_sharing s.screen_sharing;
  chat = or_keep patch.chat s.chat;
  members_can_unmute_mic = or_keep_set patch.members_can_unmute_mic s.members_can_unmute_mic;
  members_can_enable_camera =
      or_keep_set patch.members_can_enable_camera s.members_can_enable_camera;
  who_can_add_guests = or_keep patch.who_can_add_guests s.who_can_add_guests;
  entry_mode = or_keep patch.entry_mode s.entry_mode;
  waiting_room =
      if is_some patch.entry_mode then sent is_manual patch.entry_mode else s.waiting_room;
  breakout_creation = or_keep patch.breakout_creation s.breakout_creation;
  max_breakout_rooms = or_keep patch.max_breakout_rooms s.max_breakout_rooms;
  breakout_rooms = or_keep patch.breakout_rooms s.breakout_rooms;
}

unfoldable pub check_settings_patch : Call → CallSettingsPatch → Result (Unit {0})
check_settings_patch call patch = do
  check (not (sent (λ p. not (valid_adds p)) patch.who_can_add_guests))
      (invalid_input_error "invalid who_can_add_guests")
  check (not (sent (λ a. not (valid_access a)) patch.access_level))
      (invalid_input_error "invalid access_level")
  check
      (not (
        sent is_private patch.access_level && (is_some call.channel_id || is_one_to_one call.type)))
      (invalid_input_error "private access is only supported for channel-less multi-party calls")
  check (not (sent (λ m. not (valid_entry_mode m)) patch.entry_mode))
      (invalid_input_error "invalid entry_mode")
  check (not (sent is_password patch.entry_mode && call.join_password_hash == ""))
      (invalid_input_error "entry_mode=password requires a configured join password")
  check (not (sent (λ p. not (valid_creation p)) patch.breakout_creation))
      (invalid_input_error "invalid breakout_creation")
  check (not (sent (λ n. not (one_to_eight n)) patch.max_breakout_rooms))
      (invalid_input_error "max_breakout_rooms must be between 1 and 8")

-- The settings to store, and the access level.
unfoldable pub target_settings : Call → CallSettingsPatch → Result (CallSettings × AccessLevel)
target_settings call patch = do
  check_settings_patch call patch
  ok (patched call.settings patch, or_keep patch.access_level (resolved_access call.access_level))
