-- ===== src/Calls/PatchTests.antt =====
-- A meeting that becomes private and gets a waiting room.
use aloqa_claude.Prelude.{◌≡◌, refl, true, false, not, ◌&&◌, none, some, ◌==◌, string_key}
use aloqa_claude.Errors.{ok}
use aloqa_claude.Entity.Calls.{
  CallSettings, Call, active, open_entry, manual_admit, private_access, is_private, is_one_to_one,
  resolved_access, valid_access,
}
use aloqa_claude.Calls.Settings.{validate_call_settings, is_manual}
use aloqa_claude.Calls.Starting.{is_password}
use aloqa_claude.Calls.Patching.{CallSettingsPatch, patched, check_settings_patch, target_settings}
use aloqa_claude.Calls.PatchLaws.{target_settings_valid}
use aloqa_claude.Calls.Examples.{meeting_of}

abbrev closing : CallSettingsPatch
closing = record {
  entry_mode = some manual_admit;
  mute_on_join = none;
  breakout_rooms = none;
  breakout_creation = none;
  max_breakout_rooms = none;
  access_level = some private_access;
  screen_sharing = some false;
  chat = none;
  members_can_unmute_mic = none;
  members_can_enable_camera = none;
  who_can_add_guests = none;
}

abbrev before : Call
before = meeting_of open_entry active

abbrev after : CallSettings
after = record (before.settings) {
  entry_mode = manual_admit;
  waiting_room = true;
  screen_sharing = false;
}

closes : target_settings before closing ≡ ok (after, private_access)
unfolding target_settings check_settings_patch patched
closes = refl

was_valid : validate_call_settings before.type before.settings ≡ ok tt
unfolding validate_call_settings
was_valid = refl

target_settings_valid_example :
    (validate_call_settings before.type after ≡ ok tt)
    × (after.waiting_room ≡ is_manual after.entry_mode)
    × ((is_password after.entry_mode
          && (not (is_password before.settings.entry_mode) && before.join_password_hash == ""))
        ≡ false)
    × (valid_access private_access ≡ true)
    × ((is_private private_access
          && (not (is_private (resolved_access before.access_level)) && is_one_to_one before.type))
        ≡ false)
target_settings_valid_example =
    target_settings_valid before closing after private_access closes was_valid refl
