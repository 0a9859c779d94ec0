-- ===== src/Calls/RoundTrip.antt =====
-- Settings that are completed when a call starts come back from the table as they were written.
use aloqa_claude.Prelude.{◌≡◌, refl, ◌∙◌, ap, Bool, some, arith}
use aloqa_claude.Entity.Calls.{
  CallType, CallSettings, resolved_entry_mode, resolved_breakout_creation,
  resolved_max_breakout_rooms, resolved_who_can_add_guests, resolved_members_can_unmute_mic,
  resolved_members_can_enable_camera,
}
use aloqa_claude.Calls.Settings.{
  SettingsCodec, finalize_new_call_settings, marshal_settings, load_settings, read_settings,
}

-- What the code relies on of encoding/json: settings whose pointers are set are read as written.
abbrev pub Faithful : {W : Type 0} → SettingsCodec W → Type 0
Faithful c =
    (s : CallSettings) (mic camera : Bool)
    → c.decode (
        c.encode
          (record s { members_can_unmute_mic = some mic; members_can_enable_camera = some camera }))
      ≡ some
          (record s { members_can_unmute_mic = some mic; members_can_enable_camera = some camera })

module _ (recording : Bool) (type : CallType) (s : CallSettings) where
  abbrev final : CallSettings
  final = finalize_new_call_settings recording type s

  final_entry_mode : resolved_entry_mode final ≡ final.entry_mode
  unfolding finalize_new_call_settings resolved_entry_mode
  final_entry_mode = ground arith

  final_creation : resolved_breakout_creation final ≡ final.breakout_creation
  unfolding finalize_new_call_settings resolved_breakout_creation
  final_creation = ground arith

  final_rooms : resolved_max_breakout_rooms final ≡ final.max_breakout_rooms
  unfolding finalize_new_call_settings resolved_max_breakout_rooms
  final_rooms = ground arith

  final_adds : resolved_who_can_add_guests final ≡ final.who_can_add_guests
  unfolding finalize_new_call_settings resolved_who_can_add_guests
  final_adds = ground arith

  -- Resolving settings that were completed already changes nothing.
  pub load_settings-finalize : load_settings final ≡ final
  unfolding load_settings
  load_settings-finalize = rw (final_entry_mode, final_creation, final_rooms, final_adds) refl

  abbrev set_pointers : CallSettings
  set_pointers = record final {
    members_can_unmute_mic = some (resolved_members_can_unmute_mic final);
    members_can_enable_camera = some (resolved_members_can_enable_camera final);
  }

  pointers_set : set_pointers ≡ final
  unfolding finalize_new_call_settings resolved_members_can_unmute_mic
      resolved_members_can_enable_camera
  pointers_set = ground arith

  decode-marshal_settings :
      {W : Type 0} (c : SettingsCodec W)
      → Faithful c
      → c.decode (marshal_settings c final) ≡ some final
  unfolding marshal_settings
  decode-marshal_settings c faithful =
      faithful final (resolved_members_can_unmute_mic final)
        (resolved_members_can_enable_camera final)
      ∙ ap some pointers_set

  -- The settings with which a call is created, whatever was asked for, are read back from its row
  -- unchanged, given that the JSON package reads what it has written.
  pub read_settings-marshal_settings :
      {W : Type 0} (c : SettingsCodec W)
      → Faithful c
      → read_settings c (marshal_settings c final) ≡ some final
  unfolding read_settings
  read_settings-marshal_settings c faithful =
      rw (decode-marshal_settings c faithful, read_settings) (ap some load_settings-finalize)
