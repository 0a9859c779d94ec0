-- ===== src/Calls/PatchLaws.antt =====
-- The settings that a patch makes (internal/service/call/settings.go) are valid whenever those of
-- the call are.
use aloqa_claude.Prelude.{
  ℤ, pos, negsuc, is_negative, ◌≡◌, refl, sym, inl, inr, Bool, true, false, not, ◌&&◌, ◌||◌, Option,
  none, some, is_some, if◌then◌else◌, ◌==◌, string_key, arith,
}
use aloqa_claude.Errors.{Result-cases, ok}
use aloqa_claude.Entity.Calls.{
  Call, CallType, CallSettings, EntryMode, BreakoutCreationPolicy, AccessLevel,
  WhoCanAddGuestsPolicy, valid_entry_mode, valid_creation, valid_adds, valid_access,
  resolved_access, is_private, is_one_to_one, other_mode, other_creation, other_adds,
}
use aloqa_claude.Calls.Settings.{
  validate_call_settings, known_type, known_mode, known_creation, known_adds, rooms_in_range,
  is_manual,
}
use aloqa_claude.Calls.Starting.{is_password}
use aloqa_claude.Calls.Checks.{passed, met, met_last, refused_last}
use aloqa_claude.Calls.Patching.{
  CallSettingsPatch, or_keep, sent, one_to_eight, patched, check_settings_patch, target_settings,
}

-- A valid value is a known one, and so a patched field is known if the old one is.
known-or_keep :
    {A : Type 0} (valid known : A → Bool)
    → ((a : A) → valid a ≡ true → known a ≡ true)
    → (o : Option A) (a : A) → sent (λ b. not (valid b)) o ≡ false
    → known a ≡ true
    → known (or_keep o a) ≡ true
known-or_keep valid known implied none a s h = h
known-or_keep valid known implied (some b) a s h = implied b (ground (arith, s))

mode_known : (m : EntryMode) → valid_entry_mode m ≡ true → known_mode m ≡ true
mode_known (other_mode _) h = ground (arith, h)
mode_known _ h = refl

creation_known : (p : BreakoutCreationPolicy) → valid_creation p ≡ true → known_creation p ≡ true
creation_known (other_creation _) h = ground (arith, h)
creation_known _ h = refl

adds_known : (p : WhoCanAddGuestsPolicy) → valid_adds p ≡ true → known_adds p ≡ true
adds_known (other_adds _) h = ground (arith, h)
adds_known _ h = refl

rooms_known : (n : ℤ) → one_to_eight n ≡ true → rooms_in_range n ≡ true
rooms_known (pos n) h = ground (arith, h)
rooms_known (negsuc n) h = ground (arith, h)

-- What a patch may not ask for does not come about by it.
newly-or_keep :
    {A : Type 0} (test : A → Bool) (barred : Bool) (o : Option A) (a : A)
    → (sent test o && barred) ≡ false
    → (test (or_keep o a) && (not (test a) && barred)) ≡ false
newly-or_keep test barred none a h = ground arith
newly-or_keep test barred (some b) a h = ground (arith, h)

synced-or_keep :
    (o : Option EntryMode) (flag : Bool) (m : EntryMode)
    → flag ≡ is_manual m
    → (if is_some o then sent is_manual o else flag) ≡ is_manual (or_keep o m)
synced-or_keep none flag m h = h
synced-or_keep (some b) flag m h = refl

resolved_access-valid : (a : AccessLevel) → valid_access (resolved_access a) ≡ true
resolved_access-valid a = ground arith

kept_access :
    (o : Option AccessLevel) (a : AccessLevel)
    → sent (λ b. not (valid_access b)) o ≡ false
    → valid_access (or_keep o (resolved_access a)) ≡ true
kept_access none a h = resolved_access-valid a
kept_access (some b) a h = ground (arith, h)

-- Settings that are validated.
valid_settings :
    (type : CallType) (s : CallSettings)
    → known_type type ≡ true
    → is_negative s.max_participants ≡ false
    → known_mode s.entry_mode ≡ true
    → known_creation s.breakout_creation ≡ true
    → rooms_in_range s.max_breakout_rooms ≡ true
    → known_adds s.who_can_add_guests ≡ true
    → validate_call_settings type s ≡ ok tt
unfolding validate_call_settings
valid_settings type s a b c d e f = rw (a, b, c, d, e, f) refl

module _ (call : Call) (patch : CallSettingsPatch) (s : CallSettings) (level : AccessLevel)
    (h : target_settings call patch ≡ ok (s, level)) where
  made :
      (check_settings_patch call patch ≡ ok tt)
      × (patched call.settings patch ≡ s)
      × (or_keep patch.access_level (resolved_access call.access_level) ≡ level)
  unfolding target_settings
  made = elim (Result-cases (check_settings_patch call patch)) [
    | inl (e, q) ↦ absurd (ground (arith, h, q))
    | inr (_, q) ↦ (q, ground (arith, h, q), ground (arith, h, q))
  ]

  -- The settings that an accepted patch makes of valid ones, with a waiting room exactly in a call
  -- with manual admission, are such again; a password is newly asked for only in a call that has
  -- one; and the access level is a known one, newly private only in a call of several people that
  -- has no channel.
  pub target_settings_valid :
      validate_call_settings call.type call.settings ≡ ok tt
      → call.settings.waiting_room ≡ is_manual call.settings.entry_mode
      → (validate_call_settings call.type s ≡ ok tt)
        × (s.waiting_room ≡ is_manual s.entry_mode)
        × ((is_password s.entry_mode
              && (not (is_password call.settings.entry_mode) && call.join_password_hash == ""))
            ≡ false)
        × (valid_access level ≡ true)
        × ((is_private level
              && (not (is_private (resolved_access call.access_level))
                  && (is_some call.channel_id || is_one_to_one call.type)))
            ≡ false)
  unfolding validate_call_settings check_settings_patch patched
  target_settings_valid valid synced =
      let (checks, is_s, is_level) = made in
      let who = passed _ _ _ tt checks in
      let access = passed _ _ _ tt who.1 in
      let private_ok = passed _ _ _ tt access.1 in
      let mode = passed _ _ _ tt private_ok.1 in
      let secret = passed _ _ _ tt mode.1 in
      let creation = passed _ _ _ tt secret.1 in
      let type_ok = met _ _ _ tt valid in
      let cap = passed _ _ _ tt type_ok.1 in
      let old_mode = met _ _ _ tt cap.1 in
      let old_creation = met _ _ _ tt old_mode.1 in
      let old_rooms = met _ _ _ tt old_creation.1 in
      rw (sym is_s, sym is_level)
        (
          valid_settings call.type (patched call.settings patch) type_ok.0 cap.0
              (known-or_keep valid_entry_mode known_mode mode_known patch.entry_mode
                call.settings.entry_mode mode.0 old_mode.0)
              (known-or_keep valid_creation known_creation creation_known patch.breakout_creation
                call.settings.breakout_creation creation.0 old_creation.0)
              (known-or_keep one_to_eight rooms_in_range rooms_known patch.max_breakout_rooms
                call.settings.max_breakout_rooms (refused_last _ _ creation.1) old_rooms.0)
              (known-or_keep valid_adds known_adds adds_known patch.who_can_add_guests
                call.settings.who_can_add_guests who.0 (met_last _ _ old_rooms.1)),
          synced-or_keep patch.entry_mode call.settings.waiting_room call.settings.entry_mode
              synced,
          newly-or_keep is_password (call.join_password_hash == "") patch.entry_mode
              call.settings.entry_mode secret.0,
          kept_access patch.access_level call.access_level access.0,
          newly-or_keep is_private (is_some call.channel_id || is_one_to_one call.type)
              patch.access_level (resolved_access call.access_level) private_ok.0,
        )
