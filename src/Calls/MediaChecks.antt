-- ===== src/Calls/MediaChecks.antt =====
-- internal/service/call/service.go: the checks of `UpdateMedia`, with `checkScreenShareCapacity` and
-- the grant of internal/service/call/livekit.go.
use aloqa_claude.Prelude.{
  ℕ, ℤ, pos, is_positive, at_most, Bool, true, false, not, ◌&&◌, ◌||◌, Option, none, some, List, [],
  ◌∷◌, ◌+◌, if◌then◌else◌, ◌==◌, number_key,
}
use aloqa_claude.Errors.{
  Result, ok, ◌>>=◌, ◌>>◌, not_found_error, forbidden_error, conflict_error, internal_error,
}
use aloqa_claude.Entity.Calls.{
  Call, CallParticipant, is_ended, is_moderator, is_viewer, is_connected,
  resolved_members_can_unmute_mic, resolved_members_can_enable_camera,
}
use aloqa_claude.Collaboration.{check}
use aloqa_claude.Calls.{Service}
use aloqa_claude.Calls.Store.{Tables, get_participant}
use aloqa_claude.Calls.Access.{or_missing}

unfoldable pub can_share_screen : CallParticipant → Bool
can_share_screen p = is_moderator p.role || p.can_screen_share

unfoldable pub screen_share_limit : Service → ℤ
screen_share_limit s =
    if is_positive s.max_screen_shares_per_call then s.max_screen_shares_per_call else pos 1

-- The connected participants but for one who share their screens.
unfoldable pub other_shares : ℕ → List CallParticipant → ℕ
other_shares id [] = 0
other_shares id (p ∷ ps) =
    (if not (p.id == id) && (p.screen_sharing && is_connected p.status) then 1 else 0)
    + other_shares id ps

-- A pointer in the request: what it asks for, and the state that it leaves or sets.
abbrev pub asks : Bool → Option Bool → Bool
asks wanted none = false
asks wanted (some b) = if wanted then b else not b

abbrev pub overlay : Option Bool → Bool → Bool
overlay none b = b
overlay (some b) _ = b

-- The request turns on the sharing of the screen.
abbrev pub starts_sharing : Option Bool → CallParticipant → Bool
starts_sharing screen_sharing p = asks true screen_sharing && not p.screen_sharing

module _ (audio_muted video_muted screen_sharing : Option Bool) where
  abbrev pub publishes : CallParticipant → Bool
  publishes p =
      not (overlay audio_muted p.audio_muted)
      || (not (overlay video_muted p.video_muted) || overlay screen_sharing p.screen_sharing)

  -- The checks on the participant's row.
  unfoldable pub check_patch : Service → Call → Tables → CallParticipant → Result CallParticipant
  check_patch s call t p = do
    check (not (is_viewer p.role && publishes p)) (forbidden_error "viewers cannot publish media")
    check
        (not (
          not (is_moderator p.role)
          && (asks false audio_muted && not (resolved_members_can_unmute_mic call.settings))))
        (forbidden_error "members cannot unmute the microphone in this call")
    check
        (not (
          not (is_moderator p.role)
          && (asks false video_muted && not (resolved_members_can_enable_camera call.settings))))
        (forbidden_error "members cannot enable the camera in this call")
    check
        (not (
          starts_sharing screen_sharing p
          && at_most (screen_share_limit s) (other_shares p.id t.participants)))
        (conflict_error "screen share limit reached for this call")
    check (not (starts_sharing screen_sharing p && not (can_share_screen p)))
        (forbidden_error "screen_share_not_granted")
    ok p

  unfoldable pub check_media : Service → Call → ℕ → Tables → Result CallParticipant
  check_media s call user t = do
    check (not (is_ended call.status)) (forbidden_error "call has already ended")
    check (not (asks true screen_sharing && not call.settings.screen_sharing))
        (forbidden_error "screen sharing is disabled for this call")
    p ←
        or_missing (get_participant t user) (not_found_error "participant not found in this call")
          (internal_error "failed to get participant")
    check_patch s call t p
