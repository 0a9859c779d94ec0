-- ===== src/Calls/Media.antt =====
-- internal/service/call/service.go: what `UpdateMedia` does once its checks have passed, and what the
-- participants of the call may publish then.
use aloqa_claude.Prelude.{
  ℕ, ◌≡◌, refl, ap, subst, ◌∙◌, Bool, false, not, ◌&&◌, Option, arith, inl, inr, at_most,
  number_key, same_key_refl, List, [], ◌∷◌, Bool-cases,
}
use aloqa_claude.Errors.{internal_error, ok, Result-cases}
use aloqa_claude.Entity.Calls.{
  Call, CallParticipant, is_moderator, is_viewer, resolved_members_can_unmute_mic,
  resolved_members_can_enable_camera,
}
use aloqa_claude.Calls.Checks.{passed}
use aloqa_claude.Calls.{Service}
use aloqa_claude.Calls.Store.{
  Tables, with_id, set_media, update_where, update_participant_media, get_participant,
}
use aloqa_claude.Calls.Access.{require_call_access}
use aloqa_claude.Calls.Transactions.{Handler, done, reads, updates, on_error, ◌>>=◌}
use aloqa_claude.Calls.Rows.{find_participant-update_where}
use aloqa_claude.Calls.MediaChecks.{
  overlay, asks, starts_sharing, publishes, check_media, check_patch, screen_share_limit,
  other_shares, can_share_screen,
}

-- An update of one row leaves the shares of the others.
other_shares-update_where :
    (id : ℕ) (f : CallParticipant → CallParticipant)
    → ((r : CallParticipant) → (f r).id ≡ r.id)
    → (ps : List CallParticipant)
    → other_shares id (update_where (with_id id) f ps) ≡ other_shares id ps
unfolding other_shares update_where
other_shares-update_where id f same_id [] = refl
other_shares-update_where id f same_id (q ∷ ps) = elim (Bool-cases (with_id id q)) [
  | inl hit ↦ ground (arith, hit, same_id q, other_shares-update_where id f same_id ps)
  | inr miss ↦ ground (arith, miss, other_shares-update_where id f same_id ps)
]

module _ (audio_muted video_muted screen_sharing : Option Bool) where
  unfoldable pub update_media_found : Service → Call → ℕ → Handler (Unit {0})
  update_media_found s call user = do
    p ← reads (check_media audio_muted video_muted screen_sharing s call user)
    on_error
        (updates (λ t.
          update_participant_media t p.id (overlay audio_muted p.audio_muted)
            (overlay video_muted p.video_muted) (overlay screen_sharing p.screen_sharing)))
        (internal_error "failed to update media state")

  unfoldable pub update_media : Service → (workspace call_id user now : ℕ) → Handler (Unit {0})
  update_media s workspace call_id user now = do
    call ← reads (λ t. require_call_access s t workspace call_id user now)
    update_media_found s call user

  -- The new state of a row, from that of the row that was read.
  abbrev pub media_of : CallParticipant → CallParticipant → CallParticipant
  media_of p =
      set_media (overlay audio_muted p.audio_muted) (overlay video_muted p.video_muted)
        (overlay screen_sharing p.screen_sharing)

  -- A row that may be changed so: a viewer publishes nothing, who is no moderator unmutes and turns on
  -- the camera only if the settings let members, and a share is started only with a grant, and while
  -- fewer others share than the limit.
  abbrev pub Permitted : Service → Call → List CallParticipant → CallParticipant → Type 0
  Permitted s call ps p =
      ((is_viewer p.role && publishes audio_muted video_muted screen_sharing p) ≡ false)
      × ((not (is_moderator p.role)
            && (asks false audio_muted && not (resolved_members_can_unmute_mic call.settings)))
          ≡ false)
      × ((not (is_moderator p.role)
            && (asks false video_muted && not (resolved_members_can_enable_camera call.settings)))
          ≡ false)
      × ((starts_sharing screen_sharing p && at_most (screen_share_limit s) (other_shares p.id ps))
          ≡ false)
      × ((starts_sharing screen_sharing p && not (can_share_screen p)) ≡ false)

  check_patch-Permitted :
      (s : Service) (call : Call) (t : Tables) (p q : CallParticipant)
      → check_patch audio_muted video_muted screen_sharing s call t p ≡ ok q
      → (p ≡ q) × Permitted s call t.participants p
  unfolding check_patch
  check_patch-Permitted s call t p q h =
      let viewer_mute = passed _ _ _ q h in
      let mic = passed _ _ _ q viewer_mute.1 in
      let camera = passed _ _ _ q mic.1 in
      let room = passed _ _ _ q camera.1 in
      let granted = passed _ _ _ q room.1 in
      (cc, (viewer_mute.0, mic.0, camera.0, room.0, granted.0))

  check_media-Permitted :
      (s : Service) (call : Call) (user : ℕ) (t : Tables) (q : CallParticipant)
      → check_media audio_muted video_muted screen_sharing s call user t ≡ ok q
      → (get_participant t user ≡ ok q) × Permitted s call t.participants q
  unfolding check_media
  check_media-Permitted s call user t q h = elim (Result-cases (get_participant t user)) [
    | inl (e, r) ↦ absurd (ground (arith, h, r))
    | inr (p, r) ↦
        let rest : check_patch audio_muted video_muted screen_sharing s call t p ≡ ok q =
          ground (arith, h, r) in
        let (same, permitted) = check_patch-Permitted s call t p q rest in
        (r ∙ ap ok same, subst (Permitted s call t.participants) same permitted)
  ]

  module _ (s : Service) (call : Call) (user : ℕ) (t t' : Tables)
      (h : update_media_found s call user t ≡ done tt t') where
    media_done :
        (p : CallParticipant) × (check_media audio_muted video_muted screen_sharing s call user t
          ≡ ok p)
        × (t' ≡ record t { participants = update_where (with_id p.id) (media_of p) t.participants })
    unfolding update_media_found ◌>>=◌ update_participant_media
    media_done =
        elim (Result-cases (check_media audio_muted video_muted screen_sharing s call user t)) [
          | inl (e, r) ↦ absurd (ground (arith, h, r))
          | inr (p, r) ↦ (p, r, ground (arith, h, r))
        ]

    -- A successful update of a participant's media changes the row of this participant as asked, each
    -- field that is not sent staying as it was, and only if the row may be changed so: a viewer
    -- publishes nothing, who is no moderator unmutes and turns on the camera only if the settings let
    -- members, and a share is started only with a grant and while fewer others share than the limit.
    -- Who else shares stays the same.
    pub update_media_exact :
        (p : CallParticipant) × (get_participant t user ≡ ok p)
        × (get_participant t' user ≡ ok (media_of p p))
        × Permitted s call t.participants p
        × (other_shares p.id t'.participants ≡ other_shares p.id t.participants)
    unfolding get_participant
    update_media_exact =
        let (p, e, updated) = media_done in
        let (found, permitted) = check_media-Permitted s call user t p e in
        (
          p,
          found,
          rw updated (
              find_participant-update_where (with_id p.id) (media_of p) (λ r. refl) user p
                t.participants found
              ∙ rw (same_key_refl p.id) refl),
          permitted,
          rw updated (other_shares-update_where p.id (media_of p) (λ r. refl) t.participants),
        )
