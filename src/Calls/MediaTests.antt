-- ===== src/Calls/MediaTests.antt =====
-- A host who shares the screen.
use aloqa_claude.Prelude.{◌≡◌, refl, true, none, some, [], ◌∷◌}
use aloqa_claude.Errors.{ok}
use aloqa_claude.Entity.Calls.{
  CallParticipant, active, open_entry, resolved_members_can_unmute_mic,
  resolved_members_can_enable_camera,
}
use aloqa_claude.Calls.Store.{
  Tables, get_participant, find_participant, update_participant_media, update_where,
}
use aloqa_claude.Calls.Transactions.{done, ◌>>=◌}
use aloqa_claude.Calls.MediaChecks.{
  check_media, check_patch, other_shares, screen_share_limit, can_share_screen,
}
use aloqa_claude.Calls.Media.{update_media_found, media_of, Permitted, update_media_exact}
use aloqa_claude.Calls.Examples.{office, meeting_of, tables_of, host_row}

abbrev presented : Tables
presented = tables_of open_entry active (record host_row { screen_sharing = true } ∷ [])

shares :
    update_media_found none none
      (some true)
      office
      (meeting_of open_entry active)
      1
      (tables_of open_entry active (host_row ∷ []))
    ≡ done tt presented
unfolding update_media_found ◌>>=◌ check_media check_patch get_participant find_participant
    other_shares screen_share_limit can_share_screen update_participant_media update_where
    resolved_members_can_unmute_mic resolved_members_can_enable_camera
shares = refl

update_media_exact_example :
    (p : CallParticipant) × (get_participant (tables_of open_entry active (host_row ∷ [])) 1 ≡ ok p)
    × (get_participant presented 1 ≡ ok (media_of none none (some true) p p))
    × Permitted none none (some true) office (meeting_of open_entry active) (host_row ∷ []) p
    × (other_shares p.id presented.participants ≡ other_shares p.id (host_row ∷ []))
update_media_exact_example =
    update_media_exact none none (some true) office (meeting_of open_entry active) 1
      (tables_of open_entry active (host_row ∷ [])) presented shares
