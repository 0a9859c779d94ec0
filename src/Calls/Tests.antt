-- ===== src/Calls/Tests.antt =====
-- Users who start, join and leave a meeting.
use aloqa_claude.Prelude.{
  ◌≡◌, ◌⊎◌, refl, true, false, ◌&&◌, none, some, List, [], ◌∷◌, ◌++◌, any, ◌==◌, number_key,
  string_key,
}
use aloqa_claude.Errors.{ok, err, not_found_error, is_not_found, as_app_error}
use aloqa_claude.Entity.Calls.{
  meeting, active, ringing, ended, open_entry, manual_admit, unset_access, unset_mode, CallSettings,
  CallParticipant, participant, connected, waiting, disconnected, left_call, resolved_entry_mode,
  resolved_breakout_creation, resolved_max_breakout_rooms, resolved_who_can_add_guests,
  is_connected, is_host, is_ended,
}
use aloqa_claude.Calls.{effective_participant_cap, active_count}
use aloqa_claude.Calls.Settings.{
  SettingsCodec, validate_call_settings, finalize_new_call_settings, marshal_settings,
  read_settings,
}
use aloqa_claude.Calls.RoundTrip.{read_settings-marshal_settings}
use aloqa_claude.Calls.Store.{
  Tables, get_participant, find_participant, add_participant, add_invited_members, update_where,
  set_status, set_disconnected, is_live, disconnect_participant_if_connected, of_user,
}
use aloqa_claude.Calls.Access.{
  is_guest_user, is_private_channel_less_call, can_user_enter_private_channel_less_call,
}
use aloqa_claude.Calls.Transactions.{done, left_by, ◌>>=◌}
use aloqa_claude.Calls.Joining.{
  join_found, check_join, is_full, join_by_row, join_first, initial_status, new_participant,
  activate_if_ringing,
}
use aloqa_claude.Calls.Leaving.{leave_found, leave_by_row, leave_tx, should_auto_end_after_leave}
use aloqa_claude.Calls.Waiting.{admit_found}
use aloqa_claude.Calls.Starting.{
  OtherCalls, Passwords, start_call, check_start, resolve_access_level, hash_join_password,
  require_workspace_member, validate_invited_members, check_call_channel, user_active_call,
  new_tables,
}
use aloqa_claude.Calls.Rows.{host_count, DistinctUsers}
use aloqa_claude.Calls.Steps.{Reach, here, next, added}
use aloqa_claude.Calls.Handled.{admitting}
use aloqa_claude.Calls.OneHost.{reached_calls_have_one_host}
use aloqa_claude.Calls.Requests.{Request, join, leave, end_for_all, handle, run, handle_steps}
use aloqa_claude.Calls.Started.{started_call_keeps_its_host}
use aloqa_claude.Calls.Lifecycle.{run-IsQuiet, run_stays_ended}
use aloqa_claude.Calls.Entering.{MayEnter, first_join_enters}
use aloqa_claude.Calls.Departing.{leave_found_exact, dropped_rows}
use aloqa_claude.Calls.Bypass.{leaving_and_joining_enters}
use aloqa_claude.Calls.Race.{late_join_enters_ended_call}
use aloqa_claude.Calls.Admitting.{admit_found_connects}
use aloqa_claude.Calls.Examples.{
  office, settings_of, meeting_of, row, tables_of, host_row, guest_row, held,
}

abbrev codec : SettingsCodec CallSettings
codec = record { encode = λ s. s; decode = λ s. some s }

read_settings-marshal_settings_example :
    read_settings codec
      (marshal_settings codec (finalize_new_call_settings true meeting (settings_of unset_mode)))
    ≡ some (finalize_new_call_settings true meeting (settings_of unset_mode))
read_settings-marshal_settings_example =
    read_settings-marshal_settings true meeting (settings_of unset_mode) codec
      (λ s mic camera. refl)

handle_steps_example : Reach admitting held (handle office (join 3 5 93 4 "" 60) held)
handle_steps_example = handle_steps office (join 3 5 93 4 "" 60) held

abbrev no_others : OtherCalls
no_others = record {
  list_active = λ workspace. ok [];
  participant_of = λ call user. err (not_found_error "call participant not found");
}

abbrev hashing : Passwords
hashing = record { generate = λ password. ok password; bytes = λ password. 4 }

starts :
    start_call office no_others hashing 3 1 5 90 40 meeting none
      (settings_of manual_admit)
      ""
      (record { access_level = unset_access; invited_member_ids = [] })
    ≡ ok (tables_of manual_admit ringing (host_row ∷ []))
unfolding start_call check_start validate_call_settings resolve_access_level hash_join_password
    require_workspace_member validate_invited_members check_call_channel user_active_call
    finalize_new_call_settings new_tables add_invited_members resolved_entry_mode
    resolved_breakout_creation resolved_max_breakout_rooms resolved_who_can_add_guests
starts = refl

abbrev requests : List Request
requests = join 3 5 92 2 "" 50 ∷ leave 3 5 2 60 ∷ end_for_all 3 5 1 70 ∷ []

started_call_keeps_its_host_example :
    DistinctUsers
      (run office requests (tables_of manual_admit ringing (host_row ∷ []))).participants
    × (host_count
          (run office requests (tables_of manual_admit ringing (host_row ∷ []))).participants
        ≡ 1)
started_call_keeps_its_host_example =
    started_call_keeps_its_host office no_others hashing 3 1 5 90 40 meeting none
      (settings_of manual_admit) ""
      (record { access_level = unset_access; invited_member_ids = [] })
      (tables_of manual_admit ringing (host_row ∷ [])) starts requests refl

adds :
    add_participant held (row 93 4 participant connected 55)
    ≡ ok (
        tables_of manual_admit active
          (host_row ∷ guest_row ∷ row 93 4 participant connected 55 ∷ []))
unfolding add_participant
adds = refl

reached_calls_have_one_host_example :
    DistinctUsers (host_row ∷ guest_row ∷ row 93 4 participant connected 55 ∷ [])
    × (host_count (host_row ∷ guest_row ∷ row 93 4 participant connected 55 ∷ []) ≡ 1)
reached_calls_have_one_host_example =
    reached_calls_have_one_host admitting held (refl, (refl, tt)) refl refl
      (next here (added (row 93 4 participant connected 55) refl refl adds))

run-IsQuiet_example :
    (is_ended (run office requests held).call.status
      && any is_live (run office requests held).participants)
    ≡ false
run-IsQuiet_example = run-IsQuiet office requests held refl

run_stays_ended_example :
    is_ended (run office requests (tables_of manual_admit ended (host_row ∷ []))).call.status ≡ true
run_stays_ended_example =
    run_stays_ended office requests (tables_of manual_admit ended (host_row ∷ [])) refl

abbrev open_call : Tables
open_call = tables_of open_entry active (host_row ∷ [])

abbrev newcomer : CallParticipant
newcomer = row 93 4 participant connected 55

joins_open :
    join_found office (meeting_of open_entry active) 93 4 "" 55 open_call
    ≡ done newcomer (tables_of open_entry active (host_row ∷ newcomer ∷ []))
unfolding join_found ◌>>=◌ check_join is_full effective_participant_cap active_count get_participant
    find_participant is_not_found as_app_error join_by_row join_first initial_status
    resolved_entry_mode is_guest_user new_participant add_participant activate_if_ringing
joins_open = refl

unknown_user : get_participant open_call 4 ≡ err (not_found_error "call participant not found")
unfolding get_participant find_participant
unknown_user = refl

first_join_enters_example :
    ((host_row ∷ newcomer ∷ []) ≡ ((host_row ∷ []) ++ newcomer ∷ []))
    × (is_host newcomer.role ≡ false)
    × (((is_connected newcomer.status ≡ true)
          × MayEnter office (meeting_of open_entry active) 93 4 "" 55)
        ⊎ (newcomer.status ≡ waiting))
first_join_enters_example =
    first_join_enters office (meeting_of open_entry active) 93 4 "" 55 open_call
      (tables_of open_entry active (host_row ∷ newcomer ∷ [])) newcomer unknown_user joins_open

finds_held : get_participant held 2 ≡ ok guest_row
unfolding get_participant find_participant
finds_held = refl

abbrev after_leave : Tables
after_leave = left_by (leave_found (meeting_of manual_admit active) 2 60 held)

has_room : check_join office (meeting_of manual_admit active) after_leave ≡ ok tt
unfolding check_join is_full effective_participant_cap active_count leave_found ◌>>=◌ leave_by_row
    leave_tx get_participant find_participant disconnect_participant_if_connected update_where
    set_disconnected should_auto_end_after_leave
has_room = refl

no_guest : is_guest_user office 3 2 70 ≡ false
unfolding is_guest_user
no_guest = refl

leaving_and_joining_enters_example :
    (r : CallParticipant) × (get_participant
        (left_by (join_found office (meeting_of manual_admit active) 94 2 "" 70 after_leave))
        2
      ≡ ok r)
    × (r.status ≡ connected)
leaving_and_joining_enters_example =
    leaving_and_joining_enters office (meeting_of manual_admit active)
      (meeting_of manual_admit active) held 2 guest_row 94 "" 60 70 finds_held refl refl has_room
      (rw no_guest refl)

leave_found_exact_example :
    (get_participant after_leave 2 ≡ ok (set_disconnected left_call 60 guest_row))
    × (is_ended after_leave.call.status ≡ (
        active_count
          (dropped_rows held 2 guest_row finds_held (meeting_of manual_admit active) 60 refl)
        == 0))
leave_found_exact_example =
    leave_found_exact held 2 guest_row finds_held (meeting_of manual_admit active) 60 refl refl refl

may_come_in :
    can_user_enter_private_channel_less_call office held (meeting_of manual_admit active) 2 60
    ≡ ok tt
unfolding can_user_enter_private_channel_less_call is_private_channel_less_call
may_come_in = refl

admit_found_connects_example :
    (t' : Tables) × (admit_found office (meeting_of manual_admit active) 2 60 held ≡ done tt t')
    × (get_participant t' 2 ≡ ok (set_status connected none 60 guest_row))
    × ((set_status connected none 60 guest_row).status ≡ connected)
    × (t'.call ≡ meeting_of manual_admit active)
admit_found_connects_example =
    admit_found_connects office held 2 guest_row 60 finds_held refl may_come_in

abbrev over_call : Tables
over_call = tables_of open_entry ended (record host_row { status = disconnected } ∷ [])

late_checks : check_join office (meeting_of open_entry active) over_call ≡ ok tt
unfolding check_join is_full effective_participant_cap active_count
late_checks = refl

late_member : is_guest_user office 3 4 55 ≡ false
unfolding is_guest_user
late_member = refl

late_entry : resolved_entry_mode (settings_of open_entry) ≡ open_entry
unfolding resolved_entry_mode
late_entry = refl

late_unknown : get_participant over_call 4 ≡ err (not_found_error "call participant not found")
unfolding get_participant find_participant
late_unknown = refl

late_join_enters_ended_call_example :
    (t' : Tables) × (join_found office (meeting_of open_entry active) 93 4 "" 55 over_call
      ≡ done (new_participant (meeting_of open_entry active) 93 4 55 connected) t')
    × (is_ended t'.call.status ≡ true)
    × (any (λ p. of_user 4 p && is_connected p.status) t'.participants ≡ true)
late_join_enters_ended_call_example =
    late_join_enters_ended_call office (meeting_of open_entry active) over_call 93 4 "" 55 refl refl
      late_checks late_member late_entry late_unknown refl
