-- ===== src/Calls/Departing.antt =====
-- What a leave does to the row of the one who leaves, and when it ends the call.
use aloqa_claude.Prelude.{
  ℕ, ◌≡◌, refl, ◌∙◌, Bool, true, false, none, List, ltb, if◌then◌else◌, arith, ◌==◌, number_key,
  same_key_refl,
}
use aloqa_claude.Errors.{ok}
use aloqa_claude.Entity.Calls.{
  Call, CallParticipant, left_call, all_left, timed_out, is_disconnected, is_ended, is_one_to_one,
}
use aloqa_claude.Calls.{active_count}
use aloqa_claude.Calls.Store.{
  Tables, get_participant, find_participant, update_where, still_here, is_live, set_disconnected,
  disconnect_participant_if_connected, end_with_reason_if_not_ended, set_pinned_participant,
}
use aloqa_claude.Calls.Transactions.{done, left_by, ◌>>=◌}
use aloqa_claude.Calls.Leaving.{
  call_pins_participant, should_auto_end_after_leave, leave_tx, leave_by_row, leave_found,
}
use aloqa_claude.Calls.Rows.{find_participant-update_where, any-find_participant}

module _ (t : Tables) (user : ℕ) (p : CallParticipant) (found : get_participant t user ≡ ok p) where
  find_disconnected :
      (test : CallParticipant → Bool) (now : ℕ)
      → find_participant (update_where test (set_disconnected left_call now) t.participants) user
        ≡ ok (if test p then set_disconnected left_call now p else p)
  unfolding get_participant
  find_disconnected test now =
      find_participant-update_where test (set_disconnected left_call now)
        (λ q. unfold set_disconnected in refl) user p t.participants found

  disconnects :
      (now : ℕ)
      → is_disconnected p.status ≡ false
      → disconnect_participant_if_connected t p.id left_call now
        ≡ ok (
          true,
          record t {
            participants =
                update_where (still_here p.id) (set_disconnected left_call now) t.participants;
          },
        )
  unfolding disconnect_participant_if_connected get_participant
  disconnects now here =
      let met : still_here p.id p ≡ true = rw (same_key_refl p.id, here) refl in
      rw (any-find_participant (still_here p.id) user p t.participants found met) refl

  module _ (call : Call) (now : ℕ) (here : is_disconnected p.status ≡ false) where
    abbrev pub dropped_rows : List CallParticipant
    dropped_rows = update_where (still_here p.id) (set_disconnected left_call now) t.participants

    abbrev unpinned_tables : Tables
    unpinned_tables =
        let t' : Tables = record t { participants = dropped_rows } in
        if call_pins_participant call user then set_pinned_participant t' none else t'

    -- The tables that the transaction of the leave commits.
    abbrev left_tables : Tables
    left_tables =
        if should_auto_end_after_leave call dropped_rows
        then (end_with_reason_if_not_ended unpinned_tables all_left now).1
        else unpinned_tables

    leave_tx_done :
        leave_tx call p.id user now t ≡ done (record { already_left = false }) left_tables
    unfolding leave_tx ◌>>=◌ set_pinned_participant
    leave_tx_done = ground (arith, disconnects now here)

    dropped_row : find_participant dropped_rows user ≡ ok (set_disconnected left_call now p)
    dropped_row = find_disconnected (still_here p.id) now ∙ rw (same_key_refl p.id, here) refl

    left_row : get_participant left_tables user ≡ ok (set_disconnected left_call now p)
    unfolding get_participant set_pinned_participant end_with_reason_if_not_ended set_disconnected
    left_row = ground (
      arith,
      dropped_row,
      find_participant-update_where is_live (set_disconnected timed_out now) (λ q. refl) user
          (set_disconnected left_call now p) dropped_rows dropped_row,
    )

    left_by_leave :
        is_ended call.status ≡ false → left_by (leave_found call user now t) ≡ left_tables
    unfolding leave_found ◌>>=◌ leave_by_row
    left_by_leave going = ground (arith, going, found, here, leave_tx_done)

    pub leave_disconnects :
        is_ended call.status ≡ false
        → get_participant (left_by (leave_found call user now t)) user
          ≡ ok (set_disconnected left_call now p)
    leave_disconnects going = rw (left_by_leave going) left_row

    -- A participant whose row has any status but `disconnected`, and who leaves a call that goes on,
    -- both as it was read and in the tables, has a disconnected row afterwards, with the time of the
    -- leave unless an earlier one was set; and the leave ends the call exactly if nobody is left
    -- connected or joining, or fewer than two in a one-to-one call.
    pub leave_found_exact :
        is_ended call.status ≡ false
        → is_ended t.call.status ≡ false
        → (get_participant (left_by (leave_found call user now t)) user
            ≡ ok (set_disconnected left_call now p))
          × (is_ended (left_by (leave_found call user now t)).call.status ≡ (
              if is_one_to_one call.type
              then ltb (active_count dropped_rows) 2
              else active_count dropped_rows == 0))
    unfolding set_pinned_participant end_with_reason_if_not_ended should_auto_end_after_leave
    leave_found_exact going open_still =
        (leave_disconnects going, rw (left_by_leave going) (ground (arith, going, open_still)))
