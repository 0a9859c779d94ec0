-- ===== src/Calls/Race.antt =====
-- A join that has read the call before it ended, and writes its row after that: `JoinCall` reads the
-- status at its access check, and prepares the media room before it writes.
use aloqa_claude.Prelude.{
  ℕ, ◌≡◌, refl, ◌∙◌, String, true, false, ◌||◌, ◌&&◌, any, ◌++◌, [], ◌∷◌, arith, any-append,
  same_key_refl, number_key,
}
use aloqa_claude.Errors.{ok, err, not_found_error, is_not_found, as_app_error}
use aloqa_claude.Entity.Calls.{
  Call, active, ended, is_ended, open_entry, resolved_entry_mode, connected, is_connected,
}
use aloqa_claude.Calls.{Service}
use aloqa_claude.Calls.Store.{Tables, get_participant, with_id, of_user, add_participant}
use aloqa_claude.Calls.Access.{is_guest_user}
use aloqa_claude.Calls.Transactions.{done, ◌>>=◌}
use aloqa_claude.Calls.Joining.{
  check_join, initial_status, join_by_row, join_first, join_found, new_participant,
  activate_if_ringing,
}

-- A user who is no guest and has no row, and whose join of an open call passed its checks while the
-- call was active, is connected to the call although it has ended by the time the row is written.
pub late_join_enters_ended_call :
    (s : Service) (call : Call) (t : Tables) (id user : ℕ) (join_password : String) (now : ℕ)
    → call.status ≡ active
    → t.call.status ≡ ended
    → check_join s call t ≡ ok tt
    → is_guest_user s call.workspace_id user now ≡ false
    → resolved_entry_mode call.settings ≡ open_entry
    → get_participant t user ≡ err (not_found_error "call participant not found")
    → (any (with_id id) t.participants || any (of_user user) t.participants) ≡ false
    → (t' : Tables) × (join_found s call id user join_password now t
        ≡ done (new_participant call id user now connected) t')
      × (is_ended t'.call.status ≡ true)
      × (any (λ p. of_user user p && is_connected p.status) t'.participants ≡ true)
unfolding join_found ◌>>=◌ join_by_row join_first initial_status activate_if_ringing add_participant
    is_not_found as_app_error new_participant
late_join_enters_ended_call s call t id user join_password now was_active over_now ready member_here
      entry unknown fresh =
    let p = new_participant call id user now connected in
    (
      record t { participants = t.participants ++ p ∷ [] },
      ground (arith, was_active, ready, member_here, entry, unknown, fresh),
      rw over_now refl,
      any-append (λ r. of_user user r && is_connected r.status) t.participants (p ∷ [])
          ∙ ground (arith, same_key_refl user),
    )
