-- ===== src/Calls/Bypass.antt =====
-- A user who is held in the waiting room, or whose request the host declined, enters by leaving and
-- joining again: `LeaveCall` disconnects their rows too, and `JoinCall` takes a disconnected row
-- for a participant who returns.
use aloqa_claude.Prelude.{
  ℕ, ◌≡◌, refl, ◌∙◌, String, true, false, not, ◌||◌, ◌&&◌, some, none, arith, number_key,
  same_key_refl,
}
use aloqa_claude.Errors.{ok}
use aloqa_claude.Entity.Calls.{
  Call, CallParticipant, connected, left_call, is_waiting, is_declined, is_disconnected, is_ended,
}
use aloqa_claude.Calls.{Service}
use aloqa_claude.Calls.Store.{
  Tables, get_participant, update_where, with_id, set_status, set_disconnected,
  update_participant_status,
}
use aloqa_claude.Calls.Access.{is_guest_user}
use aloqa_claude.Calls.Transactions.{done, left_by, ◌>>=◌}
use aloqa_claude.Calls.Joining.{
  guest_within_reconnect_grace, join_again, join_by_row, join_found, check_join,
}
use aloqa_claude.Calls.Leaving.{leave_found}
use aloqa_claude.Calls.Departing.{leave_disconnects}
use aloqa_claude.Calls.Rows.{find_participant-update_where, any-find_participant}

module _ (t : Tables) (user : ℕ) (q : CallParticipant) (found : get_participant t user ≡ ok q)
    (s : Service) (call : Call) (id : ℕ) (join_password : String) (now : ℕ)
    (gone : is_disconnected q.status ≡ true) (open_to_all : check_join s call t ≡ ok tt)
    (in_time : (is_guest_user s call.workspace_id user now
        && not (guest_within_reconnect_grace q now))
      ≡ false) where
  abbrev rejoined : Tables
  rejoined = record t {
    participants = update_where (with_id q.id) (set_status connected none now) t.participants;
  }

  updates_row : update_participant_status t q.id connected now ≡ ok rejoined
  unfolding update_participant_status get_participant
  updates_row =
      rw (any-find_participant (with_id q.id) user q t.participants found (same_key_refl q.id)) refl

  rejoin_done :
      join_found s call id user join_password now t
      ≡ done (record q { status = connected; joined_at = some now }) rejoined
  unfolding join_found ◌>>=◌ join_by_row join_again
  rejoin_done = ground (arith, open_to_all, found, gone, in_time, updates_row)

  rejoined_row : get_participant rejoined user ≡ ok (set_status connected none now q)
  unfolding get_participant
  rejoined_row =
      find_participant-update_where (with_id q.id) (set_status connected none now)
        (λ r. unfold set_status in refl) user q t.participants found
      ∙ rw (same_key_refl q.id) refl

-- A user whose row is `waiting` or `declined`, who leaves a call that goes on as the leave reads it,
-- and whose next join passes the checks on the call (it has not ended, has room, and its media room
-- is ready), is connected by that join, with no moderator's consent and with any password: always if
-- the user is no guest, and a guest within the 30 seconds of grace after the time of leaving that the
-- row then has, which is that of this leave unless the row had one already.
pub leaving_and_joining_enters :
    (s : Service) (call call' : Call) (t : Tables) (user : ℕ) (p : CallParticipant) (id : ℕ)
    (join_password : String) (now later : ℕ)
    → get_participant t user ≡ ok p
    → (is_waiting p.status || is_declined p.status) ≡ true
    → is_ended call.status ≡ false
    → check_join s call' (left_by (leave_found call user now t)) ≡ ok tt
    → (is_guest_user s call'.workspace_id user later
        && not (guest_within_reconnect_grace (set_disconnected left_call now p) later))
      ≡ false
    → (r : CallParticipant) × (get_participant
          (left_by (
            join_found s call' id user join_password later (left_by (leave_found call user now t))))
          user
        ≡ ok r)
      × (r.status ≡ connected)
unfolding set_disconnected guest_within_reconnect_grace set_status
leaving_and_joining_enters s call call' t user p id join_password now later found held going ready
      in_time =
    let here : is_disconnected p.status ≡ false = ground (arith, held) in
    let q = set_disconnected left_call now p in
    let t' = left_by (leave_found call user now t) in
    let row = leave_disconnects t user p found call now here going in
    let joined = rejoin_done t' user q row s call' id join_password later refl ready in_time in
    (
      set_status connected none later q,
      rw joined (rejoined_row t' user q row s call' id join_password later refl ready in_time),
      refl,
    )
