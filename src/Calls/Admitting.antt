-- ===== src/Calls/Admitting.antt =====
-- What an admission and a transfer do when they succeed.
use aloqa_claude.Prelude.{
  ℕ, ◌≡◌, refl, ◌∙◌, true, any, none, List, if◌then◌else◌, arith, same_key_refl, number_key,
}
use aloqa_claude.Errors.{ok}
use aloqa_claude.Entity.Calls.{CallParticipant, active, is_ringing, waiting, connected}
use aloqa_claude.Calls.{Service}
use aloqa_claude.Calls.Store.{
  Tables, get_participant, find_participant, with_id, update_where, set_status,
  update_participant_status, activate_ringing,
}
use aloqa_claude.Calls.Access.{can_user_enter_private_channel_less_call}
use aloqa_claude.Calls.Transactions.{done, ◌>>=◌}
use aloqa_claude.Calls.Joining.{activate_if_ringing}
use aloqa_claude.Calls.Waiting.{waiting_participant, admit_found}
use aloqa_claude.Calls.Rows.{any-find_participant, find_participant-update_where}

module _ (s : Service) (t : Tables) (target : ℕ) (p : CallParticipant) (now : ℕ)
    (found : get_participant t target ≡ ok p) (waits : p.status ≡ waiting)
    (allowed : can_user_enter_private_channel_less_call s t t.call target now ≡ ok tt) where
  abbrev admitted_rows : List CallParticipant
  admitted_rows = update_where (with_id p.id) (set_status connected none now) t.participants

  admits :
      update_participant_status t p.id connected now
      ≡ ok (record t { participants = admitted_rows })
  unfolding update_participant_status get_participant
  admits =
      let met : any (with_id p.id) t.participants ≡ true =
        any-find_participant (with_id p.id) target p t.participants found (same_key_refl p.id) in
      rw met refl

  admitted_row : find_participant admitted_rows target ≡ ok (set_status connected none now p)
  unfolding get_participant
  admitted_row =
      find_participant-update_where (with_id p.id) (set_status connected none now)
        (λ r. unfold set_status in refl) target p t.participants found
      ∙ rw (same_key_refl p.id) refl

  -- A moderator's admission of a participant who waits, and may enter the call, succeeds: the
  -- participant is connected, and a call that was ringing is active.
  pub admit_found_connects :
      (t' : Tables) × (admit_found s t.call target now t ≡ done tt t')
      × (get_participant t' target ≡ ok (set_status connected none now p))
      × ((set_status connected none now p).status ≡ connected)
      × (t'.call
          ≡ (if is_ringing t.call.status then record (t.call) { status = active } else t.call))
  unfolding admit_found ◌>>=◌ waiting_participant activate_if_ringing activate_ringing set_status
  admit_found_connects = (
    record t {
      participants = admitted_rows;
      call = if is_ringing t.call.status then record (t.call) { status = active } else t.call;
    },
    ground (arith, found, waits, allowed, admits),
    unfold get_participant in admitted_row,
    refl,
    refl,
  )
