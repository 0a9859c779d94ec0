-- ===== src/Calls/Leaving.antt =====
-- internal/service/call/service.go: `LeaveCall`, `EndCall` and `CancelCall`; the pinned participant
-- is cleared as in internal/service/call/sharing.go.
use aloqa_claude.Prelude.{
  ℕ, Bool, true, false, not, Option, none, some, List, if◌then◌else◌, ltb, ◌==◌, number_key,
}
use aloqa_claude.Errors.{Result, ok, err, forbidden_error, conflict_error, internal_error}
use aloqa_claude.Entity.Guests.{points_to}
use aloqa_claude.Entity.Calls.{
  Call, CallParticipant, all_left, host_ended, cancelled, left_call, is_ended, is_ringing,
  is_one_to_one, is_moderator, is_disconnected,
}
use aloqa_claude.Calls.{Service, active_count}
use aloqa_claude.Calls.Store.{
  Tables, get_by_id, get_participant, disconnect_participant_if_connected, set_pinned_participant,
  end_with_reason_if_not_ended, cancel_ringing_with_reason,
}
use aloqa_claude.Calls.Access.{or_missing, or_none, require_call_access}
use aloqa_claude.Calls.Transactions.{
  Handler, ◌>>=◌, ◌>>◌, give, fail, reads, writes, answers, when, within_tx, on_error,
  service_error,
}

pub record LeaveCallResult : Type 0 where
  pub already_left : Bool

pub record CancelCallResult : Type 0 where
  pub ended : Bool

abbrev pub call_pins_participant : Call → ℕ → Bool
call_pins_participant call user = points_to call.pinned_participant_user_id user

-- `SetPinnedParticipantUserID(…, nil)`
abbrev pub unpin : Handler (Unit {0})
unpin = answers (λ t. (tt, set_pinned_participant t none))

unfoldable pub clear_pinned_participant_if_matches : Call → ℕ → Handler (Unit {0})
clear_pinned_participant_if_matches call user = when (call_pins_participant call user) unpin

unfoldable pub should_auto_end_after_leave : Call → List CallParticipant → Bool
should_auto_end_after_leave call ps =
    if is_ended call.status
    then false
    else if is_one_to_one call.type
    then ltb (active_count ps) 2
    else active_count ps == 0

-- The transaction of `LeaveCall`.
unfoldable pub leave_tx : Call → (id user now : ℕ) → Handler LeaveCallResult
leave_tx call id user now = do
  was_here ← writes (λ t. disconnect_participant_if_connected t id left_call now)
  if not was_here then give (record { already_left = true }) else do
    when (call_pins_participant call user) unpin
    ps ← reads (λ t. ok t.participants)
    when (should_auto_end_after_leave call ps)
        (do ended ← answers (λ t. end_with_reason_if_not_ended t all_left now); give tt)
    give (record { already_left = false })

unfoldable pub leave_by_row :
    Option CallParticipant → Call → (user now : ℕ) → Handler LeaveCallResult
leave_by_row none call user now = give (record { already_left = true })
leave_by_row (some p) call user now =
    if is_disconnected p.status
    then (do clear_pinned_participant_if_matches call user; give (record { already_left = true }))
    else on_error (within_tx (leave_tx call p.id user now))
        (service_error "failed to update participant status")

-- `LeaveCall` after its access check.
unfoldable pub leave_found : Call → (user now : ℕ) → Handler LeaveCallResult
leave_found call user now =
    if is_ended call.status then give (record { already_left = true }) else do
      found ←
          reads (λ t. or_none (get_participant t user) (internal_error "failed to get participant"))
      leave_by_row found call user now

unfoldable pub leave_call : Service → (workspace call_id user now : ℕ) → Handler LeaveCallResult
leave_call s workspace call_id user now = do
  call ← reads (λ t. require_call_access s t workspace call_id user now)
  leave_found call user now

unfoldable pub require_ending_role : Tables → ℕ → Result (Unit {0})
require_ending_role t user =
    elim (or_missing (get_participant t user)
      (forbidden_error "user is not a participant in this call")
      (internal_error "failed to get participant")) [
        | err e ↦ err e
        | ok p ↦
            if is_moderator p.role
            then ok tt
            else err (forbidden_error "only host or co-host can end a call")
      ]

-- `EndCall` after its access check.
unfoldable pub end_found : Call → (user now : ℕ) → Handler (Unit {0})
end_found call user now =
    if is_ended call.status then fail (conflict_error "call has already ended") else do
      reads (λ t. require_ending_role t user)
      on_error
          (within_tx (do
            now_ended ← answers (λ t. end_with_reason_if_not_ended t host_ended now)
            if now_ended then give tt else fail (conflict_error "call has already ended")))
          (service_error "failed to end call")

unfoldable pub end_call : Service → (workspace call_id user now : ℕ) → Handler (Unit {0})
end_call s workspace call_id user now = do
  call ← reads (λ t. require_call_access s t workspace call_id user now)
  end_found call user now

-- `CancelCall` after its access check.
unfoldable pub cancel_found : Call → (user now : ℕ) → Handler CancelCallResult
cancel_found call user now =
    if is_ended call.status
    then give (record { ended = false })
    else if not (is_ringing call.status)
    then fail (conflict_error "only ringing calls can be cancelled")
    else if not (call.created_by == user)
    then fail (forbidden_error "only call creator can cancel a ringing call")
    else on_error
        (within_tx (do
          now_ended ← answers (λ t. cancel_ringing_with_reason t cancelled now)
          if now_ended then give (record { ended = true }) else do
            current ← reads (λ t. get_by_id t call.id)
            if is_ended current.status
                then give (record { ended = false })
                else fail (conflict_error "only ringing calls can be cancelled")))
        (service_error "failed to cancel call")

unfoldable pub cancel_call : Service → (workspace call_id user now : ℕ) → Handler CancelCallResult
cancel_call s workspace call_id user now = do
  call ← reads (λ t. require_call_access s t workspace call_id user now)
  cancel_found call user now
