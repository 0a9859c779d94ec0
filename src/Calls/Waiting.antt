-- ===== src/Calls/Waiting.antt =====
-- internal/service/call/service.go: the waiting room and the invitations (`AdmitParticipant`,
-- `AdmitAll`, `RejectParticipant`, `DeclineCall`, `ListWaiting`, `InviteParticipants`).
use aloqa_claude.Prelude.{
  ℕ, not, ◌||◌, Option, none, some, List, [], ◌∷◌, filter_by, if◌then◌else◌, number_key,
}
use aloqa_claude.Errors.{Result, ok, err, not_found_error, conflict_error, internal_error}
use aloqa_claude.Entity.Calls.{Call, CallParticipant, connected, declined, is_waiting, is_invited}
use aloqa_claude.Calls.{Service}
use aloqa_claude.Calls.Store.{
  Tables, get_participant, update_participant_status, remove_participant_row,
}
use aloqa_claude.Calls.Access.{
  or_missing, or_none, is_guest_user, require_call_access, can_user_enter_private_channel_less_call,
  require_host_or_co_host,
}
use aloqa_claude.Calls.Transactions.{
  Handler, ◌>>=◌, ◌>>◌, give, reads, updates, when, ignoring, on_error,
}
use aloqa_claude.Calls.Joining.{activate_if_ringing}

-- A handler of moderators: the call, once the access and the role are checked.
unfoldable pub moderated : Service → (workspace call_id user now : ℕ) → Handler Call
moderated s workspace call_id user now = do
  call ← reads (λ t. require_call_access s t workspace call_id user now)
  reads (λ t. require_host_or_co_host t user)
  give call

unfoldable pub waiting_participant : Tables → ℕ → Result CallParticipant
waiting_participant t target =
    elim (or_missing (get_participant t target) (not_found_error "participant not found")
      (internal_error "failed to get participant")) [
        | ok p ↦
            if is_waiting p.status
            then ok p
            else err (conflict_error "participant is not in the waiting room")
        | err e ↦ err e
      ]

-- `AdmitParticipant` after its first checks.
unfoldable pub admit_found : Service → Call → (target now : ℕ) → Handler (Unit {0})
admit_found s call target now = do
  p ← reads (λ t. waiting_participant t target)
  reads (λ t. can_user_enter_private_channel_less_call s t call target now)
  on_error (updates (λ t. update_participant_status t p.id connected now))
      (internal_error "failed to admit participant")
  activate_if_ringing call

unfoldable pub admit_participant :
    Service → (workspace call_id user target now : ℕ) → Handler (Unit {0})
admit_participant s workspace call_id user target now = do
  call ← moderated s workspace call_id user now
  admit_found s call target now

-- The loop of `AdmitAll`: an update that fails is skipped.
unfoldable pub admit_each : Service → Call → List CallParticipant → ℕ → Handler (Unit {0})
admit_each s call [] now = give tt
admit_each s call (p ∷ ps) now =
    let rest = admit_each s call ps now in
    if not (is_waiting p.status) then rest else (do
      reads (λ t. can_user_enter_private_channel_less_call s t call p.user_id now)
      ignoring (updates (λ t. update_participant_status t p.id connected now))
      rest)

unfoldable pub admit_all : Service → (workspace call_id user now : ℕ) → Handler (Unit {0})
admit_all s workspace call_id user now = do
  call ← moderated s workspace call_id user now
  ps ← reads (λ t. ok t.participants)
  admit_each s call ps now
  activate_if_ringing call

unfoldable pub reject_found : Service → Call → (target now : ℕ) → Handler (Unit {0})
reject_found s call target now = do
  p ← reads (λ t. waiting_participant t target)
  on_error
      (if is_guest_user s call.workspace_id target now
        then updates (λ t. update_participant_status t p.id declined now)
        else updates (λ t. remove_participant_row t target))
      (internal_error "failed to reject participant")

unfoldable pub reject_participant :
    Service → (workspace call_id user target now : ℕ) → Handler (Unit {0})
reject_participant s workspace call_id user target now = do
  call ← moderated s workspace call_id user now
  reject_found s call target now

unfoldable pub decline_by_row : Option CallParticipant → ℕ → Handler (Unit {0})
decline_by_row none now = give tt
decline_by_row (some p) now = when (is_invited p.status || is_waiting p.status) (
    on_error (updates (λ t. update_participant_status t p.id declined now))
      (internal_error "failed to decline call"))

-- `DeclineCall` after its access check.
unfoldable pub decline_found : (user now : ℕ) → Handler (Unit {0})
decline_found user now = do
  found ← reads (λ t. or_none (get_participant t user) (internal_error "failed to get participant"))
  decline_by_row found now

unfoldable pub decline_call : Service → (workspace call_id user now : ℕ) → Handler (Unit {0})
decline_call s workspace call_id user now = do
  call ← reads (λ t. require_call_access s t workspace call_id user now)
  decline_found user now

unfoldable pub list_waiting :
    Service → (workspace call_id user now : ℕ) → Handler (List CallParticipant)
list_waiting s workspace call_id user now = do
  call ← moderated s workspace call_id user now
  reads (λ t. ok (filter_by (λ p. is_waiting p.status) t.participants))
