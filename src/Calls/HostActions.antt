-- ===== src/Calls/HostActions.antt =====
-- internal/service/call/service.go: what `UpdateParticipantRole`, `TransferHost` and
-- `RemoveParticipant` do once their checks have passed.
use aloqa_claude.Prelude.{ℕ, true, false, if◌then◌else◌}
use aloqa_claude.Errors.{conflict_error, internal_error}
use aloqa_claude.Entity.Calls.{Call, CallParticipant, CallRole, left_call, is_viewer}
use aloqa_claude.Calls.{Service}
use aloqa_claude.Calls.Store.{
  update_participant_role, transfer_host_rows, update_participant_media,
  disconnect_participant_if_connected,
}
use aloqa_claude.Calls.Access.{require_call_access}
use aloqa_claude.Calls.Transactions.{
  Handler, ◌>>=◌, ◌>>◌, give, fail, reads, updates, writes, answers, when, on_error,
}
use aloqa_claude.Calls.Leaving.{clear_pinned_participant_if_matches}
use aloqa_claude.Calls.Hosting.{check_role_update, check_transfer, check_removal}

-- A viewer's media is turned off.
unfoldable pub set_role_of : CallParticipant → CallRole → Handler (Unit {0})
set_role_of p role = do
  on_error (updates (λ t. update_participant_role t p.id role))
      (internal_error "failed to update participant role")
  when (is_viewer role) (
      on_error (updates (λ t. update_participant_media t p.id true true false))
        (internal_error "failed to disable viewer media"))

unfoldable pub update_role_found : Call → (actor target : ℕ) → CallRole → Handler (Unit {0})
update_role_found call actor target role = do
  p ← reads (check_role_update call actor target role)
  set_role_of p role

unfoldable pub update_call_role :
    Service → (workspace call_id actor target : ℕ) → CallRole → ℕ → Handler (Unit {0})
update_call_role s workspace call_id actor target role now = do
  call ← reads (λ t. require_call_access s t workspace call_id actor now)
  update_role_found call actor target role

unfoldable pub transfer_found : Call → (actor target : ℕ) → Handler (Unit {0})
transfer_found call actor target = do
  reads (check_transfer call actor target)
  swapped ← answers (λ t. transfer_host_rows t actor target)
  if swapped then give tt else fail (conflict_error "host changed; please retry")

unfoldable pub transfer_host :
    Service → (workspace call_id actor target now : ℕ) → Handler (Unit {0})
transfer_host s workspace call_id actor target now = do
  call ← reads (λ t. require_call_access s t workspace call_id actor now)
  transfer_found call actor target

unfoldable pub remove_found : Call → (actor target now : ℕ) → Handler (Unit {0})
remove_found call actor target now = do
  p ← reads (check_removal call actor target)
  on_error
      (writes (λ t. disconnect_participant_if_connected t p.id left_call now) >>= λ was_here.
        give tt)
      (internal_error "failed to remove participant")
  clear_pinned_participant_if_matches call target

unfoldable pub remove_participant :
    Service → (workspace call_id actor target now : ℕ) → Handler (Unit {0})
remove_participant s workspace call_id actor target now = do
  call ← reads (λ t. require_call_access s t workspace call_id actor now)
  remove_found call actor target now
