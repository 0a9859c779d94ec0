-- ===== src/Calls/Pinning.antt =====
-- internal/service/call/sharing.go: `SetPinnedParticipant`.
use aloqa_claude.Prelude.{ℕ, Option, none, some, if◌then◌else◌}
use aloqa_claude.Errors.{Result, ok, err, forbidden_error, invalid_input_error}
use aloqa_claude.Entity.Calls.{Call, is_ended, is_connected}
use aloqa_claude.Calls.{Service}
use aloqa_claude.Calls.Store.{Tables, get_participant, set_pinned_participant}
use aloqa_claude.Calls.Access.{require_call_access, require_host_or_co_host}
use aloqa_claude.Calls.Transactions.{Handler, ◌>>=◌, ◌>>◌, fail, reads, answers}

-- Whoever is to be pinned takes part in the call.
unfoldable pub check_pinned : Option ℕ → Tables → Result (Unit {0})
check_pinned none t = ok tt
check_pinned (some user) t = elim (get_participant t user) [
  | ok p ↦
      if is_connected p.status
      then ok tt
      else err (invalid_input_error "pinned participant is not connected")
  | err _ ↦ err (invalid_input_error "pinned participant is not in this call")
]

unfoldable pub pin_found : Call → (actor : ℕ) → Option ℕ → Handler (Unit {0})
pin_found call actor target =
    if is_ended call.status then fail (forbidden_error "call has already ended") else do
      reads (λ t. require_host_or_co_host t actor)
      reads (check_pinned target)
      answers (λ t. (tt, set_pinned_participant t target))

unfoldable pub pin_participant :
    Service → (workspace call_id actor : ℕ) → Option ℕ → ℕ → Handler (Unit {0})
pin_participant s workspace call_id actor target now = do
  call ← reads (λ t. require_call_access s t workspace call_id actor now)
  pin_found call actor target
