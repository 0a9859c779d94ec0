-- ===== src/Calls/Hosting.antt =====
-- internal/service/call/service.go: `UpdateParticipantRole`, `TransferHost` and `RemoveParticipant`.
use aloqa_claude.Prelude.{ℕ, String, Bool, true, false, not, ◌&&◌, if◌then◌else◌, ◌==◌, number_key}
use aloqa_claude.Errors.{
  Result, ok, err, ◌>>=◌, ◌>>◌, not_found_error, forbidden_error, invalid_input_error,
  conflict_error, internal_error,
}
use aloqa_claude.Entity.Calls.{
  Call, CallParticipant, CallType, CallRole, other_role, is_ended, is_host, is_co_host,
  is_moderator, is_viewer, is_connected, is_broadcast,
}
use aloqa_claude.Collaboration.{check}
use aloqa_claude.Calls.Store.{Tables, get_participant}
use aloqa_claude.Calls.Access.{or_missing}

abbrev known_role : CallRole → Bool
known_role (other_role _) = false
known_role _ = true

unfoldable pub validate_assignable_role : CallType → CallRole → Result (Unit {0})
validate_assignable_role type role = do
  check (known_role role) (invalid_input_error "invalid call role")
  check (not (is_viewer role && not (is_broadcast type)))
      (invalid_input_error "viewer role is only valid for webinars and selector calls")

abbrev actor_of : Tables → ℕ → Result CallParticipant
actor_of t actor =
    or_missing (get_participant t actor) (forbidden_error "actor is not a participant")
      (internal_error "failed to get actor participant")

abbrev target_of : Tables → ℕ → String → Result CallParticipant
target_of t target message =
    or_missing (get_participant t target) (not_found_error message)
      (internal_error "failed to get target participant")

-- The checks of `UpdateParticipantRole` after its access check, with the row to update.
unfoldable pub check_role_update :
    Call → (actor target : ℕ) → CallRole → Tables → Result CallParticipant
check_role_update call actor target role t = do
  check (not (is_ended call.status)) (forbidden_error "call has already ended")
  validate_assignable_role call.type role
  check (not (is_host role))
      (invalid_input_error "host role can only be assigned via transfer-host")
  a ← actor_of t actor
  check (is_moderator a.role) (forbidden_error "only host or co-host can change participant roles")
  p ← target_of t target "participant not found"
  check (not (is_host p.role && not (p.user_id == a.user_id)))
      (forbidden_error "host role cannot be changed by another participant")
  check (not (is_co_host a.role && is_moderator role))
      (forbidden_error "co-hosts cannot assign host or co-host roles")
  check (not (a.user_id == p.user_id && is_host a.role && not (is_host role)))
      (forbidden_error "host cannot demote themselves")
  ok p

-- The checks of `TransferHost` after its access check.
unfoldable pub check_transfer : Call → (actor target : ℕ) → Tables → Result (Unit {0})
check_transfer call actor target t = do
  check (not (is_ended call.status)) (forbidden_error "call has already ended")
  check (not (actor == target)) (invalid_input_error "cannot transfer host to yourself")
  a ← actor_of t actor
  check (is_host a.role) (forbidden_error "only the host can transfer host")
  p ← target_of t target "target participant not found"
  check (is_connected p.status) (invalid_input_error "target participant is not connected")
  if is_host p.role then err (conflict_error "target is already the host") else ok tt

-- The checks of `RemoveParticipant` after its access check, with the row to disconnect.
unfoldable pub check_removal : Call → (actor target : ℕ) → Tables → Result CallParticipant
check_removal call actor target t = do
  check (not (is_ended call.status)) (forbidden_error "call has already ended")
  check (not (actor == target))
      (invalid_input_error "cannot remove yourself; leave the call instead")
  a ← actor_of t actor
  check (is_host a.role) (forbidden_error "only the host can remove participants")
  target_of t target "participant not found"
