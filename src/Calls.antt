-- ===== src/Calls.antt =====
-- internal/service/call/service.go: the life of a call, from the host that starts it to its end, and
-- who takes part in it. The tables of the database hold one call; what the service calls outside the
-- repository, and the events that it publishes, are described in the children.
pub mod Settings
pub mod RoundTrip
pub mod Store
pub mod Access
pub mod Transactions
pub mod Joining
pub mod Waiting
pub mod Leaving
mod Examples
mod Tests
mod MediaTests
mod PatchTests
pub mod Starting
pub mod Hosting
pub mod HostActions
pub mod Inviting
pub mod Checks
pub mod MediaChecks
pub mod Media
pub mod Patching
pub mod PatchLaws
pub mod Pinning
pub mod Rows
pub mod Transfer
pub mod Steps
pub mod KeepsHosts
pub mod OneHost
pub mod Runs
pub mod Handled
pub mod Entering
pub mod Departing
pub mod Bypass
pub mod Ended
pub mod Quiet
pub mod Closed
pub mod Race
pub mod Admitting
pub mod Requests
pub mod Lifecycle
pub mod Started
use aloqa_claude.Prelude.{
  ℕ, ℤ, pos, is_positive, String, Bool, true, false, Option, none, some, List, [], ◌∷◌, ◌+◌,
  if◌then◌else◌, ◌==◌, string_key,
}
use aloqa_claude.Errors.{
  Result, ok, err, is_not_found, forbidden_error, internal_error, app, call_password_required,
  nothing, Error,
}
use aloqa_claude.Entity.Calls.{
  CallType, one_to_one, group, meeting, webinar, selector, other_type, Call, CallParticipant,
  is_present, is_one_to_one, is_ended,
}
use aloqa_claude.Repository.{WorkspaceRepository, ChannelRepository}
use aloqa_claude.GuestAccess
use aloqa_claude.CollabAccess.{Decision}

-- `control` is the cap of `PolicyForCall`, `media_room` is `EnsureLiveKitRoomRequired`, and
-- `password_matches` is bcrypt's comparison of a hash with a password.
pub record Service : Type 0 where
  pub members : WorkspaceRepository
  pub channels : ChannelRepository
  pub guests : Option GuestAccess.Checker
  pub collab : Option (ℕ → ℕ → Result Decision)
  pub control : Option (Call → ℤ)
  pub max_viewers_per_call : ℤ
  pub max_screen_shares_per_call : ℤ
  pub recording_enabled : Bool
  pub media_room : Call → Result (Unit {0})
  pub password_matches : String → String → Bool

-- The `switch call.Type` of `callPolicy`.
abbrev default_cap : CallType → ℤ → ℤ
default_cap one_to_one viewers = pos 2
default_cap group viewers = pos 32
default_cap meeting viewers = pos 500
default_cap webinar viewers = viewers
default_cap selector viewers = viewers
default_cap (other_type _) viewers = pos 500

-- `callPolicy(call).MaxParticipants`
unfoldable pub policy_cap : Option (Call → ℤ) → ℤ → Call → ℤ
policy_cap (some control) viewers call = control call
policy_cap none viewers call =
    if is_positive call.settings.max_participants
    then call.settings.max_participants
    else default_cap call.type viewers

unfoldable pub effective_participant_cap : Service → Call → ℤ
unfolding policy_cap
effective_participant_cap s call =
    let cap = policy_cap s.control s.max_viewers_per_call call in
    if is_positive cap then cap else call.settings.max_participants

abbrev password_required : String → Error
password_required message = app call_password_required message nothing

unfoldable pub verify_join_password : Service → String → String → Result (Unit {0})
verify_join_password s hash password =
    if hash == ""
    then err (forbidden_error "this call is not configured with a password")
    else if password == ""
    then err (password_required "a password is required to join this call")
    else if s.password_matches hash password
    then ok tt
    else err (password_required "incorrect call password")

-- The loops that count the participants who are `connected` or `joining`.
unfoldable pub active_count : List CallParticipant → ℕ
active_count [] = 0
active_count (p ∷ ps) = (if is_present p.status then 1 else 0) + active_count ps
