-- ===== src/Calls/Inviting.antt =====
-- internal/service/call/service.go: `InviteParticipants`. `ids` gives the identifiers that `id.New()`
-- does, one for each user.
use aloqa_claude.Prelude.{
  ℕ, String, Bool, true, false, not, Option, none, some, List, [], ◌∷◌, ◌++◌, contains,
  if◌then◌else◌, ◌==◌, number_key, ltb, length, ◌&&◌,
}
use aloqa_claude.Errors.{
  Result, ok, err, is_forbidden, forbidden_error, internal_error, invalid_input_error, app,
  unprocessable, nothing,
}
use aloqa_claude.Entity.Calls.{
  Call, CallParticipant, participant, ParticipantStatus, invited, waiting, joining, connected,
  disconnected, declined, is_ended,
}
use aloqa_claude.Calls.{Service}
use aloqa_claude.Calls.Store.{
  Tables, get_participant, add_participant, add_invited_members, update_participant_status,
}
use aloqa_claude.Calls.Access.{
  or_missing, or_none, is_private_channel_less_call, require_call_access, require_host_or_co_host,
}
use aloqa_claude.Calls.Transactions.{
  Handler, ◌>>=◌, ◌>>◌, give, fail, reads, updates, answers, when, on_error,
}

pub record InviteSkip : Type 0 where
  pub user_id : ℕ
  pub reason : String

pub record InviteResult : Type 0 where
  pub invited_rows : List CallParticipant
  pub skipped : List InviteSkip

-- The first phase: every target is a member of the workspace, each taken once.
unfoldable pub validate_targets : Service → ℕ → List ℕ → List ℕ → Result (List ℕ)
validate_targets s workspace [] seen = ok []
validate_targets s workspace (user ∷ users) seen =
    let again = validate_targets s workspace users seen in
    let rest = validate_targets s workspace users (user ∷ seen) in
    if user == 0
    then err (invalid_input_error "user_ids must not contain nil")
    else if contains seen user
    then again
    else elim (or_missing (s.members.get_member workspace user)
        (app unprocessable "user is not a workspace member" nothing)
        (internal_error "failed to verify workspace membership")) [
          | err e ↦ err e
          | ok _ ↦ elim rest [ ok users' ↦ ok (user ∷ users') | err e ↦ err e ]
        ]

abbrev skip : ℕ → String → InviteResult → InviteResult
skip user reason r = record r {
  skipped = r.skipped ++ record { user_id = user; reason = reason } ∷ [];
}

abbrev rung : CallParticipant → InviteResult → InviteResult
rung p r = record r { invited_rows = r.invited_rows ++ p ∷ [] }

unfoldable pub invited_row : Call → (id user : ℕ) → CallParticipant
invited_row call id user = record {
  id = id;
  call_id = call.id;
  user_id = user;
  role = participant;
  status = invited;
  audio_muted = false;
  video_muted = false;
  screen_sharing = false;
  can_screen_share = false;
  joined_at = none;
  left_at = none;
  left_reason = none;
}

-- The row of a participant who left or declined is reset to `invited`.
unfoldable pub reset_row : CallParticipant → ℕ → InviteResult → Handler InviteResult
reset_row p now r = do
  on_error (updates (λ t. update_participant_status t p.id invited now))
      (internal_error "failed to invite participant")
  give (rung (record p { status = invited }) r)

-- The `switch existing.Status`.
unfoldable pub invite_by_status :
    ParticipantStatus → CallParticipant → ℕ → InviteResult → Handler InviteResult
unfolding reset_row
invite_by_status connected p now r = give (skip p.user_id "already_connected" r)
invite_by_status joining p now r = give (skip p.user_id "joining" r)
invite_by_status waiting p now r = give (skip p.user_id "waiting" r)
invite_by_status invited p now r = give (rung p r)
invite_by_status declined p now r = reset_row p now r
invite_by_status disconnected p now r = reset_row p now r

unfoldable pub invite_existing : CallParticipant → ℕ → InviteResult → Handler InviteResult
unfolding invite_by_status
invite_existing p now r = invite_by_status p.status p now r

unfoldable pub invite_new : Call → (id user : ℕ) → InviteResult → Handler InviteResult
invite_new call id user r = do
  on_error (updates (λ t. add_participant t (invited_row call id user)))
      (internal_error "failed to invite participant")
  give (rung (invited_row call id user) r)

-- `CanAccessCall`: a refusal is no error.
unfoldable pub may_invite : Service → (workspace call_id user now : ℕ) → Tables → Result Bool
may_invite s workspace call_id user now t =
    elim (require_call_access s t workspace call_id user now) [
      | err e ↦
          if is_forbidden e then ok false else err (internal_error "failed to verify call access" e)
      | ok _ ↦ ok true
    ]

unfoldable pub invite_by_row :
    Option CallParticipant → Call → (id user now : ℕ) → InviteResult → Handler InviteResult
invite_by_row none call id user now r = invite_new call id user r
invite_by_row (some p) call id user now r = invite_existing p now r

-- The body of the second phase's loop.
unfoldable pub invite_one :
    Service → Call → (workspace call_id id user now : ℕ) → InviteResult → Handler InviteResult
invite_one s call workspace call_id id user now r = do
  allowed ← reads (may_invite s workspace call_id user now)
  if not allowed then give (skip user "no_access" r) else do
    existing ←
        reads (λ t. or_none (get_participant t user) (internal_error "failed to get participant"))
    invite_by_row existing call id user now r

unfoldable pub invite_each :
    Service
    → Call
    → (workspace call_id : ℕ) → (ℕ → ℕ)
    → List ℕ
    → ℕ
    → InviteResult
    → Handler InviteResult
invite_each s call workspace call_id ids [] now r = give r
invite_each s call workspace call_id ids (user ∷ users) now r = do
  r' ← invite_one s call workspace call_id (ids user) user now r
  invite_each s call workspace call_id ids users now r'

-- `InviteParticipants` after its checks of the call and the actor's role.
unfoldable pub invite_found :
    Service → Call → (workspace call_id : ℕ) → (ℕ → ℕ) → List ℕ → ℕ → Handler InviteResult
invite_found s call workspace call_id ids users now = do
  targets ← reads (λ _. validate_targets s call.workspace_id users [])
  when (is_private_channel_less_call call && ltb 0 (length targets))
      (answers (λ t. (tt, add_invited_members t targets)))
  invite_each s call workspace call_id ids targets now (record { invited_rows = []; skipped = [] })

unfoldable pub invite_participants :
    Service → (workspace call_id actor : ℕ) → (ℕ → ℕ) → List ℕ → ℕ → Handler InviteResult
invite_participants s workspace call_id actor ids users now = do
  call ← reads (λ t. require_call_access s t workspace call_id actor now)
  when (is_ended call.status) (fail (forbidden_error "call has already ended"))
  reads (λ t. require_host_or_co_host t actor)
  invite_found s call workspace call_id ids users now
