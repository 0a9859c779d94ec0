-- ===== src/CollabAccess.antt =====
-- internal/security/collabaccess/checker.go: whether a channel shared across workspaces admits a user.
pub mod Laws
mod Tests
use aloqa_claude.Prelude.{
  ℕ, Bool, true, false, not, ◌&&◌, ◌||◌, Option, none, some, List, [], ◌∷◌, if◌then◌else◌, ◌==◌,
  number_key,
}
use aloqa_claude.Errors.{Error, Result, ok, err, is_forbidden, is_not_found, internal_error}
use aloqa_claude.Entity.Connections.{ChannelAccessGrant}
use aloqa_claude.Repository.{ChannelAccessGrantRepository}
use aloqa_claude.Collaboration.{Service, can_share_call, can_share_channel}

pub record Decision : Type 0 where
  pub managed : Bool
  pub allowed : Bool

pub record Checker (S : Type 0) : Type 0 where
  pub grants : Option ChannelAccessGrantRepository
  pub collaboration : Option (Service S)

abbrev pub unmanaged : Decision
unmanaged = record { managed = false; allowed = false }

abbrev no_grants : List ChannelAccessGrant → Bool
no_grants [] = true
no_grants (_ ∷ _) = false

module _ {S : Type 0} where
  -- The test that a grant makes of the connection behind it.
  unfoldable pub grant_check : Service S → S → ℕ → Bool → ChannelAccessGrant → Result (Unit {0})
  grant_check s st now require_calls g =
      if require_calls
      then can_share_call s st now g.workspace_id g.remote_workspace_id g.source_user_id g.user_id
      else can_share_channel s st now g.workspace_id g.remote_workspace_id g.source_user_id
          g.user_id

  -- The loop skips the grants of other users and, for a call, those that allow no calls; a refusal
  -- goes on to the next grant, and any other error ends the loop.
  unfoldable pub authorize_loop :
      Service S → S → ℕ → ℕ → Bool → List ChannelAccessGrant → Result Decision
  authorize_loop s st now user require_calls [] = ok (record { managed = true; allowed = false })
  authorize_loop s st now user require_calls (g ∷ gs) =
      let rest = authorize_loop s st now user require_calls gs in
      if not (user == g.user_id) && not (user == g.source_user_id)
      then rest
      else if require_calls && not g.allow_calls
      then rest
      else elim (grant_check s st now require_calls g) [
        | ok _ ↦ ok (record { managed = true; allowed = true })
        | err e ↦ if is_forbidden e || is_not_found e then rest else err e
      ]

  unfoldable pub authorize_by :
      Option ChannelAccessGrantRepository
      → Option (Service S)
      → S
      → ℕ
      → ℕ
      → ℕ
      → Bool
      → Result Decision
  authorize_by none s st now channel user require_calls = ok unmanaged
  authorize_by (some grants) none st now channel user require_calls = ok unmanaged
  authorize_by (some grants) (some s) st now channel user require_calls =
      elim (grants.list_by_channel channel) [
        | err e ↦ err (internal_error "failed to verify collaboration access" e)
        | ok gs ↦
            if no_grants gs then ok unmanaged else authorize_loop s st now user require_calls gs
      ]

  unfoldable pub authorize : Option (Checker S) → S → ℕ → ℕ → ℕ → Bool → Result Decision
  unfolding authorize_by
  authorize none st now channel user require_calls = ok unmanaged
  authorize (some c) st now channel user require_calls =
      authorize_by c.grants c.collaboration st now channel user require_calls

  unfoldable pub authorize_channel : Option (Checker S) → S → ℕ → ℕ → ℕ → Result Decision
  authorize_channel c st now channel user = authorize c st now channel user false

  unfoldable pub authorize_call : Option (Checker S) → S → ℕ → ℕ → ℕ → Result Decision
  authorize_call c st now channel user = authorize c st now channel user true
