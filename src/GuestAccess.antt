-- ===== src/GuestAccess.antt =====
-- internal/security/guestaccess/checker.go: what the grants of an invited guest open. A nil checker
-- or store is `none`; `time.Now()` is the argument `now`.
pub mod Laws
mod Tests
use aloqa_claude.Prelude.{
  ℕ, Bool, true, false, not, is_some, Option, none, some, List, [], ◌∷◌, map, length, ltb, any,
  if◌then◌else◌, contains, ◌||◌, ◌==◌, number_key,
}
use aloqa_claude.Errors.{Error, app, Result, ok, err, ◌>>=◌, AppError, as_app_error, internal_error}
use aloqa_claude.Entity.Guests.{GuestAccessGrant, is_empty, points_to}
use aloqa_claude.Repository.{GuestAccessRepository}

pub record Checker : Type 0 where
  pub grants : Option GuestAccessRepository

-- `entityGrant`
pub record Grant : Type 0 where
  pub channel_ids : List ℕ
  pub call_id : Option ℕ

unfoldable pub is_call_scoped : Grant → Bool
is_call_scoped g = is_some g.call_id

unfoldable pub allows_channel : Grant → ℕ → Bool
allows_channel g channel =
    if is_some g.call_id
    then false
    else if is_empty g.channel_ids
    then true
    else contains g.channel_ids channel

unfoldable pub allows_call : Grant → ℕ → Bool
allows_call g call = points_to g.call_id call

abbrev pub to_grant : GuestAccessGrant → Grant
to_grant g = record { channel_ids = g.channel_ids; call_id = g.call_id }

-- An application error is passed on without its wrappers, any other becomes an internal error.
abbrev load_error : Error → Option AppError → Error
load_error e none = internal_error "failed to load guest access grants" e
load_error e (some a) = app a.code a.message a.cause

unfoldable pub load_grants : Option GuestAccessRepository → ℕ → ℕ → ℕ → Result (List Grant)
load_grants none workspace user now = ok []
load_grants (some grants) workspace user now =
    elim (grants.list_active_by_user_workspace user workspace now) [
      | err e ↦ err (load_error e (as_app_error e))
      | ok found ↦ ok (map to_grant found)
    ]

unfoldable pub active_grants : Option Checker → ℕ → ℕ → ℕ → Result (List Grant)
unfolding load_grants
active_grants none workspace user now = ok []
active_grants (some c) workspace user now = load_grants c.grants workspace user now

module _ (c : Option Checker) (workspace : ℕ) where
  unfoldable pub has_workspace_access : ℕ → ℕ → Result Bool
  has_workspace_access user now = do
    grants ← active_grants c workspace user now
    ok (any (λ g. not (is_call_scoped g)) grants)

  unfoldable pub has_channel_access : ℕ → ℕ → ℕ → Result Bool
  has_channel_access channel user now = do
    grants ← active_grants c workspace user now
    ok (any (λ g. allows_channel g channel) grants)

  unfoldable pub is_guest : ℕ → ℕ → Result Bool
  is_guest user now = do grants ← active_grants c workspace user now; ok (ltb 0 (length grants))

  unfoldable pub has_call_access : ℕ → ℕ → ℕ → Result Bool
  has_call_access call user now = do
    grants ← active_grants c workspace user now
    ok (any (λ g. allows_call g call) grants)

-- The loop of `EvaluateCallAccess`: it stops at the first grant for the call.
unfoldable pub evaluate_loop : ℕ → Bool → Bool → List Grant → Bool × Bool
evaluate_loop call guest access [] = (guest, access)
evaluate_loop call guest access (g ∷ gs) =
    if allows_call g call then (true, true) else evaluate_loop call true access gs

unfoldable pub evaluate_call_access : Option Checker → ℕ → ℕ → ℕ → ℕ → Result (Bool × Bool)
unfolding evaluate_loop
evaluate_call_access c workspace call user now = do
  grants ← active_grants c workspace user now
  ok (evaluate_loop call false false grants)
