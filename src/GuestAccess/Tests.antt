-- ===== src/GuestAccess/Tests.antt =====
-- A guest with a grant for a channel, and one with a grant for a call.
use aloqa_claude.Prelude.{◌≡◌, refl, true, none, some, List, [], ◌∷◌, Option, any}
use aloqa_claude.Errors.{ok, ◌>>=◌}
use aloqa_claude.Entity.Guests.{GuestAccessGrant}
use aloqa_claude.Entity.Guests
use aloqa_claude.Repository.{GuestAccessRepository}
use aloqa_claude.GuestAccess
use aloqa_claude.GuestAccess.{
  Checker, has_workspace_access, has_channel_access, is_guest, has_call_access,
  evaluate_call_access, active_grants,
}
use aloqa_claude.GuestAccess.Laws.{evaluate_call_access_lem, guest_access_exact}

abbrev channel_grant : GuestAccessGrant
channel_grant = record {
  workspace_id = 1;
  user_id = 7;
  channel_ids = 20 ∷ 21 ∷ [];
  call_id = none;
  expires_at = 100;
}

abbrev call_grant : GuestAccessGrant
call_grant = record {
  workspace_id = 1;
  user_id = 7;
  channel_ids = 20 ∷ [];
  call_id = some 30;
  expires_at = 100;
}

abbrev store : List GuestAccessGrant → GuestAccessRepository
store gs = record { list_active_by_user_workspace = λ user workspace now. ok gs }

abbrev checker_of : List GuestAccessGrant → Option Checker
checker_of gs = some (record { grants = some (store gs) })

evaluate_call_access_lem_example :
    evaluate_call_access (checker_of (call_grant ∷ [])) 1 30 7 50 ≡ (do
      guest ← is_guest (checker_of (call_grant ∷ [])) 1 7 50
      access ← has_call_access (checker_of (call_grant ∷ [])) 1 30 7 50
      ok (guest, access))
evaluate_call_access_lem_example = evaluate_call_access_lem (checker_of (call_grant ∷ [])) 1 30 7 50

channel_granted : has_channel_access (checker_of (channel_grant ∷ [])) 1 21 7 50 ≡ ok true
unfolding has_channel_access active_grants GuestAccess.allows_channel
channel_granted = refl

abbrev both : List GuestAccessGrant
both = call_grant ∷ channel_grant ∷ []

guest_access_exact_example :
    (has_channel_access (checker_of both) 1 20 7 50
      ≡ ok (any (λ g. Guests.allows_channel g 20) both))
    × (has_call_access (checker_of both) 1 30 7 50 ≡ ok (any (λ g. Guests.allows_call g 30) both))
guest_access_exact_example = guest_access_exact (store both) 1 7 50 both refl 20 30
