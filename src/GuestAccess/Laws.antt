-- ===== src/GuestAccess/Laws.antt =====
-- How the checks of guestaccess relate to one another.
use aloqa_claude.Prelude.{
  ℕ, ◌≡◌, refl, Bool, true, false, not, ◌||◌, List, [], ◌∷◌, length, ltb, any, ap, map, inl, inr,
  Option, some, arith, is_some,
}
use aloqa_claude.Errors.{ok, ◌>>=◌, Result-cases}
use aloqa_claude.Entity.Guests.{GuestAccessGrant, is_empty}
use aloqa_claude.Entity.Guests
use aloqa_claude.Repository.{GuestAccessRepository}
use aloqa_claude.GuestAccess.{
  Checker, Grant, is_call_scoped, allows_channel, allows_call, to_grant, active_grants,
  has_workspace_access, has_channel_access, is_guest, has_call_access, evaluate_loop,
  evaluate_call_access, load_grants,
}

evaluate_loop_lem :
    (call : ℕ) (guest access : Bool) (gs : List Grant)
    → evaluate_loop call guest access gs
      ≡ (guest || ltb 0 (length gs), any (λ g. allows_call g call) gs || access)
unfolding evaluate_loop
evaluate_loop_lem call guest access [] = ground arith
evaluate_loop_lem call guest access (g ∷ gs) = ground (arith, evaluate_loop_lem call true access gs)

-- The single query of `EvaluateCallAccess` gives what `IsGuest` and `HasCallAccess` give by two, the
-- errors included.
pub evaluate_call_access_lem :
    (c : Option Checker) (workspace call user now : ℕ)
    → evaluate_call_access c workspace call user now ≡ (do
      guest ← is_guest c workspace user now
      access ← has_call_access c workspace call user now
      ok (guest, access))
unfolding evaluate_call_access is_guest has_call_access
evaluate_call_access_lem c workspace call user now =
    elim (Result-cases (active_grants c workspace user now)) [
      | inl (e, h) ↦ rw h
      | inr (gs, h) ↦ rw h (ground (arith, evaluate_loop_lem call false false gs))
    ]

channel_grant_opens_workspace :
    (channel : ℕ) (gs : List Grant)
    → any (λ g. allows_channel g channel) gs ≡ true
    → any (λ g. not (is_call_scoped g)) gs ≡ true
unfolding allows_channel is_call_scoped
channel_grant_opens_workspace channel [] h = h
channel_grant_opens_workspace channel (g ∷ gs) h =
    ground (arith, channel_grant_opens_workspace channel gs)

no_workspace :
    (gs : List GuestAccessGrant)
    → any (λ g. not (is_some g.call_id)) gs ≡ false
    → any (λ g. not (is_call_scoped g)) (map to_grant gs) ≡ false
unfolding is_call_scoped
no_workspace [] h = refl
no_workspace (g ∷ gs) h = ground (arith, no_workspace gs)

no_channel :
    (gs : List GuestAccessGrant) (channel : ℕ)
    → any (λ g. not (is_some g.call_id)) gs ≡ false
    → any (λ g. allows_channel g channel) (map to_grant gs) ≡ false
unfolding allows_channel
no_channel [] channel h = refl
no_channel (g ∷ gs) channel h = ground (arith, no_channel gs channel)

same_channel :
    (gs : List GuestAccessGrant) (channel : ℕ)
    → any (λ g. allows_channel g channel) (map to_grant gs)
      ≡ any (λ g. Guests.allows_channel g channel) gs
unfolding allows_channel Guests.allows_channel
same_channel [] channel = refl
same_channel (g ∷ gs) channel = ground (arith, same_channel gs channel)

same_call :
    (gs : List GuestAccessGrant) (call : ℕ)
    → any (λ g. allows_call g call) (map to_grant gs) ≡ any (λ g. Guests.allows_call g call) gs
unfolding allows_call Guests.allows_call
same_call [] call = refl
same_call (g ∷ gs) call = ground (arith, same_call gs call)

-- A guest who may see a channel holds a grant that is not bound to a call: whenever
-- `HasChannelAccess` answers true, so does `HasWorkspaceAccess`.
pub channel_access_within_workspace :
    (c : Option Checker) (workspace channel user now : ℕ)
    → has_channel_access c workspace channel user now ≡ ok true
    → has_workspace_access c workspace user now ≡ ok true
unfolding has_channel_access has_workspace_access
channel_access_within_workspace c workspace channel user now h =
    elim (Result-cases (active_grants c workspace user now)) [
      | inl (e, q) ↦ absurd (ground (arith, h, q))
      | inr (gs, q) ↦ rw q (ground (arith, q, h, channel_grant_opens_workspace channel gs))
    ]

-- The grants that the store lists, when it answers.
module _ (repo : GuestAccessRepository) (workspace user now : ℕ) (gs : List GuestAccessGrant)
    (listed : repo.list_active_by_user_workspace user workspace now ≡ ok gs) where
  abbrev checker : Option Checker
  checker = some (record { grants = some repo })

  active_grants_lem : active_grants checker workspace user now ≡ ok (map to_grant gs)
  unfolding active_grants load_grants
  active_grants_lem = rw (listed, load_grants)

  -- A guest all of whose grants are bound to calls sees no workspace content and no channel at all,
  -- whatever channels the grants list.
  pub call_guest_sees_no_channel :
      any (λ g. not (is_some g.call_id)) gs ≡ false
      → (has_workspace_access checker workspace user now ≡ ok false)
        × ((channel : ℕ) → has_channel_access checker workspace channel user now ≡ ok false)
  unfolding has_workspace_access has_channel_access
  call_guest_sees_no_channel h = (
    rw active_grants_lem (ap ok (no_workspace gs h)),
    λ channel. rw active_grants_lem (ap ok (no_channel gs channel h)),
  )

  -- With the store answering, `HasChannelAccess` and `HasCallAccess` answer exactly whether some
  -- grant, as the entity package reads it, allows the channel or the call.
  pub guest_access_exact :
      (channel call : ℕ)
      → (has_channel_access checker workspace channel user now
          ≡ ok (any (λ g. Guests.allows_channel g channel) gs))
        × (has_call_access checker workspace call user now
            ≡ ok (any (λ g. Guests.allows_call g call) gs))
  unfolding has_channel_access has_call_access
  guest_access_exact channel call = (
    rw active_grants_lem (ap ok (same_channel gs channel)),
    rw active_grants_lem (ap ok (same_call gs call)),
  )
