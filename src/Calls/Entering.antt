-- ===== src/Calls/Entering.antt =====
-- Who enters a call at a first join, and how.
use aloqa_claude.Prelude.{
  ℕ, ◌≡◌, ◌⊎◌, inl, inr, refl, String, Bool, true, false, [], ◌∷◌, ◌++◌, arith, Bool-cases,
  string_key,
}
use aloqa_claude.Errors.{ok, err, Result-cases, not_found_error, is_not_found, as_app_error}
use aloqa_claude.Entity.Calls.{
  Call, CallParticipant, ParticipantStatus, connected, waiting, EntryMode, manual_admit, password,
  open_entry, resolved_entry_mode, is_connected, is_host,
}
use aloqa_claude.Calls.{Service, verify_join_password}
use aloqa_claude.Calls.Store.{Tables, get_participant, add_participant, activate_ringing}
use aloqa_claude.Calls.Access.{is_guest_user}
use aloqa_claude.Calls.Transactions.{done, ◌>>=◌}
use aloqa_claude.Calls.Joining.{
  initial_status, new_participant, activate_if_ringing, join_first, join_by_row, join_found,
  check_join,
}

module _ (s : Service) (call : Call) (id user : ℕ) (join_password : String) (now : ℕ) where
  abbrev guest : Bool
  guest = is_guest_user s call.workspace_id user now

  -- What lets a user in at once: an open call, or its password.
  abbrev pub MayEnter : Type 0
  MayEnter =
      (guest ≡ false)
      × ((resolved_entry_mode call.settings ≡ open_entry)
          ⊎ ((resolved_entry_mode call.settings ≡ password)
              × (s.password_matches call.join_password_hash join_password ≡ true)))

  resolved_entry_mode_cases :
      (resolved_entry_mode call.settings ≡ manual_admit)
      ⊎ ((resolved_entry_mode call.settings ≡ password)
          ⊎ (resolved_entry_mode call.settings ≡ open_entry))
  unfolding resolved_entry_mode
  resolved_entry_mode_cases = by_mode call.settings.entry_mode refl
    where
      by_mode :
          (m : EntryMode)
          → call.settings.entry_mode ≡ m
          → (resolved_entry_mode call.settings ≡ manual_admit)
            ⊎ ((resolved_entry_mode call.settings ≡ password)
                ⊎ (resolved_entry_mode call.settings ≡ open_entry))
      by_mode manual_admit e = inl (rw e refl)
      by_mode password e = inr (inl (rw e refl))
      by_mode open_entry e = inr (inr (rw e refl))
      by_mode _ e = elim (Bool-cases call.settings.waiting_room) [
        | inl holds ↦ inl (rw (e, holds) refl)
        | inr no_room ↦ inr (inr (rw (e, no_room) refl))
      ]

  initial_status-MayEnter :
      (status : ParticipantStatus)
      → initial_status s call guest join_password ≡ ok status
      → is_connected status ≡ true
      → MayEnter
  unfolding initial_status verify_join_password
  initial_status-MayEnter status h c = elim resolved_entry_mode_cases [
    | inl manual ↦ absurd (ground (arith, manual, h, c))
    | inr (inl by_password) ↦
        (ground (arith, by_password, h, c), inr (by_password, ground (arith, by_password, h, c)))
    | inr (inr free) ↦ (ground (arith, free, h, c), inl free)
  ]

  initial_status_cases :
      (status : ParticipantStatus)
      → initial_status s call guest join_password ≡ ok status
      → (status ≡ connected) ⊎ (status ≡ waiting)
  unfolding initial_status
  initial_status_cases connected h = inl refl
  initial_status_cases waiting h = inr refl
  initial_status_cases _ h = absurd (ground (arith, h))

  joiner_no_host :
      (status : ParticipantStatus) → is_host (new_participant call id user now status).role ≡ false
  unfolding new_participant
  joiner_no_host status = ground arith

  joiner-status :
      (status : ParticipantStatus) → (new_participant call id user now status).status ≡ status
  unfolding new_participant
  joiner-status status = refl

  -- A first join that succeeds adds a row of the status that the entry mode gives, and no more.
  join_first_ok :
      (t t' : Tables) (p : CallParticipant)
      → join_first s call guest id user join_password now t ≡ done p t'
      → (status : ParticipantStatus) × (initial_status s call guest join_password ≡ ok status)
        × (p ≡ new_participant call id user now status)
        × (t'.participants ≡ t.participants ++ p ∷ [])
  unfolding join_first ◌>>=◌ activate_if_ringing activate_ringing add_participant
  join_first_ok t t' p h = elim (Result-cases (initial_status s call guest join_password)) [
    | inl (e, q) ↦ absurd (ground (arith, q, h))
    | inr (status, q) ↦ (status, q, ground (arith, q, h), ground (arith, q, h))
  ]

  -- A user who has no row in the call and whose join succeeds gets one row and no other is touched; it
  -- is never the host's; and it is connected, rather than waiting, only if the user is no guest and
  -- the call is open, or has a password that matches the one given.
  pub first_join_enters :
      (t t' : Tables) (p : CallParticipant)
      → get_participant t user ≡ err (not_found_error "call participant not found")
      → join_found s call id user join_password now t ≡ done p t'
      → (t'.participants ≡ t.participants ++ p ∷ [])
        × (is_host p.role ≡ false)
        × (((is_connected p.status ≡ true) × MayEnter) ⊎ (p.status ≡ waiting))
  unfolding join_found ◌>>=◌ join_by_row is_not_found as_app_error
  first_join_enters t t' p unknown h = elim (Result-cases (check_join s call t)) [
    | inl (e, q) ↦ absurd (ground (arith, q, h))
    | inr (ready, q) ↦
        let first : join_first s call guest id user join_password now t ≡ done p t' =
          ground (arith, q, unknown, h) in
        let (status, initial, e, rows) = join_first_ok t t' p first in
        (
          rows,
          rw e (joiner_no_host status),
          elim (initial_status_cases status initial) [
            | inl enters ↦
                let there : is_connected p.status ≡ true =
                  rw (e, joiner-status status, enters) refl in
                inl (there, initial_status-MayEnter status initial (rw enters refl))
            | inr waits ↦ inr (rw (e, joiner-status status, waits) refl)
          ],
        )
  ]
