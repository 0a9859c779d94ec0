-- ===== src/Calls/Ended.antt =====
-- Which statements bring nobody into a call.
use aloqa_claude.Prelude.{
  ℕ, ◌≡◌, refl, ◌∙◌, Bool, true, false, not, ◌||◌, ◌&&◌, none, List, [], ◌∷◌, ◌++◌, any, filter_by,
  arith, Bool-cases, inl, inr, any-append,
}
use aloqa_claude.Errors.{ok}
use aloqa_claude.Entity.Calls.{
  CallParticipant, CallRole, ParticipantStatus, ParticipantLeftReason, host, participant,
}
use aloqa_claude.Calls.Store.{
  Tables, update_where, of_user, with_id, still_here, not_host, is_live, live_status, set_status,
  set_disconnected, set_role, set_media, add_participant, update_participant_status,
  disconnect_participant_if_connected, update_participant_role, transfer_host_rows, scan_transfer,
  update_participant_media, remove_participant_row,
}

-- Nobody is connected, joining or waiting.
abbrev pub nobody : List CallParticipant → Bool
nobody ps = not (any is_live ps)

-- An update that brings nobody in.
nobody-update_where :
    (test : CallParticipant → Bool) (f : CallParticipant → CallParticipant)
    → ((p : CallParticipant) → is_live p ≡ false → is_live (f p) ≡ false)
    → (ps : List CallParticipant) → any is_live ps ≡ false
    → any is_live (update_where test f ps) ≡ false
unfolding update_where
nobody-update_where test f calm [] h = refl
nobody-update_where test f calm (p ∷ ps) h = elim (Bool-cases (test p)) [
  | inl hit ↦
      rw (hit, calm p (ground (arith, h)), nobody-update_where test f calm ps (ground (arith, h)))
        refl
  | inr miss ↦ ground (arith, miss, h, nobody-update_where test f calm ps (ground (arith, h)))
]

-- The end of a call disconnects everybody who is there.
pub nobody-disconnected :
    (reason : ParticipantLeftReason) (now : ℕ) (ps : List CallParticipant)
    → any is_live (update_where is_live (set_disconnected reason now) ps) ≡ false
unfolding update_where set_disconnected
nobody-disconnected reason now [] = refl
nobody-disconnected reason now (p ∷ ps) = ground (arith, nobody-disconnected reason now ps)

nobody-filter_by :
    (test : CallParticipant → Bool) (ps : List CallParticipant)
    → any is_live ps ≡ false
    → any is_live (filter_by test ps) ≡ false
nobody-filter_by test [] h = refl
nobody-filter_by test (p ∷ ps) h = ground (arith, h, nobody-filter_by test ps (ground (arith, h)))

module _ (t u : Tables) where
  -- The statements that write rows leave the call alone.
  pub status-call :
      (id : ℕ) (status : ParticipantStatus) (now : ℕ)
      → update_participant_status t id status now ≡ ok u
      → (u.call ≡ t.call)
        × (u.participants ≡ update_where (with_id id) (set_status status none now) t.participants)
  unfolding update_participant_status
  status-call id status now h = elim (Bool-cases (any (with_id id) t.participants)) [
    | inl hit ↦ (ground (arith, hit, h), ground (arith, hit, h))
    | inr miss ↦ absurd (ground (arith, miss, h))
  ]

  pub added-call :
      (p : CallParticipant)
      → add_participant t p ≡ ok u
      → (u.call ≡ t.call) × (u.participants ≡ t.participants ++ p ∷ [])
  unfolding add_participant
  added-call p h =
      elim (Bool-cases
        (any (with_id p.id) t.participants || any (of_user p.user_id) t.participants)) [
          | inl taken ↦ absurd (ground (arith, taken, h))
          | inr new ↦ (ground (arith, new, h), ground (arith, new, h))
        ]

  -- What such a statement does to the call and to those who are in it.
  abbrev pub Calm : Type 0
  Calm =
      (u.call ≡ t.call) × (any is_live t.participants ≡ false → any is_live u.participants ≡ false)

  pub status_set-Calm :
      (id : ℕ) (status : ParticipantStatus) (now : ℕ)
      → not (live_status status) ≡ true
      → update_participant_status t id status now ≡ ok u
      → Calm
  status_set-Calm id status now calm h =
      let (same, rows) = status-call id status now h in
      (
        same,
        λ none_here. rw rows (
            nobody-update_where (with_id id) (set_status status none now)
              (λ p _. unfold set_status in ground (arith, calm)) t.participants none_here),
      )

  pub added-Calm :
      (p : CallParticipant) → not (is_live p) ≡ true → add_participant t p ≡ ok u → Calm
  added-Calm p calm h =
      let (same, rows) = added-call p h in
      (
        same,
        λ none_here.
            rw (rows, any-append is_live t.participants (p ∷ []), none_here) (ground (arith, calm)),
      )

  pub dropped-Calm :
      (id : ℕ) (reason : ParticipantLeftReason) (now : ℕ) (met : Bool)
      → disconnect_participant_if_connected t id reason now ≡ ok (met, u)
      → Calm
  unfolding disconnect_participant_if_connected
  dropped-Calm id reason now met h = elim (Bool-cases (any (still_here id) t.participants)) [
    | inl hit ↦
        let rows : u.participants
            ≡ update_where (still_here id) (set_disconnected reason now) t.participants =
          ground (arith, hit, h) in
        (
          ground (arith, hit, h),
          λ none_here. rw rows (
              nobody-update_where (still_here id) (set_disconnected reason now)
                (λ p _. unfold set_disconnected in refl) t.participants none_here),
        )
    | inr miss ↦ elim (Bool-cases (any (with_id id) t.participants)) [
      | inl gone ↦
          let e : u ≡ t = ground (arith, miss, gone, h) in (rw e refl, λ none_here. rw e none_here)
      | inr unknown ↦ absurd (ground (arith, miss, unknown, h))
    ]
  ]

  -- An update of a row that leaves its status.
  rows-Calm :
      (test : CallParticipant → Bool) (f : CallParticipant → CallParticipant)
      → ((p : CallParticipant) → is_live (f p) ≡ is_live p)
      → u.call ≡ t.call
      → u.participants ≡ update_where test f t.participants
      → Calm
  rows-Calm test f same_status same rows = (
    same,
    λ none_here.
        rw rows
          (nobody-update_where test f (λ p away. same_status p ∙ away) t.participants none_here),
  )

  pub role_set-Calm : (id : ℕ) (role : CallRole) → update_participant_role t id role ≡ ok u → Calm
  unfolding update_participant_role
  role_set-Calm id role h = elim (Bool-cases (any (not_host id) t.participants)) [
    | inr miss ↦ absurd (ground (arith, miss, h))
    | inl hit ↦
        rows-Calm (not_host id) (set_role role) (λ p. refl) (ground (arith, hit, h))
          (ground (arith, hit, h))
  ]

  pub media_set-Calm :
      (id : ℕ) (audio video screen : Bool)
      → update_participant_media t id audio video screen ≡ ok u
      → Calm
  unfolding update_participant_media
  media_set-Calm id audio video screen h = elim (Bool-cases (any (with_id id) t.participants)) [
    | inr miss ↦ absurd (ground (arith, miss, h))
    | inl hit ↦
        rows-Calm (with_id id) (set_media audio video screen) (λ p. refl) (ground (arith, hit, h))
          (ground (arith, hit, h))
  ]

  pub deleted-Calm : (user : ℕ) → remove_participant_row t user ≡ ok u → Calm
  unfolding remove_participant_row
  deleted-Calm user h = elim (Bool-cases (any (of_user user) t.participants)) [
    | inr miss ↦ absurd (ground (arith, miss, h))
    | inl hit ↦
        let rows : u.participants ≡ filter_by (λ p. not (of_user user p)) t.participants =
          ground (arith, hit, h) in
        (
          ground (arith, hit, h),
          λ none_here.
              rw rows (nobody-filter_by (λ p. not (of_user user p)) t.participants none_here),
        )
  ]

  pub swapped-Calm : (from to : ℕ) → u ≡ (transfer_host_rows t from to).1 → Calm
  unfolding transfer_host_rows
  swapped-Calm from to h =
      let found = scan_transfer t.participants from to false false in
      elim (Bool-cases (found.0 && found.1)) [
        | inr no_swap ↦
            let e : u ≡ t = h ∙ ground (arith, no_swap) in (rw e refl, λ none_here. rw e none_here)
        | inl both ↦
            let rows : List CallParticipant =
              update_where (of_user from) (set_role participant) t.participants in
            let e : u ≡ record t { participants = update_where (of_user to) (set_role host) rows } =
              h ∙ ground (arith, both) in
            (
              rw e refl,
              λ none_here. rw e (
                  nobody-update_where (of_user to) (set_role host) (λ p away. away) rows
                    (nobody-update_where (of_user from) (set_role participant) (λ p away. away)
                      t.participants none_here)),
            )
      ]
