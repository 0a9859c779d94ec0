-- ===== src/Calls/KeepsHosts.antt =====
-- Each statement on the tables of a call keeps its hosts.
use aloqa_claude.Prelude.{
  ℕ, ◌≤◌, ◌≡◌, refl, ◌∙◌, Bool, true, false, not, none, List, [], ◌∷◌, ◌++◌, inl, inr, any,
  Bool-cases, arith, ◌||◌, filter_by,
}
use aloqa_claude.Errors.{ok}
use aloqa_claude.Entity.Calls.{
  CallParticipant, CallRole, ParticipantStatus, ParticipantLeftReason, CallEndReason, is_host,
  is_ended, is_ringing, timed_out, missed_call,
}
use aloqa_claude.Calls.Store.{
  Tables, update_where, of_user, with_id, still_here, not_host, is_live, set_status,
  set_disconnected, set_role, add_participant, add_invited_members, update_participant_status,
  set_media, disconnect_participant_if_connected, update_participant_role, transfer_host_rows,
  update_participant_media, remove_participant_row, end_with_reason_if_not_ended,
  cancel_ringing_with_reason,
}
use aloqa_claude.Calls.Rows.{
  host_count, DistinctUsers, host_count-update_where, update_where-DistinctUsers, host_count-append,
  append-DistinctUsers, host_count-removed, removed-DistinctUsers,
}
use aloqa_claude.Calls.Transfer.{
  transfer_host_rows_cases, swap_rows, swap_rows-host_count, swap_rows-DistinctUsers,
}

-- Users stay distinct, and the hosts as many as they were; or, with removals, no more.
abbrev pub KeepsHosts : Bool → List CallParticipant → List CallParticipant → Type 0
KeepsHosts removals ps qs =
    DistinctUsers qs
    × (host_count qs ≤ host_count ps)
    × (removals ≡ false → host_count qs ≡ host_count ps)

pub same_hosts :
    (removals : Bool) (ps qs : List CallParticipant)
    → DistinctUsers qs
    → host_count qs ≡ host_count ps
    → KeepsHosts removals ps qs
same_hosts removals ps qs v e = (v, omega arith, λ _. e)

-- An update that leaves the users, and the roles with respect to the host, as they are.
pub updated :
    (removals : Bool) (test : CallParticipant → Bool) (f : CallParticipant → CallParticipant)
    (ps : List CallParticipant)
    → ((p : CallParticipant) → test p ≡ true → is_host (f p).role ≡ is_host p.role)
    → ((p : CallParticipant) → (f p).user_id ≡ p.user_id)
    → DistinctUsers ps
    → KeepsHosts removals ps (update_where test f ps)
updated removals test f ps keep same_user v =
    same_hosts removals ps (update_where test f ps)
      (update_where-DistinctUsers test f same_user ps v) (host_count-update_where test f keep ps)

pub kept :
    (removals : Bool) (ps : List CallParticipant) → DistinctUsers ps → KeepsHosts removals ps ps
kept removals ps v = (v, omega arith, λ _. refl)

pub add_invited_members-participants :
    (users : List ℕ) (t : Tables) → (add_invited_members t users).participants ≡ t.participants
unfolding add_invited_members
add_invited_members-participants [] t = refl
add_invited_members-participants (user ∷ users) t = add_invited_members-participants users _

module _ (removals : Bool) (t u : Tables) (v : DistinctUsers t.participants) where
  pub added-KeepsHosts :
      (p : CallParticipant)
      → is_host p.role ≡ false
      → add_participant t p ≡ ok u
      → KeepsHosts removals t.participants u.participants
  unfolding add_participant
  added-KeepsHosts p no_host h =
      elim (Bool-cases
        (any (with_id p.id) t.participants || any (of_user p.user_id) t.participants)) [
          | inl taken ↦ absurd (ground (arith, taken, h))
          | inr new ↦
              let e : u.participants ≡ t.participants ++ p ∷ [] = ground (arith, new, h) in
              rw e (
                same_hosts removals t.participants (t.participants ++ p ∷ [])
                  (append-DistinctUsers t.participants p (ground (arith, new)) v)
                  (host_count-append t.participants (p ∷ []) ∙ ground (arith, no_host)))
        ]

  pub status_set-KeepsHosts :
      (id : ℕ) (status : ParticipantStatus) (now : ℕ)
      → update_participant_status t id status now ≡ ok u
      → KeepsHosts removals t.participants u.participants
  unfolding update_participant_status
  status_set-KeepsHosts id status now h = elim (Bool-cases (any (with_id id) t.participants)) [
    | inr miss ↦ absurd (ground (arith, miss, h))
    | inl hit ↦
        let e : u.participants
            ≡ update_where (with_id id) (set_status status none now) t.participants =
          ground (arith, hit, h) in
        rw e (
          unfold set_status in
          updated removals (with_id id) (set_status status none now) t.participants (λ p _. refl)
            (λ p. refl) v)
  ]

  pub disconnected-KeepsHosts :
      (test : CallParticipant → Bool) (reason : ParticipantLeftReason) (now : ℕ)
      → u.participants ≡ update_where test (set_disconnected reason now) t.participants
      → KeepsHosts removals t.participants u.participants
  disconnected-KeepsHosts test reason now e = rw e (
      unfold set_disconnected in
      updated removals test (set_disconnected reason now) t.participants (λ p _. refl) (λ p. refl)
        v)

  pub unchanged-KeepsHosts :
      u.participants ≡ t.participants → KeepsHosts removals t.participants u.participants
  unchanged-KeepsHosts e = rw e (kept removals t.participants v)

  pub dropped-KeepsHosts :
      (id : ℕ) (reason : ParticipantLeftReason) (now : ℕ) (met : Bool)
      → disconnect_participant_if_connected t id reason now ≡ ok (met, u)
      → KeepsHosts removals t.participants u.participants
  unfolding disconnect_participant_if_connected
  dropped-KeepsHosts id reason now met h = elim (Bool-cases (any (still_here id) t.participants)) [
    | inl hit ↦ disconnected-KeepsHosts (still_here id) reason now (ground (arith, hit, h))
    | inr miss ↦ elim (Bool-cases (any (with_id id) t.participants)) [
      | inl gone ↦ unchanged-KeepsHosts (ground (arith, miss, gone, h))
      | inr unknown ↦ absurd (ground (arith, miss, unknown, h))
    ]
  ]

  pub role_set-KeepsHosts :
      (id : ℕ) (role : CallRole)
      → is_host role ≡ false
      → update_participant_role t id role ≡ ok u
      → KeepsHosts removals t.participants u.participants
  unfolding update_participant_role
  role_set-KeepsHosts id role no_host h = elim (Bool-cases (any (not_host id) t.participants)) [
    | inr miss ↦ absurd (ground (arith, miss, h))
    | inl hit ↦
        let e : u.participants ≡ update_where (not_host id) (set_role role) t.participants =
          ground (arith, hit, h) in
        rw e (
          updated removals (not_host id) (set_role role) t.participants
            (λ p met. ground (arith, met, no_host)) (λ p. refl) v)
  ]

  pub swapped-KeepsHosts :
      (from to : ℕ)
      → u ≡ (transfer_host_rows t from to).1
      → KeepsHosts removals t.participants u.participants
  swapped-KeepsHosts from to h = elim (transfer_host_rows_cases t from to v) [
    | inl (no_swap, e) ↦ unchanged-KeepsHosts (rw (h, e) refl)
    | inr (differ, found, e) ↦
        rw (h, e)
          (same_hosts removals t.participants (swap_rows t.participants from to)
            (swap_rows-DistinctUsers t.participants from to v)
            (swap_rows-host_count t.participants from to v found))
  ]

  pub media_set-KeepsHosts :
      (id : ℕ) (audio video screen : Bool)
      → update_participant_media t id audio video screen ≡ ok u
      → KeepsHosts removals t.participants u.participants
  unfolding update_participant_media
  media_set-KeepsHosts id audio video screen h =
      elim (Bool-cases (any (with_id id) t.participants)) [
        | inr miss ↦ absurd (ground (arith, miss, h))
        | inl hit ↦
            let e : u.participants
                ≡ update_where (with_id id) (set_media audio video screen) t.participants =
              ground (arith, hit, h) in
            rw e (
              updated removals (with_id id) (set_media audio video screen) t.participants
                (λ p _. refl) (λ p. refl) v)
      ]

  pub deleted-KeepsHosts :
      (user : ℕ)
      → removals ≡ true
      → remove_participant_row t user ≡ ok u
      → KeepsHosts removals t.participants u.participants
  unfolding remove_participant_row
  deleted-KeepsHosts user allowed h = elim (Bool-cases (any (of_user user) t.participants)) [
    | inr miss ↦ absurd (ground (arith, miss, h))
    | inl hit ↦
        let e : u.participants ≡ filter_by (λ p. not (of_user user p)) t.participants =
          ground (arith, hit, h) in
        rw e (
          removed-DistinctUsers user t.participants v,
          host_count-removed user t.participants,
          λ none_allowed. absurd (ground (arith, allowed, none_allowed)),
        )
  ]

  pub ends-KeepsHosts :
      (reason : CallEndReason) (now : ℕ)
      → u ≡ (end_with_reason_if_not_ended t reason now).1
      → KeepsHosts removals t.participants u.participants
  unfolding end_with_reason_if_not_ended
  ends-KeepsHosts reason now h = elim (Bool-cases (is_ended t.call.status)) [
    | inl over_already ↦ unchanged-KeepsHosts (rw (h, over_already) refl)
    | inr going ↦ disconnected-KeepsHosts is_live timed_out now (rw (h, going) refl)
  ]

  pub cancels-KeepsHosts :
      (reason : CallEndReason) (now : ℕ)
      → u ≡ (cancel_ringing_with_reason t reason now).1
      → KeepsHosts removals t.participants u.participants
  unfolding cancel_ringing_with_reason
  cancels-KeepsHosts reason now h = elim (Bool-cases (is_ringing t.call.status)) [
    | inr answered ↦ unchanged-KeepsHosts (rw (h, answered) refl)
    | inl rings ↦ disconnected-KeepsHosts is_live missed_call now (rw (h, rings) refl)
  ]
