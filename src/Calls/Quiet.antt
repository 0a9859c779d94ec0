-- ===== src/Calls/Quiet.antt =====
-- A call that has ended has nobody in it or in its waiting room, and does not come back: for requests
-- that are handled one after another.
use aloqa_claude.Prelude.{
  ℕ, ◌≡◌, refl, ◌∙◌, true, false, ◌&&◌, List, [], ◌∷◌, any, arith, Bool-cases, inl, inr, ◌⊎◌,
}
use aloqa_claude.Entity.Calls.{CallEndReason, is_ended, is_ringing}
use aloqa_claude.Calls.Store.{
  Tables, is_live, add_invited_members, set_pinned_participant, activate_ringing,
  end_with_reason_if_not_ended, cancel_ringing_with_reason,
}
use aloqa_claude.Calls.Steps.{
  Powers, Step, added, invited_added, status_set, dropped, role_set, swapped, media_set, pinned,
  activated, over, called_off, deleted, Reach, here, next,
}
use aloqa_claude.Calls.KeepsHosts.{add_invited_members-participants}
use aloqa_claude.Calls.Ended.{
  nobody-disconnected, status-call, added-call, Calm, status_set-Calm, added-Calm, dropped-Calm,
  role_set-Calm, media_set-Calm, deleted-Calm, swapped-Calm,
}

-- If the call has ended, nobody is in it.
abbrev pub IsQuiet : Tables → Type 0
IsQuiet t = (is_ended t.call.status && any is_live t.participants) ≡ false

add_invited_members-call :
    (users : List ℕ) (t : Tables) → (add_invited_members t users).call ≡ t.call
unfolding add_invited_members
add_invited_members-call [] t = refl
add_invited_members-call (user ∷ users) t = add_invited_members-call users _

-- What a step without the power to bring anybody in does: it is calm, or changes the state of the call
-- from ringing to active, or ends the call for everybody.
module _ (t u : Tables) where
  same-Calm : u ≡ t → Calm t u
  same-Calm e = (rw e refl, λ none_here. rw e none_here)

  Calm-IsQuiet : Calm t u → IsQuiet t → IsQuiet u
  Calm-IsQuiet (same, calm) q = elim (Bool-cases (is_ended t.call.status)) [
    | inl over_already ↦ rw (same, over_already) (calm (ground (arith, over_already, q)))
    | inr going ↦ rw (same, going) refl
  ]

  activated-IsQuiet : u ≡ (activate_ringing t).1 → IsQuiet t → IsQuiet u
  unfolding activate_ringing
  activated-IsQuiet h q = rw h (ground (arith, q))

  over-IsQuiet :
      (reason : CallEndReason) (now : ℕ)
      → u ≡ (end_with_reason_if_not_ended t reason now).1
      → IsQuiet t
      → IsQuiet u
  unfolding end_with_reason_if_not_ended
  over-IsQuiet reason now h q = elim (Bool-cases (is_ended t.call.status)) [
    | inl over_already ↦ rw (h, over_already) (ground (arith, over_already, q))
    | inr going ↦ rw (h, going) (nobody-disconnected _ now t.participants)
  ]

  called_off-IsQuiet :
      (reason : CallEndReason) (now : ℕ)
      → u ≡ (cancel_ringing_with_reason t reason now).1
      → IsQuiet t
      → IsQuiet u
  unfolding cancel_ringing_with_reason
  called_off-IsQuiet reason now h q = elim (Bool-cases (is_ringing t.call.status)) [
    | inr answered ↦ rw (h, answered) q
    | inl rings ↦ rw (h, rings) (nobody-disconnected _ now t.participants)
  ]

Step-IsQuiet :
    (w : Powers) (t u : Tables) → w.brings_in ≡ false → Step w t u → IsQuiet t → IsQuiet u
unfolding set_pinned_participant
Step-IsQuiet w t u lacks (added p _ calm h) q =
    Calm-IsQuiet t u (added-Calm t u p (ground (arith, lacks, calm)) h) q
Step-IsQuiet w t u lacks (invited_added users h) q =
    rw (h, add_invited_members-call users t, add_invited_members-participants users t) q
Step-IsQuiet w t u lacks (status_set id status now calm h) q =
    Calm-IsQuiet t u (status_set-Calm t u id status now (ground (arith, lacks, calm)) h) q
Step-IsQuiet w t u lacks (dropped id reason now met h) q =
    Calm-IsQuiet t u (dropped-Calm t u id reason now met h) q
Step-IsQuiet w t u lacks (role_set id role _ h) q = Calm-IsQuiet t u (role_set-Calm t u id role h) q
Step-IsQuiet w t u lacks (swapped from to h) q = Calm-IsQuiet t u (swapped-Calm t u from to h) q
Step-IsQuiet w t u lacks (media_set id audio video screen h) q =
    Calm-IsQuiet t u (media_set-Calm t u id audio video screen h) q
Step-IsQuiet w t u lacks (pinned user h) q = rw h q
Step-IsQuiet w t u lacks (activated h) q = activated-IsQuiet t u h q
Step-IsQuiet w t u lacks (over reason now _ h) q = over-IsQuiet t u reason now h q
Step-IsQuiet w t u lacks (called_off reason now _ h) q = called_off-IsQuiet t u reason now h q
Step-IsQuiet w t u lacks (deleted user _ h) q = Calm-IsQuiet t u (deleted-Calm t u user h) q

pub Reach-IsQuiet :
    (w : Powers) (t : Tables) {u : Tables}
    → w.brings_in ≡ false
    → Reach w t u
    → IsQuiet t
    → IsQuiet u
Reach-IsQuiet w t lacks here q = q
Reach-IsQuiet w t lacks (next {u = x} {v = y} r step) q =
    Step-IsQuiet w x y lacks step (Reach-IsQuiet w t lacks r q)

-- A step leaves the call as far as it was, or ends it, if it has the power.
Step-is_ended :
    (w : Powers) (t u : Tables)
    → Step w t u
    → (is_ended u.call.status ≡ is_ended t.call.status)
      ⊎ ((w.ends ≡ true) × (is_ended u.call.status ≡ true))
unfolding set_pinned_participant activate_ringing end_with_reason_if_not_ended
    cancel_ringing_with_reason
Step-is_ended w t u (added p _ _ h) = inl (rw ((added-call t u p h).0) refl)
Step-is_ended w t u (invited_added users h) = inl (rw (h, add_invited_members-call users t) refl)
Step-is_ended w t u (status_set id status now _ h) =
    inl (rw ((status-call t u id status now h).0) refl)
Step-is_ended w t u (dropped id reason now met h) =
    inl (rw ((dropped-Calm t u id reason now met h).0) refl)
Step-is_ended w t u (role_set id role _ h) = inl (rw ((role_set-Calm t u id role h).0) refl)
Step-is_ended w t u (swapped from to h) = inl (rw ((swapped-Calm t u from to h).0) refl)
Step-is_ended w t u (media_set id audio video screen h) =
    inl (rw ((media_set-Calm t u id audio video screen h).0) refl)
Step-is_ended w t u (pinned user h) = inl (rw h refl)
Step-is_ended w t u (activated h) = inl (rw h (ground arith))
Step-is_ended w t u (deleted user _ h) = inl (rw ((deleted-Calm t u user h).0) refl)
Step-is_ended w t u (over reason now may h) = elim (Bool-cases (is_ended t.call.status)) [
  | inl over_already ↦ inl (rw (h, over_already) over_already)
  | inr going ↦ inr (may, rw (h, going) refl)
]
Step-is_ended w t u (called_off reason now may h) = elim (Bool-cases (is_ringing t.call.status)) [
  | inl rings ↦ inr (may, rw (h, rings) refl)
  | inr answered ↦ inl (rw (h, answered) refl)
]

pub Reach-goes_on :
    (w : Powers) (t : Tables) {u : Tables}
    → w.ends ≡ false
    → Reach w t u
    → is_ended u.call.status ≡ is_ended t.call.status
Reach-goes_on w t lacks here = refl
Reach-goes_on w t lacks (next {u = x} {v = y} r step) = elim (Step-is_ended w x y step) [
  | inl same ↦ same ∙ Reach-goes_on w t lacks r
  | inr (may, _) ↦ absurd (ground (arith, lacks, may))
]

pub Reach-stays_ended :
    (w : Powers) (t : Tables) {u : Tables}
    → is_ended t.call.status ≡ true
    → Reach w t u
    → is_ended u.call.status ≡ true
Reach-stays_ended w t over_already here = over_already
Reach-stays_ended w t over_already (next {u = x} {v = y} r step) = elim (Step-is_ended w x y step) [
  | inl same ↦ same ∙ Reach-stays_ended w t over_already r
  | inr (_, now_over) ↦ now_over
]
