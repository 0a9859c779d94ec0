-- ===== src/Calls/Closed.antt =====
-- Joins and admissions bring nobody into a call that has ended.
use aloqa_claude.Prelude.{
  ℕ, ◌≡◌, String, true, false, not, List, [], ◌∷◌, any, arith, Bool-cases, inl, inr, ◌==◌,
  number_key,
}
use aloqa_claude.Errors.{ok, Result-cases, is_not_found, as_app_error}
use aloqa_claude.Entity.Calls.{Call, CallParticipant, is_ended, is_waiting}
use aloqa_claude.Calls.{Service}
use aloqa_claude.Calls.Store.{
  Tables, is_live, get_by_id, get_participant, find_participant, activate_ringing,
}
use aloqa_claude.Calls.Access.{
  require_call_access, get_call_for_workspace, guest_branch, call_access_in,
}
use aloqa_claude.Calls.Transactions.{◌>>=◌, left_by, answers}
use aloqa_claude.Calls.Joining.{check_join, join_found, join_call, activate_if_ringing}
use aloqa_claude.Calls.Waiting.{
  moderated, waiting_participant, admit_found, admit_participant, admit_each, admit_all,
}
use aloqa_claude.Calls.Rows.{any-find_participant}
use aloqa_claude.Calls.Runs.{
  Closure, Runs, after_reads-Runs, answers-Runs, if-Runs, bind-Runs, runs_rules,
}

-- The call has ended and nobody is in it.
abbrev pub IsOver : Tables → Type 0
IsOver t = (is_ended t.call.status ≡ true) × (any is_live t.participants ≡ false)

abbrev staying_over : Closure
staying_over = record {
  rel = λ t u. IsOver t → IsOver u;
  stay = λ t v. v;
  append = λ t u x f g v. g (f v);
}

get_call_for_workspace-status :
    (s : Service) (t : Tables) (workspace call_id : ℕ) (call : Call)
    → get_call_for_workspace s t workspace call_id ≡ ok call
    → call.status ≡ t.call.status
unfolding get_call_for_workspace get_by_id is_not_found as_app_error
get_call_for_workspace-status s t workspace call_id call h =
    elim (Bool-cases (t.call.id == call_id)) [
      | inr other ↦ absurd (ground (arith, other, h))
      | inl same ↦ elim (Bool-cases (t.call.workspace_id == workspace)) [
        | inr elsewhere ↦ absurd (ground (arith, same, elsewhere, h))
        | inl there ↦ ground (arith, same, there, h)
      ]
    ]

-- An access check answers with the call of the tables.
pub require_call_access-status :
    (s : Service) (t : Tables) (workspace call_id user now : ℕ) (call : Call)
    → require_call_access s t workspace call_id user now ≡ ok call
    → call.status ≡ t.call.status
unfolding require_call_access
require_call_access-status s t workspace call_id user now call h =
    elim (Result-cases (get_call_for_workspace s t workspace call_id)) [
      | inl (e, q) ↦ absurd (ground (arith, q, h))
      | inr (c, q) ↦ elim (Result-cases (guest_branch s c user now)) [
        | inl (e, g) ↦ absurd (ground (arith, q, g, h))
        | inr ((admitted, has_grant), g) ↦
            let same : c ≡ call = elim (Bool-cases admitted) [
              | inl by_grant ↦ ground (arith, q, g, by_grant, h)
              | inr other ↦
                  elim (Result-cases (call_access_in s c.channel_id t c user now has_grant)) [
                    | inl (e, r) ↦ absurd (ground (arith, q, g, other, r, h))
                    | inr (granted, r) ↦ ground (arith, q, g, other, r, h)
                  ]
            ] in
            rw (← same) (get_call_for_workspace-status s t workspace call_id c q)
      ]
    ]

activation-over : Runs staying_over (answers activate_ringing)
activation-over =
    answers-Runs activate_ringing
      (λ t v. unfold activate_ringing in (ground (arith, v), ground (arith, v)))

activate_if_ringing-over : (call : Call) → Runs staying_over (activate_if_ringing call)
unfolding activate_if_ringing
activate_if_ringing-over call = search (runs_rules, activation-over)

join_found-ended :
    (s : Service) (call : Call) (id user : ℕ) (join_password : String) (now : ℕ) (t : Tables)
    → is_ended call.status ≡ true
    → left_by (join_found s call id user join_password now t) ≡ t
unfolding join_found ◌>>=◌ check_join
join_found-ended s call id user join_password now t h = ground (arith, h)

pub join_call-over :
    (s : Service) (workspace call_id id user : ℕ) (join_password : String) (now : ℕ)
    → Runs staying_over (join_call s workspace call_id id user join_password now)
unfolding join_call
join_call-over s workspace call_id id user join_password now = after_reads-Runs _ _ λ t call h v.
    let e = require_call_access-status s t workspace call_id user now call h in
    rw (join_found-ended s call id user join_password now t (rw e v.0)) v

waiting_participant-live :
    (t : Tables) (target : ℕ) (p : CallParticipant)
    → waiting_participant t target ≡ ok p
    → any is_live t.participants ≡ true
unfolding waiting_participant get_participant
waiting_participant-live t target p h =
    elim (Result-cases (find_participant t.participants target)) [
      | inl (e, q) ↦ absurd (ground (arith, q, h))
      | inr (r, q) ↦ any-find_participant is_live target r t.participants q (ground (arith, q, h))
    ]

moderated-over :
    (s : Service) (workspace call_id user now : ℕ)
    → Runs staying_over (moderated s workspace call_id user now)
unfolding moderated
moderated-over s workspace call_id user now = search runs_rules

pub admit_participant-over :
    (s : Service) (workspace call_id user target now : ℕ)
    → Runs staying_over (admit_participant s workspace call_id user target now)
unfolding admit_participant admit_found
admit_participant-over s workspace call_id user target now =
    bind-Runs _ _ (moderated-over s workspace call_id user now) λ call.
      after_reads-Runs _ _
        λ t p h v. absurd (ground (arith, v.1, waiting_participant-live t target p h))

admit_each-over :
    (s : Service) (call : Call) (ps : List CallParticipant) (now : ℕ)
    → any is_live ps ≡ false
    → Runs staying_over (admit_each s call ps now)
unfolding admit_each
admit_each-over s call [] now h = search runs_rules
admit_each-over s call (p ∷ ps) now h =
    if-Runs (not (is_waiting p.status)) _ _ (λ _. admit_each-over s call ps now (ground (arith, h)))
      (λ waits. absurd (ground (arith, h, waits)))

pub admit_all-over :
    (s : Service) (workspace call_id user now : ℕ)
    → Runs staying_over (admit_all s workspace call_id user now)
unfolding admit_all
admit_all-over s workspace call_id user now =
    bind-Runs _ _ (moderated-over s workspace call_id user now) λ call.
      after_reads-Runs _ _ λ t ps h v.
        let e : t.participants ≡ ps = ground (arith, h) in
        (bind-Runs _ _ (admit_each-over s call ps now (rw (← e) v.1))
            (λ _. activate_if_ringing-over call)).at
          t v
