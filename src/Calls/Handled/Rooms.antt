-- ===== src/Calls/Handled/Rooms.antt =====
-- The handlers of the waiting room and of the invitations change the tables by steps; a rejection
-- alone may delete a row.
use aloqa_claude.Prelude.{ℕ, ◌≡◌, refl, true, false, not, Option, some, none, List, [], ◌∷◌}
use aloqa_claude.Entity.Calls.{
  Call, CallParticipant, ParticipantStatus, connected, declined, disconnected, is_host, is_waiting,
}
use aloqa_claude.Calls.{Service}
use aloqa_claude.Calls.Store.{is_live}
use aloqa_claude.Calls.Transactions.{updates, answers}
use aloqa_claude.Calls.Steps.{Powers, invited_added, deleted, here, next}
use aloqa_claude.Calls.Runs.{
  Runs, updates-Runs, answers-Runs, if-Runs, bind-Runs, reads-Runs, ignoring-Runs, runs_rules,
}
use aloqa_claude.Calls.Handled.{
  reaching, admitting, rejecting, modest, status-Runs, activate_if_ringing-Runs, added-Runs,
}
use aloqa_claude.Entity.Calls.{is_host}
use aloqa_claude.Calls.Store.{remove_participant_row, add_invited_members}
use aloqa_claude.Calls.Waiting.{
  moderated, admit_found, admit_participant, admit_each, admit_all, reject_found,
  reject_participant, decline_by_row, decline_found, decline_call,
}
use aloqa_claude.Calls.Inviting.{
  InviteResult, invited_row, invite_by_status, invite_existing, invite_new, invite_by_row,
  invite_one, invite_each, invite_found, invite_participants,
}

moderated-Runs :
    (w : Powers) (s : Service) (workspace call_id user now : ℕ)
    → Runs (reaching w) (moderated s workspace call_id user now)
unfolding moderated
moderated-Runs w s workspace call_id user now = search runs_rules

pub admit_participant-Runs :
    (s : Service) (workspace call_id user target now : ℕ)
    → Runs (reaching admitting) (admit_participant s workspace call_id user target now)
unfolding admit_participant admit_found
admit_participant-Runs s workspace call_id user target now =
    search (runs_rules, moderated-Runs, status-Runs, activate_if_ringing-Runs) depth 12

admit_each-Runs :
    (s : Service) (call : Call) (ps : List CallParticipant) (now : ℕ)
    → Runs (reaching admitting) (admit_each s call ps now)
unfolding admit_each
admit_each-Runs s call [] now = search runs_rules
admit_each-Runs s call (p ∷ ps) now =
    if-Runs (not (is_waiting p.status)) _ _ (λ _. admit_each-Runs s call ps now)
      (λ _. bind-Runs _ _ (reads-Runs _) (λ _.
        bind-Runs _ _ (ignoring-Runs _ (status-Runs admitting p.id connected now refl))
          (λ _. admit_each-Runs s call ps now)))

pub admit_all-Runs :
    (s : Service) (workspace call_id user now : ℕ)
    → Runs (reaching admitting) (admit_all s workspace call_id user now)
unfolding admit_all
admit_all-Runs s workspace call_id user now =
    search (runs_rules, moderated-Runs, admit_each-Runs, activate_if_ringing-Runs) depth 12

decline_by_row-Runs :
    (found : Option CallParticipant) (now : ℕ) → Runs (reaching modest) (decline_by_row found now)
unfolding decline_by_row
decline_by_row-Runs none now = search runs_rules
decline_by_row-Runs (some p) now = search (runs_rules, status-Runs) depth 8

pub decline_call-Runs :
    (s : Service) (workspace call_id user now : ℕ)
    → Runs (reaching modest) (decline_call s workspace call_id user now)
unfolding decline_call decline_found
decline_call-Runs s workspace call_id user now = search (runs_rules, decline_by_row-Runs) depth 8

by_status-Runs :
    (status : ParticipantStatus) (p : CallParticipant) (now : ℕ) (r : InviteResult)
    → Runs (reaching modest) (invite_by_status status p now r)
unfolding invite_by_status
by_status-Runs declined p now r = search (runs_rules, status-Runs) depth 8
by_status-Runs disconnected p now r = search (runs_rules, status-Runs) depth 8
by_status-Runs _ p now r = search runs_rules

invite_existing-Runs :
    (p : CallParticipant) (now : ℕ) (r : InviteResult)
    → Runs (reaching modest) (invite_existing p now r)
unfolding invite_existing
invite_existing-Runs p now r = by_status-Runs p.status p now r

invited_no_host : (call : Call) (id user : ℕ) → is_host (invited_row call id user).role ≡ false
unfolding invited_row
invited_no_host call id user = refl

invited_not_live : (call : Call) (id user : ℕ) → not (is_live (invited_row call id user)) ≡ true
unfolding invited_row
invited_not_live call id user = refl

invite_new-Runs :
    (call : Call) (id user : ℕ) (r : InviteResult)
    → Runs (reaching modest) (invite_new call id user r)
unfolding invite_new
invite_new-Runs call id user r =
    search (runs_rules, added-Runs, invited_no_host, invited_not_live) depth 8

invite_by_row-Runs :
    (existing : Option CallParticipant) (call : Call) (id user now : ℕ) (r : InviteResult)
    → Runs (reaching modest) (invite_by_row existing call id user now r)
unfolding invite_by_row
invite_by_row-Runs none call id user now r = search invite_new-Runs
invite_by_row-Runs (some p) call id user now r = search invite_existing-Runs

invite_one-Runs :
    (s : Service) (call : Call) (workspace call_id id user now : ℕ) (r : InviteResult)
    → Runs (reaching modest) (invite_one s call workspace call_id id user now r)
unfolding invite_one
invite_one-Runs s call workspace call_id id user now r =
    search (runs_rules, invite_by_row-Runs) depth 8

invite_each-Runs :
    (s : Service) (call : Call) (workspace call_id : ℕ) (ids : ℕ → ℕ) (users : List ℕ) (now : ℕ)
    (r : InviteResult)
    → Runs (reaching modest) (invite_each s call workspace call_id ids users now r)
unfolding invite_each
invite_each-Runs s call workspace call_id ids [] now r = search runs_rules
invite_each-Runs s call workspace call_id ids (user ∷ users) now r =
    search (runs_rules, invite_one-Runs, invite_each-Runs s call workspace call_id ids users now)
      depth 8

invited_members-Runs :
    (users : List ℕ) → Runs (reaching modest) (answers (λ t. (tt, add_invited_members t users)))
invited_members-Runs users = answers-Runs _ (λ t. next here (invited_added users refl))

pub invite_participants-Runs :
    (s : Service) (workspace call_id actor : ℕ) (ids : ℕ → ℕ) (users : List ℕ) (now : ℕ)
    → Runs (reaching modest) (invite_participants s workspace call_id actor ids users now)
unfolding invite_participants invite_found
invite_participants-Runs s workspace call_id actor ids users now =
    search (runs_rules, invited_members-Runs, invite_each-Runs) depth 12

removed-Runs : (user : ℕ) → Runs (reaching rejecting) (updates (λ t. remove_participant_row t user))
removed-Runs user = updates-Runs _ (λ t u h. next here (deleted user refl h))

pub reject_participant-Runs :
    (s : Service) (workspace call_id user target now : ℕ)
    → Runs (reaching rejecting) (reject_participant s workspace call_id user target now)
unfolding reject_participant reject_found
reject_participant-Runs s workspace call_id user target now =
    search (runs_rules, moderated-Runs, status-Runs, removed-Runs) depth 12
