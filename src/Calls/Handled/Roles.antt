-- ===== src/Calls/Handled/Roles.antt =====
-- The handlers of the host, and the update of a participant's own media, change the tables by steps.
use aloqa_claude.Calls.Pinning.{pin_found, pin_participant}
use aloqa_claude.Calls.Media.{update_media_found, update_media}
use aloqa_claude.Prelude.{ℕ, ◌≡◌, refl, Bool, false, Option, arith}
use aloqa_claude.Errors.{ok}
use aloqa_claude.Entity.Calls.{Call, CallParticipant, CallRole, is_host}
use aloqa_claude.Calls.{Service}
use aloqa_claude.Calls.Store.{Tables, set_pinned_participant}
use aloqa_claude.Calls.Transactions.{updates, answers}
use aloqa_claude.Calls.Steps.{role_set, swapped, media_set, pinned, here, next}
use aloqa_claude.Calls.Runs.{Runs, after_reads-Runs, updates-Runs, answers-Runs, runs_rules}
use aloqa_claude.Calls.Handled.{reaching, modest}
use aloqa_claude.Entity.Calls.{is_host}
use aloqa_claude.Calls.Store.{update_participant_role, update_participant_media, transfer_host_rows}
use aloqa_claude.Calls.Hosting.{check_role_update}
use aloqa_claude.Calls.HostActions.{
  set_role_of, update_role_found, update_call_role, transfer_found, transfer_host, remove_found,
  remove_participant,
}
use aloqa_claude.Calls.Handled.Exits.{dropped-Runs, clear_pinned-Runs}

media-Runs :
    (id : ℕ) (audio video screen : Bool)
    → Runs (reaching modest) (updates (λ t. update_participant_media t id audio video screen))
media-Runs id audio video screen =
    updates-Runs _ (λ t u h. next here (media_set id audio video screen h))

role-Runs :
    (id : ℕ) (role : CallRole)
    → is_host role ≡ false
    → Runs (reaching modest) (updates (λ t. update_participant_role t id role))
role-Runs id role no_host = updates-Runs _ (λ t u h. next here (role_set id role no_host h))

-- A role update that passes its checks makes no host.
check_role_update_no_host :
    (call : Call) (actor target : ℕ) (role : CallRole) (t : Tables) (p : CallParticipant)
    → check_role_update call actor target role t ≡ ok p
    → is_host role ≡ false
unfolding check_role_update
check_role_update_no_host call actor target role t p h = ground (arith, h)

set_role_of-Runs :
    (p : CallParticipant) (role : CallRole)
    → is_host role ≡ false
    → Runs (reaching modest) (set_role_of p role)
unfolding set_role_of
set_role_of-Runs p role no_host = search (runs_rules, role-Runs, media-Runs) depth 8

update_role_found-Runs :
    (call : Call) (actor target : ℕ) (role : CallRole)
    → Runs (reaching modest) (update_role_found call actor target role)
unfolding update_role_found
update_role_found-Runs call actor target role =
    after_reads-Runs (check_role_update call actor target role) _ λ t p h.
      let no_host = check_role_update_no_host call actor target role t p h in
      (set_role_of-Runs p role no_host).at t

pub update_call_role-Runs :
    (s : Service) (workspace call_id actor target : ℕ) (role : CallRole) (now : ℕ)
    → Runs (reaching modest) (update_call_role s workspace call_id actor target role now)
unfolding update_call_role
update_call_role-Runs s workspace call_id actor target role now =
    search (runs_rules, update_role_found-Runs)

swap-Runs : (from to : ℕ) → Runs (reaching modest) (answers (λ t. transfer_host_rows t from to))
swap-Runs from to = answers-Runs _ (λ t. next here (swapped from to refl))

pub transfer_host-Runs :
    (s : Service) (workspace call_id actor target now : ℕ)
    → Runs (reaching modest) (transfer_host s workspace call_id actor target now)
unfolding transfer_host transfer_found
transfer_host-Runs s workspace call_id actor target now = search (runs_rules, swap-Runs) depth 12

pub remove_participant-Runs :
    (s : Service) (workspace call_id actor target now : ℕ)
    → Runs (reaching modest) (remove_participant s workspace call_id actor target now)
unfolding remove_participant remove_found
remove_participant-Runs s workspace call_id actor target now =
    search (runs_rules, dropped-Runs, clear_pinned-Runs) depth 12

update_media_found-Runs :
    (audio video screen : Option Bool) (s : Service) (call : Call) (user : ℕ)
    → Runs (reaching modest) (update_media_found audio video screen s call user)
unfolding update_media_found
update_media_found-Runs audio video screen s call user = search (runs_rules, media-Runs) depth 8

pub update_media-Runs :
    (audio video screen : Option Bool) (s : Service) (workspace call_id user now : ℕ)
    → Runs (reaching modest) (update_media audio video screen s workspace call_id user now)
unfolding update_media
update_media-Runs audio video screen s workspace call_id user now =
    search (runs_rules, update_media_found-Runs)

pinned-Runs :
    (user : Option ℕ) → Runs (reaching modest) (answers (λ t. (tt, set_pinned_participant t user)))
pinned-Runs user = answers-Runs _ (λ t. next here (pinned user refl))

pub pin_participant-Runs :
    (s : Service) (workspace call_id actor : ℕ) (target : Option ℕ) (now : ℕ)
    → Runs (reaching modest) (pin_participant s workspace call_id actor target now)
unfolding pin_participant pin_found
pin_participant-Runs s workspace call_id actor target now =
    search (runs_rules, pinned-Runs) depth 12
