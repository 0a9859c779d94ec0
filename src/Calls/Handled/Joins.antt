-- ===== src/Calls/Handled/Joins.antt =====
-- `join_call` changes the tables by steps.
use aloqa_claude.Prelude.{ℕ, ◌≡◌, Bool, false, String, Option, some, none, arith}
use aloqa_claude.Entity.Calls.{Call, CallParticipant, ParticipantStatus, is_host}
use aloqa_claude.Calls.{Service}
use aloqa_claude.Calls.Joining.{
  connect_invited_participant, join_again, join_first, join_by_row, join_found, join_call,
  new_participant,
}
use aloqa_claude.Calls.Runs.{Runs, runs_rules}
use aloqa_claude.Calls.Handled.{
  reaching, admitting, status-Runs, activation-Runs, activate_if_ringing-Runs, added-Runs,
}

connect_invited_participant-Runs :
    (call : Call) (p : CallParticipant) (now : ℕ)
    → Runs (reaching admitting) (connect_invited_participant call p now)
unfolding connect_invited_participant
connect_invited_participant-Runs call p now =
    search (runs_rules, activation-Runs, status-Runs) depth 12

join_again-Runs :
    (call : Call) (guest : Bool) (p : CallParticipant) (now : ℕ)
    → Runs (reaching admitting) (join_again call guest p now)
unfolding join_again
join_again-Runs call guest p now =
    search (runs_rules, status-Runs, connect_invited_participant-Runs) depth 12

joiner_no_host :
    (call : Call) (id user now : ℕ) (status : ParticipantStatus)
    → is_host (new_participant call id user now status).role ≡ false
unfolding new_participant
joiner_no_host call id user now status = ground arith

join_first-Runs :
    (s : Service) (call : Call) (guest : Bool) (id user : ℕ) (join_password : String) (now : ℕ)
    → Runs (reaching admitting) (join_first s call guest id user join_password now)
unfolding join_first
join_first-Runs s call guest id user join_password now =
    search (runs_rules, added-Runs, joiner_no_host, activate_if_ringing-Runs) depth 12

join_by_row-Runs :
    (existing : Option CallParticipant) (s : Service) (call : Call) (guest : Bool) (id user : ℕ)
    (join_password : String) (now : ℕ)
    → Runs (reaching admitting) (join_by_row existing s call guest id user join_password now)
unfolding join_by_row
join_by_row-Runs none s call guest id user join_password now = search join_first-Runs
join_by_row-Runs (some p) s call guest id user join_password now = search join_again-Runs

pub join_call-Runs :
    (s : Service) (workspace call_id id user : ℕ) (join_password : String) (now : ℕ)
    → Runs (reaching admitting) (join_call s workspace call_id id user join_password now)
unfolding join_call join_found
join_call-Runs s workspace call_id id user join_password now = search (runs_rules, join_by_row-Runs)
