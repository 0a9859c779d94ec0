-- ===== src/Calls/Handled/Exits.antt =====
-- `leave_call`, `end_call` and `cancel_call` change the tables by steps.
use aloqa_claude.Prelude.{ℕ, refl, Option, some, none}
use aloqa_claude.Entity.Calls.{Call, CallParticipant}
use aloqa_claude.Calls.{Service}
use aloqa_claude.Calls.Transactions.{answers}
use aloqa_claude.Calls.Steps.{Powers, dropped, pinned, over, called_off, here, next}
use aloqa_claude.Calls.Runs.{Runs, writes-Runs, answers-Runs, runs_rules}
use aloqa_claude.Calls.Handled.{reaching, ending}
use aloqa_claude.Entity.Calls.{CallEndReason, ParticipantLeftReason}
use aloqa_claude.Calls.Store.{
  disconnect_participant_if_connected, end_with_reason_if_not_ended, cancel_ringing_with_reason,
}
use aloqa_claude.Calls.Transactions.{writes}
use aloqa_claude.Calls.Leaving.{
  unpin, clear_pinned_participant_if_matches, leave_tx, leave_by_row, leave_found, leave_call,
  end_found, end_call, cancel_found, cancel_call,
}

module _ (w : Powers) where
  pub dropped-Runs :
      (id : ℕ) (reason : ParticipantLeftReason) (now : ℕ)
      → Runs (reaching w) (writes (λ t. disconnect_participant_if_connected t id reason now))
  dropped-Runs id reason now = writes-Runs _ (λ t u met h. next here (dropped id reason now met h))

  unpin-Runs : Runs (reaching w) unpin
  unpin-Runs = answers-Runs _ (λ t. next here (pinned none refl))

  pub clear_pinned-Runs :
      (call : Call) (user : ℕ) → Runs (reaching w) (clear_pinned_participant_if_matches call user)
  unfolding clear_pinned_participant_if_matches
  clear_pinned-Runs call user = search (runs_rules, unpin-Runs)

over-Runs :
    (reason : CallEndReason) (now : ℕ)
    → Runs (reaching ending) (answers (λ t. end_with_reason_if_not_ended t reason now))
over-Runs reason now = answers-Runs _ (λ t. next here (over reason now refl refl))

called_off-Runs :
    (reason : CallEndReason) (now : ℕ)
    → Runs (reaching ending) (answers (λ t. cancel_ringing_with_reason t reason now))
called_off-Runs reason now = answers-Runs _ (λ t. next here (called_off reason now refl refl))

leave_tx-Runs : (call : Call) (id user now : ℕ) → Runs (reaching ending) (leave_tx call id user now)
unfolding leave_tx
leave_tx-Runs call id user now = search (runs_rules, dropped-Runs, unpin-Runs, over-Runs) depth 12

leave_by_row-Runs :
    (found : Option CallParticipant) (call : Call) (user now : ℕ)
    → Runs (reaching ending) (leave_by_row found call user now)
unfolding leave_by_row
leave_by_row-Runs none call user now = search runs_rules
leave_by_row-Runs (some p) call user now =
    search (runs_rules, clear_pinned-Runs, leave_tx-Runs) depth 12

pub leave_call-Runs :
    (s : Service) (workspace call_id user now : ℕ)
    → Runs (reaching ending) (leave_call s workspace call_id user now)
unfolding leave_call leave_found
leave_call-Runs s workspace call_id user now = search (runs_rules, leave_by_row-Runs) depth 12

pub end_call-Runs :
    (s : Service) (workspace call_id user now : ℕ)
    → Runs (reaching ending) (end_call s workspace call_id user now)
unfolding end_call end_found
end_call-Runs s workspace call_id user now = search (runs_rules, over-Runs) depth 12

pub cancel_call-Runs :
    (s : Service) (workspace call_id user now : ℕ)
    → Runs (reaching ending) (cancel_call s workspace call_id user now)
unfolding cancel_call cancel_found
cancel_call-Runs s workspace call_id user now = search (runs_rules, called_off-Runs) depth 14
