-- ===== src/Calls/Handled.antt =====
-- Every handler changes the tables by the steps of Calls.Steps only, whatever it answers: what the
-- children share.
pub mod Joins
pub mod Exits
pub mod Rooms
pub mod Roles
use aloqa_claude.Prelude.{
  ℕ, ◌≡◌, refl, Bool, true, false, not, ◌&&◌, ◌||◌, if◌then◌else◌, Bool-cases, inl, inr, String,
  Option, some, none, List, [], ◌∷◌, arith,
}
use aloqa_claude.Errors.{Error, Result, ok, err, Result-cases, internal_error}
use aloqa_claude.Entity.Calls.{
  Call, CallParticipant, CallRole, ParticipantStatus, connected, waiting, declined, invited,
  is_host, is_ringing, is_waiting, is_broadcast, left_call,
}
use aloqa_claude.Calls.{Service}
use aloqa_claude.Calls.Store.{
  Tables, is_live, live_status, update_participant_status, add_participant, activate_ringing,
}
use aloqa_claude.Calls.Transactions.{give, fail, updates, within_tx, answers, on_error}
use aloqa_claude.Calls.Joining.{
  activate_if_ringing, connect_invited_participant, join_again, join_first, join_by_row, join_found,
  join_call, role_on_join, new_participant,
}
use aloqa_claude.Calls.Steps.{
  Powers, Step, added, invited_added, status_set, dropped, role_set, swapped, media_set, pinned,
  activated, over, called_off, deleted, Reach, here, next, Reach-append,
}
use aloqa_claude.Calls.Runs.{
  Closure, Runs, after_reads-Runs, updates-Runs, writes-Runs, answers-Runs, runs_rules,
}

-- To reach tables by the steps that the powers allow.
abbrev pub reaching : Powers → Closure
reaching w = record { rel = Reach w; stay = λ t. here; append = Reach-append w }

-- The powers of a handler that lets users in, of one that ends the call, of one that deletes a row,
-- and of any other.
abbrev pub admitting : Powers
admitting = record { removes = false; ends = false; brings_in = true }

abbrev pub ending : Powers
ending = record { removes = false; ends = true; brings_in = false }

abbrev pub rejecting : Powers
rejecting = record { removes = true; ends = false; brings_in = false }

abbrev pub modest : Powers
modest = record { removes = false; ends = false; brings_in = false }

module _ (w : Powers) where
  pub status-Runs :
      (id : ℕ) (status : ParticipantStatus) (now : ℕ)
      → (w.brings_in || not (live_status status)) ≡ true
      → Runs (reaching w) (updates (λ t. update_participant_status t id status now))
  status-Runs id status now allowed =
      updates-Runs _ (λ t u h. next here (status_set id status now allowed h))

  pub added-Runs :
      (p : CallParticipant)
      → is_host p.role ≡ false
      → (w.brings_in || not (is_live p)) ≡ true
      → Runs (reaching w) (updates (λ t. add_participant t p))
  added-Runs p no_host allowed = updates-Runs _ (λ t u h. next here (added p no_host allowed h))

  pub activation-Runs : Runs (reaching w) (answers activate_ringing)
  activation-Runs = answers-Runs activate_ringing (λ t. next here (activated refl))

  pub activate_if_ringing-Runs : (call : Call) → Runs (reaching w) (activate_if_ringing call)
  unfolding activate_if_ringing
  activate_if_ringing-Runs call = search (runs_rules, activation-Runs)
