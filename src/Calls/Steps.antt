-- ===== src/Calls/Steps.antt =====
-- The statements by which the handlers change the tables of a call, one step each: any number of
-- handlers may run, and their statements follow one another in any order.
use aloqa_claude.Prelude.{ℕ, ◌≡◌, Bool, true, false, not, Option, List, ◌||◌}
use aloqa_claude.Errors.{ok}
use aloqa_claude.Entity.Calls.{
  CallParticipant, CallRole, ParticipantStatus, ParticipantLeftReason, CallEndReason, is_host,
}
use aloqa_claude.Calls.Store.{
  Tables, is_live, live_status, add_participant, add_invited_members, update_participant_status,
  disconnect_participant_if_connected, update_participant_role, transfer_host_rows,
  update_participant_media, remove_participant_row, set_pinned_participant, activate_ringing,
  end_with_reason_if_not_ended, cancel_ringing_with_reason,
}

-- What a handler may do: delete a row, end the call, and bring a participant into it, or into its
-- waiting room.
pub record Powers : Type 0 where
  pub removes : Bool
  pub ends : Bool
  pub brings_in : Bool

pub data Step (w : Powers) (t u : Tables) : Type 0 where
  added :
      (p : CallParticipant)
      → is_host p.role ≡ false
      → (w.brings_in || not (is_live p)) ≡ true
      → add_participant t p ≡ ok u
      → Step w t u
  invited_added : (users : List ℕ) → u ≡ add_invited_members t users → Step w t u
  status_set :
      (id : ℕ) (status : ParticipantStatus) (now : ℕ)
      → (w.brings_in || not (live_status status)) ≡ true
      → update_participant_status t id status now ≡ ok u
      → Step w t u
  dropped :
      (id : ℕ) (reason : ParticipantLeftReason) (now : ℕ) (met : Bool)
      → disconnect_participant_if_connected t id reason now ≡ ok (met, u)
      → Step w t u
  role_set :
      (id : ℕ) (role : CallRole)
      → is_host role ≡ false
      → update_participant_role t id role ≡ ok u
      → Step w t u
  swapped : (from to : ℕ) → u ≡ (transfer_host_rows t from to).1 → Step w t u
  media_set :
      (id : ℕ) (audio video screen : Bool)
      → update_participant_media t id audio video screen ≡ ok u
      → Step w t u
  pinned : (user : Option ℕ) → u ≡ set_pinned_participant t user → Step w t u
  activated : u ≡ (activate_ringing t).1 → Step w t u
  over :
      (reason : CallEndReason) (now : ℕ)
      → w.ends ≡ true
      → u ≡ (end_with_reason_if_not_ended t reason now).1
      → Step w t u
  called_off :
      (reason : CallEndReason) (now : ℕ)
      → w.ends ≡ true
      → u ≡ (cancel_ringing_with_reason t reason now).1
      → Step w t u
  deleted : (user : ℕ) → w.removes ≡ true → remove_participant_row t user ≡ ok u → Step w t u

pub data Reach (w : Powers) (t : Tables) : Tables → Type 0 where
  here : Reach w t t
  next : {u v : Tables} → Reach w t u → Step w u v → Reach w t v

pub Reach-append : (w : Powers) (t u v : Tables) → Reach w t u → Reach w u v → Reach w t v
Reach-append w t u v r here = r
Reach-append w t u v r (next {u = x} {v = v'} s step) = next (Reach-append w t u x r s) step
