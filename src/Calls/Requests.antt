-- ===== src/Calls/Requests.antt =====
-- The requests that change a call (internal/service/call/service.go), handled one after another; and
-- what holds after any number of them.
use aloqa_claude.Prelude.{
  ℕ, ◌≤◌, ◌≡◌, refl, ◌∙◌, String, Bool, false, List, [], ◌∷◌, Option, any, if◌then◌else◌, arith,
  Bool-cases, inl, inr,
}
use aloqa_claude.Entity.Calls.{CallRole}
use aloqa_claude.Calls.{Service}
use aloqa_claude.Calls.Store.{Tables}
use aloqa_claude.Calls.Transactions.{left_by}
use aloqa_claude.Calls.Joining.{join_call}
use aloqa_claude.Calls.Waiting.{admit_participant, admit_all, reject_participant, decline_call}
use aloqa_claude.Calls.Leaving.{leave_call, end_call, cancel_call}
use aloqa_claude.Calls.HostActions.{update_call_role, transfer_host, remove_participant}
use aloqa_claude.Calls.Inviting.{invite_participants}
use aloqa_claude.Calls.Rows.{host_count, DistinctUsers}
use aloqa_claude.Calls.Steps.{Powers, Reach}
use aloqa_claude.Calls.OneHost.{reached_calls_keep_hosts}
use aloqa_claude.Calls.Handled.{admitting, ending, rejecting, modest}
use aloqa_claude.Calls.Handled.Joins.{join_call-Runs}
use aloqa_claude.Calls.Handled.Exits.{leave_call-Runs, end_call-Runs, cancel_call-Runs}
use aloqa_claude.Calls.Handled.Rooms.{
  admit_participant-Runs, admit_all-Runs, reject_participant-Runs, decline_call-Runs,
  invite_participants-Runs,
}
use aloqa_claude.Calls.Handled.Roles.{
  update_call_role-Runs, transfer_host-Runs, remove_participant-Runs, update_media-Runs,
  pin_participant-Runs,
}
use aloqa_claude.Calls.Pinning.{pin_participant}
use aloqa_claude.Calls.Media.{update_media}

-- The workspace and the call of the path, the user and the time are those of each request.
pub data Request : Type 0 where
  join : (workspace call_id id user : ℕ) → String → ℕ → Request
  admit : (workspace call_id user target now : ℕ) → Request
  admit_everyone : (workspace call_id user now : ℕ) → Request
  reject : (workspace call_id user target now : ℕ) → Request
  decline : (workspace call_id user now : ℕ) → Request
  invite : (workspace call_id actor : ℕ) → (ℕ → ℕ) → List ℕ → ℕ → Request
  leave : (workspace call_id user now : ℕ) → Request
  end_for_all : (workspace call_id user now : ℕ) → Request
  cancel : (workspace call_id user now : ℕ) → Request
  assign : (workspace call_id actor target : ℕ) → CallRole → ℕ → Request
  transfer : (workspace call_id actor target now : ℕ) → Request
  remove : (workspace call_id actor target now : ℕ) → Request
  pin : (workspace call_id actor : ℕ) → Option ℕ → ℕ → Request
  patch_media : (workspace call_id user now : ℕ) → (audio video screen : Option Bool) → Request

-- The tables after the request, whether it is answered with an error or not.
unfoldable pub handle : Service → Request → Tables → Tables
handle s (join w c id u password now) t = left_by (join_call s w c id u password now t)
handle s (admit w c u target now) t = left_by (admit_participant s w c u target now t)
handle s (admit_everyone w c u now) t = left_by (admit_all s w c u now t)
handle s (reject w c u target now) t = left_by (reject_participant s w c u target now t)
handle s (decline w c u now) t = left_by (decline_call s w c u now t)
handle s (invite w c actor ids users now) t =
    left_by (invite_participants s w c actor ids users now t)
handle s (leave w c u now) t = left_by (leave_call s w c u now t)
handle s (end_for_all w c u now) t = left_by (end_call s w c u now t)
handle s (cancel w c u now) t = left_by (cancel_call s w c u now t)
handle s (assign w c actor target role now) t =
    left_by (update_call_role s w c actor target role now t)
handle s (transfer w c actor target now) t = left_by (transfer_host s w c actor target now t)
handle s (remove w c actor target now) t = left_by (remove_participant s w c actor target now t)
handle s (pin w c actor target now) t = left_by (pin_participant s w c actor target now t)
handle s (patch_media w c u now audio video screen) t =
    left_by (update_media audio video screen s w c u now t)

unfoldable pub run : Service → List Request → Tables → Tables
run s [] t = t
run s (r ∷ rs) t = run s rs (handle s r t)

abbrev pub powers_of : Request → Powers
powers_of (join _ _ _ _ _ _) = admitting
powers_of (admit _ _ _ _ _) = admitting
powers_of (admit_everyone _ _ _ _) = admitting
powers_of (reject _ _ _ _ _) = rejecting
powers_of (leave _ _ _ _) = ending
powers_of (end_for_all _ _ _ _) = ending
powers_of (cancel _ _ _ _) = ending
powers_of _ = modest

-- Only a rejection deletes a row.
abbrev pub may_delete : Request → Bool
may_delete r = (powers_of r).removes

-- A request, whatever it asks and however it is answered, changes the tables by a sequence of the
-- database's statements; of these only a rejection deletes a row, only a leave, an end and a cancellation
-- end the call, and only a join and an admission bring a participant in.
pub handle_steps : (s : Service) (r : Request) (t : Tables) → Reach (powers_of r) t (handle s r t)
unfolding handle
handle_steps s (join w c id u password now) t = (join_call-Runs s w c id u password now).at t
handle_steps s (admit w c u target now) t = (admit_participant-Runs s w c u target now).at t
handle_steps s (admit_everyone w c u now) t = (admit_all-Runs s w c u now).at t
handle_steps s (reject w c u target now) t = (reject_participant-Runs s w c u target now).at t
handle_steps s (decline w c u now) t = (decline_call-Runs s w c u now).at t
handle_steps s (invite w c actor ids users now) t =
    (invite_participants-Runs s w c actor ids users now).at t
handle_steps s (leave w c u now) t = (leave_call-Runs s w c u now).at t
handle_steps s (end_for_all w c u now) t = (end_call-Runs s w c u now).at t
handle_steps s (cancel w c u now) t = (cancel_call-Runs s w c u now).at t
handle_steps s (assign w c actor target role now) t =
    (update_call_role-Runs s w c actor target role now).at t
handle_steps s (transfer w c actor target now) t = (transfer_host-Runs s w c actor target now).at t
handle_steps s (remove w c actor target now) t =
    (remove_participant-Runs s w c actor target now).at t
handle_steps s (pin w c actor target now) t = (pin_participant-Runs s w c actor target now).at t
handle_steps s (patch_media w c u now audio video screen) t =
    (update_media-Runs audio video screen s w c u now).at t

pub run_keeps_hosts :
    (s : Service) (rs : List Request) (t : Tables)
    → DistinctUsers t.participants
    → DistinctUsers (run s rs t).participants
      × (host_count (run s rs t).participants ≤ host_count t.participants)
      × (any may_delete rs ≡ false
          → host_count (run s rs t).participants ≡ host_count t.participants)
unfolding run
run_keeps_hosts s [] t v = (v, omega arith, λ _. refl)
run_keeps_hosts s (r ∷ rs) t v =
    let step = reached_calls_keep_hosts (powers_of r) t v (handle_steps s r t) in
    let rest = run_keeps_hosts s rs (handle s r t) step.0 in
    (rest.0, omega arith, λ safe. rest.2 (ground (arith, safe)) ∙ step.2 (ground (arith, safe)))

-- After any requests to a call with one host, each answered or refused in turn, there is at most one
-- host, and exactly one unless a rejection is among the requests.
pub run_leaves_one_host :
    (s : Service) (rs : List Request) (t : Tables)
    → DistinctUsers t.participants
    → host_count t.participants ≡ 1
    → DistinctUsers (run s rs t).participants
      × (if any may_delete rs
          then host_count (run s rs t).participants ≤ 1
          else host_count (run s rs t).participants ≡ 1)
run_leaves_one_host s rs t v one =
    let kept_hosts = run_keeps_hosts s rs t v in
    elim (Bool-cases (any may_delete rs)) [
      | inl rejects ↦ rw rejects (kept_hosts.0, omega arith)
      | inr none_rejects ↦ rw none_rejects (kept_hosts.0, kept_hosts.2 none_rejects ∙ one)
    ]
