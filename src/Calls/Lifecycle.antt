-- ===== src/Calls/Lifecycle.antt =====
-- Any requests to a call, one after another: it ends for everybody, and once.
use aloqa_claude.Prelude.{◌≡◌, refl, ◌∙◌, true, false, List, [], ◌∷◌, arith, Bool-cases, inl, inr}
use aloqa_claude.Entity.Calls.{is_ended}
use aloqa_claude.Calls.{Service}
use aloqa_claude.Calls.Store.{Tables}
use aloqa_claude.Calls.Quiet.{IsQuiet, Reach-IsQuiet, Reach-goes_on, Reach-stays_ended}
use aloqa_claude.Calls.Closed.{IsOver, join_call-over, admit_participant-over, admit_all-over}
use aloqa_claude.Calls.Requests.{
  Request, join, admit, admit_everyone, powers_of, handle, handle_steps, run,
}

-- Tables that are over stay so, or the call goes on.
over_or_going :
    (s : Service) (r : Request) (t : Tables)
    → (powers_of r).ends ≡ false
    → (IsOver t → IsOver (handle s r t))
    → IsQuiet t
    → IsQuiet (handle s r t)
over_or_going s r t lacks keep q = elim (Bool-cases (is_ended t.call.status)) [
  | inl over_already ↦
      let after = keep (over_already, ground (arith, over_already, q)) in rw (after.0) after.1
  | inr going ↦ rw (Reach-goes_on (powers_of r) t lacks (handle_steps s r t) ∙ going) refl
]

handle-IsQuiet : (s : Service) (r : Request) (t : Tables) → IsQuiet t → IsQuiet (handle s r t)
unfolding handle
handle-IsQuiet s (join w c id u password now) t q =
    over_or_going s (join w c id u password now) t refl
      ((join_call-over s w c id u password now).at t) q
handle-IsQuiet s (admit w c u target now) t q =
    over_or_going s (admit w c u target now) t refl
      ((admit_participant-over s w c u target now).at t) q
handle-IsQuiet s (admit_everyone w c u now) t q =
    over_or_going s (admit_everyone w c u now) t refl ((admit_all-over s w c u now).at t) q
handle-IsQuiet s r t q = Reach-IsQuiet (powers_of r) t refl (handle_steps s r t) q

-- Whatever requests are handled one after another, on tables where nobody is in an ended call: nobody
-- is in it afterwards, connected, joining or waiting, if it has ended.
pub run-IsQuiet : (s : Service) (rs : List Request) (t : Tables) → IsQuiet t → IsQuiet (run s rs t)
unfolding run
run-IsQuiet s [] t q = q
run-IsQuiet s (r ∷ rs) t q = run-IsQuiet s rs (handle s r t) (handle-IsQuiet s r t q)

-- No request brings an ended call back.
pub run_stays_ended :
    (s : Service) (rs : List Request) (t : Tables)
    → is_ended t.call.status ≡ true
    → is_ended (run s rs t).call.status ≡ true
unfolding run
run_stays_ended s [] t h = h
run_stays_ended s (r ∷ rs) t h =
    run_stays_ended s rs (handle s r t) (Reach-stays_ended (powers_of r) t h (handle_steps s r t))
