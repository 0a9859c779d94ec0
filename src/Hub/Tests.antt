-- ===== src/Hub/Tests.antt =====
-- A hub with two clients, one of which does not keep up.
use aloqa_claude.Prelude.{
  arith, ℕ, zero, suc, ◌≡◌, refl, String, true, false, Option, none, some, List, [], ◌∷◌, lookup,
  has_key, if◌then◌else◌, number_key, string_key,
}
use aloqa_claude.Hub.{Client, Hub, evict_session, Members}
use aloqa_claude.Hub.Delivery.{Event, broadcast_to_room, send_to_user}
use aloqa_claude.Errors.{ok}
use aloqa_claude.Prelude.{Dict, insert, lookup-insert, same_key_refl, max}
use aloqa_claude.Rbac.Strings.{trim_space}
use aloqa_claude.Hub.StateStore.{
  Redis, Keeps, blank, last_delivered_sequence, record_delivered_sequence,
  record_delivered_sequence-max,
}
use aloqa_claude.Hub.Eviction.{of_other_session, evict_session_exact}
use aloqa_claude.Hub.Broadcasts.{settled, is_addressee, broadcast_to_room_exact, send_to_user_exact}

abbrev text_of : ℕ → String
text_of id = "user"

abbrev decode : String → Option Event
decode message = some (record { sequence = 4; subject = "chat" })

abbrev ann : Client
ann = record {
  id = 1;
  user_id = 7;
  session_id = "s1";
  resume_key = "r1";
  workspace_id = 3;
  queue = [];
  drop_count = 0;
}

abbrev repeated : ℕ → List String
repeated zero = []
repeated (suc n) = "old" ∷ repeated n

abbrev bob : Client
bob = record {
  id = 2;
  user_id = 8;
  session_id = "s2";
  resume_key = "r2";
  workspace_id = 3;
  queue = repeated 256;
  drop_count = 4;
}

abbrev members : Members
members = (1, true) ∷ (2, true) ∷ []

abbrev hub : Hub
hub = record {
  clients = (1, ann) ∷ (2, bob) ∷ [];
  rooms = ("chat", members) ∷ [];
  closed = [];
  has_state = true;
  calls = [];
  dropped = 0;
}

slow_client_leaves : settled "hello" (some bob) ≡ none
slow_client_leaves = refl

broadcast_to_room_exact_example :
    lookup 2 (broadcast_to_room decode hub "chat" "hello").clients
    ≡ (if has_key 2 members then settled "hello" (lookup 2 hub.clients) else lookup 2 hub.clients)
broadcast_to_room_exact_example =
    broadcast_to_room_exact decode hub "chat" "hello" members 2 refl (refl, (refl, tt))

send_to_user_exact_example : lookup 1 (send_to_user decode hub 3 7 "hello").clients ≡ (
    if is_addressee 3 7 (lookup 1 hub.clients)
    then settled "hello" (lookup 1 hub.clients)
    else lookup 1 hub.clients)
send_to_user_exact_example = send_to_user_exact decode hub 3 7 "hello" 1 (refl, (refl, tt))

evict_session_exact_example :
    lookup 1 (evict_session hub "s2").clients ≡ of_other_session "s2" (lookup 1 hub.clients)
evict_session_exact_example =
    evict_session_exact hub "s2" 1 (refl, (refl, tt))
      (λ e. ground (arith, (string_key.same_key_iff "s2" "").1 e))

-- A Redis that holds numbers under their keys.
abbrev kept_numbers : Redis (Dict String ℕ)
kept_numbers = record {
  sadd = λ st key room. ok st;
  srem = λ st key room. ok st;
  expire = λ st key. ok st;
  smembers = λ st key. ok [];
  get = λ st key. ok (lookup key st);
  set = λ st key v. ok (insert key v st);
}

kept_numbers-Keeps : Keeps kept_numbers
kept_numbers-Keeps = record {
  get-set = λ st st' key v e. ground (arith, e, lookup-insert key key v st, same_key_refl key);
}

abbrev at_two : Dict String ℕ
at_two = ("ws:sequence:r1:chat", 2) ∷ []

abbrev at_four : Dict String ℕ
at_four = ("ws:sequence:r1:chat", 4) ∷ []

starts_at_two : last_delivered_sequence (some kept_numbers) at_two "r1" "chat" ≡ ok 2
unfolding last_delivered_sequence trim_space
starts_at_two = refl

records_four : record_delivered_sequence (some kept_numbers) at_two "r1" "chat" 4 ≡ ok at_four
unfolding record_delivered_sequence trim_space
records_four = refl

not_blank : (blank "r1" ≡ false) × (blank "chat" ≡ false)
unfolding trim_space
not_blank = (refl, refl)

record_delivered_sequence-max_example :
    last_delivered_sequence (some kept_numbers) at_four "r1" "chat" ≡ ok (max 2 4)
record_delivered_sequence-max_example =
    record_delivered_sequence-max kept_numbers at_two at_four "r1" "chat" 4 2 kept_numbers-Keeps
      (not_blank.0) (not_blank.1) starts_at_two records_four
