-- ===== src/Hub.antt =====
-- internal/platform/ws/hub.go: the registered WebSocket clients and their rooms. Each critical
-- section of the source is one function on the state `Hub`. The buffered channel `Send` is the queue
-- of what the client's writer has still to take. The map holds pointers to clients, so the hub keeps
-- apart from it which clients' channels were closed: a client that stays in the map is closed too. The
-- calls of the external state store are kept in the order in which they are made; an error that it
-- answers with is only logged. `uuid.Parse` and `String` of identifiers and the decoding of events
-- are parameters.
pub mod StateStore
pub mod Delivery
pub mod Membership
pub mod Invariant
pub mod Offers
pub mod Broadcasts
pub mod Eviction
mod Tests
use Prim.Native.String
use aloqa_claude.Prelude.{
  ℕ, zero, suc, ◌+◌, String, Bool, true, false, not, ◌&&◌, ◌||◌, Option, none, some, List, [], ◌∷◌,
  ◌++◌, Dict, lookup, insert, erase, has_key, if◌then◌else◌, ◌==◌, number_key, string_key, length,
  ltb,
}

abbrev pub send_buf_size : ℕ
send_buf_size = 256

abbrev pub max_slow_drops : ℕ
max_slow_drops = 5

pub record Client : Type 0 where
  pub id : ℕ
  pub user_id : ℕ
  pub session_id : String
  pub resume_key : String
  pub workspace_id : ℕ
  pub queue : List String
  pub drop_count : ℕ

pub data StateCall : Type 0 where
  add_subscription remove_subscription : String → String → StateCall
  record_delivered : String → String → ℕ → StateCall

abbrev pub Clients : Type 0
Clients = Dict ℕ Client

abbrev pub Members : Type 0
Members = Dict ℕ Bool

abbrev pub Rooms : Type 0
Rooms = Dict String Members

pub record Hub : Type 0 where
  pub clients : Clients
  pub rooms : Rooms
  -- The clients whose channel `Send` was closed, once for each `close`.
  pub closed : List ℕ
  -- Whether there is a state store, and its calls so far.
  pub has_state : Bool
  pub calls : List StateCall
  -- What the observer counted.
  pub dropped : ℕ

-- `NewHub`
unfoldable pub new_hub : Bool → Hub
new_hub has_state = record {
  clients = [];
  rooms = [];
  closed = [];
  has_state = has_state;
  calls = [];
  dropped = 0;
}

-- `h.rooms[room]`, where a missing room is made first.
abbrev members_of : Option Members → Members
members_of none = []
members_of (some members) = members

-- `h.rooms[room][id] = true`
unfoldable pub join : String → ℕ → Rooms → Rooms
join room id rooms = insert room (insert id true (members_of (lookup room rooms))) rooms

-- `Register`; `text_of` is the text of an identifier.
unfoldable pub register : (ℕ → String) → Hub → Client → Hub
unfolding join
register text_of h c = record h {
  clients = insert c.id c h.clients;
  rooms = join (String.◌++◌ "aloqa.signal." (text_of c.user_id)) c.id h.rooms;
}

abbrev pub call_state : Hub → StateCall → Hub
call_state h call = if h.has_state then record h { calls = h.calls ++ call ∷ [] } else h

-- `Subscribe`; the identifier is what `uuid.Parse` makes of the client's text.
unfoldable pub subscribe : Hub → Option ℕ → String → Hub
unfolding join
subscribe h none room = h
subscribe h (some id) room = elim (lookup id h.clients) [
  | none ↦ h
  | some c ↦
      call_state (record h { rooms = join room id h.rooms }) (add_subscription c.resume_key room)
]

abbrev pub is_nonempty : Members → Bool
is_nonempty [] = false
is_nonempty (_ ∷ _) = true

-- `delete(members, id)`, and the room with it when nobody is left.
unfoldable pub leave : String → ℕ → Members → Rooms → Rooms
leave room id members rooms =
    if is_nonempty (erase id members)
    then insert room (erase id members) rooms
    else erase room rooms

abbrev pub resume_key_of : Option Client → String
resume_key_of none = ""
resume_key_of (some c) = c.resume_key

unfoldable pub unsubscribe : Hub → Option ℕ → String → Hub
unfolding leave
unsubscribe h none room = h
unsubscribe h (some id) room = elim (lookup room h.rooms) [
  | none ↦ h
  | some members ↦
      let h' : Hub = record h { rooms = leave room id members h.rooms } in
      let key = resume_key_of (lookup id h.clients) in
      if key == "" then h' else call_state h' (remove_subscription key room)
]

-- The loop of `removeClientLocked` over the rooms.
unfoldable pub leave_all : ℕ → Rooms → Rooms
leave_all id [] = []
leave_all id ((room, members) ∷ rooms) =
    if is_nonempty (erase id members)
    then (room, erase id members) ∷ leave_all id rooms
    else leave_all id rooms

-- `removeClientLocked`, with the client that was removed.
unfoldable pub remove_client : Hub → ℕ → Hub × Option Client
unfolding leave_all
remove_client h id = elim (lookup id h.clients) [
  | none ↦ (h, none)
  | some c ↦ (
    record h {
      clients = erase id h.clients;
      closed = c.id ∷ h.closed;
      rooms = leave_all id h.rooms;
    },
    some c,
  )
]

-- Several removals in turn, as in `evictSlowClients`, in an eviction and in the shutdown.
unfoldable pub remove_all : Hub → List ℕ → Hub
unfolding remove_client
remove_all h [] = h
remove_all h (id ∷ ids) = remove_all (remove_client h id).0 ids

-- The identifiers of the clients of a session.
unfoldable pub in_session : String → Clients → List ℕ
in_session session [] = []
in_session session ((id, c) ∷ clients) =
    if c.session_id == session then id ∷ in_session session clients else in_session session clients

-- The branch of `Run` that serves `EvictSession`.
unfoldable pub evict_session : Hub → String → Hub
unfolding remove_all in_session
evict_session h session = if session == "" then h else remove_all h (in_session session h.clients)

abbrev pub keys_of : Clients → List ℕ
keys_of [] = []
keys_of ((id, _) ∷ clients) = id ∷ keys_of clients

-- The branch of `Run` for a context that is done.
unfoldable pub shut_down : Hub → Hub
unfolding remove_all
shut_down h = remove_all h (keys_of h.clients)
