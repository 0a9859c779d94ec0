-- ===== src/Hub/Membership.antt =====
-- What a consistent hub is, and that registering, subscribing and removing clients keep it so.
use aloqa_claude.Prelude.{
  ℕ, ◌≤◌, ◌≡◌, refl, String, Bool, true, false, Option, none, some, List, [], ◌∷◌, lookup, insert,
  erase, has_key, ◌==◌, number_key, string_key, length, All, All-insert, All-erase, All-lookup,
  All-weaken, has_key-insert, has_key-erase, contains, Bool-cases, Option-cases, inl, inr, arith,
}
use aloqa_claude.Hub.Offers.{nodup}
use aloqa_claude.Hub.{
  send_buf_size, Client, Clients, Members, Rooms, Hub, StateCall, add_subscription,
  remove_subscription, call_state, resume_key_of, join, register, subscribe, is_nonempty, leave,
  unsubscribe, leave_all, remove_client, remove_all,
}

-- The client stands under its identifier, its channel was not closed, and its queue is within the
-- buffer.
abbrev pub IsEntry : List ℕ → ℕ × Client → Type 0
IsEntry closed (id, c) =
    (c.id ≡ id) × (contains closed c.id ≡ false) × (length c.queue ≤ send_buf_size)

abbrev pub Registered : Clients → ℕ × Bool → Type 0
Registered clients (id, _) = has_key id clients ≡ true

-- A room is not empty, and its members are registered.
abbrev pub IsRoom : Clients → String × Members → Type 0
IsRoom clients (_, members) = (is_nonempty members ≡ true) × All (Registered clients) members

abbrev pub IsHub : Hub → Type 0
IsHub h =
    All (IsEntry h.closed) h.clients × All (IsRoom h.clients) h.rooms × (nodup h.closed ≡ true)

-- What a client's registration keeps.
abbrev pub Grows : Clients → Clients → Type 0
Grows clients clients' = (id : ℕ) → has_key id clients ≡ true → has_key id clients' ≡ true

pub IsRoom-Grows :
    (clients clients' : Clients) (rooms : Rooms)
    → Grows clients clients'
    → All (IsRoom clients) rooms
    → All (IsRoom clients') rooms
IsRoom-Grows clients clients' rooms g h =
    All-weaken rooms (λ room r. (r.0, All-weaken room.1 (λ m k. g m.0 k) r.1)) h

pub insert-Grows : (clients : Clients) (id : ℕ) (c : Client) → Grows clients (insert id c clients)
insert-Grows clients id c j h = ground (arith, has_key-insert id j c clients)

insert-nonempty : (members : Members) (id : ℕ) → is_nonempty (insert id true members) ≡ true
insert-nonempty [] id = refl
insert-nonempty ((j, b) ∷ members) id = ground arith

join-IsRoom :
    (clients : Clients) (room : String) (id : ℕ) (rooms : Rooms)
    → has_key id clients ≡ true
    → All (IsRoom clients) rooms
    → All (IsRoom clients) (join room id rooms)
unfolding join
join-IsRoom clients room id rooms k h = elim (Option-cases (lookup room rooms)) [
  | inl q ↦ rw q (All-insert (IsRoom clients) room _ rooms h (refl, (k, tt)))
  | inr (members, q) ↦
      let old = All-lookup (IsRoom clients) room members rooms h q in
      rw q (
        All-insert (IsRoom clients) room _ rooms h
          (insert-nonempty members id, All-insert (Registered clients) id true members old.1 k))
]

pub register-IsHub :
    (text_of : ℕ → String) (h : Hub) (c : Client)
    → IsEntry h.closed (c.id, c)
    → IsHub h
    → IsHub (register text_of h c)
unfolding register
register-IsHub text_of h c new (entries, rooms, once) =
    let clients = insert c.id c h.clients in
    (
      All-insert (IsEntry h.closed) c.id c h.clients entries new,
      join-IsRoom clients _ c.id h.rooms
          (ground (arith, has_key-insert c.id c.id c h.clients, number_key.same_key_iff c.id c.id))
          (IsRoom-Grows h.clients clients h.rooms (insert-Grows h.clients c.id c) rooms),
      once,
    )

call_state-IsHub : (h : Hub) (call : StateCall) → IsHub h → IsHub (call_state h call)
call_state-IsHub h call v = elim (Bool-cases h.has_state) [ inl on ↦ rw on v | inr off ↦ rw off v ]

pub subscribe-IsHub :
    (h : Hub) (id : Option ℕ) (room : String) → IsHub h → IsHub (subscribe h id room)
unfolding subscribe
subscribe-IsHub h none room v = v
subscribe-IsHub h (some id) room v = elim (Option-cases (lookup id h.clients)) [
  | inl q ↦ rw (q, subscribe) v
  | inr (c, q) ↦
      rw (q, subscribe)
        (call_state-IsHub (record h { rooms = join room id h.rooms })
          (add_subscription c.resume_key room)
          (v.0, join-IsRoom h.clients room id h.rooms (ground (arith, q)) v.1, v.2))
]

leave-IsRoom :
    (clients : Clients) (room : String) (id : ℕ) (members : Members) (rooms : Rooms)
    → All (Registered clients) members
    → All (IsRoom clients) rooms
    → All (IsRoom clients) (leave room id members rooms)
unfolding leave
leave-IsRoom clients room id members rooms m h =
    elim (Bool-cases (is_nonempty (erase id members))) [
      | inl some_left ↦ rw some_left (
          All-insert (IsRoom clients) room _ rooms h
            (some_left, All-erase (Registered clients) id members m))
      | inr none_left ↦ rw none_left (All-erase (IsRoom clients) room rooms h)
    ]

-- Members other than the removed client stay registered.
erase-Registered :
    (clients : Clients) (id : ℕ) (members : Members)
    → All (Registered clients) members
    → All (Registered (erase id clients)) (erase id members)
erase-Registered clients id [] h = tt
erase-Registered clients id ((j, b) ∷ members) h = elim (Bool-cases (j == id)) [
  | inl same ↦ rw same (erase-Registered clients id members h.1)
  | inr other ↦ rw other (
    ground (
      arith,
      has_key-erase id j clients,
      number_key.same_key_iff id j,
      number_key.same_key_iff j id,
      other,
      h.0,
    ),
    erase-Registered clients id members h.1,
  )
]

leave_all-IsRoom :
    (clients : Clients) (id : ℕ) (rooms : Rooms)
    → All (IsRoom clients) rooms
    → All (IsRoom (erase id clients)) (leave_all id rooms)
unfolding leave_all
leave_all-IsRoom clients id [] h = tt
leave_all-IsRoom clients id ((room, members) ∷ rooms) h =
    elim (Bool-cases (is_nonempty (erase id members))) [
      | inl some_left ↦ rw some_left (
        (some_left, erase-Registered clients id members h.0.1),
        leave_all-IsRoom clients id rooms h.1,
      )
      | inr none_left ↦ rw none_left (leave_all-IsRoom clients id rooms h.1)
    ]

-- Closing the channel of a client leaves open those of the others.
closes_one :
    (closed : List ℕ) (id : ℕ) (clients : Clients)
    → All (IsEntry closed) clients
    → All (IsEntry (id ∷ closed)) (erase id clients)
closes_one closed id [] h = tt
closes_one closed id ((j, c) ∷ clients) h = elim (Bool-cases (j == id)) [
  | inl same ↦ rw same (closes_one closed id clients h.1)
  | inr other ↦ rw other (
    (
      h.0.0,
      ground
          (arith, h.0.0, h.0.1, other, number_key.same_key_iff id j, number_key.same_key_iff j id),
      h.0.2,
    ),
    closes_one closed id clients h.1,
  )
]

pub remove_client-IsHub : (h : Hub) (id : ℕ) → IsHub h → IsHub (remove_client h id).0
unfolding remove_client
remove_client-IsHub h id v = elim (Option-cases (lookup id h.clients)) [
  | inl q ↦ rw (q, remove_client) v
  | inr (c, q) ↦
      let entry = All-lookup (IsEntry h.closed) id c h.clients v.0 q in
      let named : c.id ≡ id = entry.0 in
      rw (q, remove_client)
        (
          rw named (closes_one h.closed id h.clients v.0),
          leave_all-IsRoom h.clients id h.rooms v.1,
          ground (arith, entry.1, v.2),
        )
]

pub remove_all-IsHub : (h : Hub) (ids : List ℕ) → IsHub h → IsHub (remove_all h ids)
unfolding remove_all
remove_all-IsHub h [] v = v
remove_all-IsHub h (id ∷ ids) v =
    remove_all-IsHub (remove_client h id).0 ids (remove_client-IsHub h id v)

pub unsubscribe-IsHub :
    (h : Hub) (id : Option ℕ) (room : String) → IsHub h → IsHub (unsubscribe h id room)
unfolding unsubscribe
unsubscribe-IsHub h none room v = v
unsubscribe-IsHub h (some id) room v = elim (Option-cases (lookup room h.rooms)) [
  | inl q ↦ rw (q, unsubscribe) v
  | inr (members, q) ↦
      let old = All-lookup (IsRoom h.clients) room members h.rooms v.1 q in
      let left : IsHub (record h { rooms = leave room id members h.rooms }) =
        (v.0, leave-IsRoom h.clients room id members h.rooms old.1 v.1, v.2) in
      elim (Bool-cases (resume_key_of (lookup id h.clients) == "")) [
        | inl no_key ↦ rw (q, unsubscribe) (rw no_key left)
        | inr key ↦
            rw (q, unsubscribe)
              (rw key (
                call_state-IsHub _ (remove_subscription (resume_key_of (lookup id h.clients)) room)
                  left))
      ]
]
