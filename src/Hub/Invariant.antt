-- ===== src/Hub/Invariant.antt =====
-- Whatever the critical sections do in whatever order, the hub stays consistent.
use aloqa_claude.Prelude.{
  ℕ, ◌≡◌, String, false, not, ◌||◌, Option, List, [], ◌∷◌, lookup, if◌then◌else◌, ◌==◌, number_key,
  string_key, length, ltb, All, All-insert, All-lookup, Bool-cases, Option-cases, inl, inr, arith,
  length-append, contains,
}
use aloqa_claude.Hub.{
  shut_down, Client, Clients, Hub, register, subscribe, unsubscribe, remove_client, remove_all,
  evict_session,
}
use aloqa_claude.Hub.Delivery.{
  Event, offer, offer_to, members_list, addressees, Outcome, offer_all, deliver, record_delivery,
  record_deliveries, settle, broadcast_to_room, send_to_user,
}
use aloqa_claude.Hub.Membership.{
  IsEntry, IsHub, Grows, IsRoom-Grows, insert-Grows, remove_all-IsHub,
}

offer-IsEntry :
    (closed : List ℕ) (message : String) (id : ℕ) (c : Client)
    → IsEntry closed (id, c)
    → IsEntry closed (id, offer message c)
unfolding offer
offer-IsEntry closed message id c v = elim (Bool-cases (ltb (length c.queue) 256)) [
  | inl free ↦ rw free (v.0, v.1, ground (arith, free, length-append c.queue (message ∷ [])))
  | inr full ↦ rw full v
]

-- What the offers keep: every entry, and every registration.
Kept : List ℕ → Outcome → Outcome → Type 0
Kept closed o o' =
    (All (IsEntry closed) o.clients → All (IsEntry closed) o'.clients) × Grows o.clients o'.clients

offer_all-Kept :
    (closed : List ℕ) (message : String) (ids : List ℕ) (o : Outcome)
    → Kept closed o (offer_all message ids o)
unfolding offer_all offer_to Kept
offer_all-Kept closed message [] o = (λ v. v, λ id k. k)
offer_all-Kept closed message (id ∷ ids) o = elim (Option-cases (lookup id o.clients)) [
  | inl q ↦ rw (q, offer_all) (offer_all-Kept closed message ids o)
  | inr (c, q) ↦
      let o' = offer_to message id c o in
      let (entries, grows) = offer_all-Kept closed message ids o' in
      rw (q, offer_all)
        (
          λ v. entries (
              All-insert (IsEntry closed) id (offer message c) o.clients v (
                offer-IsEntry closed message id c
                  (All-lookup (IsEntry closed) id c o.clients v q))),
          λ j k. grows j (insert-Grows o.clients id (offer message c) j k),
        )
]

pub deliver-IsHub :
    (h : Hub) (message : String) (ids : List ℕ) → IsHub h → IsHub (deliver h message ids).0
unfolding deliver Kept
deliver-IsHub h message ids v =
    let start : Outcome = record {
      clients = h.clients;
      delivered = [];
      to_evict = [];
      drops = 0;
    } in
    let (entries, grows) = offer_all-Kept h.closed message ids start in
    (entries v.0, IsRoom-Grows h.clients _ h.rooms grows v.1, v.2)

module _ (decode : String → Option Event) where
  record_delivery-IsHub :
      (h : Hub) (room message key : String)
      → IsHub h
      → IsHub (record_delivery decode h room message key)
  unfolding record_delivery
  record_delivery-IsHub h room message key v = elim (Bool-cases (not h.has_state || key == "")) [
    | inl skip ↦ rw skip v
    | inr go_on ↦ elim (Option-cases (decode message)) [
      | inl q ↦ rw (go_on, q) v
      | inr (e, q) ↦ elim (Bool-cases (e.sequence == 0)) [
        | inl none_set ↦ rw (go_on, q, none_set) v
        | inr set ↦ rw (go_on, q, set) v
      ]
    ]
  ]

  record_deliveries-IsHub :
      (keys : List String) (h : Hub) (room message : String)
      → IsHub h
      → IsHub (record_deliveries decode h room message keys)
  unfolding record_deliveries
  record_deliveries-IsHub [] h room message v = v
  record_deliveries-IsHub (key ∷ keys) h room message v =
      record_deliveries-IsHub keys (record_delivery decode h room message key) room message
        (record_delivery-IsHub h room message key v)

  settle-IsHub :
      (r : Hub × Outcome) (room message : String) → IsHub r.0 → IsHub (settle decode r room message)
  unfolding settle
  settle-IsHub (h, o) room message v =
      remove_all-IsHub (record_deliveries decode h room message o.delivered) o.to_evict
        (record_deliveries-IsHub o.delivered h room message v)

  pub broadcast_to_room-IsHub :
      (h : Hub) (room message : String) → IsHub h → IsHub (broadcast_to_room decode h room message)
  unfolding broadcast_to_room
  broadcast_to_room-IsHub h room message v = elim (Option-cases (lookup room h.rooms)) [
    | inl q ↦ rw (q, broadcast_to_room) v
    | inr (members, q) ↦
        rw (q, broadcast_to_room)
          (settle-IsHub (deliver h message (members_list members)) room message
            (deliver-IsHub h message (members_list members) v))
  ]

  pub send_to_user-IsHub :
      (h : Hub) (workspace user : ℕ) (message : String)
      → IsHub h
      → IsHub (send_to_user decode h workspace user message)
  unfolding send_to_user
  send_to_user-IsHub h workspace user message v =
      settle-IsHub (deliver h message (addressees workspace user h.clients)) "" message
        (deliver-IsHub h message (addressees workspace user h.clients) v)

-- The writer of a client takes the oldest message of its queue.
abbrev rest_of : List String → List String
rest_of [] = []
rest_of (_ ∷ queue) = queue

abbrev pub drain : ℕ → Clients → Clients
drain id [] = []
drain id ((j, c) ∷ clients) =
    if j == id
    then (j, record c { queue = rest_of c.queue }) ∷ clients
    else (j, c) ∷ drain id clients

-- The critical sections of the hub, each one step; those of one operation may have steps of others
-- between them. A client is registered with a channel of its own, which is empty and was not closed
-- before.
pub data Step (h : Hub) : Hub → Type 0 where
  registered :
      (text_of : ℕ → String) (c : Client)
      → contains h.closed c.id ≡ false
      → c.queue ≡ []
      → Step h (register text_of h c)
  subscribed : (id : Option ℕ) (room : String) → Step h (subscribe h id room)
  unsubscribed : (id : Option ℕ) (room : String) → Step h (unsubscribe h id room)
  unregistered : (id : ℕ) → Step h (remove_client h id).0
  evicted : (session : String) → Step h (evict_session h session)
  delivered : (message : String) (ids : List ℕ) → Step h (deliver h message ids).0
  recorded :
      (decode : String → Option Event) (room message key : String)
      → Step h (record_delivery decode h room message key)
  slow_evicted : (ids : List ℕ) → Step h (remove_all h ids)
  shut : Step h (shut_down h)
  drained : (id : ℕ) → Step h (record h { clients = drain id h.clients })

pub data Reach (h : Hub) : Hub → Type 0 where
  here : Reach h h
  next : {g k : Hub} → Reach h g → Step g k → Reach h k
