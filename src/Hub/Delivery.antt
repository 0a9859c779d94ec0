-- ===== src/Hub/Delivery.antt =====
-- internal/platform/ws/hub.go: `BroadcastToRoom`, `SendToUser` and `recordDelivery`.
use aloqa_claude.Prelude.{
  ℕ, ◌+◌, String, Bool, not, ◌&&◌, ◌||◌, Option, none, some, List, [], ◌∷◌, ◌++◌, lookup, insert,
  if◌then◌else◌, ◌==◌, number_key, string_key, length, ltb, leb,
}
use aloqa_claude.Hub.{
  send_buf_size, max_slow_drops, Client, Clients, Members, Hub, record_delivered, remove_all,
}

-- The fields of `event.Event` that a delivery reads; a sequence below 0 reads as 0.
pub record Event : Type 0 where
  pub sequence : ℕ
  pub subject : String

-- The `select`: a message that the queue has room for is sent and the drop counter starts again, any
-- other is dropped and counted.
unfoldable pub offer : String → Client → Client
offer message c =
    if ltb (length c.queue) send_buf_size
    then record c { queue = c.queue ++ message ∷ []; drop_count = 0 }
    else record c { drop_count = c.drop_count + 1 }

abbrev pub has_room : Client → Bool
has_room c = ltb (length c.queue) send_buf_size

-- The clients after the offers, the resume keys of those that took the message, the clients to
-- evict, and the number of drops.
pub record Outcome : Type 0 where
  pub clients : Clients
  pub delivered : List String
  pub to_evict : List ℕ
  pub drops : ℕ

-- One recipient that is registered.
unfoldable pub offer_to : String → ℕ → Client → Outcome → Outcome
unfolding offer
offer_to message id c o = record {
  clients = insert id (offer message c) o.clients;
  delivered = if has_room c then o.delivered ++ c.resume_key ∷ [] else o.delivered;
  to_evict =
      if not (has_room c) && leb max_slow_drops (c.drop_count + 1)
      then o.to_evict ++ id ∷ []
      else o.to_evict;
  drops = if has_room c then o.drops else o.drops + 1;
}

-- The loop over the recipients.
unfoldable pub offer_all : String → List ℕ → Outcome → Outcome
unfolding offer_to
offer_all message [] o = o
offer_all message (id ∷ ids) o = elim (lookup id o.clients) [
  | none ↦ offer_all message ids o
  | some c ↦ offer_all message ids (offer_to message id c o)
]

-- The section under the read lock.
unfoldable pub deliver : Hub → String → List ℕ → Hub × Outcome
unfolding offer_all
deliver h message ids =
    let o =
      offer_all message ids
        (record { clients = h.clients; delivered = []; to_evict = []; drops = 0 }) in
    (record h { clients = o.clients; dropped = h.dropped + o.drops }, o)

-- The keys of `h.rooms[room]`.
abbrev pub members_list : Members → List ℕ
members_list [] = []
members_list ((id, _) ∷ members) = id ∷ members_list members

-- The clients that `SendToUser` picks; workspace 0 is `uuid.Nil`.
unfoldable pub addressees : ℕ → ℕ → Clients → List ℕ
addressees workspace user [] = []
addressees workspace user ((id, c) ∷ clients) =
    if not (c.user_id == user) || (not (workspace == 0) && not (c.workspace_id == workspace))
    then addressees workspace user clients
    else id ∷ addressees workspace user clients

module _ (decode : String → Option Event) where
  -- `recordDelivery`, for one resume key.
  unfoldable pub record_delivery : Hub → String → String → String → Hub
  record_delivery h room message key =
      if not h.has_state || key == "" then h else elim (decode message) [
        | none ↦ h
        | some e ↦ if e.sequence == 0 then h else record h {
          calls =
              h.calls
              ++ record_delivered key (if room == "" then e.subject else room) e.sequence ∷ [];
        }
      ]

  unfoldable pub record_deliveries : Hub → String → String → List String → Hub
  unfolding record_delivery
  record_deliveries h room message [] = h
  record_deliveries h room message (key ∷ keys) =
      record_deliveries (record_delivery h room message key) room message keys

  -- What follows a delivery: the state calls, then the eviction of the slow clients.
  unfoldable pub settle : Hub × Outcome → String → String → Hub
  unfolding record_deliveries
  settle (h, o) room message = remove_all (record_deliveries h room message o.delivered) o.to_evict

  unfoldable pub broadcast_to_room : Hub → String → String → Hub
  unfolding deliver settle
  broadcast_to_room h room message = elim (lookup room h.rooms) [
    | none ↦ h
    | some members ↦ settle (deliver h message (members_list members)) room message
  ]

  unfoldable pub send_to_user : Hub → ℕ → ℕ → String → Hub
  unfolding deliver settle addressees
  send_to_user h workspace user message =
      settle (deliver h message (addressees workspace user h.clients)) "" message
