-- ===== src/Hub/Broadcasts.antt =====
-- Who holds what after a broadcast.
use aloqa_claude.Prelude.{
  ℕ, ◌+◌, ◌≡◌, refl, ◌∙◌, String, Bool, true, false, not, ◌&&◌, ◌||◌, Option, none, some, List, [],
  ◌∷◌, ◌++◌, lookup, has_key, Distinct, if◌then◌else◌, ◌==◌, number_key, string_key, contains, ltb,
  length, Option-cases, Bool-cases, inl, inr, arith,
}
use aloqa_claude.Hub.{Client, Clients, Members, Hub}
use aloqa_claude.Hub.Delivery.{
  Event, offer, Outcome, offer_all, deliver, members_list, addressees, record_delivery,
  record_deliveries, settle, broadcast_to_room, send_to_user,
}
use aloqa_claude.Hub.Eviction.{remove_all-lookup}
use aloqa_claude.Hub.Offers.{
  offered, is_too_slow, nodup, offer_all-lookup, offer_all-to_evict, members_list-key,
  members_list-nodup,
}

-- The client is one of the user's, in the workspace if one is given.
abbrev pub is_addressee : ℕ → ℕ → Option Client → Bool
is_addressee workspace user none = false
is_addressee workspace user (some c) =
    c.user_id == user && (workspace == 0 || c.workspace_id == workspace)

addressees_unknown :
    (workspace user : ℕ) (clients : Clients) (j : ℕ)
    → has_key j clients ≡ false
    → contains (addressees workspace user clients) j ≡ false
unfolding addressees
addressees_unknown workspace user [] j h = refl
addressees_unknown workspace user ((id, c) ∷ clients) j h =
    ground (arith, addressees_unknown workspace user clients j)

addressees_lem :
    (workspace user : ℕ) (clients : Clients) (j : ℕ)
    → Distinct clients
    → contains (addressees workspace user clients) j
      ≡ is_addressee workspace user (lookup j clients)
unfolding addressees
addressees_lem workspace user [] j d = refl
addressees_lem workspace user ((id, c) ∷ clients) j d = ground (
  arith,
  addressees_lem workspace user clients j d.1,
  addressees_unknown workspace user clients j,
  number_key.same_key_iff id j,
)

addressees-nodup :
    (workspace user : ℕ) (clients : Clients)
    → Distinct clients
    → nodup (addressees workspace user clients) ≡ true
unfolding addressees
addressees-nodup workspace user [] d = refl
addressees-nodup workspace user ((id, c) ∷ clients) d = ground (
  arith,
  addressees-nodup workspace user clients d.1,
  addressees_unknown workspace user clients id d.0,
)

-- What a broadcast makes of a recipient: one whose queue has room gets the message and starts again
-- with its drops; any other drops it, and is gone with the fifth drop in a row.
abbrev pub settled : String → Option Client → Option Client
settled message none = none
settled message (some c) =
    if ltb (length c.queue) 256
    then some (record c { queue = c.queue ++ message ∷ []; drop_count = 0 })
    else if ltb c.drop_count 4
    then some (record c { drop_count = c.drop_count + 1 })
    else none

settled_lem :
    (message : String) (found : Option Client)
    → settled message found ≡ (if is_too_slow found then none else offered message found)
unfolding offer
settled_lem message none = refl
settled_lem message (some c) = ground arith

module _ (decode : String → Option Event) where
  record_delivery-clients :
      (h : Hub) (room message key : String)
      → (record_delivery decode h room message key).clients ≡ h.clients
  unfolding record_delivery
  record_delivery-clients h room message key = elim (Bool-cases (not h.has_state || key == "")) [
    | inl skip ↦ rw skip refl
    | inr go_on ↦ elim (Option-cases (decode message)) [
      | inl q ↦ rw (go_on, q) refl
      | inr (e, q) ↦ elim (Bool-cases (e.sequence == 0)) [
        | inl none_set ↦ rw (go_on, q, none_set) refl
        | inr set ↦ rw (go_on, q, set) refl
      ]
    ]
  ]

  record_deliveries-clients :
      (keys : List String) (h : Hub) (room message : String)
      → (record_deliveries decode h room message keys).clients ≡ h.clients
  unfolding record_deliveries
  record_deliveries-clients [] h room message = refl
  record_deliveries-clients (key ∷ keys) h room message =
      record_deliveries-clients keys (record_delivery decode h room message key) room message
      ∙ record_delivery-clients h room message key

  settle-lookup :
      (h : Hub) (ids : List ℕ) (room message : String) (j : ℕ)
      → nodup ids ≡ true
      → lookup j (settle decode (deliver h message ids) room message).clients
        ≡ (if contains ids j then settled message (lookup j h.clients) else lookup j h.clients)
  unfolding settle deliver
  settle-lookup h ids room message j d =
      let start : Outcome = record {
        clients = h.clients;
        delivered = [];
        to_evict = [];
        drops = 0;
      } in
      let o = offer_all message ids start in
      let h' = (deliver h message ids).0 in
      ground (
        arith,
        remove_all-lookup o.to_evict (record_deliveries decode h' room message o.delivered) j,
        record_deliveries-clients o.delivered h' room message,
        offer_all-lookup message ids start j,
        offer_all-to_evict message ids start j,
        settled_lem message (lookup j h.clients),
      )

  -- After a broadcast to a room that the hub has, each member once: a member whose queue had room holds the message behind what it held
  -- and starts again with its drops; a member whose queue was full counts one more drop, or is gone
  -- with the fifth in a row; and no other client changed.
  pub broadcast_to_room_exact :
      (h : Hub) (room message : String) (members : Members) (j : ℕ)
      → lookup room h.rooms ≡ some members
      → Distinct members
      → lookup j (broadcast_to_room decode h room message).clients
        ≡ (if has_key j members then settled message (lookup j h.clients) else lookup j h.clients)
  unfolding broadcast_to_room
  broadcast_to_room_exact h room message members j q d =
      rw (q, broadcast_to_room)
        (settle-lookup h (members_list members) room message j (members_list-nodup members d)
          ∙ rw (members_list-key members j) refl)

  -- In a hub that holds each client once: after a message to a user, the clients of the user (those of the workspace only, where one is
  -- given) hold the message, or count a drop, or are gone with the fifth drop in a row, as after a
  -- broadcast; no other client changed.
  pub send_to_user_exact :
      (h : Hub) (workspace user : ℕ) (message : String) (j : ℕ)
      → Distinct h.clients
      → lookup j (send_to_user decode h workspace user message).clients ≡ (
          if is_addressee workspace user (lookup j h.clients)
          then settled message (lookup j h.clients)
          else lookup j h.clients)
  unfolding send_to_user
  send_to_user_exact h workspace user message j d =
      settle-lookup h (addressees workspace user h.clients) "" message j
        (addressees-nodup workspace user h.clients d)
      ∙ rw (addressees_lem workspace user h.clients j d) refl
