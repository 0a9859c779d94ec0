-- ===== src/Hub/Offers.antt =====
-- The loop over the recipients of a message: who is offered it, and who is to go.
use aloqa_claude.Prelude.{
  ℕ, ◌+◌, ◌≡◌, refl, String, Bool, true, false, not, ◌&&◌, ◌||◌, Option, none, some, List, [], ◌∷◌,
  ◌++◌, lookup, has_key, Distinct, if◌then◌else◌, ◌==◌, number_key, string_key, lookup-insert,
  contains, leb, Option-cases, Bool-cases, inl, inr, arith,
}
use aloqa_claude.Hub.{max_slow_drops, Client, Members}
use aloqa_claude.Hub.Delivery.{has_room, offer, Outcome, offer_to, offer_all, members_list}

abbrev pub offered : String → Option Client → Option Client
offered message none = none
offered message (some c) = some (offer message c)

-- The buffer is full, and this drop is one too many.
abbrev pub too_slow : Client → Bool
too_slow c = not (has_room c) && leb max_slow_drops (c.drop_count + 1)

abbrev pub is_too_slow : Option Client → Bool
is_too_slow none = false
is_too_slow (some c) = too_slow c

abbrev pub nodup : List ℕ → Bool
nodup [] = true
nodup (id ∷ ids) = not (contains ids id) && nodup ids

pub contains-snoc : (xs : List ℕ) (s p : ℕ) → contains (xs ++ s ∷ []) p ≡ (contains xs p || s == p)
contains-snoc [] s p = ground arith
contains-snoc (x ∷ xs) s p = ground (arith, contains-snoc xs s p)

pub offer_all-lookup :
    (message : String) (ids : List ℕ) (o : Outcome) (j : ℕ)
    → nodup ids ≡ true
    → lookup j (offer_all message ids o).clients
      ≡ (if contains ids j then offered message (lookup j o.clients) else lookup j o.clients)
unfolding offer_all offer_to
offer_all-lookup message [] o j d = refl
offer_all-lookup message (id ∷ ids) o j d = elim (Option-cases (lookup id o.clients)) [
  | inl q ↦
      rw (q, offer_all)
        (ground (arith, q, number_key.same_key_iff id j, offer_all-lookup message ids o j))
  | inr (c, q) ↦
      rw (q, offer_all)
        (ground (
          arith,
          q,
          number_key.same_key_iff id j,
          lookup-insert id j (offer message c) o.clients,
          offer_all-lookup message ids (offer_to message id c o) j,
        ))
]

pub offer_to-to_evict :
    (message : String) (id : ℕ) (c : Client) (o : Outcome) (j : ℕ)
    → contains (offer_to message id c o).to_evict j
      ≡ (contains o.to_evict j || (id == j && too_slow c))
unfolding offer_to
offer_to-to_evict message id c o j = elim (Bool-cases (too_slow c)) [
  | inl slow ↦ rw slow (ground (arith, contains-snoc o.to_evict id j))
  | inr quick ↦ rw quick (ground arith)
]

pub offer_to-lookup :
    (message : String) (id : ℕ) (c : Client) (o : Outcome) (j : ℕ)
    → lookup j (offer_to message id c o).clients
      ≡ (if id == j then some (offer message c) else lookup j o.clients)
unfolding offer_to
offer_to-lookup message id c o j = lookup-insert id j (offer message c) o.clients

pub offer_all-to_evict :
    (message : String) (ids : List ℕ) (o : Outcome) (j : ℕ)
    → nodup ids ≡ true
    → contains (offer_all message ids o).to_evict j
      ≡ (contains o.to_evict j || (contains ids j && is_too_slow (lookup j o.clients)))
unfolding offer_all
offer_all-to_evict message [] o j d = ground arith
offer_all-to_evict message (id ∷ ids) o j d = elim (Option-cases (lookup id o.clients)) [
  | inl q ↦
      rw (q, offer_all)
        (ground (arith, q, number_key.same_key_iff id j, offer_all-to_evict message ids o j))
  | inr (c, q) ↦
      rw (q, offer_all)
        (ground (
          arith,
          q,
          number_key.same_key_iff id j,
          offer_to-lookup message id c o j,
          offer_to-to_evict message id c o j,
          offer_all-to_evict message ids (offer_to message id c o) j,
        ))
]

pub members_list-key :
    (members : Members) (j : ℕ) → contains (members_list members) j ≡ has_key j members
members_list-key [] j = refl
members_list-key ((id, b) ∷ members) j = ground (arith, members_list-key members j)

pub members_list-nodup :
    (members : Members) → Distinct members → nodup (members_list members) ≡ true
members_list-nodup [] d = refl
members_list-nodup ((id, b) ∷ members) d =
    ground (arith, members_list-nodup members d.1, members_list-key members id)
