-- ===== src/Hub/Eviction.antt =====
-- What removals leave: lookups after an eviction.
use aloqa_claude.Prelude.{
  ℕ, ◌≡◌, refl, ◌≢◌, ◌∙◌, String, false, Option, none, some, List, [], ◌∷◌, lookup, has_key,
  Distinct, if◌then◌else◌, ◌==◌, number_key, string_key, lookup-erase, contains, Option-cases,
  Bool-cases, inl, inr, arith,
}
use aloqa_claude.Hub.{Client, Clients, Hub, remove_client, remove_all, in_session, evict_session}

remove_client-lookup :
    (h : Hub) (id j : ℕ)
    → lookup j (remove_client h id).0.clients ≡ (if id == j then none else lookup j h.clients)
unfolding remove_client
remove_client-lookup h id j = elim (Option-cases (lookup id h.clients)) [
  | inl q ↦ rw (q, remove_client) (ground (arith, q, number_key.same_key_iff id j))
  | inr (c, q) ↦ rw (q, remove_client) (lookup-erase id j h.clients)
]

pub remove_all-lookup :
    (ids : List ℕ) (h : Hub) (j : ℕ)
    → lookup j (remove_all h ids).clients ≡ (if contains ids j then none else lookup j h.clients)
unfolding remove_all
remove_all-lookup [] h j = refl
remove_all-lookup (id ∷ ids) h j =
    ground (arith, remove_all-lookup ids (remove_client h id).0 j, remove_client-lookup h id j)

-- The client, unless it is of the session.
abbrev pub of_other_session : String → Option Client → Option Client
of_other_session session none = none
of_other_session session (some c) = if c.session_id == session then none else some c

in_session_unknown :
    (session : String) (clients : Clients) (j : ℕ)
    → has_key j clients ≡ false
    → contains (in_session session clients) j ≡ false
unfolding in_session
in_session_unknown session [] j h = refl
in_session_unknown session ((id, c) ∷ clients) j h =
    ground (arith, in_session_unknown session clients j)

in_session_lem :
    (session : String) (clients : Clients) (j : ℕ)
    → Distinct clients
    → (if contains (in_session session clients) j then none else lookup j clients)
      ≡ of_other_session session (lookup j clients)
unfolding in_session
in_session_lem session [] j d = refl
in_session_lem session ((id, c) ∷ clients) j d = ground (
  arith,
  in_session_lem session clients j d.1,
  in_session_unknown session clients j,
  number_key.same_key_iff id j,
)

-- In a hub that holds each client once, evicting a session that has a name removes the clients of
-- that session and no others.
pub evict_session_exact :
    (h : Hub) (session : String) (j : ℕ)
    → Distinct h.clients
    → session ≢ ""
    → lookup j (evict_session h session).clients ≡ of_other_session session (lookup j h.clients)
unfolding evict_session
evict_session_exact h session j d named = elim (Bool-cases (session == "")) [
  | inl blank ↦ absurd (named ((string_key.same_key_iff session "").0 blank))
  | inr set ↦
      rw set (
        remove_all-lookup (in_session session h.clients) h j ∙ in_session_lem session h.clients j d)
]
