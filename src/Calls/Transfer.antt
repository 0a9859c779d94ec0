-- ===== src/Calls/Transfer.antt =====
-- `TransferHost` of internal/repository/postgres/call.go on the rows: the loop over the locked rows
-- finds what two look-ups would, and the swap moves the role from one user to the other.
use aloqa_claude.Prelude.{
  ℕ, ◌+◌, ◌≡◌, ◌∙◌, ◌⊎◌, refl, sym, Bool, true, false, not, ◌&&◌, List, [], ◌∷◌, any, if◌then◌else◌,
  ◌==◌, number_key, nat_beq_iff, Bool-cases, inl, inr, arith,
}
use aloqa_claude.Errors.{Result, ok, err, not_found_error}
use aloqa_claude.Entity.Calls.{CallParticipant, CallRole, host, participant, is_host, is_connected}
use aloqa_claude.Calls.Store.{
  Tables, update_where, of_user, find_participant, set_role, scan_transfer, transfer_host_rows,
}
use aloqa_claude.Calls.Rows.{
  host_count, DistinctUsers, find_participant-update_where, update_where-DistinctUsers,
}

pub find_participant-absent :
    (user : ℕ) (ps : List CallParticipant)
    → any (of_user user) ps ≡ false
    → find_participant ps user ≡ err (not_found_error "call participant not found")
unfolding find_participant
find_participant-absent user [] h = refl
find_participant-absent user (p ∷ ps) h =
    ground (arith, h, find_participant-absent user ps (ground (arith, h)))

pub update_where-absent :
    (user : ℕ) (f : CallParticipant → CallParticipant) (ps : List CallParticipant)
    → any (of_user user) ps ≡ false
    → update_where (of_user user) f ps ≡ ps
unfolding update_where
update_where-absent user f [] h = refl
update_where-absent user f (p ∷ ps) h =
    ground (arith, h, update_where-absent user f ps (ground (arith, h)))

abbrev pub one_if : Bool → ℕ
one_if b = if b then 1 else 0

-- A user is in another row than the one at hand.
apart :
    (user : ℕ) (p : CallParticipant) (ps : List CallParticipant)
    → of_user user p ≡ true
    → any (of_user p.user_id) ps ≡ false
    → any (of_user user) ps ≡ false
apart user p ps same h = rw (← (nat_beq_iff p.user_id user).0 same) h

pub host_count-set_role :
    (user : ℕ) (role : CallRole) (p : CallParticipant) (ps : List CallParticipant)
    → find_participant ps user ≡ ok p
    → DistinctUsers ps
    → host_count (update_where (of_user user) (set_role role) ps) + one_if (is_host p.role)
      ≡ host_count ps + one_if (is_host role)
unfolding find_participant update_where
host_count-set_role user role p [] h v = cc
host_count-set_role user role p (q ∷ ps) h v = elim (Bool-cases (of_user user q)) [
  | inl same ↦
      let found : q ≡ p = ground (arith, same, h) in
      rw (same, update_where-absent user (set_role role) ps (apart user q ps same v.0), found)
        (omega arith)
  | inr other ↦
      let rest = host_count-set_role user role p ps (ground (arith, other, h)) v.1 in
      rw other (omega (arith, rest))
]

-- What a look-up finds, or else the value given.
abbrev seen_in : Result CallParticipant → (CallParticipant → Bool) → Bool → Bool
seen_in (ok p) test b = test p
seen_in (err _) test b = b

abbrev pub may_host : CallParticipant → Bool
may_host p = not (is_host p.role) && is_connected p.status

abbrev next_from : ℕ → CallParticipant → Bool → Bool
next_from from p a = if of_user from p then is_host p.role else a

abbrev next_to : ℕ → ℕ → CallParticipant → Bool → Bool
next_to from to p b = if of_user from p then b else if of_user to p then may_host p else b

scan_from :
    (from to : ℕ) (a b : Bool) (ps : List CallParticipant)
    → DistinctUsers ps
    → (scan_transfer ps from to a b).0 ≡ seen_in (find_participant ps from) (λ p. is_host p.role) a
unfolding scan_transfer find_participant
scan_from from to a b [] v = refl
scan_from from to a b (p ∷ ps) v =
    scan_from from to (next_from from p a) (next_to from to p b) ps v.1
    ∙ elim (Bool-cases (of_user from p)) [
      | inl same ↦ rw (same, find_participant-absent from ps (apart from p ps same v.0)) refl
      | inr other ↦ rw other refl
    ]

scan_to :
    (from to : ℕ) (a b : Bool) (ps : List CallParticipant)
    → (from == to) ≡ false
    → DistinctUsers ps
    → (scan_transfer ps from to a b).1 ≡ seen_in (find_participant ps to) may_host b
unfolding scan_transfer find_participant
scan_to from to a b [] differ v = refl
scan_to from to a b (p ∷ ps) differ v =
    scan_to from to (next_from from p a) (next_to from to p b) ps differ v.1
    ∙ elim (Bool-cases (of_user from p)) [
      | inl same ↦
          let other : of_user to p ≡ false = ground (arith, same, differ) in rw (same, other) refl
      | inr other ↦ elim (Bool-cases (of_user to p)) [
        | inl same ↦ rw (other, same, find_participant-absent to ps (apart to p ps same v.0)) refl
        | inr different ↦ rw (other, different) refl
      ]
    ]

scan_same :
    (user : ℕ) (a b : Bool) (ps : List CallParticipant) → (scan_transfer ps user user a b).1 ≡ b
unfolding scan_transfer
scan_same user a b [] = refl
scan_same user a b (p ∷ ps) =
    scan_same user (next_from user p a) (next_to user user p b) ps
    ∙ elim (Bool-cases (of_user user p)) [ inl same ↦ rw same refl | inr other ↦ rw other refl ]

-- A test that `seen_in` answers with true was passed by a row that was found.
seen_in-true :
    (r : Result CallParticipant) (test : CallParticipant → Bool)
    → seen_in r test false ≡ true
    → (p : CallParticipant) × (r ≡ ok p) × (test p ≡ true)
seen_in-true (ok p) test h = (p, refl, h)
seen_in-true (err e) test h = cc

-- The two rows that a swap has found.
abbrev pub Swappable : List CallParticipant → ℕ → ℕ → Type 0
Swappable ps from to =
    (p q : CallParticipant) × (find_participant ps from ≡ ok p)
    × (is_host p.role ≡ true)
    × (find_participant ps to ≡ ok q)
    × (may_host q ≡ true)

abbrev pub swap_rows : List CallParticipant → ℕ → ℕ → List CallParticipant
swap_rows ps from to =
    update_where (of_user to) (set_role host)
      (update_where (of_user from) (set_role participant) ps)

-- The swap happens exactly if the first user is the host and the other is connected and is not.
pub transfer_host_rows_cases :
    (t : Tables) (from to : ℕ)
    → DistinctUsers t.participants
    → (((transfer_host_rows t from to).0 ≡ false) × ((transfer_host_rows t from to).1 ≡ t))
      ⊎ (((from == to) ≡ false)
          × Swappable t.participants from to
          × (transfer_host_rows t from to
              ≡ (true, record t { participants = swap_rows t.participants from to })))
unfolding transfer_host_rows
transfer_host_rows_cases t from to v =
    let found = scan_transfer t.participants from to false false in
    elim (Bool-cases (found.0 && found.1)) [
      | inr no_swap ↦ inl (ground (arith, no_swap), ground (arith, no_swap))
      | inl both ↦ elim (Bool-cases (from == to)) [
        | inl same ↦
            let e : from ≡ to = (nat_beq_iff from to).0 same in
            absurd (ground (arith, both, e, scan_same from false false t.participants))
        | inr differ ↦
            let (p, hp, host_p) =
              seen_in-true (find_participant t.participants from) (λ r. is_host r.role)
                (sym (scan_from from to false false t.participants v) ∙ ground (arith, both)) in
            let (q, hq, may_q) =
              seen_in-true (find_participant t.participants to) may_host (
                sym (scan_to from to false false t.participants differ v) ∙ ground (arith, both)) in
            inr (differ, (p, q, hp, host_p, hq, may_q), ground (arith, both))
      ]
    ]

pub swap_rows-host_count :
    (ps : List CallParticipant) (from to : ℕ)
    → DistinctUsers ps
    → Swappable ps from to
    → host_count (swap_rows ps from to) ≡ host_count ps
swap_rows-host_count ps from to v (p, q, hp, host_p, hq, may_q) =
    let ps' = update_where (of_user from) (set_role participant) ps in
    let q' : CallParticipant = if of_user from q then set_role participant q else q in
    let v' : DistinctUsers ps' =
      update_where-DistinctUsers (of_user from) (set_role participant) (λ r. refl) ps v in
    let hq' : find_participant ps' to ≡ ok q' =
      find_participant-update_where (of_user from) (set_role participant) (λ r. refl) to q ps hq in
    let fewer = host_count-set_role from participant p ps hp v in
    let more = host_count-set_role to host q' ps' hq' v' in
    let not_yet : is_host q'.role ≡ false = ground (arith, may_q) in
    ground (arith, fewer, more, not_yet, host_p)

pub swap_rows-DistinctUsers :
    (ps : List CallParticipant) (from to : ℕ)
    → DistinctUsers ps
    → DistinctUsers (swap_rows ps from to)
swap_rows-DistinctUsers ps from to v =
    update_where-DistinctUsers (of_user to) (set_role host) (λ r. refl) _
      (update_where-DistinctUsers (of_user from) (set_role participant) (λ r. refl) ps v)
