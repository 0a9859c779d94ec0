-- ===== src/Calls/Rows.antt =====
-- The rows of a call's participants: how the statements of Calls.Store act on hosts, users and
-- look-ups.
use aloqa_claude.Prelude.{
  ℕ, ◌+◌, ◌≤◌, ◌≡◌, refl, Bool, true, false, not, List, [], ◌∷◌, ◌++◌, any, filter_by,
  if◌then◌else◌, ◌==◌, number_key, Bool-cases, inl, inr, arith,
}
use aloqa_claude.Errors.{ok}
use aloqa_claude.Entity.Calls.{CallParticipant, is_host}
use aloqa_claude.Calls.Store.{update_where, of_user, find_participant}

abbrev pub host_count : List CallParticipant → ℕ
host_count [] = 0
host_count (p ∷ ps) = (if is_host p.role then 1 else 0) + host_count ps

-- No user has two rows.
abbrev pub DistinctUsers : List CallParticipant → Type 0
DistinctUsers [] = Unit
DistinctUsers (p ∷ ps) = (any (of_user p.user_id) ps ≡ false) × DistinctUsers ps

module _ (test : CallParticipant → Bool) (f : CallParticipant → CallParticipant) where
  pub host_count-update_where :
      ((p : CallParticipant) → test p ≡ true → is_host (f p).role ≡ is_host p.role)
      → (ps : List CallParticipant) → host_count (update_where test f ps) ≡ host_count ps
  unfolding update_where
  host_count-update_where keep [] = refl
  host_count-update_where keep (p ∷ ps) = elim (Bool-cases (test p)) [
    | inl hit ↦ rw (hit, keep p hit, host_count-update_where keep ps) refl
    | inr miss ↦ rw (miss, host_count-update_where keep ps) refl
  ]

  module _ (same_user : (p : CallParticipant) → (f p).user_id ≡ p.user_id) where
    pub any-update_where :
        (user : ℕ) (ps : List CallParticipant)
        → any (of_user user) (update_where test f ps) ≡ any (of_user user) ps
    unfolding update_where
    any-update_where user [] = refl
    any-update_where user (p ∷ ps) = elim (Bool-cases (test p)) [
      | inl hit ↦ rw (hit, same_user p, any-update_where user ps) refl
      | inr miss ↦ rw (miss, any-update_where user ps) refl
    ]

    pub update_where-DistinctUsers :
        (ps : List CallParticipant) → DistinctUsers ps → DistinctUsers (update_where test f ps)
    unfolding update_where
    update_where-DistinctUsers [] v = tt
    update_where-DistinctUsers (p ∷ ps) v = elim (Bool-cases (test p)) [
      | inl hit ↦
          rw (hit, same_user p, any-update_where p.user_id ps)
            (v.0, update_where-DistinctUsers ps v.1)
      | inr miss ↦ rw (miss, any-update_where p.user_id ps) (v.0, update_where-DistinctUsers ps v.1)
    ]

    -- A look-up after an update finds the row that it found before, updated if the test is met.
    pub find_participant-update_where :
        (user : ℕ) (p : CallParticipant) (ps : List CallParticipant)
        → find_participant ps user ≡ ok p
        → find_participant (update_where test f ps) user ≡ ok (if test p then f p else p)
    unfolding update_where find_participant
    find_participant-update_where user p [] h = cc
    find_participant-update_where user p (q ∷ ps) h = elim (Bool-cases (test q)) [
      | inl hit ↦ ground (arith, hit, h, same_user q, find_participant-update_where user p ps)
      | inr miss ↦ ground (arith, miss, h, find_participant-update_where user p ps)
    ]

-- A row that is added at the end.
pub host_count-append :
    (ps qs : List CallParticipant) → host_count (ps ++ qs) ≡ host_count ps + host_count qs
host_count-append [] qs = omega arith
host_count-append (p ∷ ps) qs = omega (arith, host_count-append ps qs)

pub append-DistinctUsers :
    (ps : List CallParticipant) (p : CallParticipant)
    → any (of_user p.user_id) ps ≡ false
    → DistinctUsers ps
    → DistinctUsers (ps ++ p ∷ [])
append-DistinctUsers [] p new v = (refl, tt)
append-DistinctUsers (q ∷ ps) p new v =
    (apart ps p q v.0 (ground (arith, new)), append-DistinctUsers ps p (ground (arith, new)) v.1)
  where
    apart :
        (ps : List CallParticipant) (p q : CallParticipant)
        → any (of_user q.user_id) ps ≡ false
        → of_user p.user_id q ≡ false
        → any (of_user q.user_id) (ps ++ p ∷ []) ≡ false
    apart [] p q h other = ground (arith, other)
    apart (r ∷ ps) p q h other = ground (arith, h, apart ps p q (ground (arith, h)) other)

module _ (user : ℕ) where
  pub host_count-removed :
      (ps : List CallParticipant)
      → host_count (filter_by (λ p. not (of_user user p)) ps) ≤ host_count ps
  host_count-removed [] = omega arith
  host_count-removed (p ∷ ps) = ground (arith, host_count-removed ps)

  any-removed :
      (other : ℕ) (ps : List CallParticipant)
      → any (of_user other) ps ≡ false
      → any (of_user other) (filter_by (λ p. not (of_user user p)) ps) ≡ false
  any-removed other [] h = refl
  any-removed other (p ∷ ps) h = ground (arith, h, any-removed other ps (ground (arith, h)))

  pub removed-DistinctUsers :
      (ps : List CallParticipant)
      → DistinctUsers ps
      → DistinctUsers (filter_by (λ p. not (of_user user p)) ps)
  removed-DistinctUsers [] v = tt
  removed-DistinctUsers (p ∷ ps) v = elim (Bool-cases (of_user user p)) [
    | inl same ↦ rw same (removed-DistinctUsers ps v.1)
    | inr other ↦ rw other (any-removed p.user_id ps v.0, removed-DistinctUsers ps v.1)
  ]

-- A row that was found and passes a test is among the rows.
pub any-find_participant :
    (test : CallParticipant → Bool) (user : ℕ) (p : CallParticipant) (ps : List CallParticipant)
    → find_participant ps user ≡ ok p
    → test p ≡ true
    → any test ps ≡ true
unfolding find_participant
any-find_participant test user p [] h met = cc
any-find_participant test user p (q ∷ ps) h met = elim (Bool-cases (q.user_id == user)) [
  | inl same ↦ let found : q ≡ p = ground (arith, same, h) in rw (found, met) refl
  | inr other ↦ ground (arith, any-find_participant test user p ps (ground (arith, other, h)) met)
]
