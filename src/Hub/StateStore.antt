-- ===== src/Hub/StateStore.antt =====
-- internal/platform/ws/state.go: the subscriptions and delivered sequences that are kept in Redis for
-- a client that comes back. Redis is a parameter: its state `S` and the five commands that are sent,
-- where a missing key is `none`. Keys that expire are not modelled.
use Prim.Native.String
use aloqa_claude.Prelude.{
  ℕ, ◌≡◌, String, Bool, false, ◌||◌, Option, none, some, List, [], if◌then◌else◌, ◌==◌, number_key,
  string_key, leb, max, arith, ap, subst, ◌∙◌, leb-true, leb-false, Bool-cases, inl, inr,
}
use aloqa_claude.Errors.{Error, foreign, wraps, Result, ok, err, ◌>>=◌, Result-cases}
use aloqa_claude.Rbac.Strings.{trim_space}

pub record Redis (S : Type 0) : Type 0 where
  pub sadd : S → String → String → Result S
  pub srem : S → String → String → Result S
  pub expire : S → String → Result S
  pub smembers : S → String → Result (List String)
  pub get : S → String → Result (Option ℕ)
  pub set : S → String → ℕ → Result S

-- What the code relies on: a value that was set is what a get answers.
pub record Keeps {S : Type 0} (r : Redis S) : Type 0 where
  pub get-set :
      (st st' : S) (key : String) (v : ℕ) → r.set st key v ≡ ok st' → r.get st' key ≡ ok (some v)

-- `fmt.Errorf("ws state: …: %w", err)`
abbrev wrapped {ℓ} : {A : Type ℓ} → String → Result A → Result A
wrapped command (ok a) = ok a
wrapped command (err e) = err (foreign command (wraps e))

abbrev pub subscription_key : String → String
subscription_key resume = String.◌++◌ "ws:subscriptions:" resume

abbrev pub delivered_sequence_key : String → String → String
delivered_sequence_key resume room =
    String.◌++◌ "ws:sequence:" (String.◌++◌ resume (String.◌++◌ ":" room))

abbrev or_zero : Option ℕ → ℕ
or_zero none = 0
or_zero (some n) = n

abbrev pub blank : String → Bool
blank s = trim_space s == ""

module _ {S : Type 0} where
  -- `none` is a store that is nil, or has no client of Redis.
  unfoldable pub add_subscription_to : Option (Redis S) → S → String → String → Result S
  add_subscription_to none st resume room = ok st
  add_subscription_to (some r) st resume room = if blank resume || blank room then ok st else (do
    st' ← wrapped "sadd" (r.sadd st (subscription_key (trim_space resume)) room)
    wrapped "expire" (r.expire st' (subscription_key (trim_space resume))))

  unfoldable pub remove_subscription_from : Option (Redis S) → S → String → String → Result S
  remove_subscription_from none st resume room = ok st
  remove_subscription_from (some r) st resume room =
      if blank resume || blank room
      then ok st
      else wrapped "srem" (r.srem st (subscription_key (trim_space resume)) room)

  unfoldable pub list_subscriptions : Option (Redis S) → S → String → Result (List String)
  list_subscriptions none st resume = ok []
  list_subscriptions (some r) st resume =
      if blank resume
      then ok []
      else wrapped "smembers" (r.smembers st (subscription_key (trim_space resume)))

  unfoldable pub last_delivered_sequence : Option (Redis S) → S → String → String → Result ℕ
  last_delivered_sequence none st resume room = ok 0
  last_delivered_sequence (some r) st resume room = if blank resume || blank room then ok 0 else (do
    found ← wrapped "get" (r.get st (delivered_sequence_key (trim_space resume) room))
    ok (or_zero found))

  -- A sequence below 0 reads as 0.
  unfoldable pub record_delivered_sequence : Option (Redis S) → S → String → String → ℕ → Result S
  record_delivered_sequence none st resume room sequence = ok st
  record_delivered_sequence (some r) st resume room sequence =
      if blank resume || (blank room || sequence == 0) then ok st else (do
        current ← wrapped "get" (r.get st (delivered_sequence_key (trim_space resume) room))
        if leb sequence (or_zero current)
            then ok st
            else wrapped "set"
                (r.set st (delivered_sequence_key (trim_space resume) room) sequence))

  reads :
      (r : Redis S) (st : S) (resume room : String) (found : Option ℕ)
      → blank resume ≡ false
      → blank room ≡ false
      → r.get st (delivered_sequence_key (trim_space resume) room) ≡ ok found
      → last_delivered_sequence (some r) st resume room ≡ ok (or_zero found)
  unfolding last_delivered_sequence
  reads r st resume room found named in_room q = ground (arith, named, in_room, q)

  fails :
      (r : Redis S) (st : S) (resume room : String) (e : Error)
      → blank resume ≡ false
      → blank room ≡ false
      → r.get st (delivered_sequence_key (trim_space resume) room) ≡ err e
      → last_delivered_sequence (some r) st resume room ≡ err (foreign "get" (wraps e))
  unfolding last_delivered_sequence
  fails r st resume room e named in_room q = ground (arith, named, in_room, q)

  -- Over a Redis that keeps what is set, with names that are not blank: a delivery that is recorded
  -- raises the last delivered sequence to its own, and never lowers it.
  pub record_delivered_sequence-max :
      (r : Redis S) (st st' : S) (resume room : String) (sequence last : ℕ)
      → Keeps r
      → blank resume ≡ false
      → blank room ≡ false
      → last_delivered_sequence (some r) st resume room ≡ ok last
      → record_delivered_sequence (some r) st resume room sequence ≡ ok st'
      → last_delivered_sequence (some r) st' resume room ≡ ok (max last sequence)
  unfolding record_delivered_sequence
  record_delivered_sequence-max r st st' resume room sequence last k named in_room before h =
      let key = delivered_sequence_key (trim_space resume) room in
      elim (Result-cases (r.get st key)) [
        | inl (e, q) ↦ absurd (ground (arith, before, fails r st resume room e named in_room q))
        | inr (found, q) ↦
            let old : or_zero found ≡ last =
              ground (arith, before, reads r st resume room found named in_room q) in
            elim (Bool-cases (leb sequence (or_zero found))) [
              | inl behind ↦
                  let same : st ≡ st' = ground (arith, named, in_room, q, behind, h) in
                  subst
                    (λ s. last_delivered_sequence (some r) s resume room ≡ ok (max last sequence))
                    same
                    (reads r st resume room found named in_room q
                      ∙ ap ok (omega (arith, old, leb-true sequence (or_zero found) behind)))
              | inr ahead ↦ elim (Result-cases (r.set st key sequence)) [
                | inl (e, q') ↦ absurd (ground (arith, named, in_room, q, ahead, q', h))
                | inr (st'', q') ↦
                    let same : st'' ≡ st' = ground (arith, named, in_room, q, ahead, q', h) in
                    let stored = k.get-set st st'' key sequence q' in
                    subst
                      (λ s. last_delivered_sequence (some r) s resume room ≡ ok (max last sequence))
                      same
                      (reads r st'' resume room (some sequence) named in_room stored
                        ∙ ap ok (omega (arith, old, leb-false sequence (or_zero found) ahead)))
              ]
            ]
      ]
