-- ===== src/Reliability.antt =====
-- internal/platform/reliability/policy.go: retries with backoff. A duration is a number of
-- nanoseconds in 64 bits, and one that is not positive reads as 0. What the attempts, the context and
-- the clock do is given by the number of the attempt.
pub mod Backoff
pub mod Retries
mod Tests
use aloqa_claude.Prelude.{
  ℕ, zero, suc, ◌+◌, ◌-◌, ◌*◌, ◌%◌, ◌^◌, String, Bool, true, false, not, ◌&&◌, ◌||◌, Option, none,
  some, List, [], ◌∷◌, ◌++◌, any, if◌then◌else◌, ◌==◌, number_key, string_key, leb, ltb, is_some,
  contains,
}
use text.Mathlib.Text.{find?}

pub record Policy : Type 0 where
  pub timeout : ℕ
  pub max_attempts : ℕ
  pub retry_backoff : ℕ
  pub max_backoff : ℕ

abbrev pub or_default : ℕ → ℕ → ℕ
or_default zero d = d
or_default (suc n) d = suc n

-- `Policy.normalized`
unfoldable pub normalized : Policy → Policy
normalized p = record {
  timeout = or_default p.timeout 5000000000;
  max_attempts = or_default p.max_attempts 1;
  retry_backoff = or_default p.retry_backoff 200000000;
  max_backoff = or_default p.max_backoff 5000000000;
}

-- `delay *= 2`
abbrev pub double : ℕ → ℕ
double delay = (delay * 2) % 2 ^ 64

-- `delay >= limit`; a delay from 2 ^ 63 on is negative.
abbrev pub reaches : ℕ → ℕ → Bool
reaches delay limit = leb limit delay && ltb delay (2 ^ 63)

-- The loop of `backoffForAttempt`, by the number of its rounds.
unfoldable pub backoff_loop : ℕ → ℕ → ℕ → ℕ
backoff_loop zero limit delay = delay
backoff_loop (suc rounds) limit delay =
    if reaches (double delay) limit then limit else backoff_loop rounds limit (double delay)

unfoldable pub backoff_for_attempt : Policy → ℕ → ℕ
unfolding backoff_loop
backoff_for_attempt p attempt = backoff_loop (attempt - 1) p.max_backoff p.retry_backoff

-- `Supervise`: the delay before the restart that follows so many ends of the worker.
abbrev pub base_delay : ℕ
base_delay = 1000000000

abbrev pub max_delay : ℕ
max_delay = 30000000000

unfoldable pub restart_loop : ℕ → ℕ → ℕ
restart_loop zero delay = delay
restart_loop (suc rounds) delay =
    if ltb delay max_delay then restart_loop rounds (double delay) else delay

unfoldable pub restart_delay : ℕ → ℕ
unfolding restart_loop
restart_delay attempt =
    let delay = restart_loop (attempt - 1) base_delay in
    if ltb max_delay delay then max_delay else delay

-- What `ShouldRetry` finds out about an error by `errors.Is` and `errors.As`, and its message in
-- lower case.
pub record Failure : Type 0 where
  pub is_redis_nil : Bool
  pub is_canceled : Bool
  pub is_deadline_exceeded : Bool
  pub net_timeout : Bool
  pub pg_code : Option String
  pub message : String

abbrev pg_retryable : Option String → Bool
pg_retryable none = false
pg_retryable (some code) = contains ("40001" ∷ "40P01" ∷ "55P03" ∷ "53300" ∷ "57P03" ∷ []) code

abbrev pub retry_words : List String
retry_words =
    "timeout" ∷ "connection reset" ∷ "broken pipe" ∷ "too many clients" ∷ "pool timeout"
    ∷ "readonly" ∷ "tryagain" ∷ "loading" ∷ []

-- `ShouldRetry`, for an error that is not nil.
unfoldable pub should_retry : Failure → Bool
should_retry e =
    if e.is_redis_nil || e.is_canceled
    then false
    else if e.is_deadline_exceeded
    then true
    else if e.net_timeout
    then true
    else if pg_retryable e.pg_code
    then true
    else any (λ word. is_some (find? e.message word)) retry_words

-- The error that `DoValue` returns: the last one, or that joined with the one of the sleep.
pub data LastError : Type 0 where
  single : Failure → LastError
  joined : Failure → Failure → LastError

pub data Answer {ℓ} (A : Type ℓ) : Type ℓ where
  value : A → Answer A
  failure : Failure → Answer A

pub data Final {ℓ} (A : Type ℓ) : Type ℓ where
  returned : A → Final A
  gave_up : LastError → Final A

-- A run: how it ended, the number of the last attempt, and the delays slept through or broken off.
pub record Run (A : Type 0) : Type 0 where
  pub final : Final A
  pub attempts : ℕ
  pub delays : List ℕ

module _ {A : Type 0} (fn : ℕ → Answer A) (done : ℕ → Bool) (interrupted : ℕ → Option Failure) where
  -- `Sleep`, after the attempt: a delay that is 0 or negative is not slept.
  unfoldable pub sleep : ℕ → ℕ → Option Failure
  sleep attempt delay = if delay == 0 || leb (2 ^ 63) delay then none else interrupted attempt

  abbrev after : ℕ → Run A → Run A
  after delay r = record r { delays = delay ∷ r.delays }

  abbrev stop : ℕ → LastError → List ℕ → Run A
  stop attempt e delays = record { final = gave_up e; attempts = attempt; delays = delays }

  abbrev succeed : ℕ → A → Run A
  succeed attempt a = record { final = returned a; attempts = attempt; delays = [] }

  -- The loop of `DoValue` from an attempt on, by the number of attempts that are left after it.
  unfoldable pub attempt_loop : ℕ → Policy → ℕ → Run A
  unfolding sleep
  attempt_loop zero p attempt = elim (fn attempt) [
    | value a ↦ succeed attempt a
    | failure e ↦ stop attempt (single e) []
  ]
  attempt_loop (suc left) p attempt = elim (fn attempt) [
    | value a ↦ succeed attempt a
    | failure e ↦
        let rest = attempt_loop left p (attempt + 1) in
        let delay = backoff_for_attempt p attempt in
        if not (should_retry e) || done attempt
        then stop attempt (single e) []
        else elim (sleep attempt delay) [
          | some f ↦ stop attempt (joined e f) (delay ∷ [])
          | none ↦ after delay rest
        ]
  ]

  -- `DoValue`
  unfoldable pub do_value : Policy → Run A
  unfolding attempt_loop
  do_value p = attempt_loop ((normalized p).max_attempts - 1) (normalized p) 1
