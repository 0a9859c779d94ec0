-- ===== src/Reliability/Tests.antt =====
-- An operation that fails twice with a timeout and then answers.
use aloqa_claude.Prelude.{
  ℕ, ◌≡◌, refl, min, Bool, true, false, Option, none, [], ◌∷◌, if◌then◌else◌, ◌==◌, number_key,
  arith,
}
use aloqa_claude.Reliability.{
  Policy, normalized, backoff_for_attempt, backoff_loop, Failure, should_retry, Answer, value,
  failure, returned, do_value, attempt_loop, sleep,
}
use aloqa_claude.Reliability.Backoff.{doubled, backoff_for_attempt_exact}
use aloqa_claude.Reliability.Retries.{Explained, do_value-Explained}

abbrev timed_out : Failure
timed_out = record {
  is_redis_nil = false;
  is_canceled = false;
  is_deadline_exceeded = false;
  net_timeout = false;
  pg_code = none;
  message = "dial tcp: i/o timeout";
}

retries_timeouts : should_retry timed_out ≡ true
unfolding should_retry
retries_timeouts = refl

abbrev third_time : ℕ → Answer ℕ
third_time attempt = if attempt == 3 then value 7 else failure timed_out

abbrev never_done : ℕ → Bool
never_done attempt = false

abbrev uninterrupted : ℕ → Option Failure
uninterrupted attempt = none

abbrev policy : Policy
policy = record { timeout = 0; max_attempts = 5; retry_backoff = 100; max_backoff = 300 }

third_attempt_answers :
    do_value third_time never_done uninterrupted policy
    ≡ record { final = returned 7; attempts = 3; delays = 100 ∷ 200 ∷ [] }
unfolding do_value attempt_loop sleep normalized should_retry backoff_for_attempt backoff_loop
third_attempt_answers = refl

do_value-Explained_example :
    Explained third_time never_done uninterrupted
      (normalized policy)
      1
      (do_value third_time never_done uninterrupted policy)
do_value-Explained_example = do_value-Explained third_time never_done uninterrupted policy

backoff_for_attempt_exact_example :
    (backoff_for_attempt policy 1 ≡ 100) × (backoff_for_attempt policy 3 ≡ min 300 (doubled 2 100))
backoff_for_attempt_exact_example = backoff_for_attempt_exact policy 1 (omega arith) (omega arith)
