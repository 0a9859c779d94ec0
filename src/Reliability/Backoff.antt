-- ===== src/Reliability/Backoff.antt =====
-- The delays between attempts.
use aloqa_claude.Prelude.{
  ℕ, zero, suc, ◌-◌, ◌*◌, ◌^◌, ◌≤◌, ◌<◌, ◌≡◌, refl, min, leb, Bool-cases, inl, inr, arith,
}
use aloqa_claude.Prelude.{◌∙◌, ltb, if◌then◌else◌}
use aloqa_claude.Reliability.{
  max_delay, base_delay, restart_loop, restart_delay, Policy, double, backoff_loop,
  backoff_for_attempt,
}

-- Doubled so many times, without a limit.
abbrev pub doubled : ℕ → ℕ → ℕ
doubled zero delay = delay
doubled (suc n) delay = doubled n (delay * 2)

doubled-ge : (n delay : ℕ) → delay ≤ doubled n delay
doubled-ge zero delay = omega arith
doubled-ge (suc n) delay = omega (arith, doubled-ge n (delay * 2))

double_lem : (delay : ℕ) → delay < 2 ^ 62 → double delay ≡ delay * 2
double_lem delay h = omega (arith, h)

backoff_loop_lem :
    (rounds limit delay : ℕ)
    → limit < 2 ^ 62
    → delay < 2 ^ 62
    → backoff_loop (suc rounds) limit delay ≡ min limit (doubled (suc rounds) delay)
unfolding backoff_loop
backoff_loop_lem zero limit delay l d = ground (arith, double_lem delay d)
backoff_loop_lem (suc rounds) limit delay l d = elim (Bool-cases (leb limit (delay * 2))) [
  | inl high ↦ ground (arith, double_lem delay d, high, doubled-ge (suc rounds) (delay * 2))
  | inr low ↦ ground (arith, double_lem delay d, low, backoff_loop_lem rounds limit (delay * 2) l)
]

predecessor : (n : ℕ) → suc (suc n) - 1 ≡ suc n
predecessor n = omega arith

-- With delays below 2 ^ 62 nanoseconds, where no doubling overflows: the delay after the first
-- attempt is the configured one, whatever the limit, and every later delay is the configured one
-- doubled once for each attempt before it, or the limit where that is less.
pub backoff_for_attempt_exact :
    (p : Policy) (n : ℕ)
    → p.max_backoff < 2 ^ 62
    → p.retry_backoff < 2 ^ 62
    → (backoff_for_attempt p 1 ≡ p.retry_backoff)
      × (backoff_for_attempt p (suc (suc n)) ≡ min p.max_backoff (doubled (suc n) p.retry_backoff))
unfolding backoff_for_attempt backoff_loop
backoff_for_attempt_exact p n l d =
    (refl, rw (predecessor n) (backoff_loop_lem n p.max_backoff p.retry_backoff l d))

restart_loop_lem :
    (rounds delay : ℕ)
    → delay < 2 ^ 62
    → min max_delay (restart_loop rounds delay) ≡ min max_delay (doubled rounds delay)
unfolding restart_loop
restart_loop_lem zero delay d = refl
restart_loop_lem (suc rounds) delay d = elim (Bool-cases (ltb delay max_delay)) [
  | inl low ↦ rw low (ground (arith, double_lem delay d, low, restart_loop_lem rounds (delay * 2)))
  | inr high ↦ rw high (ground (arith, high, doubled-ge rounds (delay * 2)))
]

one_less : (n : ℕ) → suc n - 1 ≡ n
one_less n = omega arith

capped : (delay : ℕ) → (if ltb max_delay delay then max_delay else delay) ≡ min max_delay delay
capped delay = ground arith

-- A supervised worker that ended n + 1 times starts again after one second doubled n times, or after
-- thirty seconds where that is less.
pub restart_delay_exact : (n : ℕ) → restart_delay (suc n) ≡ min max_delay (doubled n base_delay)
unfolding restart_delay
restart_delay_exact n =
    rw (one_less n)
      (capped (restart_loop n base_delay) ∙ restart_loop_lem n base_delay (omega arith))
