-- ===== src/Reliability/Retries.antt =====
-- How a run of `DoValue` comes about.
use aloqa_claude.Prelude.{
  ℕ, zero, suc, ◌+◌, ◌-◌, ◌≤◌, ◌<◌, ◌≡◌, refl, ◌⊎◌, inl, inr, Bool, true, false, Option, none, some,
  List, [], Bool-cases, Option-cases, arith, subst,
}
use aloqa_claude.Reliability.{
  or_default, Policy, normalized, backoff_for_attempt, Failure, should_retry, single, joined,
  Answer, value, failure, Final, returned, gave_up, Run, sleep, attempt_loop, do_value,
}

Answer-cases :
    {A : Type 0} (r : Answer A) → ((e : Failure) × (r ≡ failure e)) ⊎ ((a : A) × (r ≡ value a))
Answer-cases (value a) = inr (a, refl)
Answer-cases (failure e) = inl (e, refl)

split_le : (k j : ℕ) → k ≤ j → (k ≡ j) ⊎ (k + 1 ≤ j)
split_le k j h = ground arith

or_default-pos : (n : ℕ) → 1 + (or_default n 1 - 1) ≡ or_default n 1
or_default-pos zero = refl
or_default-pos (suc n) = omega arith

all_attempts : (p : Policy) → 1 + ((normalized p).max_attempts - 1) ≡ (normalized p).max_attempts
unfolding normalized
all_attempts p = or_default-pos p.max_attempts

module _ {A : Type 0} (fn : ℕ → Answer A) (done : ℕ → Bool) (interrupted : ℕ → Option Failure) where
  -- The attempt failed with an error that is worth a retry, and the sleep behind it went through.
  pub record Retried (p : Policy) (k : ℕ) : Type 0 where
    pub error : Failure
    pub failed : fn k ≡ failure error
    pub retryable : should_retry error ≡ true
    pub not_done : done k ≡ false
    pub slept : sleep fn done interrupted k (backoff_for_attempt p k) ≡ none

  -- Why the run ended with the attempt.
  abbrev pub Ending : Policy → ℕ → Final A → Type 0
  Ending p k (returned a) = fn k ≡ value a
  Ending p k (gave_up (single e)) =
      (fn k ≡ failure e) × ((should_retry e ≡ false) ⊎ ((k ≡ p.max_attempts) ⊎ (done k ≡ true)))
  Ending p k (gave_up (joined e f)) =
      (fn k ≡ failure e) × (sleep fn done interrupted k (backoff_for_attempt p k) ≡ some f)

  -- A run from an attempt on.
  pub record Explained (p : Policy) (first : ℕ) (r : Run A) : Type 0 where
    pub not_before : first ≤ r.attempts
    pub at_most : r.attempts ≤ p.max_attempts
    pub retried : (k : ℕ) → first ≤ k → k < r.attempts → Retried p k
    pub ending : Ending p r.attempts r.final

  at_once :
      (p : Policy) (k : ℕ) (final : Final A) (delays : List ℕ)
      → k ≤ p.max_attempts
      → Ending p k final
      → Explained p k (record { final = final; attempts = k; delays = delays })
  at_once p k final delays h e = record {
    not_before = omega arith;
    at_most = h;
    retried = λ j low high. absurd (omega (arith, low, high));
    ending = e;
  }

  -- One more attempt in front of a run that is explained.
  one_more :
      (p : Policy) (k : ℕ) (r : Run A) (delays : List ℕ)
      → Retried p k
      → Explained p (k + 1) r
      → Explained p k (record r { delays = delays })
  one_more p k r delays tried x = record {
    not_before = omega (arith, x.not_before);
    at_most = x.at_most;
    retried = λ j low high. earlier j low high;
    ending = x.ending;
  }
    where
      earlier : (j : ℕ) → k ≤ j → j < r.attempts → Retried p j
      earlier j low high = elim (split_le k j low) [
        | inl same ↦ subst (Retried p) same tried
        | inr later ↦ x.retried j later high
      ]

  attempt_loop-Explained :
      (left : ℕ) (p : Policy) (k : ℕ)
      → k + left ≡ p.max_attempts
      → Explained p k (attempt_loop fn done interrupted left p k)
  unfolding attempt_loop
  attempt_loop-Explained zero p k h = elim (Answer-cases (fn k)) [
    | inl (e, q) ↦
        rw (q, attempt_loop)
          (at_once p k (gave_up (single e)) [] (omega (arith, h)) (q, inr (inl (omega (arith, h)))))
    | inr (a, q) ↦ rw (q, attempt_loop) (at_once p k (returned a) [] (omega (arith, h)) q)
  ]
  attempt_loop-Explained (suc left) p k h = elim (Answer-cases (fn k)) [
    | inr (a, q) ↦ rw (q, attempt_loop) (at_once p k (returned a) [] (omega (arith, h)) q)
    | inl (e, q) ↦ elim (Bool-cases (should_retry e)) [
      | inr final ↦
          rw (q, attempt_loop, final)
            (at_once p k (gave_up (single e)) [] (omega (arith, h)) (q, inl final))
      | inl again ↦ elim (Bool-cases (done k)) [
        | inl over ↦
            rw (q, attempt_loop, again, over)
              (at_once p k (gave_up (single e)) [] (omega (arith, h)) (q, inr (inr over)))
        | inr on ↦ elim (Option-cases (sleep fn done interrupted k (backoff_for_attempt p k))) [
          | inl slept ↦
              let rest = attempt_loop-Explained left p (k + 1) (omega (arith, h)) in
              rw (q, attempt_loop, again, on, slept)
                (one_more p k (attempt_loop fn done interrupted left p (k + 1)) _
                  (record {
                    error = e;
                    failed = q;
                    retryable = again;
                    not_done = on;
                    slept = slept;
                  })
                  rest)
          | inr (f, woken) ↦
              rw (q, attempt_loop, again, on, woken)
                (at_once p k (gave_up (joined e f)) _ (omega (arith, h)) (q, woken))
        ]
      ]
    ]
  ]

  -- `DoValue` makes at least one attempt and never more than the normalized policy allows. Every
  -- attempt before the last failed with an error worth a retry while the context was not done, and
  -- its sleep went through. The run returns the value of its last attempt if that gave one. If not,
  -- it gives up with the last error, which is not worth a retry, or came with the last attempt
  -- allowed or with the context done; or with the last error joined with that of a broken sleep.
  pub do_value-Explained :
      (p : Policy) → Explained (normalized p) 1 (do_value fn done interrupted p)
  unfolding do_value normalized
  do_value-Explained p =
      attempt_loop-Explained ((normalized p).max_attempts - 1) (normalized p) 1 (all_attempts p)
