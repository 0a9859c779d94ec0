-- ===== src/Calls/Runs.antt =====
-- What a handler of Calls.Transactions does to the tables, as a relation between the tables before
-- and after it: one rule for each way in which handlers are put together.
use aloqa_claude.Prelude.{◌≡◌, refl, Bool, true, false, if◌then◌else◌, inl, inr, ◌⊎◌}
use aloqa_claude.Errors.{Error, Result, ok, Result-cases}
use aloqa_claude.Calls.Store.{Tables}
use aloqa_claude.Calls.Transactions.{
  Outcome, done, failed, left_by, Handler, ◌>>=◌, give, fail, reads, writes, updates, answers, when,
  within_tx, on_error, ignoring,
}

-- A relation that steps can follow one another in.
pub record Closure : Type 1 where
  pub rel : Tables → Tables → Type 0
  pub stay : (t : Tables) → rel t t
  pub append : (t u v : Tables) → rel t u → rel u v → rel t v

-- Tables before and after the handler are related, whether it fails or not.
pub record Runs (c : Closure) {A : Type 0} (m : Handler A) : Type 0 where
  pub at : (t : Tables) → c.rel t (left_by (m t))

pub Outcome-cases :
    {A : Type 0} (o : Outcome A)
    → ((a : A) × (t : Tables) × (o ≡ done a t)) ⊎ ((e : Error) × (t : Tables) × (o ≡ failed e t))
Outcome-cases (done a t) = inl (a, t, refl)
Outcome-cases (failed e t) = inr (e, t, refl)

module _ {c : Closure} {A : Type 0} where
  pub give-Runs : (a : A) → Runs c (give a)
  unfolding give
  give-Runs a = record { at = λ t. c.stay t }

  pub fail-Runs : (e : Error) → Runs c (fail {A = A} e)
  unfolding fail
  fail-Runs e = record { at = λ t. c.stay t }

  pub reads-Runs : (r : Tables → Result A) → Runs c (reads r)
  unfolding reads
  reads-Runs r = record {
    at = λ t. elim (Result-cases (r t)) [
      | inl (x, e) ↦ rw (e, left_by) (c.stay t)
      | inr (a, e) ↦ rw (e, left_by) (c.stay t)
    ];
  }

  pub writes-Runs :
      (w : Tables → Result (A × Tables))
      → ((t u : Tables) (a : A) → w t ≡ ok (a, u) → c.rel t u)
      → Runs c (writes w)
  unfolding writes
  writes-Runs w step = record {
    at = λ t. elim (Result-cases (w t)) [
      | inl (x, e) ↦ rw (e, left_by) (c.stay t)
      | inr ((a, u), e) ↦ rw (e, left_by) (step t u a e)
    ];
  }

  pub answers-Runs :
      (w : Tables → A × Tables) → ((t : Tables) → c.rel t (w t).1) → Runs c (answers w)
  unfolding answers
  answers-Runs w step = record { at = step }

  pub if-Runs :
      (b : Bool) (m n : Handler A)
      → (b ≡ true → Runs c m)
      → (b ≡ false → Runs c n)
      → Runs c (if b then m else n)
  if-Runs true m n first second = first refl
  if-Runs false m n first second = second refl

  pub within_tx-Runs : (m : Handler A) → Runs c m → Runs c (within_tx m)
  unfolding within_tx
  within_tx-Runs m first = record {
    at = λ t. elim (Outcome-cases (m t)) [
      | inl (a, t', e) ↦ rw (e, left_by) (rw (e, left_by) at (first.at t))
      | inr (x, t', e) ↦ rw (e, left_by) (c.stay t)
    ];
  }

  pub on_error-Runs : (m : Handler A) (f : Error → Error) → Runs c m → Runs c (on_error m f)
  unfolding on_error
  on_error-Runs m f first = record {
    at = λ t. elim (Outcome-cases (m t)) [
      | inl (a, t', e) ↦ rw (e, left_by) (rw (e, left_by) at (first.at t))
      | inr (x, t', e) ↦ rw (e, left_by) (rw (e, left_by) at (first.at t))
    ];
  }

module _ {c : Closure} where
  pub updates-Runs :
      (w : Tables → Result Tables) → ((t u : Tables) → w t ≡ ok u → c.rel t u) → Runs c (updates w)
  unfolding updates
  updates-Runs w step = record {
    at = λ t. elim (Result-cases (w t)) [
      | inl (x, e) ↦ rw (e, left_by) (c.stay t)
      | inr (u, e) ↦ rw (e, left_by) (step t u e)
    ];
  }

  pub when-Runs : (b : Bool) (m : Handler (Unit {0})) → (b ≡ true → Runs c m) → Runs c (when b m)
  unfolding when
  when-Runs b m first = if-Runs b m (give tt) first (λ _. give-Runs tt)

  pub ignoring-Runs : (m : Handler (Unit {0})) → Runs c m → Runs c (ignoring m)
  unfolding ignoring
  ignoring-Runs m first = record {
    at = λ t. elim (Outcome-cases (m t)) [
      | inl (a, t', e) ↦ rw (e, left_by) (rw (e, left_by) at (first.at t))
      | inr (x, t', e) ↦ rw (e, left_by) (rw (e, left_by) at (first.at t))
    ];
  }

module _ {c : Closure} {A B : Type 0} where
  pub bind-Runs :
      (m : Handler A) (f : A → Handler B) → Runs c m → ((a : A) → Runs c (f a)) → Runs c (m >>= f)
  unfolding ◌>>=◌
  bind-Runs m f first rest = record {
    at = λ t. elim (Outcome-cases (m t)) [
      | inl (a, t', e) ↦
          let start : c.rel t t' = rw (e, left_by) at (first.at t) in
          rw (e, left_by) (c.append t t' (left_by (f a t')) start ((rest a).at t'))
      | inr (x, t', e) ↦ rw (e, left_by) (rw (e, left_by) at (first.at t))
    ];
  }

  -- What follows a read may use what it has read.
  pub after_reads-Runs :
      (r : Tables → Result A) (f : A → Handler B)
      → ((t : Tables) (a : A) → r t ≡ ok a → c.rel t (left_by (f a t)))
      → Runs c (reads r >>= f)
  unfolding ◌>>=◌
  after_reads-Runs r f rest = record {
    at = λ t. elim (Result-cases (r t)) [
      | inl (x, e) ↦ rw (e, left_by) (c.stay t)
      | inr (a, e) ↦ rw (e, left_by) (rest t a e)
    ];
  }

pub ruleset runs_rules = (
  give-Runs, fail-Runs, reads-Runs, if-Runs, when-Runs, within_tx-Runs, on_error-Runs,
  ignoring-Runs, bind-Runs,
)
