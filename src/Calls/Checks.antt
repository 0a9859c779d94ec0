-- ===== src/Calls/Checks.antt =====
-- What a chain of checks that answers `ok` has tested.
use aloqa_claude.Prelude.{◌≡◌, refl, Bool, true, false, not, arith}
use aloqa_claude.Errors.{Error, Result, ok, ◌>>◌}
use aloqa_claude.Collaboration.{check}

-- A check that was passed, and what follows it.
pub passed :
    {A : Type 0} (b : Bool) (e : Error) (m : Result A) (a : A)
    → (check (not b) e >> m) ≡ ok a
    → (b ≡ false) × (m ≡ ok a)
passed false e m a h = (refl, h)
passed true e m a h = absurd (ground (arith, h))

-- The same for a check that is no negation.
pub met :
    {A : Type 0} (b : Bool) (e : Error) (m : Result A) (a : A)
    → (check b e >> m) ≡ ok a
    → (b ≡ true) × (m ≡ ok a)
met true e m a h = (refl, h)
met false e m a h = absurd (ground (arith, h))

pub met_last : (b : Bool) (e : Error) → check b e ≡ ok tt → b ≡ true
met_last true e h = refl
met_last false e h = absurd (ground (arith, h))

pub refused_last : (b : Bool) (e : Error) → check (not b) e ≡ ok tt → b ≡ false
refused_last false e h = refl
refused_last true e h = absurd (ground (arith, h))
