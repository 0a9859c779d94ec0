-- ===== src/Prelude/Int.antt =====
-- Go's `int`, where the code tests its sign.
use Prim.Native.Nat.{ℕ}
use mathlib.Core.Bool.{Bool, true, false}
use aloqa_claude.Prelude.Tests.{leb, ltb}

-- `negsuc n` is -(n + 1).
pub data ℤ : Type 0 where
  pos : ℕ → ℤ
  negsuc : ℕ → ℤ

-- `0 < i`
abbrev pub is_positive : ℤ → Bool
is_positive (pos n) = ltb 0 n
is_positive (negsuc _) = false

-- `i < 0`
abbrev pub is_negative : ℤ → Bool
is_negative (pos _) = false
is_negative (negsuc _) = true

-- `i <= n`
abbrev pub at_most : ℤ → ℕ → Bool
at_most (pos i) n = leb i n
at_most (negsuc _) n = true
