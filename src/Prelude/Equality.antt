-- ===== src/Prelude/Equality.antt =====
-- Go's `==` on map keys: one operator for every type that has an instance.
use Prim.Native.Nat.{ℕ}
use Prim.Native.String.{String}
use text.Mathlib.Text.{◌==◌ as str_beq}
use text.Mathlib.TextEquality.{eq_iff}
use mathlib.Core.Path.{◌≡◌, refl}
use mathlib.Core.Logic.{◌↔◌}
use mathlib.Core.Bool.{Bool, true}
use aloqa_claude.Prelude.Tests.{nat_beq, nat_beq_iff}

pub record KeyType {ℓ} (A : Type ℓ) : Type ℓ where
  pub same_key : A → A → Bool
  pub same_key_iff : (a b : A) → (same_key a b ≡ true) ↔ (a ≡ b)

infix 50 ◌==◌
abbrev pub ◌==◌ {ℓ} : {A : Type ℓ} ⦃e : KeyType A⦄ → A → A → Bool
◌==◌ ⦃e⦄ = e.same_key

instance abbrev pub number_key : KeyType ℕ
number_key = record { same_key = nat_beq; same_key_iff = nat_beq_iff }

instance abbrev pub string_key : KeyType String
string_key = record { same_key = str_beq; same_key_iff = eq_iff }

pub same_key_refl {ℓ} : {A : Type ℓ} ⦃e : KeyType A⦄ (a : A) → (a == a) ≡ true
same_key_refl ⦃e⦄ a = (e.same_key_iff a a).1 refl
