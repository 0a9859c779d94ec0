-- ===== src/Prelude/Maps.antt =====
-- A Go map as an association list. Go leaves the order of iteration open: a law that is stated for
-- every list is a law for every order.
use mathlib.Core.Path.{◌≡◌, refl}
use mathlib.Core.Bool.{Bool, true, false}
use mathlib.Core.Option.{Option, none, some}
use mathlib.Core.List.{List, [], ◌∷◌}
use native.Mathlib.Omega.{arith}
use aloqa_claude.Prelude.Equality.{KeyType, ◌==◌}
use mathlib.Core.Path.{subst, sym}
use mathlib.Core.Logic.{inl, inr}
use aloqa_claude.Prelude.Lists.{All}
use aloqa_claude.Prelude.Tests.{Bool-cases, if◌then◌else◌, is_some}

abbrev pub Dict {ℓ κ} : Type ℓ → Type κ → Type (ℓ ⊔ κ)
Dict K V = List (K × V)

module _ {ℓ κ} {K : Type ℓ} {V : Type κ} ⦃e : KeyType K⦄ where
  abbrev pub lookup : K → Dict K V → Option V
  lookup k [] = none
  lookup k ((j, v) ∷ d) = if j == k then some v else lookup k d

  -- `_, ok := d[k]`
  abbrev pub has_key : K → Dict K V → Bool
  has_key k d = is_some (lookup k d)

  -- `d[k] = v`
  abbrev pub insert : K → V → Dict K V → Dict K V
  insert k v [] = (k, v) ∷ []
  insert k v ((j, w) ∷ d) = if j == k then (j, v) ∷ d else (j, w) ∷ insert k v d

  -- `delete(d, k)`
  abbrev pub erase : K → Dict K V → Dict K V
  erase k [] = []
  erase k ((j, w) ∷ d) = if j == k then erase k d else (j, w) ∷ erase k d

  pub lookup-insert :
      (k j : K) (v : V) (d : Dict K V)
      → lookup j (insert k v d) ≡ (if k == j then some v else lookup j d)
  lookup-insert k j v [] = refl
  lookup-insert k j v ((i, w) ∷ d) =
      ground
        (arith, e.same_key_iff k j, e.same_key_iff i k, e.same_key_iff i j, lookup-insert k j v d)

  pub lookup-erase :
      (k j : K) (d : Dict K V) → lookup j (erase k d) ≡ (if k == j then none else lookup j d)
  lookup-erase k j [] = ground arith
  lookup-erase k j ((i, w) ∷ d) =
      ground (arith, e.same_key_iff k j, e.same_key_iff i k, e.same_key_iff i j, lookup-erase k j d)

  -- Every key stands once, as in a Go map.
  abbrev pub Distinct : Dict K V → Type 0
  Distinct [] = Unit
  Distinct ((k, v) ∷ d) = (has_key k d ≡ false) × Distinct d

  pub has_key-insert :
      (k j : K) (v : V) (d : Dict K V)
      → has_key j (insert k v d) ≡ (if k == j then true else has_key j d)
  has_key-insert k j v d = ground (arith, lookup-insert k j v d)

  pub Distinct-insert : (k : K) (v : V) (d : Dict K V) → Distinct d → Distinct (insert k v d)
  Distinct-insert k v [] h = (refl, tt)
  Distinct-insert k v ((j, w) ∷ d) h = ground (
    arith,
    e.same_key_iff j k,
    e.same_key_iff k j,
    has_key-insert k j v d,
    Distinct-insert k v d h.1,
  )

  pub has_key-erase :
      (k j : K) (d : Dict K V) → has_key j (erase k d) ≡ (if k == j then false else has_key j d)
  has_key-erase k j d = ground (arith, lookup-erase k j d)

  -- A property of the entries that a new entry has too is kept by an insertion.
  pub All-insert :
      (P : K × V → Type 0) (k : K) (v : V) (d : Dict K V)
      → All P d
      → P (k, v)
      → All P (insert k v d)
  All-insert P k v [] h p = (p, tt)
  All-insert P k v ((j, w) ∷ d) h p = elim (Bool-cases (j == k)) [
    | inl same ↦ rw same (subst (λ i. P (i, v)) (sym ((e.same_key_iff j k).0 same)) p, h.1)
    | inr other ↦ rw other (h.0, All-insert P k v d h.1 p)
  ]

  pub All-erase : (P : K × V → Type 0) (k : K) (d : Dict K V) → All P d → All P (erase k d)
  All-erase P k [] h = tt
  All-erase P k ((j, w) ∷ d) h = elim (Bool-cases (j == k)) [
    | inl same ↦ rw same (All-erase P k d h.1)
    | inr other ↦ rw other (h.0, All-erase P k d h.1)
  ]

  pub All-lookup :
      (P : K × V → Type 0) (k : K) (v : V) (d : Dict K V) → All P d → lookup k d ≡ some v → P (k, v)
  All-lookup P k v [] h q = cc
  All-lookup P k v ((j, w) ∷ d) h q = elim (Bool-cases (j == k)) [
    | inl same ↦
        let found : w ≡ v = ground (arith, same, q) in
        subst (λ x. P (k, x)) found (subst (λ i. P (i, w)) ((e.same_key_iff j k).0 same) h.0)
    | inr other ↦ All-lookup P k v d h.1 (ground (arith, other, q))
  ]
