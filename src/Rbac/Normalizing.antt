-- ===== src/Rbac/Normalizing.antt =====
-- What `NormalizePermissionStrings` returns.
use aloqa_claude.Prelude.{
  String, ◌≡◌, refl, Bool, true, false, ◌||◌, ◌&&◌, List, [], ◌∷◌, ◌++◌, string_key, ◌==◌, arith,
  contains, not, Option-cases, Bool-cases, inl, inr,
}
use text.Mathlib.Text.{is_le}
use Prim.Native.String
use aloqa_claude.Errors.{Result, ok, err, foreign, nothing}
use aloqa_claude.Rbac.{Permission}
use aloqa_claude.Rbac.Strings.{insert_string, sort_strings}
use aloqa_claude.Rbac.Parsing.{parse_permission, normalize_loop, normalize_permission_strings}
use aloqa_claude.Rbac.Assigned.{lists, all_known}

-- No string stands twice.
abbrev pub distinct : List String → Bool
distinct [] = true
distinct (s ∷ ss) = not (contains ss s) && distinct ss

contains-insert_string :
    (s p : String) (ts : List String) → contains (insert_string s ts) p ≡ (s == p || contains ts p)
unfolding insert_string
contains-insert_string s p [] = refl
contains-insert_string s p (t ∷ ts) = elim (Bool-cases (is_le (String.compare s t))) [
  | inl le ↦ rw (le, insert_string)
  | inr gt ↦ rw (gt, insert_string) (ground (arith, contains-insert_string s p ts))
]

distinct-insert_string :
    (s : String) (ts : List String)
    → contains ts s ≡ false
    → distinct ts ≡ true
    → distinct (insert_string s ts) ≡ true
unfolding insert_string
distinct-insert_string s [] h d = refl
distinct-insert_string s (t ∷ ts) h d = elim (Bool-cases (is_le (String.compare s t))) [
  | inl le ↦ rw (le, insert_string) (rw (h, d))
  | inr gt ↦
      rw (gt, insert_string)
        (ground (
          arith,
          string_key.same_key_iff s t,
          string_key.same_key_iff t s,
          contains-insert_string s t ts,
          distinct-insert_string s ts,
        ))
]

contains-sort_strings :
    (ss : List String) (p : String) → contains (sort_strings ss) p ≡ contains ss p
unfolding sort_strings
contains-sort_strings [] p = refl
contains-sort_strings (s ∷ ss) p =
    ground (arith, contains-insert_string s p (sort_strings ss), contains-sort_strings ss p)

distinct-sort_strings : (ss : List String) → distinct ss ≡ true → distinct (sort_strings ss) ≡ true
unfolding sort_strings
distinct-sort_strings [] d = refl
distinct-sort_strings (s ∷ ss) d =
    distinct-insert_string s (sort_strings ss) (ground (arith, contains-sort_strings ss s))
      (distinct-sort_strings ss (ground arith))

contains-snoc :
    (xs : List String) (s p : String) → contains (xs ++ s ∷ []) p ≡ (s == p || contains xs p)
contains-snoc [] s p = refl
contains-snoc (x ∷ xs) s p = ground (arith, contains-snoc xs s p)

distinct-snoc :
    (xs : List String) (s : String)
    → contains xs s ≡ false
    → distinct xs ≡ true
    → distinct (xs ++ s ∷ []) ≡ true
distinct-snoc [] s h d = refl
distinct-snoc (x ∷ xs) s h d = ground (
  arith,
  string_key.same_key_iff s x,
  string_key.same_key_iff x s,
  contains-snoc xs s x,
  distinct-snoc xs s,
)

-- `unique` and `normalized` hold the same strings throughout.
abbrev Same : List String → List String → Type 0
Same unique normalized = (p : String) → contains unique p ≡ contains normalized p

abbrev pub Normalizes : Result (List String) → (Permission → Bool) → Type 0
Normalizes result expected =
    (out : List String) × (result ≡ ok out)
    × (distinct out ≡ true)
    × ((p : Permission) → contains out p ≡ expected p)

normalize_loop_ok :
    (unique normalized raw : List String)
    → Same unique normalized
    → distinct normalized ≡ true
    → all_known raw ≡ true
    → Normalizes (normalize_loop unique normalized raw) (λ p. lists raw p || contains normalized p)
unfolding normalize_loop
normalize_loop_ok unique normalized [] same d h = (normalized, refl, d, λ p. refl)
normalize_loop_ok unique normalized (value ∷ raw) same d h =
    elim (Option-cases (parse_permission value)) [
      | inl e ↦ ground arith
      | inr (key, e) ↦ elim (Bool-cases (contains unique key)) [
        | inl old ↦
            let (out, eq, dis, spec) =
              normalize_loop_ok unique normalized raw same d (ground arith) in
            (
              out,
              rw (e, normalize_loop) (rw (old, normalize_loop) eq),
              dis,
              λ p. ground (arith, string_key.same_key_iff key p, same key, spec p),
            )
        | inr new ↦
            let (out, eq, dis, spec) =
              normalize_loop_ok (key ∷ unique) (normalized ++ key ∷ []) raw
                (λ p. ground (arith, same p, contains-snoc normalized key p))
                (distinct-snoc normalized key (ground (arith, same key)) d) (ground arith) in
            (
              out,
              rw (e, normalize_loop) (rw (new, normalize_loop) eq),
              dis,
              λ p. ground (arith, contains-snoc normalized key p, spec p),
            )
      ]
    ]

-- When every raw string names a known permission, the result holds exactly the permissions that
-- they name, each of them once.
pub normalize_permission_strings_ok :
    (raw : List String)
    → all_known raw ≡ true
    → Normalizes (normalize_permission_strings raw) (lists raw)
unfolding normalize_permission_strings
normalize_permission_strings_ok raw h =
    let (out, eq, d, spec) = normalize_loop_ok [] [] raw (λ p. refl) refl h in
    (
      sort_strings out,
      rw eq,
      distinct-sort_strings out d,
      λ p. ground (arith, contains-sort_strings out p, spec p),
    )

normalize_loop_unknown :
    (unique normalized raw : List String)
    → all_known raw ≡ false
    → normalize_loop unique normalized raw ≡ err (foreign "invalid permission" nothing)
unfolding normalize_loop
normalize_loop_unknown unique normalized [] h = cc
normalize_loop_unknown unique normalized (value ∷ raw) h =
    elim (Option-cases (parse_permission value)) [
      | inl e ↦ rw (e, normalize_loop)
      | inr (key, e) ↦ elim (Bool-cases (contains unique key)) [
        | inl old ↦
            rw (e, normalize_loop)
              (rw (old, normalize_loop)
                (normalize_loop_unknown unique normalized raw (ground arith)))
        | inr new ↦
            rw (e, normalize_loop)
              (rw (new, normalize_loop)
                (normalize_loop_unknown (key ∷ unique) (normalized ++ key ∷ []) raw (ground arith)))
      ]
    ]

-- One raw string that names no known permission makes the whole call fail.
pub normalize_permission_strings_unknown :
    (raw : List String)
    → all_known raw ≡ false
    → normalize_permission_strings raw ≡ err (foreign "invalid permission" nothing)
unfolding normalize_permission_strings
normalize_permission_strings_unknown raw h = rw (normalize_loop_unknown [] [] raw h)
