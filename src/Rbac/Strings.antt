-- ===== src/Rbac/Strings.antt =====
-- What the permission code takes of Go's standard library: `strings.TrimSpace`, and `sort.Strings`
-- by insertion (the result of a sort of distinct strings does not depend on the method).
use Prim.Native.Char.{code}
use Prim.Native.String
use Prim.Native.String.{String}
use aloqa_claude.Prelude.{
  ℕ, Bool, true, false, ◌&&◌, ◌||◌, List, [], ◌∷◌, nat_beq, leb, if◌then◌else◌,
}
use text.Mathlib.Text.{is_le}

-- `unicode.IsSpace`
abbrev is_space : ℕ → Bool
is_space c =
    (leb 9 c && leb c 13)
    || nat_beq c 32
    || nat_beq c 133
    || nat_beq c 160
    || nat_beq c 5760
    || (leb 8192 c && leb c 8202)
    || nat_beq c 8232
    || nat_beq c 8233
    || nat_beq c 8239
    || nat_beq c 8287
    || nat_beq c 12288

abbrev is_blank : String → Bool
is_blank String.[] = true
is_blank (String.◌∷◌ c s) = false

unfoldable pub trim_left : String → String
trim_left String.[] = String.[]
trim_left (String.◌∷◌ c s) = if is_space (code c) then trim_left s else String.◌∷◌ c s

unfoldable pub trim_right : String → String
trim_right String.[] = String.[]
trim_right (String.◌∷◌ c s) =
    if is_space (code c) && is_blank (trim_right s) then String.[] else String.◌∷◌ c (trim_right s)

unfoldable pub trim_space : String → String
unfolding trim_left trim_right
trim_space s = trim_right (trim_left s)

unfoldable pub insert_string : String → List String → List String
insert_string s [] = s ∷ []
insert_string s (t ∷ ts) = if is_le (String.compare s t) then s ∷ t ∷ ts else t ∷ insert_string s ts

unfoldable pub sort_strings : List String → List String
unfolding insert_string
sort_strings [] = []
sort_strings (s ∷ ss) = insert_string s (sort_strings ss)
