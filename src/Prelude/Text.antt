-- ===== src/Prelude/Text.antt =====
-- Go strings as native texts, and the functions of package `strings` that the source calls with a
-- one-character argument or a fixed prefix. Offsets count characters where Go counts bytes; every
-- separator is ASCII, so both cut a text at the same place.
use Prim.Native.Nat.{ℕ, zero, suc}
use Prim.Native.Char.{Char, code}
use Prim.Native.String.{String, compare}
use Prim.Native.Nat.{Ordering}
use mathlib.Core.List.{List, [], ◌∷◌}
use mathlib.Core.Bool.{Bool, true, false, ◌||◌, ◌&&◌}
use mathlib.Core.Option.{Option, none, some}
use pacto_operator.Prelude.Equality.{ltb, leb, eqb, if◌then◌else◌}

abbrev pub empty : String
empty = ""

-- `strings.Contains(s, c)`
unfoldable pub has_char : ℕ → String → Bool
has_char c String.[] = false
has_char c (String.◌∷◌ x s) = eqb (code x) c || has_char c s

-- `strings.Index(s, c)`, with `none` for -1.
unfoldable pub index : ℕ → String → Option ℕ
index c String.[] = none
index c (String.◌∷◌ x s) =
    let rest = index c s in
    if eqb (code x) c then some 0 else elim rest [ none ↦ none | some i ↦ some (suc i) ]

-- `strings.LastIndex(s, c)`, with `none` for -1.
unfoldable pub last_index : ℕ → String → Option ℕ
last_index c String.[] = none
last_index c (String.◌∷◌ x s) = elim (last_index c s) [
  | some i ↦ some (suc i)
  | none ↦ if eqb (code x) c then some 0 else none
]

-- `i > j` between results of `Index` and `LastIndex`.
abbrev pub after : Option ℕ → Option ℕ → Bool
after none j = false
after (some i) none = true
after (some i) (some j) = ltb j i

-- `s[:n]`
unfoldable pub take : ℕ → String → String
take zero s = String.[]
take (suc n) String.[] = String.[]
take (suc n) (String.◌∷◌ x s) = String.◌∷◌ x (take n s)

-- `s[n:]`
unfoldable pub drop : ℕ → String → String
drop zero s = s
drop (suc n) String.[] = String.[]
drop (suc n) (String.◌∷◌ x s) = drop n s

-- `s[:i]` where `i` was found, and `s` where it was not.
abbrev pub take_to : Option ℕ → String → String
take_to none s = s
take_to (some i) s = take i s

-- `s[i+1:]` where `i` was found, and `s` where it was not.
abbrev pub drop_past : Option ℕ → String → String
drop_past none s = s
drop_past (some i) s = drop (suc i) s

-- `strings.TrimPrefix(s, prefix)`; `none` while the prefix does not match.
unfoldable pub strip_prefix : String → String → Option String
strip_prefix String.[] s = some s
strip_prefix (String.◌∷◌ p ps) String.[] = none
strip_prefix (String.◌∷◌ p ps) (String.◌∷◌ x s) =
    let rest = strip_prefix ps s in if eqb (code p) (code x) then rest else none

unfoldable pub trim_prefix : String → String → String
unfolding strip_prefix
trim_prefix p s = elim (strip_prefix p s) [ none ↦ s | some r ↦ r ]

unfoldable pub has_prefix : String → String → Bool
unfolding strip_prefix
has_prefix p s = elim (strip_prefix p s) [ none ↦ false | some _ ↦ true ]

-- `strings.Contains(s, t)`
unfoldable pub contains : String → String → Bool
unfolding has_prefix
contains t String.[] = has_prefix t String.[]
contains t (String.◌∷◌ x s) = has_prefix t (String.◌∷◌ x s) || contains t s

-- `strings.LastIndex(s, t)` for a text `t` that is not empty, with `none` for -1.
unfoldable pub last_index_of : String → String → Option ℕ
unfolding has_prefix
last_index_of t String.[] = none
last_index_of t (String.◌∷◌ x s) = elim (last_index_of t s) [
  | some i ↦ some (suc i)
  | none ↦ if has_prefix t (String.◌∷◌ x s) then some 0 else none
]

-- `strings.ReplaceAll(s, c, d)` for two characters.
unfoldable pub replace_char : ℕ → Char → String → String
replace_char c d String.[] = String.[]
replace_char c d (String.◌∷◌ x s) =
    String.◌∷◌ (if eqb (code x) c then d else x) (replace_char c d s)

-- `strings.Index(s, t)` for a text `t` that is not empty, with `none` for -1.
unfoldable pub index_of : String → String → Option ℕ
unfolding has_prefix
index_of t String.[] = none
index_of t (String.◌∷◌ x s) =
    let rest = index_of t s in
    if has_prefix t (String.◌∷◌ x s)
    then some 0
    else elim rest [ none ↦ none | some i ↦ some (suc i) ]

abbrev pub is_nil_text : String → Bool
is_nil_text String.[] = true
is_nil_text (String.◌∷◌ x s) = false

-- `strings.TrimRight(s, c)` for one character.
unfoldable pub trim_right : ℕ → String → String
trim_right c String.[] = String.[]
trim_right c (String.◌∷◌ x s) =
    let rest = trim_right c s in
    if is_nil_text rest && eqb (code x) c then String.[] else String.◌∷◌ x rest

-- The characters that `strings.TrimSpace` cuts, by Unicode's White_Space.
abbrev pub is_space : ℕ → Bool
is_space c =
    (leb 9 c && leb c 13)
    || eqb c 32
    || eqb c 133
    || eqb c 160
    || eqb c 5760
    || (leb 8192 c && leb c 8202)
    || eqb c 8232
    || eqb c 8233
    || eqb c 8239
    || eqb c 8287
    || eqb c 12288

unfoldable pub trim_space_left : String → String
trim_space_left String.[] = String.[]
trim_space_left (String.◌∷◌ x s) =
    let rest = trim_space_left s in if is_space (code x) then rest else String.◌∷◌ x s

unfoldable pub trim_space_right : String → String
trim_space_right String.[] = String.[]
trim_space_right (String.◌∷◌ x s) =
    let rest = trim_space_right s in
    if is_nil_text rest && is_space (code x) then String.[] else String.◌∷◌ x rest

-- `strings.TrimSpace`
abbrev pub trim_space : String → String
trim_space s = trim_space_right (trim_space_left s)

-- `sort.Strings`; the order of the bytes is the order of the characters.
unfoldable pub insert_sorted : String → List String → List String
insert_sorted s [] = s ∷ []
insert_sorted s (t ∷ ts) =
    let rest = insert_sorted s ts in elim (compare s t) [ Ordering.gt ↦ t ∷ rest | _ ↦ s ∷ t ∷ ts ]

unfoldable pub sort_strings : List String → List String
unfolding insert_sorted
sort_strings [] = []
sort_strings (s ∷ ss) = insert_sorted s (sort_strings ss)
