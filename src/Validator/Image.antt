-- ===== src/Validator/Image.antt =====
-- `imageMatches` and `normalizeImageRef` of internal/validator/runtime_checks.go.
use pacto_operator.Prelude.{String, ◌<>◌, Bool, true, false, ◌&&◌, ◌||◌, not, none, some, ℕ}
use pacto_operator.Prelude.{◌==◌, string_eq, ltb, if◌then◌else◌, has_char, index, last_index, after}
use pacto_operator.Prelude.{take, take_to, drop_past}

abbrev pub slash : ℕ
slash = b'/'

abbrev pub colon : ℕ
colon = b':'

abbrev pub at_sign : ℕ
at_sign = b'@'

abbrev pub dot : ℕ
dot = b'.'

-- `strings.Split(ref, "/")[0]`
abbrev pub first_segment : String → String
first_segment ref = take_to (index slash ref) ref

-- Whether the first path segment is a registry host, by a dot or a port.
unfoldable pub has_registry : String → Bool
has_registry ref =
    has_char slash ref && (has_char dot (first_segment ref) || has_char colon (first_segment ref))

unfoldable pub normalize_image_ref : String → String
normalize_image_ref ref =
    if has_registry ref
    then ref
    else if not (has_char slash ref)
    then "docker.io/library/" <> ref
    else "docker.io/" <> ref

-- `expectedTail`: what follows the last slash.
abbrev pub tail_of : String → String
tail_of ref = drop_past (last_index slash ref) ref

-- Whether the part after the last slash has a tag or a digest.
unfoldable pub has_tag : String → Bool
has_tag ref = has_char colon (tail_of ref) || has_char at_sign (tail_of ref)

-- `ref[:i]` for a last colon that is a tag's, and `ref` without one.
unfoldable pub drop_tag : String → String
drop_tag ref =
    if after (last_index colon ref) (last_index slash ref)
    then take_to (last_index colon ref) ref
    else ref

-- `actualRepo`: a digest is cut from the whole reference, with a tag before it kept.
unfoldable pub actual_repo : String → String
actual_repo actual = elim (index at_sign actual) [
  | none ↦ drop_tag actual
  | some i ↦ if ltb 0 i then take i actual else drop_tag actual
]

-- The part of `imageMatches` behind the normalization.
unfoldable pub matches_normalized : String → String → Bool
matches_normalized expected actual =
    if expected == actual
    then true
    else if has_tag expected
    then false
    else expected == actual_repo actual

unfoldable pub image_matches : String → String → Bool
image_matches expected actual =
    if expected == actual
    then true
    else matches_normalized (normalize_image_ref expected) (normalize_image_ref actual)
