-- ===== src/Command/Secrets.antt =====
-- The list of Secrets that the flag --dashboard-oci-secrets of cmd/main.go names.
pub mod Names
use Prim.Native.Char.{Char, code}
use pacto_operator.Prelude.{
  String, ◌<>◌, Bool, true, false, ◌&&◌, ◌||◌, List, [], ◌∷◌, ◌≡◌, ◌≢◌, refl, ap, ◌∙◌, sym, arith,
  ℕ, eqb,
}
use pacto_operator.Prelude.{
  ◌==◌, ◌!=◌, string_eq, if◌then◌else◌, trim_space, trim_space_left, trim_space_right, is_space,
  is_nil_text, has_char, All, cons_if, inl, inr, Bool-cases,
}
use text.Mathlib.TextLemmas.{nil-append, cons-append}
use pacto_operator.Prelude.TextLaws.{◌∷ₛ◌}

-- `strings.Split(s, c)` for one character, here as its first part and the list of the others.
unfoldable pub cut : ℕ → String → String × List String
cut c String.[] = (String.[], [])
cut c (String.◌∷◌ x s) =
    let rest = cut c s in
    if eqb (code x) c then (String.[], rest.0 ∷ rest.1) else (String.◌∷◌ x rest.0, rest.1)

abbrev pub split : ℕ → String → List String
split c s = (cut c s).0 ∷ (cut c s).1

-- The names that are not blank, without the space around them.
unfoldable pub trimmed_names : List String → List String
trimmed_names [] = []
trimmed_names (s ∷ ss) =
    let trimmed = trim_space s in cons_if (trimmed != "") trimmed (trimmed_names ss)

-- `parsedOCISecrets`
unfoldable pub parse_oci_secrets : String → List String
parse_oci_secrets flag = if flag != "" then trimmed_names (split 44 flag) else []
