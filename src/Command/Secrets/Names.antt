-- ===== src/Command/Secrets/Names.antt =====
-- A list of names is read from the flag as it was written.
use Prim.Native.Char.{code}
use pacto_operator.Prelude.{
  String, Bool, ◌<>◌, true, false, List, [], ◌∷◌, ◌≡◌, ◌≢◌, refl, ap, ◌∙◌, sym, subst, arith, ℕ,
}
use pacto_operator.Prelude.{
  ◌!=◌, string_eq, trim_space, trim_space_left, trim_space_right, has_char, All, cons_if, if_false,
  eqb,
}
use text.Mathlib.TextLemmas.{nil-append, cons-append}
use pacto_operator.Prelude.TextLaws.{◌∷ₛ◌}
use pacto_operator.Command.Secrets.{cut, split, trimmed_names, parse_oci_secrets}

-- `strings.Join(parts, ",")`
abbrev pub join_names : List String → String
join_names [] = ""
join_names (n ∷ []) = n
join_names (n ∷ m ∷ ms) = n <> ("," ∷ₛ join_names (m ∷ ms))

-- A name that has no comma, and no space around it.
pub record IsName (n : String) : Type 0 where
  pub nonempty : n ≢ ""
  pub trimmed : trim_space n ≡ n
  pub no_comma : has_char 44 n ≡ false

cut_plain : (c : ℕ) (s : String) → has_char c s ≡ false → cut c s ≡ (s, [])
unfolding cut has_char
cut_plain c String.[] h = refl
cut_plain c (String.◌∷◌ x s) h =
    rw (cut_plain c s (ground arith)) (if_false (eqb (code x) c) _ _ (ground arith))

cut-append :
    (s t : String)
    → has_char 44 s ≡ false
    → cut 44 (s <> ("," ∷ₛ t)) ≡ (s, (cut 44 t).0 ∷ (cut 44 t).1)
unfolding cut has_char
cut-append String.[] t h = rw nil-append refl
cut-append (String.◌∷◌ x s) t h =
    rw (cons-append, cut)
      (rw (cut-append s t (ground arith)) (if_false (eqb (code x) 44) _ _ (ground arith)))

split-join_names :
    (n : String) (ns : List String) → All IsName (n ∷ ns) → split 44 (join_names (n ∷ ns)) ≡ n ∷ ns
split-join_names n [] h = ap (λ (r : String × List String). r.0 ∷ r.1) (cut_plain 44 n h.0.no_comma)
split-join_names n (m ∷ ms) h =
    ap (λ (r : String × List String). r.0 ∷ r.1) (cut-append n (join_names (m ∷ ms)) h.0.no_comma)
    ∙ ap (λ (r : List String). n ∷ r) (split-join_names m ms h.1)

trimmed_names_plain : (ns : List String) → All IsName ns → trimmed_names ns ≡ ns
unfolding trimmed_names
trimmed_names_plain [] h = refl
trimmed_names_plain (n ∷ ns) h =
    rw (trimmed_names_plain ns h.1, h.0.trimmed)
      (ap (λ (b : Bool). cons_if b n ns) (not_blank h.0.nonempty))
  where
    not_blank : n ≢ "" → (n != "") ≡ true
    not_blank filled = ground arith

-- The empty flag has one part, which is blank.
no_names : parse_oci_secrets "" ≡ trimmed_names (split 44 "")
unfolding parse_oci_secrets trimmed_names cut string_eq trim_space_left trim_space_right
no_names = refl

parse_oci_secrets_lem : (flag : String) → parse_oci_secrets flag ≡ trimmed_names (split 44 flag)
unfolding parse_oci_secrets
parse_oci_secrets_lem flag = elim (string_eq.dec flag "") [
  | yes e ↦ subst (λ s. parse_oci_secrets s ≡ trimmed_names (split 44 s)) (sym e) no_names
  | no n ↦ ground arith
]

parse_empty : parse_oci_secrets "" ≡ []
unfolding parse_oci_secrets string_eq
parse_empty = refl

-- For every list of names that are not blank, have no space around them and no comma: the flag with
-- the names, joined by commas, is read as the list.
pub parse_oci_secrets-join_names :
    (ns : List String) → All IsName ns → parse_oci_secrets (join_names ns) ≡ ns
parse_oci_secrets-join_names [] h = parse_empty
parse_oci_secrets-join_names (n ∷ ns) h =
    parse_oci_secrets_lem (join_names (n ∷ ns))
    ∙ ap trimmed_names (split-join_names n ns h)
    ∙ trimmed_names_plain (n ∷ ns) h
