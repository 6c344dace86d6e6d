-- ===== src/Loader/Repository.antt =====
-- The repository of a reference: to strip the scheme and to cut the digest and the tag commute.
use Prim.Native.Char.{Char, code}
use text.Mathlib.TextEquality.{Char-path}
use text.Mathlib.TextLemmas.{cons-append, nil-append}
use pacto_operator.Prelude.{String, ◌<>◌, Option, none, some, ◌≡◌, refl, ◌∙◌, ℕ, zero, suc, arith}
use pacto_operator.Prelude.{
  Bool-cases, eqb, Option-cases, inl, inr, ap, sym, if_intro, index, last_index, take, take_to,
  strip_prefix, trim_prefix, after,
}
use pacto_operator.Prelude.TextLaws.{◌∷ₛ◌}
use pacto_operator.Validator.Image.{drop_tag}

-- A reference without its digest and its tag.
abbrev pub repository : String → String
repository ref = drop_tag (take_to (index 64 ref) ref)

strip_prefix-take :
    (p : String) (i : ℕ) (s : String) → strip_prefix p s ≡ none → strip_prefix p (take i s) ≡ none
unfolding strip_prefix take
strip_prefix-take String.[] i s h = absurd (ground arith)
strip_prefix-take (String.◌∷◌ q p) zero s h = refl
strip_prefix-take (String.◌∷◌ q p) (suc i) String.[] h = refl
strip_prefix-take (String.◌∷◌ q p) (suc i) (String.◌∷◌ x s) h =
    ground (arith, strip_prefix-take p i s)

strip_prefix-take_to :
    (p : String) (i : Option ℕ) (s : String)
    → strip_prefix p s ≡ none
    → strip_prefix p (take_to i s) ≡ none
strip_prefix-take_to p none s h = h
strip_prefix-take_to p (some i) s h = strip_prefix-take p i s h

strip_prefix-drop_tag :
    (p ref : String) → strip_prefix p ref ≡ none → strip_prefix p (drop_tag ref) ≡ none
unfolding drop_tag
strip_prefix-drop_tag p ref h =
    if_intro (λ (s : String). strip_prefix p s ≡ none)
      (after (last_index 58 ref) (last_index 47 ref))
      (strip_prefix-take_to p (last_index 58 ref) ref h) h

strip_prefix-repository :
    (p ref : String) → strip_prefix p ref ≡ none → strip_prefix p (repository ref) ≡ none
strip_prefix-repository p ref h =
    strip_prefix-drop_tag p _ (strip_prefix-take_to p (index 64 ref) ref h)

-- The scheme in front of a reference, character by character.
abbrev with_scheme : String → String
with_scheme s = "o" ∷ₛ "c" ∷ₛ "i" ∷ₛ ":" ∷ₛ "/" ∷ₛ "/" ∷ₛ s

same_head : (q y : Char) (s t : String) → code q ≡ code y → s ≡ t → (y ∷ₛ s) ≡ (q ∷ₛ t)
same_head q y s t h e =
    ap (λ (c : Char). c ∷ₛ s) (Char-path y q (sym h)) ∙ ap (λ (r : String). q ∷ₛ r) e

strip_prefix-some : (p s x : String) → strip_prefix p s ≡ some x → s ≡ p <> x
unfolding strip_prefix
strip_prefix-some String.[] s x h = ground (arith, nil-append x)
strip_prefix-some (String.◌∷◌ q p) String.[] x h = absurd (ground arith)
strip_prefix-some (String.◌∷◌ q p) (String.◌∷◌ y s) x h =
    elim (Bool-cases (eqb (code q) (code y))) [
      | inl e ↦
          same_head q y s (p <> x) (ground arith) (strip_prefix-some p s x (ground arith))
          ∙ sym (cons-append q p x)
      | inr e ↦ absurd (ground arith)
    ]

scheme_append : (s : String) → "oci://" <> s ≡ with_scheme s
scheme_append s =
    rw (cons-append, cons-append, cons-append, cons-append, cons-append, cons-append, nil-append)
      refl

take_to-with_scheme :
    (s : String)
    → take_to (index 64 (with_scheme s)) (with_scheme s) ≡ with_scheme (take_to (index 64 s) s)
unfolding index take
take_to-with_scheme s = elim (Option-cases (index 64 s)) [
  | inl e ↦ rw e refl
  | inr (i, e) ↦ rw e refl
]

drop_tag-with_scheme : (s : String) → drop_tag (with_scheme s) ≡ with_scheme (drop_tag s)
unfolding drop_tag last_index take
drop_tag-with_scheme s = elim (Option-cases (last_index 58 s)) [
  | inl e ↦ elim (Option-cases (last_index 47 s)) [
    | inl k ↦ rw (drop_tag, e, k) refl
    | inr (j, k) ↦ rw (drop_tag, e, k) (ground arith)
  ]
  | inr (i, e) ↦ elim (Option-cases (last_index 47 s)) [
    | inl k ↦ rw (drop_tag, e, k) (ground arith)
    | inr (j, k) ↦ rw (drop_tag, e, k) (ground arith)
  ]
]

repository-with_scheme : (s : String) → repository (with_scheme s) ≡ with_scheme (repository s)
repository-with_scheme s =
    ap drop_tag (take_to-with_scheme s) ∙ drop_tag-with_scheme (take_to (index 64 s) s)

trim_prefix-with_scheme : (s : String) → trim_prefix "oci://" (with_scheme s) ≡ s
unfolding trim_prefix strip_prefix
trim_prefix-with_scheme s = refl

trim_prefix-none : (p s : String) → strip_prefix p s ≡ none → trim_prefix p s ≡ s
unfolding trim_prefix
trim_prefix-none p s h = rw (trim_prefix, h) refl

-- The repository without the scheme is that of the reference without the scheme.
pub repository-trim_prefix :
    (ref : String) → repository (trim_prefix "oci://" ref) ≡ trim_prefix "oci://" (repository ref)
repository-trim_prefix ref = elim (Option-cases (strip_prefix "oci://" ref)) [
  | inl e ↦
      ap repository (trim_prefix-none "oci://" ref e)
      ∙ sym (trim_prefix-none "oci://" (repository ref) (strip_prefix-repository "oci://" ref e))
  | inr (s, e) ↦
      let spelled = strip_prefix-some "oci://" ref s e ∙ scheme_append s in
      ap (λ (r : String). repository (trim_prefix "oci://" r)) spelled
      ∙ ap repository (trim_prefix-with_scheme s)
      ∙ sym (trim_prefix-with_scheme (repository s))
      ∙ ap (trim_prefix "oci://") (sym (repository-with_scheme s))
      ∙ ap (λ (r : String). trim_prefix "oci://" (repository r)) (sym spelled)
]
