-- ===== src/Validator/ImageLaws.antt =====
-- When two image references match.
use Prim.Native.Char.{Char}
use text.Mathlib.TextLemmas.{nil-append, cons-append, append_assoc}
use pacto_operator.Prelude.{String, ◌<>◌, true, false, ◌||◌}
use pacto_operator.Prelude.{◌≡◌, refl, ◌∙◌, ap, ◌↔◌, ◌<◌, arith, string_eq, Bool-cases, inl, inr}
use pacto_operator.Prelude.{has_char, last_index, take, drop, Option-cases}
use pacto_operator.Prelude.TextLaws.{
  ◌∷ₛ◌, chars, has_char-append, take-append, index-none, index-append, last_index-append,
  last_index-append_left, last_index_found, last_index-lt_chars, take-index-append_left,
}
use pacto_operator.Validator.Image.{
  slash, colon, at_sign, has_registry, normalize_image_ref, tail_of, has_tag, drop_tag, actual_repo,
  matches_normalized, image_matches,
}

abbrev slash_char : Char
slash_char = "/"

cons_slash : (r : String) → "/" <> r ≡ slash_char ∷ₛ r
cons_slash r = cons-append slash_char "" r ∙ ap (λ t. slash_char ∷ₛ t) (nil-append r)

docker_split : (r : String) → "docker.io/" <> r ≡ "docker.io" <> (slash_char ∷ₛ r)
docker_split r = append_assoc "docker.io" "/" r ∙ ap (λ t. "docker.io" <> t) (cons_slash r)

library_split :
    (r : String)
    → "docker.io/library/" <> r ≡ "docker.io" <> (slash_char ∷ₛ ("library" <> (slash_char ∷ₛ r)))
library_split r =
    append_assoc "docker.io/" "library/" r
    ∙ docker_split ("library/" <> r)
    ∙ ap (λ t. "docker.io" <> (slash_char ∷ₛ t))
        (append_assoc "library" "/" r ∙ ap (λ t. "library" <> t) (cons_slash r))

-- A reference that begins with a host has a registry.
host-has_registry : (r : String) → has_registry ("docker.io" <> (slash_char ∷ₛ r)) ≡ true
unfolding has_registry has_char take chars
host-has_registry r =
    rw
      (
        has_char-append slash "docker.io" (slash_char ∷ₛ r),
        index-append slash "docker.io" r slash_char refl refl,
        take-append "docker.io" (slash_char ∷ₛ r),
      )
      refl

docker-has_registry : (r : String) → has_registry ("docker.io/" <> r) ≡ true
docker-has_registry r = rw (docker_split r) (host-has_registry r)

library-has_registry : (r : String) → has_registry ("docker.io/library/" <> r) ≡ true
library-has_registry r = rw (library_split r) (host-has_registry ("library" <> (slash_char ∷ₛ r)))

normalize-has_registry : (ref : String) → has_registry (normalize_image_ref ref) ≡ true
unfolding normalize_image_ref
normalize-has_registry ref = elim (Bool-cases (has_registry ref)) [
  | inl h ↦ rw (h) h
  | inr h ↦ rw (h) (elim (Bool-cases (has_char slash ref)) [
    | inl s ↦ rw (s) (docker-has_registry ref)
    | inr s ↦ rw (s) (library-has_registry ref)
  ])
]

normalize_of_registry : (ref : String) → has_registry ref ≡ true → normalize_image_ref ref ≡ ref
unfolding normalize_image_ref
normalize_of_registry ref h = rw h

-- For every reference, normalizing twice is normalizing once.
pub normalize_image_ref_idem :
    (ref : String) → normalize_image_ref (normalize_image_ref ref) ≡ normalize_image_ref ref
normalize_image_ref_idem ref = normalize_of_registry _ (normalize-has_registry ref)

-- A continuation without a slash leaves the registry as it is.
has_registry-append :
    (ref t : String) → has_char slash t ≡ false → has_registry (ref <> t) ≡ has_registry ref
unfolding has_registry
has_registry-append ref t h = elim (Bool-cases (has_char slash ref)) [
  | inl s ↦ rw (has_char-append slash ref t, s, take-index-append_left slash ref t s)
  | inr s ↦ rw (has_char-append slash ref t, s, h)
]

normalize-append :
    (ref t : String)
    → has_char slash t ≡ false
    → normalize_image_ref (ref <> t) ≡ normalize_image_ref ref <> t
unfolding normalize_image_ref
normalize-append ref t h =
    rw (has_registry-append ref t h, has_char-append slash ref t, h)
      (ground (arith, append_assoc "docker.io/" ref t, append_assoc "docker.io/library/" ref t))

tail_of-slash : (r : String) → tail_of (slash_char ∷ₛ r) ≡ tail_of r
unfolding last_index drop
tail_of-slash r = elim (Option-cases (last_index slash r)) [ inl n ↦ rw n | inr (i, e) ↦ rw e ]

tail_of-cons :
    (y : Char) (s : String) → has_char slash s ≡ true → tail_of (String.◌∷◌ y s) ≡ tail_of s
unfolding last_index drop
tail_of-cons y s h = let (i, e) = last_index_found slash s h in rw e

tail_of-append : (s r : String) → tail_of (s <> (slash_char ∷ₛ r)) ≡ tail_of r
unfolding has_char
tail_of-append String.[] r = rw nil-append (tail_of-slash r)
tail_of-append (String.◌∷◌ y s) r = rw cons-append (
    tail_of-cons y _ (has_char-append slash s (slash_char ∷ₛ r) ∙ ground arith)
    ∙ tail_of-append s r)

tail_of-docker : (ref : String) → tail_of ("docker.io/" <> ref) ≡ tail_of ref
tail_of-docker ref = rw (docker_split ref) (tail_of-append "docker.io" ref)

tail_of-library : (ref : String) → tail_of ("docker.io/library/" <> ref) ≡ tail_of ref
tail_of-library ref =
    rw (library_split ref)
      (tail_of-append "docker.io" ("library" <> (slash_char ∷ₛ ref)) ∙ tail_of-append "library" ref)

has_tag-docker : (ref : String) → has_tag ("docker.io/" <> ref) ≡ has_tag ref
unfolding has_tag
has_tag-docker ref = ap (λ t. has_char colon t || has_char at_sign t) (tail_of-docker ref)

has_tag-library : (ref : String) → has_tag ("docker.io/library/" <> ref) ≡ has_tag ref
unfolding has_tag
has_tag-library ref = ap (λ t. has_char colon t || has_char at_sign t) (tail_of-library ref)

has_tag-normalize : (ref : String) → has_tag (normalize_image_ref ref) ≡ has_tag ref
unfolding normalize_image_ref
has_tag-normalize ref = ground (arith, has_tag-docker ref, has_tag-library ref)

has_at-normalize :
    (ref : String) → has_char at_sign (normalize_image_ref ref) ≡ has_char at_sign ref
unfolding normalize_image_ref has_char
has_at-normalize ref = ground (
  arith,
  has_char-append at_sign "docker.io/" ref,
  has_char-append at_sign "docker.io/library/" ref,
)

abbrev colon_char : Char
colon_char = ":"

abbrev at_char : Char
at_char = "@"

drop_tag-tag :
    (repo tag : String)
    → has_char slash tag ≡ false
    → has_char colon tag ≡ false
    → drop_tag (repo <> (colon_char ∷ₛ tag)) ≡ repo
unfolding drop_tag has_char
drop_tag-tag repo tag s d =
    rw
      (
        last_index-append colon repo tag colon_char refl d,
        last_index-append_left slash repo (colon_char ∷ₛ tag) s,
        take-append repo (colon_char ∷ₛ tag),
      )
      (elim (Option-cases (last_index slash repo)) [
        | inl n ↦ rw n
        | inr (i, e) ↦ rw e (ground (arith, last_index-lt_chars slash repo i e))
      ])

-- What is cut from a reference with a tag is its repository.
actual_repo-tag :
    (repo tag : String)
    → has_char at_sign repo ≡ false
    → has_char at_sign tag ≡ false
    → has_char slash tag ≡ false
    → has_char colon tag ≡ false
    → actual_repo (repo <> (colon_char ∷ₛ tag)) ≡ repo
unfolding actual_repo has_char
actual_repo-tag repo tag a b s d =
    let no_at : has_char at_sign (repo <> (colon_char ∷ₛ tag)) ≡ false =
      has_char-append at_sign repo (colon_char ∷ₛ tag) ∙ ground arith in
    rw (index-none at_sign _ no_at, actual_repo) (drop_tag-tag repo tag s d)

chars_pos : (s : String) → has_char slash s ≡ true → 0 < chars s
unfolding has_char chars
chars_pos String.[] h = ground arith
chars_pos (String.◌∷◌ x s) h = omega arith

chars-normalize : (ref : String) → 0 < chars (normalize_image_ref ref)
unfolding has_registry
chars-normalize ref = chars_pos _ (ground (arith, normalize-has_registry ref))

-- A digest is cut from the first `@` on.
actual_repo-digest :
    (repo digest : String)
    → 0 < chars repo
    → has_char at_sign repo ≡ false
    → actual_repo (repo <> (at_char ∷ₛ digest)) ≡ repo
unfolding actual_repo
actual_repo-digest repo digest p a =
    rw (index-append at_sign repo digest at_char refl a, actual_repo)
      (ground (arith, take-append repo (at_char ∷ₛ digest)))

-- A reference without a tag or a digest matches its repository with any tag.
matches_normalized-tag :
    (repo tag : String)
    → has_tag repo ≡ false
    → has_char at_sign repo ≡ false
    → has_char at_sign tag ≡ false
    → has_char slash tag ≡ false
    → has_char colon tag ≡ false
    → matches_normalized repo (repo <> (colon_char ∷ₛ tag)) ≡ true
unfolding matches_normalized
matches_normalized-tag repo tag t a b s d = rw (t, actual_repo-tag repo tag a b s d) (ground arith)

-- For a declared reference with no tag and no `@`, and a tag with no `:`, `/` or `@` in it: the
-- declared image matches a container that runs any such tag of it.
pub image_matches-any_tag :
    (repo tag : String)
    → has_tag repo ≡ false
    → has_char at_sign repo ≡ false
    → has_char at_sign tag ≡ false
    → has_char slash tag ≡ false
    → has_char colon tag ≡ false
    → image_matches repo (repo <> (colon_char ∷ₛ tag)) ≡ true
unfolding image_matches
image_matches-any_tag repo tag t a b s d =
    rw
      (
        normalize-append repo (colon_char ∷ₛ tag) (unfold has_char in s),
        matches_normalized-tag (normalize_image_ref repo) tag (has_tag-normalize repo ∙ t)
            (has_at-normalize repo ∙ a) b s d,
      )
      (ground arith)

-- For a declared reference with a tag or a digest, the container's image matches exactly when both
-- normalize to the same reference.
pub image_matches_tagged :
    (expected actual : String)
    → has_tag expected ≡ true
    → (image_matches expected actual ≡ true)
      ↔ (normalize_image_ref expected ≡ normalize_image_ref actual)
unfolding image_matches matches_normalized
image_matches_tagged expected actual t =
    ground (arith, has_tag-normalize expected, λ (e : expected ≡ actual). ap normalize_image_ref e)

matches_normalized-digest :
    (repo digest : String)
    → has_tag repo ≡ false
    → has_char at_sign repo ≡ false
    → 0 < chars repo
    → matches_normalized repo (repo <> (at_char ∷ₛ digest)) ≡ true
unfolding matches_normalized
matches_normalized-digest repo digest t a p =
    rw (t, actual_repo-digest repo digest p a) (ground arith)

-- For a declared reference with no tag and no `@`, and a digest with no `/` in it: the declared
-- image matches a container that runs any such digest of it.
pub image_matches-any_digest :
    (repo digest : String)
    → has_tag repo ≡ false
    → has_char at_sign repo ≡ false
    → has_char slash digest ≡ false
    → image_matches repo (repo <> (at_char ∷ₛ digest)) ≡ true
unfolding image_matches
image_matches-any_digest repo digest t a s =
    rw
      (
        normalize-append repo (at_char ∷ₛ digest) (unfold has_char in s),
        matches_normalized-digest (normalize_image_ref repo) digest (has_tag-normalize repo ∙ t)
            (has_at-normalize repo ∙ a) (chars-normalize repo),
      )
      (ground arith)
