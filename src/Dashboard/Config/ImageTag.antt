-- ===== src/Dashboard/Config/ImageTag.antt =====
-- `hasLatestTag` of internal/dashboard/config.go against the last separators of a reference.
use pacto_operator.Prelude.{String, Bool, true, false, Option, none, some}
use pacto_operator.Prelude.{
  ℕ, zero, suc, ◌≤◌, ◌<◌, eqb, ◌≡◌, refl, ap, ◌∙◌, arith, ◌==◌, string_eq, if◌then◌else◌,
}
use pacto_operator.Prelude.{last_index, after, take, drop, drop_past}
use pacto_operator.Prelude.TextLaws.{chars, last_index-lt_chars}
use pacto_operator.Dashboard.Config.{char_at, scan_tag, has_latest_tag}

chars-take : (i : ℕ) (s : String) → i ≤ chars s → chars (take i s) ≡ i
unfolding chars take
chars-take zero s h = refl
chars-take (suc i) String.[] h = ground arith
chars-take (suc i) (String.◌∷◌ x s) h = ground (arith, chars-take i s)

-- The last separator before the offset `i + 1` is at `i`, or the last one before `i`.
last_index-take :
    (c i : ℕ) (s : String)
    → i < chars s
    → last_index c (take (suc i) s)
      ≡ (if eqb (char_at i s) c then some i else last_index c (take i s))
unfolding chars take last_index char_at
last_index-take c i String.[] h = ground arith
last_index-take c zero (String.◌∷◌ x s) h = ground arith
last_index-take c (suc i) (String.◌∷◌ x s) h = ground (arith, last_index-take c i s)

last_index-take_zero : (c : ℕ) (s : String) → last_index c (take 0 s) ≡ none
unfolding last_index take
last_index-take_zero c s = refl

take-chars : (s : String) → take (chars s) s ≡ s
unfolding chars take
take-chars String.[] = refl
take-chars (String.◌∷◌ x s) = ap (String.◌∷◌ x) (take-chars s)

-- Whether the text after the last `:` is `latest`, where no `/` follows it.
abbrev pub latest_by_separators : Option ℕ → Option ℕ → String → Bool
latest_by_separators colon slash image =
    if after colon slash then drop_past colon image == "latest" else true

last_index-take_lt :
    (c i j : ℕ) (s : String) → i ≤ chars s → last_index c (take i s) ≡ some j → j < i
last_index-take_lt c i j s h e =
    ground (arith, last_index-lt_chars c (take i s) j e, chars-take i s h)

-- One more character: its offset is above those of the separators before it.
separators_step :
    (i : ℕ) (image : String) (colon slash : Bool) (before_colon before_slash : Option ℕ)
    → (colon ≡ true → slash ≡ false)
    → ((j : ℕ) → before_colon ≡ some j → j < i)
    → ((j : ℕ) → before_slash ≡ some j → j < i)
    → (if colon
        then drop (suc i) image == "latest"
        else if slash
        then true
        else latest_by_separators before_colon before_slash image)
      ≡ latest_by_separators
          (if colon then some i else before_colon)
          (if slash then some i else before_slash)
          image
separators_step i image true true oc os one hc hs = absurd (ground (arith, one refl))
separators_step i image true false oc none one hc hs = refl
separators_step i image true false oc (some j) one hc hs = ground (arith, hs j refl)
separators_step i image false true none os one hc hs = refl
separators_step i image false true (some j) os one hc hs = ground (arith, hc j refl)
separators_step i image false false oc os one hc hs = refl

not_both : (c : ℕ) → eqb c 58 ≡ true → eqb c 47 ≡ false
not_both c h = ground arith

scan_tag_lem :
    (i : ℕ) (image : String)
    → i ≤ chars image
    → scan_tag i image
      ≡ latest_by_separators (last_index 58 (take i image)) (last_index 47 (take i image)) image
unfolding scan_tag
scan_tag_lem zero image h = rw (last_index-take_zero 58 image) refl
scan_tag_lem (suc i) image h =
    rw
      (
        last_index-take 58 i image (omega arith),
        last_index-take 47 i image (omega arith),
        scan_tag_lem i image (omega arith),
      )
      (separators_step i image (eqb (char_at i image) 58) (eqb (char_at i image) 47)
        (last_index 58 (take i image)) (last_index 47 (take i image)) (not_both (char_at i image))
        (λ j e. last_index-take_lt 58 i j image (omega arith) e)
        (λ j e. last_index-take_lt 47 i j image (omega arith) e))

-- For every image reference: the tag counts as `latest` exactly when no `:` stands after the last `/`,
-- or the text after the last `:` is `latest`.
pub has_latest_tag_lem :
    (image : String)
    → has_latest_tag image ≡ latest_by_separators (last_index 58 image) (last_index 47 image) image
unfolding has_latest_tag
has_latest_tag_lem image =
    scan_tag_lem (chars image) image (omega arith)
    ∙ ap (λ s. latest_by_separators (last_index 58 s) (last_index 47 s) image) (take-chars image)
