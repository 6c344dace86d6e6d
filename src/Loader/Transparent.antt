-- ===== src/Loader/Transparent.antt =====
-- In front of a registry that does not change, the cache of contracts cannot be seen.
use pacto_operator.Prelude.{String, ◌<>◌, Option, none, some, ◌≡◌, ◌≢◌, refl, ◌∙◌}
use pacto_operator.Prelude.{ℕ, arith, string_eq, sym, ap}
use pacto_operator.Prelude.{has_char, strip_prefix, trim_prefix, take}
use Prim.Native.Char.{code}
use text.Mathlib.TextLemmas.{cons-append, append_cancel_left}
use pacto_operator.Message.{Attempt}
use pacto_operator.Loader.{
  Cache, Times, Loader, LoadResult, Registry, load, load_uncached, cache_key, cache_ttl,
  normalize_oci_ref, pull,
}
use pacto_operator.Loader.Stored.{Stored, through-Stored, through-result}

abbrev first_code : String → ℕ
first_code String.[] = 0
first_code (String.◌∷◌ x s) = code x

module _ {A : Type 0} (reg : Registry A) where
  -- A result under the key of a reference is what the registry answers to the reference.
  abbrev pub IsAnswer : String → Attempt LoadResult → Type 0
  IsAnswer key result =
      (oci : String)
      → normalize_oci_ref reg oci ≢ ""
      → key ≡ "oci:" <> normalize_oci_ref reg oci
      → result ≡ load_uncached reg none oci ""

  abbrev pub AllAnswers : Cache (Attempt LoadResult) → Type 0
  AllAnswers = Stored IsAnswer

  normalize_empty : normalize_oci_ref reg "" ≡ ""
  unfolding normalize_oci_ref has_char trim_prefix strip_prefix
  normalize_empty = refl

  filled : (oci : String) → normalize_oci_ref reg oci ≢ "" → oci ≢ ""
  filled oci n h = n (ap (normalize_oci_ref reg) h ∙ normalize_empty)

  load_ref :
      (oci : String)
      → oci ≢ ""
      → load_uncached reg none oci "" ≡ pull reg none (normalize_oci_ref reg oci)
  unfolding load_uncached string_eq
  load_ref oci n = ground arith

  -- Two references with one spelling are one reference.
  load_uncached-normalize :
      (oci other : String)
      → normalize_oci_ref reg oci ≢ ""
      → normalize_oci_ref reg other ≡ normalize_oci_ref reg oci
      → load_uncached reg none other "" ≡ load_uncached reg none oci ""
  load_uncached-normalize oci other n e =
      load_ref other (filled other (λ h. n (sym e ∙ h)))
      ∙ ap (pull reg none) e
      ∙ sym (load_ref oci (filled oci n))

  inline_first : (s : String) → first_code ("inline:" <> s) ≡ 105
  inline_first s = rw cons-append refl

  oci_first : (s : String) → first_code ("oci:" <> s) ≡ 111
  oci_first s = rw cons-append refl

  inline_is_no_oci : (s t : String) → "inline:" <> s ≢ "oci:" <> t
  inline_is_no_oci s t h = absurd (ground (arith, inline_first s, oci_first t, ap first_code h))

  key_of_ref :
      (oci inline : String)
      → inline ≡ ""
      → cache_key reg oci inline ≡ "oci:" <> normalize_oci_ref reg oci
  unfolding cache_key
  key_of_ref oci inline h = ground arith

  key_of_inline :
      (oci inline : String)
      → inline ≢ ""
      → cache_key reg oci inline ≡ "inline:" <> take 16 (reg.sha256 inline)
  unfolding cache_key
  key_of_inline oci inline h = ground arith

  -- The result of a call is an answer under its key.
  call-IsAnswer :
      (oci inline : String)
      → IsAnswer (cache_key reg oci inline) (load_uncached reg none oci inline)
  call-IsAnswer oci inline other n e = elim (string_eq.dec inline "") [
    | yes empty ↦
        ap (load_uncached reg none oci) empty
        ∙ load_uncached-normalize other oci n (
            append_cancel_left "oci:" (normalize_oci_ref reg oci) (normalize_oci_ref reg other)
              (sym (key_of_ref oci inline empty) ∙ e))
    | no full ↦ absurd (
        inline_is_no_oci (take 16 (reg.sha256 inline)) (normalize_oci_ref reg other)
          (sym (key_of_inline oci inline full) ∙ e))
  ]

  -- For a registry that does not change, a loader whose cached results under references are the
  -- registry's answers, as those of a new loader are, and a reference that is not empty: a call of
  -- Load, with credentials or without them, keeps that so, and returns what the registry answers to
  -- the reference.
  pub load-AllAnswers :
      (t : Times) (auth : Option A) (oci inline : String) (l : Loader)
      → AllAnswers l.cache
      → normalize_oci_ref reg oci ≢ ""
      → AllAnswers (load reg t auth oci inline l).0.cache
        × ((load reg t auth oci "" l).1 ≡ load_uncached reg auth oci "")
  unfolding load
  load-AllAnswers t (some auth) oci inline l h n = (h, refl)
  load-AllAnswers t none oci inline l h n = (
    through-Stored IsAnswer t cache_ttl (cache_key reg oci inline)
        (load_uncached reg none oci inline) l.cache (call-IsAnswer oci inline) h,
    through-result IsAnswer t cache_ttl (cache_key reg oci "") (load_uncached reg none oci "")
        l.cache (call-IsAnswer oci "") h oci n (key_of_ref oci "" refl),
  )
