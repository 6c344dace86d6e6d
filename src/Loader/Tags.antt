-- ===== src/Loader/Tags.antt =====
-- In front of a registry that does not change, the cache of tags cannot be seen.
use pacto_operator.Prelude.{String, Option, none, some, List, [], ◌≡◌, refl, ◌∙◌}
use pacto_operator.Prelude.{◌==◌, string_eq, if◌then◌else◌, sym, ap, if_both, trim_prefix}
use package.text.Mathlib.TextLemmas.{append_cancel_left}
use pacto_operator.Message.{Attempt, success, failure, sprintf, str, msg, done}
use pacto_operator.Loader.{
  Cache, Times, Loader, Registry, normalize_oci_ref, tag_cache_key, tag_cache_ttl, pull_tags,
  list_tags_cached,
}
use pacto_operator.Loader.Repository.{repository, repository-trim_prefix}
use pacto_operator.Loader.Stored.{Stored, through-Stored, through-result}

module _ {A : Type 0} (reg : Registry A) where
  -- What the registry lists for a reference; the empty one has no tags.
  abbrev pub list_tags_uncached : Option A → String → Attempt (List String)
  list_tags_uncached auth oci =
      if oci == "" then success [] else pull_tags reg auth (normalize_oci_ref reg oci)

  -- A result under the key of a reference is what the registry lists for the reference.
  abbrev pub IsTagAnswer : String → Attempt (List String) → Type 0
  IsTagAnswer key result =
      (ref : String) → key ≡ tag_cache_key reg ref → result ≡ pull_tags reg none ref

  abbrev pub AllTagAnswers : Cache (Attempt (List String)) → Type 0
  AllTagAnswers = Stored IsTagAnswer

  -- References with one key have one repository, and so the same tags.
  pull_tags-tag_cache_key :
      (auth : Option A) (ref other : String)
      → tag_cache_key reg ref ≡ tag_cache_key reg other
      → pull_tags reg auth ref ≡ pull_tags reg auth other
  unfolding pull_tags tag_cache_key
  pull_tags-tag_cache_key auth ref other h =
      let one = append_cancel_left "tags:" (repository ref) (repository other) h in
      let same =
        repository-trim_prefix ref
        ∙ ap (trim_prefix "oci://") one
        ∙ sym (repository-trim_prefix other) in
      ap
        (λ (repo : String). elim (reg.tags_of auth repo) as (λ _. Attempt (List String)) [
          | failure e ↦ failure (sprintf "failed to list tags for %q: %w" (str repo (msg e done)))
          | success tags ↦ success (reg.filter_semver tags)
        ])
        same

  -- The result of a call is an answer under its key.
  call-IsTagAnswer : (ref : String) → IsTagAnswer (tag_cache_key reg ref) (pull_tags reg none ref)
  call-IsTagAnswer ref other h = pull_tags-tag_cache_key none ref other h

  -- A call of ListTags keeps the answers of the registry in the cache, and returns what the registry
  -- lists.
  pub list_tags_cached-AllTagAnswers :
      (t : Times) (auth : Option A) (oci : String) (l : Loader)
      → AllTagAnswers l.tag_cache
      → AllTagAnswers (list_tags_cached reg t auth oci l).0.tag_cache
        × ((list_tags_cached reg t auth oci l).1 ≡ list_tags_uncached auth oci)
  unfolding list_tags_cached
  list_tags_cached-AllTagAnswers t (some auth) oci l h = (h, refl)
  list_tags_cached-AllTagAnswers t none oci l h =
      let ref = normalize_oci_ref reg oci in
      let key = tag_cache_key reg ref in
      let answer = pull_tags reg none ref in
      let kept =
        through-Stored IsTagAnswer t tag_cache_ttl key answer l.tag_cache (call-IsTagAnswer ref)
          h in
      let told =
        through-result IsTagAnswer t tag_cache_ttl key answer l.tag_cache (call-IsTagAnswer ref) h
          ref refl in
      if_both
        (λ (r : Loader × Attempt (List String)) (listed : Attempt (List String)).
          AllTagAnswers r.0.tag_cache × (r.1 ≡ listed))
        (oci == "") (h, refl) (kept, told)
