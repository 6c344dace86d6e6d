-- ===== src/Controller/Cached/Tests.antt =====
-- A run behind caches that hold the contract and its tags.
use pacto_operator.Prelude.{String, ◌<>◌, none, [], ◌∷◌, ◌≡◌, ◌≢◌, refl, ℕ, arith}
use pacto_operator.Prelude.{
  ap, has_char, strip_prefix, trim_prefix, last_index, string_eq, is_nil_text, if_intro,
}
use package.text.Mathlib.TextLemmas.{cons-append}
use pacto_operator.Message.{success, failure, text}
use pacto_operator.Observer.{fetched}
use pacto_operator.Validator.Image.{drop_tag}
use pacto_operator.Loader.{
  Loader, Registry, Times, load, list_tags_cached, normalize_oci_ref, through, fresh, store,
  tag_cache_key, pull_tags, cache_key,
}
use pacto_operator.Loader.Transparent.{load-AllAnswers}
use pacto_operator.Loader.Tags.{list_tags_cached-AllTagAnswers}
use pacto_operator.Prelude.Maps.{put, lookup}
use pacto_operator.Prelude.{index}
use pacto_operator.Controller.Examples.{web_pacto, web_contract}
use pacto_operator.Controller.Revisions.Sync.{tagged_ref}
use pacto_operator.Controller.Runs.{environment}
use pacto_operator.Controller.Reconcile.{reconcile}
use pacto_operator.Controller.Cached.{Calls, loading, uncached, IsCached}
use pacto_operator.Controller.Cached.Transparent.{reconcile-cached}

abbrev registry : Registry String
registry = record {
  parse = λ yaml. failure (text "not YAML");
  query_unescape = λ s. none;
  sha256 = λ s. "0123456789abcdef0123456789abcdef";
  resolve_ref = λ auth ref. success ref;
  pull_bundle = λ auth ref.
      success (record { bundle_contract = web_contract; bundle_yaml = "service: web"; fs = none });
  resolve = λ auth ref. success "sha256:0123456789";
  tags_of = λ auth ref. success ("1.0.0" ∷ []);
  filter_semver = λ tags. tags;
}

abbrev at : ℕ → Times
at n = record { checked = n; stored = n; evicted = n }

abbrev web_oci : String
web_oci = "registry.local/web"

abbrev new_loader : Loader
new_loader = record { cache = []; tag_cache = [] }

-- The loaders after a first load, and after a first list.
abbrev loaded_loader : Loader
loaded_loader = (load registry (at 5) none web_oci "" new_loader).0

abbrev listed_loader : Loader
listed_loader = (list_tags_cached registry (at 6) none web_oci loaded_loader).0

abbrev cached_calls : Calls String
cached_calls = record {
  load_contract = λ auth oci inline. (load registry (at 10) auth oci inline loaded_loader).1;
  list_tags = λ auth oci. (list_tags_cached registry (at 10) auth oci listed_loader).1;
}

web_filled : normalize_oci_ref registry web_oci ≢ ""
unfolding normalize_oci_ref has_char trim_prefix strip_prefix
web_filled h = absurd (ground (arith, ap is_nil_text h))

web_tagged : (tag : String) → tagged_ref web_oci tag ≡ web_oci <> (":" <> tag)
unfolding tagged_ref drop_tag trim_prefix strip_prefix last_index
web_tagged tag = refl

web_trimmed : (s : String) → trim_prefix "oci://" (web_oci <> s) ≢ ""
unfolding trim_prefix strip_prefix
web_trimmed s = rw cons-append (λ h. absurd (ground (arith, ap is_nil_text h)))

tags_filled : (tag : String) → normalize_oci_ref registry (tagged_ref web_oci tag) ≢ ""
unfolding normalize_oci_ref
tags_filled tag = rw (web_tagged tag) (
    if_intro (λ (ref : String). trim_prefix "oci://" ref ≢ "")
      (has_char 37 (web_oci <> (":" <> tag))) (web_trimmed (":" <> tag)) (web_trimmed (":" <> tag)))

cached_calls-IsCached : IsCached registry cached_calls
unfolding load
cached_calls-IsCached = record {
  loaded = λ auth oci inline. (
    at 10,
    (
      loaded_loader,
      ((load-AllAnswers registry (at 5) none web_oci "" new_loader tt web_filled).0, refl),
    ),
  );
  listed = λ auth oci. (
    at 10,
    (
      listed_loader,
      ((list_tags_cached-AllTagAnswers registry (at 6) none web_oci loaded_loader tt).0, refl),
    ),
  );
}

reconcile-cached_example :
    reconcile (loading environment cached_calls) [] (fetched web_pacto)
    ≡ reconcile (loading environment (uncached registry)) [] (fetched web_pacto)
reconcile-cached_example =
    reconcile-cached environment registry cached_calls [] web_pacto cached_calls-IsCached refl
      web_filled tags_filled

-- The second list is answered from the cache.
second_list_is_cached :
    (list_tags_cached registry (at 10) none web_oci listed_loader).0.tag_cache
    ≡ listed_loader.tag_cache
unfolding list_tags_cached through fresh store lookup put tag_cache_key normalize_oci_ref drop_tag
    last_index index has_char trim_prefix strip_prefix string_eq pull_tags load cache_key
second_list_is_cached = refl
