-- ===== src/Loader.antt =====
-- internal/loader: contracts from a text or from a registry, and the caches. The contract and registry
-- libraries and `url.QueryUnescape` are parameters; `A` stands for the credentials of a Secret.
pub mod Cache
mod Stored
pub mod Repository
pub mod Transparent
pub mod Tags
mod Tests
use pacto_operator.Prelude.{
  String, ◌<>◌, Bool, true, false, Option, none, some, List, [], ◌∷◌, ℕ, ◌+◌, ◌*◌, ltb,
}
use pacto_operator.Prelude.{
  ◌==◌, ◌!=◌, string_eq, if◌then◌else◌, has_char, index, take, take_to, trim_prefix,
}
use pacto_operator.Prelude.{select, length, not}
use pacto_operator.Prelude.Maps.{put, lookup}
use pacto_operator.Message.{Message, Attempt, success, failure, sprintf, str, msg, done, text}
use pacto_operator.Contract.{Contract}
use pacto_operator.Validator.Image.{drop_tag}

-- `LoadResult`, with the files of the bundle by their path.
pub record LoadResult : Type 0 where
  pub contract : Contract
  pub raw_yaml : String
  pub bundle_fs : Option (String → Option String)
  pub resolved_ref : String
  pub resolved_digest : String

-- `cacheEntry` and `tagCacheEntry`; the time is in nanoseconds.
pub record CacheEntry (R : Type 0) : Type 0 where
  pub result : R
  pub expires_at : ℕ

abbrev pub Cache : Type 0 → Type 0
Cache R = List (String × CacheEntry R)

pub record Loader : Type 0 where
  pub cache : Cache (Attempt LoadResult)
  pub tag_cache : Cache (Attempt (List String))

-- A bundle of the registry library.
pub record Bundle : Type 0 where
  pub bundle_contract : Contract
  pub bundle_yaml : String
  pub fs : Option (String → Option String)

pub record Registry (A : Type 0) : Type 0 where
  pub parse : String → Attempt Contract
  pub query_unescape : String → Option String
  pub sha256 : String → String
  pub resolve_ref : Option A → String → Attempt String
  pub pull_bundle : Option A → String → Attempt Bundle
  pub resolve : Option A → String → Attempt String
  pub tags_of : Option A → String → Attempt (List String)
  pub filter_semver : List String → List String

-- The times at which a call reads the clock: for its check of the cache, when it stores the result,
-- and when it evicts.
pub record Times : Type 0 where
  pub checked : ℕ
  pub stored : ℕ
  pub evicted : ℕ

abbrev pub cache_ttl : ℕ
cache_ttl = 30_000_000_000

abbrev pub tag_cache_ttl : ℕ
tag_cache_ttl = 300_000_000_000

module _ {R : Type 0} where
  -- The result of an entry that has not expired.
  unfoldable pub fresh : ℕ → String → Cache R → Option R
  fresh now key cache = elim (lookup key cache) [
    | none ↦ none
    | some e ↦ if ltb now e.expires_at then some e.result else none
  ]

  abbrev pub is_live : ℕ → String × CacheEntry R → Bool
  is_live now entry = not (ltb entry.1.expires_at now)

  unfoldable pub evict : ℕ → Cache R → Cache R
  evict now cache = select (is_live now) cache

  -- The entry is stored, and of more than 100 entries the expired ones are deleted.
  unfoldable pub store : String → CacheEntry R → ℕ → Cache R → Cache R
  store key entry now cache =
      let m = put key entry cache in if ltb 100 (length m) then evict now m else m

  -- A result from the cache, or else one that is computed and stored.
  unfoldable pub through : Times → ℕ → String → R → Cache R → Cache R × R
  through t ttl key result cache = elim (fresh t.checked key cache) [
    | some r ↦ (cache, r)
    | none ↦ (
      store key (record { result = result; expires_at = t.stored + ttl }) t.evicted cache,
      result,
    )
  ]

module _ {A : Type 0} (reg : Registry A) where
  -- `normalizeOCIRef`
  unfoldable pub normalize_oci_ref : String → String
  normalize_oci_ref ref = trim_prefix "oci://" (
      if has_char 37 ref
      then elim (reg.query_unescape ref) [ none ↦ ref | some decoded ↦ decoded ]
      else ref)

  -- `cacheKey`
  unfoldable pub cache_key : String → String → String
  cache_key oci inline =
      if inline != ""
      then "inline:" <> take 16 (reg.sha256 inline)
      else "oci:" <> normalize_oci_ref oci

  -- `tagCacheKey`
  unfoldable pub tag_cache_key : String → String
  tag_cache_key ref = "tags:" <> drop_tag (take_to (index 64 ref) ref)

  -- `loadInline`
  unfoldable pub load_inline : String → Attempt LoadResult
  load_inline yaml = elim (reg.parse yaml) [
    | failure e ↦ failure (sprintf "failed to parse inline contract: %w" (msg e done))
    | success c ↦ success (record {
      contract = c;
      raw_yaml = yaml;
      bundle_fs = none;
      resolved_ref = "";
      resolved_digest = "";
    })
  ]

  -- The YAML of a bundle, from its files where the library does not set it.
  unfoldable pub yaml_of : Bundle → String
  yaml_of b =
      if b.bundle_yaml == ""
      then elim b.fs [
        | none ↦ ""
        | some read ↦ elim (read "pacto.yaml") [ none ↦ "" | some data_read ↦ data_read ]
      ]
      else b.bundle_yaml

  -- `OCIPuller.Pull`
  unfoldable pub pull : Option A → String → Attempt LoadResult
  pull auth ref_given =
      let ref = trim_prefix "oci://" ref_given in
      let resolved : String = elim (reg.resolve_ref auth ref) [ failure e ↦ ref | success r ↦ r ] in
      elim (reg.pull_bundle auth resolved) [
        | failure e ↦ failure (sprintf "failed to pull %q: %w" (str resolved (msg e done)))
        | success b ↦ success (record {
          contract = b.bundle_contract;
          raw_yaml = yaml_of b;
          bundle_fs = b.fs;
          resolved_ref = resolved;
          resolved_digest = elim (reg.resolve auth resolved) [ failure e ↦ "" | success d ↦ d ];
        })
      ]

  -- `OCIPuller.ListTags`
  unfoldable pub pull_tags : Option A → String → Attempt (List String)
  pull_tags auth ref_given =
      let ref = trim_prefix "oci://" ref_given in
      let repository = drop_tag (take_to (index 64 ref) ref) in
      elim (reg.tags_of auth repository) [
        | failure e ↦
            failure (sprintf "failed to list tags for %q: %w" (str repository (msg e done)))
        | success tags ↦ success (reg.filter_semver tags)
      ]

  -- `loadUncached`
  unfoldable pub load_uncached : Option A → String → String → Attempt LoadResult
  load_uncached auth oci inline =
      if inline != ""
      then load_inline inline
      else if oci != ""
      then pull auth (normalize_oci_ref oci)
      else failure (
          text
            "no contract source specified: set either spec.contractRef.oci or spec.contractRef.inline")

  -- `Load`
  unfoldable pub load : Times → Option A → String → String → Loader → Loader × Attempt LoadResult
  load t (some auth) oci inline l = (l, load_uncached (some auth) oci inline)
  load t none oci inline l =
      let (cache, result) =
        through t cache_ttl (cache_key oci inline) (load_uncached none oci inline) l.cache in
      (record l { cache = cache }, result)

  -- `ListTags`; the empty reference has no tags.
  unfoldable pub list_tags_cached :
      Times → Option A → String → Loader → Loader × Attempt (List String)
  list_tags_cached t (some auth) oci l =
      (l, if oci == "" then success [] else pull_tags (some auth) (normalize_oci_ref oci))
  list_tags_cached t none oci l =
      let ref = normalize_oci_ref oci in
      let (cache, result) =
        through t tag_cache_ttl (tag_cache_key ref) (pull_tags none ref) l.tag_cache in
      if oci == "" then (l, success []) else (record l { tag_cache = cache }, result)
