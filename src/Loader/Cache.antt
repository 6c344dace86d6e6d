-- ===== src/Loader/Cache.antt =====
-- What was stored in a cache is served until it expires, and no entry is lost before.
use pacto_operator.Prelude.{String, none, some, [], ◌∷◌, ◌≡◌, refl, ◌∙◌}
use pacto_operator.Prelude.{ℕ, ◌+◌, ◌<◌, ◌≤◌, arith, string_eq, if_intro, ltb, length, select}
use pacto_operator.Prelude.Maps.{put, lookup, lookup-put}
use pacto_operator.Loader.{CacheEntry, Cache, Times, fresh, evict, store, through, Loader}

module _ {R : Type 0} where
  lookup-evict :
      (now : ℕ) (key : String) (m : Cache R) (e : CacheEntry R)
      → lookup key m ≡ some e
      → now ≤ e.expires_at
      → lookup key (evict now m) ≡ some e
  unfolding lookup evict select
  lookup-evict now key [] e h live = ground arith
  lookup-evict now key (entry ∷ m) e h live = ground (arith, lookup-evict now key m e)

  lookup-store :
      (key : String) (e : CacheEntry R) (now : ℕ) (cache : Cache R)
      → now ≤ e.expires_at
      → lookup key (store key e now cache) ≡ some e
  unfolding store
  lookup-store key e now cache live =
      let here = lookup-put key key e cache ∙ ground arith in
      if_intro (λ (m : Cache R). lookup key m ≡ some e) (ltb 100 (length (put key e cache)))
        (lookup-evict now key (put key e cache) e here live) here

  pub through-miss :
      (t : Times) (ttl : ℕ) (key : String) (r : R) (cache : Cache R)
      → fresh t.checked key cache ≡ none
      → through t ttl key r cache
        ≡ (store key (record { result = r; expires_at = t.stored + ttl }) t.evicted cache, r)
  unfolding through
  through-miss t ttl key r cache h = rw (h, through) refl

  pub through-hit :
      (t : Times) (ttl : ℕ) (key : String) (r s : R) (cache : Cache R)
      → fresh t.checked key cache ≡ some r
      → through t ttl key s cache ≡ (cache, r)
  unfolding through
  through-hit t ttl key r s cache h = rw (h, through) refl

  fresh-store :
      (key : String) (e : CacheEntry R) (now later : ℕ) (cache : Cache R)
      → now ≤ e.expires_at
      → later < e.expires_at
      → fresh later key (store key e now cache) ≡ some e.result
  unfolding fresh
  fresh-store key e now later cache live unexpired =
      rw (lookup-store key e now cache live, fresh) (ground arith)

  -- The second call within the lifetime of what the first one stored.
  pub through-through :
      (t u : Times) (ttl : ℕ) (key : String) (r s : R) (cache : Cache R)
      → fresh t.checked key cache ≡ none
      → t.evicted ≤ t.stored + ttl
      → u.checked < t.stored + ttl
      → through u ttl key s (through t ttl key r cache).0 ≡ through t ttl key r cache
  through-through t u ttl key r s cache miss evicted later =
      rw (through-miss t ttl key r cache miss) (
        through-hit u ttl key r s _ (
          fresh-store key (record { result = r; expires_at = t.stored + ttl }) t.evicted u.checked
            cache evicted later))
