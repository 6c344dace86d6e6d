-- ===== src/Loader/Stored.antt =====
-- A property of the results of a cache under their keys is kept by what a loader does with the cache.
use pacto_operator.Prelude.{String, some, [], ◌∷◌, ◌≡◌}
use pacto_operator.Prelude.{ℕ, arith, ◌==◌, string_eq, if_intro, ltb, length, sym, subst}
use pacto_operator.Prelude.{Option-cases, inl, inr, All, All-select}
use pacto_operator.Prelude.Maps.{put, lookup}
use pacto_operator.Loader.{CacheEntry, Cache, Times, fresh, is_live, evict, store, through}
use pacto_operator.Loader.Cache.{through-miss, through-hit}

module _ {R : Type 0} (Q : String → R → Type 0) where
  abbrev pub Stored : Cache R → Type 0
  Stored = All (λ (entry : String × CacheEntry R). Q entry.0 entry.1.result)

  put-Stored :
      (key : String) (e : CacheEntry R) (m : Cache R)
      → Q key e.result
      → Stored m
      → Stored (put key e m)
  unfolding put
  put-Stored key e [] h hm = (h, tt)
  put-Stored key e (entry ∷ m) h hm =
      if_intro Stored (entry.0 == key) (h, hm.1) (hm.0, put-Stored key e m h hm.1)

  store-Stored :
      (key : String) (e : CacheEntry R) (now : ℕ) (m : Cache R)
      → Q key e.result
      → Stored m
      → Stored (store key e now m)
  unfolding store evict
  store-Stored key e now m h hm =
      if_intro Stored (ltb 100 (length (put key e m)))
        (All-select (λ (entry : String × CacheEntry R). Q entry.0 entry.1.result) (is_live now)
          (put key e m) (put-Stored key e m h hm))
        (put-Stored key e m h hm)

  entry_result :
      (entry : String × CacheEntry R) (m : Cache R) (key : String) (e : CacheEntry R)
      → entry.0 ≡ key
      → lookup key (entry ∷ m) ≡ some e
      → entry.1.result ≡ e.result
  unfolding lookup
  entry_result entry m key e here h = ground arith

  lookup-Stored :
      (key : String) (e : CacheEntry R) (m : Cache R)
      → Stored m
      → lookup key m ≡ some e
      → Q key e.result
  unfolding lookup
  lookup-Stored key e [] hm h = absurd (ground arith)
  lookup-Stored key e (entry ∷ m) hm h = elim (string_eq.dec entry.0 key) [
    | yes here ↦
        subst (λ (r : R). Q key r) (entry_result entry m key e here h)
          (subst (λ (k : String). Q k entry.1.result) here hm.0)
    | no later ↦ lookup-Stored key e m hm.1 (ground arith)
  ]

  -- A fresh result has the property.
  pub fresh-Stored :
      (now : ℕ) (key : String) (m : Cache R) (r : R) → Stored m → fresh now key m ≡ some r → Q key r
  unfolding fresh
  fresh-Stored now key m r h f = elim (Option-cases (lookup key m)) [
    | inl e ↦ absurd (ground arith)
    | inr (entry, e) ↦
        subst (λ (s : R). Q key s) (sym (entry_of_fresh entry e)) (lookup-Stored key entry m h e)
  ]
    where
      entry_of_fresh : (entry : CacheEntry R) → lookup key m ≡ some entry → r ≡ entry.result
      entry_of_fresh entry e = ground arith

  -- A result that has the property is stored with it.
  pub through-Stored :
      (t : Times) (ttl : ℕ) (key : String) (r : R) (m : Cache R)
      → Q key r
      → Stored m
      → Stored (through t ttl key r m).0
  through-Stored t ttl key r m h hm = elim (Option-cases (fresh t.checked key m)) [
    | inl e ↦ rw (through-miss t ttl key r m e) (store-Stored key _ t.evicted m h hm)
    | inr (s, e) ↦ rw (through-hit t ttl key s r m e) hm
  ]

  -- What a call returns is computed, or has the property.
  pub through-result :
      (t : Times) (ttl : ℕ) (key : String) (r : R) (m : Cache R)
      → Q key r
      → Stored m
      → Q key (through t ttl key r m).1
  through-result t ttl key r m h hm = elim (Option-cases (fresh t.checked key m)) [
    | inl e ↦ rw (through-miss t ttl key r m e) h
    | inr (s, e) ↦ rw (through-hit t ttl key s r m e) (fresh-Stored t.checked key m s hm e)
  ]
