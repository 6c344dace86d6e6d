-- ===== src/Credentials/Hosts.antt =====
-- Registry hosts in their normal form, and the entries that are kept under them.
use pacto_operator.Prelude.{String, false, none, [], ◌∷◌, ◌≡◌, refl}
use pacto_operator.Prelude.{arith, ◌==◌, string_eq, has_char, index, index_of, take_to}
use pacto_operator.Prelude.{has_prefix, strip_prefix, All, if_intro, ◌∙◌, ap}
use pacto_operator.Prelude.TextLaws.{index-none, has_char-take-index, trim_right-none}
use pacto_operator.Prelude.Maps.{put, lookup}
use pacto_operator.Credentials.{
  DockerConfigEntry, Auths, strip_scheme, strip_path, canonical, normalize_registry_host,
  match_host,
}

-- A text without a slash has no scheme.
scheme_needs_slash : (s : String) → has_char 47 s ≡ false → has_prefix "://" s ≡ false
unfolding has_char has_prefix strip_prefix
scheme_needs_slash String.[] h = refl
scheme_needs_slash (String.◌∷◌ x String.[]) h = ground arith
scheme_needs_slash (String.◌∷◌ x (String.◌∷◌ y s)) h = ground arith

index_of-none : (s : String) → has_char 47 s ≡ false → index_of "://" s ≡ none
unfolding has_char index_of
index_of-none String.[] h = refl
index_of-none (String.◌∷◌ x s) h =
    ground (arith, index_of-none s, scheme_needs_slash (String.◌∷◌ x s))

strip_scheme_plain : (s : String) → has_char 47 s ≡ false → strip_scheme s ≡ s
unfolding strip_scheme
strip_scheme_plain s h = rw (index_of-none s h, strip_scheme) refl

strip_path_plain : (s : String) → has_char 47 s ≡ false → strip_path s ≡ s
unfolding strip_path
strip_path_plain s h = rw (index-none 47 s h) (trim_right-none 47 s h)

has_char-strip_path : (s : String) → has_char 47 (strip_path s) ≡ false
unfolding strip_path
has_char-strip_path s =
    rw (trim_right-none 47 (take_to (index 47 s) s) (has_char-take-index 47 s))
      (has_char-take-index 47 s)

normal_has_no_slash : (s : String) → has_char 47 (normalize_registry_host s) ≡ false
unfolding normalize_registry_host has_char
normal_has_no_slash s =
    if_intro (λ t. has_char 47 t ≡ false) (strip_path (strip_scheme s) == "docker.io") refl
      (has_char-strip_path (strip_scheme s))

canonical_idem : (s : String) → canonical (canonical s) ≡ canonical s
unfolding string_eq
canonical_idem s = elim (string_eq.dec s "docker.io") [ yes e ↦ rw e refl | no n ↦ ground (arith) ]

-- For every host, normalizing twice is normalizing once.
pub normalize_registry_host_idem :
    (s : String) → normalize_registry_host (normalize_registry_host s) ≡ normalize_registry_host s
unfolding normalize_registry_host
normalize_registry_host_idem s =
    let n = normalize_registry_host s in
    ap canonical (
      ap strip_path (strip_scheme_plain n (normal_has_no_slash s))
      ∙ strip_path_plain n (normal_has_no_slash s))
    ∙ canonical_idem (strip_path (strip_scheme s))

-- Every host is in its normal form.
abbrev pub AllNormal : Auths → Type 0
AllNormal = All (λ (entry : String × DockerConfigEntry). normalize_registry_host entry.0 ≡ entry.0)

pub match_host-AllNormal : (m : Auths) (r : String) → AllNormal m → match_host m r ≡ lookup r m
unfolding match_host lookup
match_host-AllNormal [] r h = refl
match_host-AllNormal (entry ∷ m) r h = rw (h.0, match_host-AllNormal m r h.1) refl

pub put-AllNormal :
    (k : String) (v : DockerConfigEntry) (m : Auths)
    → AllNormal m
    → AllNormal (put (normalize_registry_host k) v m)
unfolding put
put-AllNormal k v [] h = (normalize_registry_host_idem k, tt)
put-AllNormal k v (entry ∷ m) h =
    if_intro AllNormal (entry.0 == normalize_registry_host k) (normalize_registry_host_idem k, h.1)
      (h.0, put-AllNormal k v m h.1)
