-- ===== src/Credentials/RoundTrip.antt =====
-- Credentials that are merged into a docker config are read from it again.
use pacto_operator.Prelude.{String, false, some, List, [], ◌∷◌, ◌++◌}
use pacto_operator.Prelude.{◌≡◌, refl, arith, ◌==◌, string_eq, ◌∙◌, ap, subst}
use pacto_operator.Prelude.{is_empty, inl, inr, trim_space, if_intro}
use pacto_operator.Prelude.Maps.{put, lookup, lookup-put}
use pacto_operator.Message.{Attempt, Attempt-cases, success, failure, sprintf, str, done}
use pacto_operator.Credentials.{
  AuthConfig, DockerConfigEntry, Auths, Secret, secret_text, docker_config_key,
  normalize_registry_host, match_host, match_registry, from_opaque, Codec, entry_to_auth_config,
  from_auths, read_auths, from_docker_config_json, entry_of, merge_auths, merge_opaque,
  merge_secret, merge_secrets, merge_to_docker_config_json,
}
use pacto_operator.Credentials.Hosts.{AllNormal, match_host-AllNormal, put-AllNormal}
use pacto_operator.Credentials.Entries.{
  IsCodec, as_basic, from_opaque-IsUsable, entry_to_auth_config-entry_of,
}

module _ (codec : Codec) (is_codec : IsCodec codec) where
  merge_auths-AllNormal : (auths m : Auths) → AllNormal m → AllNormal (merge_auths codec auths m)
  unfolding merge_auths
  merge_auths-AllNormal [] m h = h
  merge_auths-AllNormal (entry ∷ auths) m h =
      merge_auths-AllNormal auths _ (put-AllNormal entry.0 entry.1 m h)

  -- A merge that succeeds keeps hosts in their normal form.
  abbrev AttemptNormal : Attempt Auths → Type 0
  AttemptNormal (failure e) = Unit
  AttemptNormal (success m) = AllNormal m

  merge_opaque-Normal :
      (s : Secret) (m : Auths) → AllNormal m → AttemptNormal (merge_opaque codec s m)
  unfolding merge_opaque
  merge_opaque-Normal s m h =
      if_intro AttemptNormal (trim_space (secret_text s "registry") == "") tt
        (elim (Attempt-cases (from_opaque s)) [
          | inl (e, x) ↦ rw x tt
          | inr (a, x) ↦
              rw x (put-AllNormal (trim_space (secret_text s "registry")) (entry_of codec a) m h)
        ])

  merge_secret-Normal :
      (s : Secret) (m : Auths) → AllNormal m → AttemptNormal (merge_secret codec s m)
  unfolding merge_secret
  merge_secret-Normal s m h =
      if_intro AttemptNormal s.is_docker_config
        (elim (Attempt-cases (
          read_auths codec s
            (sprintf "secret %q: missing key %q" (str s.name (str docker_config_key done))))) [
              | inl (e, x) ↦ rw x tt
              | inr (a, x) ↦ rw x (merge_auths-AllNormal a m h)
            ])
        (merge_opaque-Normal s m h)

  last_merge :
      (ss : List Secret) (s : Secret) (m r : Auths)
      → AllNormal m
      → merge_secrets codec (ss ++ (s ∷ [])) m ≡ success r
      → (before : Auths) × AllNormal before × (merge_secret codec s before ≡ success r)
  unfolding merge_secrets
  last_merge [] s m r h e = elim (Attempt-cases (merge_secret codec s m)) [
    | inl (x, p) ↦ absurd (ground arith)
    | inr (q, p) ↦ (m, h, ground arith)
  ]
  last_merge (t ∷ ts) s m r h e = elim (Attempt-cases (merge_secret codec t m)) [
    | inl (x, p) ↦ absurd (ground arith)
    | inr (q, p) ↦
        last_merge ts s q r (subst AttemptNormal p (merge_secret-Normal t m h)) (ground arith)
  ]

  -- What is read under the host of the last entry that was put.
  is_empty-put : (k : String) (v : DockerConfigEntry) (m : Auths) → is_empty (put k v m) ≡ false
  unfolding put
  is_empty-put k v [] = refl
  is_empty-put k v (entry ∷ m) =
      if_intro (λ (r : Auths). is_empty r ≡ false) (entry.0 == k) refl refl

  match_host-put :
      (host r : String) (v : DockerConfigEntry) (m : Auths)
      → AllNormal m
      → r ≡ normalize_registry_host host
      → match_host (put (normalize_registry_host host) v m) r ≡ some v
  match_host-put host r v m h e =
      match_host-AllNormal (put (normalize_registry_host host) v m) r (put-AllNormal host v m h)
      ∙ lookup-put (normalize_registry_host host) r v m
      ∙ ground arith

  from_auths-put :
      (host registry name : String) (a : AuthConfig) (m : Auths)
      → AllNormal m
      → normalize_registry_host registry ≡ normalize_registry_host host
      → from_auths codec (put (normalize_registry_host host) (entry_of codec a) m) registry name
        ≡ entry_to_auth_config codec (entry_of codec a) name
  unfolding from_auths match_registry
  from_auths-put host registry name a m h e =
      rw
        (
          from_auths,
          is_empty-put (normalize_registry_host host) (entry_of codec a) m,
          match_host-put host (normalize_registry_host registry) (entry_of codec a) m h e,
        )
        refl

  last_opaque :
      (s : Secret) (a : AuthConfig) (m r : Auths)
      → s.is_docker_config ≡ false
      → from_opaque s ≡ success a
      → merge_secret codec s m ≡ success r
      → r
        ≡ put (normalize_registry_host (trim_space (secret_text s "registry"))) (entry_of codec a) m
  unfolding merge_secret merge_opaque
  last_opaque s a m r h f e = ground arith

  read_back :
      (t : Secret) (auths : Auths) (raw registry : String)
      → lookup docker_config_key t.data_of ≡ some raw
      → codec.decode_config raw ≡ success auths
      → from_docker_config_json codec t registry ≡ from_auths codec auths registry t.name
  unfolding read_auths from_docker_config_json from_auths
  read_back t auths raw registry k d = rw (from_docker_config_json, k, d) refl

  -- For codecs that read what they write, Secrets whose last one `s` has no docker config, and its
  -- credentials: where the merge of the Secrets succeeds, a docker config Secret with its text holds,
  -- for any registry that has the same normal form as the one of `s`, the credentials of `s`, with the
  -- name `_token` for a token.
  pub from_docker_config_json-merge :
      (ss : List Secret) (s t : Secret) (a : AuthConfig) (raw registry : String)
      → s.is_docker_config ≡ false
      → from_opaque s ≡ success a
      → merge_to_docker_config_json codec (ss ++ (s ∷ [])) ≡ success raw
      → lookup docker_config_key t.data_of ≡ some raw
      → normalize_registry_host registry
        ≡ normalize_registry_host (trim_space (secret_text s "registry"))
      → from_docker_config_json codec t registry ≡ success (as_basic a)
  unfolding merge_to_docker_config_json
  from_docker_config_json-merge ss s t a raw registry h f g k e =
      elim (Attempt-cases (merge_secrets codec (ss ++ (s ∷ [])) [])) [
        | inl (x, p) ↦ absurd (ground arith)
        | inr (auths, p) ↦
            let (before, normal, last) = last_merge ss s [] auths tt p in
            read_back t auths raw registry k
              (is_codec.decode-encode_config auths raw (ground arith))
            ∙ ap (λ m. from_auths codec m registry t.name) (last_opaque s a before auths h f last)
            ∙ from_auths-put (trim_space (secret_text s "registry")) registry t.name a before normal
                e
            ∙ entry_to_auth_config-entry_of codec is_codec a t.name (from_opaque-IsUsable s a f)
      ]
