-- ===== src/Credentials.antt =====
-- internal/credentials/resolve.go: registry credentials from the Secrets of the cluster. The texts of
-- JSON and base64 are read and written by parameters.
pub mod Hosts
pub mod Entries
pub mod RoundTrip
mod Tests
use pacto_operator.Prelude.{
  String, ◌<>◌, Bool, true, false, ◌&&◌, ◌||◌, not, Option, none, some, List, [], ◌∷◌, map,
}
use pacto_operator.Prelude.{ℕ, suc, ◌+◌, ◌==◌, ◌!=◌, string_eq, if◌then◌else◌, is_empty, has_char}
use pacto_operator.Prelude.{
  index, index_of, take, take_to, drop, trim_prefix, trim_right, trim_space,
}
use pacto_operator.Prelude.Maps.{put, lookup}
use pacto_operator.Message.{Message, Attempt, success, failure, sprintf, str, msg, done, join, Args}

pub record AuthConfig : Type 0 where
  pub registry_token : String
  pub username : String
  pub password : String

pub record DockerConfigEntry : Type 0 where
  pub auth : String
  pub username : String
  pub password : String

-- The map of `dockerConfigJSON`, in the order in which a loop visits it.
abbrev pub Auths : Type 0
Auths = List (String × DockerConfigEntry)

-- A Secret: whether its type is `kubernetes.io/dockerconfigjson`, and its data.
pub record Secret : Type 0 where
  pub name : String
  pub is_docker_config : Bool
  pub data_of : List (String × String)

-- `string(secret.Data[key])`
abbrev pub secret_text : Secret → String → String
secret_text s key = elim (lookup key s.data_of) [ none ↦ "" | some v ↦ v ]

abbrev pub docker_config_key : String
docker_config_key = ".dockerconfigjson"

abbrev pub docker_hub_host : String
docker_hub_host = "index.docker.io"

-- `normalizeRegistryHost`, before Docker Hub is put in its canonical form.
unfoldable pub strip_scheme : String → String
strip_scheme host = elim (index_of "://" host) [ none ↦ host | some i ↦ drop (i + 3) host ]

unfoldable pub strip_path : String → String
strip_path host = trim_right 47 (take_to (index 47 host) host)

abbrev pub canonical : String → String
canonical host = if host == "docker.io" then docker_hub_host else host

-- `normalizeRegistryHost`
unfoldable pub normalize_registry_host : String → String
normalize_registry_host host = canonical (strip_path (strip_scheme host))

-- `RegistryFromRef`
unfoldable pub registry_from_ref : String → String
registry_from_ref ref =
    let r = trim_prefix "oci://" ref in
    let s = take_to (index 64 r) r in
    elim (index 47 s) [
      | none ↦ docker_hub_host
      | some i ↦
          let registry = take i s in
          if has_char 46 registry || has_char 58 registry then registry else docker_hub_host
    ]

-- The loop of `matchRegistry`.
unfoldable pub match_host : Auths → String → Option DockerConfigEntry
match_host [] registry = none
match_host (entry ∷ auths) registry =
    let rest = match_host auths registry in
    if normalize_registry_host entry.0 == registry then some entry.1 else rest

-- `matchRegistry`
unfoldable pub match_registry : Auths → String → Option DockerConfigEntry
match_registry auths registry = match_host auths (normalize_registry_host registry)

-- `fromOpaque`
unfoldable pub from_opaque : Secret → Attempt AuthConfig
from_opaque s =
    let token = secret_text s "token" in
    let user = secret_text s "username" in
    let pass = secret_text s "password" in
    if token != ""
    then success (record { registry_token = token; username = ""; password = "" })
    else if user != "" && pass != ""
    then success (record { registry_token = ""; username = user; password = pass })
    else failure (
        sprintf "secret %q must contain either 'token' or 'username'+'password' keys"
          (str s.name done))

-- The JSON of a docker config and the texts of base64.
pub record Codec : Type 0 where
  pub decode_config : String → Attempt Auths
  pub encode_config : Auths → Attempt String
  pub decode_base64 : String → Attempt String
  pub encode_base64 : String → String

unfoldable pub registry_args : Auths → Args
registry_args [] = done
registry_args (entry ∷ auths) = str entry.0 (registry_args auths)

module _ (codec : Codec) where
  -- The field `auth`, as `username:password`.
  unfoldable pub split_auth : String → String → Attempt AuthConfig
  split_auth decoded secret_name =
      let malformed : Attempt AuthConfig = failure (
        sprintf "secret %q: auth field must be base64(username:password)" (str secret_name done)) in
      elim (index 58 decoded) [
        | none ↦ malformed
        | some i ↦
            if take i decoded == ""
            then malformed
            else success (record {
              registry_token = "";
              username = take i decoded;
              password = drop (suc i) decoded;
            })
      ]

  -- `entryToAuthConfig`
  unfoldable pub entry_to_auth_config : DockerConfigEntry → String → Attempt AuthConfig
  entry_to_auth_config e secret_name =
      if e.username != "" && e.password != ""
      then success (record { registry_token = ""; username = e.username; password = e.password })
      else if e.auth != ""
      then (elim (codec.decode_base64 e.auth) [
        | failure m ↦
            failure
              (sprintf "secret %q: invalid base64 in auth field: %w" (str secret_name (msg m done)))
        | success decoded ↦ split_auth decoded secret_name
      ])
      else failure (sprintf "secret %q: auth entry has no credentials" (str secret_name done))

  -- `fromDockerConfigJSON`, from the entries on.
  unfoldable pub from_auths : Auths → String → String → Attempt AuthConfig
  from_auths auths registry secret_name =
      if is_empty auths
      then failure
          (sprintf "secret %q: dockerconfigjson has no auth entries" (str secret_name done))
      else elim (match_registry auths registry) [
        | some e ↦ entry_to_auth_config e secret_name
        | none ↦ failure (
            sprintf "secret %q: no auth entry for registry %q (available: %s)"
              (str secret_name (str registry (msg (join ", " (registry_args auths)) done))))
      ]

  -- The entries of a docker config Secret.
  unfoldable pub read_auths : Secret → Message → Attempt Auths
  read_auths s missing = elim (lookup docker_config_key s.data_of) [
    | none ↦ failure missing
    | some raw ↦ elim (codec.decode_config raw) [
      | failure m ↦
          failure (sprintf "secret %q: malformed dockerconfigjson: %w" (str s.name (msg m done)))
      | success auths ↦ success auths
    ]
  ]

  -- `fromDockerConfigJSON`
  unfoldable pub from_docker_config_json : Secret → String → Attempt AuthConfig
  from_docker_config_json s registry =
      elim (read_auths s (
        sprintf "secret %q is type %s but missing key %q"
          (str s.name (str "kubernetes.io/dockerconfigjson" (str docker_config_key done))))) [
            | failure m ↦ failure m
            | success auths ↦ from_auths auths registry s.name
          ]

  -- `FromSecret`
  unfoldable pub from_secret : Secret → String → Attempt AuthConfig
  from_secret s registry =
      if s.is_docker_config then from_docker_config_json s registry else from_opaque s

  -- `encodeAuth`
  unfoldable pub encode_auth : AuthConfig → String
  encode_auth a =
      if a.registry_token != ""
      then codec.encode_base64 ("_token:" <> a.registry_token)
      else codec.encode_base64 (a.username <> ":" <> a.password)

  abbrev pub entry_of : AuthConfig → DockerConfigEntry
  entry_of a = record { auth = encode_auth a; username = a.username; password = a.password }

  -- The entries of a docker config, under their normalized hosts.
  unfoldable pub merge_auths : Auths → Auths → Auths
  merge_auths [] merged = merged
  merge_auths (entry ∷ auths) merged =
      merge_auths auths (put (normalize_registry_host entry.0) entry.1 merged)

  -- A Secret with credentials for all registries: its key `registry` says for which they are used.
  unfoldable pub merge_opaque : Secret → Auths → Attempt Auths
  merge_opaque s merged =
      let registry = trim_space (secret_text s "registry") in
      if registry == ""
      then failure (
          sprintf
            "secret %q: opaque secrets must contain a 'registry' key specifying the registry hostname (e.g. ghcr.io)"
            (str s.name done))
      else elim (from_opaque s) [
        | failure m ↦ failure (sprintf "secret %q: %w" (str s.name (msg m done)))
        | success a ↦ success (put (normalize_registry_host registry) (entry_of a) merged)
      ]

  -- The body of the loop of `MergeToDockerConfigJSON`.
  unfoldable pub merge_secret : Secret → Auths → Attempt Auths
  merge_secret s merged =
      if s.is_docker_config
      then (elim (read_auths s
          (sprintf "secret %q: missing key %q" (str s.name (str docker_config_key done)))) [
            | failure m ↦ failure m
            | success auths ↦ success (merge_auths auths merged)
          ])
      else merge_opaque s merged

  unfoldable pub merge_secrets : List Secret → Auths → Attempt Auths
  merge_secrets [] merged = success merged
  merge_secrets (s ∷ ss) merged = elim (merge_secret s merged) [
    | failure m ↦ failure m
    | success next ↦ merge_secrets ss next
  ]

  -- `MergeToDockerConfigJSON`
  unfoldable pub merge_to_docker_config_json : List Secret → Attempt String
  merge_to_docker_config_json ss = elim (merge_secrets ss []) [
    | failure m ↦ failure m
    | success auths ↦ codec.encode_config auths
  ]
