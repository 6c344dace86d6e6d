-- ===== src/Dashboard/Config.antt =====
-- internal/dashboard/config.go: the configuration of the dashboard and its validation. The parser of
-- quantities is a parameter.
pub mod Overridden
pub mod Quantities
pub mod ImageTag
use pacto_operator.Prelude.{String, Bool, true, false, Option, none, some, List, [], ◌∷◌}
use pacto_operator.Prelude.{ℕ, zero, suc, eqb, ◌==◌, ◌!=◌, string_eq, if◌then◌else◌, is_empty, drop}
use pacto_operator.Prelude.Maps.{put}
use pacto_operator.Prelude.TextLaws.{chars}
use pacto_operator.Message.{Message, Attempt, success, failure, sprintf, str, msg, done}
use pacto_operator.Dashboard.Objects.{OwnerReference, Quantity, ResourceList, ResourceRequirements}
use Prim.Native.Char.{code}

-- `ResourcesConfig`
pub record ResourcesConfig : Type 0 where
  pub cpu_request : String
  pub cpu_limit : String
  pub memory_request : String
  pub memory_limit : String

-- `Config`
pub record Config : Type 0 where
  pub enabled : Bool
  pub image : String
  pub namespace : String
  pub watch_namespace : String
  pub oci_secret : String
  pub oci_secrets : List String
  pub resources : ResourcesConfig
  pub owner_ref : Option OwnerReference

-- `EffectiveOCISecrets`
unfoldable pub effective_oci_secrets : Config → List String
effective_oci_secrets c =
    if is_empty c.oci_secrets
    then (if c.oci_secret != "" then c.oci_secret ∷ [] else [])
    else c.oci_secrets

-- The code of `image[i]`, with 0 out of range.
unfoldable pub char_at : ℕ → String → ℕ
char_at i String.[] = 0
char_at zero (String.◌∷◌ x s) = code x
char_at (suc i) (String.◌∷◌ x s) = char_at i s

-- The loop of `hasLatestTag` over the offsets below `i`, downwards.
unfoldable pub scan_tag : ℕ → String → Bool
unfolding char_at
scan_tag zero image = true
scan_tag (suc i) image =
    let rest = scan_tag i image in
    if eqb (char_at i image) 58
    then drop (suc i) image == "latest"
    else if eqb (char_at i image) 47
    then true
    else rest

-- `hasLatestTag`
unfoldable pub has_latest_tag : String → Bool
has_latest_tag image = scan_tag (chars image) image

abbrev pub resource_cpu : String
resource_cpu = "cpu"

abbrev pub resource_memory : String
resource_memory = "memory"

module _ (parse_quantity : String → Attempt Quantity) where
  -- The loop of `ResourcesConfig.Validate`; `none` is the nil error.
  unfoldable pub validate_quantities : List (String × String) → Option Message
  validate_quantities [] = none
  validate_quantities (q ∷ qs) =
      let rest = validate_quantities qs in
      if q.1 == "" then rest else elim (parse_quantity q.1) [
        | failure e ↦
            some (sprintf "invalid dashboard %s quantity %q: %w" (str q.0 (str q.1 (msg e done))))
        | success a ↦ rest
      ]

  -- `ResourcesConfig.Validate`
  unfoldable pub validate_resources : ResourcesConfig → Option Message
  validate_resources rc = validate_quantities (
      ("cpu-request", rc.cpu_request)
      ∷ ("cpu-limit", rc.cpu_limit)
      ∷ ("memory-request", rc.memory_request)
      ∷ ("memory-limit", rc.memory_limit)
      ∷ [])

  -- `resource.MustParse`, with `none` where it panics.
  unfoldable pub must_parse : String → Option Quantity
  must_parse text = elim (parse_quantity text) [ failure e ↦ none | success q ↦ some q ]

  -- `DefaultResources`
  unfoldable pub default_resources : Option ResourceRequirements
  default_resources = elim (must_parse "50m") [
    | none ↦ none
    | some cpu ↦ elim (must_parse "128Mi") [
      | none ↦ none
      | some memory ↦ elim (must_parse "512Mi") [
        | none ↦ none
        | some limit ↦ some (record {
          requests = (resource_cpu, cpu) ∷ (resource_memory, memory) ∷ [];
          limits = (resource_memory, limit) ∷ [];
        })
      ]
    ]
  ]

  -- One override of `BuildResources` in a list.
  unfoldable pub override_quantity : String → String → ResourceList → Option ResourceList
  override_quantity value key quantities =
      if value != ""
      then (elim (must_parse value) [ none ↦ none | some q ↦ some (put key q quantities) ])
      else some quantities

  -- `BuildResources`
  unfoldable pub build_resources : ResourcesConfig → Option ResourceRequirements
  build_resources rc = elim default_resources [
    | none ↦ none
    | some res ↦ elim (override_quantity rc.cpu_request resource_cpu res.requests) [
      | none ↦ none
      | some r1 ↦ elim (override_quantity rc.memory_request resource_memory r1) [
        | none ↦ none
        | some r2 ↦ elim (override_quantity rc.cpu_limit resource_cpu res.limits) [
          | none ↦ none
          | some l1 ↦ elim (override_quantity rc.memory_limit resource_memory l1) [
            | none ↦ none
            | some l2 ↦ some (record { requests = r2; limits = l2 })
          ]
        ]
      ]
    ]
  ]

  -- `Config.Validate`
  unfoldable pub validate_config : Config → Option Message
  validate_config c =
      if c.enabled
      then (if c.image == ""
          then some (sprintf "dashboard image must be set at build time via ldflags" done)
          else if c.namespace == ""
          then some
              (sprintf "dashboard namespace must be set (defaults to operator namespace)" done)
          else if has_latest_tag c.image
          then some (sprintf "dashboard image must not use 'latest' tag: %s" (str c.image done))
          else validate_resources c.resources)
      else none
