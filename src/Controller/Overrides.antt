-- ===== src/Controller/Overrides.antt =====
-- `applyConfigurationOverrides` of internal/controller/pacto_controller.go. A map is an association
-- list, whose keys a Go map keeps distinct.
use pacto_operator.Prelude.{String, Bool, false, ◌||◌, Option, none, some, List, [], ◌∷◌, map}
use pacto_operator.Prelude.{◌==◌, string_eq, if◌then◌else◌, sort_strings}
use pacto_operator.Prelude.Maps.{put}
use pacto_operator.Message.{Attempt, success, failure, sprintf, str, done}
use pacto_operator.Contract.{Contract, ConfigurationSource, Value, string_value}
use pacto_operator.Api.Spec.{ConfigurationOverride, ContractOverrides}

-- `_, ok := configByName[name]`
unfoldable pub has_configuration : String → List ConfigurationSource → Bool
has_configuration name [] = false
has_configuration name (c ∷ cs) = c.name == name || has_configuration name cs

-- The first override whose configuration is not there.
unfoldable pub first_unknown : List ConfigurationOverride → List ConfigurationSource → Option String
first_unknown [] cs = none
first_unknown (o ∷ os) cs =
    let rest = first_unknown os cs in if has_configuration o.name cs then rest else some o.name

-- The values of an override are written over those of the configuration.
unfoldable pub merge_values : List (String × String) → List (String × Value) → List (String × Value)
merge_values [] m = m
merge_values (entry ∷ vs) m = merge_values vs (put entry.0 (string_value entry.1) m)

abbrev pub values_of : ConfigurationSource → List (String × Value)
values_of c = elim c.values [ none ↦ [] | some m ↦ m ]

unfoldable pub override_configuration :
    ConfigurationOverride → ConfigurationSource → ConfigurationSource
override_configuration o c = record c { values = some (merge_values o.values (values_of c)) }

-- `effective.Configurations[configByName[name]]` is replaced: of several of one name, the last one.
unfoldable pub override_named :
    ConfigurationOverride → List ConfigurationSource → List ConfigurationSource
override_named o [] = []
override_named o (c ∷ cs) =
    let rest = override_named o cs in
    if has_configuration o.name cs
    then c ∷ rest
    else if c.name == o.name
    then override_configuration o c ∷ cs
    else c ∷ cs

-- The loop that merges the overrides: the configurations, and the overridden keys by configuration.
unfoldable pub merge_overrides :
    List ConfigurationOverride
    → List ConfigurationSource
    → List (String × List String)
    → List ConfigurationSource × List (String × List String)
merge_overrides [] cs keys = (cs, keys)
merge_overrides (o ∷ os) cs keys =
    merge_overrides os (override_named o cs)
      (put o.name (sort_strings (map (λ (entry : String × String). entry.0) o.values)) keys)

-- `applyConfigurationOverrides`: the effective contract with the overridden keys, or an error.
unfoldable pub apply_configuration_overrides :
    Contract → Option ContractOverrides → Attempt (Contract × List (String × List String))
apply_configuration_overrides c none = success (c, [])
apply_configuration_overrides c (some overrides) =
    elim (first_unknown overrides.configurations c.configurations) [
      | some name ↦ failure (sprintf "configuration %q not found in contract" (str name done))
      | none ↦
          let (configurations, keys) =
            merge_overrides overrides.configurations c.configurations [] in
          success (record c { configurations = configurations }, keys)
    ]
