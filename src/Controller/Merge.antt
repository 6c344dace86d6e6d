-- ===== src/Controller/Merge.antt =====
-- What overrides change of a contract.
use pacto_operator.Prelude.{String, true, Option, none, some, List, [], ◌∷◌, map, ◌≡◌, refl}
use pacto_operator.Prelude.{string_eq, arith, ◌∙◌, Distinct, All, ◌↔◌, Option-cases, inl, inr}
use pacto_operator.Prelude.Maps.{put, lookup, keys, lookup-put, lookup-none}
use pacto_operator.Message.{Attempt, success, failure}
use pacto_operator.Contract.{Contract, ConfigurationSource, Value, string_value}
use pacto_operator.Api.Spec.{ConfigurationOverride, ContractOverrides}
use pacto_operator.Controller.Overrides.{
  has_configuration, first_unknown, merge_values, values_of, override_configuration, override_named,
  merge_overrides, apply_configuration_overrides,
}

-- What a key has after the merge: the override's value, or else what it had.
abbrev pub merged : Option String → Option Value → Option Value
merged (some v) old = some (string_value v)
merged none old = old

lookup-merge_values :
    (vs : List (String × String)) (m : List (String × Value)) (j : String)
    → Distinct (keys vs)
    → lookup j (merge_values vs m) ≡ merged (lookup j vs) (lookup j m)
unfolding lookup merge_values
lookup-merge_values [] m j h = refl
lookup-merge_values (entry ∷ vs) m j h = ground (
  arith,
  lookup-merge_values vs (put entry.0 (string_value entry.1) m) j h.1,
  lookup-put entry.0 j (string_value entry.1) m,
  lookup-none j vs,
)

names : List ConfigurationSource → List String
names = map (λ c. c.name)

names-override_named :
    (o : ConfigurationOverride) (cs : List ConfigurationSource)
    → names (override_named o cs) ≡ names cs
unfolding override_named override_configuration names
names-override_named o [] = refl
names-override_named o (c ∷ cs) = ground (arith, names-override_named o cs)

names-merge_overrides :
    (os : List ConfigurationOverride) (cs : List ConfigurationSource)
    (overridden : List (String × List String))
    → names (merge_overrides os cs overridden).0 ≡ names cs
unfolding merge_overrides
names-merge_overrides [] cs overridden = refl
names-merge_overrides (o ∷ os) cs overridden =
    names-merge_overrides os (override_named o cs) _ ∙ names-override_named o cs

first_unknown-none :
    (os : List ConfigurationOverride) (cs : List ConfigurationSource)
    → (first_unknown os cs ≡ none) ↔ All (λ o. has_configuration o.name cs ≡ true) os
unfolding first_unknown
first_unknown-none [] cs = ground arith
first_unknown-none (o ∷ os) cs = ground (arith, first_unknown-none os cs)

-- An effective contract with the configurations of `c`, and all else as in `c`.
abbrev pub IsEffective : Contract → Attempt (Contract × List (String × List String)) → Type 0
IsEffective c (failure e) = ⊥
IsEffective c (success (d, overridden)) =
    (map (λ cfg. cfg.name) d.configurations ≡ map (λ cfg. cfg.name) c.configurations)
    × (d ≡ record c { configurations = d.configurations })

-- For every contract and overrides: an effective contract is made exactly when the contract has a
-- configuration of each name that is overridden; it has the same configurations by name, in the same
-- order, and differs from the contract in its configurations only.
pub apply_configuration_overrides_iff :
    (c : Contract) (overrides : ContractOverrides)
    → IsEffective c (apply_configuration_overrides c (some overrides))
      ↔ All (λ o. has_configuration o.name c.configurations ≡ true) overrides.configurations
unfolding apply_configuration_overrides names
apply_configuration_overrides_iff c overrides =
    elim (Option-cases (first_unknown overrides.configurations c.configurations)) [
      | inl e ↦ (
        λ _. (first_unknown-none overrides.configurations c.configurations).0 e,
        λ known.
            rw (e, apply_configuration_overrides)
              (names-merge_overrides overrides.configurations c.configurations [], refl),
      )
      | inr (name, e) ↦
          rw (e, apply_configuration_overrides)
            (
              λ h. absurd h,
              λ known. absurd (
                  ground (
                    arith,
                    (first_unknown-none overrides.configurations c.configurations).1 known,
                  )),
            )
    ]

-- For an override and a configuration of the contract, whose keys are distinct: a key of the override
-- has the override's value, and any other key has the value that it had.
pub lookup-override_configuration :
    (o : ConfigurationOverride) (c : ConfigurationSource) (j : String)
    → Distinct (keys o.values)
    → lookup j (values_of (override_configuration o c))
      ≡ merged (lookup j o.values) (lookup j (values_of c))
unfolding override_configuration
lookup-override_configuration o c j h = lookup-merge_values o.values (values_of c) j h
