-- ===== src/Controller/Populate.antt =====
-- `populateContractStatus` of internal/controller/pacto_controller.go and the functions it calls. The
-- functions of the contract and schema libraries are parameters.
use pacto_operator.Prelude.{String, Bool, false, not, Option, none, some, List, [], ◌∷◌, ◌++◌, map}
use pacto_operator.Prelude.{ℤ, pos, int32, ltb_ℤ, ◌==◌, ◌!=◌, string_eq, if◌then◌else◌}
use pacto_operator.Prelude.{has_prefix, sort_strings, is_empty}
use pacto_operator.Contract.{
  Value, string_value, other_value, Owner, Contact, Interface, ConfigurationSource, Dependency,
  PolicySource, Runtime, Scaling,
}
use pacto_operator.Api.Status.{
  ContractInfo, OwnerInfo, OwnerContact, InterfaceInfo, ConfigurationInfo, SchemaProperty,
  DependencyInfo, PolicyInfo, RuntimeInfo, ScalingInfo,
}
use pacto_operator.Api.Pacto.{Pacto}
use pacto_operator.Controller.Revisions.{LoadResult}

-- `Owner.IsEmpty` and `Owner.DisplayString` of pkg/contract, and `Values`, `Properties` and `Meta` of
-- pkg/schemax.
pub record Library : Type 0 where
  pub owner_is_empty : Owner → Bool
  pub owner_display : Owner → String
  pub schema_values : List (String × Value) → List SchemaProperty
  pub schema_properties : String → String → List SchemaProperty
  pub schema_meta : String → String → String × String

abbrev pub optional_int32 : Option ℤ → Option ℤ
optional_int32 none = none
optional_int32 (some n) = some (int32 n)

abbrev pub contact_info : Contact → OwnerContact
contact_info c = record { type = c.type; value = c.value; purpose = c.purpose }

-- `mapOwnerToInfo`
unfoldable pub map_owner_to_info : (Owner → Bool) → Owner → Option OwnerInfo
map_owner_to_info is_empty o =
    if is_empty o
    then none
    else some (record { team = o.team; dri = o.dri; contacts = map contact_info o.contacts })

-- A file of the bundle, if there is a bundle and a path.
abbrev pub read_bundle : Option (String → Option String) → String → Option String
read_bundle none path = none
read_bundle (some read) path = if path == "" then none else read path

-- `isSecret` of a value of a configuration.
unfoldable pub is_secret : Value → Bool
is_secret (string_value s) = has_prefix "secret://" s
is_secret (other_value s) = false

unfoldable pub value_keys : List (String × Value) → List String
value_keys [] = []
value_keys (entry ∷ m) = entry.0 ∷ value_keys m

unfoldable pub secret_keys : List (String × Value) → List String
secret_keys [] = []
secret_keys (entry ∷ m) =
    let rest = secret_keys m in if is_secret entry.1 then entry.0 ∷ rest else rest

-- An interface in the status.
unfoldable pub interface_info : Interface → InterfaceInfo
interface_info i = record {
  name = i.name;
  type = i.type;
  port = optional_int32 i.port;
  visibility = i.visibility;
  has_contract_file = i.contract != "";
}

unfoldable pub dependency_info : Dependency → DependencyInfo
dependency_info d = record {
  name = d.name;
  ref = d.ref;
  required = d.required;
  compatibility = d.compatibility;
}

abbrev pub lifecycle_seconds : Runtime → Option ℤ
lifecycle_seconds r = elim r.lifecycle [
  | none ↦ none
  | some l ↦ optional_int32 l.graceful_shutdown_seconds
]

unfoldable pub runtime_info : Runtime → RuntimeInfo
runtime_info r = record {
  workload = r.workload;
  state_type = r.state.type;
  persistence_scope = r.state.persistence.scope;
  persistence_durability = r.state.persistence.durability;
  data_criticality = r.state.data_criticality;
  upgrade_strategy = elim r.lifecycle [ none ↦ "" | some l ↦ l.upgrade_strategy ];
  graceful_shutdown_seconds = lifecycle_seconds r;
  health_interface = elim r.health [ none ↦ "" | some h ↦ h.interface ];
  health_path = elim r.health [ none ↦ "" | some h ↦ h.path ];
  metrics_interface = elim r.metrics [ none ↦ "" | some m ↦ m.interface ];
  metrics_path = elim r.metrics [ none ↦ "" | some m ↦ m.path ];
  health_initial_delay_seconds = elim r.health [
    | none ↦ none
    | some h ↦ optional_int32 h.initial_delay_seconds
  ];
}

unfoldable pub scaling_info : Scaling → ScalingInfo
scaling_info s = record {
  replicas = optional_int32 s.replicas;
  min = if ltb_ℤ (pos 0) s.min then some (int32 s.min) else none;
  max = if ltb_ℤ (pos 0) s.max then some (int32 s.max) else none;
}

-- `fmt.Sprintf("%v", v)`
abbrev pub print_value : Value → String
print_value (string_value s) = s
print_value (other_value s) = s

unfoldable pub metadata_texts : List (String × Value) → List (String × String)
metadata_texts [] = []
metadata_texts (entry ∷ m) = (entry.0, print_value entry.1) ∷ metadata_texts m

module _ (lib : Library) where
  -- `schemaPropsFromBundle` and `schemaMetaFromBundle`
  unfoldable pub schema_props_from_bundle :
      Option (String → Option String) → String → List SchemaProperty
  schema_props_from_bundle fs path = elim (read_bundle fs path) [
    | none ↦ []
    | some data_read ↦ lib.schema_properties data_read path
  ]

  unfoldable pub schema_meta_from_bundle :
      Option (String → Option String) → String → String × String
  schema_meta_from_bundle fs path = elim (read_bundle fs path) [
    | none ↦ ("", "")
    | some data_read ↦ lib.schema_meta data_read path
  ]

  abbrev pub values_or_empty : ConfigurationSource → List (String × Value)
  values_or_empty cfg = elim cfg.values [ none ↦ [] | some m ↦ m ]

  unfoldable pub configuration_info :
      Option (String → Option String) → ConfigurationSource → ConfigurationInfo
  configuration_info fs cfg =
      let m = values_or_empty cfg in
      record {
        name = cfg.name;
        has_schema = cfg.schema != "";
        ref = cfg.ref;
        value_keys = sort_strings (value_keys m);
        secret_keys = sort_strings (secret_keys m);
        overridden_keys = [];
        properties =
            if not (is_empty m)
            then lib.schema_values m
            else if cfg.schema != ""
            then schema_props_from_bundle fs cfg.schema
            else [];
      }

  unfoldable pub policy_info : Option (String → Option String) → PolicySource → PolicyInfo
  policy_info fs pol =
      let meta = schema_meta_from_bundle fs pol.schema in
      record {
        name = pol.name;
        has_schema = pol.schema != "";
        schema = pol.schema;
        ref = pol.ref;
        title = if pol.schema != "" then meta.0 else "";
        description = if pol.schema != "" then meta.1 else "";
        properties = if pol.schema != "" then schema_props_from_bundle fs pol.schema else [];
      }

  unfoldable pub contract_info : LoadResult → ContractInfo
  contract_info lr =
      let service = lr.contract.service in
      record {
        service_name = service.name;
        version = service.version;
        owner = map_owner_to_info lib.owner_is_empty service.owner;
        owner_display =
            if lib.owner_is_empty service.owner then "" else lib.owner_display service.owner;
        image_ref = elim service.image [ none ↦ "" | some i ↦ i.ref ];
        resolved_ref = lr.resolved_ref;
      }

  -- `populateContractStatus`; the interfaces and dependencies are appended to those that are there.
  unfoldable pub populate_contract_status : Pacto → LoadResult → Pacto
  populate_contract_status p lr =
      let c = lr.contract in
      record p {
        status = record (p.status) {
          contract = some (contract_info lr);
          interfaces = p.status.interfaces ++ map interface_info c.interfaces;
          configurations = map (configuration_info lr.bundle_fs) c.configurations;
          dependencies = p.status.dependencies ++ map dependency_info c.dependencies;
          policies = map (policy_info lr.bundle_fs) c.policies;
          runtime = elim c.runtime [ none ↦ p.status.runtime | some r ↦ some (runtime_info r) ];
          scaling = elim c.scaling [ none ↦ p.status.scaling | some s ↦ some (scaling_info s) ];
          metadata =
              if not (is_empty c.metadata) then metadata_texts c.metadata else p.status.metadata;
        };
      }
