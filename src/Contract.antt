-- ===== src/Contract.antt =====
-- The contract of the library github.com/trianalab/pacto/v2 (pkg/contract), which is not part of the
-- repository: its records are parameters of the model, cut down to the fields that the operator
-- reads. A pointer is an `Option`, an `int` is a ℤ, and a map is an association list.
use pacto_operator.Prelude.{String, Bool, Option, List, ℤ}

-- A value of type `any`: a text, or anything else by what `%v` prints of it.
pub data Value : Type 0 where
  string_value : String → Value
  other_value : String → Value

pub record Contact : Type 0 where
  pub type : String
  pub value : String
  pub purpose : String

pub record Owner : Type 0 where
  pub team : String
  pub dri : String
  pub contacts : List Contact

pub record Image : Type 0 where
  pub ref : String

pub record Service : Type 0 where
  pub name : String
  pub version : String
  pub owner : Owner
  pub image : Option Image

pub record Interface : Type 0 where
  pub name : String
  pub type : String
  pub port : Option ℤ
  pub visibility : String
  pub contract : String

pub record ConfigurationSource : Type 0 where
  pub name : String
  pub schema : String
  pub ref : String
  -- `none` is the nil map
  pub values : Option (List (String × Value))

pub record Dependency : Type 0 where
  pub name : String
  pub ref : String
  pub required : Bool
  pub compatibility : String

pub record PolicySource : Type 0 where
  pub name : String
  pub schema : String
  pub ref : String

pub record Persistence : Type 0 where
  pub scope : String
  pub durability : String

pub record State : Type 0 where
  pub type : String
  pub persistence : Persistence
  pub data_criticality : String

pub record Lifecycle : Type 0 where
  pub upgrade_strategy : String
  pub graceful_shutdown_seconds : Option ℤ

pub record Health : Type 0 where
  pub interface : String
  pub path : String
  pub initial_delay_seconds : Option ℤ

pub record Metrics : Type 0 where
  pub interface : String
  pub path : String

pub record Runtime : Type 0 where
  pub workload : String
  pub state : State
  pub lifecycle : Option Lifecycle
  pub health : Option Health
  pub metrics : Option Metrics

pub record Scaling : Type 0 where
  pub replicas : Option ℤ
  pub min : ℤ
  pub max : ℤ

pub record ReadinessRevision : Type 0 where
  pub date : String
  pub version : String
  pub author : String
  pub description : String

pub record Readiness : Type 0 where
  pub history : List ReadinessRevision
  -- the checks and thresholds, which only the library reads
  pub declaration : String

pub record Contract : Type 0 where
  pub service : Service
  pub interfaces : List Interface
  pub configurations : List ConfigurationSource
  pub dependencies : List Dependency
  pub policies : List PolicySource
  pub runtime : Option Runtime
  pub scaling : Option Scaling
  pub metadata : List (String × Value)
  pub readiness : Option Readiness
