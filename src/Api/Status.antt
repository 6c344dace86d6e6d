-- ===== src/Api/Status.antt =====
-- The observed state of a Pacto, api/v1alpha1/pacto_types.go.
use pacto_operator.Prelude.{String, Bool, Option, List, ℕ, ℤ}
use pacto_operator.Message.{Message}
use pacto_operator.Api.Conditions.{ConditionType, ConditionStatus, Reason}
use pacto_operator.Api.Conditions.{ContractStatus, ResolutionPolicy}

pub record ResourceStatus : Type 0 where
  pub name : String
  pub kind : String
  pub exists : Bool

pub record PortStatus : Type 0 where
  pub expected : List ℤ
  pub observed : List ℤ
  pub missing : List ℤ
  pub unexpected : List ℤ

-- The three counters are never negative: each is a number below 2 ^ 32.
pub record CheckSummary : Type 0 where
  pub total : ℕ
  pub passed : ℕ
  pub failed : ℕ

pub record ReadinessRevisionStatus : Type 0 where
  pub date : String
  pub version : String
  pub author : String
  pub description : String

pub record ReadinessCheckStatus : Type 0 where
  pub id : String
  pub type : String
  pub category : String
  pub status : String
  pub evidence : String
  pub description : String
  pub weight : ℤ
  pub earned_weight : ℤ
  pub excluded : Bool

pub record ReadinessStatus : Type 0 where
  pub score : ℤ
  pub min_score : ℤ
  pub passing : Bool
  pub total_weight : ℤ
  pub earned_weight : ℤ
  pub expires : String
  pub expired : Bool
  pub days_remaining : Option ℤ
  pub done_count : ℤ
  pub partial_count : ℤ
  pub not_done_count : ℤ
  pub deferred_count : ℤ
  pub revisions : List ReadinessRevisionStatus
  pub checks : List ReadinessCheckStatus

pub record ResourcesStatus : Type 0 where
  pub service : Option ResourceStatus
  pub workload : Option ResourceStatus

pub record OwnerContact : Type 0 where
  pub type : String
  pub value : String
  pub purpose : String

pub record OwnerInfo : Type 0 where
  pub team : String
  pub dri : String
  pub contacts : List OwnerContact

pub record ContractInfo : Type 0 where
  pub service_name : String
  pub version : String
  pub owner : Option OwnerInfo
  pub owner_display : String
  pub image_ref : String
  pub resolved_ref : String

pub record InterfaceInfo : Type 0 where
  pub name : String
  pub type : String
  pub port : Option ℤ
  pub visibility : String
  pub has_contract_file : Bool

pub record SchemaProperty : Type 0 where
  pub key : String
  pub value : String
  pub type : String

pub record ConfigurationInfo : Type 0 where
  pub name : String
  pub has_schema : Bool
  pub ref : String
  pub value_keys : List String
  pub secret_keys : List String
  pub overridden_keys : List String
  pub properties : List SchemaProperty

pub record DependencyInfo : Type 0 where
  pub name : String
  pub ref : String
  pub required : Bool
  pub compatibility : String

pub record PolicyInfo : Type 0 where
  pub name : String
  pub has_schema : Bool
  pub schema : String
  pub ref : String
  pub title : String
  pub description : String
  pub properties : List SchemaProperty

pub record RuntimeInfo : Type 0 where
  pub workload : String
  pub state_type : String
  pub persistence_scope : String
  pub persistence_durability : String
  pub data_criticality : String
  pub upgrade_strategy : String
  pub graceful_shutdown_seconds : Option ℤ
  pub health_interface : String
  pub health_path : String
  pub metrics_interface : String
  pub metrics_path : String
  pub health_initial_delay_seconds : Option ℤ

pub record ObservedRuntime : Type 0 where
  pub workload_kind : String
  pub deployment_strategy : String
  pub pod_management_policy : String
  pub termination_grace_period_seconds : Option ℤ
  pub container_images : List String
  pub has_pvc : Bool
  pub has_empty_dir : Bool
  pub health_probe_initial_delay_seconds : Option ℤ

pub record ScalingInfo : Type 0 where
  pub replicas : Option ℤ
  pub min : Option ℤ
  pub max : Option ℤ

pub record EndpointCheckResult : Type 0 where
  pub url : Message
  pub reachable : Bool
  pub status_code : ℤ
  pub latency_ms : ℕ
  pub error : Message

pub record EndpointsStatus : Type 0 where
  pub health : Option EndpointCheckResult
  pub metrics : Option EndpointCheckResult

pub record ValidationIssue : Type 0 where
  pub code : String
  pub path : String
  pub message : Message

pub record ValidationResult : Type 0 where
  pub valid : Bool
  pub errors : List ValidationIssue
  pub warnings : List ValidationIssue

-- `metav1.Condition`, without the transition time, which only the library reads and writes.
pub record Condition : Type 0 where
  pub type : ConditionType
  pub status : ConditionStatus
  pub observed_generation : ℤ
  pub reason : Reason
  pub message : Message

pub record PactoStatus : Type 0 where
  pub contract_status : ContractStatus
  pub resolution_policy : ResolutionPolicy
  pub summary : Option CheckSummary
  pub contract_version : String
  pub contract : Option ContractInfo
  pub validation : Option ValidationResult
  pub resources : Option ResourcesStatus
  pub ports : Option PortStatus
  pub endpoints : Option EndpointsStatus
  pub interfaces : List InterfaceInfo
  pub configurations : List ConfigurationInfo
  pub dependencies : List DependencyInfo
  pub policies : List PolicyInfo
  pub runtime : Option RuntimeInfo
  pub observed_runtime : Option ObservedRuntime
  pub scaling : Option ScalingInfo
  pub readiness : Option ReadinessStatus
  pub metadata : List (String × String)
  pub conditions : List Condition
  pub current_revision : String
  -- nanoseconds since the epoch
  pub last_reconciled_at : Option ℕ
  pub observed_generation : ℤ
