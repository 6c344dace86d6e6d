-- ===== src/Api/Conditions.antt =====
-- The named constants of api/v1alpha1/conditions.go. Each group of Go string constants is a data
-- type, so two constants are equal exactly when they are one constant.
use pacto_operator.Prelude.{Bool, true, false, Eq}

pub data ConditionType : Type 0 where
  contract_valid service_exists workload_exists ports_valid : ConditionType
  health_endpoint_valid metrics_endpoint_valid : ConditionType
  workload_type_match state_model_match upgrade_strategy_match : ConditionType
  graceful_shutdown_match image_match health_timing_match : ConditionType
  readiness_satisfied runtime_observed : ConditionType

pub ConditionType-discrete : Discrete ConditionType
ConditionType-discrete = hlevel

instance unfoldable pub condition_type_eq : Eq ConditionType
unfolding ConditionType-discrete
condition_type_eq = record { dec = ConditionType-discrete }

-- `ConditionStatus` of apimachinery; the operator never writes Unknown, and may read it.
pub data ConditionStatus : Type 0 where
  condition_true condition_false condition_unknown : ConditionStatus

pub data Reason : Type 0 where
  parsed invalid : Reason
  found not_found : Reason
  ports_match missing_ports : Reason
  reference_only : Reason
  endpoint_ok endpoint_connection_error endpoint_invalid_status : Reason
  endpoint_empty_response endpoint_not_declared endpoint_no_port : Reason
  endpoint_interface_missing : Reason
  match mismatch missing skipped : Reason
  observation_failed : Reason
  readiness_ok readiness_below_min_score readiness_expired : Reason
  -- the empty text
  unstated : Reason

pub Reason-discrete : Discrete Reason
Reason-discrete = hlevel

instance unfoldable pub reason_eq : Eq Reason
unfolding Reason-discrete
reason_eq = record { dec = Reason-discrete }

pub data EventReason : Type 0 where
  readiness_gate_unmet readiness_recovered : EventReason
  event_contract_invalid event_validation_failed event_observation_failed : EventReason
  event_revision_created event_tag_overwritten : EventReason

-- `unset` is the empty text.
pub data Severity : Type 0 where
  unset error warning : Severity

pub data ContractStatus : Type 0 where
  unset compliant warning non_compliant reference unknown : ContractStatus

pub ContractStatus-discrete : Discrete ContractStatus
ContractStatus-discrete = hlevel

instance unfoldable pub contract_status_eq : Eq ContractStatus
unfolding ContractStatus-discrete
contract_status_eq = record { dec = ContractStatus-discrete }

pub data ResolutionPolicy : Type 0 where
  unset latest pinned_tag pinned_digest : ResolutionPolicy

-- The two conditions that speak of a missing resource.
abbrev pub is_resource : ConditionType → Bool
is_resource service_exists = true
is_resource workload_exists = true
is_resource _ = false
