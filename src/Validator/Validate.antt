-- ===== src/Validator/Validate.antt =====
-- `Validate` and `computeContractStatus` of internal/validator/validator.go.
use pacto_operator.Prelude.{Bool, true, false, ◌&&◌, Option, none, some, List, []}
use pacto_operator.Prelude.{◌∷◌, ◌++◌, ◌!=◌, string_eq, if◌then◌else◌}
use pacto_operator.Message.{text, sprintf, str, done}
use pacto_operator.Contract.{Contract, Runtime, Lifecycle, Service}
use pacto_operator.Api.Conditions.{service_exists, workload_exists, found, not_found, Severity}
use pacto_operator.Api.Conditions.{ContractStatus, compliant, non_compliant, is_resource}
use pacto_operator.Observer.{RuntimeSnapshot}
use pacto_operator.Validator.Check.{Check, PortsResult, Result}
use pacto_operator.Validator.RuntimeChecks.{report, check_workload_type, check_state_model}
use pacto_operator.Validator.RuntimeChecks.{check_upgrade_strategy, check_graceful_shutdown}
use pacto_operator.Validator.RuntimeChecks.{check_image, check_health_timing}
use pacto_operator.Validator.Ports.{contract_ports, check_ports}

unfoldable pub check_service_exists : RuntimeSnapshot → Check
check_service_exists snap =
    if snap.service_exists
    then report service_exists true found (text "Service exists") Severity.unset
    else report service_exists false not_found (text "Service not found") Severity.unset

unfoldable pub check_workload_exists : RuntimeSnapshot → Check
check_workload_exists snap =
    if snap.workload_exists
    then report workload_exists true found (sprintf "%s exists" (str snap.workload_kind done))
        Severity.unset
    else report workload_exists false not_found
        (sprintf "%s not found" (str snap.workload_kind done)) Severity.unset

-- The checks of the lifecycle section.
unfoldable pub lifecycle_checks : Option Lifecycle → RuntimeSnapshot → List Check
lifecycle_checks none snap = []
lifecycle_checks (some l) snap =
    (if l.upgrade_strategy != "" then check_upgrade_strategy l.upgrade_strategy snap ∷ [] else [])
    ++ elim l.graceful_shutdown_seconds [ none ↦ [] | some s ↦ check_graceful_shutdown s snap ∷ [] ]

unfoldable pub image_checks : Service → RuntimeSnapshot → List Check
image_checks s snap = elim s.image [
  | none ↦ []
  | some i ↦ if i.ref != "" then check_image i.ref snap ∷ [] else []
]

unfoldable pub health_checks : Runtime → RuntimeSnapshot → List Check
health_checks r snap = elim r.health [
  | none ↦ []
  | some h ↦ elim h.initial_delay_seconds [ none ↦ [] | some d ↦ check_health_timing d snap ∷ [] ]
]

-- The checks of a workload that exists against a declared runtime.
unfoldable pub runtime_checks : Service → Runtime → RuntimeSnapshot → List Check
unfolding lifecycle_checks image_checks health_checks
runtime_checks s r snap =
    check_workload_type r snap
    ∷ check_state_model r snap
    ∷ (lifecycle_checks r.lifecycle snap ++ (image_checks s snap ++ health_checks r snap))

abbrev pub no_ports : PortsResult
no_ports = record { expected = []; observed = []; missing = []; unexpected = [] }

-- The ports step: its checks and its comparison.
unfoldable pub ports_step : Contract → RuntimeSnapshot → Bool → List Check × PortsResult
ports_step c snap has_service =
    if has_service && snap.service_exists
    then (let (check, ports) = check_ports c.interfaces snap in (check ∷ [], ports))
    else if has_service
    then ([], record no_ports { expected = contract_ports c.interfaces })
    else ([], no_ports)

unfoldable pub runtime_step : Contract → RuntimeSnapshot → List Check
unfolding runtime_checks
runtime_step c snap =
    if snap.workload_exists
    then elim c.runtime [ none ↦ [] | some r ↦ runtime_checks c.service r snap ]
    else []

-- `Validate`
unfoldable pub validate : Contract → RuntimeSnapshot → Bool → Result
unfolding check_service_exists check_workload_exists ports_step runtime_step
validate c snap has_service =
    let (port_checks, ports) = ports_step c snap has_service in
    record {
      checks =
          (if has_service then check_service_exists snap ∷ [] else [])
          ++ (check_workload_exists snap ∷ (port_checks ++ runtime_step c snap));
      ports = ports;
    }

-- The end of `computeContractStatus`, from its two flags.
abbrev pub verdict : Bool → Bool → ContractStatus
verdict has_resource_failure has_other_failure =
    if has_resource_failure
    then non_compliant
    else if has_other_failure
    then ContractStatus.warning
    else compliant

-- The loop of `computeContractStatus`.
unfoldable pub status_loop : List Check → Bool → Bool → ContractStatus
status_loop [] resource other = verdict resource other
status_loop (c ∷ cs) resource other =
    status_loop cs (if c.passed then resource else if is_resource c.name then true else resource)
      (if c.passed then other else if is_resource c.name then other else true)

unfoldable pub compute_contract_status : List Check → ContractStatus
unfolding status_loop
compute_contract_status checks = status_loop checks false false
