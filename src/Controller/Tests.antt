-- ===== src/Controller/Tests.antt =====
-- Reconciliations at a concrete Pacto, contract and cluster.
use pacto_operator.Prelude.{
  Bool, true, false, not, none, some, [], ◌∷◌, ◌++◌, ◌≡◌, refl, ◌↔◌, ℕ, ℤ, pos,
}
use pacto_operator.Prelude.{Option, ltb, if◌then◌else◌, string_eq, select, int_eq}
use pacto_operator.Message.{Message, text}
use pacto_operator.Contract.{Readiness}
use pacto_operator.Api.Conditions.{
  condition_true, condition_false, condition_type_eq, contract_valid, readiness_satisfied, parsed,
  readiness_below_min_score, ContractStatus,
}
use pacto_operator.Api.Status.{Condition, PactoStatus}
use pacto_operator.Api.Pacto.{Pacto}
use pacto_operator.Observer.{RuntimeSnapshot, blank}
use pacto_operator.Prober.{Answer, response}
use pacto_operator.Validator.Check.{Result}
use pacto_operator.Validator.Validate.{validate, compute_contract_status}
use pacto_operator.Validator.RuntimeChecks.{check_workload_type, workload_fits, check_state_model}
use pacto_operator.Validator.Ports.{check_ports, ports_check, compare_ports, contract_ports}
use pacto_operator.Validator.Verdict.{worse}
use pacto_operator.Controller.Lists.{lists, lists-IsLawful}
use pacto_operator.Controller.Status.{compute_final_contract_status, apply_validation_result}
use pacto_operator.Controller.Summary.{
  AllNew, compute_final_contract_status-apply_validation_result,
  compute_final_contract_status-readiness,
}
use pacto_operator.Controller.Probed.{compute_final_contract_status-probe_endpoints}
use pacto_operator.Controller.Counts.{summary_of, summary-reconciliation}
use pacto_operator.Controller.Probes.{
  ProbeSpec, probe_one_endpoint, probe_endpoints, iface_port, health_spec,
}
use pacto_operator.Controller.Probes.Verdicts.{Serves, url_at, probe_one_endpoint-passed}
use pacto_operator.Controller.Readiness.{Evaluation, reconcile_readiness, readiness_was_unmet}
use pacto_operator.Controller.Readiness.Gate.{events, transition, reconcile_readiness-events}
use pacto_operator.Controller.Examples.{empty_status, web_pacto, web_interfaces, web_contract}

abbrev web_snapshot : RuntimeSnapshot
web_snapshot = record (blank "Deployment") {
  service_exists = true;
  workload_exists = true;
  service_ports = pos 80 ∷ [];
}

abbrev always_ok : Message → Answer
always_ok url = response 12 (pos 200) "fine"

abbrev contract_condition : Condition
contract_condition = record {
  type = contract_valid;
  status = condition_true;
  observed_generation = pos 3;
  reason = parsed;
  message = text "";
}

abbrev unready_condition : Condition
unready_condition = record {
  type = readiness_satisfied;
  status = condition_false;
  observed_generation = pos 3;
  reason = readiness_below_min_score;
  message = text "";
}

abbrev unready_status : PactoStatus
unready_status = record empty_status { conditions = contract_condition ∷ unready_condition ∷ [] }

abbrev web_result : Result
web_result = validate web_contract web_snapshot true

abbrev ready_at : ℤ → Bool → Evaluation
ready_at score passing = record {
  score = score;
  min_score = pos 80;
  passing = passing;
  total_weight = pos 100;
  earned_weight = score;
  expires = "";
  expired = false;
  days_remaining = none;
  done_count = pos 1;
  partial_count = pos 0;
  not_done_count = pos 1;
  deferred_count = pos 0;
  checks = [];
}

-- Below the gate before the time 10, above it from then on.
abbrev evaluate : Option Readiness → ℕ → Option Evaluation
evaluate decl now = some (if ltb now 10 then ready_at (pos 50) false else ready_at (pos 90) true)

web_result-AllNew : AllNew web_result.checks unready_status.conditions
unfolding validate check_workload_type workload_fits check_state_model string_eq int_eq check_ports
    ports_check compare_ports contract_ports select condition_type_eq
web_result-AllNew = (refl, (refl, (refl, (refl, (refl, tt)))))

compute_final_contract_status-readiness_example :
    compute_final_contract_status unready_status ≡ ContractStatus.warning
compute_final_contract_status-readiness_example =
    compute_final_contract_status-readiness unready_status (contract_condition ∷ [])
      unready_condition [] refl (refl, tt) tt refl refl

compute_final_contract_status-apply_validation_result_example :
    let p : Pacto = record web_pacto { status = unready_status } in
    compute_final_contract_status
      (apply_validation_result lists p web_result web_snapshot "web" "web" "Deployment").status
    ≡ worse
        (compute_final_contract_status unready_status)
        (compute_contract_status web_result.checks)
compute_final_contract_status-apply_validation_result_example =
    compute_final_contract_status-apply_validation_result lists lists-IsLawful
      (record web_pacto { status = unready_status }) web_contract web_snapshot true "web" "web"
      "Deployment" web_result-AllNew

summary-reconciliation_example :
    let q =
      apply_validation_result lists web_pacto web_result web_snapshot "web" "web" "Deployment" in
    (probe_endpoints lists always_ok q web_contract "web").0.status.summary
    ≡ some
        (summary_of (web_result.checks ++ (probe_endpoints lists always_ok q web_contract "web").1))
summary-reconciliation_example =
    summary-reconciliation lists always_ok web_pacto web_result web_snapshot "web" "web"
      "Deployment" web_contract

abbrev web_health : ProbeSpec
web_health = health_spec web_pacto web_interfaces "web" "http" "healthz"

probe_one_endpoint-passed_example : ((probe_one_endpoint always_ok web_health).0.passed ≡ true) ↔ (
    (port : ℤ) × (iface_port "http" web_interfaces ≡ some port)
    × Serves false (always_ok (url_at web_health port)))
probe_one_endpoint-passed_example = probe_one_endpoint-passed always_ok web_health

reconcile_readiness-events_example :
    let q = (reconcile_readiness lists evaluate 5 web_pacto web_contract false).0 in
    events (reconcile_readiness lists evaluate 12 q web_contract (readiness_was_unmet lists q)).1
    ≡ transition true (not false)
reconcile_readiness-events_example =
    reconcile_readiness-events lists evaluate lists-IsLawful 5 12 web_pacto web_contract false
      (ready_at (pos 50) false) (ready_at (pos 90) true) refl refl

compute_final_contract_status-probe_endpoints_example :
    compute_final_contract_status
      (probe_endpoints lists always_ok web_pacto web_contract "web").0.status
    ≡ worse
        (compute_final_contract_status empty_status)
        (compute_contract_status (probe_endpoints lists always_ok web_pacto web_contract "web").1)
compute_final_contract_status-probe_endpoints_example =
    compute_final_contract_status-probe_endpoints lists lists-IsLawful always_ok web_pacto
      web_contract "web" refl refl
