-- ===== src/Validator/Tests.antt =====
-- Validations at concrete contracts and snapshots, and the validator's theorems at them.
use pacto_operator.Prelude.{◌<>◌, true, none, some, List, [], ◌∷◌, ◌≡◌, refl, ◌↔◌}
use pacto_operator.Prelude.{pos, int_eq, string_eq, select, Distinct}
use pacto_operator.Prelude.{has_char, index, last_index, take, drop}
use pacto_operator.Prelude.TextLaws.{◌∷ₛ◌}
use pacto_operator.Contract.{Contract, Interface, Runtime, Service}
use pacto_operator.Api.Conditions.{condition_type_eq, compliant, ContractStatus}
use pacto_operator.Observer.{RuntimeSnapshot, blank}
use pacto_operator.Validator.Compliance.{StateFits, check_state_model-passed}
use pacto_operator.Validator.Check.{Check}
use pacto_operator.Validator.Image.{
  image_matches, matches_normalized, normalize_image_ref, has_registry, has_tag, actual_repo,
  drop_tag,
}
use pacto_operator.Validator.ImageLaws.{image_matches-any_tag}
use pacto_operator.Validator.RuntimeChecks.{
  check_state_model, check_workload_type, workload_fits, check_upgrade_strategy, compare_strategy,
  strategy_fits, check_graceful_shutdown, check_image,
}
use pacto_operator.Validator.Ports.{contract_ports, check_ports, compare_ports, ports_check}
use pacto_operator.Validator.PortsDiff.{AllPresent, check_ports-passed}
use pacto_operator.Validator.Validate.{validate, compute_contract_status, status_loop}
use pacto_operator.Validator.Verdict.{Passes}
use pacto_operator.Validator.Coverage.{
  names, is_due, validation_order, names-validate, validate-Distinct,
}
use pacto_operator.Validator.Outcome.{Complies, validate-compliant}

abbrev web_interfaces : List Interface
web_interfaces =
    record {
      name = "http";
      type = "http";
      port = some (pos 80);
      visibility = "public";
      contract = "";
    }
    ∷ record {
      name = "grpc";
      type = "grpc";
      port = some (pos 90);
      visibility = "public";
      contract = "";
    }
    ∷ []

abbrev web_runtime : Runtime
web_runtime = record {
  workload = "service";
  state = record {
    type = "stateless";
    persistence = record { scope = "local"; durability = "ephemeral" };
    data_criticality = "low";
  };
  lifecycle =
      some (record { upgrade_strategy = "rolling"; graceful_shutdown_seconds = some (pos 30) });
  health = none;
  metrics = none;
}

abbrev web_service : Service
web_service = record {
  name = "web";
  version = "1.0.0";
  owner = record { team = ""; dri = ""; contacts = [] };
  image = some (record { ref = "web" });
}

abbrev web_contract : Contract
web_contract = record {
  service = web_service;
  interfaces = web_interfaces;
  configurations = [];
  dependencies = [];
  policies = [];
  runtime = some web_runtime;
  scaling = none;
  metadata = [];
  readiness = none;
}

abbrev web_snapshot : RuntimeSnapshot
web_snapshot = record (blank "Deployment") {
  service_exists = true;
  workload_exists = true;
  service_ports = pos 80 ∷ pos 443 ∷ [];
  deployment_strategy = "RollingUpdate";
  termination_grace_period = some (pos 30);
  container_images = "web:1.2" ∷ [];
}

abbrev web_checks : List Check
web_checks = (validate web_contract web_snapshot true).checks

-- The missing port is a warning, and every other check passes.
web_status : compute_contract_status web_checks ≡ ContractStatus.warning
unfolding compute_contract_status status_loop validate check_workload_type workload_fits
    check_state_model check_upgrade_strategy compare_strategy strategy_fits check_graceful_shutdown
    check_image image_matches matches_normalized normalize_image_ref has_registry has_tag
    actual_repo drop_tag has_char index last_index take drop string_eq int_eq check_ports
    ports_check compare_ports contract_ports select
web_status = refl

registry_port_is_no_tag : image_matches "localhost:5000/web" "localhost:5000/web:1" ≡ true
unfolding image_matches matches_normalized normalize_image_ref has_registry has_tag actual_repo
    drop_tag has_char index last_index take drop string_eq
registry_port_is_no_tag = refl

check_state_model-passed_example :
    Passes (check_state_model web_runtime web_snapshot) ↔ StateFits web_runtime web_snapshot
check_state_model-passed_example = check_state_model-passed web_runtime web_snapshot

check_ports-passed_example :
    Passes (check_ports web_interfaces web_snapshot).0
    ↔ AllPresent web_snapshot.service_ports web_interfaces
check_ports-passed_example = check_ports-passed web_interfaces web_snapshot

names-validate_example :
    names web_checks ≡ select (is_due web_contract web_snapshot true) validation_order
names-validate_example = names-validate web_contract web_snapshot true

validate-Distinct_example : Distinct (names web_checks)
validate-Distinct_example = validate-Distinct web_contract web_snapshot true

validate-compliant_example :
    (compute_contract_status web_checks ≡ compliant) ↔ Complies web_contract web_snapshot true
validate-compliant_example = validate-compliant web_contract web_snapshot true

image_matches-any_tag_example : image_matches "team/web" ("team/web" <> (":" ∷ₛ "1.2.3")) ≡ true
unfolding has_tag has_char last_index drop
image_matches-any_tag_example = image_matches-any_tag "team/web" "1.2.3" refl refl refl refl refl
