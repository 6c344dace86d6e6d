-- ===== src/Controller/Runtime.antt =====
-- Steps 8 to 15 of `Reconcile` of internal/controller/pacto_controller.go: the reference, and the
-- observation, validation and probing of a target.
use pacto_operator.Prelude.{true, false, some, List, [], ◌∷◌, ◌++◌}
use pacto_operator.Prelude.{◌!=◌, string_eq, if◌then◌else◌}
use pacto_operator.Message.{Message, sprintf, str, msg, done}
use pacto_operator.Contract.{Contract}
use pacto_operator.Api.Conditions.{
  contract_valid, runtime_observed, condition_true, condition_false, reference_only,
  observation_failed, unstated, Severity, ContractStatus, reference, event_observation_failed,
}
use pacto_operator.Api.Spec.{is_reference, resolved_workload}
use pacto_operator.Api.Pacto.{Pacto}
use pacto_operator.Observer.{RuntimeSnapshot, ok, err, observe}
use pacto_operator.Validator.Validate.{validate}
use pacto_operator.Controller.Effects.{Effect, event, EventType}
use pacto_operator.Controller.Status.{
  set_condition, apply_validation_result, compute_final_contract_status,
}
use pacto_operator.Controller.Probes.{probe_endpoints}
use pacto_operator.Controller.Finish.{Run, contract_check, one_of_one, finish_reconciliation}
use pacto_operator.Controller.Environment.{Environment, observed_runtime_of, about}

module _ {S A : Type 0} (env : Environment S A) where
  -- Steps 12 to 15: the checks against the snapshot, the probes and the final status.
  unfoldable pub reconcile_observed : Pacto → Contract → RuntimeSnapshot → List Effect → Run
  reconcile_observed p c snap before =
      let (workload_name, workload_kind) = resolved_workload p.spec in
      let service_name = p.spec.target.service_name in
      let observed : Pacto = record p {
        status = record (p.status) {
          observed_runtime = observed_runtime_of snap p.status.observed_runtime;
        };
      } in
      let result = validate c snap (service_name != "") in
      let applied =
        apply_validation_result env.lists observed result snap service_name workload_name
          workload_kind in
      let probes = probe_endpoints env.lists env.http_get applied c service_name in
      let probed = if snap.service_exists then probes.0 else applied in
      let endpoint_checks = if snap.service_exists then probes.1 else [] in
      finish_reconciliation env.lists env.update_status env.now
        (record probed {
          status = record (probed.status) {
            contract_status = compute_final_contract_status probed.status;
          };
        })
        c (contract_check true ∷ (result.checks ++ endpoint_checks)) before

  -- Step 10, where the observation fails.
  unfoldable pub reconcile_unobserved : Pacto → Contract → Message → List Effect → Run
  reconcile_unobserved p c e before =
      let message = sprintf "failed to observe runtime state: %v" (msg e done) in
      let q =
        set_condition env.lists p runtime_observed condition_false observation_failed message in
      finish_reconciliation env.lists env.update_status env.now
        (record q {
          status = record (q.status) {
            contract_status = ContractStatus.unknown;
            summary = some (one_of_one false);
          };
        })
        c
        (contract_check true
          ∷ record {
            name = runtime_observed;
            passed = false;
            reason = unstated;
            message = message;
            severity = Severity.error;
          }
          ∷ [])
        (before
          ++ (event EventType.warning event_observation_failed (
                sprintf "Could not observe runtime state for %q: %v"
                  (str p.spec.target.service_name (msg e done)))
              ∷ []))

  -- Step 8, for a contract without a target.
  unfoldable pub reconcile_reference : Pacto → Contract → List Effect → Run
  reconcile_reference p c before =
      let q =
        set_condition env.lists p contract_valid condition_true reference_only
          (about "Reference contract %s v%s is valid" c) in
      finish_reconciliation env.lists env.update_status env.now
        (record q {
          status = record (q.status) {
            contract_status = reference;
            summary = some (one_of_one true);
          };
        })
        c (contract_check true ∷ []) before

  -- Steps 9 and 10: the target is observed.
  unfoldable pub reconcile_target : Pacto → Contract → List Effect → Run
  reconcile_target p c before =
      let (workload_name, workload_kind) = resolved_workload p.spec in
      elim (observe (env.cluster p.namespace) p.spec.target.service_name workload_name
        workload_kind) [
          | err e ↦ reconcile_unobserved p c e before
          | ok snap ↦ reconcile_observed p c snap before
        ]

  unfoldable pub reconcile_runtime : Pacto → Contract → List Effect → Run
  reconcile_runtime p c before =
      if is_reference p.spec then reconcile_reference p c before else reconcile_target p c before
