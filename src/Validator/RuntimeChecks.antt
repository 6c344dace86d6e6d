-- ===== src/Validator/RuntimeChecks.antt =====
-- The checks of internal/validator/runtime_checks.go. A check that reads a section of the contract
-- takes that section, which the caller has found to be present.
use pacto_operator.Prelude.{String, Bool, true, false, ◌&&◌, ◌||◌, not, none, some, []}
use pacto_operator.Prelude.{◌∷◌, ℤ, int_eq, int32, ◌==◌, ◌!=◌, string_eq, if◌then◌else◌}
use pacto_operator.Message.{Message, text, sprintf, str, int, done}
use pacto_operator.Contract.{Runtime}
use pacto_operator.Api.Conditions.{ConditionType, workload_type_match, state_model_match}
use pacto_operator.Api.Conditions.{upgrade_strategy_match, graceful_shutdown_match, image_match}
use pacto_operator.Api.Conditions.{health_timing_match, Reason, match, mismatch, missing, skipped}
use pacto_operator.Api.Conditions.{Severity, error, warning}
use pacto_operator.Observer.{RuntimeSnapshot}
use pacto_operator.Validator.Check.{Check}
use pacto_operator.Validator.Image.{image_matches}

abbrev pub report : ConditionType → Bool → Reason → Message → Severity → Check
report name passed reason message severity = record {
  name = name;
  passed = passed;
  reason = reason;
  message = message;
  severity = severity;
}

-- The `switch` over the declared workload.
unfoldable pub workload_fits : String → String → Bool
workload_fits expected actual =
    if expected == "service"
    then actual == "Deployment" || actual == "StatefulSet"
    else if expected == "job"
    then actual == "Job"
    else if expected == "scheduled"
    then actual == "CronJob"
    else false

unfoldable pub check_workload_type : Runtime → RuntimeSnapshot → Check
check_workload_type r snap =
    if workload_fits r.workload snap.workload_kind
    then report workload_type_match true match
        (sprintf "Workload type %q matches %s" (str r.workload (str snap.workload_kind done))) error
    else report workload_type_match false mismatch
        (sprintf "Contract declares workload %q but found %s"
          (str r.workload (str snap.workload_kind done)))
        error

unfoldable pub check_state_model : Runtime → RuntimeSnapshot → Check
check_state_model r snap =
    let state_type = r.state.type in
    let durability = r.state.persistence.durability in
    let passes =
      report state_model_match true match
        (sprintf "State model %s/%s matches workload configuration"
          (str state_type (str durability done)))
        error in
    if state_type == "stateful"
    then (if snap.workload_kind != "StatefulSet"
        then report state_model_match false mismatch
            (sprintf "Contract declares stateful service but workload is %s (expected StatefulSet)"
              (str snap.workload_kind done))
            error
        else if durability == "persistent" && not snap.has_pvc
        then report state_model_match false missing
            (text "Contract declares persistent storage but no PVC found on StatefulSet") error
        else passes)
    else if state_type == "stateless"
    then (if snap.has_pvc
        then report state_model_match false mismatch
            (text "Contract declares stateless service but PVC found on workload") warning
        else passes)
    else if state_type == "hybrid"
    then (if durability == "persistent" && not snap.has_pvc
        then report state_model_match false missing
            (text "Contract declares hybrid with persistent storage but no PVC found") error
        else passes)
    else passes

-- The `switch` over the declared upgrade strategy.
unfoldable pub strategy_fits : String → String → Bool
strategy_fits expected actual =
    if expected == "rolling"
    then actual == "RollingUpdate"
    else if expected == "recreate"
    then actual == "Recreate"
    else if expected == "ordered"
    then actual == "OrderedReady"
    else false

-- The comparison with the strategy that was observed.
unfoldable pub compare_strategy : String → String → Check
compare_strategy expected actual =
    if strategy_fits expected actual
    then report upgrade_strategy_match true match
        (sprintf "Upgrade strategy %q matches %s" (str expected (str actual done))) warning
    else report upgrade_strategy_match false mismatch
        (sprintf "Contract declares upgrade strategy %q but found %s"
          (str expected (str actual done)))
        warning

unfoldable pub check_upgrade_strategy : String → RuntimeSnapshot → Check
unfolding compare_strategy
check_upgrade_strategy expected snap =
    if snap.deployment_strategy != ""
    then compare_strategy expected snap.deployment_strategy
    else if snap.pod_management_policy != ""
    then compare_strategy expected snap.pod_management_policy
    else report upgrade_strategy_match true skipped
        (text "No deployment strategy to validate (workload type does not support strategies)")
        warning

-- `int64(*gracefulShutdownSeconds)` changes nothing.
unfoldable pub check_graceful_shutdown : ℤ → RuntimeSnapshot → Check
check_graceful_shutdown expected snap = elim snap.termination_grace_period [
  | none ↦
      report graceful_shutdown_match false missing
        (sprintf
          "Contract declares gracefulShutdownSeconds=%d but no terminationGracePeriodSeconds set on pod"
          (int expected done))
        warning
  | some actual ↦
      if expected == actual
      then report graceful_shutdown_match true match
          (sprintf "Graceful shutdown period matches (%ds)" (int expected done)) warning
      else report graceful_shutdown_match false mismatch
          (sprintf
            "Contract declares gracefulShutdownSeconds=%d but pod has terminationGracePeriodSeconds=%d"
            (int expected (int actual done)))
          warning
]

unfoldable pub check_image : String → RuntimeSnapshot → Check
check_image expected snap = elim snap.container_images [
  | [] ↦ report image_match false missing (text "No container images found on workload") error
  | actual ∷ _ ↦
      if image_matches expected actual
      then report image_match true match
          (sprintf "Container image matches contract (%s)" (str actual done)) error
      else report image_match false mismatch
          (sprintf "Contract declares image %q but container has %q"
            (str expected (str actual done)))
          error
]

unfoldable pub check_health_timing : ℤ → RuntimeSnapshot → Check
unfolding int32
check_health_timing declared snap =
    let expected = int32 declared in
    elim snap.health_probe_initial_delay [
      | none ↦
          report health_timing_match false missing
            (sprintf
              "Contract declares health initialDelaySeconds=%d but no probe configured on container"
              (int expected done))
            warning
      | some actual ↦
          if expected == actual
          then report health_timing_match true match
              (sprintf "Health probe initialDelaySeconds matches (%ds)" (int expected done)) warning
          else report health_timing_match false mismatch
              (sprintf "Contract declares health initialDelaySeconds=%d but probe has %d"
                (int expected (int actual done)))
              warning
    ]
