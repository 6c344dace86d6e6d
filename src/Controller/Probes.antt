-- ===== src/Controller/Probes.antt =====
-- `probeEndpoints` of internal/controller/pacto_controller.go and the functions that it calls. The
-- HTTP client is a parameter.
pub mod Verdicts
use pacto_operator.Prelude.{
  String, Bool, true, false, ◌||◌, Option, none, some, List, [], ◌∷◌, ◌++◌,
}
use pacto_operator.Prelude.{ℤ, pos, int_eq, int32, ltb_ℤ, ◌==◌, ◌!=◌, string_eq, if◌then◌else◌, not}
use pacto_operator.Message.{Message, sprintf, str, int, msg, done}
use pacto_operator.Contract.{Contract, Interface, Runtime}
use pacto_operator.Api.Conditions.{
  ConditionType, health_endpoint_valid, metrics_endpoint_valid, endpoint_ok,
  endpoint_connection_error, endpoint_invalid_status, endpoint_empty_response, endpoint_no_port,
  endpoint_interface_missing, Reason, Severity,
}
use pacto_operator.Api.Status.{EndpointCheckResult, EndpointsStatus}
use pacto_operator.Api.Pacto.{Pacto}
use pacto_operator.Prober.{Answer, ProbeResult, probe, build_url}
use pacto_operator.Validator.Check.{Check}
use pacto_operator.Controller.Conditions.{ConditionLists}
use pacto_operator.Controller.Status.{apply_check}

-- The two maps over the interfaces stand as the list that they are built from.
pub record ProbeSpec : Type 0 where
  pub condition_type : ConditionType
  pub label : String
  pub interface_name : String
  pub path : String
  pub service_name : String
  pub namespace : String
  pub interfaces : List Interface
  pub require_body : Bool

-- `ifaceExists[name]`
unfoldable pub iface_exists : String → List Interface → Bool
iface_exists name [] = false
iface_exists name (i ∷ is) = i.name == name || iface_exists name is

-- `ifacePort[name]`: of several interfaces of one name, the last one with a port is kept.
unfoldable pub iface_port : String → List Interface → Option ℤ
iface_port name [] = none
iface_port name (i ∷ is) = elim (iface_port name is) [
  | some p ↦ some p
  | none ↦ if i.name == name then elim i.port [ none ↦ none | some p ↦ some (int32 p) ] else none
]

abbrev pub probe_check : ProbeSpec → Bool → Reason → Message → Check
probe_check spec passed reason message = record {
  name = spec.condition_type;
  passed = passed;
  reason = reason;
  message = message;
  severity = Severity.unset;
}

abbrev pub endpoint_result : ProbeResult → Message → EndpointCheckResult
endpoint_result result url = record {
  url = url;
  reachable = result.reachable;
  status_code = result.status_code;
  latency_ms = result.latency_ms;
  error = result.error;
}

-- The check of `evaluateProbeResult`.
unfoldable pub probe_verdict : ProbeResult → Message → ProbeSpec → Check
probe_verdict result url spec =
    let at_url = λ (format : String).
      sprintf format (str spec.label (msg url (int result.status_code done))) in
    let passes = probe_check spec true endpoint_ok (
      sprintf "%s endpoint %s responded with HTTP %d (%dms)"
        (str spec.label (msg url (int result.status_code (int (pos result.latency_ms) done))))) in
    if not result.reachable
    then probe_check spec false endpoint_connection_error (
        sprintf "%s endpoint %s is unreachable: %s"
          (str spec.label (msg url (msg result.error done))))
    else if spec.require_body
    then (if result.status_code != pos 200
        then probe_check spec false endpoint_invalid_status
            (at_url "%s endpoint %s returned HTTP %d, expected 200")
        else if not result.content_present
        then probe_check spec false endpoint_empty_response
            (sprintf "%s endpoint %s returned empty response body" (str spec.label (msg url done)))
        else passes)
    else if ltb_ℤ result.status_code (pos 200) || not (ltb_ℤ result.status_code (pos 400))
    then probe_check spec false endpoint_invalid_status
        (at_url "%s endpoint %s returned HTTP %d, expected 2xx/3xx")
    else passes

-- `evaluateProbeResult`
unfoldable pub evaluate_probe_result :
    ProbeResult → Message → ProbeSpec → Check × Option EndpointCheckResult
evaluate_probe_result result url spec =
    (probe_verdict result url spec, some (endpoint_result result url))

-- `probeOneEndpoint`
unfoldable pub probe_one_endpoint :
    (Message → Answer) → ProbeSpec → Check × Option EndpointCheckResult
probe_one_endpoint get spec =
    let about =
      λ (format : String). sprintf format (str spec.interface_name (str spec.label done)) in
    if not (iface_exists spec.interface_name spec.interfaces)
    then (
      probe_check spec false endpoint_interface_missing
          (about "Interface %q referenced by %s not found in contract"),
      none,
    )
    else elim (iface_port spec.interface_name spec.interfaces) [
      | none ↦ (
        probe_check spec false endpoint_no_port
            (about "Interface %q referenced by %s has no port declared"),
        none,
      )
      | some port ↦
          let url = build_url spec.service_name spec.namespace port spec.path in
          evaluate_probe_result (probe get url) url spec
    ]

abbrev pub health_spec : Pacto → List Interface → String → String → String → ProbeSpec
health_spec p interfaces service_name interface path = record {
  condition_type = health_endpoint_valid;
  label = "health";
  interface_name = interface;
  path = path;
  service_name = service_name;
  namespace = p.namespace;
  interfaces = interfaces;
  require_body = false;
}

abbrev pub metrics_spec : Pacto → List Interface → String → String → String → ProbeSpec
metrics_spec p interfaces service_name interface path = record {
  condition_type = metrics_endpoint_valid;
  label = "metrics";
  interface_name = interface;
  path = path;
  service_name = service_name;
  namespace = p.namespace;
  interfaces = interfaces;
  require_body = true;
}

-- The probes that the runtime section asks for: the health endpoint's, then the metrics endpoint's.
unfoldable pub health_probe : Pacto → Contract → Runtime → String → Option ProbeSpec
health_probe p c r service_name = elim r.health [
  | none ↦ none
  | some h ↦
      if h.interface != ""
      then some (health_spec p c.interfaces service_name h.interface h.path)
      else none
]

unfoldable pub metrics_probe : Pacto → Contract → Runtime → String → Option ProbeSpec
metrics_probe p c r service_name = elim r.metrics [
  | none ↦ none
  | some m ↦
      if m.interface != ""
      then some (metrics_spec p c.interfaces service_name m.interface m.path)
      else none
]

module _ (l : ConditionLists) (get : Message → Answer) where
  -- One endpoint's block: the Pacto with the check applied, the checks, and the endpoint's result.
  unfoldable pub probe_block :
      Pacto → Option ProbeSpec → Pacto × List Check × Option EndpointCheckResult
  probe_block p none = (p, [], none)
  probe_block p (some spec) =
      let (check, result) = probe_one_endpoint get spec in
      (apply_check l p check, check ∷ [], result)

  -- The end of `probeEndpoints`: the results are recorded if there is one.
  unfoldable pub record_endpoints :
      Pacto → Option EndpointCheckResult → Option EndpointCheckResult → Pacto
  record_endpoints p none none = p
  record_endpoints p health metrics = record p {
    status = record (p.status) { endpoints = some (record { health = health; metrics = metrics }) };
  }

  -- `probeEndpoints`
  unfoldable pub probe_endpoints : Pacto → Contract → String → Pacto × List Check
  probe_endpoints p c service_name = elim c.runtime [
    | none ↦ (p, [])
    | some r ↦
        let (p1, health_checks, health) = probe_block p (health_probe p c r service_name) in
        let (p2, metrics_checks, metrics) = probe_block p1 (metrics_probe p1 c r service_name) in
        (record_endpoints p2 health metrics, health_checks ++ metrics_checks)
  ]
