-- ===== src/Controller/Status.antt =====
-- The functions of internal/controller/pacto_controller.go that write the status of a Pacto.
use pacto_operator.Prelude.{String, Bool, true, false, ◌||◌, not, Option, none, some, List, []}
use pacto_operator.Prelude.{◌∷◌, ℕ, suc, ◌+◌, ◌*◌, ℤ, pos, wrap32, length, is_empty}
use pacto_operator.Prelude.{◌!=◌, string_eq, if◌then◌else◌}
use pacto_operator.Message.{Message}
use pacto_operator.Api.Conditions.{
  ConditionType, ConditionStatus, condition_true, condition_false, Reason, is_resource,
  ContractStatus, compliant, non_compliant, ResolutionPolicy,
}
use pacto_operator.Api.Status.{PactoStatus, Condition, CheckSummary, ResourcesStatus}
use pacto_operator.Api.Pacto.{Pacto}
use pacto_operator.Observer.{RuntimeSnapshot}
use pacto_operator.Validator.Check.{Check, Result}
use pacto_operator.Controller.Conditions.{ConditionLists}

-- `resetDerivedStatus`
unfoldable pub reset_derived_status : PactoStatus → PactoStatus
reset_derived_status s = record s {
  contract_status = ContractStatus.unset;
  resolution_policy = ResolutionPolicy.unset;
  summary = none;
  contract_version = "";
  contract = none;
  validation = none;
  resources = none;
  ports = none;
  endpoints = none;
  interfaces = [];
  configurations = [];
  dependencies = [];
  policies = [];
  runtime = none;
  observed_runtime = none;
  scaling = none;
  readiness = none;
  metadata = [];
  conditions = [];
}

-- A time.Duration in nanoseconds.
abbrev pub second : ℕ
second = 1_000_000_000

-- `requeueInterval`; a positive int32 of seconds does not overflow an int64 of nanoseconds.
unfoldable pub requeue_interval : ℤ → ℕ
requeue_interval (pos (suc n)) = suc n * second
requeue_interval _ = 300 * second

abbrev pub status_of : Bool → ConditionStatus
status_of passed = if passed then condition_true else condition_false

-- The loop over the checks that counts them: an int32 counter wraps around.
unfoldable pub count_checks : List Check → ℕ → ℕ → ℕ × ℕ
count_checks [] passed failed = (passed, failed)
count_checks (c ∷ cs) passed failed =
    count_checks cs (if c.passed then wrap32 (passed + 1) else passed)
      (if c.passed then failed else wrap32 (failed + 1))

abbrev pub no_summary : CheckSummary
no_summary = record { total = 0; passed = 0; failed = 0 }

-- The counting of `applyCheck`.
unfoldable pub add_to_summary : Bool → Option CheckSummary → CheckSummary
add_to_summary passed old =
    let s : CheckSummary = elim old [ none ↦ no_summary | some s ↦ s ] in
    record s {
      total = wrap32 (s.total + 1);
      passed = if passed then wrap32 (s.passed + 1) else s.passed;
      failed = if passed then s.failed else wrap32 (s.failed + 1);
    }

abbrev pub is_true : ConditionStatus → Bool
is_true condition_true = true
is_true _ = false

-- The loop of `computeFinalContractStatus`.
unfoldable pub final_loop : List Condition → Bool → Bool → ContractStatus
final_loop [] resource other =
    if resource then non_compliant else if other then ContractStatus.warning else compliant
final_loop (c ∷ cs) resource other =
    final_loop cs
      (if is_true c.status then resource else if is_resource c.type then true else resource)
      (if is_true c.status then other else if is_resource c.type then other else true)

-- `computeFinalContractStatus`
unfoldable pub compute_final_contract_status : PactoStatus → ContractStatus
compute_final_contract_status s = final_loop s.conditions false false

-- The status of the target's resources.
unfoldable pub target_resources : RuntimeSnapshot → String → String → String → ResourcesStatus
target_resources snap service_name workload_name workload_kind = record {
  service =
      if service_name != ""
      then some (record { name = service_name; kind = ""; exists = snap.service_exists })
      else none;
  workload =
      if workload_name != ""
      then some
          (record { name = workload_name; kind = workload_kind; exists = snap.workload_exists })
      else none;
}

-- The resources and the ports of a result, in the status.
abbrev pub record_resources : Pacto → Result → RuntimeSnapshot → String → String → String → Pacto
record_resources p result snap service_name workload_name workload_kind = record p {
  status = record (p.status) {
    resources = some (target_resources snap service_name workload_name workload_kind);
    ports =
        if not (is_empty result.ports.expected) || not (is_empty result.ports.observed)
        then some (record {
          expected = result.ports.expected;
          observed = result.ports.observed;
          missing = result.ports.missing;
          unexpected = result.ports.unexpected;
        })
        else p.status.ports;
  };
}

module _ (l : ConditionLists) where
  -- `setCondition`
  unfoldable pub set_condition : Pacto → ConditionType → ConditionStatus → Reason → Message → Pacto
  set_condition p type status reason message = record p {
    status = record (p.status) {
      conditions = l.set_status_condition p.status.conditions (record {
        type = type;
        status = status;
        observed_generation = p.generation;
        reason = reason;
        message = message;
      });
    };
  }

  -- The loop over the checks that sets their conditions.
  unfoldable pub set_check_conditions : List Check → Pacto → Pacto
  set_check_conditions [] p = p
  set_check_conditions (c ∷ cs) p =
      set_check_conditions cs (set_condition p c.name (status_of c.passed) c.reason c.message)

  -- `applyValidationResult`: resources and ports, the conditions, and the summary.
  unfoldable pub apply_validation_result :
      Pacto → Result → RuntimeSnapshot → String → String → String → Pacto
  apply_validation_result p result snap service_name workload_name workload_kind =
      let with_resources =
        record_resources p result snap service_name workload_name workload_kind in
      let with_conditions = set_check_conditions result.checks with_resources in
      let (passed, failed) = count_checks result.checks 1 0 in
      record with_conditions {
        status = record (with_conditions.status) {
          summary = some (record {
            total = wrap32 (length result.checks + 1);
            passed = passed;
            failed = failed;
          });
        };
      }

  -- `applyCheck`
  unfoldable pub apply_check : Pacto → Check → Pacto
  apply_check p c =
      let q = set_condition p c.name (status_of c.passed) c.reason c.message in
      record q {
        status = record (q.status) { summary = some (add_to_summary c.passed q.status.summary) };
      }
