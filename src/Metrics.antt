-- ===== src/Metrics.antt =====
-- internal/metrics/metrics.go: the samples that the three `Record…` functions write, in order. The
-- gauges and their registration belong to OpenTelemetry.
pub mod Gauges
pub mod Shown
mod Tests
use pacto_operator.Prelude.{
  String, Bool, true, false, ◌&&◌, not, List, [], ◌∷◌, ◌++◌, map, ℤ, pos, ℕ, suc,
}
use pacto_operator.Prelude.{Option, none, some, ◌==◌, if◌then◌else◌}
use pacto_operator.Api.Conditions.{
  ConditionType, Reason, reason_eq, readiness_ok, readiness_below_min_score, readiness_expired,
  Severity, ContractStatus, contract_status_eq, compliant, non_compliant, reference, unknown,
}
use pacto_operator.Api.Status.{ReadinessStatus}
use pacto_operator.Validator.Check.{Check}

-- A value written to a gauge, with the namespace and the name or service that it is labelled by.
pub data Sample : Type 0 where
  contract_status : String → String → ContractStatus → ℕ → Sample
  validation_result : String → String → ConditionType → ℕ → Sample
  compliance_status : String → String → ℕ → Sample
  validation_errors : String → String → ℕ → Sample
  validation_warnings : String → String → ℕ → Sample
  readiness_score : String → String → ℤ → Sample
  readiness_gate : String → String → ℕ → Sample
  readiness_status : String → String → Reason → ℕ → Sample
  readiness_checks : String → String → String → ℤ → Sample

abbrev pub all_statuses : List ContractStatus
all_statuses = compliant ∷ ContractStatus.warning ∷ non_compliant ∷ reference ∷ unknown ∷ []

abbrev pub all_readiness_statuses : List Reason
all_readiness_statuses = readiness_ok ∷ readiness_below_min_score ∷ readiness_expired ∷ []

abbrev pub bit : Bool → ℕ
bit b = if b then 1 else 0

-- `RecordContractStatus`
unfoldable pub record_contract_status : String → String → ContractStatus → List Sample
record_contract_status namespace name status =
    map (λ s. contract_status namespace name s (bit (s == status))) all_statuses

-- The severity with its default.
abbrev pub is_error : Severity → Bool
is_error Severity.unset = true
is_error Severity.error = true
is_error Severity.warning = false

-- The counters of the loop of `RecordValidation`; an int64 counter of checks does not wrap.
pub record Tally : Type 0 where
  pub errors : ℕ
  pub warnings : ℕ
  pub all_passed : Bool

unfoldable pub tally_check : Check → Tally → Tally
tally_check c t =
    if c.passed
    then t
    else if is_error c.severity
    then record t { errors = suc t.errors; all_passed = false }
    else record t { warnings = suc t.warnings; all_passed = false }

unfoldable pub tally : List Check → Tally → Tally
unfolding tally_check
tally [] t = t
tally (c ∷ cs) t = tally cs (tally_check c t)

abbrev pub no_tally : Tally
no_tally = record { errors = 0; warnings = 0; all_passed = true }

-- `RecordValidation`
unfoldable pub record_validation : String → String → List Check → List Sample
unfolding tally
record_validation namespace service checks =
    let t = tally checks no_tally in
    map (λ c. validation_result namespace service c.name (bit c.passed)) checks
    ++ (compliance_status namespace service (bit t.all_passed)
        ∷ validation_errors namespace service t.errors
        ∷ validation_warnings namespace service t.warnings
        ∷ [])

-- `RecordReadiness`
unfoldable pub record_readiness : String → String → Option ReadinessStatus → Reason → List Sample
record_readiness namespace name none reason = []
record_readiness namespace name (some rs) reason =
    readiness_score namespace name rs.score
    ∷ readiness_gate namespace name (bit rs.passing)
    ∷ (map (λ s. readiness_status namespace name s (bit (s == reason))) all_readiness_statuses
        ++ (readiness_checks namespace name "done" rs.done_count
            ∷ readiness_checks namespace name "partial" rs.partial_count
            ∷ readiness_checks namespace name "not-done" rs.not_done_count
            ∷ readiness_checks namespace name "deferred" rs.deferred_count
            ∷ []))
