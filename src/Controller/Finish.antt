-- ===== src/Controller/Finish.antt =====
-- The ends of a reconciliation, `failReconciliation` and `finishReconciliation` of
-- internal/controller/pacto_controller.go, and the texts of a contract's validation.
use pacto_operator.Prelude.{String, Bool, false, ◌&&◌, Option, none, some, List, [], ◌∷◌, ◌++◌, map}
use pacto_operator.Prelude.{ℕ, pos, ◌!=◌, string_eq, if◌then◌else◌, is_empty}
use pacto_operator.Message.{Message, Args, text, sprintf, join, str, int, msg, done}
use pacto_operator.Contract.{Contract}
use pacto_operator.Api.Conditions.{
  contract_valid, condition_false, invalid, unstated, Severity, ContractStatus, compliant,
  non_compliant, reference, contract_status_eq, event_contract_invalid, event_validation_failed,
}
use pacto_operator.Api.Status.{CheckSummary, ValidationResult, ValidationIssue}
use pacto_operator.Api.Pacto.{Pacto}
use pacto_operator.Validator.Check.{Check}
use pacto_operator.Metrics.{record_contract_status, record_validation}
use pacto_operator.Controller.Conditions.{ConditionLists}
use pacto_operator.Controller.Effects.{Effect, event, EventType, samples}
use pacto_operator.Controller.Status.{set_condition, requeue_interval}

-- An error or a warning of the contract library's validation.
pub record LibraryIssue : Type 0 where
  pub code : String
  pub path : String
  pub message : String

pub record LibraryResult : Type 0 where
  pub errors : List LibraryIssue
  pub warnings : List LibraryIssue

abbrev pub issue_of : LibraryIssue → ValidationIssue
issue_of i = record { code = i.code; path = i.path; message = text i.message }

-- `mapValidationResult`
unfoldable pub map_validation_result : LibraryResult → ValidationResult
map_validation_result vr = record {
  valid = is_empty vr.errors;
  errors = map issue_of vr.errors;
  warnings = map issue_of vr.warnings;
}

-- `details`
unfoldable pub error_details : List LibraryIssue → Args
error_details [] = done
error_details (e ∷ es) =
    let rest = error_details es in
    if e.path != ""
    then msg (sprintf "%s: %s" (str e.path (str e.message done))) rest
    else str e.message rest

-- `formatValidationErrors`
unfoldable pub format_validation_errors : List LibraryIssue → Message
format_validation_errors errors =
    sprintf "Contract validation failed: %s" (msg (join "; " (error_details errors)) done)

-- A result with one error.
abbrev pub one_error : String → Message → ValidationResult
one_error path message = record {
  valid = false;
  errors = record { code = ""; path = path; message = message } ∷ [];
  warnings = [];
}

-- The result of `Reconcile`: when to come back, an error, after which the controller retries, or a
-- panic.
pub data Outcome : Type 0 where
  requeue_after : ℕ → Outcome
  error : Message → Outcome
  crashed : Outcome

-- What a run leaves: the Pacto whose status was written, what was reported, and the result.
pub record Run : Type 0 where
  pub written : Option Pacto
  pub effects : List Effect
  pub outcome : Outcome

abbrev pub contract_check : Bool → Check
contract_check passed = record {
  name = contract_valid;
  passed = passed;
  reason = unstated;
  message = text "";
  severity = Severity.error;
}

abbrev pub validation_samples : Pacto → Option Contract → List Check → List Effect
validation_samples p none checks = []
validation_samples p (some c) checks =
    if c.service.name != ""
    then samples (record_validation p.namespace c.service.name checks)
    else []

-- The status with the time and the generation of the run.
unfoldable pub stamp : ℕ → Pacto → Pacto
stamp now p = record p {
  status = record (p.status) { last_reconciled_at = some now; observed_generation = p.generation };
}

abbrev pub one_of_one : Bool → CheckSummary
one_of_one passed =
    if passed
    then record { total = 1; passed = 1; failed = 0 }
    else record { total = 1; passed = 0; failed = 1 }

abbrev pub status_text : ContractStatus → String
status_text ContractStatus.unset = ""
status_text compliant = "Compliant"
status_text ContractStatus.warning = "Warning"
status_text non_compliant = "NonCompliant"
status_text reference = "Reference"
status_text ContractStatus.unknown = "Unknown"

-- The event of a finished run that is neither Compliant nor Reference and has a summary.
unfoldable pub finish_events : Pacto → List Effect
finish_events p =
    if p.status.contract_status != compliant && p.status.contract_status != reference
    then elim p.status.summary [
      | none ↦ []
      | some s ↦
          event EventType.warning event_validation_failed (
            sprintf "ContractStatus: %s, %d/%d checks failed" (
              str (status_text p.status.contract_status)
                (int (pos s.failed) (int (pos s.total) done))))
          ∷ []
    ]
    else []

module _ (l : ConditionLists) (update_status : Pacto → Option Message) (now : ℕ) where
  -- The write of the status: an error ends the run before anything is reported.
  unfoldable pub write_status : Pacto → List Effect → List Effect → Run
  write_status p before after = elim (update_status p) [
    | some e ↦ record { written = none; effects = before; outcome = error e }
    | none ↦ record {
      written = some p;
      effects = before ++ after;
      outcome = requeue_after (requeue_interval p.spec.check_interval_seconds);
    }
  ]

  -- The status of a contract that cannot be used.
  unfoldable pub failed_status : Pacto → Message → Option ValidationResult → Pacto
  failed_status p message result =
      let q = set_condition l p contract_valid condition_false invalid message in
      stamp now (record q {
        status = record (q.status) {
          contract_status = non_compliant;
          summary = some (one_of_one false);
          validation = result;
        };
      })

  -- `failReconciliation`, after the effects of the run so far.
  unfoldable pub fail_reconciliation :
      Pacto → Message → Option ValidationResult → Option Contract → List Effect → Run
  fail_reconciliation p message result c before =
      let q = failed_status p message result in
      write_status q before (
        event EventType.warning event_contract_invalid message
        ∷ (samples (record_contract_status q.namespace q.name q.status.contract_status)
            ++ validation_samples q c (contract_check false ∷ [])))

  -- `finishReconciliation`, after the effects of the run so far.
  unfoldable pub finish_reconciliation : Pacto → Contract → List Check → List Effect → Run
  finish_reconciliation p c checks before =
      let q = stamp now p in
      write_status q before (
        finish_events q
        ++ (samples (record_contract_status q.namespace q.name q.status.contract_status)
            ++ validation_samples q (some c) checks))
