-- ===== src/Metrics/Tests.antt =====
-- Samples at concrete checks.
use pacto_operator.Prelude.{true, false, List, [], ◌∷◌, ◌≡◌, refl}
use pacto_operator.Message.{text}
use pacto_operator.Api.Conditions.{contract_valid, image_match, ports_valid, parsed, Severity}
use pacto_operator.Validator.Check.{Check}
use pacto_operator.Metrics.{tally, tally_check, no_tally}

abbrev three_checks : List Check
three_checks =
    record {
      name = contract_valid;
      passed = true;
      reason = parsed;
      message = text "";
      severity = Severity.error;
    }
    ∷ record {
      name = ports_valid;
      passed = false;
      reason = parsed;
      message = text "";
      severity = Severity.unset;
    }
    ∷ record {
      name = image_match;
      passed = false;
      reason = parsed;
      message = text "";
      severity = Severity.warning;
    }
    ∷ []

-- A severity that is not set counts as an error.
three_checks-tally :
    tally three_checks no_tally ≡ record { errors = 1; warnings = 1; all_passed = false }
unfolding tally tally_check
three_checks-tally = refl
