-- ===== src/Metrics/Gauges.antt =====
-- What the gauges show after a record.
use pacto_operator.Prelude.{String, true, List, [], ◌∷◌, ℕ, zero, suc}
use pacto_operator.Prelude.{◌+◌, ◌≡◌, ◌≢◌, ◌↔◌, refl, arith, All, length}
use pacto_operator.Api.Conditions.{ContractStatus, contract_status_eq}
use pacto_operator.Validator.Check.{Check}
use pacto_operator.Validator.Verdict.{Passes}
use pacto_operator.Metrics.{
  Sample, contract_status, bit, record_contract_status, Tally, tally, tally_check, no_tally,
}

-- The statuses whose gauge was set to 1.
abbrev pub active : List Sample → List ContractStatus
active [] = []
active (contract_status _ _ s (suc zero) ∷ rest) = s ∷ active rest
active (_ ∷ rest) = active rest

-- For every namespace, name and status that is set, the record leaves exactly one status gauge at 1,
-- the one of the status.
pub active-record_contract_status :
    (namespace name : String) (s : ContractStatus)
    → s ≢ ContractStatus.unset
    → active (record_contract_status namespace name s) ≡ s ∷ []
unfolding record_contract_status contract_status_eq
active-record_contract_status namespace name ContractStatus.unset h = absurd (h refl)
active-record_contract_status namespace name _ h = refl

abbrev pub passes : List Check → ℕ
passes [] = 0
passes (c ∷ cs) = bit c.passed + passes cs

tally_lem :
    (cs : List Check) (t : Tally)
    → ((tally cs t).errors + (tally cs t).warnings + passes cs ≡ t.errors + t.warnings + length cs)
      × (((tally cs t).all_passed ≡ true) ↔ ((t.all_passed ≡ true) × All Passes cs))
unfolding tally
tally_lem [] t = ground arith
tally_lem (c ∷ cs) t = ground (arith, tally_lem cs (tally_check c t))

-- For every list of checks, each failed check is counted once, as an error or as a warning, and the
-- compliance gauge is 1 exactly when every check passes.
pub tally_total :
    (cs : List Check)
    → let t = tally cs no_tally in
      (t.errors + t.warnings + passes cs ≡ length cs) × ((t.all_passed ≡ true) ↔ All Passes cs)
tally_total cs = ground (arith, tally_lem cs no_tally)
