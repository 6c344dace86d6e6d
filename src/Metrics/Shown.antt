-- ===== src/Metrics/Shown.antt =====
-- What the gauge of the contract status shows after a list of samples.
use pacto_operator.Prelude.{
  String, true, ◌&&◌, List, [], ◌∷◌, ◌++◌, map, ◌≡◌, ◌≢◌, refl, ℕ, Option, some,
}
use pacto_operator.Prelude.{◌∙◌, arith, ◌==◌, string_eq, if◌then◌else◌}
use pacto_operator.Api.Conditions.{ContractStatus, contract_status_eq}
use pacto_operator.Validator.Check.{Check}
use pacto_operator.Metrics.{
  Sample, contract_status, validation_result, bit, record_contract_status, record_validation,
}

-- The value of the gauge at a namespace, name and status after the samples, from the one before.
unfoldable pub shown : String → String → ContractStatus → List Sample → Option ℕ → Option ℕ
shown namespace name s [] v = v
shown namespace name s (contract_status a b t x ∷ rest) v =
    shown namespace name s rest (if a == namespace && b == name && t == s then some x else v)
shown namespace name s (_ ∷ rest) v = shown namespace name s rest v

module _ (namespace name : String) (s : ContractStatus) where
  pub shown-append :
      (xs ys : List Sample) (v : Option ℕ)
      → shown namespace name s (xs ++ ys) v
        ≡ shown namespace name s ys (shown namespace name s xs v)
  unfolding shown
  shown-append [] ys v = refl
  shown-append (contract_status a b t x ∷ xs) ys v = shown-append xs ys _
  shown-append (_ ∷ xs) ys v = shown-append xs ys v

  pub shown-record_validation :
      (space service : String) (checks : List Check) (v : Option ℕ)
      → shown namespace name s (record_validation space service checks) v ≡ v
  unfolding shown record_validation
  shown-record_validation space service checks v =
      shown-append (map (λ c. validation_result space service c.name (bit c.passed)) checks) _ v
      ∙ results checks
    where
      results :
          (cs : List Check)
          → shown namespace name s
              (map (λ c. validation_result space service c.name (bit c.passed)) cs)
              v
            ≡ v
      results [] = refl
      results (c ∷ cs) = results cs

same_text : (a : String) → (a == a) ≡ true
same_text a = ground arith

-- Each status is set, to 1 where it is the current one and to 0 elsewhere.
pub shown-record_contract_status :
    (namespace name : String) (s t : ContractStatus) (v : Option ℕ)
    → s ≢ ContractStatus.unset
    → shown namespace name s (record_contract_status namespace name t) v ≡ some (bit (s == t))
unfolding shown record_contract_status contract_status_eq
shown-record_contract_status namespace name ContractStatus.unset t v h = absurd (h refl)
shown-record_contract_status namespace name _ t v h = rw (same_text namespace, same_text name) refl
