-- ===== src/Validator/Verdict.antt =====
-- `computeContractStatus` takes the worst of its checks, and what that says of a snapshot.
use pacto_operator.Prelude.{Bool, true, false, not, ◌&&◌, ◌||◌, List, [], ◌∷◌, ◌++◌}
use pacto_operator.Prelude.{◌≡◌, ◌↔◌, ◌∙◌, arith, All}
use pacto_operator.Api.Conditions.{ContractStatus, compliant, non_compliant, is_resource}
use pacto_operator.Validator.Check.{Check}
use pacto_operator.Validator.Validate.{compute_contract_status, status_loop, verdict}

-- The flags of the loop, as tests on the list.
unfoldable pub resource_failed : List Check → Bool
resource_failed [] = false
resource_failed (c ∷ cs) = (not c.passed && is_resource c.name) || resource_failed cs

unfoldable pub other_failed : List Check → Bool
other_failed [] = false
other_failed (c ∷ cs) = (not c.passed && not (is_resource c.name)) || other_failed cs

status_loop_lem :
    (cs : List Check) (resource other : Bool)
    → status_loop cs resource other
      ≡ verdict (resource || resource_failed cs) (other || other_failed cs)
unfolding status_loop resource_failed other_failed
status_loop_lem [] resource other = ground arith
status_loop_lem (c ∷ cs) resource other = status_loop_lem cs _ _ ∙ ground arith

pub compute_contract_status_lem :
    (cs : List Check) → compute_contract_status cs ≡ verdict (resource_failed cs) (other_failed cs)
unfolding compute_contract_status
compute_contract_status_lem cs = status_loop_lem cs false false

resource_failed-append :
    (cs ds : List Check) → resource_failed (cs ++ ds) ≡ (resource_failed cs || resource_failed ds)
unfolding resource_failed
resource_failed-append [] ds = ground arith
resource_failed-append (c ∷ cs) ds = ground (arith, resource_failed-append cs ds)

other_failed-append :
    (cs ds : List Check) → other_failed (cs ++ ds) ≡ (other_failed cs || other_failed ds)
unfolding other_failed
other_failed-append [] ds = ground arith
other_failed-append (c ∷ cs) ds = ground (arith, other_failed-append cs ds)

-- The worse of two of the statuses that a list of checks can have.
abbrev pub worse : ContractStatus → ContractStatus → ContractStatus
worse non_compliant t = non_compliant
worse ContractStatus.warning non_compliant = non_compliant
worse ContractStatus.warning t = ContractStatus.warning
worse s t = t

-- For any two lists of checks, the status of both together is the worse of their statuses.
pub compute_contract_status-append :
    (cs ds : List Check)
    → compute_contract_status (cs ++ ds)
      ≡ worse (compute_contract_status cs) (compute_contract_status ds)
compute_contract_status-append cs ds =
    rw
      (
        compute_contract_status_lem (cs ++ ds),
        compute_contract_status_lem cs,
        compute_contract_status_lem ds,
        resource_failed-append cs ds,
        other_failed-append cs ds,
      )
      (ground arith)

abbrev pub Passes : Check → Type 0
Passes c = c.passed ≡ true

-- Every check on a resource passes.
abbrev pub ResourcesPass : List Check → Type 0
ResourcesPass = All (λ c. is_resource c.name ≡ true → Passes c)

resource_failed_iff : (cs : List Check) → (resource_failed cs ≡ false) ↔ ResourcesPass cs
unfolding resource_failed
resource_failed_iff [] = ground arith
resource_failed_iff (c ∷ cs) = ground (arith, resource_failed_iff cs)

failed_iff : (cs : List Check) → ((resource_failed cs || other_failed cs) ≡ false) ↔ All Passes cs
unfolding resource_failed other_failed
failed_iff [] = ground arith
failed_iff (c ∷ cs) = ground (arith, failed_iff cs)

pub compute_contract_status_cases :
    (cs : List Check)
    → ((compute_contract_status cs ≡ compliant) ↔ All Passes cs)
      × ((compute_contract_status cs ≡ non_compliant) ↔ (¬ ResourcesPass cs))
      × ((compute_contract_status cs ≡ ContractStatus.warning)
          ↔ (ResourcesPass cs × (¬ All Passes cs)))
compute_contract_status_cases cs =
    rw (compute_contract_status_lem cs) (ground (arith, resource_failed_iff cs, failed_iff cs))
