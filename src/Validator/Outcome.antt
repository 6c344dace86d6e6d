-- ===== src/Validator/Outcome.antt =====
-- When the status of a validation is Compliant, and when it is NonCompliant.
use pacto_operator.Prelude.{Bool, true, false, [], ◌∷◌}
use pacto_operator.Prelude.{◌++◌, ◌≡◌, ◌↔◌, inl, inr, arith, if◌then◌else◌}
use pacto_operator.Prelude.{All, All-append_iff, Whenever, Option-cases}
use pacto_operator.Contract.{Contract}
use pacto_operator.Api.Conditions.{ConditionType, compliant, is_resource}
use pacto_operator.Observer.{RuntimeSnapshot}
use pacto_operator.Validator.Check.{Check}
use pacto_operator.Validator.PortsDiff.{AllPresent, check_ports-passed}
use pacto_operator.Validator.Verdict.{Passes, compute_contract_status_cases}
use pacto_operator.Validator.Compliance.{RuntimeComplies, runtime_checks-passed}
use pacto_operator.Validator.Validate.{
  runtime_step, ports_step, validate, check_service_exists, check_workload_exists,
  compute_contract_status,
}

-- What the contract asks of the snapshot, by the sections that it declares.
pub record Complies (c : Contract) (snap : RuntimeSnapshot) (has_service : Bool) : Type 0 where
  pub service : has_service ≡ true → snap.service_exists ≡ true
  pub workload : snap.workload_exists ≡ true
  pub ports : has_service ≡ true → AllPresent snap.service_ports c.interfaces
  pub runtime : Whenever c.runtime (λ r. RuntimeComplies c.service r snap)

check_service_exists-passed :
    (snap : RuntimeSnapshot) → Passes (check_service_exists snap) ↔ (snap.service_exists ≡ true)
unfolding check_service_exists
check_service_exists-passed snap = ground arith

check_workload_exists-passed :
    (snap : RuntimeSnapshot) → Passes (check_workload_exists snap) ↔ (snap.workload_exists ≡ true)
unfolding check_workload_exists
check_workload_exists-passed snap = ground arith

service_step-passed :
    (snap : RuntimeSnapshot) (hs : Bool)
    → All Passes (if hs then check_service_exists snap ∷ [] else [])
      ↔ (hs ≡ true → snap.service_exists ≡ true)
service_step-passed snap hs = ground (arith, check_service_exists-passed snap)

ports_step-passed :
    (c : Contract) (snap : RuntimeSnapshot) (hs : Bool)
    → All Passes (ports_step c snap hs).0
      ↔ (hs ≡ true → snap.service_exists ≡ true → AllPresent snap.service_ports c.interfaces)
unfolding ports_step
ports_step-passed c snap hs = ground (arith, check_ports-passed c.interfaces snap)

runtime_step-passed :
    (c : Contract) (snap : RuntimeSnapshot)
    → snap.workload_exists ≡ true
    → All Passes (runtime_step c snap) ↔ Whenever c.runtime (λ r. RuntimeComplies c.service r snap)
unfolding runtime_step
runtime_step-passed c snap w = elim (Option-cases c.runtime) [
  | inl n ↦ simp (w, n) (λ h. h, λ h. h)
  | inr (r, e) ↦ simp (w, e) (runtime_checks-passed c.service r snap)
]

validate_passed :
    (c : Contract) (snap : RuntimeSnapshot) (hs : Bool)
    → All Passes (validate c snap hs).checks ↔ Complies c snap hs
unfolding validate
validate_passed c snap hs =
    let service = service_step-passed snap hs in
    let workload = check_workload_exists-passed snap in
    let ports = ports_step-passed c snap hs in
    let split =
      All-append_iff Passes (if hs then check_service_exists snap ∷ [] else [])
        (check_workload_exists snap ∷ ((ports_step c snap hs).0 ++ runtime_step c snap)) in
    let split_rest = All-append_iff Passes (ports_step c snap hs).0 (runtime_step c snap) in
    (
      λ h.
          let (s, others) = split.0 h in
          let (p, r) = split_rest.0 others.1 in
          let w = workload.0 others.0 in
          record {
            service = service.0 s;
            workload = w;
            ports = λ t. ports.0 p t (service.0 s t);
            runtime = (runtime_step-passed c snap w).0 r;
          },
      λ h. split.1 (
        service.1 h.service,
        (
          workload.1 h.workload,
          split_rest.1
              (ports.1 (λ t _. h.ports t), (runtime_step-passed c snap h.workload).1 h.runtime),
        ),
      ),
    )

-- For every contract and snapshot, the status computed from the checks of Validate is Compliant exactly when the snapshot has all that
-- the contract asks for: the Service and every declared port on it where there is a service target,
-- the workload, and what the runtime section declares.
pub validate-compliant :
    (c : Contract) (snap : RuntimeSnapshot) (has_service : Bool)
    → (compute_contract_status (validate c snap has_service).checks ≡ compliant)
      ↔ Complies c snap has_service
validate-compliant c snap has_service =
    let passed = validate_passed c snap has_service in
    let status = (compute_contract_status_cases (validate c snap has_service).checks).0 in
    (λ h. passed.0 (status.0 h), λ h. status.1 (passed.1 h))

abbrev NotResource : ConditionType → Type 0
NotResource t = is_resource t ≡ false
