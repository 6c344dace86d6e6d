-- ===== src/Controller/Summary.antt =====
-- The status and the summary that the controller computes from the conditions and the checks.
use pacto_operator.Prelude.{
  String, Bool, true, false, not, ◌&&◌, ◌||◌, List, [], ◌∷◌, ◌++◌, map, elem, elem-append, Distinct,
}
use pacto_operator.Prelude.{◌≡◌, refl, ◌∙◌, arith, All, ap, sym}
use mathlib.Core.List.{append-nil, append_assoc}
use pacto_operator.Api.Conditions.{
  condition_type_eq, readiness_satisfied, ContractStatus, is_resource,
}
use pacto_operator.Api.Status.{Condition, PactoStatus}
use pacto_operator.Api.Pacto.{Pacto}
use pacto_operator.Observer.{RuntimeSnapshot}
use pacto_operator.Contract.{Contract}
use pacto_operator.Validator.Coverage.{validate-Distinct}
use pacto_operator.Validator.Check.{Check}
use pacto_operator.Validator.Validate.{compute_contract_status, verdict, validate}
use pacto_operator.Validator.Verdict.{
  worse, compute_contract_status_lem, resource_failed, other_failed,
}
use pacto_operator.Controller.Conditions.{ConditionLists, IsLawful, types}
use pacto_operator.Controller.Status.{
  is_true, status_of, final_loop, compute_final_contract_status, set_condition,
  set_check_conditions, apply_validation_result, record_resources,
}

pub resource_unmet : List Condition → Bool
resource_unmet [] = false
resource_unmet (c ∷ cs) = (not (is_true c.status) && is_resource c.type) || resource_unmet cs

pub other_unmet : List Condition → Bool
other_unmet [] = false
other_unmet (c ∷ cs) = (not (is_true c.status) && not (is_resource c.type)) || other_unmet cs

final_loop_lem :
    (cs : List Condition) (resource other : Bool)
    → final_loop cs resource other
      ≡ verdict (resource || resource_unmet cs) (other || other_unmet cs)
unfolding final_loop resource_unmet other_unmet
final_loop_lem [] resource other = ground arith
final_loop_lem (c ∷ cs) resource other = final_loop_lem cs _ _ ∙ ground arith

pub compute_final_contract_status_lem :
    (s : PactoStatus)
    → compute_final_contract_status s
      ≡ verdict (resource_unmet s.conditions) (other_unmet s.conditions)
unfolding compute_final_contract_status
compute_final_contract_status_lem s = final_loop_lem s.conditions false false

abbrev pub IsMet : Condition → Type 0
IsMet c = is_true c.status ≡ true

resource_unmet-append :
    (cs ds : List Condition) → resource_unmet (cs ++ ds) ≡ (resource_unmet cs || resource_unmet ds)
unfolding resource_unmet
resource_unmet-append [] ds = ground arith
resource_unmet-append (c ∷ cs) ds = ground (arith, resource_unmet-append cs ds)

other_unmet-append :
    (cs ds : List Condition) → other_unmet (cs ++ ds) ≡ (other_unmet cs || other_unmet ds)
unfolding other_unmet
other_unmet-append [] ds = ground arith
other_unmet-append (c ∷ cs) ds = ground (arith, other_unmet-append cs ds)

met_lem :
    (cs : List Condition) → All IsMet cs → (resource_unmet cs ≡ false) × (other_unmet cs ≡ false)
unfolding resource_unmet other_unmet
met_lem [] h = ground arith
met_lem (c ∷ cs) h = ground (arith, met_lem cs h.1)

unmet_head :
    (c : Condition) (after : List Condition)
    → All IsMet after
    → is_true c.status ≡ false
    → c.type ≡ readiness_satisfied
    → (resource_unmet (c ∷ after) ≡ false) × (other_unmet (c ∷ after) ≡ true)
unfolding resource_unmet other_unmet
unmet_head c after ha hc ht = ground (arith, met_lem after ha)

-- Where every condition is met but the one on the readiness, the final status is Warning.
pub compute_final_contract_status-readiness :
    (s : PactoStatus) (before : List Condition) (c : Condition) (after : List Condition)
    → s.conditions ≡ before ++ (c ∷ after)
    → All IsMet before
    → All IsMet after
    → is_true c.status ≡ false
    → c.type ≡ readiness_satisfied
    → compute_final_contract_status s ≡ ContractStatus.warning
compute_final_contract_status-readiness s before c after h hb ha hc ht =
    compute_final_contract_status_lem s
    ∙ rw (h, resource_unmet-append before (c ∷ after), other_unmet-append before (c ∷ after))
        (ground (arith, met_lem before hb, unmet_head c after ha hc ht))

-- The condition of a check.
abbrev pub condition_of : Pacto → Check → Condition
condition_of p c = record {
  type = c.name;
  status = status_of c.passed;
  observed_generation = p.generation;
  reason = c.reason;
  message = c.message;
}

abbrev pub with_conditions : Pacto → List Condition → Pacto
with_conditions p cs = record p { status = record (p.status) { conditions = cs } }

-- The checks set conditions of their own.
abbrev pub AllNew : List Check → List Condition → Type 0
AllNew checks cs = All (λ c. elem c.name (types cs) ≡ false) checks

pub types-append : (cs ds : List Condition) → types (cs ++ ds) ≡ types cs ++ types ds
types-append [] ds = refl
types-append (c ∷ cs) ds = ap (λ ts. c.type ∷ ts) (types-append cs ds)

AllNew-append :
    (checks : List Check) (cs : List Condition) (c : Condition)
    → AllNew checks cs
    → elem c.type (map (λ ch. ch.name) checks) ≡ false
    → AllNew checks (cs ++ (c ∷ []))
AllNew-append [] cs c h hc = tt
AllNew-append (ch ∷ checks) cs c h hc = (
  rw (types-append cs (c ∷ []), elem-append ch.name (types cs) (types (c ∷ []))) (ground arith),
  AllNew-append checks cs c h.1 (ground arith),
)

unmet-checks :
    (p : Pacto) (checks : List Check)
    → (resource_unmet (map (condition_of p) checks) ≡ resource_failed checks)
      × (other_unmet (map (condition_of p) checks) ≡ other_failed checks)
unfolding resource_unmet other_unmet resource_failed other_failed
unmet-checks p [] = (refl, refl)
unmet-checks p (c ∷ cs) = ground (arith, unmet-checks p cs)

module _ (l : ConditionLists) (lawful : IsLawful l) where
  set_check_conditions_lem :
      (checks : List Check) (p : Pacto)
      → AllNew checks p.status.conditions
      → Distinct (map (λ c. c.name) checks)
      → set_check_conditions l checks p
        ≡ with_conditions p (p.status.conditions ++ map (condition_of p) checks)
  unfolding set_check_conditions set_condition
  set_check_conditions_lem [] p new distinct =
      ap (with_conditions p) (sym (append-nil p.status.conditions))
  set_check_conditions_lem (c ∷ cs) p new distinct =
      let before = p.status.conditions in
      let q = with_conditions p (before ++ (condition_of p c ∷ [])) in
      ap (set_check_conditions l cs)
        (ap (with_conditions p) (lawful.set-new before (condition_of p c) new.0))
      ∙ set_check_conditions_lem cs q (AllNew-append cs before (condition_of p c) new.1 distinct.0)
          distinct.1
      ∙ ap (with_conditions p)
          (append_assoc before (condition_of p c ∷ []) (map (condition_of p) cs))

  pub compute_final_contract_status-set_check_conditions :
      (p : Pacto) (checks : List Check)
      → AllNew checks p.status.conditions
      → Distinct (map (λ c. c.name) checks)
      → compute_final_contract_status (set_check_conditions l checks p).status
        ≡ worse (compute_final_contract_status p.status) (compute_contract_status checks)
  compute_final_contract_status-set_check_conditions p checks new distinct =
      let before = p.status.conditions in
      let after = map (condition_of p) checks in
      ap (λ q. compute_final_contract_status q.status)
        (set_check_conditions_lem checks p new distinct)
      ∙ compute_final_contract_status_lem (with_conditions p (before ++ after)).status
      ∙ rw
          (
            compute_final_contract_status_lem p.status,
            compute_contract_status_lem checks,
            resource_unmet-append before after,
            other_unmet-append before after,
            (unmet-checks p checks).0,
            (unmet-checks p checks).1,
          )
          (ground arith)

  -- For a lawful condition list, a Pacto, a contract and a snapshot, where no condition of a check is
  -- set yet: after the result of Validate is applied, the final status is the worse of the status of
  -- the conditions before and the status that the validator computes from the checks.
  pub compute_final_contract_status-apply_validation_result :
      (p : Pacto) (c : Contract) (snap : RuntimeSnapshot) (has_service : Bool)
      (service_name workload_name workload_kind : String)
      → let result = validate c snap has_service in
        AllNew result.checks p.status.conditions
        → compute_final_contract_status
            (apply_validation_result l p result snap service_name workload_name
              workload_kind).status
          ≡ worse (compute_final_contract_status p.status) (compute_contract_status result.checks)
  unfolding apply_validation_result compute_final_contract_status
  compute_final_contract_status-apply_validation_result p c snap hs sn wn wk new =
      compute_final_contract_status-set_check_conditions
        (record_resources p (validate c snap hs) snap sn wn wk) (validate c snap hs).checks new
        (validate-Distinct c snap hs)
