-- ===== src/Controller/Probed.antt =====
-- The final status after the endpoints are probed.
use pacto_operator.Prelude.{String, false, not, Option, none, some, List, [], ◌∷◌, ◌++◌}
use pacto_operator.Prelude.{
  ◌≡◌, refl, ◌∙◌, ap, sym, arith, ◌==◌, if_intro, elem, elem-append, Option-cases, inl, inr,
}
use pacto_operator.Message.{Message}
use pacto_operator.Contract.{Contract, Runtime}
use pacto_operator.Api.Conditions.{
  ConditionType, condition_type_eq, health_endpoint_valid, metrics_endpoint_valid, ContractStatus,
}
use pacto_operator.Api.Status.{PactoStatus, EndpointCheckResult}
use pacto_operator.Api.Pacto.{Pacto}
use pacto_operator.Prober.{Answer, ProbeResult}
use pacto_operator.Validator.Check.{Check}
use pacto_operator.Validator.Validate.{compute_contract_status}
use pacto_operator.Validator.Verdict.{
  worse, compute_contract_status_lem, compute_contract_status-append, resource_failed, other_failed,
}
use pacto_operator.Controller.Conditions.{ConditionLists, IsLawful, types}
use pacto_operator.Controller.Status.{
  compute_final_contract_status, set_condition, set_check_conditions, apply_check,
}
use pacto_operator.Controller.Summary.{
  compute_final_contract_status_lem, compute_final_contract_status-set_check_conditions,
  types-append, condition_of,
}
use pacto_operator.Controller.Probes.{
  ProbeSpec, iface_exists, iface_port, probe_verdict, evaluate_probe_result, probe_one_endpoint,
  probe_block, record_endpoints, probe_endpoints, health_probe, metrics_probe,
}

abbrev final : Pacto → ContractStatus
final p = compute_final_contract_status p.status

name-probe_verdict :
    (r : ProbeResult) (url : Message) (spec : ProbeSpec)
    → (probe_verdict r url spec).name ≡ spec.condition_type
unfolding probe_verdict
name-probe_verdict r url spec = ground arith

name-probe_one_endpoint :
    (get : Message → Answer) (spec : ProbeSpec)
    → (probe_one_endpoint get spec).0.name ≡ spec.condition_type
unfolding probe_one_endpoint evaluate_probe_result
name-probe_one_endpoint get spec =
    if_intro (λ (r : Check × Option EndpointCheckResult). r.0.name ≡ spec.condition_type)
      (not (iface_exists spec.interface_name spec.interfaces)) refl
      (elim (Option-cases (iface_port spec.interface_name spec.interfaces)) [
        | inl e ↦ rw e refl
        | inr (port, e) ↦ rw e (name-probe_verdict _ _ spec)
      ])

worse_of_none :
    (s : PactoStatus)
    → worse (compute_final_contract_status s) (compute_contract_status [])
      ≡ compute_final_contract_status s
unfolding resource_failed other_failed
worse_of_none s =
    rw (compute_final_contract_status_lem s, compute_contract_status_lem []) (ground arith)

worse_assoc :
    (s : PactoStatus) (cs ds : List Check)
    → worse
        (worse (compute_final_contract_status s) (compute_contract_status cs))
        (compute_contract_status ds)
      ≡ worse (compute_final_contract_status s) (compute_contract_status (cs ++ ds))
worse_assoc s cs ds =
    rw
      (
        compute_contract_status-append cs ds,
        compute_final_contract_status_lem s,
        compute_contract_status_lem cs,
        compute_contract_status_lem ds,
      )
      (ground arith)

metrics_is_not_health : (metrics_endpoint_valid == health_endpoint_valid) ≡ false
unfolding condition_type_eq
metrics_is_not_health = refl

module _ (l : ConditionLists) (lawful : IsLawful l) where
  final-apply_check :
      (p : Pacto) (c : Check)
      → elem c.name (types p.status.conditions) ≡ false
      → final (apply_check l p c) ≡ worse (final p) (compute_contract_status (c ∷ []))
  unfolding apply_check compute_final_contract_status set_check_conditions
  final-apply_check p c new =
      compute_final_contract_status-set_check_conditions l lawful p (c ∷ []) (new, tt) (refl, tt)

  conditions-apply_check :
      (p : Pacto) (c : Check) (t : ConditionType)
      → elem c.name (types p.status.conditions) ≡ false
      → elem t (types p.status.conditions) ≡ false
      → (t == c.name) ≡ false
      → elem t (types (apply_check l p c).status.conditions) ≡ false
  unfolding apply_check set_condition
  conditions-apply_check p c t new absent_t differ =
      let conditions = p.status.conditions in
      let condition = condition_of p c in
      ap (λ cs. elem t (types cs)) (lawful.set-new conditions condition new)
      ∙ ap (elem t) (types-append conditions (condition ∷ []))
      ∙ elem-append t (types conditions) (types (condition ∷ []))
      ∙ ground arith

  module _ (get : Message → Answer) where
    final-probe_block :
        (p : Pacto) (spec : Option ProbeSpec) (t : ConditionType)
        → elem t (types p.status.conditions) ≡ false
        → ((s : ProbeSpec) → spec ≡ some s → s.condition_type ≡ t)
        → final (probe_block l get p spec).0
          ≡ worse (final p) (compute_contract_status (probe_block l get p spec).1)
    unfolding probe_block
    final-probe_block p none t new is_t = sym (worse_of_none p.status)
    final-probe_block p (some s) t new is_t = final-apply_check p (probe_one_endpoint get s).0 (
        ap (λ u. elem u (types p.status.conditions)) (name-probe_one_endpoint get s ∙ is_t s refl)
        ∙ new)

    conditions-probe_block :
        (p : Pacto) (spec : Option ProbeSpec) (t u : ConditionType)
        → elem t (types p.status.conditions) ≡ false
        → elem u (types p.status.conditions) ≡ false
        → ((s : ProbeSpec) → spec ≡ some s → s.condition_type ≡ t)
        → (u == t) ≡ false
        → elem u (types (probe_block l get p spec).0.status.conditions) ≡ false
    unfolding probe_block
    conditions-probe_block p none t u new absent_u is_t differ = absent_u
    conditions-probe_block p (some s) t u new absent_u is_t differ =
        let named = name-probe_one_endpoint get s ∙ is_t s refl in
        conditions-apply_check p (probe_one_endpoint get s).0 u
          (ap (λ v. elem v (types p.status.conditions)) named ∙ new) absent_u
          (ap (λ v. u == v) named ∙ differ)

    final-record_endpoints :
        (p : Pacto) (health metrics : Option EndpointCheckResult)
        → final (record_endpoints l get p health metrics) ≡ final p
    unfolding record_endpoints compute_final_contract_status
    final-record_endpoints p none none = refl
    final-record_endpoints p none (some m) = refl
    final-record_endpoints p (some h) metrics = refl

    health_probe_type :
        (p : Pacto) (c : Contract) (r : Runtime) (service_name : String) (s : ProbeSpec)
        → health_probe p c r service_name ≡ some s
        → s.condition_type ≡ health_endpoint_valid
    unfolding health_probe
    health_probe_type p c r service_name s h = elim (Option-cases r.health) [
      | inl e ↦ absurd (ground arith)
      | inr (x, e) ↦ ground arith
    ]

    metrics_probe_type :
        (p : Pacto) (c : Contract) (r : Runtime) (service_name : String) (s : ProbeSpec)
        → metrics_probe p c r service_name ≡ some s
        → s.condition_type ≡ metrics_endpoint_valid
    unfolding metrics_probe
    metrics_probe_type p c r service_name s h = elim (Option-cases r.metrics) [
      | inl e ↦ absurd (ground arith)
      | inr (x, e) ↦ ground arith
    ]

    -- For a lawful condition list, a client, a contract and a Pacto without a condition of an endpoint:
    -- after the endpoints are probed, the final status is the worse of the one before and the status
    -- of the checks of the endpoints.
    pub compute_final_contract_status-probe_endpoints :
        (p : Pacto) (c : Contract) (service_name : String)
        → elem health_endpoint_valid (types p.status.conditions) ≡ false
        → elem metrics_endpoint_valid (types p.status.conditions) ≡ false
        → compute_final_contract_status (probe_endpoints l get p c service_name).0.status
          ≡ worse
              (compute_final_contract_status p.status)
              (compute_contract_status (probe_endpoints l get p c service_name).1)
    unfolding probe_endpoints health_probe probe_block metrics_probe
    compute_final_contract_status-probe_endpoints p c service_name no_health no_metrics =
        elim (Option-cases c.runtime) [
          | inl e ↦ rw e (sym (worse_of_none p.status))
          | inr (r, e) ↦
              let health = probe_block l get p (health_probe p c r service_name) in
              let metrics = probe_block l get health.0 (metrics_probe health.0 c r service_name) in
              rw e (
                final-record_endpoints metrics.0 health.2 metrics.2
                ∙ final-probe_block health.0 (metrics_probe health.0 c r service_name)
                    metrics_endpoint_valid
                    (conditions-probe_block p (health_probe p c r service_name)
                      health_endpoint_valid metrics_endpoint_valid no_health no_metrics
                      (health_probe_type p c r service_name) metrics_is_not_health)
                    (metrics_probe_type health.0 c r service_name)
                ∙ ap (λ s. worse s (compute_contract_status metrics.1))
                    (final-probe_block p (health_probe p c r service_name) health_endpoint_valid
                      no_health (health_probe_type p c r service_name))
                ∙ worse_assoc p.status health.1 metrics.1)
        ]
