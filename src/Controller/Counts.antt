-- ===== src/Controller/Counts.antt =====
-- The summary of a reconciliation counts its checks, up to the wrap-around of an int32.
use pacto_operator.Prelude.{
  String, Bool, true, false, not, Option, Option-cases, inl, inr, none, some, List, [], ◌∷◌, ◌++◌,
}
use pacto_operator.Prelude.{
  ◌≡◌, refl, ◌∙◌, sym, ap, ℕ, ◌+◌, arith, wrap32, length, length-append, if◌then◌else◌,
}
use mathlib.Core.List.{append-nil, append_assoc}
use pacto_operator.Message.{Message}
use pacto_operator.Contract.{Contract}
use pacto_operator.Api.Status.{CheckSummary, EndpointCheckResult}
use pacto_operator.Api.Pacto.{Pacto}
use pacto_operator.Observer.{RuntimeSnapshot}
use pacto_operator.Prober.{Answer}
use pacto_operator.Validator.Check.{Check, Result}
use pacto_operator.Metrics.{bit}
use pacto_operator.Metrics.Gauges.{passes}
use pacto_operator.Controller.Conditions.{ConditionLists}
use pacto_operator.Controller.Status.{
  count_checks, add_to_summary, set_condition, apply_validation_result, apply_check,
}
use pacto_operator.Controller.Probes.{
  ProbeSpec, probe_one_endpoint, probe_block, record_endpoints, probe_endpoints, health_probe,
  metrics_probe,
}

abbrev pub fails : List Check → ℕ
fails [] = 0
fails (c ∷ cs) = bit (not c.passed) + fails cs

-- The summary of checks, the one of the contract itself included, which passes.
abbrev pub summary_of : List Check → CheckSummary
summary_of cs = record {
  total = wrap32 (length cs + 1);
  passed = wrap32 (passes cs + 1);
  failed = wrap32 (fails cs);
}

passes-append : (cs ds : List Check) → passes (cs ++ ds) ≡ passes cs + passes ds
passes-append [] ds = omega arith
passes-append (c ∷ cs) ds = omega (arith, passes-append cs ds)

fails-append : (cs ds : List Check) → fails (cs ++ ds) ≡ fails cs + fails ds
fails-append [] ds = omega arith
fails-append (c ∷ cs) ds = omega (arith, fails-append cs ds)

wrap32_suc : (a : ℕ) → wrap32 (wrap32 a + 1) ≡ wrap32 (a + 1)
wrap32_suc a = omega arith

step_passed :
    (p : Bool) (a : ℕ) → (if p then wrap32 (wrap32 a + 1) else wrap32 a) ≡ wrap32 (a + bit p)
step_passed true a = omega arith
step_passed false a = omega arith

step_failed :
    (p : Bool) (b : ℕ) → (if p then wrap32 b else wrap32 (wrap32 b + 1)) ≡ wrap32 (b + bit (not p))
step_failed true b = omega arith
step_failed false b = omega arith

count_checks-cons :
    (c : Check) (cs : List Check) (a b : ℕ)
    → count_checks (c ∷ cs) (wrap32 a) (wrap32 b)
      ≡ count_checks cs (wrap32 (a + bit c.passed)) (wrap32 (b + bit (not c.passed)))
unfolding count_checks
count_checks-cons c cs a b =
    ap (λ x. count_checks cs x (if c.passed then wrap32 b else wrap32 (wrap32 b + 1)))
      (step_passed c.passed a)
    ∙ ap (λ y. count_checks cs (wrap32 (a + bit c.passed)) y) (step_failed c.passed b)

count_checks_lem :
    (cs : List Check) (a b : ℕ)
    → count_checks cs (wrap32 a) (wrap32 b) ≡ (wrap32 (a + passes cs), wrap32 (b + fails cs))
unfolding count_checks
count_checks_lem [] a b = ground arith
count_checks_lem (c ∷ cs) a b =
    count_checks-cons c cs a b
    ∙ count_checks_lem cs (a + bit c.passed) (b + bit (not c.passed))
    ∙ ground arith

add_to_summary_lem :
    (cs : List Check) (c : Check)
    → add_to_summary c.passed (some (summary_of cs)) ≡ summary_of (cs ++ (c ∷ []))
unfolding add_to_summary
add_to_summary_lem cs c = ground (
  arith,
  length-append cs (c ∷ []),
  passes-append cs (c ∷ []),
  fails-append cs (c ∷ []),
  wrap32_suc (length cs + 1),
  wrap32_suc (passes cs + 1),
  wrap32_suc (fails cs),
)

module _ (l : ConditionLists) where
  summary-apply_validation_result :
      (p : Pacto) (result : Result) (snap : RuntimeSnapshot)
      (service_name workload_name workload_kind : String)
      → (apply_validation_result l p result snap service_name workload_name
          workload_kind).status.summary
        ≡ some (summary_of result.checks)
  unfolding apply_validation_result
  summary-apply_validation_result p result snap sn wn wk =
      ap
        (λ n.
          some (record { total = wrap32 (length result.checks + 1); passed = n.0; failed = n.1 }))
        (count_checks_lem result.checks 1 0)
      ∙ ground arith

  summary-apply_check :
      (p : Pacto) (cs : List Check) (c : Check)
      → p.status.summary ≡ some (summary_of cs)
      → (apply_check l p c).status.summary ≡ some (summary_of (cs ++ (c ∷ [])))
  unfolding apply_check set_condition
  summary-apply_check p cs c h =
      ap (λ s. some (add_to_summary c.passed s)) h ∙ ap some (add_to_summary_lem cs c)

  module _ (get : Message → Answer) where
    summary-probe_block :
        (p : Pacto) (spec : Option ProbeSpec) (cs : List Check)
        → p.status.summary ≡ some (summary_of cs)
        → (probe_block l get p spec).0.status.summary
          ≡ some (summary_of (cs ++ (probe_block l get p spec).1))
    unfolding probe_block
    summary-probe_block p none cs h = h ∙ ap (λ ds. some (summary_of ds)) (sym (append-nil cs))
    summary-probe_block p (some spec) cs h =
        summary-apply_check p cs (probe_one_endpoint get spec).0 h

    summary-record_endpoints :
        (p : Pacto) (health metrics : Option EndpointCheckResult)
        → (record_endpoints l get p health metrics).status.summary ≡ p.status.summary
    unfolding record_endpoints
    summary-record_endpoints p none none = refl
    summary-record_endpoints p none (some m) = refl
    summary-record_endpoints p (some h) metrics = refl

    summary-probe_endpoints :
        (p : Pacto) (c : Contract) (service_name : String) (cs : List Check)
        → p.status.summary ≡ some (summary_of cs)
        → (probe_endpoints l get p c service_name).0.status.summary
          ≡ some (summary_of (cs ++ (probe_endpoints l get p c service_name).1))
    unfolding probe_endpoints health_probe probe_block metrics_probe
    summary-probe_endpoints p c service_name cs h = elim (Option-cases c.runtime) [
      | inl e ↦ rw e (h ∙ ap (λ ds. some (summary_of ds)) (sym (append-nil cs)))
      | inr (r, e) ↦
          let health = probe_block l get p (health_probe p c r service_name) in
          let metrics = probe_block l get health.0 (metrics_probe health.0 c r service_name) in
          rw e (
            summary-record_endpoints metrics.0 health.2 metrics.2
            ∙ summary-probe_block health.0 (metrics_probe health.0 c r service_name)
                (cs ++ health.1) (summary-probe_block p (health_probe p c r service_name) cs h)
            ∙ ap (λ ds. some (summary_of ds)) (append_assoc cs health.1 metrics.1))
    ]

    -- For every Pacto, result, contract and client: after the result is applied and the endpoints
    -- are probed, the summary counts the contract's own check, the checks of the result and the ones
    -- of the endpoints, the passed ones and the failed ones, each count modulo 2^32.
    pub summary-reconciliation :
        (p : Pacto) (result : Result) (snap : RuntimeSnapshot)
        (service_name workload_name workload_kind : String) (c : Contract)
        → let q =
            apply_validation_result l p result snap service_name workload_name workload_kind in
          (probe_endpoints l get q c service_name).0.status.summary
          ≡ some (summary_of (result.checks ++ (probe_endpoints l get q c service_name).1))
    summary-reconciliation p result snap sn wn wk c =
        summary-probe_endpoints (apply_validation_result l p result snap sn wn wk) c sn
          result.checks (summary-apply_validation_result p result snap sn wn wk)
