-- ===== src/Controller/StatusGauge.antt =====
-- The gauge of the contract status after a run of `Reconcile` of
-- internal/controller/pacto_controller.go.
use pacto_operator.Prelude.{
  String, false, List, [], ◌∷◌, ◌++◌, ◌≡◌, ◌≢◌, refl, ℕ, Option, some, none,
}
use pacto_operator.Prelude.{◌∙◌, ap, Option-cases, if_intro, ◌!=◌, ◌==◌, string_eq, inl, inr}
use pacto_operator.Contract.{Contract}
use pacto_operator.Api.Conditions.{ContractStatus, contract_status_eq, event_contract_invalid}
use pacto_operator.Api.Pacto.{Pacto}
use pacto_operator.Observer.{fetched}
use pacto_operator.Validator.Check.{Check}
use pacto_operator.Metrics.{Sample, bit, record_contract_status, record_validation}
use pacto_operator.Metrics.Shown.{
  shown, shown-append, shown-record_validation, shown-record_contract_status,
}
use pacto_operator.Controller.Effects.{Effect, event, sample, samples, EventType}
use pacto_operator.Controller.Environment.{Environment}
use pacto_operator.Controller.Finish.{
  Run, stamp, failed_status, contract_check, finish_events, write_status, validation_samples,
  fail_reconciliation, finish_reconciliation,
}
use pacto_operator.Controller.Ends.{Ends, failed_run, finished_run, crashed_run, reconcile-Ends}
use pacto_operator.Controller.Reconcile.{reconcile}

abbrev pub sampled : List Effect → List Sample
sampled [] = []
sampled (event _ _ _ ∷ rest) = sampled rest
sampled (sample x ∷ rest) = x ∷ sampled rest

sampled-append : (es fs : List Effect) → sampled (es ++ fs) ≡ sampled es ++ sampled fs
sampled-append [] fs = refl
sampled-append (event _ _ _ ∷ es) fs = sampled-append es fs
sampled-append (sample x ∷ es) fs = ap (λ xs. x ∷ xs) (sampled-append es fs)

sampled-samples : (xs : List Sample) → sampled (samples xs) ≡ xs
sampled-samples [] = refl
sampled-samples (x ∷ xs) = ap (λ ys. x ∷ ys) (sampled-samples xs)

-- The gauge of the Pacto that was written shows `s` exactly where it is its status.
abbrev pub Shows : ContractStatus → Option ℕ → Run → Type 0
Shows s v r = elim r.written as (λ _. Type 0) [
  | none ↦ Unit
  | some q ↦
      shown q.namespace q.name s (sampled r.effects) v ≡ some (bit (s == q.status.contract_status))
]

module _ (s : ContractStatus) (v : Option ℕ) (set : s ≢ ContractStatus.unset) where
  validation_shown :
      (namespace name : String) (p : Pacto) (c : Option Contract) (checks : List Check)
      (w : Option ℕ)
      → shown namespace name s (sampled (validation_samples p c checks)) w ≡ w
  unfolding shown
  validation_shown namespace name p none checks w = refl
  validation_shown namespace name p (some c) checks w =
      let recorded = record_validation p.namespace c.service.name checks in
      if_intro (λ (es : List Effect). shown namespace name s (sampled es) w ≡ w)
        (c.service.name != "")
        (ap (λ (xs : List Sample). shown namespace name s xs w) (sampled-samples recorded)
          ∙ shown-record_validation namespace name s p.namespace c.service.name checks w)
        refl

  -- The samples that are written with a status, after any other effects.
  status_shown :
      (p : Pacto) (c : Option Contract) (checks : List Check) (before said : List Effect)
      → shown p.namespace p.name s
          (sampled (
            before
            ++ (said
                ++ (samples (record_contract_status p.namespace p.name p.status.contract_status)
                    ++ validation_samples p c checks))))
          v
        ≡ some (bit (s == p.status.contract_status))
  status_shown p c checks before said =
      let recorded = record_contract_status p.namespace p.name p.status.contract_status in
      let rest = validation_samples p c checks in
      let w =
        shown p.namespace p.name s (sampled said) (shown p.namespace p.name s (sampled before) v) in
      rw
        (
          sampled-append before (said ++ (samples recorded ++ rest)),
          sampled-append said (samples recorded ++ rest),
          sampled-append (samples recorded) rest,
          sampled-samples recorded,
          shown-append p.namespace p.name s (sampled before)
              (sampled said ++ (recorded ++ sampled rest)) v,
          shown-append p.namespace p.name s (sampled said) (recorded ++ sampled rest)
              (shown p.namespace p.name s (sampled before) v),
          shown-append p.namespace p.name s recorded (sampled rest) w,
          validation_shown p.namespace p.name p c checks (shown p.namespace p.name s recorded w),
        )
        (shown-record_contract_status p.namespace p.name s p.status.contract_status w set)

  module _ {S A : Type 0} (env : Environment S A) where
    write_status-Shows :
        (p : Pacto) (before after : List Effect)
        → shown p.namespace p.name s (sampled (before ++ after)) v
          ≡ some (bit (s == p.status.contract_status))
        → Shows s v (write_status env.lists env.update_status env.now p before after)
    unfolding write_status
    write_status-Shows p before after h = elim (Option-cases (env.update_status p)) [
      | inl e ↦ rw (write_status, e) h
      | inr (m, e) ↦ rw (write_status, e) tt
    ]

    Ends-Shows : (r : Run) → Ends env r → Shows s v r
    unfolding fail_reconciliation finish_reconciliation
    Ends-Shows _ (crashed_run before) = tt
    Ends-Shows _ (failed_run p message result c before) =
        let q = failed_status env.lists env.update_status env.now p message result in
        write_status-Shows q before _ (
          status_shown q c (contract_check false ∷ []) before
            (event EventType.warning event_contract_invalid message ∷ []))
    Ends-Shows _ (finished_run p c checks before h) =
        let q = stamp env.now p in
        write_status-Shows q before _ (status_shown q (some c) checks before (finish_events q))

    -- For every environment, state and Pacto, every status `s` that is one, and whatever the gauges show
    -- before: where a run of Reconcile writes a status, the gauge of the Pacto at `s` is 1 after the run
    -- if `s` is the contract status that was written, and 0 if it is another one.
    pub reconcile-Shows : (t : S) (p : Pacto) → Shows s v (reconcile env t (fetched p)).1
    reconcile-Shows t p = Ends-Shows (reconcile env t (fetched p)).1 (reconcile-Ends env t p)
