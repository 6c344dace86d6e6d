-- ===== src/Controller/Complete.antt =====
-- What every run of `Reconcile` leaves.
use pacto_operator.Prelude.{Option, none, some, List}
use pacto_operator.Prelude.{◌≡◌, ◌≢◌, refl, arith, ℕ, ◌⊎◌, inl, inr, Option-cases}
use pacto_operator.Message.{Message}
use pacto_operator.Contract.{Contract}
use pacto_operator.Api.Conditions.{ContractStatus}
use pacto_operator.Api.Pacto.{Pacto}
use pacto_operator.Observer.{fetched}
use pacto_operator.Validator.Check.{Check}
use pacto_operator.Controller.Effects.{Effect}
use pacto_operator.Controller.Status.{set_condition, requeue_interval}
use pacto_operator.Controller.Conditions.{ConditionLists}
use pacto_operator.Api.Status.{ValidationResult}
use pacto_operator.Controller.Finish.{
  requeue_after, error, crashed, Run, write_status, failed_status, stamp, fail_reconciliation,
  finish_reconciliation,
}
use pacto_operator.Controller.Environment.{Environment}
use pacto_operator.Controller.Ends.{Ends, failed_run, finished_run, crashed_run, reconcile-Ends}
use pacto_operator.Controller.Reconcile.{reconcile}

-- A status that says what was found, and of which generation at which time.
abbrev pub IsComplete : ℕ → Pacto → Type 0
IsComplete now p =
    (p.status.contract_status ≢ ContractStatus.unset)
    × (p.status.last_reconciled_at ≡ some now)
    × (p.status.observed_generation ≡ p.generation)

-- A run that wrote a status comes back after the interval of the Pacto; one that wrote none returns
-- an error, or crashed.
abbrev pub IsSound : ℕ → Run → Type 0
IsSound now r = elim r.written as (λ _. Type 0) [
  | some q ↦
      IsComplete now q
      × (r.outcome ≡ requeue_after (requeue_interval q.spec.check_interval_seconds))
  | none ↦ ((m : Message) × (r.outcome ≡ error m)) ⊎ (r.outcome ≡ crashed)
]

module _ (l : ConditionLists) (update_status : Pacto → Option Message) (now : ℕ) where
  write_status-IsSound :
      (p : Pacto) (before after : List Effect)
      → IsComplete now p
      → IsSound now (write_status l update_status now p before after)
  unfolding write_status
  write_status-IsSound p before after h = elim (Option-cases (update_status p)) [
    | inl e ↦ rw (e, write_status) (h, refl)
    | inr (m, e) ↦ rw (e, write_status) (inl (m, refl))
  ]

  failed_status-IsComplete :
      (p : Pacto) (message : Message) (result : Option ValidationResult)
      → IsComplete now (failed_status l update_status now p message result)
  unfolding failed_status stamp set_condition
  failed_status-IsComplete p message result = (λ e. absurd (ground arith), refl, refl)

  stamp-IsComplete :
      (p : Pacto) → p.status.contract_status ≢ ContractStatus.unset → IsComplete now (stamp now p)
  unfolding stamp
  stamp-IsComplete p h = (h, refl, refl)

  fail_reconciliation-IsSound :
      (p : Pacto) (message : Message) (result : Option ValidationResult) (c : Option Contract)
      (before : List Effect)
      → IsSound now (fail_reconciliation l update_status now p message result c before)
  unfolding fail_reconciliation
  fail_reconciliation-IsSound p message result c before =
      write_status-IsSound (failed_status l update_status now p message result) before _
        (failed_status-IsComplete p message result)

  finish_reconciliation-IsSound :
      (p : Pacto) (c : Contract) (checks : List Check) (before : List Effect)
      → p.status.contract_status ≢ ContractStatus.unset
      → IsSound now (finish_reconciliation l update_status now p c checks before)
  unfolding finish_reconciliation
  finish_reconciliation-IsSound p c checks before h =
      write_status-IsSound (stamp now p) before _ (stamp-IsComplete p h)

module _ {S A : Type 0} (env : Environment S A) where
  Ends-IsSound : (r : Run) → Ends env r → IsSound env.now r
  Ends-IsSound _ (failed_run p message result c before) =
      fail_reconciliation-IsSound env.lists env.update_status env.now p message result c before
  Ends-IsSound _ (finished_run p c checks before h) =
      finish_reconciliation-IsSound env.lists env.update_status env.now p c checks before h
  Ends-IsSound _ (crashed_run before) = inr refl

  -- For every environment, state and Pacto: a run of Reconcile that writes a status writes one with a
  -- contract status, the time of the run and the generation of the Pacto, and comes back after the
  -- Pacto's interval; a run that writes none returns an error, so that it is tried again, or crashed.
  pub reconcile-IsSound : (s : S) (p : Pacto) → IsSound env.now (reconcile env s (fetched p)).1
  reconcile-IsSound s p = Ends-IsSound (reconcile env s (fetched p)).1 (reconcile-Ends env s p)
