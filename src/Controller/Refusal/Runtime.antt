-- ===== src/Controller/Refusal/Runtime.antt =====
-- The stages of a reconciliation behind the revisions report nothing about the contract.
use pacto_operator.Prelude.{false, ◌&&◌, not, Option, some, List, [], ◌∷◌, ◌≡◌, refl}
use pacto_operator.Prelude.{if_intro, inl, inr, Option-cases, ◌!=◌, string_eq, has_char}
use pacto_operator.Message.{Message}
use pacto_operator.Contract.{Contract}
use pacto_operator.Api.Conditions.{
  event_observation_failed, compliant, reference, contract_status_eq,
}
use pacto_operator.Api.Spec.{is_reference, resolved_workload}
use pacto_operator.Api.Pacto.{Pacto}
use pacto_operator.Observer.{observe}
use pacto_operator.Validator.Check.{Check}
use pacto_operator.Controller.Effects.{Effect, EventType, samples}
use pacto_operator.Controller.Revisions.Sync.{Ending, completed, stopped, panicked}
use pacto_operator.Controller.Finish.{
  Run, finish_events, stamp, write_status, finish_reconciliation, validation_samples,
}
use pacto_operator.Controller.Environment.{Environment}
use pacto_operator.Controller.Runtime.{
  reconcile_observed, reconcile_unobserved, reconcile_reference, reconcile_target,
  reconcile_runtime,
}
use pacto_operator.Controller.Ends.{Observed-cases}
use pacto_operator.Controller.Reconcile.{after_sync, sync_revisions}
use pacto_operator.Controller.Refusal.{refuses}
use pacto_operator.Controller.Refusal.Quiet.{
  IsQuiet, nothing-IsQuiet, append-IsQuiet, samples-IsQuiet, sync_all_revisions-IsQuiet,
}

finish_events-IsQuiet : (p : Pacto) → IsQuiet (finish_events p)
unfolding IsQuiet finish_events
finish_events-IsQuiet p =
    if_intro (λ (es : List Effect). refuses es ≡ false)
      (p.status.contract_status != compliant && p.status.contract_status != reference)
      (elim (Option-cases p.status.summary) [ inl e ↦ rw e refl | inr (s, e) ↦ rw e refl ]) refl

validation_samples-IsQuiet :
    (p : Pacto) (c : Contract) (checks : List Check)
    → IsQuiet (validation_samples p (some c) checks)
validation_samples-IsQuiet p c checks =
    if_intro IsQuiet (c.service.name != "") (samples-IsQuiet _) nothing-IsQuiet

observation_failed-IsQuiet :
    (m : Message) → IsQuiet (Effect.event EventType.warning event_observation_failed m ∷ [])
unfolding IsQuiet
observation_failed-IsQuiet m = refl

module _ {S A : Type 0} (env : Environment S A) where
  write_status-IsQuiet :
      (p : Pacto) (before after : List Effect)
      → IsQuiet before
      → IsQuiet after
      → IsQuiet (write_status env.lists env.update_status env.now p before after).effects
  unfolding write_status
  write_status-IsQuiet p before after hb ha = elim (Option-cases (env.update_status p)) [
    | inl e ↦ rw (write_status, e) (append-IsQuiet before after hb ha)
    | inr (m, e) ↦ rw (write_status, e) hb
  ]

  finish_reconciliation-IsQuiet :
      (p : Pacto) (c : Contract) (checks : List Check) (before : List Effect)
      → IsQuiet before
      → IsQuiet
          (finish_reconciliation env.lists env.update_status env.now p c checks before).effects
  unfolding finish_reconciliation
  finish_reconciliation-IsQuiet p c checks before h =
      write_status-IsQuiet (stamp env.now p) before _ h (
        append-IsQuiet (finish_events (stamp env.now p)) _ (finish_events-IsQuiet _) (
          append-IsQuiet (samples _) _ (samples-IsQuiet _)
            (validation_samples-IsQuiet (stamp env.now p) c checks)))

  reconcile_target-IsQuiet :
      (p : Pacto) (c : Contract) (before : List Effect)
      → IsQuiet before
      → IsQuiet (reconcile_target env p c before).effects
  unfolding reconcile_target reconcile_unobserved reconcile_observed
  reconcile_target-IsQuiet p c before h =
      elim (Observed-cases (
        observe (env.cluster p.namespace) p.spec.target.service_name (resolved_workload p.spec).0
          (resolved_workload p.spec).1)) [
            | inl (e, k) ↦
                rw (k, reconcile_target)
                  (finish_reconciliation-IsQuiet _ c _ _
                    (append-IsQuiet before _ h (observation_failed-IsQuiet _)))
            | inr (snap, k) ↦
                rw (k, reconcile_target) (finish_reconciliation-IsQuiet _ c _ before h)
          ]

  pub reconcile_runtime-IsQuiet :
      (p : Pacto) (c : Contract) (before : List Effect)
      → IsQuiet before
      → IsQuiet (reconcile_runtime env p c before).effects
  unfolding reconcile_runtime reconcile_reference
  reconcile_runtime-IsQuiet p c before h =
      if_intro (λ (r : Run). IsQuiet r.effects) (is_reference p.spec)
        (finish_reconciliation-IsQuiet _ c _ before h) (reconcile_target-IsQuiet p c before h)

  pub after_sync-IsQuiet :
      (p : Pacto) (c : Contract) (before : List Effect) (ending : Ending)
      → IsQuiet before
      → IsQuiet (after_sync env p c before ending).effects
  unfolding after_sync
  after_sync-IsQuiet p c before panicked h = h
  after_sync-IsQuiet p c before completed h = reconcile_runtime-IsQuiet p c before h
  after_sync-IsQuiet p c before (stopped e) h = reconcile_runtime-IsQuiet p c before h

  pub sync_revisions-IsQuiet :
      (s : S) (p : Pacto) (auth : Option A) → IsQuiet (sync_revisions env s p auth).1
  unfolding sync_revisions
  sync_revisions-IsQuiet s p auth =
      let oci = p.spec.contract_ref.oci in
      if_intro (λ (r : S × List Effect × Ending). IsQuiet r.1) (oci != "" && not (has_char 64 oci))
        (sync_all_revisions-IsQuiet env.revisions env.sha256 env.now (λ ref. env.load auth ref "")
          (env.list_tags auth) s p oci)
        nothing-IsQuiet
