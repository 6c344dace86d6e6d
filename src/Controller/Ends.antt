-- ===== src/Controller/Ends.antt =====
-- How a run of `Reconcile` ends.
use pacto_operator.Prelude.{String, Bool, false, not, Option, none, List, [], ◌∷◌}
use pacto_operator.Prelude.{◌≡◌, ◌≢◌, refl, arith, if_intro, is_empty, ◌⊎◌, inl, inr}
use pacto_operator.Message.{Message, Attempt-cases}
use pacto_operator.Contract.{Contract}
use pacto_operator.Api.Conditions.{ContractStatus}
use pacto_operator.Api.Spec.{is_reference, resolved_workload}
use pacto_operator.Api.Status.{PactoStatus, Condition}
use pacto_operator.Api.Pacto.{Pacto}
use pacto_operator.Observer.{fetched, RuntimeSnapshot, Observed, ok, err, observe}
use pacto_operator.Validator.Check.{Check}
use pacto_operator.Controller.Effects.{Effect}
use pacto_operator.Controller.Status.{
  reset_derived_status, final_loop, compute_final_contract_status,
}
use pacto_operator.Controller.Revisions.{LoadResult}
use pacto_operator.Controller.Revisions.Sync.{Ending, completed, stopped, panicked}
use pacto_operator.Api.Status.{ValidationResult}
use pacto_operator.Controller.Finish.{crashed, Run, fail_reconciliation, finish_reconciliation}
use pacto_operator.Controller.Overrides.{apply_configuration_overrides}
use pacto_operator.Controller.Environment.{Environment}
use pacto_operator.Controller.Runtime.{
  reconcile_observed, reconcile_unobserved, reconcile_reference, reconcile_target,
  reconcile_runtime,
}
use pacto_operator.Controller.Reconcile.{
  resolve_auth, after_sync, reconcile_valid, reconcile_contract, reconcile_loaded, reconcile_load,
  reconcile_pacto, reconcile,
}

-- A run ends by `failReconciliation`, by `finishReconciliation` with a contract status, or by a panic.
pub data Ends {S A : Type 0} (env : Environment S A) : Run → Type 0 where
  failed_run :
      (p : Pacto) (message : Message) (result : Option ValidationResult) (c : Option Contract)
      (before : List Effect)
      → Ends env (fail_reconciliation env.lists env.update_status env.now p message result c before)
  finished_run :
      (p : Pacto) (c : Contract) (checks : List Check) (before : List Effect)
      → p.status.contract_status ≢ ContractStatus.unset
      → Ends env (finish_reconciliation env.lists env.update_status env.now p c checks before)
  crashed_run :
      (before : List Effect)
      → Ends env (record { written = none; effects = before; outcome = crashed })

set_final : (cs : List Condition) (a b : Bool) → final_loop cs a b ≢ ContractStatus.unset
unfolding final_loop
set_final [] a b = λ h. absurd (ground arith)
set_final (c ∷ cs) a b = set_final cs _ _

final_is_set : (s : PactoStatus) → compute_final_contract_status s ≢ ContractStatus.unset
unfolding compute_final_contract_status
final_is_set s = set_final s.conditions false false

pub Observed-cases :
    {A : Type 0} (r : Observed A) → ((e : Message) × (r ≡ err e)) ⊎ ((a : A) × (r ≡ ok a))
Observed-cases (ok a) = inr (a, refl)
Observed-cases (err e) = inl (e, refl)

module _ {S A : Type 0} (env : Environment S A) where
  reconcile_observed-Ends :
      (p : Pacto) (c : Contract) (snap : RuntimeSnapshot) (before : List Effect)
      → Ends env (reconcile_observed env p c snap before)
  unfolding reconcile_observed
  reconcile_observed-Ends p c snap before = finished_run _ c _ before (final_is_set _)

  reconcile_unobserved-Ends :
      (p : Pacto) (c : Contract) (e : Message) (before : List Effect)
      → Ends env (reconcile_unobserved env p c e before)
  unfolding reconcile_unobserved
  reconcile_unobserved-Ends p c e before = finished_run _ c _ _ (λ h. absurd (ground arith))

  reconcile_reference-Ends :
      (p : Pacto) (c : Contract) (before : List Effect)
      → Ends env (reconcile_reference env p c before)
  unfolding reconcile_reference
  reconcile_reference-Ends p c before = finished_run _ c _ _ (λ h. absurd (ground arith))

  reconcile_target-Ends :
      (p : Pacto) (c : Contract) (before : List Effect) → Ends env (reconcile_target env p c before)
  unfolding reconcile_target
  reconcile_target-Ends p c before =
      elim (Observed-cases (
        observe (env.cluster p.namespace) p.spec.target.service_name (resolved_workload p.spec).0
          (resolved_workload p.spec).1)) [
            | inl (e, h) ↦ rw (h, reconcile_target) (reconcile_unobserved-Ends p c e before)
            | inr (snap, h) ↦ rw (h, reconcile_target) (reconcile_observed-Ends p c snap before)
          ]

  reconcile_runtime-Ends :
      (p : Pacto) (c : Contract) (before : List Effect)
      → Ends env (reconcile_runtime env p c before)
  unfolding reconcile_runtime
  reconcile_runtime-Ends p c before =
      if_intro (Ends env) (is_reference p.spec) (reconcile_reference-Ends p c before)
        (reconcile_target-Ends p c before)

  after_sync-Ends :
      (p : Pacto) (c : Contract) (before : List Effect) (ending : Ending)
      → Ends env (after_sync env p c before ending)
  unfolding after_sync
  after_sync-Ends p c before panicked = crashed_run before
  after_sync-Ends p c before completed = reconcile_runtime-Ends p c before
  after_sync-Ends p c before (stopped e) = reconcile_runtime-Ends p c before

  reconcile_contract-Ends :
      (s : S) (p : Pacto) (auth : Option A) (lr : LoadResult) (c : Contract)
      (keys : List (String × List String)) (was_unmet : Bool)
      → Ends env (reconcile_contract env s p auth lr c keys was_unmet).1
  unfolding reconcile_contract reconcile_valid
  reconcile_contract-Ends s p auth lr c keys was_unmet =
      if_intro (λ (r : S × Run). Ends env r.1)
        (not (is_empty (env.validate_contract c lr.raw_yaml lr.bundle_fs).errors))
        (failed_run _ _ _ _ []) (after_sync-Ends _ c _ _)

  reconcile_loaded-Ends :
      (s : S) (p : Pacto) (auth : Option A) (lr : LoadResult) (was_unmet : Bool)
      → Ends env (reconcile_loaded env s p auth lr was_unmet).1
  unfolding reconcile_loaded
  reconcile_loaded-Ends s p auth lr was_unmet =
      elim (Attempt-cases (apply_configuration_overrides lr.contract p.spec.overrides)) [
        | inl (e, h) ↦ rw (h, reconcile_loaded) (failed_run _ _ _ _ [])
        | inr ((c, keys), h) ↦
            rw (h, reconcile_loaded) (reconcile_contract-Ends s p auth lr c keys was_unmet)
      ]

  reconcile_load-Ends :
      (s : S) (p : Pacto) (auth : Option A) (was_unmet : Bool)
      → Ends env (reconcile_load env s p auth was_unmet).1
  unfolding reconcile_load
  reconcile_load-Ends s p auth was_unmet =
      elim (Attempt-cases (env.load auth p.spec.contract_ref.oci p.spec.contract_ref.inline)) [
        | inl (e, h) ↦ rw (h, reconcile_load) (failed_run _ _ _ _ [])
        | inr (lr, h) ↦ rw (h, reconcile_load) (reconcile_loaded-Ends s _ auth lr was_unmet)
      ]

  reconcile_pacto-Ends : (s : S) (p : Pacto) → Ends env (reconcile_pacto env s p).1
  unfolding reconcile_pacto
  reconcile_pacto-Ends s p =
      elim (Attempt-cases
        (resolve_auth env (record p { status = reset_derived_status p.status }))) [
          | inl (e, h) ↦ rw (h, reconcile_pacto) (failed_run _ _ _ _ [])
          | inr (auth, h) ↦ rw (h, reconcile_pacto) (reconcile_load-Ends s _ auth _)
        ]

  pub reconcile-Ends : (s : S) (p : Pacto) → Ends env (reconcile env s (fetched p)).1
  unfolding reconcile
  reconcile-Ends s p = reconcile_pacto-Ends s p
