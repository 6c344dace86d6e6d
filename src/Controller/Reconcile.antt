-- ===== src/Controller/Reconcile.antt =====
-- `Reconcile` of internal/controller/pacto_controller.go, in the stages of its comments, up to the
-- runtime.
use pacto_operator.Prelude.{String, Bool, ◌&&◌, not, Option, none, some, List, [], ◌++◌}
use pacto_operator.Prelude.{◌==◌, ◌!=◌, string_eq, if◌then◌else◌, is_empty, has_char}
use pacto_operator.Message.{Attempt, success, failure, sprintf, str, msg, done}
use pacto_operator.Contract.{Contract}
use pacto_operator.Api.Conditions.{contract_valid, condition_true, parsed}
use pacto_operator.Api.Pacto.{Pacto}
use pacto_operator.Observer.{Fetched, fetched, absent, failed}
use pacto_operator.Controller.Effects.{Effect}
use pacto_operator.Controller.Status.{reset_derived_status, set_condition}
use pacto_operator.Controller.Readiness.{reconcile_readiness, readiness_was_unmet}
use pacto_operator.Controller.Revisions.{LoadResult, ensure_revision}
use pacto_operator.Controller.Revisions.Sync.{
  Ending, completed, stopped, panicked, sync_all_revisions,
}
use pacto_operator.Controller.Populate.{populate_contract_status}
use pacto_operator.Controller.Overrides.{apply_configuration_overrides}
use pacto_operator.Controller.Finish.{
  map_validation_result, format_validation_errors, one_error, requeue_after, error, crashed, Run,
  fail_reconciliation,
}
use pacto_operator.Controller.Environment.{Environment, resolution_policy, mark_overridden, about}
use pacto_operator.Controller.Runtime.{reconcile_runtime}

module _ {S A : Type 0} (env : Environment S A) where
  -- Step 3: the pull secret's credentials, where one is named.
  unfoldable pub resolve_auth : Pacto → Attempt (Option A)
  resolve_auth p =
      let secret = p.spec.contract_ref.pull_secret_ref in
      if secret == ""
      then success none
      else elim (env.resolve_oci_auth p.namespace secret p.spec.contract_ref.oci) [
        | failure e ↦ failure e
        | success auth ↦ success (some auth)
      ]

  -- Steps 5 and 6: the status of a valid contract.
  unfoldable pub record_contract :
      Pacto → Contract → List (String × List String) → LoadResult → Pacto
  record_contract p c keys lr =
      let valid =
        set_condition env.lists p contract_valid condition_true parsed
          (about "Contract %s v%s is valid" c) in
      let populated =
        populate_contract_status env.library
          (record valid { status = record (valid.status) { contract_version = c.service.version } })
          (record lr { contract = c }) in
      record populated {
        status = record (populated.status) {
          configurations = mark_overridden keys populated.status.configurations;
        };
      }

  -- Step 7: the revision of the version, and those of the tags. A panic ends the run.
  unfoldable pub record_revision : Pacto → Attempt String → Pacto
  record_revision p (failure e) = p
  record_revision p (success name) = record p {
    status = record (p.status) { current_revision = name };
  }

  unfoldable pub sync_revisions : S → Pacto → Option A → S × List Effect × Ending
  sync_revisions s p auth =
      let oci = p.spec.contract_ref.oci in
      if oci != "" && not (has_char 64 oci)
      then sync_all_revisions env.revisions env.sha256 env.now (λ ref. env.load auth ref "")
          (env.list_tags auth) s p oci
      else (s, [], completed)

  unfoldable pub after_sync : Pacto → Contract → List Effect → Ending → Run
  after_sync p c before panicked = record { written = none; effects = before; outcome = crashed }
  after_sync p c before completed = reconcile_runtime env p c before
  after_sync p c before (stopped e) = reconcile_runtime env p c before

  -- Steps 6b to 8.
  unfoldable pub reconcile_valid :
      S → Pacto → Option A → LoadResult → Contract → List (String × List String) → Bool → S × Run
  reconcile_valid s p auth lr c keys was_unmet =
      let (ready, readiness_effects) =
        reconcile_readiness env.lists env.evaluate env.now (record_contract p c keys lr) c
          was_unmet in
      let (t, revision_effects, name) =
        ensure_revision env.revisions env.sha256 env.now s ready lr in
      let revised = record_revision ready name in
      let (u, sync_effects, ending) = sync_revisions t revised auth in
      (u, after_sync revised c (readiness_effects ++ (revision_effects ++ sync_effects)) ending)

  -- Step 5: the validation of the effective contract.
  unfoldable pub reconcile_contract :
      S → Pacto → Option A → LoadResult → Contract → List (String × List String) → Bool → S × Run
  reconcile_contract s p auth lr c keys was_unmet =
      let vr = env.validate_contract c lr.raw_yaml lr.bundle_fs in
      let validated : Pacto = record p {
        status = record (p.status) { validation = some (map_validation_result vr) };
      } in
      let valid = reconcile_valid s validated auth lr c keys was_unmet in
      if not (is_empty vr.errors)
      then (
        s,
        fail_reconciliation env.lists env.update_status env.now validated
            (format_validation_errors vr.errors) (some (map_validation_result vr)) (some c) [],
      )
      else valid

  -- Step 4b: the overrides.
  unfoldable pub reconcile_loaded : S → Pacto → Option A → LoadResult → Bool → S × Run
  reconcile_loaded s p auth lr was_unmet =
      elim (apply_configuration_overrides lr.contract p.spec.overrides) [
        | failure e ↦ (
          s,
          fail_reconciliation env.lists env.update_status env.now p
              (sprintf "override error: %s" (msg e done)) (some (one_error "spec.overrides" e))
              (some lr.contract) [],
        )
        | success (c, keys) ↦ reconcile_contract s p auth lr c keys was_unmet
      ]

  -- Step 4: the contract is loaded.
  unfoldable pub reconcile_load : S → Pacto → Option A → Bool → S × Run
  reconcile_load s p auth was_unmet =
      let ref = p.spec.contract_ref in
      let located : Pacto = record p {
        status = record (p.status) {
          resolution_policy = resolution_policy env.has_explicit_tag ref.oci;
        };
      } in
      elim (env.load auth ref.oci ref.inline) [
        | failure e ↦ (
          s,
          fail_reconciliation env.lists env.update_status env.now located e (some (one_error "" e))
              none [],
        )
        | success lr ↦ reconcile_loaded s located auth lr was_unmet
      ]

  -- Steps 2 and 3, of a Pacto that was fetched.
  unfoldable pub reconcile_pacto : S → Pacto → S × Run
  reconcile_pacto s p =
      let was_unmet = readiness_was_unmet env.lists p in
      let blank_pacto : Pacto = record p { status = reset_derived_status p.status } in
      elim (resolve_auth blank_pacto) [
        | failure e ↦ (
          s,
          fail_reconciliation env.lists env.update_status env.now blank_pacto
              (sprintf "failed to read pull secret %q: %v"
                (str p.spec.contract_ref.pull_secret_ref (msg e done)))
              (some (one_error "spec.contractRef.pullSecretRef" e)) none [],
        )
        | success auth ↦ reconcile_load s blank_pacto auth was_unmet
      ]

  -- `Reconcile`, from what the read of the Pacto returns.
  unfoldable pub reconcile : S → Fetched Pacto → S × Run
  reconcile s absent = (s, record { written = none; effects = []; outcome = requeue_after 0 })
  reconcile s (failed e) = (s, record { written = none; effects = []; outcome = error e })
  reconcile s (fetched p) = reconcile_pacto s p
