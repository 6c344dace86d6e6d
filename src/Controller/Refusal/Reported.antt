-- ===== src/Controller/Refusal/Reported.antt =====
-- What `Reconcile` of internal/controller/pacto_controller.go does with a contract that is not usable.
use pacto_operator.Prelude.{
  String, Bool, true, false, Option, none, some, List, [], ◌++◌, ◌≡◌, refl,
}
use pacto_operator.Prelude.{ap, inl, inr, Bool-cases, is_empty}
use pacto_operator.Message.{Message, Attempt-cases}
use pacto_operator.Contract.{Contract}
use pacto_operator.Api.Conditions.{non_compliant, contract_valid}
use pacto_operator.Api.Status.{ValidationResult}
use pacto_operator.Api.Pacto.{Pacto}
use pacto_operator.Observer.{fetched}
use pacto_operator.Controller.Conditions.{IsLawful}
use pacto_operator.Controller.Status.{set_condition, requeue_interval}
use pacto_operator.Controller.Revisions.{LoadResult, ensure_revision}
use pacto_operator.Controller.Readiness.{is_unmet, reconcile_readiness}
use pacto_operator.Controller.Overrides.{apply_configuration_overrides}
use pacto_operator.Controller.Finish.{
  Run, requeue_after, write_status, stamp, failed_status, fail_reconciliation,
}
use pacto_operator.Controller.Environment.{Environment}
use pacto_operator.Controller.Reconcile.{
  resolve_auth, record_contract, record_revision, reconcile_valid, reconcile_contract,
  reconcile_loaded, reconcile_load, reconcile_pacto, reconcile, sync_revisions,
}
use pacto_operator.Controller.Refusal.{refuses, is_usable_loaded, is_usable_with, is_usable}
use pacto_operator.Controller.Refusal.Quiet.{
  IsQuiet, append-IsQuiet, reconcile_readiness-IsQuiet, ensure_revision-IsQuiet,
}
use pacto_operator.Controller.Refusal.Runtime.{after_sync-IsQuiet, sync_revisions-IsQuiet}

module _ {S A : Type 0} (env : Environment S A) where
  -- NonCompliant, with the contract's condition unmet.
  abbrev pub IsNonCompliant : Option Pacto → Type 0
  IsNonCompliant written = elim written as (λ _. Type 0) [
    | none ↦ ⊥
    | some q ↦
        (q.status.contract_status ≡ non_compliant)
        × (is_unmet (env.lists.find_status_condition q.status.conditions contract_valid) ≡ true)
  ]

  -- The revisions are not touched, the event is reported, and the status says so.
  abbrev pub IsRefused : S → Pacto → S × Run → Type 0
  IsRefused s p r =
      (r.0 ≡ s)
      × (refuses r.1.effects ≡ true)
      × IsNonCompliant r.1.written
      × (r.1.outcome ≡ requeue_after (requeue_interval p.spec.check_interval_seconds))

  -- What a run does with a contract that is usable, or is not.
  abbrev pub Judges : S → Pacto → Bool → S × Run → Type 0
  Judges s p true r = refuses r.1.effects ≡ false
  Judges s p false r = IsRefused s p r

  reconcile_valid-IsQuiet :
      (s : S) (p : Pacto) (auth : Option A) (lr : LoadResult) (c : Contract)
      (keys : List (String × List String)) (was_unmet : Bool)
      → IsQuiet (reconcile_valid env s p auth lr c keys was_unmet).1.effects
  unfolding reconcile_valid
  reconcile_valid-IsQuiet s p auth lr c keys was_unmet =
      let recorded = record_contract env p c keys lr in
      let ready = reconcile_readiness env.lists env.evaluate env.now recorded c was_unmet in
      let ensured = ensure_revision env.revisions env.sha256 env.now s ready.0 lr in
      let revised = record_revision env ready.0 ensured.2 in
      let synced = sync_revisions env ensured.0 revised auth in
      after_sync-IsQuiet env revised c (ready.1 ++ (ensured.1 ++ synced.1)) synced.2 (
        append-IsQuiet ready.1 (ensured.1 ++ synced.1)
          (reconcile_readiness-IsQuiet env.lists env.evaluate env.now recorded c was_unmet)
          (append-IsQuiet ensured.1 synced.1
            (ensure_revision-IsQuiet env.revisions env.sha256 env.now s ready.0 lr)
            (sync_revisions-IsQuiet env ensured.0 revised auth)))

  reconcile_valid-refuses :
      (s : S) (p : Pacto) (auth : Option A) (lr : LoadResult) (c : Contract)
      (keys : List (String × List String)) (was_unmet : Bool)
      → refuses (reconcile_valid env s p auth lr c keys was_unmet).1.effects ≡ false
  unfolding IsQuiet
  reconcile_valid-refuses = reconcile_valid-IsQuiet

  module _ (lawful : IsLawful env.lists) (written : (q : Pacto) → env.update_status q ≡ none) where
    fail_reconciliation-IsRefused :
        (s : S) (p : Pacto) (m : Message) (v : Option ValidationResult) (c : Option Contract)
        → IsRefused s p (s, fail_reconciliation env.lists env.update_status env.now p m v c [])
    unfolding fail_reconciliation failed_status stamp set_condition write_status requeue_interval
    fail_reconciliation-IsRefused s p m v c =
        rw (written (failed_status env.lists env.update_status env.now p m v), write_status)
          (refl, refl, (refl, ap is_unmet (lawful.find-set p.status.conditions _)), refl)

    reconcile_contract-Judges :
        (s : S) (p : Pacto) (auth : Option A) (lr : LoadResult) (c : Contract)
        (keys : List (String × List String)) (was_unmet : Bool)
        → Judges s p
            (is_empty (env.validate_contract c lr.raw_yaml lr.bundle_fs).errors)
            (reconcile_contract env s p auth lr c keys was_unmet)
    unfolding reconcile_contract
    reconcile_contract-Judges s p auth lr c keys was_unmet =
        elim (Bool-cases (is_empty (env.validate_contract c lr.raw_yaml lr.bundle_fs).errors)) [
          | inl e ↦
              rw (reconcile_contract, e) (reconcile_valid-refuses s _ auth lr c keys was_unmet)
          | inr e ↦ rw (reconcile_contract, e) (fail_reconciliation-IsRefused s _ _ _ _)
        ]

    reconcile_loaded-Judges :
        (s : S) (p : Pacto) (auth : Option A) (lr : LoadResult) (was_unmet : Bool)
        → Judges s p (is_usable_loaded env p lr) (reconcile_loaded env s p auth lr was_unmet)
    unfolding reconcile_loaded
    reconcile_loaded-Judges s p auth lr was_unmet =
        elim (Attempt-cases (apply_configuration_overrides lr.contract p.spec.overrides)) [
          | inl (e, h) ↦
              rw (reconcile_loaded, is_usable_loaded, h) (fail_reconciliation-IsRefused s p _ _ _)
          | inr ((c, keys), h) ↦
              rw (reconcile_loaded, is_usable_loaded, h)
                (reconcile_contract-Judges s p auth lr c keys was_unmet)
        ]

    reconcile_load-Judges :
        (s : S) (p : Pacto) (auth : Option A) (was_unmet : Bool)
        → Judges s p (is_usable_with env p auth) (reconcile_load env s p auth was_unmet)
    unfolding reconcile_load
    reconcile_load-Judges s p auth was_unmet =
        elim (Attempt-cases (env.load auth p.spec.contract_ref.oci p.spec.contract_ref.inline)) [
          | inl (e, h) ↦
              rw (reconcile_load, is_usable_with, h) (fail_reconciliation-IsRefused s _ _ _ _)
          | inr (lr, h) ↦
              rw (reconcile_load, is_usable_with, h) (reconcile_loaded-Judges s _ auth lr was_unmet)
        ]

    -- For a lawful condition list and a status that can be written, and every state and Pacto: where
    -- the pull secret cannot be read, the contract cannot be loaded or overridden, or what results is
    -- not valid, the run leaves the revisions as they are, reports ContractInvalid, writes NonCompliant
    -- with the condition ContractValid unmet, and comes back after the Pacto's interval; where none of
    -- these fails, the run does not report ContractInvalid.
    pub reconcile-Judges :
        (s : S) (p : Pacto) → Judges s p (is_usable env p) (reconcile env s (fetched p))
    unfolding reconcile reconcile_pacto resolve_auth
    reconcile-Judges s p = elim (Attempt-cases (resolve_auth env p)) [
      | inl (e, h) ↦ rw (reconcile_pacto, is_usable, h) (fail_reconciliation-IsRefused s _ _ _ _)
      | inr (auth, h) ↦ rw (reconcile_pacto, is_usable, h) (reconcile_load-Judges s _ auth _)
    ]
