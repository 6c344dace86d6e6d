-- ===== src/Controller/Reference.antt =====
-- A Pacto without a target is reconciled without a look at the cluster.
use pacto_operator.Prelude.{String, Bool, true, false, not, Option, some, List, ◌≡◌, refl, ap, ◌∙◌}
use pacto_operator.Prelude.{ℕ, if◌then◌else◌, is_empty, Option-cases, inl, inr}
use pacto_operator.Message.{Message, Attempt, Attempt-cases, success, failure}
use pacto_operator.Contract.{Contract, Readiness}
use pacto_operator.Api.Spec.{is_reference}
use pacto_operator.Api.Pacto.{Pacto}
use pacto_operator.Observer.{Client, fetched}
use pacto_operator.Prober.{Answer}
use pacto_operator.Controller.Conditions.{ConditionLists}
use pacto_operator.Controller.Effects.{Effect}
use pacto_operator.Controller.Status.{set_condition, reset_derived_status}
use pacto_operator.Controller.Populate.{populate_contract_status}
use pacto_operator.Controller.Readiness.{Evaluation, record_evaluation, reconcile_readiness}
use pacto_operator.Controller.Overrides.{apply_configuration_overrides}
use pacto_operator.Controller.Revisions.{LoadResult, ensure_revision}
use pacto_operator.Controller.Revisions.Sync.{Ending, completed, stopped, panicked}
use pacto_operator.Controller.Finish.{Run, map_validation_result}
use pacto_operator.Controller.Environment.{Environment}
use pacto_operator.Controller.Runtime.{reconcile_reference, reconcile_runtime}
use pacto_operator.Controller.Reconcile.{
  resolve_auth, record_contract, record_revision, sync_revisions, after_sync, reconcile_valid,
  reconcile_contract, reconcile_loaded, reconcile_load, reconcile_pacto, reconcile,
}

pub spec-reconcile_readiness :
    (l : ConditionLists) (evaluate : Option Readiness → ℕ → Option Evaluation) (now : ℕ) (p : Pacto)
    (c : Contract) (was_unmet : Bool)
    → (reconcile_readiness l evaluate now p c was_unmet).0.spec ≡ p.spec
unfolding record_evaluation set_condition reconcile_readiness
spec-reconcile_readiness l evaluate now p c was_unmet =
    elim (Option-cases (evaluate c.readiness now)) [
      | inl e ↦ rw (reconcile_readiness, e) refl
      | inr (eval, e) ↦ rw (reconcile_readiness, e) refl
    ]

-- The same environment with another cluster and other endpoints.
abbrev pub elsewhere :
    {S A : Type 0} → Environment S A → (String → Client) → (Message → Answer) → Environment S A
elsewhere env cluster get = record env { cluster = cluster; http_get = get }

pub if_else :
    {A : Type 0} (b : Bool) (x : A) {y z : A} → y ≡ z → (if b then x else y) ≡ (if b then x else z)
if_else true x h = refl
if_else false x h = h

module _ {S A : Type 0} (env : Environment S A) (cluster : String → Client)
    (get : Message → Answer) where
  pub spec-record_revision :
      (p : Pacto) (name : Attempt String) → (record_revision env p name).spec ≡ p.spec
  unfolding record_revision
  spec-record_revision p (success name) = refl
  spec-record_revision p (failure e) = refl

  runtime_elsewhere :
      (p : Pacto) (c : Contract) (before : List Effect)
      → is_reference p.spec ≡ true
      → reconcile_runtime (elsewhere env cluster get) p c before ≡ reconcile_runtime env p c before
  unfolding reconcile_runtime reconcile_reference
  runtime_elsewhere p c before h = rw (reconcile_runtime, h) refl

  after_sync-elsewhere :
      (p : Pacto) (c : Contract) (before : List Effect) (ending : Ending)
      → is_reference p.spec ≡ true
      → after_sync (elsewhere env cluster get) p c before ending ≡ after_sync env p c before ending
  unfolding after_sync
  after_sync-elsewhere p c before panicked h = refl
  after_sync-elsewhere p c before completed h = runtime_elsewhere p c before h
  after_sync-elsewhere p c before (stopped e) h = runtime_elsewhere p c before h

  valid_elsewhere :
      (s : S) (p : Pacto) (auth : Option A) (lr : LoadResult) (c : Contract)
      (keys : List (String × List String)) (was_unmet : Bool)
      → is_reference p.spec ≡ true
      → reconcile_valid (elsewhere env cluster get) s p auth lr c keys was_unmet
        ≡ reconcile_valid env s p auth lr c keys was_unmet
  unfolding reconcile_valid record_contract populate_contract_status set_condition record_revision
      sync_revisions
  valid_elsewhere s p auth lr c keys was_unmet h =
      let ready =
        (reconcile_readiness env.lists env.evaluate env.now (record_contract env p c keys lr) c
          was_unmet).0 in
      let ensured = ensure_revision env.revisions env.sha256 env.now s ready lr in
      let name = ensured.2 in
      let synced = sync_revisions env ensured.0 (record_revision env ready name) auth in
      let spec_kept =
        spec-record_revision ready name
        ∙ spec-reconcile_readiness env.lists env.evaluate env.now (record_contract env p c keys lr)
            c was_unmet in
      ap (λ (r : Run). (synced.0, r))
        (after_sync-elsewhere (record_revision env ready name) c _ _
          (ap is_reference spec_kept ∙ h))

  contract_elsewhere :
      (s : S) (p : Pacto) (auth : Option A) (lr : LoadResult) (c : Contract)
      (keys : List (String × List String)) (was_unmet : Bool)
      → is_reference p.spec ≡ true
      → reconcile_contract (elsewhere env cluster get) s p auth lr c keys was_unmet
        ≡ reconcile_contract env s p auth lr c keys was_unmet
  unfolding reconcile_contract
  contract_elsewhere s p auth lr c keys was_unmet h =
      let vr = env.validate_contract c lr.raw_yaml lr.bundle_fs in
      let validated : Pacto = record p {
        status = record (p.status) { validation = some (map_validation_result vr) };
      } in
      if_else (not (is_empty vr.errors)) _ (valid_elsewhere s validated auth lr c keys was_unmet h)

  loaded_elsewhere :
      (s : S) (p : Pacto) (auth : Option A) (lr : LoadResult) (was_unmet : Bool)
      → is_reference p.spec ≡ true
      → reconcile_loaded (elsewhere env cluster get) s p auth lr was_unmet
        ≡ reconcile_loaded env s p auth lr was_unmet
  unfolding reconcile_loaded
  loaded_elsewhere s p auth lr was_unmet h =
      elim (Attempt-cases (apply_configuration_overrides lr.contract p.spec.overrides)) [
        | inl (e, k) ↦ rw (reconcile_loaded, k) refl
        | inr ((c, keys), k) ↦
            rw (reconcile_loaded, k) (contract_elsewhere s p auth lr c keys was_unmet h)
      ]

  load_elsewhere :
      (s : S) (p : Pacto) (auth : Option A) (was_unmet : Bool)
      → is_reference p.spec ≡ true
      → reconcile_load (elsewhere env cluster get) s p auth was_unmet
        ≡ reconcile_load env s p auth was_unmet
  unfolding reconcile_load
  load_elsewhere s p auth was_unmet h =
      elim (Attempt-cases (env.load auth p.spec.contract_ref.oci p.spec.contract_ref.inline)) [
        | inl (e, k) ↦ rw (reconcile_load, k) refl
        | inr (lr, k) ↦ rw (reconcile_load, k) (loaded_elsewhere s _ auth lr was_unmet h)
      ]

  -- For every environment, state and Pacto without a target, whatever else the cluster and the
  -- endpoints are: the run is the same, so a reference is reconciled without a look at either.
  pub reconcile_without_target :
      (s : S) (p : Pacto)
      → is_reference p.spec ≡ true
      → reconcile (elsewhere env cluster get) s (fetched p) ≡ reconcile env s (fetched p)
  unfolding reconcile reconcile_pacto resolve_auth
  reconcile_without_target s p h =
      elim (Attempt-cases
        (resolve_auth env (record p { status = reset_derived_status p.status }))) [
          | inl (e, k) ↦ rw (reconcile_pacto, k) refl
          | inr (auth, k) ↦ rw (reconcile_pacto, k) (load_elsewhere s _ auth _ h)
        ]
