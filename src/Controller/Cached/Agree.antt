-- ===== src/Controller/Cached/Agree.antt =====
-- `Reconcile` with two loaders that agree on what a run loads.
use pacto_operator.Prelude.{String, Bool, not, ◌&&◌, Option, some, List, [], ◌++◌, ◌≡◌, refl}
use pacto_operator.Prelude.{
  ◌∙◌, ap, sym, subst, inl, inr, ◌!=◌, string_eq, has_char, is_empty, if◌then◌else◌,
}
use pacto_operator.Message.{Attempt-cases}
use pacto_operator.Contract.{Contract}
use pacto_operator.Api.Spec.{PactoSpec, ContractRef}
use pacto_operator.Api.Pacto.{Pacto}
use pacto_operator.Observer.{fetched}
use pacto_operator.Controller.Effects.{Effect}
use pacto_operator.Controller.Status.{set_condition, reset_derived_status}
use pacto_operator.Controller.Populate.{populate_contract_status}
use pacto_operator.Controller.Readiness.{reconcile_readiness}
use pacto_operator.Controller.Revisions.{LoadResult, ensure_revision}
use pacto_operator.Controller.Revisions.Sync.{Ending, completed, stopped, panicked, tagged_ref}
use pacto_operator.Controller.Environment.{Environment}
use pacto_operator.Controller.Finish.{Run, map_validation_result}
use pacto_operator.Controller.Runtime.{
  reconcile_observed, reconcile_unobserved, reconcile_reference, reconcile_target,
  reconcile_runtime,
}
use pacto_operator.Controller.Overrides.{apply_configuration_overrides}
use pacto_operator.Controller.Reference.{if_else, spec-reconcile_readiness, spec-record_revision}
use pacto_operator.Controller.Reconcile.{
  resolve_auth, record_contract, record_revision, sync_revisions, after_sync, reconcile_valid,
  reconcile_contract, reconcile_loaded, reconcile_load, reconcile_pacto, reconcile,
}
use pacto_operator.Controller.Cached.{Calls, loading}
use pacto_operator.Controller.Cached.Tags.{sync_all_revisions-agree}

module _ {S A : Type 0} (env : Environment S A) (f g : Calls A) where
  -- The loaders agree on what a run asks of them: the contract of the reference, the tags of its
  -- repository, and the contract of each tag.
  abbrev pub Agree : ContractRef → Type 0
  Agree r =
      ((auth : Option A)
        → f.load_contract auth r.oci r.inline ≡ g.load_contract auth r.oci r.inline)
      × ((auth : Option A) (tag : String)
          → f.load_contract auth (tagged_ref r.oci tag) ""
            ≡ g.load_contract auth (tagged_ref r.oci tag) "")
      × ((auth : Option A) → f.list_tags auth r.oci ≡ g.list_tags auth r.oci)

  sync_revisions-Agree :
      (s : S) (p : Pacto) (auth : Option A)
      → Agree p.spec.contract_ref
      → sync_revisions (loading env f) s p auth ≡ sync_revisions (loading env g) s p auth
  unfolding sync_revisions
  sync_revisions-Agree s p auth agree =
      ap
        (λ (r : S × List Effect × Ending).
          if p.spec.contract_ref.oci != "" && not (has_char 64 p.spec.contract_ref.oci)
          then r
          else (s, [], completed))
        (sync_all_revisions-agree env.revisions env.sha256 env.now
          (λ ref. f.load_contract auth ref "") (λ ref. g.load_contract auth ref "")
          p.spec.contract_ref.oci (agree.1 auth) (f.list_tags auth) (g.list_tags auth)
          (agree.2 auth) s p)

  runtime_loading :
      (p : Pacto) (c : Contract) (before : List Effect)
      → reconcile_runtime (loading env f) p c before ≡ reconcile_runtime (loading env g) p c before
  unfolding reconcile_runtime reconcile_reference reconcile_target reconcile_observed
      reconcile_unobserved
  runtime_loading p c before = refl

  after_sync-loading :
      (p : Pacto) (c : Contract) (before : List Effect) (ending : Ending)
      → after_sync (loading env f) p c before ending ≡ after_sync (loading env g) p c before ending
  unfolding after_sync
  after_sync-loading p c before panicked = refl
  after_sync-loading p c before completed = runtime_loading p c before
  after_sync-loading p c before (stopped e) = runtime_loading p c before

  valid-Agree :
      (s : S) (p : Pacto) (auth : Option A) (lr : LoadResult) (c : Contract)
      (keys : List (String × List String)) (was_unmet : Bool)
      → Agree p.spec.contract_ref
      → reconcile_valid (loading env f) s p auth lr c keys was_unmet
        ≡ reconcile_valid (loading env g) s p auth lr c keys was_unmet
  unfolding reconcile_valid record_contract populate_contract_status set_condition record_revision
  valid-Agree s p auth lr c keys was_unmet agree =
      let ready =
        reconcile_readiness env.lists env.evaluate env.now (record_contract env p c keys lr) c
          was_unmet in
      let ensured = ensure_revision env.revisions env.sha256 env.now s ready.0 lr in
      let revised = record_revision env ready.0 ensured.2 in
      let spec_kept =
        spec-record_revision env env.cluster env.http_get ready.0 ensured.2
        ∙ spec-reconcile_readiness env.lists env.evaluate env.now (record_contract env p c keys lr)
            c was_unmet in
      let synced = sync_revisions (loading env g) ensured.0 revised auth in
      ap
        (λ (r : S × List Effect × Ending).
          (r.0, after_sync (loading env f) revised c (ready.1 ++ (ensured.1 ++ r.1)) r.2))
        (sync_revisions-Agree ensured.0 revised auth
          (subst (λ (spec : PactoSpec). Agree spec.contract_ref) (sym spec_kept) agree))
      ∙ ap (λ (r : Run). (synced.0, r))
          (after_sync-loading revised c (ready.1 ++ (ensured.1 ++ synced.1)) synced.2)

  contract-Agree :
      (s : S) (p : Pacto) (auth : Option A) (lr : LoadResult) (c : Contract)
      (keys : List (String × List String)) (was_unmet : Bool)
      → Agree p.spec.contract_ref
      → reconcile_contract (loading env f) s p auth lr c keys was_unmet
        ≡ reconcile_contract (loading env g) s p auth lr c keys was_unmet
  unfolding reconcile_contract
  contract-Agree s p auth lr c keys was_unmet agree =
      let vr = env.validate_contract c lr.raw_yaml lr.bundle_fs in
      let validated : Pacto = record p {
        status = record (p.status) { validation = some (map_validation_result vr) };
      } in
      if_else (not (is_empty vr.errors)) _ (valid-Agree s validated auth lr c keys was_unmet agree)

  loaded-Agree :
      (s : S) (p : Pacto) (auth : Option A) (lr : LoadResult) (was_unmet : Bool)
      → Agree p.spec.contract_ref
      → reconcile_loaded (loading env f) s p auth lr was_unmet
        ≡ reconcile_loaded (loading env g) s p auth lr was_unmet
  unfolding reconcile_loaded
  loaded-Agree s p auth lr was_unmet agree =
      elim (Attempt-cases (apply_configuration_overrides lr.contract p.spec.overrides)) [
        | inl (e, k) ↦ rw (reconcile_loaded, k) refl
        | inr ((c, keys), k) ↦
            rw (reconcile_loaded, k) (contract-Agree s p auth lr c keys was_unmet agree)
      ]

  load-Agree :
      (s : S) (p : Pacto) (auth : Option A) (was_unmet : Bool)
      → Agree p.spec.contract_ref
      → reconcile_load (loading env f) s p auth was_unmet
        ≡ reconcile_load (loading env g) s p auth was_unmet
  unfolding reconcile_load
  load-Agree s p auth was_unmet agree =
      elim (Attempt-cases
        (g.load_contract auth p.spec.contract_ref.oci p.spec.contract_ref.inline)) [
          | inl (e, k) ↦ rw (reconcile_load, agree.0 auth, k) refl
          | inr (lr, k) ↦
              rw (reconcile_load, agree.0 auth, k) (loaded-Agree s _ auth lr was_unmet agree)
        ]

  pub reconcile-Agree :
      (s : S) (p : Pacto)
      → Agree p.spec.contract_ref
      → reconcile (loading env f) s (fetched p) ≡ reconcile (loading env g) s (fetched p)
  unfolding reconcile reconcile_pacto resolve_auth
  reconcile-Agree s p agree =
      elim (Attempt-cases
        (resolve_auth env (record p { status = reset_derived_status p.status }))) [
          | inl (e, k) ↦ rw (reconcile_pacto, k) refl
          | inr (auth, k) ↦ rw (reconcile_pacto, k) (load-Agree s _ auth _ agree)
        ]
