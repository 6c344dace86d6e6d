-- ===== src/Controller/Cached.antt =====
-- `Reconcile` of internal/controller/pacto_controller.go behind the two caches of internal/loader.
pub mod Tags
pub mod Agree
pub mod Transparent
mod Tests
use pacto_operator.Prelude.{
  String, Bool, true, false, not, ◌&&◌, Option, none, some, List, [], ◌∷◌, ◌++◌, ◌≡◌, ◌≢◌, refl,
}
use pacto_operator.Prelude.{
  ◌∙◌, ap, sym, subst, arith, ℕ, inl, inr, ◌==◌, ◌!=◌, string_eq, has_char, is_empty, if◌then◌else◌,
}
use pacto_operator.Message.{Message, Attempt, success, failure, Attempt-cases}
use pacto_operator.Contract.{Contract}
use mathlib.Core.Path.{fun_ext}
use pacto_operator.Api.Spec.{PactoSpec, ContractRef}
use pacto_operator.Api.Pacto.{Pacto}
use pacto_operator.Api.Revision.{PactoRevision}
use pacto_operator.Observer.{fetched}
use pacto_operator.Loader.{Loader, Registry, Times, load, load_uncached, list_tags_cached}
use pacto_operator.Loader.Transparent.{AllAnswers}
use pacto_operator.Loader.Tags.{AllTagAnswers, list_tags_uncached}
use pacto_operator.Controller.Effects.{Effect}
use pacto_operator.Controller.Status.{set_condition, reset_derived_status}
use pacto_operator.Controller.Populate.{populate_contract_status}
use pacto_operator.Controller.Readiness.{reconcile_readiness}
use pacto_operator.Controller.Revisions.{LoadResult, RevisionClient, ensure_revision}
use pacto_operator.Controller.Revisions.Sync.{
  Ending, completed, stopped, panicked, tagged_ref, sync_overwritten, sync_known, sync_new,
  sync_tag, sync_tags, sync_all_revisions,
}
use pacto_operator.Controller.Environment.{Environment}
use pacto_operator.Controller.Finish.{Run, map_validation_result}
use pacto_operator.Controller.Runtime.{
  reconcile_observed, reconcile_unobserved, reconcile_reference, reconcile_target,
  reconcile_runtime,
}
use pacto_operator.Controller.Overrides.{apply_configuration_overrides}
use pacto_operator.Controller.Reference.{if_else, spec-reconcile_readiness, spec-record_revision}
use pacto_operator.Controller.Reconcile.{
  resolve_auth, record_contract, record_revision, sync_revisions, after_sync, reconcile_valid,
  reconcile_contract, reconcile_loaded, reconcile_load, reconcile_pacto, reconcile,
}

-- What a run calls of the loader.
pub record Calls (A : Type 0) : Type 0 where
  pub load_contract : Option A → String → String → Attempt LoadResult
  pub list_tags : Option A → String → Attempt (List String)

-- The same environment with another loader.
abbrev pub loading : {S A : Type 0} → Environment S A → Calls A → Environment S A
loading env calls = record env { load = calls.load_contract; list_tags = calls.list_tags }

module _ {A : Type 0} (reg : Registry A) where
  -- The registry is asked each time.
  abbrev pub uncached : Calls A
  uncached = record { load_contract = load_uncached reg; list_tags = list_tags_uncached reg }

  -- Each answer is that of a loader at some time, whose two caches hold answers of the registry.
  pub record IsCached (calls : Calls A) : Type 0 where
    pub loaded :
        (auth : Option A) (oci inline : String)
        → (t : Times) × ((l : Loader) × (AllAnswers reg l.cache
              × (calls.load_contract auth oci inline ≡ (load reg t auth oci inline l).1)))
    pub listed :
        (auth : Option A) (oci : String)
        → (t : Times) × ((l : Loader) × (AllTagAnswers reg l.tag_cache
              × (calls.list_tags auth oci ≡ (list_tags_cached reg t auth oci l).1)))
