-- ===== src/Controller/Cached/Transparent.antt =====
-- The caches of the loader do not change what a run of `Reconcile` does.
use pacto_operator.Prelude.{String, Option, ◌≡◌, ◌≢◌}
use pacto_operator.Prelude.{◌∙◌, sym, subst, string_eq}
use pacto_operator.Api.Pacto.{Pacto}
use pacto_operator.Observer.{fetched}
use pacto_operator.Loader.{Registry, load_uncached, normalize_oci_ref}
use pacto_operator.Loader.Transparent.{load-AllAnswers}
use pacto_operator.Loader.Tags.{list_tags_uncached, list_tags_cached-AllTagAnswers}
use pacto_operator.Controller.Revisions.Sync.{tagged_ref}
use pacto_operator.Controller.Environment.{Environment}
use pacto_operator.Controller.Reconcile.{reconcile}
use pacto_operator.Controller.Cached.{Calls, loading, uncached, IsCached}
use pacto_operator.Controller.Cached.Agree.{reconcile-Agree}

module _ {S A : Type 0} (env : Environment S A) (reg : Registry A) where
  answer_of_ref :
      (calls : Calls A)
      → IsCached reg calls
      → (auth : Option A) (oci : String) → normalize_oci_ref reg oci ≢ ""
      → calls.load_contract auth oci "" ≡ load_uncached reg auth oci ""
  answer_of_ref calls cached auth oci filled =
      let (t, (l, (answers, e))) = cached.loaded auth oci "" in
      e ∙ (load-AllAnswers reg t auth oci "" l answers filled).1

  tags_of_ref :
      (calls : Calls A)
      → IsCached reg calls
      → (auth : Option A) (oci : String)
      → calls.list_tags auth oci ≡ list_tags_uncached reg auth oci
  tags_of_ref calls cached auth oci =
      let (t, (l, (answers, e))) = cached.listed auth oci in
      e ∙ (list_tags_cached-AllTagAnswers reg t auth oci l answers).1

  -- For a registry that does not change and every environment, state and Pacto that refers to the
  -- registry: where neither the reference nor one of its tags is empty in its normal form, a run whose
  -- loader answers from its caches of contracts and of tag lists, at any times and whatever answers of
  -- the registry the caches hold, is the run whose loader asks the registry each time.
  pub reconcile-cached :
      (calls : Calls A) (s : S) (p : Pacto)
      → IsCached reg calls
      → p.spec.contract_ref.inline ≡ ""
      → normalize_oci_ref reg p.spec.contract_ref.oci ≢ ""
      → ((tag : String) → normalize_oci_ref reg (tagged_ref p.spec.contract_ref.oci tag) ≢ "")
      → reconcile (loading env calls) s (fetched p)
        ≡ reconcile (loading env (uncached reg)) s (fetched p)
  reconcile-cached calls s p cached by_ref filled tags_filled =
      let oci = p.spec.contract_ref.oci in
      reconcile-Agree env calls (uncached reg) s p (
        λ auth.
            subst
              (λ (inline : String).
                calls.load_contract auth oci inline ≡ load_uncached reg auth oci inline)
              (sym by_ref) (answer_of_ref calls cached auth oci filled),
        λ auth tag. answer_of_ref calls cached auth (tagged_ref oci tag) (tags_filled tag),
        λ auth. tags_of_ref calls cached auth oci,
      )
