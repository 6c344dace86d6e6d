-- ===== src/Controller/Cached/Tags.antt =====
-- `syncAllRevisions` with two loaders that agree on the tags of a reference.
use pacto_operator.Prelude.{String, Option, none, some, List, [], ◌∷◌, ◌++◌, ◌≡◌, refl}
use pacto_operator.Prelude.{◌∙◌, ap, ℕ, inl, inr, string_eq}
use pacto_operator.Message.{Attempt, Attempt-cases}
use mathlib.Core.Path.{fun_ext}
use pacto_operator.Api.Pacto.{Pacto}
use pacto_operator.Api.Revision.{PactoRevision}
use pacto_operator.Loader.{load}
use pacto_operator.Controller.Effects.{Effect}
use pacto_operator.Controller.Revisions.{LoadResult, RevisionClient}
use pacto_operator.Controller.Revisions.Sync.{
  Ending, completed, stopped, panicked, tagged_ref, sync_overwritten, sync_known, sync_new,
  sync_tag, sync_tags, sync_all_revisions,
}

-- Two loaders that agree on the tags of a reference sync it alike.
module _ {S : Type 0} (client : RevisionClient S) (sha256 : String → String) (now : ℕ)
    (f g : String → Attempt LoadResult) (base_ref : String)
    (agree : (tag : String) → f (tagged_ref base_ref tag) ≡ g (tagged_ref base_ref tag)) where
  sync_new-agree :
      (s : S) (p : Pacto) (tag : String)
      → sync_new client sha256 now f s p base_ref tag
        ≡ sync_new client sha256 now g s p base_ref tag
  unfolding sync_new
  sync_new-agree s p tag = rw (sync_new, agree tag) refl

  sync_known-agree :
      (s : S) (p : Pacto) (tag stored : String)
      → sync_known client sha256 now f s p base_ref tag stored
        ≡ sync_known client sha256 now g s p base_ref tag stored
  unfolding sync_known sync_overwritten
  sync_known-agree s p tag stored = rw (sync_known, agree tag) refl

  -- The step of a tag, from what the read of its revisions returns.
  abbrev tag_step :
      (String → Attempt LoadResult)
      → S
      → Pacto
      → String
      → Option (List PactoRevision)
      → S × List Effect × Ending
  tag_step load s p tag found = elim found [
    | none ↦ (s, [], completed)
    | some [] ↦ sync_new client sha256 now load s p base_ref tag
    | some (existing ∷ _) ↦
        sync_known client sha256 now load s p base_ref tag existing.spec.source.digest
  ]

  -- The step of a tag, and then what is done for the rest of the tags.
  abbrev followed :
      (S × List Effect × Ending) → (S → S × List Effect × Ending) → S × List Effect × Ending
  followed one rest =
      let last = rest one.0 in
      elim one.2 [
        | completed ↦ (last.0, one.1 ++ last.1, last.2)
        | stopped e ↦ (one.0, one.1, stopped e)
        | panicked ↦ (one.0, one.1, panicked)
      ]

  sync_tag-agree :
      (s : S) (p : Pacto) (tag : String)
      → sync_tag client sha256 now f s p base_ref tag
        ≡ sync_tag client sha256 now g s p base_ref tag
  unfolding sync_tag
  sync_tag-agree s p tag = listed (client.list s p.name tag)
    where
      listed :
          (found : Option (List PactoRevision))
          → tag_step f s p tag found ≡ tag_step g s p tag found
      listed none = refl
      listed (some []) = sync_new-agree s p tag
      listed (some (existing ∷ rest)) = sync_known-agree s p tag existing.spec.source.digest

  sync_tags-agree :
      (s : S) (p : Pacto) (tags : List String)
      → sync_tags client sha256 now f s p base_ref tags
        ≡ sync_tags client sha256 now g s p base_ref tags
  unfolding sync_tags
  sync_tags-agree s p [] = refl
  sync_tags-agree s p (tag ∷ tags) =
      ap
        (λ (one : S × List Effect × Ending).
          followed one (λ t. sync_tags client sha256 now f t p base_ref tags))
        (sync_tag-agree s p tag)
      ∙ ap (followed (sync_tag client sha256 now g s p base_ref tag))
          (fun_ext (λ t. sync_tags-agree t p tags))

  pub sync_all_revisions-agree :
      (list_f list_g : String → Attempt (List String))
      → list_f base_ref ≡ list_g base_ref
      → (s : S) (p : Pacto)
      → sync_all_revisions client sha256 now f list_f s p base_ref
        ≡ sync_all_revisions client sha256 now g list_g s p base_ref
  unfolding sync_all_revisions
  sync_all_revisions-agree list_f list_g same s p = elim (Attempt-cases (list_g base_ref)) [
    | inl (e, h) ↦ rw (sync_all_revisions, same, h) refl
    | inr (tags, h) ↦ rw (sync_all_revisions, same, h) (sync_tags-agree s p tags)
  ]
