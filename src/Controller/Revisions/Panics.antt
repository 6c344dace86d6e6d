-- ===== src/Controller/Revisions/Panics.antt =====
-- When the synchronization of a tag panics, and what is left of a run of several tags.
use pacto_operator.Prelude.{String, some, List, ◌∷◌, ◌≡◌, ◌≢◌}
use pacto_operator.Prelude.{ℕ, ◌<◌, string_eq, ◌⊎◌, ◌↔◌, arith}
use pacto_operator.Prelude.TextLaws.{chars}
use pacto_operator.Message.{Attempt, success}
use pacto_operator.Api.Revision.{PactoRevision}
use pacto_operator.Api.Pacto.{Pacto}
use pacto_operator.Controller.Revisions.{LoadResult, RevisionClient}
use pacto_operator.Controller.Revisions.Sync.{
  panicked, tagged_ref, sync_overwritten, sync_known, sync_tag,
}

module _ {S : Type 0} (client : RevisionClient S) (sha256 : String → String) (now : ℕ)
    (load : String → Attempt LoadResult) where
  overwritten_panics :
      (s : S) (p : Pacto) (tag stored : String) (lr : LoadResult)
      → ((sync_overwritten client sha256 now load s p tag stored lr).2 ≡ panicked)
        ↔ ((chars stored < 12) ⊎ (chars lr.resolved_digest < 12))
  unfolding sync_overwritten
  overwritten_panics s p tag stored lr = ground arith

  -- For a loaded tag whose revision has a digest: the step of the tag panics exactly when the
  -- digests differ and one of them is shorter than twelve characters.
  known_panics :
      (s : S) (p : Pacto) (base_ref tag stored : String) (lr : LoadResult)
      → load (tagged_ref base_ref tag) ≡ success lr
      → ((sync_known client sha256 now load s p base_ref tag stored).2 ≡ panicked) ↔ (
          (stored ≢ "")
          × (lr.resolved_digest ≢ stored)
          × ((chars stored < 12) ⊎ (chars lr.resolved_digest < 12)))
  unfolding sync_known
  known_panics s p base_ref tag stored lr h = ground (arith, overwritten_panics s p tag stored lr)

  -- For every cluster and registry, where a tag has a revision with the digest `stored` and loads with
  -- the digest `d`: the step of the tag panics exactly when `stored` is not empty, `d` differs from
  -- it, and one of them is shorter than twelve characters; an empty `d` is one of them.
  pub sync_tag-panicked :
      (s : S) (p : Pacto) (base_ref tag : String) (existing : PactoRevision)
      (more : List PactoRevision) (lr : LoadResult)
      → client.list s p.name tag ≡ some (existing ∷ more)
      → load (tagged_ref base_ref tag) ≡ success lr
      → let stored = existing.spec.source.digest in
        let d = lr.resolved_digest in
        ((sync_tag client sha256 now load s p base_ref tag).2 ≡ panicked)
        ↔ ((stored ≢ "") × (d ≢ stored) × ((chars stored < 12) ⊎ (chars d < 12)))
  unfolding sync_tag
  sync_tag-panicked s p base_ref tag existing more lr h k =
      rw (h, sync_tag) (known_panics s p base_ref tag existing.spec.source.digest lr k)
