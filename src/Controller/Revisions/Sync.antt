-- ===== src/Controller/Revisions/Sync.antt =====
-- `syncAllRevisions` of internal/controller/pacto_controller.go, with the loader's view of the registry
-- as a parameter.
use pacto_operator.Prelude.{String, ◌<>◌, Option, none, some, List, [], ◌∷◌, ◌++◌}
use pacto_operator.Prelude.{ℕ, ◌==◌, string_eq, if◌then◌else◌, take, leb, trim_prefix}
use pacto_operator.Prelude.TextLaws.{chars}
use pacto_operator.Message.{Message, Attempt, success, failure, sprintf, str, msg, done}
use pacto_operator.Api.Conditions.{event_tag_overwritten}
use pacto_operator.Api.Pacto.{Pacto}
use pacto_operator.Validator.Image.{drop_tag}
use pacto_operator.Controller.Effects.{Effect, event, EventType}
use pacto_operator.Controller.Revisions.{LoadResult, RevisionClient, ensure_revision}

-- How a run ends; a slice out of range panics.
pub data Ending : Type 0 where
  completed : Ending
  stopped : Message → Ending
  panicked : Ending

-- `taggedRef`
unfoldable pub tagged_ref : String → String → String
tagged_ref base_ref tag = drop_tag (trim_prefix "oci://" base_ref) <> ":" <> tag

-- `s[:12]`, with `none` where it panics.
abbrev pub slice12 : String → Option String
slice12 s = if leb 12 (chars s) then some (take 12 s) else none

module _ {S : Type 0} (client : RevisionClient S) (sha256 : String → String) (now : ℕ)
    (load : String → Attempt LoadResult) where
  -- What is done for a tag whose digest has changed.
  unfoldable pub sync_overwritten :
      S → Pacto → String → String → LoadResult → S × List Effect × Ending
  sync_overwritten s p tag stored lr = elim (slice12 stored) [
    | none ↦ (s, [], panicked)
    | some old ↦ elim (slice12 lr.resolved_digest) [
      | none ↦ (s, [], panicked)
      | some new ↦
          let (t, effects, result) = ensure_revision client sha256 now s p lr in
          (
            t,
            event EventType.warning event_tag_overwritten (
                  sprintf "Tag %s was force-pushed (digest changed from %s to %s)"
                    (str tag (str old (str new done))))
                ∷ effects,
            completed,
          )
    ]
  ]

  -- A tag that has a revision.
  unfoldable pub sync_known : S → Pacto → String → String → String → S × List Effect × Ending
  sync_known s p base_ref tag stored =
      if stored == "" then (s, [], completed) else elim (load (tagged_ref base_ref tag)) [
        | failure e ↦ (s, [], completed)
        | success lr ↦
            if lr.resolved_digest == stored
            then (s, [], completed)
            else sync_overwritten s p tag stored lr
      ]

  -- A tag that has none.
  unfoldable pub sync_new : S → Pacto → String → String → S × List Effect × Ending
  sync_new s p base_ref tag = elim (load (tagged_ref base_ref tag)) [
    | failure e ↦ (s, [], completed)
    | success lr ↦
        let (t, effects, result) = ensure_revision client sha256 now s p lr in
        (t, effects, completed)
  ]

  -- The body of the loop of `syncAllRevisions`.
  unfoldable pub sync_tag : S → Pacto → String → String → S × List Effect × Ending
  sync_tag s p base_ref tag = elim (client.list s p.name tag) [
    | none ↦ (s, [], completed)
    | some [] ↦ sync_new s p base_ref tag
    | some (existing ∷ _) ↦ sync_known s p base_ref tag existing.spec.source.digest
  ]

  -- The loop, which only a panic leaves early.
  unfoldable pub sync_tags : S → Pacto → String → List String → S × List Effect × Ending
  sync_tags s p base_ref [] = (s, [], completed)
  sync_tags s p base_ref (tag ∷ tags) =
      let (t, effects, ending) = sync_tag s p base_ref tag in
      let (u, more, last) = sync_tags t p base_ref tags in
      elim ending [
        | completed ↦ (u, effects ++ more, last)
        | stopped e ↦ (t, effects, stopped e)
        | panicked ↦ (t, effects, panicked)
      ]

  -- `syncAllRevisions`, where `list_tags` is the loader's.
  unfoldable pub sync_all_revisions :
      (String → Attempt (List String)) → S → Pacto → String → S × List Effect × Ending
  sync_all_revisions list_tags s p base_ref = elim (list_tags base_ref) [
    | failure e ↦ (s, [], stopped (sprintf "failed to list tags: %w" (msg e done)))
    | success tags ↦ sync_tags s p base_ref tags
  ]
