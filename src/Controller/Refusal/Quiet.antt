-- ===== src/Controller/Refusal/Quiet.antt =====
-- No stage of a reconciliation behind the validation of the contract reports that it is refused.
use pacto_operator.Prelude.{
  String, Bool, true, false, Option, none, some, List, [], ◌∷◌, ◌++◌, ◌≡◌, refl,
}
use pacto_operator.Prelude.{arith, ℕ, if_intro, inl, inr, Option-cases, ◌==◌, string_eq}
use pacto_operator.Message.{Message, Attempt, Attempt-cases}
use pacto_operator.Contract.{Contract, Readiness}
use pacto_operator.Api.Conditions.{
  event_tag_overwritten, ConditionStatus, condition_true, condition_false, condition_unknown,
}
use pacto_operator.Api.Pacto.{Pacto}
use pacto_operator.Api.Revision.{PactoRevision}
use pacto_operator.Metrics.{Sample}
use pacto_operator.Observer.{Fetched, fetched, absent, failed}
use pacto_operator.Controller.Conditions.{ConditionLists}
use pacto_operator.Controller.Effects.{Effect, EventType, samples}
use pacto_operator.Controller.Readiness.{
  Evaluation, gate_events, record_evaluation, reconcile_readiness,
}
use pacto_operator.Controller.Revisions.{
  LoadResult, RevisionClient, Created, created, already_exists, not_created, record_creation,
  create_revision, create_owned, ensure_read, ensure_revision,
}
use pacto_operator.Controller.Revisions.Sync.{
  Ending, completed, stopped, panicked, slice12, tagged_ref, sync_overwritten, sync_known, sync_new,
  sync_tag, sync_tags, sync_all_revisions,
}
use pacto_operator.Controller.Refusal.{refuses}

unfoldable pub IsQuiet : List Effect → Type 0
IsQuiet es = refuses es ≡ false

pub nothing-IsQuiet : IsQuiet []
unfolding IsQuiet
nothing-IsQuiet = refl

pub append-IsQuiet : (es fs : List Effect) → IsQuiet es → IsQuiet fs → IsQuiet (es ++ fs)
unfolding IsQuiet
append-IsQuiet [] fs he hf = hf
append-IsQuiet (Effect.event t reason m ∷ es) fs he hf = ground (arith, append-IsQuiet es fs)
append-IsQuiet (Effect.sample s ∷ es) fs he hf = append-IsQuiet es fs he hf

overwritten-IsQuiet :
    (m : Message) (es : List Effect)
    → IsQuiet es
    → IsQuiet (Effect.event EventType.warning event_tag_overwritten m ∷ es)
unfolding IsQuiet
overwritten-IsQuiet m es h = h

pub samples-IsQuiet : (ss : List Sample) → IsQuiet (samples ss)
unfolding IsQuiet
samples-IsQuiet [] = refl
samples-IsQuiet (s ∷ ss) = samples-IsQuiet ss

gate_events-IsQuiet :
    (status : ConditionStatus) (was_unmet : Bool) (m : Message)
    → IsQuiet (gate_events status was_unmet m)
unfolding gate_events IsQuiet
gate_events-IsQuiet condition_true true m = refl
gate_events-IsQuiet condition_true false m = refl
gate_events-IsQuiet condition_false true m = refl
gate_events-IsQuiet condition_false false m = refl
gate_events-IsQuiet condition_unknown was_unmet m = refl

pub reconcile_readiness-IsQuiet :
    (l : ConditionLists) (evaluate : Option Readiness → ℕ → Option Evaluation) (now : ℕ) (p : Pacto)
    (c : Contract) (was_unmet : Bool)
    → IsQuiet (reconcile_readiness l evaluate now p c was_unmet).1
unfolding reconcile_readiness record_evaluation
reconcile_readiness-IsQuiet l evaluate now p c was_unmet =
    elim (Option-cases (evaluate c.readiness now)) [
      | inl e ↦ rw (reconcile_readiness, e) nothing-IsQuiet
      | inr (eval, e) ↦
          rw (reconcile_readiness, e)
            (append-IsQuiet _ _ (samples-IsQuiet _) (gate_events-IsQuiet _ was_unmet _))
    ]

module _ {S : Type 0} (client : RevisionClient S) (sha256 : String → String) (now : ℕ) where
  record_creation-IsQuiet :
      (s : S) (revision : PactoRevision) (lr : LoadResult) (result : Created)
      → IsQuiet (record_creation client sha256 now s revision lr result).1
  unfolding record_creation IsQuiet
  record_creation-IsQuiet s revision lr created = refl
  record_creation-IsQuiet s revision lr already_exists = refl
  record_creation-IsQuiet s revision lr (not_created e) = refl

  create_owned-IsQuiet :
      (s : S) (p : Pacto) (lr : LoadResult) (e : Option Message)
      → IsQuiet (create_owned client sha256 now s p lr e).1
  unfolding create_owned create_revision
  create_owned-IsQuiet s p lr none = record_creation-IsQuiet _ _ lr _
  create_owned-IsQuiet s p lr (some e) = nothing-IsQuiet

  ensure_read-IsQuiet :
      (s : S) (p : Pacto) (lr : LoadResult) (read : Fetched PactoRevision)
      → IsQuiet (ensure_read client sha256 now s p lr read).1
  unfolding ensure_read
  ensure_read-IsQuiet s p lr (fetched existing) = nothing-IsQuiet
  ensure_read-IsQuiet s p lr (failed e) = nothing-IsQuiet
  ensure_read-IsQuiet s p lr absent = create_owned-IsQuiet s p lr _

  pub ensure_revision-IsQuiet :
      (s : S) (p : Pacto) (lr : LoadResult) → IsQuiet (ensure_revision client sha256 now s p lr).1
  unfolding ensure_revision
  ensure_revision-IsQuiet s p lr = ensure_read-IsQuiet s p lr _

  module _ (load : String → Attempt LoadResult) where
    sync_overwritten-IsQuiet :
        (s : S) (p : Pacto) (tag stored : String) (lr : LoadResult)
        → IsQuiet (sync_overwritten client sha256 now load s p tag stored lr).1
    unfolding sync_overwritten
    sync_overwritten-IsQuiet s p tag stored lr = elim (Option-cases (slice12 stored)) [
      | inl e ↦ rw (sync_overwritten, e) nothing-IsQuiet
      | inr (old, e) ↦ elim (Option-cases (slice12 lr.resolved_digest)) [
        | inl d ↦ rw (sync_overwritten, e, d) nothing-IsQuiet
        | inr (new, d) ↦
            rw (sync_overwritten, e, d)
              (overwritten-IsQuiet _ (ensure_revision client sha256 now s p lr).1
                (ensure_revision-IsQuiet s p lr))
      ]
    ]

    sync_known-IsQuiet :
        (s : S) (p : Pacto) (base_ref tag stored : String)
        → IsQuiet (sync_known client sha256 now load s p base_ref tag stored).1
    unfolding sync_known
    sync_known-IsQuiet s p base_ref tag stored =
        if_intro (λ (r : S × List Effect × Ending). IsQuiet r.1) (stored == "") nothing-IsQuiet
          (elim (Attempt-cases (load (tagged_ref base_ref tag))) [
            | inl (e, h) ↦ rw h nothing-IsQuiet
            | inr (lr, h) ↦ rw h (
                if_intro (λ (r : S × List Effect × Ending). IsQuiet r.1)
                  (lr.resolved_digest == stored) nothing-IsQuiet
                  (sync_overwritten-IsQuiet s p tag stored lr))
          ])

    sync_new-IsQuiet :
        (s : S) (p : Pacto) (base_ref tag : String)
        → IsQuiet (sync_new client sha256 now load s p base_ref tag).1
    unfolding sync_new
    sync_new-IsQuiet s p base_ref tag = elim (Attempt-cases (load (tagged_ref base_ref tag))) [
      | inl (e, h) ↦ rw (sync_new, h) nothing-IsQuiet
      | inr (lr, h) ↦ rw (sync_new, h) (ensure_revision-IsQuiet s p lr)
    ]

    sync_tag-IsQuiet :
        (s : S) (p : Pacto) (base_ref tag : String)
        → IsQuiet (sync_tag client sha256 now load s p base_ref tag).1
    unfolding sync_tag
    sync_tag-IsQuiet s p base_ref tag = listed (client.list s p.name tag)
      where
        listed :
            (found : Option (List PactoRevision))
            → IsQuiet
                (elim found as (λ _. S × List Effect × Ending) [
                  | none ↦ (s, [], completed)
                  | some [] ↦ sync_new client sha256 now load s p base_ref tag
                  | some (existing ∷ _) ↦
                      sync_known client sha256 now load s p base_ref tag existing.spec.source.digest
                ]).1
        listed none = nothing-IsQuiet
        listed (some []) = sync_new-IsQuiet s p base_ref tag
        listed (some (existing ∷ rest)) =
            sync_known-IsQuiet s p base_ref tag existing.spec.source.digest

    sync_tags-IsQuiet :
        (s : S) (p : Pacto) (base_ref : String) (tags : List String)
        → IsQuiet (sync_tags client sha256 now load s p base_ref tags).1
    unfolding sync_tags
    sync_tags-IsQuiet s p base_ref [] = nothing-IsQuiet
    sync_tags-IsQuiet s p base_ref (tag ∷ tags) =
        ended (sync_tag client sha256 now load s p base_ref tag) (sync_tag-IsQuiet s p base_ref tag)
          (sync_tags-IsQuiet (sync_tag client sha256 now load s p base_ref tag).0 p base_ref tags)
      where
        ended :
            (one : S × List Effect × Ending)
            → IsQuiet one.1
            → IsQuiet (sync_tags client sha256 now load one.0 p base_ref tags).1
            → IsQuiet
                (elim one.2 as (λ _. S × List Effect × Ending) [
                  | completed ↦ (
                    (sync_tags client sha256 now load one.0 p base_ref tags).0,
                    one.1 ++ (sync_tags client sha256 now load one.0 p base_ref tags).1,
                    (sync_tags client sha256 now load one.0 p base_ref tags).2,
                  )
                  | stopped e ↦ (one.0, one.1, stopped e)
                  | panicked ↦ (one.0, one.1, panicked)
                ]).1
        ended (t, effects, completed) he hf = append-IsQuiet effects _ he hf
        ended (t, effects, stopped e) he hf = he
        ended (t, effects, panicked) he hf = he

    pub sync_all_revisions-IsQuiet :
        (list_tags : String → Attempt (List String)) (s : S) (p : Pacto) (base_ref : String)
        → IsQuiet (sync_all_revisions client sha256 now load list_tags s p base_ref).1
    unfolding sync_all_revisions
    sync_all_revisions-IsQuiet list_tags s p base_ref = elim (Attempt-cases (list_tags base_ref)) [
      | inl (e, h) ↦ rw (sync_all_revisions, h) nothing-IsQuiet
      | inr (tags, h) ↦ rw (sync_all_revisions, h) (sync_tags-IsQuiet s p base_ref tags)
    ]
