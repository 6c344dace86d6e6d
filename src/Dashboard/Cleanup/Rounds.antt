-- ===== src/Dashboard/Cleanup/Rounds.antt =====
-- The rounds of a cleanup: which objects are deleted, and that all of ours are.
use pacto_operator.Prelude.{
  String, List, [], ◌∷◌, ◌≡◌, ◌≢◌, refl, ◌∙◌, arith, subst, sym, ◌⊎◌, inl, inr, Bool-cases,
}
use pacto_operator.Message.{Message, sprintf, str, msg, done}
use pacto_operator.Dashboard.Config.{Config}
use pacto_operator.Dashboard.Cluster.{
  Key, key_of, Key-discrete, Fetched-cases, Deleted-cases, Cluster, IsLawful, IsGone, foreground,
}
use pacto_operator.Dashboard.Action.{Action, Ended, ended_well, ended_with}
use pacto_operator.Dashboard.Cleanup.{
  is_managed, cleanup_targets, clean_object, clean_objects, cleanup,
}
use pacto_operator.Dashboard.Laws.{IsOurs, keep_owned, fetched-IsDeletion}

-- Whether a key is among those of the targets.
abbrev pub IsTarget : Key → List (String × Key) → Type 0
IsTarget k [] = ⊥
IsTarget k (target ∷ targets) = (k ≡ target.1) ⊎ IsTarget k targets

module _ {S : Type 0} (cluster : Cluster S) (lawful : IsLawful cluster) where
  open lawful use {object_at}

  abbrev pub Ours : Key → S → Type 0
  Ours = IsOurs cluster lawful

  -- How one round of the loop goes: on with the same state where the object is not ours, on with a
  -- state where it is gone, or to an error with the same objects.
  data Round (target : String × Key) (s : S) : Type 0 where
    passes :
        ((rest : Action S) → clean_object cluster target rest s ≡ rest s)
        → (Ours target.1 s → ⊥)
        → Round target s
    deletes :
        (t : S)
        → ((rest : Action S) → clean_object cluster target rest s ≡ rest t)
        → Ours target.1 s
        → IsGone (object_at target.1 t)
        → ((k : Key) → k ≢ target.1 → object_at k t ≡ object_at k s)
        → Round target s
    stops :
        (t : S) (e : Message)
        → ((rest : Action S) → clean_object cluster target rest s ≡ (ended_with e, t))
        → ((k : Key) → object_at k t ≡ object_at k s)
        → Round target s

  round : (target : String × Key) (s : S) → Round target s
  unfolding clean_object
  round target s = elim (Fetched-cases (cluster.get target.1 s)) [
    | inl e ↦
        passes (λ rest. rw (clean_object, e) refl)
          (λ (o, found, managed). absurd (ground (arith, lawful.get-absent target.1 s e)))
    | inr (inl (m, e)) ↦
        stops s (sprintf "failed to get %s: %w" (str target.0 (msg m done)))
          (λ rest. rw (clean_object, e) refl) (λ k. refl)
    | inr (inr (o, e)) ↦ elim (Bool-cases (is_managed o)) [
      | inr u ↦
          passes (λ rest. rw (clean_object, e, u) refl)
            (λ (x, found, managed). absurd (ground (arith, lawful.get-fetched target.1 s o e)))
      | inl u ↦
          let deletion = fetched-IsDeletion cluster lawful foreground target.1 s o e in
          let ours : Ours target.1 s = (o, lawful.get-fetched target.1 s o e, u) in
          let t = (cluster.delete foreground (key_of o) s).1 in
          elim (Deleted-cases (cluster.delete foreground (key_of o) s).0) [
            | inl d ↦
                deletes t (λ rest. rw (clean_object, e, u, d) refl) ours (deletion.gone d)
                  deletion.others
            | inr (inl d) ↦
                deletes t (λ rest. rw (clean_object, e, u, d) refl) ours (deletion.gone_before d)
                  deletion.others
            | inr (inr (m, d)) ↦
                stops t (sprintf "failed to delete %s: %w" (str target.0 (msg m done)))
                  (λ rest. rw (clean_object, e, u, d) refl)
                  (λ k. elim (Key-discrete k target.1) [
                    | yes same ↦
                        subst (λ j. object_at j t ≡ object_at j s) (sym same) (deletion.kept m d)
                    | no n ↦ deletion.others k n
                  ])
          ]
    ]
  ]

  -- A cleanup leaves the object of a key alone, or it was ours and is gone.
  abbrev pub Fate : Key → List (String × Key) → S → S → Type 0
  Fate k targets s t =
      (object_at k t ≡ object_at k s) ⊎ (IsTarget k targets × Ours k s × IsGone (object_at k t))

  clean_objects-Fate :
      (k : Key) (targets : List (String × Key)) (s : S)
      → Fate k targets s (clean_objects cluster targets s).1
  unfolding clean_objects
  clean_objects-Fate k [] s = inl refl
  clean_objects-Fate k (target ∷ targets) s =
      after (round target s) (λ t. clean_objects-Fate k targets t)
    where
      widen :
          (t : S)
          → object_at k t ≡ object_at k s
          → Fate k targets t (clean_objects cluster targets t).1
          → Fate k (target ∷ targets) s (clean_objects cluster targets t).1
      widen t e (inl same) = inl (same ∙ e)
      widen t e (inr (is_target, ours, gone)) =
          inr (inr is_target, keep_owned cluster lawful k t s (sym e) ours, gone)

      after_deletion :
          (t : S)
          → Ours target.1 s
          → IsGone (object_at target.1 t)
          → k ≡ target.1
          → Fate k targets t (clean_objects cluster targets t).1
          → Fate k (target ∷ targets) s (clean_objects cluster targets t).1
      after_deletion t ours gone same (inl kept) = inr (
        inl same,
        subst (λ j. Ours j s) (sym same) ours,
        subst IsGone (sym kept) (subst (λ j. IsGone (object_at j t)) (sym same) gone),
      )
      after_deletion t ours gone same (inr (is_target, _, gone_later)) =
          inr (inl same, subst (λ j. Ours j s) (sym same) ours, gone_later)

      after :
          Round target s
          → ((t : S) → Fate k targets t (clean_objects cluster targets t).1)
          → Fate k (target ∷ targets) s (clean_objects cluster (target ∷ targets) s).1
      after (passes goes not_ours) ih =
          subst (λ (r : Ended × S). Fate k (target ∷ targets) s r.1)
            (sym (goes (clean_objects cluster targets))) (widen s refl (ih s))
      after (deletes t goes ours gone others) ih =
          subst (λ (r : Ended × S). Fate k (target ∷ targets) s r.1)
            (sym (goes (clean_objects cluster targets)))
            (elim (Key-discrete k target.1) [
              | yes same ↦ after_deletion t ours gone same (ih t)
              | no n ↦ widen t (others k n) (ih t)
            ])
      after (stops t e goes kept) ih =
          subst (λ (r : Ended × S). Fate k (target ∷ targets) s r.1)
            (sym (goes (clean_objects cluster targets))) (inl (kept k))

  -- What is gone stays gone.
  clean_objects-IsGone :
      (k : Key) (targets : List (String × Key)) (s : S)
      → IsGone (object_at k s)
      → IsGone (object_at k (clean_objects cluster targets s).1)
  clean_objects-IsGone k targets s gone = elim (clean_objects-Fate k targets s) [
    | inl same ↦ subst IsGone (sym same) gone
    | inr (_, _, gone_later) ↦ gone_later
  ]

  clean_objects_complete :
      (k : Key) (targets : List (String × Key)) (s : S)
      → (clean_objects cluster targets s).0 ≡ ended_well
      → IsTarget k targets
      → Ours k s
      → IsGone (object_at k (clean_objects cluster targets s).1)
  unfolding clean_objects
  clean_objects_complete k [] s h is_target ours = absurd is_target
  clean_objects_complete k (target ∷ targets) s h is_target ours =
      after (round target s) (λ t. clean_objects_complete k targets t)
    where
      Claim : Ended × S → Type 0
      Claim r = r.0 ≡ ended_well → IsGone (object_at k r.1)

      later : IsTarget k (target ∷ targets) → k ≢ target.1 → IsTarget k targets
      later (inl same) n = absurd (n same)
      later (inr is_later) n = is_later

      after :
          Round target s
          → ((t : S)
              → (clean_objects cluster targets t).0 ≡ ended_well
              → IsTarget k targets
              → Ours k t
              → IsGone (object_at k (clean_objects cluster targets t).1))
          → IsGone (object_at k (clean_objects cluster (target ∷ targets) s).1)
      after (passes goes not_ours) ih =
          subst Claim (sym (goes (clean_objects cluster targets)))
            (λ well.
              ih s well (later is_target (λ same. not_ours (subst (λ j. Ours j s) same ours))) ours)
            h
      after (deletes t goes ours_here gone others) ih =
          subst Claim (sym (goes (clean_objects cluster targets)))
            (λ well. elim (Key-discrete k target.1) [
              | yes same ↦
                  clean_objects-IsGone k targets t
                    (subst (λ j. IsGone (object_at j t)) (sym same) gone)
              | no n ↦
                  ih t well (later is_target n) (keep_owned cluster lawful k s t (others k n) ours)
            ])
            h
      after (stops t e goes kept) ih =
          subst Claim (sym (goes (clean_objects cluster targets))) (λ well. absurd (ground arith)) h

  -- A cleanup, however it ends, and what one that ends well leaves of the targets that were ours.
  pub cleanup-Fate :
      (cfg : Config) (k : Key) (s : S)
      → Fate k (cleanup_targets cfg) s (cleanup cluster cfg s).1
        × ((cleanup cluster cfg s).0 ≡ ended_well
            → IsTarget k (cleanup_targets cfg)
            → IsOurs cluster lawful k s
            → IsGone (object_at k (cleanup cluster cfg s).1))
  unfolding cleanup
  cleanup-Fate cfg k s = (
    clean_objects-Fate k (cleanup_targets cfg) s,
    clean_objects_complete k (cleanup_targets cfg) s,
  )
