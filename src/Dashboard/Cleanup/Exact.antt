-- ===== src/Dashboard/Cleanup/Exact.antt =====
-- Which objects a cleanup deletes.
use pacto_operator.Prelude.{
  String, List, [], ◌∷◌, ◌≡◌, refl, arith, ◌⊎◌, inl, inr, Bool-cases, Option-cases,
}
use pacto_operator.Dashboard.Config.{Config}
use pacto_operator.Dashboard.Cluster.{Key, Key-discrete, Cluster, IsLawful, IsGone}
use pacto_operator.Dashboard.Action.{Ended, ended_well, ended_with, ended_in_panic}
use pacto_operator.Dashboard.Cleanup.{is_managed, cleanup, cleanup_targets}
use pacto_operator.Dashboard.Cleanup.Rounds.{IsTarget, Fate, cleanup-Fate}
use pacto_operator.Dashboard.Laws.{IsOurs}

module _ {S : Type 0} (cluster : Cluster S) (lawful : IsLawful cluster) (cfg : Config) where
  open lawful use {object_at}

  -- A target of the cleanup that has our management labels.
  abbrev pub Ours : Key → S → Type 0
  Ours k s = IsTarget k (cleanup_targets cfg) × IsOurs cluster lawful k s

  -- What a cleanup that began at `s` has done to the object of a key, by how it ended.
  abbrev pub Cleans : Key → S → Ended × S → Type 0
  Cleans k s (ended_well, t) =
      (Ours k s × IsGone (object_at k t)) ⊎ ((Ours k s → ⊥) × (object_at k t ≡ object_at k s))
  Cleans k s (ended_with e, t) =
      (Ours k s × IsGone (object_at k t)) ⊎ (object_at k t ≡ object_at k s)
  Cleans k s (ended_in_panic, t) =
      (Ours k s × IsGone (object_at k t)) ⊎ (object_at k t ≡ object_at k s)

  IsTarget-decided :
      (k : Key) (targets : List (String × Key)) → IsTarget k targets ⊎ (IsTarget k targets → ⊥)
  IsTarget-decided k [] = inr (λ h. h)
  IsTarget-decided k (target ∷ targets) = elim (Key-discrete k target.1) [
    | yes e ↦ inl (inl e)
    | no n ↦ elim (IsTarget-decided k targets) [
      | inl h ↦ inl (inr h)
      | inr m ↦ inr (λ h. elim h [ inl e ↦ n e | inr later ↦ m later ])
    ]
  ]

  owner_decided : (k : Key) (s : S) → IsOurs cluster lawful k s ⊎ (IsOurs cluster lawful k s → ⊥)
  owner_decided k s = elim (Option-cases (object_at k s)) [
    | inl e ↦ inr (λ (o, found, managed). absurd (ground (arith, e, found)))
    | inr (x, e) ↦ elim (Bool-cases (is_managed x)) [
      | inl m ↦ inl (x, e, m)
      | inr u ↦ inr (λ (o, found, managed). absurd (ground (arith, e, found, managed, u)))
    ]
  ]

  Ours-decided : (k : Key) (s : S) → Ours k s ⊎ (Ours k s → ⊥)
  Ours-decided k s = elim (IsTarget-decided k (cleanup_targets cfg)) [
    | inr n ↦ inr (λ h. n h.0)
    | inl h ↦ elim (owner_decided k s) [ inl o ↦ inl (h, o) | inr n ↦ inr (λ both. n both.1) ]
  ]

  -- For a lawful cluster, every configuration, state and key: a cleanup that ends well has removed the
  -- object of the key if the key is a target and the object had our management labels, and has left it as
  -- it was otherwise; one that ends with an error has removed such an object or left it as it was. What is
  -- removed may wait in deletion for its dependents.
  pub cleanup_exact : (k : Key) (s : S) → Cleans k s (cleanup cluster cfg s)
  cleanup_exact k s =
      let (fate, complete) = cleanup-Fate cluster lawful cfg k s in
      by_end (cleanup cluster cfg s) fate complete
    where
      regroup :
          (t : S)
          → Fate cluster lawful k (cleanup_targets cfg) s t
          → (Ours k s × IsGone (object_at k t)) ⊎ (object_at k t ≡ object_at k s)
      regroup t (inl same) = inr same
      regroup t (inr (target, ours, gone)) = inl ((target, ours), gone)

      exactly :
          (t : S)
          → ((Ours k s × IsGone (object_at k t)) ⊎ (object_at k t ≡ object_at k s))
          → (Ours k s → IsGone (object_at k t))
          → (Ours k s × IsGone (object_at k t)) ⊎ ((Ours k s → ⊥) × (object_at k t ≡ object_at k s))
      exactly t (inl removed) complete = inl removed
      exactly t (inr same) complete = elim (Ours-decided k s) [
        | inl ours ↦ inl (ours, complete ours)
        | inr n ↦ inr (n, same)
      ]

      by_end :
          (r : Ended × S)
          → Fate cluster lawful k (cleanup_targets cfg) s r.1
          → (r.0 ≡ ended_well
              → IsTarget k (cleanup_targets cfg)
              → IsOurs cluster lawful k s
              → IsGone (object_at k r.1))
          → Cleans k s r
      by_end (ended_well, t) fate complete =
          exactly t (regroup t fate) (λ (target, ours). complete refl target ours)
      by_end (ended_with e, t) fate complete = regroup t fate
      by_end (ended_in_panic, t) fate complete = regroup t fate
