-- ===== src/Dashboard/Deploy/ManagedSecret.antt =====
-- What the step of `Reconcile` for the credentials does to the managed Secret and to the other objects.
use pacto_operator.Prelude.{
  String, Bool, true, false, List, [], ◌∷◌, ◌≡◌, ◌≢◌, refl, arith, All, string_eq, subst, sym, ◌∙◌,
  inl, inr, Bool-cases, is_empty, if_intro,
}
use pacto_operator.Message.{Attempt-cases}
use pacto_operator.Credentials.{Codec, merge_to_docker_config_json}
use pacto_operator.Dashboard.Objects.{Object, meta_of}
use pacto_operator.Dashboard.Config.{Config, effective_oci_secrets}
use pacto_operator.Dashboard.Resources.{labels}
use pacto_operator.Dashboard.Apply.{oci_secret_ac}
use pacto_operator.Dashboard.Cluster.{
  Key, key_of, Fetched-cases, Deleted-cases, Cluster, IsLawful, IsGone, unset_propagation,
}
use pacto_operator.Dashboard.Action.{Action, Ended, ended_well, apply_object}
use pacto_operator.Dashboard.Deploy.{
  reconcile_oci_credentials, delete_managed_secret, apply_merged_secret, read_secrets,
}
use pacto_operator.Dashboard.Deploy.Keys.{
  managed_secret_key, key_of-oci_secret_ac, labels-oci_secret_ac,
}
use pacto_operator.Dashboard.Laws.{
  IsOurs, keep_owned, fetched-IsDeletion, Keeps, Reaches, apply_object-Keeps, apply_object-IsOurs,
}

module _ {S : Type 0} (cluster : Cluster S) (lawful : IsLawful cluster) (codec : Codec)
    (cfg : Config) where
  open lawful use {object_at}

  abbrev pub AllOurs : List Key → S → Type 0
  AllOurs ks s = All (λ k. IsOurs cluster lawful k s) ks

  -- The managed Secret: gone where no Secrets are configured, and else ours.
  abbrev pub SecretIs : Bool → S → Type 0
  SecretIs true s = IsGone (object_at (managed_secret_key cfg) s)
  SecretIs false s = IsOurs cluster lawful (managed_secret_key cfg) s

  -- Applying an object keeps the managed Secret as it should be.
  pub applied :
      (o : Object) (k : Key)
      → key_of o ≡ k
      → (meta_of o).labels ≡ labels
      → (ks : List Key)
      → Reaches cluster lawful (AllOurs ks) (apply_object cluster o) (AllOurs (k ∷ ks))
  applied o k e h ks =
      subst (λ j. Reaches cluster lawful (AllOurs ks) (apply_object cluster o) (AllOurs (j ∷ ks))) e
        (apply_object-IsOurs cluster lawful o h ks)

  pub keep_secret :
      (b : Bool) (s t : S)
      → object_at (managed_secret_key cfg) t ≡ object_at (managed_secret_key cfg) s
      → SecretIs b s
      → SecretIs b t
  keep_secret true s t e h = subst IsGone (sym e) h
  keep_secret false s t e h = keep_owned cluster lawful (managed_secret_key cfg) s t e h

  delete_managed_secret-Keeps :
      (k : Key)
      → k ≢ managed_secret_key cfg
      → Keeps cluster lawful k (delete_managed_secret cluster cfg)
  unfolding delete_managed_secret
  delete_managed_secret-Keeps k n s =
      elim (Fetched-cases (cluster.get (managed_secret_key cfg) s)) [
        | inl e ↦ rw (delete_managed_secret, e) refl
        | inr (inl (m, e)) ↦ rw (delete_managed_secret, e) refl
        | inr (inr (o, e)) ↦
            let deletion =
              fetched-IsDeletion cluster lawful unset_propagation (managed_secret_key cfg) s o e in
            elim (Deleted-cases (cluster.delete unset_propagation (key_of o) s).0) [
              | inl d ↦ rw (delete_managed_secret, e, d) (deletion.others k n)
              | inr (inl d) ↦ rw (delete_managed_secret, e, d) (deletion.others k n)
              | inr (inr (m, d)) ↦ rw (delete_managed_secret, e, d) (deletion.others k n)
            ]
      ]

  delete_managed_secret_gone :
      (s : S)
      → (delete_managed_secret cluster cfg s).0 ≡ ended_well
      → SecretIs true (delete_managed_secret cluster cfg s).1
  unfolding delete_managed_secret
  delete_managed_secret_gone s h = elim (Fetched-cases (cluster.get (managed_secret_key cfg) s)) [
    | inl e ↦ rw (delete_managed_secret, e, lawful.get-absent (managed_secret_key cfg) s e) tt
    | inr (inl (m, e)) ↦ absurd (ground arith)
    | inr (inr (o, e)) ↦
        let deletion =
          fetched-IsDeletion cluster lawful unset_propagation (managed_secret_key cfg) s o e in
        elim (Deleted-cases (cluster.delete unset_propagation (key_of o) s).0) [
          | inl d ↦ rw (delete_managed_secret, e, d) (deletion.gone d)
          | inr (inl d) ↦ absurd (ground arith)
          | inr (inr (m, d)) ↦ absurd (ground arith)
        ]
  ]

  apply_merged_secret-Keeps :
      (names : List String) (k : Key)
      → k ≢ managed_secret_key cfg
      → Keeps cluster lawful k (apply_merged_secret cluster cfg codec names)
  unfolding apply_merged_secret
  apply_merged_secret-Keeps names k n s = elim (Attempt-cases (read_secrets cluster cfg names s)) [
    | inl (m, e) ↦ rw (apply_merged_secret, e) refl
    | inr (sources, e) ↦ elim (Attempt-cases (merge_to_docker_config_json codec sources)) [
      | inl (m, f) ↦ rw (apply_merged_secret, e, f) refl
      | inr (merged, f) ↦
          rw (apply_merged_secret, e, f)
            (apply_object-Keeps cluster lawful k (oci_secret_ac cfg merged)
              (λ same. n (same ∙ key_of-oci_secret_ac cfg merged)) s)
    ]
  ]

  apply_merged_secret-AllOurs :
      (names : List String) (ks : List Key)
      → Reaches cluster lawful
          (AllOurs ks)
          (apply_merged_secret cluster cfg codec names)
          (AllOurs (managed_secret_key cfg ∷ ks))
  unfolding apply_merged_secret
  apply_merged_secret-AllOurs names ks s hs h =
      elim (Attempt-cases (read_secrets cluster cfg names s)) [
        | inl (m, e) ↦ absurd (ground arith)
        | inr (sources, e) ↦ elim (Attempt-cases (merge_to_docker_config_json codec sources)) [
          | inl (m, f) ↦ absurd (ground arith)
          | inr (merged, f) ↦
              let same : apply_merged_secret cluster cfg codec names s
                  ≡ apply_object cluster (oci_secret_ac cfg merged) s =
                rw (apply_merged_secret, e, f) refl in
              subst (λ (r : Ended × S). AllOurs (managed_secret_key cfg ∷ ks) r.1) (sym same)
                (applied (oci_secret_ac cfg merged) (managed_secret_key cfg)
                  (key_of-oci_secret_ac cfg merged) (labels-oci_secret_ac cfg merged) ks s hs
                  (ground arith))
        ]
      ]

  keep_each_owned :
      (ks : List Key) (s t : S)
      → All (λ k. object_at k t ≡ object_at k s) ks
      → AllOurs ks s
      → AllOurs ks t
  keep_each_owned [] s t e h = tt
  keep_each_owned (k ∷ ks) s t e h =
      (keep_owned cluster lawful k s t e.0 h.0, keep_each_owned ks s t e.1 h.1)

  pub reconcile_oci_credentials-Keeps :
      (k : Key)
      → k ≢ managed_secret_key cfg
      → Keeps cluster lawful k (reconcile_oci_credentials cluster cfg codec)
  unfolding reconcile_oci_credentials
  reconcile_oci_credentials-Keeps k n s =
      if_intro (λ (m : Action S). object_at k (m s).1 ≡ object_at k s)
        (is_empty (effective_oci_secrets cfg)) (delete_managed_secret-Keeps k n s)
        (apply_merged_secret-Keeps (effective_oci_secrets cfg) k n s)

  -- The credentials' step brings the managed Secret in order and keeps what is ours.
  pub reconcile_oci_credentials-SecretIs :
      (ks : List Key)
      → All (λ k. k ≢ managed_secret_key cfg) ks
      → Reaches cluster lawful
          (AllOurs ks)
          (reconcile_oci_credentials cluster cfg codec)
          (λ s. AllOurs ks s × SecretIs (is_empty (effective_oci_secrets cfg)) s)
  unfolding reconcile_oci_credentials
  reconcile_oci_credentials-SecretIs ks different s hs h =
      elim (Bool-cases (is_empty (effective_oci_secrets cfg))) [
        | inl e ↦
            rw (reconcile_oci_credentials, e)
              (
                keep_each_owned ks s (delete_managed_secret cluster cfg s).1 (kept ks different) hs,
                delete_managed_secret_gone s (ground arith),
              )
        | inr e ↦
            let (ours, rest) =
              apply_merged_secret-AllOurs (effective_oci_secrets cfg) ks s hs (ground arith) in
            rw (reconcile_oci_credentials, e) (rest, ours)
      ]
    where
      kept :
          (js : List Key)
          → All (λ k. k ≢ managed_secret_key cfg) js
          → All (λ k. object_at k (delete_managed_secret cluster cfg s).1 ≡ object_at k s) js
      kept [] n = tt
      kept (j ∷ js) n = (delete_managed_secret-Keeps j n.0 s, kept js n.1)
