-- ===== src/Dashboard/Deploy/Deployed.antt =====
-- What a deployment that ends well has written.
use pacto_operator.Prelude.{
  String, Bool, List, [], ◌∷◌, ◌≡◌, ◌≢◌, refl, arith, string_eq, subst, sym, ◌∙◌, inl, inr,
  Option-cases, is_empty,
}
use pacto_operator.Message.{Attempt}
use pacto_operator.Credentials.{Codec}
use pacto_operator.Dashboard.Objects.{Object, meta_of, Quantity}
use pacto_operator.Dashboard.Config.{Config, effective_oci_secrets}
use pacto_operator.Dashboard.Resources.{labels}
use pacto_operator.Dashboard.Apply.{
  service_account_ac, cluster_role_ac, cluster_role_binding_ac, deployment_ac, service_ac,
}
use pacto_operator.Dashboard.Cluster.{Key, key_of, Fetched-cases, Cluster, IsLawful}
use pacto_operator.Dashboard.Action.{Action, Ended, then_step, finish, apply_object}
use pacto_operator.Dashboard.Deploy.{
  ensure_namespace, reconcile_service_account, reconcile_cluster_role,
  reconcile_cluster_role_binding, reconcile_deployment, reconcile_service, deploy,
}
use pacto_operator.Dashboard.Deploy.Keys.{
  cluster_role_key, cluster_role_binding_key, key_of-cluster_role_ac, labels-cluster_role_ac,
  key_of-cluster_role_binding_ac, labels-cluster_role_binding_ac, namespace_key,
  service_account_key, deployment_key, service_key, managed_secret_key, key_of-service_account_ac,
  labels-service_account_ac, key_of-service_ac, labels-service_ac, deployment_ac-IsDeployment,
  kinds_differ,
}
use pacto_operator.Dashboard.Laws.{Keeps, Reaches, then_step-Reaches, apply_object-Keeps}
use pacto_operator.Dashboard.Deploy.ManagedSecret.{
  AllOurs, SecretIs, applied, keep_secret, reconcile_oci_credentials-SecretIs,
}
use pacto_operator.Dashboard.Objects.{namespace_object}
use pacto_operator.Dashboard.Resources.{labelled}

module _ {S : Type 0} (cluster : Cluster S) (lawful : IsLawful cluster) (codec : Codec)
    (parse_quantity : String → Attempt Quantity) (cfg : Config) where
  open lawful use {object_at}

  reconcile_deployment-AllOurs :
      (ks : List Key)
      → Reaches cluster lawful
          (AllOurs cluster lawful codec cfg ks)
          (reconcile_deployment cluster cfg parse_quantity)
          (AllOurs cluster lawful codec cfg (deployment_key cfg ∷ ks))
  unfolding reconcile_deployment
  reconcile_deployment-AllOurs ks s hs h = elim (Option-cases (deployment_ac parse_quantity cfg)) [
    | inl e ↦ absurd (ground arith)
    | inr (o, e) ↦
        let (key, owns) = deployment_ac-IsDeployment cfg parse_quantity o e in
        let same : reconcile_deployment cluster cfg parse_quantity s ≡ apply_object cluster o s =
          rw (reconcile_deployment, e) refl in
        subst (λ (r : Ended × S). AllOurs cluster lawful codec cfg (deployment_key cfg ∷ ks) r.1)
          (sym same)
          (applied cluster lawful codec cfg o (deployment_key cfg) key owns ks s hs (ground arith))
  ]

  pub reconcile_deployment-Keeps :
      (k : Key)
      → k ≢ deployment_key cfg
      → Keeps cluster lawful k (reconcile_deployment cluster cfg parse_quantity)
  unfolding reconcile_deployment
  reconcile_deployment-Keeps k n s = elim (Option-cases (deployment_ac parse_quantity cfg)) [
    | inl e ↦ rw (reconcile_deployment, e) refl
    | inr (o, e) ↦
        rw (reconcile_deployment, e)
          (apply_object-Keeps cluster lawful k o
            (λ same. n (same ∙ (deployment_ac-IsDeployment cfg parse_quantity o e).0)) s)
  ]

  pub ensure_namespace-Keeps :
      (k : Key) → k ≢ namespace_key cfg → Keeps cluster lawful k (ensure_namespace cluster cfg)
  unfolding ensure_namespace
  ensure_namespace-Keeps k n s = elim (Fetched-cases (cluster.get (namespace_key cfg) s)) [
    | inl e ↦
        rw (ensure_namespace, e)
          (lawful.object_at-create_ne (namespace_object (labelled cfg.namespace "")) s k n)
    | inr (inl (m, e)) ↦ rw (ensure_namespace, e) refl
    | inr (inr (o, e)) ↦ rw (ensure_namespace, e) refl
  ]

  -- Objects that are ours, beside the managed Secret.
  abbrev InOrder : Bool → List Key → S → Type 0
  InOrder b ks s = AllOurs cluster lawful codec cfg ks s × SecretIs cluster lawful codec cfg b s

  -- A step that leaves the managed Secret alone keeps it in order.
  beside_secret :
      (b : Bool) (m : Action S) (ks js : List Key)
      → Keeps cluster lawful (managed_secret_key cfg) m
      → Reaches cluster lawful
          (AllOurs cluster lawful codec cfg ks)
          m
          (AllOurs cluster lawful codec cfg js)
      → Reaches cluster lawful (InOrder b ks) m (InOrder b js)
  beside_secret b m ks js kept reached s (ours, secret) h =
      (reached s ours h, keep_secret cluster lawful codec cfg b s (m s).1 (kept s) secret)

  -- The state that `Reconcile` ensures for an enabled dashboard.
  abbrev pub IsDeployed : S → Type 0
  IsDeployed s =
      AllOurs cluster lawful codec cfg
        (service_key cfg
          ∷ deployment_key cfg
          ∷ cluster_role_binding_key
          ∷ cluster_role_key
          ∷ service_account_key cfg
          ∷ [])
        s
      × SecretIs cluster lawful codec cfg (is_empty (effective_oci_secrets cfg)) s

  applies :
      (o : Object) (k : Key) (ks : List Key)
      → key_of o ≡ k
      → (meta_of o).labels ≡ labels
      → Reaches cluster lawful
          (AllOurs cluster lawful codec cfg ks)
          (apply_object cluster o)
          (AllOurs cluster lawful codec cfg (k ∷ ks))
  applies o k ks e h = applied cluster lawful codec cfg o k e h ks

  abbrev applied_keys : List Key
  applied_keys = cluster_role_binding_key ∷ cluster_role_key ∷ service_account_key cfg ∷ []

  -- The last two steps, with the managed Secret in order.
  rest_IsDeployed :
      (b : Bool)
      → Reaches cluster lawful
          (InOrder b applied_keys)
          (then_step "deployment: %w"
            (reconcile_deployment cluster cfg parse_quantity)
            (then_step "service: %w" (reconcile_service cluster cfg) finish))
          (InOrder b (service_key cfg ∷ deployment_key cfg ∷ applied_keys))
  unfolding reconcile_service
  rest_IsDeployed b =
      then_step-Reaches cluster lawful "deployment: %w" (InOrder b applied_keys)
        (InOrder b (deployment_key cfg ∷ applied_keys))
        (InOrder b (service_key cfg ∷ deployment_key cfg ∷ applied_keys)) _ _
        (beside_secret b (reconcile_deployment cluster cfg parse_quantity) applied_keys
          (deployment_key cfg ∷ applied_keys)
          (reconcile_deployment-Keeps (managed_secret_key cfg)
            (kinds_differ _ _ (λ e. absurd (ground arith))))
          (reconcile_deployment-AllOurs applied_keys))
        (then_step-Reaches cluster lawful "service: %w"
          (InOrder b (deployment_key cfg ∷ applied_keys))
          (InOrder b (service_key cfg ∷ deployment_key cfg ∷ applied_keys))
          (InOrder b (service_key cfg ∷ deployment_key cfg ∷ applied_keys)) _ _
          (beside_secret b (reconcile_service cluster cfg) (deployment_key cfg ∷ applied_keys)
            (service_key cfg ∷ deployment_key cfg ∷ applied_keys)
            (apply_object-Keeps cluster lawful (managed_secret_key cfg) (service_ac cfg) (λ same.
              kinds_differ (managed_secret_key cfg) (service_key cfg) (λ e. absurd (ground arith))
                (same ∙ key_of-service_ac cfg)))
            (applies (service_ac cfg) (service_key cfg) (deployment_key cfg ∷ applied_keys)
              (key_of-service_ac cfg) (labels-service_ac cfg)))
          (λ s h _. h))

  pub deploy-IsDeployed :
      Reaches cluster lawful (λ _. Unit) (deploy cluster cfg codec parse_quantity) IsDeployed
  unfolding deploy reconcile_service_account reconcile_cluster_role reconcile_cluster_role_binding
  deploy-IsDeployed =
      then_step-Reaches cluster lawful "namespace: %w" (λ _. Unit)
        (AllOurs cluster lawful codec cfg []) IsDeployed _ _ (λ s h _. tt)
        (then_step-Reaches cluster lawful "service account: %w"
          (AllOurs cluster lawful codec cfg [])
          (AllOurs cluster lawful codec cfg (service_account_key cfg ∷ [])) IsDeployed _ _
          (applies (service_account_ac cfg) (service_account_key cfg) []
            (key_of-service_account_ac cfg) (labels-service_account_ac cfg))
          (then_step-Reaches cluster lawful "cluster role: %w" _
            (AllOurs cluster lawful codec cfg (cluster_role_key ∷ service_account_key cfg ∷ []))
            IsDeployed _ _
            (applies cluster_role_ac cluster_role_key (service_account_key cfg ∷ [])
              key_of-cluster_role_ac labels-cluster_role_ac)
            (then_step-Reaches cluster lawful "cluster role binding: %w" _
              (AllOurs cluster lawful codec cfg applied_keys) IsDeployed _ _
              (applies (cluster_role_binding_ac cfg) cluster_role_binding_key
                (cluster_role_key ∷ service_account_key cfg ∷ [])
                (key_of-cluster_role_binding_ac cfg) (labels-cluster_role_binding_ac cfg))
              (then_step-Reaches cluster lawful "oci credentials: %w" _ _ IsDeployed _ _
                (reconcile_oci_credentials-SecretIs cluster lawful codec cfg applied_keys (
                  kinds_differ _ _ (λ e. absurd (ground arith)),
                  (
                    kinds_differ _ _ (λ e. absurd (ground arith)),
                    (kinds_differ _ _ (λ e. absurd (ground arith)), tt),
                  ),
                ))
                (rest_IsDeployed (is_empty (effective_oci_secrets cfg)))))))
