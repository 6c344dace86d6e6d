-- ===== src/Dashboard/Deploy/Keys.antt =====
-- The objects that internal/dashboard/reconciler.go writes: their keys and labels, and that the keys are
-- different.
use pacto_operator.Prelude.{
  String, some, ◌≡◌, ◌≢◌, refl, ap, arith, subst, inl, inr, Option-cases, string_eq,
}
use pacto_operator.Message.{Attempt}
use pacto_operator.Dashboard.Objects.{Object, meta_of, Quantity, named, deployment, DeploymentSpec}
use pacto_operator.Dashboard.Config.{Config, build_resources}
use pacto_operator.Dashboard.Resources.{dashboard_name, managed_secret_name, labels}
use pacto_operator.Dashboard.Apply.{
  with_labels, with_owner, deployment_spec, service_account_ac, cluster_role_ac,
  cluster_role_binding_ac, deployment_ac, service_ac, oci_secret_ac,
}
use pacto_operator.Dashboard.Cluster.{
  namespace_kind, service_account_kind, cluster_role_kind, cluster_role_binding_kind,
  deployment_kind, service_kind, secret_kind, Key, key_of,
}
use pacto_operator.Dashboard.Laws.{with_owner_name, with_owner_namespace, with_owner_labels}

abbrev pub cluster_role_key : Key
cluster_role_key = record { kind = cluster_role_kind; namespace = ""; name = dashboard_name }

abbrev pub cluster_role_binding_key : Key
cluster_role_binding_key = record {
  kind = cluster_role_binding_kind;
  namespace = "";
  name = dashboard_name;
}

pub key_of-cluster_role_ac : key_of cluster_role_ac ≡ cluster_role_key
unfolding cluster_role_ac
key_of-cluster_role_ac = refl

pub labels-cluster_role_ac : (meta_of cluster_role_ac).labels ≡ labels
unfolding cluster_role_ac
labels-cluster_role_ac = refl

module _ (cfg : Config) where
  abbrev pub namespace_key : Key
  namespace_key = record { kind = namespace_kind; namespace = ""; name = cfg.namespace }

  abbrev pub service_account_key : Key
  service_account_key = record {
    kind = service_account_kind;
    namespace = cfg.namespace;
    name = dashboard_name;
  }

  abbrev pub deployment_key : Key
  deployment_key = record {
    kind = deployment_kind;
    namespace = cfg.namespace;
    name = dashboard_name;
  }

  abbrev pub service_key : Key
  service_key = record { kind = service_kind; namespace = cfg.namespace; name = dashboard_name }

  abbrev pub managed_secret_key : Key
  managed_secret_key = record {
    kind = secret_kind;
    namespace = cfg.namespace;
    name = managed_secret_name;
  }

  pub key_of-cluster_role_binding_ac :
      key_of (cluster_role_binding_ac cfg) ≡ cluster_role_binding_key
  unfolding cluster_role_binding_ac
  key_of-cluster_role_binding_ac = refl

  pub labels-cluster_role_binding_ac : (meta_of (cluster_role_binding_ac cfg)).labels ≡ labels
  unfolding cluster_role_binding_ac
  labels-cluster_role_binding_ac = refl

  pub key_of-service_account_ac : key_of (service_account_ac cfg) ≡ service_account_key
  unfolding service_account_ac
  key_of-service_account_ac =
      let m = with_labels labels (named dashboard_name cfg.namespace) in
      rw (with_owner_namespace cfg.owner_ref m, with_owner_name cfg.owner_ref m) refl

  pub labels-service_account_ac : (meta_of (service_account_ac cfg)).labels ≡ labels
  unfolding service_account_ac
  labels-service_account_ac =
      with_owner_labels cfg.owner_ref (with_labels labels (named dashboard_name cfg.namespace))

  pub key_of-service_ac : key_of (service_ac cfg) ≡ service_key
  unfolding service_ac
  key_of-service_ac =
      let m = with_labels labels (named dashboard_name cfg.namespace) in
      rw (with_owner_namespace cfg.owner_ref m, with_owner_name cfg.owner_ref m) refl

  pub labels-service_ac : (meta_of (service_ac cfg)).labels ≡ labels
  unfolding service_ac
  labels-service_ac =
      with_owner_labels cfg.owner_ref (with_labels labels (named dashboard_name cfg.namespace))

  pub key_of-oci_secret_ac :
      (content : String) → key_of (oci_secret_ac cfg content) ≡ managed_secret_key
  unfolding oci_secret_ac
  key_of-oci_secret_ac content =
      let m = with_labels labels (named managed_secret_name cfg.namespace) in
      rw (with_owner_namespace cfg.owner_ref m, with_owner_name cfg.owner_ref m) refl

  pub labels-oci_secret_ac :
      (content : String) → (meta_of (oci_secret_ac cfg content)).labels ≡ labels
  unfolding oci_secret_ac
  labels-oci_secret_ac content =
      with_owner_labels cfg.owner_ref (with_labels labels (named managed_secret_name cfg.namespace))

  -- An object with the Deployment's key and our labels.
  abbrev pub IsDeployment : Object → Type 0
  IsDeployment o = (key_of o ≡ deployment_key) × ((meta_of o).labels ≡ labels)

  deployment-IsDeployment :
      (spec : DeploymentSpec)
      → IsDeployment (
          deployment
            (with_owner cfg.owner_ref (with_labels labels (named dashboard_name cfg.namespace)))
            spec)
  deployment-IsDeployment spec =
      let m = with_labels labels (named dashboard_name cfg.namespace) in
      (
        rw (with_owner_namespace cfg.owner_ref m, with_owner_name cfg.owner_ref m) refl,
        with_owner_labels cfg.owner_ref m,
      )

  pub deployment_ac-IsDeployment :
      (parse_quantity : String → Attempt Quantity) (o : Object)
      → deployment_ac parse_quantity cfg ≡ some o
      → IsDeployment o
  unfolding deployment_ac
  deployment_ac-IsDeployment parse_quantity o h =
      elim (Option-cases (build_resources parse_quantity cfg.resources)) [
        | inl e ↦ absurd (ground arith)
        | inr (res, e) ↦
            let made : Object =
              deployment
                (with_owner cfg.owner_ref (with_labels labels (named dashboard_name cfg.namespace)))
                (deployment_spec cfg res) in
            let same : made ≡ o = ground arith in
            subst IsDeployment same (deployment-IsDeployment (deployment_spec cfg res))
      ]

-- Objects of different kinds have different keys.
pub kinds_differ : (j k : Key) → j.kind ≢ k.kind → j ≢ k
kinds_differ j k n e = n (ap (λ (x : Key). x.kind) e)
