-- ===== src/Dashboard/Deploy.antt =====
-- The methods of internal/dashboard/reconciler.go that apply the objects of an enabled dashboard.
pub mod Keys
pub mod ManagedSecret
pub mod Deployed
use pacto_operator.Prelude.{String, false, none, some, List, [], ◌∷◌}
use pacto_operator.Prelude.{◌==◌, string_eq, if◌then◌else◌, is_empty}
use pacto_operator.Message.{Attempt, success, failure, sprintf, str, msg, done, text}
use pacto_operator.Observer.{fetched, absent, failed}
use pacto_operator.Credentials.{Secret, Codec, merge_to_docker_config_json}
use pacto_operator.Dashboard.Objects.{Object, meta_of, namespace_object, secret, Quantity}
use pacto_operator.Dashboard.Config.{Config, effective_oci_secrets}
use pacto_operator.Dashboard.Resources.{managed_secret_name, labelled}
use pacto_operator.Dashboard.Apply.{
  service_account_ac, cluster_role_ac, cluster_role_binding_ac, deployment_ac, service_ac,
  oci_secret_ac,
}
use pacto_operator.Dashboard.Cluster.{
  namespace_kind, secret_kind, Key, key_of, unset_propagation, deleted, delete_absent,
  delete_failed, Cluster,
}
use pacto_operator.Dashboard.Action.{
  apply_object, ended_well, ended_with, ended_in_panic, ended_of, Action, then_step, finish,
}

-- A Secret as the credentials read it.
abbrev pub credentials_of : Object → Secret
credentials_of (secret m type content) = record {
  name = m.name;
  is_docker_config = type == "kubernetes.io/dockerconfigjson";
  data_of = content;
}
credentials_of o = record { name = (meta_of o).name; is_docker_config = false; data_of = [] }

module _ {S : Type 0} (cluster : Cluster S) (cfg : Config) where
  -- `ensureNamespace`
  unfoldable pub ensure_namespace : Action S
  ensure_namespace s =
      elim (cluster.get (record { kind = namespace_kind; namespace = ""; name = cfg.namespace })
        s) [
          | fetched o ↦ (ended_well, s)
          | failed e ↦ (ended_with e, s)
          | absent ↦
              let r = cluster.create (namespace_object (labelled cfg.namespace "")) s in
              (ended_of r.0, r.1)
        ]

  -- `reconcileServiceAccount`
  unfoldable pub reconcile_service_account : Action S
  reconcile_service_account = apply_object cluster (service_account_ac cfg)

  -- `reconcileClusterRole`
  unfoldable pub reconcile_cluster_role : Action S
  reconcile_cluster_role = apply_object cluster cluster_role_ac

  -- `reconcileClusterRoleBinding`
  unfoldable pub reconcile_cluster_role_binding : Action S
  reconcile_cluster_role_binding = apply_object cluster (cluster_role_binding_ac cfg)

  -- `reconcileService`
  unfoldable pub reconcile_service : Action S
  reconcile_service = apply_object cluster (service_ac cfg)

  abbrev pub secret_key : String → Key
  secret_key name = record { kind = secret_kind; namespace = cfg.namespace; name = name }

  -- The first branch of `reconcileOCICredentials`: no Secrets are configured.
  unfoldable pub delete_managed_secret : Action S
  delete_managed_secret s = elim (cluster.get (secret_key managed_secret_name) s) [
    | absent ↦ (ended_well, s)
    | failed e ↦ (ended_with e, s)
    | fetched o ↦
        let r = cluster.delete unset_propagation (key_of o) s in
        elim r.0 [
          | deleted ↦ (ended_well, r.1)
          | delete_absent ↦ (ended_with (text "not found"), r.1)
          | delete_failed e ↦ (ended_with e, r.1)
        ]
  ]

  -- The loop of `reconcileOCICredentials` that reads the Secrets.
  unfoldable pub read_secrets : List String → S → Attempt (List Secret)
  read_secrets [] s = success []
  read_secrets (name ∷ names) s = elim (cluster.get (secret_key name) s) [
    | absent ↦
        failure (sprintf "reading OCI secret %q: %w" (str name (msg (text "not found") done)))
    | failed e ↦ failure (sprintf "reading OCI secret %q: %w" (str name (msg e done)))
    | fetched o ↦ elim (read_secrets names s) [
      | failure e ↦ failure e
      | success sources ↦ success (credentials_of o ∷ sources)
    ]
  ]

  module _ (codec : Codec) where
    -- The rest of `reconcileOCICredentials`.
    unfoldable pub apply_merged_secret : List String → Action S
    apply_merged_secret names s = elim (read_secrets names s) [
      | failure e ↦ (ended_with e, s)
      | success sources ↦ elim (merge_to_docker_config_json codec sources) [
        | failure e ↦ (ended_with (sprintf "merging OCI credentials: %w" (msg e done)), s)
        | success merged ↦ apply_object cluster (oci_secret_ac cfg merged) s
      ]
    ]

    -- `reconcileOCICredentials`
    unfoldable pub reconcile_oci_credentials : Action S
    reconcile_oci_credentials =
        let names = effective_oci_secrets cfg in
        if is_empty names then delete_managed_secret else apply_merged_secret names

  module _ (parse_quantity : String → Attempt Quantity) where
    -- `reconcileDeployment`, which panics where the configuration cannot be built.
    unfoldable pub reconcile_deployment : Action S
    reconcile_deployment s = elim (deployment_ac parse_quantity cfg) [
      | none ↦ (ended_in_panic, s)
      | some o ↦ apply_object cluster o s
    ]

  module _ (codec : Codec) (parse_quantity : String → Attempt Quantity) where
    -- The body of `Reconcile` for an enabled dashboard.
    unfoldable pub deploy : Action S
    deploy = then_step "namespace: %w" ensure_namespace (
        then_step "service account: %w" reconcile_service_account (
          then_step "cluster role: %w" reconcile_cluster_role (
            then_step "cluster role binding: %w" reconcile_cluster_role_binding (
              then_step "oci credentials: %w" (reconcile_oci_credentials codec) (
                then_step "deployment: %w" (reconcile_deployment parse_quantity)
                  (then_step "service: %w" reconcile_service finish))))))
