-- ===== src/Dashboard/Apply.antt =====
-- internal/dashboard/apply.go: the configurations that the reconciler applies. A builder of the library
pub mod Equivalence
-- sets one field of the configuration that it is called on.
use pacto_operator.Prelude.{String, Bool, true, false, Option, none, some, List, [], ◌∷◌, ◌++◌}
use pacto_operator.Prelude.{ℕ, ◌!=◌, string_eq, if◌then◌else◌, is_empty, not}
use pacto_operator.Message.{Attempt}
use pacto_operator.Dashboard.Objects.{
  OwnerReference, ObjectMeta, PolicyRule, Quantity, ResourceRequirements, EnvVar, VolumeMount,
  Volume, empty_dir, secret_volume, Container, HttpProbe, PodSpec, DeploymentSpec, ServiceSpec,
  Object, service_account, cluster_role, cluster_role_binding, deployment, service, secret, named,
  blank_container, blank_pod, blank_deployment, blank_probe,
}
use pacto_operator.Dashboard.Config.{Config, effective_oci_secrets, build_resources}
use pacto_operator.Dashboard.Resources.{
  dashboard_name, managed_secret_name, labels, selector_labels, dashboard_port, health_path,
}

-- `WithLabels`
abbrev pub with_labels : List (String × String) → ObjectMeta → ObjectMeta
with_labels entries m = record m { labels = entries }

-- `WithOwnerReferences`, where an owner is set.
unfoldable pub with_owner : Option OwnerReference → ObjectMeta → ObjectMeta
with_owner none m = m
with_owner (some owner) m = record m { owner_references = m.owner_references ++ (owner ∷ []) }

-- `serviceAccountAC`
unfoldable pub service_account_ac : Config → Object
service_account_ac cfg =
    service_account
      (with_owner cfg.owner_ref (with_labels labels (named dashboard_name cfg.namespace)))

abbrev pub rule_of : List String → List String → List String → PolicyRule
rule_of groups resources verbs = record {
  api_groups = groups;
  resources = resources;
  verbs = verbs;
}

-- `clusterRoleAC`
unfoldable pub cluster_role_ac : Object
cluster_role_ac = cluster_role (with_labels labels (named dashboard_name "")) (
    rule_of ("pacto.trianalab.io" ∷ []) ("pactos" ∷ "pactorevisions" ∷ [])
      ("get" ∷ "list" ∷ "watch" ∷ [])
    ∷ rule_of ("" ∷ []) ("services" ∷ []) ("get" ∷ "list" ∷ "watch" ∷ [])
    ∷ [])

-- `clusterRoleBindingAC`
unfoldable pub cluster_role_binding_ac : Config → Object
cluster_role_binding_ac cfg =
    cluster_role_binding (with_labels labels (named dashboard_name ""))
      (record { kind = "ServiceAccount"; name = dashboard_name; namespace = cfg.namespace } ∷ [])
      (record {
        api_group = "rbac.authorization.k8s.io";
        kind = "ClusterRole";
        name = dashboard_name;
      })

abbrev pub env_var : String → String → EnvVar
env_var name value = record { name = name; value = value }

-- The variables of `deploymentAC`.
unfoldable pub deployment_env : Config → List EnvVar
deployment_env cfg =
    let env = env_var "PACTO_DASHBOARD_PORT" "3000" ∷ env_var "PACTO_NO_UPDATE_CHECK" "1" ∷ [] in
    if cfg.watch_namespace != ""
    then env ++ (env_var "PACTO_WATCH_NAMESPACE" cfg.watch_namespace ∷ [])
    else env

-- The mounts and volumes of `deploymentAC`, which are extended in one test.
unfoldable pub deployment_volumes : Config → List VolumeMount × List Volume
deployment_volumes cfg =
    let mounts : List VolumeMount =
      record { name = "cache"; mount_path = "/home/pacto/.cache/pacto"; read_only = false } ∷ [] in
    let volumes : List Volume = record { name = "cache"; source = empty_dir } ∷ [] in
    if is_empty (effective_oci_secrets cfg) then (mounts, volumes) else (
      mounts
          ++ (record { name = "oci-creds"; mount_path = "/home/pacto/.docker"; read_only = true }
              ∷ []),
      volumes
          ++ (record {
            name = "oci-creds";
            source =
                secret_volume managed_secret_name
                  (record { key = ".dockerconfigjson"; path = "config.json" } ∷ []) (some true);
          }
              ∷ []),
    )

abbrev pub http_get : String → ℕ → HttpProbe → HttpProbe
http_get path port p = record p { path = path; port = port }

-- The container of `deploymentAC`.
unfoldable pub deployment_container : Config → ResourceRequirements → Container
deployment_container cfg res =
    let (mounts, volumes) = deployment_volumes cfg in
    record blank_container {
      name = "dashboard";
      image = cfg.image;
      ports = record { name = "http"; container_port = dashboard_port; protocol = "TCP" } ∷ [];
      env = deployment_env cfg;
      volume_mounts = mounts;
      liveness_probe = some (record (http_get health_path dashboard_port blank_probe) {
        initial_delay_seconds = 10;
        period_seconds = 30;
      });
      readiness_probe = some (record (http_get health_path dashboard_port blank_probe) {
        initial_delay_seconds = 5;
        period_seconds = 10;
      });
      security_context = some (record {
        read_only_root_filesystem = some true;
        allow_privilege_escalation = some false;
        drop_capabilities = "ALL" ∷ [];
      });
      resources = record { requests = res.requests; limits = res.limits };
    }

-- The specification of `deploymentAC`.
unfoldable pub deployment_spec : Config → ResourceRequirements → DeploymentSpec
deployment_spec cfg res =
    let (mounts, volumes) = deployment_volumes cfg in
    record blank_deployment {
      replicas = some 1;
      match_labels = selector_labels;
      template_labels = labels;
      template_spec = record blank_pod {
        service_account_name = dashboard_name;
        security_context = some (record {
          run_as_non_root = some true;
          run_as_user = some 65532;
          seccomp_profile = some "RuntimeDefault";
        });
        containers = deployment_container cfg res ∷ [];
        volumes = volumes;
        termination_grace_period_seconds = some 10;
      };
    }

-- `deploymentAC`, with `none` where a quantity panics.
unfoldable pub deployment_ac : (String → Attempt Quantity) → Config → Option Object
deployment_ac parse_quantity cfg = elim (build_resources parse_quantity cfg.resources) [
  | none ↦ none
  | some res ↦ some (
      deployment
        (with_owner cfg.owner_ref (with_labels labels (named dashboard_name cfg.namespace)))
        (deployment_spec cfg res))
]

-- `serviceAC`
unfoldable pub service_ac : Config → Object
service_ac cfg =
    service (with_owner cfg.owner_ref (with_labels labels (named dashboard_name cfg.namespace)))
      (record {
        selector = selector_labels;
        ports =
            record {
              name = "http";
              port = dashboard_port;
              target_port = dashboard_port;
              protocol = "TCP";
            }
            ∷ [];
      })

-- `ociSecretAC`
unfoldable pub oci_secret_ac : Config → String → Object
oci_secret_ac cfg content =
    secret (with_owner cfg.owner_ref (with_labels labels (named managed_secret_name cfg.namespace)))
      "kubernetes.io/dockerconfigjson" ((".dockerconfigjson", content) ∷ [])
