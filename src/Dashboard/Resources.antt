-- ===== src/Dashboard/Resources.antt =====
-- internal/dashboard/resources.go: the constants, and the objects as typed values of the API.
use pacto_operator.Prelude.{String, true, false, Option, none, some, List, [], ◌∷◌, ◌++◌}
use pacto_operator.Prelude.{ℕ, ◌!=◌, string_eq, if◌then◌else◌, is_empty, not}
use pacto_operator.Message.{Attempt}
use pacto_operator.Dashboard.Objects.{
  ObjectMeta, Quantity, ResourceRequirements, EnvVar, VolumeMount, Volume, empty_dir, secret_volume,
  Container, HttpProbe, DeploymentSpec, Object, service_account, cluster_role, cluster_role_binding,
  deployment, service,
}
use pacto_operator.Dashboard.Config.{Config, effective_oci_secrets, build_resources}

abbrev pub dashboard_name : String
dashboard_name = "pacto-dashboard"

abbrev pub managed_secret_name : String
managed_secret_name = "pacto-dashboard-oci-creds"

abbrev pub label_managed_by : String
label_managed_by = "app.kubernetes.io/managed-by"

abbrev pub label_component : String
label_component = "app.kubernetes.io/component"

abbrev pub label_name : String
label_name = "app.kubernetes.io/name"

abbrev pub managed_by_value : String
managed_by_value = "pacto-operator"

abbrev pub component_value : String
component_value = "dashboard"

abbrev pub dashboard_port : ℕ
dashboard_port = 3000

abbrev pub health_path : String
health_path = "/health"

-- `Labels`
unfoldable pub labels : List (String × String)
labels =
    (label_managed_by, managed_by_value)
    ∷ (label_component, component_value)
    ∷ (label_name, dashboard_name)
    ∷ []

-- `SelectorLabels`
unfoldable pub selector_labels : List (String × String)
selector_labels = (label_component, component_value) ∷ (label_name, dashboard_name) ∷ []

-- The metadata of an object of the dashboard.
abbrev pub labelled : String → String → ObjectMeta
labelled name namespace = record {
  name = name;
  namespace = namespace;
  labels = labels;
  owner_references = [];
  deleting = false;
}

abbrev pub read_verbs : List String
read_verbs = "get" ∷ "list" ∷ "watch" ∷ []

-- `BuildServiceAccount`
unfoldable pub build_service_account : Config → Object
build_service_account cfg = service_account (labelled dashboard_name cfg.namespace)

-- `BuildClusterRole`
unfoldable pub build_cluster_role : Object
build_cluster_role = cluster_role (labelled dashboard_name "") (
    record {
      api_groups = "pacto.trianalab.io" ∷ [];
      resources = "pactos" ∷ "pactorevisions" ∷ [];
      verbs = read_verbs;
    }
    ∷ record { api_groups = "" ∷ []; resources = "services" ∷ []; verbs = read_verbs }
    ∷ [])

-- `BuildClusterRoleBinding`
unfoldable pub build_cluster_role_binding : Config → Object
build_cluster_role_binding cfg =
    cluster_role_binding (labelled dashboard_name "")
      (record { kind = "ServiceAccount"; name = dashboard_name; namespace = cfg.namespace } ∷ [])
      (record {
        api_group = "rbac.authorization.k8s.io";
        kind = "ClusterRole";
        name = dashboard_name;
      })

-- The variables, mounts and volumes of `BuildDeployment`.
unfoldable pub build_env : Config → List EnvVar
build_env cfg =
    let env : List EnvVar =
      record { name = "PACTO_DASHBOARD_PORT"; value = "3000" }
      ∷ record { name = "PACTO_NO_UPDATE_CHECK"; value = "1" }
      ∷ [] in
    if cfg.watch_namespace != ""
    then env ++ (record { name = "PACTO_WATCH_NAMESPACE"; value = cfg.watch_namespace } ∷ [])
    else env

unfoldable pub build_volume_mounts : Config → List VolumeMount
build_volume_mounts cfg =
    let mounts : List VolumeMount =
      record { name = "cache"; mount_path = "/home/pacto/.cache/pacto"; read_only = false } ∷ [] in
    if not (is_empty (effective_oci_secrets cfg))
    then mounts
      ++ (record { name = "oci-creds"; mount_path = "/home/pacto/.docker"; read_only = true } ∷ [])
    else mounts

unfoldable pub build_volumes : Config → List Volume
build_volumes cfg =
    let volumes : List Volume = record { name = "cache"; source = empty_dir } ∷ [] in
    if not (is_empty (effective_oci_secrets cfg))
    then volumes
      ++ (record {
        name = "oci-creds";
        source =
            secret_volume managed_secret_name
              (record { key = ".dockerconfigjson"; path = "config.json" } ∷ []) (some true);
      }
          ∷ [])
    else volumes

-- A probe of `BuildDeployment`, by its delay and period.
abbrev pub build_probe : ℕ → ℕ → HttpProbe
build_probe delay period = record {
  path = health_path;
  port = dashboard_port;
  initial_delay_seconds = delay;
  period_seconds = period;
}

-- The container of `BuildDeployment`.
unfoldable pub build_container : Config → ResourceRequirements → Container
build_container cfg res = record {
  name = "dashboard";
  image = cfg.image;
  ports = record { name = "http"; container_port = dashboard_port; protocol = "TCP" } ∷ [];
  env = build_env cfg;
  volume_mounts = build_volume_mounts cfg;
  liveness_probe = some (build_probe 10 30);
  readiness_probe = some (build_probe 5 10);
  security_context = some (record {
    read_only_root_filesystem = some true;
    allow_privilege_escalation = some false;
    drop_capabilities = "ALL" ∷ [];
  });
  resources = res;
}

-- The specification of `BuildDeployment`.
unfoldable pub build_deployment_spec : Config → ResourceRequirements → DeploymentSpec
build_deployment_spec cfg res = record {
  replicas = some 1;
  match_labels = selector_labels;
  template_labels = labels;
  template_spec = record {
    service_account_name = dashboard_name;
    security_context = some (record {
      run_as_non_root = some true;
      run_as_user = some 65532;
      seccomp_profile = some "RuntimeDefault";
    });
    containers = build_container cfg res ∷ [];
    volumes = build_volumes cfg;
    termination_grace_period_seconds = some 10;
  };
}

-- `BuildDeployment`, with `none` where a quantity panics.
unfoldable pub build_deployment : (String → Attempt Quantity) → Config → Option Object
build_deployment parse_quantity cfg = elim (build_resources parse_quantity cfg.resources) [
  | none ↦ none
  | some res ↦
      some (deployment (labelled dashboard_name cfg.namespace) (build_deployment_spec cfg res))
]

-- `BuildService`
unfoldable pub build_service : Config → Object
build_service cfg = service (labelled dashboard_name cfg.namespace) (record {
  selector = selector_labels;
  ports =
      record {
        name = "http";
        port = dashboard_port;
        target_port = dashboard_port;
        protocol = "TCP";
      }
      ∷ [];
})
