-- ===== src/Command.antt =====
-- cmd/main.go: from the flags and the environment to the manager that is started. The manager of
-- controller-runtime and the reader of the operator's Deployment are parameters; log lines are left out.
pub mod Secrets
pub mod Started
mod Tests
use pacto_operator.Prelude.{String, Bool, true, false, ◌&&◌, Option, none, some, List, [], ◌∷◌}
use pacto_operator.Prelude.{ℕ, ◌==◌, ◌!=◌, string_eq, if◌then◌else◌, not}
use pacto_operator.Message.{Message, Attempt, success, failure}
use pacto_operator.Dashboard.Objects.{OwnerReference, Quantity}
use pacto_operator.Dashboard.Config.{Config, ResourcesConfig, validate_config}
use pacto_operator.Command.Secrets.{parse_oci_secrets}

-- The flags, in the order in which they are declared.
pub record Flags : Type 0 where
  pub metrics_addr : String
  pub probe_addr : String
  pub enable_leader_election : Bool
  pub secure_metrics : Bool
  pub webhook_cert_path : String
  pub webhook_cert_name : String
  pub webhook_cert_key : String
  pub metrics_cert_path : String
  pub metrics_cert_name : String
  pub metrics_cert_key : String
  pub enable_http2 : Bool
  pub enable_dashboard : Bool
  pub watch_namespace : String
  pub dashboard_oci_secret : String
  pub dashboard_oci_secrets : String
  pub dashboard_cpu_request : String
  pub dashboard_cpu_limit : String
  pub dashboard_memory_request : String
  pub dashboard_memory_limit : String
  pub show_version : Bool

-- The values of the flags that are not given.
unfoldable pub default_flags : Flags
default_flags = record {
  metrics_addr = ":8080";
  probe_addr = ":8081";
  enable_leader_election = false;
  secure_metrics = false;
  webhook_cert_path = "";
  webhook_cert_name = "tls.crt";
  webhook_cert_key = "tls.key";
  metrics_cert_path = "";
  metrics_cert_name = "tls.crt";
  metrics_cert_key = "tls.key";
  enable_http2 = false;
  enable_dashboard = false;
  watch_namespace = "";
  dashboard_oci_secret = "";
  dashboard_oci_secrets = "";
  dashboard_cpu_request = "";
  dashboard_cpu_limit = "";
  dashboard_memory_request = "";
  dashboard_memory_limit = "";
  show_version = false;
}

-- The options of a server's certificate: empty where the server makes its own.
pub record ServerOptions : Type 0 where
  pub only_http1 : Bool
  pub cert_dir : String
  pub cert_name : String
  pub key_name : String

-- `metricsServerOptions`
pub record MetricsOptions : Type 0 where
  pub bind_address : String
  pub secure_serving : Bool
  pub server : ServerOptions
  -- whether the endpoint asks for authentication and authorization
  pub filtered : Bool

-- `mgrOpts`
pub record ManagerOptions : Type 0 where
  pub metrics : MetricsOptions
  pub webhook : ServerOptions
  pub health_probe_bind_address : String
  pub leader_election : Bool
  pub leader_election_id : String
  -- the namespaces of the cache; none for all
  pub default_namespaces : List String

-- The options of a server whose certificate is at a path, which may be empty.
unfoldable pub server_options : Bool → String → String → String → ServerOptions
server_options only_http1 path name key =
    if path != ""
    then record { only_http1 = only_http1; cert_dir = path; cert_name = name; key_name = key }
    else record { only_http1 = only_http1; cert_dir = ""; cert_name = ""; key_name = "" }

-- `mgrOpts` from the flags.
unfoldable pub manager_options : Flags → ManagerOptions
manager_options f = record {
  metrics = record {
    bind_address = f.metrics_addr;
    secure_serving = f.secure_metrics;
    server =
        server_options (not f.enable_http2) f.metrics_cert_path f.metrics_cert_name
          f.metrics_cert_key;
    filtered = f.secure_metrics;
  };
  webhook =
      server_options (not f.enable_http2) f.webhook_cert_path f.webhook_cert_name
        f.webhook_cert_key;
  health_probe_bind_address = f.probe_addr;
  leader_election = f.enable_leader_election;
  leader_election_id = "a4917283.pacto.io";
  default_namespaces = if f.watch_namespace != "" then f.watch_namespace ∷ [] else [];
}

-- The name and the UID of a Deployment.
pub record DeploymentIdentity : Type 0 where
  pub name : String
  pub uid : String

-- What `main` reads and calls outside of the repository; `none` is the nil error.
pub record Surroundings : Type 0 where
  pub pod_namespace : String
  pub operator_deployment_name : String
  pub dashboard_image : String
  pub parse_quantity : String → Attempt Quantity
  pub get_deployment : String → String → Attempt DeploymentIdentity
  pub new_manager : ManagerOptions → Option Message
  pub setup_controller : Option Message
  pub add_dashboard : Config → Option Message
  pub add_healthz : Option Message
  pub add_readyz : Option Message
  pub start_manager : Option Message

-- `ownerRef`: a Deployment that cannot be read is logged, and there is no owner.
unfoldable pub owner_reference : Surroundings → Option OwnerReference
owner_reference env =
    if env.operator_deployment_name != ""
    then (elim (env.get_deployment env.pod_namespace env.operator_deployment_name) [
      | failure e ↦ none
      | success d ↦
          some (record { api_version = "apps/v1"; kind = "Deployment"; name = d.name; uid = d.uid })
    ])
    else none

-- `dashCfg`
unfoldable pub dashboard_config : Surroundings → Flags → Config
dashboard_config env f = record {
  enabled = f.enable_dashboard;
  image = env.dashboard_image;
  namespace = env.pod_namespace;
  watch_namespace = f.watch_namespace;
  oci_secret = f.dashboard_oci_secret;
  oci_secrets = parse_oci_secrets f.dashboard_oci_secrets;
  owner_ref = owner_reference env;
  resources = record {
    cpu_request = f.dashboard_cpu_request;
    cpu_limit = f.dashboard_cpu_limit;
    memory_request = f.dashboard_memory_request;
    memory_limit = f.dashboard_memory_limit;
  };
}

-- How the program ends: after it has printed the version, with the code 1 and what was logged, or after
-- the manager with its options and the dashboard's configuration has run.
pub data ProgramEnd : Type 0 where
  printed_version : ProgramEnd
  exited : String → ProgramEnd
  served : ManagerOptions → Config → ProgramEnd

-- `if err != nil { setupLog.Error(err, what); os.Exit(1) }`, and then the rest.
unfoldable pub exit_on : Option Message → String → ProgramEnd → ProgramEnd
exit_on none what rest = rest
exit_on (some e) what rest = exited what

-- The part of `main` from the manager's start on.
unfoldable pub run_manager : Surroundings → ManagerOptions → Config → ProgramEnd
run_manager env options cfg = exit_on (env.add_dashboard cfg) "Failed to add dashboard reconciler" (
    exit_on env.add_healthz "Failed to set up health check" (
      exit_on env.add_readyz "Failed to set up ready check"
        (exit_on env.start_manager "Failed to run manager" (served options cfg))))

-- The part of `main` for the dashboard.
unfoldable pub setup_dashboard : Surroundings → Flags → ProgramEnd
setup_dashboard env f =
    if env.pod_namespace == ""
    then exited "POD_NAMESPACE environment variable must be set (use the downward API)"
    else if f.enable_dashboard && env.dashboard_image == ""
    then exited
        "Dashboard enabled but no dashboard image was set at build time. This binary was not built with the required -ldflags for dashboard support."
    else exit_on (validate_config env.parse_quantity (dashboard_config env f))
        "Invalid dashboard configuration"
        (run_manager env (manager_options f) (dashboard_config env f))

-- `main`
unfoldable pub main : Surroundings → Flags → ProgramEnd
main env f =
    if f.show_version
    then printed_version
    else exit_on (env.new_manager (manager_options f)) "Failed to start manager"
        (exit_on env.setup_controller "Failed to create controller" (setup_dashboard env f))
