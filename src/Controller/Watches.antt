-- ===== src/Controller/Watches.antt =====
-- What a reconciliation of internal/controller/pacto_controller.go reads of its namespace besides the
-- Pacto, and the watches of `SetupWithManager` that start one.
pub mod Complete
mod Tests
use pacto_operator.Prelude.{String, Option, List}
use pacto_operator.Message.{Message, Attempt, failure, sprintf, str, msg, done, text}
use pacto_operator.Api.Spec.{resolved_workload}
use pacto_operator.Api.Pacto.{Pacto}
use pacto_operator.Observer.{
  Fetched, fetched, absent, failed, Client, RuntimeSnapshot, Observed, observe,
}
use pacto_operator.Credentials.{AuthConfig, Secret, Codec, registry_from_ref, from_secret}
use pacto_operator.Controller.Handlers.{Request, map_object_to_pactos, map_secret_to_pactos}

-- The kinds that `SetupWithManager` watches, besides the operator's own resources.
pub data WatchedKind : Type 0 where
  watched_service watched_secret watched_deployment watched_stateful_set watched_replica_set
        watched_job watched_cron_job :
      WatchedKind

-- The handler of each watch, for an object by its namespace and name.
unfoldable pub enqueue :
    (String → Option (List Pacto)) → WatchedKind → String → String → List Request
enqueue list watched_service = map_object_to_pactos list
enqueue list watched_secret = map_secret_to_pactos list
enqueue list watched_deployment = map_object_to_pactos list
enqueue list watched_stateful_set = map_object_to_pactos list
enqueue list watched_replica_set = map_object_to_pactos list
enqueue list watched_job = map_object_to_pactos list
enqueue list watched_cron_job = map_object_to_pactos list

-- A namespace of the cluster: the objects that are observed, and the Secrets.
pub record Namespace : Type 0 where
  pub client : Client
  pub get_secret : String → Fetched Secret

-- `resolveOCIAuth`
unfoldable pub resolve_oci_auth :
    Codec → (String → Fetched Secret) → String → String → Attempt AuthConfig
resolve_oci_auth codec get_secret secret_name oci_ref = elim (get_secret secret_name) [
  | absent ↦
      failure (sprintf "secret %q not found: %w" (str secret_name (msg (text "not found") done)))
  | failed e ↦ failure (sprintf "secret %q not found: %w" (str secret_name (msg e done)))
  | fetched s ↦ from_secret codec s (registry_from_ref oci_ref)
]

-- What a reconciliation observes of the target.
unfoldable pub observe_pacto : Namespace → Pacto → Observed RuntimeSnapshot
observe_pacto n p =
    let (workload_name, workload_kind) = resolved_workload p.spec in
    observe n.client p.spec.target.service_name workload_name workload_kind

-- The credentials of the pull secret.
unfoldable pub pull_credentials : Codec → Namespace → Pacto → Attempt AuthConfig
pull_credentials codec n p =
    resolve_oci_auth codec n.get_secret p.spec.contract_ref.pull_secret_ref p.spec.contract_ref.oci
