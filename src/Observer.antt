-- ===== src/Observer.antt =====
-- internal/observer/runtime.go: what the operator reads of the target Service and workload. The
-- client of the cluster is a parameter, with the objects cut down to the fields that are read.
pub mod Facts
pub mod Answers
mod Deployments
mod Tests
use pacto_operator.Prelude.{String, Bool, true, false, ◌||◌, not, Option, none, some, List, []}
use pacto_operator.Prelude.{◌∷◌, ◌++◌, map, ℤ, ◌==◌, ◌!=◌, string_eq, is_empty, if◌then◌else◌}
use pacto_operator.Message.{Message, sprintf, str, msg, done}

-- `client.Get`: the object, an error that `IgnoreNotFound` drops, or any other error.
pub data Fetched {ℓ} (A : Type ℓ) : Type ℓ where
  fetched : A → Fetched A
  absent : Fetched A
  failed : Message → Fetched A

pub record Container : Type 0 where
  pub image : String
  -- the initial delay of each probe that is set
  pub readiness_probe : Option ℤ
  pub liveness_probe : Option ℤ

pub record Volume : Type 0 where
  pub persistent_volume_claim : Bool
  pub empty_dir : Bool

pub record PodSpec : Type 0 where
  pub termination_grace_period_seconds : Option ℤ
  pub containers : List Container
  pub volumes : List Volume

pub record Deployment : Type 0 where
  pub strategy : String
  pub template : PodSpec

pub record StatefulSet : Type 0 where
  pub pod_management_policy : String
  pub volume_claim_templates : List String
  pub template : PodSpec

-- The reads of one namespace, by name. A Service is the list of its ports; a ReplicaSet, a Job and
-- a CronJob are their pod templates.
pub record Client : Type 0 where
  pub get_service : String → Fetched (List ℤ)
  pub get_deployment : String → Fetched Deployment
  pub get_stateful_set : String → Fetched StatefulSet
  pub get_replica_set : String → Fetched PodSpec
  pub get_job : String → Fetched PodSpec
  pub get_cron_job : String → Fetched PodSpec

pub record RuntimeSnapshot : Type 0 where
  pub service_exists : Bool
  pub workload_exists : Bool
  pub workload_kind : String
  pub service_ports : List ℤ
  pub deployment_strategy : String
  pub pod_management_policy : String
  pub termination_grace_period : Option ℤ
  pub container_images : List String
  pub has_pvc : Bool
  pub has_empty_dir : Bool
  pub health_probe_initial_delay : Option ℤ

pub data Observed {ℓ} (A : Type ℓ) : Type ℓ where
  ok : A → Observed A
  err : Message → Observed A

-- The loop over the volumes.
unfoldable pub scan_volumes : List Volume → RuntimeSnapshot → RuntimeSnapshot
scan_volumes [] snap = snap
scan_volumes (v ∷ vs) snap = scan_volumes vs (record snap {
  has_pvc = if v.persistent_volume_claim then true else snap.has_pvc;
  has_empty_dir = if v.empty_dir then true else snap.has_empty_dir;
})

-- The delay of the first container's readiness probe, or else of its liveness probe.
unfoldable pub probe_delay : List Container → Option ℤ → Option ℤ
probe_delay [] old = old
probe_delay (c ∷ _) old = elim c.readiness_probe [
  | some d ↦ some d
  | none ↦ elim c.liveness_probe [ some d ↦ some d | none ↦ old ]
]

unfoldable pub extract_pod_template_info : PodSpec → RuntimeSnapshot → RuntimeSnapshot
extract_pod_template_info pod snap = scan_volumes pod.volumes (record snap {
  termination_grace_period = pod.termination_grace_period_seconds;
  container_images = snap.container_images ++ map (λ c. c.image) pod.containers;
  health_probe_initial_delay = probe_delay pod.containers snap.health_probe_initial_delay;
})

-- The shape that the five `observe…` methods share: an absent object leaves the snapshot as it is.
abbrev pub observe_object {ℓ} :
    {A : Type ℓ}
    → String
    → String
    → Fetched A
    → (A → RuntimeSnapshot → RuntimeSnapshot)
    → RuntimeSnapshot
    → Observed RuntimeSnapshot
observe_object format name (fetched a) read snap =
    ok (read a (record snap { workload_exists = true }))
observe_object format name absent read snap = ok snap
observe_object format name (failed e) read snap = err (sprintf format (str name (msg e done)))

unfoldable pub read_deployment : Deployment → RuntimeSnapshot → RuntimeSnapshot
read_deployment dep snap = extract_pod_template_info dep.template (record snap {
  deployment_strategy = if dep.strategy != "" then dep.strategy else snap.deployment_strategy;
})

unfoldable pub read_stateful_set : StatefulSet → RuntimeSnapshot → RuntimeSnapshot
read_stateful_set sts snap = extract_pod_template_info sts.template (record snap {
  pod_management_policy = sts.pod_management_policy;
  has_pvc = if not (is_empty sts.volume_claim_templates) then true else snap.has_pvc;
})

module _ (client : Client) (name : String) where
  unfoldable pub observe_deployment : RuntimeSnapshot → Observed RuntimeSnapshot
  observe_deployment =
      observe_object "failed to get Deployment %s: %w" name (client.get_deployment name)
        read_deployment

  unfoldable pub observe_stateful_set : RuntimeSnapshot → Observed RuntimeSnapshot
  observe_stateful_set =
      observe_object "failed to get StatefulSet %s: %w" name (client.get_stateful_set name)
        read_stateful_set

  unfoldable pub observe_replica_set : RuntimeSnapshot → Observed RuntimeSnapshot
  observe_replica_set =
      observe_object "failed to get ReplicaSet %s: %w" name (client.get_replica_set name)
        extract_pod_template_info

  unfoldable pub observe_job : RuntimeSnapshot → Observed RuntimeSnapshot
  observe_job =
      observe_object "failed to get Job %s: %w" name (client.get_job name) extract_pod_template_info

  unfoldable pub observe_cron_job : RuntimeSnapshot → Observed RuntimeSnapshot
  observe_cron_job =
      observe_object "failed to get CronJob %s: %w" name (client.get_cron_job name)
        extract_pod_template_info

  unfoldable pub observe_workload : String → RuntimeSnapshot → Observed RuntimeSnapshot
  observe_workload kind snap =
      if kind == "Deployment"
      then observe_deployment snap
      else if kind == "StatefulSet"
      then observe_stateful_set snap
      else if kind == "ReplicaSet"
      then observe_replica_set snap
      else if kind == "Job"
      then observe_job snap
      else if kind == "CronJob"
      then observe_cron_job snap
      else observe_deployment snap

abbrev pub blank : String → RuntimeSnapshot
blank kind = record {
  service_exists = false;
  workload_exists = false;
  workload_kind = kind;
  service_ports = [];
  deployment_strategy = "";
  pod_management_policy = "";
  termination_grace_period = none;
  container_images = [];
  has_pvc = false;
  has_empty_dir = false;
  health_probe_initial_delay = none;
}

-- The part of `Observe` that reads the Service.
unfoldable pub observe_service : Client → String → RuntimeSnapshot → Observed RuntimeSnapshot
observe_service client service_name snap =
    if service_name != ""
    then elim (client.get_service service_name) [
      | fetched ports ↦
          ok (record snap { service_exists = true; service_ports = snap.service_ports ++ ports })
      | absent ↦ ok snap
      | failed e ↦ err (sprintf "failed to get service %s: %w" (str service_name (msg e done)))
    ]
    else ok snap

-- An error ends the read.
infixl 5 ◌>>=◌
abbrev pub ◌>>=◌ {ℓ κ} : {A : Type ℓ} {B : Type κ} → Observed A → (A → Observed B) → Observed B
ok a >>= f = f a
err e >>= f = err e

-- The part of `Observe` that reads the workload, if there is one.
unfoldable pub observe_target :
    Client → String → String → RuntimeSnapshot → Observed RuntimeSnapshot
observe_target client name kind snap =
    if name != "" then observe_workload client name kind snap else ok snap

-- `Observe`
unfoldable pub observe : Client → String → String → String → Observed RuntimeSnapshot
observe client service_name workload_name workload_kind = do
  snap ← observe_service client service_name (blank workload_kind)
  observe_target client workload_name workload_kind snap
