-- ===== src/Observer/Deployments.antt =====
-- What `Observe` of internal/observer/runtime.go reads of a Deployment.
use pacto_operator.Prelude.{String, true, ◌||◌, none}
use pacto_operator.Prelude.{◌++◌, map, ◌≡◌, ◌≢◌, ◌⊎◌, arith, string_eq}
use pacto_operator.Prelude.{◌!=◌, if◌then◌else◌, ap}
use pacto_operator.Observer.{
  fetched, Deployment, Client, RuntimeSnapshot, ok, probe_delay, read_deployment,
  observe_deployment, observe_workload, observe_service, observe, observe_target, observe_object,
  blank,
}
use pacto_operator.Observer.Facts.{any_claim, any_empty_dir, extract_lem, observe_service_facts}

-- A kind of which the operator reads no Deployment.
abbrev pub IsOther : String → Type 0
IsOther kind = (kind ≡ "StatefulSet") ⊎ (kind ≡ "ReplicaSet") ⊎ (kind ≡ "Job") ⊎ (kind ≡ "CronJob")

observe_workload-deployment :
    (client : Client) (name kind : String) (snap : RuntimeSnapshot)
    → ¬ IsOther kind
    → observe_workload client name kind snap ≡ observe_deployment client name snap
unfolding observe_workload
observe_workload-deployment client name kind snap other = ground arith

observe_deployment-found :
    (client : Client) (name : String) (s : RuntimeSnapshot) (dep : Deployment)
    → client.get_deployment name ≡ fetched dep
    → observe_deployment client name s
      ≡ ok (record s {
        workload_exists = true;
        deployment_strategy = if dep.strategy != "" then dep.strategy else s.deployment_strategy;
        termination_grace_period = dep.template.termination_grace_period_seconds;
        container_images = s.container_images ++ map (λ c. c.image) dep.template.containers;
        has_pvc = any_claim dep.template.volumes || s.has_pvc;
        has_empty_dir = any_empty_dir dep.template.volumes || s.has_empty_dir;
        health_probe_initial_delay =
            probe_delay dep.template.containers s.health_probe_initial_delay;
      })
unfolding observe_deployment read_deployment
observe_deployment-found client name s dep found =
    rw (found, observe_object) (ap ok (extract_lem dep.template _))

-- For a target whose kind is none of StatefulSet, ReplicaSet, Job and CronJob (an unknown kind
-- included), whose Deployment is found after the Service was read as `s`: the snapshot is `s` with
-- the strategy, grace period, images and probe delay of the Deployment, a claim if some volume has
-- one, and an empty directory if some volume is one.
pub observe_found_deployment :
    (client : Client) (service name kind : String) (s : RuntimeSnapshot) (dep : Deployment)
    → observe_service client service (blank kind) ≡ ok s
    → ¬ IsOther kind
    → name ≢ ""
    → client.get_deployment name ≡ fetched dep
    → observe client service name kind
      ≡ ok (record s {
        workload_exists = true;
        deployment_strategy = dep.strategy;
        termination_grace_period = dep.template.termination_grace_period_seconds;
        container_images = map (λ c. c.image) dep.template.containers;
        has_pvc = any_claim dep.template.volumes;
        has_empty_dir = any_empty_dir dep.template.volumes;
        health_probe_initial_delay = probe_delay dep.template.containers none;
      })
unfolding observe observe_target
observe_found_deployment client service name kind s dep read other named found =
    let (_, _, b) = observe_service_facts client service kind s read in
    ground (
      arith,
      observe_workload-deployment client name kind s other,
      observe_deployment-found client name s dep found,
    )
