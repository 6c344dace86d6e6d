-- ===== src/Observer/Tests.antt =====
-- Reads of a small cluster, and the theorems about snapshots at it.
use pacto_operator.Prelude.{true, false, none, some, [], ◌∷◌, ◌≡◌, refl, string_eq}
use pacto_operator.Prelude.{pos}
use pacto_operator.Observer.{
  fetched, absent, failed, Deployment, Client, RuntimeSnapshot, ok, blank, observe, observe_service,
  observe_target, observe_workload, observe_deployment, observe_job, read_deployment,
  extract_pod_template_info, scan_volumes, probe_delay,
}
use pacto_operator.Message.{text}
use pacto_operator.Observer.Answers.{Answered, observe-Answered}

abbrev web : Deployment
web = record {
  strategy = "RollingUpdate";
  template = record {
    termination_grace_period_seconds = some (pos 30);
    containers =
        record { image = "web:1"; readiness_probe = none; liveness_probe = some (pos 5) }
        ∷ record { image = "log:2"; readiness_probe = some (pos 9); liveness_probe = none }
        ∷ [];
    volumes =
        record { persistent_volume_claim = false; empty_dir = true }
        ∷ record { persistent_volume_claim = true; empty_dir = false }
        ∷ [];
  };
}

abbrev cluster : Client
cluster = record {
  get_service = λ name. fetched (pos 80 ∷ pos 443 ∷ []);
  get_deployment = λ name. fetched web;
  get_stateful_set = λ name. absent;
  get_replica_set = λ name. absent;
  get_job = λ name. absent;
  get_cron_job = λ name. absent;
}

abbrev web_snapshot : RuntimeSnapshot
web_snapshot = record {
  service_exists = true;
  workload_exists = true;
  workload_kind = "Deployment";
  service_ports = pos 80 ∷ pos 443 ∷ [];
  deployment_strategy = "RollingUpdate";
  pod_management_policy = "";
  termination_grace_period = some (pos 30);
  container_images = "web:1" ∷ "log:2" ∷ [];
  has_pvc = true;
  has_empty_dir = true;
  health_probe_initial_delay = some (pos 5);
}

observe_web : observe cluster "web" "web" "Deployment" ≡ ok web_snapshot
unfolding observe observe_service observe_target observe_workload observe_deployment read_deployment
    extract_pod_template_info scan_volumes probe_delay string_eq
observe_web = refl

abbrev service_only : RuntimeSnapshot
service_only = record (blank "Job") { service_exists = true; service_ports = pos 80 ∷ pos 443 ∷ [] }

observe_absent_job : observe cluster "web" "sync" "Job" ≡ ok service_only
unfolding observe observe_service observe_target observe_workload observe_job string_eq
observe_absent_job = refl

-- A cluster whose Jobs cannot be read.
abbrev no_jobs : Client
no_jobs = record cluster { get_job = λ name. failed (text "forbidden") }

observe-Answered_example : Answered no_jobs "web" "sync" "Job" (observe no_jobs "web" "sync" "Job")
observe-Answered_example = observe-Answered no_jobs "web" "sync" "Job"
