-- ===== src/Controller/Watches/Tests.antt =====
-- A Deployment that no Pacto targets appears in a namespace.
use pacto_operator.Prelude.{
  String, none, some, Option, List, [], ◌∷◌, ◌≡◌, ◌≢◌, refl, arith, inl, inr, ◌==◌, string_eq,
  if◌then◌else◌, pos,
}
use pacto_operator.Message.{success}
use pacto_operator.Api.Spec.{resolved_workload}
use pacto_operator.Api.Pacto.{Pacto}
use pacto_operator.Observer.{Fetched, fetched, absent, Deployment}
use pacto_operator.Credentials.{Codec}
use pacto_operator.Controller.Examples.{web_pacto}
use pacto_operator.Controller.Handlers.{Any, request_for, map_object_to_pactos, object_requests}
use pacto_operator.Controller.Watches.{
  watched_deployment, enqueue, Namespace, observe_pacto, pull_credentials,
}
use pacto_operator.Controller.Watches.Complete.{SameBut, observe_pacto-missed}

abbrev rolling : Deployment
rolling = record {
  strategy = "RollingUpdate";
  template = record { termination_grace_period_seconds = none; containers = []; volumes = [] };
}

-- Deployments, of which the one named `batch` is as given.
deployments : Fetched Deployment → String → Fetched Deployment
deployments batch name = if name == "batch" then batch else fetched rolling

deployments_same :
    (x y : Fetched Deployment) (name : String)
    → name ≢ "batch"
    → deployments x name ≡ deployments y name
unfolding deployments
deployments_same x y name n = ground arith

abbrev namespace_with : Fetched Deployment → Namespace
namespace_with batch = record {
  client = record {
    get_service = λ name. fetched (pos 80 ∷ []);
    get_deployment = deployments batch;
    get_stateful_set = λ name. absent;
    get_replica_set = λ name. absent;
    get_job = λ name. absent;
    get_cron_job = λ name. absent;
  };
  get_secret = λ name. absent;
}

appeared :
    SameBut watched_deployment "batch" (namespace_with absent) (namespace_with (fetched rolling))
appeared = record {
  services = λ n other. refl;
  deployments = λ n other. elim other [
    | inl k ↦ absurd (k refl)
    | inr m ↦ deployments_same absent (fetched rolling) n m
  ];
  stateful_sets = λ n other. refl;
  replica_sets = λ n other. refl;
  jobs = λ n other. refl;
  cron_jobs = λ n other. refl;
  secrets = λ n other. refl;
}

abbrev codec : Codec
codec = record {
  decode_config = λ raw. success [];
  encode_config = λ auths. success "{}";
  decode_base64 = λ s. success s;
  encode_base64 = λ s. s;
}

abbrev list : String → Option (List Pacto)
list namespace = some (web_pacto ∷ [])

missed :
    Any (λ q. q ≡ request_for web_pacto) (enqueue list watched_deployment "default" "batch") → ⊥
unfolding enqueue map_object_to_pactos object_requests resolved_workload string_eq
missed h = h

observe_pacto-missed_example :
    (observe_pacto (namespace_with absent) web_pacto
      ≡ observe_pacto (namespace_with (fetched rolling)) web_pacto)
    × (pull_credentials codec (namespace_with absent) web_pacto
        ≡ pull_credentials codec (namespace_with (fetched rolling)) web_pacto)
observe_pacto-missed_example =
    observe_pacto-missed list "default" (web_pacto ∷ []) refl web_pacto (inl refl) codec
      watched_deployment "batch" (namespace_with absent) (namespace_with (fetched rolling)) appeared
      missed
