-- ===== src/Dashboard/Tests.antt =====
-- A dashboard in a cluster whose objects are a map: it is deployed, kept up and removed.
mod MapCluster
use MapCluster.{Store, stored, found, set, store_cluster, store_cluster-IsLawful}
use pacto_operator.Prelude.{
  String, Bool, true, false, Option, none, some, List, [], ◌∷◌, ◌≡◌, ◌≢◌, ◌↔◌, refl, ap, ◌∙◌, arith,
  inl, inr, ◌==◌, string_eq, if◌then◌else◌, last_index, drop,
}
use pacto_operator.Prelude.TextLaws.{chars}
use pacto_operator.Prelude.Maps.{lookup}
use pacto_operator.Message.{Attempt, success, failure, text}
use pacto_operator.Observer.{Fetched, fetched, absent}
use pacto_operator.Credentials.{Codec}
use mathlib.Core.Option as Options
use pacto_operator.Dashboard.Objects.{
  Object, Quantity, ResourceRequirements, deployment, named, blank_deployment,
}
use pacto_operator.Dashboard.Config.{
  Config, char_at, scan_tag, effective_oci_secrets, has_latest_tag, must_parse, default_resources,
  override_quantity, build_resources, validate_quantities, validate_resources, validate_config,
}
use pacto_operator.Dashboard.Config.Quantities.{
  KnowsDefaults, Agree, build_resources-validate_resources,
}
use pacto_operator.Dashboard.Config.ImageTag.{has_latest_tag_lem}
use pacto_operator.Dashboard.Resources.{
  labels, build_service_account, build_cluster_role, build_cluster_role_binding, build_deployment,
  build_service,
}
use pacto_operator.Dashboard.Apply.{
  with_owner, service_account_ac, cluster_role_ac, cluster_role_binding_ac, deployment_ac,
  service_ac,
}
use pacto_operator.Dashboard.Apply.Equivalence.{owned, apply-build}
use pacto_operator.Dashboard.Cluster.{
  Key, key_of, Key-discrete, key_eq, Cluster, IsLawful, IsGone, deployment_kind, service_kind,
  deleted, foreground,
}
use pacto_operator.Dashboard.Action.{ended_well, then_step, unless_panic}
use pacto_operator.Dashboard.Deploy.{
  ensure_namespace, reconcile_service_account, reconcile_cluster_role,
  reconcile_cluster_role_binding, reconcile_oci_credentials, delete_managed_secret,
  reconcile_deployment, reconcile_service, deploy,
}
use pacto_operator.Dashboard.Cleanup.{
  is_managed, cleanup, cleanup_targets, clean_object, clean_objects,
}
use pacto_operator.Dashboard.Deploy.Keys.{service_key}
use pacto_operator.Dashboard.Cleanup.Rounds.{IsTarget}
use pacto_operator.Dashboard.Cleanup.Exact.{Cleans, cleanup_exact}
use pacto_operator.Dashboard.Laws.{IsOurs}
use pacto_operator.Dashboard.Reconcile.{requeue, reconcile_dashboard, run_once, run_ticks, start}
use pacto_operator.Dashboard.Reconcile.Frame.{managed_targets, start-Keeps}
use pacto_operator.Dashboard.Reconcile.Lifecycle.{Deployed, run_once-IsDeployed, run_once-run_once}
use pacto_operator.Dashboard.Reconcile.Ticks.{start-IsDeployed}
use pacto_operator.Dashboard.Reconcile.Panics.{Returns, start-Returns}

parse : String → Attempt Quantity
parse s = if s == "" then failure (text "empty") else success (record { canonical_text = s })

parse_knows : KnowsDefaults parse
unfolding parse string_eq
parse_knows = record { fifty_m = (_, refl); mi_128 = (_, refl); mi_512 = (_, refl) }

abbrev codec : Codec
codec = record {
  decode_config = λ raw. success [];
  encode_config = λ auths. success "{}";
  decode_base64 = λ s. success s;
  encode_base64 = λ s. s;
}

abbrev cfg : Config
cfg = record {
  enabled = true;
  image = "ghcr.io/trianalab/pacto:2.1.0";
  namespace = "pacto";
  watch_namespace = "";
  oci_secret = "";
  oci_secrets = [];
  resources = record {
    cpu_request = "";
    cpu_limit = "200m";
    memory_request = "";
    memory_limit = "";
  };
  owner_ref = none;
}

abbrev clean : Store
clean k = none

-- A Deployment of the dashboard's name that someone else made.
abbrev foreign_key : Key
foreign_key = record { kind = deployment_kind; namespace = "pacto"; name = "pacto-dashboard" }

abbrev foreign : Store
foreign =
    set foreign_key (some (deployment (named "pacto-dashboard" "pacto") blank_deployment)) clean

build_resources-validate_resources_example :
    Agree parse cfg.resources
      (validate_resources parse cfg.resources)
      (build_resources parse cfg.resources)
build_resources-validate_resources_example =
    build_resources-validate_resources parse parse_knows cfg.resources

has_latest_tag_lem_example : has_latest_tag "ghcr.io:443/app" ≡ true
unfolding last_index drop string_eq
has_latest_tag_lem_example = has_latest_tag_lem "ghcr.io:443/app"

apply-build_example :
    (service_account_ac cfg ≡ owned none (build_service_account cfg))
    × (cluster_role_ac ≡ owned none build_cluster_role)
    × (cluster_role_binding_ac cfg ≡ owned none (build_cluster_role_binding cfg))
    × (deployment_ac parse cfg ≡ Options.map (owned none) (build_deployment parse cfg))
    × (service_ac cfg ≡ owned none (build_service cfg))
apply-build_example = apply-build parse cfg

cleanup_exact_example :
    Cleans store_cluster store_cluster-IsLawful cfg foreign_key foreign
      (cleanup store_cluster cfg foreign)
cleanup_exact_example = cleanup_exact store_cluster store_cluster-IsLawful cfg foreign_key foreign

once_deployed : (run_once store_cluster codec parse cfg clean).0 ≡ ended_well
unfolding reconcile_dashboard requeue deploy then_step ensure_namespace reconcile_service_account
    reconcile_cluster_role reconcile_cluster_role_binding reconcile_oci_credentials
    delete_managed_secret reconcile_deployment reconcile_service deployment_ac build_resources
    default_resources must_parse override_quantity parse string_eq effective_oci_secrets found
    stored set key_eq Key-discrete service_account_ac cluster_role_ac cluster_role_binding_ac
    service_ac with_owner
once_deployed = refl

abbrev first_run : Store
first_run = (run_once store_cluster codec parse cfg clean).1

run_once-IsDeployed_example :
    Deployed store_cluster store_cluster-IsLawful codec parse cfg first_run
run_once-IsDeployed_example =
    run_once-IsDeployed store_cluster store_cluster-IsLawful codec parse cfg refl clean
      once_deployed

cleaned_up :
    (run_once store_cluster codec parse (record cfg { enabled = false }) first_run).0 ≡ ended_well
unfolding reconcile_dashboard requeue deploy then_step ensure_namespace reconcile_service_account
    reconcile_cluster_role reconcile_cluster_role_binding reconcile_oci_credentials
    delete_managed_secret reconcile_deployment reconcile_service deployment_ac build_resources
    default_resources must_parse override_quantity parse string_eq effective_oci_secrets found
    stored set key_eq Key-discrete service_account_ac cluster_role_ac cluster_role_binding_ac
    service_ac with_owner cleanup cleanup_targets clean_objects clean_object is_managed lookup
    labels
cleaned_up = refl

run_once-run_once_example : IsGone (
    store_cluster-IsLawful.object_at
      (service_key cfg)
      (run_once store_cluster codec parse (record cfg { enabled = false }) first_run).1)
unfolding cleanup_targets
run_once-run_once_example =
    run_once-run_once store_cluster store_cluster-IsLawful codec parse cfg refl clean once_deployed
      cleaned_up (service_key cfg) (inl refl)

-- Someone deletes the Service between two runs.
abbrev accident : Store → Store
accident = set (service_key cfg) none

started : (start store_cluster codec parse cfg [] clean).0 ≡ ended_well
unfolding start run_ticks reconcile_dashboard requeue deploy then_step ensure_namespace
    reconcile_service_account reconcile_cluster_role reconcile_cluster_role_binding
    reconcile_oci_credentials delete_managed_secret reconcile_deployment reconcile_service
    deployment_ac build_resources default_resources must_parse override_quantity parse string_eq
    effective_oci_secrets found stored set key_eq Key-discrete service_account_ac cluster_role_ac
    cluster_role_binding_ac service_ac with_owner
started = refl

ticked :
    (run_once store_cluster codec parse cfg
      (accident (start store_cluster codec parse cfg [] clean).1)).0
    ≡ ended_well
unfolding start run_ticks reconcile_dashboard requeue deploy then_step ensure_namespace
    reconcile_service_account reconcile_cluster_role reconcile_cluster_role_binding
    reconcile_oci_credentials delete_managed_secret reconcile_deployment reconcile_service
    deployment_ac build_resources default_resources must_parse override_quantity parse string_eq
    effective_oci_secrets found stored set key_eq Key-discrete service_account_ac cluster_role_ac
    cluster_role_binding_ac service_ac with_owner
ticked = refl

start-IsDeployed_example :
    Deployed store_cluster store_cluster-IsLawful codec parse cfg
      (start store_cluster codec parse cfg (accident ∷ []) clean).1
start-IsDeployed_example =
    start-IsDeployed store_cluster store_cluster-IsLawful codec parse cfg refl [] accident clean
      started ticked

start-Returns_example : Returns (start store_cluster codec parse cfg (accident ∷ []) foreign).0
unfolding validate_config validate_resources validate_quantities has_latest_tag scan_tag char_at
    parse string_eq drop chars
start-Returns_example =
    start-Returns store_cluster codec cfg parse parse_knows refl (accident ∷ []) foreign

-- A Service of another name.
abbrev other_key : Key
other_key = record { kind = service_kind; namespace = "pacto"; name = "web" }

is_web : Key → Bool
is_web k = k.name == "web"

other_is_outside : IsTarget other_key (managed_targets cfg) → ⊥
unfolding is_web string_eq cleanup_targets
other_is_outside (inl e) = absurd (ground (arith, ap is_web e))
other_is_outside (inr (inl e)) = absurd (ground (arith, ap is_web e))
other_is_outside (inr (inr (inl e))) = absurd (ground (arith, ap is_web e))
other_is_outside (inr (inr (inr (inl e)))) = absurd (ground (arith, ap is_web e))
other_is_outside (inr (inr (inr (inr (inl e))))) = absurd (ground (arith, ap is_web e))
other_is_outside (inr (inr (inr (inr (inr (inl e)))))) = absurd (ground (arith, ap is_web e))
other_is_outside (inr (inr (inr (inr (inr (inr (inl e))))))) = absurd (ground (arith, ap is_web e))
other_is_outside (inr (inr (inr (inr (inr (inr (inr nothing))))))) = absurd nothing

accident_elsewhere :
    (s : Store)
    → store_cluster-IsLawful.object_at other_key (accident s)
      ≡ store_cluster-IsLawful.object_at other_key s
unfolding cleanup_targets
accident_elsewhere s =
    store_cluster-IsLawful.object_at-delete_ne foreground (service_key cfg) s other_key
      (λ e. other_is_outside (inr (inl e)))

start-Keeps_example :
    store_cluster-IsLawful.object_at other_key
      (start store_cluster codec parse cfg (accident ∷ []) foreign).1
    ≡ store_cluster-IsLawful.object_at other_key foreign
start-Keeps_example =
    start-Keeps store_cluster store_cluster-IsLawful codec parse cfg other_key other_is_outside
      (accident ∷ []) (accident_elsewhere, tt) foreign
