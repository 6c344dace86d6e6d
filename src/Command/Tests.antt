-- ===== src/Command/Tests.antt =====
-- A start of the operator with the dashboard, and with two Secrets on the command line.
use pacto_operator.Prelude.{
  String, true, none, [], ◌∷◌, ◌≡◌, ◌≢◌, refl, string_eq, if◌then◌else◌, ◌==◌, drop,
  trim_space_left, trim_space_right, has_char, ap, arith, is_nil_text,
}
use pacto_operator.Prelude.TextLaws.{chars}
use pacto_operator.Message.{Attempt, success, failure, text}
use pacto_operator.Credentials.{Codec}
use pacto_operator.Dashboard.Objects.{Quantity}
use pacto_operator.Dashboard.Config.{
  validate_config, validate_resources, validate_quantities, has_latest_tag, scan_tag, char_at,
}
use pacto_operator.Dashboard.Config.Quantities.{KnowsDefaults}
use pacto_operator.Dashboard.Cluster.{Cluster, delete_absent}
use pacto_operator.Dashboard.Reconcile.{start}
use pacto_operator.Dashboard.Reconcile.Panics.{Returns}
use pacto_operator.Observer.{absent}
use pacto_operator.Command.{
  Flags, default_flags, Surroundings, manager_options, dashboard_config, served, exit_on,
  run_manager, setup_dashboard, main,
}
use pacto_operator.Command.Secrets.{cut, trimmed_names, parse_oci_secrets}
use pacto_operator.Command.Secrets.Names.{IsName, join_names, parse_oci_secrets-join_names}
use pacto_operator.Command.Started.{main-served}

parse : String → Attempt Quantity
parse s = if s == "" then failure (text "empty") else success (record { canonical_text = s })

parse_knows : KnowsDefaults parse
unfolding parse string_eq
parse_knows = record { fifty_m = (_, refl); mi_128 = (_, refl); mi_512 = (_, refl) }

abbrev env : Surroundings
env = record {
  pod_namespace = "pacto";
  operator_deployment_name = "";
  dashboard_image = "ghcr.io/trianalab/pacto:2.1.0";
  parse_quantity = parse;
  get_deployment = λ namespace name. failure (text "not found");
  new_manager = λ options. none;
  setup_controller = none;
  add_dashboard = λ cfg. none;
  add_healthz = none;
  add_readyz = none;
  start_manager = none;
}

abbrev flags : Flags
flags = record default_flags { enable_dashboard = true; dashboard_cpu_limit = "200m" }

main_runs : main env flags ≡ served (manager_options flags) (dashboard_config env flags)
unfolding main default_flags exit_on setup_dashboard run_manager validate_config validate_resources
    validate_quantities has_latest_tag scan_tag char_at parse string_eq drop chars dashboard_config
main_runs = refl

-- A cluster that holds nothing and takes every object.
abbrev empty_cluster : Cluster (Unit {0})
empty_cluster = record {
  get = λ k s. absent;
  create = λ o s. (none, s);
  apply = λ o s. (none, s);
  delete = λ p k s. (delete_absent, s);
}

abbrev codec : Codec
codec = record {
  decode_config = λ raw. success [];
  encode_config = λ auths. success "{}";
  decode_base64 = λ s. success s;
  encode_base64 = λ s. s;
}

main-served_example :
    (manager_options flags ≡ manager_options flags)
    × (dashboard_config env flags ≡ dashboard_config env flags)
    × ((dashboard_config env flags).namespace ≢ "")
    × Returns (start empty_cluster codec parse (dashboard_config env flags) [] tt).0
main-served_example =
    main-served env flags (manager_options flags) (dashboard_config env flags) parse_knows main_runs
      empty_cluster codec [] tt

ghcr-IsName : IsName "ghcr"
unfolding trim_space_left trim_space_right has_char
ghcr-IsName = record {
  nonempty = λ e. absurd (ground (arith, ap is_nil_text e));
  trimmed = refl;
  no_comma = refl;
}

quay-IsName : IsName "quay"
unfolding trim_space_left trim_space_right has_char
quay-IsName = record {
  nonempty = λ e. absurd (ground (arith, ap is_nil_text e));
  trimmed = refl;
  no_comma = refl;
}

parse_oci_secrets-join_names_example :
    parse_oci_secrets (join_names ("ghcr" ∷ "quay" ∷ [])) ≡ "ghcr" ∷ "quay" ∷ []
parse_oci_secrets-join_names_example =
    parse_oci_secrets-join_names ("ghcr" ∷ "quay" ∷ []) (ghcr-IsName, (quay-IsName, tt))

spaces_are_cut : parse_oci_secrets " ghcr, quay " ≡ "ghcr" ∷ "quay" ∷ []
unfolding parse_oci_secrets trimmed_names cut string_eq trim_space_left trim_space_right
spaces_are_cut = refl
