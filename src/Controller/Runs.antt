-- ===== src/Controller/Runs.antt =====
-- A run of Reconcile, overrides and events at a concrete environment.
use pacto_operator.Prelude.{String, true, false, none, some, List, [], ◌∷◌, ◌≡◌, refl, ◌↔◌, pos}
use pacto_operator.Prelude.{Option, string_eq, All, arith}
use pacto_operator.Prelude.Maps.{lookup}
use pacto_operator.Message.{success, failure, text}
use pacto_operator.Contract.{Contract, ConfigurationSource, string_value}
use pacto_operator.Api.Spec.{is_reference, ConfigurationOverride, ContractOverrides}
use pacto_operator.Api.Revision.{PactoRevision}
use pacto_operator.Api.Pacto.{Pacto}
use pacto_operator.Observer.{Client, fetched, absent}
use pacto_operator.Prober.{response}
use pacto_operator.Controller.Lists.{lists, lists-IsLawful}
use pacto_operator.Controller.Revisions.{RevisionClient, created}
use pacto_operator.Controller.Populate.{Library}
use pacto_operator.Controller.Overrides.{
  has_configuration, override_configuration, values_of, apply_configuration_overrides,
}
use pacto_operator.Controller.Merge.{
  merged, IsEffective, lookup-override_configuration, apply_configuration_overrides_iff,
}
use pacto_operator.Controller.Environment.{Environment}
use pacto_operator.Controller.Reconcile.{resolve_auth, reconcile}
use pacto_operator.Controller.Refusal.{is_usable}
use pacto_operator.Controller.Refusal.Reported.{Judges, reconcile-Judges}
use pacto_operator.Controller.Reference.{elsewhere, reconcile_without_target}
use pacto_operator.Api.Conditions.{compliant}
use pacto_operator.Controller.StatusGauge.{Shows, reconcile-Shows}
use pacto_operator.Controller.Complete.{IsSound, reconcile-IsSound}
use pacto_operator.Controller.Handlers.{
  request_for, Any, Reads, map_object_to_pactos, map_object_to_pactos_iff,
}
use pacto_operator.Controller.Examples.{web_pacto, web_contract, web_loaded}

abbrev revisions : RevisionClient (List PactoRevision)
revisions = record {
  get = λ s name. absent;
  list = λ s pacto tag. some [];
  create = λ s r. (r ∷ s, created);
  update_status = λ s r. (s, none);
  set_owner = λ p r. none;
}

abbrev library : Library
library = record {
  owner_is_empty = λ o. true;
  owner_display = λ o. "";
  schema_values = λ m. [];
  schema_properties = λ data_read path. [];
  schema_meta = λ data_read path. ("", "");
}

-- A Service with the port 80, and a Deployment with nothing declared.
abbrev cluster : Client
cluster = record {
  get_service = λ name. fetched (pos 80 ∷ []);
  get_deployment = λ name. fetched (record {
    strategy = "RollingUpdate";
    template = record { termination_grace_period_seconds = none; containers = []; volumes = [] };
  });
  get_stateful_set = λ name. absent;
  get_replica_set = λ name. absent;
  get_job = λ name. absent;
  get_cron_job = λ name. absent;
}

abbrev pub environment : Environment (List PactoRevision) String
environment = record {
  now = 7;
  lists = lists;
  library = library;
  evaluate = λ decl now. none;
  validate_contract = λ c yaml fs. record { errors = []; warnings = [] };
  has_explicit_tag = λ ref. false;
  sha256 = λ yaml. "0123456789abcdef";
  resolve_oci_auth = λ namespace secret ref. success "token";
  load = λ auth ref inline. success (web_loaded "sha256:0123456789");
  list_tags = λ auth ref. success ("1.0.0" ∷ []);
  revisions = revisions;
  cluster = λ namespace. cluster;
  http_get = λ url. response 12 (pos 200) "fine";
  update_status = λ p. none;
}

reconcile-IsSound_example : IsSound 7 (reconcile environment [] (fetched web_pacto)).1
reconcile-IsSound_example = reconcile-IsSound environment [] web_pacto

abbrev db_override : ConfigurationOverride
db_override = record { name = "db"; values = ("host", "db.prod") ∷ [] }

abbrev db_configuration : ConfigurationSource
db_configuration = record {
  name = "db";
  schema = "";
  ref = "";
  values = some (("host", string_value "localhost") ∷ ("port", string_value "5432") ∷ []);
}

lookup-override_configuration_example :
    lookup "port" (values_of (override_configuration db_override db_configuration))
    ≡ merged (lookup "port" db_override.values) (lookup "port" (values_of db_configuration))
lookup-override_configuration_example =
    lookup-override_configuration db_override db_configuration "port" (refl, tt)

abbrev db_contract : Contract
db_contract = record web_contract { configurations = db_configuration ∷ [] }

abbrev db_overrides : ContractOverrides
db_overrides = record { configurations = db_override ∷ [] }

apply_configuration_overrides_iff_example :
    IsEffective db_contract (apply_configuration_overrides db_contract (some db_overrides))
    ↔ All
        (λ o. has_configuration o.name db_contract.configurations ≡ true)
        db_overrides.configurations
apply_configuration_overrides_iff_example =
    apply_configuration_overrides_iff db_contract db_overrides

abbrev one_pacto : String → Option (List Pacto)
one_pacto namespace = some (web_pacto ∷ [])

map_object_to_pactos_iff_example :
    Any (λ q. q ≡ request_for web_pacto) (map_object_to_pactos one_pacto "default" "web")
    ↔ Any (λ p. Reads "web" p × (request_for p ≡ request_for web_pacto)) (web_pacto ∷ [])
map_object_to_pactos_iff_example =
    map_object_to_pactos_iff one_pacto "default" "web" (web_pacto ∷ []) (request_for web_pacto) refl

abbrev reference_pacto : Pacto
reference_pacto = record web_pacto {
  spec = record (web_pacto.spec) { target = record { service_name = ""; workload_ref = none } };
}

-- The same run in a cluster without anything, and without an answering endpoint.
reconcile_without_target_example :
    reconcile
      (elsewhere environment
        (λ namespace. record cluster {
          get_service = λ name. absent;
          get_deployment = λ name. absent;
        })
        (λ url. response 1 (pos 500) ""))
      []
      (fetched reference_pacto)
    ≡ reconcile environment [] (fetched reference_pacto)
unfolding is_reference string_eq
reconcile_without_target_example =
    reconcile_without_target environment
      (λ namespace. record cluster {
        get_service = λ name. absent;
        get_deployment = λ name. absent;
      })
      (λ url. response 1 (pos 500) "") [] reference_pacto refl

-- The registry does not answer.
abbrev unreachable : Environment (List PactoRevision) String
unreachable = record environment { load = λ auth ref inline. failure (text "no such host") }

reconcile-Judges_example :
    Judges unreachable [] web_pacto
      (is_usable unreachable web_pacto)
      (reconcile unreachable [] (fetched web_pacto))
reconcile-Judges_example = reconcile-Judges unreachable lists-IsLawful (λ q. refl) [] web_pacto

-- The contract that cannot be loaded is refused, the one of the registry is not.
web_refused : (is_usable unreachable web_pacto ≡ false) × (is_usable environment web_pacto ≡ true)
unfolding resolve_auth string_eq apply_configuration_overrides
web_refused = (refl, refl)

-- The gauge was set for Compliant before the contract could not be loaded.
reconcile-Shows_example : Shows compliant (some 1) (reconcile unreachable [] (fetched web_pacto)).1
reconcile-Shows_example =
    reconcile-Shows compliant (some 1) (λ h. absurd (ground arith)) unreachable [] web_pacto
