-- ===== src/Controller/Examples.antt =====
-- A Pacto and a contract that the tests share.
use pacto_operator.Prelude.{String, none, some, List, [], ◌∷◌, pos}
use pacto_operator.Prelude.{string_eq, int_eq}
use pacto_operator.Contract.{Contract, Interface, Runtime}
use pacto_operator.Api.Conditions.{condition_type_eq, ContractStatus, ResolutionPolicy}
use pacto_operator.Api.Status.{PactoStatus}
use pacto_operator.Api.Pacto.{Pacto}
use pacto_operator.Controller.Revisions.{LoadResult}

abbrev pub empty_status : PactoStatus
empty_status = record {
  contract_status = ContractStatus.unset;
  resolution_policy = ResolutionPolicy.unset;
  summary = none;
  contract_version = "";
  contract = none;
  validation = none;
  resources = none;
  ports = none;
  endpoints = none;
  interfaces = [];
  configurations = [];
  dependencies = [];
  policies = [];
  runtime = none;
  observed_runtime = none;
  scaling = none;
  readiness = none;
  metadata = [];
  conditions = [];
  current_revision = "";
  last_reconciled_at = none;
  observed_generation = pos 0;
}

abbrev pub web_pacto : Pacto
web_pacto = record {
  namespace = "default";
  name = "web";
  generation = pos 3;
  spec = record {
    contract_ref = record { oci = "registry.local/web"; inline = ""; pull_secret_ref = "" };
    target = record { service_name = "web"; workload_ref = none };
    overrides = none;
    check_interval_seconds = pos 60;
  };
  status = empty_status;
}

abbrev pub web_runtime : Runtime
web_runtime = record {
  workload = "service";
  state = record {
    type = "stateless";
    persistence = record { scope = "local"; durability = "ephemeral" };
    data_criticality = "low";
  };
  lifecycle = none;
  health = some (record { interface = "http"; path = "healthz"; initial_delay_seconds = none });
  metrics = none;
}

abbrev pub web_interfaces : List Interface
web_interfaces =
    record {
      name = "http";
      type = "http";
      port = some (pos 80);
      visibility = "public";
      contract = "";
    }
    ∷ []

abbrev pub web_contract : Contract
web_contract = record {
  service = record {
    name = "web";
    version = "1.0.0";
    owner = record { team = ""; dri = ""; contacts = [] };
    image = none;
  };
  interfaces = web_interfaces;
  configurations = [];
  dependencies = [];
  policies = [];
  runtime = some web_runtime;
  scaling = none;
  metadata = [];
  readiness = none;
}

abbrev pub web_loaded : String → LoadResult
web_loaded digest = record {
  contract = web_contract;
  raw_yaml = "service: web";
  bundle_fs = none;
  resolved_ref = "registry.local/web:1.0.0";
  resolved_digest = digest;
}
