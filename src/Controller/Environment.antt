-- ===== src/Controller/Environment.antt =====
-- What `Reconcile` of internal/controller/pacto_controller.go calls outside of the controller, and the
-- small computations of its body.
use pacto_operator.Prelude.{String, Bool, Option, none, some, List, [], ◌∷◌}
use pacto_operator.Prelude.{ℕ, ◌==◌, string_eq, if◌then◌else◌, has_char}
use pacto_operator.Prelude.Maps.{lookup}
use pacto_operator.Message.{Message, Attempt, sprintf, str, done}
use pacto_operator.Contract.{Contract, Readiness}
use pacto_operator.Api.Conditions.{ResolutionPolicy}
use pacto_operator.Api.Status.{ConfigurationInfo, ObservedRuntime}
use pacto_operator.Api.Pacto.{Pacto}
use pacto_operator.Observer.{Client, RuntimeSnapshot}
use pacto_operator.Prober.{Answer}
use pacto_operator.Controller.Conditions.{ConditionLists}
use pacto_operator.Controller.Readiness.{Evaluation}
use pacto_operator.Controller.Revisions.{LoadResult, RevisionClient}
use pacto_operator.Controller.Populate.{Library}
use pacto_operator.Controller.Finish.{LibraryResult}

-- The libraries, the cluster, the loader and the clock. `S` is the state of the PactoRevisions, and
-- `A` the credentials.
pub record Environment (S A : Type 0) : Type 1 where
  pub now : ℕ
  pub lists : ConditionLists
  pub library : Library
  pub evaluate : Option Readiness → ℕ → Option Evaluation
  pub validate_contract : Contract → String → Option (String → Option String) → LibraryResult
  pub has_explicit_tag : String → Bool
  pub sha256 : String → String
  pub resolve_oci_auth : String → String → String → Attempt A
  pub load : Option A → String → String → Attempt LoadResult
  pub list_tags : Option A → String → Attempt (List String)
  pub revisions : RevisionClient S
  pub cluster : String → Client
  pub http_get : Message → Answer
  pub update_status : Pacto → Option Message

-- `resolutionPolicy`
unfoldable pub resolution_policy : (String → Bool) → String → ResolutionPolicy
resolution_policy has_explicit_tag oci =
    if oci == ""
    then ResolutionPolicy.unset
    else if has_explicit_tag oci
    then if has_char 64 oci then ResolutionPolicy.pinned_digest else ResolutionPolicy.pinned_tag
    else ResolutionPolicy.latest

-- The overridden keys of each configuration in the status.
unfoldable pub mark_overridden :
    List (String × List String) → List ConfigurationInfo → List ConfigurationInfo
mark_overridden keys [] = []
mark_overridden keys (c ∷ cs) =
    elim (lookup c.name keys) [ none ↦ c | some ks ↦ record c { overridden_keys = ks } ]
    ∷ mark_overridden keys cs

-- `status.observedRuntime`
unfoldable pub observed_runtime_of :
    RuntimeSnapshot → Option ObservedRuntime → Option ObservedRuntime
observed_runtime_of snap old =
    if snap.workload_exists
    then some (record {
      workload_kind = snap.workload_kind;
      deployment_strategy = snap.deployment_strategy;
      pod_management_policy = snap.pod_management_policy;
      termination_grace_period_seconds = snap.termination_grace_period;
      container_images = snap.container_images;
      has_pvc = snap.has_pvc;
      has_empty_dir = snap.has_empty_dir;
      health_probe_initial_delay_seconds = snap.health_probe_initial_delay;
    })
    else old

-- A message about a contract by its name and version.
abbrev pub about : String → Contract → Message
about format c = sprintf format (str c.service.name (str c.service.version done))
