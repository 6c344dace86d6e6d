-- ===== src/Api/Spec.antt =====
-- The desired state of a Pacto, api/v1alpha1/pacto_types.go, and the methods on it.
use pacto_operator.Prelude.{String, Bool, true, false, ◌&&◌, Option, none, some, List, ℤ}
use pacto_operator.Prelude.{◌==◌, ◌!=◌, string_eq, if◌then◌else◌}

pub record ContractRef : Type 0 where
  pub oci : String
  pub inline : String
  pub pull_secret_ref : String

pub record WorkloadRef : Type 0 where
  pub name : String
  pub kind : String

pub record TargetRef : Type 0 where
  pub service_name : String
  pub workload_ref : Option WorkloadRef

pub record ConfigurationOverride : Type 0 where
  pub name : String
  pub values : List (String × String)

pub record ContractOverrides : Type 0 where
  pub configurations : List ConfigurationOverride

pub record PactoSpec : Type 0 where
  pub contract_ref : ContractRef
  pub target : TargetRef
  pub overrides : Option ContractOverrides
  pub check_interval_seconds : ℤ

abbrev pub is_nil {ℓ} : {A : Type ℓ} → Option A → Bool
is_nil none = true
is_nil (some _) = false

-- `IsReference`
unfoldable pub is_reference : PactoSpec → Bool
is_reference s = s.target.service_name == "" && is_nil s.target.workload_ref

-- `ResolvedWorkload`: the name and the kind of the workload.
unfoldable pub resolved_workload : PactoSpec → String × String
resolved_workload s = elim s.target.workload_ref [
  | some w ↦ (w.name, if w.kind == "" then "Deployment" else w.kind)
  | none ↦ if s.target.service_name != "" then (s.target.service_name, "Deployment") else ("", "")
]
