-- ===== src/Api/Pacto.antt =====
-- A Pacto resource, api/v1alpha1/pacto_types.go: the metadata that the controller reads, the spec
-- and the status.
use pacto_operator.Prelude.{String, ℤ}
use pacto_operator.Api.Spec.{PactoSpec}
use pacto_operator.Api.Status.{PactoStatus}

pub record Pacto : Type 0 where
  pub namespace : String
  pub name : String
  pub generation : ℤ
  pub spec : PactoSpec
  pub status : PactoStatus
