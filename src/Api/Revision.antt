-- ===== src/Api/Revision.antt =====
-- A PactoRevision, api/v1alpha1/pactorevision_types.go: its name and labels, the spec and the status.
use pacto_operator.Prelude.{String, Bool, Option, ℕ}

pub record RevisionSource : Type 0 where
  pub oci : String
  pub digest : String
  pub inline : Bool

pub record PactoRevisionSpec : Type 0 where
  pub version : String
  pub source : RevisionSource
  pub pacto_ref : String
  pub service_name : String

pub record PactoRevisionStatus : Type 0 where
  pub resolved : Bool
  pub contract_hash : String
  -- nanoseconds since the epoch
  pub created_at : Option ℕ

pub record PactoRevision : Type 0 where
  pub name : String
  pub namespace : String
  pub pacto_label : String
  pub version_label : String
  pub spec : PactoRevisionSpec
  pub status : PactoRevisionStatus
