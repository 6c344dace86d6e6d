-- ===== src/Controller/Revisions.antt =====
-- The revisions of a Pacto, internal/controller/pacto_controller.go: `ensureRevision` and
-- `syncAllRevisions`. The client of the cluster, the owner references of controller-runtime, the
-- loader and SHA-256 are parameters.
pub mod Names
pub mod Sync
pub mod Panics
pub mod Ensured
mod Tests
use pacto_operator.Prelude.{
  String, ◌<>◌, Bool, true, false, ◌||◌, Option, none, some, List, [], ◌∷◌, ◌++◌,
}
use pacto_operator.Prelude.{ℕ, ◌==◌, ◌!=◌, string_eq, if◌then◌else◌, take, leb, replace_char}
use pacto_operator.Prelude.TextLaws.{chars}
use pacto_operator.Message.{Message, Attempt, success, failure, sprintf, str, msg, done, text}
use pacto_operator.Contract.{Contract}
use pacto_operator.Api.Conditions.{event_revision_created, event_tag_overwritten}
use pacto_operator.Api.Spec.{is_nil}
use pacto_operator.Api.Revision.{
  RevisionSource, PactoRevisionSpec, PactoRevisionStatus, PactoRevision,
}
use pacto_operator.Api.Pacto.{Pacto}
use pacto_operator.Observer.{Fetched, fetched, absent, failed}
pub use pacto_operator.Loader.{LoadResult}
use pacto_operator.Controller.Effects.{Effect, event, normal, EventType}

pub data Created : Type 0 where
  created already_exists : Created
  not_created : Message → Created

-- The calls on the PactoRevisions of one namespace, with the state of the cluster passed on.
pub record RevisionClient (S : Type 0) : Type 1 where
  pub get : S → String → Fetched PactoRevision
  pub list : S → String → String → Option (List PactoRevision)
  pub create : S → PactoRevision → S × Created
  pub update_status : S → PactoRevision → S × Option Message
  pub set_owner : Pacto → PactoRevision → Option Message

-- `version`, and `revisionName`.
abbrev pub version_of : LoadResult → String
version_of lr = if lr.contract.service.version == "" then "unknown" else lr.contract.service.version

unfoldable pub revision_name : (String → String) → Pacto → LoadResult → String
revision_name sha256 p lr =
    take 253
      (p.name <> "-" <> replace_char 46 "-" (version_of lr) <> "-" <> take 7 (sha256 lr.raw_yaml))

-- `source`
unfoldable pub revision_source : Pacto → LoadResult → RevisionSource
revision_source p lr =
    if lr.resolved_ref != ""
    then record { oci = lr.resolved_ref; digest = lr.resolved_digest; inline = false }
    else if p.spec.contract_ref.oci != ""
    then record { oci = p.spec.contract_ref.oci; digest = lr.resolved_digest; inline = false }
    else record { oci = ""; digest = ""; inline = true }

-- `revision`, before its status is written.
unfoldable pub new_revision : (String → String) → Pacto → LoadResult → PactoRevision
new_revision sha256 p lr = record {
  name = revision_name sha256 p lr;
  namespace = p.namespace;
  pacto_label = p.name;
  version_label = version_of lr;
  spec = record {
    version = version_of lr;
    source = revision_source p lr;
    pacto_ref = p.name;
    service_name = lr.contract.service.name;
  };
  status = record { resolved = false; contract_hash = ""; created_at = none };
}

module _ {S : Type 0} (client : RevisionClient S) (sha256 : String → String) (now : ℕ) where
  -- The status of a revision that is there is completed when its hash or its time is missing.
  unfoldable pub backfill : S → PactoRevision → String → S
  backfill s existing hash =
      if existing.status.contract_hash == "" || is_nil existing.status.created_at
      then (client.update_status s (record existing {
        status = record {
          resolved = true;
          contract_hash = hash;
          created_at = elim existing.status.created_at [ none ↦ some now | some t ↦ some t ];
        };
      })).0
      else s

  -- What follows the creation of a revision.
  unfoldable pub record_creation :
      S → PactoRevision → LoadResult → Created → S × List Effect × Attempt String
  record_creation s revision lr already_exists = (s, [], success revision.name)
  record_creation s revision lr (not_created e) =
      (s, [], failure (sprintf "failed to create PactoRevision: %w" (msg e done)))
  record_creation s revision lr created = (
    (client.update_status s (record revision {
      status = record {
        resolved = true;
        contract_hash = sha256 lr.raw_yaml;
        created_at = some now;
      };
    })).0,
    event normal event_revision_created (
          sprintf "Created revision %s for contract v%s"
            (str revision.name (str (version_of lr) done)))
        ∷ [],
    success revision.name,
  )

  -- `ensureRevision` from the creation on.
  unfoldable pub create_revision : S → Pacto → LoadResult → S × List Effect × Attempt String
  create_revision s p lr =
      let (t, result) = client.create s (new_revision sha256 p lr) in
      record_creation t (new_revision sha256 p lr) lr result

  -- The creation, once the owner reference is set.
  unfoldable pub create_owned :
      S → Pacto → LoadResult → Option Message → S × List Effect × Attempt String
  create_owned s p lr (some e) =
      (s, [], failure (sprintf "failed to set owner reference: %w" (msg e done)))
  create_owned s p lr none = create_revision s p lr

  -- `ensureRevision` behind its first read.
  unfoldable pub ensure_read :
      S → Pacto → LoadResult → Fetched PactoRevision → S × List Effect × Attempt String
  ensure_read s p lr (fetched existing) =
      (backfill s existing (sha256 lr.raw_yaml), [], success (revision_name sha256 p lr))
  ensure_read s p lr (failed e) =
      (s, [], failure (sprintf "failed to check for existing revision: %w" (msg e done)))
  ensure_read s p lr absent = create_owned s p lr (client.set_owner p (new_revision sha256 p lr))

  -- `ensureRevision`: the name of the revision, or an error.
  unfoldable pub ensure_revision : S → Pacto → LoadResult → S × List Effect × Attempt String
  ensure_revision s p lr = ensure_read s p lr (client.get s (revision_name sha256 p lr))
