-- ===== src/Controller/Revisions/Ensured.antt =====
-- A revision that was ensured is there, and is not created again.
use pacto_operator.Prelude.{String, Option, none, some, [], ◌≡◌, refl}
use pacto_operator.Prelude.{ℕ, arith, if_intro, string_eq}
use pacto_operator.Message.{Message, success}
use pacto_operator.Api.Revision.{PactoRevision}
use pacto_operator.Api.Pacto.{Pacto}
use pacto_operator.Observer.{Fetched, fetched, absent, failed}
use pacto_operator.Controller.Revisions.{
  LoadResult, RevisionClient, Created, created, already_exists, not_created, ensure_revision,
  create_revision, revision_name, new_revision, record_creation, create_owned, ensure_read,
  backfill,
}

-- A client that reads what was written before: an object that was created, or that was there when a
-- creation was refused, is found, and an update of a status loses no object.
pub record ReadsWrites {S : Type 0} (client : RevisionClient S) : Type 0 where
  pub create-created :
      (s : S) (r : PactoRevision)
      → (client.create s r).1 ≡ created
      → (q : PactoRevision) × (client.get (client.create s r).0 r.name ≡ fetched q)
  pub create-already_exists :
      (s : S) (r : PactoRevision)
      → (client.create s r).1 ≡ already_exists
      → (q : PactoRevision) × (client.get (client.create s r).0 r.name ≡ fetched q)
  pub update_status-get :
      (s : S) (r : PactoRevision) (name : String) (q : PactoRevision)
      → client.get s name ≡ fetched q
      → (q' : PactoRevision) × (client.get (client.update_status s r).0 name ≡ fetched q')

module _ {S : Type 0} (client : RevisionClient S) (reads : ReadsWrites client)
    (sha256 : String → String) (now : ℕ) where
  abbrev Found : S → String → Type 0
  Found s name = (q : PactoRevision) × (client.get s name ≡ fetched q)

  record_creation_lem :
      (s : S) (revision : PactoRevision) (lr : LoadResult) (result : Created) (name : String)
      → (client.create s revision).1 ≡ result
      → (record_creation client sha256 now (client.create s revision).0 revision lr result).2
        ≡ success name
      → Found
          (record_creation client sha256 now (client.create s revision).0 revision lr result).0
          revision.name
  unfolding record_creation
  record_creation_lem s revision lr already_exists name e h =
      reads.create-already_exists s revision e
  record_creation_lem s revision lr (not_created m) name e h = absurd (ground arith)
  record_creation_lem s revision lr created name e h =
      let (q, at_q) = reads.create-created s revision e in
      reads.update_status-get (client.create s revision).0 _ revision.name q at_q

  backfill_lem :
      (s : S) (q : PactoRevision) (hash name : String)
      → client.get s name ≡ fetched q
      → Found (backfill client sha256 now s q hash) name
  unfolding backfill
  backfill_lem s q hash name h =
      if_intro (λ t. Found t name) _ (reads.update_status-get s _ name q h) (q, h)

  create_owned_lem :
      (s : S) (p : Pacto) (lr : LoadResult) (owner : Option Message) (name : String)
      → (create_owned client sha256 now s p lr owner).2 ≡ success name
      → Found (create_owned client sha256 now s p lr owner).0 (revision_name sha256 p lr)
  unfolding create_owned create_revision new_revision
  create_owned_lem s p lr (some e) name h = absurd (ground arith)
  create_owned_lem s p lr none name h =
      record_creation_lem s (new_revision sha256 p lr) lr
        (client.create s (new_revision sha256 p lr)).1 name refl h

  ensure_read_lem :
      (s : S) (p : Pacto) (lr : LoadResult) (answer : Fetched PactoRevision) (name : String)
      → client.get s (revision_name sha256 p lr) ≡ answer
      → (ensure_read client sha256 now s p lr answer).2 ≡ success name
      → Found (ensure_read client sha256 now s p lr answer).0 (revision_name sha256 p lr)
  unfolding ensure_read
  ensure_read_lem s p lr (fetched q) name e h =
      backfill_lem s q (sha256 lr.raw_yaml) (revision_name sha256 p lr) e
  ensure_read_lem s p lr (failed m) name e h = absurd (ground arith)
  ensure_read_lem s p lr absent name e h =
      create_owned_lem s p lr (client.set_owner p (new_revision sha256 p lr)) name h

  ensured_again :
      (t : S) (p : Pacto) (lr : LoadResult) (q : PactoRevision)
      → client.get t (revision_name sha256 p lr) ≡ fetched q
      → ((ensure_revision client sha256 now t p lr).1 ≡ [])
        × ((ensure_revision client sha256 now t p lr).2 ≡ success (revision_name sha256 p lr))
  unfolding ensure_read ensure_revision revision_name
  ensured_again t p lr q h = rw (ensure_revision, h) (refl, refl)

  -- For a client that reads what was written: where a revision is ensured, to ensure it once more
  -- succeeds with its name and reports nothing, so no revision of the contract is created twice.
  pub ensure_revision-ensure_revision :
      (s : S) (p : Pacto) (lr : LoadResult) (name : String)
      → (ensure_revision client sha256 now s p lr).2 ≡ success name
      → let t = (ensure_revision client sha256 now s p lr).0 in
        ((ensure_revision client sha256 now t p lr).1 ≡ [])
        × ((ensure_revision client sha256 now t p lr).2 ≡ success (revision_name sha256 p lr))
  unfolding ensure_revision
  ensure_revision-ensure_revision s p lr name h =
      let (q, at_q) =
        ensure_read_lem s p lr (client.get s (revision_name sha256 p lr)) name refl h in
      ensured_again (ensure_revision client sha256 now s p lr).0 p lr q at_q
