-- ===== src/Controller/Revisions/Tests.antt =====
-- Revisions at a concrete cluster, which keeps the revisions in a list.
use pacto_operator.Prelude.{String, none, some, List, [], ◌∷◌, ◌≡◌, refl, sym, ◌∙◌}
use pacto_operator.Prelude.{◌<◌, ◌≢◌, ◌==◌, string_eq, if◌then◌else◌, ◌⊎◌, ◌↔◌, arith}
use pacto_operator.Prelude.TextLaws.{chars}
use pacto_operator.Message.{Attempt, success}
use pacto_operator.Api.Revision.{PactoRevision}
use pacto_operator.Observer.{Fetched, fetched, absent, failed}
use pacto_operator.Controller.Revisions.{
  LoadResult, RevisionClient, Created, created, already_exists, not_created, ensure_revision,
  create_revision, revision_name, version_of, new_revision, record_creation, create_owned,
  ensure_read,
}
use pacto_operator.Prelude.{◌≤◌, ◌+◌, take}
use pacto_operator.Controller.Revisions.Names.{revision_name_bounds}
use pacto_operator.Controller.Revisions.Sync.{panicked, sync_tag}
use pacto_operator.Controller.Revisions.Panics.{sync_tag-panicked}
use pacto_operator.Controller.Revisions.Ensured.{ReadsWrites, ensure_revision-ensure_revision}
use pacto_operator.Controller.Examples.{web_pacto, web_loaded}

unfoldable find : List PactoRevision → String → Fetched PactoRevision
find [] name = absent
find (r ∷ rs) name = let rest = find rs name in if r.name == name then fetched r else rest

abbrev swap : PactoRevision → PactoRevision → PactoRevision
swap q r = if q.name == r.name then r else q

unfoldable replace : List PactoRevision → PactoRevision → List PactoRevision
replace [] r = []
replace (q ∷ qs) r = swap q r ∷ replace qs r

unfoldable labelled : List PactoRevision → String → List PactoRevision
labelled [] tag = []
labelled (r ∷ rs) tag =
    let rest = labelled rs tag in if r.version_label == tag then r ∷ rest else rest

creation : Fetched PactoRevision → List PactoRevision → PactoRevision → List PactoRevision × Created
creation absent rs r = (r ∷ rs, created)
creation (fetched q) rs r = (rs, already_exists)
creation (failed m) rs r = (rs, not_created m)

abbrev cluster : RevisionClient (List PactoRevision)
cluster = record {
  get = find;
  list = λ rs pacto tag. some (labelled rs tag);
  create = λ rs r. creation (find rs r.name) rs r;
  update_status = λ rs r. (replace rs r, none);
  set_owner = λ p r. none;
}

name-swap : (q r : PactoRevision) → (swap q r).name ≡ q.name
name-swap q r = ground arith

find_here :
    (r : PactoRevision) (rs : List PactoRevision) (name : String)
    → r.name ≡ name
    → find (r ∷ rs) name ≡ fetched r
unfolding find
find_here r rs name h = ground arith

find_later :
    (r : PactoRevision) (rs : List PactoRevision) (name : String)
    → r.name ≢ name
    → find (r ∷ rs) name ≡ find rs name
unfolding find
find_later r rs name h = ground arith

find-replace :
    (rs : List PactoRevision) (r : PactoRevision) (name : String) (q : PactoRevision)
    → find rs name ≡ fetched q
    → (q' : PactoRevision) × (find (replace rs r) name ≡ fetched q')
unfolding find replace
find-replace [] r name q h = absurd (ground arith)
find-replace (x ∷ xs) r name q h = elim (string_eq.dec x.name name) [
  | yes e ↦ (swap x r, find_here (swap x r) (replace xs r) name (name-swap x r ∙ e))
  | no n ↦
      let (q', at_q') = find-replace xs r name q (sym (find_later x xs name n) ∙ h) in
      (q', find_later (swap x r) (replace xs r) name (λ e. n (sym (name-swap x r) ∙ e)) ∙ at_q')
]

find-creation :
    (answer : Fetched PactoRevision) (rs : List PactoRevision) (r : PactoRevision)
    → find rs r.name ≡ answer
    → ((creation answer rs r).1 ≡ created
        → (q : PactoRevision) × (find (creation answer rs r).0 r.name ≡ fetched q))
      × ((creation answer rs r).1 ≡ already_exists
          → (q : PactoRevision) × (find (creation answer rs r).0 r.name ≡ fetched q))
unfolding find creation
find-creation absent rs r h = (λ e. (r, find_here r rs r.name refl), λ e. absurd (ground arith))
find-creation (fetched q) rs r h = (λ e. absurd (ground arith), λ e. (q, h))
find-creation (failed m) rs r h = (λ e. absurd (ground arith), λ e. absurd (ground arith))

cluster-ReadsWrites : ReadsWrites cluster
cluster-ReadsWrites = record {
  create-created = λ rs r. (find-creation (find rs r.name) rs r refl).0;
  create-already_exists = λ rs r. (find-creation (find rs r.name) rs r refl).1;
  update_status-get = find-replace;
}

abbrev sha256 : String → String
sha256 yaml = "0123456789abcdef"

ensure_revision-ensure_revision_example :
    let t = (ensure_revision cluster sha256 7 [] web_pacto (web_loaded "sha256:0123456789")).0 in
    ((ensure_revision cluster sha256 7 t web_pacto (web_loaded "sha256:0123456789")).1 ≡ [])
    × ((ensure_revision cluster sha256 7 t web_pacto (web_loaded "sha256:0123456789")).2
        ≡ success (revision_name sha256 web_pacto (web_loaded "sha256:0123456789")))
unfolding ensure_revision ensure_read create_owned create_revision record_creation new_revision find
    creation string_eq
ensure_revision-ensure_revision_example =
    ensure_revision-ensure_revision cluster cluster-ReadsWrites sha256 7 [] web_pacto
      (web_loaded "sha256:0123456789")
      (revision_name sha256 web_pacto (web_loaded "sha256:0123456789")) refl

-- The tag's revision has a digest, and the registry does not answer with one.
abbrev known : PactoRevision
known = new_revision sha256 web_pacto (web_loaded "sha256:0123456789")

abbrev unresolved : String → Attempt LoadResult
unresolved ref = success (web_loaded "")

sync_tag-panicked_example :
    ((sync_tag cluster sha256 7 unresolved (known ∷ []) web_pacto "registry.local/web" "1.0.0").2
      ≡ panicked)
    ↔ ((known.spec.source.digest ≢ "")
        × ((web_loaded "").resolved_digest ≢ known.spec.source.digest)
        × ((chars known.spec.source.digest < 12) ⊎ (chars "" < 12)))
unfolding labelled new_revision string_eq
sync_tag-panicked_example =
    sync_tag-panicked cluster sha256 7 unresolved (known ∷ []) web_pacto "registry.local/web"
      "1.0.0" known [] (web_loaded "") refl refl

revision_name_bounds_example :
    (chars (revision_name sha256 web_pacto (web_loaded "sha256:a")) ≤ 253)
    × ((244 < chars web_pacto.name + chars (version_of (web_loaded "sha256:a")))
        ⊎ ((revision_name sha256 web_pacto (web_loaded "sha256:a")
              ≡ revision_name sha256 web_pacto (web_loaded "sha256:b"))
            ↔ (take 7 (sha256 (web_loaded "sha256:a").raw_yaml)
                ≡ take 7 (sha256 (web_loaded "sha256:b").raw_yaml))))
revision_name_bounds_example =
    revision_name_bounds sha256 web_pacto (web_loaded "sha256:a") (web_loaded "sha256:b") refl
