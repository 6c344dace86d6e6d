-- ===== src/Controller/Handlers.antt =====
-- internal/controller/event_handler.go: which Pactos are reconciled when an object of the cluster
-- changes. The list call of the client is a parameter, `none` where it fails.
use pacto_operator.Prelude.{String, Option, none, some, List, [], ◌∷◌, ◌≡◌, ◌↔◌}
use pacto_operator.Prelude.{◌==◌, string_eq, if◌then◌else◌, arith, ◌⊎◌}
use pacto_operator.Api.Spec.{resolved_workload}
use pacto_operator.Api.Pacto.{Pacto}

-- `types.NamespacedName`
pub record Request : Type 0 where
  pub namespace : String
  pub name : String

abbrev pub request_for : Pacto → Request
request_for p = record { namespace = p.namespace; name = p.name }

-- The loop of `mapSecretToPactos`.
unfoldable pub secret_requests : List Pacto → String → List Request
secret_requests [] name = []
secret_requests (p ∷ ps) name =
    let rest = secret_requests ps name in
    if p.spec.contract_ref.pull_secret_ref == name then request_for p ∷ rest else rest

-- `mapSecretToPactos`, for a Secret by its namespace and name.
unfoldable pub map_secret_to_pactos :
    (String → Option (List Pacto)) → String → String → List Request
map_secret_to_pactos list namespace name = elim (list namespace) [
  | none ↦ []
  | some ps ↦ secret_requests ps name
]

-- The loop of `mapObjectToPactos`.
unfoldable pub object_requests : List Pacto → String → List Request
object_requests [] name = []
object_requests (p ∷ ps) name =
    let rest = object_requests ps name in
    if p.spec.target.service_name == name
    then request_for p ∷ rest
    else if (resolved_workload p.spec).0 == name
    then request_for p ∷ rest
    else rest

-- `mapObjectToPactos`, for an object by its namespace and name.
unfoldable pub map_object_to_pactos :
    (String → Option (List Pacto)) → String → String → List Request
map_object_to_pactos list namespace name = elim (list namespace) [
  | none ↦ []
  | some ps ↦ object_requests ps name
]

-- Some element of the list has the property.
abbrev pub Any {ℓ} : {A : Type ℓ} → (A → Type 0) → List A → Type 0
Any P [] = ⊥
Any P (x ∷ xs) = P x ⊎ Any P xs

-- What a reconciliation of `p` reads under the name: its Service, or its workload.
abbrev pub Reads : String → Pacto → Type 0
Reads name p = (p.spec.target.service_name ≡ name) ⊎ ((resolved_workload p.spec).0 ≡ name)

object_requests_iff :
    (ps : List Pacto) (name : String) (r : Request)
    → Any (λ q. q ≡ r) (object_requests ps name) ↔ Any (λ p. Reads name p × (request_for p ≡ r)) ps
unfolding object_requests
object_requests_iff [] name r = ground arith
object_requests_iff (p ∷ ps) name r = ground (arith, object_requests_iff ps name r)

secret_requests_iff :
    (ps : List Pacto) (name : String) (r : Request)
    → Any (λ q. q ≡ r) (secret_requests ps name)
      ↔ Any (λ p. (p.spec.contract_ref.pull_secret_ref ≡ name) × (request_for p ≡ r)) ps
unfolding secret_requests
secret_requests_iff [] name r = ground arith
secret_requests_iff (p ∷ ps) name r = ground (arith, secret_requests_iff ps name r)

-- For every list of Pactos in a namespace and object in it: exactly the Pactos that read an object of
-- this name, as their Service or as their workload, are reconciled when it changes.
pub map_object_to_pactos_iff :
    (list : String → Option (List Pacto)) (namespace name : String) (ps : List Pacto) (r : Request)
    → list namespace ≡ some ps
    → Any (λ q. q ≡ r) (map_object_to_pactos list namespace name)
      ↔ Any (λ p. Reads name p × (request_for p ≡ r)) ps
unfolding map_object_to_pactos
map_object_to_pactos_iff list namespace name ps r h =
    rw (h, map_object_to_pactos) (object_requests_iff ps name r)

-- For every list of Pactos in a namespace and Secret in it: exactly the Pactos whose contract
-- reference names the Secret are reconciled when it changes.
pub map_secret_to_pactos_iff :
    (list : String → Option (List Pacto)) (namespace name : String) (ps : List Pacto) (r : Request)
    → list namespace ≡ some ps
    → Any (λ q. q ≡ r) (map_secret_to_pactos list namespace name)
      ↔ Any (λ p. (p.spec.contract_ref.pull_secret_ref ≡ name) × (request_for p ≡ r)) ps
unfolding map_secret_to_pactos
map_secret_to_pactos_iff list namespace name ps r h =
    rw (h, map_secret_to_pactos) (secret_requests_iff ps name r)
