-- ===== src/Dashboard/Cluster.antt =====
-- The client of the cluster that internal/dashboard/reconciler.go calls, as a parameter over a state `S`.
-- `IsLawful` has what the reconciler relies on of it.
use pacto_operator.Prelude.{Eq, ◌⊎◌, inl, inr, refl}
use pacto_operator.Prelude.{String, true, Option, none, some, ◌≡◌, ◌≢◌, string_eq}
use pacto_operator.Prelude.Maps.{lookup}
use pacto_operator.Message.{Message}
use pacto_operator.Observer.{Fetched, fetched, absent, failed}
use pacto_operator.Dashboard.Objects.{
  Object, meta_of, namespace_object, service_account, cluster_role, cluster_role_binding,
  deployment, service, secret,
}

pub data ObjectKind : Type 0 where
  namespace_kind service_account_kind cluster_role_kind cluster_role_binding_kind deployment_kind
        service_kind secret_kind :
      ObjectKind

-- A kind with `client.ObjectKey`.
pub record Key : Type 0 where
  pub kind : ObjectKind
  pub namespace : String
  pub name : String

abbrev pub kind_of : Object → ObjectKind
kind_of (namespace_object m) = namespace_kind
kind_of (service_account m) = service_account_kind
kind_of (cluster_role m rules) = cluster_role_kind
kind_of (cluster_role_binding m subjects role) = cluster_role_binding_kind
kind_of (deployment m spec) = deployment_kind
kind_of (service m spec) = service_kind
kind_of (secret m type content) = secret_kind

abbrev pub key_of : Object → Key
key_of o = record { kind = kind_of o; namespace = (meta_of o).namespace; name = (meta_of o).name }

pub data Propagation : Type 0 where
  unset_propagation foreground : Propagation

-- How a deletion ends.
pub data Deleted : Type 0 where
  deleted : Deleted
  delete_absent : Deleted
  delete_failed : Message → Deleted

-- `none` is the nil error.
pub record Cluster (S : Type 0) : Type 0 where
  pub get : Key → S → Fetched Object
  pub create : Object → S → Option Message × S
  pub apply : Object → S → Option Message × S
  pub delete : Propagation → Key → S → Deleted × S

-- Nothing, or an object whose deletion waits for its dependents.
abbrev pub IsGone : Option Object → Type 0
IsGone none = Unit
IsGone (some o) = (meta_of o).deleting ≡ true

module _ {S : Type 0} (cluster : Cluster S) where
  -- The documented behaviour of the API server towards its one writer: `object_at` is what is stored.
  -- A server-side apply leaves an object with the labels that it sets.
  pub record IsLawful : Type 0 where
    pub object_at : Key → S → Option Object
    pub get-fetched :
        (k : Key) (s : S) (o : Object) → cluster.get k s ≡ fetched o → object_at k s ≡ some o
    pub get-absent : (k : Key) (s : S) → cluster.get k s ≡ absent → object_at k s ≡ none
    pub key_of-object_at : (k : Key) (s : S) (o : Object) → object_at k s ≡ some o → key_of o ≡ k
    pub object_at-apply :
        (o : Object) (s : S)
        → (cluster.apply o s).0 ≡ none
        → (x : Object) × (object_at (key_of o) (cluster.apply o s).1 ≡ some x)
          × ((label v : String)
              → lookup label (meta_of o).labels ≡ some v
              → lookup label (meta_of x).labels ≡ some v)
    pub object_at-apply_ne :
        (o : Object) (s : S) (k : Key)
        → k ≢ key_of o
        → object_at k (cluster.apply o s).1 ≡ object_at k s
    pub object_at-create_ne :
        (o : Object) (s : S) (k : Key)
        → k ≢ key_of o
        → object_at k (cluster.create o s).1 ≡ object_at k s
    pub object_at-delete :
        (p : Propagation) (k : Key) (s : S)
        → (cluster.delete p k s).0 ≡ deleted
        → IsGone (object_at k (cluster.delete p k s).1)
    pub object_at-delete_absent :
        (p : Propagation) (k : Key) (s : S)
        → (cluster.delete p k s).0 ≡ delete_absent
        → IsGone (object_at k (cluster.delete p k s).1)
    pub object_at-delete_failed :
        (p : Propagation) (k : Key) (s : S) (m : Message)
        → (cluster.delete p k s).0 ≡ delete_failed m
        → object_at k (cluster.delete p k s).1 ≡ object_at k s
    pub object_at-delete_ne :
        (p : Propagation) (k : Key) (s : S) (j : Key)
        → j ≢ k
        → object_at j (cluster.delete p k s).1 ≡ object_at j s

unfoldable pub Key-discrete : Discrete Key
Key-discrete = hlevel string_eq.dec

instance unfoldable pub key_eq : Eq Key
key_eq = record { dec = Key-discrete }

pub Fetched-cases :
    {A : Type 0} (r : Fetched A)
    → (r ≡ absent) ⊎ (((m : Message) × (r ≡ failed m)) ⊎ ((a : A) × (r ≡ fetched a)))
Fetched-cases absent = inl refl
Fetched-cases (failed m) = inr (inl (m, refl))
Fetched-cases (fetched a) = inr (inr (a, refl))

pub Deleted-cases :
    (r : Deleted) → (r ≡ deleted) ⊎ ((r ≡ delete_absent) ⊎ ((m : Message) × (r ≡ delete_failed m)))
Deleted-cases deleted = inl refl
Deleted-cases delete_absent = inr (inl refl)
Deleted-cases (delete_failed m) = inr (inr (m, refl))
