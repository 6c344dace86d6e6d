-- ===== src/Dashboard/Tests/MapCluster.antt =====
-- A cluster whose objects are a map, which answers every call.
use pacto_operator.Prelude.{
  Option, none, some, ◌≡◌, ◌≢◌, refl, ap, ◌∙◌, arith, ◌==◌, string_eq, if◌then◌else◌,
}
use pacto_operator.Observer.{Fetched, fetched, absent}
use pacto_operator.Dashboard.Objects.{Object}
use pacto_operator.Dashboard.Cluster.{Key, key_of, key_eq, Cluster, IsLawful, IsGone, deleted}

-- What the cluster holds, with objects under their own keys.
abbrev pub Store : Type 0
Store = Key → Option Object

unfoldable pub stored : Key → Option Object → Option Object
stored k none = none
stored k (some o) = if key_of o == k then some o else none

unfoldable pub found : Option Object → Fetched Object
found none = absent
found (some o) = fetched o

unfoldable pub set : Key → Option Object → Store → Store
set k v s j = if j == k then v else s j

abbrev pub store_cluster : Cluster Store
store_cluster = record {
  get = λ k s. found (stored k (s k));
  create = λ o s. (none, set (key_of o) (some o) s);
  apply = λ o s. (none, set (key_of o) (some o) s);
  delete = λ p k s. (deleted, set k none s);
}

stored_key : (k : Key) (v : Option Object) (o : Object) → stored k v ≡ some o → key_of o ≡ k
unfolding stored
stored_key k none o h = absurd (ground arith)
stored_key k (some x) o h = ground arith

stored_self : (o : Object) → stored (key_of o) (some o) ≡ some o
unfolding stored
stored_self o = ground arith

set_same : (k : Key) (v : Option Object) (s : Store) → set k v s k ≡ v
unfolding set
set_same k v s = ground arith

set_other : (k j : Key) (v : Option Object) (s : Store) → j ≢ k → set k v s j ≡ s j
unfolding set
set_other k j v s h = ground arith

found_fetched : (v : Option Object) (o : Object) → found v ≡ fetched o → v ≡ some o
unfolding found
found_fetched none o h = absurd (ground arith)
found_fetched (some x) o h = ground arith

found_absent : (v : Option Object) → found v ≡ absent → v ≡ none
unfolding found
found_absent none h = refl
found_absent (some x) h = absurd (ground arith)

unset-IsGone : (k : Key) (s : Store) → IsGone (stored k (set k none s k))
unfolding stored
unset-IsGone k s = rw (set_same k none s) tt

pub store_cluster-IsLawful : IsLawful store_cluster
unfolding stored
store_cluster-IsLawful = record {
  object_at = λ k s. stored k (s k);
  get-fetched = λ k s o h. found_fetched (stored k (s k)) o h;
  get-absent = λ k s h. found_absent (stored k (s k)) h;
  key_of-object_at = λ k s o h. stored_key k (s k) o h;
  object_at-apply = λ o s h. (
    o,
    ap (stored (key_of o)) (set_same (key_of o) (some o) s) ∙ stored_self o,
    λ label v carried. carried,
  );
  object_at-apply_ne = λ o s k n. ap (stored k) (set_other (key_of o) k (some o) s n);
  object_at-create_ne = λ o s k n. ap (stored k) (set_other (key_of o) k (some o) s n);
  object_at-delete = λ p k s h. unset-IsGone k s;
  object_at-delete_absent = λ p k s h. unset-IsGone k s;
  object_at-delete_failed = λ p k s m h. absurd (ground arith);
  object_at-delete_ne = λ p k s j n. ap (stored j) (set_other k j none s n);
}
