-- ===== src/Dashboard/Laws.antt =====
-- What single steps of internal/dashboard/reconciler.go do to the objects of a lawful cluster.
use pacto_operator.Prelude.{
  String, true, Option, none, some, List, [], ◌∷◌, ◌≡◌, ◌≢◌, refl, ◌∙◌, arith, subst, sym, All,
}
use pacto_operator.Prelude.{string_eq}
use pacto_operator.Prelude.Maps.{lookup}
use pacto_operator.Message.{Message}
use pacto_operator.Dashboard.Objects.{OwnerReference, ObjectMeta, Object, meta_of}
use pacto_operator.Dashboard.Resources.{
  labels, label_managed_by, label_component, managed_by_value, component_value,
}
use pacto_operator.Dashboard.Apply.{with_owner}
use pacto_operator.Dashboard.Cluster.{
  Key, key_of, Cluster, IsLawful, IsGone, Key-discrete, Propagation, deleted, delete_absent,
  delete_failed,
}
use pacto_operator.Observer.{fetched}
use pacto_operator.Dashboard.Action.{
  Action, Ended, ended_well, then_step, unless_panic, apply_object,
}
use pacto_operator.Dashboard.Cleanup.{is_managed}

-- An owner changes neither the key nor the labels.
pub with_owner_name :
    (owner : Option OwnerReference) (m : ObjectMeta) → (with_owner owner m).name ≡ m.name
unfolding with_owner
with_owner_name none m = refl
with_owner_name (some o) m = refl

pub with_owner_namespace :
    (owner : Option OwnerReference) (m : ObjectMeta) → (with_owner owner m).namespace ≡ m.namespace
unfolding with_owner
with_owner_namespace none m = refl
with_owner_namespace (some o) m = refl

pub with_owner_labels :
    (owner : Option OwnerReference) (m : ObjectMeta) → (with_owner owner m).labels ≡ m.labels
unfolding with_owner
with_owner_labels none m = refl
with_owner_labels (some o) m = refl

managed_of_labels :
    (o : Object)
    → lookup label_managed_by (meta_of o).labels ≡ some managed_by_value
    → lookup label_component (meta_of o).labels ≡ some component_value
    → is_managed o ≡ true
unfolding is_managed
managed_of_labels o h1 h2 = ground arith

managed_by_label : lookup label_managed_by labels ≡ some managed_by_value
unfolding lookup labels string_eq
managed_by_label = refl

component_label : lookup label_component labels ≡ some component_value
unfolding lookup labels string_eq
component_label = refl

module _ {S : Type 0} (cluster : Cluster S) (lawful : IsLawful cluster) where
  open lawful use {object_at, object_at-apply, object_at-apply_ne}

  -- An object with our management labels.
  abbrev pub IsOurs : Key → S → Type 0
  IsOurs k s = (o : Object) × (object_at k s ≡ some o) × (is_managed o ≡ true)

  pub keep_owned : (k : Key) (s t : S) → object_at k t ≡ object_at k s → IsOurs k s → IsOurs k t
  keep_owned k s t e (o, found, managed) = (o, e ∙ found, managed)

  -- An action that leaves an object as it is, however it ends.
  abbrev pub Keeps : Key → Action S → Type 0
  Keeps k act = (s : S) → object_at k (act s).1 ≡ object_at k s

  -- What holds where an action ends well.
  abbrev pub Reaches : (S → Type 0) → Action S → (S → Type 0) → Type 0
  Reaches P act Q = (s : S) → P s → (act s).0 ≡ ended_well → Q (act s).1

  pub then_step-Keeps :
      (format : String) (k : Key) (m rest : Action S)
      → Keeps k m
      → Keeps k rest
      → Keeps k (then_step format m rest)
  unfolding then_step
  then_step-Keeps format k m rest h1 h2 s = after (m s) (h1 s)
    where
      after :
          (r : Ended × S)
          → object_at k r.1 ≡ object_at k s
          → object_at k (then_step format (λ _. r) rest s).1 ≡ object_at k s
      after (Ended.ended_well, t) e = h2 t ∙ e
      after (Ended.ended_with x, t) e = e
      after (Ended.ended_in_panic, t) e = e

  pub then_step-Reaches :
      (format : String) (P Q R : S → Type 0) (m rest : Action S)
      → Reaches P m Q
      → Reaches Q rest R
      → Reaches P (then_step format m rest) R
  unfolding then_step
  then_step-Reaches format P Q R m rest h1 h2 s p = after (m s) (h1 s p)
    where
      after :
          (r : Ended × S)
          → (r.0 ≡ ended_well → Q r.1)
          → (then_step format (λ _. r) rest s).0 ≡ ended_well
          → R (then_step format (λ _. r) rest s).1
      after (Ended.ended_well, t) q h = h2 t (q refl) h
      after (Ended.ended_with x, t) q h = absurd (ground arith)
      after (Ended.ended_in_panic, t) q h = absurd (ground arith)

  pub unless_panic-Keeps :
      (k : Key) (e : Ended) (rest : Action S) → Keeps k rest → Keeps k (unless_panic e rest)
  unfolding unless_panic
  unless_panic-Keeps k Ended.ended_in_panic rest h s = refl
  unless_panic-Keeps k Ended.ended_well rest h s = h s
  unless_panic-Keeps k (Ended.ended_with m) rest h s = h s

  pub apply_object-Keeps : (k : Key) (o : Object) → k ≢ key_of o → Keeps k (apply_object cluster o)
  apply_object-Keeps k o n s = object_at-apply_ne o s k n

  -- An object with our labels is ours once it is applied, and so are those that were ours before.
  pub apply_object-IsOurs :
      (o : Object)
      → (meta_of o).labels ≡ labels
      → (ks : List Key)
      → Reaches
          (λ s. All (λ k. IsOurs k s) ks)
          (apply_object cluster o)
          (λ s. All (λ k. IsOurs k s) (key_of o ∷ ks))
  apply_object-IsOurs o labelled ks s hs done = (applied, others ks hs)
    where
      no_error : (cluster.apply o s).0 ≡ none
      no_error = ground arith

      applied : IsOurs (key_of o) (cluster.apply o s).1
      applied =
          let (x, e, carried) = object_at-apply o s no_error in
          (
            x,
            e,
            managed_of_labels x
                (carried label_managed_by managed_by_value (rw labelled managed_by_label))
                (carried label_component component_value (rw labelled component_label)),
          )

      others :
          (js : List Key) → All (λ k. IsOurs k s) js → All (λ k. IsOurs k (cluster.apply o s).1) js
      others [] h = tt
      others (j ∷ js) h = elim (Key-discrete j (key_of o)) [
        | yes e ↦ (subst (λ k. IsOurs k (cluster.apply o s).1) (sym e) applied, others js h.1)
        | no n ↦
            (keep_owned j s (cluster.apply o s).1 (object_at-apply_ne o s j n) h.0, others js h.1)
      ]

  -- What a deletion by the key `j` does to the object of the key `k` and to the others.
  pub record IsDeletion (p : Propagation) (k : Key) (s : S) (j : Key) : Type 0 where
    pub others : (i : Key) → i ≢ k → object_at i (cluster.delete p j s).1 ≡ object_at i s
    pub gone : (cluster.delete p j s).0 ≡ deleted → IsGone (object_at k (cluster.delete p j s).1)
    pub gone_before :
        (cluster.delete p j s).0 ≡ delete_absent → IsGone (object_at k (cluster.delete p j s).1)
    pub kept :
        (m : Message)
        → (cluster.delete p j s).0 ≡ delete_failed m
        → object_at k (cluster.delete p j s).1 ≡ object_at k s

  -- An object that was read is deleted under the key that it was read under.
  pub fetched-IsDeletion :
      (p : Propagation) (k : Key) (s : S) (o : Object)
      → cluster.get k s ≡ fetched o
      → IsDeletion p k s (key_of o)
  fetched-IsDeletion p k s o e =
      subst (IsDeletion p k s) (sym (lawful.key_of-object_at k s o (lawful.get-fetched k s o e)))
        (record {
          others = lawful.object_at-delete_ne p k s;
          gone = lawful.object_at-delete p k s;
          gone_before = lawful.object_at-delete_absent p k s;
          kept = lawful.object_at-delete_failed p k s;
        })
