-- ===== src/Dashboard/Cleanup.antt =====
-- `cleanup` of internal/dashboard/reconciler.go: the objects of a disabled dashboard are deleted.
pub mod Rounds
pub mod Exact
use pacto_operator.Prelude.{String, Bool, ◌&&◌, none, some, List, [], ◌∷◌}
use pacto_operator.Prelude.{◌==◌, string_eq, if◌then◌else◌}
use pacto_operator.Prelude.Maps.{lookup}
use pacto_operator.Message.{sprintf, str, msg, done}
use pacto_operator.Observer.{fetched, absent, failed}
use pacto_operator.Dashboard.Objects.{Object, meta_of}
use pacto_operator.Dashboard.Config.{Config}
use pacto_operator.Dashboard.Resources.{
  dashboard_name, managed_secret_name, label_managed_by, label_component, managed_by_value,
  component_value,
}
use pacto_operator.Dashboard.Cluster.{
  service_account_kind, cluster_role_kind, cluster_role_binding_kind, deployment_kind, service_kind,
  secret_kind, Key, key_of, foreground, delete_failed, Cluster,
}
use pacto_operator.Dashboard.Action.{ended_with, Action, finish}

-- A text of a map, which is "" for a missing key.
abbrev pub label_of : String → Object → String
label_of key o = elim (lookup key (meta_of o).labels) [ none ↦ "" | some v ↦ v ]

-- The test of `cleanup` for our management labels.
unfoldable pub is_managed : Object → Bool
is_managed o =
    label_of label_managed_by o == managed_by_value && label_of label_component o == component_value

-- The objects of `cleanup`, in its order: the kind's name, and the key.
unfoldable pub cleanup_targets : Config → List (String × Key)
cleanup_targets cfg =
    ("Service", record { kind = service_kind; namespace = cfg.namespace; name = dashboard_name })
    ∷ (
      "Deployment",
      record { kind = deployment_kind; namespace = cfg.namespace; name = dashboard_name },
    )
    ∷ (
      "Secret",
      record { kind = secret_kind; namespace = cfg.namespace; name = managed_secret_name },
    )
    ∷ (
      "ClusterRoleBinding",
      record { kind = cluster_role_binding_kind; namespace = ""; name = dashboard_name },
    )
    ∷ ("ClusterRole", record { kind = cluster_role_kind; namespace = ""; name = dashboard_name })
    ∷ (
      "ServiceAccount",
      record { kind = service_account_kind; namespace = cfg.namespace; name = dashboard_name },
    )
    ∷ []

module _ {S : Type 0} (cluster : Cluster S) where
  -- One round of the loop of `cleanup`, which goes on with `rest`.
  unfoldable pub clean_object : String × Key → Action S → Action S
  clean_object target rest s = elim (cluster.get target.1 s) [
    | absent ↦ rest s
    | failed e ↦ (ended_with (sprintf "failed to get %s: %w" (str target.0 (msg e done))), s)
    | fetched o ↦
        if is_managed o
        then (let r = cluster.delete foreground (key_of o) s in
            elim r.0 [
              | delete_failed e ↦
                  (ended_with (sprintf "failed to delete %s: %w" (str target.0 (msg e done))), r.1)
              | _ ↦ rest r.1
            ])
        else rest s
  ]

  -- The loop of `cleanup`.
  unfoldable pub clean_objects : List (String × Key) → Action S
  clean_objects [] = finish
  clean_objects (target ∷ targets) = clean_object target (clean_objects targets)

  -- `cleanup`
  unfoldable pub cleanup : Config → Action S
  cleanup cfg = clean_objects (cleanup_targets cfg)
