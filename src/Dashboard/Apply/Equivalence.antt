-- ===== src/Dashboard/Apply/Equivalence.antt =====
-- The applied configurations and the typed objects of internal/dashboard, which the source keeps apart.
use pacto_operator.Prelude.{String, Option}
use pacto_operator.Prelude.{◌≡◌, refl, string_eq, inl, inr, Bool-cases, is_empty}
use pacto_operator.Prelude.{Option-cases}
use pacto_operator.Message.{Attempt}
use mathlib.Core.Option as Options
use pacto_operator.Dashboard.Objects.{
  OwnerReference, Quantity, ResourceRequirements, Object, namespace_object, service_account,
  cluster_role, cluster_role_binding, deployment, service, secret,
}
use pacto_operator.Dashboard.Config.{Config, effective_oci_secrets, build_resources}
use pacto_operator.Dashboard.Resources.{
  build_service_account, build_cluster_role, build_cluster_role_binding, build_env,
  build_volume_mounts, build_volumes, build_container, build_deployment_spec, build_deployment,
  build_service,
}
use pacto_operator.Dashboard.Apply.{
  with_owner, service_account_ac, cluster_role_ac, cluster_role_binding_ac, deployment_env,
  deployment_volumes, deployment_container, deployment_spec, deployment_ac, service_ac,
}

-- The object with the owner, where it is in a namespace.
abbrev pub owned : Option OwnerReference → Object → Object
owned owner (service_account m) = service_account (with_owner owner m)
owned owner (deployment m spec) = deployment (with_owner owner m) spec
owned owner (service m spec) = service (with_owner owner m) spec
owned owner (secret m type content) = secret (with_owner owner m) type content
owned owner (namespace_object m) = namespace_object m
owned owner (cluster_role m rules) = cluster_role m rules
owned owner (cluster_role_binding m subjects role) = cluster_role_binding m subjects role

deployment_volumes_lem :
    (cfg : Config) → deployment_volumes cfg ≡ (build_volume_mounts cfg, build_volumes cfg)
unfolding deployment_volumes build_volume_mounts build_volumes
deployment_volumes_lem cfg = elim (Bool-cases (is_empty (effective_oci_secrets cfg))) [
  | inl e ↦ rw e refl
  | inr e ↦ rw e refl
]

deployment_spec_lem :
    (cfg : Config) (res : ResourceRequirements)
    → deployment_spec cfg res ≡ build_deployment_spec cfg res
unfolding deployment_spec deployment_container build_deployment_spec build_container deployment_env
    build_env
deployment_spec_lem cfg res = rw (deployment_volumes_lem cfg) refl

deployment_ac_lem :
    (parse_quantity : String → Attempt Quantity) (cfg : Config)
    → deployment_ac parse_quantity cfg
      ≡ Options.map (owned cfg.owner_ref) (build_deployment parse_quantity cfg)
unfolding deployment_ac build_deployment
deployment_ac_lem parse_quantity cfg =
    elim (Option-cases (build_resources parse_quantity cfg.resources)) [
      | inl e ↦ rw (deployment_ac, build_deployment, e) refl
      | inr (res, e) ↦ rw (deployment_ac, build_deployment, e, deployment_spec_lem cfg res) refl
    ]

-- For every parser of quantities and configuration: what is applied is the typed object that is built,
-- with the owner of the configuration on the objects in a namespace and on no other.
pub apply-build :
    (parse_quantity : String → Attempt Quantity) (cfg : Config)
    → (service_account_ac cfg ≡ owned cfg.owner_ref (build_service_account cfg))
      × (cluster_role_ac ≡ owned cfg.owner_ref build_cluster_role)
      × (cluster_role_binding_ac cfg ≡ owned cfg.owner_ref (build_cluster_role_binding cfg))
      × (deployment_ac parse_quantity cfg
          ≡ Options.map (owned cfg.owner_ref) (build_deployment parse_quantity cfg))
      × (service_ac cfg ≡ owned cfg.owner_ref (build_service cfg))
unfolding service_account_ac cluster_role_ac cluster_role_binding_ac service_ac
    build_service_account build_cluster_role build_cluster_role_binding build_service
apply-build parse_quantity cfg = (refl, refl, refl, deployment_ac_lem parse_quantity cfg, refl)
