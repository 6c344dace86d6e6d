-- ===== src/Dashboard/Reconcile/Panics.antt =====
-- A configuration that passed its validation makes no run of internal/dashboard/reconciler.go panic.
use pacto_operator.Prelude.{
  String, true, Option, none, some, List, [], ◌∷◌, ◌≡◌, refl, arith, subst, sym, inl, inr,
  Bool-cases, is_empty, if_intro, string_eq,
}
use pacto_operator.Message.{Message, Attempt, Attempt-cases}
use pacto_operator.Credentials.{Codec, merge_to_docker_config_json}
use pacto_operator.Dashboard.Objects.{Object, Quantity, deployment, named}
use pacto_operator.Dashboard.Config.{
  Config, effective_oci_secrets, validate_config, validate_resources,
}
use pacto_operator.Dashboard.Config.Quantities.{KnowsDefaults, valid_is_built}
use pacto_operator.Dashboard.Apply.{deployment_ac, deployment_spec, with_labels, with_owner}
use pacto_operator.Dashboard.Resources.{dashboard_name, labels}
use pacto_operator.Dashboard.Reconcile.Runs.{run_once_enabled, run_once_disabled}
use pacto_operator.Dashboard.Cluster.{
  Cluster, Fetched-cases, Deleted-cases, Key, key_of, unset_propagation, foreground,
}
use pacto_operator.Dashboard.Action.{
  Action, Ended, ended_well, ended_with, ended_in_panic, ended_of, then_step, unless_panic,
}
use pacto_operator.Dashboard.Deploy.{
  ensure_namespace, reconcile_service_account, reconcile_cluster_role,
  reconcile_cluster_role_binding, reconcile_oci_credentials, delete_managed_secret,
  apply_merged_secret, read_secrets, reconcile_deployment, reconcile_service, deploy,
}
use pacto_operator.Dashboard.Deploy.Keys.{namespace_key, managed_secret_key}
use pacto_operator.Dashboard.Cleanup.{
  is_managed, cleanup, cleanup_targets, clean_object, clean_objects,
}
use pacto_operator.Dashboard.Reconcile.{run_once, run_ticks, start}

-- A way of ending other than a panic.
abbrev pub Returns : Ended → Type 0
Returns ended_well = Unit
Returns (ended_with e) = Unit
Returns ended_in_panic = ⊥

ended_of-Returns : (e : Option Message) → Returns (ended_of e)
ended_of-Returns none = tt
ended_of-Returns (some e) = tt

module _ {S : Type 0} where
  abbrev pub AlwaysReturns : Action S → Type 0
  AlwaysReturns m = (s : S) → Returns (m s).0

  then_step-Returns :
      (format : String) (m rest : Action S)
      → AlwaysReturns m
      → AlwaysReturns rest
      → AlwaysReturns (then_step format m rest)
  unfolding then_step
  then_step-Returns format m rest h1 h2 s = after (m s) (h1 s)
    where
      after : (r : Ended × S) → Returns r.0 → Returns (then_step format (λ _. r) rest s).0
      after (Ended.ended_well, t) h = h2 t
      after (Ended.ended_with e, t) h = tt
      after (Ended.ended_in_panic, t) h = absurd h

  unless_panic-Returns :
      (e : Ended) (rest : Action S)
      → Returns e
      → AlwaysReturns rest
      → AlwaysReturns (unless_panic e rest)
  unfolding unless_panic
  unless_panic-Returns Ended.ended_well rest h h2 s = h2 s
  unless_panic-Returns (Ended.ended_with e) rest h h2 s = h2 s
  unless_panic-Returns Ended.ended_in_panic rest h h2 s = absurd h

  module _ (cluster : Cluster S) (codec : Codec) (cfg : Config) where
    ensure_namespace-Returns : AlwaysReturns (ensure_namespace cluster cfg)
    unfolding ensure_namespace
    ensure_namespace-Returns s = elim (Fetched-cases (cluster.get (namespace_key cfg) s)) [
      | inl e ↦ rw (ensure_namespace, e) (ended_of-Returns _)
      | inr (inl (m, e)) ↦ rw (ensure_namespace, e) tt
      | inr (inr (o, e)) ↦ rw (ensure_namespace, e) tt
    ]

    delete_managed_secret-Returns : AlwaysReturns (delete_managed_secret cluster cfg)
    unfolding delete_managed_secret
    delete_managed_secret-Returns s =
        elim (Fetched-cases (cluster.get (managed_secret_key cfg) s)) [
          | inl e ↦ rw (delete_managed_secret, e) tt
          | inr (inl (m, e)) ↦ rw (delete_managed_secret, e) tt
          | inr (inr (o, e)) ↦
              elim (Deleted-cases (cluster.delete unset_propagation (key_of o) s).0) [
                | inl d ↦ rw (delete_managed_secret, e, d) tt
                | inr (inl d) ↦ rw (delete_managed_secret, e, d) tt
                | inr (inr (m, d)) ↦ rw (delete_managed_secret, e, d) tt
              ]
        ]

    apply_merged_secret-Returns :
        (names : List String) → AlwaysReturns (apply_merged_secret cluster cfg codec names)
    unfolding apply_merged_secret
    apply_merged_secret-Returns names s = elim (Attempt-cases (read_secrets cluster cfg names s)) [
      | inl (m, e) ↦ rw (apply_merged_secret, e) tt
      | inr (sources, e) ↦ elim (Attempt-cases (merge_to_docker_config_json codec sources)) [
        | inl (m, f) ↦ rw (apply_merged_secret, e, f) tt
        | inr (merged, f) ↦ rw (apply_merged_secret, e, f) (ended_of-Returns _)
      ]
    ]

    reconcile_oci_credentials-Returns : AlwaysReturns (reconcile_oci_credentials cluster cfg codec)
    unfolding reconcile_oci_credentials
    reconcile_oci_credentials-Returns s =
        if_intro (λ (m : Action S). Returns (m s).0) (is_empty (effective_oci_secrets cfg))
          (delete_managed_secret-Returns s)
          (apply_merged_secret-Returns (effective_oci_secrets cfg) s)

    clean_object-Returns :
        (target : String × Key) (rest : Action S)
        → AlwaysReturns rest
        → AlwaysReturns (clean_object cluster target rest)
    unfolding clean_object
    clean_object-Returns target rest h s = elim (Fetched-cases (cluster.get target.1 s)) [
      | inl e ↦ rw (clean_object, e) (h s)
      | inr (inl (m, e)) ↦ rw (clean_object, e) tt
      | inr (inr (o, e)) ↦ elim (Bool-cases (is_managed o)) [
        | inr u ↦ rw (clean_object, e, u) (h s)
        | inl u ↦ elim (Deleted-cases (cluster.delete foreground (key_of o) s).0) [
          | inl d ↦ rw (clean_object, e, u, d) (h _)
          | inr (inl d) ↦ rw (clean_object, e, u, d) (h _)
          | inr (inr (m, d)) ↦ rw (clean_object, e, u, d) tt
        ]
      ]
    ]

    clean_objects-Returns :
        (targets : List (String × Key)) → AlwaysReturns (clean_objects cluster targets)
    unfolding clean_objects
    clean_objects-Returns [] s = tt
    clean_objects-Returns (target ∷ targets) s =
        clean_object-Returns target (clean_objects cluster targets) (clean_objects-Returns targets)
          s

    module _ (parse_quantity : String → Attempt Quantity) where
      deploy-Returns :
          (o : Object)
          → deployment_ac parse_quantity cfg ≡ some o
          → AlwaysReturns (deploy cluster cfg codec parse_quantity)
      unfolding deploy reconcile_deployment reconcile_service_account reconcile_cluster_role
          reconcile_cluster_role_binding reconcile_service
      deploy-Returns o e = then_step-Returns "namespace: %w" _ _ ensure_namespace-Returns (
          then_step-Returns "service account: %w" _ _ (λ s. ended_of-Returns _)
            (then_step-Returns "cluster role: %w" _ _ (λ s. ended_of-Returns _)
              (then_step-Returns "cluster role binding: %w" _ _ (λ s. ended_of-Returns _)
                (then_step-Returns "oci credentials: %w" _ _ reconcile_oci_credentials-Returns (
                  then_step-Returns "deployment: %w" _ _ (deployment_returns o e)
                    (then_step-Returns "service: %w" _ _ (λ s. ended_of-Returns _) (λ s. tt)))))))
        where
          deployment_returns :
              (x : Object)
              → deployment_ac parse_quantity cfg ≡ some x
              → AlwaysReturns (reconcile_deployment cluster cfg parse_quantity)
          deployment_returns x same s = rw (reconcile_deployment, same) (ended_of-Returns _)

      -- A configuration that passed its validation is built.
      deployment_made :
          KnowsDefaults parse_quantity
          → validate_config parse_quantity cfg ≡ none
          → cfg.enabled ≡ true
          → (o : Object) × (deployment_ac parse_quantity cfg ≡ some o)
      unfolding validate_config deployment_ac
      deployment_made known valid enabled =
          let checked : validate_resources parse_quantity cfg.resources ≡ none = ground arith in
          let (res, e, _) = valid_is_built parse_quantity known cfg.resources checked in
          (
            deployment
                (with_owner cfg.owner_ref (with_labels labels (named dashboard_name cfg.namespace)))
                (deployment_spec cfg res),
            rw (deployment_ac, e) refl,
          )

      run_once-Returns :
          KnowsDefaults parse_quantity
          → validate_config parse_quantity cfg ≡ none
          → AlwaysReturns (run_once cluster codec parse_quantity cfg)
      unfolding cleanup
      run_once-Returns known valid s = elim (Bool-cases cfg.enabled) [
        | inl e ↦
            let (o, made) = deployment_made known valid e in
            subst (λ (r : Ended × S). Returns r.0)
              (sym (run_once_enabled cluster codec parse_quantity cfg s e))
              (deploy-Returns o made s)
        | inr e ↦
            subst (λ (r : Ended × S). Returns r.0)
              (sym (run_once_disabled cluster codec parse_quantity cfg s e))
              (clean_objects-Returns (cleanup_targets cfg) s)
      ]

      run_ticks-Returns :
          AlwaysReturns (run_once cluster codec parse_quantity cfg)
          → (worlds : List (S → S))
          → AlwaysReturns (run_ticks cluster codec parse_quantity cfg worlds)
      unfolding run_ticks
      run_ticks-Returns once [] s = tt
      run_ticks-Returns once (world ∷ worlds) s =
          unless_panic-Returns (run_once cluster codec parse_quantity cfg (world s)).0
            (run_ticks cluster codec parse_quantity cfg worlds) (once (world s))
            (run_ticks-Returns once worlds) _

      -- For every cluster and state, and a parser that reads the built-in defaults: where the validation of
      -- the configuration finds no error, Start does not panic, at no tick and whatever others do.
      pub start-Returns :
          KnowsDefaults parse_quantity
          → validate_config parse_quantity cfg ≡ none
          → (worlds : List (S → S)) (s : S)
          → Returns (start cluster codec parse_quantity cfg worlds s).0
      unfolding start
      start-Returns known valid worlds s =
          then_step-Returns "initial dashboard reconciliation failed: %w" _ _
            (run_once-Returns known valid)
            (if_intro (λ (m : Action S). AlwaysReturns m) cfg.enabled
              (run_ticks-Returns (run_once-Returns known valid) worlds) (λ t. tt))
            s
