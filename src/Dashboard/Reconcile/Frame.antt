-- ===== src/Dashboard/Reconcile/Frame.antt =====
-- What `Reconcile` and `Start` of internal/dashboard/reconciler.go leave alone.
use pacto_operator.Prelude.{
  String, List, [], ◌∷◌, ◌≡◌, refl, ◌∙◌, ap, inl, inr, Bool-cases, All, if_intro,
}
use pacto_operator.Message.{Attempt}
use pacto_operator.Credentials.{Codec}
use pacto_operator.Dashboard.Objects.{Quantity}
use pacto_operator.Dashboard.Config.{Config}
use pacto_operator.Dashboard.Apply.{
  service_account_ac, cluster_role_ac, cluster_role_binding_ac, service_ac,
}
use pacto_operator.Dashboard.Cluster.{Key, Cluster, IsLawful}
use pacto_operator.Dashboard.Action.{Action, Ended}
use pacto_operator.Dashboard.Deploy.{
  reconcile_service_account, reconcile_cluster_role, reconcile_cluster_role_binding,
  reconcile_service, deploy,
}
use pacto_operator.Dashboard.Deploy.Keys.{
  namespace_key, key_of-service_account_ac, key_of-cluster_role_ac, key_of-cluster_role_binding_ac,
  key_of-service_ac,
}
use pacto_operator.Dashboard.Deploy.ManagedSecret.{reconcile_oci_credentials-Keeps}
use pacto_operator.Dashboard.Deploy.Deployed.{ensure_namespace-Keeps, reconcile_deployment-Keeps}
use pacto_operator.Dashboard.Cleanup.{cleanup, cleanup_targets}
use pacto_operator.Dashboard.Cleanup.Rounds.{IsTarget, cleanup-Fate}
use pacto_operator.Dashboard.Laws.{Keeps, unless_panic-Keeps, then_step-Keeps, apply_object-Keeps}
use pacto_operator.Dashboard.Reconcile.Runs.{run_once_enabled, run_once_disabled}
use pacto_operator.Dashboard.Reconcile.{run_once, run_ticks, start}

-- The objects of the dashboard, with the namespace that it is in.
abbrev pub managed_targets : Config → List (String × Key)
managed_targets cfg = ("Namespace", namespace_key cfg) ∷ cleanup_targets cfg

module _ {S : Type 0} (cluster : Cluster S) (lawful : IsLawful cluster) (codec : Codec)
    (parse_quantity : String → Attempt Quantity) (cfg : Config) where
  open lawful use {object_at}

  module _ (k : Key) (outside : IsTarget k (managed_targets cfg) → ⊥) where
    deploy-Keeps : Keeps cluster lawful k (deploy cluster cfg codec parse_quantity)
    unfolding deploy reconcile_service_account reconcile_cluster_role reconcile_cluster_role_binding
        reconcile_service cleanup_targets
    deploy-Keeps =
        then_step-Keeps cluster lawful "namespace: %w" k _ _
          (ensure_namespace-Keeps cluster lawful codec parse_quantity cfg k (λ e. outside (inl e)))
          (then_step-Keeps cluster lawful "service account: %w" k _ _
            (apply_object-Keeps cluster lawful k (service_account_ac cfg) (λ e.
              outside
                (inr (inr (inr (inr (inr (inr (inl (e ∙ key_of-service_account_ac cfg))))))))))
            (then_step-Keeps cluster lawful "cluster role: %w" k _ _
              (apply_object-Keeps cluster lawful k cluster_role_ac
                (λ e. outside (inr (inr (inr (inr (inr (inl (e ∙ key_of-cluster_role_ac)))))))))
              (then_step-Keeps cluster lawful "cluster role binding: %w" k _ _
                (apply_object-Keeps cluster lawful k (cluster_role_binding_ac cfg) (λ e.
                  outside (inr (inr (inr (inr (inl (e ∙ key_of-cluster_role_binding_ac cfg))))))))
                (then_step-Keeps cluster lawful "oci credentials: %w" k _ _
                  (reconcile_oci_credentials-Keeps cluster lawful codec cfg k
                    (λ e. outside (inr (inr (inr (inl e))))))
                  (then_step-Keeps cluster lawful "deployment: %w" k _ _
                    (reconcile_deployment-Keeps cluster lawful codec parse_quantity cfg k
                      (λ e. outside (inr (inr (inl e)))))
                    (then_step-Keeps cluster lawful "service: %w" k _ _
                      (apply_object-Keeps cluster lawful k (service_ac cfg)
                        (λ e. outside (inr (inl (e ∙ key_of-service_ac cfg)))))
                      (λ s. refl)))))))

    cleanup-Keeps : Keeps cluster lawful k (cleanup cluster cfg)
    cleanup-Keeps s = elim ((cleanup-Fate cluster lawful cfg k s).0) [
      | inl same ↦ same
      | inr (is_target, _, _) ↦ absurd (outside (inr is_target))
    ]

    run_once-Keeps : Keeps cluster lawful k (run_once cluster codec parse_quantity cfg)
    run_once-Keeps s = elim (Bool-cases cfg.enabled) [
      | inl e ↦
          ap (λ (r : Ended × S). object_at k r.1)
            (run_once_enabled cluster codec parse_quantity cfg s e)
          ∙ deploy-Keeps s
      | inr e ↦
          ap (λ (r : Ended × S). object_at k r.1)
            (run_once_disabled cluster codec parse_quantity cfg s e)
          ∙ cleanup-Keeps s
    ]

    run_ticks-Keeps :
        (worlds : List (S → S))
        → All (λ world. (s : S) → object_at k (world s) ≡ object_at k s) worlds
        → Keeps cluster lawful k (run_ticks cluster codec parse_quantity cfg worlds)
    unfolding run_ticks
    run_ticks-Keeps [] h s = refl
    run_ticks-Keeps (world ∷ worlds) h s =
        unless_panic-Keeps cluster lawful k (run_once cluster codec parse_quantity cfg (world s)).0
          (run_ticks cluster codec parse_quantity cfg worlds) (run_ticks-Keeps worlds h.1) _
        ∙ run_once-Keeps (world s)
        ∙ h.0 s

    -- For a lawful cluster, every configuration, and a key that is neither that of the namespace nor of an
    -- object of the dashboard: where what others do between the ticks leaves its object alone, the whole
    -- run of Start leaves it alone, however the runs end.
    pub start-Keeps :
        (worlds : List (S → S))
        → All (λ world. (s : S) → object_at k (world s) ≡ object_at k s) worlds
        → (s : S) → object_at k (start cluster codec parse_quantity cfg worlds s).1 ≡ object_at k s
    unfolding start
    start-Keeps worlds h s =
        then_step-Keeps cluster lawful "initial dashboard reconciliation failed: %w" k _ _
          run_once-Keeps
          (if_intro (λ (m : Action S). Keeps cluster lawful k m) cfg.enabled
            (run_ticks-Keeps worlds h) (λ t. refl))
          s
