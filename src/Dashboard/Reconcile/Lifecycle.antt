-- ===== src/Dashboard/Reconcile/Lifecycle.antt =====
-- The dashboard over its life: deployed by `Reconcile`, and removed when it is disabled.
use pacto_operator.Prelude.{String, Bool, true, false, ◌≡◌, refl, subst, sym, ◌⊎◌, inl, inr}
use pacto_operator.Message.{Attempt}
use pacto_operator.Credentials.{Codec}
use pacto_operator.Dashboard.Objects.{Quantity}
use pacto_operator.Dashboard.Config.{Config}
use pacto_operator.Dashboard.Cluster.{Key, Cluster, IsLawful, IsGone}
use pacto_operator.Dashboard.Action.{Action, Ended, ended_well}
use pacto_operator.Dashboard.Deploy.Keys.{managed_secret_key}
use pacto_operator.Dashboard.Deploy.ManagedSecret.{SecretIs}
use pacto_operator.Dashboard.Deploy.Deployed.{IsDeployed, deploy-IsDeployed}
use pacto_operator.Dashboard.Cleanup.{cleanup, cleanup_targets}
use pacto_operator.Dashboard.Cleanup.Rounds.{IsTarget, cleanup-Fate}
use pacto_operator.Dashboard.Laws.{IsOurs}
use pacto_operator.Dashboard.Reconcile.{run_once}
use pacto_operator.Dashboard.Reconcile.Runs.{run_once_enabled, run_once_disabled}

module _ {S : Type 0} (cluster : Cluster S) (lawful : IsLawful cluster) (codec : Codec)
    (parse_quantity : String → Attempt Quantity) (cfg : Config) where
  open lawful use {object_at}

  abbrev pub Deployed : S → Type 0
  Deployed = IsDeployed cluster lawful codec parse_quantity cfg

  abbrev pub run : Action S
  run = run_once cluster codec parse_quantity cfg

  -- For a lawful cluster and an enabled dashboard, from any state: a run of Reconcile that ends well leaves
  -- the ServiceAccount, ClusterRole, ClusterRoleBinding, Deployment and Service in place with our
  -- management labels, and the managed Secret too if Secrets are configured, and gone if none are.
  pub run_once-IsDeployed :
      cfg.enabled ≡ true → (s : S) → (run s).0 ≡ ended_well → Deployed (run s).1
  run_once-IsDeployed enabled s h =
      subst (λ (r : Ended × S). r.0 ≡ ended_well → Deployed r.1)
        (sym (run_once_enabled cluster codec parse_quantity cfg s enabled))
        (deploy-IsDeployed cluster lawful codec parse_quantity cfg s tt) h

  -- Each target of a cleanup is ours or gone in a deployed state.
  target_cases :
      (s : S) (k : Key)
      → Deployed s
      → IsTarget k (cleanup_targets cfg)
      → IsOurs cluster lawful k s ⊎ IsGone (object_at k s)
  unfolding cleanup_targets
  target_cases s k ((service, (deployment, (binding, (role, (account, _))))), managed) h =
      by_target h
    where
      Claim : Key → Type 0
      Claim j = IsOurs cluster lawful j s ⊎ IsGone (object_at j s)

      secret_claim :
          (b : Bool) → SecretIs cluster lawful codec cfg b s → Claim (managed_secret_key cfg)
      secret_claim true gone = inr gone
      secret_claim false ours = inl ours

      by_target : IsTarget k (cleanup_targets cfg) → Claim k
      by_target (inl e) = subst Claim (sym e) (inl service)
      by_target (inr (inl e)) = subst Claim (sym e) (inl deployment)
      by_target (inr (inr (inl e))) = subst Claim (sym e) (secret_claim _ managed)
      by_target (inr (inr (inr (inl e)))) = subst Claim (sym e) (inl binding)
      by_target (inr (inr (inr (inr (inl e))))) = subst Claim (sym e) (inl role)
      by_target (inr (inr (inr (inr (inr (inl e)))))) = subst Claim (sym e) (inl account)
      by_target (inr (inr (inr (inr (inr (inr none_left)))))) = absurd none_left

  cleanup-IsGone :
      (s : S) (k : Key)
      → Deployed s
      → IsTarget k (cleanup_targets cfg)
      → (cleanup cluster cfg s).0 ≡ ended_well
      → IsGone (object_at k (cleanup cluster cfg s).1)
  cleanup-IsGone s k deployed is_target h =
      let (fate, complete) = cleanup-Fate cluster lawful cfg k s in
      elim (target_cases s k deployed is_target) [
        | inl ours ↦ complete h is_target ours
        | inr gone ↦ elim fate [
          | inl same ↦ subst IsGone (sym same) gone
          | inr (_, _, gone_later) ↦ gone_later
        ]
      ]

  -- For a lawful cluster and a dashboard that was enabled: where a run of Reconcile ends well, and the next
  -- run with the dashboard disabled ends well too, all that the first one can have written but the
  -- namespace is gone, or waits in deletion for its dependents.
  pub run_once-run_once :
      cfg.enabled ≡ true
      → (s : S) → (run s).0 ≡ ended_well
      → (run_once cluster codec parse_quantity (record cfg { enabled = false }) (run s).1).0
        ≡ ended_well
      → (k : Key) → IsTarget k (cleanup_targets cfg)
      → IsGone (
          object_at k
            (run_once cluster codec parse_quantity (record cfg { enabled = false }) (run s).1).1)
  unfolding cleanup cleanup_targets
  run_once-run_once enabled s h h_off k is_target =
      let off : Config = record cfg { enabled = false } in
      let cleaned = run_once_disabled cluster codec parse_quantity off (run s).1 refl in
      subst (λ (r : Ended × S). r.0 ≡ ended_well → IsGone (object_at k r.1)) (sym cleaned)
        (cleanup-IsGone (run s).1 k (run_once-IsDeployed enabled s h) is_target) h_off
