-- ===== src/Dashboard/Reconcile/Runs.antt =====
-- A run of `Reconcile` by whether the dashboard is enabled.
use pacto_operator.Prelude.{String, true, false, ◌≡◌, ◌∙◌, ap, if_true, if_false}
use pacto_operator.Message.{Attempt}
use pacto_operator.Credentials.{Codec}
use pacto_operator.Dashboard.Objects.{Quantity}
use pacto_operator.Dashboard.Config.{Config}
use pacto_operator.Dashboard.Cluster.{Cluster}
use pacto_operator.Dashboard.Action.{Ended}
use pacto_operator.Dashboard.Deploy.{deploy}
use pacto_operator.Dashboard.Cleanup.{cleanup}
use pacto_operator.Dashboard.Reconcile.{Outcome, ended-requeue, reconcile_dashboard, run_once}

module _ {S : Type 0} (cluster : Cluster S) (codec : Codec)
    (parse_quantity : String → Attempt Quantity) (cfg : Config) where
  -- `Reconcile` is `deploy` or `cleanup`, with a time to the next run.
  pub run_once_enabled :
      (s : S)
      → cfg.enabled ≡ true
      → run_once cluster codec parse_quantity cfg s ≡ deploy cluster cfg codec parse_quantity s
  unfolding reconcile_dashboard
  run_once_enabled s e =
      ap (λ (r : Outcome × S). (r.0.ended, r.1)) (if_true cfg.enabled _ _ e)
      ∙ ap (λ (w : Ended). (w, (deploy cluster cfg codec parse_quantity s).1))
          (ended-requeue 300 0 _)

  pub run_once_disabled :
      (s : S)
      → cfg.enabled ≡ false
      → run_once cluster codec parse_quantity cfg s ≡ cleanup cluster cfg s
  unfolding reconcile_dashboard
  run_once_disabled s e =
      ap (λ (r : Outcome × S). (r.0.ended, r.1)) (if_false cfg.enabled _ _ e)
      ∙ ap (λ (w : Ended). (w, (cleanup cluster cfg s).1)) (ended-requeue 0 60 _)
