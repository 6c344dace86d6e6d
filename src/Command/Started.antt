-- ===== src/Command/Started.antt =====
-- What holds of the dashboard's configuration once cmd/main.go has started the manager with it.
use pacto_operator.Prelude.{
  String, ◌&&◌, Option, none, some, List, ◌≡◌, ◌≢◌, refl, sym, subst, arith, ◌==◌, string_eq, inl,
  inr, Bool-cases,
}
use pacto_operator.Message.{Message}
use pacto_operator.Credentials.{Codec}
use pacto_operator.Dashboard.Config.{Config, validate_config}
use pacto_operator.Dashboard.Config.Quantities.{KnowsDefaults}
use pacto_operator.Dashboard.Cluster.{Cluster}
use pacto_operator.Dashboard.Reconcile.{start}
use pacto_operator.Dashboard.Reconcile.Panics.{Returns, start-Returns}
use pacto_operator.Command.{
  Flags, Surroundings, ManagerOptions, manager_options, dashboard_config, ProgramEnd, served,
  exit_on, run_manager, setup_dashboard, main,
}

-- An end that serves has met no error.
exit_on_served :
    (e : Option Message) (what : String) (rest : ProgramEnd) (options : ManagerOptions)
    (cfg : Config)
    → exit_on e what rest ≡ served options cfg
    → (e ≡ none) × (rest ≡ served options cfg)
unfolding exit_on
exit_on_served none what rest options cfg h = (refl, h)
exit_on_served (some e) what rest options cfg h = absurd (ground arith)

module _ (env : Surroundings) (f : Flags) (options : ManagerOptions) (cfg : Config) where
  run_manager_served :
      (o : ManagerOptions) (c : Config)
      → run_manager env o c ≡ served options cfg
      → (o ≡ options) × (c ≡ cfg)
  unfolding run_manager
  run_manager_served o c h =
      let (_, h1) = exit_on_served _ _ _ options cfg h in
      let (_, h2) = exit_on_served _ _ _ options cfg h1 in
      let (_, h3) = exit_on_served _ _ _ options cfg h2 in
      let (_, h4) = exit_on_served _ _ _ options cfg h3 in ground arith

  setup_dashboard_served :
      setup_dashboard env f ≡ served options cfg
      → (env.pod_namespace ≢ "")
        × (manager_options f ≡ options)
        × (dashboard_config env f ≡ cfg)
        × (validate_config env.parse_quantity (dashboard_config env f) ≡ none)
  unfolding setup_dashboard
  setup_dashboard_served h = elim (string_eq.dec env.pod_namespace "") [
    | yes e ↦ absurd (ground arith)
    | no n ↦ elim (Bool-cases (f.enable_dashboard && env.dashboard_image == "")) [
      | inl e ↦ absurd (ground arith)
      | inr e ↦
          let (valid, h1) =
            exit_on_served (validate_config env.parse_quantity (dashboard_config env f))
              "Invalid dashboard configuration"
              (run_manager env (manager_options f) (dashboard_config env f)) options cfg
              (ground arith) in
          let (same_options, same) =
            run_manager_served (manager_options f) (dashboard_config env f) h1 in
          (n, same_options, same, valid)
    ]
  ]

  -- For a parser that reads the built-in defaults of the quantities: where main has run the manager, it is
  -- with the options and the dashboard's configuration of the flags, the namespace of the dashboard is
  -- set, and the dashboard's Start does not panic on any cluster, whatever others do between its ticks.
  pub main-served :
      KnowsDefaults env.parse_quantity
      → main env f ≡ served options cfg
      → {S : Type 0} (cluster : Cluster S) (codec : Codec) (worlds : List (S → S)) (s : S)
      → (options ≡ manager_options f)
        × (cfg ≡ dashboard_config env f)
        × (cfg.namespace ≢ "")
        × Returns (start cluster codec env.parse_quantity cfg worlds s).0
  unfolding main dashboard_config
  main-served known h cluster codec worlds s = elim (Bool-cases f.show_version) [
    | inl e ↦ absurd (ground arith)
    | inr e ↦
        let (_, h1) =
          exit_on_served (env.new_manager (manager_options f)) "Failed to start manager"
            (exit_on env.setup_controller "Failed to create controller" (setup_dashboard env f))
            options cfg (ground arith) in
        let (_, h2) = exit_on_served _ _ _ options cfg h1 in
        let (filled, same_options, same, valid) = setup_dashboard_served h2 in
        (
          sym same_options,
          sym same,
          subst (λ (c : Config). c.namespace ≢ "") same filled,
          subst (λ (c : Config). Returns (start cluster codec env.parse_quantity c worlds s).0) same
              (start-Returns cluster codec (dashboard_config env f) env.parse_quantity known valid
                worlds s),
        )
  ]
