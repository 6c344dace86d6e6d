-- ===== src/Dashboard/Reconcile/Ticks.antt =====
-- The dashboard is kept up by the ticks of `Start`.
use pacto_operator.Prelude.{
  String, true, List, [], ◌∷◌, ◌++◌, ◌≡◌, refl, ◌∙◌, ap, arith, subst, sym, if_true,
}
use pacto_operator.Message.{Attempt}
use pacto_operator.Credentials.{Codec}
use pacto_operator.Dashboard.Objects.{Quantity}
use pacto_operator.Dashboard.Config.{Config}
use pacto_operator.Dashboard.Cluster.{Cluster, IsLawful}
use pacto_operator.Dashboard.Action.{Action, Ended, ended_well, then_step, unless_panic}
use pacto_operator.Dashboard.Deploy.Deployed.{IsDeployed}
use pacto_operator.Dashboard.Reconcile.{run_once, run_ticks, start}
use pacto_operator.Dashboard.Reconcile.Lifecycle.{run_once-IsDeployed}

module _ {S : Type 0} (cluster : Cluster S) (lawful : IsLawful cluster) (codec : Codec)
    (parse_quantity : String → Attempt Quantity) (cfg : Config) where
  abbrev pub once : Action S
  once = run_once cluster codec parse_quantity cfg

  run_ticks-append :
      (worlds more : List (S → S)) (s : S)
      → (run_ticks cluster codec parse_quantity cfg worlds s).0 ≡ ended_well
      → run_ticks cluster codec parse_quantity cfg (worlds ++ more) s
        ≡ run_ticks cluster codec parse_quantity cfg more
            (run_ticks cluster codec parse_quantity cfg worlds s).1
  unfolding run_ticks unless_panic
  run_ticks-append [] more s h = refl
  run_ticks-append (world ∷ worlds) more s h =
      goes_on (once (world s)) (run_ticks-append worlds more) h
    where
      ticks : List (S → S) → Action S
      ticks = run_ticks cluster codec parse_quantity cfg

      goes_on :
          (r : Ended × S)
          → ((t : S)
              → (ticks worlds t).0 ≡ ended_well
              → ticks (worlds ++ more) t ≡ ticks more (ticks worlds t).1)
          → (unless_panic r.0 (ticks worlds) r.1).0 ≡ ended_well
          → unless_panic r.0 (ticks (worlds ++ more)) r.1
            ≡ ticks more (unless_panic r.0 (ticks worlds) r.1).1
      goes_on (Ended.ended_well, t) ih h2 = ih t h2
      goes_on (Ended.ended_with m, t) ih h2 = ih t h2
      goes_on (Ended.ended_in_panic, t) ih h2 = absurd (ground arith)

  start_enabled :
      (worlds : List (S → S)) (s : S)
      → cfg.enabled ≡ true
      → start cluster codec parse_quantity cfg worlds s
        ≡ then_step "initial dashboard reconciliation failed: %w" once
            (run_ticks cluster codec parse_quantity cfg worlds)
            s
  unfolding start
  start_enabled worlds s enabled =
      ap (λ (m : Action S). then_step "initial dashboard reconciliation failed: %w" once m s)
        (if_true cfg.enabled _ _ enabled)

  -- Where Start has gone well so far, more ticks go on from the state that it has reached.
  start-append :
      (worlds more : List (S → S)) (s : S)
      → cfg.enabled ≡ true
      → (start cluster codec parse_quantity cfg worlds s).0 ≡ ended_well
      → start cluster codec parse_quantity cfg (worlds ++ more) s
        ≡ run_ticks cluster codec parse_quantity cfg more
            (start cluster codec parse_quantity cfg worlds s).1
  unfolding then_step
  start-append worlds more s enabled h =
      start_enabled (worlds ++ more) s enabled
      ∙ goes_on (once s)
          (subst (λ (r : Ended × S). r.0 ≡ ended_well) (start_enabled worlds s enabled) h)
      ∙ ap (λ (r : Ended × S). ticks more r.1) (sym (start_enabled worlds s enabled))
    where
      ticks : List (S → S) → Action S
      ticks = run_ticks cluster codec parse_quantity cfg

      first : Ended × S → Action S → Ended × S
      first r rest = then_step "initial dashboard reconciliation failed: %w" (λ _. r) rest s

      goes_on :
          (r : Ended × S)
          → (first r (ticks worlds)).0 ≡ ended_well
          → first r (ticks (worlds ++ more)) ≡ ticks more (first r (ticks worlds)).1
      goes_on (Ended.ended_well, t) well = run_ticks-append worlds more t well
      goes_on (Ended.ended_with m, t) well = absurd (ground arith)
      goes_on (Ended.ended_in_panic, t) well = absurd (ground arith)

  -- For a lawful cluster and an enabled dashboard: where Start has not ended with an error or a panic, after
  -- any ticks and whatever others did to the cluster, a next tick whose Reconcile ends well leaves the
  -- dashboard deployed.
  pub start-IsDeployed :
      cfg.enabled ≡ true
      → (worlds : List (S → S)) (world : S → S) (s : S)
      → (start cluster codec parse_quantity cfg worlds s).0 ≡ ended_well
      → (once (world (start cluster codec parse_quantity cfg worlds s).1)).0 ≡ ended_well
      → IsDeployed cluster lawful codec parse_quantity cfg
          (start cluster codec parse_quantity cfg (worlds ++ (world ∷ [])) s).1
  unfolding run_ticks unless_panic
  start-IsDeployed enabled worlds world s h h_tick =
      let t = world (start cluster codec parse_quantity cfg worlds s).1 in
      subst (λ (r : Ended × S). IsDeployed cluster lawful codec parse_quantity cfg r.1)
        (sym (start-append worlds (world ∷ []) s enabled h))
        (last_tick (once t) h_tick
          (run_once-IsDeployed cluster lawful codec parse_quantity cfg enabled t h_tick))
    where
      last_tick :
          (r : Ended × S)
          → r.0 ≡ ended_well
          → IsDeployed cluster lawful codec parse_quantity cfg r.1
          → IsDeployed cluster lawful codec parse_quantity cfg
              (unless_panic r.0 (run_ticks cluster codec parse_quantity cfg []) r.1).1
      last_tick (Ended.ended_well, u) e d = d
      last_tick (Ended.ended_with m, u) e d = d
      last_tick (Ended.ended_in_panic, u) e d = absurd (ground arith)
