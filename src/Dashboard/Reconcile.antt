-- ===== src/Dashboard/Reconcile.antt =====
-- `Reconcile` and `Start` of internal/dashboard/reconciler.go.
pub mod Runs
pub mod Frame
pub mod Lifecycle
pub mod Ticks
pub mod Panics
use pacto_operator.Prelude.{◌≡◌, refl, String, List, [], ◌∷◌}
use pacto_operator.Prelude.{ℕ, string_eq, if◌then◌else◌}
use pacto_operator.Message.{Attempt, sprintf, msg, done}
use pacto_operator.Credentials.{Codec}
use pacto_operator.Dashboard.Objects.{Quantity}
use pacto_operator.Dashboard.Config.{Config}
use pacto_operator.Dashboard.Cluster.{Cluster}
use pacto_operator.Dashboard.Action.{
  unless_panic, then_step, finish, Ended, ended_well, ended_with, ended_in_panic, Action,
}
use pacto_operator.Dashboard.Deploy.{deploy}
use pacto_operator.Dashboard.Cleanup.{cleanup}

-- `ctrl.Result` with the error: the time to the next run in seconds, and 0 where there is none.
pub record Outcome : Type 0 where
  pub requeue_after : ℕ
  pub ended : Ended

-- The result by how the body has ended: the time to the next run after the nil error, and after another.
unfoldable pub requeue : ℕ → ℕ → Ended → Outcome
requeue well ill ended_well = record { requeue_after = well; ended = ended_well }
requeue well ill (ended_with e) = record { requeue_after = ill; ended = ended_with e }
requeue well ill ended_in_panic = record { requeue_after = ill; ended = ended_in_panic }

pub ended-requeue : (well ill : ℕ) (e : Ended) → (requeue well ill e).ended ≡ e
unfolding requeue
ended-requeue well ill ended_well = refl
ended-requeue well ill (ended_with m) = refl
ended-requeue well ill ended_in_panic = refl

module _ {S : Type 0} (cluster : Cluster S) (codec : Codec)
    (parse_quantity : String → Attempt Quantity) (cfg : Config) where
  -- `Reconcile`
  unfoldable pub reconcile_dashboard : S → Outcome × S
  reconcile_dashboard s =
      if cfg.enabled
      then (let r = deploy cluster cfg codec parse_quantity s in (requeue 300 0 r.0, r.1))
      else (let r = cleanup cluster cfg s in (requeue 0 60 r.0, r.1))

  -- `Reconcile`, of which only the error is read.
  abbrev pub run_once : Action S
  run_once s = let r = reconcile_dashboard s in (r.0.ended, r.1)

  -- The loop of `Start`. A tick comes with what others did to the cluster since the last run; the
  -- end of the list is the end of the context. An error is logged, a panic ends the program.
  unfoldable pub run_ticks : List (S → S) → Action S
  run_ticks [] s = (ended_well, s)
  run_ticks (world ∷ worlds) s =
      let r = run_once (world s) in unless_panic r.0 (run_ticks worlds) r.1

  -- `Start`
  unfoldable pub start : List (S → S) → Action S
  start worlds =
      then_step "initial dashboard reconciliation failed: %w" run_once
        (if cfg.enabled then run_ticks worlds else finish)
