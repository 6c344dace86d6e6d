-- ===== src/Dashboard/Action.antt =====
-- The methods of internal/dashboard/reconciler.go as actions on the state of the cluster: what was written
-- stays written when a later call fails.
use pacto_operator.Prelude.{String, Option, none, some}
use pacto_operator.Dashboard.Objects.{Object}
use pacto_operator.Dashboard.Cluster.{Cluster}
use pacto_operator.Message.{Message, sprintf, msg, done}

-- How a method ends: with the nil error, with an error, or in a panic.
pub data Ended : Type 0 where
  ended_well : Ended
  ended_with : Message → Ended
  ended_in_panic : Ended

abbrev pub ended_of : Option Message → Ended
ended_of none = ended_well
ended_of (some e) = ended_with e

abbrev pub Action : Type 0 → Type 0
Action S = S → Ended × S

module _ {S : Type 0} where
  -- `if err := m; err != nil { return fmt.Errorf(format, err) }`, and then `rest`.
  unfoldable pub then_step : String → Action S → Action S → Action S
  then_step format m rest s =
      let r = m s in
      elim r.0 [
        | ended_well ↦ rest r.1
        | ended_with e ↦ (ended_with (sprintf format (msg e done)), r.1)
        | ended_in_panic ↦ (ended_in_panic, r.1)
      ]

  -- What follows a run whose error is only logged.
  unfoldable pub unless_panic : Ended → Action S → Action S
  unless_panic ended_in_panic rest s = (ended_in_panic, s)
  unless_panic ended_well rest s = rest s
  unless_panic (ended_with e) rest s = rest s

  abbrev pub finish : Action S
  finish s = (ended_well, s)

  -- `r.Apply(ctx, o, …)`
  abbrev pub apply_object : Cluster S → Object → Action S
  apply_object cluster o s = let r = cluster.apply o s in (ended_of r.0, r.1)
