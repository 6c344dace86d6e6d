-- ===== src/Controller/Refusal.antt =====
-- Which contracts `Reconcile` of internal/controller/pacto_controller.go refuses: those that cannot be
-- loaded, overridden or validated, and the event that says so.
pub mod Quiet
pub mod Runtime
pub mod Reported
use pacto_operator.Prelude.{Bool, true, false, ◌||◌, Option, List, [], ◌∷◌, is_empty}
use pacto_operator.Message.{success, failure}
use pacto_operator.Api.Conditions.{EventReason, event_contract_invalid}
use pacto_operator.Api.Pacto.{Pacto}
use pacto_operator.Controller.Effects.{Effect, event, sample}
use pacto_operator.Controller.Overrides.{apply_configuration_overrides}
use pacto_operator.Controller.Revisions.{LoadResult}
use pacto_operator.Controller.Environment.{Environment}
use pacto_operator.Controller.Reconcile.{resolve_auth}

abbrev pub is_refusal : EventReason → Bool
is_refusal event_contract_invalid = true
is_refusal _ = false

-- The effects report a contract that is refused.
abbrev pub refuses : List Effect → Bool
refuses [] = false
refuses (event _ reason _ ∷ rest) = is_refusal reason || refuses rest
refuses (sample _ ∷ rest) = refuses rest

module _ {S A : Type 0} (env : Environment S A) where
  -- The overrides apply, and what they give is valid.
  abbrev pub is_usable_loaded : Pacto → LoadResult → Bool
  is_usable_loaded p lr = elim (apply_configuration_overrides lr.contract p.spec.overrides) [
    | failure e ↦ false
    | success (c, keys) ↦ is_empty (env.validate_contract c lr.raw_yaml lr.bundle_fs).errors
  ]

  -- The contract is loaded, its overrides apply, and what they give is valid.
  abbrev pub is_usable_with : Pacto → Option A → Bool
  is_usable_with p auth = elim (env.load auth p.spec.contract_ref.oci p.spec.contract_ref.inline) [
    | failure e ↦ false
    | success lr ↦ is_usable_loaded p lr
  ]

  -- The credentials are there, the contract is loaded, its overrides apply, and what they give is
  -- valid.
  abbrev pub is_usable : Pacto → Bool
  is_usable p = elim (resolve_auth env p) [
    | failure e ↦ false
    | success auth ↦ is_usable_with p auth
  ]
