-- ===== src/Validator/Coverage.antt =====
-- Every check of a validation sets a condition of its own, and only the existence of the Service and
-- of the workload decides on NonCompliant.
use pacto_operator.Prelude.{Bool, true, false, ◌&&◌, not, Option, none, some, List, [], ◌∷◌}
use pacto_operator.Prelude.{
  map, ◌≡◌, refl, arith, ℤ, String, select, select-nil, select-cons, cons_if, cons_if-append,
  Distinct, select-Distinct, Bool-cases,
}
use pacto_operator.Prelude.{if◌then◌else◌, ◌!=◌, string_eq, Option-cases, inl, inr}
use pacto_operator.Api.Spec.{is_nil}
use mathlib.Core.List.{map-append}
use pacto_operator.Contract.{Contract, Runtime, Service, Lifecycle}
use pacto_operator.Api.Conditions.{
  ConditionType, condition_type_eq, service_exists, workload_exists, ports_valid,
  workload_type_match, state_model_match, upgrade_strategy_match, graceful_shutdown_match,
  image_match, health_timing_match,
}
use pacto_operator.Observer.{RuntimeSnapshot}
use pacto_operator.Validator.Check.{Check}
use pacto_operator.Validator.RuntimeChecks.{check_workload_type, check_state_model}
use pacto_operator.Validator.RuntimeChecks.{check_upgrade_strategy, check_graceful_shutdown}
use pacto_operator.Validator.RuntimeChecks.{check_image, check_health_timing}
use pacto_operator.Validator.Validate.{
  runtime_checks, lifecycle_checks, image_checks, health_checks,
}
use pacto_operator.Validator.Ports.{check_ports}
use pacto_operator.Validator.Validate.{validate, runtime_step, ports_step}
use pacto_operator.Validator.Validate.{check_service_exists, check_workload_exists}

module _ (snap : RuntimeSnapshot) where
  name-check_workload_type : (r : Runtime) → (check_workload_type r snap).name ≡ workload_type_match
  unfolding check_workload_type
  name-check_workload_type r = ground arith

  name-check_state_model : (r : Runtime) → (check_state_model r snap).name ≡ state_model_match
  unfolding check_state_model
  name-check_state_model r = ground arith

  name-check_upgrade_strategy :
      (s : String) → (check_upgrade_strategy s snap).name ≡ upgrade_strategy_match
  unfolding check_upgrade_strategy
  name-check_upgrade_strategy s = ground arith

  name-check_graceful_shutdown :
      (s : ℤ) → (check_graceful_shutdown s snap).name ≡ graceful_shutdown_match
  unfolding check_graceful_shutdown
  name-check_graceful_shutdown s = ground arith

  name-check_image : (s : String) → (check_image s snap).name ≡ image_match
  unfolding check_image
  name-check_image s = ground arith

  name-check_health_timing : (s : ℤ) → (check_health_timing s snap).name ≡ health_timing_match
  unfolding check_health_timing
  name-check_health_timing s = ground arith

abbrev pub names : List Check → List ConditionType
names = map (λ c. c.name)

if_names : (b : Bool) (c : Check) → names (if b then c ∷ [] else []) ≡ cons_if b c.name []
if_names true c = refl
if_names false c = refl

abbrev declares_strategy : Option Lifecycle → Bool
declares_strategy none = false
declares_strategy (some l) = l.upgrade_strategy != ""

abbrev declares_shutdown : Option Lifecycle → Bool
declares_shutdown none = false
declares_shutdown (some l) = not (is_nil l.graceful_shutdown_seconds)

abbrev declares_image : Service → Bool
declares_image s = elim s.image [ none ↦ false | some i ↦ i.ref != "" ]

abbrev declares_delay : Runtime → Bool
declares_delay r = elim r.health [ none ↦ false | some h ↦ not (is_nil h.initial_delay_seconds) ]

-- What the declared runtime asks to be checked of a workload that exists.
abbrev runtime_due : Service → Runtime → ConditionType → Bool
runtime_due s r workload_type_match = true
runtime_due s r state_model_match = true
runtime_due s r upgrade_strategy_match = declares_strategy r.lifecycle
runtime_due s r graceful_shutdown_match = declares_shutdown r.lifecycle
runtime_due s r image_match = declares_image s
runtime_due s r health_timing_match = declares_delay r
runtime_due s r _ = false

-- Whether a validation owes a condition, from the contract and the snapshot. The ports are owed without
-- regard to the declared ones, as in the code; a comment in internal/validator/validator.go says
-- otherwise.
abbrev pub is_due : Contract → RuntimeSnapshot → Bool → ConditionType → Bool
is_due c snap has_service service_exists = has_service
is_due c snap has_service workload_exists = true
is_due c snap has_service ports_valid = has_service && snap.service_exists
is_due c snap has_service t =
    snap.workload_exists && elim c.runtime [ none ↦ false | some r ↦ runtime_due c.service r t ]

abbrev pub runtime_order : List ConditionType
runtime_order =
    workload_type_match ∷ state_model_match ∷ upgrade_strategy_match ∷ graceful_shutdown_match
    ∷ image_match ∷ health_timing_match ∷ []

-- The conditions of a validation, in the order of its checks.
abbrev pub validation_order : List ConditionType
validation_order = service_exists ∷ workload_exists ∷ ports_valid ∷ runtime_order

names-lifecycle_checks :
    (l : Option Lifecycle) (snap : RuntimeSnapshot)
    → names (lifecycle_checks l snap)
      ≡ cons_if
          (declares_strategy l)
          upgrade_strategy_match
          (cons_if (declares_shutdown l) graceful_shutdown_match [])
unfolding lifecycle_checks
names-lifecycle_checks none snap = refl
names-lifecycle_checks (some l) snap = elim (Option-cases l.graceful_shutdown_seconds) [
  | inl e ↦ rw e (ground (arith, name-check_upgrade_strategy snap l.upgrade_strategy))
  | inr (g, e) ↦ rw e (
      ground (
        arith,
        name-check_upgrade_strategy snap l.upgrade_strategy,
        name-check_graceful_shutdown snap g,
      ))
]

names-image_checks :
    (s : Service) (snap : RuntimeSnapshot)
    → names (image_checks s snap) ≡ cons_if (declares_image s) image_match []
unfolding image_checks
names-image_checks s snap = elim (Option-cases s.image) [
  | inl e ↦ rw e refl
  | inr (i, e) ↦ rw e (ground (arith, name-check_image snap i.ref))
]

names-health_checks :
    (r : Runtime) (snap : RuntimeSnapshot)
    → names (health_checks r snap) ≡ cons_if (declares_delay r) health_timing_match []
unfolding health_checks
names-health_checks r snap = elim (Option-cases r.health) [
  | inl e ↦ rw e refl
  | inr (h, e) ↦ rw e (elim (Option-cases h.initial_delay_seconds) [
    | inl n ↦ rw n refl
    | inr (d, n) ↦ rw n (ground (arith, name-check_health_timing snap d))
  ])
]

names-runtime_checks :
    (s : Service) (r : Runtime) (snap : RuntimeSnapshot)
    → names (runtime_checks s r snap) ≡ select (runtime_due s r) runtime_order
unfolding runtime_checks
names-runtime_checks s r snap = simp (
  map-append, name-check_workload_type, name-check_state_model, names-lifecycle_checks,
  names-image_checks, names-health_checks, cons_if-append, select-cons, select-nil,
)

pub names-runtime_step :
    (c : Contract) (snap : RuntimeSnapshot) (hs : Bool)
    → names (runtime_step c snap) ≡ select (is_due c snap hs) runtime_order
unfolding runtime_step
names-runtime_step c snap hs = elim (Bool-cases snap.workload_exists) [
  | inr e ↦ simp (e, select-cons, select-nil)
  | inl e ↦ elim (Option-cases c.runtime) [
    | inl n ↦ simp (e, n, select-cons, select-nil)
    | inr (r, n) ↦ simp (e, n, names-runtime_checks, select-cons, select-nil)
  ]
]

pub names-ports_step :
    (c : Contract) (snap : RuntimeSnapshot) (hs : Bool)
    → names (ports_step c snap hs).0 ≡ cons_if (hs && snap.service_exists) ports_valid []
unfolding ports_step check_ports
names-ports_step c snap hs = ground arith

name-check_service_exists :
    (snap : RuntimeSnapshot) → (check_service_exists snap).name ≡ service_exists
unfolding check_service_exists
name-check_service_exists snap = ground arith

name-check_workload_exists :
    (snap : RuntimeSnapshot) → (check_workload_exists snap).name ≡ workload_exists
unfolding check_workload_exists
name-check_workload_exists snap = ground arith

-- For every contract and snapshot, the conditions of the checks are the ones that are due, each
-- once, in the fixed order of the conditions. The one of the ports is due where a target has a
-- Service that is there, whether or not the contract declares a port.
pub names-validate :
    (c : Contract) (snap : RuntimeSnapshot) (hs : Bool)
    → names (validate c snap hs).checks ≡ select (is_due c snap hs) validation_order
unfolding validate
names-validate c snap hs = simp (
  map-append,
  if_names,
  name-check_service_exists,
  name-check_workload_exists,
  names-ports_step,
  names-runtime_step c snap hs,
  cons_if-append,
  select-cons,
  select-nil,
)

order-Distinct : Distinct validation_order
unfolding condition_type_eq
order-Distinct = (refl, (refl, (refl, (refl, (refl, (refl, (refl, (refl, (refl, tt)))))))))

-- For every contract and snapshot, no two checks set the same condition.
pub validate-Distinct :
    (c : Contract) (snap : RuntimeSnapshot) (hs : Bool)
    → Distinct (names (validate c snap hs).checks)
validate-Distinct c snap hs =
    rw names-validate (select-Distinct (is_due c snap hs) validation_order order-Distinct)
