-- ===== src/Validator/Compliance.antt =====
-- What a snapshot must look like for a contract to be Compliant, and when it is NonCompliant.
use text.Mathlib.TextEquality.{eq_iff}
use pacto_operator.Prelude.{String, true, false, Option, none, some, [], ◌∷◌}
use pacto_operator.Prelude.{◌++◌, ◌≡◌, ◌≢◌, ◌↔◌, inl, inr, arith, ℤ, int32, int_eq, string_eq}
use pacto_operator.Prelude.{All, All-append_iff, Whenever, Option-cases}
use pacto_operator.Contract.{Runtime, Service, Lifecycle}
use pacto_operator.Observer.{RuntimeSnapshot}
use pacto_operator.Validator.Image.{image_matches}
use pacto_operator.Validator.RuntimeChecks.{
  workload_fits, check_workload_type, check_state_model, strategy_fits, check_upgrade_strategy,
  check_graceful_shutdown, check_image, check_health_timing,
}
use pacto_operator.Validator.Verdict.{Passes}
use pacto_operator.Validator.Validate.{
  lifecycle_checks, image_checks, health_checks, runtime_checks,
}

distinct_types :
    (◌≢◌ {A = String} "stateful" "stateless")
    × (◌≢◌ {A = String} "stateful" "hybrid")
    × (◌≢◌ {A = String} "stateless" "hybrid")
distinct_types = (
  ground (arith, eq_iff "stateful" "stateless"),
  ground (arith, eq_iff "stateful" "hybrid"),
  ground (arith, eq_iff "stateless" "hybrid"),
)

-- What each state model asks of the workload's storage.
pub record StateFits (r : Runtime) (snap : RuntimeSnapshot) : Type 0 where
  pub stateful : r.state.type ≡ "stateful" → snap.workload_kind ≡ "StatefulSet"
  pub stateful_storage :
      r.state.type ≡ "stateful"
      → r.state.persistence.durability ≡ "persistent"
      → snap.has_pvc ≡ true
  pub stateless : r.state.type ≡ "stateless" → snap.has_pvc ≡ false
  pub hybrid_storage :
      r.state.type ≡ "hybrid" → r.state.persistence.durability ≡ "persistent" → snap.has_pvc ≡ true

-- For every runtime section and snapshot, the check of the state model passes exactly when a
-- stateful service is a StatefulSet, has a claim if its storage is persistent, a stateless one has
-- no claim, and a hybrid one with persistent storage has a claim.
pub check_state_model-passed :
    (r : Runtime) (snap : RuntimeSnapshot) → Passes (check_state_model r snap) ↔ StateFits r snap
unfolding check_state_model
check_state_model-passed r snap = ground (arith, distinct_types)

check_workload_type-passed :
    (r : Runtime) (snap : RuntimeSnapshot)
    → Passes (check_workload_type r snap) ↔ (workload_fits r.workload snap.workload_kind ≡ true)
unfolding check_workload_type
check_workload_type-passed r snap = ground arith

-- The strategy that the snapshot shows: a Deployment's, or else a StatefulSet's, or none.
abbrev pub StrategyFits : String → RuntimeSnapshot → Type 0
StrategyFits s snap =
    (snap.deployment_strategy ≢ "" → strategy_fits s snap.deployment_strategy ≡ true)
    × (snap.deployment_strategy ≡ ""
        → snap.pod_management_policy ≢ ""
        → strategy_fits s snap.pod_management_policy ≡ true)

check_upgrade_strategy-passed :
    (s : String) (snap : RuntimeSnapshot)
    → Passes (check_upgrade_strategy s snap) ↔ StrategyFits s snap
unfolding check_upgrade_strategy
check_upgrade_strategy-passed s snap = ground arith

check_graceful_shutdown-passed :
    (g : ℤ) (snap : RuntimeSnapshot)
    → Passes (check_graceful_shutdown g snap) ↔ (snap.termination_grace_period ≡ some g)
unfolding check_graceful_shutdown
check_graceful_shutdown-passed g snap = ground arith

abbrev pub ImageFits : String → RuntimeSnapshot → Type 0
ImageFits ref snap = elim snap.container_images [ [] ↦ ⊥ | a ∷ _ ↦ image_matches ref a ≡ true ]

check_image-passed :
    (ref : String) (snap : RuntimeSnapshot) → Passes (check_image ref snap) ↔ ImageFits ref snap
unfolding check_image
check_image-passed ref snap = ground arith

check_health_timing-passed :
    (d : ℤ) (snap : RuntimeSnapshot)
    → Passes (check_health_timing d snap) ↔ (snap.health_probe_initial_delay ≡ some (int32 d))
unfolding check_health_timing
check_health_timing-passed d snap = ground arith

abbrev pub LifecycleComplies : Lifecycle → RuntimeSnapshot → Type 0
LifecycleComplies l snap =
    (l.upgrade_strategy ≢ "" → StrategyFits l.upgrade_strategy snap)
    × Whenever l.graceful_shutdown_seconds (λ g. snap.termination_grace_period ≡ some g)

lifecycle_checks-passed :
    (l : Lifecycle) (snap : RuntimeSnapshot)
    → All Passes (lifecycle_checks (some l) snap) ↔ LifecycleComplies l snap
unfolding lifecycle_checks
lifecycle_checks-passed l snap = elim (Option-cases l.graceful_shutdown_seconds) [
  | inl n ↦ rw n (ground (arith, check_upgrade_strategy-passed l.upgrade_strategy snap))
  | inr (g, e) ↦ rw e (
      ground (
        arith,
        check_upgrade_strategy-passed l.upgrade_strategy snap,
        check_graceful_shutdown-passed g snap,
      ))
]

abbrev pub ImageComplies : Service → RuntimeSnapshot → Type 0
ImageComplies s snap = Whenever s.image (λ i. i.ref ≢ "" → ImageFits i.ref snap)

image_checks-passed :
    (s : Service) (snap : RuntimeSnapshot) → All Passes (image_checks s snap) ↔ ImageComplies s snap
unfolding image_checks
image_checks-passed s snap = elim (Option-cases s.image) [
  | inl n ↦ rw n (ground arith)
  | inr (i, e) ↦ rw e (ground (arith, check_image-passed i.ref snap))
]

abbrev pub HealthComplies : Runtime → RuntimeSnapshot → Type 0
HealthComplies r snap =
    Whenever r.health (λ h.
      Whenever h.initial_delay_seconds (λ d. snap.health_probe_initial_delay ≡ some (int32 d)))

health_checks-passed :
    (r : Runtime) (snap : RuntimeSnapshot)
    → All Passes (health_checks r snap) ↔ HealthComplies r snap
unfolding health_checks
health_checks-passed r snap = elim (Option-cases r.health) [
  | inl n ↦ rw n (ground arith)
  | inr (h, e) ↦ rw e (elim (Option-cases h.initial_delay_seconds) [
    | inl n ↦ rw n (ground arith)
    | inr (d, n) ↦ rw n (ground (arith, check_health_timing-passed d snap))
  ])
]

-- What a declared runtime asks of a workload that exists.
pub record RuntimeComplies (s : Service) (r : Runtime) (snap : RuntimeSnapshot) : Type 0 where
  pub workload_type : workload_fits r.workload snap.workload_kind ≡ true
  pub state_model : StateFits r snap
  pub lifecycle : Whenever r.lifecycle (λ l. LifecycleComplies l snap)
  pub image : ImageComplies s snap
  pub health : HealthComplies r snap

lifecycle-passed :
    (l : Option Lifecycle) (snap : RuntimeSnapshot)
    → All Passes (lifecycle_checks l snap) ↔ Whenever l (λ l. LifecycleComplies l snap)
unfolding lifecycle_checks
lifecycle-passed none snap = (λ h. h, λ h. h)
lifecycle-passed (some l) snap = lifecycle_checks-passed l snap

pub runtime_checks-passed :
    (s : Service) (r : Runtime) (snap : RuntimeSnapshot)
    → All Passes (runtime_checks s r snap) ↔ RuntimeComplies s r snap
unfolding runtime_checks
runtime_checks-passed s r snap =
    let type = check_workload_type-passed r snap in
    let state = check_state_model-passed r snap in
    let lifecycle = lifecycle-passed r.lifecycle snap in
    let image = image_checks-passed s snap in
    let health = health_checks-passed r snap in
    let split =
      All-append_iff Passes (lifecycle_checks r.lifecycle snap)
        (image_checks s snap ++ health_checks r snap) in
    let split_rest = All-append_iff Passes (image_checks s snap) (health_checks r snap) in
    (
      λ h.
          let (l, others) = split.0 h.1.1 in
          let (i, d) = split_rest.0 others in
          record {
            workload_type = type.0 h.0;
            state_model = state.0 h.1.0;
            lifecycle = lifecycle.0 l;
            image = image.0 i;
            health = health.0 d;
          },
      λ h. (
        type.1 h.workload_type,
        (
          state.1 h.state_model,
          split.1 (lifecycle.1 h.lifecycle, split_rest.1 (image.1 h.image, health.1 h.health)),
        ),
      ),
    )
