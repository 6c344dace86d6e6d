-- ===== src/Dashboard/Config/Quantities.antt =====
-- `BuildResources` of internal/dashboard/config.go after `Validate`: no quantity panics.
use pacto_operator.Prelude.{String, Option, none, some, [], ◌∷◌}
use pacto_operator.Prelude.{◌≡◌, ◌≢◌, refl, ap, sym, subst, Bool, arith, inl, inr, ◌==◌, string_eq}
use pacto_operator.Prelude.{if◌then◌else◌, Option-cases}
use pacto_operator.Prelude.Maps.{lookup}
use pacto_operator.Message.{Attempt, success, Message}
use pacto_operator.Dashboard.Objects.{Quantity, ResourceList, ResourceRequirements}
use pacto_operator.Dashboard.Config.{
  ResourcesConfig, resource_cpu, resource_memory, validate_resources, must_parse, default_resources,
  override_quantity, build_resources,
}
use pacto_operator.Dashboard.Config.Overridden.{
  IsQuantity, validate_quantities_sound, validate_quantities_complete, override_made,
  override_needs,
}

-- The text that counts: the override where there is one.
abbrev pub either_text : String → String → String
either_text value default = if value == "" then default else value

cpu_ne_memory : resource_cpu ≢ resource_memory
unfolding string_eq
cpu_ne_memory e = ground (arith, ap is_cpu e)
  where
    is_cpu : String → Bool
    is_cpu s = s == "cpu"

memory_ne_cpu : resource_memory ≢ resource_cpu
memory_ne_cpu e = cpu_ne_memory (sym e)

module _ (parse_quantity : String → Attempt Quantity) where
  -- The built-in defaults are quantities.
  pub record KnowsDefaults : Type 0 where
    pub fifty_m : (q : Quantity) × (parse_quantity "50m" ≡ success q)
    pub mi_128 : (q : Quantity) × (parse_quantity "128Mi" ≡ success q)
    pub mi_512 : (q : Quantity) × (parse_quantity "512Mi" ≡ success q)

  -- The requirements that a configuration describes.
  abbrev pub IsEffective : ResourcesConfig → ResourceRequirements → Type 0
  IsEffective rc res =
      (lookup resource_cpu res.requests
        ≡ must_parse parse_quantity (either_text rc.cpu_request "50m"))
      × (lookup resource_memory res.requests
          ≡ must_parse parse_quantity (either_text rc.memory_request "128Mi"))
      × (lookup resource_cpu res.limits
          ≡ (if rc.cpu_limit == "" then none else must_parse parse_quantity rc.cpu_limit))
      × (lookup resource_memory res.limits
          ≡ must_parse parse_quantity (either_text rc.memory_limit "512Mi"))

  default_made :
      KnowsDefaults
      → (res : ResourceRequirements) × (default_resources parse_quantity ≡ some res)
        × (lookup resource_cpu res.requests ≡ must_parse parse_quantity "50m")
        × (lookup resource_memory res.requests ≡ must_parse parse_quantity "128Mi")
        × (lookup resource_cpu res.limits ≡ none)
        × (lookup resource_memory res.limits ≡ must_parse parse_quantity "512Mi")
  unfolding default_resources must_parse lookup string_eq
  default_made known =
      let (cpu, e1) = known.fifty_m in
      let (memory, e2) = known.mi_128 in
      let (limit, e3) = known.mi_512 in
      (
        record {
          requests = (resource_cpu, cpu) ∷ (resource_memory, memory) ∷ [];
          limits = (resource_memory, limit) ∷ [];
        },
        rw (default_resources, must_parse, e1, e2, e3) refl,
        rw (must_parse, e1) refl,
        rw (must_parse, e2) refl,
        refl,
        rw (must_parse, e3) refl,
      )

  build_resources_made :
      KnowsDefaults
      → (rc : ResourcesConfig) → IsQuantity parse_quantity rc.cpu_request
      → IsQuantity parse_quantity rc.cpu_limit
      → IsQuantity parse_quantity rc.memory_request
      → IsQuantity parse_quantity rc.memory_limit
      → (res : ResourceRequirements) × (build_resources parse_quantity rc ≡ some res)
        × IsEffective rc res
  unfolding build_resources
  build_resources_made known rc q1 q2 q3 q4 =
      let (d, e, c1, m1, c2, m2) = default_made known in
      let (r1, e1, f1) = override_made parse_quantity rc.cpu_request resource_cpu d.requests q1 in
      let (r2, e2, f2) = override_made parse_quantity rc.memory_request resource_memory r1 q3 in
      let (l1, e3, f3) = override_made parse_quantity rc.cpu_limit resource_cpu d.limits q2 in
      let (l2, e4, f4) = override_made parse_quantity rc.memory_limit resource_memory l1 q4 in
      (
        record { requests = r2; limits = l2 },
        rw (build_resources, e, e1, e2, e3, e4) refl,
        (
          ground (arith, f1 resource_cpu, f2 resource_cpu, memory_ne_cpu),
          ground (arith, f1 resource_memory, f2 resource_memory, cpu_ne_memory),
          ground (arith, f3 resource_cpu, f4 resource_cpu, memory_ne_cpu),
          ground (arith, f3 resource_memory, f4 resource_memory, cpu_ne_memory),
        ),
      )

  build_resources_needs :
      (rc : ResourcesConfig) (res : ResourceRequirements)
      → build_resources parse_quantity rc ≡ some res
      → IsQuantity parse_quantity rc.cpu_request
        × IsQuantity parse_quantity rc.cpu_limit
        × IsQuantity parse_quantity rc.memory_request
        × IsQuantity parse_quantity rc.memory_limit
  unfolding build_resources
  build_resources_needs rc res h = elim (Option-cases (default_resources parse_quantity)) [
    | inl n ↦ absurd (ground arith)
    | inr (d, e) ↦
        let (r1, e1) =
          made (override_quantity parse_quantity rc.cpu_request resource_cpu d.requests)
            (ground arith) in
        let (r2, e2) =
          made (override_quantity parse_quantity rc.memory_request resource_memory r1)
            (ground arith) in
        let (l1, e3) =
          made (override_quantity parse_quantity rc.cpu_limit resource_cpu d.limits)
            (ground arith) in
        let (l2, e4) =
          made (override_quantity parse_quantity rc.memory_limit resource_memory l1)
            (ground arith) in
        (
          override_needs parse_quantity rc.cpu_request resource_cpu d.requests r1 e1,
          override_needs parse_quantity rc.cpu_limit resource_cpu d.limits l1 e3,
          override_needs parse_quantity rc.memory_request resource_memory r1 r2 e2,
          override_needs parse_quantity rc.memory_limit resource_memory l1 l2 e4,
        )
  ]
    where
      made : (o : Option ResourceList) → o ≢ none → (r : ResourceList) × (o ≡ some r)
      made none n = absurd (n refl)
      made (some r) n = (r, refl)

  pub valid_is_built :
      KnowsDefaults
      → (rc : ResourcesConfig) → validate_resources parse_quantity rc ≡ none
      → (res : ResourceRequirements) × (build_resources parse_quantity rc ≡ some res)
        × IsEffective rc res
  unfolding validate_resources
  valid_is_built known rc h =
      let (q1, (q2, (q3, (q4, _)))) = validate_quantities_sound parse_quantity _ h in
      build_resources_made known rc q1 q2 q3 q4

  -- What Validate and BuildResources answer to one configuration, side by side.
  abbrev pub Agree : ResourcesConfig → Option Message → Option ResourceRequirements → Type 0
  Agree rc none none = ⊥
  Agree rc none (some res) = IsEffective rc res
  Agree rc (some e) none = Unit
  Agree rc (some e) (some res) = ⊥

  -- For a parser that reads the built-in defaults, and every configuration of resources: either Validate
  -- finds an error and BuildResources panics, or there is no error, and what is built has for each
  -- quantity the override where there is one and the default otherwise, with no default for the CPU
  -- limit.
  pub build_resources-validate_resources :
      KnowsDefaults
      → (rc : ResourcesConfig)
      → Agree rc (validate_resources parse_quantity rc) (build_resources parse_quantity rc)
  unfolding validate_resources
  build_resources-validate_resources known rc =
      by_answers (validate_resources parse_quantity rc) (build_resources parse_quantity rc) refl
        refl
    where
      built_is_valid :
          (res : ResourceRequirements)
          → build_resources parse_quantity rc ≡ some res
          → validate_resources parse_quantity rc ≡ none
      built_is_valid res e =
          let (q1, q2, q3, q4) = build_resources_needs rc res e in
          validate_quantities_complete parse_quantity _ (q1, (q2, (q3, (q4, tt))))

      by_answers :
          (v : Option Message) (b : Option ResourceRequirements)
          → validate_resources parse_quantity rc ≡ v
          → build_resources parse_quantity rc ≡ b
          → Agree rc v b
      by_answers none none ev eb =
          let (res, e, effective) = valid_is_built known rc ev in absurd (ground (arith, e, eb))
      by_answers none (some b) ev eb =
          let (res, e, effective) = valid_is_built known rc ev in
          let same : res ≡ b = ground (arith, e, eb) in subst (IsEffective rc) same effective
      by_answers (some m) none ev eb = tt
      by_answers (some m) (some b) ev eb = absurd (ground (arith, built_is_valid b eb, ev))
