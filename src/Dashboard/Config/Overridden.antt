-- ===== src/Dashboard/Config/Overridden.antt =====
-- Single quantities of internal/dashboard/config.go: which overrides pass, and what a list then holds.
use pacto_operator.Prelude.{String, none, some, List, [], ◌∷◌}
use pacto_operator.Prelude.{◌≡◌, refl, arith, ◌⊎◌, inl, inr, ◌==◌, string_eq}
use pacto_operator.Prelude.{if◌then◌else◌, All}
use pacto_operator.Prelude.Maps.{put, lookup, lookup-put}
use pacto_operator.Message.{Attempt, success, Attempt-cases}
use pacto_operator.Dashboard.Objects.{Quantity, ResourceList}
use pacto_operator.Dashboard.Config.{validate_quantities, must_parse, override_quantity}

module _ (parse_quantity : String → Attempt Quantity) where
  -- An override that is absent or a quantity.
  abbrev pub IsQuantity : String → Type 0
  IsQuantity v = (v ≡ "") ⊎ ((q : Quantity) × (parse_quantity v ≡ success q))

  pub validate_quantities_sound :
      (qs : List (String × String))
      → validate_quantities parse_quantity qs ≡ none
      → All (λ q. IsQuantity q.1) qs
  unfolding validate_quantities
  validate_quantities_sound [] h = tt
  validate_quantities_sound (q ∷ qs) h = elim (string_eq.dec q.1 "") [
    | yes e ↦ (inl e, validate_quantities_sound qs (ground arith))
    | no n ↦ elim (Attempt-cases (parse_quantity q.1)) [
      | inl (m, e) ↦ absurd (ground arith)
      | inr (a, e) ↦ (inr (a, e), validate_quantities_sound qs (ground arith))
    ]
  ]

  pub validate_quantities_complete :
      (qs : List (String × String))
      → All (λ q. IsQuantity q.1) qs
      → validate_quantities parse_quantity qs ≡ none
  unfolding validate_quantities
  validate_quantities_complete [] h = refl
  validate_quantities_complete (q ∷ qs) (inl e, h) =
      ground (arith, validate_quantities_complete qs h)
  validate_quantities_complete (q ∷ qs) (inr (a, e), h) =
      ground (arith, validate_quantities_complete qs h)

  -- An override that is good is made, and what a list then holds.
  pub override_made :
      (v key : String) (m : ResourceList)
      → IsQuantity v
      → (r : ResourceList) × (override_quantity parse_quantity v key m ≡ some r)
        × ((j : String)
            → lookup j r ≡ (
                if v == ""
                then lookup j m
                else if key == j
                then must_parse parse_quantity v
                else lookup j m))
  unfolding override_quantity must_parse
  override_made v key m (inl e) = (m, ground arith, λ j. ground arith)
  override_made v key m (inr (q, e)) = elim (string_eq.dec v "") [
    | yes z ↦ (m, ground arith, λ j. ground arith)
    | no z ↦ (put key q m, ground arith, λ j. ground (arith, lookup-put key j q m))
  ]

  pub override_needs :
      (v key : String) (m r : ResourceList)
      → override_quantity parse_quantity v key m ≡ some r
      → IsQuantity v
  unfolding override_quantity must_parse
  override_needs v key m r h = elim (string_eq.dec v "") [
    | yes z ↦ inl z
    | no z ↦ elim (Attempt-cases (parse_quantity v)) [
      | inl (x, e) ↦ absurd (ground arith)
      | inr (q, e) ↦ inr (q, e)
    ]
  ]
