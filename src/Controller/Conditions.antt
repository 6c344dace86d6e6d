-- ===== src/Controller/Conditions.antt =====
-- The functions on condition lists of k8s.io/apimachinery (api/meta), which are not part of the
-- repository: a parameter, with the behaviour that the package documents.
use pacto_operator.Prelude.{false, Option, some, List, [], ◌∷◌, ◌++◌, map, ◌≡◌, elem}
use pacto_operator.Api.Conditions.{ConditionType, condition_type_eq}
use pacto_operator.Api.Status.{Condition}

pub record ConditionLists : Type 0 where
  pub set_status_condition : List Condition → Condition → List Condition
  pub find_status_condition : List Condition → ConditionType → Option Condition

abbrev pub types : List Condition → List ConditionType
types = map (λ c. c.type)

-- A condition of a new type is appended; one of a type that is there takes the place of the old one.
pub record IsLawful (l : ConditionLists) : Type 0 where
  pub set-new :
      (cs : List Condition) (c : Condition)
      → elem c.type (types cs) ≡ false
      → l.set_status_condition cs c ≡ cs ++ (c ∷ [])
  pub set-old :
      (before : List Condition) (old : Condition) (after : List Condition) (c : Condition)
      → elem c.type (types before) ≡ false
      → old.type ≡ c.type
      → l.set_status_condition (before ++ (old ∷ after)) c ≡ before ++ (c ∷ after)
  -- The condition that was set is found.
  pub find-set :
      (cs : List Condition) (c : Condition)
      → l.find_status_condition (l.set_status_condition cs c) c.type ≡ some c
