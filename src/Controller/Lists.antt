-- ===== src/Controller/Lists.antt =====
-- Functions on condition lists as a concrete program, which behaves as the controller relies on.
use pacto_operator.Prelude.{false, Option, none, some, List, [], ◌∷◌, ◌++◌, ◌≡◌, refl}
use pacto_operator.Prelude.{elem, ◌==◌, if◌then◌else◌, arith}
use pacto_operator.Api.Conditions.{ConditionType, condition_type_eq}
use pacto_operator.Api.Status.{Condition}
use pacto_operator.Controller.Conditions.{ConditionLists, IsLawful, types}

unfoldable pub set_status : List Condition → Condition → List Condition
set_status [] c = c ∷ []
set_status (d ∷ ds) c = let rest = set_status ds c in if d.type == c.type then c ∷ ds else d ∷ rest

unfoldable pub find_status : List Condition → ConditionType → Option Condition
find_status [] t = none
find_status (d ∷ ds) t = let rest = find_status ds t in if d.type == t then some d else rest

abbrev pub lists : ConditionLists
lists = record { set_status_condition = set_status; find_status_condition = find_status }

set_status_new :
    (cs : List Condition) (c : Condition)
    → elem c.type (types cs) ≡ false
    → set_status cs c ≡ cs ++ (c ∷ [])
unfolding set_status
set_status_new [] c h = refl
set_status_new (d ∷ ds) c h = ground (arith, set_status_new ds c)

set_status_old :
    (before : List Condition) (old : Condition) (after : List Condition) (c : Condition)
    → elem c.type (types before) ≡ false
    → old.type ≡ c.type
    → set_status (before ++ (old ∷ after)) c ≡ before ++ (c ∷ after)
unfolding set_status
set_status_old [] old after c h e = ground arith
set_status_old (d ∷ ds) old after c h e = ground (arith, set_status_old ds old after c)

find_status-set_status :
    (cs : List Condition) (c : Condition) → find_status (set_status cs c) c.type ≡ some c
unfolding set_status find_status
find_status-set_status [] c = ground arith
find_status-set_status (d ∷ ds) c = ground (arith, find_status-set_status ds c)

pub lists-IsLawful : IsLawful lists
lists-IsLawful = record {
  set-new = set_status_new;
  set-old = set_status_old;
  find-set = find_status-set_status;
}
