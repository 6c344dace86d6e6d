-- ===== src/Prelude/Maps.antt =====
-- Maps from texts as association lists: `m[k] = v` replaces the entry of a key that is there.
use Prim.Native.String.{String}
use mathlib.Core.Path.{◌≡◌, refl}
use mathlib.Core.Bool.{false}
use mathlib.Core.Option.{Option, none, some}
use mathlib.Core.List.{List, [], ◌∷◌, map}
use native.Mathlib.Omega.{arith}
use pacto_operator.Prelude.Equality.{◌==◌, string_eq, if◌then◌else◌}
use pacto_operator.Prelude.Lists.{elem}

-- `m[k] = v`
unfoldable pub put {ℓ} : {V : Type ℓ} → String → V → List (String × V) → List (String × V)
put k v [] = (k, v) ∷ []
put k v (entry ∷ m) = let rest = put k v m in if entry.0 == k then (k, v) ∷ m else entry ∷ rest

-- `m[k]`
unfoldable pub lookup {ℓ} : {V : Type ℓ} → String → List (String × V) → Option V
lookup k [] = none
lookup k (entry ∷ m) = let rest = lookup k m in if entry.0 == k then some entry.1 else rest

pub lookup-put :
    {V : Type 0} (k j : String) (v : V) (m : List (String × V))
    → lookup j (put k v m) ≡ (if k == j then some v else lookup j m)
unfolding lookup put
lookup-put k j v [] = ground arith
lookup-put k j v (entry ∷ m) = ground (arith, lookup-put k j v m)

abbrev pub keys {ℓ} : {V : Type ℓ} → List (String × V) → List String
keys = map (λ entry. entry.0)

pub lookup-none :
    {V : Type 0} (j : String) (vs : List (String × V))
    → elem j (keys vs) ≡ false
    → lookup j vs ≡ none
unfolding lookup
lookup-none j [] h = refl
lookup-none j (entry ∷ vs) h = ground (arith, lookup-none j vs)
