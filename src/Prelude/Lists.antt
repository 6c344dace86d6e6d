-- ===== src/Prelude/Lists.antt =====
-- Lists measured by native numbers, tests on lists, and predicates by recursion.
use Prim.Native.Nat.{ℕ, suc, ◌+◌}
use mathlib.Core.Path.{◌≡◌, refl}
use mathlib.Core.Logic.{◌↔◌}
use mathlib.Core.Bool.{Bool, true, false, ◌||◌, ◌&&◌}
use mathlib.Core.Option.{Option, none, some}
use mathlib.Core.List.{List, [], ◌∷◌, ◌++◌}
use native.Mathlib.Omega.{arith}
use pacto_operator.Prelude.Equality.{Eq, ◌==◌}

module _ {ℓ} {A : Type ℓ} where
  abbrev pub length : List A → ℕ
  length [] = 0
  length (_ ∷ xs) = suc (length xs)

  pub length-append : (xs ys : List A) → length (xs ++ ys) ≡ length xs + length ys
  length-append [] ys = omega arith
  length-append (_ ∷ xs) ys = omega (arith, length-append xs ys)

  abbrev pub is_empty : List A → Bool
  is_empty [] = true
  is_empty (_ ∷ _) = false

  abbrev pub cons_if : Bool → A → List A → List A
  cons_if true x xs = x ∷ xs
  cons_if false x xs = xs

  pub cons_if-append :
      (b : Bool) (x : A) (xs ys : List A) → cons_if b x xs ++ ys ≡ cons_if b x (xs ++ ys)
  cons_if-append true x xs ys = refl
  cons_if-append false x xs ys = refl

  -- The elements that pass a test, in their order.
  unfoldable pub select : (A → Bool) → List A → List A
  select p [] = []
  select p (x ∷ xs) = cons_if (p x) x (select p xs)

  pub select-nil : (p : A → Bool) → select p [] ≡ []
  unfolding select
  select-nil p = refl

  pub select-cons :
      (p : A → Bool) (x : A) (xs : List A) → select p (x ∷ xs) ≡ cons_if (p x) x (select p xs)
  unfolding select
  select-cons p x xs = refl

  abbrev pub All {κ} : (A → Type κ) → List A → Type κ
  All P [] = Unit
  All P (x ∷ xs) = P x × All P xs

  pub All-append {κ} : (P : A → Type κ) (xs ys : List A) → All P xs → All P ys → All P (xs ++ ys)
  All-append P [] ys hx hy = hy
  All-append P (x ∷ xs) ys hx hy = (hx.0, All-append P xs ys hx.1 hy)

  pub All-append_iff {κ} :
      (P : A → Type κ) (xs ys : List A) → All P (xs ++ ys) ↔ (All P xs × All P ys)
  All-append_iff P [] ys = (λ h. (tt, h), λ h. h.1)
  All-append_iff P (x ∷ xs) ys =
      let ih = All-append_iff P xs ys in
      (λ h. ((h.0, (ih.0 h.1).0), (ih.0 h.1).1), λ h. (h.0.0, ih.1 (h.0.1, h.1)))

  pub All-select {κ} :
      (P : A → Type κ) (p : A → Bool) (xs : List A) → All P xs → All P (select p xs)
  unfolding select
  All-select P p [] h = h
  All-select P p (x ∷ xs) h = All_cons_if (p x) h.0 (All-select P p xs h.1)
    where
      All_cons_if : (b : Bool) → P x → All P (select p xs) → All P (cons_if b x (select p xs))
      All_cons_if true hx hs = (hx, hs)
      All_cons_if false hx hs = hs

  -- A predicate of a value that may be absent.
  abbrev pub Whenever {κ} : Option A → (A → Type κ) → Type κ
  Whenever none P = Unit
  Whenever (some a) P = P a

module _ {ℓ} {A : Type ℓ} ⦃e : Eq A⦄ where
  abbrev pub elem : A → List A → Bool
  elem a [] = false
  elem a (x ∷ xs) = a == x || elem a xs

  pub elem-append : (a : A) (xs ys : List A) → elem a (xs ++ ys) ≡ (elem a xs || elem a ys)
  elem-append a [] ys = refl
  elem-append a (x ∷ xs) ys = ground (arith, elem-append a xs ys)

  -- A test by the element's value alone can be read through `select`.
  pub elem-select : (p : A → Bool) (a : A) (xs : List A) → elem a (select p xs) ≡ (elem a xs && p a)
  unfolding select
  elem-select p a [] = refl
  elem-select p a (x ∷ xs) = ground (arith, elem-select p a xs)

  -- No element stands twice.
  abbrev pub Distinct : List A → Type 0
  Distinct [] = Unit
  Distinct (x ∷ xs) = (elem x xs ≡ false) × Distinct xs

  pub select-Distinct : (p : A → Bool) (xs : List A) → Distinct xs → Distinct (select p xs)
  unfolding select
  select-Distinct p [] h = h
  select-Distinct p (x ∷ xs) h = ground (arith, select-Distinct p xs h.1, elem-select p x xs)
