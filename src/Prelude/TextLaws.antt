-- ===== src/Prelude/TextLaws.antt =====
-- Laws of the text functions under concatenation.
use Prim.Native.Nat.{ℕ, zero, suc, ◌≤◌, ◌<◌}
use Prim.Native.Char.{Char, code}
use Prim.Native.String.{String, ◌++◌ as ◌<>◌}
use mathlib.Core.Path.{◌≡◌, refl, ap}
use mathlib.Core.Logic.{inl, inr}
use mathlib.Core.Bool.{true, false, ◌||◌}
use mathlib.Core.Option.{none, some}
use native.Mathlib.Omega.{arith}
use text.Mathlib.TextLemmas.{nil-append, cons-append}
use pacto_operator.Prelude.Equality.{eqb, Option-cases, Bool-cases}
use pacto_operator.Prelude.Text.{has_char, index, last_index, take, take_to, drop, trim_right}

infixr 67 ◌∷ₛ◌
abbrev pub ◌∷ₛ◌ : Char → String → String
x ∷ₛ s = String.◌∷◌ x s

-- The number of characters.
unfoldable pub chars : String → ℕ
chars String.[] = 0
chars (String.◌∷◌ x s) = suc (chars s)

pub has_char-append : (c : ℕ) (s t : String) → has_char c (s <> t) ≡ (has_char c s || has_char c t)
unfolding has_char
has_char-append c String.[] t = rw nil-append
has_char-append c (String.◌∷◌ x s) t = rw cons-append (ground (arith, has_char-append c s t))

pub take-append : (s t : String) → take (chars s) (s <> t) ≡ s
unfolding take chars
take-append String.[] t = refl
take-append (String.◌∷◌ x s) t = rw cons-append (ap (String.◌∷◌ x) (take-append s t))

pub index-none : (c : ℕ) (s : String) → has_char c s ≡ false → index c s ≡ none
unfolding index has_char
index-none c String.[] h = refl
index-none c (String.◌∷◌ x s) h = ground (arith, index-none c s)

pub last_index-none : (c : ℕ) (s : String) → has_char c s ≡ false → last_index c s ≡ none
unfolding last_index has_char
last_index-none c String.[] h = refl
last_index-none c (String.◌∷◌ x s) h = ground (arith, last_index-none c s)

-- The first separator of `s ++ x ∷ t`, where `s` has none.
pub index-append :
    (c : ℕ) (s t : String) (x : Char)
    → code x ≡ c
    → has_char c s ≡ false
    → index c (s <> (x ∷ₛ t)) ≡ some (chars s)
unfolding index has_char chars
index-append c String.[] t x e h = rw nil-append (ground arith)
index-append c (String.◌∷◌ y s) t x e h = rw cons-append (ground (arith, index-append c s t x e))

-- A first separator that lies in `s` stays the first one.
pub index-append_left : (c : ℕ) (s t : String) → has_char c s ≡ true → index c (s <> t) ≡ index c s
unfolding index has_char
index-append_left c String.[] t h = ground arith
index-append_left c (String.◌∷◌ y s) t h = rw cons-append (ground (arith, index-append_left c s t))

pub last_index-append_left :
    (c : ℕ) (s t : String) → has_char c t ≡ false → last_index c (s <> t) ≡ last_index c s
unfolding last_index
last_index-append_left c String.[] t h = rw nil-append (last_index-none c t h)
last_index-append_left c (String.◌∷◌ y s) t h =
    rw (cons-append) (ground (arith, last_index-append_left c s t h))

-- The last separator of `s ++ x ∷ t`, where `t` has none.
pub last_index-append :
    (c : ℕ) (s t : String) (x : Char)
    → code x ≡ c
    → has_char c t ≡ false
    → last_index c (s <> (x ∷ₛ t)) ≡ some (chars s)
unfolding last_index chars
last_index-append c String.[] t x e h = rw nil-append (ground (arith, last_index-none c t h))
last_index-append c (String.◌∷◌ y s) t x e h =
    rw cons-append (ground (arith, last_index-append c s t x e h))

pub last_index-lt_chars : (c : ℕ) (s : String) (i : ℕ) → last_index c s ≡ some i → i < chars s
unfolding last_index chars
last_index-lt_chars c String.[] i e = ground arith
last_index-lt_chars c (String.◌∷◌ y s) i e = elim (Option-cases (last_index c s)) [
  | inl n ↦ ground arith
  | inr (j, p) ↦ ground (arith, last_index-lt_chars c s j p)
]

pub index_found :
    (c : ℕ) (s : String) → has_char c s ≡ true → (i : ℕ) × (index c s ≡ some i) × (i < chars s)
unfolding index has_char chars
index_found c String.[] h = ground arith
index_found c (String.◌∷◌ y s) h = elim (Bool-cases (eqb (code y) c)) [
  | inl here ↦ (0, rw here, omega arith)
  | inr later ↦
      let (i, e, b) = index_found c s (ground arith) in (suc i, rw (later, e), omega arith)
]

pub take-append_left : (i : ℕ) (s t : String) → i ≤ chars s → take i (s <> t) ≡ take i s
unfolding take chars
take-append_left zero s t h = refl
take-append_left (suc i) String.[] t h = absurd (omega arith)
take-append_left (suc i) (String.◌∷◌ y s) t h =
    rw cons-append (ap (String.◌∷◌ y) (take-append_left i s t (omega arith)))

-- What stands before a first separator in `s` does not change when `s` is continued.
pub take-index-append_left :
    (c : ℕ) (s t : String)
    → has_char c s ≡ true
    → take_to (index c (s <> t)) (s <> t) ≡ take_to (index c s) s
take-index-append_left c s t h =
    let (i, e, b) = index_found c s h in
    rw (index-append_left c s t h, e) (take-append_left i s t (omega arith))

pub last_index_found :
    (c : ℕ) (s : String) → has_char c s ≡ true → (i : ℕ) × (last_index c s ≡ some i)
unfolding last_index has_char
last_index_found c String.[] h = ground arith
last_index_found c (String.◌∷◌ y s) h = elim (Option-cases (last_index c s)) [
  | inr (i, e) ↦ (suc i, rw e)
  | inl n ↦ elim (Bool-cases (eqb (code y) c)) [
    | inl here ↦ (0, rw (n, here))
    | inr later ↦ let (i, e) = last_index_found c s (ground arith) in absurd (ground arith)
  ]
]

-- What stands before a first separator holds no separator.
pub has_char-take-index : (c : ℕ) (s : String) → has_char c (take_to (index c s) s) ≡ false
unfolding index has_char take
has_char-take-index c String.[] = refl
has_char-take-index c (String.◌∷◌ x s) = elim (Bool-cases (eqb (code x) c)) [
  | inl here ↦ rw here refl
  | inr later ↦ elim (Option-cases (index c s)) [
    | inl n ↦ ground (arith, has_char-take-index c s)
    | inr (i, e) ↦ ground (arith, has_char-take-index c s)
  ]
]

pub trim_right-none : (c : ℕ) (s : String) → has_char c s ≡ false → trim_right c s ≡ s
unfolding trim_right has_char
trim_right-none c String.[] h = refl
trim_right-none c (String.◌∷◌ x s) h = ground (arith, trim_right-none c s)

pub drop-append : (s t : String) (x : Char) → drop (suc (chars s)) (s <> (x ∷ₛ t)) ≡ t
unfolding drop chars
drop-append String.[] t x = rw nil-append refl
drop-append (String.◌∷◌ y s) t x = rw cons-append (drop-append s t x)
