-- ===== src/Message.antt =====
-- Texts that package `fmt` builds. A message is kept as its format string with the arguments, so
-- two messages are equal when the same call was made with the same arguments.
use pacto_operator.Prelude.{String, List}
use pacto_operator.Prelude.{ℤ, ◌≡◌, refl, ◌⊎◌, inl, inr}

mutual
  pub data Message : Type 0 where
    text : String → Message
    sprintf : String → Args → Message
    -- `strings.Join(parts, separator)`
    join : String → Args → Message

  -- The arguments, by their Go type; errors and texts that were built before are messages.
  pub data Args : Type 0 where
    done : Args
    str : String → Args → Args
    int : ℤ → Args → Args
    ints : List ℤ → Args → Args
    msg : Message → Args → Args

-- A value or an error.
pub data Attempt {ℓ} (A : Type ℓ) : Type ℓ where
  success : A → Attempt A
  failure : Message → Attempt A

pub Attempt-cases {ℓ} :
    {A : Type ℓ} (r : Attempt A) → ((e : Message) × (r ≡ failure e)) ⊎ ((a : A) × (r ≡ success a))
Attempt-cases (success a) = inr (a, refl)
Attempt-cases (failure e) = inl (e, refl)
