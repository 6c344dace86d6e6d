-- ===== src/Credentials/Entries.antt =====
-- An entry of a docker config gives the credentials that it was made from.
use pacto_operator.Prelude.{String, ◌<>◌, false}
use pacto_operator.Prelude.{◌≡◌, ◌≢◌, refl, arith, ◌!=◌, string_eq, if◌then◌else◌, ◌∙◌, ap}
use pacto_operator.Prelude.{has_char, ◌⊎◌, inl, inr, is_nil_text}
use pacto_operator.Prelude.TextLaws.{◌∷ₛ◌, index-append, take-append, drop-append}
use text.Mathlib.TextLemmas.{nil-append, cons-append, append_assoc}
use pacto_operator.Message.{success}
use pacto_operator.Credentials.{
  AuthConfig, Auths, Secret, from_opaque, Codec, split_auth, entry_to_auth_config, encode_auth,
  entry_of,
}

-- What is written is read again, and no text but the empty one is written as the empty one.
pub record IsCodec (codec : Codec) : Type 0 where
  pub decode-encode_config :
      (m : Auths) (raw : String)
      → codec.encode_config m ≡ success raw
      → codec.decode_config raw ≡ success m
  pub decode-encode_base64 : (s : String) → codec.decode_base64 (codec.encode_base64 s) ≡ success s
  pub encode_base64-nonempty : (s : String) → s ≢ "" → codec.encode_base64 s ≢ ""

-- The credentials as a name and a password: a token has the name `_token`.
abbrev pub as_basic : AuthConfig → AuthConfig
as_basic a =
    if a.registry_token != ""
    then record { registry_token = ""; username = "_token"; password = a.registry_token }
    else record { registry_token = ""; username = a.username; password = a.password }

-- A token alone, or a name and a password.
abbrev pub IsUsable : AuthConfig → Type 0
IsUsable a =
    ((a.registry_token ≢ "") × (a.username ≡ "") × (a.password ≡ ""))
    ⊎ ((a.registry_token ≡ "") × (a.username ≢ "") × (a.password ≢ ""))

pub from_opaque-IsUsable : (s : Secret) (a : AuthConfig) → from_opaque s ≡ success a → IsUsable a
unfolding from_opaque
from_opaque-IsUsable s a h = ground arith

module _ (codec : Codec) (is_codec : IsCodec codec) where
  split_auth-append :
      (user pass name : String)
      → has_char 58 user ≡ false
      → user ≢ ""
      → split_auth codec (user <> (":" ∷ₛ pass)) name
        ≡ success (record { registry_token = ""; username = user; password = pass })
  unfolding split_auth
  split_auth-append user pass name h n =
      rw
        (
          split_auth,
          index-append 58 user pass ":" refl h,
          take-append user (":" ∷ₛ pass),
          drop-append user pass ":",
        )
        (ground arith)

  token_text : (token : String) → "_token:" <> token ≡ "_token" <> (":" ∷ₛ token)
  token_text token =
      append_assoc "_token" ":" token ∙ ap (λ t. "_token" <> t) (rw (cons-append, nil-append) refl)

  token_text_filled : (token : String) → is_nil_text ("_token:" <> token) ≡ false
  token_text_filled token = rw cons-append refl

  token_text_nonempty : (token : String) → "_token:" <> token ≢ ""
  token_text_nonempty token h = absurd (ground (arith, token_text_filled token, ap is_nil_text h))

  split_token :
      (token name : String)
      → split_auth codec ("_token:" <> token) name
        ≡ success (record { registry_token = ""; username = "_token"; password = token })
  unfolding has_char
  split_token token name =
      ap (λ t. split_auth codec t name) (token_text token)
      ∙ split_auth-append "_token" token name refl (λ h. absurd (ground (arith, ap is_nil_text h)))

  pub entry_to_auth_config-entry_of :
      (a : AuthConfig) (name : String)
      → IsUsable a
      → entry_to_auth_config codec (entry_of codec a) name ≡ success (as_basic a)
  unfolding entry_to_auth_config encode_auth
  entry_to_auth_config-entry_of a name (inl (t, u, p)) =
      let text = "_token:" <> a.registry_token in
      ground (
        arith,
        is_codec.encode_base64-nonempty text (token_text_nonempty a.registry_token),
        is_codec.decode-encode_base64 text,
        split_token a.registry_token name,
      )
  entry_to_auth_config-entry_of a name (inr (t, u, p)) = ground arith
