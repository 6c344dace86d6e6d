-- ===== src/Credentials/Tests.antt =====
-- A merge of one Secret, with toy codecs that read what they write.
use pacto_operator.Prelude.{String, Bool, true, false, ◌&&◌, [], ◌∷◌, ◌≡◌, refl}
use pacto_operator.Prelude.{arith, ◌==◌, string_eq, if◌then◌else◌, index, index_of, take, drop}
use pacto_operator.Prelude.{
  has_prefix, strip_prefix, trim_right, trim_space_left, trim_space_right, is_nil_text, ap,
}
use pacto_operator.Prelude.TextLaws.{◌∷ₛ◌}
use pacto_operator.Prelude.Maps.{put, lookup}
use pacto_operator.Message.{Attempt, success, failure, text}
use pacto_operator.Credentials.{
  AuthConfig, Auths, Secret, Codec, from_opaque, normalize_registry_host, strip_scheme, strip_path,
  merge_to_docker_config_json, merge_secrets, merge_secret, merge_opaque, from_docker_config_json,
  encode_auth,
}
use pacto_operator.Credentials.Entries.{IsCodec, as_basic}
use pacto_operator.Credentials.RoundTrip.{from_docker_config_json-merge}

abbrev ghcr_auths : Auths
ghcr_auths =
    ("ghcr.io", record { auth = "bbot:hunter2"; username = "bot"; password = "hunter2" }) ∷ []

abbrev is_ghcr : Auths → Bool
is_ghcr [] = false
is_ghcr (entry ∷ []) =
    entry.0 == "ghcr.io"
    && entry.1.auth == "bbot:hunter2"
    && entry.1.username == "bot"
    && entry.1.password == "hunter2"
is_ghcr (entry ∷ _ ∷ _) = false

encode_ghcr : Auths → Attempt String
encode_ghcr m = if is_ghcr m then success "ghcr" else failure (text "another config")

decode_b : String → Attempt String
decode_b String.[] = failure (text "empty")
decode_b (String.◌∷◌ x s) = success s

abbrev codec : Codec
codec = record {
  decode_config = λ raw. success ghcr_auths;
  encode_config = encode_ghcr;
  decode_base64 = decode_b;
  encode_base64 = λ s. "b" ∷ₛ s;
}

is_ghcr_lem : (m : Auths) → is_ghcr m ≡ true → ghcr_auths ≡ m
is_ghcr_lem [] h = absurd (ground arith)
is_ghcr_lem (entry ∷ []) h = ground arith
is_ghcr_lem (entry ∷ _ ∷ _) h = absurd (ground arith)

encode_ghcr_lem : (m : Auths) (raw : String) → encode_ghcr m ≡ success raw → is_ghcr m ≡ true
unfolding encode_ghcr
encode_ghcr_lem m raw h = ground arith

codec-IsCodec : IsCodec codec
unfolding decode_b
codec-IsCodec = record {
  decode-encode_config = λ m raw h. ap success (is_ghcr_lem m (encode_ghcr_lem m raw h));
  decode-encode_base64 = λ s. refl;
  encode_base64-nonempty = λ s n h. absurd (ground (arith, ap is_nil_text h));
}

abbrev bot_secret : Secret
bot_secret = record {
  name = "bot";
  is_docker_config = false;
  data_of =
      ("registry", "https://ghcr.io/v2/") ∷ ("username", "bot") ∷ ("password", "hunter2") ∷ [];
}

abbrev managed_secret : Secret
managed_secret = record {
  name = "managed";
  is_docker_config = true;
  data_of = (".dockerconfigjson", "ghcr") ∷ [];
}

abbrev bot : AuthConfig
bot = record { registry_token = ""; username = "bot"; password = "hunter2" }

from_docker_config_json-merge_example :
    from_docker_config_json codec managed_secret "ghcr.io" ≡ success (as_basic bot)
unfolding from_opaque lookup string_eq merge_to_docker_config_json merge_secrets merge_secret
    merge_opaque put encode_ghcr encode_auth normalize_registry_host strip_scheme strip_path index
    index_of take drop has_prefix strip_prefix trim_right trim_space_left trim_space_right
from_docker_config_json-merge_example =
    from_docker_config_json-merge codec codec-IsCodec [] bot_secret managed_secret bot "ghcr"
      "ghcr.io" refl refl refl refl refl
