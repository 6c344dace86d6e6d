-- ===== src/Loader/Tests.antt =====
-- Two loads from a concrete registry.
use pacto_operator.Prelude.{String, ◌<>◌, none, [], ◌∷◌, ◌≡◌, ◌≢◌, ℕ, arith}
use pacto_operator.Prelude.{ap, has_char, strip_prefix, trim_prefix, string_eq, is_nil_text}
use pacto_operator.Message.{Attempt, success}
use pacto_operator.Contract.{Contract}
use pacto_operator.Loader.{Loader, Registry, Times, load, load_uncached, normalize_oci_ref}
use pacto_operator.Loader.Transparent.{AllAnswers, load-AllAnswers}

abbrev web : Contract
web = record {
  service = record {
    name = "web";
    version = "1.0.0";
    owner = record { team = ""; dri = ""; contacts = [] };
    image = none;
  };
  interfaces = [];
  configurations = [];
  dependencies = [];
  policies = [];
  runtime = none;
  scaling = none;
  metadata = [];
  readiness = none;
}

-- A registry with one bundle, whose digest it knows or not.
abbrev registry : Attempt String → Registry String
registry digest = record {
  parse = λ yaml. success web;
  query_unescape = λ s. none;
  sha256 = λ s. "0123456789abcdef0123456789abcdef";
  resolve_ref = λ auth ref. success (ref <> ":1.0.0");
  pull_bundle = λ auth ref.
      success (record { bundle_contract = web; bundle_yaml = "service: web"; fs = none });
  resolve = λ auth ref. digest;
  tags_of = λ auth ref. success ("1.0.0" ∷ []);
  filter_semver = λ tags. tags;
}

abbrev new_loader : Loader
new_loader = record { cache = []; tag_cache = [] }

abbrev at : ℕ → Times
at n = record { checked = n; stored = n; evicted = n }

web_ref_filled : normalize_oci_ref (registry (success "sha256:1")) "oci://reg.io/web" ≢ ""
unfolding normalize_oci_ref has_char trim_prefix strip_prefix
web_ref_filled h = absurd (ground (arith, ap is_nil_text h))

load-AllAnswers_example :
    AllAnswers
      (registry (success "sha256:1"))
      (load (registry (success "sha256:1")) (at 10) none "oci://reg.io/web" "" new_loader).0.cache
    × ((load (registry (success "sha256:1")) (at 10) none "oci://reg.io/web" "" new_loader).1
        ≡ load_uncached (registry (success "sha256:1")) none "oci://reg.io/web" "")
load-AllAnswers_example =
    load-AllAnswers (registry (success "sha256:1")) (at 10) none "oci://reg.io/web" "" new_loader tt
      web_ref_filled
