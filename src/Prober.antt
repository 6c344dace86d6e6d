-- ===== src/Prober.antt =====
-- internal/prober/prober.go: one HTTP GET of an endpoint. The client is a parameter.
use pacto_operator.Prelude.{String, ◌<>◌, Bool, true, false, ◌||◌, none, some, ℕ, ℤ, int32}
use pacto_operator.Prelude.{◌!=◌, string_eq, if◌then◌else◌, has_prefix, contains}
use pacto_operator.Prelude.{last_index_of, ltb, take, drop, pos, ◌+◌}
use pacto_operator.Message.{Message, text, sprintf, str, int, msg, done}

-- What the client answers: the URL is refused, the exchange fails, or there is a response. Each
-- exchange has its duration in milliseconds.
pub data Answer : Type 0 where
  bad_url : Message → Answer
  no_response : ℕ → String → Answer
  response : ℕ → ℤ → String → Answer

pub record ProbeResult : Type 0 where
  pub url : Message
  pub reachable : Bool
  pub status_code : ℤ
  pub latency_ms : ℕ
  pub error : Message
  pub content_present : Bool
  pub prometheus_like : Bool

-- `defaultTimeout` in nanoseconds, and `maxBodyRead`.
abbrev pub default_timeout : ℤ
default_timeout = pos 5_000_000_000

abbrev pub max_body_read : ℕ
max_body_read = 4096

-- What stands behind the last ": ", unless that is nothing or the whole text.
unfoldable pub sanitize_error : String → String
sanitize_error e = elim (last_index_of ": " e) [
  | none ↦ e
  | some i ↦ if ltb 0 i then (if drop (i + 2) e != "" then drop (i + 2) e else e) else e
]

abbrev pub unreached : Message → ProbeResult
unreached url = record {
  url = url;
  reachable = false;
  status_code = pos 0;
  latency_ms = 0;
  error = text "";
  content_present = false;
  prometheus_like = false;
}

-- `Probe`, from what the client answers to the URL.
unfoldable pub probe : (Message → Answer) → Message → ProbeResult
probe get url = elim (get url) [
  | bad_url e ↦ record (unreached url) { error = sprintf "invalid URL: %v" (msg e done) }
  | no_response latency e ↦ record (unreached url) {
    latency_ms = latency;
    error = text (sanitize_error e);
  }
  | response latency code body ↦
      let read = take max_body_read body in
      record (unreached url) {
        latency_ms = latency;
        reachable = true;
        status_code = int32 code;
        content_present = read != "";
        prometheus_like =
            if read != "" then contains "# HELP" read || contains "# TYPE" read else false;
      }
]

-- `BuildURL`
unfoldable pub build_url : String → String → ℤ → String → Message
build_url service_name namespace port path = sprintf "http://%s.%s.svc:%d%s" (
    str service_name
      (str namespace (int port (str (if has_prefix "/" path then path else "/" <> path) done))))
