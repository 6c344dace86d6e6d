-- ===== src/Controller/Probes/Verdicts.antt =====
-- When a probed endpoint passes its check.
use pacto_operator.Prelude.{
  String, Bool, true, false, not, ◌||◌, none, some, List, [], ◌∷◌, ◌≡◌, ◌≢◌, refl, Bool-cases,
}
use pacto_operator.Prelude.{◌↔◌, arith, ℤ, pos, negsuc, int_eq, int32, ltb_ℤ, string_eq}
use pacto_operator.Prelude.{◌≤◌, ◌<◌, take, Option-cases, inl, inr}
use pacto_operator.Message.{Message}
use pacto_operator.Contract.{Interface}
use pacto_operator.Prober.{Answer, bad_url, no_response, response, probe, build_url, max_body_read}
use pacto_operator.Controller.Probes.{
  ProbeSpec, iface_exists, iface_port, probe_verdict, evaluate_probe_result, probe_one_endpoint,
}

abbrev pub IsSuccess : ℤ → Type 0
IsSuccess (pos n) = (200 ≤ n) × (n < 400)
IsSuccess (negsuc n) = ⊥

-- What a probe asks of an answer: a metrics endpoint (`true`) has status 200 and a body, a health
-- endpoint a status of 2xx or 3xx.
abbrev pub Serves : Bool → Answer → Type 0
Serves need_body (bad_url e) = ⊥
Serves need_body (no_response latency e) = ⊥
Serves true (response latency code body) = (int32 code ≡ pos 200) × (take max_body_read body ≢ "")
Serves false (response latency code body) = IsSuccess (int32 code)

range_iff : (x : ℤ) → ((ltb_ℤ x (pos 200) || not (ltb_ℤ x (pos 400))) ≡ false) ↔ IsSuccess x
range_iff (pos n) = ground arith
range_iff (negsuc n) = ground arith

verdict_iff :
    (need_body : Bool) (a : Answer) (url : Message) (spec : ProbeSpec)
    → spec.require_body ≡ need_body
    → ((probe_verdict (probe (λ _. a) url) url spec).passed ≡ true) ↔ Serves need_body a
unfolding probe_verdict probe
verdict_iff need_body (bad_url e) url spec h = ground arith
verdict_iff need_body (no_response latency e) url spec h = ground arith
verdict_iff true (response latency code body) url spec h = ground arith
verdict_iff false (response latency code body) url spec h = ground (arith, range_iff (int32 code))

iface_port_exists :
    (name : String) (is : List Interface) (p : ℤ)
    → iface_port name is ≡ some p
    → iface_exists name is ≡ true
unfolding iface_port iface_exists
iface_port_exists name [] p h = ground arith
iface_port_exists name (i ∷ is) p h = elim (Option-cases (iface_port name is)) [
  | inl none_left ↦ ground arith
  | inr (q, some_left) ↦ ground (arith, iface_port_exists name is q some_left)
]

-- The URL of a probe at a port.
abbrev pub url_at : ProbeSpec → ℤ → Message
url_at spec port = build_url spec.service_name spec.namespace port spec.path

evaluate_iff :
    (a : Answer) (url : Message) (spec : ProbeSpec)
    → ((evaluate_probe_result (probe (λ _. a) url) url spec).0.passed ≡ true)
      ↔ Serves spec.require_body a
unfolding evaluate_probe_result
evaluate_iff a url spec = verdict_iff spec.require_body a url spec refl

module _ (get : Message → Answer) (spec : ProbeSpec) where
  no_port-fails :
      iface_port spec.interface_name spec.interfaces ≡ none
      → (probe_one_endpoint get spec).0.passed ≡ false
  unfolding probe_one_endpoint
  no_port-fails h = elim (Bool-cases (iface_exists spec.interface_name spec.interfaces)) [
    | inl e ↦ rw (h, e) refl
    | inr e ↦ rw e refl
  ]

  probe_one_endpoint_port :
      (port : ℤ)
      → iface_port spec.interface_name spec.interfaces ≡ some port
      → probe_one_endpoint get spec
        ≡ evaluate_probe_result (probe get (url_at spec port)) (url_at spec port) spec
  unfolding probe_one_endpoint
  probe_one_endpoint_port port h =
      rw (h, iface_port_exists spec.interface_name spec.interfaces port h) refl

  passed_at :
      (port : ℤ)
      → iface_port spec.interface_name spec.interfaces ≡ some port
      → ((probe_one_endpoint get spec).0.passed ≡ true)
        ↔ Serves spec.require_body (get (url_at spec port))
  unfolding probe
  passed_at port h =
      rw (probe_one_endpoint_port port h)
        (evaluate_iff (get (url_at spec port)) (url_at spec port) spec)

  -- For every client and probed endpoint, the endpoint's check passes exactly when the interface that
  -- it names has a port and the client's answer at that port serves what is asked for: status 200 and
  -- a body for the metrics endpoint, a status of 2xx or 3xx for the health endpoint.
  pub probe_one_endpoint-passed : ((probe_one_endpoint get spec).0.passed ≡ true) ↔ (
      (port : ℤ) × (iface_port spec.interface_name spec.interfaces ≡ some port)
      × Serves spec.require_body (get (url_at spec port)))
  probe_one_endpoint-passed = elim (Option-cases (iface_port spec.interface_name spec.interfaces)) [
    | inl e ↦
        (λ h. absurd (ground (arith, no_port-fails e)), λ (port, at_port, _). absurd (ground arith))
    | inr (port, e) ↦ (
      λ h. (port, e, (passed_at port e).0 h),
      λ (other, at_other, serves). (passed_at other at_other).1 serves,
    )
  ]
