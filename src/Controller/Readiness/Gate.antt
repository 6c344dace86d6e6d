-- ===== src/Controller/Readiness/Gate.antt =====
-- What the readiness of a contract changes, and when it is reported.
use pacto_operator.Prelude.{Bool, true, false, not, Option, some, List, [], ◌∷◌, ◌++◌, ◌≡◌, refl}
use pacto_operator.Prelude.{ℕ, arith, ◌∙◌, ap}
use pacto_operator.Contract.{Contract, Readiness}
use pacto_operator.Api.Conditions.{
  readiness_satisfied, EventReason, readiness_gate_unmet, readiness_recovered,
}
use pacto_operator.Api.Pacto.{Pacto}
use pacto_operator.Metrics.{Sample, record_readiness}
use pacto_operator.Controller.Conditions.{ConditionLists, IsLawful}
use pacto_operator.Controller.Status.{set_condition}
use pacto_operator.Controller.Effects.{Effect, event, sample, samples}
use pacto_operator.Controller.Readiness.{
  Evaluation, readiness_condition, gate_events, record_evaluation, reconcile_readiness,
  build_readiness_status, readiness_was_unmet, is_unmet, is_false,
}

-- The reasons of the events, in order.
abbrev pub events : List Effect → List EventReason
events [] = []
events (event _ reason _ ∷ rest) = reason ∷ events rest
events (sample _ ∷ rest) = events rest

events-samples_append :
    (ss : List Sample) (es : List Effect) → events (samples ss ++ es) ≡ events es
events-samples_append [] es = refl
events-samples_append (s ∷ ss) es = events-samples_append ss es

-- Unmet for the first time, met after it was unmet, or no change.
abbrev pub transition : Bool → Bool → List EventReason
transition false false = readiness_gate_unmet ∷ []
transition true true = readiness_recovered ∷ []
transition _ _ = []

readiness_condition_unmet :
    (eval : Evaluation) → is_false (readiness_condition eval).0 ≡ not eval.passing
unfolding readiness_condition
readiness_condition_unmet eval = ground arith

gate_events_lem :
    (eval : Evaluation) (was_unmet : Bool)
    → events (gate_events (readiness_condition eval).0 was_unmet (readiness_condition eval).2)
      ≡ transition eval.passing was_unmet
unfolding readiness_condition gate_events
gate_events_lem eval was_unmet = ground arith

module _ (l : ConditionLists) (evaluate : Option Readiness → ℕ → Option Evaluation) where
  events-record_evaluation :
      (p : Pacto) (decl : Option Readiness) (eval : Evaluation) (was_unmet : Bool)
      → events (record_evaluation l evaluate p decl eval was_unmet).1
        ≡ transition eval.passing was_unmet
  unfolding record_evaluation
  events-record_evaluation p decl eval was_unmet =
      let message = (readiness_condition eval).2 in
      events-samples_append
        (record_readiness p.namespace p.name (some (build_readiness_status eval decl))
          (readiness_condition eval).1)
        _
      ∙ gate_events_lem eval was_unmet

  reconcile_readiness-some :
      (now : ℕ) (p : Pacto) (c : Contract) (was_unmet : Bool) (eval : Evaluation)
      → evaluate c.readiness now ≡ some eval
      → reconcile_readiness l evaluate now p c was_unmet
        ≡ record_evaluation l evaluate p c.readiness eval was_unmet
  unfolding reconcile_readiness
  reconcile_readiness-some now p c was_unmet eval h = rw (h, reconcile_readiness) refl

  module _ (lawful : IsLawful l) where
    readiness_was_unmet-record_evaluation :
        (p : Pacto) (decl : Option Readiness) (eval : Evaluation) (was_unmet : Bool)
        → readiness_was_unmet l (record_evaluation l evaluate p decl eval was_unmet).0
          ≡ not eval.passing
    unfolding record_evaluation set_condition readiness_was_unmet
    readiness_was_unmet-record_evaluation p decl eval was_unmet =
        ap is_unmet (
          lawful.find-set p.status.conditions (record {
            type = readiness_satisfied;
            status = (readiness_condition eval).0;
            observed_generation = p.generation;
            reason = (readiness_condition eval).1;
            message = (readiness_condition eval).2;
          }))
        ∙ readiness_condition_unmet eval

    -- For a lawful condition list and two evaluations of a contract, one after the other: the first
    -- is recorded so that the second one reports a gate that has become unmet, or one that has become
    -- met again, and nothing else.
    pub reconcile_readiness-events :
        (now later : ℕ) (p : Pacto) (c : Contract) (was_unmet : Bool) (first second : Evaluation)
        → evaluate c.readiness now ≡ some first
        → evaluate c.readiness later ≡ some second
        → let q = (reconcile_readiness l evaluate now p c was_unmet).0 in
          events (reconcile_readiness l evaluate later q c (readiness_was_unmet l q)).1
          ≡ transition second.passing (not first.passing)
    reconcile_readiness-events now later p c was_unmet first second h1 h2 =
        rw
          (
            reconcile_readiness-some now p c was_unmet first h1,
            reconcile_readiness-some later
                (record_evaluation l evaluate p c.readiness first was_unmet).0 c
                (readiness_was_unmet l
                  (record_evaluation l evaluate p c.readiness first was_unmet).0)
                second h2,
            readiness_was_unmet-record_evaluation p c.readiness first was_unmet,
          )
          (events-record_evaluation (record_evaluation l evaluate p c.readiness first was_unmet).0
            c.readiness second (not first.passing))
