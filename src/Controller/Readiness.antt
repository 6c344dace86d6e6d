-- ===== src/Controller/Readiness.antt =====
-- internal/controller/readiness.go. The evaluation is the library's (pkg/readiness) and a parameter;
-- its result stands with the fields that are read.
pub mod Gate
use pacto_operator.Prelude.{
  String, Bool, true, false, not, ◌&&◌, Option, none, some, List, [], ◌∷◌, ◌++◌,
}
use pacto_operator.Prelude.{map, ℤ, int32, if◌then◌else◌, ℕ}
use pacto_operator.Message.{Message, sprintf, str, int, done}
use pacto_operator.Contract.{Contract, Readiness, ReadinessRevision}
use pacto_operator.Api.Conditions.{
  ConditionStatus, condition_true, condition_false, Reason, readiness_ok, readiness_expired,
  readiness_below_min_score, readiness_satisfied, readiness_gate_unmet, readiness_recovered,
}
use pacto_operator.Api.Status.{
  Condition, ReadinessStatus, ReadinessCheckStatus, ReadinessRevisionStatus,
}
use pacto_operator.Api.Pacto.{Pacto}
use pacto_operator.Metrics.{record_readiness}
use pacto_operator.Controller.Conditions.{ConditionLists}
use pacto_operator.Controller.Status.{set_condition}
use pacto_operator.Controller.Effects.{Effect, event, normal, EventType, samples}

pub record CheckResult : Type 0 where
  pub id : String
  pub type : String
  pub category : String
  pub status : String
  pub evidence : String
  pub description : String
  pub weight : ℤ
  pub earned_weight : ℤ
  pub excluded : Bool

pub record Evaluation : Type 0 where
  pub score : ℤ
  pub min_score : ℤ
  pub passing : Bool
  pub total_weight : ℤ
  pub earned_weight : ℤ
  pub expires : String
  pub expired : Bool
  pub days_remaining : Option ℤ
  pub done_count : ℤ
  pub partial_count : ℤ
  pub not_done_count : ℤ
  pub deferred_count : ℤ
  pub checks : List CheckResult

-- `readinessCondition`: the status, the reason and the message.
unfoldable pub readiness_condition : Evaluation → ConditionStatus × Reason × Message
readiness_condition eval =
    if eval.passing
    then (
      condition_true,
      readiness_ok,
      sprintf "readiness score %d meets minScore %d" (int eval.score (int eval.min_score done)),
    )
    else if eval.expired
    then (
      condition_false,
      readiness_expired,
      sprintf "readiness assessment expired (expires %s); score %d below minScore %d"
          (str eval.expires (int eval.score (int eval.min_score done))),
    )
    else (
      condition_false,
      readiness_below_min_score,
      sprintf "readiness score %d below minScore %d (%d done, %d partial, %d not-done, %d deferred)"
          (int eval.score (
            int eval.min_score (
              int eval.done_count (
                int eval.partial_count (int eval.not_done_count (int eval.deferred_count done)))))),
    )

abbrev pub check_status : CheckResult → ReadinessCheckStatus
check_status ch = record {
  id = ch.id;
  type = ch.type;
  category = ch.category;
  status = ch.status;
  evidence = ch.evidence;
  description = ch.description;
  weight = int32 ch.weight;
  earned_weight = int32 ch.earned_weight;
  excluded = ch.excluded;
}

abbrev pub revision_status : ReadinessRevision → ReadinessRevisionStatus
revision_status rev = record {
  date = rev.date;
  version = rev.version;
  author = rev.author;
  description = rev.description;
}

-- `buildReadinessStatus`
unfoldable pub build_readiness_status : Evaluation → Option Readiness → ReadinessStatus
build_readiness_status eval decl = record {
  score = int32 eval.score;
  min_score = int32 eval.min_score;
  passing = eval.passing;
  total_weight = int32 eval.total_weight;
  earned_weight = int32 eval.earned_weight;
  expires = eval.expires;
  expired = eval.expired;
  days_remaining = elim eval.days_remaining [ none ↦ none | some d ↦ some (int32 d) ];
  done_count = int32 eval.done_count;
  partial_count = int32 eval.partial_count;
  not_done_count = int32 eval.not_done_count;
  deferred_count = int32 eval.deferred_count;
  revisions = elim decl [ none ↦ [] | some d ↦ map revision_status d.history ];
  checks = map check_status eval.checks;
}

-- The `switch` at the end of `reconcileReadiness`.
unfoldable pub gate_events : ConditionStatus → Bool → Message → List Effect
gate_events condition_false false message =
    event EventType.warning readiness_gate_unmet message ∷ []
gate_events condition_true true message = event normal readiness_recovered message ∷ []
gate_events _ _ message = []

abbrev pub is_false : ConditionStatus → Bool
is_false condition_false = true
is_false _ = false

abbrev pub is_unmet : Option Condition → Bool
is_unmet none = false
is_unmet (some c) = is_false c.status

-- `readinessWasUnmet` of `Reconcile`, read from the stored conditions.
unfoldable pub readiness_was_unmet : ConditionLists → Pacto → Bool
readiness_was_unmet l p = is_unmet (l.find_status_condition p.status.conditions readiness_satisfied)

module _ (l : ConditionLists) (evaluate : Option Readiness → ℕ → Option Evaluation) where
  -- `reconcileReadiness` behind its test for nil.
  unfoldable pub record_evaluation :
      Pacto → Option Readiness → Evaluation → Bool → Pacto × List Effect
  record_evaluation p decl eval was_unmet =
      let rs = build_readiness_status eval decl in
      let q : Pacto = record p { status = record (p.status) { readiness = some rs } } in
      let (status, reason, message) = readiness_condition eval in
      (
        set_condition l q readiness_satisfied status reason message,
        samples (record_readiness p.namespace p.name (some rs) reason)
            ++ gate_events status was_unmet message,
      )

  -- `reconcileReadiness` at a time.
  unfoldable pub reconcile_readiness : ℕ → Pacto → Contract → Bool → Pacto × List Effect
  reconcile_readiness now p c was_unmet = elim (evaluate c.readiness now) [
    | none ↦ (p, [])
    | some eval ↦ record_evaluation p c.readiness eval was_unmet
  ]
