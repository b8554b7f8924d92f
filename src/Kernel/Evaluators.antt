-- ===== src/Kernel/Evaluators.antt =====
-- The evaluation of semantic results (supervisor/src/pipeline/kernel/evaluator-registry.ts).
use openthrottle.Base.{
  Bool, true, false, not, ◌&&◌, ◌||◌, Option, none, some, List, [], ◌∷◌, Text, text, ◌==◌, list_eq,
  nat_eq, contains, is_none, Result, ok, err, ◌>>=◌, ◌>>◌, throw_if, or_throw, for_each,
  if◌then◌else◌,
}
use openthrottle.Contracts.Json.{
  Json, null, str, arr, obj, Items, nil, cons, Fields, member, member_names, as_object, as_string,
  is_string, check_json,
}
use openthrottle.Contracts.Records.{ResultRecord, RecordPayload, inline, blob}
pub mod Outcomes
pub mod Decisions

-- Of an EvalDefinition, what the evaluation reads.
pub record EvalDefinition : Type 0 where
  pub id : Text
  pub evaluator : Text
  pub result_id : Text
  pub outcomes : List Text

pub record SemanticResultRecordPayload : Type 0 where
  pub semantic_schema_id : Text
  pub outcome : Text
  pub payload : Json
  pub transformations : Items

pub record EvaluatedKernelResult : Type 0 where
  pub evaluator : Text
  pub outcome : Text
  pub reason : Text

abbrev pub semantic_schema : Text
semantic_schema = text "openthrottle.semantic-result-record/v1"

abbrev pub repair : Text
repair = text "semantic_repair_required"

-- exactObject
unfoldable pub exact_object : Json → List Text → Result Fields
exact_object value names = do
  input ← or_throw (as_object value) "${label} must be an object"
  for_each (λ k. throw_if (not (contains k names)) "${label}.${key} is unknown")
      (member_names input)
  ok input

-- A value that must be an array.
abbrev as_array : Json → Option Items
as_array (arr xs) = some xs
as_array _ = none

-- semanticPayload
unfoldable pub semantic_payload : Json → Result SemanticResultRecordPayload
unfolding exact_object
semantic_payload value = do
  input ← exact_object value (
      text "schema"
      ∷ text "semantic_schema_id"
      ∷ text "outcome"
      ∷ text "payload"
      ∷ text "transformations"
      ∷ [])
  throw_if (not (is_string (member (text "schema") input) semantic_schema))
      "semantic result payload schema is unsupported"
  schema_id ←
      or_throw (as_string (member (text "semantic_schema_id") input))
        "semantic result payload identity is invalid"
  outcome ←
      or_throw (as_string (member (text "outcome") input))
        "semantic result payload identity is invalid"
  given ← or_throw (member (text "transformations") input) "${path}: must be a JSON value"
  check_json 0 given
  transformations ← or_throw (as_array given) "semantic result transformations must be an array"
  payload ← or_throw (member (text "payload") input) "${path}: must be a JSON value"
  check_json 0 payload
  ok (record {
    semantic_schema_id = schema_id;
    outcome = outcome;
    payload = payload;
    transformations = transformations;
  })

-- semanticObject
unfoldable pub semantic_object : Json → Result Fields
semantic_object value = or_throw (as_object value) "${label} must be an object"

-- `Array.isArray(value) && value.length === 0`, and `> 0`
abbrev pub is_empty_array : Option Json → Bool
is_empty_array (some (arr nil)) = true
is_empty_array _ = false

abbrev pub is_full_array : Option Json → Bool
is_full_array (some (arr (cons x xs))) = true
is_full_array _ = false

abbrev is_null : Option Json → Bool
is_null (some null) = true
is_null _ = false

-- `plan !== null && typeof plan === "object" && !Array.isArray(plan) && plan.pipeline_id === …`
is_structured_plan : Option Json → Bool
is_structured_plan (some (obj fs)) =
    is_string (member (text "pipeline_id") fs) (text "core/structured")
is_structured_plan _ = false

-- `exact` of admissionOutcome
unfoldable pub is_admission : Text → Fields → Bool
unfolding is_structured_plan
is_admission outcome value =
    let plan = member (text "execution_plan") value in
    let questions = member (text "questions") value in
    (outcome == text "simple" && is_null plan && is_empty_array questions)
    || (outcome == text "structured" && is_structured_plan plan && is_empty_array questions)
    || (outcome == text "needs_human" && is_null plan && is_full_array questions)

-- admissionOutcome
unfoldable pub admission_outcome : SemanticResultRecordPayload → Result EvaluatedKernelResult
unfolding semantic_object is_admission
admission_outcome p = semantic_object p.payload >>= λ value. ok (record {
  evaluator = text "core/admission-outcome@1";
  outcome = if is_admission p.outcome value then p.outcome else repair;
  reason =
      if is_admission p.outcome value
      then text "validated_admission_route"
      else text "admission_route_payload_mismatch";
})

-- `exact` of admissionReviewOutcome
unfoldable pub is_admission_review : Text → Fields → Bool
is_admission_review outcome value =
    let findings = member (text "findings") value in
    let questions = member (text "questions") value in
    (outcome == text "approved" && is_empty_array findings && is_empty_array questions)
    || (outcome == text "rejected" && is_full_array findings && is_empty_array questions)
    || (outcome == text "needs_human" && is_full_array questions)

-- admissionReviewOutcome
unfoldable pub admission_review_outcome : SemanticResultRecordPayload → Result EvaluatedKernelResult
unfolding semantic_object is_admission_review
admission_review_outcome p = semantic_object p.payload >>= λ value. ok (record {
  evaluator = text "core/admission-review-outcome@1";
  outcome = if is_admission_review p.outcome value then p.outcome else repair;
  reason =
      if is_admission_review p.outcome value
      then text "validated_admission_review"
      else text "admission_review_payload_mismatch";
})

is_blocking : Json → Bool
is_blocking (obj fs) =
    is_string (member (text "severity") fs) (text "P0")
    || is_string (member (text "severity") fs) (text "P1")
is_blocking _ = false

-- hasBlockingReviewFinding, with the TypeError of reading a member of null
unfoldable pub has_blocking_review_finding : Items → Result Bool
unfolding is_blocking
has_blocking_review_finding nil = ok false
has_blocking_review_finding (cons null xs) = err "TypeError"
has_blocking_review_finding (cons x xs) =
    let rest = has_blocking_review_finding xs in if is_blocking x then ok true else rest

-- The cases of reviewOutcome, for its array of findings
unfoldable pub review_result : Text → Bool → Items → EvaluatedKernelResult
review_result outcome blocking findings =
    if blocking
    then record {
      evaluator = text "core/review-outcome@1";
      outcome = repair;
      reason = text "blocking_review_finding";
    }
    else if outcome == text "failure" && is_full_array (some (arr findings))
    then record {
      evaluator = text "core/review-outcome@1";
      outcome = text "success";
      reason = text "advisory_review_failure_downgraded";
    }
    else record {
      evaluator = text "core/review-outcome@1";
      outcome = outcome;
      reason = text "validated_semantic_result";
    }

abbrev pub findings_of : Fields → Option Items
findings_of value = items (member (text "findings") value)
  where
    items : Option Json → Option Items
    items (some (arr xs)) = some xs
    items _ = none

-- reviewOutcome
unfoldable pub review_outcome : SemanticResultRecordPayload → Result EvaluatedKernelResult
unfolding semantic_object has_blocking_review_finding review_result
review_outcome p = do
  value ← semantic_object p.payload
  findings ← or_throw (findings_of value) "review result payload findings must be an array"
  blocking ← has_blocking_review_finding findings
  ok (review_result p.outcome blocking findings)

abbrev pub command_schema : Text
command_schema = text "openthrottle.command-result-record/v1"

-- inlineResultPayload with the test of evaluateSemantic on its schema. The payload of a command is an
-- error whatever it holds: either the one of its reader, which is not modelled, or this one.
unfoldable pub inline_semantic_payload : ResultRecord → Result SemanticResultRecordPayload
unfolding semantic_payload
inline_semantic_payload r = read r.payload
  where
    read : RecordPayload → Result SemanticResultRecordPayload
    read (blob b) = err "result ${record.id} must be materialized before live evaluation"
    read (inline value) =
        if r.payload_schema == semantic_schema
        then semantic_payload value
        else if r.payload_schema == command_schema
        then err "agent stage ${input.stage.id} did not produce a semantic result"
        else err "result ${record.id} has no live evaluator payload contract"

abbrev pub evaluators : List Text
evaluators =
    text "core/action-outcome@1"
    ∷ text "core/admission-outcome@1"
    ∷ text "core/admission-review-outcome@1"
    ∷ text "core/review-outcome@1"
    ∷ text "core/unit-outcome@1"
    ∷ []

-- The choice of the evaluator.
unfoldable pub evaluated_by : Text → SemanticResultRecordPayload → Result EvaluatedKernelResult
unfolding admission_outcome admission_review_outcome review_outcome
evaluated_by evaluator p =
    if evaluator == text "core/admission-outcome@1"
    then admission_outcome p
    else if evaluator == text "core/admission-review-outcome@1"
    then admission_review_outcome p
    else if evaluator == text "core/review-outcome@1"
    then review_outcome p
    else ok (record {
      evaluator = evaluator;
      outcome = p.outcome;
      reason = text "validated_semantic_result";
    })

-- evaluateSemantic, for the eval that the stage names
unfoldable pub evaluate_semantic :
    Text → EvalDefinition → ResultRecord → Result EvaluatedKernelResult
unfolding inline_semantic_payload evaluated_by
evaluate_semantic stage_eval evaluation r = do
  throw_if (not (stage_eval == evaluation.id))
      "stage ${input.stage.id} is not bound to eval ${input.evaluation.id}"
  p ← inline_semantic_payload r
  throw_if
      (not (p.semantic_schema_id == evaluation.result_id)
        || not (contains p.outcome evaluation.outcomes))
      "result ${input.result.id} does not satisfy eval ${input.evaluation.id}"
  throw_if (not (contains evaluation.evaluator evaluators))
      "evaluator primitive ${input.evaluation.evaluator} is not registered"
  evaluated_by evaluation.evaluator p
