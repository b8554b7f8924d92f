-- ===== src/Kernel/Evaluators/Decisions.antt =====
-- The decision records of evaluations (supervisor/src/pipeline/kernel/evaluator-registry.ts).
use openthrottle.Base.{
  ◌≡◌, refl, not, Option, List, [], ◌∷◌, ◌++◌, map, Text, text, list_eq, nat_eq, contains, Result,
  ok, ◌>>=◌, ◌>>◌, or_throw, throw_if, option_to_list, take, sorted_unique, contains-sorted_unique,
  list_beq, for_each,
}
use openthrottle.Contracts.Json.{
  Json, str, arr, obj, field, end, cons, nil, Items, member, as_string, is_string, member_names,
}
use openthrottle.Contracts.Records.{ResultRecord, DecisionRecord, ExecutionRecord, inline, id_of}
use openthrottle.Kernel.Types.{KernelAttempt, Platform}
use openthrottle.Kernel.Evaluators.{EvaluatedKernelResult, exact_object}

abbrev pub decision_schema : Text
decision_schema = text "openthrottle.pipeline-decision-record/v1"

pub record PipelineDecisionRecordPayload : Type 0 where
  pub stage_id : Text
  pub evaluator : Text
  pub outcome : Text
  pub reason : Text

-- decisionPayload
unfoldable pub decision_payload : Json → Result PipelineDecisionRecordPayload
unfolding exact_object
decision_payload value = do
  input ←
      exact_object value
        (text "schema" ∷ text "stage_id" ∷ text "evaluator" ∷ text "outcome" ∷ text "reason" ∷ [])
  throw_if (not (is_string (member (text "schema") input) decision_schema))
      "pipeline decision payload is invalid"
  stage_id ←
      or_throw (as_string (member (text "stage_id") input)) "pipeline decision payload is invalid"
  evaluator ←
      or_throw (as_string (member (text "evaluator") input)) "pipeline decision payload is invalid"
  outcome ←
      or_throw (as_string (member (text "outcome") input)) "pipeline decision payload is invalid"
  reason ←
      or_throw (as_string (member (text "reason") input)) "pipeline decision payload is invalid"
  ok (record { stage_id = stage_id; evaluator = evaluator; outcome = outcome; reason = reason })

-- `payload` of createPipelineDecisionRecord
unfoldable decision_json : Text → EvaluatedKernelResult → Json
decision_json stage_id evaluated = obj (
    field (text "schema") (str decision_schema) (
      field (text "stage_id") (str stage_id) (
        field (text "evaluator") (str evaluated.evaluator) (
          field (text "outcome") (str evaluated.outcome)
            (field (text "reason") (str evaluated.reason) end)))))

-- `inputRecordIds` of createPipelineDecisionRecord
unfoldable cited_ids : Option ResultRecord → List ExecutionRecord → List Text
cited_ids result additional =
    sorted_unique (map (λ (r : ResultRecord). r.id) (option_to_list result) ++ map id_of additional)

strings : List Text → Items
strings [] = nil
strings (x ∷ xs) = cons (str x) (strings xs)

module _ (platform : Platform) where
  -- recordId, for decisions
  unfoldable decision_id : Text → List Text → Json → Text
  unfolding strings
  decision_id attempt_id ids payload =
      text "decision-"
      ++ take 48 (
          platform.digest_json (
            obj (
              field (text "attempt_id") (str attempt_id) (
                field (text "input_record_ids") (arr (strings ids))
                  (field (text "payload") payload end)))))

  -- createPipelineDecisionRecord
  unfoldable pub create_pipeline_decision_record :
      KernelAttempt
      → Option ResultRecord
      → List ExecutionRecord
      → EvaluatedKernelResult
      → Text
      → DecisionRecord
  unfolding decision_json cited_ids decision_id
  create_pipeline_decision_record attempt result additional evaluated created_at =
      let payload = decision_json attempt.scope.stage_id evaluated in
      let ids = cited_ids result additional in
      record {
        base = record {
          id = decision_id attempt.id ids payload;
          pipeline_run_id = attempt.pipeline_run_id;
          payload_schema = decision_schema;
          payload = inline payload;
          created_at = created_at;
        };
        reducer = evaluated.evaluator;
        input_record_ids = ids;
      }

-- A decision that says which stage was evaluated, how, and from which records.
pub record Decides (attempt : KernelAttempt) (given : Option ResultRecord)
    (additional : List ExecutionRecord) (evaluated : EvaluatedKernelResult) (d : DecisionRecord)
    : Type 0 where
  pub payload_json : Json
  pub is_inline : d.payload ≡ inline payload_json
  pub reads_back :
      decision_payload payload_json
      ≡ ok (record {
        stage_id = attempt.scope.stage_id;
        evaluator = evaluated.evaluator;
        outcome = evaluated.outcome;
        reason = evaluated.reason;
      })
  pub by_reducer : d.reducer ≡ evaluated.evaluator
  pub in_run : d.pipeline_run_id ≡ attempt.pipeline_run_id
  pub cites :
      (id : Text)
      → contains id d.input_record_ids
        ≡ contains id
            (map (λ (r : ResultRecord). r.id) (option_to_list given) ++ map id_of additional)

decision_json-reads_back :
    (stage_id : Text) (evaluated : EvaluatedKernelResult)
    → decision_payload (decision_json stage_id evaluated)
      ≡ ok (record {
        stage_id = stage_id;
        evaluator = evaluated.evaluator;
        outcome = evaluated.outcome;
        reason = evaluated.reason;
      })
unfolding decision_payload decision_json exact_object ◌>>=◌ or_throw for_each member_names throw_if
    contains list_beq text member
decision_json-reads_back stage_id evaluated = refl

-- The payload of the record that createPipelineDecisionRecord makes is read back as the stage and
-- the evaluation that it was made from, and the record cites exactly the records given.
pub create_pipeline_decision_record-Decides :
    (platform : Platform) (attempt : KernelAttempt) (given : Option ResultRecord)
    (additional : List ExecutionRecord) (evaluated : EvaluatedKernelResult) (created_at : Text)
    → Decides attempt given additional evaluated
        (create_pipeline_decision_record platform attempt given additional evaluated created_at)
unfolding create_pipeline_decision_record
create_pipeline_decision_record-Decides platform attempt given additional evaluated created_at =
    record {
      payload_json = decision_json attempt.scope.stage_id evaluated;
      is_inline = refl;
      reads_back = decision_json-reads_back attempt.scope.stage_id evaluated;
      by_reducer = refl;
      in_run = refl;
      cites = λ id. cites_given id;
    }
  where
    cites_given :
        (id : Text)
        → contains id (cited_ids given additional)
          ≡ contains id
              (map (λ (r : ResultRecord). r.id) (option_to_list given) ++ map id_of additional)
    cites_given id = contains-sorted_unique id _
