-- ===== src/Kernel/Evaluators/Outcomes.antt =====
-- The outcomes of evaluation (supervisor/src/pipeline/kernel/evaluator-registry.ts).
use openthrottle.Base.{
  ◌≡◌, refl, sym, ◌∙◌, Bool, true, false, ◌&&◌, some, Text, text, ◌==◌, list_eq, list_beq_iff,
  nat_eq, contains, ok, if◌then◌else◌, arith, or_throw-eq-ok, Ensures, Ensures-ok, Ensures-if,
  Ensures-bind, Ensures-throw_if,
}
use openthrottle.Contracts.Json.{Json, arr, Items, Fields, as_object}
use openthrottle.Contracts.Records.{ResultRecord}
use openthrottle.Kernel.Evaluators.{
  EvalDefinition, SemanticResultRecordPayload, EvaluatedKernelResult, repair, semantic_object,
  is_admission, admission_outcome, is_admission_review, admission_review_outcome,
  has_blocking_review_finding, review_result, findings_of, review_outcome, is_full_array,
  evaluated_by, evaluate_semantic, inline_semantic_payload,
}

-- How a review ends: with a request for repair exactly where a finding blocks, and else with the
-- outcome given, of which a failure that has findings becomes a success.
pub data Reviewed (p : SemanticResultRecordPayload) (outcome : Text) : Type 0 where
  blocked :
      (value : Fields) (findings : Items)
      → as_object p.payload ≡ some value
      → findings_of value ≡ some findings
      → has_blocking_review_finding findings ≡ ok true
      → outcome ≡ repair
      → Reviewed p outcome
  advisory :
      (value : Fields) (findings : Items)
      → as_object p.payload ≡ some value
      → findings_of value ≡ some findings
      → has_blocking_review_finding findings ≡ ok false
      → p.outcome ≡ text "failure"
      → is_full_array (some (arr findings)) ≡ true
      → outcome ≡ text "success"
      → Reviewed p outcome
  passed :
      (value : Fields) (findings : Items)
      → as_object p.payload ≡ some value
      → findings_of value ≡ some findings
      → has_blocking_review_finding findings ≡ ok false
      → (p.outcome == text "failure" && is_full_array (some (arr findings))) ≡ false
      → outcome ≡ p.outcome
      → Reviewed p outcome

-- What decides the outcome under each evaluator.
pub data OutcomeOf (evaluator : Text) (p : SemanticResultRecordPayload) (outcome : Text)
    : Type 0 where
  reviewed :
      evaluator ≡ text "core/review-outcome@1" → Reviewed p outcome → OutcomeOf evaluator p outcome
  routed :
      (value : Fields)
      → evaluator ≡ text "core/admission-outcome@1"
      → as_object p.payload ≡ some value
      → outcome ≡ (if is_admission p.outcome value then p.outcome else repair)
      → OutcomeOf evaluator p outcome
  approved :
      (value : Fields)
      → evaluator ≡ text "core/admission-review-outcome@1"
      → as_object p.payload ≡ some value
      → outcome ≡ (if is_admission_review p.outcome value then p.outcome else repair)
      → OutcomeOf evaluator p outcome
  given :
      (evaluator == text "core/admission-outcome@1") ≡ false
      → (evaluator == text "core/admission-review-outcome@1") ≡ false
      → (evaluator == text "core/review-outcome@1") ≡ false
      → outcome ≡ p.outcome
      → OutcomeOf evaluator p outcome

-- What an evaluator gives for a payload.
pub record Judged (evaluator : Text) (p : SemanticResultRecordPayload) (e : EvaluatedKernelResult)
    : Type 0 where
  pub by_its_evaluator : e.evaluator ≡ evaluator
  pub outcome_of : OutcomeOf evaluator p e.outcome

-- What evaluateSemantic answers with.
pub record IsEvaluated (stage_eval : Text) (evaluation : EvalDefinition) (r : ResultRecord)
    (e : EvaluatedKernelResult) : Type 0 where
  pub bound_eval : stage_eval ≡ evaluation.id
  pub payload_read : SemanticResultRecordPayload
  pub read_from : inline_semantic_payload r ≡ ok payload_read
  pub result_schema : payload_read.semantic_schema_id ≡ evaluation.result_id
  pub outcome_allowed : contains payload_read.outcome evaluation.outcomes ≡ true
  pub judged : Judged evaluation.evaluator payload_read e

text_eq : (a b : Text) → (a == b) ≡ true → a ≡ b
text_eq a b = (list_beq_iff a b).0

semantic_object-eq-ok :
    (payload : Json) (value : Fields)
    → semantic_object payload ≡ ok value
    → as_object payload ≡ some value
unfolding semantic_object
semantic_object-eq-ok payload value = or_throw-eq-ok (as_object payload) _

-- The three cases of a review.
review_result-Reviewed :
    (p : SemanticResultRecordPayload) (value : Fields) (findings : Items) (blocking : Bool)
    → as_object p.payload ≡ some value
    → findings_of value ≡ some findings
    → has_blocking_review_finding findings ≡ ok blocking
    → Reviewed p (review_result p.outcome blocking findings).outcome
unfolding review_result
review_result-Reviewed p value findings true h0 h1 h2 = blocked value findings h0 h1 h2 refl
review_result-Reviewed p value findings false h0 h1 h2 =
    by_outcome (p.outcome == text "failure" && is_full_array (some (arr findings))) refl
  where
    by_outcome :
        (b : Bool)
        → (p.outcome == text "failure" && is_full_array (some (arr findings))) ≡ b
        → Reviewed p (review_result p.outcome false findings).outcome
    by_outcome true e =
        advisory value findings h0 h1 h2 (text_eq p.outcome (text "failure") (ground arith))
          (ground arith) (ground arith)
    by_outcome false e = passed value findings h0 h1 h2 e (ground arith)

review_result-evaluator :
    (outcome : Text) (blocking : Bool) (findings : Items)
    → (review_result outcome blocking findings).evaluator ≡ text "core/review-outcome@1"
unfolding review_result
review_result-evaluator outcome blocking findings = ground arith

evaluated_by-Judged :
    (evaluator : Text) (p : SemanticResultRecordPayload)
    → Ensures (Judged evaluator p) (evaluated_by evaluator p)
unfolding evaluated_by admission_outcome admission_review_outcome review_outcome
evaluated_by-Judged evaluator p =
    Ensures-if _ _ _
      (λ named. Ensures-bind _ _ λ value e0. Ensures-ok _ (record {
        by_its_evaluator = sym (text_eq _ _ named);
        outcome_of = routed value (text_eq _ _ named) (semantic_object-eq-ok _ _ e0) refl;
      }))
      λ not_admission.
        Ensures-if _ _ _
          (λ named. Ensures-bind _ _ λ value e0. Ensures-ok _ (record {
            by_its_evaluator = sym (text_eq _ _ named);
            outcome_of = approved value (text_eq _ _ named) (semantic_object-eq-ok _ _ e0) refl;
          }))
          λ not_review.
            Ensures-if _ _ _
              (λ named. Ensures-bind _ _ λ value e0. Ensures-bind _ _ λ findings e1.
                Ensures-bind _ _ λ blocking e2. Ensures-ok _ (record {
                  by_its_evaluator =
                      review_result-evaluator p.outcome blocking findings ∙ sym (text_eq _ _ named);
                  outcome_of = reviewed (text_eq _ _ named) (
                      review_result-Reviewed p value findings blocking
                        (semantic_object-eq-ok _ _ e0) (or_throw-eq-ok _ _ e1) e2);
                }))
              λ other. Ensures-ok _ (record {
                by_its_evaluator = refl;
                outcome_of = given not_admission not_review other refl;
              })

evaluate_semantic-Ensures :
    (stage_eval : Text) (evaluation : EvalDefinition) (r : ResultRecord)
    → Ensures (IsEvaluated stage_eval evaluation r) (evaluate_semantic stage_eval evaluation r)
unfolding evaluate_semantic
evaluate_semantic-Ensures stage_eval evaluation r = Ensures-throw_if _ _ _ λ bound.
    Ensures-bind _ _ λ p read. Ensures-throw_if _ _ _ λ allowed.
      Ensures-throw_if _ _ _ λ registered. record {
        at = λ e returned. record {
          bound_eval = text_eq stage_eval evaluation.id (ground arith);
          payload_read = p;
          read_from = read;
          result_schema = text_eq p.semantic_schema_id evaluation.result_id (ground arith);
          outcome_allowed = ground arith;
          judged = (evaluated_by-Judged evaluation.evaluator p).at e returned;
        };
      }

-- When evaluateSemantic returns, the stage names the eval, the payload read from the result is of
-- the eval's result schema with one of its outcomes, and the outcome is the payload's own, save that
-- an admission or admission review whose payload does not fit its route, and a review with a
-- blocking finding, ask for repair, and a failed review whose findings do not block succeeds.
pub evaluate_semantic-IsEvaluated :
    (stage_eval : Text) (evaluation : EvalDefinition) (r : ResultRecord) (e : EvaluatedKernelResult)
    → evaluate_semantic stage_eval evaluation r ≡ ok e
    → IsEvaluated stage_eval evaluation r e
evaluate_semantic-IsEvaluated stage_eval evaluation r =
    (evaluate_semantic-Ensures stage_eval evaluation r).at
