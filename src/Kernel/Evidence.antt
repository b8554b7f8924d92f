-- ===== src/Kernel/Evidence.antt =====
-- Evidence records of an attempt and the authority over effects (attempt-evidence.ts and
-- effect-intent.ts of supervisor/src/pipeline/kernel).
use openthrottle.Base.{
  ℕ, Bool, false, not, ◌&&◌, Option, none, some, [], ◌++◌, Text, text, decimal, ◌==◌, nat_eq,
  list_eq, take, Result, ok, err, ◌>>=◌, ◌>>◌, throw_if,
}
use openthrottle.Contracts.Json.{num, str, obj, end, field}
use openthrottle.Contracts.Effects.{EffectIntent, validate_effect_intent}
use openthrottle.Contracts.Records.{
  BlobPointer, blob_beq, inline, blob, RecordPayload, DecisionRecord, DeliveryRecord,
}
use openthrottle.Kernel.Types.{KernelAttempt, Platform}

unfoldable pub attempt_forensics_reducer : Text
attempt_forensics_reducer = text "core/attempt-forensics@1"

unfoldable pub invalid_result_evidence_reducer : Text
invalid_result_evidence_reducer = text "core/invalid-result-evidence@1"

module _ (platform : Platform) where
  -- attemptForensicsRecordId
  unfoldable pub attempt_forensics_record_id : KernelAttempt → ℕ → Text
  attempt_forensics_record_id attempt work_retry_ordinal =
      text "decision-"
      ++ take 48 (
          platform.digest_json (
            obj (
              field (text "reducer") (str attempt_forensics_reducer) (
                field (text "pipeline_run_id") (str attempt.pipeline_run_id) (
                  field (text "attempt_id") (str attempt.id) (
                    field (text "request_hash") (str attempt.request_hash) (
                      field (text "definition_bundle_hash") (str attempt.definition_bundle_hash) (
                        field (text "work_retry_ordinal") (num (decimal work_retry_ordinal))
                          end))))))))

  -- invalidResultEvidenceRecordId
  unfoldable pub invalid_result_evidence_record_id : KernelAttempt → BlobPointer → Text
  invalid_result_evidence_record_id attempt pointer =
      text "decision-"
      ++ take 48 (
          platform.digest_json (
            obj (
              field (text "reducer") (str invalid_result_evidence_reducer) (
                field (text "attempt_id") (str attempt.id)
                  (field (text "blob_digest") (str pointer.digest) end)))))

  -- evidenceRecord and createInvalidResultEvidenceRecord
  unfoldable pub create_invalid_result_evidence_record :
      KernelAttempt → BlobPointer → Text → Result DecisionRecord
  create_invalid_result_evidence_record attempt pointer created_at = do
    throw_if (not (pointer.payload_schema == text "openthrottle.invalid-result-evidence/v1"))
        "invalid result evidence pointer uses another payload schema"
    ok (record {
      base = record {
        id = invalid_result_evidence_record_id attempt pointer;
        pipeline_run_id = attempt.pipeline_run_id;
        payload_schema = pointer.payload_schema;
        payload = blob pointer;
        created_at = created_at;
      };
      reducer = invalid_result_evidence_reducer;
      input_record_ids = [];
    })

  payload_is_blob : RecordPayload → BlobPointer → Bool
  payload_is_blob (inline value) pointer = false
  payload_is_blob (blob b) pointer = blob_beq b pointer

  -- assertExactInvalidResultEvidenceRecord. Two records of the same kind have the same canonical
  -- JSON when their fields are equal.
  unfoldable pub assert_exact_invalid_result_evidence_record :
      KernelAttempt → BlobPointer → DecisionRecord → Result (Unit {0})
  unfolding payload_is_blob
  assert_exact_invalid_result_evidence_record attempt pointer actual = do
    expected ← create_invalid_result_evidence_record attempt pointer actual.created_at
    throw_if
        (not (
          actual.id == expected.id
          && actual.pipeline_run_id == expected.pipeline_run_id
          && actual.reducer == expected.reducer
          && actual.input_record_ids == expected.input_record_ids
          && actual.payload_schema == expected.payload_schema
          && payload_is_blob actual.payload pointer))
        "invalid-result evidence record does not match its Attempt and blob pointer"

  -- authorizeEffectIntent
  unfoldable pub authorize_effect_intent :
      DecisionRecord → Text → EffectIntent → Result EffectIntent
  authorize_effect_intent owner pipeline_run_id intent = do
    validated ← validate_effect_intent platform.canonical_bytes intent
    throw_if (not (owner.pipeline_run_id == pipeline_run_id))
        "effect intent decision belongs to another pipeline run"
    throw_if (not (validated.pipeline_run_id == pipeline_run_id))
        "effect intent belongs to another pipeline run"
    throw_if (not (validated.decision_record_id == owner.id))
        "effect intent is not owned by the supplied DecisionRecord"
    ok validated

-- EffectObservation: what reading the provider back says of an effect.
pub data EffectObservation : Type 0 where
  found : (external_identity : Text) → DeliveryRecord → EffectObservation
  not_found : (external_identity : Text) → EffectObservation
  unknown : (external_identity detail : Text) → EffectObservation

pub data EffectReconciliation : Type 0 where
  append_delivery : DeliveryRecord → EffectReconciliation
  execute : EffectIntent → EffectReconciliation
  hold_unknown : (effect_id external_identity detail retry_at : Text) → EffectReconciliation

unfoldable pub observed_identity : EffectObservation → Text
observed_identity (found e d) = e
observed_identity (not_found e) = e
observed_identity (unknown e detail) = e

-- What follows the test of the identity, by the observation's kind.
unfoldable pub reconcile_observation :
    EffectIntent → Option Text → EffectObservation → Result EffectReconciliation
reconcile_observation intent none (unknown e detail) =
    err "unknown effect reconciliation requires an executor retry_at"
reconcile_observation intent (some retry_at) (unknown e detail) =
    ok (hold_unknown intent.id e detail retry_at)
reconcile_observation intent retry_at (not_found e) = ok (execute intent)
reconcile_observation intent retry_at (found e d) = do
  throw_if (not (d.pipeline_run_id == intent.pipeline_run_id))
      "effect delivery belongs to another pipeline run"
  throw_if (not (d.effect_id == intent.id)) "effect delivery belongs to another effect intent"
  throw_if (not (d.idempotency_key == intent.idempotency_key))
      "effect delivery idempotency key does not match its intent"
  throw_if (not (d.external_identity == intent.target))
      "effect delivery external identity does not match its intent"
  ok (append_delivery d)

-- reconcileEffectIntent
unfoldable pub reconcile_effect_intent :
    Platform → EffectIntent → EffectObservation → Option Text → Result EffectReconciliation
unfolding observed_identity reconcile_observation
reconcile_effect_intent platform given observation retry_at = do
  intent ← validate_effect_intent platform.canonical_bytes given
  throw_if (not (observed_identity observation == intent.target))
      "effect observation does not match the deterministic external identity"
  reconcile_observation intent retry_at observation
