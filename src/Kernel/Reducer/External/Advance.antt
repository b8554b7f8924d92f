-- ===== src/Kernel/Reducer/External/Advance.antt =====
-- What advanceExternalSubject reads of its checkpoints and its delivery
-- (supervisor/src/pipeline/kernel/reducer.ts).
use openthrottle.Base.{
  Bool, false, not, ◌&&◌, ◌||◌, Option, none, some, [], ◌∷◌, Text, text, Dict, lookup, ◌==◌, nat_eq,
  list_eq, option_eq, Result, ok, ◌>>=◌, ◌>>◌, throw_if, or_throw, if◌then◌else◌,
}
use openthrottle.Contracts.Json.{Json, Fields, member, as_object, as_string, is_string, json_beq}
use openthrottle.Contracts.Formats.{is_git_subject}
use openthrottle.Contracts.Records.{
  AttemptCheckpoint, RecordPayload, inline, blob, BlobPointer, is_binary, blob_json,
  ExecutionRecord, DeliveryRecord, is_confirmed, as_delivery,
}
use openthrottle.Kernel.Types.{KernelAttempt, ReducerInput, AdvanceExternalSubject}
use openthrottle.Kernel.Support.{assert_exact_map}
use openthrottle.Kernel.Recovery.{inline_object}

object_member : Option Json → Option Fields
object_member none = none
object_member (some v) = as_object v

-- publicationParentFromPlanningCheckpoint
unfoldable pub publication_parent : AttemptCheckpoint → Result Text
unfolding object_member
publication_parent checkpoint = do
  throw_if (not (checkpoint.payload_schema == text "openthrottle.external-boundary-checkpoint/v1"))
      "publication advance requires exact ordinal-0 planning evidence"
  payload ←
      or_throw (inline_object checkpoint.payload)
        "publication advance requires exact ordinal-0 planning evidence"
  throw_if
      (not (
          is_string (member (text "schema") payload)
            (text "openthrottle.external-boundary-checkpoint/v1"))
        || not (is_string (member (text "external_kind") payload) (text "core/publish@1"))
        || not (is_string (member (text "subject_policy") payload) (text "advance")))
      "publication advance requires exact ordinal-0 planning evidence"
  evidence ←
      or_throw (object_member (member (text "evidence") payload))
        "publication advance requires exact ordinal-0 planning evidence"
  parent ←
      or_throw (as_string (member (text "publication_parent_subject") evidence))
        "publication planning evidence has no sealed publication parent"
  throw_if (not (is_git_subject parent))
      "publication planning evidence has no sealed publication parent"
  ok parent

abbrev pub git_bundle : RecordPayload → Option BlobPointer
git_bundle (inline v) = none
git_bundle (blob b) =
    if is_binary b.encoding && b.media_type == text "application/x-git-bundle" then some b else none

is_json : Option Json → Json → Bool
is_json none w = false
is_json (some v) w = json_beq v w

delivery_at : Text → Dict ExecutionRecord → Option DeliveryRecord
delivery_at id records = elim (lookup id records) [ none ↦ none | some r ↦ as_delivery r ]

-- The guards of advanceExternalSubject on its delivery record.
unfoldable pub assert_integration_delivery :
    ReducerInput
    → KernelAttempt
    → AdvanceExternalSubject
    → AttemptCheckpoint
    → BlobPointer
    → Text
    → Result (Unit {0})
unfolding is_json delivery_at object_member
assert_integration_delivery input attempt command checkpoint pointer expected_input = do
  assert_exact_map input.records (command.delivery_record_id ∷ [])
  d ←
      or_throw (delivery_at command.delivery_record_id input.records)
        "external integration requires one exact confirmed DeliveryRecord"
  throw_if
      (not (is_confirmed d.status)
        || not (d.pipeline_run_id == input.run.id)
        || not (d.payload_schema == text "openthrottle.effect-delivery/v1"))
      "external integration requires one exact confirmed DeliveryRecord"
  envelope ←
      or_throw (inline_object d.payload)
        "external integration requires one exact confirmed DeliveryRecord"
  evidence ←
      or_throw (object_member (member (text "result") envelope))
        "external integration DeliveryRecord has no materialized result"
  throw_if
      (not
          (is_string (member (text "effect_kind") envelope) (text "daytona/integrate-checkpoint@1"))
        || not (is_string (member (text "provider") envelope) (text "daytona"))
        || not (
            is_string (member (text "schema") evidence)
              (text "openthrottle.daytona-integration-delivery/v1"))
        || not (is_string (member (text "state") evidence) (text "integrated"))
        || not (is_string (member (text "pipeline_run_id") evidence) input.run.id)
        || not (is_string (member (text "attempt_id") evidence) attempt.id)
        || not (is_string (member (text "effect_id") evidence) d.effect_id)
        || not (is_string (member (text "idempotency_key") evidence) d.idempotency_key)
        || not (is_string (member (text "input_subject") evidence) expected_input)
        || not (is_string (member (text "output_subject") evidence) command.verified_output_subject)
        || not (is_string (member (text "checkpoint_id") evidence) checkpoint.id)
        || not (
            is_string (member (text "checkpoint_payload_schema") evidence)
              checkpoint.payload_schema)
        || not (is_json (member (text "checkpoint_blob") evidence) (blob_json pointer)))
      "external integration DeliveryRecord changed its exact attempt or blob identity"
