-- ===== src/Contracts/Records.antt =====
-- Execution records and checkpoints (contracts/src/records.ts). A field whose type is one literal
-- (`schema`, `algorithm`) is left out.
use openthrottle.Base.{
  ℕ, Bool, true, false, ◌&&◌, Option, List, Text, text, decimal, ◌==◌, list_eq, nat_eq, option_eq,
}
use openthrottle.Contracts.Json.{Json, num, str, obj, end, field}

pub data AttemptState : Type 0 where
  pending running work_complete result_pending recorded settled : AttemptState
  needs_human failed canceled superseded : AttemptState

pub data BlobEncoding : Type 0 where
  utf8 binary : BlobEncoding

pub record BlobPointer : Type 0 where
  pub digest : Text
  pub bytes : ℕ
  pub encoding : BlobEncoding
  pub media_type : Text
  pub payload_schema : Text

abbrev pub is_binary : BlobEncoding → Bool
is_binary binary = true
is_binary utf8 = false

encoding_beq : BlobEncoding → BlobEncoding → Bool
encoding_beq utf8 utf8 = true
encoding_beq binary binary = true
encoding_beq _ _ = false

unfoldable pub blob_beq : BlobPointer → BlobPointer → Bool
unfolding encoding_beq
blob_beq a b =
    a.digest == b.digest
    && a.bytes == b.bytes
    && encoding_beq a.encoding b.encoding
    && a.media_type == b.media_type
    && a.payload_schema == b.payload_schema

abbrev encoding_text : BlobEncoding → Text
encoding_text utf8 = text "utf-8"
encoding_text binary = text "binary"

-- A blob pointer as a JSON value, in the order in which `parseBlobPointer` builds it.
unfoldable pub blob_json : BlobPointer → Json
blob_json b = obj (
    field (text "algorithm") (str (text "sha256")) (
      field (text "digest") (str b.digest) (
        field (text "bytes") (num (decimal b.bytes)) (
          field (text "encoding") (str (encoding_text b.encoding)) (
            field (text "media_type") (str b.media_type)
              (field (text "payload_schema") (str b.payload_schema) end))))))

pub data RecordPayload : Type 0 where
  inline : Json → RecordPayload
  blob : BlobPointer → RecordPayload

pub record AttemptCheckpoint : Type 0 where
  pub id : Text
  pub pipeline_run_id : Text
  pub attempt_id : Text
  pub request_hash : Text
  pub definition_bundle_hash : Text
  pub input_subject : Text
  pub output_subject : Option Text
  pub native_session_id : Option Text
  pub payload_schema : Text
  pub payload : RecordPayload
  pub captured_at : Text

pub record ExecutionRecordBase : Type 0 where
  pub id : Text
  pub pipeline_run_id : Text
  pub payload_schema : Text
  pub payload : RecordPayload
  pub created_at : Text

pub record ResultRecord : Type 0 where
  pub base : ExecutionRecordBase
  pub open base use *
  pub attempt_id : Text
  pub request_hash : Text
  pub definition_bundle_hash : Text
  pub input_subject : Text
  pub output_subject : Option Text
  pub original_candidate_hash : Text
  pub normalized_candidate_hash : Text

pub record DecisionRecord : Type 0 where
  pub base : ExecutionRecordBase
  pub open base use *
  pub reducer : Text
  pub input_record_ids : List Text

pub data DeliveryStatus : Type 0 where
  confirmed rejected : DeliveryStatus

abbrev pub is_confirmed : DeliveryStatus → Bool
is_confirmed confirmed = true
is_confirmed rejected = false

pub record DeliveryRecord : Type 0 where
  pub base : ExecutionRecordBase
  pub open base use *
  pub effect_id : Text
  pub idempotency_key : Text
  pub external_identity : Text
  pub status : DeliveryStatus

pub data ExecutionRecord : Type 0 where
  result : ResultRecord → ExecutionRecord
  decision : DecisionRecord → ExecutionRecord
  delivery : DeliveryRecord → ExecutionRecord

-- The fields that every kind of record has.
abbrev pub base_of : ExecutionRecord → ExecutionRecordBase
base_of (result r) = r.base
base_of (decision d) = d.base
base_of (delivery d) = d.base

abbrev pub id_of : ExecutionRecord → Text
id_of r = (base_of r).id

abbrev pub as_result : ExecutionRecord → Option ResultRecord
as_result (result r) = Option.some r
as_result _ = Option.none

abbrev pub as_decision : ExecutionRecord → Option DecisionRecord
as_decision (decision d) = Option.some d
as_decision _ = Option.none

abbrev pub as_delivery : ExecutionRecord → Option DeliveryRecord
as_delivery (delivery d) = Option.some d
as_delivery _ = Option.none
