-- ===== src/Kernel/Types.antt =====
-- Runs, attempts, commands and transitions (supervisor/src/pipeline/kernel/types.ts). A version, an
-- ordinal or an index is a natural number. A field whose type is one literal (`schema`) is left out.
use openthrottle.Base.{
  ℕ, Bool, true, false, not, ◌||◌, Option, List, Text, Dict, ltb, any, has_duplicates, list_eq,
  nat_eq, ◌==◌, sort_texts, length, Result, ◌>>◌, throw_if,
}
use openthrottle.Contracts.Json.{Json}
use openthrottle.Contracts.Formats.{is_context_id}
use openthrottle.Contracts.Effects.{EffectIntent}
use openthrottle.Contracts.Pipeline.{
  PipelineTerminalOutcome, RepositoryAuthority, CompiledPipelineManifest,
}
use openthrottle.Contracts.Records.{
  AttemptState, BlobPointer, AttemptCheckpoint, DecisionRecord, ExecutionRecord,
}

pub data KernelRunStatus : Type 0 where
  pending running : KernelRunStatus
  ended : PipelineTerminalOutcome → KernelRunStatus

-- An attempt stands for a stage, for one item of a loop, or for one member of a fan-out. `Sibling`
-- holds the fields that the last two share under their own names.
pub record Sibling : Type 0 where
  pub parent_attempt_id : Text
  pub group_id : Text
  pub member_id : Text
  pub index : ℕ

pub data ScopeKind : Type 0 where
  stage : ScopeKind
  loop_item fanout_member : Sibling → ScopeKind

pub record AttemptScope : Type 0 where
  pub stage_id : Text
  pub kind : ScopeKind

pub record KernelFrontierMember : Type 0 where
  pub scope_key : Text
  pub attempt_id : Text
  pub scope : AttemptScope
  pub depends_on : List Text

-- The barrier's one kind is "all".
pub record KernelBarrier : Type 0 where
  pub member_scope_keys : List Text

pub record KernelCursor : Type 0 where
  pub stage_id : Option Text
  pub version : ℕ
  pub reentries : Dict ℕ
  pub frontier : List KernelFrontierMember
  pub completed_scope_keys : List Text
  pub barrier : Option KernelBarrier

pub record KernelRun : Type 0 where
  pub id : Text
  pub pipeline_id : Text
  pub definition_bundle_hash : Text
  pub current_subject : Text
  pub status : KernelRunStatus
  pub terminal_outcome : Option PipelineTerminalOutcome
  pub cursor : KernelCursor
  pub version : ℕ
  pub work_retry_limit : ℕ
  pub result_correction_limit : ℕ
  pub active_attempt_versions : Dict ℕ
  pub active_effect_versions : Dict ℕ
  pub checkpoint_ids : Dict Text

pub data AttemptLeasePurpose : Type 0 where
  work result_correction : AttemptLeasePurpose

pub record AttemptLease : Type 0 where
  pub id : Text
  pub generation : ℕ
  pub worker_id : Text
  pub purpose : AttemptLeasePurpose
  pub expires_at : Text
  pub started : Bool

pub record ResultDiagnostic : Type 0 where
  pub path : Text
  pub detail : Text

pub record ResultPendingState : Type 0 where
  pub candidate_hash : Option Text
  pub diagnostics : List ResultDiagnostic
  pub invalid_result_evidence : Option BlobPointer

pub record KernelAttempt : Type 0 where
  pub id : Text
  pub pipeline_run_id : Text
  pub scope : AttemptScope
  pub repository_authority : RepositoryAuthority
  pub request_hash : Text
  pub definition_bundle_hash : Text
  pub input_subject : Text
  pub context_record_ids : List Text
  pub context_checkpoint_ids : List Text
  pub output_subject : Option Text
  pub native_session_id : Option Text
  pub status : AttemptState
  pub version : ℕ
  pub work_retry_ordinal : ℕ
  pub result_correction_count : ℕ
  pub result_correction_deadline : Option Text
  pub lease : Option AttemptLease
  pub checkpoint_id : Option Text
  pub result_record_id : Option Text
  pub decision_record_id : Option Text
  pub pending_result : Option ResultPendingState

-- canonicalAttemptContextIds. A value that passes is returned as it was given.
unfoldable pub check_context_ids : List Text → Result (Unit {0})
check_context_ids values =
    throw_if (ltb 256 (length values)) "${label} must contain at most ${MAX_CONTEXT_IDS} IDs"
    >> throw_if (any (λ v. not (is_context_id v)) values) "${label} contains an invalid ID"
    >> throw_if (has_duplicates (sort_texts values) || not (sort_texts values == values))
        "${label} must be strictly sorted without duplicates"

pub record BindRuntimeSession : Type 0 where
  pub attempt_id : Text
  pub expected_run_version : ℕ
  pub expected_cursor_version : ℕ
  pub expected_attempt_version : ℕ
  pub request_hash : Text
  pub definition_bundle_hash : Text
  pub input_subject : Text
  pub lease_id : Text
  pub worker_id : Text
  pub lease_purpose : AttemptLeasePurpose
  pub expected_lease_expires_at : Text
  pub expected_work_retry_ordinal : ℕ
  pub expected_result_correction_count : ℕ
  pub native_session_id : Text

pub record WorkComplete : Type 0 where
  pub attempt_id : Text
  pub checkpoint_id : Text
  pub verified_output_subject : Option Text
  pub result_record_id : Option Text

pub record ResultPending : Type 0 where
  pub attempt_id : Text
  pub candidate_hash : Option Text
  pub diagnostics : List ResultDiagnostic
  pub correction_deadline : Text
  pub invalid_result_evidence : BlobPointer
  pub invalid_result_evidence_record_id : Text

pub record ScheduleExternal : Type 0 where
  pub attempt_id : Text
  pub checkpoint_id : Text
  pub decision_record_id : Text
  pub phase : Text
  pub verified_output_subject : Option Text
  pub effect_intents : List EffectIntent

pub record AdvanceExternalSubject : Type 0 where
  pub attempt_id : Text
  pub prior_checkpoint_id : Text
  pub checkpoint_id : Text
  pub delivery_record_id : Text
  pub verified_output_subject : Text

pub record SandboxRecovery : Type 0 where
  pub recovery_record_id : Text
  pub target_stage_id : Text
  pub input_subjects : Dict Text

-- An absent optional field is the empty list, as the code reads it.
pub record Settlement : Type 0 where
  pub attempt_id : Text
  pub decision_record_id : Text
  pub outcome : Text
  pub next_attempts : List KernelAttempt
  pub next_dependencies : Dict (List Text)
  pub effect_intents : List EffectIntent
  pub sandbox_recovery : Option SandboxRecovery

pub record CorrectAndSettle : Type 0 where
  pub settlement : Settlement
  pub open settlement use *
  pub result_record_id : Text
  pub invalid_result_evidence_record_id : Text

pub record QuarantineAttemptRecovery : Type 0 where
  pub attempt_id : Text
  pub decision_record_id : Text
  pub reason : Text
  pub lease_id : Text
  pub lease_generation : ℕ
  pub worker_id : Text
  pub lease_purpose : AttemptLeasePurpose

pub record Cleanup : Type 0 where
  pub runtime_delivery_record_ids : List Text
  pub diagnostic_record_ids : List Text
  pub new_diagnostic_record_ids : List Text
  pub cleanup_attempt : KernelAttempt

pub data KernelTerminalResourceDisposition : Type 0 where
  pre_provision : KernelTerminalResourceDisposition
  cleanup : Cleanup → KernelTerminalResourceDisposition

pub record Terminal : Type 0 where
  pub decision_record_id : Text
  pub reason : Text
  pub resource_disposition : KernelTerminalResourceDisposition

pub data KernelAction : Type 0 where
  start : (attempt_id lease_id : Text) → KernelAction
  bind_runtime_session : BindRuntimeSession → KernelAction
  work_complete : WorkComplete → KernelAction
  result_pending : ResultPending → KernelAction
  record_result : (attempt_id record_id : Text) → KernelAction
  schedule_external : ScheduleExternal → KernelAction
  advance_external_subject : AdvanceExternalSubject → KernelAction
  settle : Settlement → KernelAction
  correct_and_settle : CorrectAndSettle → KernelAction
  retry : (attempt_id : Text) (forensics_record_id : Option Text) → KernelAction
  quarantine_attempt_recovery : QuarantineAttemptRecovery → KernelAction
  needs_human fail : (attempt_id : Option Text) → Terminal → KernelAction
  stop supersede : Terminal → KernelAction

pub record KernelCommand : Type 0 where
  pub command_id : Text
  pub action : KernelAction

pub record ReducerInput : Type 0 where
  pub manifest : CompiledPipelineManifest
  pub run : KernelRun
  pub current_attempt : Option KernelAttempt
  pub records : Dict ExecutionRecord
  pub checkpoints : Dict AttemptCheckpoint
  pub command : KernelCommand

pub record AttemptTerminalWrite : Type 0 where
  pub attempt_id : Text
  pub expected_version : ℕ
  pub next_version : ℕ
  pub status : AttemptState

pub data AttemptWrite : Type 0 where
  terminal : AttemptTerminalWrite → AttemptWrite
  replace : KernelAttempt → AttemptWrite

pub record AtomicTransitionExpectedState : Type 0 where
  pub run_id : Text
  pub run_version : ℕ
  pub cursor_version : ℕ
  pub attempt_versions : Dict ℕ

pub record AtomicTransitionBundleContent : Type 0 where
  pub transition_id : Text
  pub expected : AtomicTransitionExpectedState
  pub run : KernelRun
  pub attempt_writes : List AttemptWrite
  pub create_attempts : List KernelAttempt
  pub append_records : List ExecutionRecord
  pub append_checkpoints : List AttemptCheckpoint
  pub put_effects : List EffectIntent
  pub cancel_effect_ids : List Text

pub record AtomicTransitionBundle : Type 0 where
  pub content : AtomicTransitionBundleContent
  pub content_hash : Text

pub record DecisionAuthorization : Type 0 where
  pub decision : DecisionRecord
  pub exact_records : List ExecutionRecord

-- What the kernel takes from Node.js: SHA-256 of the canonical JSON of a value and of a bundle,
-- the size of a payload's canonical JSON in bytes, and `JSON.parse` (`none` where it throws).
pub record Platform : Type 0 where
  pub digest_json : Json → Text
  pub digest_content : AtomicTransitionBundleContent → Text
  pub canonical_bytes : Json → ℕ
  pub parse_json : Text → Option Json

-- `run.status` and `attempt.status` tests
abbrev pub is_terminal_run : KernelRunStatus → Bool
is_terminal_run pending = false
is_terminal_run running = false
is_terminal_run (ended outcome) = true

abbrev pub is_terminal_attempt : AttemptState → Bool
is_terminal_attempt AttemptState.settled = true
is_terminal_attempt AttemptState.needs_human = true
is_terminal_attempt AttemptState.failed = true
is_terminal_attempt AttemptState.canceled = true
is_terminal_attempt AttemptState.superseded = true
is_terminal_attempt _ = false

abbrev pub is_pending : AttemptState → Bool
is_pending AttemptState.pending = true
is_pending _ = false

abbrev pub is_running : AttemptState → Bool
is_running AttemptState.running = true
is_running _ = false

abbrev pub is_work_complete : AttemptState → Bool
is_work_complete AttemptState.work_complete = true
is_work_complete _ = false

abbrev pub is_result_pending : AttemptState → Bool
is_result_pending AttemptState.result_pending = true
is_result_pending _ = false

abbrev pub is_recorded : AttemptState → Bool
is_recorded AttemptState.recorded = true
is_recorded _ = false

abbrev pub is_work : AttemptLeasePurpose → Bool
is_work work = true
is_work result_correction = false

abbrev pub is_stage_scope : ScopeKind → Bool
is_stage_scope stage = true
is_stage_scope _ = false

unfoldable pub purpose_beq : AttemptLeasePurpose → AttemptLeasePurpose → Bool
purpose_beq work work = true
purpose_beq result_correction result_correction = true
purpose_beq _ _ = false
