-- ===== src/Kernel/Reducer/Bundle/Guards.antt =====
-- The guards on the checkpoints, the records and the attempts of a command
-- (supervisor/src/pipeline/kernel/reducer.ts).
use openthrottle.Base.{
  String, Bool, false, not, ◌&&◌, ◌||◌, Option, none, some, List, [], ◌∷◌, map, Text, Dict, lookup,
  ◌==◌, nat_eq, list_eq, option_eq, contains, any, is_some, is_none, has_duplicates, leb, Result,
  ok, ◌>>=◌, ◌>>◌, throw_if, or_throw, for_each, map_each, if◌then◌else◌,
}
use openthrottle.Contracts.Formats.{is_digest}
use openthrottle.Contracts.Pipeline.{
  CompiledPipelineStage, CompiledPipelineManifest, is_agent, is_edit, is_effect, is_wait,
  authority_beq,
}
use openthrottle.Contracts.Records.{
  AttemptCheckpoint, ExecutionRecord, DecisionRecord, ResultRecord, as_decision, as_result,
}
use openthrottle.Kernel.Types.{
  KernelRun, KernelAttempt, ScopeKind, ReducerInput, DecisionAuthorization, is_pending,
  check_context_ids,
}
use openthrottle.Kernel.Support.{
  assert_exact_map, stage_for, authority_for_stage, attempt_scope_key,
}

-- assertCheckpointIdentity
unfoldable pub assert_checkpoint_identity :
    AttemptCheckpoint → KernelAttempt → CompiledPipelineStage → Result (Unit {0})
assert_checkpoint_identity checkpoint attempt s = do
  throw_if
      (not (checkpoint.attempt_id == attempt.id)
        || not (checkpoint.request_hash == attempt.request_hash)
        || not (checkpoint.definition_bundle_hash == attempt.definition_bundle_hash)
        || not (checkpoint.input_subject == attempt.input_subject))
      "checkpoint ${checkpoint.id} does not match the complete attempt identity"
  if is_agent s.kind
      then (throw_if (is_none attempt.native_session_id)
            "agent attempt ${attempt.id} must bind its native session before checkpointing"
          >> throw_if (not (checkpoint.native_session_id == attempt.native_session_id))
              "checkpoint ${checkpoint.id} changes the pinned native session")
      else throw_if (is_some attempt.native_session_id || is_some checkpoint.native_session_id)
          "${stage.kind} checkpoints cannot bind an agent native session"

-- exactCheckpoint
unfoldable pub exact_checkpoint : ReducerInput → Text → Result AttemptCheckpoint
exact_checkpoint input checkpoint_id = do
  assert_exact_map input.checkpoints (checkpoint_id ∷ [])
  or_throw (lookup checkpoint_id input.checkpoints) "missing exact checkpoint ${checkpointId}"

abbrev decision_at : Text → Dict ExecutionRecord → Option DecisionRecord
decision_at id records = elim (lookup id records) [ none ↦ none | some r ↦ as_decision r ]

-- A record of the map that is a decision, or the error.
unfoldable pub decision_or_throw : ReducerInput → Text → String → Result DecisionRecord
decision_or_throw input id message = or_throw (decision_at id input.records) message

-- exactDecision
unfoldable pub exact_decision : ReducerInput → Text → Result DecisionAuthorization
unfolding decision_or_throw
exact_decision input decision_id = do
  candidate ← decision_or_throw input decision_id "record ${decisionId} is not a DecisionRecord"
  throw_if (contains candidate.id candidate.input_record_ids)
      "DecisionRecord ${decisionId} cannot cite itself"
  assert_exact_map input.records (decision_id ∷ candidate.input_record_ids)
  exact_records ←
      map_each
        (λ id.
          or_throw (lookup id input.records)
            "DecisionRecord ${decisionId} references unavailable record ${recordId}")
        (decision_id ∷ candidate.input_record_ids)
  ok (record { decision = candidate; exact_records = exact_records })

-- `!Number.isSafeInteger(index) || index < 0` of an index of the scope
bad_sibling_index : ScopeKind → Bool
bad_sibling_index ScopeKind.stage = false
bad_sibling_index (ScopeKind.loop_item s) = not (leb s.index 9007199254740991)
bad_sibling_index (ScopeKind.fanout_member s) = not (leb s.index 9007199254740991)

-- assertPendingAttempt
unfoldable pub assert_pending_attempt :
    CompiledPipelineManifest → KernelRun → Text → Text → KernelAttempt → Result (Unit {0})
unfolding bad_sibling_index
assert_pending_attempt manifest run expected_stage_id expected_input_subject attempt = do
  throw_if (not (attempt.pipeline_run_id == run.id))
      "new attempt ${attempt.id} belongs to another run"
  throw_if (not (attempt.definition_bundle_hash == run.definition_bundle_hash))
      "new attempt ${attempt.id} has another definition bundle"
  throw_if (not (attempt.scope.stage_id == expected_stage_id))
      "new attempt ${attempt.id} does not target stage ${input.expectedStageId}"
  throw_if (not (attempt.input_subject == expected_input_subject))
      "new attempt ${attempt.id} does not use the run's verified subject"
  throw_if (not (is_digest attempt.request_hash))
      "new attempt ${attempt.id} has an invalid request hash"
  throw_if
      (not (is_pending attempt.status)
        || not (attempt.version == 0)
        || is_some attempt.lease
        || is_some attempt.output_subject
        || is_some attempt.checkpoint_id
        || is_some attempt.result_record_id
        || is_some attempt.pending_result
        || is_some attempt.decision_record_id
        || not (attempt.result_correction_count == 0)
        || is_some attempt.result_correction_deadline)
      "new attempt ${attempt.id} is not a pristine pending attempt"
  check_context_ids attempt.context_record_ids
  check_context_ids attempt.context_checkpoint_ids
  throw_if (bad_sibling_index attempt.scope.kind)
      "new attempt ${attempt.id} has an invalid sibling index"
  s ← stage_for manifest expected_stage_id
  throw_if (not (authority_beq attempt.repository_authority (authority_for_stage s)))
      "new attempt ${attempt.id} does not use the stage repository authority"

-- assertUniqueNewAttempts
unfoldable pub assert_unique_new_attempts : List KernelAttempt → KernelRun → Result (Unit {0})
assert_unique_new_attempts attempts run = do
  let ids = map (λ (a : KernelAttempt). a.id) attempts
  throw_if (has_duplicates ids) "new attempt identities must be unique"
  for_each
      (λ id.
        throw_if (is_some (lookup id run.active_attempt_versions))
          "new attempt ${id} is already active")
      ids
  throw_if (has_duplicates (map (λ (a : KernelAttempt). attempt_scope_key a.scope) attempts))
      "new sibling attempt scopes must be unique"

abbrev result_at : Text → Dict ExecutionRecord → Option ResultRecord
result_at id records = elim (lookup id records) [ none ↦ none | some r ↦ as_result r ]

-- resultForAttempt
unfoldable pub result_for_attempt : ReducerInput → KernelAttempt → Text → Result ResultRecord
result_for_attempt input attempt record_id = do
  candidate ←
      or_throw (result_at record_id input.records) "record ${recordId} is not a ResultRecord"
  throw_if
      (not (candidate.attempt_id == attempt.id)
        || not (candidate.request_hash == attempt.request_hash)
        || not (candidate.definition_bundle_hash == attempt.definition_bundle_hash)
        || not (candidate.input_subject == attempt.input_subject)
        || not (candidate.output_subject == attempt.output_subject))
      "ResultRecord ${recordId} does not match the complete attempt identity"
  ok candidate

-- recordForAttempt
unfoldable pub record_for_attempt : ReducerInput → KernelAttempt → Text → Result ResultRecord
record_for_attempt input attempt record_id = do
  assert_exact_map input.records (record_id ∷ [])
  result_for_attempt input attempt record_id

-- assertRecordableResult
unfoldable pub assert_recordable_result :
    ReducerInput → KernelAttempt → ResultRecord → Result (Unit {0})
assert_recordable_result input attempt r = do
  s ← stage_for input.manifest attempt.scope.stage_id
  throw_if (is_some attempt.result_record_id && not (attempt.result_record_id == some r.id))
      "attempt ${attempt.id} already persists another authoritative result"
  throw_if (is_edit attempt.repository_authority && is_none r.output_subject)
      "edit ResultRecord must retain its verified output subject"
  throw_if
      (not (is_edit attempt.repository_authority)
        && not (is_effect s.kind)
        && is_some r.output_subject)
      "inspect ResultRecord cannot advance the repository subject"
  throw_if (is_wait s.kind && is_some r.output_subject)
      "wait ResultRecord cannot advance the repository subject"

-- `Object.entries(checkpoint_ids).find(([attemptId, checkpointId]) => …)`
unfoldable pub owned_by_another : Text → Text → Dict Text → Bool
owned_by_another checkpoint_id attempt_id owners =
    any (λ entry. entry.1 == checkpoint_id && not (entry.0 == attempt_id)) owners
