-- ===== src/Kernel/Support.antt =====
-- Guards that the reducer's operations share (supervisor/src/pipeline/kernel/reducer-support.ts).
use openthrottle.Base.{
  not, ◌&&◌, ◌||◌, Option, none, some, List, [], ◌++◌, map, Text, text, decimal, pad_start, Dict,
  keys, lookup, ◌==◌, nat_eq, list_eq, option_eq, contains, find, any, filter, is_some,
  has_duplicates, sort_texts, sorted_unique, Result, ok, ◌>>=◌, ◌>>◌, throw_if, or_throw, for_each,
}
use openthrottle.Contracts.Formats.{is_digest, is_git_subject}
use openthrottle.Contracts.Pipeline.{
  RepositoryAuthority, inspect, CompiledPipelineStage, CompiledPipelineManifest, agent, is_effect,
  is_wait, runs_effect, authority_beq, StageKind,
}
use openthrottle.Contracts.Records.{AttemptCheckpoint, ExecutionRecord, base_of, id_of}
use openthrottle.Kernel.Types.{
  KernelRun, KernelCursor, KernelFrontierMember, KernelAttempt, AttemptScope, ScopeKind, Sibling,
  ReducerInput, is_terminal_run, is_terminal_attempt, is_stage_scope, check_context_ids,
}

-- assertExactMap
unfoldable pub assert_exact_map {ℓ} : {V : Type ℓ} → Dict V → List Text → Result (Unit {0})
assert_exact_map entries expected_ids =
    throw_if (not (sort_texts (keys entries) == sorted_unique expected_ids))
      "${name} must contain exactly: ${expected.join(\", \") || \"(none)\"}"

-- stageFor
unfoldable pub stage_for : CompiledPipelineManifest → Text → Result CompiledPipelineStage
stage_for manifest stage_id =
    or_throw (find (λ (s : CompiledPipelineStage). s.id == stage_id) manifest.stages)
      "compiled manifest does not contain stage ${stageId}"

authority_of : StageKind → RepositoryAuthority
authority_of (agent a) = a.repository_authority
authority_of _ = inspect

-- authorityForStage
unfoldable pub authority_for_stage : CompiledPipelineStage → RepositoryAuthority
unfolding authority_of
authority_for_stage s = authority_of s.kind

sibling_key : Text → Text → Sibling → Text
sibling_key tag stage_id s =
    tag
    ++ stage_id
    ++ text ":"
    ++ s.group_id
    ++ text ":"
    ++ pad_start 10 (decimal s.index)
    ++ text ":"
    ++ s.member_id

scope_key_of : Text → ScopeKind → Text
unfolding sibling_key
scope_key_of stage_id ScopeKind.stage = text "0:" ++ stage_id
scope_key_of stage_id (ScopeKind.loop_item s) = sibling_key (text "1:") stage_id s
scope_key_of stage_id (ScopeKind.fanout_member s) = sibling_key (text "2:") stage_id s

-- attemptScopeKey
unfoldable pub attempt_scope_key : AttemptScope → Text
unfolding scope_key_of
attempt_scope_key scope = scope_key_of scope.stage_id scope.kind

-- `${attemptScopeKey(scope)}@${id}`
unfoldable pub member_key : AttemptScope → Text → Text
member_key scope id = attempt_scope_key scope ++ text "@" ++ id

-- frontierMemberKey
unfoldable pub frontier_member_key : KernelAttempt → Text
frontier_member_key attempt = member_key attempt.scope attempt.id

-- assertActiveAttempt
unfoldable pub assert_active_attempt : KernelRun → KernelAttempt → Result (Unit {0})
assert_active_attempt run attempt = do
  throw_if (not (attempt.pipeline_run_id == run.id)) "attempt ${attempt.id} belongs to another run"
  throw_if (not (attempt.definition_bundle_hash == run.definition_bundle_hash))
      "attempt ${attempt.id} has another definition bundle"
  throw_if (not (lookup attempt.id run.active_attempt_versions == some attempt.version))
      "attempt ${attempt.id} is not active at version ${attempt.version}"
  throw_if (not (some attempt.scope.stage_id == run.cursor.stage_id))
      "attempt ${attempt.id} is outside the active pipeline cursor"
  throw_if (is_terminal_attempt attempt.status) "attempt ${attempt.id} is already terminal"
  check_context_ids attempt.context_record_ids
  check_context_ids attempt.context_checkpoint_ids

-- The body of the loop over the frontier in assertCursorTopology.
frontier_member_check : List Text → KernelCursor → KernelFrontierMember → Result (Unit {0})
frontier_member_check frontier_keys cursor member = do
  throw_if
      (not (member.scope_key == member_key member.scope member.attempt_id)
        || not (some member.scope.stage_id == cursor.stage_id))
      "kernel cursor frontier member ${member.attempt_id} is not canonical"
  for_each
      (λ dependency.
        throw_if
          (not (contains dependency frontier_keys)
            && not (contains dependency cursor.completed_scope_keys))
          "kernel cursor dependency ${dependency} is unavailable")
      member.depends_on
  throw_if (not (member.depends_on == sorted_unique member.depends_on))
      "kernel cursor member ${member.attempt_id} dependencies are not canonical"

-- The part of assertCursorTopology about the current attempt.
current_member_check : KernelCursor → Option KernelAttempt → Result (Unit {0})
current_member_check cursor none = ok tt
current_member_check cursor (some current) = do
  member ←
      or_throw (find (λ (m : KernelFrontierMember). m.attempt_id == current.id) cursor.frontier)
        "attempt ${current.id} is absent from the kernel cursor frontier"
  throw_if (any (λ d. not (contains d cursor.completed_scope_keys)) member.depends_on)
      "attempt ${current.id} was selected before its dependencies completed"

abbrev pub scope_keys : KernelCursor → List Text
scope_keys cursor = map (λ (m : KernelFrontierMember). m.scope_key) cursor.frontier

abbrev pub attempt_ids : KernelCursor → List Text
attempt_ids cursor = map (λ (m : KernelFrontierMember). m.attempt_id) cursor.frontier

-- The attempts of the frontier that have not completed.
abbrev pub unsettled_ids : KernelCursor → List Text
unsettled_ids cursor =
    map (λ (m : KernelFrontierMember). m.attempt_id)
      (filter (λ (m : KernelFrontierMember). not (contains m.scope_key cursor.completed_scope_keys))
        cursor.frontier)

-- assertCursorTopology
unfoldable pub assert_cursor_topology : KernelRun → Option KernelAttempt → Result (Unit {0})
unfolding frontier_member_check current_member_check
assert_cursor_topology run current = do
  let cursor = run.cursor
  barrier ← or_throw cursor.barrier "active kernel cursor requires an all-member barrier"
  let frontier_keys = scope_keys cursor
  throw_if (not (frontier_keys == sort_texts frontier_keys))
      "kernel cursor frontier is not in canonical order"
  throw_if (has_duplicates frontier_keys) "kernel cursor frontier contains duplicate scope keys"
  throw_if (has_duplicates (attempt_ids cursor))
      "kernel cursor frontier contains duplicate attempt identities"
  for_each (frontier_member_check frontier_keys cursor) cursor.frontier
  throw_if (not (cursor.completed_scope_keys == sorted_unique cursor.completed_scope_keys))
      "kernel cursor completed scope keys are not canonical"
  throw_if (not (sorted_unique barrier.member_scope_keys == sorted_unique frontier_keys))
      "kernel cursor barrier does not match its frontier"
  throw_if
      (not (sort_texts (unsettled_ids cursor) == sort_texts (keys run.active_attempt_versions)))
      "kernel run active attempts do not match its unsettled frontier"
  current_member_check cursor current

-- The loops over the record map and the checkpoint map in assertBaseInput.
record_entry_check : Text → Text × ExecutionRecord → Result (Unit {0})
record_entry_check run_id (key, r) = do
  throw_if (not (key == id_of r)) "record map key ${recordId} does not match record identity"
  throw_if (not ((base_of r).pipeline_run_id == run_id))
      "record ${recordId} belongs to another pipeline run"

checkpoint_entry_check : Text → Text × AttemptCheckpoint → Result (Unit {0})
checkpoint_entry_check run_id (key, c) = do
  throw_if (not (key == c.id))
      "checkpoint map key ${checkpointId} does not match checkpoint identity"
  throw_if (not (c.pipeline_run_id == run_id))
      "checkpoint ${checkpointId} belongs to another pipeline run"

-- The part of assertBaseInput about the current attempt.
unfoldable pub current_attempt_check :
    KernelRun → CompiledPipelineStage → Option KernelAttempt → Result (Unit {0})
current_attempt_check run active_stage none = ok tt
current_attempt_check run active_stage (some attempt) = do
  assert_active_attempt run attempt
  throw_if (not (authority_beq attempt.repository_authority (authority_for_stage active_stage)))
      "attempt ${attempt.id} does not use the stage repository authority"
  let scoped_subject =
      not (is_stage_scope attempt.scope.kind)
      && not (is_effect active_stage.kind)
      && not (is_wait active_stage.kind)
  let promoted_publication =
      runs_effect active_stage.kind (text "core/publish@1")
      && attempt.output_subject == some run.current_subject
  throw_if
      (not scoped_subject
        && not promoted_publication
        && not (attempt.input_subject == run.current_subject))
      "attempt ${attempt.id} does not use the current run subject"

-- assertBaseInput. A version is a natural number here, so the test for a negative one is left out.
unfoldable pub assert_base_input : ReducerInput → Result (Unit {0})
unfolding record_entry_check checkpoint_entry_check current_attempt_check
assert_base_input input = do
  let run = input.run
  let manifest = input.manifest
  throw_if (not (manifest.pipeline_id == run.pipeline_id))
      "compiled manifest does not belong to the pipeline run"
  throw_if (not (manifest.definition_bundle_hash == run.definition_bundle_hash))
      "compiled manifest definition bundle does not match the pipeline run"
  throw_if (not (is_digest run.definition_bundle_hash)) "invalid definition bundle hash"
  throw_if (not (is_git_subject run.current_subject)) "invalid run subject"
  throw_if (is_terminal_run run.status) "pipeline run ${run.id} is already terminal"
  throw_if (is_some run.terminal_outcome) "non-terminal run cannot have a terminal outcome"
  stage_id ← or_throw run.cursor.stage_id "non-terminal run must have an active cursor stage"
  active_stage ← stage_for manifest stage_id
  assert_cursor_topology run input.current_attempt
  for_each (record_entry_check run.id) input.records
  for_each (checkpoint_entry_check run.id) input.checkpoints
  current_attempt_check run active_stage input.current_attempt

-- currentAttempt
unfoldable pub current_attempt : ReducerInput → Text → Result KernelAttempt
current_attempt input attempt_id = do
  attempt ←
      or_throw input.current_attempt
        "command targets attempt ${attemptId} without its exact current aggregate"
  throw_if (not (attempt.id == attempt_id))
      "command targets attempt ${attemptId} without its exact current aggregate"
  ok attempt

-- assertAttemptCommandMapsEmpty
unfoldable pub assert_attempt_command_maps_empty : ReducerInput → Result (Unit {0})
assert_attempt_command_maps_empty input = do
  assert_exact_map input.records []
  assert_exact_map input.checkpoints []
