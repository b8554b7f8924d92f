-- ===== src/Kernel/Reducer/Settle.antt =====
-- The commands that settle an attempt and move the cursor: `settle` and `correct_and_settle`
-- (supervisor/src/pipeline/kernel/reducer.ts).
mod Lineage
mod Transition
mod Guards
use openthrottle.Base.{
  ℕ, ◌+◌, Bool, true, false, not, ◌&&◌, ◌||◌, Option, none, some, List, [], ◌∷◌, ◌++◌, map, filter,
  find, all, Text, text, truthy, Dict, lookup, put, erase, keys, sorted_record, ◌==◌, nat_eq,
  list_eq, option_eq, any, contains, get_or, is_empty, is_none, is_some, leb, sort, sort_texts,
  sorted_unique, Result, ok, ◌>>=◌, ◌>>◌, throw_if, or_throw, for_each, if◌then◌else◌,
}
use openthrottle.Contracts.Effects.{EffectIntent}
use openthrottle.Contracts.Json.{Fields, member, is_string}
use openthrottle.Contracts.Lifecycle.{runtime_provision_stage_id, runtime_stop_stage_id}
use openthrottle.Contracts.Pipeline.{
  PipelineTerminalOutcome, Exhaustion, PipelineTransition, CompiledPipelineStage, StageKind,
  is_effect, is_wait, is_edit,
}
use openthrottle.Contracts.Records.{
  AttemptState, ExecutionRecord, result, decision, delivery, id_of, BlobPointer,
}
use openthrottle.Kernel.Types.{
  KernelRunStatus, KernelRun, KernelAttempt, KernelFrontierMember, AttemptScope, ScopeKind,
  loop_item, fanout_member, Sibling, ReducerInput, Settlement, SandboxRecovery, CorrectAndSettle,
  ResultPendingState, Platform, DecisionAuthorization, AtomicTransitionBundleContent, is_recorded,
  is_result_pending, is_stage_scope,
}
use openthrottle.Kernel.Support.{assert_exact_map, stage_for, current_attempt}
use openthrottle.Kernel.Cursor.{compile_kernel_cursor}
use openthrottle.Kernel.Evidence.{assert_exact_invalid_result_evidence_record}
use openthrottle.Kernel.Lifecycle.{
  runtime_cleanup_outcome, runtime_exhaustion_destination, is_provision_stage,
}
use openthrottle.Kernel.Recovery.{inline_object, sandbox_recovery_attempt_id}
use openthrottle.Kernel.Resource.{exact_kernel_runtime_absence_deliveries}
use openthrottle.Kernel.Reducer.Attempt.{holds_started, for_correction}
use openthrottle.Kernel.Reducer.External.{activate_effects, authorize_effects, assert_new_effects}
use openthrottle.Kernel.Reducer.Terminal.{terminal_run}
use openthrottle.Kernel.Reducer.Bundle.{
  base_content, rewrites, attempt_le, exact_decision, decision_or_throw, result_for_attempt,
  assert_recordable_result, assert_pending_attempt, assert_unique_new_attempts,
}
unfoldable pub use Lineage.*
unfoldable pub use Transition.*
unfoldable pub use Guards.*

-- The attempt that a settlement writes.
unfoldable pub settled : KernelAttempt → Text → Text → KernelAttempt
settled attempt result_record_id decision_record_id = record attempt {
  status = AttemptState.settled;
  version = attempt.version + 1;
  lease = none;
  result_record_id = some result_record_id;
  decision_record_id = some decision_record_id;
  result_correction_deadline = none;
  pending_result = none;
}

-- The branch of settleAuthorized for a sibling that settles before the others.
unfoldable pub settle_sibling :
    ReducerInput
    → Settlement
    → KernelAttempt
    → KernelAttempt
    → List Text
    → List ExecutionRecord
    → Result AtomicTransitionBundleContent
settle_sibling input command attempt next completed_scope_keys append_records = do
  assert_exact_map input.checkpoints []
  throw_if
      (not (is_empty command.next_attempts)
        || not (is_empty command.effect_intents)
        || not (is_empty (keys command.next_dependencies)))
      "a sibling cannot advance the pipeline cursor before the fan-in is complete"
  let run = input.run
  let cursor = run.cursor
  let next_run = record run {
    version = run.version + 1;
    cursor = record cursor {
      version = cursor.version + 1;
      completed_scope_keys = completed_scope_keys;
    };
    active_attempt_versions = sorted_record (erase attempt.id run.active_attempt_versions);
  }
  base_content (record (rewrites input attempt next_run next) { append_records = append_records })

-- `acceptedSubject`, `none` for null
unfoldable pub accepted_subject : KernelRun → CompiledPipelineStage → KernelAttempt → Option Text
accepted_subject run s attempt =
    if is_effect s.kind && is_some attempt.output_subject
    then attempt.output_subject
    else if is_edit attempt.repository_authority && is_stage_scope attempt.scope.kind
    then attempt.output_subject
    else some run.current_subject

-- `for (const nextAttempt of …) activeAttempts[nextAttempt.id] = nextAttempt.version`
unfoldable pub activate_attempts : List KernelAttempt → Dict ℕ → Dict ℕ
activate_attempts [] active = active
activate_attempts (a ∷ as') active = activate_attempts as' (put a.id a.version active)

-- The run that a settlement writes when the barrier is complete.
unfoldable pub settled_run :
    ReducerInput
    → Settlement
    → KernelRun
    → List Text
    → List EffectIntent
    → EffectiveTransition
    → Option PipelineTerminalOutcome
    → Text
    → Result KernelRun
settled_run input command run completed_scope_keys effects transition (some outcome) to =
    let cursor = run.cursor in
    ok (
      terminal_run
        (record run { cursor = record cursor { completed_scope_keys = completed_scope_keys } })
        outcome)
settled_run input command run completed_scope_keys effects transition none to = do
  cursor ← compile_kernel_cursor (record {
    stage_id = to;
    version = input.run.cursor.version + 1;
    reentries = transition.reentries;
    attempts = command.next_attempts;
    dependencies = command.next_dependencies;
    completed_scope_keys = completed_scope_keys;
  })
  ok (record run {
    status = KernelRunStatus.running;
    version = input.run.version + 1;
    cursor = cursor;
    active_attempt_versions =
        sorted_record (activate_attempts (sort attempt_le command.next_attempts) []);
    active_effect_versions =
        sorted_record (activate_effects effects input.run.active_effect_versions);
  })

-- The guards of the transition, by whether it ends the run; the destination, if it does not.
unfoldable pub assert_transition :
    ReducerInput
    → Settlement
    → CompiledPipelineStage
    → Text
    → DecisionAuthorization
    → Text
    → KernelRun
    → EffectiveTransition
    → Option PipelineTerminalOutcome
    → Result Text
unfolding assert_terminal_transition assert_successors
assert_transition input command s result_id authorization accepted run transition (some outcome) =
    assert_terminal_transition input command s result_id authorization outcome >> ok []
assert_transition input command s result_id authorization accepted run transition none = do
  to ← or_throw (truthy transition.to) "pipeline transition is missing its destination"
  assert_successors input command s to accepted run
  ok to

-- The branch of settleAuthorized for the last member of the barrier.
unfoldable pub settle_last :
    Platform
    → ReducerInput
    → Settlement
    → CompiledPipelineStage
    → KernelAttempt
    → Text
    → DecisionAuthorization
    → KernelAttempt
    → List Text
    → List ExecutionRecord
    → Result AtomicTransitionBundleContent
unfolding settlement_transition assert_transition settled_run
settle_last platform input command s attempt result_id authorization next completed_keys
      append_records =
    do
      accepted ←
          or_throw (accepted_subject input.run s attempt)
            "accepted edit settlement has no verified output subject"
      let run = input.run
      let run_at_accepted = record run { current_subject = accepted }
      effective ← effective_transition run_at_accepted s command.outcome
      transition ←
          settlement_transition input command s authorization effective command.sandbox_recovery
      to ←
          assert_transition input command s result_id authorization accepted run_at_accepted
            transition transition.terminal
      effects ←
          authorize_effects platform authorization.decision input.run.id command.effect_intents
      assert_new_effects input.run accepted
          "effect intent identities must be unique within a transition"
          "effect intent idempotency keys must be unique within a transition"
          "effect intent ${effect.id} does not use the accepted repository subject" effects
      next_run ←
          settled_run input command run_at_accepted completed_keys effects transition
            transition.terminal to
      base_content (record (rewrites input attempt next_run next) {
        create_attempts = command.next_attempts;
        append_records = append_records;
        put_effects = effects;
      })

-- settleAuthorized
unfoldable pub settle_authorized :
    Platform
    → ReducerInput
    → Settlement
    → KernelAttempt
    → Text
    → DecisionAuthorization
    → List ExecutionRecord
    → Result AtomicTransitionBundleContent
unfolding settle_sibling settle_last settled
settle_authorized platform input command attempt result_id authorization append_records = do
  throw_if (not (contains result_id authorization.decision.input_record_ids))
      "settlement DecisionRecord must cite the current ResultRecord"
  s ← stage_for input.manifest attempt.scope.stage_id
  throw_if (is_none (lookup command.outcome s.on))
      "stage ${stage.id} has no transition for ${command.outcome}"
  member ←
      or_throw
        (find (λ (m : KernelFrontierMember). m.attempt_id == attempt.id) input.run.cursor.frontier)
        "attempt ${attempt.id} is outside the active cursor barrier"
  barrier ←
      or_throw input.run.cursor.barrier "attempt ${attempt.id} is outside the active cursor barrier"
  let completed_keys =
      sorted_unique (input.run.cursor.completed_scope_keys ++ member.scope_key ∷ [])
  let next = settled attempt result_id authorization.decision.id
  if all (λ k. contains k completed_keys) barrier.member_scope_keys
      then settle_last platform input command s attempt result_id authorization next completed_keys
          append_records
      else settle_sibling input command attempt next completed_keys append_records

-- settle
unfoldable pub settle_attempt :
    Platform → ReducerInput → Settlement → Result AtomicTransitionBundleContent
settle_attempt platform input command = do
  attempt ← current_attempt input command.attempt_id
  throw_if (not (is_recorded attempt.status))
      "attempt ${attempt.id} cannot settle before its ResultRecord"
  result_id ←
      or_throw (truthy attempt.result_record_id)
        "attempt ${attempt.id} cannot settle before its ResultRecord"
  authorization ← exact_decision input command.decision_record_id
  settle_authorized platform input command attempt result_id authorization
      (decision authorization.decision ∷ [])

pending_pointer : Option ResultPendingState → Option BlobPointer
pending_pointer none = none
pending_pointer (some pending) = pending.invalid_result_evidence

-- correctAndSettle
unfoldable pub correct_and_settle_attempt :
    Platform → ReducerInput → CorrectAndSettle → Result AtomicTransitionBundleContent
unfolding pending_pointer
correct_and_settle_attempt platform input command = do
  attempt ← current_attempt input command.attempt_id
  throw_if
      (not (is_result_pending attempt.status)
        || is_some attempt.result_record_id
        || not (holds_started for_correction attempt.lease))
      "attempt ${attempt.id} cannot atomically settle a corrected result"
  pointer ←
      or_throw (pending_pointer attempt.pending_result)
        "attempt ${attempt.id} has no pending invalid-result evidence"
  candidate ←
      decision_or_throw input command.decision_record_id
        "corrected-result settlement must cite its result and invalid evidence"
  throw_if
      (not (contains command.result_record_id candidate.input_record_ids)
        || not (contains command.invalid_result_evidence_record_id candidate.input_record_ids))
      "corrected-result settlement must cite its result and invalid evidence"
  authorization ← exact_decision input command.decision_record_id
  r ← result_for_attempt input attempt command.result_record_id
  assert_recordable_result input attempt r
  evidence ←
      decision_or_throw input command.invalid_result_evidence_record_id
        "corrected-result invalid evidence does not match the pending pointer"
  assert_exact_invalid_result_evidence_record platform attempt pointer evidence
  settle_authorized platform input command.settlement attempt r.id authorization
      (result r ∷ decision authorization.decision ∷ [])
