-- ===== src/Kernel/Reducer/External.antt =====
-- The commands on external effects: `schedule_external` and `advance_external_subject`
-- (supervisor/src/pipeline/kernel/reducer.ts).
mod Advance
use openthrottle.Base.{
  ℕ, ◌+◌, String, Bool, false, not, ◌&&◌, ◌||◌, Option, none, some, List, [], ◌∷◌, ◌++◌, map,
  filter, Text, text, text_le, Dict, lookup, put, sorted_record, ◌==◌, nat_eq, list_eq, option_eq,
  any, get_or, is_empty, is_some, has_duplicates, length, ltb, sort, Result, ok, ◌>>=◌, ◌>>◌,
  throw_if, or_throw, for_each, map_each, if◌then◌else◌,
}
use openthrottle.Contracts.Json.{Json, Fields, member, as_object, as_string, is_string, json_beq}
use openthrottle.Contracts.Effects.{EffectIntent}
use openthrottle.Contracts.Formats.{is_external_phase, is_git_subject}
use openthrottle.Contracts.Pipeline.{is_effect, is_wait, runs_effect}
use openthrottle.Contracts.Records.{
  AttemptState, AttemptCheckpoint, RecordPayload, inline, blob, BlobPointer, is_binary, blob_json,
  ExecutionRecord, decision, delivery, DeliveryRecord, DecisionRecord, is_confirmed, id_of,
  as_delivery,
}
use openthrottle.Kernel.Types.{
  KernelRun, KernelAttempt, ReducerInput, ScheduleExternal, AdvanceExternalSubject, Platform,
  DecisionAuthorization, AtomicTransitionBundleContent, is_running, is_work_complete,
}
use openthrottle.Kernel.Support.{assert_exact_map, stage_for, current_attempt}
use openthrottle.Kernel.Evidence.{authorize_effect_intent}
use openthrottle.Kernel.Recovery.{inline_object}
use openthrottle.Kernel.Reducer.Bundle.{
  base_content, rewrites, replace_attempt, assert_checkpoint_identity, exact_checkpoint,
  exact_decision, owned_by_another,
}
use openthrottle.Kernel.Reducer.Attempt.{holds_started, for_work, with_checkpoint}
unfoldable pub use Advance.*

-- externalScheduleSemanticKey
unfoldable pub external_schedule_semantic_key : Text → Text → Text
external_schedule_semantic_key attempt_id phase =
    text "external-schedule:" ++ attempt_id ++ text ":" ++ phase

abbrev confirmed_delivery : ExecutionRecord → Bool
confirmed_delivery (delivery d) = is_confirmed d.status
confirmed_delivery _ = false

-- assertExternalScheduleDecision
unfoldable pub assert_external_schedule_decision :
    DecisionAuthorization → KernelAttempt → Text → Bool → Result (Unit {0})
assert_external_schedule_decision authorization attempt phase first_phase = do
  let d = authorization.decision
  throw_if
      (not (is_external_phase phase)
        || ltb 100 (length phase)
        || not (d.reducer == text "core/external-schedule@1")
        || not (d.payload_schema == text "openthrottle.external-schedule/v1"))
      "external scheduling DecisionRecord has an invalid phase identity"
  payload ←
      or_throw (inline_object d.payload)
        "external scheduling DecisionRecord has an invalid phase identity"
  throw_if
      (not (is_string (member (text "schema") payload) (text "openthrottle.external-schedule/v1"))
        || not (
            is_string (member (text "semantic_key") payload)
              (external_schedule_semantic_key attempt.id phase))
        || not (is_string (member (text "attempt_id") payload) attempt.id)
        || not (is_string (member (text "phase") payload) phase))
      "external scheduling DecisionRecord must use semantic key ${expectedSemanticKey}"
  let cited = filter (λ r. not (id_of r == d.id)) authorization.exact_records
  if first_phase
      then throw_if (not (is_empty cited)) "the first external phase cannot cite prior deliveries"
      else throw_if (is_empty cited || any (λ r. not (confirmed_delivery r)) cited)
          "a later external phase must cite confirmed DeliveryRecords"

-- The guards on the effects of a command: distinct, not active, and on the accepted subject. The
-- messages are those of the command.
unfoldable pub assert_new_effects :
    KernelRun
    → Text
    → (same_id same_key other_subject : String) → List EffectIntent
    → Result (Unit {0})
assert_new_effects run accepted_subject same_id same_key other_subject effects = do
  throw_if (has_duplicates (map (λ (e : EffectIntent). e.id) effects)) same_id
  throw_if (has_duplicates (map (λ (e : EffectIntent). e.idempotency_key) effects)) same_key
  for_each
      (λ (e : EffectIntent).
        throw_if (is_some (lookup e.id run.active_effect_versions))
          "effect intent ${effect.id} is already active"
        >> throw_if (is_some e.subject && not (e.subject == some accepted_subject)) other_subject)
      effects

-- `for (const effect of effects) activeEffects[effect.id] = 0`
unfoldable pub activate_effects : List EffectIntent → Dict ℕ → Dict ℕ
activate_effects [] active = active
activate_effects (e ∷ es) active = activate_effects es (put e.id 0 active)

-- Effects of a command, authorised by its decision and in the order of their identities.
unfoldable pub authorize_effects :
    Platform → DecisionRecord → Text → List EffectIntent → Result (List EffectIntent)
authorize_effects platform d run_id intents = do
  effects ← map_each (authorize_effect_intent platform d run_id) intents
  ok (sort (λ (a b : EffectIntent). text_le a.id b.id) effects)

-- The attempt that `schedule_external` writes.
unfoldable pub scheduled : KernelAttempt → ScheduleExternal → Text → KernelAttempt
scheduled attempt command checkpoint_id = record attempt {
  status = AttemptState.work_complete;
  version = attempt.version + 1;
  lease = none;
  output_subject = command.verified_output_subject;
  native_session_id = none;
  checkpoint_id = some checkpoint_id;
}

-- The guards of scheduleExternal on the attempt's phase.
unfoldable pub assert_phase : KernelAttempt → Text → Result (Unit {0})
assert_phase attempt checkpoint_id =
    if is_running attempt.status
    then throw_if (not (holds_started for_work attempt.lease) || is_some attempt.checkpoint_id)
        "external attempt ${attempt.id} has not started its work lease"
    else throw_if
        (not (is_work_complete attempt.status)
          || is_some attempt.lease
          || not (attempt.checkpoint_id == some checkpoint_id))
        "external attempt ${attempt.id} cannot schedule from ${attempt.status}"

-- scheduleExternal
unfoldable pub schedule_effects :
    Platform → ReducerInput → ScheduleExternal → Result AtomicTransitionBundleContent
unfolding scheduled assert_phase
schedule_effects platform input command = do
  attempt ← current_attempt input command.attempt_id
  s ← stage_for input.manifest attempt.scope.stage_id
  throw_if (not (is_effect s.kind) && not (is_wait s.kind))
      "attempt ${attempt.id} is not an effect or wait stage"
  let first_phase = is_running attempt.status
  assert_phase attempt command.checkpoint_id
  checkpoint ← exact_checkpoint input command.checkpoint_id
  assert_checkpoint_identity checkpoint attempt s
  throw_if (is_wait s.kind && is_some command.verified_output_subject)
      "wait stages must preserve the repository subject"
  throw_if (not (checkpoint.output_subject == command.verified_output_subject))
      "external checkpoint does not match its verified output subject"
  throw_if (not first_phase && not (attempt.output_subject == command.verified_output_subject))
      "later external phases cannot change the verified output subject"
  throw_if (owned_by_another checkpoint.id attempt.id input.run.checkpoint_ids)
      "checkpoint ${checkpoint.id} is already owned by attempt ${checkpointOwner[0]}"
  authorization ← exact_decision input command.decision_record_id
  assert_external_schedule_decision authorization attempt command.phase first_phase
  throw_if (is_empty command.effect_intents || ltb 16 (length command.effect_intents))
      "an external phase must contain between 1 and ${MAX_EXTERNAL_EFFECTS_PER_PHASE} effects"
  effects ← authorize_effects platform authorization.decision input.run.id command.effect_intents
  assert_new_effects input.run (get_or command.verified_output_subject input.run.current_subject)
      "effect intent identities must be unique within an external phase"
      "effect intent idempotency keys must be unique within an external phase"
      "effect intent ${effect.id} does not use the executor-verified subject" effects
  let next = scheduled attempt command checkpoint.id
  let next_run = with_checkpoint input.run (replace_attempt input.run next) attempt.id checkpoint.id
  let with_external_boundary = record next_run {
    active_effect_versions =
        sorted_record (activate_effects effects input.run.active_effect_versions);
  }
  base_content (record (rewrites input attempt with_external_boundary next) {
    append_records = decision authorization.decision ∷ [];
    append_checkpoints = if first_phase then checkpoint ∷ [] else [];
    put_effects = effects;
  })

-- The attempt that `advance_external_subject` writes.
unfoldable pub advanced : KernelAttempt → AdvanceExternalSubject → Text → KernelAttempt
advanced attempt command checkpoint_id = record attempt {
  version = attempt.version + 1;
  output_subject = some command.verified_output_subject;
  checkpoint_id = some checkpoint_id;
}

-- The run at the subject that a publication promotes.
unfoldable pub promoted : Bool → KernelRun → Text → KernelRun
promoted publication run subject =
    if publication then record run { current_subject = subject } else run

-- advanceExternalSubject
unfoldable pub advance_subject :
    ReducerInput → AdvanceExternalSubject → Result AtomicTransitionBundleContent
unfolding advanced promoted
advance_subject input command = do
  attempt ← current_attempt input command.attempt_id
  s ← stage_for input.manifest attempt.scope.stage_id
  let integration = runs_effect s.kind (text "core/integrate-unit@1")
  let publication = runs_effect s.kind (text "core/publish@1")
  throw_if
      (not (integration || publication)
        || not (is_work_complete attempt.status)
        || is_some attempt.lease
        || is_some attempt.output_subject
        || not (attempt.checkpoint_id == some command.prior_checkpoint_id)
        || not (is_empty input.run.active_effect_versions))
      "external integration is not ready for its verified subject advance"
  assert_exact_map input.checkpoints (command.prior_checkpoint_id ∷ command.checkpoint_id ∷ [])
  prior ← or_throw (lookup command.prior_checkpoint_id input.checkpoints) "unreachable"
  checkpoint ← or_throw (lookup command.checkpoint_id input.checkpoints) "unreachable"
  assert_checkpoint_identity prior attempt s
  expected_input ← if publication then publication_parent prior else ok attempt.input_subject
  assert_checkpoint_identity checkpoint attempt s
  throw_if
      (is_some prior.output_subject
        || not (checkpoint.output_subject == some command.verified_output_subject)
        || not (is_git_subject command.verified_output_subject)
        || checkpoint.id == prior.id
        || not (checkpoint.payload_schema == text "openthrottle.git-checkpoint-bundle/v1"))
      "external integration checkpoint does not prove one exact Git subject advance"
  pointer ←
      or_throw (git_bundle checkpoint.payload)
        "external integration checkpoint does not prove one exact Git subject advance"
  assert_integration_delivery input attempt command checkpoint pointer expected_input
  let next = advanced attempt command checkpoint.id
  let next_run =
      promoted publication (replace_attempt input.run next) command.verified_output_subject
  base_content
      (record (rewrites input attempt (with_checkpoint input.run next_run attempt.id checkpoint.id)
        next) { append_checkpoints = checkpoint ∷ [] })
