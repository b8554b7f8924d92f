-- ===== src/Kernel/Reducer/Settle/Guards.antt =====
-- The guards of settleAuthorized on its transition
-- (supervisor/src/pipeline/kernel/reducer.ts).
use openthrottle.Base.{
  Bool, true, false, not, ◌&&◌, ◌||◌, Option, none, some, List, [], map, filter, find, Text, text,
  Dict, lookup, keys, ◌==◌, nat_eq, list_eq, option_eq, any, get_or, is_empty, is_none, is_some,
  sort_texts, Result, ok, ◌>>=◌, ◌>>◌, throw_if, or_throw, for_each, if◌then◌else◌,
}
use openthrottle.Contracts.Json.{Fields, member, is_string}
use openthrottle.Contracts.Lifecycle.{runtime_provision_stage_id}
use openthrottle.Contracts.Pipeline.{PipelineTerminalOutcome, CompiledPipelineStage}
use openthrottle.Contracts.Records.{ExecutionRecord, delivery, id_of}
use openthrottle.Kernel.Types.{
  KernelRun, KernelAttempt, ReducerInput, Settlement, SandboxRecovery, DecisionAuthorization,
}
use openthrottle.Kernel.Support.{assert_exact_map, stage_for}
use openthrottle.Kernel.Lifecycle.{runtime_cleanup_outcome, is_provision_stage}
use openthrottle.Kernel.Recovery.{inline_object, sandbox_recovery_attempt_id}
use openthrottle.Kernel.Resource.{exact_kernel_runtime_absence_deliveries}
use openthrottle.Kernel.Reducer.Bundle.{assert_pending_attempt, assert_unique_new_attempts}
use openthrottle.Kernel.Reducer.Settle.Lineage.{structured_successor_subjects}
use openthrottle.Kernel.Reducer.Settle.Transition.{EffectiveTransition}

abbrev succeeds : Text → Bool
succeeds outcome = outcome == text "success" || outcome == text "no_change"

-- The transition of settleAuthorized, which a sandbox recovery redirects.
unfoldable pub settlement_transition :
    ReducerInput
    → Settlement
    → CompiledPipelineStage
    → DecisionAuthorization
    → EffectiveTransition
    → Option SandboxRecovery
    → Result EffectiveTransition
settlement_transition input command s authorization transition none = ok transition
settlement_transition input command s authorization transition (some recovery) = do
  evidence ←
      or_throw (find (λ r. id_of r == recovery.recovery_record_id) authorization.exact_records)
        "sandbox recovery settlement lacks its exact recovery DecisionRecord"
  failed_attempt_id ←
      or_throw (sandbox_recovery_attempt_id evidence)
        "sandbox recovery settlement lacks its exact recovery DecisionRecord"
  let is_cleanup_reprovision =
      is_some (runtime_cleanup_outcome s)
      && recovery.target_stage_id == runtime_provision_stage_id
      && succeeds command.outcome
  let is_provision_resume =
      is_provision_stage s
      && not (recovery.target_stage_id == runtime_provision_stage_id)
      && succeeds command.outcome
  throw_if (not is_cleanup_reprovision && not is_provision_resume)
      "sandbox recovery settlement uses an invalid lifecycle edge"
  target ← stage_for input.manifest recovery.target_stage_id
  ok (record {
    to = some recovery.target_stage_id;
    terminal = none;
    reentries = input.run.cursor.reentries;
  })

cleanup_envelope : Option Fields → Bool
cleanup_envelope none = false
cleanup_envelope (some payload) =
    is_string (member (text "effect_kind") payload) (text "daytona/cleanup-sandbox@1")
    && is_string (member (text "provider") payload) (text "daytona")

-- A delivery record of the sandbox's cleanup.
unfoldable pub is_cleanup_delivery : ExecutionRecord → Bool
unfolding cleanup_envelope
is_cleanup_delivery (delivery d) =
    d.payload_schema == text "openthrottle.effect-delivery/v1"
    && cleanup_envelope (inline_object d.payload)
is_cleanup_delivery _ = false

is_failed : PipelineTerminalOutcome → Bool
is_failed PipelineTerminalOutcome.failed = true
is_failed _ = false

-- The guards of settleAuthorized on a transition that ends the run.
unfoldable pub assert_terminal_transition :
    ReducerInput
    → Settlement
    → CompiledPipelineStage
    → Text
    → DecisionAuthorization
    → PipelineTerminalOutcome
    → Result (Unit {0})
unfolding is_failed
assert_terminal_transition input command s result_record_id authorization outcome = do
  assert_exact_map input.checkpoints []
  throw_if (not (is_empty command.next_attempts)) "terminal transition cannot schedule attempts"
  throw_if (not (is_empty command.effect_intents))
      "terminal transition cannot leave unobserved effects"
  throw_if (not (is_empty (keys command.next_dependencies)))
      "terminal transition cannot declare a dependency frontier"
  throw_if (not (is_empty input.run.active_effect_versions))
      "terminal transition cannot strand active effects"
  let is_cleanup_terminal = is_some (runtime_cleanup_outcome s)
  let is_proven_absent =
      is_provision_stage s && command.outcome == text "no_resource" && is_failed outcome
  throw_if (not is_cleanup_terminal && not is_proven_absent)
      "terminal transition bypasses the compiled runtime cleanup protocol"
  let cited =
      filter (λ r. not (id_of r == authorization.decision.id) && not (id_of r == result_record_id))
        authorization.exact_records
  if is_cleanup_terminal
      then throw_if (not (any is_cleanup_delivery cited))
          "runtime cleanup terminal transition requires its exact DeliveryRecord"
      else (exact_kernel_runtime_absence_deliveries cited >>= λ proof.
          throw_if (is_none proof)
            "no-resource terminal transition requires exact rejected-create pool absence proof")

recovered_subjects : Option SandboxRecovery → Dict Text
recovered_subjects none = []
recovered_subjects (some recovery) = recovery.input_subjects

-- `Object.keys(input_subjects)` against the identities of the next attempts
other_subjects : Option SandboxRecovery → List KernelAttempt → Bool
other_subjects none next_attempts = false
other_subjects (some recovery) next_attempts = not (
    sort_texts (keys recovery.input_subjects)
    == sort_texts (map (λ (a : KernelAttempt). a.id) next_attempts))

-- The guards of settleAuthorized on a transition to another stage. The subject of every next
-- attempt is among `found.subjects`, so the default of the inner `get_or` is not met.
unfoldable pub assert_successors :
    ReducerInput → Settlement → CompiledPipelineStage → Text → Text → KernelRun → Result (Unit {0})
unfolding recovered_subjects other_subjects
assert_successors input command s to accepted run_at_accepted = do
  throw_if (is_empty command.next_attempts)
      "transition to ${transition.to} must schedule at least one attempt"
  target ← stage_for input.manifest to
  found ← structured_successor_subjects input s target accepted command.next_attempts
  throw_if (other_subjects command.sandbox_recovery command.next_attempts)
      "sandbox recovery input subjects do not match its restored frontier"
  assert_exact_map input.checkpoints found.checkpoint_ids
  assert_unique_new_attempts command.next_attempts input.run
  for_each
      (λ (next : KernelAttempt).
        assert_pending_attempt input.manifest run_at_accepted to
          (get_or (lookup next.id (recovered_subjects command.sandbox_recovery))
            (get_or (lookup next.id found.subjects) []))
          next)
      command.next_attempts
