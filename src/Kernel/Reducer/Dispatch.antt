-- ===== src/Kernel/Reducer/Dispatch.antt =====
-- The reducer's entry point (reduceKernelCommand of supervisor/src/pipeline/kernel/reducer.ts).
use openthrottle.Base.{none, some, [], ◌∷◌, Result, ok, ◌>>=◌, ◌>>◌}
use openthrottle.Kernel.Types.{
  KernelAction, start, bind_runtime_session, work_complete, result_pending, record_result,
  schedule_external, advance_external_subject, settle, correct_and_settle, retry,
  quarantine_attempt_recovery, needs_human, fail, stop, supersede, QuarantineAttemptRecovery,
  ReducerInput, Platform, AtomicTransitionBundle, AtomicTransitionBundleContent,
}
use openthrottle.Kernel.Support.{assert_base_input, assert_exact_map, current_attempt}
use openthrottle.Kernel.Reducer.Attempt.{
  complete_work, pend_result, record_attempt_result, retry_attempt,
}
use openthrottle.Kernel.Reducer.Bundle.{decision_or_throw}
use openthrottle.Kernel.Reducer.External.{schedule_effects, advance_subject}
use openthrottle.Kernel.Reducer.Session.{start_attempt, bind_session}
use openthrottle.Kernel.Reducer.Settle.{settle_attempt, correct_and_settle_attempt}
use openthrottle.Kernel.Reducer.Terminal.{
  TerminalKind, reduce_recovery_quarantine, terminal_command,
}

-- The case `quarantine_attempt_recovery` of reduceKernelCommand.
unfoldable pub quarantine_case :
    ReducerInput → QuarantineAttemptRecovery → Result AtomicTransitionBundleContent
quarantine_case input command = do
  assert_exact_map input.records (command.decision_record_id ∷ [])
  assert_exact_map input.checkpoints []
  diagnostic ←
      decision_or_throw input command.decision_record_id
        "recovery quarantine requires its exact DecisionRecord"
  attempt ← current_attempt input command.attempt_id
  reduce_recovery_quarantine input.command.command_id input.run attempt diagnostic command

-- The `switch` of reduceKernelCommand.
unfoldable pub dispatch :
    Platform → ReducerInput → KernelAction → Result AtomicTransitionBundleContent
dispatch platform input (start attempt_id lease_id) = start_attempt input attempt_id lease_id
dispatch platform input (bind_runtime_session c) = bind_session input c
dispatch platform input (work_complete c) = complete_work input c
dispatch platform input (schedule_external c) = schedule_effects platform input c
dispatch platform input (advance_external_subject c) = advance_subject input c
dispatch platform input (result_pending c) = pend_result platform input c
dispatch platform input (record_result attempt_id record_id) =
    record_attempt_result input attempt_id record_id
dispatch platform input (settle c) = settle_attempt platform input c
dispatch platform input (correct_and_settle c) = correct_and_settle_attempt platform input c
dispatch platform input (retry attempt_id record_id) =
    retry_attempt platform input attempt_id record_id
dispatch platform input (quarantine_attempt_recovery c) = quarantine_case input c
dispatch platform input (needs_human attempt_id c) =
    terminal_command platform input TerminalKind.needs_human c.decision_record_id (some attempt_id)
      c.resource_disposition
dispatch platform input (fail attempt_id c) =
    terminal_command platform input TerminalKind.failed c.decision_record_id (some attempt_id)
      c.resource_disposition
dispatch platform input (stop c) =
    terminal_command platform input TerminalKind.canceled c.decision_record_id none
      c.resource_disposition
dispatch platform input (supersede c) =
    terminal_command platform input TerminalKind.superseded c.decision_record_id none
      c.resource_disposition

-- bundle
unfoldable pub bundle : Platform → AtomicTransitionBundleContent → AtomicTransitionBundle
bundle platform content = record {
  content = content;
  content_hash = platform.digest_content content;
}

-- reduceKernelCommand. Each operation's content is sealed here, at its one exit.
unfoldable pub reduce_kernel_command : Platform → ReducerInput → Result AtomicTransitionBundle
reduce_kernel_command platform input = do
  assert_base_input input
  content ← dispatch platform input input.command.action
  ok (bundle platform content)
