-- ===== src/Kernel/Reducer/Terminal/Quarantine.antt =====
-- reduceKernelRecoveryQuarantine
-- (supervisor/src/pipeline/kernel/reducer.ts).
use openthrottle.Base.{
  ◌+◌, not, ◌&&◌, ◌||◌, some, [], ◌∷◌, map, Text, text, lookup, ◌==◌, nat_eq, list_eq, option_eq,
  contains, is_empty, is_none, is_some, length, ltb, sort_texts, Result, ◌>>=◌, ◌>>◌, throw_if,
  or_throw,
}
use openthrottle.Contracts.Json.{member, member_names, is_string}
use openthrottle.Contracts.Pipeline.{PipelineTerminalOutcome}
use openthrottle.Contracts.Records.{AttemptState, decision, DecisionRecord}
use openthrottle.Kernel.Types.{
  KernelRunStatus, KernelRun, KernelAttempt, QuarantineAttemptRecovery,
  AtomicTransitionBundleContent, is_terminal_run, is_pending, is_running, is_result_pending,
  purpose_beq,
}
use openthrottle.Kernel.Recovery.{decision_payload_schema, inline_object}
use openthrottle.Kernel.Reducer.Bundle.{base_content, expected_for}
use openthrottle.Kernel.Reducer.Terminal.Writes.{terminal_write, closed_cursor}

-- The guards of reduceKernelRecoveryQuarantine on its diagnostic.
unfoldable pub assert_quarantine_diagnostic :
    KernelRun → KernelAttempt → DecisionRecord → QuarantineAttemptRecovery → Result (Unit {0})
assert_quarantine_diagnostic run attempt diagnostic command = do
  throw_if
      (ltb (length command.reason) 1
        || ltb 1500 (length command.reason)
        || contains 0 command.reason
        || not (command.decision_record_id == diagnostic.id)
        || not (diagnostic.pipeline_run_id == run.id)
        || not (diagnostic.reducer == text "core/executor-recovery-quarantine@1")
        || not (is_empty diagnostic.input_record_ids)
        || not (diagnostic.payload_schema == decision_payload_schema))
      "recovery quarantine diagnostic is invalid"
  payload ← or_throw (inline_object diagnostic.payload) "recovery quarantine diagnostic is invalid"
  throw_if
      (not (
          sort_texts (member_names payload)
          == text "evaluator"
            ∷ text "outcome"
            ∷ text "reason"
            ∷ text "schema"
            ∷ text "stage_id"
            ∷ [])
        || not (is_string (member (text "schema") payload) decision_payload_schema)
        || not (is_string (member (text "stage_id") payload) attempt.scope.stage_id)
        || not (is_string (member (text "evaluator") payload) diagnostic.reducer)
        || not (is_string (member (text "outcome") payload) (text "needs_human"))
        || not (is_string (member (text "reason") payload) command.reason))
      "recovery quarantine diagnostic changed its executor evidence"

-- The run that a quarantine writes: the effects stay active for the operator.
unfoldable pub quarantined_run : KernelRun → KernelRun
unfolding closed_cursor
quarantined_run run = record run {
  status = KernelRunStatus.ended PipelineTerminalOutcome.needs_human;
  terminal_outcome = some PipelineTerminalOutcome.needs_human;
  version = run.version + 1;
  cursor = closed_cursor run.cursor;
  active_attempt_versions = [];
}

-- reduceKernelRecoveryQuarantine
unfoldable pub reduce_recovery_quarantine :
    Text
    → KernelRun
    → KernelAttempt
    → DecisionRecord
    → QuarantineAttemptRecovery
    → Result AtomicTransitionBundleContent
unfolding quarantined_run terminal_write
reduce_recovery_quarantine command_id run attempt diagnostic command = do
  throw_if
      (is_terminal_run run.status
        || is_some run.terminal_outcome
        || is_none run.cursor.stage_id
        || not (lookup attempt.id run.active_attempt_versions == some attempt.version)
        || not (attempt.pipeline_run_id == run.id)
        || not (some attempt.scope.stage_id == run.cursor.stage_id)
        || (not (is_pending attempt.status)
            && not (is_running attempt.status)
            && not (is_result_pending attempt.status)))
      "recovery quarantine does not own the exact active Attempt lease"
  lease ← or_throw attempt.lease "recovery quarantine does not own the exact active Attempt lease"
  throw_if
      (not (lease.id == command.lease_id)
        || not (lease.generation == command.lease_generation)
        || not (lease.worker_id == command.worker_id)
        || not (purpose_beq lease.purpose command.lease_purpose)
        || not (command.attempt_id == attempt.id))
      "recovery quarantine does not own the exact active Attempt lease"
  throw_if (ltb lease.generation run.work_retry_limit)
      "attempt ${attempt.id} has not exhausted recovery retries"
  assert_quarantine_diagnostic run attempt diagnostic command
  base_content (record {
    command_id = command_id;
    expected = expected_for run run.active_attempt_versions;
    run = quarantined_run run;
    attempt_writes =
        map (λ entry. terminal_write entry.0 entry.1 AttemptState.needs_human)
          run.active_attempt_versions;
    create_attempts = [];
    append_records = decision diagnostic ∷ [];
    append_checkpoints = [];
    put_effects = [];
  })
