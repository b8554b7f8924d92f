-- ===== src/Kernel/Reducer/Terminal/Writes.antt =====
-- What a command that ends a run writes: terminalAttemptWrites and terminalRun
-- (supervisor/src/pipeline/kernel/reducer.ts).
use openthrottle.Base.{
  ℕ, ◌+◌, Option, none, some, List, [], map, Text, ◌==◌, nat_eq, list_eq, option_eq, if◌then◌else◌,
}
use openthrottle.Contracts.Pipeline.{PipelineTerminalOutcome}
use openthrottle.Contracts.Records.{AttemptState}
use openthrottle.Kernel.Types.{
  KernelRunStatus, KernelRun, KernelCursor, KernelAttempt, AttemptWrite, terminal, replace,
}

-- The outcomes of the four terminal commands, and the status that each gives the attempts.
pub data TerminalKind : Type 0 where
  needs_human failed canceled superseded : TerminalKind

unfoldable pub outcome_of : TerminalKind → PipelineTerminalOutcome
outcome_of needs_human = PipelineTerminalOutcome.needs_human
outcome_of failed = PipelineTerminalOutcome.failed
outcome_of canceled = PipelineTerminalOutcome.canceled
outcome_of superseded = PipelineTerminalOutcome.superseded

unfoldable pub status_of : TerminalKind → AttemptState
status_of needs_human = AttemptState.needs_human
status_of failed = AttemptState.failed
status_of canceled = AttemptState.canceled
status_of superseded = AttemptState.superseded

-- The current attempt as a terminal command writes it.
unfoldable pub terminated : KernelAttempt → AttemptState → KernelAttempt
terminated current status = record current {
  status = status;
  version = current.version + 1;
  lease = none;
  result_record_id = none;
  decision_record_id = none;
  result_correction_deadline = none;
  pending_result = none;
}

unfoldable pub terminal_write : Text → ℕ → AttemptState → AttemptWrite
terminal_write attempt_id version status = terminal (record {
  attempt_id = attempt_id;
  expected_version = version;
  next_version = version + 1;
  status = status;
})

-- The function that the entries of `active_attempt_versions` are mapped by.
unfoldable pub terminal_attempt_write :
    Option KernelAttempt → AttemptState → Text × ℕ → AttemptWrite
unfolding terminal_write terminated
terminal_attempt_write none status (attempt_id, version) = terminal_write attempt_id version status
terminal_attempt_write (some current) status (attempt_id, version) =
    if current.id == attempt_id
    then replace (terminated current status)
    else terminal_write attempt_id version status

-- terminalAttemptWrites, before its sort: `baseContent` sorts by the same order.
unfoldable pub terminal_attempt_writes :
    KernelRun → Option KernelAttempt → AttemptState → List AttemptWrite
unfolding terminal_attempt_write
terminal_attempt_writes run current status =
    map (terminal_attempt_write current status) run.active_attempt_versions

-- The cursor of a run that has ended.
unfoldable pub closed_cursor : KernelCursor → KernelCursor
closed_cursor cursor = record cursor {
  stage_id = none;
  version = cursor.version + 1;
  frontier = [];
  barrier = none;
}

-- terminalRun
unfoldable pub terminal_run : KernelRun → PipelineTerminalOutcome → KernelRun
unfolding closed_cursor
terminal_run run outcome = record run {
  status = KernelRunStatus.ended outcome;
  terminal_outcome = some outcome;
  version = run.version + 1;
  cursor = closed_cursor run.cursor;
  active_attempt_versions = [];
  active_effect_versions = [];
}
