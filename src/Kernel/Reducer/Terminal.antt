-- ===== src/Kernel/Reducer/Terminal.antt =====
-- The commands that end a run: quarantine, `needs_human`, `fail`, `stop` and `supersede`
-- (supervisor/src/pipeline/kernel/reducer.ts).
mod Writes
mod Quarantine
mod Evidence
use openthrottle.Base.{
  ℕ, ◌+◌, Bool, true, false, not, ◌&&◌, ◌||◌, Option, none, some, List, [], ◌∷◌, ◌++◌, map, filter,
  Text, text, text_le, lookup, sorted_record, ◌==◌, nat_eq, list_eq, option_eq, any, contains,
  is_empty, is_none, is_some, length, ltb, sort, sort_texts, sorted_unique, Result, ok, ◌>>=◌, ◌>>◌,
  throw_if, or_throw, map_each, if◌then◌else◌,
}
use openthrottle.Contracts.Json.{member, member_names, is_string}
use openthrottle.Contracts.Lifecycle.{runtime_stop_stage_id}
use openthrottle.Contracts.Pipeline.{PipelineTerminalOutcome, CompiledPipelineStage, runs_effect}
use openthrottle.Contracts.Records.{
  AttemptState, ExecutionRecord, decision, DeliveryRecord, DecisionRecord, id_of,
}
use openthrottle.Kernel.Types.{
  KernelRunStatus, KernelRun, KernelCursor, KernelAttempt, KernelFrontierMember, ReducerInput,
  Platform, QuarantineAttemptRecovery, KernelTerminalResourceDisposition, pre_provision, cleanup,
  Cleanup, AttemptWrite, terminal, replace, DecisionAuthorization, AtomicTransitionBundleContent,
  is_terminal_run, is_pending, is_running, is_result_pending, purpose_beq,
}
use openthrottle.Kernel.Support.{assert_exact_map, stage_for}
use openthrottle.Kernel.Cursor.{compile_kernel_cursor}
use openthrottle.Kernel.Lifecycle.{is_provision_stage}
use openthrottle.Kernel.Recovery.{
  SandboxRecoveryFrontierMember, decision_payload_schema, inline_object,
  sandbox_recovery_attempt_id, exact_sandbox_recovery_frontier,
  exact_sandbox_fatal_absence_delivery,
}
use openthrottle.Kernel.Resource.{exact_kernel_runtime_cleanup_deliveries}
use openthrottle.Kernel.Reducer.Bundle.{
  base_content, expected_for, exact_decision, assert_pending_attempt, assert_unique_new_attempts,
}
unfoldable pub use Writes.*
unfoldable pub use Quarantine.*
unfoldable pub use Evidence.*

-- `(current?.id ?? null) !== commandAttemptId`
abbrev pub current_id : Option KernelAttempt → Option Text
current_id none = none
current_id (some a) = some a.id

-- Whether the decision recovers the sandbox of the current attempt.
unfoldable pub recovers_current : DecisionRecord → Option KernelAttempt → Bool
recovers_current d none = false
recovers_current d (some current) = sandbox_recovery_attempt_id (decision d) == some current.id

members_beq : List SandboxRecoveryFrontierMember → List KernelFrontierMember → Bool
members_beq [] [] = true
members_beq (a ∷ as') (b ∷ bs) =
    a.attempt_id == b.attempt_id && a.depends_on == b.depends_on && members_beq as' bs
members_beq _ _ = false

-- The guards of terminalCommand on the recovery frontier.
unfoldable pub assert_recovery_frontier :
    KernelRun → Bool → List SandboxRecoveryFrontierMember → Result (Unit {0})
unfolding members_beq
assert_recovery_frontier run sandbox_recovery frontier =
    let expected =
      sort (λ (a b : KernelFrontierMember). text_le a.attempt_id b.attempt_id)
        (filter
          (λ (m : KernelFrontierMember). is_some (lookup m.attempt_id run.active_attempt_versions))
          run.cursor.frontier) in
    if sandbox_recovery
    then (throw_if (not (members_beq frontier expected))
          "sandbox recovery evidence does not preserve the exact active frontier"
        >> throw_if
            (any
              (λ (m : SandboxRecoveryFrontierMember).
                not (m.evidence.pipeline_run_id == run.id)
                || not (some m.stage_id == run.cursor.stage_id))
              frontier)
            "sandbox recovery frontier evidence belongs to another run or stage")
    else throw_if (not (is_empty frontier))
        "ordinary terminalization cannot carry sandbox recovery frontier evidence"

abbrev is_failed : TerminalKind → Bool
is_failed TerminalKind.failed = true
is_failed _ = false

-- `outcome === "failed" && current && …` of terminalCommand
discards_work : TerminalKind → Option KernelAttempt → Bool → Bool
discards_work kind none sandbox_recovery = false
discards_work kind (some current) sandbox_recovery =
    is_failed kind
    && not (is_pending current.status)
    && not (is_running current.status)
    && not sandbox_recovery

unprovisioned : Option CompiledPipelineStage → Option KernelAttempt → Bool
unprovisioned (some s) (some current) =
    is_provision_stage s && is_none current.checkpoint_id && is_none current.output_subject
unprovisioned _ _ = false

current_stage : ReducerInput → Result (Option CompiledPipelineStage)
current_stage input = elim input.current_attempt [
  | none ↦ ok none
  | some current ↦ stage_for input.manifest current.scope.stage_id >>= λ s. ok (some s)
]

-- The branch of terminalCommand for a run whose sandbox was never created.
unfoldable pub end_before_provision :
    ReducerInput → TerminalKind → DecisionRecord → Result AtomicTransitionBundleContent
unfolding current_stage unprovisioned
end_before_provision input kind d = do
  s ← current_stage input
  throw_if
      (not (unprovisioned s input.current_attempt)
        || not (is_empty input.run.active_effect_versions)
        || not (is_empty d.input_record_ids))
      "pre-provision terminalization requires exact proof that no create schedule committed"
  base_content (record {
    command_id = input.command.command_id;
    expected = expected_for input.run (sorted_record input.run.active_attempt_versions);
    run = terminal_run input.run (outcome_of kind);
    attempt_writes = terminal_attempt_writes input.run input.current_attempt (status_of kind);
    create_attempts = [];
    append_records = decision d ∷ [];
    append_checkpoints = [];
    put_effects = [];
  })

-- The branch of terminalCommand that schedules the stop and the cleanup of the sandboxes.
unfoldable pub begin_cleanup :
    ReducerInput
    → TerminalKind
    → DecisionAuthorization
    → Bool
    → List SandboxRecoveryFrontierMember
    → Cleanup
    → Result AtomicTransitionBundleContent
unfolding record_with_id
begin_cleanup input kind authorization sandbox_recovery frontier plan = do
  let run = input.run
  throw_if (not (is_empty run.active_effect_versions))
      "runtime cleanup cannot begin while an external outcome is unresolved"
  assert_cleanup_evidence authorization sandbox_recovery frontier plan
  let cleanup_stage_id = runtime_stop_stage_id (outcome_of kind)
  cleanup_stage ← stage_for input.manifest cleanup_stage_id
  throw_if (not (runs_effect cleanup_stage.kind (text "core/daytona-stop@1")))
      "compiled manifest has no exact runtime stop stage for ${outcome}"
  assert_unique_new_attempts (plan.cleanup_attempt ∷ []) run
  assert_pending_attempt input.manifest run cleanup_stage_id run.current_subject
      plan.cleanup_attempt
  throw_if
      (not (
          plan.cleanup_attempt.context_record_ids
          == sorted_unique (authorization.decision.id ∷ authorization.decision.input_record_ids))
        || not (is_empty plan.cleanup_attempt.context_checkpoint_ids))
      "runtime cleanup Attempt must seal exactly its decision and resource evidence"
  cursor ← compile_kernel_cursor (record {
    stage_id = cleanup_stage_id;
    version = run.cursor.version + 1;
    reentries = run.cursor.reentries;
    attempts = plan.cleanup_attempt ∷ [];
    dependencies = [];
    completed_scope_keys = run.cursor.completed_scope_keys;
  })
  diagnostics ←
      map_each
        (λ id.
          or_throw (record_with_id authorization.exact_records id)
            "runtime cleanup is missing new diagnostic record ${id}")
        (sorted_unique plan.new_diagnostic_record_ids)
  base_content (record {
    command_id = input.command.command_id;
    expected = expected_for run (sorted_record run.active_attempt_versions);
    run = record run {
      status = KernelRunStatus.running;
      terminal_outcome = none;
      version = run.version + 1;
      cursor = cursor;
      active_attempt_versions = (plan.cleanup_attempt.id, 0) ∷ [];
      active_effect_versions = [];
    };
    attempt_writes = terminal_attempt_writes run input.current_attempt (status_of kind);
    create_attempts = plan.cleanup_attempt ∷ [];
    append_records =
        decision authorization.decision
        ∷ (map (λ (m : SandboxRecoveryFrontierMember). decision m.evidence) frontier
            ++ diagnostics);
    append_checkpoints = [];
    put_effects = [];
  })

-- `commandAttemptId` is given by `needs_human` and `fail`, and is undefined for `stop` and
-- `supersede`.
unfoldable pub wrong_attempt : Option (Option Text) → Option KernelAttempt → Bool
wrong_attempt none current = false
wrong_attempt (some attempt_id) current = not (current_id current == attempt_id)

-- The branch of terminalCommand for its resource disposition.
unfoldable pub dispose :
    ReducerInput
    → TerminalKind
    → DecisionAuthorization
    → Bool
    → List SandboxRecoveryFrontierMember
    → KernelTerminalResourceDisposition
    → Result AtomicTransitionBundleContent
unfolding end_before_provision begin_cleanup
dispose input kind authorization sandbox_recovery frontier pre_provision =
    end_before_provision input kind authorization.decision
dispose input kind authorization sandbox_recovery frontier (cleanup plan) =
    begin_cleanup input kind authorization sandbox_recovery frontier plan

-- terminalCommand
unfoldable pub terminal_command :
    Platform
    → ReducerInput
    → TerminalKind
    → Text
    → Option (Option Text)
    → KernelTerminalResourceDisposition
    → Result AtomicTransitionBundleContent
unfolding dispose discards_work wrong_attempt
terminal_command platform input kind decision_record_id command_attempt_id disposition = do
  assert_exact_map input.checkpoints []
  authorization ← exact_decision input decision_record_id
  throw_if (wrong_attempt command_attempt_id input.current_attempt)
      "terminal command does not match its exact current attempt"
  let sandbox_recovery = recovers_current authorization.decision input.current_attempt
  frontier ← exact_sandbox_recovery_frontier platform authorization.exact_records
  assert_recovery_frontier input.run sandbox_recovery frontier
  throw_if (discards_work kind input.current_attempt sandbox_recovery)
      "completed work cannot be discarded as a generic failure"
  dispose input kind authorization sandbox_recovery frontier disposition
