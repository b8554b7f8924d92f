-- ===== src/Kernel/Reducer/Bundle.antt =====
-- The content of a transition, and the guards on the records and checkpoints of a command
-- (supervisor/src/pipeline/kernel/reducer.ts).
mod Order
mod Guards
use openthrottle.Base.{
  ℕ, zero, suc, ◌+◌, String, Bool, true, false, not, ◌&&◌, ◌||◌, Option, none, some, List, [], ◌∷◌,
  map, Text, text_le, Dict, lookup, put, sorted_record, ◌==◌, nat_eq, list_eq, option_eq, contains,
  all, any, is_some, is_none, has_duplicates, length, leb, sort, Result, ok, ◌>>=◌, ◌>>◌, throw_if,
  or_throw, for_each, map_each, if◌then◌else◌,
}
use openthrottle.Contracts.Effects.{EffectIntent}
use openthrottle.Contracts.Formats.{is_digest}
use openthrottle.Contracts.Pipeline.{
  CompiledPipelineStage, CompiledPipelineManifest, is_agent, is_edit, is_effect, is_wait,
  authority_beq,
}
use openthrottle.Contracts.Records.{
  AttemptCheckpoint, ExecutionRecord, decision, DecisionRecord, ResultRecord, id_of, as_decision,
  as_result,
}
use openthrottle.Kernel.Types.{
  KernelRunStatus, KernelRun, KernelAttempt, ScopeKind, ReducerInput, AttemptWrite, terminal,
  replace, AtomicTransitionExpectedState, AtomicTransitionBundleContent, DecisionAuthorization,
  is_pending, check_context_ids,
}
use openthrottle.Kernel.Support.{
  assert_exact_map, stage_for, authority_for_stage, attempt_scope_key,
}
unfoldable pub use Order.*
unfoldable pub use Guards.*

-- expectedFor
unfoldable pub expected_for : KernelRun → Dict ℕ → AtomicTransitionExpectedState
expected_for run attempt_versions = record {
  run_id = run.id;
  run_version = run.version;
  cursor_version = run.cursor.version;
  attempt_versions = sorted_record attempt_versions;
}

abbrev pub write_id : AttemptWrite → Text
write_id (replace a) = a.id
write_id (terminal w) = w.attempt_id

abbrev pub write_version : AttemptWrite → ℕ
write_version (replace a) = a.version
write_version (terminal w) = w.next_version

-- attemptWriteOrder(left, right) <= 0
unfoldable pub attempt_write_le : AttemptWrite → AttemptWrite → Bool
attempt_write_le a b = text_le (write_id a) (write_id b)

-- attemptOrder(left, right) <= 0
unfoldable pub attempt_le : KernelAttempt → KernelAttempt → Bool
attempt_le a b =
    if attempt_scope_key a.scope == attempt_scope_key b.scope
    then text_le a.id b.id
    else text_le (attempt_scope_key a.scope) (attempt_scope_key b.scope)

pub record BaseContentInput : Type 0 where
  pub command_id : Text
  pub expected : AtomicTransitionExpectedState
  pub run : KernelRun
  pub attempt_writes : List AttemptWrite
  pub create_attempts : List KernelAttempt
  pub append_records : List ExecutionRecord
  pub append_checkpoints : List AttemptCheckpoint
  pub put_effects : List EffectIntent

-- baseContent. No command cancels an effect.
unfoldable pub base_content : BaseContentInput → Result AtomicTransitionBundleContent
base_content input = do
  append_records ← append_record_order input.append_records
  ok (record {
    transition_id = input.command_id;
    expected = input.expected;
    run = input.run;
    attempt_writes = sort attempt_write_le input.attempt_writes;
    create_attempts = sort attempt_le input.create_attempts;
    append_records = append_records;
    append_checkpoints =
        sort (λ (a b : AttemptCheckpoint). text_le a.id b.id) input.append_checkpoints;
    put_effects = sort (λ (a b : EffectIntent). text_le a.id b.id) input.put_effects;
    cancel_effect_ids = [];
  })

-- The arguments of `baseContent` for a command that writes its attempt anew and no more.
abbrev pub rewrites : ReducerInput → KernelAttempt → KernelRun → KernelAttempt → BaseContentInput
rewrites input attempt run next = record {
  command_id = input.command.command_id;
  expected = expected_for input.run ((attempt.id, attempt.version) ∷ []);
  run = run;
  attempt_writes = replace next ∷ [];
  create_attempts = [];
  append_records = [];
  append_checkpoints = [];
  put_effects = [];
}

abbrev started_status : KernelRunStatus → KernelRunStatus
started_status KernelRunStatus.pending = KernelRunStatus.running
started_status KernelRunStatus.running = KernelRunStatus.running
started_status (KernelRunStatus.ended outcome) = KernelRunStatus.ended outcome

-- replaceAttempt
unfoldable pub replace_attempt : KernelRun → KernelAttempt → KernelRun
replace_attempt run attempt = record run {
  version = run.version + 1;
  status = started_status run.status;
  active_attempt_versions =
      sorted_record (put attempt.id attempt.version run.active_attempt_versions);
}
