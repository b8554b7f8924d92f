-- ===== src/Kernel/Reducer/Attempt.antt =====
-- The commands on an attempt's work and result: `work_complete`, `result_pending`, `record` and
-- `retry` (supervisor/src/pipeline/kernel/reducer.ts).
use openthrottle.Base.{
  ◌+◌, Bool, true, false, not, ◌&&◌, ◌||◌, Option, none, some, List, [], ◌∷◌, Text, text, text_le,
  truthy, put, sorted_record, ◌==◌, nat_eq, list_eq, option_eq, any, is_empty, is_none, is_some,
  leb, option_to_list, sort, Result, ok, ◌>>=◌, ◌>>◌, throw_if, or_throw, if◌then◌else◌,
}
use openthrottle.Contracts.Formats.{is_digest, is_iso_timestamp}
use openthrottle.Contracts.Pipeline.{is_edit}
use openthrottle.Contracts.Records.{
  AttemptState, AttemptCheckpoint, RecordPayload, inline, blob, ExecutionRecord, result, decision,
}
use openthrottle.Kernel.Types.{
  KernelRun, KernelAttempt, AttemptLease, ResultDiagnostic, ReducerInput, WorkComplete,
  ResultPending, Platform, AtomicTransitionBundleContent, is_pending, is_running, is_work_complete,
  is_result_pending, is_work,
}
use openthrottle.Kernel.Support.{assert_exact_map, stage_for, current_attempt}
use openthrottle.Kernel.Evidence.{
  attempt_forensics_reducer, attempt_forensics_record_id,
  assert_exact_invalid_result_evidence_record,
}
use openthrottle.Kernel.Reducer.Bundle.{
  base_content, rewrites, replace_attempt, assert_checkpoint_identity, exact_checkpoint,
  decision_or_throw, record_for_attempt, assert_recordable_result, owned_by_another,
}

-- `lease?.purpose === purpose && lease.started`
abbrev pub holds_started : (AttemptLease → Bool) → Option AttemptLease → Bool
holds_started purpose none = false
holds_started purpose (some lease) = purpose lease && lease.started

abbrev pub for_work : AttemptLease → Bool
for_work lease = is_work lease.purpose

abbrev pub for_correction : AttemptLease → Bool
for_correction lease = not (is_work lease.purpose)

-- The attempt that `work_complete` writes.
unfoldable pub completed : KernelAttempt → WorkComplete → AttemptCheckpoint → KernelAttempt
completed attempt command checkpoint = record attempt {
  status = AttemptState.work_complete;
  version = attempt.version + 1;
  lease = none;
  output_subject = command.verified_output_subject;
  native_session_id = checkpoint.native_session_id;
  checkpoint_id = some checkpoint.id;
  result_record_id = command.result_record_id;
}

-- A run in which the attempt owns the checkpoint.
unfoldable pub with_checkpoint : KernelRun → KernelRun → Text → Text → KernelRun
with_checkpoint run next_run attempt_id checkpoint_id = record next_run {
  checkpoint_ids = sorted_record (put attempt_id checkpoint_id run.checkpoint_ids);
}

optional_result : ReducerInput → KernelAttempt → Option Text → Result (List ExecutionRecord)
optional_result input attempt none = ok []
optional_result input attempt (some record_id) =
    record_for_attempt input attempt record_id >>= λ r. ok (result r ∷ [])

-- The guards of workComplete on the subject.
unfoldable pub assert_completed_subject :
    KernelAttempt → WorkComplete → AttemptCheckpoint → Result (Unit {0})
assert_completed_subject attempt command checkpoint =
    if is_edit attempt.repository_authority
    then throw_if
        (is_none command.verified_output_subject
          || not (checkpoint.output_subject == command.verified_output_subject))
        "edit completion requires one matching verified output subject"
    else throw_if (is_some command.verified_output_subject || is_some checkpoint.output_subject)
        "inspect completion cannot advance the repository subject"

-- workComplete
unfoldable pub complete_work : ReducerInput → WorkComplete → Result AtomicTransitionBundleContent
unfolding completed optional_result
complete_work input command = do
  assert_exact_map input.records (option_to_list command.result_record_id)
  attempt ← current_attempt input command.attempt_id
  throw_if (not (is_running attempt.status) || not (holds_started for_work attempt.lease))
      "attempt ${attempt.id} has not completed a started work lease"
  s ← stage_for input.manifest attempt.scope.stage_id
  checkpoint ← exact_checkpoint input command.checkpoint_id
  assert_checkpoint_identity checkpoint attempt s
  throw_if (owned_by_another checkpoint.id attempt.id input.run.checkpoint_ids)
      "checkpoint ${checkpoint.id} is already owned by attempt ${checkpointOwner[0]}"
  assert_completed_subject attempt command checkpoint
  let next = completed attempt command checkpoint
  results ← optional_result input next command.result_record_id
  let next_run = with_checkpoint input.run (replace_attempt input.run next) attempt.id checkpoint.id
  base_content (record (rewrites input attempt next_run next) {
    append_records = results;
    append_checkpoints = checkpoint ∷ [];
  })

abbrev diagnostic_le : ResultDiagnostic → ResultDiagnostic → Bool
diagnostic_le a b = if a.path == b.path then text_le a.detail b.detail else text_le a.path b.path

-- normalizedDiagnostics
unfoldable pub normalized_diagnostics : List ResultDiagnostic → Result (List ResultDiagnostic)
normalized_diagnostics diagnostics = do
  throw_if (is_empty diagnostics) "result_pending requires at least one diagnostic"
  throw_if (any (λ (d : ResultDiagnostic). is_empty d.path || is_empty d.detail) diagnostics)
      "result_pending diagnostics require a path and detail"
  ok (sort diagnostic_le diagnostics)

bad_digest : Option Text → Bool
bad_digest none = false
bad_digest (some s) = not (is_digest s)

-- The attempt that `result_pending` writes.
unfoldable pub awaiting_result :
    KernelAttempt → ResultPending → List ResultDiagnostic → KernelAttempt
awaiting_result attempt command diagnostics = record attempt {
  status = AttemptState.result_pending;
  version = attempt.version + 1;
  lease = none;
  result_correction_deadline = some command.correction_deadline;
  pending_result = some (record {
    candidate_hash = command.candidate_hash;
    diagnostics = diagnostics;
    invalid_result_evidence = some command.invalid_result_evidence;
  });
}

-- resultPending
unfoldable pub pend_result :
    Platform → ReducerInput → ResultPending → Result AtomicTransitionBundleContent
unfolding awaiting_result bad_digest
pend_result platform input command = do
  assert_exact_map input.records (command.invalid_result_evidence_record_id ∷ [])
  attempt ← current_attempt input command.attempt_id
  let retrying_correction =
      is_result_pending attempt.status && holds_started for_correction attempt.lease
  throw_if (not (is_work_complete attempt.status) && not retrying_correction)
      "attempt ${attempt.id} cannot enter result_pending before work completion"
  checkpoint_id ←
      or_throw (truthy attempt.checkpoint_id)
        "attempt ${attempt.id} cannot enter result_pending before work completion"
  checkpoint ← exact_checkpoint input checkpoint_id
  s ← stage_for input.manifest attempt.scope.stage_id
  assert_checkpoint_identity checkpoint attempt s
  throw_if (bad_digest command.candidate_hash) "result_pending candidate hash is invalid"
  throw_if (is_none (truthy attempt.native_session_id))
      "attempt ${attempt.id} cannot correct a result without its native session"
  throw_if (not (is_iso_timestamp command.correction_deadline))
      "result_pending correction deadline is invalid"
  throw_if
      (is_some attempt.result_correction_deadline
        && not (attempt.result_correction_deadline == some command.correction_deadline))
      "result_pending cannot change its correction deadline"
  evidence ←
      decision_or_throw input command.invalid_result_evidence_record_id
        "result_pending requires its exact invalid-result evidence record"
  assert_exact_invalid_result_evidence_record platform attempt command.invalid_result_evidence
      evidence
  diagnostics ← normalized_diagnostics command.diagnostics
  let next = awaiting_result attempt command diagnostics
  base_content (record (rewrites input attempt (replace_attempt input.run next) next) {
    append_records = decision evidence ∷ [];
  })

-- The attempt that `record` writes.
unfoldable pub recorded : KernelAttempt → Text → KernelAttempt
recorded attempt result_id = record attempt {
  status = AttemptState.recorded;
  version = attempt.version + 1;
  lease = none;
  result_record_id = some result_id;
  pending_result = none;
}

-- record
unfoldable pub record_attempt_result :
    ReducerInput → Text → Text → Result AtomicTransitionBundleContent
unfolding recorded
record_attempt_result input attempt_id record_id = do
  attempt ← current_attempt input attempt_id
  throw_if (not (is_work_complete attempt.status) && not (is_result_pending attempt.status))
      "attempt ${attempt.id} cannot record a result from ${attempt.status}"
  checkpoint_id ←
      or_throw (truthy attempt.checkpoint_id) "attempt ${attempt.id} has no verified checkpoint"
  s ← stage_for input.manifest attempt.scope.stage_id
  checkpoint ← exact_checkpoint input checkpoint_id
  assert_checkpoint_identity checkpoint attempt s
  r ← record_for_attempt input attempt record_id
  assert_recordable_result input attempt r
  let next = recorded attempt r.id
  base_content (record (rewrites input attempt (replace_attempt input.run next) next) {
    append_records = if is_none attempt.result_record_id then result r ∷ [] else [];
  })

-- The attempt that `retry` writes.
unfoldable pub retried : KernelAttempt → KernelAttempt
retried attempt = record attempt {
  status = AttemptState.pending;
  version = attempt.version + 1;
  work_retry_ordinal = attempt.work_retry_ordinal + 1;
  native_session_id = none;
  lease = none;
}

abbrev is_blob : RecordPayload → Bool
is_blob (blob b) = true
is_blob (inline v) = false

optional_forensics :
    Platform → ReducerInput → KernelAttempt → Option Text → Result (List ExecutionRecord)
optional_forensics platform input attempt none = ok []
optional_forensics platform input attempt (some record_id) = do
  forensics ← decision_or_throw input record_id "retry forensics record is invalid"
  throw_if
      (not (forensics.reducer == attempt_forensics_reducer)
        || not (forensics.pipeline_run_id == attempt.pipeline_run_id)
        || not (forensics.payload_schema == text "openthrottle.attempt-forensics/v1")
        || not (is_empty forensics.input_record_ids)
        || not (is_blob forensics.payload)
        || not (
            forensics.id
            == attempt_forensics_record_id platform attempt attempt.work_retry_ordinal))
      "retry forensics record is invalid"
  ok (decision forensics ∷ [])

-- retry
unfoldable pub retry_attempt :
    Platform → ReducerInput → Text → Option Text → Result AtomicTransitionBundleContent
unfolding retried optional_forensics
retry_attempt platform input attempt_id forensics_record_id = do
  assert_exact_map input.records (option_to_list forensics_record_id)
  assert_exact_map input.checkpoints []
  attempt ← current_attempt input attempt_id
  throw_if (not (is_pending attempt.status) && not (is_running attempt.status))
      "attempt ${attempt.id} cannot consume a work retry from ${attempt.status}"
  throw_if (leb input.run.work_retry_limit attempt.work_retry_ordinal)
      "attempt ${attempt.id} exhausted work retries"
  let next = retried attempt
  forensics ← optional_forensics platform input attempt forensics_record_id
  base_content (record (rewrites input attempt (replace_attempt input.run next) next) {
    append_records = forensics;
  })
