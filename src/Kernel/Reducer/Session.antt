-- ===== src/Kernel/Reducer/Session.antt =====
-- The commands that fence a worker's lease: `start` and `bind_runtime_session`
-- (supervisor/src/pipeline/kernel/reducer.ts).
use openthrottle.Base.{
  ℕ, ◌+◌, true, not, ◌&&◌, ◌||◌, some, Text, ◌==◌, nat_eq, list_eq, option_eq, is_some, leb, Result,
  ◌>>=◌, ◌>>◌, throw_if, or_throw, if◌then◌else◌,
}
use openthrottle.Contracts.Formats.{is_native_session_id}
use openthrottle.Contracts.Records.{AttemptState}
use openthrottle.Kernel.Types.{
  KernelAttempt, AttemptLease, ReducerInput, BindRuntimeSession, AtomicTransitionBundleContent,
  is_pending, is_running, is_result_pending, is_work, purpose_beq,
}
use openthrottle.Kernel.Support.{current_attempt, assert_attempt_command_maps_empty}
use openthrottle.Kernel.Reducer.Bundle.{base_content, rewrites, replace_attempt}

-- The attempt that `start` writes.
unfoldable pub started : KernelAttempt → AttemptLease → KernelAttempt
started attempt lease = record attempt {
  status = if is_work lease.purpose then AttemptState.running else AttemptState.result_pending;
  version = attempt.version + 1;
  lease = some (record lease { started = true });
}

-- start
unfoldable pub start_attempt : ReducerInput → Text → Text → Result AtomicTransitionBundleContent
unfolding started
start_attempt input attempt_id lease_id = do
  assert_attempt_command_maps_empty input
  attempt ← current_attempt input attempt_id
  lease ← or_throw attempt.lease "attempt ${attempt.id} lease fence does not match"
  throw_if (not (lease.id == lease_id)) "attempt ${attempt.id} lease fence does not match"
  throw_if lease.started "attempt ${attempt.id} lease already started"
  throw_if (not (is_pending attempt.status) && not (is_result_pending attempt.status))
      "attempt ${attempt.id} cannot start from ${attempt.status}"
  let next = started attempt lease
  base_content (rewrites input attempt (replace_attempt input.run next) next)

-- assertSessionBindVersion
unfoldable pub assert_session_bind_version : ℕ → ℕ → Result (Unit {0})
assert_session_bind_version value expected =
    throw_if (not (leb value 9007199254740991) || not (value == expected))
      "runtime session ${name} version fence does not match"

-- The attempt that `bind_runtime_session` writes.
unfoldable pub bound : KernelAttempt → Text → KernelAttempt
bound attempt native_session_id = record attempt {
  native_session_id = some native_session_id;
  version = attempt.version + 1;
}

-- bindRuntimeSession
unfoldable pub bind_session :
    ReducerInput → BindRuntimeSession → Result AtomicTransitionBundleContent
unfolding bound
bind_session input command = do
  assert_attempt_command_maps_empty input
  attempt ← current_attempt input command.attempt_id
  assert_session_bind_version command.expected_run_version input.run.version
  assert_session_bind_version command.expected_cursor_version input.run.cursor.version
  assert_session_bind_version command.expected_attempt_version attempt.version
  throw_if
      (not (command.request_hash == attempt.request_hash)
        || not (command.definition_bundle_hash == attempt.definition_bundle_hash)
        || not (command.definition_bundle_hash == input.run.definition_bundle_hash)
        || not (command.input_subject == attempt.input_subject))
      "runtime session immutable action identity fence does not match"
  throw_if
      (not (command.expected_work_retry_ordinal == attempt.work_retry_ordinal)
        || not (command.expected_result_correction_count == attempt.result_correction_count))
      "runtime session retry ordinal fence does not match"
  lease ← or_throw attempt.lease "runtime session lease fence does not match"
  throw_if
      (not (lease.id == command.lease_id)
        || not (lease.worker_id == command.worker_id)
        || not (purpose_beq lease.purpose command.lease_purpose)
        || not (lease.expires_at == command.expected_lease_expires_at))
      "runtime session lease fence does not match"
  throw_if (not lease.started || not (is_work lease.purpose) || not (is_running attempt.status))
      "runtime session binding requires a started work lease"
  throw_if (is_some attempt.native_session_id)
      "attempt ${attempt.id} already has a native session binding"
  throw_if (not (is_native_session_id command.native_session_id))
      "runtime native session identity is invalid"
  let next = bound attempt command.native_session_id
  base_content (rewrites input attempt (replace_attempt input.run next) next)
