-- ===== src/Kernel/Scenarios.antt =====
-- Two runs of the reducer, and the other operations of the kernel at concrete inputs.
use openthrottle.Kernel.Evidence.{not_found, execute, reconcile_effect_intent}
use openthrottle.Kernel.Reducer.Settle.{EffectiveTransition, effective_transition, edge_key}
use openthrottle.Kernel.Lifecycle.{is_provision_stage}
use openthrottle.Kernel.Recovery.{
  decision_payload_schema, sandbox_recovery_attempt_id, fatal_frontier_prefix,
  exact_sandbox_recovery_frontier,
}
use openthrottle.Kernel.Reducer.Terminal.{
  assert_recovery_frontier, recovers_current, terminal_command, terminal_run,
}
use openthrottle.Kernel.Reducer.Bundle.{append_record_order, base_content, exact_decision}
use openthrottle.Kernel.Reducer.Session.{start_attempt}
use openthrottle.Contracts.Formats.{is_digest, is_git_subject, is_effect_kind, is_context_id}
use openthrottle.Kernel.Support.{
  stage_for, assert_cursor_topology, assert_base_input, member_key, authority_for_stage,
  assert_attempt_command_maps_empty, assert_exact_map, assert_active_attempt, attempt_scope_key,
  current_attempt,
}
use openthrottle.Base.{
  inl, ◌<◌, list_eq, nat_eq, ◌≡◌, refl, Bool, true, false, none, some, [], ◌∷◌, ◌++◌, Text, text,
  keys, distinct, replicate, Result, ok, err, Dict, or_throw, list_beq, has_duplicates, all, find,
  sort_texts, ◌>>=◌, throw_if, filter, option_beq, any, lookup, for_each, sorted_unique,
  starts_with, map_each, contains, text_le, sort, put, sorted_record, flat_map,
}
use openthrottle.Contracts.Effects.{EffectIntent, validate_effect_intent}
use openthrottle.Contracts.Json.{null, check_json}
use openthrottle.Contracts.Lifecycle.{
  provision_stage, runtime_provision_stage_id, expand_runtime_lifecycle, runtime_cleanup_stage_id,
  reserved_stage_ids, runtime_stop_stage_id,
}
use openthrottle.Contracts.Pipeline.{
  CompiledPipelineManifest, CompiledPipelineStage, inspect, authority_beq, PipelineTransition,
  Exhaustion, completed, command,
}
use openthrottle.Contracts.Records.{AttemptState, DecisionRecord, ExecutionRecord, decision, inline}
use openthrottle.Kernel.Types.{
  KernelRun, KernelRunStatus, KernelCursor, KernelAttempt, AttemptScope, ScopeKind, AttemptLease,
  work, ReducerInput, KernelAction, start, needs_human, pre_provision, Platform,
  AtomicTransitionBundle, check_context_ids, is_terminal_run,
}
use openthrottle.Kernel.Reducer.Dispatch.{reduce_kernel_command, dispatch, bundle}
use openthrottle.Kernel.Resource.{kernel_runtime_resource_slot_index}
use openthrottle.Kernel.Store.{
  assert_atomic_transition_integrity, apply, replay, transition_application_disposition,
}
use openthrottle.Kernel.Proofs.Applies.{
  observed_of, reduce_kernel_command-applies, reduce_kernel_command-replays,
}
use openthrottle.Kernel.Proofs.Each.{Each}
use openthrottle.Kernel.Proofs.Fences.Integrity.{reduce_kernel_command-integrity}
use openthrottle.Kernel.Proofs.Refines.{Accepted, reduce_kernel_command-Accepted}
use openthrottle.Kernel.Proofs.Runs.{IsConsistent, reduce_kernel_command-IsConsistent}
use openthrottle.Kernel.Proofs.Runtime.{
  is_guarded, expand_runtime_lifecycle-guarded, Reconciles, reconcile_effect_intent-Reconciles,
  kernel_runtime_resource_slot_index-bound,
}
use openthrottle.Kernel.Proofs.Subject.{
  IsSubject, reduce_kernel_command-effects, reduce_kernel_command-IsSubject,
}
use openthrottle.Kernel.Proofs.Writes.{IsLawful, reduce_kernel_command-writes}
use openthrottle.Kernel.Proofs.Order.{append_record_order-keeps, cites_earlier, tally}
use openthrottle.Kernel.Proofs.Transitions.{Limited, effective_transition-Limited}
use openthrottle.Kernel.Proofs.Retries.{Counted, reduce_kernel_command-retries}
use openthrottle.Kernel.Proofs.Returns.{CanStart, IsStarted, reduce_kernel_command-starts}
use openthrottle.Contracts.Manifest.Shape.{has_transitions}
use openthrottle.Kernel.Successor.{kernel_successor_stage_id}
use openthrottle.Kernel.Successor.Agrees.{kernel_successor_stage_id-effective_transition}

abbrev run_id : Text
run_id = 114 ∷ []

abbrev attempt_id : Text
attempt_id = 97 ∷ []

abbrev decision_id : Text
decision_id = 100 ∷ []

abbrev digest : Text
digest = replicate 64 102

abbrev subject : Text
subject = replicate 40 48

abbrev stage_id : Text
stage_id = runtime_provision_stage_id

abbrev provision : CompiledPipelineStage
provision = provision_stage (text "build")

abbrev manifest : CompiledPipelineManifest
manifest = record {
  pipeline_id = run_id;
  pipeline_version = 1;
  entry_stage = stage_id;
  definition_bundle_hash = digest;
  compiler_version = [];
  runtime_capability_digest = digest;
  stages = provision ∷ [];
}

abbrev scope : AttemptScope
scope = record { stage_id = stage_id; kind = ScopeKind.stage }

abbrev scope_key : Text
scope_key = text "0:" ++ stage_id ++ text "@" ++ attempt_id

abbrev lease : AttemptLease
lease = record {
  id = 108 ∷ [];
  generation = 1;
  worker_id = 119 ∷ [];
  purpose = work;
  expires_at = [];
  started = false;
}

-- An attempt at the provision stage that a worker has leased.
abbrev attempt : KernelAttempt
attempt = record {
  id = attempt_id;
  pipeline_run_id = run_id;
  scope = scope;
  repository_authority = inspect;
  request_hash = digest;
  definition_bundle_hash = digest;
  input_subject = subject;
  context_record_ids = [];
  context_checkpoint_ids = [];
  output_subject = none;
  native_session_id = none;
  status = AttemptState.pending;
  version = 3;
  work_retry_ordinal = 0;
  result_correction_count = 0;
  result_correction_deadline = none;
  lease = some lease;
  checkpoint_id = none;
  result_record_id = none;
  decision_record_id = none;
  pending_result = none;
}

abbrev cursor : KernelCursor
cursor = record {
  stage_id = some stage_id;
  version = 5;
  reentries = [];
  frontier =
      record { scope_key = scope_key; attempt_id = attempt_id; scope = scope; depends_on = [] }
      ∷ [];
  completed_scope_keys = [];
  barrier = some (record { member_scope_keys = scope_key ∷ [] });
}

abbrev run : KernelRun
run = record {
  id = run_id;
  pipeline_id = run_id;
  definition_bundle_hash = digest;
  current_subject = subject;
  status = KernelRunStatus.pending;
  terminal_outcome = none;
  cursor = cursor;
  version = 7;
  work_retry_limit = 2;
  result_correction_limit = 2;
  active_attempt_versions = (attempt_id, 3) ∷ [];
  active_effect_versions = [];
  checkpoint_ids = [];
}

abbrev diagnosis : DecisionRecord
diagnosis = record {
  base = record {
    id = decision_id;
    pipeline_run_id = run_id;
    payload_schema = [];
    payload = inline null;
    created_at = [];
  };
  reducer = [];
  input_record_ids = [];
}

abbrev platform : Platform
platform = record {
  digest_json = λ value. digest;
  digest_content = λ content. digest;
  canonical_bytes = λ value. 0;
  parse_json = λ s. none;
}

abbrev input_of : KernelAction → Dict ExecutionRecord → ReducerInput
input_of action records = record {
  manifest = manifest;
  run = run;
  current_attempt = some attempt;
  records = records;
  checkpoints = [];
  command = record { command_id = 99 ∷ []; action = action };
}

-- The worker starts its lease, and an operator ends the run before a sandbox exists.
abbrev starting : ReducerInput
starting = input_of (start attempt_id (108 ∷ [])) []

abbrev ending : ReducerInput
ending =
    input_of
      (needs_human (some attempt_id) (record {
        decision_record_id = decision_id;
        reason = [];
        resource_disposition = pre_provision;
      }))
      ((decision_id, decision diagnosis) ∷ [])

abbrev is_ok {ℓ} : {A : Type ℓ} → Result A → Bool
is_ok (ok a) = true
is_ok (err e) = false

returned {ℓ} : {A : Type ℓ} (r : Result A) → is_ok r ≡ true → (a : A) × (r ≡ ok a)
returned (ok a) e = (a, refl)
returned (err m) e = cc

starts-ok : is_ok (reduce_kernel_command platform starting) ≡ true
unfolding reduce_kernel_command ◌>>=◌ assert_base_input throw_if list_beq replicate is_digest all
    is_git_subject or_throw stage_for find provision_stage runtime_provision_stage_id text
    assert_cursor_topology sort_texts has_duplicates for_each member_key attempt_scope_key
    option_beq sorted_unique filter keys any assert_active_attempt lookup check_context_ids
    authority_beq authority_for_stage dispatch start_attempt assert_attempt_command_maps_empty
    assert_exact_map current_attempt base_content append_record_order
starts-ok = refl

ends-ok : is_ok (reduce_kernel_command platform ending) ≡ true
unfolding reduce_kernel_command ◌>>=◌ assert_base_input throw_if list_beq replicate is_digest all
    is_git_subject or_throw stage_for find provision_stage runtime_provision_stage_id text
    assert_cursor_topology sort_texts has_duplicates for_each member_key attempt_scope_key
    option_beq sorted_unique filter keys any assert_active_attempt lookup check_context_ids
    authority_beq authority_for_stage dispatch start_attempt assert_attempt_command_maps_empty
    assert_exact_map current_attempt base_content append_record_order terminal_command
    exact_decision map_each exact_sandbox_recovery_frontier starts_with fatal_frontier_prefix
    assert_recovery_frontier recovers_current sandbox_recovery_attempt_id decision_payload_schema
    is_provision_stage
ends-ok = refl

abbrev started_bundle : AtomicTransitionBundle
started_bundle = (returned (reduce_kernel_command platform starting) starts-ok).0

start_returns : reduce_kernel_command platform starting ≡ ok started_bundle
start_returns = (returned (reduce_kernel_command platform starting) starts-ok).1

abbrev ended_bundle : AtomicTransitionBundle
ended_bundle = (returned (reduce_kernel_command platform ending) ends-ok).0

end_returns : reduce_kernel_command platform ending ≡ ok ended_bundle
end_returns = (returned (reduce_kernel_command platform ending) ends-ok).1

one_attempt : distinct (keys run.active_attempt_versions) ≡ true
unfolding distinct keys contains
one_attempt = refl

reduce_kernel_command-integrity_example :
    assert_atomic_transition_integrity platform started_bundle ≡ ok tt
reduce_kernel_command-integrity_example =
    reduce_kernel_command-integrity platform starting one_attempt start_returns

reduce_kernel_command-Accepted_example : Accepted platform ending ended_bundle
reduce_kernel_command-Accepted_example = reduce_kernel_command-Accepted platform ending end_returns

reduce_kernel_command-writes_example :
    Each (IsLawful (some attempt)) started_bundle.content.attempt_writes
reduce_kernel_command-writes_example = reduce_kernel_command-writes platform starting start_returns

reduce_kernel_command-IsConsistent_example : IsConsistent ended_bundle.content.run
reduce_kernel_command-IsConsistent_example =
    reduce_kernel_command-IsConsistent platform ending end_returns

reduce_kernel_command-IsSubject_example :
    IsSubject run started_bundle.content.run started_bundle.content.attempt_writes
reduce_kernel_command-IsSubject_example =
    reduce_kernel_command-IsSubject platform starting start_returns

reduce_kernel_command-applies_example :
    transition_application_disposition platform started_bundle (observed_of run) none ≡ ok apply
reduce_kernel_command-applies_example =
    reduce_kernel_command-applies platform starting one_attempt start_returns

reduce_kernel_command-replays_example :
    transition_application_disposition platform started_bundle (observed_of run) (
      some (record {
        transition_id = started_bundle.content.transition_id;
        content_hash = started_bundle.content_hash;
      }))
    ≡ ok replay
reduce_kernel_command-replays_example =
    reduce_kernel_command-replays platform starting (observed_of run) one_attempt start_returns

abbrev item_scope : AttemptScope
item_scope = record {
  stage_id = stage_id;
  kind = ScopeKind.loop_item (record {
    parent_attempt_id = attempt_id;
    group_id = attempt_id;
    member_id = attempt_id;
    index = 5;
  });
}

item_slot : kernel_runtime_resource_slot_index item_scope 3 ≡ ok 2
unfolding kernel_runtime_resource_slot_index ◌>>=◌ throw_if
item_slot = refl

kernel_runtime_resource_slot_index-bound_example : 2 < 3
kernel_runtime_resource_slot_index-bound_example =
    kernel_runtime_resource_slot_index-bound item_scope 3 item_slot

end_is_terminal : is_terminal_run ended_bundle.content.run.status ≡ true
unfolding returned reduce_kernel_command ◌>>=◌ assert_base_input throw_if list_beq replicate
    is_digest all is_git_subject or_throw stage_for find provision_stage runtime_provision_stage_id
    text assert_cursor_topology sort_texts has_duplicates for_each member_key attempt_scope_key
    option_beq sorted_unique filter keys any assert_active_attempt lookup check_context_ids
    authority_beq authority_for_stage dispatch start_attempt assert_attempt_command_maps_empty
    assert_exact_map current_attempt base_content append_record_order terminal_command
    exact_decision map_each exact_sandbox_recovery_frontier starts_with fatal_frontier_prefix
    assert_recovery_frontier recovers_current sandbox_recovery_attempt_id decision_payload_schema
    is_provision_stage bundle terminal_run
end_is_terminal = refl

reduce_kernel_command-effects_example :
    ended_bundle.content.run.active_effect_versions ≡ run.active_effect_versions
reduce_kernel_command-effects_example =
    reduce_kernel_command-effects platform ending end_returns end_is_terminal

-- A decision that cites the other decision of its batch, given first.
abbrev citing : DecisionRecord
citing = record {
  base = record {
    id = 98 ∷ [];
    pipeline_run_id = run_id;
    payload_schema = [];
    payload = inline null;
    created_at = [];
  };
  reducer = [];
  input_record_ids = decision_id ∷ [];
}

citing_last :
    append_record_order (decision citing ∷ decision diagnosis ∷ [])
    ≡ ok (decision diagnosis ∷ decision citing ∷ [])
unfolding append_record_order sort text_le ◌>>=◌ or_throw all contains list_beq
citing_last = refl

append_record_order-keeps_example :
    (cites_earlier ((98 ∷ []) ∷ decision_id ∷ []) [] (decision diagnosis ∷ decision citing ∷ [])
      ≡ true)
    × ((p : ExecutionRecord → Bool)
        → tally p (decision citing ∷ decision diagnosis ∷ [])
          ≡ tally p (decision diagnosis ∷ decision citing ∷ []))
append_record_order-keeps_example =
    append_record_order-keeps (decision citing ∷ decision diagnosis ∷ []) citing_last

abbrev retry_edge : PipelineTransition
retry_edge = record {
  to = some stage_id;
  terminal = none;
  max_reentries = some 2;
  on_exhausted = some Exhaustion.failed;
}

retry_found : lookup (text "retryable_infrastructure_failure") provision.on ≡ some retry_edge
unfolding lookup provision_stage list_beq text
retry_found = refl

no_reentries : distinct (keys run.cursor.reentries) ≡ true
unfolding distinct keys
no_reentries = refl

abbrev retried_once : EffectiveTransition
retried_once = record {
  to = some stage_id;
  terminal = none;
  reentries = (edge_key stage_id (text "retryable_infrastructure_failure") stage_id, 1) ∷ [];
}

retry_counted :
    effective_transition run provision (text "retryable_infrastructure_failure") ≡ ok retried_once
unfolding effective_transition ◌>>=◌ or_throw lookup provision_stage list_beq text sorted_record
    sort put
retry_counted = refl

effective_transition-Limited_example :
    Limited run.cursor.reentries provision Exhaustion.failed
      (edge_key provision.id (text "retryable_infrastructure_failure") stage_id)
      stage_id
      2
      retried_once
effective_transition-Limited_example =
    effective_transition-Limited run provision (text "retryable_infrastructure_failure") retry_edge
      Exhaustion.failed 2 stage_id no_reentries retry_found refl refl refl retry_counted

-- An authored stage that ends the run when it succeeds.
abbrev build : CompiledPipelineStage
build = record {
  id = text "build";
  loop = none;
  on =
      (
        text "success",
        record { to = none; terminal = some completed; max_reentries = none; on_exhausted = none },
      )
      ∷ [];
  kind = command (text "make");
}

expand-ok : is_ok (expand_runtime_lifecycle (text "build") (build ∷ [])) ≡ true
unfolding expand_runtime_lifecycle find contains reserved_stage_ids list_beq
    runtime_provision_stage_id text flat_map runtime_stop_stage_id runtime_cleanup_stage_id
expand-ok = refl

expand_runtime_lifecycle-guarded_example :
    all is_guarded
      (returned (expand_runtime_lifecycle (text "build") (build ∷ [])) expand-ok).0.stages
    ≡ true
expand_runtime_lifecycle-guarded_example =
    expand_runtime_lifecycle-guarded (text "build") (build ∷ [])
      (returned (expand_runtime_lifecycle (text "build") (build ∷ [])) expand-ok).1

abbrev notice : EffectIntent
notice = record {
  id = 101 ∷ [];
  pipeline_run_id = run_id;
  decision_record_id = decision_id;
  kind = text "linear/comment@1";
  idempotency_key = 107 ∷ [];
  target = 116 ∷ [];
  subject = none;
  payload = null;
}

notice_executes :
    reconcile_effect_intent platform notice (not_found (116 ∷ [])) none ≡ ok (execute notice)
unfolding reconcile_effect_intent ◌>>=◌ validate_effect_intent check_json throw_if is_context_id all
    text is_effect_kind list_beq
notice_executes = refl

reconcile_effect_intent-Reconciles_example :
    Reconciles notice (not_found (116 ∷ [])) (execute notice)
reconcile_effect_intent-Reconciles_example =
    reconcile_effect_intent-Reconciles platform notice (not_found (116 ∷ [])) none notice_executes

starting_guarded : assert_base_input starting ≡ ok tt
unfolding reduce_kernel_command ◌>>=◌ assert_base_input throw_if list_beq replicate is_digest all
    is_git_subject or_throw stage_for find provision_stage runtime_provision_stage_id text
    assert_cursor_topology sort_texts has_duplicates for_each member_key attempt_scope_key
    option_beq sorted_unique filter keys any assert_active_attempt lookup check_context_ids
    authority_beq authority_for_stage dispatch start_attempt assert_attempt_command_maps_empty
    assert_exact_map current_attempt base_content append_record_order
starting_guarded = refl

starting-CanStart : CanStart starting attempt lease
starting-CanStart = record {
  is_start = refl;
  no_records = refl;
  no_checkpoints = refl;
  is_current = refl;
  is_leased = refl;
  unstarted = refl;
  can_start = inl refl;
}

reduce_kernel_command-starts_example :
    (b : AtomicTransitionBundle) × (reduce_kernel_command platform starting ≡ ok b)
    × IsStarted starting attempt lease b.content
reduce_kernel_command-starts_example =
    reduce_kernel_command-starts platform starting attempt lease starting_guarded starting-CanStart

reduce_kernel_command-retries_example :
    Each (Counted starting) started_bundle.content.attempt_writes
    × (started_bundle.content.run.work_retry_limit ≡ 2)
reduce_kernel_command-retries_example =
    reduce_kernel_command-retries platform starting start_returns

provision-shaped : has_transitions provision ≡ true
unfolding all keys text provision_stage
provision-shaped = refl

kernel_successor_stage_id-effective_transition_example :
    kernel_successor_stage_id run provision (text "success")
    ≡ (effective_transition run provision (text "success") >>= λ (e : EffectiveTransition). ok e.to)
kernel_successor_stage_id-effective_transition_example =
    kernel_successor_stage_id-effective_transition run provision (text "success") provision-shaped
