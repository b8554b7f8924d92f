-- ===== src/Kernel/Steering.antt =====
-- Messages to a running attempt (supervisor/src/pipeline/kernel/steering.ts). Ordinals and
-- generations are natural numbers, so of the tests for a safe integer only the upper bound is left.
use openthrottle.Base.{
  ℕ, ◌+◌, ◌*◌, ◌≡◌, Bool, true, false, not, ◌&&◌, ◌||◌, Option, none, some, List, [], ◌∷◌, Text,
  text, ltb, leb, ◌==◌, list_eq, nat_eq, all, contains, length, is_none, is_hex, Result, ok, err,
  ◌>>=◌, ◌>>◌, throw_if, or_throw, for_each, find, if◌then◌else◌, is_some, map, String, is_blank,
  utf8_bytes, normalize_lines,
}
use openthrottle.Contracts.Formats.{is_context_id, is_digest, is_iso_timestamp}
use openthrottle.Contracts.Pipeline.{RepositoryAuthority}
use openthrottle.Contracts.Records.{AttemptState}
use openthrottle.Kernel.Types.{
  AttemptScope, ScopeKind, Sibling, AttemptLeasePurpose, work, result_correction,
}
pub mod Bound

-- /^(?:[a-f0-9]{40}|[a-f0-9]{64})$/
unfoldable pub is_steering_subject : Text → Bool
is_steering_subject s = all is_hex s && (length s == 40 || length s == 64)

abbrev pub max_steering_body_bytes : ℕ
max_steering_body_bytes = 32 * 1024

-- `Number.isSafeInteger(value)` for a natural number
unfoldable pub is_safe : ℕ → Bool
is_safe n = leb n 9007199254740991

abbrev pub is_correction : AttemptLeasePurpose → Bool
is_correction work = false
is_correction result_correction = true

unfoldable pub purpose_beq : AttemptLeasePurpose → AttemptLeasePurpose → Bool
purpose_beq work work = true
purpose_beq result_correction result_correction = true
purpose_beq _ _ = false

pub record KernelRuntimeSessionBinding : Type 0 where
  pub pipeline_run_id : Text
  pub attempt_id : Text
  pub request_hash : Text
  pub definition_bundle_hash : Text
  pub input_subject : Text
  pub native_session_id : Text
  pub scope : AttemptScope
  pub generation : ℕ
  pub attempt_status : AttemptState
  pub repository_authority : RepositoryAuthority
  pub lease_id : Text
  pub lease_generation : ℕ
  pub lease_worker_id : Text
  pub lease_purpose : AttemptLeasePurpose
  pub lease_expires_at : Text
  pub lease_started : Bool

pub record KernelSteeringGenerationSource : Type 0 where
  pub attempt_version : ℕ
  pub work_retry_ordinal : ℕ
  pub result_correction_count : ℕ
  pub lease_purpose : AttemptLeasePurpose

-- deriveKernelSteeringGeneration
unfoldable pub derive_kernel_steering_generation : KernelSteeringGenerationSource → Result ℕ
unfolding is_safe
derive_kernel_steering_generation input = do
  for_each (λ value. throw_if (not (is_safe value)) "steering ${name} is invalid")
      (input.attempt_version ∷ input.work_retry_ordinal ∷ input.result_correction_count ∷ [])
  throw_if (is_correction input.lease_purpose && ltb input.result_correction_count 1)
      "a result-correction session requires a consumed correction ordinal"
  ok (
      if is_correction input.lease_purpose
      then input.result_correction_count
      else input.work_retry_ordinal)

pub data SteeringSource : Type 0 where
  human operator : SteeringSource

-- `envelope.binding`
pub record SteeringTarget : Type 0 where
  pub pipeline_run_id : Text
  pub attempt_id : Text
  pub request_hash : Text
  pub definition_bundle_hash : Text
  pub input_subject : Text
  pub native_session_id : Text
  pub generation : ℕ
  pub lease_id : Text
  pub lease_generation : ℕ
  pub lease_purpose : AttemptLeasePurpose

pub record KernelSteeringEnvelope : Type 0 where
  pub message_id : Text
  pub source : SteeringSource
  pub body : Text
  pub binding : SteeringTarget

-- "attempt_profile" or nothing of it
pub data Access : Type 0 where
  attempt_profile withheld : Access

-- `allowed_tools`: those of the attempt, or a list
pub data AllowedTools : Type 0 where
  profile_tools : AllowedTools
  only : List Text → AllowedTools

pub record SteeringPolicy : Type 0 where
  pub phase : AttemptLeasePurpose
  pub repository_authority : RepositoryAuthority
  pub result_only : Bool
  pub allowed_tools : AllowedTools
  pub mcp : Access
  pub provider_access : Access

pub record AuthorizedKernelSteering : Type 0 where
  pub message_id : Text
  pub source : SteeringSource
  pub body : Text
  pub target : SteeringTarget
  pub scope : AttemptScope
  pub policy : SteeringPolicy

-- nonEmptyId
unfoldable pub non_empty_id : Text → String → Result (Unit {0})
non_empty_id value message = throw_if (not (is_context_id value)) message

-- assertScope. The two kinds of sibling have the same checks under their own names.
unfoldable pub assert_sibling : Sibling → Result (Unit {0})
unfolding non_empty_id is_safe
assert_sibling s = do
  non_empty_id s.parent_attempt_id "steering scope parent_attempt_id is invalid"
  non_empty_id s.group_id "steering scope ${group} is invalid"
  non_empty_id s.member_id "steering scope ${member} is invalid"
  throw_if (not (is_safe s.index)) "steering scope ${index} is invalid"

unfoldable pub assert_scope : AttemptScope → Result (Unit {0})
unfolding assert_sibling
assert_scope scope =
    non_empty_id scope.stage_id "steering scope stage_id is invalid" >> rest scope.kind
  where
    rest : ScopeKind → Result (Unit {0})
    rest ScopeKind.stage = ok tt
    rest (ScopeKind.loop_item s) = assert_sibling s
    rest (ScopeKind.fanout_member s) = assert_sibling s

-- Whether the attempt's status is the one that a lease of the purpose runs in.
unfoldable pub in_live_phase : AttemptLeasePurpose → AttemptState → Bool
in_live_phase work AttemptState.running = true
in_live_phase result_correction AttemptState.result_pending = true
in_live_phase _ _ = false

-- assertBinding
unfoldable pub assert_binding : KernelRuntimeSessionBinding → Result (Unit {0})
unfolding assert_scope is_safe in_live_phase is_steering_subject
assert_binding b = do
  non_empty_id b.pipeline_run_id "steering pipeline_run_id is invalid"
  non_empty_id b.attempt_id "steering attempt_id is invalid"
  non_empty_id b.native_session_id "steering native_session_id is invalid"
  non_empty_id b.lease_id "steering lease_id is invalid"
  non_empty_id b.lease_worker_id "steering lease_worker_id is invalid"
  assert_scope b.scope
  throw_if (not (is_digest b.request_hash) || not (is_digest b.definition_bundle_hash))
      "steering request or bundle hash is invalid"
  throw_if (not (is_steering_subject b.input_subject)) "steering input subject is invalid"
  throw_if (not (is_safe b.generation)) "steering generation is invalid"
  throw_if (not (is_safe b.lease_generation)) "steering lease_generation is invalid"
  throw_if (not (is_iso_timestamp b.lease_expires_at)) "steering lease expiry is invalid"
  throw_if (not b.lease_started) "steering requires a started attempt lease"
  throw_if (not (in_live_phase b.lease_purpose b.attempt_status))
      "steering target is not in its bound live phase"

-- The fields of a binding that an envelope repeats.
unfoldable pub target_of : KernelRuntimeSessionBinding → SteeringTarget
target_of b = record {
  pipeline_run_id = b.pipeline_run_id;
  attempt_id = b.attempt_id;
  request_hash = b.request_hash;
  definition_bundle_hash = b.definition_bundle_hash;
  input_subject = b.input_subject;
  native_session_id = b.native_session_id;
  generation = b.generation;
  lease_id = b.lease_id;
  lease_generation = b.lease_generation;
  lease_purpose = b.lease_purpose;
}

-- Whether none of the fields of authorizeKernelSteeringDelivery differs.
unfoldable pub target_beq : SteeringTarget → SteeringTarget → Bool
unfolding purpose_beq
target_beq a b =
    a.pipeline_run_id == b.pipeline_run_id
    && a.attempt_id == b.attempt_id
    && a.request_hash == b.request_hash
    && a.definition_bundle_hash == b.definition_bundle_hash
    && a.input_subject == b.input_subject
    && a.native_session_id == b.native_session_id
    && a.generation == b.generation
    && a.lease_id == b.lease_id
    && a.lease_generation == b.lease_generation
    && purpose_beq a.lease_purpose b.lease_purpose

-- createKernelSteeringEnvelope
unfoldable pub create_kernel_steering_envelope :
    Text → SteeringSource → Text → KernelRuntimeSessionBinding → Result KernelSteeringEnvelope
unfolding assert_binding target_of
create_kernel_steering_envelope message_id source body binding = do
  assert_binding binding
  non_empty_id message_id "steering message_id is invalid"
  throw_if (is_blank body || contains 0 body || ltb max_steering_body_bytes (utf8_bytes body))
      "steering body must contain at most 32768 UTF-8 bytes"
  ok (record {
    message_id = message_id;
    source = source;
    body = normalize_lines body;
    binding = target_of binding;
  })

unfoldable pub steering_policy : KernelRuntimeSessionBinding → SteeringPolicy
steering_policy current =
    if is_correction current.lease_purpose
    then (record {
      phase = result_correction;
      repository_authority = RepositoryAuthority.inspect;
      result_only = true;
      allowed_tools = only (text "ot-result" ∷ []);
      mcp = withheld;
      provider_access = withheld;
    })
    else (record {
      phase = work;
      repository_authority = current.repository_authority;
      result_only = false;
      allowed_tools = profile_tools;
      mcp = attempt_profile;
      provider_access = attempt_profile;
    })

-- authorizeKernelSteeringDelivery
unfoldable pub authorize_kernel_steering_delivery :
    KernelSteeringEnvelope → Option KernelRuntimeSessionBinding → Result AuthorizedKernelSteering
unfolding create_kernel_steering_envelope target_beq steering_policy
authorize_kernel_steering_delivery envelope current_binding = do
  current ← or_throw current_binding "steering target has no durable runtime session binding"
  assert_binding current
  expected ←
      create_kernel_steering_envelope envelope.message_id envelope.source envelope.body current
  throw_if (not (target_beq envelope.binding expected.binding))
      "steering ${mismatch} binding is stale or mismatched"
  ok (record {
    message_id = envelope.message_id;
    source = envelope.source;
    body = envelope.body;
    target = target_of current;
    scope = current.scope;
    policy = steering_policy current;
  })
