-- ===== src/Kernel/Steering/Bound.antt =====
-- Creating and authorizing messages (supervisor/src/pipeline/kernel/steering.ts).
use openthrottle.Base.{
  ◌≤◌, ◌≡◌, refl, ap, ◌∙◌, ◌↔◌, true, false, not, ◌||◌, Option, some, Text, ltb, list_eq,
  list_beq_iff, nat_eq, nat_beq_iff, contains, is_blank, utf8_bytes, normalize_lines,
  is_blank-normalize_lines, no_nul-normalize_lines, utf8_bytes-normalize_lines, ok, or_throw, arith,
  Ensures, Ensures-ok, Ensures-bind, Ensures-throw_if, >>=-ok, throw_if-false, or_throw-eq-ok,
}
use openthrottle.Kernel.Types.{AttemptLeasePurpose, work, result_correction}
use openthrottle.Kernel.Steering.{
  KernelRuntimeSessionBinding, SteeringTarget, KernelSteeringEnvelope, SteeringSource,
  AuthorizedKernelSteering, purpose_beq, target_of, target_beq, assert_binding,
  create_kernel_steering_envelope, authorize_kernel_steering_delivery, steering_policy,
  max_steering_body_bytes, non_empty_id,
}

purpose_beq_iff : (a b : AttemptLeasePurpose) → (purpose_beq a b ≡ true) ↔ (a ≡ b)
unfolding purpose_beq
purpose_beq_iff work work = (λ h. refl, λ h. refl)
purpose_beq_iff result_correction result_correction = (λ h. refl, λ h. refl)
purpose_beq_iff work result_correction = (λ h. cc, λ h. cc)
purpose_beq_iff result_correction work = (λ h. cc, λ h. cc)

target_beq_refl : (a : SteeringTarget) → target_beq a a ≡ true
unfolding target_beq
target_beq_refl a = ground (
  arith,
  list_beq_iff a.pipeline_run_id a.pipeline_run_id,
  list_beq_iff a.attempt_id a.attempt_id,
  list_beq_iff a.request_hash a.request_hash,
  list_beq_iff a.definition_bundle_hash a.definition_bundle_hash,
  list_beq_iff a.input_subject a.input_subject,
  list_beq_iff a.native_session_id a.native_session_id,
  list_beq_iff a.lease_id a.lease_id,
  purpose_beq_iff a.lease_purpose a.lease_purpose,
)

-- The message that is delivered for an envelope, to an attempt with the binding `current`.
abbrev pub delivered :
    KernelSteeringEnvelope → KernelRuntimeSessionBinding → AuthorizedKernelSteering
delivered envelope current = record {
  message_id = envelope.message_id;
  source = envelope.source;
  body = envelope.body;
  target = target_of current;
  scope = current.scope;
  policy = steering_policy current;
}

body-again :
    (body : Text)
    → (is_blank body || contains 0 body || ltb max_steering_body_bytes (utf8_bytes body)) ≡ false
    → (is_blank (normalize_lines body)
        || contains 0 (normalize_lines body)
        || ltb max_steering_body_bytes (utf8_bytes (normalize_lines body)))
      ≡ false
body-again body h = ground (
  arith,
  is_blank-normalize_lines body,
  no_nul-normalize_lines body,
  utf8_bytes-normalize_lines body,
)

-- The envelope that is created for a binding with a body that may be sent.
abbrev envelope_for :
    Text → SteeringSource → Text → KernelRuntimeSessionBinding → KernelSteeringEnvelope
envelope_for message_id source body binding = record {
  message_id = message_id;
  source = source;
  body = normalize_lines body;
  binding = target_of binding;
}

created :
    (message_id : Text) (source : SteeringSource) (body : Text)
    (binding : KernelRuntimeSessionBinding)
    → assert_binding binding ≡ ok tt
    → non_empty_id message_id "steering message_id is invalid" ≡ ok tt
    → (is_blank body || contains 0 body || ltb max_steering_body_bytes (utf8_bytes body)) ≡ false
    → create_kernel_steering_envelope message_id source body binding
      ≡ ok (envelope_for message_id source body binding)
unfolding create_kernel_steering_envelope
created message_id source body binding bound named fits =
    >>=-ok _ _ bound ∙ >>=-ok _ _ named ∙ throw_if-false _ _ _ fits

authorized :
    (envelope : KernelSteeringEnvelope) (binding : KernelRuntimeSessionBinding)
    → envelope.binding ≡ target_of binding
    → assert_binding binding ≡ ok tt
    → non_empty_id envelope.message_id "steering message_id is invalid" ≡ ok tt
    → (is_blank envelope.body
        || contains 0 envelope.body
        || ltb max_steering_body_bytes (utf8_bytes envelope.body))
      ≡ false
    → authorize_kernel_steering_delivery envelope (some binding) ≡ ok (delivered envelope binding)
unfolding authorize_kernel_steering_delivery or_throw
authorized envelope binding same bound named fits =
    >>=-ok (or_throw (some binding) "steering target has no durable runtime session binding") _ refl
    ∙ >>=-ok _ _ bound
    ∙ >>=-ok _ _
        (created envelope.message_id envelope.source envelope.body binding bound named fits)
    ∙ throw_if-false _ _ _ (
        ap (λ t. not (target_beq t (target_of binding))) same
        ∙ ap not (target_beq_refl (target_of binding)))

created-authorized :
    (message_id : Text) (source : SteeringSource) (body : Text)
    (binding : KernelRuntimeSessionBinding)
    → Ensures
        (λ envelope.
          authorize_kernel_steering_delivery envelope (some binding)
          ≡ ok (delivered envelope binding))
        (create_kernel_steering_envelope message_id source body binding)
unfolding create_kernel_steering_envelope
created-authorized message_id source body binding = Ensures-bind _ _ λ bound e0.
    Ensures-bind _ _ λ named e1. Ensures-throw_if _ _ _ λ fits. Ensures-ok _ (
      authorized (envelope_for message_id source body binding) binding refl e0 e1
        (body-again body fits))

-- An envelope that createKernelSteeringEnvelope made for a binding is authorized as long as the
-- attempt has that binding, and is delivered with its own message.
pub create_kernel_steering_envelope-authorized :
    (message_id : Text) (source : SteeringSource) (body : Text)
    (binding : KernelRuntimeSessionBinding) (envelope : KernelSteeringEnvelope)
    → create_kernel_steering_envelope message_id source body binding ≡ ok envelope
    → authorize_kernel_steering_delivery envelope (some binding) ≡ ok (delivered envelope binding)
create_kernel_steering_envelope-authorized message_id source body binding =
    (created-authorized message_id source body binding).at

-- What is true of a message that was authorized.
pub record IsBound (envelope : KernelSteeringEnvelope)
    (current : Option KernelRuntimeSessionBinding) (message : AuthorizedKernelSteering)
    : Type 0 where
  pub binding : KernelRuntimeSessionBinding
  pub bound_now : current ≡ some binding
  pub valid : assert_binding binding ≡ ok tt
  pub same_target : envelope.binding ≡ target_of binding
  pub for_target : message ≡ delivered envelope binding
  pub small : utf8_bytes message.body ≤ 32768

target_beq-same : (a b : SteeringTarget) → target_beq a b ≡ true → a ≡ b
unfolding target_beq
target_beq-same a b h =
    let p0 = (list_beq_iff a.pipeline_run_id b.pipeline_run_id).0 (ground arith) in
    let p1 = (list_beq_iff a.attempt_id b.attempt_id).0 (ground arith) in
    let p2 = (list_beq_iff a.request_hash b.request_hash).0 (ground arith) in
    let p3 = (list_beq_iff a.definition_bundle_hash b.definition_bundle_hash).0 (ground arith) in
    let p4 = (list_beq_iff a.input_subject b.input_subject).0 (ground arith) in
    let p5 = (list_beq_iff a.native_session_id b.native_session_id).0 (ground arith) in
    let p6 = (nat_beq_iff a.generation b.generation).0 (ground arith) in
    let p7 = (list_beq_iff a.lease_id b.lease_id).0 (ground arith) in
    let p8 = (nat_beq_iff a.lease_generation b.lease_generation).0 (ground arith) in
    let p9 = (purpose_beq_iff a.lease_purpose b.lease_purpose).0 (ground arith) in
    λ i. record {
      pipeline_run_id = p0 i;
      attempt_id = p1 i;
      request_hash = p2 i;
      definition_bundle_hash = p3 i;
      input_subject = p4 i;
      native_session_id = p5 i;
      generation = p6 i;
      lease_id = p7 i;
      lease_generation = p8 i;
      lease_purpose = p9 i;
    }

envelope-made :
    (envelope : KernelSteeringEnvelope) (binding : KernelRuntimeSessionBinding)
    → Ensures
        (λ expected. (expected.binding ≡ target_of binding) × (utf8_bytes envelope.body ≤ 32768))
        (create_kernel_steering_envelope envelope.message_id envelope.source envelope.body binding)
unfolding create_kernel_steering_envelope
envelope-made envelope binding = Ensures-bind _ _ λ bound e0.
    Ensures-bind _ _
      λ named e1. Ensures-throw_if _ _ _ λ fits. Ensures-ok _ (refl, ground (arith, fits))

authorized-IsBound :
    (envelope : KernelSteeringEnvelope) (current : Option KernelRuntimeSessionBinding)
    → Ensures (IsBound envelope current) (authorize_kernel_steering_delivery envelope current)
unfolding authorize_kernel_steering_delivery
authorized-IsBound envelope current = Ensures-bind _ _ λ binding e0. Ensures-bind _ _ λ bound e1.
    Ensures-bind _ _ λ expected e2. Ensures-throw_if _ _ _ λ matches.
      let made = (envelope-made envelope binding).at expected e2 in
      Ensures-ok _ (record {
        binding = binding;
        bound_now = or_throw-eq-ok current _ e0;
        valid = e1;
        same_target =
            target_beq-same envelope.binding expected.binding (ground (arith, matches)) ∙ made.0;
        for_target = refl;
        small = made.1;
      })

-- A message is authorized only for the attempt's current binding, in which every field that the
-- envelope repeats is the same, and only with a body of at most 32 KiB.
pub authorize_kernel_steering_delivery-IsBound :
    (envelope : KernelSteeringEnvelope) (current : Option KernelRuntimeSessionBinding)
    (message : AuthorizedKernelSteering)
    → authorize_kernel_steering_delivery envelope current ≡ ok message
    → IsBound envelope current message
authorize_kernel_steering_delivery-IsBound envelope current =
    (authorized-IsBound envelope current).at
