-- ===== src/Kernel/Recovery.antt =====
-- Evidence of sandbox-fatal recoveries (supervisor/src/pipeline/kernel/sandbox-recovery.ts).
use openthrottle.Base.{
  Bool, false, not, ◌&&◌, ◌||◌, Option, none, some, List, [], ◌∷◌, map, Text, text, text_le,
  starts_with, ◌==◌, nat_eq, list_eq, option_eq, is_empty, length, ltb, drop, filter_map, head?,
  has_duplicates, sort, sort_texts, sorted_unique, Result, ok, ◌>>=◌, ◌>>◌, throw_if, or_throw,
  if◌then◌else◌,
}
use openthrottle.Contracts.Json.{
  Json, arr, obj, Items, nil, cons, Fields, member, member_names, as_object, as_string, is_string,
}
use openthrottle.Contracts.Records.{
  ExecutionRecord, decision, delivery, DecisionRecord, DeliveryRecord, RecordPayload, inline,
  is_confirmed,
}
use openthrottle.Kernel.Types.{Platform}

pub record SandboxRecoveryFrontierMember : Type 0 where
  pub attempt_id : Text
  pub depends_on : List Text
  pub stage_id : Text
  pub evidence : DecisionRecord

unfoldable pub fatal_recovery_prefix : Text
fatal_recovery_prefix = text "core/sandbox-fatal-recovery@1:"

unfoldable pub fatal_frontier_prefix : Text
fatal_frontier_prefix = text "core/sandbox-fatal-frontier@1:"

unfoldable pub decision_payload_schema : Text
decision_payload_schema = text "openthrottle.pipeline-decision-record/v1"

-- `"inline" in payload`, and the value an object
abbrev pub inline_object : RecordPayload → Option Fields
inline_object (inline v) = as_object v
inline_object _ = none

evaluator_suffix : Option Text → Option Text
evaluator_suffix none = none
evaluator_suffix (some e) =
    if starts_with e fatal_recovery_prefix && ltb (length fatal_recovery_prefix) (length e)
    then some (drop (length fatal_recovery_prefix) e)
    else none

recovery_payload : Option Fields → Option Text
unfolding evaluator_suffix
recovery_payload none = none
recovery_payload (some fs) = evaluator_suffix (as_string (member (text "evaluator") fs))

-- sandboxRecoveryAttemptId
unfoldable pub sandbox_recovery_attempt_id : ExecutionRecord → Option Text
unfolding recovery_payload
sandbox_recovery_attempt_id (decision d) =
    if d.payload_schema == decision_payload_schema
    then recovery_payload (inline_object d.payload)
    else none
sandbox_recovery_attempt_id _ = none

reason_is_absent : Option Text → Bool
reason_is_absent none = false
reason_is_absent (some reason) = starts_with reason (text "sandbox_fatal_absent:")

absence_result : DeliveryRecord → Option Json → Bool
unfolding reason_is_absent
absence_result d (some (obj evidence)) =
    is_string (member (text "schema") evidence)
      (text "openthrottle.daytona-integration-delivery/v1")
    && is_string (member (text "state") evidence) (text "retryable_failure")
    && is_string (member (text "pipeline_run_id") evidence) d.pipeline_run_id
    && is_string (member (text "effect_id") evidence) d.effect_id
    && is_string (member (text "idempotency_key") evidence) d.idempotency_key
    && reason_is_absent (as_string (member (text "reason") evidence))
absence_result d _ = false

absence_envelope : DeliveryRecord → Option Fields → Bool
unfolding absence_result
absence_envelope d none = false
absence_envelope d (some envelope) =
    is_string (member (text "effect_kind") envelope) (text "daytona/integrate-checkpoint@1")
    && is_string (member (text "provider") envelope) (text "daytona")
    && (is_string (member (text "observed_via") envelope) (text "reconciliation")
        || is_string (member (text "observed_via") envelope) (text "post_dispatch_reconciliation"))
    && absence_result d (member (text "result") envelope)

fatal_absence : ExecutionRecord → Option DeliveryRecord
unfolding absence_envelope
fatal_absence (delivery d) =
    if not (is_confirmed d.status)
      && d.payload_schema == text "openthrottle.effect-delivery/v1"
      && absence_envelope d (inline_object d.payload)
    then some d
    else none
fatal_absence _ = none

-- exactSandboxFatalAbsenceDelivery
unfoldable pub exact_sandbox_fatal_absence_delivery :
    List ExecutionRecord → Result (Option DeliveryRecord)
unfolding fatal_absence
exact_sandbox_fatal_absence_delivery records = do
  let matches = filter_map fatal_absence records
  throw_if (ltb 1 (length matches)) "Attempt contains multiple sandbox-fatal absence deliveries"
  ok (head? matches)

-- The strings of `detail.depends_on`, `none` if it is no array of strings.
cons_option : Option Text → Option (List Text) → Option (List Text)
cons_option (some s) (some rest) = some (s ∷ rest)
cons_option _ _ = none

strings : Items → Option (List Text)
unfolding cons_option
strings nil = some []
strings (cons v vs) = cons_option (as_string (some v)) (strings vs)

string_array : Option Json → Option (List Text)
unfolding strings
string_array (some (arr vs)) = strings vs
string_array _ = none

-- The tests on the parsed reason, and its dependencies.
recovery_dependencies : Option Json → Result (List Text)
unfolding string_array
recovery_dependencies parsed = do
  value ← or_throw parsed "sandbox recovery frontier record has invalid dependency evidence"
  detail ←
      or_throw (as_object value) "sandbox recovery frontier record has invalid dependency evidence"
  throw_if
      (not (sort_texts (member_names detail) == text "depends_on" ∷ text "schema" ∷ [])
        || not (
            is_string (member (text "schema") detail)
              (text "openthrottle.sandbox-recovery-frontier-member/v1")))
      "sandbox recovery frontier record has invalid dependency evidence"
  depends_on ←
      or_throw (string_array (member (text "depends_on") detail))
        "sandbox recovery frontier record has invalid dependency evidence"
  throw_if (not (sorted_unique depends_on == depends_on))
      "sandbox recovery frontier dependencies are not canonical"
  ok depends_on

module _ (platform : Platform) where
  recovery_member : DecisionRecord → Text → Result SandboxRecoveryFrontierMember
  unfolding recovery_dependencies
  recovery_member d attempt_id = do
    payload ← or_throw (inline_object d.payload) "sandbox recovery frontier record is malformed"
    throw_if (is_empty attempt_id || not (d.payload_schema == decision_payload_schema))
        "sandbox recovery frontier record is malformed"
    reason ←
        or_throw (as_string (member (text "reason") payload))
          "sandbox recovery frontier record changed its recovery classification"
    stage_id ←
        or_throw (as_string (member (text "stage_id") payload))
          "sandbox recovery frontier record changed its recovery classification"
    throw_if
        (not (
            sort_texts (member_names payload)
            == text "evaluator"
              ∷ text "outcome"
              ∷ text "reason"
              ∷ text "schema"
              ∷ text "stage_id"
              ∷ [])
          || not (is_string (member (text "schema") payload) decision_payload_schema)
          || not (is_string (member (text "evaluator") payload) d.reducer)
          || not (
              is_string (member (text "outcome") payload) (text "retryable_infrastructure_failure"))
          || not (is_empty d.input_record_ids))
        "sandbox recovery frontier record changed its recovery classification"
    depends_on ← recovery_dependencies (platform.parse_json reason)
    ok (record {
      attempt_id = attempt_id;
      depends_on = depends_on;
      stage_id = stage_id;
      evidence = d;
    })

  -- sandboxRecoveryFrontierMember, in front of the members of the records behind it
  member_and :
      ExecutionRecord
      → Result (List SandboxRecoveryFrontierMember)
      → Result (List SandboxRecoveryFrontierMember)
  unfolding recovery_member
  member_and (decision d) rest =
      if starts_with d.reducer fatal_frontier_prefix
      then (recovery_member d (drop (length fatal_frontier_prefix) d.reducer) >>= λ m.
          rest >>= λ ms. ok (m ∷ ms))
      else rest
  member_and _ rest = rest

  recovery_members : List ExecutionRecord → Result (List SandboxRecoveryFrontierMember)
  unfolding member_and
  recovery_members [] = ok []
  recovery_members (r ∷ rs) = member_and r (recovery_members rs)

  -- exactSandboxRecoveryFrontier
  unfoldable pub exact_sandbox_recovery_frontier :
      List ExecutionRecord → Result (List SandboxRecoveryFrontierMember)
  unfolding recovery_members
  exact_sandbox_recovery_frontier records = do
    members ← recovery_members records
    throw_if (has_duplicates (map (λ (m : SandboxRecoveryFrontierMember). m.attempt_id) members))
        "sandbox recovery frontier contains duplicate Attempt identities"
    ok (sort (λ (a b : SandboxRecoveryFrontierMember). text_le a.attempt_id b.attempt_id) members)
