-- ===== src/Kernel/Resource.antt =====
-- Sandbox evidence in delivery records (supervisor/src/pipeline/kernel/runtime-resource.ts).
use openthrottle.Base.{
  ℕ, ◌%◌, Bool, true, false, not, ◌&&◌, ◌||◌, Option, none, some, List, [], ◌∷◌, ◌++◌, map, Text,
  text, text_le, Dict, lookup, put, sorted_record, ◌==◌, nat_eq, list_eq, option_eq, is_empty,
  is_some, is_none, length, ltb, get_or, filter, any, flat_map, has_duplicates, sort, Result, ok,
  err, ◌>>=◌, ◌>>◌, throw_if, or_throw, if◌then◌else◌,
}
use openthrottle.Contracts.Json.{Json, Fields, member, as_object, as_string, is_string}
use openthrottle.Contracts.Formats.{is_digest}
use openthrottle.Contracts.Records.{ExecutionRecord, delivery, DeliveryRecord, is_confirmed}
use openthrottle.Kernel.Types.{AttemptScope, ScopeKind}
use openthrottle.Kernel.Recovery.{inline_object}

abbrev pub max_kernel_runtime_pool_size : ℕ
max_kernel_runtime_pool_size = 16

pub data ResourceEffect : Type 0 where
  create_sandbox start_sandbox : ResourceEffect

abbrev pub is_create : ResourceEffect → Bool
is_create create_sandbox = true
is_create start_sandbox = false

-- DaytonaResourceEvidence: a record and its observation.
pub record DaytonaResourceEvidence : Type 0 where
  pub evidence : DeliveryRecord
  pub effect_kind : ResourceEffect
  pub runtime_identity : Text
  pub sandbox_id : Option Text
  pub resource_state : Option Text

resource_effect : Option Json → Option ResourceEffect
resource_effect kind =
    if is_string kind (text "daytona/create-sandbox@1")
    then some create_sandbox
    else if is_string kind (text "daytona/start-sandbox@1")
    then some start_sandbox
    else none

digest_or_none : Option Text → Option Text
digest_or_none none = none
digest_or_none (some s) = if is_digest s then some s else none

non_empty_or_none : Option Text → Option Text
non_empty_or_none none = none
non_empty_or_none (some s) = if is_empty s then none else some s

result_object : Option Json → Option Fields
result_object none = none
result_object (some v) = as_object v

-- The rest of daytonaObservation, for a payload of one of the two effect kinds.
observe : DeliveryRecord → Fields → ResourceEffect → Result DaytonaResourceEvidence
unfolding digest_or_none non_empty_or_none result_object
observe d payload kind = do
  throw_if (not (is_string (member (text "provider") payload) (text "daytona")))
      "runtime resource DeliveryRecord ${record.id} has another provider"
  fields ←
      or_throw (result_object (member (text "result") payload))
        "runtime resource DeliveryRecord ${record.id} has no result object"
  identity ←
      or_throw (digest_or_none (as_string (member (text "identity") fields)))
        "runtime resource DeliveryRecord ${record.id} has no runtime identity"
  let sandbox_id = non_empty_or_none (as_string (member (text "sandbox_id") fields))
  throw_if (is_confirmed d.status && is_none sandbox_id)
      "runtime resource DeliveryRecord ${record.id} has no sandbox identity"
  ok (record {
    evidence = d;
    effect_kind = kind;
    runtime_identity = identity;
    sandbox_id = sandbox_id;
    resource_state = as_string (member (text "resource_state") fields);
  })

observe_kind :
    DeliveryRecord → Fields → Option ResourceEffect → Result (Option DaytonaResourceEvidence)
unfolding observe
observe_kind d payload none = ok none
observe_kind d payload (some kind) = observe d payload kind >>= λ e. ok (some e)

observe_payload : DeliveryRecord → Option Fields → Result (Option DaytonaResourceEvidence)
unfolding observe_kind resource_effect
observe_payload d none = ok none
observe_payload d (some payload) =
    observe_kind d payload (resource_effect (member (text "effect_kind") payload))

-- daytonaObservation
unfoldable pub daytona_observation : DeliveryRecord → Result (Option DaytonaResourceEvidence)
unfolding observe_payload
daytona_observation d =
    if d.payload_schema == text "openthrottle.effect-delivery/v1"
    then observe_payload d (inline_object d.payload)
    else ok none

cons_evidence :
    Option DaytonaResourceEvidence → List DaytonaResourceEvidence → List DaytonaResourceEvidence
cons_evidence none es = es
cons_evidence (some e) es = e ∷ es

-- runtimeEvidence
unfoldable pub runtime_evidence : List ExecutionRecord → Result (List DaytonaResourceEvidence)
unfolding cons_evidence
runtime_evidence [] = ok []
runtime_evidence (delivery d ∷ rs) = do
  observed ← daytona_observation d
  rest ← runtime_evidence rs
  ok (cons_evidence observed rest)
runtime_evidence (_ ∷ rs) = runtime_evidence rs

-- The loop that groups the evidence by its runtime identity.
unfoldable pub group_from :
    Dict (List DaytonaResourceEvidence)
    → List DaytonaResourceEvidence
    → Dict (List DaytonaResourceEvidence)
group_from grouped [] = grouped
group_from grouped (e ∷ es) =
    group_from
      (put e.runtime_identity (get_or (lookup e.runtime_identity grouped) [] ++ e ∷ []) grouped) es

-- evidenceByRuntimeIdentity
unfoldable pub evidence_by_runtime_identity :
    List ExecutionRecord → Result (Option (Dict (List DaytonaResourceEvidence)))
unfolding group_from
evidence_by_runtime_identity records = do
  evidence ← runtime_evidence records
  ok (if is_empty evidence then none else some (sorted_record (group_from [] evidence)))

pub record KernelRuntimeCleanupTarget : Type 0 where
  pub runtime_identity : Text
  pub provider_resource_id : Text
  pub delivery_records : List DeliveryRecord

unfoldable pub creates_of : List DaytonaResourceEvidence → List DaytonaResourceEvidence
creates_of entries = filter (λ (e : DaytonaResourceEvidence). is_create e.effect_kind) entries

unfoldable pub starts_of : List DaytonaResourceEvidence → List DaytonaResourceEvidence
starts_of entries = filter (λ (e : DaytonaResourceEvidence). not (is_create e.effect_kind)) entries

-- `startId !== null && startId !== undefined && startId !== sandboxId`
other_sandbox : List DaytonaResourceEvidence → Option Text → Bool
other_sandbox [] sandbox_id = false
other_sandbox (s ∷ _) sandbox_id = is_some s.sandbox_id && not (s.sandbox_id == sandbox_id)

-- One round of the loop of exactKernelRuntimeCleanupTargets, by the group's creates: `none` is its
-- `continue`. A confirmed create has a sandbox, so the default of `get_or` is not met.
cleanup_target :
    Text
    → List DaytonaResourceEvidence
    → List DaytonaResourceEvidence
    → Result (Option KernelRuntimeCleanupTarget)
unfolding other_sandbox
cleanup_target identity (c ∷ []) starts =
    throw_if (ltb 1 (length starts))
      "sealed Attempt context must contain exactly one confirmed Daytona create delivery per runtime identity"
    >> (if not (is_confirmed c.evidence.status)
        then (throw_if (not (is_empty starts))
              "Daytona start delivery has no confirmed create authority"
            >> ok none)
        else (throw_if (other_sandbox starts c.sandbox_id)
              "Daytona create/start deliveries identify different sandboxes"
            >> ok (
                some (record {
                  runtime_identity = identity;
                  provider_resource_id = get_or c.sandbox_id [];
                  delivery_records =
                      c.evidence ∷ map (λ (e : DaytonaResourceEvidence). e.evidence) starts;
                }))))
cleanup_target identity _ starts =
    err
      "sealed Attempt context must contain exactly one confirmed Daytona create delivery per runtime identity"

cons_target :
    Option KernelRuntimeCleanupTarget
    → List KernelRuntimeCleanupTarget
    → List KernelRuntimeCleanupTarget
cons_target none ts = ts
cons_target (some t) ts = t ∷ ts

cleanup_targets : Dict (List DaytonaResourceEvidence) → Result (List KernelRuntimeCleanupTarget)
unfolding cleanup_target cons_target
cleanup_targets [] = ok []
cleanup_targets ((identity, entries) ∷ groups) = do
  target ← cleanup_target identity (creates_of entries) (starts_of entries)
  rest ← cleanup_targets groups
  ok (cons_target target rest)

grouped_targets :
    Option (Dict (List DaytonaResourceEvidence)) → Result (Option (List KernelRuntimeCleanupTarget))
unfolding cleanup_targets
grouped_targets none = ok none
grouped_targets (some grouped) = do
  throw_if (ltb max_kernel_runtime_pool_size (length grouped))
      "runtime cleanup target pool exceeds ${MAX_KERNEL_RUNTIME_POOL_SIZE} slots"
  targets ← cleanup_targets grouped
  throw_if
      (has_duplicates (map (λ (t : KernelRuntimeCleanupTarget). t.provider_resource_id) targets))
      "Daytona runtime cleanup assigns one sandbox to multiple targets"
  ok (if is_empty targets then none else some targets)

-- exactKernelRuntimeCleanupTargets
unfoldable pub exact_kernel_runtime_cleanup_targets :
    List ExecutionRecord → Result (Option (List KernelRuntimeCleanupTarget))
unfolding grouped_targets
exact_kernel_runtime_cleanup_targets records = do
  grouped ← evidence_by_runtime_identity records
  grouped_targets grouped

deliveries_of : Option (List KernelRuntimeCleanupTarget) → Option (List DeliveryRecord)
deliveries_of none = none
deliveries_of (some targets) =
    some (flat_map (λ (t : KernelRuntimeCleanupTarget). t.delivery_records) targets)

-- exactKernelRuntimeCleanupDeliveries
unfoldable pub exact_kernel_runtime_cleanup_deliveries :
    List ExecutionRecord → Result (Option (List DeliveryRecord))
unfolding deliveries_of
exact_kernel_runtime_cleanup_deliveries records = do
  targets ← exact_kernel_runtime_cleanup_targets records
  ok (deliveries_of targets)

is_absent : DaytonaResourceEvidence → Bool
is_absent e = not (is_confirmed e.evidence.status) && e.resource_state == some (text "absent")

grouped_absence :
    Option (Dict (List DaytonaResourceEvidence)) → Result (Option (List DeliveryRecord))
unfolding is_absent
grouped_absence none = ok none
grouped_absence (some grouped) =
    let creates = flat_map (λ g. creates_of g.1) grouped in
    let starts = flat_map (λ g. starts_of g.1) grouped in
    throw_if (is_empty creates) "Daytona absence proof has no create delivery"
    >> (if any (λ (e : DaytonaResourceEvidence). is_confirmed e.evidence.status) creates
        then ok none
        else (throw_if (not (is_empty starts) || not (length creates == length grouped))
              "Daytona absence proof has duplicate or dependent runtime evidence"
            >> throw_if (any (λ e. not (is_absent e)) creates)
                "Daytona absence requires rejected create deliveries with resource_state absent"
            >> ok (
                some (
                  map (λ (e : DaytonaResourceEvidence). e.evidence)
                    (sort
                      (λ (a b : DaytonaResourceEvidence).
                        text_le a.runtime_identity b.runtime_identity)
                      creates)))))

-- exactKernelRuntimeAbsenceDeliveries
unfoldable pub exact_kernel_runtime_absence_deliveries :
    List ExecutionRecord → Result (Option (List DeliveryRecord))
unfolding grouped_absence
exact_kernel_runtime_absence_deliveries records = do
  grouped ← evidence_by_runtime_identity records
  grouped_absence grouped

unfoldable pub member_index : ScopeKind → Option ℕ
member_index ScopeKind.stage = none
member_index (ScopeKind.loop_item s) = some s.index
member_index (ScopeKind.fanout_member s) = some s.index

unfoldable pub slot_index : Option ℕ → ℕ → Result ℕ
slot_index none pool_size = ok 0
slot_index (some index) pool_size = do
  throw_if (ltb 9007199254740991 index) "runtime resource scope has an invalid member index"
  ok (index % pool_size)

-- kernelRuntimeResourceSlotIndex
unfoldable pub kernel_runtime_resource_slot_index : AttemptScope → ℕ → Result ℕ
unfolding member_index slot_index
kernel_runtime_resource_slot_index scope pool_size = do
  throw_if (ltb pool_size 1 || ltb max_kernel_runtime_pool_size pool_size)
      "runtime resource pool size is outside its sealed bound"
  slot_index (member_index scope.kind) pool_size
