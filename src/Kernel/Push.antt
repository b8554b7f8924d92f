-- ===== src/Kernel/Push.antt =====
-- Evidence of a push of the task's branch (supervisor/src/pipeline/kernel/github-push-delivery.ts),
-- and the records that a next attempt is given (mergeCausalGithubPushContext of
-- successor-attempt.ts).
use openthrottle.Base.{
  ℕ, Bool, true, false, not, ◌&&◌, ◌||◌, Option, none, some, List, [], ◌∷◌, ◌++◌, map, Text, text,
  text_le, Dict, put, ltb, ◌==◌, list_eq, nat_eq, all, filter, length, head?, is_hex, is_none,
  option_to_list, sort, starts_with, Result, ok, ◌>>=◌, ◌>>◌, throw_if, or_throw, if◌then◌else◌,
}
use openthrottle.Contracts.Json.{Json, obj, Fields, member, as_string, is_string, as_object}
use openthrottle.Contracts.Records.{
  RecordPayload, inline, blob, DeliveryRecord, ExecutionRecord, delivery, id_of, as_delivery,
  is_confirmed,
}
pub mod Context

-- An inline payload that is an object.
abbrev pub inline_fields : RecordPayload → Option Fields
inline_fields (inline value) = as_object value
inline_fields (blob b) = none

names_push : Option Fields → Bool
names_push none = false
names_push (some envelope) =
    is_string (member (text "effect_kind") envelope) (text "github/push-checkpoint@1")

-- isGithubPushDelivery
unfoldable pub is_github_push_delivery : ExecutionRecord → Bool
unfolding names_push
is_github_push_delivery (delivery d) =
    d.payload_schema == text "openthrottle.effect-delivery/v1"
    && names_push (inline_fields d.payload)
is_github_push_delivery _ = false

pub data RefMode : Type 0 where
  create update : RefMode

pub record ConfirmedGithubPushDelivery : Type 0 where
  pub evidence : DeliveryRecord
  pub repository : Text
  pub ref : Text
  pub sha : Text
  pub ref_mode : RefMode

abbrev ref_mode_of : Option Text → Option RefMode
ref_mode_of none = none
ref_mode_of (some s) =
    if s == text "create" then some create else if s == text "update" then some update else none

abbrev object_of : Option Json → Option Fields
object_of none = none
object_of (some v) = as_object v

-- parseConfirmedGithubPushDelivery
unfoldable pub parse_confirmed_github_push_delivery :
    Text → ExecutionRecord → Result ConfirmedGithubPushDelivery
unfolding is_github_push_delivery
parse_confirmed_github_push_delivery run_id r = do
  throw_if (not (is_github_push_delivery r)) "${input.label} is not task-ref push evidence"
  d ← or_throw (as_delivery r) "${input.label} is not task-ref push evidence"
  envelope ← or_throw (inline_fields d.payload) "${input.label} is not task-ref push evidence"
  throw_if
      (not (d.pipeline_run_id == run_id)
        || not (is_confirmed d.status)
        || not (is_string (member (text "provider") envelope) (text "github")))
      "${input.label} contains invalid task-ref push evidence"
  value ←
      or_throw (object_of (member (text "result") envelope))
        "${input.label} contains invalid task-ref push evidence"
  throw_if
      (not (is_string (member (text "schema") value) (text "openthrottle.github-push-delivery/v1")))
      "${input.label} contains invalid task-ref push evidence"
  repository ←
      or_throw (as_string (member (text "repository") value))
        "${input.label} contains invalid task-ref push evidence"
  ref ←
      or_throw (as_string (member (text "ref") value))
        "${input.label} contains invalid task-ref push evidence"
  throw_if (not (starts_with ref (text "refs/heads/ot/")))
      "${input.label} contains invalid task-ref push evidence"
  sha ←
      or_throw (as_string (member (text "sha") value))
        "${input.label} contains invalid task-ref push evidence"
  throw_if (not (all is_hex sha && length sha == 40))
      "${input.label} contains invalid task-ref push evidence"
  ref_mode ←
      or_throw (ref_mode_of (as_string (member (text "ref_mode") value)))
        "${input.label} contains invalid task-ref push evidence"
  throw_if (not (d.external_identity == text "github:" ++ repository ++ text ":" ++ ref))
      "${input.label} contains invalid task-ref push evidence"
  ok (record { evidence = d; repository = repository; ref = ref; sha = sha; ref_mode = ref_mode })

-- `new Map(records.map((record) => [record.id, record]))`, added to a map
unfoldable pub put_all : List ExecutionRecord → Dict ExecutionRecord → Dict ExecutionRecord
put_all [] d = d
put_all (r ∷ records) d = put_all records (put (id_of r) r d)

unfoldable pub values_of : Dict ExecutionRecord → List ExecutionRecord
values_of [] = []
values_of ((id, r) ∷ d) = r ∷ values_of d

-- `[...new Map(…).values()]`
unfoldable pub last_by_id : List ExecutionRecord → List ExecutionRecord
unfolding put_all values_of
last_by_id records = values_of (put_all records [])

unfoldable pub parse_first :
    Text → Option ExecutionRecord → Result (Option ConfirmedGithubPushDelivery)
unfolding parse_confirmed_github_push_delivery
parse_first run_id none = ok none
parse_first run_id (some r) = parse_confirmed_github_push_delivery run_id r >>= λ p. ok (some p)

-- exactConfirmedGithubPushDelivery
unfoldable pub exact_confirmed_github_push_delivery :
    Text → List ExecutionRecord → Result (Option ConfirmedGithubPushDelivery)
unfolding last_by_id parse_first
exact_confirmed_github_push_delivery run_id records = do
  let pushes = last_by_id (filter is_github_push_delivery records)
  throw_if (ltb 1 (length pushes)) "${input.label} contains multiple task-ref push deliveries"
  parse_first run_id (head? pushes)

abbrev confirmed_delivery : Option DeliveryRecord → Bool
confirmed_delivery none = false
confirmed_delivery (some d) = is_confirmed d.status

-- `isGithubPushDelivery(record) && record.status === "confirmed"`
unfoldable pub is_confirmed_push : ExecutionRecord → Bool
unfolding is_github_push_delivery
is_confirmed_push r = is_github_push_delivery r && confirmed_delivery (as_delivery r)

abbrev pub chosen :
    Option ConfirmedGithubPushDelivery → Option ConfirmedGithubPushDelivery → List ExecutionRecord
chosen (some p) inherited = delivery p.evidence ∷ []
chosen none (some p) = delivery p.evidence ∷ []
chosen none none = []

-- mergeCausalGithubPushContext
unfoldable pub merge_causal_github_push_context :
    Text
    → List ExecutionRecord
    → List ExecutionRecord
    → List ExecutionRecord
    → Result (List ExecutionRecord)
unfolding exact_confirmed_github_push_delivery is_confirmed_push
merge_causal_github_push_context run_id base_records inherited_records additional_records = do
  override ←
      exact_confirmed_github_push_delivery run_id (filter is_confirmed_push additional_records)
  inherited ←
      (if is_none override
        then exact_confirmed_github_push_delivery run_id
            (filter is_confirmed_push inherited_records)
        else ok none)
  let others =
      λ (records : List ExecutionRecord). filter (λ r. not (is_github_push_delivery r)) records
  let selected = chosen override inherited
  ok (
      sort (λ (a b : ExecutionRecord). text_le (id_of a) (id_of b))
        (last_by_id (others base_records ++ others additional_records ++ selected)))
