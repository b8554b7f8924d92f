-- ===== src/Contracts/Effects.antt =====
-- Effect intents and their validation (contracts/src/effects.ts).
use openthrottle.Base.{
  ◌≡◌, refl, Ensures, Ensures-ok, Ensures-bind, Ensures-throw_if, ℕ, ◌*◌, Bool, true, not, Option,
  none, some, Text, ltb, length, is_empty, Result, ok, ◌>>◌, throw_if,
}
use openthrottle.Contracts.Json.{Json, check_json}
use openthrottle.Contracts.Formats.{is_context_id, is_effect_kind, is_git_subject}

pub record EffectIntent : Type 0 where
  pub id : Text
  pub pipeline_run_id : Text
  pub decision_record_id : Text
  pub kind : Text
  pub idempotency_key : Text
  pub target : Text
  pub subject : Option Text
  pub payload : Json

-- stringAt: not empty, at most `max` code units, and of the given format
check_string : ℕ → (Text → Bool) → Text → Result (Unit {0})
check_string max pattern value =
    throw_if (is_empty value) "${path}: must be a non-empty string"
    >> throw_if (ltb max (length value)) "${path}: must be at most ${max} characters"
    >> throw_if (not (pattern value)) "${path}: has an invalid format"

check_nullable : (Text → Result (Unit {0})) → Option Text → Result (Unit {0})
check_nullable check none = ok tt
check_nullable check (some value) = check value

abbrev anything : Text → Bool
anything value = true

-- validateEffectIntent. `canonical_bytes` is `Buffer.byteLength(canonicalJson(payload), "utf8")`.
unfoldable pub validate_effect_intent : (Json → ℕ) → EffectIntent → Result EffectIntent
unfolding check_string check_nullable
validate_effect_intent canonical_bytes intent = do
  check_json 0 intent.payload
  throw_if (ltb (64 * 1024) (canonical_bytes intent.payload))
      "${source}.payload: must be at most ${EFFECT_INTENT_PAYLOAD_MAX_BYTES} canonical JSON bytes"
  check_string 200 is_context_id intent.id
  check_string 200 is_context_id intent.pipeline_run_id
  check_string 200 is_context_id intent.decision_record_id
  check_string 200 is_effect_kind intent.kind
  check_string 500 anything intent.idempotency_key
  check_string 1000 anything intent.target
  check_nullable (check_string 512 is_git_subject) intent.subject
  ok intent

-- A valid intent is returned as it was given.
pub validate_effect_intent-same :
    (bytes : Json → ℕ) (intent : EffectIntent)
    → Ensures (λ valid. valid ≡ intent) (validate_effect_intent bytes intent)
unfolding validate_effect_intent
validate_effect_intent-same bytes intent = Ensures-bind _ _ λ _ _. Ensures-throw_if _ _ _ λ _.
    Ensures-bind _ _ λ _ _. Ensures-bind _ _ λ _ _. Ensures-bind _ _ λ _ _. Ensures-bind _ _ λ _ _.
      Ensures-bind _ _ λ _ _. Ensures-bind _ _ λ _ _. Ensures-bind _ _ λ _ _. Ensures-ok _ refl
