-- ===== src/Contracts/Replay.antt =====
-- The replay of effect intents: normalizedContract (contracts/src/validation.ts),
-- assertSameIdempotentEffect (contracts/src/effects.ts), and effectIntentContentHash with
-- assertImmutableEffectReplay (supervisor/src/pipeline/kernel/effect-intent.ts).
use openthrottle.Base.{
  Bool, not, ◌||◌, Option, none, some, Text, text, ◌==◌, list_eq, nat_eq, Result, ok, err, ◌>>=◌,
  ◌>>◌, throw_if, utf8_bytes,
}
use openthrottle.Contracts.Json.{Json, null, str, obj, field, end}
use openthrottle.Contracts.Effects.{EffectIntent, validate_effect_intent}
pub mod Answers

pub record ValidatedContract {ℓ} (A : Type ℓ) : Type ℓ where
  pub value : A
  pub normalized : Text
  pub digest : Text

-- canonicalJson and digestNormalized, the SHA-256 of a text
pub record Encoder : Type 0 where
  pub canonical_json : Json → Text
  pub digest_normalized : Text → Text

-- A validated intent as JSON; `null` for no subject.
abbrev pub subject_json : Option Text → Json
subject_json none = null
subject_json (some subject) = str subject

unfoldable pub intent_json : EffectIntent → Json
intent_json intent = obj (
    field (text "schema") (str (text "openthrottle.effect-intent/v1")) (
      field (text "id") (str intent.id) (
        field (text "pipeline_run_id") (str intent.pipeline_run_id) (
          field (text "decision_record_id") (str intent.decision_record_id) (
            field (text "kind") (str intent.kind) (
              field (text "idempotency_key") (str intent.idempotency_key) (
                field (text "target") (str intent.target) (
                  field (text "subject") (subject_json intent.subject)
                    (field (text "payload") intent.payload end)))))))))

module _ (encoder : Encoder) where
  -- normalizedContract, for effect intents
  unfoldable pub normalized_contract : EffectIntent → ValidatedContract EffectIntent
  unfolding intent_json
  normalized_contract intent =
      let printed = encoder.canonical_json (intent_json intent) in
      record { value = intent; normalized = printed; digest = encoder.digest_normalized printed }

  -- validateEffectIntent, with what it returns beside the value
  unfoldable pub validated_effect_intent : EffectIntent → Result (ValidatedContract EffectIntent)
  unfolding normalized_contract
  validated_effect_intent intent = do
    value ← validate_effect_intent (λ json. utf8_bytes (encoder.canonical_json json)) intent
    ok (normalized_contract value)

  -- assertSameIdempotentEffect
  unfoldable pub assert_same_idempotent_effect :
      ValidatedContract EffectIntent → ValidatedContract EffectIntent → Result (Unit {0})
  unfolding validated_effect_intent
  assert_same_idempotent_effect existing replay = do
    throw_if (not (existing.value.idempotency_key == replay.value.idempotency_key))
        "${path}: does not match the existing effect intent"
    existing_current ← validated_effect_intent existing.value
    replay_current ← validated_effect_intent replay.value
    throw_if
        (not (existing.digest == existing_current.digest)
          || not (existing.normalized == existing_current.normalized)
          || not (replay.digest == replay_current.digest)
          || not (replay.normalized == replay_current.normalized))
        "${path}: references a mutated effect intent"
    throw_if (not (existing_current.digest == replay_current.digest))
        "${path}: conflicts with an existing immutable effect intent"

  -- effectIntentContentHash
  unfoldable pub effect_intent_content_hash : EffectIntent → Result Text
  unfolding validated_effect_intent
  effect_intent_content_hash intent = do
    validated ← validated_effect_intent intent
    ok validated.digest

  -- assertImmutableEffectReplay
  unfoldable pub assert_immutable_effect_replay : EffectIntent → EffectIntent → Result (Unit {0})
  unfolding validated_effect_intent assert_same_idempotent_effect
  assert_immutable_effect_replay existing replay = do
    e ← validated_effect_intent existing
    r ← validated_effect_intent replay
    assert_same_idempotent_effect e r
