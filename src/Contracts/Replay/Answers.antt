-- ===== src/Contracts/Replay/Answers.antt =====
-- The answers to a replayed effect intent (contracts/src/effects.ts and
-- supervisor/src/pipeline/kernel/effect-intent.ts).
use openthrottle.Base.{
  ◌≡◌, refl, sym, ap, ◌∙◌, Bool, true, false, Text, ◌==◌, list_eq, nat_eq, list_beq_iff, String,
  Result, ok, err, ◌>>=◌, throw_if, arith, subst, if◌then◌else◌, Ensures, Ensures-ok, Ensures-bind,
}
use openthrottle.Contracts.Effects.{EffectIntent, validate_effect_intent-same}
use openthrottle.Contracts.Replay.{
  Encoder, ValidatedContract, normalized_contract, validated_effect_intent,
  assert_same_idempotent_effect, effect_intent_content_hash, assert_immutable_effect_replay,
}

module _ (encoder : Encoder) (existing replay : EffectIntent) where
  pub data ReplayAnswer : Result (Unit {0}) → Type 0 where
    invalid_existing :
        (message : String)
        → effect_intent_content_hash encoder existing ≡ err message
        → ReplayAnswer (err message)
    invalid_replay :
        (hash : Text) (message : String)
        → effect_intent_content_hash encoder existing ≡ ok hash
        → effect_intent_content_hash encoder replay ≡ err message
        → ReplayAnswer (err message)
    other_key :
        (hash other : Text)
        → effect_intent_content_hash encoder existing ≡ ok hash
        → effect_intent_content_hash encoder replay ≡ ok other
        → (existing.idempotency_key == replay.idempotency_key) ≡ false
        → ReplayAnswer (err "${path}: does not match the existing effect intent")
    conflicting :
        (hash other : Text)
        → effect_intent_content_hash encoder existing ≡ ok hash
        → effect_intent_content_hash encoder replay ≡ ok other
        → existing.idempotency_key ≡ replay.idempotency_key
        → (hash == other) ≡ false
        → ReplayAnswer (err "${path}: conflicts with an existing immutable effect intent")
    replayed :
        (hash : Text)
        → effect_intent_content_hash encoder existing ≡ ok hash
        → effect_intent_content_hash encoder replay ≡ ok hash
        → existing.idempotency_key ≡ replay.idempotency_key
        → ReplayAnswer (ok tt)

  validated-normalized :
      (intent : EffectIntent)
      → Ensures
          (λ c. c ≡ normalized_contract encoder intent)
          (validated_effect_intent encoder intent)
  unfolding validated_effect_intent
  validated-normalized intent = Ensures-bind _ _ λ value e.
      Ensures-ok _
        (ap (normalized_contract encoder) ((validate_effect_intent-same _ intent).at value e))

  content_hash-eq :
      (intent : EffectIntent) (r : Result _)
      → validated_effect_intent encoder intent ≡ r
      → effect_intent_content_hash encoder intent ≡ (r >>= λ v. ok v.digest)
  unfolding effect_intent_content_hash
  content_hash-eq intent r e = ap (λ x. x >>= λ v. ok v.digest) e

  text_refl : (x : Text) → (x == x) ≡ true
  text_refl x = (list_beq_iff x x).1 refl

  -- The comparison of two valid intents: neither is changed.
  same-answer :
      validated_effect_intent encoder existing ≡ ok (normalized_contract encoder existing)
      → validated_effect_intent encoder replay ≡ ok (normalized_contract encoder replay)
      → assert_same_idempotent_effect encoder
          (normalized_contract encoder existing)
          (normalized_contract encoder replay)
        ≡ (if existing.idempotency_key == replay.idempotency_key
            then (if (normalized_contract encoder existing).digest
                  == (normalized_contract encoder replay).digest
                then ok tt
                else err "${path}: conflicts with an existing immutable effect intent")
            else err "${path}: does not match the existing effect intent")
  unfolding assert_same_idempotent_effect ◌>>=◌ throw_if normalized_contract
  same-answer e r = ground (
    arith,
    e,
    r,
    text_refl (normalized_contract encoder existing).digest,
    text_refl (normalized_contract encoder existing).normalized,
    text_refl (normalized_contract encoder replay).digest,
    text_refl (normalized_contract encoder replay).normalized,
  )

  -- The answers to two valid intents.
  valid-ReplayAnswer :
      validated_effect_intent encoder existing ≡ ok (normalized_contract encoder existing)
      → validated_effect_intent encoder replay ≡ ok (normalized_contract encoder replay)
      → (same_key same_hash : Bool)
      → (existing.idempotency_key == replay.idempotency_key) ≡ same_key
      → ((normalized_contract encoder existing).digest
          == (normalized_contract encoder replay).digest)
        ≡ same_hash
      → ReplayAnswer (
          if same_key
          then (if same_hash
              then ok tt
              else err "${path}: conflicts with an existing immutable effect intent")
          else err "${path}: does not match the existing effect intent")
  unfolding ◌>>=◌
  valid-ReplayAnswer e r false _ k h =
      other_key _ _ (content_hash-eq existing _ e) (content_hash-eq replay _ r) k
  valid-ReplayAnswer e r true false k h =
      conflicting _ _ (content_hash-eq existing _ e) (content_hash-eq replay _ r)
        ((list_beq_iff _ _).0 k) h
  valid-ReplayAnswer e r true true k h =
      replayed _ (content_hash-eq existing _ e)
        (content_hash-eq replay _ r ∙ ap ok (sym ((list_beq_iff _ _).0 h))) ((list_beq_iff _ _).0 k)

  -- An answer for whatever the two validations return.
  each-ReplayAnswer :
      (e r : Result (ValidatedContract EffectIntent))
      → validated_effect_intent encoder existing ≡ e
      → validated_effect_intent encoder replay ≡ r
      → ReplayAnswer (e >>= λ a. r >>= λ b. assert_same_idempotent_effect encoder a b)
  unfolding ◌>>=◌
  each-ReplayAnswer (err message) r h0 h1 = invalid_existing message (content_hash-eq existing _ h0)
  each-ReplayAnswer (ok a) (err message) h0 h1 =
      invalid_replay a.digest message (content_hash-eq existing _ h0) (content_hash-eq replay _ h1)
  each-ReplayAnswer (ok a) (ok b) h0 h1 =
      let ea = (validated-normalized existing).at a h0 in
      let eb = (validated-normalized replay).at b h1 in
      let va = h0 ∙ ap ok ea in
      let vb = h1 ∙ ap ok eb in
      subst ReplayAnswer
        (sym (same-answer va vb)
          ∙ ap (λ x. assert_same_idempotent_effect encoder x (normalized_contract encoder replay))
              (sym ea)
          ∙ ap (assert_same_idempotent_effect encoder a) (sym eb))
        (valid-ReplayAnswer va vb _ _ refl refl)

  -- A replayed intent passes exactly where both intents are valid and have one key and one content
  -- hash. Otherwise the answer is the error of the first intent that is invalid, of the keys, or of
  -- the hashes.
  pub assert_immutable_effect_replay-ReplayAnswer :
      ReplayAnswer (assert_immutable_effect_replay encoder existing replay)
  unfolding assert_immutable_effect_replay
  assert_immutable_effect_replay-ReplayAnswer = each-ReplayAnswer _ _ refl refl
