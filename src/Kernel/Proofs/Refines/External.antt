-- ===== src/Kernel/Proofs/Refines/External.antt =====
-- `schedule_external` and `advance_external_subject` against the relation of steps
-- (supervisor/src/pipeline/kernel/reducer.ts).
use openthrottle.Base.{
  ◌≡◌, refl, ap, ◌∙◌, Bool, true, false, Text, some, List, [], ◌∷◌, text_le, sort, ok, lookup,
  if◌then◌else◌, map_each, list_eq, nat_eq, Ensures, Ensures-ok, Ensures-bind, Ensures-throw_if,
}
use openthrottle.Contracts.Effects.{EffectIntent, validate_effect_intent-same}
use openthrottle.Contracts.Records.{AttemptCheckpoint, DecisionRecord}
use openthrottle.Kernel.Types.{
  schedule_external, advance_external_subject, KernelAttempt, ReducerInput, Platform,
  ScheduleExternal, AdvanceExternalSubject,
}
use openthrottle.Kernel.Evidence.{authorize_effect_intent}
use openthrottle.Kernel.Reducer.Attempt.{with_checkpoint}
use openthrottle.Kernel.Support.{current_attempt}
use openthrottle.Kernel.Reducer.Bundle.{BaseContentInput, rewrites, replace_attempt}
use openthrottle.Kernel.Reducer.External.{
  schedule_effects, advance_subject, authorize_effects, scheduled, advanced, promoted,
}
use openthrottle.Kernel.Proofs.Does.{Does, Performs, Rewrites, GoesOn, Owns}
use openthrottle.Kernel.Proofs.Emits.{
  Emits, Emits-base_content, Emits-bind, Emits-throw_if, Emits-or_throw,
}
use openthrottle.Kernel.Proofs.Step.{schedules, advances}
use openthrottle.Kernel.Proofs.Refines.Attempt.{exact_checkpoint-eq-ok}
use openthrottle.Kernel.Proofs.Refines.Session.{current_attempt-eq-ok, rewritten, goes_on}

module _ (platform : Platform) (d : DecisionRecord) (run_id : Text) where
  authorize_effect_intent-same :
      (intent : EffectIntent)
      → Ensures (λ e. e ≡ intent) (authorize_effect_intent platform d run_id intent)
  unfolding authorize_effect_intent
  authorize_effect_intent-same intent = Ensures-bind _ _ λ v valid. Ensures-throw_if _ _ _ λ _.
      Ensures-throw_if _ _ _ λ _.
        Ensures-throw_if _ _ _ λ _.
          Ensures-ok v ((validate_effect_intent-same platform.canonical_bytes intent).at v valid)

  map_each-same :
      (intents : List EffectIntent)
      → Ensures (λ es. es ≡ intents) (map_each (authorize_effect_intent platform d run_id) intents)
  unfolding map_each
  map_each-same [] = Ensures-ok [] refl
  map_each-same (x ∷ xs) = Ensures-bind _ _ λ y ey. Ensures-bind _ _ λ ys eys. Ensures-ok (y ∷ ys) (
      ap (λ z. z ∷ ys) ((authorize_effect_intent-same x).at y ey)
      ∙ ap (λ zs. x ∷ zs) ((map_each-same xs).at ys eys))

  -- The effects that are authorized are those given, in the order of their identities.
  pub authorize_effects-sort :
      (intents : List EffectIntent)
      → Ensures
          (λ es. es ≡ sort (λ (x y : EffectIntent). text_le x.id y.id) intents)
          (authorize_effects platform d run_id intents)
  unfolding authorize_effects
  authorize_effects-sort intents = Ensures-bind _ _ λ es same.
      Ensures-ok _
        (ap (sort (λ (x y : EffectIntent). text_le x.id y.id)) ((map_each-same intents).at es same))

-- The run of an advance, in both cases of its subject.
module _ (input : ReducerInput) (a : KernelAttempt) (c : AdvanceExternalSubject)
    (p : AttemptCheckpoint) where
  abbrev advance_content : Bool → BaseContentInput
  advance_content publication =
      record (rewrites input a
        (with_checkpoint input.run
          (promoted publication (replace_attempt input.run (advanced a c p.id))
            c.verified_output_subject)
          a.id p.id)
        (advanced a c p.id)) { append_checkpoints = p ∷ [] }

  advance-GoesOn : (publication : Bool) → GoesOn input a (advance_content publication)
  unfolding advanced replace_attempt with_checkpoint promoted
  advance-GoesOn true = goes_on input a (advanced a c p.id) _ refl refl refl refl
  advance-GoesOn false = goes_on input a (advanced a c p.id) _ refl refl refl refl

  advance-Rewrites :
      (publication : Bool)
      → current_attempt input c.attempt_id ≡ ok a
      → Rewrites input c.attempt_id a (advanced a c p.id) (advance_content publication)
  unfolding advanced replace_attempt with_checkpoint promoted
  advance-Rewrites true e = rewritten input a _ _ c.attempt_id e refl refl
  advance-Rewrites false e = rewritten input a _ _ c.attempt_id e refl refl

  advance_subject_eq :
      (publication : Bool)
      → (advance_content publication).run.current_subject
        ≡ (if publication then c.verified_output_subject else input.run.current_subject)
  unfolding replace_attempt with_checkpoint promoted
  advance_subject_eq true = refl
  advance_subject_eq false = refl

  advance-Owns :
      (publication : Bool)
      → lookup c.checkpoint_id input.checkpoints ≡ some p
      → Owns input a c.checkpoint_id p (advance_content publication)
  unfolding with_checkpoint
  advance-Owns publication e = record { is_given = e; owned = refl }

pub schedule_effects-Performs :
    (platform : Platform) (input : ReducerInput) (c : ScheduleExternal)
    → Emits (Performs input (schedule_external c)) (schedule_effects platform input c)
unfolding schedule_effects Does scheduled replace_attempt with_checkpoint
schedule_effects-Performs platform input c = Emits-bind _ _ λ a ea. Emits-bind _ _ λ s _.
    Emits-throw_if _ _ _ λ external. Emits-bind _ _ λ u phase. Emits-bind _ _ λ p ep.
      Emits-bind _ _ λ _ _. Emits-throw_if _ _ _ λ _. Emits-throw_if _ _ _ λ _.
        Emits-throw_if _ _ _ λ _. Emits-throw_if _ _ _ λ _. Emits-bind _ _ λ authorization _.
          Emits-bind _ _ λ _ _. Emits-throw_if _ _ _ λ _. Emits-bind _ _ λ effects ee.
            Emits-bind _ _ λ v fresh. Emits-base_content _ (record {
              step =
                  schedules a c p _ _ effects s u (current_attempt-eq-ok input c.attempt_id ea)
                    external phase (record { passed = (v, _, _, _, fresh) });
              does = (
                a,
                p,
                rewritten input a _ _ c.attempt_id ea refl refl,
                goes_on input a (scheduled a c p.id) _ refl refl refl refl,
                record { is_given = exact_checkpoint-eq-ok input c.checkpoint_id ep; owned = refl },
                (authorize_effects-sort platform authorization.decision input.run.id
                      c.effect_intents).at
                    effects ee,
                refl,
              );
            })

pub advance_subject-Performs :
    (input : ReducerInput) (c : AdvanceExternalSubject)
    → Emits (Performs input (advance_external_subject c)) (advance_subject input c)
unfolding advance_subject Does advanced
advance_subject-Performs input c = Emits-bind _ _ λ a ea. Emits-bind _ _ λ s es.
    Emits-throw_if _ _ _ λ ready. Emits-bind _ _ λ _ _. Emits-or_throw _ _ _ λ _ _.
      Emits-or_throw _ _ _ λ p ep. Emits-bind _ _ λ _ _. Emits-bind _ _ λ _ _. Emits-bind _ _ λ _ _.
        Emits-throw_if _ _ _ λ _. Emits-or_throw _ _ _ λ _ _. Emits-bind _ _ λ _ _.
          Emits-base_content _ (record {
            step = advances a c p _ _ (current_attempt-eq-ok input c.attempt_id ea) ready;
            does = (
              a,
              p,
              advance-Rewrites input a c p _ ea,
              advance-GoesOn input a c p _,
              advance-Owns input a c p _ ep,
              refl,
              s,
              es,
              advance_subject_eq input a c p _,
            );
          })
