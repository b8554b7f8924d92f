-- ===== src/Kernel/Proofs/Runtime.antt =====
-- The runtime stages around a pipeline (contracts/src/runtime-lifecycle.ts), the slots of the runtime
-- pool and the reconciliation of effects (supervisor/src/pipeline/kernel/runtime-resource.ts,
-- effect-intent.ts).
use openthrottle.Contracts.Effects.{validate_effect_intent-same}
use openthrottle.Base.{
  ℕ, ◌<◌, ◌≡◌, refl, ap, ◌∙◌, Bool, true, false, not, ◌&&◌, ◌||◌, Option, none, some, List, [], ◌∷◌,
  ◌++◌, map, Text, text, Dict, contains, all, any, arith, ◌==◌, list_eq, nat_eq, list_beq,
  list_beq_iff, ltb, is_some, ok, Ensures, Ensures-bind, Ensures-throw_if, Ensures-ok, subst,
  flat_map,
}
use native.Mathlib.Nat.{mod-lt}
use openthrottle.Contracts.Effects.{EffectIntent}
use openthrottle.Contracts.Lifecycle.{
  Expanded, expand_runtime_lifecycle, reserved_stage_ids, rewrite_stage, rewrite_transition,
  lifecycle_stages, provision_stage, stop_stage, cleanup_stage, runtime_provision_stage_id,
  runtime_stop_stage_id, runtime_cleanup_stage_id, outcome_text,
}
use openthrottle.Contracts.Pipeline.{PipelineTransition, CompiledPipelineStage}
use openthrottle.Kernel.Evidence.{
  EffectObservation, found, not_found, unknown, EffectReconciliation, append_delivery, execute,
  hold_unknown, reconcile_effect_intent, reconcile_observation, observed_identity,
}
use openthrottle.Kernel.Resource.{kernel_runtime_resource_slot_index, slot_index, member_index}
use openthrottle.Kernel.Types.{AttemptScope, Platform}

-- Whether an edge of the stage ends the run.
unfoldable pub ends_run : CompiledPipelineStage → Bool
ends_run s = any (λ (entry : Text × PipelineTransition). is_some entry.1.terminal) s.on

rewrite_edges-continue :
    (on : Dict PipelineTransition)
    → any
        (λ (entry : Text × PipelineTransition). is_some entry.1.terminal)
        (map (λ (entry : Text × PipelineTransition). (entry.0, rewrite_transition entry.1)) on)
      ≡ false
unfolding any rewrite_transition
rewrite_edges-continue [] = refl
rewrite_edges-continue ((outcome, t) ∷ on) = ground (arith, rewrite_edges-continue on)

rewrite_stages-continue :
    (stages : List CompiledPipelineStage)
    → all (λ s. not (ends_run s) || contains s.id reserved_stage_ids) (map rewrite_stage stages)
      ≡ true
unfolding all ends_run rewrite_stage
rewrite_stages-continue [] = refl
rewrite_stages-continue (s ∷ stages) =
    ground (arith, rewrite_stages-continue stages, rewrite_edges-continue s.on)

-- Every stage that the compiler adds has a reserved identity.
lifecycle_stages-reserved :
    (entry : Text)
    → all (λ (s : CompiledPipelineStage). contains s.id reserved_stage_ids) (lifecycle_stages entry)
      ≡ true
unfolding all lifecycle_stages reserved_stage_ids provision_stage stop_stage cleanup_stage flat_map
    contains runtime_provision_stage_id runtime_stop_stage_id runtime_cleanup_stage_id outcome_text
    text list_beq
lifecycle_stages-reserved entry = refl

module _ {ℓ} {A : Type ℓ} (p q : A → Bool) where
  all-++ : (xs ys : List A) → all p (xs ++ ys) ≡ (all p xs && all p ys)
  unfolding all
  all-++ [] ys = refl
  all-++ (x ∷ xs) ys = ground (arith, all-++ xs ys)

  all-weaken : (xs : List A) → all q xs ≡ true → all (λ x. p x || q x) xs ≡ true
  unfolding all
  all-weaken [] e = refl
  all-weaken (x ∷ xs) e = ground (arith, all-weaken xs)

-- A stage that does not end the run, or that the compiler added.
unfoldable pub is_guarded : CompiledPipelineStage → Bool
is_guarded s = not (ends_run s) || contains s.id reserved_stage_ids

expand_runtime_lifecycle-stages :
    (entry : Text) (stages : List CompiledPipelineStage) {e : Expanded}
    → expand_runtime_lifecycle entry stages ≡ ok e
    → e.stages ≡ lifecycle_stages entry ++ map rewrite_stage stages
unfolding expand_runtime_lifecycle
expand_runtime_lifecycle-stages entry stages {e} h = ground arith

-- In an expanded pipeline only the stages that the compiler added have an edge that ends the run.
pub expand_runtime_lifecycle-guarded :
    (entry : Text) (stages : List CompiledPipelineStage) {e : Expanded}
    → expand_runtime_lifecycle entry stages ≡ ok e
    → all is_guarded e.stages ≡ true
unfolding is_guarded
expand_runtime_lifecycle-guarded entry stages {e} h =
    let added =
      all-weaken (λ (s : CompiledPipelineStage). not (ends_run s))
        (λ (s : CompiledPipelineStage). contains s.id reserved_stage_ids) (lifecycle_stages entry)
        (lifecycle_stages-reserved entry) in
    let both = all-++ is_guarded is_guarded (lifecycle_stages entry) (map rewrite_stage stages) in
    let stages_are = expand_runtime_lifecycle-stages entry stages h in
    ap (all is_guarded) stages_are ∙ ground (arith, rewrite_stages-continue stages)

slot_index-bound :
    (index : Option ℕ) (pool_size : ℕ)
    → ltb pool_size 1 ≡ false
    → Ensures (λ slot. slot < pool_size) (slot_index index pool_size)
unfolding slot_index
slot_index-bound none pool_size large = Ensures-ok _ (ground arith)
slot_index-bound (some index) pool_size large =
    Ensures-throw_if _ _ _ λ _. Ensures-ok _ (mod-lt index (ground arith))

in_pool :
    (scope : AttemptScope) (pool_size : ℕ)
    → Ensures (λ slot. slot < pool_size) (kernel_runtime_resource_slot_index scope pool_size)
unfolding kernel_runtime_resource_slot_index
in_pool scope pool_size =
    Ensures-throw_if _ _ _
      λ bounded. slot_index-bound (member_index scope.kind) pool_size (ground arith)

-- A runtime slot is one of the pool.
pub kernel_runtime_resource_slot_index-bound :
    (scope : AttemptScope) (pool_size : ℕ) {slot : ℕ}
    → kernel_runtime_resource_slot_index scope pool_size ≡ ok slot
    → slot < pool_size
kernel_runtime_resource_slot_index-bound scope pool_size {slot} e =
    (in_pool scope pool_size).at slot e

-- What a reconciliation may answer to an observation of the effect `intent`.
unfoldable pub Reconciles : EffectIntent → EffectObservation → EffectReconciliation → Type 0
Reconciles intent observation (append_delivery d) =
    (observation ≡ found intent.target d)
    × (d.effect_id ≡ intent.id)
    × (d.idempotency_key ≡ intent.idempotency_key)
    × (d.external_identity ≡ intent.target)
Reconciles intent observation (execute again) =
    (observation ≡ not_found intent.target) × (again ≡ intent)
Reconciles intent observation (hold_unknown effect_id external_identity detail retry_at) =
    (observation ≡ unknown intent.target detail)
    × (effect_id ≡ intent.id)
    × (external_identity ≡ intent.target)

equal_texts : (s t : Text) → not (s == t) ≡ false → s ≡ t
equal_texts s t e = ground (arith, list_beq_iff s t)

reconcile_observation-Reconciles :
    (intent : EffectIntent) (retry_at : Option Text) (observation : EffectObservation)
    → not (observed_identity observation == intent.target) ≡ false
    → Ensures (Reconciles intent observation) (reconcile_observation intent retry_at observation)
unfolding reconcile_observation Reconciles observed_identity
reconcile_observation-Reconciles intent none (unknown e detail) same = record { at = λ r h. cc }
reconcile_observation-Reconciles intent (some retry_at) (unknown e detail) same =
    let target = equal_texts e intent.target same in
    Ensures-ok _ (ap (λ id. unknown id detail) target, refl, target)
reconcile_observation-Reconciles intent retry_at (not_found e) same =
    Ensures-ok _ (ap not_found (equal_texts e intent.target same), refl)
reconcile_observation-Reconciles intent retry_at (found e d) same = Ensures-throw_if _ _ _ λ _.
    Ensures-throw_if _ _ _ λ effect. Ensures-throw_if _ _ _ λ key.
      Ensures-throw_if _ _ _ λ identity. Ensures-ok _ (
        ap (λ id. found id d) (equal_texts e intent.target same),
        equal_texts _ _ effect,
        equal_texts _ _ key,
        equal_texts _ _ identity,
      )

reconcile_effect_intent-Ensures :
    (platform : Platform) (intent : EffectIntent) (observation : EffectObservation)
    (retry_at : Option Text)
    → Ensures
        (Reconciles intent observation)
        (reconcile_effect_intent platform intent observation retry_at)
unfolding reconcile_effect_intent
reconcile_effect_intent-Ensures platform intent observation retry_at =
    Ensures-bind _ _ λ valid same. Ensures-throw_if _ _ _ λ identity.
      subst
        (λ i. Ensures (Reconciles i observation) (reconcile_observation valid retry_at observation))
        ((validate_effect_intent-same platform.canonical_bytes intent).at valid same)
        (reconcile_observation-Reconciles valid retry_at observation identity)

-- An effect is executed only where its provider does not have it, as the intent given, and never
-- where the answer is unknown; a delivery is appended only where it is that of the effect, by its
-- identity, its idempotency key and its target.
pub reconcile_effect_intent-Reconciles :
    (platform : Platform) (intent : EffectIntent) (observation : EffectObservation)
    (retry_at : Option Text) {r : EffectReconciliation}
    → reconcile_effect_intent platform intent observation retry_at ≡ ok r
    → Reconciles intent observation r
reconcile_effect_intent-Reconciles platform intent observation retry_at {r} e =
    (reconcile_effect_intent-Ensures platform intent observation retry_at).at r e
