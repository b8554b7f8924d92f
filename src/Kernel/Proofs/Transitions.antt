-- ===== src/Kernel/Proofs/Transitions.antt =====
-- Limited edges of a pipeline (effectiveTransition of supervisor/src/pipeline/kernel/reducer.ts).
use openthrottle.Base.{
  ℕ, ◌+◌, ◌≤◌, ◌<◌, ◌≡◌, refl, ap, ◌∙◌, Bool, true, false, ◌||◌, Option, none, some, [], ◌∷◌, Text,
  Dict, keys, lookup, put, contains, sorted_record, distinct, arith, ◌==◌, list_eq, nat_eq,
  list_beq_iff, leb, get_or, ok, or_throw, ◌>>=◌, if◌then◌else◌, subst, lookup-sorted_record,
}
use openthrottle.Contracts.Pipeline.{
  PipelineTransition, PipelineTerminalOutcome, Exhaustion, CompiledPipelineStage,
}
use openthrottle.Contracts.Lifecycle.{runtime_stop_stage_id}
use openthrottle.Kernel.Lifecycle.{runtime_cleanup_outcome, runtime_exhaustion_destination}
use openthrottle.Kernel.Types.{KernelRun}
use openthrottle.Kernel.Reducer.Settle.{
  EffectiveTransition, exhausted_stage, exhausted_transition, bounded_transition,
  effective_transition, edge_key,
}

-- How often an edge has been taken.
unfoldable pub times_taken : Text → Dict ℕ → ℕ
times_taken edge reentries = get_or (lookup edge reentries) 0

module _ {ℓ} {V : Type ℓ} where
  lookup-put : (k : Text) (v : V) (d : Dict V) → lookup k (put k v d) ≡ some v
  unfolding lookup put
  lookup-put k v [] = ground (arith, list_beq_iff k k)
  lookup-put k v ((j, w) ∷ d) = ground (arith, lookup-put k v d, list_beq_iff k k)

  contains-keys-put :
      (j k : Text) (v : V) (d : Dict V)
      → contains j (keys (put k v d)) ≡ (k == j || contains j (keys d))
  unfolding put keys contains
  contains-keys-put j k v [] = refl
  contains-keys-put j k v ((i, w) ∷ d) =
      ground
        (arith, contains-keys-put j k v d, list_beq_iff i k, list_beq_iff i j, list_beq_iff k j)

  distinct-put :
      (k : Text) (v : V) (d : Dict V)
      → distinct (keys d) ≡ true
      → distinct (keys (put k v d)) ≡ true
  unfolding put keys distinct contains
  distinct-put k v [] h = refl
  distinct-put k v ((i, w) ∷ d) h =
      ground
        (arith, distinct-put k v d, contains-keys-put i k v d, list_beq_iff i k, list_beq_iff k i)

abbrev pub outcome_on : Exhaustion → PipelineTerminalOutcome
outcome_on Exhaustion.needs_human = PipelineTerminalOutcome.needs_human
outcome_on Exhaustion.failed = PipelineTerminalOutcome.failed

-- Where the run goes from a stage whose edge has reached its limit: a stage that cleans up ends the
-- run, a stage of the runtime with a stage of its own for exhaustion goes there, and any other goes
-- to the stage that stops the runtime. No count changes.
pub data Exhausted (reentries : Dict ℕ) (s : CompiledPipelineStage) (x : Exhaustion)
    (t : EffectiveTransition) : Type 0 where
  ends :
      (cleaned : PipelineTerminalOutcome)
      → runtime_cleanup_outcome s ≡ some cleaned
      → t.to ≡ none
      → t.terminal ≡ some (outcome_on x)
      → t.reentries ≡ reentries
      → Exhausted reentries s x t
  diverts :
      (destination : Text)
      → runtime_cleanup_outcome s ≡ none
      → runtime_exhaustion_destination s ≡ some destination
      → t.to ≡ some destination
      → t.terminal ≡ none
      → t.reentries ≡ reentries
      → Exhausted reentries s x t
  stops :
      runtime_cleanup_outcome s ≡ none
      → runtime_exhaustion_destination s ≡ none
      → t.to ≡ some (runtime_stop_stage_id (outcome_on x))
      → t.terminal ≡ none
      → t.reentries ≡ reentries
      → Exhausted reentries s x t

-- An edge with the limit `limit` is taken, and counted, only below its limit.
pub data Limited (reentries : Dict ℕ) (s : CompiledPipelineStage) (x : Exhaustion) (edge to : Text)
    (limit : ℕ) (t : EffectiveTransition) : Type 0 where
  taken :
      times_taken edge reentries < limit
      → t.to ≡ some to
      → t.terminal ≡ none
      → times_taken edge t.reentries ≡ times_taken edge reentries + 1
      → Limited reentries s x edge to limit t
  exhausted :
      limit ≤ times_taken edge reentries
      → Exhausted reentries s x t
      → Limited reentries s x edge to limit t

module _ (reentries : Dict ℕ) (s : CompiledPipelineStage) (x : Exhaustion) (edge to : Text)
    (limit : ℕ) where
  Limited-choose :
      (b : Bool) (t u : EffectiveTransition)
      → (b ≡ true → Limited reentries s x edge to limit t)
      → (b ≡ false → Limited reentries s x edge to limit u)
      → Limited reentries s x edge to limit (if b then t else u)
  Limited-choose true t u p q = p refl
  Limited-choose false t u p q = q refl

module _ (reentries : Dict ℕ) (edge : Text) (limit : ℕ) where
  times_taken-put :
      (times : ℕ)
      → distinct (keys reentries) ≡ true
      → times_taken edge (sorted_record (put edge times reentries)) ≡ times
  unfolding times_taken
  times_taken-put times unique =
      ap (λ o. get_or o 0)
        (lookup-sorted_record edge (put edge times reentries)
            (distinct-put edge times reentries unique)
          ∙ lookup-put edge times reentries)

  below : leb limit (times_taken edge reentries) ≡ false → times_taken edge reentries < limit
  below e = ground arith

  at_limit : leb limit (times_taken edge reentries) ≡ true → limit ≤ times_taken edge reentries
  at_limit e = ground arith

exhausted_transition-Exhausted :
    (reentries : Dict ℕ) (s : CompiledPipelineStage) (t : PipelineTransition) (x : Exhaustion)
    (cleaned : Option PipelineTerminalOutcome) (destination : Option Text)
    → t.on_exhausted ≡ some x
    → runtime_cleanup_outcome s ≡ cleaned
    → runtime_exhaustion_destination s ≡ destination
    → Exhausted reentries s x (exhausted_transition reentries s t)
unfolding exhausted_transition exhausted_stage
exhausted_transition-Exhausted reentries s t Exhaustion.needs_human (some o) d ex ec ed =
    ends o ec (rw ec) (rw (ec, ex)) (rw ec)
exhausted_transition-Exhausted reentries s t Exhaustion.failed (some o) d ex ec ed =
    ends o ec (rw ec) (rw (ec, ex)) (rw ec)
exhausted_transition-Exhausted reentries s t x none (some d) ex ec ed =
    diverts d ec ed (rw (ec, ed)) (rw ec) (rw ec)
exhausted_transition-Exhausted reentries s t Exhaustion.needs_human none none ex ec ed =
    stops ec ed (rw (ec, ed, ex)) (rw ec) (rw ec)
exhausted_transition-Exhausted reentries s t Exhaustion.failed none none ex ec ed =
    stops ec ed (rw (ec, ed, ex)) (rw ec) (rw ec)

bounded_transition-Limited :
    (reentries : Dict ℕ) (s : CompiledPipelineStage) (outcome : Text) (t : PipelineTransition)
    (x : Exhaustion) (limit : ℕ) (to : Text)
    → distinct (keys reentries) ≡ true
    → t.on_exhausted ≡ some x
    → Limited reentries s x
        (edge_key s.id outcome to)
        to
        limit
        (bounded_transition reentries s outcome t (some limit) (some to))
unfolding bounded_transition times_taken
bounded_transition-Limited reentries s outcome t x limit to unique ends_as =
    let edge = edge_key s.id outcome to in
    Limited-choose reentries s x edge to limit _ _ _
      (λ full.
        exhausted (at_limit reentries edge limit full)
          (exhausted_transition-Exhausted reentries s t x _ _ ends_as refl refl))
      (λ free.
        taken (below reentries edge limit free) refl refl
          (times_taken-put reentries edge limit (get_or (lookup edge reentries) 0 + 1) unique))

-- An edge with a limit is taken, and counted once more, only while it has been taken less often
-- than its limit. At the limit no count changes, and the run ends, goes to the stage that the
-- runtime has for exhaustion, or to the stage that stops the runtime, with the outcome that the edge
-- gives. The map of the counts has no key twice.
pub effective_transition-Limited :
    (run : KernelRun) (s : CompiledPipelineStage) (outcome : Text) (t : PipelineTransition)
    (x : Exhaustion) (limit : ℕ) (to : Text) {effective : EffectiveTransition}
    → distinct (keys run.cursor.reentries) ≡ true
    → lookup outcome s.on ≡ some t
    → t.max_reentries ≡ some limit
    → t.on_exhausted ≡ some x
    → t.to ≡ some to
    → effective_transition run s outcome ≡ ok effective
    → Limited run.cursor.reentries s x (edge_key s.id outcome to) to limit effective
unfolding effective_transition or_throw ◌>>=◌
effective_transition-Limited run s outcome t x limit to {effective} unique found limited ends_as
      leads e =
    let chosen : bounded_transition run.cursor.reentries s outcome t t.max_reentries t.to
        ≡ effective =
      ground arith in
    let named : bounded_transition run.cursor.reentries s outcome t (some limit) (some to)
        ≡ effective =
      ground arith in
    subst (Limited run.cursor.reentries s x (edge_key s.id outcome to) to limit) named
      (bounded_transition-Limited run.cursor.reentries s outcome t x limit to unique ends_as)
