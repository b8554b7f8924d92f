-- ===== src/Kernel/Successor/Agrees.antt =====
-- The successor of a stage beside effectiveTransition
-- (supervisor/src/pipeline/kernel/successor-attempt.ts and reducer.ts).
use openthrottle.Base.{
  ℕ, ◌≡◌, refl, ap, Bool, true, false, ◌&&◌, Option, none, some, [], ◌∷◌, Text, Dict, lookup, all,
  get_or, nat_eq, list_eq, is_some, leb, ok, ◌>>=◌, or_throw, arith,
}
use openthrottle.Contracts.Pipeline.{
  PipelineTransition, CompiledPipelineStage, PipelineTerminalOutcome,
}
use openthrottle.Contracts.Manifest.{both_or_none}
use openthrottle.Contracts.Manifest.Shape.{is_transition, has_transitions}
use openthrottle.Kernel.Types.{KernelRun}
use openthrottle.Kernel.Lifecycle.{runtime_cleanup_outcome}
use openthrottle.Kernel.Reducer.Settle.{
  EffectiveTransition, effective_transition, bounded_transition, exhausted_transition, edge_key,
}
use openthrottle.Kernel.Successor.{successor_of, successor_along, kernel_successor_stage_id}

lookup-all :
    (p : PipelineTransition → Bool) (on : Dict PipelineTransition) (k : Text)
    (t : PipelineTransition)
    → all (λ (e : Text × PipelineTransition). p e.1) on ≡ true
    → lookup k on ≡ some t
    → p t ≡ true
unfolding all lookup
lookup-all p [] k t h found = cc
lookup-all p ((j, u) ∷ on) k t h found = ground (
  arith,
  lookup-all p on k t,
  λ (e : some u ≡ some t). ap (λ (o : Option PipelineTransition). p (get_or o u)) e,
)

module _ (reentries : Dict ℕ) (s : CompiledPipelineStage) (outcome : Text)
    (t : PipelineTransition) where
  agree_bounded :
      (to : Text) (limit : ℕ) (full cleanup : Bool)
      → leb limit (get_or (lookup (edge_key s.id outcome to) reentries) 0) ≡ full
      → is_some (runtime_cleanup_outcome s) ≡ cleanup
      → successor_of reentries s outcome t to (some limit)
        ≡ (bounded_transition reentries s outcome t (some limit) (some to)).to
  unfolding successor_of bounded_transition exhausted_transition
  agree_bounded to limit true true f c = rw (f, c)
  agree_bounded to limit true false f c = rw (f, c)
  agree_bounded to limit false cleanup f c = rw f

  agree :
      (to : Option Text) (terminal : Option PipelineTerminalOutcome) (limit : Option ℕ)
      → t.to ≡ to
      → t.terminal ≡ terminal
      → t.max_reentries ≡ limit
      → both_or_none to terminal ≡ false
      → (is_some terminal && is_some limit) ≡ false
      → successor_along reentries s outcome t
        ≡ ok (bounded_transition reentries s outcome t limit to).to
  unfolding successor_along bounded_transition or_throw ◌>>=◌
  agree none none limit a b c one going = cc
  agree (some to) (some o) limit a b c one going = cc
  agree none (some o) (some n) a b c one going = cc
  agree none (some o) none a b c one going = rw (b, a)
  agree (some to) none none a b c one going = rw (b, a, c)
  agree (some to) none (some n) a b c one going =
      rw (b, a, c) (ap ok (agree_bounded to n _ _ refl refl))

found-agree :
    (run : KernelRun) (s : CompiledPipelineStage) (outcome : Text) (o : Option PipelineTransition)
    → lookup outcome s.on ≡ o
    → has_transitions s ≡ true
    → (or_throw o "stage ${input.stage.id} has no transition for ${input.outcome}"
        >>= successor_along run.cursor.reentries s outcome)
      ≡ ((or_throw o "stage ${input.stage.id} has no transition for ${input.outcome}" >>= λ t.
            ok (bounded_transition run.cursor.reentries s outcome t t.max_reentries t.to))
          >>= λ (e : EffectiveTransition). ok e.to)
unfolding or_throw ◌>>=◌
found-agree run s outcome none found shaped = refl
found-agree run s outcome (some t) found shaped =
    let shape = lookup-all is_transition s.on outcome t (ground arith) found in
    agree run.cursor.reentries s outcome t t.to t.terminal t.max_reentries refl refl refl
      (ground arith) (ground arith)

-- For a stage whose transitions have the shape that the pipeline's validator requires,
-- kernelSuccessorStageId answers with the destination of the transition that effectiveTransition
-- computes for the same run, stage and outcome, or with the same error.
pub kernel_successor_stage_id-effective_transition :
    (run : KernelRun) (s : CompiledPipelineStage) (outcome : Text)
    → has_transitions s ≡ true
    → kernel_successor_stage_id run s outcome
      ≡ (effective_transition run s outcome >>= λ (e : EffectiveTransition). ok e.to)
unfolding kernel_successor_stage_id effective_transition
kernel_successor_stage_id-effective_transition run s outcome shaped =
    found-agree run s outcome (lookup outcome s.on) refl shaped
