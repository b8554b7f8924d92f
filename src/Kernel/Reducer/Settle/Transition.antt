-- ===== src/Kernel/Reducer/Settle/Transition.antt =====
-- The transition of a settlement: effectiveTransition
-- (supervisor/src/pipeline/kernel/reducer.ts).
use openthrottle.Base.{
  ℕ, ◌+◌, Option, none, some, ◌++◌, Text, text, Dict, lookup, put, sorted_record, nat_eq, list_eq,
  option_eq, get_or, is_some, leb, Result, ok, ◌>>=◌, or_throw, if◌then◌else◌,
}
use openthrottle.Contracts.Lifecycle.{runtime_stop_stage_id}
use openthrottle.Contracts.Pipeline.{
  PipelineTerminalOutcome, Exhaustion, PipelineTransition, CompiledPipelineStage,
}
use openthrottle.Kernel.Types.{KernelRun}
use openthrottle.Kernel.Lifecycle.{runtime_cleanup_outcome, runtime_exhaustion_destination}

pub record EffectiveTransition : Type 0 where
  pub to : Option Text
  pub terminal : Option PipelineTerminalOutcome
  pub reentries : Dict ℕ

-- `runtimeStopStageId(transition.on_exhausted!)`
unfoldable pub exhausted_stage : Option Exhaustion → Text
exhausted_stage none = text "ot_runtime_stop_undefined"
exhausted_stage (some Exhaustion.needs_human) =
    runtime_stop_stage_id PipelineTerminalOutcome.needs_human
exhausted_stage (some Exhaustion.failed) = runtime_stop_stage_id PipelineTerminalOutcome.failed

exhausted_outcome : Option Exhaustion → PipelineTerminalOutcome
exhausted_outcome (some Exhaustion.needs_human) = PipelineTerminalOutcome.needs_human
exhausted_outcome _ = PipelineTerminalOutcome.failed

-- `${stage.id}:${outcome}:${transition.to}`
unfoldable pub edge_key : Text → Text → Text → Text
edge_key stage_id outcome to = stage_id ++ text ":" ++ outcome ++ text ":" ++ to

-- Where a run goes when the edge has reached its limit.
unfoldable pub exhausted_transition :
    Dict ℕ → CompiledPipelineStage → PipelineTransition → EffectiveTransition
unfolding exhausted_stage exhausted_outcome
exhausted_transition reentries s t =
    if is_some (runtime_cleanup_outcome s)
    then record {
      to = none;
      terminal = some (exhausted_outcome t.on_exhausted);
      reentries = reentries;
    }
    else record {
      to = some (get_or (runtime_exhaustion_destination s) (exhausted_stage t.on_exhausted));
      terminal = none;
      reentries = reentries;
    }

-- A transition with a limit and a destination, and one without.
unfoldable pub bounded_transition :
    Dict ℕ
    → CompiledPipelineStage
    → Text
    → PipelineTransition
    → Option ℕ
    → Option Text
    → EffectiveTransition
unfolding exhausted_transition
bounded_transition reentries s outcome t (some limit) (some to) =
    let used = get_or (lookup (edge_key s.id outcome to) reentries) 0 in
    if leb limit used then exhausted_transition reentries s t else record {
      to = some to;
      terminal = none;
      reentries = sorted_record (put (edge_key s.id outcome to) (used + 1) reentries);
    }
bounded_transition reentries s outcome t _ _ = record {
  to = t.to;
  terminal = t.terminal;
  reentries = reentries;
}

-- effectiveTransition
unfoldable pub effective_transition :
    KernelRun → CompiledPipelineStage → Text → Result EffectiveTransition
unfolding bounded_transition
effective_transition run s outcome = do
  t ←
      or_throw (lookup outcome s.on)
        "stage ${input.stage.id} has no transition for ${input.outcome}"
  ok (bounded_transition run.cursor.reentries s outcome t t.max_reentries t.to)
