-- ===== src/Kernel/Successor.antt =====
-- The stage that follows a settled one (kernelSuccessorStageId of
-- supervisor/src/pipeline/kernel/successor-attempt.ts).
use openthrottle.Base.{
  ℕ, Option, none, some, Text, Dict, lookup, nat_eq, list_eq, get_or, is_some, leb, Result, ok,
  ◌>>=◌, or_throw, if◌then◌else◌,
}
use openthrottle.Contracts.Pipeline.{PipelineTransition, CompiledPipelineStage}
use openthrottle.Kernel.Types.{KernelRun}
use openthrottle.Kernel.Lifecycle.{runtime_cleanup_outcome, runtime_exhaustion_destination}
use openthrottle.Kernel.Reducer.Settle.{edge_key, exhausted_stage}
pub mod Agrees

-- Where an edge to `to` leads, of which the run has counted the re-entries.
unfoldable pub successor_of :
    Dict ℕ → CompiledPipelineStage → Text → PipelineTransition → Text → Option ℕ → Option Text
successor_of reentries s outcome t to none = some to
successor_of reentries s outcome t to (some limit) =
    let used = get_or (lookup (edge_key s.id outcome to) reentries) 0 in
    if leb limit used
    then if is_some (runtime_cleanup_outcome s)
      then none
      else some (get_or (runtime_exhaustion_destination s) (exhausted_stage t.on_exhausted))
    else some to

-- The part behind the lookup of the transition.
unfoldable pub successor_along :
    Dict ℕ → CompiledPipelineStage → Text → PipelineTransition → Result (Option Text)
unfolding successor_of
successor_along reentries s outcome t =
    if is_some t.terminal
    then ok none
    else (or_throw t.to "pipeline transition has no destination" >>= λ to.
        ok (successor_of reentries s outcome t to t.max_reentries))

-- kernelSuccessorStageId
unfoldable pub kernel_successor_stage_id :
    KernelRun → CompiledPipelineStage → Text → Result (Option Text)
unfolding successor_along
kernel_successor_stage_id run s outcome = do
  t ←
      or_throw (lookup outcome s.on)
        "stage ${input.stage.id} has no transition for ${input.outcome}"
  successor_along run.cursor.reentries s outcome t
