-- ===== src/Kernel/Lifecycle.antt =====
-- Which runtime stage a stage is (supervisor/src/pipeline/kernel/runtime-lifecycle.ts).
use openthrottle.Base.{
  Bool, ◌&&◌, Option, none, some, Text, text, ◌==◌, nat_eq, list_eq, find, if◌then◌else◌,
}
use openthrottle.Contracts.Lifecycle.{
  runtime_provision_stage_id, runtime_stop_stage_id, runtime_cleanup_stage_id, terminal_outcomes,
}
use openthrottle.Contracts.Pipeline.{
  PipelineTerminalOutcome, failed, CompiledPipelineStage, runs_effect,
}

-- matchingOutcome
matching_outcome :
    CompiledPipelineStage → (PipelineTerminalOutcome → Text) → Text → Option PipelineTerminalOutcome
matching_outcome s id_for effect =
    if runs_effect s.kind effect then find (λ o. s.id == id_for o) terminal_outcomes else none

-- runtimeStopOutcome
unfoldable pub runtime_stop_outcome : CompiledPipelineStage → Option PipelineTerminalOutcome
unfolding matching_outcome
runtime_stop_outcome s = matching_outcome s runtime_stop_stage_id (text "core/daytona-stop@1")

-- runtimeCleanupOutcome
unfoldable pub runtime_cleanup_outcome : CompiledPipelineStage → Option PipelineTerminalOutcome
unfolding matching_outcome
runtime_cleanup_outcome s =
    matching_outcome s runtime_cleanup_stage_id (text "core/daytona-cleanup@1")

-- `stage.id === RUNTIME_PROVISION_STAGE_ID` of a stage that provisions
unfoldable pub is_provision_stage : CompiledPipelineStage → Bool
is_provision_stage s =
    s.id == runtime_provision_stage_id && runs_effect s.kind (text "core/daytona-provision@1")

cleanup_of : Option PipelineTerminalOutcome → Option Text
cleanup_of none = none
cleanup_of (some outcome) = some (runtime_cleanup_stage_id outcome)

-- runtimeExhaustionDestination
unfoldable pub runtime_exhaustion_destination : CompiledPipelineStage → Option Text
unfolding cleanup_of
runtime_exhaustion_destination s =
    if is_provision_stage s
    then some (runtime_stop_stage_id failed)
    else cleanup_of (runtime_stop_outcome s)
