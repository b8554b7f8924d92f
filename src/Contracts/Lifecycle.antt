-- ===== src/Contracts/Lifecycle.antt =====
-- The runtime stages that the compiler adds to a pipeline (contracts/src/runtime-lifecycle.ts).
use openthrottle.Base.{
  none, some, List, [], ◌∷◌, ◌++◌, map, Text, text, Dict, list_eq, nat_eq, contains, find, flat_map,
  Result, ok, err,
}
use openthrottle.Contracts.Pipeline.{
  PipelineTerminalOutcome, completed, no_change, needs_human, failed, canceled, superseded,
  Exhaustion, PipelineTransition, effect, CompiledPipelineStage,
}

unfoldable pub runtime_provision_stage_id : Text
runtime_provision_stage_id = text "ot_runtime_provision"

unfoldable pub outcome_text : PipelineTerminalOutcome → Text
outcome_text completed = text "completed"
outcome_text no_change = text "no_change"
outcome_text needs_human = text "needs_human"
outcome_text failed = text "failed"
outcome_text canceled = text "canceled"
outcome_text superseded = text "superseded"

unfoldable pub runtime_stop_stage_id : PipelineTerminalOutcome → Text
runtime_stop_stage_id outcome = text "ot_runtime_stop_" ++ outcome_text outcome

unfoldable pub runtime_cleanup_stage_id : PipelineTerminalOutcome → Text
runtime_cleanup_stage_id outcome = text "ot_runtime_cleanup_" ++ outcome_text outcome

-- PIPELINE_TERMINAL_OUTCOMES
abbrev pub terminal_outcomes : List PipelineTerminalOutcome
terminal_outcomes = completed ∷ no_change ∷ needs_human ∷ failed ∷ canceled ∷ superseded ∷ []

abbrev to_stage : Text → PipelineTransition
to_stage id = record { to = some id; terminal = none; max_reentries = none; on_exhausted = none }

abbrev to_terminal : PipelineTerminalOutcome → PipelineTransition
to_terminal outcome = record {
  to = none;
  terminal = some outcome;
  max_reentries = none;
  on_exhausted = none;
}

-- Two more attempts at the same stage, then `failed`.
abbrev retry_in_place : Text → PipelineTransition
retry_in_place id = record {
  to = some id;
  terminal = none;
  max_reentries = some 2;
  on_exhausted = some Exhaustion.failed;
}

abbrev effect_stage : Text → Text → Dict PipelineTransition → CompiledPipelineStage
effect_stage id name on = record { id = id; loop = none; on = on; kind = effect name }

-- An authored terminal edge leads to the stop stage of its outcome.
unfoldable pub rewrite_transition : PipelineTransition → PipelineTransition
rewrite_transition t = elim t.terminal [
  | none ↦ t
  | some outcome ↦ to_stage (runtime_stop_stage_id outcome)
]

unfoldable pub rewrite_stage : CompiledPipelineStage → CompiledPipelineStage
unfolding rewrite_transition
rewrite_stage s = record s { on = map (λ entry. (entry.0, rewrite_transition entry.1)) s.on }

unfoldable pub provision_stage : Text → CompiledPipelineStage
provision_stage entry_stage =
    effect_stage runtime_provision_stage_id (text "core/daytona-provision@1") (
      map
        (λ outcome. (
          text "runtime_terminal_" ++ outcome_text outcome,
          to_stage (runtime_stop_stage_id outcome),
        ))
        terminal_outcomes
      ++ (text "success", to_stage entry_stage)
        ∷ (text "no_change", to_stage entry_stage)
        ∷ (text "retryable_infrastructure_failure", retry_in_place runtime_provision_stage_id)
        ∷ (text "failure", to_stage (runtime_stop_stage_id failed))
        ∷ (text "no_resource", to_terminal failed)
        ∷ [])

unfoldable pub stop_stage : PipelineTerminalOutcome → CompiledPipelineStage
stop_stage outcome = effect_stage (runtime_stop_stage_id outcome) (text "core/daytona-stop@1") (
    (text "success", to_stage (runtime_cleanup_stage_id outcome))
    ∷ (text "no_change", to_stage (runtime_cleanup_stage_id outcome))
    ∷ (text "retryable_infrastructure_failure", retry_in_place (runtime_stop_stage_id outcome))
    ∷ (text "failure", to_stage (runtime_cleanup_stage_id outcome))
    ∷ [])

unfoldable pub cleanup_stage : PipelineTerminalOutcome → CompiledPipelineStage
cleanup_stage outcome =
    effect_stage (runtime_cleanup_stage_id outcome) (text "core/daytona-cleanup@1") (
      (text "success", to_terminal outcome)
      ∷ (text "no_change", to_terminal outcome)
      ∷ (text "retryable_infrastructure_failure", retry_in_place (runtime_cleanup_stage_id outcome))
      ∷ (text "failure", to_terminal failed)
      ∷ [])

unfoldable pub reserved_stage_ids : List Text
reserved_stage_ids =
    runtime_provision_stage_id
    ∷ flat_map (λ outcome. runtime_stop_stage_id outcome ∷ runtime_cleanup_stage_id outcome ∷ [])
        terminal_outcomes

pub record Expanded : Type 0 where
  pub entry_stage : Text
  pub stages : List CompiledPipelineStage

unfoldable pub lifecycle_stages : Text → List CompiledPipelineStage
unfolding provision_stage stop_stage cleanup_stage
lifecycle_stages entry_stage =
    provision_stage entry_stage
    ∷ flat_map (λ outcome. stop_stage outcome ∷ cleanup_stage outcome ∷ []) terminal_outcomes

-- expandCompiledRuntimeLifecycle
unfoldable pub expand_runtime_lifecycle : Text → List CompiledPipelineStage → Result Expanded
unfolding lifecycle_stages
expand_runtime_lifecycle entry_stage stages =
    elim (find (λ (s : CompiledPipelineStage). contains s.id reserved_stage_ids) stages) [
      | some s ↦ err "pipeline.stages.${collision.id}: uses a compiler-reserved runtime stage ID"
      | none ↦ ok (record {
        entry_stage = runtime_provision_stage_id;
        stages = lifecycle_stages entry_stage ++ map rewrite_stage stages;
      })
    ]
