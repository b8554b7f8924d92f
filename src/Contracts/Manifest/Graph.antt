-- ===== src/Contracts/Manifest/Graph.antt =====
-- The graph of a pipeline's stages (validateStages of contracts/src/pipeline.ts).
use openthrottle.Base.{
  suc, not, Option, none, some, List, [], ◌++◌, map, Text, lookup, list_eq, nat_eq, contains, any,
  flat_map, has_duplicates, get_or, length, option_to_list, is_none, Result, ok, ◌>>=◌, ◌>>◌,
  throw_if, for_each, if◌then◌else◌, visiting_first, walk, reachable,
}
use openthrottle.Contracts.Pipeline.{PipelineTransition, PipelineLoopBinding, CompiledPipelineStage}

-- `byId`, of which the passes below need the edges
abbrev pub stage_ids : List CompiledPipelineStage → List Text
stage_ids stages = map (λ (s : CompiledPipelineStage). s.id) stages

-- `Object.values(stage.on).flatMap((next) => next.to === undefined ? [] : [next.to])`
unfoldable pub targets : CompiledPipelineStage → List Text
targets stage = flat_map (λ (edge : Text × PipelineTransition). option_to_list edge.1.to) stage.on

-- `stage.loop?.body ?? []`
abbrev pub loop_body : Option PipelineLoopBinding → List Text
loop_body none = []
loop_body (some binding) = get_or binding.body []

-- What a stage pushes on `pending`.
unfoldable pub stage_successors : CompiledPipelineStage → List Text
unfolding targets
stage_successors stage = targets stage ++ loop_body stage.loop

abbrev pub unbounded_target : PipelineTransition → List Text
unbounded_target next = if is_none next.max_reentries then option_to_list next.to else []

-- The targets that `visit` follows: `next.to !== undefined && next.max_reentries === undefined`
unfoldable pub unbounded_targets : CompiledPipelineStage → List Text
unbounded_targets stage =
    flat_map (λ (edge : Text × PipelineTransition). unbounded_target edge.1) stage.on

-- `byId.get(id)!`; every id that is followed has been found among the stages.
unfoldable pub follow :
    (CompiledPipelineStage → List Text) → List CompiledPipelineStage → Text → List Text
follow edges stages id =
    get_or (lookup id (map (λ (s : CompiledPipelineStage). (s.id, edges s)) stages)) []

-- The loops over the transitions and the loop body of a stage.
unfoldable pub check_targets : List Text → CompiledPipelineStage → Result (Unit {0})
unfolding targets
check_targets known stage =
    for_each
      (λ to.
        throw_if (not (contains to known))
          "${source}.stages[${index}].on.${outcome}.to: references an unknown stage")
      (targets stage)
    >> for_each
        (λ b.
          throw_if (not (contains b known))
            "${source}.stages[${index}].loop.body[${bodyIndex}]: references an unknown stage")
        (loop_body stage.loop)

-- validateStages, without `deferExternalLoopReachability`, which a compiled manifest does not set
unfoldable pub validate_stages : List CompiledPipelineStage → Text → Result (Unit {0})
unfolding check_targets reachable stage_successors follow walk visiting_first unbounded_targets
validate_stages stages entry = do
  let ids = stage_ids stages
  throw_if (has_duplicates ids) "${source}.stages: must not contain duplicate IDs"
  throw_if (not (contains entry ids)) "${source}.entry: references an unknown stage"
  for_each (check_targets ids) stages
  reached ← reachable (follow stage_successors stages) ids entry
  throw_if (any (λ id. not (contains id reached)) ids)
      "${source}.stages: contains unreachable stage ${unreachable.id}"
  walked ←
      walk (follow unbounded_targets stages) visiting_first
        (λ id. "${source}.stages: contains an unbounded transition cycle at ${id}")
        (suc (length ids)) ids
  ok tt
