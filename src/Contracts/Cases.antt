-- ===== src/Contracts/Cases.antt =====
-- Documents of contracts/src, read at concrete inputs.
use openthrottle.Base.{
  ◌≡◌, refl, ◌↔◌, true, none, some, List, [], ◌∷◌, Text, text, keys, contains, replicate, ok, err,
  list_eq, nat_eq, Passes, ◌>>=◌, throw_if, has_duplicates, list_beq, for_each, lookup, filter, any,
  all, flat_map, or_throw, map_each, utf8_bytes,
}
use openthrottle.Base.Search.Members.{Within}
use openthrottle.Base.Search.Closed.{lookup-Within}
use openthrottle.Base.Search.Decides.{Acyclic, Decides}
use openthrottle.Contracts.Json.{
  Json, str, num, arr, obj, nil, cons, end, field, member, member_names, check_json,
}
use openthrottle.Contracts.Formats.{
  is_identifier, is_command_name, is_digest, is_version_reference, decimal_value, is_effect_kind,
  is_context_id,
}
use openthrottle.Contracts.Pipeline.{
  CompiledPipelineStage, CompiledPipelineManifest, PipelineTransition, PipelineTerminalOutcome,
  Exhaustion, StageKind,
}
use openthrottle.Contracts.Validation.{
  Dependencies, depends_on, assert_acyclic_dependencies, members, entries,
}
use openthrottle.Contracts.Plan.{
  ExecutionPlanUnit, ExecutionPlanContract, Encoding, validate_plan, validate_execution_plan,
}
use openthrottle.Contracts.Plan.Print.{plan_json, plan_members}
use openthrottle.Contracts.Plan.Laws.{
  IsPlan, validate_plan-IsPlan, assert_acyclic_dependencies-Decides,
}
use openthrottle.Contracts.Effects.{EffectIntent, validate_effect_intent}
use openthrottle.Contracts.Replay.{Encoder, assert_immutable_effect_replay}
use openthrottle.Contracts.Replay.Answers.{
  ReplayAnswer, assert_immutable_effect_replay-ReplayAnswer,
}
use openthrottle.Contracts.Plan.Again.{validate_execution_plan-again}
use openthrottle.Contracts.Manifest.{validate_compiled_pipeline_manifest}
use openthrottle.Contracts.Manifest.Graph.{validate_stages}
use openthrottle.Contracts.Manifest.Laws.{IsStageGraph, validate_stages-IsStageGraph}
use openthrottle.Contracts.Manifest.Shape.{
  IsManifest, validate_compiled_pipeline_manifest-IsManifest,
}

abbrev unit : Text → List Text → ExecutionPlanUnit
unit id dependencies = record {
  id = id;
  title = text "Title";
  depends_on = dependencies;
  objective = text "Do it";
  requirements = text "R" ∷ [];
  files = text "f" ∷ [];
  approach = text "A" ∷ [];
  tests = text "T" ∷ [];
  acceptance = text "C" ∷ [];
  verification = text "V" ∷ [];
}

abbrev plan : ExecutionPlanContract
plan = record {
  pipeline_id = text "core/structured";
  plan_id = text "p";
  units = unit (text "a") [] ∷ unit (text "b") (text "a" ∷ []) ∷ [];
  commands = record { name = text "test"; unit = some (text "b") } ∷ [];
}

abbrev encoding : Encoding
encoding = record {
  plan_bytes = λ p. 100;
  text_bytes = λ t. 100;
  parse_json = λ t. some (plan_json plan);
}

read_plan : validate_execution_plan encoding (some (plan_json plan)) ≡ ok plan
unfolding validate_execution_plan plan_members ◌>>=◌ throw_if has_duplicates list_beq text for_each
    keys lookup filter or_throw member_names contains member map_each is_identifier is_command_name
    members
read_plan = refl

check_plan : Passes (validate_plan plan)
unfolding validate_plan ◌>>=◌ throw_if has_duplicates list_beq text for_each keys lookup filter
check_plan = refl

-- Two units that depend on each other, and a unit that depends on a missing one.
abbrev circular : ExecutionPlanContract
circular = record plan {
  units = unit (text "a") (text "b" ∷ []) ∷ unit (text "b") (text "a" ∷ []) ∷ [];
}

circular_plan : validate_plan circular ≡ err "${path}.${id}.depends_on: creates a cycle"
unfolding validate_plan ◌>>=◌ throw_if has_duplicates list_beq text for_each keys lookup filter
circular_plan = refl

abbrev edge_to : Text → PipelineTransition
edge_to to = record { to = some to; terminal = none; max_reentries = none; on_exhausted = none }

abbrev bounded_edge : Text → PipelineTransition
bounded_edge to = record {
  to = some to;
  terminal = none;
  max_reentries = some 3;
  on_exhausted = some Exhaustion.failed;
}

abbrev ends : PipelineTransition
ends = record {
  to = none;
  terminal = some PipelineTerminalOutcome.completed;
  max_reentries = none;
  on_exhausted = none;
}

abbrev build : CompiledPipelineStage
build = record {
  id = text "build";
  loop = none;
  on = (text "success", edge_to (text "test")) ∷ [];
  kind = StageKind.command (text "build");
}

abbrev check : CompiledPipelineStage
check = record {
  id = text "test";
  loop = none;
  on = (text "success", ends) ∷ (text "failure", bounded_edge (text "build")) ∷ [];
  kind = StageKind.command (text "test");
}

check_stages : Passes (validate_stages (build ∷ check ∷ []) (text "build"))
unfolding validate_stages ◌>>=◌ throw_if has_duplicates list_beq text for_each keys lookup filter
    any flat_map
check_stages = refl

-- The same stages, with no bound on the way back.
abbrev unbounded_check : CompiledPipelineStage
unbounded_check = record check {
  on = (text "success", ends) ∷ (text "failure", edge_to (text "build")) ∷ [];
}

unbounded_stages :
    validate_stages (build ∷ unbounded_check ∷ []) (text "build")
    ≡ err "${source}.stages: contains an unbounded transition cycle at ${id}"
unfolding validate_stages ◌>>=◌ throw_if has_duplicates list_beq text for_each keys lookup filter
    any flat_map
unbounded_stages = refl

unreachable_stages :
    validate_stages (build ∷ record check { on = (text "success", ends) ∷ [] } ∷ []) (text "test")
    ≡ err "${source}.stages: contains unreachable stage ${unreachable.id}"
unfolding validate_stages ◌>>=◌ throw_if has_duplicates list_beq text for_each keys lookup filter
    any flat_map
unreachable_stages = refl

abbrev stage_json : Text → Text → Json → Json
stage_json id command on = obj (
    field (text "id") (str id) (
      field (text "kind") (str (text "command"))
        (field (text "command") (str command) (field (text "on") on end))))

abbrev manifest_json : Json
manifest_json = obj (
    field (text "schema") (str (text "openthrottle.compiled-pipeline-manifest/v1")) (
      field (text "pipeline_id") (str (text "core/x")) (
        field (text "pipeline_version") (num (text "1")) (
          field (text "entry_stage") (str (text "build")) (
            field (text "definition_bundle_hash") (str (replicate 64 102)) (
              field (text "compiler_version") (str (text "c1")) (
                field (text "runtime_capability_digest") (str (replicate 64 102)) (
                  field (text "stages")
                    (arr (
                      cons
                        (stage_json (text "build") (text "build") (
                          obj (
                            field (text "success") (obj (field (text "to") (str (text "test")) end))
                              end)))
                        (cons
                          (stage_json (text "test") (text "test") (
                            obj (
                              field (text "success")
                                (obj (field (text "terminal") (str (text "completed")) end))
                                (field (text "failure")
                                  (obj (
                                    field (text "to") (str (text "build")) (
                                      field (text "max_reentries") (num (text "3"))
                                        (field (text "on_exhausted") (str (text "failed")) end))))
                                  end))))
                          nil)))
                    end))))))))

abbrev manifest : CompiledPipelineManifest
manifest = record {
  pipeline_id = text "core/x";
  pipeline_version = 1;
  entry_stage = text "build";
  definition_bundle_hash = replicate 64 102;
  compiler_version = text "c1";
  runtime_capability_digest = replicate 64 102;
  stages = build ∷ check ∷ [];
}

read_manifest : validate_compiled_pipeline_manifest (some manifest_json) ≡ ok manifest
unfolding validate_compiled_pipeline_manifest ◌>>=◌ throw_if has_duplicates list_beq text for_each
    keys lookup filter any flat_map or_throw member_names contains member map_each is_identifier
    is_command_name members entries all is_digest is_version_reference decimal_value replicate
read_manifest = refl

validate_execution_plan-again_example :
    validate_execution_plan encoding (some (plan_json plan)) ≡ ok plan
validate_execution_plan-again_example =
    validate_execution_plan-again encoding (some (plan_json plan)) plan read_plan

validate_plan-IsPlan_example : Passes (validate_plan plan) ↔ IsPlan plan
validate_plan-IsPlan_example = validate_plan-IsPlan plan

validate_stages-IsStageGraph_example :
    Passes (validate_stages (build ∷ check ∷ []) (text "build"))
    ↔ IsStageGraph (build ∷ check ∷ []) (text "build")
validate_stages-IsStageGraph_example =
    validate_stages-IsStageGraph (build ∷ check ∷ []) (text "build")

validate_compiled_pipeline_manifest-IsManifest_example : IsManifest manifest
validate_compiled_pipeline_manifest-IsManifest_example =
    validate_compiled_pipeline_manifest-IsManifest (some manifest_json) manifest read_manifest

abbrev two_units : Dependencies
two_units = (text "a", []) ∷ (text "b", text "a" ∷ []) ∷ []

two_units-known :
    all (λ (d : Text × List Text). all (λ t. contains t (keys two_units)) d.1) two_units ≡ true
unfolding all contains keys text list_beq
two_units-known = refl

two_units-closed :
    (a : Text)
    → contains a (keys two_units) ≡ true
    → Within (depends_on two_units a) (keys two_units)
unfolding depends_on
two_units-closed a known =
    lookup-Within (λ (d : Text × List Text). d.0) (λ d. d.1) (keys two_units) two_units a
      two_units-known

assert_acyclic_dependencies-Decides_example :
    Decides
      (Acyclic (depends_on two_units) (keys two_units))
      "${path}.${id}.depends_on: creates a cycle"
      (assert_acyclic_dependencies two_units)
assert_acyclic_dependencies-Decides_example =
    assert_acyclic_dependencies-Decides two_units two_units-closed

abbrev labels : Encoder
labels = record { canonical_json = λ json. text "label"; digest_normalized = λ printed. printed }

abbrev push_intent : EffectIntent
push_intent = record {
  id = text "effect-1";
  pipeline_run_id = text "run-1";
  decision_record_id = text "decision-1";
  kind = text "github/push-checkpoint@1";
  idempotency_key = text "run-1:push";
  target = text "github:o/r";
  subject = none;
  payload = Json.null;
}

assert_immutable_effect_replay-ReplayAnswer_example :
    ReplayAnswer labels push_intent push_intent
      (assert_immutable_effect_replay labels push_intent push_intent)
assert_immutable_effect_replay-ReplayAnswer_example =
    assert_immutable_effect_replay-ReplayAnswer labels push_intent push_intent

-- A replay of the same intent passes.
same_intent_passes : assert_immutable_effect_replay labels push_intent push_intent ≡ ok tt
unfolding assert_immutable_effect_replay text ◌>>=◌ validate_effect_intent check_json throw_if
    utf8_bytes is_context_id all is_effect_kind list_beq
same_intent_passes = refl
