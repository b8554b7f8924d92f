-- ===== src/Kernel/Reducer/Settle/Lineage.antt =====
-- The subjects of the next attempts: structuredSuccessorSubjects
-- (supervisor/src/pipeline/kernel/reducer.ts).
use openthrottle.Base.{
  Bool, false, not, ◌&&◌, ◌||◌, Option, none, some, List, [], ◌∷◌, ◌++◌, find, Text, truthy, Dict,
  lookup, put, ◌==◌, nat_eq, list_eq, option_eq, get_or, sorted_unique, Result, ok, ◌>>=◌, ◌>>◌,
  throw_if, or_throw, if◌then◌else◌,
}
use openthrottle.Contracts.Pipeline.{CompiledPipelineStage, StageKind, is_effect, is_wait}
use openthrottle.Kernel.Types.{
  KernelAttempt, KernelFrontierMember, AttemptScope, ScopeKind, loop_item, fanout_member, Sibling,
  ReducerInput, is_stage_scope,
}

siblings_beq : Sibling → Sibling → Bool
siblings_beq a b =
    a.parent_attempt_id == b.parent_attempt_id
    && a.group_id == b.group_id
    && a.member_id == b.member_id
    && a.index == b.index

kinds_beq : ScopeKind → ScopeKind → Bool
unfolding siblings_beq
kinds_beq (loop_item a) (loop_item b) = siblings_beq a b
kinds_beq (fanout_member a) (fanout_member b) = siblings_beq a b
kinds_beq _ _ = false

-- sameStructuredLineage
unfoldable pub same_structured_lineage : AttemptScope → AttemptScope → Bool
unfolding kinds_beq
same_structured_lineage a b = kinds_beq a.kind b.kind

-- The subject of one next attempt, and the checkpoint that it comes from.
predecessor_subject : ReducerInput → KernelFrontierMember → Result (Text × List Text)
predecessor_subject input predecessor = do
  checkpoint_id ←
      or_throw (truthy (lookup predecessor.attempt_id input.run.checkpoint_ids))
        "structured predecessor ${predecessor.attempt_id} has no verified checkpoint"
  checkpoint ←
      or_throw (lookup checkpoint_id input.checkpoints)
        "missing exact structured predecessor checkpoint ${checkpointId}"
  throw_if
      (not (checkpoint.pipeline_run_id == input.run.id)
        || not (checkpoint.definition_bundle_hash == input.run.definition_bundle_hash)
        || not (checkpoint.attempt_id == predecessor.attempt_id))
      "structured predecessor checkpoint ${checkpointId} does not match item ${predecessor.scope_key}"
  ok (get_or checkpoint.output_subject checkpoint.input_subject, checkpoint_id ∷ [])

subject_from : ReducerInput → Text → Option KernelFrontierMember → Result (Text × List Text)
unfolding predecessor_subject
subject_from input accepted_subject none = ok (accepted_subject, [])
subject_from input accepted_subject (some predecessor) = predecessor_subject input predecessor

pub record SuccessorSubjects : Type 0 where
  pub subjects : Dict Text
  pub checkpoint_ids : List Text

abbrev external_stage : StageKind → Bool
external_stage kind = is_effect kind || is_wait kind

successor_loop :
    ReducerInput
    → StageKind
    → StageKind
    → Text
    → SuccessorSubjects
    → List KernelAttempt
    → Result SuccessorSubjects
unfolding subject_from
successor_loop input source target accepted_subject found [] = ok found
successor_loop input source target accepted_subject found (next ∷ rest) = do
  let continues =
      not (is_stage_scope next.scope.kind)
      && not (external_stage source)
      && not (external_stage target)
  let predecessor =
      if continues
      then find (λ (m : KernelFrontierMember). same_structured_lineage m.scope next.scope)
          input.run.cursor.frontier
      else none
  subject ← subject_from input accepted_subject predecessor
  successor_loop input source target accepted_subject
      (record {
        subjects = put next.id subject.0 found.subjects;
        checkpoint_ids = found.checkpoint_ids ++ subject.1;
      })
      rest

-- structuredSuccessorSubjects
unfoldable pub structured_successor_subjects :
    ReducerInput
    → CompiledPipelineStage
    → CompiledPipelineStage
    → Text
    → List KernelAttempt
    → Result SuccessorSubjects
unfolding successor_loop
structured_successor_subjects input source target accepted_subject next_attempts = do
  found ←
      successor_loop input source.kind target.kind accepted_subject
        (record { subjects = []; checkpoint_ids = [] }) next_attempts
  ok (record found { checkpoint_ids = sorted_unique found.checkpoint_ids })
