-- ===== src/Kernel/Proofs/Does/Parts.antt =====
-- What commands of the reducer have in common: how an attempt is written and what becomes of the
-- run (supervisor/src/pipeline/kernel/reducer.ts).
use openthrottle.Base.{
  ◌+◌, ◌≡◌, ◌⊎◌, Option, none, some, List, [], ◌∷◌, map, Text, text_le, truthy, lookup, put, erase,
  sort, sorted_record, ok, list_eq, nat_eq,
}
use openthrottle.Contracts.Effects.{EffectIntent}
use openthrottle.Contracts.Lifecycle.{runtime_stop_stage_id}
use openthrottle.Contracts.Pipeline.{PipelineTerminalOutcome, CompiledPipelineStage}
use openthrottle.Contracts.Records.{AttemptState, AttemptCheckpoint, ExecutionRecord}
use openthrottle.Kernel.Types.{
  KernelRunStatus, KernelAttempt, AttemptWrite, terminal, replace, ReducerInput, Settlement,
  DecisionAuthorization, KernelTerminalResourceDisposition, pre_provision, cleanup,
}
use openthrottle.Kernel.Support.{stage_for}
use openthrottle.Kernel.Reducer.Bundle.{BaseContentInput, write_id, exact_decision}
use openthrottle.Kernel.Reducer.Settle.{
  EffectiveTransition, effective_transition, settlement_transition,
}
use openthrottle.Kernel.Proofs.Each.{Each}

abbrev pub under_way : KernelRunStatus → KernelRunStatus
under_way KernelRunStatus.pending = KernelRunStatus.running
under_way KernelRunStatus.running = KernelRunStatus.running
under_way (KernelRunStatus.ended outcome) = KernelRunStatus.ended outcome

abbrev pub name_of : Option KernelAttempt → Option Text
name_of none = none
name_of (some a) = some a.id

module _ (input : ReducerInput) where
  -- The command names the current attempt, and writes it as `next` and no other.
  pub record Rewrites (id : Text) (a next : KernelAttempt) (g : BaseContentInput) : Type 0 where
    pub is_current : input.current_attempt ≡ some a
    pub is_named : a.id ≡ id
    pub one_write : g.attempt_writes ≡ replace next ∷ []
    pub run_version : g.run.version ≡ input.run.version + 1

  -- The run stays at its stage and its cursor, with the attempt one version later.
  pub record GoesOn (a : KernelAttempt) (g : BaseContentInput) : Type 0 where
    pub under_way_now : g.run.status ≡ under_way input.run.status
    pub same_cursor : g.run.cursor ≡ input.run.cursor
    pub active :
        g.run.active_attempt_versions
        ≡ sorted_record (put a.id (a.version + 1) input.run.active_attempt_versions)
    pub creates_none : g.create_attempts ≡ []

  -- No checkpoint, subject or effect changes, and these records are appended.
  pub record Appends (records : List ExecutionRecord) (g : BaseContentInput) : Type 0 where
    pub appended : g.append_records ≡ records
    pub no_checkpoints : g.append_checkpoints ≡ []
    pub no_effects : g.put_effects ≡ []
    pub same_subject : g.run.current_subject ≡ input.run.current_subject
    pub same_checkpoints : g.run.checkpoint_ids ≡ input.run.checkpoint_ids
    pub same_effects : g.run.active_effect_versions ≡ input.run.active_effect_versions

  -- The attempt owns the checkpoint that the command names.
  pub record Owns (a : KernelAttempt) (checkpoint_id : Text) (p : AttemptCheckpoint)
      (g : BaseContentInput) : Type 0 where
    pub is_given : lookup checkpoint_id input.checkpoints ≡ some p
    pub owned : g.run.checkpoint_ids ≡ sorted_record (put a.id p.id input.run.checkpoint_ids)

  -- How a settlement leaves the run: waiting for siblings, ended, or at the next stage. The last two
  -- are as the transition of the outcome says, or the one that replaces it in a sandbox recovery.
  pub data Leaves (c : Settlement) (a : KernelAttempt) (d : DecisionAuthorization)
      (g : BaseContentInput) : Type 0 where
    waits :
        g.run.status ≡ input.run.status
        → g.run.cursor.stage_id ≡ input.run.cursor.stage_id
        → g.run.active_attempt_versions
          ≡ sorted_record (erase a.id input.run.active_attempt_versions)
        → g.create_attempts ≡ []
        → g.put_effects ≡ []
        → Leaves c a d g
    follows :
        (s : CompiledPipelineStage) (accepted : Text) (effective t : EffectiveTransition)
        → stage_for input.manifest a.scope.stage_id ≡ ok s
        → effective_transition (record (input.run) { current_subject = accepted }) s c.outcome
          ≡ ok effective
        → settlement_transition input c s d effective c.sandbox_recovery ≡ ok t
        → g.run.current_subject ≡ accepted
        → g.create_attempts ≡ c.next_attempts
        → g.put_effects ≡ sort (λ (x y : EffectIntent). text_le x.id y.id) c.effect_intents
        → ((outcome : PipelineTerminalOutcome) × (t.terminal ≡ some outcome)
            × (g.run.status ≡ KernelRunStatus.ended outcome)
            × (g.run.terminal_outcome ≡ some outcome)
            × (g.run.cursor.stage_id ≡ none))
          ⊎ ((to : Text) × (t.terminal ≡ none)
              × (truthy t.to ≡ some to)
              × (g.run.status ≡ KernelRunStatus.running)
              × (g.run.cursor.stage_id ≡ some to)
              × (g.run.cursor.reentries ≡ sorted_record t.reentries))
        → Leaves c a d g

  pub record Settles (c : Settlement) (a : KernelAttempt) (result_id : Text) (g : BaseContentInput)
      : Type 0 where
    pub authorization : DecisionAuthorization
    pub authorized : exact_decision input c.decision_record_id ≡ ok authorization
    pub rewritten :
        Rewrites c.attempt_id a
          (record a {
            status = AttemptState.settled;
            version = a.version + 1;
            lease = none;
            result_record_id = some result_id;
            decision_record_id = some authorization.decision.id;
            result_correction_deadline = none;
            pending_result = none;
          })
          g
    pub leaves : Leaves c a authorization g

  unfoldable pub HasStatus : AttemptState → AttemptWrite → Type 0
  HasStatus status (replace next) = next.status ≡ status
  HasStatus status (terminal w) = (w.status ≡ status) × (w.next_version ≡ w.expected_version + 1)

  -- How a command that ends a run leaves it, by the disposition of its sandboxes.
  unfoldable pub EndsAs :
      PipelineTerminalOutcome → KernelTerminalResourceDisposition → BaseContentInput → Type 0
  EndsAs outcome pre_provision g =
      (g.run.status ≡ KernelRunStatus.ended outcome)
      × (g.run.terminal_outcome ≡ some outcome)
      × (g.run.cursor.stage_id ≡ none)
      × (g.run.active_attempt_versions ≡ [])
      × (g.create_attempts ≡ [])
  EndsAs outcome (cleanup plan) g =
      (g.run.status ≡ KernelRunStatus.running)
      × (g.run.cursor.stage_id ≡ some (runtime_stop_stage_id outcome))
      × (g.run.active_attempt_versions ≡ (plan.cleanup_attempt.id, 0) ∷ [])
      × (g.create_attempts ≡ plan.cleanup_attempt ∷ [])

  -- Every active attempt ends in `status`.
  unfoldable pub Ends :
      PipelineTerminalOutcome
      → AttemptState
      → KernelTerminalResourceDisposition
      → BaseContentInput
      → Type 0
  unfolding EndsAs HasStatus
  Ends outcome status disposition g =
      EndsAs outcome disposition g
      × Each (HasStatus status) g.attempt_writes
      × (map write_id g.attempt_writes ≡ map (λ entry. entry.0) input.run.active_attempt_versions)
      × (g.run.version ≡ input.run.version + 1)
