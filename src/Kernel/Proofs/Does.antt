-- ===== src/Kernel/Proofs/Does.antt =====
-- What each command of the reducer does, by its action (supervisor/src/pipeline/kernel/reducer.ts).
-- The attempts and runs are written out here, apart from the functions of the handlers.
mod Parts
use openthrottle.Base.{
  ◌+◌, ◌<◌, ◌≡◌, ◌⊎◌, false, Option, none, some, List, [], ◌∷◌, map, Text, text, text_le, truthy,
  lookup, put, erase, sort, sorted_record, ok, list_eq, nat_eq, is_some, if◌then◌else◌, true,
}
use openthrottle.Contracts.Effects.{EffectIntent}
use openthrottle.Contracts.Lifecycle.{runtime_stop_stage_id}
use openthrottle.Contracts.Pipeline.{PipelineTerminalOutcome, CompiledPipelineStage, runs_effect}
use openthrottle.Contracts.Records.{
  AttemptState, AttemptCheckpoint, DecisionRecord, ExecutionRecord, ResultRecord, decision, result,
}
use openthrottle.Kernel.Types.{
  KernelAction, start, bind_runtime_session, work_complete, result_pending, record_result,
  schedule_external, advance_external_subject, settle, correct_and_settle, retry,
  quarantine_attempt_recovery, needs_human, fail, stop, supersede, KernelRunStatus, KernelAttempt,
  AttemptLease, AttemptWrite, terminal, replace, ReducerInput, ResultDiagnostic, Settlement,
  DecisionAuthorization, KernelTerminalResourceDisposition, pre_provision, cleanup, is_work,
}
use openthrottle.Kernel.Support.{stage_for}
use openthrottle.Kernel.Reducer.Attempt.{normalized_diagnostics}
use openthrottle.Kernel.Reducer.Bundle.{
  BaseContentInput, write_id, exact_decision, record_for_attempt, result_for_attempt,
}
use openthrottle.Kernel.Reducer.Settle.{
  EffectiveTransition, effective_transition, settlement_transition,
}
use openthrottle.Kernel.Proofs.Each.{Each}
use openthrottle.Kernel.Proofs.Step.{Step}
unfoldable pub use Parts.*

module _ (input : ReducerInput) where
  unfoldable pub Does : KernelAction → BaseContentInput → Type 0
  unfolding Ends
  Does (start id lease_id) g =
      (a : KernelAttempt) × (l : AttemptLease) × (a.lease ≡ some l)
      × (l.id ≡ lease_id)
      × (l.started ≡ false)
      × Rewrites input id a
          (record a {
            status =
                if is_work l.purpose then AttemptState.running else AttemptState.result_pending;
            version = a.version + 1;
            lease = some (record l { started = true });
          })
          g
      × GoesOn input a g
      × Appends input [] g
  Does (bind_runtime_session c) g =
      (a : KernelAttempt) × Rewrites input c.attempt_id a
        (record a { native_session_id = some c.native_session_id; version = a.version + 1 }) g
      × GoesOn input a g
      × Appends input [] g
  Does (work_complete c) g =
      (a : KernelAttempt) × (p : AttemptCheckpoint) × Rewrites input c.attempt_id a
        (record a {
          status = AttemptState.work_complete;
          version = a.version + 1;
          lease = none;
          output_subject = c.verified_output_subject;
          native_session_id = p.native_session_id;
          checkpoint_id = some p.id;
          result_record_id = c.result_record_id;
        })
        g
      × GoesOn input a g
      × Owns input a c.checkpoint_id p g
      × (g.append_checkpoints ≡ p ∷ [])
      × (g.run.current_subject ≡ input.run.current_subject)
  Does (result_pending c) g =
      (a : KernelAttempt) × (found : List ResultDiagnostic) × (evidence : DecisionRecord)
      × (normalized_diagnostics c.diagnostics ≡ ok found)
      × Rewrites input c.attempt_id a
          (record a {
            status = AttemptState.result_pending;
            version = a.version + 1;
            lease = none;
            result_correction_deadline = some c.correction_deadline;
            pending_result = some (record {
              candidate_hash = c.candidate_hash;
              diagnostics = found;
              invalid_result_evidence = some c.invalid_result_evidence;
            });
          })
          g
      × GoesOn input a g
      × Appends input (decision evidence ∷ []) g
  Does (record_result id record_id) g =
      (a : KernelAttempt) × (r : ResultRecord) × (record_for_attempt input a record_id ≡ ok r)
      × Rewrites input id a
          (record a {
            status = AttemptState.recorded;
            version = a.version + 1;
            lease = none;
            result_record_id = some r.id;
            pending_result = none;
          })
          g
      × GoesOn input a g
      × Appends input (if is_some a.result_record_id then [] else result r ∷ []) g
  Does (retry id forensics_record_id) g =
      (a : KernelAttempt) × (forensics : List ExecutionRecord) × (a.work_retry_ordinal
        < input.run.work_retry_limit)
      × Rewrites input id a
          (record a {
            status = AttemptState.pending;
            version = a.version + 1;
            work_retry_ordinal = a.work_retry_ordinal + 1;
            native_session_id = none;
            lease = none;
          })
          g
      × GoesOn input a g
      × Appends input forensics g
  Does (schedule_external c) g =
      (a : KernelAttempt) × (p : AttemptCheckpoint) × Rewrites input c.attempt_id a
        (record a {
          status = AttemptState.work_complete;
          version = a.version + 1;
          lease = none;
          output_subject = c.verified_output_subject;
          native_session_id = none;
          checkpoint_id = some p.id;
        })
        g
      × GoesOn input a g
      × Owns input a c.checkpoint_id p g
      × (g.put_effects ≡ sort (λ (x y : EffectIntent). text_le x.id y.id) c.effect_intents)
      × (g.run.current_subject ≡ input.run.current_subject)
  Does (advance_external_subject c) g =
      (a : KernelAttempt) × (p : AttemptCheckpoint) × Rewrites input c.attempt_id a
        (record a {
          version = a.version + 1;
          output_subject = some c.verified_output_subject;
          checkpoint_id = some p.id;
        })
        g
      × GoesOn input a g
      × Owns input a c.checkpoint_id p g
      × (g.append_checkpoints ≡ p ∷ [])
      × (s : CompiledPipelineStage) × (stage_for input.manifest a.scope.stage_id ≡ ok s)
      × (g.run.current_subject ≡ (
          if runs_effect s.kind (text "core/publish@1")
          then c.verified_output_subject
          else input.run.current_subject))
  Does (settle c) g =
      (a : KernelAttempt) × (result_id : Text) × (truthy a.result_record_id ≡ some result_id)
      × Settles input c a result_id g
  Does (correct_and_settle c) g =
      (a : KernelAttempt) × (r : ResultRecord) × (result_for_attempt input a c.result_record_id
        ≡ ok r)
      × Settles input c.settlement a r.id g
  Does (quarantine_attempt_recovery c) g =
      (name_of input.current_attempt ≡ some c.attempt_id)
      × (g.run.status ≡ KernelRunStatus.ended PipelineTerminalOutcome.needs_human)
      × (g.run.terminal_outcome ≡ some PipelineTerminalOutcome.needs_human)
      × (g.run.version ≡ input.run.version + 1)
      × (g.run.cursor.stage_id ≡ none)
      × (g.run.active_attempt_versions ≡ [])
      × (g.run.active_effect_versions ≡ input.run.active_effect_versions)
      × (g.attempt_writes
          ≡ map
              (λ entry. terminal (record {
                attempt_id = entry.0;
                expected_version = entry.1;
                next_version = entry.1 + 1;
                status = AttemptState.needs_human;
              }))
              input.run.active_attempt_versions)
  Does (needs_human attempt_id c) g =
      (name_of input.current_attempt ≡ attempt_id)
      × Ends input PipelineTerminalOutcome.needs_human AttemptState.needs_human
          c.resource_disposition g
  Does (fail attempt_id c) g =
      (name_of input.current_attempt ≡ attempt_id)
      × Ends input PipelineTerminalOutcome.failed AttemptState.failed c.resource_disposition g
  Does (stop c) g =
      Ends input PipelineTerminalOutcome.canceled AttemptState.canceled c.resource_disposition g
  Does (supersede c) g =
      Ends input PipelineTerminalOutcome.superseded AttemptState.superseded c.resource_disposition g

  -- A step, and what the command's action asks for.
  pub record Performs (action : KernelAction) (g : BaseContentInput) : Type 0 where
    pub step : Step input g
    pub does : Does action g
