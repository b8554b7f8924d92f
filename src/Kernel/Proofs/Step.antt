-- ===== src/Kernel/Proofs/Step.antt =====
-- The transitions of a run as a relation, apart from the code that checks a command: `Step` relates
-- the state that a command is given to the arguments of the content that it writes.
use openthrottle.Base.{
  ◌≡◌, ◌+◌, Bool, true, false, not, ◌&&◌, ◌||◌, ◌⊎◌, none, some, List, [], ◌∷◌, map, Text, all,
  contains, is_empty, is_some, leb, sorted_record, erase, get_or, ◌==◌, list_eq, nat_eq, option_eq,
  ok,
}
use openthrottle.Contracts.Effects.{EffectIntent}
use openthrottle.Contracts.Formats.{is_native_session_id}
use openthrottle.Contracts.Lifecycle.{runtime_stop_stage_id}
use openthrottle.Contracts.Pipeline.{CompiledPipelineStage, is_effect, is_wait}
use openthrottle.Contracts.Records.{
  AttemptState, AttemptCheckpoint, DecisionRecord, ExecutionRecord, decision,
}
use openthrottle.Kernel.Types.{
  KernelRunStatus, KernelRun, KernelCursor, KernelAttempt, KernelBarrier, AttemptLease,
  ReducerInput, WorkComplete, ResultPending, ResultDiagnostic, ScheduleExternal,
  AdvanceExternalSubject, Settlement, Cleanup, DecisionAuthorization, is_pending, is_running,
  is_work_complete, is_result_pending, is_recorded, is_work,
}
use openthrottle.Kernel.Cursor.{compile_kernel_cursor}
use openthrottle.Kernel.Reducer.Attempt.{
  holds_started, for_work, for_correction, completed, awaiting_result, recorded, retried,
  with_checkpoint, assert_completed_subject,
}
use openthrottle.Kernel.Reducer.Bundle.{
  BaseContentInput, rewrites, replace_attempt, expected_for, owned_by_another,
  assert_unique_new_attempts, assert_pending_attempt,
}
use openthrottle.Kernel.Reducer.External.{
  scheduled, advanced, promoted, assert_phase, assert_new_effects, activate_effects,
}
use openthrottle.Kernel.Reducer.Session.{started, bound}
use openthrottle.Kernel.Reducer.Settle.{
  EffectiveTransition, accepted_subject, assert_transition, settled, settled_run,
}
use openthrottle.Kernel.Reducer.Terminal.{
  TerminalKind, outcome_of, status_of, terminal_run, terminal_attempt_writes, quarantined_run,
  terminal_write,
}

module _ (input : ReducerInput) where
  -- Recorded work, or a correction under a started lease.
  abbrev pub IsSettleable : KernelAttempt → Type 0
  IsSettleable a =
      (not (is_recorded a.status) ≡ false)
      ⊎ ((not (is_result_pending a.status)
            || is_some a.result_record_id
            || not (holds_started for_correction a.lease))
          ≡ false)

  -- The guards on the effects of a command were passed, with some messages.
  pub record AreNewEffects (subject : Text) (effects : List EffectIntent) : Type 0 where
    pub passed :
        (u : Unit {0}) × (m n o : _) × (assert_new_effects input.run subject m n o effects ≡ ok u)

  pub data Step : BaseContentInput → Type 0 where
    starts :
        (a : KernelAttempt) (l : AttemptLease)
        → input.current_attempt ≡ some a
        → a.lease ≡ some l
        → l.started ≡ false
        → (not (is_pending a.status) && not (is_result_pending a.status)) ≡ false
        → Step (rewrites input a (replace_attempt input.run (started a l)) (started a l))
    binds :
        (a : KernelAttempt) (l : AttemptLease) (session : Text)
        → input.current_attempt ≡ some a
        → a.lease ≡ some l
        → (not l.started || not (is_work l.purpose) || not (is_running a.status)) ≡ false
        → is_some a.native_session_id ≡ false
        → not (is_native_session_id session) ≡ false
        → Step (rewrites input a (replace_attempt input.run (bound a session)) (bound a session))
    completes :
        (a : KernelAttempt) (c : WorkComplete) (p : AttemptCheckpoint)
        (results : List ExecutionRecord) (u : Unit {0})
        → input.current_attempt ≡ some a
        → (not (is_running a.status) || not (holds_started for_work a.lease)) ≡ false
        → owned_by_another p.id a.id input.run.checkpoint_ids ≡ false
        → assert_completed_subject a c p ≡ ok u
        → Step
            (record (rewrites input a
              (with_checkpoint input.run (replace_attempt input.run (completed a c p)) a.id p.id)
              (completed a c p)) { append_records = results; append_checkpoints = p ∷ [] })
    pends :
        (a : KernelAttempt) (c : ResultPending) (found : List ResultDiagnostic)
        (evidence : DecisionRecord)
        → input.current_attempt ≡ some a
        → (not (is_work_complete a.status)
            && not (is_result_pending a.status && holds_started for_correction a.lease))
          ≡ false
        → (is_some a.result_correction_deadline
            && not (a.result_correction_deadline == some c.correction_deadline))
          ≡ false
        → Step
            (record (rewrites input a
              (replace_attempt input.run (awaiting_result a c found))
              (awaiting_result a c found)) { append_records = decision evidence ∷ [] })
    records_result :
        (a : KernelAttempt) (result_id : Text) (appended : List ExecutionRecord)
        → input.current_attempt ≡ some a
        → (not (is_work_complete a.status) && not (is_result_pending a.status)) ≡ false
        → Step
            (record (rewrites input a
              (replace_attempt input.run (recorded a result_id))
              (recorded a result_id)) { append_records = appended })
    retries :
        (a : KernelAttempt) (forensics : List ExecutionRecord)
        → input.current_attempt ≡ some a
        → (not (is_pending a.status) && not (is_running a.status)) ≡ false
        → leb input.run.work_retry_limit a.work_retry_ordinal ≡ false
        → Step (record (rewrites input a (replace_attempt input.run (retried a)) (retried a)) {
          append_records = forensics;
        })
    schedules :
        (a : KernelAttempt) (c : ScheduleExternal) (p : AttemptCheckpoint)
        (appended : List ExecutionRecord) (checkpoints : List AttemptCheckpoint)
        (effects : List EffectIntent) (s : CompiledPipelineStage) (u : Unit {0})
        → input.current_attempt ≡ some a
        → (not (is_effect s.kind) && not (is_wait s.kind)) ≡ false
        → assert_phase a c.checkpoint_id ≡ ok u
        → AreNewEffects (get_or c.verified_output_subject input.run.current_subject) effects
        → Step
            (record (rewrites input a
              (record (with_checkpoint input.run
                (replace_attempt input.run (scheduled a c p.id))
                a.id
                p.id) {
                  active_effect_versions =
                      sorted_record (activate_effects effects input.run.active_effect_versions);
                })
              (scheduled a c p.id)) {
                append_records = appended;
                append_checkpoints = checkpoints;
                put_effects = effects;
              })
    advances :
        (a : KernelAttempt) (c : AdvanceExternalSubject) (p : AttemptCheckpoint)
        (publication integration : Bool)
        → input.current_attempt ≡ some a
        → (not (integration || publication)
            || not (is_work_complete a.status)
            || is_some a.lease
            || is_some a.output_subject
            || not (a.checkpoint_id == some c.prior_checkpoint_id)
            || not (is_empty input.run.active_effect_versions))
          ≡ false
        → Step
            (record (rewrites input a
              (with_checkpoint input.run
                (promoted publication
                  (replace_attempt input.run (advanced a c p.id))
                  c.verified_output_subject)
                a.id
                p.id)
              (advanced a c p.id)) { append_checkpoints = p ∷ [] })
    settles_sibling :
        (a : KernelAttempt) (result_id decision_id : Text) (completed_keys : List Text)
        (barrier : KernelBarrier) (appended : List ExecutionRecord)
        → input.current_attempt ≡ some a
        → IsSettleable a
        → input.run.cursor.barrier ≡ some barrier
        → all (λ k. contains k completed_keys) barrier.member_scope_keys ≡ false
        → Step
            (record (rewrites input a
              (record input.run {
                version = input.run.version + 1;
                cursor = record (input.run.cursor) {
                  version = input.run.cursor.version + 1;
                  completed_scope_keys = completed_keys;
                };
                active_attempt_versions =
                    sorted_record (erase a.id input.run.active_attempt_versions);
              })
              (settled a result_id decision_id)) { append_records = appended })
    settles_last :
        (a : KernelAttempt) (c : Settlement) (s : CompiledPipelineStage)
        (result_id to accepted : Text) (d : DecisionAuthorization) (completed_keys : List Text)
        (barrier : KernelBarrier) (appended : List ExecutionRecord) (t : EffectiveTransition)
        (effects : List EffectIntent) (next_run : KernelRun)
        → input.current_attempt ≡ some a
        → IsSettleable a
        → input.run.cursor.barrier ≡ some barrier
        → all (λ k. contains k completed_keys) barrier.member_scope_keys ≡ true
        → accepted_subject input.run s a ≡ some accepted
        → assert_transition input c s result_id d accepted
            (record (input.run) { current_subject = accepted })
            t
            t.terminal
          ≡ ok to
        → AreNewEffects accepted effects
        → settled_run input c
            (record (input.run) { current_subject = accepted })
            completed_keys
            effects
            t
            t.terminal
            to
          ≡ ok next_run
        → Step (record (rewrites input a next_run (settled a result_id d.decision.id)) {
          create_attempts = c.next_attempts;
          append_records = appended;
          put_effects = effects;
        })
    quarantines :
        (a : KernelAttempt) (l : AttemptLease) (diagnostic : DecisionRecord)
        → input.current_attempt ≡ some a
        → a.lease ≡ some l
        → leb input.run.work_retry_limit l.generation ≡ true
        → Step (record {
          command_id = input.command.command_id;
          expected = expected_for input.run input.run.active_attempt_versions;
          run = quarantined_run input.run;
          attempt_writes =
              map
                (λ entry. terminal_write entry.0 entry.1 AttemptState.needs_human)
                input.run.active_attempt_versions;
          create_attempts = [];
          append_records = decision diagnostic ∷ [];
          append_checkpoints = [];
          put_effects = [];
        })
    ends_before_provision :
        (kind : TerminalKind) (d : DecisionRecord)
        → is_empty input.run.active_effect_versions ≡ true
        → Step (record {
          command_id = input.command.command_id;
          expected = expected_for input.run (sorted_record input.run.active_attempt_versions);
          run = terminal_run input.run (outcome_of kind);
          attempt_writes = terminal_attempt_writes input.run input.current_attempt (status_of kind);
          create_attempts = [];
          append_records = decision d ∷ [];
          append_checkpoints = [];
          put_effects = [];
        })
    begins_cleanup :
        (kind : TerminalKind) (plan : Cleanup) (cursor : KernelCursor)
        (appended : List ExecutionRecord) (u v : Unit {0})
        → is_empty input.run.active_effect_versions ≡ true
        → assert_unique_new_attempts (plan.cleanup_attempt ∷ []) input.run ≡ ok u
        → assert_pending_attempt input.manifest input.run
            (runtime_stop_stage_id (outcome_of kind))
            input.run.current_subject
            plan.cleanup_attempt
          ≡ ok v
        → compile_kernel_cursor (record {
          stage_id = runtime_stop_stage_id (outcome_of kind);
          version = input.run.cursor.version + 1;
          reentries = input.run.cursor.reentries;
          attempts = plan.cleanup_attempt ∷ [];
          dependencies = [];
          completed_scope_keys = input.run.cursor.completed_scope_keys;
        })
          ≡ ok cursor
        → Step (record {
          command_id = input.command.command_id;
          expected = expected_for input.run (sorted_record input.run.active_attempt_versions);
          run = record (input.run) {
            status = KernelRunStatus.running;
            terminal_outcome = none;
            version = input.run.version + 1;
            cursor = cursor;
            active_attempt_versions = (plan.cleanup_attempt.id, 0) ∷ [];
            active_effect_versions = [];
          };
          attempt_writes = terminal_attempt_writes input.run input.current_attempt (status_of kind);
          create_attempts = plan.cleanup_attempt ∷ [];
          append_records = appended;
          append_checkpoints = [];
          put_effects = [];
        })
