-- ===== src/Kernel/Proofs/Refines/Settle.antt =====
-- `settle` and `correct_and_settle` against the relation of steps
-- (supervisor/src/pipeline/kernel/reducer.ts).
use openthrottle.Base.{
  ◌≡◌, refl, ap, ◌∙◌, ◌+◌, ◌⊎◌, sorted_record, true, false, Text, Option, none, some, List, list_eq,
  nat_eq, inl, inr, all, contains, truthy, ok, or_throw, or_throw-eq-ok, >>=-eq-ok, Ensures,
  Ensures-ok, Ensures-bind,
}
use openthrottle.Contracts.Effects.{EffectIntent}
use openthrottle.Contracts.Pipeline.{CompiledPipelineStage, PipelineTerminalOutcome}
use openthrottle.Contracts.Records.{ExecutionRecord}
use openthrottle.Kernel.Types.{
  settle, correct_and_settle, KernelRun, KernelRunStatus, KernelAttempt, KernelBarrier,
  ReducerInput, Platform, Settlement, CorrectAndSettle, DecisionAuthorization,
}
use openthrottle.Kernel.Reducer.Settle.{
  settle_sibling, settle_last, settle_authorized, settle_attempt, correct_and_settle_attempt,
  settled, EffectiveTransition, settled_run, assert_transition, assert_successors,
}
use openthrottle.Kernel.Support.{current_attempt, stage_for}
use openthrottle.Kernel.Reducer.Bundle.{BaseContentInput, exact_decision}
use openthrottle.Kernel.Reducer.Terminal.{terminal_run, closed_cursor}
use openthrottle.Kernel.Proofs.Does.{Does, Performs, Settles, waits, follows}
use openthrottle.Kernel.Proofs.Facts.{compile_kernel_cursor-CompiledFor}
use openthrottle.Kernel.Proofs.Emits.{
  Emits, Emits-base_content, Emits-bind, Emits-throw_if, Emits-or_throw, Emits-if, Emits-map,
}
use openthrottle.Kernel.Proofs.Step.{Step, settles_sibling, settles_last, IsSettleable}
use openthrottle.Kernel.Proofs.Refines.External.{authorize_effects-sort}
use openthrottle.Kernel.Proofs.Refines.Session.{current_attempt-eq-ok, rewritten}

ok_texts : {a b : Text} → ok a ≡ ok b → a ≡ b
ok_texts e = cc

module _ (platform : Platform) (input : ReducerInput) where
  module _ (a : KernelAttempt) (current : input.current_attempt ≡ some a)
      (settleable : IsSettleable input a) where
    -- The run after the last settlement of a barrier.
    record Left (accepted : Text) (t : EffectiveTransition) (next_run : KernelRun) : Type 0 where
      pub version_after : next_run.version ≡ input.run.version + 1
      pub subject_after : next_run.current_subject ≡ accepted
      pub arrives :
          ((outcome : PipelineTerminalOutcome) × (t.terminal ≡ some outcome)
            × (next_run.status ≡ KernelRunStatus.ended outcome)
            × (next_run.terminal_outcome ≡ some outcome)
            × (next_run.cursor.stage_id ≡ none))
          ⊎ ((to : Text) × (t.terminal ≡ none)
              × (truthy t.to ≡ some to)
              × (next_run.status ≡ KernelRunStatus.running)
              × (next_run.cursor.stage_id ≡ some to)
              × (next_run.cursor.reentries ≡ sorted_record t.reentries))

    settled_run-Left :
        (c : Settlement) (s : CompiledPipelineStage) (result_id accepted : Text)
        (d : DecisionAuthorization) (completed_keys : List Text) (effects : List EffectIntent)
        (t : EffectiveTransition) (o : Option PipelineTerminalOutcome) (to : Text)
        → t.terminal ≡ o
        → assert_transition input c s result_id d accepted
            (record (input.run) { current_subject = accepted })
            t
            o
          ≡ ok to
        → Ensures (Left accepted t) (
            settled_run input c
              (record (input.run) { current_subject = accepted })
              completed_keys
              effects
              t
              o
              to)
    unfolding settled_run terminal_run assert_transition closed_cursor
    settled_run-Left c s result_id accepted d completed_keys effects t (some outcome) to eo passed =
        Ensures-ok _ (record {
          version_after = refl;
          subject_after = refl;
          arrives = inl (outcome, eo, refl, refl, refl);
        })
    settled_run-Left c s result_id accepted d completed_keys effects t none to eo passed =
        Ensures-bind _ _ λ cursor ec.
          let (destination, named, rest) = >>=-eq-ok (or_throw (truthy t.to) _) _ passed in
          let (_, _, same) =
            >>=-eq-ok (assert_successors input c s destination accepted _) _ rest in
          let compiled = (compile_kernel_cursor-CompiledFor _).at cursor ec in
          Ensures-ok _ (record {
            version_after = refl;
            subject_after = refl;
            arrives = inr (
              to,
              eo,
              or_throw-eq-ok _ _ named ∙ ap some (ok_texts same),
              refl,
              compiled.same_stage,
              compiled.same_reentries,
            );
          })

    -- A step that settles the attempt.
    record Settling (c : Settlement) (result_id : Text) (g : BaseContentInput) : Type 0 where
      pub step : Step input g
      pub settles : Settles input c a result_id g

    settle_sibling-Step :
        (c : Settlement) (result_id : Text) (d : DecisionAuthorization) (completed_keys : List Text)
        (barrier : KernelBarrier) (appended : List ExecutionRecord)
        → current_attempt input c.attempt_id ≡ ok a
        → exact_decision input c.decision_record_id ≡ ok d
        → input.run.cursor.barrier ≡ some barrier
        → all (λ k. contains k completed_keys) barrier.member_scope_keys ≡ false
        → Emits
            (Settling c result_id)
            (settle_sibling input c a (settled a result_id d.decision.id) completed_keys appended)
    unfolding settle_sibling settled
    settle_sibling-Step c result_id d completed_keys barrier appended ea ed eb open' =
        Emits-bind _ _ λ _ _. Emits-throw_if _ _ _ λ _. Emits-base_content _ (record {
          step =
              settles_sibling a result_id d.decision.id completed_keys barrier appended current
                settleable eb open';
          settles = record {
            authorization = d;
            authorized = ed;
            rewritten = rewritten input a _ _ c.attempt_id ea refl refl;
            leaves = waits refl refl refl refl refl;
          };
        })

    settle_last-Step :
        (c : Settlement) (s : CompiledPipelineStage) (result_id : Text) (d : DecisionAuthorization)
        (completed_keys : List Text) (barrier : KernelBarrier) (appended : List ExecutionRecord)
        → current_attempt input c.attempt_id ≡ ok a
        → exact_decision input c.decision_record_id ≡ ok d
        → stage_for input.manifest a.scope.stage_id ≡ ok s
        → input.run.cursor.barrier ≡ some barrier
        → all (λ k. contains k completed_keys) barrier.member_scope_keys ≡ true
        → Emits (Settling c result_id) (
            settle_last platform input c s a result_id d
              (settled a result_id d.decision.id)
              completed_keys
              appended)
    unfolding settle_last settled
    settle_last-Step c s result_id d completed_keys barrier appended ea ed es eb closed =
        Emits-or_throw _ _ _ λ accepted subject. Emits-bind _ _ λ effective ee.
          Emits-bind _ _ λ t et. Emits-bind _ _ λ to passed.
            Emits-bind _ _ λ effects authorized_effects. Emits-bind _ _ λ v fresh.
              Emits-bind _ _ λ next_run run'. Emits-base_content _ (
                let left =
                  (settled_run-Left c s result_id accepted d completed_keys effects t t.terminal to
                      refl passed).at
                    next_run run' in
                record {
                  step =
                      settles_last a c s result_id to accepted d completed_keys barrier appended t
                        effects next_run current settleable eb closed subject passed
                        (record { passed = (v, _, _, _, fresh) }) run';
                  settles = record {
                    authorization = d;
                    authorized = ed;
                    rewritten = rewritten input a _ _ c.attempt_id ea refl left.version_after;
                    leaves =
                        follows s accepted effective t es ee et left.subject_after refl
                          ((authorize_effects-sort platform d.decision input.run.id
                              c.effect_intents).at
                            effects authorized_effects)
                          left.arrives;
                  };
                })

    settle_authorized-Step :
        (c : Settlement) (result_id : Text) (d : DecisionAuthorization)
        (appended : List ExecutionRecord)
        → current_attempt input c.attempt_id ≡ ok a
        → exact_decision input c.decision_record_id ≡ ok d
        → Emits (Settling c result_id) (settle_authorized platform input c a result_id d appended)
    unfolding settle_authorized
    settle_authorized-Step c result_id d appended ea ed = Emits-throw_if _ _ _ λ _.
        Emits-bind _ _ λ s es. Emits-throw_if _ _ _ λ _. Emits-or_throw _ _ _ λ member _.
          Emits-or_throw _ _ _ λ barrier eb.
            Emits-if (all _ barrier.member_scope_keys) _ _
              (λ closed. settle_last-Step c s result_id d _ barrier appended ea ed es eb closed)
              (λ open'. settle_sibling-Step c result_id d _ barrier appended ea ed eb open')

  pub settle_attempt-Performs :
      (c : Settlement) → Emits (Performs input (settle c)) (settle_attempt platform input c)
  unfolding settle_attempt Does
  settle_attempt-Performs c = Emits-bind _ _ λ a ea. Emits-throw_if _ _ _ λ done.
      Emits-or_throw _ _ _ λ result_id er. Emits-bind _ _ λ d ed.
        Emits-map
          (λ g
              (w : Settling a (current_attempt-eq-ok input c.attempt_id ea) (inl done) c result_id
                g).
            record { step = w.step; does = (a, result_id, er, w.settles) })
          (settle_authorized-Step a (current_attempt-eq-ok input c.attempt_id ea) (inl done) c
            result_id d _ ea ed)

  pub correct_and_settle_attempt-Performs :
      (c : CorrectAndSettle)
      → Emits (Performs input (correct_and_settle c)) (correct_and_settle_attempt platform input c)
  unfolding correct_and_settle_attempt Does
  correct_and_settle_attempt-Performs c = Emits-bind _ _ λ a ea. Emits-throw_if _ _ _ λ correcting.
      Emits-or_throw _ _ _ λ _ _. Emits-bind _ _ λ _ _. Emits-throw_if _ _ _ λ _.
        Emits-bind _ _ λ d ed. Emits-bind _ _ λ r er. Emits-bind _ _ λ _ _. Emits-bind _ _ λ _ _.
          Emits-bind _ _ λ _ _.
            Emits-map
              (λ g
                  (w : Settling a (current_attempt-eq-ok input c.attempt_id ea) (inr correcting)
                    c.settlement r.id g).
                record { step = w.step; does = (a, r, er, w.settles) })
              (settle_authorized-Step a (current_attempt-eq-ok input c.attempt_id ea)
                (inr correcting) c.settlement r.id d _ ea ed)
