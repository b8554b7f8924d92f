-- ===== src/Kernel/Proofs/Refines/Dispatch.antt =====
-- reduceKernelCommand of supervisor/src/pipeline/kernel/reducer.ts against the relation of steps.
use openthrottle.Base.{◌≡◌, ok, arith, ◌∙◌, ap, >>=-eq-ok}
use openthrottle.Kernel.Types.{
  KernelAction, start, bind_runtime_session, work_complete, result_pending, record_result,
  schedule_external, advance_external_subject, settle, correct_and_settle, retry,
  quarantine_attempt_recovery, needs_human, fail, stop, supersede, ReducerInput, Platform,
  AtomicTransitionBundle,
}
use openthrottle.Kernel.Support.{assert_base_input}
use openthrottle.Kernel.Reducer.Bundle.{BaseContentInput, base_content}
use openthrottle.Kernel.Reducer.Dispatch.{dispatch, bundle, reduce_kernel_command}
use openthrottle.Kernel.Reducer.Terminal.{outcome_of, status_of}
use openthrottle.Kernel.Proofs.Does.{Does, Performs}
use openthrottle.Kernel.Proofs.Emits.{Emits, Emits-map}
use openthrottle.Kernel.Proofs.Step.{Step}
use openthrottle.Kernel.Proofs.Refines.Session.{start_attempt-Performs, bind_session-Performs}
use openthrottle.Kernel.Proofs.Refines.Attempt.{
  complete_work-Performs, pend_result-Performs, record_attempt_result-Performs,
  retry_attempt-Performs,
}
use openthrottle.Kernel.Proofs.Refines.External.{
  schedule_effects-Performs, advance_subject-Performs,
}
use openthrottle.Kernel.Proofs.Refines.Settle.{
  settle_attempt-Performs, correct_and_settle_attempt-Performs,
}
use openthrottle.Kernel.Proofs.Refines.Terminal.{
  quarantine_case-Performs, terminal_command-Terminates, Names,
}

dispatch-Performs :
    (platform : Platform) (input : ReducerInput) (action : KernelAction)
    → Emits (Performs input action) (dispatch platform input action)
unfolding dispatch Does outcome_of status_of Names
dispatch-Performs platform input (start id lease_id) = start_attempt-Performs input id lease_id
dispatch-Performs platform input (bind_runtime_session c) = bind_session-Performs input c
dispatch-Performs platform input (work_complete c) = complete_work-Performs input c
dispatch-Performs platform input (schedule_external c) = schedule_effects-Performs platform input c
dispatch-Performs platform input (advance_external_subject c) = advance_subject-Performs input c
dispatch-Performs platform input (result_pending c) = pend_result-Performs platform input c
dispatch-Performs platform input (record_result id record_id) =
    record_attempt_result-Performs platform input id record_id
dispatch-Performs platform input (settle c) = settle_attempt-Performs platform input c
dispatch-Performs platform input (correct_and_settle c) =
    correct_and_settle_attempt-Performs platform input c
dispatch-Performs platform input (retry id record_id) =
    retry_attempt-Performs platform input id record_id
dispatch-Performs platform input (quarantine_attempt_recovery c) = quarantine_case-Performs input c
dispatch-Performs platform input (needs_human id c) =
    Emits-map (λ g w. record { step = w.step; does = (w.names, w.ends) })
      (terminal_command-Terminates input platform _ _ _ _)
dispatch-Performs platform input (fail id c) =
    Emits-map (λ g w. record { step = w.step; does = (w.names, w.ends) })
      (terminal_command-Terminates input platform _ _ _ _)
dispatch-Performs platform input (stop c) =
    Emits-map (λ g w. record { step = w.step; does = w.ends })
      (terminal_command-Terminates input platform _ _ _ _)
dispatch-Performs platform input (supersede c) =
    Emits-map (λ g w. record { step = w.step; does = w.ends })
      (terminal_command-Terminates input platform _ _ _ _)

-- What an accepted command wrote: it passed the base guards, its content is that of a step that does
-- what the action asks for, and its hash is that of the content.
pub record Accepted (platform : Platform) (input : ReducerInput) (b : AtomicTransitionBundle)
    : Type 0 where
  pub guarded : assert_base_input input ≡ ok tt
  pub given : BaseContentInput
  pub step : Step input given
  pub does : Does input input.command.action given
  pub written : base_content given ≡ ok b.content
  pub sealed : bundle platform b.content ≡ b

-- A command that the reducer accepts passed the guards on its input. The content of its bundle is
-- that of a step of the relation, whose guards hold, and it does what its action asks for: it names
-- the current attempt and writes it as the action says, and leaves the run at its stage, settled,
-- at the stage that follows, or ended with the outcome of the action. The bundle carries the
-- content's hash.
pub reduce_kernel_command-Accepted :
    (platform : Platform) (input : ReducerInput) {b : AtomicTransitionBundle}
    → reduce_kernel_command platform input ≡ ok b
    → Accepted platform input b
unfolding reduce_kernel_command bundle
reduce_kernel_command-Accepted platform input {b} e =
    let (u, guards, rest) = >>=-eq-ok (assert_base_input input) _ e in
    let (content, wrote, sealed) =
      >>=-eq-ok (dispatch platform input input.command.action) _ rest in
    let (given, performs, written) =
      (dispatch-Performs platform input input.command.action).at content wrote in
    let same : content ≡ b.content = ground arith in
    record {
      guarded = guards;
      given = given;
      step = performs.step;
      does = performs.does;
      written = written ∙ ap ok same;
      sealed = ground arith;
    }
