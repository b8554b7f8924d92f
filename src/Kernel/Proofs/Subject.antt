-- ===== src/Kernel/Proofs/Subject.antt =====
-- The subject and the active effects of a run across a transition
-- (supervisor/src/pipeline/kernel/reducer.ts).
use openthrottle.Base.{
  ℕ, ◌≡◌, refl, ap, sym, ◌∙◌, Bool, true, false, not, ◌⊎◌, inl, inr, Option, none, some, List, [],
  ◌∷◌, Text, Dict, sort, arith, list_eq, nat_eq, ok, subst, is_empty, Ensures, Ensures-bind,
  Ensures-throw_if, Ensures-ok, >>=-eq-ok,
}
use openthrottle.Contracts.Effects.{EffectIntent}
use openthrottle.Contracts.Pipeline.{PipelineTerminalOutcome, CompiledPipelineStage}
use openthrottle.Kernel.Types.{
  KernelRun, KernelAttempt, AttemptWrite, replace, ReducerInput, Platform, Settlement,
  AtomicTransitionBundle, is_terminal_run,
}
use openthrottle.Kernel.Reducer.Attempt.{with_checkpoint}
use openthrottle.Kernel.Reducer.Bundle.{BaseContentInput, base_content, replace_attempt}
use openthrottle.Kernel.Reducer.Dispatch.{reduce_kernel_command}
use openthrottle.Kernel.Reducer.External.{promoted, advanced}
use openthrottle.Kernel.Reducer.Settle.{
  EffectiveTransition, settled, settled_run, accepted_subject, assert_transition,
  assert_terminal_transition,
}
use openthrottle.Kernel.Reducer.Terminal.{terminal_run, quarantined_run}
use openthrottle.Kernel.Proofs.Facts.{BaseFacts, assert_base_input-BaseFacts}
use openthrottle.Kernel.Proofs.Refines.{reduce_kernel_command-Accepted}
use openthrottle.Kernel.Proofs.Runs.{replaced, base_content-run}
use openthrottle.Kernel.Proofs.Step.{
  Step, starts, binds, completes, pends, records_result, retries, schedules, advances,
  settles_sibling, settles_last, quarantines, ends_before_provision, begins_cleanup,
}

-- The subject of a run after a transition: as before, or the output of the one attempt written.
unfoldable pub IsSubject : KernelRun → KernelRun → List AttemptWrite → Type 0
IsSubject before after writes =
    (after.current_subject ≡ before.current_subject)
    ⊎ ((next : KernelAttempt) × (writes ≡ replace next ∷ [])
        × (next.output_subject ≡ some after.current_subject))

accepted_subject-source :
    (run : KernelRun) (s : CompiledPipelineStage) (a : KernelAttempt) {accepted : Text}
    → accepted_subject run s a ≡ some accepted
    → (accepted ≡ run.current_subject) ⊎ (a.output_subject ≡ some accepted)
unfolding accepted_subject
accepted_subject-source run s a e = ground arith

empty_of : (d : Dict ℕ) → is_empty d ≡ true → d ≡ []
empty_of [] e = refl
empty_of (entry ∷ d) e = cc

not-false : (b : Bool) → not b ≡ false → b ≡ true
not-false true e = refl
not-false false e = cc

module _ (input : ReducerInput) (c : Settlement) (subject : Text) (completed_keys : List Text)
    (effects : List EffectIntent) (t : EffectiveTransition) where
  settled_run-subject :
      (o : Option PipelineTerminalOutcome) (to : Text)
      → Ensures
          (λ run. run.current_subject ≡ subject)
          (settled_run input c
            (record (input.run) { current_subject = subject })
            completed_keys
            effects
            t
            o
            to)
  unfolding settled_run terminal_run
  settled_run-subject (some o) to = Ensures-ok _ refl
  settled_run-subject none to = Ensures-bind _ _ λ _ _. Ensures-ok _ refl

  terminal_transition-effects :
      (s : CompiledPipelineStage) (id : Text) (d : _) (o : PipelineTerminalOutcome)
      → Ensures
          (λ _. is_empty input.run.active_effect_versions ≡ true)
          (assert_terminal_transition input c s id d o)
  unfolding assert_terminal_transition
  terminal_transition-effects s id d o = Ensures-bind _ _ λ _ _. Ensures-throw_if _ _ _ λ _.
      Ensures-throw_if _ _ _ λ _.
        Ensures-throw_if _ _ _
          λ _. Ensures-throw_if _ _ _ λ free. record { at = λ _ _. not-false _ free }

  -- A settlement that ends the run has no effect to strand.
  settled_run-effects :
      (s : CompiledPipelineStage) (id : Text) (d : _) (accepted : Text) (run : KernelRun)
      (o : Option PipelineTerminalOutcome) (to : Text)
      → assert_transition input c s id d accepted run t o ≡ ok to
      → Ensures
          (λ next.
            is_terminal_run next.status ≡ true
            → next.active_effect_versions ≡ input.run.active_effect_versions)
          (settled_run input c
            (record (input.run) { current_subject = subject })
            completed_keys
            effects
            t
            o
            to)
  unfolding settled_run assert_transition terminal_run
  settled_run-effects s id d accepted run (some o) to e =
      let (u, passed, _) = >>=-eq-ok (assert_terminal_transition input c s id d o) _ e in
      let free = (terminal_transition-effects s id d o).at u passed in
      Ensures-ok _ (λ _. sym (empty_of _ free))
  settled_run-effects s id d accepted run none to e =
      Ensures-bind _ _ λ _ _. Ensures-ok _ (λ ended. cc)

module _ (input : ReducerInput) (facts : BaseFacts input) where
  Step-IsSubject :
      (g : BaseContentInput) → Step input g → IsSubject input.run g.run g.attempt_writes
  unfolding IsSubject with_checkpoint promoted replace_attempt settled advanced terminal_run
      quarantined_run
  Step-IsSubject _ (starts a l _ _ _ _) = inl refl
  Step-IsSubject _ (binds a l session _ _ _ _ _) = inl refl
  Step-IsSubject _ (completes a c p results u _ _ _ _) = inl refl
  Step-IsSubject _ (pends a c found evidence _ _ _) = inl refl
  Step-IsSubject _ (records_result a id appended _ _) = inl refl
  Step-IsSubject _ (retries a forensics _ _ _) = inl refl
  Step-IsSubject _ (schedules a c p appended checkpoints effects s u _ _ _ _) = inl refl
  Step-IsSubject _ (advances a c p true integration _ _) = inr (_, refl, refl)
  Step-IsSubject _ (advances a c p false integration _ _) = inl refl
  Step-IsSubject _
        (settles_sibling a result_id decision_id completed_keys barrier appended _ _ _ _) =
      inl refl
  Step-IsSubject _
        (settles_last a c s result_id to accepted d completed_keys barrier appended t effects
          next_run _ _ _ _ from _ _ moved) =
      let same =
        (settled_run-subject input c accepted completed_keys effects t t.terminal to).at next_run
          moved in
      elim (accepted_subject-source input.run s a from) [
        | inl kept ↦ inl (same ∙ kept)
        | inr output ↦ inr (_, refl, output ∙ ap some (sym same))
      ]
  Step-IsSubject _ (quarantines a l diagnostic _ _ _) = inl refl
  Step-IsSubject _ (ends_before_provision kind d _) = inl refl
  Step-IsSubject _ (begins_cleanup kind plan cursor appended u v _ _ _ _) = inl refl

  -- A command that rewrites its attempt leaves the run live.
  still_live :
      (a : KernelAttempt) {d : Dict ℕ}
      → is_terminal_run (replace_attempt input.run a).status ≡ true
      → d ≡ input.run.active_effect_versions
  still_live a e = ground (arith, replaced input facts a, facts.run_is_live)

  Step-effects :
      (g : BaseContentInput)
      → Step input g
      → is_terminal_run g.run.status ≡ true
      → g.run.active_effect_versions ≡ input.run.active_effect_versions
  unfolding with_checkpoint promoted replace_attempt terminal_run quarantined_run
  Step-effects _ (starts a l _ _ _ _) e = refl
  Step-effects _ (binds a l session _ _ _ _ _) e = refl
  Step-effects _ (completes a c p results u _ _ _ _) e = refl
  Step-effects _ (pends a c found evidence _ _ _) e = refl
  Step-effects _ (records_result a id appended _ _) e = refl
  Step-effects _ (retries a forensics _ _ _) e = refl
  Step-effects _ (schedules a c p appended checkpoints effects s u _ _ _ _) e = still_live a e
  Step-effects _ (advances a c p true integration _ _) e = refl
  Step-effects _ (advances a c p false integration _ _) e = refl
  Step-effects _ (settles_sibling a result_id decision_id completed_keys barrier appended _ _ _ _)
        e =
      refl
  Step-effects _
        (settles_last a c s result_id to accepted d completed_keys barrier appended t effects
          next_run _ _ _ _ _ asserted _ moved)
        e =
      (settled_run-effects input c accepted completed_keys effects t s result_id d accepted _
          t.terminal to asserted).at
        next_run moved e
  Step-effects _ (quarantines a l diagnostic _ _ _) e = refl
  Step-effects _ (ends_before_provision kind d free) e = sym (empty_of _ free)
  Step-effects _ (begins_cleanup kind plan cursor appended u v free _ _ _) e = sym (empty_of _ free)

base_content-IsSubject :
    (run : KernelRun) (g : BaseContentInput)
    → IsSubject run g.run g.attempt_writes
    → Ensures (λ c. IsSubject run c.run c.attempt_writes) (base_content g)
unfolding base_content IsSubject sort
base_content-IsSubject run g (inl same) = Ensures-bind _ _ λ _ _. Ensures-ok _ (inl same)
base_content-IsSubject run g (inr (next, one, output)) =
    Ensures-bind _ _ λ _ _. Ensures-ok _ (inr (next, ap (sort _) one, output))

-- The subject of a run changes only to the output of the one attempt that the transition writes.
pub reduce_kernel_command-IsSubject :
    (platform : Platform) (input : ReducerInput) {b : AtomicTransitionBundle}
    → reduce_kernel_command platform input ≡ ok b
    → IsSubject input.run b.content.run b.content.attempt_writes
reduce_kernel_command-IsSubject platform input {b} e =
    let accepted = reduce_kernel_command-Accepted platform input e in
    let facts = assert_base_input-BaseFacts input accepted.guarded in
    (base_content-IsSubject input.run accepted.given
        (Step-IsSubject input facts accepted.given accepted.step)).at
      b.content accepted.written

-- A transition that ends the run keeps every active effect of the run: none is stranded.
pub reduce_kernel_command-effects :
    (platform : Platform) (input : ReducerInput) {b : AtomicTransitionBundle}
    → reduce_kernel_command platform input ≡ ok b
    → is_terminal_run b.content.run.status ≡ true
    → b.content.run.active_effect_versions ≡ input.run.active_effect_versions
reduce_kernel_command-effects platform input {b} e =
    let accepted = reduce_kernel_command-Accepted platform input e in
    let facts = assert_base_input-BaseFacts input accepted.guarded in
    subst
      (λ run.
        is_terminal_run run.status ≡ true
        → run.active_effect_versions ≡ input.run.active_effect_versions)
      (sym ((base_content-run accepted.given).at b.content accepted.written))
      (Step-effects input facts accepted.given accepted.step)
