-- ===== src/Kernel/Proofs/Runs.antt =====
-- The status and the outcome of a run across a transition (supervisor/src/pipeline/kernel/reducer.ts).
use openthrottle.Base.{
  ◌≡◌, refl, ap, sym, ◌∙◌, true, false, Option, none, some, List, [], Text, arith, list_eq, nat_eq,
  ok, subst, is_some, Ensures, Ensures-bind, Ensures-ok,
}
use openthrottle.Contracts.Effects.{EffectIntent}
use openthrottle.Contracts.Pipeline.{PipelineTerminalOutcome}
use openthrottle.Kernel.Types.{
  KernelRun, KernelRunStatus, KernelAttempt, ReducerInput, Platform, Settlement,
  AtomicTransitionBundle, is_terminal_run,
}
use openthrottle.Kernel.Reducer.Attempt.{with_checkpoint}
use openthrottle.Kernel.Reducer.Bundle.{BaseContentInput, base_content, replace_attempt}
use openthrottle.Kernel.Reducer.Dispatch.{reduce_kernel_command}
use openthrottle.Kernel.Reducer.External.{promoted}
use openthrottle.Kernel.Reducer.Settle.{EffectiveTransition, settled_run}
use openthrottle.Kernel.Reducer.Terminal.{terminal_run, quarantined_run, closed_cursor}
use openthrottle.Kernel.Proofs.Facts.{
  BaseFacts, assert_base_input-BaseFacts, compile_kernel_cursor-CompiledFor,
}
use openthrottle.Kernel.Proofs.Refines.{reduce_kernel_command-Accepted}
use openthrottle.Kernel.Proofs.Step.{
  Step, starts, binds, completes, pends, records_result, retries, schedules, advances,
  settles_sibling, settles_last, quarantines, ends_before_provision, begins_cleanup,
}

-- A run has an outcome, that of its status, exactly when it has ended; it has a stage, a frontier
-- and active attempts only before it has ended.
unfoldable pub ConsistentAs : KernelRunStatus → KernelRun → Type 0
ConsistentAs (KernelRunStatus.ended outcome) run =
    (run.terminal_outcome ≡ some outcome)
    × (run.cursor.stage_id ≡ none)
    × (run.cursor.frontier ≡ [])
    × (run.active_attempt_versions ≡ [])
ConsistentAs _ run = (run.terminal_outcome ≡ none) × (is_some run.cursor.stage_id ≡ true)

abbrev pub IsConsistent : KernelRun → Type 0
IsConsistent run = ConsistentAs run.status run

none_of {ℓ} : {A : Type ℓ} (o : Option A) → is_some o ≡ false → o ≡ none
none_of none e = refl
none_of (some a) e = cc

live-ConsistentAs :
    (s : KernelRunStatus) (run : KernelRun)
    → is_terminal_run s ≡ false
    → run.terminal_outcome ≡ none
    → is_some run.cursor.stage_id ≡ true
    → ConsistentAs s run
unfolding ConsistentAs
live-ConsistentAs KernelRunStatus.pending run live outcome staged = (outcome, staged)
live-ConsistentAs KernelRunStatus.running run live outcome staged = (outcome, staged)
live-ConsistentAs (KernelRunStatus.ended o) run live outcome staged = cc

live-IsConsistent :
    (run : KernelRun)
    → is_terminal_run run.status ≡ false
    → run.terminal_outcome ≡ none
    → is_some run.cursor.stage_id ≡ true
    → IsConsistent run
live-IsConsistent run = live-ConsistentAs run.status run

settled_run-IsConsistent :
    (input : ReducerInput) (c : Settlement) (subject : Text) (completed_keys : List Text)
    (effects : List EffectIntent) (t : EffectiveTransition) (o : _) (to : Text)
    → input.run.terminal_outcome ≡ none
    → Ensures IsConsistent (
        settled_run input c
          (record (input.run) { current_subject = subject })
          completed_keys
          effects
          t
          o
          to)
unfolding settled_run terminal_run ConsistentAs closed_cursor
settled_run-IsConsistent input c subject completed_keys effects t (some o) to open_run =
    Ensures-ok _ (refl, refl, refl, refl)
settled_run-IsConsistent input c subject completed_keys effects t none to open_run =
    Ensures-bind _ _ λ cursor e.
      Ensures-ok _
        (open_run, ap is_some ((compile_kernel_cursor-CompiledFor _).at cursor e).same_stage)

quarantined_run-IsConsistent : (run : KernelRun) → IsConsistent (quarantined_run run)
unfolding quarantined_run ConsistentAs closed_cursor
quarantined_run-IsConsistent run = (refl, refl, refl, refl)

terminal_run-IsConsistent :
    (run : KernelRun) (outcome : PipelineTerminalOutcome) → IsConsistent (terminal_run run outcome)
unfolding terminal_run ConsistentAs closed_cursor
terminal_run-IsConsistent run outcome = (refl, refl, refl, refl)

module _ (input : ReducerInput) (facts : BaseFacts input) where
  rewritten :
      (run : KernelRun)
      → is_terminal_run run.status ≡ is_terminal_run input.run.status
      → run.terminal_outcome ≡ input.run.terminal_outcome
      → run.cursor.stage_id ≡ input.run.cursor.stage_id
      → IsConsistent run
  rewritten run status outcome stage =
      live-IsConsistent run (status ∙ facts.run_is_live) (outcome ∙ none_of _ facts.no_outcome)
        (ap is_some stage ∙ facts.in_some_stage)

  pub replaced :
      (a : KernelAttempt)
      → is_terminal_run (replace_attempt input.run a).status ≡ is_terminal_run input.run.status
  unfolding replace_attempt
  replaced a = ground arith

  Step-IsConsistent : (g : BaseContentInput) → Step input g → IsConsistent g.run
  unfolding with_checkpoint promoted replace_attempt
  Step-IsConsistent _ (starts a l _ _ _ _) = rewritten _ (replaced a) refl refl
  Step-IsConsistent _ (binds a l session _ _ _ _ _) = rewritten _ (replaced a) refl refl
  Step-IsConsistent _ (completes a c p results u _ _ _ _) = rewritten _ (replaced a) refl refl
  Step-IsConsistent _ (pends a c found evidence _ _ _) = rewritten _ (replaced a) refl refl
  Step-IsConsistent _ (records_result a id appended _ _) = rewritten _ (replaced a) refl refl
  Step-IsConsistent _ (retries a forensics _ _ _) = rewritten _ (replaced a) refl refl
  Step-IsConsistent _ (schedules a c p appended checkpoints effects s u _ _ _ _) =
      rewritten _ (replaced a) refl refl
  Step-IsConsistent _ (advances a c p true integration _ _) = rewritten _ (replaced a) refl refl
  Step-IsConsistent _ (advances a c p false integration _ _) = rewritten _ (replaced a) refl refl
  Step-IsConsistent _
        (settles_sibling a result_id decision_id completed_keys barrier appended _ _ _ _) =
      rewritten _ refl refl refl
  Step-IsConsistent _
        (settles_last a c s result_id to accepted d completed_keys barrier appended t effects
          next_run _ _ _ _ _ _ _ moved) =
      (settled_run-IsConsistent input c accepted completed_keys effects t t.terminal to
          (none_of _ facts.no_outcome)).at
        next_run moved
  Step-IsConsistent _ (quarantines a l diagnostic _ _ _) = quarantined_run-IsConsistent input.run
  Step-IsConsistent _ (ends_before_provision kind d _) = terminal_run-IsConsistent input.run _
  Step-IsConsistent _ (begins_cleanup kind plan cursor appended u v _ _ _ compiled) =
      live-IsConsistent _ refl refl
        (ap is_some ((compile_kernel_cursor-CompiledFor _).at cursor compiled).same_stage)

pub base_content-run : (g : BaseContentInput) → Ensures (λ c. c.run ≡ g.run) (base_content g)
unfolding base_content
base_content-run g = Ensures-bind _ _ λ _ _. Ensures-ok _ refl

-- Every transition leaves a consistent run: one that has ended has the outcome of its status and no
-- stage, frontier or active attempt; any other has a stage and no outcome.
pub reduce_kernel_command-IsConsistent :
    (platform : Platform) (input : ReducerInput) {b : AtomicTransitionBundle}
    → reduce_kernel_command platform input ≡ ok b
    → IsConsistent b.content.run
reduce_kernel_command-IsConsistent platform input {b} e =
    let accepted = reduce_kernel_command-Accepted platform input e in
    let facts = assert_base_input-BaseFacts input accepted.guarded in
    subst IsConsistent (sym ((base_content-run accepted.given).at b.content accepted.written))
      (Step-IsConsistent input facts accepted.given accepted.step)
