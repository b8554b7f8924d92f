-- ===== src/Kernel/Proofs/Retries.antt =====
-- The limit on work retries (supervisor/src/pipeline/kernel/reducer.ts).
use openthrottle.Base.{
  ℕ, ◌+◌, ◌⊎◌, inl, inr, leb, ◌≤◌, ◌≡◌, refl, ap, ◌∙◌, Bool, true, false, Option, none, some, List,
  [], ◌∷◌, map, Text, Dict, arith, ◌==◌, list_eq, nat_eq, ok, if◌then◌else◌, Ensures, Ensures-bind,
  Ensures-ok,
}
use openthrottle.Contracts.Effects.{EffectIntent}
use openthrottle.Contracts.Pipeline.{PipelineTerminalOutcome}
use openthrottle.Contracts.Records.{AttemptState}
use openthrottle.Kernel.Types.{
  KernelRun, KernelAttempt, AttemptWrite, replace, terminal, ReducerInput, Platform, Settlement,
  AtomicTransitionBundle,
}
use openthrottle.Kernel.Reducer.Attempt.{
  completed, awaiting_result, recorded, retried, with_checkpoint,
}
use openthrottle.Kernel.Reducer.Bundle.{BaseContentInput, replace_attempt}
use openthrottle.Kernel.Reducer.Dispatch.{reduce_kernel_command}
use openthrottle.Kernel.Reducer.External.{scheduled, advanced, promoted}
use openthrottle.Kernel.Reducer.Session.{started, bound}
use openthrottle.Kernel.Reducer.Settle.{EffectiveTransition, settled, settled_run}
use openthrottle.Kernel.Reducer.Terminal.{
  terminated, terminal_write, terminal_attempt_write, terminal_attempt_writes, terminal_run,
  quarantined_run,
}
use openthrottle.Kernel.Proofs.Each.{Each}
use openthrottle.Kernel.Proofs.Refines.{reduce_kernel_command-Accepted}
use openthrottle.Kernel.Proofs.Runs.{base_content-run}
use openthrottle.Kernel.Proofs.Step.{
  Step, starts, binds, completes, pends, records_result, retries, schedules, advances,
  settles_sibling, settles_last, quarantines, ends_before_provision, begins_cleanup,
}
use openthrottle.Kernel.Proofs.Writes.{base_content-Each}

-- A whole attempt that is written is the current one and has used as many work retries, or one more
-- and then no more than the run allows.
unfoldable pub Counted : ReducerInput → AttemptWrite → Type 0
Counted input (replace next) =
    (a : KernelAttempt) × (input.current_attempt ≡ some a)
    × (next.id ≡ a.id)
    × ((next.work_retry_ordinal ≡ a.work_retry_ordinal)
        ⊎ ((next.work_retry_ordinal ≡ a.work_retry_ordinal + 1)
            × (next.work_retry_ordinal ≤ input.run.work_retry_limit)))
Counted input (terminal w) = Unit

module _ (input : ReducerInput) (status : AttemptState) where
  Counted-choose :
      (b : Bool) (v w : AttemptWrite)
      → Counted input v
      → Counted input w
      → Counted input (if b then v else w)
  Counted-choose true v w p q = p
  Counted-choose false v w p q = q

  terminal_attempt_write-Counted :
      (o : Option KernelAttempt) (entry : Text × ℕ)
      → input.current_attempt ≡ o
      → Counted input (terminal_attempt_write o status entry)
  unfolding terminal_attempt_write terminal_write terminated Counted
  terminal_attempt_write-Counted none (id, version) e = tt
  terminal_attempt_write-Counted (some a) (id, version) e =
      Counted-choose (a.id == id) (replace (terminated a status)) (terminal_write id version status)
        (a, e, refl, inl refl) tt

  terminal_writes-Counted :
      (o : Option KernelAttempt) (d : Dict ℕ)
      → input.current_attempt ≡ o
      → Each (Counted input) (map (terminal_attempt_write o status) d)
  unfolding Each
  terminal_writes-Counted o [] e = tt
  terminal_writes-Counted o (entry ∷ d) e =
      (terminal_attempt_write-Counted o entry e, terminal_writes-Counted o d e)

  quarantine_writes-Counted :
      (d : Dict ℕ) → Each (Counted input) (map (λ entry. terminal_write entry.0 entry.1 status) d)
  unfolding Each terminal_write Counted
  quarantine_writes-Counted [] = tt
  quarantine_writes-Counted (entry ∷ d) = (tt, quarantine_writes-Counted d)

settled_run-limit :
    (input : ReducerInput) (c : Settlement) (subject : Text) (completed_keys : List Text)
    (effects : List EffectIntent) (t : EffectiveTransition) (o : Option PipelineTerminalOutcome)
    (to : Text)
    → Ensures
        (λ run. run.work_retry_limit ≡ input.run.work_retry_limit)
        (settled_run input c
          (record (input.run) { current_subject = subject })
          completed_keys
          effects
          t
          o
          to)
unfolding settled_run terminal_run
settled_run-limit input c subject completed_keys effects t (some o) to = Ensures-ok _ refl
settled_run-limit input c subject completed_keys effects t none to =
    Ensures-bind _ _ λ _ _. Ensures-ok _ refl

module _ (input : ReducerInput) where
  one-Counted :
      (a next : KernelAttempt)
      → input.current_attempt ≡ some a
      → next.id ≡ a.id
      → next.work_retry_ordinal ≡ a.work_retry_ordinal
      → Each (Counted input) (replace next ∷ [])
  unfolding Each Counted
  one-Counted a next e same ordinal = ((a, e, same, inl ordinal), tt)

  one-more :
      (a next : KernelAttempt)
      → input.current_attempt ≡ some a
      → next.id ≡ a.id
      → next.work_retry_ordinal ≡ a.work_retry_ordinal + 1
      → leb input.run.work_retry_limit a.work_retry_ordinal ≡ false
      → Each (Counted input) (replace next ∷ [])
  unfolding Each Counted
  one-more a next e same ordinal left = ((a, e, same, inr (ordinal, ground arith)), tt)

  Step-Counted :
      (g : BaseContentInput)
      → Step input g
      → Each (Counted input) g.attempt_writes
        × (g.run.work_retry_limit ≡ input.run.work_retry_limit)
  unfolding started bound completed awaiting_result recorded retried scheduled advanced settled
      with_checkpoint promoted replace_attempt terminal_attempt_writes terminal_run quarantined_run
  Step-Counted _ (starts a l e _ _ _) = (one-Counted a _ e refl refl, refl)
  Step-Counted _ (binds a l session e _ _ _ _) = (one-Counted a _ e refl refl, refl)
  Step-Counted _ (completes a c p results u e _ _ _) = (one-Counted a _ e refl refl, refl)
  Step-Counted _ (pends a c found evidence e _ _) = (one-Counted a _ e refl refl, refl)
  Step-Counted _ (records_result a id appended e _) = (one-Counted a _ e refl refl, refl)
  Step-Counted _ (retries a forensics e _ left) = (one-more a _ e refl refl left, refl)
  Step-Counted _ (schedules a c p appended checkpoints effects s u e _ _ _) =
      (one-Counted a _ e refl refl, refl)
  Step-Counted _ (advances a c p true integration e _) = (one-Counted a _ e refl refl, refl)
  Step-Counted _ (advances a c p false integration e _) = (one-Counted a _ e refl refl, refl)
  Step-Counted _ (settles_sibling a result_id decision_id completed_keys barrier appended e _ _ _) =
      (one-Counted a _ e refl refl, refl)
  Step-Counted _
        (settles_last a c s result_id to accepted d completed_keys barrier appended t effects
          next_run e _ _ _ _ _ _ moved) =
      (
        one-Counted a _ e refl refl,
        (settled_run-limit input c accepted completed_keys effects t t.terminal to).at next_run
            moved,
      )
  Step-Counted _ (quarantines a l diagnostic _ _ _) =
      (quarantine_writes-Counted input _ input.run.active_attempt_versions, refl)
  Step-Counted _ (ends_before_provision kind d _) = (
    terminal_writes-Counted input _ input.current_attempt input.run.active_attempt_versions refl,
    refl,
  )
  Step-Counted _ (begins_cleanup kind plan cursor appended u v _ _ _ _) = (
    terminal_writes-Counted input _ input.current_attempt input.run.active_attempt_versions refl,
    refl,
  )

-- Every whole attempt that a transition writes is the current one, and has used as many work retries
-- as before, or one more and then no more than the run allows. The limit stays.
pub reduce_kernel_command-retries :
    (platform : Platform) (input : ReducerInput) {b : AtomicTransitionBundle}
    → reduce_kernel_command platform input ≡ ok b
    → Each (Counted input) b.content.attempt_writes
      × (b.content.run.work_retry_limit ≡ input.run.work_retry_limit)
reduce_kernel_command-retries platform input {b} e =
    let accepted = reduce_kernel_command-Accepted platform input e in
    let (each, limit) = Step-Counted input accepted.given accepted.step in
    (
      (base_content-Each (Counted input) accepted.given each).at b.content accepted.written,
      ap (λ (run : KernelRun). run.work_retry_limit)
            ((base_content-run accepted.given).at b.content accepted.written)
          ∙ limit,
    )
