-- ===== src/Kernel/Proofs/Refines/Terminal.antt =====
-- Quarantine and the terminal commands against the relation of steps
-- (supervisor/src/pipeline/kernel/reducer.ts).
use openthrottle.Base.{
  ◌≡◌, refl, Bool, true, false, not, ◌||◌, Text, Option, none, some, List, [], ◌∷◌, map, Dict, ◌==◌,
  option_eq, option_beq_iff, if◌then◌else◌, ◌∙◌, ok, ap, list_beq_iff, arith, list_eq, nat_eq, leb,
  ltb, ℕ,
}
use openthrottle.Contracts.Records.{AttemptState, DecisionRecord}
use openthrottle.Kernel.Types.{
  quarantine_attempt_recovery, AttemptWrite, replace, KernelAttempt, ReducerInput, Platform,
  QuarantineAttemptRecovery, DecisionAuthorization, Cleanup, KernelTerminalResourceDisposition,
  pre_provision, cleanup,
}
use openthrottle.Kernel.Recovery.{SandboxRecoveryFrontierMember}
use openthrottle.Kernel.Reducer.Dispatch.{quarantine_case}
use openthrottle.Kernel.Reducer.Terminal.{
  TerminalKind, reduce_recovery_quarantine, end_before_provision, begin_cleanup, terminal_command,
  dispose, wrong_attempt, current_id, outcome_of, status_of, terminal_run, closed_cursor,
  quarantined_run, terminal_write, terminated, terminal_attempt_write, terminal_attempt_writes,
}
use openthrottle.Kernel.Proofs.Emits.{
  Emits, Emits-base_content, Emits-bind, Emits-throw_if, Emits-or_throw, Emits-map,
}
use openthrottle.Kernel.Proofs.Step.{Step, quarantines, ends_before_provision, begins_cleanup}
use openthrottle.Kernel.Proofs.Refines.Session.{current_attempt-eq-ok, current_attempt-named}
use openthrottle.Kernel.Support.{current_attempt}
use openthrottle.Kernel.Reducer.Bundle.{BaseContentInput, write_id}
use openthrottle.Kernel.Proofs.Does.{Does, Performs, Ends, EndsAs, HasStatus, name_of}
use openthrottle.Kernel.Proofs.Each.{Each}
use openthrottle.Kernel.Proofs.Facts.{compile_kernel_cursor-CompiledFor}

not-false : (b : Bool) → not b ≡ false → b ≡ true
not-false true h = refl
not-false false h = cc

middle : (a b c : Bool) → (a || not b || c) ≡ false → b ≡ true
middle a b c h = ground arith

not-ltb : (a b : ℕ) → ltb a b ≡ false → leb b a ≡ true
not-ltb a b h = ground arith

current_id-name_of :
    (o : Option KernelAttempt) (id : Option Text)
    → not (current_id o == id) ≡ false
    → name_of o ≡ id
current_id-name_of none id h = ground (arith, option_beq_iff none id)
current_id-name_of (some a) id h = ground (arith, option_beq_iff (some a.id) id)

-- The attempt that the command names, if it names one, is the current attempt.
unfoldable pub Names : ReducerInput → Option (Option Text) → Type 0
Names input none = Unit
Names input (some id) = name_of input.current_attempt ≡ id

wrong_attempt-Names :
    (input : ReducerInput) (attempt_id : Option (Option Text))
    → wrong_attempt attempt_id input.current_attempt ≡ false
    → Names input attempt_id
unfolding wrong_attempt Names
wrong_attempt-Names input none h = tt
wrong_attempt-Names input (some id) h = current_id-name_of input.current_attempt id h

module _ (input : ReducerInput) (status : AttemptState) where
  HasStatus-choose :
      (b : Bool) (v w : AttemptWrite)
      → HasStatus input status v
      → HasStatus input status w
      → HasStatus input status (if b then v else w)
  HasStatus-choose true v w p q = p
  HasStatus-choose false v w p q = q

  write-HasStatus :
      (o : Option KernelAttempt) (entry : Text × ℕ)
      → HasStatus input status (terminal_attempt_write o status entry)
  unfolding terminal_attempt_write terminal_write terminated HasStatus
  write-HasStatus none (id, version) = (refl, refl)
  write-HasStatus (some a) (id, version) =
      HasStatus-choose (a.id == id) (replace (terminated a status))
        (terminal_write id version status) refl (refl, refl)

  writes-HasStatus :
      (o : Option KernelAttempt) (d : Dict ℕ)
      → Each (HasStatus input status) (map (terminal_attempt_write o status) d)
  unfolding Each
  writes-HasStatus o [] = tt
  writes-HasStatus o (entry ∷ d) = (write-HasStatus o entry, writes-HasStatus o d)

write_id-choose :
    (a : KernelAttempt) (status : AttemptState) (id : Text) (version : ℕ) (b : Bool)
    → (a.id == id) ≡ b
    → write_id (if b then replace (terminated a status) else terminal_write id version status) ≡ id
unfolding terminal_write terminated
write_id-choose a status id version true e = (list_beq_iff a.id id).0 e
write_id-choose a status id version false e = refl

write_id-terminal :
    (status : AttemptState) (o : Option KernelAttempt) (entry : Text × ℕ)
    → write_id (terminal_attempt_write o status entry) ≡ entry.0
unfolding terminal_attempt_write terminal_write
write_id-terminal status none (id, version) = refl
write_id-terminal status (some a) (id, version) =
    write_id-choose a status id version (a.id == id) refl

-- Every active attempt is written, and no other.
writes-every :
    (status : AttemptState) (o : Option KernelAttempt) (d : Dict ℕ)
    → map write_id (map (terminal_attempt_write o status) d) ≡ map (λ entry. entry.0) d
writes-every status o [] = refl
writes-every status o (entry ∷ d) =
    ground (arith, write_id-terminal status o entry, writes-every status o d)

module _ (input : ReducerInput) where
  quarantine-Step :
      (a : KernelAttempt) (diagnostic : DecisionRecord) (c : QuarantineAttemptRecovery)
      → current_attempt input c.attempt_id ≡ ok a
      → Emits
          (Performs input (quarantine_attempt_recovery c))
          (reduce_recovery_quarantine input.command.command_id input.run a diagnostic c)
  unfolding reduce_recovery_quarantine Does quarantined_run terminal_write closed_cursor
  quarantine-Step a diagnostic c ea = Emits-throw_if _ _ _ λ _. Emits-or_throw _ _ _ λ l el.
      Emits-throw_if _ _ _ λ _. Emits-throw_if _ _ _ λ exhausted. Emits-bind _ _ λ _ _.
        Emits-base_content _ (record {
          step =
              quarantines a l diagnostic (current_attempt-eq-ok input c.attempt_id ea) el
                (not-ltb l.generation input.run.work_retry_limit exhausted);
          does = (
            ap name_of (current_attempt-eq-ok input c.attempt_id ea)
                ∙ ap some (current_attempt-named input c.attempt_id ea),
            refl,
            refl,
            refl,
            refl,
            refl,
            refl,
            refl,
          );
        })

  pub quarantine_case-Performs :
      (c : QuarantineAttemptRecovery)
      → Emits (Performs input (quarantine_attempt_recovery c)) (quarantine_case input c)
  unfolding quarantine_case
  quarantine_case-Performs c = Emits-bind _ _ λ _ _.
      Emits-bind _ _ λ _ _.
        Emits-bind _ _ λ diagnostic _. Emits-bind _ _ λ a ea. quarantine-Step a diagnostic c ea

  -- A step that ends the run.
  record Ending (kind : TerminalKind) (r : KernelTerminalResourceDisposition) (g : BaseContentInput)
      : Type 0 where
    pub step : Step input g
    pub ends : Ends input (outcome_of kind) (status_of kind) r g

  end_before_provision-Step :
      (kind : TerminalKind) (d : DecisionRecord)
      → Emits (Ending kind pre_provision) (end_before_provision input kind d)
  unfolding end_before_provision Ends EndsAs terminal_run terminal_attempt_writes closed_cursor
  end_before_provision-Step kind d = Emits-bind _ _ λ _ _. Emits-throw_if _ _ _ λ unprovisioned.
      Emits-base_content _ (record {
        step = ends_before_provision kind d (middle _ _ _ unprovisioned);
        ends = (
          (refl, refl, refl, refl, refl),
          writes-HasStatus input (status_of kind) input.current_attempt
              input.run.active_attempt_versions,
          writes-every (status_of kind) input.current_attempt input.run.active_attempt_versions,
          refl,
        );
      })

  begin_cleanup-Step :
      (kind : TerminalKind) (d : DecisionAuthorization) (b : Bool)
      (frontier : List SandboxRecoveryFrontierMember) (plan : Cleanup)
      → Emits (Ending kind (cleanup plan)) (begin_cleanup input kind d b frontier plan)
  unfolding begin_cleanup Ends EndsAs terminal_attempt_writes
  begin_cleanup-Step kind d b frontier plan = Emits-throw_if _ _ _ λ quiet. Emits-bind _ _ λ _ _.
      Emits-bind _ _ λ _ _. Emits-throw_if _ _ _ λ _. Emits-bind _ _ λ u unique.
        Emits-bind _ _ λ v pristine. Emits-throw_if _ _ _ λ _. Emits-bind _ _ λ cursor ec.
          Emits-bind _ _ λ _ _. Emits-base_content _ (record {
            step = begins_cleanup kind plan cursor _ u v (not-false _ quiet) unique pristine ec;
            ends = (
              (refl, ((compile_kernel_cursor-CompiledFor _).at cursor ec).same_stage, refl, refl),
              writes-HasStatus input (status_of kind) input.current_attempt
                  input.run.active_attempt_versions,
              writes-every (status_of kind) input.current_attempt input.run.active_attempt_versions,
              refl,
            );
          })

  dispose-Step :
      (kind : TerminalKind) (d : DecisionAuthorization) (b : Bool)
      (frontier : List SandboxRecoveryFrontierMember) (r : KernelTerminalResourceDisposition)
      → Emits (Ending kind r) (dispose input kind d b frontier r)
  unfolding dispose
  dispose-Step kind d b frontier pre_provision = end_before_provision-Step kind d.decision
  dispose-Step kind d b frontier (cleanup plan) = begin_cleanup-Step kind d b frontier plan

  -- A step that ends the run, by a command on the attempt that it names.
  pub record Terminates (kind : TerminalKind) (attempt_id : Option (Option Text))
      (r : KernelTerminalResourceDisposition) (g : BaseContentInput) : Type 0 where
    pub step : Step input g
    pub ends : Ends input (outcome_of kind) (status_of kind) r g
    pub names : Names input attempt_id

  pub terminal_command-Terminates :
      (platform : Platform) (kind : TerminalKind) (id : Text) (attempt_id : Option (Option Text))
      (r : KernelTerminalResourceDisposition)
      → Emits (Terminates kind attempt_id r) (terminal_command platform input kind id attempt_id r)
  unfolding terminal_command
  terminal_command-Terminates platform kind id attempt_id r = Emits-bind _ _ λ _ _.
      Emits-bind _ _ λ d _. Emits-throw_if _ _ _ λ named. Emits-bind _ _ λ frontier _.
        Emits-bind _ _ λ _ _. Emits-throw_if _ _ _ λ _.
          Emits-map
            (λ g (w : Ending kind r g). record {
              step = w.step;
              ends = w.ends;
              names = wrong_attempt-Names input attempt_id named;
            })
            (dispose-Step kind d _ frontier r)
