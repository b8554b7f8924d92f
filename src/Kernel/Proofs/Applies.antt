-- ===== src/Kernel/Proofs/Applies.antt =====
-- The disposition of a transition (transitionApplicationDisposition of supervisor/src/pipeline/kernel/store.ts).
use openthrottle.Base.{
  ℕ, String, ◌≡◌, refl, sym, ◌∙◌, Bool, true, not, ◌&&◌, none, some, List, [], ◌∷◌, Text, Dict,
  keys, lookup, sorted_record, distinct, sort, insert, all, arith, ◌==◌, list_eq, nat_eq, option_eq,
  list_beq_iff, option_beq_iff, ok, throw_if, subst, for_each, ◌>>=◌, Ensures, Ensures-bind,
  Ensures-ok,
}
use openthrottle.Kernel.Types.{
  KernelRun, ReducerInput, Platform, AtomicTransitionBundle, AtomicTransitionExpectedState,
}
use openthrottle.Kernel.Reducer.Bundle.{BaseContentInput, base_content, expected_for}
use openthrottle.Kernel.Reducer.Dispatch.{reduce_kernel_command}
use openthrottle.Kernel.Store.{
  AtomicTransitionObservedState, apply, replay, assert_fences, disposition_for,
  transition_application_disposition,
}
use openthrottle.Kernel.Proofs.Facts.{BaseFacts, assert_base_input-BaseFacts}
use openthrottle.Kernel.Proofs.Fences.Integrity.{reduce_kernel_command-integrity}
use openthrottle.Kernel.Proofs.Fences.Writes.{agrees, agrees_self}
use openthrottle.Kernel.Proofs.Refines.{reduce_kernel_command-Accepted}
use openthrottle.Kernel.Proofs.Step.{
  Step, starts, binds, completes, pends, records_result, retries, schedules, advances,
  settles_sibling, settles_last, quarantines, ends_before_provision, begins_cleanup,
}

module _ {ℓ} {A : Type ℓ} (p : A → Bool) (le : A → A → Bool) where
  all-insert : (a : A) (xs : List A) → all p (insert le a xs) ≡ (p a && all p xs)
  unfolding insert all
  all-insert a [] = refl
  all-insert a (x ∷ xs) = ground (arith, all-insert a xs)

  all-sort : (xs : List A) → all p (sort le xs) ≡ all p xs
  unfolding sort all
  all-sort [] = refl
  all-sort (x ∷ xs) = ground (arith, all-insert x (sort le xs), all-sort xs)

agrees-sorted : (m d : Dict ℕ) → agrees m (sorted_record d) ≡ agrees m d
unfolding agrees sorted_record
agrees-sorted m d = all-sort _ _ d

-- What the store observes of a run.
abbrev pub observed_of : KernelRun → AtomicTransitionObservedState
observed_of run = record {
  run_id = run.id;
  run_version = run.version;
  cursor_version = run.cursor.version;
  attempt_versions = run.active_attempt_versions;
}

-- The fences that a state meets.
record Meets (run : KernelRun) (expected : AtomicTransitionExpectedState) : Type 0 where
  pub same_run : run.id ≡ expected.run_id
  pub same_version : run.version ≡ expected.run_version
  pub same_cursor : run.cursor.version ≡ expected.cursor_version
  pub attempts : agrees run.active_attempt_versions expected.attempt_versions ≡ true

module _ (run : KernelRun) where
  Meets-all :
      distinct (keys run.active_attempt_versions) ≡ true
      → Meets run (expected_for run run.active_attempt_versions)
  unfolding expected_for
  Meets-all unique = record {
    same_run = refl;
    same_version = refl;
    same_cursor = refl;
    attempts = agrees-sorted _ run.active_attempt_versions ∙ agrees_self _ unique;
  }

  Meets-sorted :
      distinct (keys run.active_attempt_versions) ≡ true
      → Meets run (expected_for run (sorted_record run.active_attempt_versions))
  unfolding expected_for
  Meets-sorted unique = record {
    same_run = refl;
    same_version = refl;
    same_cursor = refl;
    attempts =
        agrees-sorted _ (sorted_record run.active_attempt_versions)
        ∙ agrees-sorted _ run.active_attempt_versions
        ∙ agrees_self _ unique;
  }

  Meets-one :
      (id : Text) (version : ℕ)
      → lookup id run.active_attempt_versions ≡ some version
      → Meets run (expected_for run ((id, version) ∷ []))
  unfolding expected_for sorted_record sort insert agrees all
  Meets-one id version at = record {
    same_run = refl;
    same_version = refl;
    same_cursor = refl;
    attempts =
        ground (arith, option_beq_iff (lookup id run.active_attempt_versions) (some version));
  }

module _ (input : ReducerInput) (facts : BaseFacts input)
    (unique : distinct (keys input.run.active_attempt_versions) ≡ true) where
  Step-Meets : (g : BaseContentInput) → Step input g → Meets input.run g.expected
  Step-Meets _ (starts a l e _ _ _) = Meets-one _ _ _ (facts.active a e).at_version
  Step-Meets _ (binds a l session e _ _ _ _) = Meets-one _ _ _ (facts.active a e).at_version
  Step-Meets _ (completes a c p results u e _ _ _) = Meets-one _ _ _ (facts.active a e).at_version
  Step-Meets _ (pends a c found evidence e _ _) = Meets-one _ _ _ (facts.active a e).at_version
  Step-Meets _ (records_result a id appended e _) = Meets-one _ _ _ (facts.active a e).at_version
  Step-Meets _ (retries a forensics e _ _) = Meets-one _ _ _ (facts.active a e).at_version
  Step-Meets _ (schedules a c p appended checkpoints effects s u e _ _ _) =
      Meets-one _ _ _ (facts.active a e).at_version
  Step-Meets _ (advances a c p publication integration e _) =
      Meets-one _ _ _ (facts.active a e).at_version
  Step-Meets _ (settles_sibling a result_id decision_id completed_keys barrier appended e _ _ _) =
      Meets-one _ _ _ (facts.active a e).at_version
  Step-Meets _
        (settles_last a c s result_id to accepted d completed_keys barrier appended t effects
          next_run e _ _ _ _ _ _ _) =
      Meets-one _ _ _ (facts.active a e).at_version
  Step-Meets _ (quarantines a l diagnostic _ _ _) = Meets-all input.run unique
  Step-Meets _ (ends_before_provision kind d _) = Meets-sorted input.run unique
  Step-Meets _ (begins_cleanup kind plan cursor appended u v _ _ _ _) =
      Meets-sorted input.run unique

base_content-expected :
    (g : BaseContentInput) → Ensures (λ c. c.expected ≡ g.expected) (base_content g)
unfolding base_content
base_content-expected g = Ensures-bind _ _ λ _ _. Ensures-ok _ refl

attempt_fences-pass :
    (message : String) (m d : Dict ℕ)
    → agrees m d ≡ true
    → for_each (λ entry. throw_if (not (lookup entry.0 m == some entry.1)) message) d ≡ ok tt
unfolding agrees all for_each throw_if ◌>>=◌
attempt_fences-pass message m [] e = refl
attempt_fences-pass message m ((k, v) ∷ d) e = ground (arith, attempt_fences-pass message m d)

assert_fences-pass :
    (run : KernelRun) (b : AtomicTransitionBundle)
    → Meets run b.content.expected
    → assert_fences b (observed_of run) ≡ ok apply
unfolding assert_fences throw_if ◌>>=◌
assert_fences-pass run b meets = ground (
  arith,
  meets.same_run,
  meets.same_version,
  meets.same_cursor,
  list_beq_iff run.id b.content.expected.run_id,
  attempt_fences-pass
      "atomic transition ${bundle.transition_id} has a stale attempt version for ${attemptId}"
      run.active_attempt_versions b.content.expected.attempt_versions meets.attempts,
)

-- The store applies a transition that it has not stored to the state that the reducer computed it
-- from, where the map of the active attempts has no key twice.
pub reduce_kernel_command-applies :
    (platform : Platform) (input : ReducerInput) {b : AtomicTransitionBundle}
    → distinct (keys input.run.active_attempt_versions) ≡ true
    → reduce_kernel_command platform input ≡ ok b
    → transition_application_disposition platform b (observed_of input.run) none ≡ ok apply
unfolding transition_application_disposition disposition_for ◌>>=◌
reduce_kernel_command-applies platform input {b} unique e =
    let accepted = reduce_kernel_command-Accepted platform input e in
    let facts = assert_base_input-BaseFacts input accepted.guarded in
    let sound = reduce_kernel_command-integrity platform input unique e in
    let meets = Step-Meets input facts unique accepted.given accepted.step in
    let same = (base_content-expected accepted.given).at b.content accepted.written in
    let fences = assert_fences-pass input.run b (subst (Meets input.run) (sym same) meets) in
    ground arith

-- Once it is stored, a transition that the reducer returned is a replay, whatever state the store has
-- reached, where the map of the active attempts has no key twice.
pub reduce_kernel_command-replays :
    (platform : Platform) (input : ReducerInput) {b : AtomicTransitionBundle}
    (observed : AtomicTransitionObservedState)
    → distinct (keys input.run.active_attempt_versions) ≡ true
    → reduce_kernel_command platform input ≡ ok b
    → transition_application_disposition platform b observed
        (some (record { transition_id = b.content.transition_id; content_hash = b.content_hash }))
      ≡ ok replay
unfolding transition_application_disposition disposition_for throw_if ◌>>=◌
reduce_kernel_command-replays platform input {b} observed unique e = ground (
  arith,
  reduce_kernel_command-integrity platform input unique e,
  list_beq_iff b.content.transition_id b.content.transition_id,
  list_beq_iff b.content_hash b.content_hash,
)
