-- ===== src/Kernel/Proofs/Fences/Integrity.antt =====
-- Steps against the integrity check of the store (supervisor/src/pipeline/kernel/reducer.ts, store.ts).
use openthrottle.Base.{
  ◌+◌, ◌≡◌, refl, ap, ◌∙◌, true, false, not, ◌||◌, ◌⊎◌, inl, inr, none, some, List, [], ◌∷◌, map,
  Text, keys, lookup, sorted_record, distinct, insert, sort, sort_texts, dedup, is_empty, arith,
  ◌==◌, list_eq, nat_eq, option_eq, list_beq_iff, option_beq_iff, any, has_duplicates, ok, ◌>>=◌,
  throw_if, for_each, subst, Ensures, Ensures-bind, Ensures-throw_if, Ensures-ok,
}
use openthrottle.Contracts.Effects.{EffectIntent}
use openthrottle.Contracts.Records.{AttemptState, ExecutionRecord, AttemptCheckpoint}
use openthrottle.Kernel.Types.{
  KernelRun, KernelAttempt, replace, ReducerInput, Platform, AtomicTransitionBundle, Settlement,
}
use openthrottle.Kernel.Store.{assert_write, assert_atomic_transition_integrity}
use openthrottle.Kernel.Reducer.Attempt.{
  completed, awaiting_result, recorded, retried, with_checkpoint,
}
use openthrottle.Kernel.Reducer.Bundle.{
  BaseContentInput, rewrites, replace_attempt, expected_for, write_id,
}
use openthrottle.Kernel.Reducer.Dispatch.{reduce_kernel_command}
use openthrottle.Kernel.Reducer.External.{scheduled, advanced, promoted}
use openthrottle.Kernel.Reducer.Session.{started, bound}
use openthrottle.Kernel.Reducer.Settle.{
  EffectiveTransition, settled, settled_run, assert_transition, assert_successors,
  assert_terminal_transition,
}
use openthrottle.Kernel.Reducer.Terminal.{
  terminal_run, quarantined_run, terminal_attempt_writes, closed_cursor,
}
use openthrottle.Kernel.Proofs.Facts.{
  BaseFacts, assert_base_input-BaseFacts, compile_kernel_cursor-CompiledFor,
  assert_unique_new_attempts-distinct, for_each-pending-version, assert_pending_attempt-version,
  assert_new_effects-distinct,
}
use openthrottle.Kernel.Proofs.Fences.Sealed.{Fenced, base_content-passes}
use openthrottle.Kernel.Proofs.Fences.Writes.{
  sorted-agrees, sorted_twice-agrees, sorted_twice-lookup, sort-keys-sorted, map-write_id-terminal,
  map-write_id-quarantine, terminal_writes-pass, quarantine_writes-pass,
}
use openthrottle.Kernel.Proofs.Refines.{reduce_kernel_command-Accepted}
use openthrottle.Kernel.Proofs.Step.{
  Step, starts, binds, completes, pends, records_result, retries, schedules, advances,
  settles_sibling, settles_last, quarantines, ends_before_provision, begins_cleanup, AreNewEffects,
}

no_ids : has_duplicates {A = Text} [] ≡ false
unfolding has_duplicates dedup
no_ids = refl

one_id : (s : Text) → has_duplicates (s ∷ []) ≡ false
unfolding has_duplicates dedup
one_id s = refl

no_effects :
    (has_duplicates (map (λ (e : EffectIntent). e.id) [])
      || has_duplicates (map (λ (e : EffectIntent). e.idempotency_key) []))
    ≡ false
unfolding has_duplicates dedup
no_effects = refl

module _ (input : ReducerInput) (a next : KernelAttempt) where
  one_write-match :
      next.id ≡ a.id
      → sort_texts (map write_id (replace next ∷ []))
        ≡ sort_texts (keys (sorted_record ((a.id, a.version) ∷ [])))
  unfolding sort_texts sort insert sorted_record keys
  one_write-match same = ap (λ id. id ∷ []) same

  one_write-passes :
      next.id ≡ a.id
      → next.version ≡ a.version + 1
      → for_each (assert_write (sorted_record ((a.id, a.version) ∷ []))) (replace next ∷ []) ≡ ok tt
  unfolding sort insert sorted_record for_each assert_write lookup throw_if ◌>>=◌
  one_write-passes same advanced_by =
      ground (
        arith,
        list_beq_iff a.id next.id,
        option_beq_iff (some next.version) (some (a.version + 1)),
      )

  -- A command that writes its attempt anew.
  rewrites-Fenced :
      (run : KernelRun) (created : List KernelAttempt) (records : List ExecutionRecord)
      (checkpoints : List AttemptCheckpoint) (effects : List EffectIntent)
      → next.id ≡ a.id
      → next.version ≡ a.version + 1
      → run.id ≡ input.run.id
      → run.version ≡ input.run.version + 1
      → (run.cursor.version ≡ input.run.cursor.version)
        ⊎ (run.cursor.version ≡ input.run.cursor.version + 1)
      → has_duplicates (map (λ (b : KernelAttempt). b.id) created) ≡ false
      → any (λ (b : KernelAttempt). not (b.version == 0)) created ≡ false
      → (has_duplicates (map (λ (e : EffectIntent). e.id) effects)
          || has_duplicates (map (λ (e : EffectIntent). e.idempotency_key) effects))
        ≡ false
      → Fenced (record (rewrites input a run next) {
        create_attempts = created;
        append_records = records;
        append_checkpoints = checkpoints;
        put_effects = effects;
      })
  unfolding expected_for
  rewrites-Fenced run created records checkpoints effects id version run_id run_version cursor ids
        versions distinct_effects =
      record {
        same_run = run_id;
        one_version = run_version;
        cursor_version = cursor;
        writes_match = one_write-match id;
        writes_advance = one_write-passes id version;
        new_ids = ids;
        new_versions = versions;
        effects = distinct_effects;
      }

-- The new attempts of a settlement are distinct and pristine.
record AreNew (attempts : List KernelAttempt) : Type 0 where
  pub ids : has_duplicates (map (λ (b : KernelAttempt). b.id) attempts) ≡ false
  pub versions : any (λ (b : KernelAttempt). not (b.version == 0)) attempts ≡ false

AreNew-empty : (attempts : List KernelAttempt) → not (is_empty attempts) ≡ false → AreNew attempts
unfolding any
AreNew-empty [] e = record { ids = no_ids; versions = refl }
AreNew-empty (a ∷ attempts) e = cc

assert_successors-AreNew :
    (input : ReducerInput) (c : Settlement) (s : _) (to accepted : Text) (run : KernelRun)
    → Ensures (λ _. AreNew c.next_attempts) (assert_successors input c s to accepted run)
unfolding assert_successors
assert_successors-AreNew input c s to accepted run = Ensures-throw_if _ _ _ λ _.
    Ensures-bind _ _ λ _ _. Ensures-bind _ _ λ found _. Ensures-throw_if _ _ _ λ _.
      Ensures-bind _ _ λ _ _. Ensures-bind _ _ λ u unique. record {
        at = λ v e. record {
          ids = (assert_unique_new_attempts-distinct c.next_attempts input.run).at u unique;
          versions = (for_each-pending-version _ _ _ _ c.next_attempts).at v e;
        };
      }

assert_terminal_transition-AreNew :
    (input : ReducerInput) (c : Settlement) (s : _) (id : Text) (d : _) (o : _)
    → Ensures (λ _. AreNew c.next_attempts) (assert_terminal_transition input c s id d o)
unfolding assert_terminal_transition
assert_terminal_transition-AreNew input c s id d o = Ensures-bind _ _ λ _ _.
    Ensures-throw_if _ _ _
      λ none_next. record { at = λ _ _. AreNew-empty c.next_attempts none_next }

assert_transition-AreNew :
    (input : ReducerInput) (c : Settlement) (s : _) (id : Text) (d : _) (accepted : Text)
    (run : KernelRun) (t : EffectiveTransition) (o : _)
    → Ensures (λ _. AreNew c.next_attempts) (assert_transition input c s id d accepted run t o)
unfolding assert_transition
assert_transition-AreNew input c s id d accepted run t (some o) =
    Ensures-bind _ _
      λ u e. Ensures-ok _ ((assert_terminal_transition-AreNew input c s id d o).at u e)
assert_transition-AreNew input c s id d accepted run t none = Ensures-bind _ _ λ to _.
    Ensures-bind _ _
      λ u e. Ensures-ok _ ((assert_successors-AreNew input c s to accepted run).at u e)

-- How a settlement moves the identity and the versions of the run.
record Moved (input : ReducerInput) (run : KernelRun) : Type 0 where
  pub same_run : run.id ≡ input.run.id
  pub one_version : run.version ≡ input.run.version + 1
  pub cursor_version : run.cursor.version ≡ input.run.cursor.version + 1

settled_run-Moved :
    (input : ReducerInput) (c : Settlement) (subject : Text) (completed_keys : List Text)
    (effects : List EffectIntent) (t : EffectiveTransition) (o : _) (to : Text)
    → Ensures (Moved input) (
        settled_run input c
          (record (input.run) { current_subject = subject })
          completed_keys
          effects
          t
          o
          to)
unfolding settled_run terminal_run
settled_run-Moved input c subject completed_keys effects t (some o) to =
    Ensures-ok _ (record { same_run = refl; one_version = refl; cursor_version = refl })
settled_run-Moved input c subject completed_keys effects t none to = Ensures-bind _ _ λ cursor e.
    Ensures-ok _ (record {
      same_run = refl;
      one_version = refl;
      cursor_version = ((compile_kernel_cursor-CompiledFor _).at cursor e).same_version;
    })

any_empty : any (λ (b : KernelAttempt). not (b.version == 0)) [] ≡ false
unfolding any
any_empty = refl

any_pristine :
    (a : KernelAttempt)
    → not (a.version == 0) ≡ false
    → any (λ (b : KernelAttempt). not (b.version == 0)) (a ∷ []) ≡ false
unfolding any
any_pristine a e = ground arith

AreNewEffects-distinct :
    (input : ReducerInput) (subject : Text) (effects : List EffectIntent)
    → AreNewEffects input subject effects
    → (has_duplicates (map (λ (e : EffectIntent). e.id) effects)
        || has_duplicates (map (λ (e : EffectIntent). e.idempotency_key) effects))
      ≡ false
AreNewEffects-distinct input subject effects fresh =
    let (u, m, n, o, e) = fresh.passed in
    (assert_new_effects-distinct input.run subject m n o effects).at u e

module _ (input : ReducerInput) (facts : BaseFacts input)
    (unique : distinct (keys input.run.active_attempt_versions) ≡ true) where
  -- The writes of a command that ends every active attempt name the fences and advance them.
  terminal-match :
      (status : AttemptState)
      → sort_texts (map write_id (terminal_attempt_writes input.run input.current_attempt status))
        ≡ sort_texts (keys (sorted_record (sorted_record input.run.active_attempt_versions)))
  unfolding terminal_attempt_writes
  terminal-match status =
      ap sort_texts (map-write_id-terminal _ status input.run.active_attempt_versions)
      ∙ sort-keys-sorted input.run.active_attempt_versions
      ∙ sort-keys-sorted (sorted_record input.run.active_attempt_versions)

  terminal-advance :
      (status : AttemptState)
      → for_each
          (assert_write (sorted_record (sorted_record input.run.active_attempt_versions)))
          (terminal_attempt_writes input.run input.current_attempt status)
        ≡ ok tt
  unfolding terminal_attempt_writes
  terminal-advance status =
      terminal_writes-pass _ input.current_attempt status input.run.active_attempt_versions
        (λ a e.
          sorted_twice-lookup input.run.active_attempt_versions unique a.id
          ∙ (facts.active a e).at_version)
        (sorted_twice-agrees input.run.active_attempt_versions unique)

  -- Every step is fenced.
  Step-Fenced : (g : BaseContentInput) → Step input g → Fenced g
  unfolding started bound completed awaiting_result recorded retried scheduled advanced promoted
      settled replace_attempt with_checkpoint expected_for quarantined_run terminal_run
      terminal_attempt_writes closed_cursor
  Step-Fenced _ (starts a l _ _ _ _) =
      rewrites-Fenced input a _ _ _ _ _ _ refl refl refl refl (inl refl) no_ids any_empty no_effects
  Step-Fenced _ (binds a l session _ _ _ _ _) =
      rewrites-Fenced input a _ _ _ _ _ _ refl refl refl refl (inl refl) no_ids any_empty no_effects
  Step-Fenced _ (completes a c p results u _ _ _ _) =
      rewrites-Fenced input a _ _ _ _ _ _ refl refl refl refl (inl refl) no_ids any_empty no_effects
  Step-Fenced _ (pends a c found evidence _ _ _) =
      rewrites-Fenced input a _ _ _ _ _ _ refl refl refl refl (inl refl) no_ids any_empty no_effects
  Step-Fenced _ (records_result a id appended _ _) =
      rewrites-Fenced input a _ _ _ _ _ _ refl refl refl refl (inl refl) no_ids any_empty no_effects
  Step-Fenced _ (retries a forensics _ _ _) =
      rewrites-Fenced input a _ _ _ _ _ _ refl refl refl refl (inl refl) no_ids any_empty no_effects
  Step-Fenced _ (schedules a c p appended checkpoints effects s u _ _ _ fresh) =
      rewrites-Fenced input a _ _ _ _ _ effects refl refl refl refl (inl refl) no_ids any_empty
        (AreNewEffects-distinct input _ effects fresh)
  Step-Fenced _ (advances a c p true integration _ _) =
      rewrites-Fenced input a _ _ _ _ _ _ refl refl refl refl (inl refl) no_ids any_empty no_effects
  Step-Fenced _ (advances a c p false integration _ _) =
      rewrites-Fenced input a _ _ _ _ _ _ refl refl refl refl (inl refl) no_ids any_empty no_effects
  Step-Fenced _ (settles_sibling a result_id decision_id completed_keys barrier appended _ _ _ _) =
      rewrites-Fenced input a _ _ _ _ _ _ refl refl refl refl (inr refl) no_ids any_empty no_effects
  Step-Fenced _
        (settles_last a c s result_id to accepted d completed_keys barrier appended t effects
          next_run _ _ _ _ _ asserted fresh moved) =
      let new =
        (assert_transition-AreNew input c s result_id d accepted _ t t.terminal).at to asserted in
      let m =
        (settled_run-Moved input c accepted completed_keys effects t t.terminal to).at next_run
          moved in
      rewrites-Fenced input a _ next_run _ _ _ effects refl refl m.same_run m.one_version
        (inr m.cursor_version) new.ids new.versions (AreNewEffects-distinct input _ effects fresh)
  Step-Fenced _ (quarantines a l diagnostic _ _ _) = record {
    same_run = refl;
    one_version = refl;
    cursor_version = inr refl;
    writes_match =
        ap sort_texts (map-write_id-quarantine _ input.run.active_attempt_versions)
        ∙ sort-keys-sorted input.run.active_attempt_versions;
    writes_advance =
        quarantine_writes-pass _ _ input.run.active_attempt_versions
          (sorted-agrees input.run.active_attempt_versions unique);
    new_ids = no_ids;
    new_versions = any_empty;
    effects = no_effects;
  }
  Step-Fenced _ (ends_before_provision kind d _) = record {
    same_run = refl;
    one_version = refl;
    cursor_version = inr refl;
    writes_match = terminal-match _;
    writes_advance = terminal-advance _;
    new_ids = no_ids;
    new_versions = any_empty;
    effects = no_effects;
  }
  Step-Fenced _ (begins_cleanup kind plan cursor appended u v _ fresh pristine compiled) = record {
    same_run = refl;
    one_version = refl;
    cursor_version = inr ((compile_kernel_cursor-CompiledFor _).at cursor compiled).same_version;
    writes_match = terminal-match _;
    writes_advance = terminal-advance _;
    new_ids = one_id plan.cleanup_attempt.id;
    new_versions =
        any_pristine plan.cleanup_attempt
          ((assert_pending_attempt-version _ _ _ _ plan.cleanup_attempt).at v pristine);
    effects = no_effects;
  }

-- A transition that the reducer returns passes the store's integrity check, where the map of the
-- active attempts has no key twice.
pub reduce_kernel_command-integrity :
    (platform : Platform) (input : ReducerInput) {b : AtomicTransitionBundle}
    → distinct (keys input.run.active_attempt_versions) ≡ true
    → reduce_kernel_command platform input ≡ ok b
    → assert_atomic_transition_integrity platform b ≡ ok tt
reduce_kernel_command-integrity platform input {b} unique e =
    let accepted = reduce_kernel_command-Accepted platform input e in
    let facts = assert_base_input-BaseFacts input accepted.guarded in
    let fenced = Step-Fenced input facts unique accepted.given accepted.step in
    subst (λ c. assert_atomic_transition_integrity platform c ≡ ok tt) accepted.sealed
      ((base_content-passes platform accepted.given fenced).at b.content accepted.written)
