-- ===== src/Kernel/Proofs/Facts.antt =====
-- The guards of an accepted command (supervisor/src/pipeline/kernel/reducer-support.ts, reducer.ts).
use openthrottle.Base.{
  ℕ, ◌≡◌, refl, ap, sym, subst, ◌∙◌, Bool, true, false, not, ◌||◌, Option, none, some, List, [],
  ◌∷◌, map, Text, arith, ◌==◌, list_eq, nat_eq, sorted_record, option_eq, list_beq_iff,
  option_beq_iff, lookup, is_some, has_duplicates, any, ok, for_each, Ensures, Ensures-bind,
  Ensures-throw_if, Ensures-ok, or_throw-eq-ok, >>=-eq-ok,
}
use openthrottle.Contracts.Effects.{EffectIntent}
use openthrottle.Contracts.Pipeline.{CompiledPipelineManifest}
use openthrottle.Kernel.Types.{
  KernelRun, KernelCursor, KernelAttempt, ReducerInput, is_terminal_run, is_terminal_attempt,
}
use openthrottle.Kernel.Support.{
  assert_base_input, assert_active_attempt, assert_cursor_topology, current_attempt_check,
}
use openthrottle.Kernel.Cursor.{CursorInput, compile_kernel_cursor}
use openthrottle.Kernel.Reducer.Bundle.{assert_unique_new_attempts, assert_pending_attempt}
use openthrottle.Kernel.Reducer.External.{assert_new_effects}

-- What assertActiveAttempt passes.
pub record IsActive (run : KernelRun) (a : KernelAttempt) : Type 0 where
  pub same_run : a.pipeline_run_id ≡ run.id
  pub at_version : lookup a.id run.active_attempt_versions ≡ some a.version
  pub in_stage : run.cursor.stage_id ≡ some a.scope.stage_id
  pub live : is_terminal_attempt a.status ≡ false

not-eq-false : (b : Bool) → not b ≡ false → b ≡ true
not-eq-false true e = refl
not-eq-false false e = cc

beq-eq : (s t : Text) → not (s == t) ≡ false → s ≡ t
beq-eq s t e = ground (arith, list_beq_iff s t)

text_option_beq-eq : (s t : Option Text) → not (s == t) ≡ false → s ≡ t
text_option_beq-eq s t e = ground (arith, option_beq_iff s t)

nat_option_beq-eq : (s t : Option ℕ) → not (s == t) ≡ false → s ≡ t
nat_option_beq-eq s t e = ground (arith, option_beq_iff s t)

assert_active_attempt-IsActive :
    (run : KernelRun) (a : KernelAttempt)
    → Ensures (λ _. IsActive run a) (assert_active_attempt run a)
unfolding assert_active_attempt
assert_active_attempt-IsActive run a = Ensures-throw_if _ _ _ λ same. Ensures-throw_if _ _ _ λ _.
    Ensures-throw_if _ _ _ λ active. Ensures-throw_if _ _ _ λ stage. Ensures-throw_if _ _ _ λ live.
      record {
        at = λ _ _. record {
          same_run = beq-eq _ _ same;
          at_version = nat_option_beq-eq _ _ active;
          in_stage = sym (text_option_beq-eq _ _ stage);
          live = live;
        };
      }

-- What assertBaseInput passes.
pub record BaseFacts (input : ReducerInput) : Type 0 where
  pub run_is_live : is_terminal_run input.run.status ≡ false
  pub no_outcome : is_some input.run.terminal_outcome ≡ false
  pub in_some_stage : is_some input.run.cursor.stage_id ≡ true
  pub topology : assert_cursor_topology input.run input.current_attempt ≡ ok tt
  pub active : (a : KernelAttempt) → input.current_attempt ≡ some a → IsActive input.run a

unit_eta : (u : Unit {0}) → u ≡ tt
unit_eta tt = refl

some_injective : {a b : KernelAttempt} → some a ≡ some b → a ≡ b
some_injective e = cc

current_attempt_check-IsActive :
    (run : KernelRun) (s : _) (current : Option KernelAttempt) (u : Unit {0})
    → current_attempt_check run s current ≡ ok u
    → (a : KernelAttempt) → current ≡ some a
    → IsActive run a
unfolding current_attempt_check
current_attempt_check-IsActive run s none u e a h = cc
current_attempt_check-IsActive run s (some b) u e a h =
    let (v, passed, _) = >>=-eq-ok (assert_active_attempt run b) _ e in
    subst (IsActive run) (some_injective h) ((assert_active_attempt-IsActive run b).at v passed)

assert_base_input-Ensures :
    (input : ReducerInput) → Ensures (λ _. BaseFacts input) (assert_base_input input)
unfolding assert_base_input
assert_base_input-Ensures input = Ensures-throw_if _ _ _ λ _. Ensures-throw_if _ _ _ λ _.
    Ensures-throw_if _ _ _ λ _. Ensures-throw_if _ _ _ λ _. Ensures-throw_if _ _ _ λ live.
      Ensures-throw_if _ _ _ λ open_run. Ensures-bind _ _ λ _ staged. Ensures-bind _ _ λ s _.
        Ensures-bind _ _ λ u t. Ensures-bind _ _ λ _ _. Ensures-bind _ _ λ _ _. record {
          at = λ v e. record {
            run_is_live = live;
            no_outcome = open_run;
            in_some_stage = ap is_some (or_throw-eq-ok _ _ staged);
            topology = t ∙ ap ok (unit_eta u);
            active = current_attempt_check-IsActive input.run s input.current_attempt v e;
          };
        }

pub assert_base_input-BaseFacts :
    (input : ReducerInput) → assert_base_input input ≡ ok tt → BaseFacts input
assert_base_input-BaseFacts input e = (assert_base_input-Ensures input).at tt e

-- The version and the stage of a compiled cursor are those asked for.
pub record CompiledFor (input : CursorInput) (cursor : KernelCursor) : Type 0 where
  pub same_version : cursor.version ≡ input.version
  pub same_stage : cursor.stage_id ≡ some input.stage_id
  pub same_reentries : cursor.reentries ≡ sorted_record input.reentries

pub compile_kernel_cursor-CompiledFor :
    (input : CursorInput) → Ensures (CompiledFor input) (compile_kernel_cursor input)
unfolding compile_kernel_cursor
compile_kernel_cursor-CompiledFor input = Ensures-throw_if _ _ _ λ _. Ensures-throw_if _ _ _ λ _.
    Ensures-throw_if _ _ _ λ _. Ensures-throw_if _ _ _ λ _. Ensures-bind _ _ λ _ _.
      Ensures-bind _ _ λ _ _.
        Ensures-ok _ (record { same_version = refl; same_stage = refl; same_reentries = refl })

-- New attempts are distinct, and each is at version 0.
pub assert_unique_new_attempts-distinct :
    (attempts : List KernelAttempt) (run : KernelRun)
    → Ensures
        (λ _. has_duplicates (map (λ (a : KernelAttempt). a.id) attempts) ≡ false)
        (assert_unique_new_attempts attempts run)
unfolding assert_unique_new_attempts
assert_unique_new_attempts-distinct attempts run =
    Ensures-throw_if _ _ _ λ fresh. record { at = λ _ _. fresh }

pub assert_pending_attempt-version :
    (manifest : CompiledPipelineManifest) (run : KernelRun) (stage_id subject : Text)
    (a : KernelAttempt)
    → Ensures
        (λ _. not (a.version == 0) ≡ false)
        (assert_pending_attempt manifest run stage_id subject a)
unfolding assert_pending_attempt
assert_pending_attempt-version manifest run stage_id subject a = Ensures-throw_if _ _ _ λ _.
    Ensures-throw_if _ _ _ λ _. Ensures-throw_if _ _ _ λ _. Ensures-throw_if _ _ _ λ _.
      Ensures-throw_if _ _ _
        λ _. Ensures-throw_if _ _ _ λ pristine. record { at = λ _ _. ground arith }

pub for_each-pending-version :
    (manifest : CompiledPipelineManifest) (run : KernelRun) (stage_id : Text)
    (subject : KernelAttempt → Text) (attempts : List KernelAttempt)
    → Ensures
        (λ _. any (λ (a : KernelAttempt). not (a.version == 0)) attempts ≡ false)
        (for_each
          (λ (a : KernelAttempt). assert_pending_attempt manifest run stage_id (subject a) a)
          attempts)
unfolding for_each any
for_each-pending-version manifest run stage_id subject [] = Ensures-ok _ refl
for_each-pending-version manifest run stage_id subject (a ∷ attempts) = Ensures-bind _ _ λ u passed.
    record {
      at = λ v rest.
          let here =
            (assert_pending_attempt-version manifest run stage_id (subject a) a).at u passed in
          let there = (for_each-pending-version manifest run stage_id subject attempts).at v rest in
          ground arith;
    }

-- New effects are distinct, by identity and by idempotency key.
pub assert_new_effects-distinct :
    (run : KernelRun) (subject : Text) (m n o : _) (effects : List EffectIntent)
    → Ensures
        (λ _.
          (has_duplicates (map (λ (e : EffectIntent). e.id) effects)
            || has_duplicates (map (λ (e : EffectIntent). e.idempotency_key) effects))
          ≡ false)
        (assert_new_effects run subject m n o effects)
unfolding assert_new_effects
assert_new_effects-distinct run subject m n o effects =
    Ensures-throw_if _ _ _
      λ ids. Ensures-throw_if _ _ _ λ idempotency_keys. record { at = λ _ _. ground arith }
