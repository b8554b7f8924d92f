-- ===== src/Kernel/Proofs/Refines/Attempt.antt =====
-- `work_complete`, `result_pending`, `record` and `retry` against the relation of steps
-- (supervisor/src/pipeline/kernel/reducer.ts).
use openthrottle.Base.{
  ◌≡◌, ◌<◌, refl, subst, ℕ, Text, Option, none, some, List, [], ◌∷◌, false, lookup, leb, arith,
  is_none, is_some, ok, >>=-eq-ok, or_throw-eq-ok, if◌then◌else◌, list_eq, nat_eq,
}
use openthrottle.Contracts.Records.{AttemptCheckpoint, ExecutionRecord, decision, result}
use openthrottle.Kernel.Types.{
  work_complete, result_pending, record_result, retry, ReducerInput, Platform, WorkComplete,
  ResultPending,
}
use openthrottle.Kernel.Reducer.Attempt.{
  complete_work, pend_result, record_attempt_result, retry_attempt, completed, awaiting_result,
  recorded, retried, with_checkpoint,
}
use openthrottle.Kernel.Support.{assert_exact_map}
use openthrottle.Kernel.Reducer.Bundle.{rewrites, replace_attempt, exact_checkpoint}
use openthrottle.Kernel.Proofs.Emits.{
  Emits, Emits-base_content, Emits-bind, Emits-throw_if, Emits-or_throw,
}
use openthrottle.Kernel.Proofs.Step.{completes, pends, records_result, retries}
use openthrottle.Kernel.Proofs.Refines.Session.{current_attempt-eq-ok, rewritten, goes_on, appends}
use openthrottle.Kernel.Proofs.Does.{Does, Performs, Appends}

pub exact_checkpoint-eq-ok :
    (input : ReducerInput) (id : Text) {p : AttemptCheckpoint}
    → exact_checkpoint input id ≡ ok p
    → lookup id input.checkpoints ≡ some p
unfolding exact_checkpoint
exact_checkpoint-eq-ok input id e =
    let (_, _, found) = >>=-eq-ok (assert_exact_map input.checkpoints (id ∷ [])) _ e in
    or_throw-eq-ok (lookup id input.checkpoints) _ found

below : (limit used : ℕ) → leb limit used ≡ false → used < limit
below limit used h = ground arith

if-none {ℓ} :
    {A : Type ℓ} (o : Option A) (records : List ExecutionRecord)
    → (if is_none o then records else []) ≡ (if is_some o then [] else records)
if-none none records = refl
if-none (some a) records = refl

pub complete_work-Performs :
    (input : ReducerInput) (c : WorkComplete)
    → Emits (Performs input (work_complete c)) (complete_work input c)
unfolding complete_work Does completed replace_attempt with_checkpoint
complete_work-Performs input c = Emits-bind _ _ λ _ _. Emits-bind _ _ λ a ea.
    Emits-throw_if _ _ _ λ held. Emits-bind _ _ λ _ _. Emits-bind _ _ λ p ep. Emits-bind _ _ λ _ _.
      Emits-throw_if _ _ _ λ free. Emits-bind _ _ λ u subject. Emits-bind _ _ λ results _.
        Emits-base_content _ (record {
          step =
              completes a c p results u (current_attempt-eq-ok input c.attempt_id ea) held free
                subject;
          does = (
            a,
            p,
            rewritten input a _ _ c.attempt_id ea refl refl,
            goes_on input a (completed a c p) _ refl refl refl refl,
            record { is_given = exact_checkpoint-eq-ok input c.checkpoint_id ep; owned = refl },
            refl,
            refl,
          );
        })

module _ (platform : Platform) (input : ReducerInput) where
  pub pend_result-Performs :
      (c : ResultPending) → Emits (Performs input (result_pending c)) (pend_result platform input c)
  unfolding pend_result Does awaiting_result replace_attempt
  pend_result-Performs c = Emits-bind _ _ λ _ _. Emits-bind _ _ λ a ea. Emits-throw_if _ _ _ λ done.
      Emits-or_throw _ _ _ λ _ _. Emits-bind _ _ λ _ _. Emits-bind _ _ λ _ _. Emits-bind _ _ λ _ _.
        Emits-throw_if _ _ _ λ _. Emits-throw_if _ _ _ λ _. Emits-throw_if _ _ _ λ _.
          Emits-throw_if _ _ _ λ deadline. Emits-bind _ _ λ evidence _. Emits-bind _ _ λ _ _.
            Emits-bind _ _ λ found listed. Emits-base_content _ (record {
              step =
                  pends a c found evidence (current_attempt-eq-ok input c.attempt_id ea) done
                    deadline;
              does = (
                a,
                found,
                evidence,
                listed,
                rewritten input a _ _ c.attempt_id ea refl refl,
                goes_on input a (awaiting_result a c found) _ refl refl refl refl,
                appends input a (awaiting_result a c found) (decision evidence ∷ []),
              );
            })

  pub record_attempt_result-Performs :
      (id record_id : Text)
      → Emits
          (Performs input (record_result id record_id))
          (record_attempt_result input id record_id)
  unfolding record_attempt_result Does recorded replace_attempt
  record_attempt_result-Performs id record_id = Emits-bind _ _ λ a ea. Emits-throw_if _ _ _ λ done.
      Emits-or_throw _ _ _ λ _ _. Emits-bind _ _ λ _ _. Emits-bind _ _ λ _ _. Emits-bind _ _ λ _ _.
        Emits-bind _ _ λ r er. Emits-bind _ _ λ _ _. Emits-base_content _ (record {
          step = records_result a r.id _ (current_attempt-eq-ok input id ea) done;
          does = (
            a,
            r,
            er,
            rewritten input a _ _ id ea refl refl,
            goes_on input a (recorded a r.id) _ refl refl refl refl,
            subst
                (λ records.
                  Appends input records
                    (record (rewrites input a (replace_attempt input.run (recorded a r.id))
                      (recorded a r.id)) {
                        append_records = if is_none a.result_record_id then result r ∷ [] else [];
                      }))
                (if-none a.result_record_id (result r ∷ []))
                (appends input a (recorded a r.id)
                  (if is_none a.result_record_id then result r ∷ [] else [])),
          );
        })

  pub retry_attempt-Performs :
      (id : Text) (record_id : Option Text)
      → Emits (Performs input (retry id record_id)) (retry_attempt platform input id record_id)
  unfolding retry_attempt Does retried replace_attempt
  retry_attempt-Performs id record_id = Emits-bind _ _ λ _ _. Emits-bind _ _ λ _ _.
      Emits-bind _ _ λ a ea. Emits-throw_if _ _ _ λ waiting. Emits-throw_if _ _ _ λ left.
        Emits-bind _ _ λ forensics _. Emits-base_content _ (record {
          step = retries a forensics (current_attempt-eq-ok input id ea) waiting left;
          does = (
            a,
            forensics,
            below _ _ left,
            rewritten input a _ _ id ea refl refl,
            goes_on input a (retried a) _ refl refl refl refl,
            appends input a (retried a) forensics,
          );
        })
