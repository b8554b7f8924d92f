-- ===== src/Kernel/Proofs/Refines/Session.antt =====
-- `start` and `bind_runtime_session` against the relation of steps
-- (supervisor/src/pipeline/kernel/reducer.ts).
use openthrottle.Base.{
  ◌≡◌, Text, ok, ◌>>=◌, throw_if, or_throw, some, arith, ◌∙◌, list_eq, nat_eq, refl, not, ◌==◌,
  false, list_beq_iff, ◌+◌, ◌∷◌, List, [], put, sorted_record,
}
use openthrottle.Contracts.Records.{ExecutionRecord}
use openthrottle.Kernel.Types.{
  KernelAttempt, KernelRun, KernelRunStatus, start, bind_runtime_session, replace, ReducerInput,
  BindRuntimeSession,
}
use openthrottle.Kernel.Support.{current_attempt}
use openthrottle.Kernel.Reducer.Bundle.{BaseContentInput, rewrites, replace_attempt}
use openthrottle.Kernel.Reducer.Session.{start_attempt, bind_session, started, bound}
use openthrottle.Kernel.Proofs.Does.{Does, Performs, Rewrites, GoesOn, Appends, under_way}
use openthrottle.Kernel.Proofs.Emits.{
  Emits, Emits-base_content, Emits-bind, Emits-throw_if, Emits-or_throw,
}
use openthrottle.Kernel.Proofs.Step.{starts, binds}

pub current_attempt-eq-ok :
    (input : ReducerInput) (id : Text) {a : KernelAttempt}
    → current_attempt input id ≡ ok a
    → input.current_attempt ≡ some a
unfolding current_attempt throw_if or_throw ◌>>=◌
current_attempt-eq-ok input id e = ground arith

pub current_attempt-named :
    (input : ReducerInput) (id : Text) {a : KernelAttempt}
    → current_attempt input id ≡ ok a
    → a.id ≡ id
unfolding current_attempt throw_if or_throw ◌>>=◌
current_attempt-named input id {a} e = ground (arith, list_beq_iff a.id id)

status-under_way :
    (run : KernelRun) (next : KernelAttempt) (s : KernelRunStatus)
    → (replace_attempt (record run { status = s }) next).status ≡ under_way s
unfolding replace_attempt
status-under_way run next KernelRunStatus.pending = refl
status-under_way run next KernelRunStatus.running = refl
status-under_way run next (KernelRunStatus.ended outcome) = refl

pub equal_texts : (s t : Text) → not (s == t) ≡ false → s ≡ t
equal_texts s t e = ground (arith, list_beq_iff s t)

-- A command that writes its attempt, from what its content is.
module _ (input : ReducerInput) (a : KernelAttempt) (next : KernelAttempt)
    (g : BaseContentInput) where
  pub rewritten :
      (id : Text)
      → current_attempt input id ≡ ok a
      → g.attempt_writes ≡ replace next ∷ []
      → g.run.version ≡ input.run.version + 1
      → Rewrites input id a next g
  rewritten id e writes version = record {
    is_current = current_attempt-eq-ok input id e;
    is_named = current_attempt-named input id e;
    one_write = writes;
    run_version = version;
  }

  pub goes_on :
      g.run.status ≡ (replace_attempt input.run next).status
      → g.run.cursor ≡ input.run.cursor
      → g.run.active_attempt_versions
        ≡ sorted_record (put a.id (a.version + 1) input.run.active_attempt_versions)
      → g.create_attempts ≡ []
      → GoesOn input a g
  goes_on status cursor active created = record {
    under_way_now = status ∙ status-under_way input.run next input.run.status;
    same_cursor = cursor;
    active = active;
    creates_none = created;
  }

-- Of a command that writes its attempt and appends records, and no more.
pub appends :
    (input : ReducerInput) (a next : KernelAttempt) (records : List ExecutionRecord)
    → Appends input records (record (rewrites input a (replace_attempt input.run next) next) {
      append_records = records;
    })
unfolding replace_attempt
appends input a next records = record {
  appended = refl;
  no_checkpoints = refl;
  no_effects = refl;
  same_subject = refl;
  same_checkpoints = refl;
  same_effects = refl;
}

pub start_attempt-Performs :
    (input : ReducerInput) (id lease_id : Text)
    → Emits (Performs input (start id lease_id)) (start_attempt input id lease_id)
unfolding start_attempt Does started replace_attempt
start_attempt-Performs input id lease_id = Emits-bind _ _ λ _ _. Emits-bind _ _ λ a ea.
    Emits-or_throw _ _ _ λ l el. Emits-throw_if _ _ _ λ leased. Emits-throw_if _ _ _ λ unstarted.
      Emits-throw_if _ _ _ λ waiting. Emits-base_content _ (record {
        step = starts a l (current_attempt-eq-ok input id ea) el unstarted waiting;
        does = (
          a,
          l,
          el,
          equal_texts l.id lease_id leased,
          unstarted,
          rewritten input a _ _ id ea refl refl,
          goes_on input a (started a l) _ refl refl refl refl,
          appends input a (started a l) [],
        );
      })

pub bind_session-Performs :
    (input : ReducerInput) (c : BindRuntimeSession)
    → Emits (Performs input (bind_runtime_session c)) (bind_session input c)
unfolding bind_session Does bound replace_attempt
bind_session-Performs input c = Emits-bind _ _ λ _ _. Emits-bind _ _ λ a ea. Emits-bind _ _ λ _ _.
    Emits-bind _ _ λ _ _. Emits-bind _ _ λ _ _. Emits-throw_if _ _ _ λ _. Emits-throw_if _ _ _ λ _.
      Emits-or_throw _ _ _ λ l el. Emits-throw_if _ _ _ λ _. Emits-throw_if _ _ _ λ held.
        Emits-throw_if _ _ _ λ unbound. Emits-throw_if _ _ _ λ valid. Emits-base_content _ (record {
          step =
              binds a l c.native_session_id (current_attempt-eq-ok input c.attempt_id ea) el held
                unbound valid;
          does = (
            a,
            rewritten input a _ _ c.attempt_id ea refl refl,
            goes_on input a (bound a c.native_session_id) _ refl refl refl refl,
            appends input a (bound a c.native_session_id) [],
          );
        })
