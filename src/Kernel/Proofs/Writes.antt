-- ===== src/Kernel/Proofs/Writes.antt =====
-- The attempts that a transition writes (supervisor/src/pipeline/kernel/reducer.ts).
use openthrottle.Base.{
  ℕ, ◌+◌, ◌≡◌, refl, Bool, true, false, not, inl, inr, Option, none, some, List, [], ◌∷◌, map, Text,
  Dict, arith, ◌==◌, list_eq, nat_eq, ok, throw_if, if◌then◌else◌, Ensures, Ensures-bind,
  Ensures-ok,
}
use openthrottle.Contracts.Pipeline.{RepositoryAuthority}
use openthrottle.Contracts.Records.{AttemptState}
use openthrottle.Kernel.Types.{
  KernelAttempt, AttemptScope, AttemptWrite, replace, terminal, ReducerInput, Platform,
  AtomicTransitionBundle, is_terminal_attempt,
}
use openthrottle.Kernel.Reducer.Attempt.{completed, awaiting_result, recorded, retried}
use openthrottle.Kernel.Reducer.Bundle.{BaseContentInput, base_content}
use openthrottle.Kernel.Reducer.Dispatch.{reduce_kernel_command}
use openthrottle.Kernel.Reducer.External.{scheduled, advanced, assert_phase}
use openthrottle.Kernel.Reducer.Session.{started, bound}
use openthrottle.Kernel.Reducer.Settle.{settled}
use openthrottle.Kernel.Reducer.Terminal.{
  TerminalKind, status_of, terminated, terminal_write, terminal_attempt_write,
  terminal_attempt_writes,
}
use openthrottle.Kernel.Proofs.Each.{Each, Each-sort}
use openthrottle.Kernel.Proofs.Facts.{BaseFacts, assert_base_input-BaseFacts}
use openthrottle.Kernel.Proofs.Refines.{reduce_kernel_command-Accepted}
use openthrottle.Kernel.Proofs.Step.{
  Step, starts, binds, completes, pends, records_result, retries, schedules, advances,
  settles_sibling, settles_last, quarantines, ends_before_provision, begins_cleanup, IsSettleable,
}

-- The diagram of an attempt's states. A state on the left moves to one on the right, and every
-- state that is not terminal moves to each terminal one that is not `settled`.
abbrev pub may_become : AttemptState → AttemptState → Bool
may_become AttemptState.pending AttemptState.pending = true
may_become AttemptState.pending AttemptState.running = true
may_become AttemptState.pending AttemptState.result_pending = true
may_become AttemptState.running AttemptState.running = true
may_become AttemptState.running AttemptState.pending = true
may_become AttemptState.running AttemptState.work_complete = true
may_become AttemptState.work_complete AttemptState.work_complete = true
may_become AttemptState.work_complete AttemptState.result_pending = true
may_become AttemptState.work_complete AttemptState.recorded = true
may_become AttemptState.result_pending AttemptState.result_pending = true
may_become AttemptState.result_pending AttemptState.running = true
may_become AttemptState.result_pending AttemptState.recorded = true
may_become AttemptState.result_pending AttemptState.settled = true
may_become AttemptState.recorded AttemptState.settled = true
may_become from AttemptState.needs_human = not (is_terminal_attempt from)
may_become from AttemptState.failed = not (is_terminal_attempt from)
may_become from AttemptState.canceled = not (is_terminal_attempt from)
may_become from AttemptState.superseded = not (is_terminal_attempt from)
may_become from to = false

-- What a transition never changes of an attempt.
abbrev pub identity :
    KernelAttempt
    → Text × Text × AttemptScope × RepositoryAuthority × Text × Text × Text × List Text × List Text
identity a = (
  a.id, a.pipeline_run_id, a.scope, a.repository_authority, a.request_hash,
  a.definition_bundle_hash, a.input_subject, a.context_record_ids, a.context_checkpoint_ids,
)

-- The attempt `next` continues `a`: the same request, one version later, in a state that follows.
pub record Continues (a next : KernelAttempt) : Type 0 where
  pub same : identity next ≡ identity a
  pub one_version : next.version ≡ a.version + 1
  pub moves : may_become a.status next.status ≡ true

-- A write is of the current attempt, which it continues, or ends another one.
unfoldable pub IsLawful : Option KernelAttempt → AttemptWrite → Type 0
IsLawful current (replace next) = (a : KernelAttempt) × (current ≡ some a) × Continues a next
IsLawful current (terminal w) =
    (is_terminal_attempt w.status ≡ true) × (w.next_version ≡ w.expected_version + 1)

may_end :
    (s : AttemptState) (kind : TerminalKind)
    → is_terminal_attempt s ≡ false
    → may_become s (status_of kind) ≡ true
unfolding status_of
may_end s kind live = ground arith

is_terminal-status_of : (kind : TerminalKind) → is_terminal_attempt (status_of kind) ≡ true
unfolding status_of
is_terminal-status_of kind = ground arith

IsLawful-choose :
    (o : Option KernelAttempt) (b : Bool) (v w : AttemptWrite)
    → IsLawful o v
    → IsLawful o w
    → IsLawful o (if b then v else w)
IsLawful-choose o true v w p q = p
IsLawful-choose o false v w p q = q

terminal_write-IsLawful :
    (kind : TerminalKind) (o : Option KernelAttempt) (id : Text) (version : ℕ)
    → IsLawful o (terminal_write id version (status_of kind))
unfolding IsLawful terminal_write
terminal_write-IsLawful kind o id version = (is_terminal-status_of kind, refl)

terminated-IsLawful :
    (kind : TerminalKind) (a : KernelAttempt)
    → is_terminal_attempt a.status ≡ false
    → IsLawful (some a) (replace (terminated a (status_of kind)))
unfolding IsLawful terminated
terminated-IsLawful kind a live =
    (a, refl, record { same = refl; one_version = refl; moves = may_end a.status kind live })

terminal_attempt_write-IsLawful :
    (kind : TerminalKind) (o : Option KernelAttempt) (entry : Text × ℕ)
    → ((a : KernelAttempt) → o ≡ some a → is_terminal_attempt a.status ≡ false)
    → IsLawful o (terminal_attempt_write o (status_of kind) entry)
unfolding terminal_attempt_write
terminal_attempt_write-IsLawful kind none (id, version) live =
    terminal_write-IsLawful kind none id version
terminal_attempt_write-IsLawful kind (some a) (id, version) live =
    IsLawful-choose (some a) (a.id == id) _ _ (terminated-IsLawful kind a (live a refl))
      (terminal_write-IsLawful kind (some a) id version)

module _ (current : Option KernelAttempt) (kind : TerminalKind)
    (live : (a : KernelAttempt) → current ≡ some a → is_terminal_attempt a.status ≡ false) where
  terminal_writes-IsLawful :
      (d : Dict ℕ)
      → Each (IsLawful current) (map (terminal_attempt_write current (status_of kind)) d)
  unfolding Each
  terminal_writes-IsLawful [] = tt
  terminal_writes-IsLawful (entry ∷ d) =
      (terminal_attempt_write-IsLawful kind current entry live, terminal_writes-IsLawful d)

quarantine_writes-IsLawful :
    (current : Option KernelAttempt) (d : Dict ℕ)
    → Each
        (IsLawful current)
        (map (λ entry. terminal_write entry.0 entry.1 AttemptState.needs_human) d)
unfolding Each IsLawful terminal_write
quarantine_writes-IsLawful current [] = tt
quarantine_writes-IsLawful current (entry ∷ d) =
    ((refl, refl), quarantine_writes-IsLawful current d)

module _ (input : ReducerInput) (facts : BaseFacts input) where
  one_write :
      (a next : KernelAttempt)
      → input.current_attempt ≡ some a
      → identity next ≡ identity a
      → next.version ≡ a.version + 1
      → may_become a.status next.status ≡ true
      → Each (IsLawful input.current_attempt) (replace next ∷ [])
  unfolding Each IsLawful
  one_write a next e same version moves =
      ((a, e, record { same = same; one_version = version; moves = moves }), tt)

  settle_moves :
      (a : KernelAttempt) → IsSettleable input a → may_become a.status AttemptState.settled ≡ true
  settle_moves a (inl done) = ground arith
  settle_moves a (inr corrected) = ground arith

  schedule_moves :
      (a : KernelAttempt) (id : Text) {u : Unit {0}}
      → assert_phase a id ≡ ok u
      → may_become a.status AttemptState.work_complete ≡ true
  unfolding assert_phase throw_if
  schedule_moves a id e = ground arith

  Step-IsLawful :
      (g : BaseContentInput) → Step input g → Each (IsLawful input.current_attempt) g.attempt_writes
  unfolding started bound completed awaiting_result recorded retried scheduled advanced settled
      terminal_attempt_writes
  Step-IsLawful _ (starts a l e _ _ waiting) = one_write a _ e refl refl (ground arith)
  Step-IsLawful _ (binds a l session e _ held _ _) = one_write a _ e refl refl (ground arith)
  Step-IsLawful _ (completes a c p results u e held _ _) = one_write a _ e refl refl (ground arith)
  Step-IsLawful _ (pends a c found evidence e waiting _) = one_write a _ e refl refl (ground arith)
  Step-IsLawful _ (records_result a id appended e done) = one_write a _ e refl refl (ground arith)
  Step-IsLawful _ (retries a forensics e waiting _) = one_write a _ e refl refl (ground arith)
  Step-IsLawful _ (schedules a c p appended checkpoints effects s u e _ phase _) =
      one_write a _ e refl refl (schedule_moves a c.checkpoint_id phase)
  Step-IsLawful _ (advances a c p publication integration e ready) =
      one_write a _ e refl refl (ground arith)
  Step-IsLawful _
        (settles_sibling a result_id decision_id completed_keys barrier appended e done _ _) =
      one_write a _ e refl refl (settle_moves a done)
  Step-IsLawful _
        (settles_last a c s result_id to accepted d completed_keys barrier appended t effects
          next_run e done _ _ _ _ _ _) =
      one_write a _ e refl refl (settle_moves a done)
  Step-IsLawful _ (quarantines a l diagnostic _ _ _) =
      quarantine_writes-IsLawful input.current_attempt input.run.active_attempt_versions
  Step-IsLawful _ (ends_before_provision kind d _) =
      terminal_writes-IsLawful input.current_attempt kind (λ a e. (facts.active a e).live)
        input.run.active_attempt_versions
  Step-IsLawful _ (begins_cleanup kind plan cursor appended u v _ _ _ _) =
      terminal_writes-IsLawful input.current_attempt kind (λ a e. (facts.active a e).live)
        input.run.active_attempt_versions

pub base_content-Each :
    (P : AttemptWrite → Type 0) (g : BaseContentInput)
    → Each P g.attempt_writes
    → Ensures (λ c. Each P c.attempt_writes) (base_content g)
unfolding base_content
base_content-Each P g e = Ensures-bind _ _ λ _ _. Ensures-ok _ (Each-sort P _ g.attempt_writes e)

-- Of every transition that the reducer returns, each write of a whole attempt is of the current
-- attempt: it keeps the identity of the request, adds one to the version, and moves along the
-- diagram of states. Each other write ends an attempt, one version later.
pub reduce_kernel_command-writes :
    (platform : Platform) (input : ReducerInput) {b : AtomicTransitionBundle}
    → reduce_kernel_command platform input ≡ ok b
    → Each (IsLawful input.current_attempt) b.content.attempt_writes
reduce_kernel_command-writes platform input {b} e =
    let accepted = reduce_kernel_command-Accepted platform input e in
    let facts = assert_base_input-BaseFacts input accepted.guarded in
    (base_content-Each _ accepted.given (Step-IsLawful input facts accepted.given accepted.step)).at
      b.content accepted.written
