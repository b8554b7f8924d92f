-- ===== src/Kernel/Proofs/Returns.antt =====
-- Commands that the reducer accepts (start of supervisor/src/pipeline/kernel/reducer.ts).
use openthrottle.Base.{
  ◌≡◌, ◌+◌, ◌⊎◌, inl, inr, true, put, sorted_record, if◌then◌else◌, refl, ap, ◌∙◌, false, not, ◌&&◌,
  some, [], ◌∷◌, arith, list_eq, nat_eq, list_beq, list_beq_iff, ok, ◌>>=◌, throw_if, or_throw,
  keys, sort, sort_texts, sorted_unique, dedup,
}
use openthrottle.Contracts.Records.{AttemptState, ExecutionRecord, AttemptCheckpoint}
use openthrottle.Kernel.Proofs.Facts.{assert_base_input-BaseFacts}
use openthrottle.Kernel.Types.{
  KernelRun, KernelRunStatus, is_terminal_run, is_work, KernelAttempt, AttemptLease, ReducerInput,
  Platform, AtomicTransitionBundle, AtomicTransitionBundleContent, start, replace, is_pending,
  is_result_pending,
}
use openthrottle.Kernel.Support.{
  assert_base_input, assert_exact_map, assert_attempt_command_maps_empty, current_attempt,
}
use openthrottle.Kernel.Reducer.Bundle.{
  base_content, rewrites, replace_attempt, append_record_order,
}
use openthrottle.Kernel.Reducer.Dispatch.{dispatch, bundle, reduce_kernel_command}
use openthrottle.Kernel.Reducer.Session.{started, start_attempt}

no_entries {ℓ} : (V : Type ℓ) → assert_exact_map {V = V} [] [] ≡ ok tt
unfolding assert_exact_map keys sort_texts sort sorted_unique dedup throw_if list_beq
no_entries V = refl

maps_empty-returns :
    (input : ReducerInput)
    → input.records ≡ []
    → input.checkpoints ≡ []
    → assert_attempt_command_maps_empty input ≡ ok tt
unfolding assert_attempt_command_maps_empty ◌>>=◌
maps_empty-returns input records checkpoints =
    rw (records, checkpoints, no_entries ExecutionRecord, no_entries AttemptCheckpoint) refl

current_attempt-returns :
    (input : ReducerInput) (a : KernelAttempt)
    → input.current_attempt ≡ some a
    → current_attempt input a.id ≡ ok a
unfolding current_attempt or_throw throw_if ◌>>=◌
current_attempt-returns input a e = ground (arith, list_beq_iff a.id a.id)

base_content-returns :
    (input : ReducerInput) (a next : KernelAttempt)
    → (b : _) × (base_content (rewrites input a (replace_attempt input.run next) next) ≡ ok b)
      × (b.attempt_writes ≡ replace next ∷ [])
      × (b.run ≡ replace_attempt input.run next)
unfolding base_content append_record_order sort ◌>>=◌
base_content-returns input a next = (_, refl, refl, refl)

-- What the code asks of a `start`: no records or checkpoints, and a lease of the current attempt that
-- has the given identity and has not started, in a state that can start.
pub record CanStart (input : ReducerInput) (a : KernelAttempt) (l : AttemptLease) : Type 0 where
  pub is_start : input.command.action ≡ start a.id l.id
  pub no_records : input.records ≡ []
  pub no_checkpoints : input.checkpoints ≡ []
  pub is_current : input.current_attempt ≡ some a
  pub is_leased : a.lease ≡ some l
  pub unstarted : l.started ≡ false
  pub can_start : (a.status ≡ AttemptState.pending) ⊎ (a.status ≡ AttemptState.result_pending)

can_start-waits :
    (status : AttemptState)
    → ((status ≡ AttemptState.pending) ⊎ (status ≡ AttemptState.result_pending))
    → (not (is_pending status) && not (is_result_pending status)) ≡ false
can_start-waits status (inl e) = rw e
can_start-waits status (inr e) = rw e

start_attempt-returns :
    (input : ReducerInput) (a : KernelAttempt) (l : AttemptLease)
    → CanStart input a l
    → start_attempt input a.id l.id
      ≡ base_content (rewrites input a (replace_attempt input.run (started a l)) (started a l))
unfolding start_attempt ◌>>=◌ throw_if or_throw
start_attempt-returns input a l can = ground (
  arith,
  maps_empty-returns input can.no_records can.no_checkpoints,
  current_attempt-returns input a can.is_current,
  can.is_leased,
  can.unstarted,
  can_start-waits a.status can.can_start,
  list_beq_iff l.id l.id,
)

sealed_command :
    (platform : Platform) (input : ReducerInput) {content : AtomicTransitionBundleContent}
    → assert_base_input input ≡ ok tt
    → dispatch platform input input.command.action ≡ ok content
    → reduce_kernel_command platform input ≡ ok (bundle platform content)
unfolding reduce_kernel_command ◌>>=◌
sealed_command platform input guarded dispatched = ground arith

-- What a `start` writes: the attempt, running or in correction under its lease, which has now
-- started, and the run, which is running and has the attempt one version later.
pub record IsStarted (input : ReducerInput) (a : KernelAttempt) (l : AttemptLease)
    (content : AtomicTransitionBundleContent) : Type 0 where
  pub one_write :
      content.attempt_writes
      ≡ replace (record a {
        status = if is_work l.purpose then AttemptState.running else AttemptState.result_pending;
        version = a.version + 1;
        lease = some (record l { started = true });
      })
        ∷ []
  pub run_version : content.run.version ≡ input.run.version + 1
  pub run_runs : content.run.status ≡ KernelRunStatus.running
  pub same_cursor : content.run.cursor ≡ input.run.cursor
  pub same_subject : content.run.current_subject ≡ input.run.current_subject
  pub active :
      content.run.active_attempt_versions
      ≡ sorted_record (put a.id (a.version + 1) input.run.active_attempt_versions)

live-running :
    (run : KernelRun) (next : KernelAttempt) (s : KernelRunStatus)
    → is_terminal_run s ≡ false
    → (replace_attempt (record run { status = s }) next).status ≡ KernelRunStatus.running
unfolding replace_attempt
live-running run next KernelRunStatus.pending live = refl
live-running run next KernelRunStatus.running live = refl
live-running run next (KernelRunStatus.ended outcome) live = cc

started-IsStarted :
    (input : ReducerInput) (a : KernelAttempt) (l : AttemptLease)
    (content : AtomicTransitionBundleContent)
    → is_terminal_run input.run.status ≡ false
    → content.attempt_writes ≡ replace (started a l) ∷ []
    → content.run ≡ replace_attempt input.run (started a l)
    → IsStarted input a l content
unfolding started replace_attempt
started-IsStarted input a l content live writes run = record {
  one_write = writes;
  run_version = ap (λ (r : KernelRun). r.version) run;
  run_runs =
      ap (λ (r : KernelRun). r.status) run
      ∙ live-running input.run (started a l) input.run.status live;
  same_cursor = ap (λ (r : KernelRun). r.cursor) run;
  same_subject = ap (λ (r : KernelRun). r.current_subject) run;
  active = ap (λ (r : KernelRun). r.active_attempt_versions) run;
}

-- A `start` that meets its conditions, on an input that passes the base guards, is accepted: the
-- transition writes the attempt under its lease, which has now started, as running or, for a
-- correction, as waiting for its result, and the run is running with the attempt one version later.
pub reduce_kernel_command-starts :
    (platform : Platform) (input : ReducerInput) (a : KernelAttempt) (l : AttemptLease)
    → assert_base_input input ≡ ok tt
    → CanStart input a l
    → (b : AtomicTransitionBundle) × (reduce_kernel_command platform input ≡ ok b)
      × IsStarted input a l b.content
unfolding dispatch bundle
reduce_kernel_command-starts platform input a l guarded can =
    let (content, returns, writes, run) = base_content-returns input a (started a l) in
    let dispatched =
      ap (dispatch platform input) can.is_start ∙ start_attempt-returns input a l can ∙ returns in
    (
      bundle platform content,
      sealed_command platform input guarded dispatched,
      started-IsStarted input a l content (assert_base_input-BaseFacts input guarded).run_is_live
          writes run,
    )
