-- ===== src/Kernel/Store.antt =====
-- What the store asks of a transition before it applies it
-- (supervisor/src/pipeline/kernel/store.ts).
use openthrottle.Base.{
  ℕ, ◌+◌, not, ◌&&◌, ◌||◌, Option, none, some, map, Text, Dict, lookup, keys, ◌==◌, nat_eq, list_eq,
  option_eq, any, has_duplicates, sort_texts, Result, ok, ◌>>◌, throw_if, for_each,
}
use openthrottle.Contracts.Effects.{EffectIntent}
use openthrottle.Kernel.Types.{KernelAttempt, AttemptWrite, AtomicTransitionBundle, Platform}
use openthrottle.Kernel.Reducer.Bundle.{write_id, write_version}

-- One round of the loop over the writes. A fence that is missing is NaN, which no version equals.
unfoldable pub assert_write : Dict ℕ → AttemptWrite → Result (Unit {0})
assert_write versions write =
    throw_if (not (some (write_version write) == fenced (lookup (write_id write) versions)))
      "atomic transition ${bundle.transition_id} has an invalid attempt version advance"
  where
    fenced : Option ℕ → Option ℕ
    fenced none = none
    fenced (some version) = some (version + 1)

-- assertAtomicTransitionIntegrity
unfoldable pub assert_atomic_transition_integrity :
    Platform → AtomicTransitionBundle → Result (Unit {0})
unfolding assert_write
assert_atomic_transition_integrity platform bundle = do
  let content = bundle.content
  let expected = content.expected
  throw_if (not (platform.digest_content content == bundle.content_hash))
      "atomic transition ${bundle.transition_id} content hash mismatch"
  throw_if (not (content.run.id == expected.run_id))
      "atomic transition ${bundle.transition_id} writes another pipeline run"
  throw_if (not (content.run.version == expected.run_version + 1))
      "atomic transition ${bundle.transition_id} must advance the run version exactly once"
  throw_if
      (not (content.run.cursor.version == expected.cursor_version)
        && not (content.run.cursor.version == expected.cursor_version + 1))
      "atomic transition ${bundle.transition_id} has an invalid cursor version advance"
  throw_if
      (not (
        sort_texts (map write_id content.attempt_writes)
        == sort_texts (keys expected.attempt_versions)))
      "atomic transition ${bundle.transition_id} attempt writes do not match its fences"
  for_each (assert_write expected.attempt_versions) content.attempt_writes
  throw_if
      (has_duplicates (map (λ (a : KernelAttempt). a.id) content.create_attempts)
        || any (λ (a : KernelAttempt). not (a.version == 0)) content.create_attempts)
      "atomic transition ${bundle.transition_id} creates invalid attempt identities"
  throw_if
      (has_duplicates (map (λ (e : EffectIntent). e.id) content.put_effects)
        || has_duplicates (map (λ (e : EffectIntent). e.idempotency_key) content.put_effects))
      "atomic transition ${bundle.transition_id} creates conflicting effects"

pub record AtomicTransitionObservedState : Type 0 where
  pub run_id : Text
  pub run_version : ℕ
  pub cursor_version : ℕ
  pub attempt_versions : Dict ℕ

pub record StoredTransitionIdentity : Type 0 where
  pub transition_id : Text
  pub content_hash : Text

pub data TransitionApplicationDisposition : Type 0 where
  apply replay : TransitionApplicationDisposition

-- The fences of transitionApplicationDisposition, for a transition that is not stored yet.
unfoldable pub assert_fences :
    AtomicTransitionBundle → AtomicTransitionObservedState → Result TransitionApplicationDisposition
assert_fences bundle observed = do
  let expected = bundle.content.expected
  throw_if (not (observed.run_id == expected.run_id))
      "atomic transition targets another pipeline run"
  throw_if
      (not (observed.run_version == expected.run_version)
        || not (observed.cursor_version == expected.cursor_version))
      "atomic transition ${bundle.transition_id} has a stale run or cursor version"
  for_each
      (λ entry.
        throw_if (not (lookup entry.0 observed.attempt_versions == some entry.1))
          "atomic transition ${bundle.transition_id} has a stale attempt version for ${attemptId}")
      expected.attempt_versions
  ok apply

unfoldable pub disposition_for :
    AtomicTransitionBundle
    → AtomicTransitionObservedState
    → Option StoredTransitionIdentity
    → Result TransitionApplicationDisposition
unfolding assert_fences
disposition_for bundle observed none = assert_fences bundle observed
disposition_for bundle observed (some existing) = do
  throw_if (not (existing.transition_id == bundle.content.transition_id))
      "stored transition identity does not match the requested replay"
  throw_if (not (existing.content_hash == bundle.content_hash))
      "atomic transition ${bundle.transition_id} conflicts with its immutable replay"
  ok replay

-- transitionApplicationDisposition
unfoldable pub transition_application_disposition :
    Platform
    → AtomicTransitionBundle
    → AtomicTransitionObservedState
    → Option StoredTransitionIdentity
    → Result TransitionApplicationDisposition
unfolding disposition_for
transition_application_disposition platform bundle observed existing = do
  assert_atomic_transition_integrity platform bundle
  disposition_for bundle observed existing
