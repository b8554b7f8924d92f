-- ===== src/Kernel/Proofs/Fences/Sealed.antt =====
-- What the arguments of `baseContent` must satisfy for its content to pass the integrity check.
use openthrottle.Base.{
  ◌+◌, ◌≡◌, refl, ap, ◌∙◌, Bool, true, false, not, ◌||◌, ◌⊎◌, List, [], ◌∷◌, map, Text, keys,
  insert, sort, sort_texts, text_le, arith, ◌==◌, list_eq, nat_eq, list_beq_iff, any,
  has_duplicates, Result, ok, ◌>>=◌, throw_if, for_each, map-sort, sort-sort,
  has_duplicates-map-sort, any-sort, Ensures, Ensures-bind, Ensures-ok,
}
use openthrottle.Contracts.Effects.{EffectIntent}
use openthrottle.Contracts.Records.{ExecutionRecord, AttemptCheckpoint}
use openthrottle.Kernel.Types.{KernelAttempt, AttemptWrite, AtomicTransitionBundleContent, Platform}
use openthrottle.Kernel.Reducer.Bundle.{
  BaseContentInput, base_content, write_id, attempt_write_le, attempt_le,
}
use openthrottle.Kernel.Reducer.Dispatch.{bundle}
use openthrottle.Kernel.Store.{assert_write, assert_atomic_transition_integrity}

pub record Fenced (g : BaseContentInput) : Type 0 where
  pub same_run : g.run.id ≡ g.expected.run_id
  pub one_version : g.run.version ≡ g.expected.run_version + 1
  pub cursor_version :
      (g.run.cursor.version ≡ g.expected.cursor_version)
      ⊎ (g.run.cursor.version ≡ g.expected.cursor_version + 1)
  pub writes_match :
      sort_texts (map write_id g.attempt_writes) ≡ sort_texts (keys g.expected.attempt_versions)
  pub writes_advance : for_each (assert_write g.expected.attempt_versions) g.attempt_writes ≡ ok tt
  pub new_ids : has_duplicates (map (λ (a : KernelAttempt). a.id) g.create_attempts) ≡ false
  pub new_versions : any (λ (a : KernelAttempt). not (a.version == 0)) g.create_attempts ≡ false
  pub effects :
      (has_duplicates (map (λ (e : EffectIntent). e.id) g.put_effects)
        || has_duplicates (map (λ (e : EffectIntent). e.idempotency_key) g.put_effects))
      ≡ false

module _ {ℓ} {A : Type ℓ} (f : A → Result (Unit {0})) (le : A → A → Bool) where
  for_each-insert :
      (a : A) (xs : List A)
      → f a ≡ ok tt
      → for_each f xs ≡ ok tt
      → for_each f (insert le a xs) ≡ ok tt
  unfolding for_each insert ◌>>=◌
  for_each-insert a [] h e = ground arith
  for_each-insert a (x ∷ xs) h e = ground (arith, for_each-insert a xs)

  -- A check that each element passes does not depend on their order.
  for_each-sort : (xs : List A) → for_each f xs ≡ ok tt → for_each f (sort le xs) ≡ ok tt
  unfolding for_each sort ◌>>=◌
  for_each-sort [] e = refl
  for_each-sort (x ∷ xs) e = ground (arith, for_each-sort xs, for_each-insert x (sort le xs))

map-write_id-sort :
    (writes : List AttemptWrite)
    → sort_texts (map write_id (sort attempt_write_le writes)) ≡ sort_texts (map write_id writes)
unfolding attempt_write_le sort_texts
map-write_id-sort writes =
    ap (sort text_le) (map-sort write_id text_le writes) ∙ sort-sort text_le (map write_id writes)

text_beq_refl : (s : Text) → (s == s) ≡ true
text_beq_refl s = ground (arith, list_beq_iff s s)

abbrev content_of : BaseContentInput → List ExecutionRecord → AtomicTransitionBundleContent
content_of g appended = record {
  transition_id = g.command_id;
  expected = g.expected;
  run = g.run;
  attempt_writes = sort attempt_write_le g.attempt_writes;
  create_attempts = sort attempt_le g.create_attempts;
  append_records = appended;
  append_checkpoints = sort (λ (a b : AttemptCheckpoint). text_le a.id b.id) g.append_checkpoints;
  put_effects = sort (λ (a b : EffectIntent). text_le a.id b.id) g.put_effects;
  cancel_effect_ids = [];
}

module _ (platform : Platform) (g : BaseContentInput) (fenced : Fenced g) where
  content_of-passes :
      (appended : List ExecutionRecord)
      → assert_atomic_transition_integrity platform (bundle platform (content_of g appended))
        ≡ ok tt
  unfolding assert_atomic_transition_integrity bundle throw_if ◌>>=◌
  content_of-passes appended =
      let ids =
        list_beq_iff (sort_texts (map write_id (sort attempt_write_le g.attempt_writes)))
          (sort_texts (keys g.expected.attempt_versions)) in
      let same_ids = map-write_id-sort g.attempt_writes ∙ fenced.writes_match in
      let advances =
        for_each-sort (assert_write g.expected.attempt_versions) attempt_write_le g.attempt_writes
          fenced.writes_advance in
      let new_ids =
        has_duplicates-map-sort (λ (a : KernelAttempt). a.id) attempt_le g.create_attempts in
      let new_versions =
        any-sort (λ (a : KernelAttempt). not (a.version == 0)) attempt_le g.create_attempts in
      let effect_ids =
        has_duplicates-map-sort (λ (e : EffectIntent). e.id)
          (λ (a b : EffectIntent). text_le a.id b.id) g.put_effects in
      let effect_keys =
        has_duplicates-map-sort (λ (e : EffectIntent). e.idempotency_key)
          (λ (a b : EffectIntent). text_le a.id b.id) g.put_effects in
      ground (
        arith,
        text_beq_refl (platform.digest_content (content_of g appended)),
        list_beq_iff g.run.id g.expected.run_id,
        fenced.same_run,
        fenced.one_version,
        fenced.cursor_version,
        fenced.new_ids,
        fenced.new_versions,
        fenced.effects,
      )

  -- What fenced arguments give passes the integrity check.
  pub base_content-passes :
      Ensures
        (λ content. assert_atomic_transition_integrity platform (bundle platform content) ≡ ok tt)
        (base_content g)
  unfolding base_content
  base_content-passes =
      Ensures-bind _ _ λ appended _. Ensures-ok (content_of g appended) (content_of-passes appended)
