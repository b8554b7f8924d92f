-- ===== src/Base/Search/Members.antt =====
-- Membership in lists without repetition, as the sets of a walk need it.
use Prim.Native.Nat.{◌≤◌, ◌<◌}
use mathlib.Core.Path.{◌≡◌, refl, ap}
use mathlib.Core.Bool.{true, false, not, ◌&&◌}
use mathlib.Core.List.{List, [], ◌∷◌}
use mathlib.Core.Logic.{inl, inr}
use native.Mathlib.Omega.{arith}
use openthrottle.Base.Tests.{StrictEquality, ◌==◌, Bool-cases}
use openthrottle.Base.Lists.{contains, filter, length}
use openthrottle.Base.Distinct.{distinct}

module _ {ℓ} {A : Type ℓ} ⦃e : StrictEquality A⦄ where
  -- Every member of `xs` is one of `ys`.
  abbrev pub Within : List A → List A → Type ℓ
  Within xs ys = (a : A) → contains a xs ≡ true → contains a ys ≡ true

  -- No member of `xs` is one of `ys`.
  abbrev pub Apart : List A → List A → Type ℓ
  Apart xs ys = (a : A) → contains a xs ≡ true → contains a ys ≡ false

  unfoldable pub without : A → List A → List A
  without a xs = filter (λ k. not (k == a)) xs

  pub beq_refl : (a : A) → (a == a) ≡ true
  beq_refl a = (e.same_iff a a).1 refl

  contains-without :
      (a b : A) (xs : List A) → contains a (without b xs) ≡ (not (a == b) && contains a xs)
  unfolding without filter contains
  contains-without a b [] = ground arith
  contains-without a b (x ∷ xs) =
      ground (arith, contains-without a b xs, e.same_iff x a, e.same_iff x b, e.same_iff a b)

  pub without-absent : (a : A) (xs : List A) → contains a xs ≡ false → without a xs ≡ xs
  unfolding without filter contains
  without-absent a [] h = refl
  without-absent a (x ∷ xs) h = ground (arith, without-absent a xs)

  length-without_le : (a : A) (xs : List A) → length (without a xs) ≤ length xs
  unfolding without filter
  length-without_le a [] = omega arith
  length-without_le a (x ∷ xs) = ground (arith, length-without_le a xs)

  length-without : (a : A) (xs : List A) → contains a xs ≡ true → length (without a xs) < length xs
  unfolding without filter contains
  length-without a [] h = cc
  length-without a (x ∷ xs) h = ground (arith, length-without a xs, length-without_le a xs)

  -- A list without repetition is no longer than a list that has all its members.
  pub distinct-length : (xs ys : List A) → distinct xs ≡ true → Within xs ys → length xs ≤ length ys
  unfolding distinct contains
  distinct-length [] ys d h = omega arith
  distinct-length (x ∷ xs) ys d h =
      let rest =
        distinct-length xs (without x ys) (ground arith)
          (λ a m. ground (arith, contains-without a x ys, h a, e.same_iff a x)) in
      ground (arith, rest, length-without x ys, h x, e.same_iff x x)

  -- A list without repetition that is as long as a list that has all its members has all of that
  -- list's.
  pub distinct-covers :
      (xs ys : List A) → distinct xs ≡ true → Within xs ys → length xs ≡ length ys → Within ys xs
  distinct-covers xs ys d h long a m = elim (Bool-cases (contains a xs)) [
    | inl here ↦ here
    | inr missing ↦
        let fewer = distinct-length xs (without a ys) d (λ b n. ground (
          arith,
          contains-without b a ys,
          h b n,
          e.same_iff b a,
          missing,
          λ (q : b ≡ a). ap (λ k. contains k xs) q,
        )) in
        ground (arith, fewer, length-without a ys m, long)
  ]
