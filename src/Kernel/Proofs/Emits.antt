-- ===== src/Kernel/Proofs/Emits.antt =====
-- Which arguments an operation calls `base_content` with, by rules for the ways to build one.
use openthrottle.Base.{
  ◌≡◌, refl, Bool, true, false, String, Result, ok, err, ◌>>=◌, throw_if, or_throw, Option, none,
  some, if◌then◌else◌,
}
use openthrottle.Kernel.Types.{AtomicTransitionBundleContent}
use openthrottle.Kernel.Reducer.Bundle.{BaseContentInput, base_content}

-- Every content that `r` returns is that of arguments with the property `P`.
pub record Emits (P : BaseContentInput → Type 0) (r : Result AtomicTransitionBundleContent)
    : Type 0 where
  pub at :
      (c : AtomicTransitionBundleContent)
      → r ≡ ok c
      → (given : BaseContentInput) × P given × (base_content given ≡ ok c)

module _ {P : BaseContentInput → Type 0} where
  pub Emits-base_content : (given : BaseContentInput) → P given → Emits P (base_content given)
  Emits-base_content given p = record { at = λ c e. (given, p, e) }

  pub Emits-bind {ℓ} :
      {A : Type ℓ} (m : Result A) (f : A → Result AtomicTransitionBundleContent)
      → ((a : A) → m ≡ ok a → Emits P (f a))
      → Emits P (m >>= f)
  unfolding ◌>>=◌
  Emits-bind (ok a) f h = h a refl
  Emits-bind (err e) f h = record { at = λ c e'. cc }

  pub Emits-if :
      (b : Bool) (x y : Result AtomicTransitionBundleContent)
      → (b ≡ true → Emits P x)
      → (b ≡ false → Emits P y)
      → Emits P (if b then x else y)
  Emits-if true x y p q = p refl
  Emits-if false x y p q = q refl

  -- A guard that was passed, and a value that was there.
  pub Emits-throw_if :
      (b : Bool) (message : String) (f : Unit {0} → Result AtomicTransitionBundleContent)
      → (b ≡ false → Emits P (f tt))
      → Emits P (throw_if b message >>= f)
  unfolding throw_if ◌>>=◌
  Emits-throw_if true message f h = record { at = λ c e. cc }
  Emits-throw_if false message f h = h refl

  pub Emits-or_throw {ℓ} :
      {A : Type ℓ} (o : Option A) (message : String) (f : A → Result AtomicTransitionBundleContent)
      → ((a : A) → o ≡ some a → Emits P (f a))
      → Emits P (or_throw o message >>= f)
  unfolding or_throw ◌>>=◌
  Emits-or_throw none message f h = record { at = λ c e. cc }
  Emits-or_throw (some a) message f h = h a refl

-- What every content has implies what it must have.
pub Emits-map :
    {P Q : BaseContentInput → Type 0} {r : Result AtomicTransitionBundleContent}
    → ((given : BaseContentInput) → P given → Q given)
    → Emits P r
    → Emits Q r
Emits-map h emits = record {
  at = λ c e. let (given, p, wrote) = emits.at c e in (given, h given p, wrote);
}
