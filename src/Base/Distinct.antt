-- ===== src/Base/Distinct.antt =====
-- Lists without repetition: what `new Set(xs).size === xs.length` decides.
use Prim.Native.Nat.{◌≤◌}
use mathlib.Core.Path.{◌≡◌, refl, ap}
use mathlib.Core.Bool.{Bool, true, not, ◌&&◌, ◌||◌}
use mathlib.Core.List.{List, [], ◌∷◌, map}
use native.Mathlib.Omega.{arith}
use openthrottle.Base.Tests.{StrictEquality, ◌==◌, nat_eq, list_eq}
use openthrottle.Base.Lists.{contains, dedup_from, has_duplicates, length}
use openthrottle.Base.Sort.{insert, sort}

module _ {ℓ} {A : Type ℓ} ⦃e : StrictEquality A⦄ where
  -- No element stands in the list twice, nor in `seen`.
  unfoldable pub distinct_from : List A → List A → Bool
  distinct_from seen [] = true
  distinct_from seen (x ∷ xs) = not (contains x seen) && distinct_from (x ∷ seen) xs

  length-dedup_from : (seen xs : List A) → length (dedup_from seen xs) ≤ length xs
  unfolding dedup_from
  length-dedup_from seen [] = omega arith
  length-dedup_from seen (x ∷ xs) =
      ground (arith, length-dedup_from seen xs, length-dedup_from (x ∷ seen) xs)

  dedup_from-distinct_from :
      (seen xs : List A) → (length (dedup_from seen xs) == length xs) ≡ distinct_from seen xs
  unfolding dedup_from distinct_from
  dedup_from-distinct_from seen [] = refl
  dedup_from-distinct_from seen (x ∷ xs) =
      ground (arith, dedup_from-distinct_from (x ∷ seen) xs, length-dedup_from seen xs)

  pub has_duplicates-distinct_from : (xs : List A) → has_duplicates xs ≡ not (distinct_from [] xs)
  unfolding has_duplicates
  has_duplicates-distinct_from xs = ap not (dedup_from-distinct_from [] xs)

module _ {ℓ} {A : Type ℓ} ⦃e : StrictEquality A⦄ where
  -- No element stands in the list twice.
  unfoldable pub distinct : List A → Bool
  distinct [] = true
  distinct (x ∷ xs) = not (contains x xs) && distinct xs

  unfoldable pub apart : List A → List A → Bool
  apart seen [] = true
  apart seen (x ∷ xs) = not (contains x seen) && apart seen xs

  pub beq_comm : (a b : A) → (a == b) ≡ (b == a)
  beq_comm a b = ground (arith, e.same_iff a b, e.same_iff b a)

  apart-cons :
      (x : A) (seen xs : List A) → apart (x ∷ seen) xs ≡ (not (contains x xs) && apart seen xs)
  unfolding apart contains
  apart-cons x seen [] = refl
  apart-cons x seen (y ∷ xs) = ground (arith, apart-cons x seen xs, beq_comm x y)

  distinct_from-distinct :
      (seen xs : List A) → distinct_from seen xs ≡ (distinct xs && apart seen xs)
  unfolding distinct_from distinct apart
  distinct_from-distinct seen [] = refl
  distinct_from-distinct seen (x ∷ xs) =
      ground (arith, distinct_from-distinct (x ∷ seen) xs, apart-cons x seen xs)

  apart-nil : (xs : List A) → apart [] xs ≡ true
  unfolding apart contains
  apart-nil [] = refl
  apart-nil (x ∷ xs) = apart-nil xs

  pub has_duplicates-distinct : (xs : List A) → has_duplicates xs ≡ not (distinct xs)
  has_duplicates-distinct xs =
      ground (arith, has_duplicates-distinct_from xs, distinct_from-distinct [] xs, apart-nil xs)

module _ {ℓ κ} {A : Type ℓ} {B : Type κ} ⦃e : StrictEquality B⦄ (f : A → B)
    (le : A → A → Bool) where
  contains-map-insert :
      (k : B) (a : A) (xs : List A)
      → contains k (map f (insert le a xs)) ≡ (f a == k || contains k (map f xs))
  unfolding insert contains
  contains-map-insert k a [] = refl
  contains-map-insert k a (x ∷ xs) = ground (arith, contains-map-insert k a xs)

  distinct-map-insert :
      (a : A) (xs : List A)
      → distinct (map f (insert le a xs)) ≡ (not (contains (f a) (map f xs)) && distinct (map f xs))
  unfolding insert distinct contains
  distinct-map-insert a [] = refl
  distinct-map-insert a (x ∷ xs) =
      ground (arith, distinct-map-insert a xs, contains-map-insert (f x) a xs, beq_comm (f a) (f x))

  pub contains-map-sort :
      (k : B) (xs : List A) → contains k (map f (sort le xs)) ≡ contains k (map f xs)
  unfolding sort contains
  contains-map-sort k [] = refl
  contains-map-sort k (x ∷ xs) =
      ground (arith, contains-map-insert k x (sort le xs), contains-map-sort k xs)

  pub distinct-map-sort : (xs : List A) → distinct (map f (sort le xs)) ≡ distinct (map f xs)
  unfolding sort distinct
  distinct-map-sort [] = refl
  distinct-map-sort (x ∷ xs) =
      ground (
        arith,
        distinct-map-insert x (sort le xs),
        contains-map-sort (f x) xs,
        distinct-map-sort xs,
      )

  -- Sorting neither makes nor removes a repetition.
  pub has_duplicates-map-sort :
      (xs : List A) → has_duplicates (map f (sort le xs)) ≡ has_duplicates (map f xs)
  has_duplicates-map-sort xs = ground (
    arith,
    has_duplicates-distinct (map f (sort le xs)),
    has_duplicates-distinct (map f xs),
    distinct-map-sort xs,
  )
