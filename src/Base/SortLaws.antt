-- ===== src/Base/SortLaws.antt =====
-- Lemmas about sorting.
use mathlib.Core.Path.{◌≡◌, refl, ap, sym, ◌∙◌}
use mathlib.Core.Bool.{Bool, true, ◌||◌}
use mathlib.Core.List.{List, [], ◌∷◌, map}
use native.Mathlib.Omega.{arith}
use openthrottle.Base.Tests.{nat_eq, list_eq, list_beq_iff, ◌==◌}
use openthrottle.Base.Lists.{any, contains, dedup, dedup_from}
use openthrottle.Base.Strings.{Text, text_le, text_le_total, text_le_trans, text_le_antisymm}
use openthrottle.Base.Sort.{insert, sort, sort_texts, sorted_unique}

module _ {ℓ κ} {A : Type ℓ} {B : Type κ} (f : A → B) (le : B → B → Bool) where
  map-insert :
      (a : A) (xs : List A)
      → map f (insert (λ x y. le (f x) (f y)) a xs) ≡ insert le (f a) (map f xs)
  unfolding insert
  map-insert a [] = refl
  map-insert a (x ∷ xs) = ground (arith, map-insert a xs)

  -- Sorting by a key and taking the keys is sorting the keys.
  pub map-sort : (xs : List A) → map f (sort (λ x y. le (f x) (f y)) xs) ≡ sort le (map f xs)
  unfolding sort
  map-sort [] = refl
  map-sort (x ∷ xs) =
      map-insert x (sort (λ a b. le (f a) (f b)) xs) ∙ ap (insert le (f x)) (map-sort xs)

insert_comm :
    (a b : Text) (xs : List Text)
    → insert text_le a (insert text_le b xs) ≡ insert text_le b (insert text_le a xs)
unfolding insert
insert_comm a b [] = ground (arith, text_le_total a b, text_le_antisymm a b)
insert_comm a b (x ∷ xs) = ground (
  arith,
  insert_comm a b xs,
  text_le_total a b,
  text_le_antisymm a b,
  text_le_total a x,
  text_le_total b x,
  text_le_trans a b x,
  text_le_trans b a x,
  text_le_antisymm a x,
  text_le_antisymm b x,
)

sort-insert :
    (le : Text → Text → Bool) (a : Text) (xs : List Text)
    → sort text_le (insert le a xs) ≡ insert text_le a (sort text_le xs)
unfolding insert sort
sort-insert le a [] = refl
sort-insert le a (x ∷ xs) = ground (arith, sort-insert le a xs, insert_comm a x (sort text_le xs))

-- The order in which texts are given does not matter to their sort.
pub sort-sort :
    (le : Text → Text → Bool) (xs : List Text) → sort text_le (sort le xs) ≡ sort text_le xs
unfolding sort
sort-sort le [] = refl
sort-sort le (x ∷ xs) = sort-insert le x (sort le xs) ∙ ap (insert text_le x) (sort-sort le xs)

module _ {ℓ} {A : Type ℓ} (p : A → Bool) (le : A → A → Bool) where
  any-insert : (a : A) (xs : List A) → any p (insert le a xs) ≡ (p a || any p xs)
  unfolding insert any
  any-insert a [] = refl
  any-insert a (x ∷ xs) = ground (arith, any-insert a xs)

  pub any-sort : (xs : List A) → any p (sort le xs) ≡ any p xs
  unfolding sort any
  any-sort [] = refl
  any-sort (x ∷ xs) = ground (arith, any-insert x (sort le xs), any-sort xs)

contains-any : (x : Text) (xs : List Text) → contains x xs ≡ any (λ y. y == x) xs
unfolding contains any
contains-any x [] = refl
contains-any x (y ∷ ys) = ap (λ b. y == x || b) (contains-any x ys)

contains-same : (x y : Text) (xs : List Text) → (y == x) ≡ true → contains y xs ≡ contains x xs
contains-same x y xs e = ap (λ z. contains z xs) ((list_beq_iff y x).0 e)

contains-dedup_from :
    (x : Text) (seen xs : List Text)
    → (contains x seen || contains x (dedup_from seen xs)) ≡ (contains x seen || contains x xs)
unfolding dedup_from contains
contains-dedup_from x seen [] = refl
contains-dedup_from x seen (y ∷ ys) = ground (
  arith,
  contains-dedup_from x seen ys,
  contains-dedup_from x (y ∷ seen) ys,
  contains-same x y seen,
)

-- sortedUnique keeps the members.
pub contains-sorted_unique :
    (x : Text) (xs : List Text) → contains x (sorted_unique xs) ≡ contains x xs
unfolding sorted_unique sort_texts dedup
contains-sorted_unique x xs =
    contains-any x (sort text_le (dedup xs))
    ∙ any-sort (λ y. y == x) text_le (dedup xs)
    ∙ sym (contains-any x (dedup xs))
    ∙ contains-dedup_from x [] xs
