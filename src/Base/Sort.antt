-- ===== src/Base/Sort.antt =====
-- `Array.prototype.sort`, which is stable, and sets of texts in canonical order.
use mathlib.Core.Bool.{Bool}
use mathlib.Core.List.{List, [], ◌∷◌}
use openthrottle.Base.Tests.{if◌then◌else◌, list_eq, nat_eq}
use openthrottle.Base.Lists.{dedup}
use openthrottle.Base.Strings.{Text, text_le}

module _ {ℓ} {A : Type ℓ} (le : A → A → Bool) where
  unfoldable pub insert : A → List A → List A
  insert a [] = a ∷ []
  insert a (x ∷ xs) = let rest = insert a xs in if le a x then a ∷ x ∷ xs else x ∷ rest

  -- `le a b` is that the comparison function answers at most 0.
  unfoldable pub sort : List A → List A
  unfolding insert
  sort [] = []
  sort (x ∷ xs) = insert x (sort xs)

unfoldable pub sort_texts : List Text → List Text
unfolding sort
sort_texts = sort text_le

-- sortedUnique
unfoldable pub sorted_unique : List Text → List Text
unfolding sort_texts
sorted_unique values = sort_texts (dedup values)
