-- ===== src/Kernel/Proofs/Each.antt =====
-- A property of every element of a list.
use openthrottle.Base.{Bool, true, false, List, [], ◌∷◌, insert, sort, if◌then◌else◌}

module _ {ℓ κ} {A : Type ℓ} (P : A → Type κ) where
  unfoldable pub Each : List A → Type κ
  Each [] = Unit
  Each (x ∷ xs) = P x × Each xs

module _ {ℓ κ} {A : Type ℓ} (P : A → Type κ) (le : A → A → Bool) where
  Each-choose : (b : Bool) (xs ys : List A) → Each P xs → Each P ys → Each P (if b then xs else ys)
  Each-choose true xs ys p q = p
  Each-choose false xs ys p q = q

  Each-insert : (a : A) (xs : List A) → P a → Each P xs → Each P (insert le a xs)
  unfolding insert Each
  Each-insert a [] p _ = (p, tt)
  Each-insert a (x ∷ xs) p (q, qs) =
      Each-choose (le a x) (a ∷ x ∷ xs) (x ∷ insert le a xs) (p, (q, qs)) (q, Each-insert a xs p qs)

  -- Sorting keeps a property of every element.
  pub Each-sort : (xs : List A) → Each P xs → Each P (sort le xs)
  unfolding sort Each
  Each-sort [] _ = tt
  Each-sort (x ∷ xs) (p, ps) = Each-insert x (sort le xs) p (Each-sort xs ps)
