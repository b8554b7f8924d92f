-- ===== src/Base/Maps.antt =====
-- `Record<string, V>` and `Map<string, V>` as association lists in the order of insertion.
use mathlib.Core.Option.{Option, none, some}
use mathlib.Core.List.{List, [], ◌∷◌}
use openthrottle.Base.Tests.{if◌then◌else◌, ◌==◌, list_eq, nat_eq}
use openthrottle.Base.Strings.{Text, text_le}
use openthrottle.Base.Sort.{sort}

abbrev pub Dict {ℓ} : Type ℓ → Type ℓ
Dict V = List (Text × V)

module _ {ℓ} {V : Type ℓ} where
  -- `d[k]`, `none` for `undefined`
  unfoldable pub lookup : Text → Dict V → Option V
  lookup k [] = none
  lookup k ((j, v) ∷ d) = if j == k then some v else lookup k d

  -- `{ ...d, [k]: v }`
  unfoldable pub put : Text → V → Dict V → Dict V
  put k v [] = (k, v) ∷ []
  put k v ((j, w) ∷ d) = if j == k then (k, v) ∷ d else (j, w) ∷ put k v d

  -- `delete d[k]`
  unfoldable pub erase : Text → Dict V → Dict V
  erase k [] = []
  erase k ((j, w) ∷ d) = let rest = erase k d in if j == k then rest else (j, w) ∷ rest

  unfoldable pub keys : Dict V → List Text
  keys [] = []
  keys ((k, v) ∷ d) = k ∷ keys d

  -- sortedRecord
  unfoldable pub sorted_record : Dict V → Dict V
  sorted_record d = sort (λ a b. text_le a.0 b.0) d
