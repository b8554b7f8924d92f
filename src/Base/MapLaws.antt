-- ===== src/Base/MapLaws.antt =====
-- Looking up in a map that has been sorted, and the keys of one.
use mathlib.Core.Path.{◌≡◌, refl, sym, ap, ◌∙◌}
use mathlib.Core.Bool.{true, false, ◌||◌}
use mathlib.Core.Option.{some}
use mathlib.Core.List.{[], ◌∷◌, map}
use native.Mathlib.Omega.{arith}
use openthrottle.Base.Tests.{if◌then◌else◌, ◌==◌, nat_eq, list_eq, list_beq_iff}
use openthrottle.Base.Lists.{contains}
use openthrottle.Base.Strings.{Text, text_le}
use openthrottle.Base.Sort.{insert, sort}
use openthrottle.Base.SortLaws.{map-sort}
use openthrottle.Base.Distinct.{distinct}
use openthrottle.Base.Maps.{Dict, lookup, keys, sorted_record}

module _ {ℓ} {V : Type ℓ} where
  pub keys-map : (d : Dict V) → keys d ≡ map (λ entry. entry.0) d
  unfolding keys
  keys-map [] = refl
  keys-map ((k, v) ∷ d) = ap (◌∷◌ k) (keys-map d)

  -- The keys of a sorted map are the sorted keys.
  pub keys-sorted_record : (d : Dict V) → keys (sorted_record d) ≡ sort text_le (keys d)
  unfolding sorted_record
  keys-sorted_record d =
      keys-map (sorted_record d)
      ∙ map-sort (λ entry. entry.0) text_le d
      ∙ ap (sort text_le) (sym (keys-map d))

  lookup-insert :
      (k j : Text) (v : V) (d : Dict V)
      → contains j (keys d) ≡ false
      → lookup k (insert (λ a b. text_le a.0 b.0) (j, v) d)
        ≡ (if j == k then some v else lookup k d)
  unfolding insert lookup contains keys
  lookup-insert k j v [] h = refl
  lookup-insert k j v ((i, w) ∷ d) h =
      ground (arith, lookup-insert k j v d, list_beq_iff j k, list_beq_iff i k, list_beq_iff i j)

  contains-keys-insert :
      (k j : Text) (v : V) (d : Dict V)
      → contains k (keys (insert (λ a b. text_le a.0 b.0) (j, v) d))
        ≡ (j == k || contains k (keys d))
  unfolding insert contains keys
  contains-keys-insert k j v [] = refl
  contains-keys-insert k j v ((i, w) ∷ d) = ground (arith, contains-keys-insert k j v d)

  contains-keys-sort :
      (k : Text) (d : Dict V)
      → contains k (keys (sort (λ a b. text_le a.0 b.0) d)) ≡ contains k (keys d)
  unfolding sort contains keys
  contains-keys-sort k [] = refl
  contains-keys-sort k ((j, v) ∷ d) =
      ground (
        arith,
        contains-keys-insert k j v (sort (λ a b. text_le a.0 b.0) d),
        contains-keys-sort k d,
      )

  -- A map with distinct keys is read the same after its sort.
  pub lookup-sorted_record :
      (k : Text) (d : Dict V) → distinct (keys d) ≡ true → lookup k (sorted_record d) ≡ lookup k d
  unfolding sorted_record sort distinct keys lookup
  lookup-sorted_record k [] h = refl
  lookup-sorted_record k ((j, v) ∷ d) h = ground (
    arith,
    lookup-insert k j v (sorted_record d),
    contains-keys-sort j d,
    lookup-sorted_record k d,
  )
