-- ===== src/Base/Search.antt =====
-- The depth-first walk with a set of nodes being visited and a set of visited ones, by which the
-- source looks for cycles.
pub mod Members
pub mod Acyclic
pub mod Laws
pub mod Decides
pub mod Closed
use Prim.Native.Nat.{ℕ, zero, suc}
use Prim.Native.String.{String}
use mathlib.Core.Bool.{Bool, not}
use mathlib.Core.List.{List, [], ◌∷◌}
use openthrottle.Base.Tests.{StrictEquality, ◌==◌, if◌then◌else◌}
use openthrottle.Base.Lists.{contains, filter}
use openthrottle.Base.Outcome.{Result, err, ok, ◌>>=◌}

-- The sets that `visit` shares with its recursive calls.
pub record Walk {ℓ} (A : Type ℓ) : Type ℓ where
  pub visiting : List A
  pub visited : List A

-- What the tests at the start of `visit` find: a node that is being visited, a visited one, or
-- neither.
pub data Verdict : Type 0 where
  closes_cycle : Verdict
  already_done : Verdict
  fresh : Verdict

module _ {ℓ} {A : Type ℓ} ⦃e : StrictEquality A⦄ where
  -- The two orders of the tests in the source.
  unfoldable pub visiting_first : A → Walk A → Verdict
  visiting_first key w =
      if contains key w.visiting
      then closes_cycle
      else if contains key w.visited
      then already_done
      else fresh

  unfoldable pub visited_first : A → Walk A → Verdict
  visited_first key w =
      if contains key w.visited
      then already_done
      else if contains key w.visiting
      then closes_cycle
      else fresh

unfoldable pub visit_each {ℓ} :
    {A : Type ℓ} → (A → Walk A → Result (Walk A)) → List A → Walk A → Result (Walk A)
visit_each visit [] w = ok w
visit_each visit (key ∷ rest) w = visit key w >>= visit_each visit rest

-- A walk along `children`, whose first tests are `guard`; `message` is the error on a cycle.
module _ {ℓ} {A : Type ℓ} ⦃e : StrictEquality A⦄ (children : A → List A)
    (guard : A → Walk A → Verdict) (message : A → String) where
  -- The rest of a visit, with `deeper` for the recursive calls.
  unfoldable pub visit_as : (A → Walk A → Result (Walk A)) → Verdict → A → Walk A → Result (Walk A)
  unfolding visit_each
  visit_as deeper closes_cycle key w = err (message key)
  visit_as deeper already_done key w = ok w
  visit_as deeper fresh key w =
      visit_each deeper (children key) (record w { visiting = key ∷ w.visiting }) >>= λ w'.
      ok
        (record { visiting = filter (λ k. not (k == key)) w'.visiting; visited = key ∷ w'.visited })

  -- The fuel bounds the depth of the recursion, where each call adds to `visiting` a node that was
  -- not in it.
  unfoldable pub visit : ℕ → A → Walk A → Result (Walk A)
  unfolding visit_as
  visit zero key w = err "visit: out of fuel"
  visit (suc fuel) key w = visit_as (visit fuel) (guard key w) key w

  -- `for (const key of roots) visit(key)` from empty sets
  unfoldable pub walk : ℕ → List A → Result (Walk A)
  unfolding visit
  walk fuel roots = visit_each (visit fuel) roots (record { visiting = []; visited = [] })
