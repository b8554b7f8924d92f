-- ===== src/Base/Worklist.antt =====
-- The loop over a stack of pending nodes by which the source collects the reachable ones.
use Prim.Native.Nat.{ℕ, zero, suc, ◌+◌}
use mathlib.Core.List.{List, [], ◌∷◌, ◌++◌, reverse}
use openthrottle.Base.Tests.{StrictEquality, if◌then◌else◌}
use openthrottle.Base.Lists.{contains, length}
use openthrottle.Base.Outcome.{Result, err, ok}
pub mod Laws

-- `pending`, whose head is the end of the source's array, and `reachable`
pub record Frontier {ℓ} (A : Type ℓ) : Type ℓ where
  pub pending : List A
  pub reached : List A

module _ {ℓ} {A : Type ℓ} ⦃e : StrictEquality A⦄ (successors : A → List A) where
  -- The body of the loop, for the node that was popped.
  unfoldable pub advance : A → List A → List A → Frontier A
  advance node pending reached =
      if contains node reached
      then record { pending = pending; reached = reached }
      else (record { pending = reverse (successors node) ++ pending; reached = node ∷ reached })

  unfoldable pub explore : ℕ → List A → List A → Result (List A)
  unfolding advance
  explore zero pending reached = err "explore: out of fuel"
  explore (suc fuel) [] reached = ok reached
  explore (suc fuel) (node ∷ pending) reached =
      let next = advance node pending reached in explore fuel next.pending next.reached

  -- The edges that leave `nodes`.
  unfoldable pub edge_count : List A → ℕ
  edge_count [] = 0
  edge_count (node ∷ nodes) = length (successors node) + edge_count nodes

  -- The nodes that can be reached from `entry`. A node is popped once at first and then once for
  -- each edge; the last turn finds nothing pending.
  unfoldable pub reachable : List A → A → Result (List A)
  unfolding explore edge_count
  reachable nodes entry = explore (suc (suc (edge_count nodes))) (entry ∷ []) []
