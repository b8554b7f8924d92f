-- ===== src/Base/Search/Closed.antt =====
-- Graphs given by a list of nodes with their edges, whose targets are all nodes.
use mathlib.Core.Path.{◌≡◌, refl, ap}
use mathlib.Core.Bool.{Bool, true, false, not, ◌&&◌}
use mathlib.Core.Option.{Option, some}
use mathlib.Core.List.{List, [], ◌∷◌, ◌++◌, map}
use native.Mathlib.Omega.{arith}
use openthrottle.Base.Tests.{◌==◌, list_eq, list_beq_iff, nat_eq, if◌then◌else◌}
use openthrottle.Base.Lists.{all, any, contains, get_or}
use openthrottle.Base.Strings.{Text}
use openthrottle.Base.Maps.{lookup, keys}
use openthrottle.Base.Search.Members.{Within}

pub all-append {ℓ} :
    {A : Type ℓ} (p : A → Bool) (xs ys : List A) → all p (xs ++ ys) ≡ (all p xs && all p ys)
unfolding all
all-append p [] ys = refl
all-append p (x ∷ xs) ys = ground (arith, all-append p xs ys)

pub all-contains :
    (known : List Text) (xs : List Text) → all (λ d. contains d known) xs ≡ true → Within xs known
unfolding all contains
all-contains known [] h a m = cc
all-contains known (x ∷ xs) h a m =
    ground (arith, all-contains known xs (ground arith) a, list_beq_iff x a)

-- `xs.some((x) => !known.has(x))` is false.
pub none-missing :
    (known : List Text) (xs : List Text)
    → any (λ d. not (contains d known)) xs ≡ false
    → Within xs known
unfolding any contains
none-missing known [] h a m = cc
none-missing known (x ∷ xs) h a m =
    ground (arith, none-missing known xs (ground arith) a, list_beq_iff x a)

pub Within-none-missing :
    (known : List Text) (xs : List Text)
    → Within xs known
    → any (λ d. not (contains d known)) xs ≡ false
unfolding any contains
Within-none-missing known [] h = refl
Within-none-missing known (x ∷ xs) h =
    ground (arith, h x, Within-none-missing known xs (λ a m. h a (ground arith)), list_beq_iff x x)

nil-Within : (known : List Text) → Within [] known
unfolding contains
nil-Within known a m = cc

Within-if :
    (known : List Text) (b : Bool) (xs : List Text) (o : Option (List Text))
    → Within xs known
    → Within (get_or o []) known
    → Within (get_or (if b then some xs else o) []) known
Within-if known true xs o h k = h
Within-if known false xs o h k = k

module _ {ℓ} {S : Type ℓ} (key : S → Text) (edges : S → List Text) where
  pub keys-map_pair : (nodes : List S) → keys (map (λ s. (key s, edges s)) nodes) ≡ map key nodes
  unfolding keys
  keys-map_pair [] = refl
  keys-map_pair (s ∷ nodes) = ap (◌∷◌ (key s)) (keys-map_pair nodes)

  -- Where the edges of every node lead to known ones, so do those that a map of them gives.
  pub lookup-Within :
      (known : List Text) (nodes : List S) (a : Text)
      → all (λ s. all (λ d. contains d known) (edges s)) nodes ≡ true
      → Within (get_or (lookup a (map (λ s. (key s, edges s)) nodes)) []) known
  unfolding all lookup
  lookup-Within known [] a h = nil-Within known
  lookup-Within known (s ∷ nodes) a h =
      Within-if known (key s == a) (edges s) _ (all-contains known (edges s) (ground arith))
        (lookup-Within known nodes a (ground arith))
