-- ===== src/Base/Search/Decides.antt =====
-- A walk as a decision of acyclicity, without the sets that it keeps.
use Prim.Native.Nat.{ℕ, ◌<◌}
use Prim.Native.String.{String}
use mathlib.Core.Path.{◌≡◌}
use mathlib.Core.Bool.{true}
use mathlib.Core.List.{List}
use openthrottle.Base.Tests.{StrictEquality}
use openthrottle.Base.Lists.{contains, length}
use openthrottle.Base.Outcome.{Result, err, ok}
use openthrottle.Base.Search.{Walk, Verdict, walk}
use openthrottle.Base.Search.Members.{Within}
use openthrottle.Base.Search.Acyclic.{Leads}
use openthrottle.Base.Search.Laws.{Finds, Searched, walk-Searched}

-- No path leads from a node of the list back to it.
abbrev pub Acyclic {ℓ} : {A : Type ℓ} ⦃e : StrictEquality A⦄ → (A → List A) → List A → Type ℓ
Acyclic children nodes = (a : _) → contains a nodes ≡ true → ¬ Leads children a a

-- A result that is there exactly when `P` holds, and an error of the code's own otherwise.
abbrev pub Decides {ℓ κ} : {A : Type ℓ} → Type κ → String → Result A → Type κ
Decides P message (ok a) = P
Decides P message (err m) = (¬ P) × (m ≡ message)

pub Decides-ok {ℓ κ} :
    {A : Type ℓ} (P : Type κ) (message : String) (r : Result A) {a : A}
    → Decides P message r
    → r ≡ ok a
    → P
Decides-ok P message (ok b) d e = d
Decides-ok P message (err m) d e = cc

module _ {ℓ} {A : Type ℓ} ⦃e : StrictEquality A⦄ (children : A → List A)
    (guard : A → Walk A → Verdict) (message : String)
    (finds : (key : A) (w : Walk A) → Finds (guard key w) key w) (nodes : List A)
    (closed : (a : A) → contains a nodes ≡ true → Within (children a) nodes) where
  Searched-Decides :
      (roots : List A)
      → Within nodes roots
      → (r : Result (Walk A)) → Searched children guard (λ _. message) finds nodes closed roots r
      → Decides (Acyclic children roots) message r
  Searched-Decides roots within (ok w) x = x
  Searched-Decides roots within (err m) (k, same, known, cycle) =
      (λ acyclic. acyclic k (within k known) cycle, same)

  -- A walk from all the nodes, with fuel for each and one more, decides whether there is a cycle.
  pub walk-Decides :
      (fuel : ℕ) (roots : List A)
      → length nodes < fuel
      → Within roots nodes
      → Within nodes roots
      → Decides (Acyclic children roots) message (walk children guard (λ _. message) fuel roots)
  walk-Decides fuel roots enough inside covered =
      Searched-Decides roots covered (walk children guard (λ _. message) fuel roots)
        (walk-Searched children guard (λ _. message) finds nodes closed fuel roots enough inside)
