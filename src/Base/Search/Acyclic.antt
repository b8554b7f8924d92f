-- ===== src/Base/Search/Acyclic.antt =====
-- The graph that a depth-first walk explores: its paths, and lists in which every node stands before
-- its children.
use mathlib.Core.Path.{◌≡◌, sym, subst}
use mathlib.Core.Logic.{inl, inr}
use mathlib.Core.Bool.{true, false}
use mathlib.Core.List.{List, [], ◌∷◌}
use native.Mathlib.Omega.{arith}
use openthrottle.Base.Tests.{StrictEquality, ◌==◌, Bool-cases}
use openthrottle.Base.Lists.{contains}
use openthrottle.Base.Search.Members.{Within}

module _ {ℓ} {A : Type ℓ} ⦃e : StrictEquality A⦄ (children : A → List A) where
  -- A path of at least one edge.
  pub data Leads : A → A → Type ℓ where
    edge : {a b : A} → contains b (children a) ≡ true → Leads a b
    further : {a b c : A} → contains b (children a) ≡ true → Leads b c → Leads a c

  pub Leads-edge : {a b c : A} → Leads a b → contains c (children b) ≡ true → Leads a c
  Leads-edge (edge d) h = further d (edge h)
  Leads-edge (further d p) h = further d (Leads-edge p h)

  -- Every node stands once, before its children, which all stand in the list.
  unfoldable pub ChildrenLast : List A → Type ℓ
  ChildrenLast [] = Unit
  ChildrenLast (a ∷ xs) = Within (children a) xs × (contains a xs ≡ false) × ChildrenLast xs

  child-stands :
      (xs : List A) (a b : A)
      → ChildrenLast xs
      → contains a xs ≡ true
      → contains b (children a) ≡ true
      → contains b xs ≡ true
  unfolding ChildrenLast contains
  child-stands [] a b o m c = cc
  child-stands (x ∷ xs) a b (first, new, rest) m c = elim (Bool-cases (x == a)) [
    | inl here ↦
        let found =
          first b (subst (λ k. contains b (children k) ≡ true) (sym ((e.same_iff x a).0 here)) c) in
        ground arith
    | inr there ↦ let found = child-stands xs a b rest (ground arith) c in ground arith
  ]

  Leads-stands :
      (xs : List A) {a b : A}
      → ChildrenLast xs
      → contains a xs ≡ true
      → Leads a b
      → contains b xs ≡ true
  Leads-stands xs o m (edge c) = child-stands xs _ _ o m c
  Leads-stands xs o m (further c p) = Leads-stands xs o (child-stands xs _ _ o m c) p

  Leads-behind :
      (xs : List A) {a b : A}
      → ChildrenLast xs
      → Within (children a) xs
      → Leads a b
      → contains b xs ≡ true
  Leads-behind xs o m (edge c) = m _ c
  Leads-behind xs o m (further c p) = Leads-stands xs o (m _ c) p

  -- No node of such a list lies on a cycle.
  pub ChildrenLast-acyclic :
      (xs : List A) (a : A) → ChildrenLast xs → contains a xs ≡ true → ¬ Leads a a
  unfolding ChildrenLast contains
  ChildrenLast-acyclic [] a o m p = cc
  ChildrenLast-acyclic (x ∷ xs) a (first, new, rest) m p = elim (Bool-cases (x == a)) [
    | inl here ↦
        let same = (e.same_iff x a).0 here in
        let found = Leads-behind xs rest (subst (λ k. Within (children k) xs) same first) p in cc
    | inr there ↦ ChildrenLast-acyclic xs a rest (ground arith) p
  ]
