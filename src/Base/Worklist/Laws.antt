-- ===== src/Base/Worklist/Laws.antt =====
-- What the loop over pending nodes collects, and the fuel that it needs.
use Prim.Native.Nat.{ℕ, zero, suc, ◌+◌, ◌<◌, ◌≤◌}
use mathlib.Core.Path.{◌≡◌, refl, sym, subst}
use mathlib.Core.Logic.{◌↔◌, ◌⊎◌, inl, inr}
use mathlib.Core.Bool.{true, false, ◌||◌}
use mathlib.Core.List.{List, [], ◌∷◌, ◌++◌, reverse, reverse_aux}
use native.Mathlib.Omega.{arith}
use openthrottle.Base.Tests.{StrictEquality, ◌==◌, Bool-cases, if◌then◌else◌}
use openthrottle.Base.Lists.{contains, length}
use openthrottle.Base.Outcome.{Result, ok}
use openthrottle.Base.Worklist.{Frontier, advance, explore, edge_count, reachable}
use openthrottle.Base.Search.Members.{Within, beq_refl}
use openthrottle.Base.Search.Acyclic.{Leads, Leads-edge, edge, further}

module _ {ℓ} {A : Type ℓ} ⦃e : StrictEquality A⦄ where
  contains-append :
      (a : A) (xs ys : List A) → contains a (xs ++ ys) ≡ (contains a xs || contains a ys)
  unfolding contains
  contains-append a [] ys = refl
  contains-append a (x ∷ xs) ys = ground (arith, contains-append a xs ys)

  length-append : (xs ys : List A) → length (xs ++ ys) ≡ length xs + length ys
  length-append [] ys = omega arith
  length-append (x ∷ xs) ys = ground (arith, length-append xs ys)

  contains-reverse_aux :
      (a : A) (xs ys : List A) → contains a (reverse_aux xs ys) ≡ (contains a xs || contains a ys)
  unfolding contains
  contains-reverse_aux a [] ys = refl
  contains-reverse_aux a (x ∷ xs) ys = ground (arith, contains-reverse_aux a xs (x ∷ ys))

  length-reverse_aux : (xs ys : List A) → length (reverse_aux xs ys) ≡ length xs + length ys
  length-reverse_aux [] ys = omega arith
  length-reverse_aux (x ∷ xs) ys = ground (arith, length-reverse_aux xs (x ∷ ys))

  contains-stacked :
      (a : A) (xs ys : List A) → contains a (reverse xs ++ ys) ≡ (contains a xs || contains a ys)
  unfolding contains
  contains-stacked a xs ys =
      ground (arith, contains-append a (reverse xs) ys, contains-reverse_aux a xs [])

  length-stacked : (xs ys : List A) → length (reverse xs ++ ys) ≡ length xs + length ys
  length-stacked xs ys = ground (arith, length-append (reverse xs) ys, length-reverse_aux xs [])

module _ {ℓ} {A : Type ℓ} ⦃e : StrictEquality A⦄ (successors : A → List A) where
  -- The entry itself, or the end of a path from it.
  abbrev pub Reachable : A → A → Type ℓ
  Reachable entry a = (entry ≡ a) ⊎ Leads successors entry a

  Reachable-edge :
      (entry a b : A) → Reachable entry a → contains b (successors a) ≡ true → Reachable entry b
  Reachable-edge entry a b (inl here) m =
      inr (edge (subst (λ k. contains b (successors k) ≡ true) (sym here) m))
  Reachable-edge entry a b (inr p) m = inr (Leads-edge successors p m)

  -- The edges that leave the nodes that are not reached yet.
  unfoldable edges_left : List A → List A → ℕ
  edges_left reached [] = 0
  edges_left reached (node ∷ nodes) =
      (if contains node reached then 0 else length (successors node)) + edges_left reached nodes

  edges_left-nil : (nodes : List A) → edges_left [] nodes ≡ edge_count successors nodes
  unfolding edges_left edge_count contains
  edges_left-nil [] = refl
  edges_left-nil (node ∷ nodes) = ground (arith, edges_left-nil nodes)

  edges_left-cons_le :
      (node : A) (reached nodes : List A)
      → edges_left (node ∷ reached) nodes ≤ edges_left reached nodes
  unfolding edges_left contains
  edges_left-cons_le node reached [] = omega arith
  edges_left-cons_le node reached (n ∷ nodes) =
      ground (arith, edges_left-cons_le node reached nodes)

  edges_left-cons :
      (node : A) (reached nodes : List A)
      → contains node nodes ≡ true
      → contains node reached ≡ false
      → edges_left (node ∷ reached) nodes + length (successors node) ≤ edges_left reached nodes
  unfolding edges_left contains
  edges_left-cons node reached [] m new = cc
  edges_left-cons node reached (n ∷ nodes) m new = ground (
    arith,
    edges_left-cons node reached nodes,
    edges_left-cons_le node reached nodes,
    e.same_iff n node,
    e.same_iff node n,
  )

  module _ (nodes : List A) (entry : A)
      (closed : (a : A) → contains a nodes ≡ true → Within (successors a) nodes) where
    -- The state of the loop.
    record Going (fuel : ℕ) (pending reached : List A) : Type ℓ where
      pub enough : length pending + edges_left reached nodes < fuel
      pub inside : Within pending nodes
      pub led : (a : A) → contains a pending ≡ true → Reachable entry a
      pub sound : (a : A) → contains a reached ≡ true → Reachable entry a
      pub next :
          (a b : A)
          → contains a reached ≡ true
          → contains b (successors a) ≡ true
          → (contains b reached || contains b pending) ≡ true
      pub begun : (contains entry reached || contains entry pending) ≡ true

    Going-again :
        (fuel : ℕ) (node : A) (pending reached : List A)
        → contains node reached ≡ true
        → Going (suc fuel) (node ∷ pending) reached
        → Going fuel pending reached
    unfolding contains
    Going-again fuel node pending reached old g = record {
      enough = ground (arith, g.enough);
      inside = λ a m. g.inside a (ground arith);
      led = λ a m. g.led a (ground arith);
      sound = g.sound;
      next = λ a b m n. ground (arith, g.next a b m n, e.same_iff node b);
      begun = ground (arith, g.begun, e.same_iff node entry);
    }

    Reachable-same : (a b : A) → (a == b) ≡ true → Reachable entry a → Reachable entry b
    Reachable-same a b same r = subst (Reachable entry) ((e.same_iff a b).0 same) r

    Going-forward :
        (fuel : ℕ) (node : A) (pending reached : List A)
        → contains node reached ≡ false
        → Going (suc fuel) (node ∷ pending) reached
        → Going fuel (reverse (successors node) ++ pending) (node ∷ reached)
    unfolding contains
    Going-forward fuel node pending reached new g =
        let known = g.inside node (ground (arith, beq_refl node)) in
        let came = g.led node (ground (arith, beq_refl node)) in
        record {
          enough = ground (
            arith,
            g.enough,
            length-stacked (successors node) pending,
            edges_left-cons node reached nodes known new,
          );
          inside = λ a m. ground (
            arith,
            contains-stacked a (successors node) pending,
            closed node known a,
            g.inside a,
          );
          led = λ a m. elim (Bool-cases (contains a (successors node))) [
            | inl direct ↦ Reachable-edge entry node a came direct
            | inr other ↦ g.led a (ground (arith, contains-stacked a (successors node) pending))
          ];
          sound = λ a m. elim (Bool-cases (node == a)) [
            | inl here ↦ Reachable-same node a here came
            | inr there ↦ g.sound a (ground arith)
          ];
          next = λ a b m n. elim (Bool-cases (node == a)) [
            | inl here ↦
                let direct =
                  subst (λ k. contains b (successors k) ≡ true) (sym ((e.same_iff node a).0 here))
                    n in
                ground (arith, contains-stacked b (successors node) pending)
            | inr there ↦
                ground
                  (arith, g.next a b (ground arith) n, contains-stacked b (successors node) pending)
          ];
          begun = ground (arith, g.begun, contains-stacked entry (successors node) pending);
        }

    -- The result is there, and has exactly the nodes that can be reached.
    abbrev pub Collects : Result (List A) → Type ℓ
    Collects r =
        (found : List A) × (r ≡ ok found)
        × ((a : A) → (contains a found ≡ true) ↔ Reachable entry a)

    along :
        (reached : List A)
        → ((a b : A)
            → contains a reached ≡ true
            → contains b (successors a) ≡ true
            → contains b reached ≡ true)
        → {a b : A} → contains a reached ≡ true
        → Leads successors a b
        → contains b reached ≡ true
    along reached step m (edge d) = step _ _ m d
    along reached step m (further d p) = along reached step (step _ _ m d) p

    Going-done :
        (fuel : ℕ) (reached : List A)
        → Going (suc fuel) [] reached
        → (a : A) → Reachable entry a
        → contains a reached ≡ true
    unfolding contains
    Going-done fuel reached g a (inl here) =
        subst (λ k. contains k reached ≡ true) here (ground (arith, g.begun))
    Going-done fuel reached g a (inr p) =
        along reached (λ a b m n. ground (arith, g.next a b m n)) (ground (arith, g.begun)) p

    Collects-at :
        (fuel : ℕ) (f f' : Frontier A)
        → f' ≡ f
        → Collects (explore successors fuel f.pending f.reached)
        → Collects (explore successors fuel f'.pending f'.reached)
    Collects-at fuel f f' same =
        subst (λ g. Collects (explore successors fuel g.pending g.reached)) (sym same)

    advance-old :
        (node : A) (pending reached : List A)
        → contains node reached ≡ true
        → advance successors node pending reached ≡ record { pending = pending; reached = reached }
    unfolding advance
    advance-old node pending reached h = rw h

    advance-new :
        (node : A) (pending reached : List A)
        → contains node reached ≡ false
        → advance successors node pending reached
          ≡ record { pending = reverse (successors node) ++ pending; reached = node ∷ reached }
    unfolding advance
    advance-new node pending reached h = rw h

    explore-Collects :
        (fuel : ℕ) (pending reached : List A)
        → Going fuel pending reached
        → Collects (explore successors fuel pending reached)
    unfolding explore
    explore-Collects zero pending reached g = elim (impossible g.enough) [ ]
      where
        impossible : {n : ℕ} → n < 0 → ⊥
        impossible h = omega arith
    explore-Collects (suc fuel) [] reached g =
        (reached, refl, λ a. (g.sound a, Going-done fuel reached g a))
    explore-Collects (suc fuel) (node ∷ pending) reached g =
        elim (Bool-cases (contains node reached)) [
          | inl old ↦
              Collects-at fuel _ _ (advance-old node pending reached old) (
                explore-Collects fuel pending reached (Going-again fuel node pending reached old g))
          | inr new ↦ Collects-at fuel _ _ (advance-new node pending reached new) (
              explore-Collects fuel (reverse (successors node) ++ pending) (node ∷ reached)
                (Going-forward fuel node pending reached new g))
        ]

    -- From a node of the graph the loop ends with exactly the nodes that can be reached.
    pub reachable-Collects :
        contains entry nodes ≡ true → Collects (reachable successors nodes entry)
    unfolding reachable contains
    reachable-Collects known =
        explore-Collects (suc (suc (edge_count successors nodes))) (entry ∷ []) [] (record {
          enough = ground (arith, edges_left-nil nodes);
          inside = λ a m. ground (arith, e.same_iff entry a);
          led = λ a m. inl ((e.same_iff entry a).0 (ground arith));
          sound = λ a m. elim (false_true m) [ ];
          next = λ a b m n. cc;
          begun = ground (arith, beq_refl entry);
        })
      where
        false_true : false ≡ true → ⊥
        false_true h = cc
