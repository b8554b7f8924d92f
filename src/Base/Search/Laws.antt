-- ===== src/Base/Search/Laws.antt =====
-- What a depth-first walk finds, and the fuel that it needs.
use Prim.Native.Nat.{ℕ, zero, suc, ◌+◌, ◌<◌}
use Prim.Native.String.{String}
use mathlib.Core.Path.{◌≡◌, refl, sym, subst, ap, ◌∙◌}
use mathlib.Core.Logic.{inl, inr}
use mathlib.Core.Bool.{Bool, true, false, not}
use mathlib.Core.List.{List, [], ◌∷◌}
use native.Mathlib.Omega.{arith}
use openthrottle.Base.Tests.{StrictEquality, ◌==◌, Bool-cases, if◌then◌else◌}
use openthrottle.Base.Lists.{contains, filter, length}
use openthrottle.Base.Distinct.{distinct}
use openthrottle.Base.Outcome.{Result, err, ok, ◌>>=◌}
use openthrottle.Base.Search.{
  Walk, Verdict, closes_cycle, already_done, fresh, visit_each, visiting_first, visited_first,
  visit_as, visit, walk,
}
use openthrottle.Base.Search.Members.{
  Within, Apart, without, without-absent, distinct-length, beq_refl,
}
use openthrottle.Base.Search.Acyclic.{Leads, Leads-edge, edge, ChildrenLast, ChildrenLast-acyclic}

-- What a verdict on a node says of it.
abbrev pub Finds {ℓ} : {A : Type ℓ} ⦃e : StrictEquality A⦄ → Verdict → A → Walk A → Type 0
Finds closes_cycle key w = contains key w.visiting ≡ true
Finds already_done key w = contains key w.visited ≡ true
Finds fresh key w = (contains key w.visiting ≡ false) × (contains key w.visited ≡ false)

module _ {ℓ} {A : Type ℓ} ⦃e : StrictEquality A⦄ (key : A) (w : Walk A) where
  first_finds :
      (b c : Bool)
      → contains key w.visiting ≡ b
      → contains key w.visited ≡ c
      → Finds (if b then closes_cycle else if c then already_done else fresh) key w
  first_finds true c p q = p
  first_finds false true p q = q
  first_finds false false p q = (p, q)

  last_finds :
      (b c : Bool)
      → contains key w.visiting ≡ b
      → contains key w.visited ≡ c
      → Finds (if c then already_done else if b then closes_cycle else fresh) key w
  last_finds b true p q = q
  last_finds true false p q = p
  last_finds false false p q = (p, q)

  pub visiting_first-Finds : Finds (visiting_first key w) key w
  unfolding visiting_first
  visiting_first-Finds = first_finds _ _ refl refl

  pub visited_first-Finds : Finds (visited_first key w) key w
  unfolding visited_first
  visited_first-Finds = last_finds _ _ refl refl

module _ {ℓ} {A : Type ℓ} ⦃e : StrictEquality A⦄ (children : A → List A)
    (guard : A → Walk A → Verdict) (message : A → String)
    (finds : (key : A) (w : Walk A) → Finds (guard key w) key w) (universe : List A)
    (closed : (a : A) → contains a universe ≡ true → Within (children a) universe) where
  -- The state between the calls of a walk.
  record Good (w : Walk A) : Type ℓ where
    pub once : distinct w.visiting ≡ true
    pub inside : Within w.visiting universe
    pub apart : Apart w.visiting w.visited
    pub ordered : ChildrenLast children w.visited

  -- What a visit of each of `keys` may rely on.
  record Ready (fuel : ℕ) (keys : List A) (w : Walk A) : Type ℓ where
    pub good : Good w
    pub known : Within keys universe
    pub stack :
        (a k : A) → contains a w.visiting ≡ true → contains k keys ≡ true → Leads children a k
    pub fuelled : length universe < fuel + length w.visiting

  -- What it has done when it returned.
  record Finished (keys : List A) (w w' : Walk A) : Type ℓ where
    pub good : Good w'
    pub restored : w'.visiting ≡ w.visiting
    pub kept : Within w.visited w'.visited
    pub seen : Within keys w'.visited

  abbrev Explored : List A → Walk A → Result (Walk A) → Type ℓ
  Explored keys w (ok w') = Finished keys w w'
  Explored keys w (err m) =
      (k : A) × (m ≡ message k) × (contains k universe ≡ true) × Leads children k k

  Explored-visited :
      (w : Walk A) → Good w → (keys : List A) → Within keys w.visited → Finished keys w w
  Explored-visited w g keys h = record { good = g; restored = refl; kept = λ a m. m; seen = h }

  Ready-cons :
      (fuel : ℕ) (key : A) (keys : List A) (w : Walk A)
      → Ready fuel (key ∷ keys) w
      → Ready fuel (key ∷ []) w
  unfolding contains
  Ready-cons fuel key keys w r = record {
    good = r.good;
    known = λ a m. r.known a (ground arith);
    stack = λ a k m n. r.stack a k m (ground arith);
    fuelled = r.fuelled;
  }

  Ready-next :
      (fuel : ℕ) (key : A) (keys : List A) (w w' : Walk A)
      → Ready fuel (key ∷ keys) w
      → Finished (key ∷ []) w w'
      → Ready fuel keys w'
  unfolding contains
  Ready-next fuel key keys w w' r f = record {
    good = f.good;
    known = λ a m. r.known a (ground arith);
    stack = λ a k m n. r.stack a k (subst (λ v. contains a v ≡ true) f.restored m) (ground arith);
    fuelled = subst (λ v. length universe < fuel + length v) (sym f.restored) r.fuelled;
  }

  Finished-trans :
      (key : A) (keys : List A) (w u v : Walk A)
      → Finished (key ∷ []) w u
      → Finished keys u v
      → Finished (key ∷ keys) w v
  unfolding contains
  Finished-trans key keys w u v f g = record {
    good = g.good;
    restored = g.restored ∙ f.restored;
    kept = λ a m. g.kept a (f.kept a m);
    seen = λ a m. ground (arith, f.seen a, g.kept a, g.seen a);
  }

  Explored-then :
      (key : A) (keys : List A) (w u : Walk A) (r : Result (Walk A))
      → Finished (key ∷ []) w u
      → Explored keys u r
      → Explored (key ∷ keys) w r
  Explored-then key keys w u (ok v) f x = Finished-trans key keys w u v f x
  Explored-then key keys w u (err m) f x = x

  Explored-bind :
      (key : A) (keys : List A) (w : Walk A) (r : Result (Walk A)) (rest : Walk A → Result (Walk A))
      → Explored (key ∷ []) w r
      → ((u : Walk A) → Finished (key ∷ []) w u → Explored keys u (rest u))
      → Explored (key ∷ keys) w (r >>= rest)
  unfolding ◌>>=◌
  Explored-bind key keys w (ok u) rest x h = Explored-then key keys w u (rest u) x (h u x)
  Explored-bind key keys w (err m) rest x h = x

  Good-entered :
      (key : A) (w : Walk A)
      → Good w
      → contains key universe ≡ true
      → contains key w.visiting ≡ false
      → contains key w.visited ≡ false
      → Good (record w { visiting = key ∷ w.visiting })
  unfolding contains distinct
  Good-entered key w g k new unseen = record {
    once = ground arith;
    inside = λ a m. ground (arith, e.same_iff key a, g.inside a);
    apart = λ a m. ground (arith, e.same_iff key a, g.apart a);
    ordered = g.ordered;
  }

  Ready-children :
      (fuel : ℕ) (key : A) (w : Walk A)
      → Ready (suc fuel) (key ∷ []) w
      → contains key w.visiting ≡ false
      → contains key w.visited ≡ false
      → Ready fuel (children key) (record w { visiting = key ∷ w.visiting })
  unfolding contains
  Ready-children fuel key w r new unseen = record {
    good = Good-entered key w r.good (r.known key (ground (arith, beq_refl key))) new unseen;
    known = closed key (r.known key (ground (arith, beq_refl key)));
    stack = λ a k m c. elim (Bool-cases (key == a)) [
      | inl here ↦ subst (λ b. Leads children b k) ((e.same_iff key a).0 here) (edge c)
      | inr there ↦
          Leads-edge children (r.stack a key (ground arith) (ground (arith, beq_refl key))) c
    ];
    fuelled = ground (arith, r.fuelled);
  }

  visiting-left :
      (key : A) (w w' : Walk A)
      → contains key w.visiting ≡ false
      → w'.visiting ≡ key ∷ w.visiting
      → filter (λ k. not (k == key)) w'.visiting ≡ w.visiting
  unfolding without filter
  visiting-left key w w' new f =
      ap (filter (λ k. not (k == key))) f
      ∙ ground (arith, beq_refl key, without-absent key w.visiting)

  Finished-left :
      (key : A) (w w' : Walk A)
      → Good w
      → contains key w.visiting ≡ false
      → Finished (children key) (record w { visiting = key ∷ w.visiting }) w'
      → Finished (key ∷ []) w (record {
        visiting = filter (λ k. not (k == key)) w'.visiting;
        visited = key ∷ w'.visited;
      })
  unfolding contains ChildrenLast distinct
  Finished-left key w w' g new f = record {
    good = record {
      once = rw back g.once;
      inside = λ a m. g.inside a (subst (λ v. contains a v ≡ true) back m);
      apart = λ a m. ground (
        arith,
        e.same_iff key a,
        subst (λ v. contains a v ≡ true) back m,
        f.good.apart a,
        ap (contains a) f.restored,
      );
      ordered = (
        f.seen,
        f.good.apart key
            (subst (λ v. contains key v ≡ true) (sym f.restored) (ground (arith, beq_refl key))),
        f.good.ordered,
      );
    };
    restored = back;
    kept = λ a m. ground (arith, f.kept a);
    seen = λ a m. ground arith;
  }
    where
      back : filter (λ k. not (k == key)) w'.visiting ≡ w.visiting
      back = visiting-left key w w' new f.restored

  Explored-visit_each :
      (fuel : ℕ) (go : A → Walk A → Result (Walk A))
      → ((key : A) (w : Walk A) → Ready fuel (key ∷ []) w → Explored (key ∷ []) w (go key w))
      → (keys : List A) (w : Walk A) → Ready fuel keys w
      → Explored keys w (visit_each go keys w)
  unfolding visit_each contains
  Explored-visit_each fuel go h [] w r = Explored-visited w r.good [] (λ a m. cc)
  Explored-visit_each fuel go h (key ∷ keys) w r =
      Explored-bind key keys w (go key w) (visit_each go keys)
        (h key w (Ready-cons fuel key keys w r))
        (λ u f. Explored-visit_each fuel go h keys u (Ready-next fuel key keys w u r f))

  Explored-leave :
      (key : A) (w : Walk A)
      → Good w
      → contains key w.visiting ≡ false
      → (r : Result (Walk A)) → Explored (children key) (record w { visiting = key ∷ w.visiting }) r
      → Explored (key ∷ []) w (
          r >>= λ w'. ok (record {
            visiting = filter (λ k. not (k == key)) w'.visiting;
            visited = key ∷ w'.visited;
          }))
  unfolding ◌>>=◌
  Explored-leave key w g new (ok w') x = Finished-left key w w' g new x
  Explored-leave key w g new (err m) x = x

  Explored-visit_as :
      (fuel : ℕ) (go : A → Walk A → Result (Walk A))
      → ((key : A) (w : Walk A) → Ready fuel (key ∷ []) w → Explored (key ∷ []) w (go key w))
      → (v : Verdict) (key : A) (w : Walk A) → Finds v key w
      → Ready (suc fuel) (key ∷ []) w
      → Explored (key ∷ []) w (visit_as children guard message go v key w)
  unfolding visit_as contains
  Explored-visit_as fuel go h closes_cycle key w f r = (
    key,
    refl,
    r.known key (ground (arith, beq_refl key)),
    r.stack key key f (ground (arith, beq_refl key)),
  )
  Explored-visit_as fuel go h already_done key w f r =
      Explored-visited w r.good (key ∷ []) (λ a m. ground (arith, e.same_iff key a))
  Explored-visit_as fuel go h fresh key w f r =
      Explored-leave key w r.good f.0
        (visit_each go (children key) (record w { visiting = key ∷ w.visiting }))
        (Explored-visit_each fuel go h (children key) (record w { visiting = key ∷ w.visiting })
          (Ready-children fuel key w r f.0 f.1))

  Explored-visit :
      (fuel : ℕ) (key : A) (w : Walk A)
      → Ready fuel (key ∷ []) w
      → Explored (key ∷ []) w (visit children guard message fuel key w)
  unfolding visit
  Explored-visit zero key w r = elim out_of_bound [ ]
    where
      out_of_bound : ⊥
      out_of_bound =
          ground (arith, r.fuelled, distinct-length w.visiting universe r.good.once r.good.inside)
  Explored-visit (suc fuel) key w r =
      Explored-visit_as fuel (visit children guard message fuel) (Explored-visit fuel) (guard key w)
        key w (finds key w) r

  -- A walk that returns has seen its roots, none of which lies on a cycle, and one that throws has
  -- found a cycle.
  abbrev pub Searched : List A → Result (Walk A) → Type ℓ
  Searched roots (ok w) = (a : A) → contains a roots ≡ true → ¬ Leads children a a
  Searched roots (err m) =
      (k : A) × (m ≡ message k) × (contains k universe ≡ true) × Leads children k k

  Explored-Searched :
      (roots : List A) (w : Walk A) (r : Result (Walk A)) → Explored roots w r → Searched roots r
  Explored-Searched roots w (ok w') x =
      λ a m. ChildrenLast-acyclic children w'.visited a x.good.ordered (x.seen a m)
  Explored-Searched roots w (err m) x = x

  pub walk-Searched :
      (fuel : ℕ) (roots : List A)
      → length universe < fuel
      → Within roots universe
      → Searched roots (walk children guard message fuel roots)
  unfolding walk contains distinct ChildrenLast
  walk-Searched fuel roots enough inside =
      let start : Walk A = record { visiting = []; visited = [] } in
      Explored-Searched roots start (walk children guard message fuel roots) (
        Explored-visit_each fuel (visit children guard message fuel) (Explored-visit fuel) roots
          start
          (record {
            good = record { once = refl; inside = λ a m. cc; apart = λ a m. refl; ordered = tt };
            known = inside;
            stack = λ a k m n. elim (false_true m) [ ];
            fuelled = ground arith;
          }))
    where
      false_true : false ≡ true → ⊥
      false_true h = cc
