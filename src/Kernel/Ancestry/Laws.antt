-- ===== src/Kernel/Ancestry/Laws.antt =====
-- The chain that is returned (supervisor/src/pipeline/kernel/checkpoint-ancestry.ts).
use openthrottle.Base.{
  ℕ, zero, suc, ◌+◌, ◌<◌, ◌≤◌, ◌≡◌, refl, sym, ap, ◌∙◌, ◌⊎◌, inl, inr, subst, Bool, true, false,
  ◌||◌, Option, none, some, List, [], ◌∷◌, ◌++◌, map, Text, lookup, keys, ◌==◌, list_eq,
  list_beq_iff, nat_eq, contains, length, distinct, Result, ok, err, ◌>>=◌, or_throw, if◌then◌else◌,
  arith, Bool-cases, String,
}
use openthrottle.Base.Search.Members.{Within, distinct-length}
use openthrottle.Base.Search.Acyclic.{Leads, Leads-edge, edge, further}
use openthrottle.Base.Search.Decides.{Acyclic}
use openthrottle.Kernel.Ancestry.{
  KernelCheckpointAncestryEntry, by_input, output_of, next_subject, follow_chain,
}

abbrev pub inputs : List KernelCheckpointAncestryEntry → List Text
inputs = map (λ (e : KernelCheckpointAncestryEntry). e.input_subject)

abbrev pub outputs : List KernelCheckpointAncestryEntry → List Text
outputs = map (λ (e : KernelCheckpointAncestryEntry). e.output_subject)

pub keys-by_input :
    (entries : List KernelCheckpointAncestryEntry) → keys (by_input entries) ≡ inputs entries
unfolding keys
keys-by_input [] = refl
keys-by_input (e ∷ entries) = ap (◌∷◌ e.input_subject) (keys-by_input entries)

pub contains-append :
    (a : Text) (xs ys : List Text) → contains a (xs ++ ys) ≡ (contains a xs || contains a ys)
unfolding contains
contains-append a [] ys = refl
contains-append a (x ∷ xs) ys = ground (arith, contains-append a xs ys)

some_injective : {a b : KernelCheckpointAncestryEntry} → some a ≡ some b → a ≡ b
some_injective e = cc

if-true {ℓ} : {A : Type ℓ} (b : Bool) (x y : A) → b ≡ true → (if b then x else y) ≡ x
if-true b x y h = rw h

if-false {ℓ} : {A : Type ℓ} (b : Bool) (x y : A) → b ≡ false → (if b then x else y) ≡ y
if-false b x y h = rw h

-- What a map of the entries gives for a subject.
lookup-entry :
    (entries : List KernelCheckpointAncestryEntry) (k : Text) (e : KernelCheckpointAncestryEntry)
    → lookup k (by_input entries) ≡ some e
    → (e.input_subject ≡ k)
      × (contains k (inputs entries) ≡ true)
      × (contains e.output_subject (outputs entries) ≡ true)
unfolding lookup contains
lookup-entry [] k e h = cc
lookup-entry (x ∷ entries) k e h = elim (Bool-cases (x.input_subject == k)) [
  | inl here ↦
      let same = (list_beq_iff x.input_subject k).0 here in
      let this : x ≡ e = some_injective (sym (if-true _ _ _ here) ∙ h) in
      (
        ap (λ (y : KernelCheckpointAncestryEntry). y.input_subject) (sym this) ∙ same,
        ground arith,
        ground (
          arith,
          list_beq_iff x.output_subject e.output_subject,
          ap (λ (y : KernelCheckpointAncestryEntry). y.output_subject) this,
        ),
      )
  | inr there ↦
      let (i, m, o) = lookup-entry entries k e (sym (if-false _ _ _ there) ∙ h) in
      (i, ground arith, ground arith)
]

pub length-append : (xs ys : List Text) → length (xs ++ ys) ≡ length xs + length ys
length-append [] ys = omega arith
length-append (x ∷ xs) ys = ground (arith, length-append xs ys)

pub length-outputs :
    (entries : List KernelCheckpointAncestryEntry) → length (outputs entries) ≡ length entries
length-outputs [] = refl
length-outputs (e ∷ entries) = ap suc (length-outputs entries)

pub length-inputs :
    (entries : List KernelCheckpointAncestryEntry) → length (inputs entries) ≡ length entries
length-inputs [] = refl
length-inputs (e ∷ entries) = ap suc (length-inputs entries)

module _ (entries : List KernelCheckpointAncestryEntry) where
  next-found :
      (a : Text) (e : KernelCheckpointAncestryEntry)
      → lookup a (by_input entries) ≡ some e
      → contains e.output_subject (next_subject entries a) ≡ true
  unfolding next_subject contains
  next-found a e h = ground (
    arith,
    ap output_of h,
    ap (λ o. contains e.output_subject (output_of o)) h,
    list_beq_iff e.output_subject e.output_subject,
  )

  output-Within :
      (o : Option KernelCheckpointAncestryEntry) (a : Text)
      → lookup a (by_input entries) ≡ o
      → Within (output_of o) (inputs entries ++ outputs entries)
  unfolding contains
  output-Within none a h b m = cc
  output-Within (some e) a h b m =
      let (same, known, out) = lookup-entry entries a e h in
      ground (
        arith,
        contains-append b (inputs entries) (outputs entries),
        list_beq_iff e.output_subject b,
        ap (λ k. contains k (outputs entries)) ((list_beq_iff e.output_subject b).0 (ground arith)),
      )

  pub next-Within : (a : Text) → Within (next_subject entries a) (inputs entries ++ outputs entries)
  unfolding next_subject
  next-Within a = output-Within (lookup a (by_input entries)) a refl

-- Consecutive entries from one subject to another.
unfoldable pub Links : Text → List KernelCheckpointAncestryEntry → Text → Type 0
Links start [] end_subject = start ≡ end_subject
Links start (e ∷ ordered) end_subject =
    (e.input_subject ≡ start) × Links e.output_subject ordered end_subject

module _ (entries : List KernelCheckpointAncestryEntry)
    (acyclic : Acyclic (next_subject entries) (inputs entries)) where
  -- The chain loop at `cursor`, behind the subjects `seen`.
  record Underway (fuel : ℕ) (seen : List Text) (cursor : Text) : Type 0 where
    pub once : distinct seen ≡ true
    pub inside : Within seen (inputs entries)
    pub behind : (a : Text) → contains a seen ≡ true → Leads (next_subject entries) a cursor
    pub left : length entries < fuel + length seen

  pub record IsChain (cursor end_subject : Text) (ordered : List KernelCheckpointAncestryEntry)
      : Type 0 where
    pub links : Links cursor ordered end_subject
    pub inside : Within (inputs ordered) (inputs entries)
    pub once : distinct (inputs ordered) ≡ true
    pub ahead :
        (a : Text)
        → contains a (inputs ordered) ≡ true
        → (cursor ≡ a) ⊎ Leads (next_subject entries) cursor a

  abbrev pub Chained : Text → Text → Result (List KernelCheckpointAncestryEntry) → Type 0
  Chained cursor end_subject (ok ordered) = IsChain cursor end_subject ordered
  Chained cursor end_subject (err m) = m ≡ "${label} contains a gap"

  beyond :
      {cursor out : Text} (a : Text)
      → contains out (next_subject entries cursor) ≡ true
      → (out ≡ a) ⊎ Leads (next_subject entries) out a
      → Leads (next_subject entries) cursor a
  beyond {cursor} a step (inl here) =
      edge (subst (λ k. contains k (next_subject entries cursor) ≡ true) here step)
  beyond a step (inr p) = further step p

  IsChain-cons :
      (cursor end_subject : Text) (e : KernelCheckpointAncestryEntry)
      (ordered : List KernelCheckpointAncestryEntry)
      → lookup cursor (by_input entries) ≡ some e
      → IsChain e.output_subject end_subject ordered
      → IsChain cursor end_subject (e ∷ ordered)
  unfolding Links contains distinct
  IsChain-cons cursor end_subject e ordered found c =
      let (same, known, out) = lookup-entry entries cursor e found in
      let step = next-found entries cursor e found in
      record {
        links = (same, c.links);
        inside = λ a m. ground (
          arith,
          list_beq_iff e.input_subject a,
          c.inside a,
          ap (λ k. contains k (inputs entries)) same,
          known,
          λ (q : e.input_subject ≡ a). ap (λ k. contains k (inputs entries)) q,
        );
        once = elim (Bool-cases (contains e.input_subject (inputs ordered))) [
          | inl again ↦
              elim (acyclic cursor known (
                beyond cursor step (
                  c.ahead cursor (subst (λ k. contains k (inputs ordered) ≡ true) same again)))) [ ]
          | inr new ↦ ground (arith, c.once)
        ];
        ahead = λ a m. elim (Bool-cases (e.input_subject == a)) [
          | inl here ↦ inl (sym same ∙ (list_beq_iff e.input_subject a).0 here)
          | inr there ↦ inr (beyond a step (c.ahead a (ground arith)))
        ];
      }

  Chained-cons :
      (cursor end_subject : Text) (e : KernelCheckpointAncestryEntry)
      → lookup cursor (by_input entries) ≡ some e
      → (r : Result (List KernelCheckpointAncestryEntry)) → Chained e.output_subject end_subject r
      → Chained cursor end_subject (r >>= λ ordered. ok (e ∷ ordered))
  unfolding ◌>>=◌
  Chained-cons cursor end_subject e found (ok ordered) c =
      IsChain-cons cursor end_subject e ordered found c
  Chained-cons cursor end_subject e found (err m) c = c

  Underway-next :
      (fuel : ℕ) (seen : List Text) (cursor : Text) (e : KernelCheckpointAncestryEntry)
      → lookup cursor (by_input entries) ≡ some e
      → Underway (suc fuel) seen cursor
      → Underway fuel (cursor ∷ seen) e.output_subject
  unfolding contains distinct
  Underway-next fuel seen cursor e found u =
      let (same, known, out) = lookup-entry entries cursor e found in
      let step = next-found entries cursor e found in
      record {
        once = elim (Bool-cases (contains cursor seen)) [
          | inl again ↦ elim (acyclic cursor known (u.behind cursor again)) [ ]
          | inr new ↦ ground (arith, u.once)
        ];
        inside = λ a m. ground (
          arith,
          list_beq_iff cursor a,
          u.inside a,
          known,
          λ (q : cursor ≡ a). ap (λ k. contains k (inputs entries)) q,
        );
        behind = λ a m. elim (Bool-cases (cursor == a)) [
          | inl here ↦
              subst (λ k. Leads (next_subject entries) k e.output_subject)
                ((list_beq_iff cursor a).0 here) (edge step)
          | inr there ↦ Leads-edge (next_subject entries) (u.behind a (ground arith)) step
        ];
        left = ground (arith, u.left);
      }

  Chained-turn :
      (fuel : ℕ) (cursor end_subject : Text)
      → ((e : KernelCheckpointAncestryEntry)
          → lookup cursor (by_input entries) ≡ some e
          → Chained e.output_subject end_subject
              (follow_chain fuel entries e.output_subject end_subject))
      → (b : Bool) → (cursor == end_subject) ≡ b
      → (o : Option KernelCheckpointAncestryEntry) → lookup cursor (by_input entries) ≡ o
      → Chained cursor end_subject (
          if b
          then ok []
          else (or_throw o "${label} contains a gap" >>= λ e.
              follow_chain fuel entries e.output_subject end_subject >>= λ ordered.
              ok (e ∷ ordered)))
  unfolding Links or_throw ◌>>=◌ contains distinct
  Chained-turn fuel cursor end_subject again true here o found = record {
    links = (list_beq_iff cursor end_subject).0 here;
    inside = λ a m. cc;
    once = refl;
    ahead = λ a m. elim (false_true m) [ ];
  }
    where
      false_true : false ≡ true → ⊥
      false_true h = cc
  Chained-turn fuel cursor end_subject again false there none found = refl
  Chained-turn fuel cursor end_subject again false there (some e) found =
      Chained-cons cursor end_subject e found _ (again e found)

  -- The loop ends before its fuel does: no subject comes twice.
  follow_chain-Chained :
      (fuel : ℕ) (seen : List Text) (cursor end_subject : Text)
      → Underway fuel seen cursor
      → Chained cursor end_subject (follow_chain fuel entries cursor end_subject)
  unfolding follow_chain
  follow_chain-Chained zero seen cursor end_subject u =
      elim (too_many (distinct-length seen (inputs entries) u.once u.inside) (length-inputs entries)
        u.left) [ ]
    where
      too_many : {s i n : ℕ} → s ≤ i → i ≡ n → n < 0 + s → ⊥
      too_many a b c = omega arith
  follow_chain-Chained (suc fuel) seen cursor end_subject u =
      Chained-turn fuel cursor end_subject
        (λ e found.
          follow_chain-Chained fuel (cursor ∷ seen) e.output_subject end_subject
            (Underway-next fuel seen cursor e found u))
        (cursor == end_subject) refl (lookup cursor (by_input entries)) refl

  pub follow_chain-start :
      (start end_subject : Text)
      → Chained start end_subject (follow_chain (suc (length entries)) entries start end_subject)
  unfolding contains distinct
  follow_chain-start start end_subject =
      follow_chain-Chained (suc (length entries)) [] start end_subject (record {
        once = refl;
        inside = λ a m. cc;
        behind = λ a m. elim (false_true m) [ ];
        left = omega arith;
      })
    where
      false_true : false ≡ true → ⊥
      false_true h = cc

abbrev pub Messages : String → Type 0
Messages m =
    (m ≡ "${label} exceeds 64 checkpoints")
    ⊎ (m ≡ "${label} contains a duplicate checkpoint ID")
    ⊎ (m ≡ "${label} contains a fork")
    ⊎ (m ≡ "${label} contains a cycle")
    ⊎ (m ≡ "${label} contains a gap")
    ⊎ (m ≡ "${label} contains disconnected extra checkpoints")
