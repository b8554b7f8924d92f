-- ===== src/Kernel/Proofs/Order.antt =====
-- The order of the appended records (appendRecordOrder of supervisor/src/pipeline/kernel/reducer.ts).
use openthrottle.Base.{
  ℕ, zero, suc, ◌≤◌, ◌≡◌, refl, ap, sym, ◌∙◌, Bool, true, false, ◌&&◌, Option, none, some, List, [],
  ◌∷◌, map, Text, sort, insert, text_le, length, arith, list_eq, nat_eq, ok, or_throw-eq-ok,
  Ensures, Ensures-bind, Ensures-ok, if◌then◌else◌, subst,
}
use openthrottle.Contracts.Records.{ExecutionRecord, id_of}
use openthrottle.Kernel.Reducer.Bundle.{
  ready, skip_first, take_first, order_records, append_record_order,
}

-- Each decision comes after every record of the batch that it cites.
unfoldable pub cites_earlier : List Text → List Text → List ExecutionRecord → Bool
cites_earlier batch_ids appended_ids [] = true
cites_earlier batch_ids appended_ids (r ∷ rs) =
    ready batch_ids appended_ids r && cites_earlier batch_ids (id_of r ∷ appended_ids) rs

-- How many elements of a list pass a test.
unfoldable pub tally {ℓ} : {A : Type ℓ} → (A → Bool) → List A → ℕ
tally p [] = 0
tally p (x ∷ xs) = if p x then suc (tally p xs) else tally p xs

-- Of a record that was taken: it passes the test, and no element is lost.
record Taken (q : ExecutionRecord → Bool) (rs : List ExecutionRecord) (r : ExecutionRecord)
    (others : List ExecutionRecord) : Type 0 where
  pub holds : q r ≡ true
  pub shorter : length rs ≡ suc (length others)
  pub keeps : (p : ExecutionRecord → Bool) → tally p rs ≡ tally p (r ∷ others)

IsTaken :
    (ExecutionRecord → Bool)
    → List ExecutionRecord
    → Option (ExecutionRecord × List ExecutionRecord)
    → Type 0
IsTaken q rs none = Unit
IsTaken q rs (some (r, others)) = Taken q rs r others

module _ (q : ExecutionRecord → Bool) (x : ExecutionRecord) (rs : List ExecutionRecord) where
  tally-swap :
      (r : ExecutionRecord) (others : List ExecutionRecord) (p : ExecutionRecord → Bool)
      → tally p rs ≡ tally p (r ∷ others)
      → tally p (x ∷ rs) ≡ tally p (r ∷ x ∷ others)
  unfolding tally
  tally-swap r others p e = ground arith

  skip_first-IsTaken :
      (o : Option (ExecutionRecord × List ExecutionRecord))
      → IsTaken q rs o
      → IsTaken q (x ∷ rs) (skip_first x o)
  unfolding skip_first IsTaken
  skip_first-IsTaken none t = tt
  skip_first-IsTaken (some (r, others)) t = record {
    holds = t.holds;
    shorter = ap suc t.shorter;
    keeps = λ p. tally-swap r others p (t.keeps p);
  }

  choose-IsTaken :
      (b : Bool) (o : Option (ExecutionRecord × List ExecutionRecord))
      → q x ≡ b
      → IsTaken q (x ∷ rs) o
      → IsTaken q (x ∷ rs) (if b then some (x, rs) else o)
  unfolding IsTaken
  choose-IsTaken true o e t = record { holds = e; shorter = refl; keeps = λ p. refl }
  choose-IsTaken false o e t = t

take_first-IsTaken :
    (q : ExecutionRecord → Bool) (rs : List ExecutionRecord) → IsTaken q rs (take_first q rs)
unfolding take_first IsTaken
take_first-IsTaken q [] = tt
take_first-IsTaken q (x ∷ rs) =
    choose-IsTaken q x rs (q x) (skip_first x (take_first q rs)) refl
      (skip_first-IsTaken q x rs (take_first q rs) (take_first-IsTaken q rs))

-- What an order of pending records satisfies.
record IsOrder (batch_ids appended_ids : List Text) (pending ordered : List ExecutionRecord)
    : Type 0 where
  pub cites : cites_earlier batch_ids appended_ids ordered ≡ true
  pub keeps : (p : ExecutionRecord → Bool) → tally p pending ≡ tally p ordered

take_first-Taken :
    (q : ExecutionRecord → Bool) (rs : List ExecutionRecord)
    (found : ExecutionRecord × List ExecutionRecord)
    → take_first q rs ≡ some found
    → Taken q rs found.0 found.1
unfolding IsTaken
take_first-Taken q rs (r, others) e = subst (IsTaken q rs) e (take_first-IsTaken q rs)

tally-cons :
    (p : ExecutionRecord → Bool) (r : ExecutionRecord) (rs others : List ExecutionRecord)
    → tally p rs ≡ tally p others
    → tally p (r ∷ rs) ≡ tally p (r ∷ others)
unfolding tally
tally-cons p r rs others e = ground arith

order_records-IsOrder :
    (rounds : ℕ) (batch_ids appended_ids : List Text) (pending : List ExecutionRecord)
    → length pending ≤ rounds
    → Ensures
        (IsOrder batch_ids appended_ids pending)
        (order_records rounds batch_ids appended_ids pending)
unfolding order_records cites_earlier tally
order_records-IsOrder zero batch_ids appended_ids [] enough =
    Ensures-ok _ (record { cites = refl; keeps = λ p. refl })
order_records-IsOrder zero batch_ids appended_ids (r ∷ rs) enough = record {
  at = λ o e. ground arith;
}
order_records-IsOrder (suc rounds) batch_ids appended_ids [] enough =
    Ensures-ok _ (record { cites = refl; keeps = λ p. refl })
order_records-IsOrder (suc rounds) batch_ids appended_ids (r ∷ rs) enough =
    Ensures-bind _ _ λ next found. Ensures-bind _ _ λ ordered rest.
      let taken =
        take_first-Taken (ready batch_ids appended_ids) (r ∷ rs) next (or_throw-eq-ok _ _ found) in
      let later =
        (order_records-IsOrder rounds batch_ids (id_of next.0 ∷ appended_ids) next.1
            (ground (arith, taken.shorter))).at
          ordered rest in
      Ensures-ok _ (record {
        cites = ground (arith, taken.holds, later.cites);
        keeps = λ p. taken.keeps p ∙ tally-cons p next.0 next.1 ordered (later.keeps p);
      })

module _ {ℓ} {A : Type ℓ} (p : A → Bool) (le : A → A → Bool) where
  tally-insert : (a : A) (xs : List A) → tally p (insert le a xs) ≡ tally p (a ∷ xs)
  unfolding insert tally
  tally-insert a [] = refl
  tally-insert a (x ∷ xs) = ground (arith, tally-insert a xs)

  tally-sort : (xs : List A) → tally p (sort le xs) ≡ tally p xs
  unfolding sort tally
  tally-sort [] = refl
  tally-sort (x ∷ xs) = ground (arith, tally-insert x (sort le xs), tally-sort xs)

length-tally : {A : Type 0} (xs : List A) → length xs ≡ tally (λ _. true) xs
unfolding tally
length-tally [] = refl
length-tally (x ∷ xs) = ap suc (length-tally xs)

-- The appended records are the given ones, each as often as it was given, and a decision comes
-- after every record of the batch that it cites.
pub append_record_order-keeps :
    (records : List ExecutionRecord) {ordered : List ExecutionRecord}
    → append_record_order records ≡ ok ordered
    → (cites_earlier (map id_of records) [] ordered ≡ true)
      × ((p : ExecutionRecord → Bool) → tally p records ≡ tally p ordered)
unfolding append_record_order
append_record_order-keeps records {ordered} e =
    let le = λ (a b : ExecutionRecord). text_le (id_of a) (id_of b) in
    let same_length =
      length-tally (sort le records)
      ∙ tally-sort (λ _. true) le records
      ∙ sym (length-tally records) in
    let found =
      (order_records-IsOrder (length records) (map id_of records) [] (sort le records)
          (omega (arith, same_length))).at
        ordered e in
    (found.cites, λ p. sym (tally-sort p le records) ∙ found.keeps p)
