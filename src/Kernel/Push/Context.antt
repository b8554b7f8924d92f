-- ===== src/Kernel/Push/Context.antt =====
-- The push evidence in the records of a next attempt
-- (supervisor/src/pipeline/kernel/github-push-delivery.ts and successor-attempt.ts).
use openthrottle.Base.{
  ℕ, ◌+◌, ◌≤◌, ◌≡◌, refl, Bool, true, false, not, ◌&&◌, Option, none, some, List, [], ◌∷◌, ◌++◌,
  Text, Dict, put, text_le, ◌==◌, list_eq, nat_eq, filter, insert, sort, ok, arith, Ensures,
  Ensures-ok, Ensures-bind, Ensures-throw_if, if◌then◌else◌,
}
use openthrottle.Contracts.Records.{ExecutionRecord, delivery, id_of, is_confirmed}
use openthrottle.Kernel.Push.{
  ConfirmedGithubPushDelivery, is_github_push_delivery, parse_confirmed_github_push_delivery,
  put_all, values_of, last_by_id, exact_confirmed_github_push_delivery,
  merge_causal_github_push_context, parse_first, chosen,
}

module _ (p : ExecutionRecord → Bool) where
  unfoldable pub tally : List ExecutionRecord → ℕ
  tally [] = 0
  tally (r ∷ records) = (if p r then 1 else 0) + tally records

  tally-filter :
      (q : ExecutionRecord → Bool) (records : List ExecutionRecord)
      → ((r : ExecutionRecord) → q r ≡ true → p r ≡ false)
      → tally (filter q records) ≡ 0
  unfolding tally filter
  tally-filter q [] h = refl
  tally-filter q (r ∷ records) h = ground (arith, tally-filter q records h, h r)

  tally-append : (xs ys : List ExecutionRecord) → tally (xs ++ ys) ≡ tally xs + tally ys
  unfolding tally
  tally-append [] ys = omega arith
  tally-append (x ∷ xs) ys = ground (arith, tally-append xs ys)

  tally-put :
      (r : ExecutionRecord) (id : Text) (d : Dict ExecutionRecord)
      → tally (values_of (put id r d)) ≤ (if p r then 1 else 0) + tally (values_of d)
  unfolding tally values_of put
  tally-put r id [] = ground arith
  tally-put r id ((j, x) ∷ d) = ground (arith, tally-put r id d)

  tally-put_all :
      (records : List ExecutionRecord) (d : Dict ExecutionRecord)
      → tally (values_of (put_all records d)) ≤ tally records + tally (values_of d)
  unfolding tally put_all
  tally-put_all [] d = ground arith
  tally-put_all (r ∷ records) d =
      ground (arith, tally-put_all records (put (id_of r) r d), tally-put r (id_of r) d)

  tally-insert :
      (le : ExecutionRecord → ExecutionRecord → Bool) (r : ExecutionRecord)
      (records : List ExecutionRecord)
      → tally (insert le r records) ≡ (if p r then 1 else 0) + tally records
  unfolding tally insert
  tally-insert le r [] = refl
  tally-insert le r (x ∷ records) = ground (arith, tally-insert le r records)

  tally-sort :
      (le : ExecutionRecord → ExecutionRecord → Bool) (records : List ExecutionRecord)
      → tally (sort le records) ≡ tally records
  unfolding tally sort
  tally-sort le [] = refl
  tally-sort le (r ∷ records) =
      ground (arith, tally-insert le r (sort le records), tally-sort le records)

  tally-last_by_id : (records : List ExecutionRecord) → tally (last_by_id records) ≤ tally records
  unfolding tally last_by_id values_of
  tally-last_by_id records = ground (arith, tally-put_all records [])

  tally-merged :
      (le : ExecutionRecord → ExecutionRecord → Bool) (xs ys zs : List ExecutionRecord)
      → tally (sort le (last_by_id (xs ++ ys ++ zs))) ≤ tally xs + tally ys + tally zs
  tally-merged le xs ys zs = ground (
    arith,
    tally-sort le (last_by_id (xs ++ ys ++ zs)),
    tally-last_by_id (xs ++ ys ++ zs),
    tally-append (xs ++ ys) zs,
    tally-append xs ys,
  )

abbrev in_order : ExecutionRecord → ExecutionRecord → Bool
in_order a b = text_le (id_of a) (id_of b)

-- A push that is rejected, or of another run.
unfoldable pub is_foreign_push : Text → ExecutionRecord → Bool
is_foreign_push run_id (delivery d) =
    is_github_push_delivery (delivery d)
    && not (is_confirmed d.status && d.pipeline_run_id == run_id)
is_foreign_push run_id _ = false

module _ (run_id : Text) where
  -- A push that is confirmed, in this run.
  abbrev Own : Option ConfirmedGithubPushDelivery → Type 0
  Own none = Unit
  Own (some p) = (is_confirmed p.evidence.status && p.evidence.pipeline_run_id == run_id) ≡ true

  parse-Own :
      (r : ExecutionRecord)
      → Ensures (λ p. Own (some p)) (parse_confirmed_github_push_delivery run_id r)
  unfolding parse_confirmed_github_push_delivery
  parse-Own r = Ensures-throw_if _ _ _ λ push. Ensures-bind _ _ λ d e0.
      Ensures-bind _ _ λ envelope e1. Ensures-throw_if _ _ _ λ own. Ensures-bind _ _ λ value e2.
        Ensures-throw_if _ _ _ λ schema. Ensures-bind _ _ λ repository e3.
          Ensures-bind _ _ λ ref e4. Ensures-throw_if _ _ _ λ branch. Ensures-bind _ _ λ sha e5.
            Ensures-throw_if _ _ _ λ hex.
              Ensures-bind _ _
                λ mode e6. Ensures-throw_if _ _ _ λ identity. Ensures-ok _ (ground (arith, own))

  parse_first-Own : (o : Option ExecutionRecord) → Ensures Own (parse_first run_id o)
  unfolding parse_first
  parse_first-Own none = Ensures-ok none tt
  parse_first-Own (some r) = Ensures-bind _ _ λ p e. Ensures-ok (some p) ((parse-Own r).at p e)

  exact-Own :
      (records : List ExecutionRecord)
      → Ensures Own (exact_confirmed_github_push_delivery run_id records)
  unfolding exact_confirmed_github_push_delivery
  exact-Own records = Ensures-throw_if _ _ _ λ few. parse_first-Own _

  chosen-one :
      (a b : Option ConfirmedGithubPushDelivery) → tally is_github_push_delivery (chosen a b) ≤ 1
  unfolding tally
  chosen-one (some p) b = ground arith
  chosen-one none (some p) = ground arith
  chosen-one none none = omega arith

  chosen-Own :
      (a b : Option ConfirmedGithubPushDelivery)
      → Own a
      → Own b
      → tally (is_foreign_push run_id) (chosen a b) ≡ 0
  unfolding tally is_foreign_push
  chosen-Own (some p) b own _ = ground (arith, own)
  chosen-Own none (some p) _ own = ground (arith, own)
  chosen-Own none none _ _ = refl

  foreign_push :
      (r : ExecutionRecord)
      → not (is_github_push_delivery r) ≡ true
      → is_foreign_push run_id r ≡ false
  unfolding is_foreign_push
  foreign_push (delivery d) h = ground arith
  foreign_push _ h = refl

  inherited-Own :
      (b : Bool) (records : List ExecutionRecord)
      → Ensures Own (if b then exact_confirmed_github_push_delivery run_id records else ok none)
  inherited-Own true records = exact-Own records
  inherited-Own false records = Ensures-ok none tt

-- The records have one push at most, and none that is rejected or of another run.
pub record HasOwnPush (run_id : Text) (records : List ExecutionRecord) : Type 0 where
  pub one_push : tally is_github_push_delivery records ≤ 1
  pub own_push : tally (is_foreign_push run_id) records ≡ 0

merged-HasOwnPush :
    (run_id : Text) (base_records inherited_records additional_records : List ExecutionRecord)
    → Ensures
        (HasOwnPush run_id)
        (merge_causal_github_push_context run_id base_records inherited_records additional_records)
unfolding merge_causal_github_push_context
merged-HasOwnPush run_id base_records inherited_records additional_records =
    Ensures-bind _ _ λ override e0. Ensures-bind _ _ λ inherited e1.
      let own = (exact-Own run_id _).at override e0 in
      let kept = (inherited-Own run_id _ _).at inherited e1 in
      let others =
        λ (records : List ExecutionRecord). filter (λ r. not (is_github_push_delivery r)) records in
      Ensures-ok _ (record {
        one_push = ground (
          arith,
          tally-merged is_github_push_delivery in_order (others base_records)
              (others additional_records) (chosen override inherited),
          tally-filter is_github_push_delivery (λ r. not (is_github_push_delivery r)) base_records
              (λ r h. ground arith),
          tally-filter is_github_push_delivery (λ r. not (is_github_push_delivery r))
              additional_records (λ r h. ground arith),
          chosen-one run_id override inherited,
        );
        own_push = ground (
          arith,
          tally-merged (is_foreign_push run_id) in_order (others base_records)
              (others additional_records) (chosen override inherited),
          tally-filter (is_foreign_push run_id) (λ r. not (is_github_push_delivery r)) base_records
              (foreign_push run_id),
          tally-filter (is_foreign_push run_id) (λ r. not (is_github_push_delivery r))
              additional_records (foreign_push run_id),
          chosen-Own run_id override inherited own kept,
        );
      })

-- The records that mergeCausalGithubPushContext returns have at most one push delivery, and none
-- that is rejected or of another run.
pub merge_causal_github_push_context-HasOwnPush :
    (run_id : Text)
    (base_records inherited_records additional_records records : List ExecutionRecord)
    → merge_causal_github_push_context run_id base_records inherited_records additional_records
      ≡ ok records
    → HasOwnPush run_id records
merge_causal_github_push_context-HasOwnPush run_id base_records inherited_records
      additional_records =
    (merged-HasOwnPush run_id base_records inherited_records additional_records).at
