-- ===== src/Kernel/Reducer/Bundle/Order.antt =====
-- The order of the records of a transition: appendRecordOrder
-- (supervisor/src/pipeline/kernel/reducer.ts).
use openthrottle.Base.{
  ℕ, zero, suc, Bool, true, not, ◌||◌, Option, none, some, List, [], ◌∷◌, map, Text, text_le,
  nat_eq, list_eq, option_eq, contains, all, length, sort, Result, ok, ◌>>=◌, or_throw,
  if◌then◌else◌,
}
use openthrottle.Contracts.Records.{ExecutionRecord, decision, id_of}

-- Whether every input of a decision that is appended with it has been appended before it.
unfoldable pub ready : List Text → List Text → ExecutionRecord → Bool
ready batch_ids appended_ids (decision d) =
    all (λ id. not (contains id batch_ids) || contains id appended_ids) d.input_record_ids
ready batch_ids appended_ids _ = true

unfoldable pub skip_first :
    ExecutionRecord
    → Option (ExecutionRecord × List ExecutionRecord)
    → Option (ExecutionRecord × List ExecutionRecord)
skip_first r none = none
skip_first r (some (found, others)) = some (found, r ∷ others)

-- `findIndex` and `splice`: the first record that is ready, and the others.
unfoldable pub take_first :
    (ExecutionRecord → Bool)
    → List ExecutionRecord
    → Option (ExecutionRecord × List ExecutionRecord)
unfolding skip_first
take_first p [] = none
take_first p (r ∷ rs) = if p r then some (r, rs) else skip_first r (take_first p rs)

-- The loop of appendRecordOrder. Each round takes one record, so a round for each is enough.
unfoldable pub order_records :
    ℕ → List Text → List Text → List ExecutionRecord → Result (List ExecutionRecord)
unfolding take_first ready
order_records zero batch_ids appended_ids pending = ok []
order_records (suc rounds) batch_ids appended_ids [] = ok []
order_records (suc rounds) batch_ids appended_ids (r ∷ rs) = do
  next ←
      or_throw (take_first (ready batch_ids appended_ids) (r ∷ rs))
        "appended DecisionRecords contain cyclic input references"
  ordered ← order_records rounds batch_ids (id_of next.0 ∷ appended_ids) next.1
  ok (next.0 ∷ ordered)

-- appendRecordOrder
unfoldable pub append_record_order : List ExecutionRecord → Result (List ExecutionRecord)
unfolding order_records
append_record_order records =
    order_records (length records) (map id_of records) []
      (sort (λ a b. text_le (id_of a) (id_of b)) records)
