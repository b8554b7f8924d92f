-- ===== src/Kernel/Reducer/Terminal/Evidence.antt =====
-- The evidence that a cleanup cites, of terminalCommand
-- (supervisor/src/pipeline/kernel/reducer.ts).
use openthrottle.Base.{
  Bool, not, ◌&&◌, ◌||◌, Option, none, some, List, [], ◌∷◌, ◌++◌, map, filter, Text, ◌==◌, nat_eq,
  list_eq, option_eq, any, contains, length, sort_texts, sorted_unique, Result, ok, ◌>>=◌, ◌>>◌,
  throw_if, or_throw, map_each, if◌then◌else◌,
}
use openthrottle.Contracts.Records.{ExecutionRecord, DeliveryRecord, id_of}
use openthrottle.Kernel.Types.{Cleanup, DecisionAuthorization}
use openthrottle.Kernel.Recovery.{
  SandboxRecoveryFrontierMember, exact_sandbox_fatal_absence_delivery,
}
use openthrottle.Kernel.Resource.{exact_kernel_runtime_cleanup_deliveries}

abbrev trigger_id : Option DeliveryRecord → List Text
trigger_id none = []
trigger_id (some d) = d.id ∷ []

unfoldable pub record_with_id : List ExecutionRecord → Text → Option ExecutionRecord
record_with_id [] id = none
record_with_id (r ∷ rs) id = if id_of r == id then some r else record_with_id rs id

-- The guards of terminalCommand on the evidence that its decision cites.
unfoldable pub assert_cleanup_evidence :
    DecisionAuthorization → Bool → List SandboxRecoveryFrontierMember → Cleanup → Result (Unit {0})
unfolding record_with_id
assert_cleanup_evidence authorization sandbox_recovery frontier plan = do
  let evidence_ids = sorted_unique plan.runtime_delivery_record_ids
  let diagnostic_ids = sorted_unique plan.diagnostic_record_ids
  let new_diagnostic_ids = sorted_unique plan.new_diagnostic_record_ids
  let frontier_ids = map (λ (m : SandboxRecoveryFrontierMember). m.evidence.id) frontier
  trigger ←
      if sandbox_recovery
      then exact_sandbox_fatal_absence_delivery authorization.exact_records
      else ok none
  let cited =
      filter (λ id. not (contains id frontier_ids) && not (contains id (trigger_id trigger)))
        authorization.decision.input_record_ids
  throw_if
      (not (length evidence_ids == length plan.runtime_delivery_record_ids)
        || not (length diagnostic_ids == length plan.diagnostic_record_ids)
        || not (length new_diagnostic_ids == length plan.new_diagnostic_record_ids)
        || any (λ id. not (contains id diagnostic_ids)) new_diagnostic_ids
        || not (sort_texts (evidence_ids ++ diagnostic_ids) == sort_texts cited))
      "runtime cleanup decision must cite exactly its declared evidence records"
  evidence ←
      map_each
        (λ id.
          or_throw (record_with_id authorization.exact_records id)
            "runtime cleanup is missing DeliveryRecord ${id}")
        evidence_ids
  found ← exact_kernel_runtime_cleanup_deliveries evidence
  deliveries ←
      or_throw found
        "runtime cleanup requires exact confirmed Daytona create evidence for every target"
  throw_if (not (sort_texts (map (λ (d : DeliveryRecord). d.id) deliveries) == evidence_ids))
      "runtime cleanup requires exact confirmed Daytona create evidence for every target"
