-- ===== src/Proofs/Obligations.antt =====
-- services/proof_obligation_service.py, schemas/proof_obligation.py and services/gates.py.
pub mod Gates
use aicti.Base.{
  String, Bool, true, false, Option, none, some, List, [], ◌∷◌, Result, ok, err, all, ◌||◌, ◌&&◌,
}
use aicti.Proofs.{is_justified}

pub data ProofObligationType : Type 0 where
  detects_report_behavior not_overbroad telemetry_fields_exist citation_faithful :
      ProofObligationType

pub data ProofObligationStatus : Type 0 where
  proven failed unknown not_applicable : ProofObligationStatus

pub record ProofObligation : Type 0 where
  pub run_id : String
  pub rule_candidate_id : String
  pub claim_type : ProofObligationType
  pub claim_text : String
  pub required_artifact_types : List String
  pub status : ProofObligationStatus
  pub justification : Option String

pub record ProofObligationError : Type 0 where
  pub claim_type : ProofObligationType
  pub status : ProofObligationStatus

-- What a new obligation has: the status is the schema's default.
new_obligation : String → String → ProofObligationType → String → String → ProofObligation
new_obligation rule_candidate_id run_id claim_type claim_text artifact = record {
  run_id = run_id;
  rule_candidate_id = rule_candidate_id;
  claim_type = claim_type;
  claim_text = claim_text;
  required_artifact_types = artifact ∷ [];
  status = unknown;
  justification = none;
}

pub generate_required : String → String → List ProofObligation
unfolding new_obligation
generate_required rule_id run_id =
    new_obligation rule_id run_id detects_report_behavior "Rule detects report behavior."
      "evidence_quote"
    ∷ new_obligation rule_id run_id not_overbroad "Rule is not overbroad." "false_positive_analysis"
    ∷ new_obligation rule_id run_id telemetry_fields_exist "Telemetry fields exist."
        "telemetry_registry_check"
    ∷ new_obligation rule_id run_id citation_faithful "Citations are faithful."
        "citation_verification"
    ∷ []

is_proven : ProofObligationStatus → Bool
is_proven proven = true
is_proven _ = false

is_not_applicable : ProofObligationStatus → Bool
is_not_applicable not_applicable = true
is_not_applicable _ = false

-- The two cases that go on to the next obligation.
unfoldable pub is_selectable : ProofObligation → Bool
unfolding is_proven is_not_applicable
is_selectable o = is_proven o.status || (is_not_applicable o.status && is_justified o.justification)

unfoldable pub verify_selectable : List ProofObligation → Result ProofObligationError Bool
unfolding is_selectable
verify_selectable [] = ok true
verify_selectable (o ∷ os) = elim (is_selectable o) [
  | true ↦ verify_selectable os
  | false ↦ err (record { claim_type = o.claim_type; status = o.status })
]

unfoldable pub can_enter_final_review : Bool → List ProofObligation → Bool
unfolding is_proven
can_enter_final_review false os = false
can_enter_final_review true os = all (λ o. is_proven o.status) os
