-- ===== src/Orchestrator/Persistence.antt =====
-- `_persist_artifact_graph_path` of services/orchestrator.py: the graph of a validated rule.
pub mod Frame
use aicti.Base.{
  ℕ, suc, String, ◌==◌, ◌=?◌, Bool, true, false, ◌&&◌, not, Option, none, some, List, [], ◌∷◌, ◌++◌,
  keep, first, elem, text_lt, Result, ok, err, if◌then◌else◌,
}
use aicti.Value.{Value, Items, nil, cons, Fields, end, field, get}
use aicti.Db.{
  Db, Report, EvidenceSpan, DetectionSpec, GeneratedRule, OutcomeRow, PipelineRunRecord,
  ProofObligationRecord,
}
use aicti.Db.Action.{Action, ◌>>=◌, ◌>>◌, pure, raise, gets, require, modify}
use aicti.Graph.{upsert_node, add_edge, flush}
use aicti.Validation.{
  ValidationError, SyntheticValidationResult, dynamic_passed, record_static_validation,
  record_dynamic_validation, record_regression, generate_proof_obligations_from_artifacts,
  verify_persisted_proofs_selectable,
}
use aicti.Export.{is_set}
use aicti.Orchestrator.{
  PipelineError, report_required, evidence_required, single_spec_required, spec_required,
  rule_required, static_gate_failed, dynamic_gate_failed, proof_gate_failed, lineage_required,
  graph_failed, raised, Services, order_by_id, attempt, detection_spec_evidence_ids,
  remember_pipeline_run,
}

module _ (services : Services) (run_id : String) where
  link_evidence : String → String → List EvidenceSpan → Action PipelineError (Unit {0})
  link_evidence report_node spec_node [] = pure tt
  link_evidence report_node spec_node (evidence ∷ others) = do
    evidence_node ←
        upsert_node services.uuid4 run_id "evidence_quote" "evidence_spans" evidence.id (
          field "report_id" (Value.text evidence.report_id)
            (field "supports_claim" (Value.text evidence.supports_claim) end))
    first_edge ← add_edge services.uuid4 run_id report_node evidence_node "derived_from"
    second_edge ← add_edge services.uuid4 run_id evidence_node spec_node "supports"
    link_evidence report_node spec_node others

  link_validations : String → List OutcomeRow → Action PipelineError (List String)
  link_validations rule_node [] = pure []
  link_validations rule_node (validation ∷ others) = do
    validation_node ←
        upsert_node services.uuid4 run_id "validation_result" "validation_results" validation.id
          (field "status" (Value.text validation.status) end)
    edge ← add_edge services.uuid4 run_id rule_node validation_node "validated_by"
    nodes ← link_validations rule_node others
    pure (validation_node ∷ nodes)

  link_satisfied : String → List String → Action PipelineError (Unit {0})
  link_satisfied proof_node [] = pure tt
  link_satisfied proof_node (validation_node ∷ others) = do
    edge ← add_edge services.uuid4 run_id validation_node proof_node "satisfies"
    link_satisfied proof_node others

  link_proofs : List String → List ProofObligationRecord → Action PipelineError (Unit {0})
  unfolding link_satisfied
  link_proofs validation_nodes [] = pure tt
  link_proofs validation_nodes (proof ∷ others) = do
    proof_node ← upsert_node services.uuid4 run_id "proof_obligation" "proof_obligations" proof.id (
        field "claim_type" (Value.text proof.claim_type)
          (field "status" (Value.text proof.status) end))
    done ← link_satisfied proof_node validation_nodes
    link_proofs validation_nodes others

  validation_rows_of : String → Db → List OutcomeRow
  validation_rows_of rule_id db =
      keep (λ v. v.run_id == run_id && v.rule_id == rule_id) db.validation_results

  proof_rows_of : String → Db → List ProofObligationRecord
  proof_rows_of rule_id db =
      keep (λ p. p.run_id == run_id && p.rule_candidate_id == rule_id) db.proof_obligations

  -- From `graph = EvidenceGraphService(self.db)` on.
  persist_path :
      Report → List EvidenceSpan → DetectionSpec → GeneratedRule → Action PipelineError (Unit {0})
  unfolding link_evidence link_validations link_proofs validation_rows_of proof_rows_of
  persist_path report supported spec rule = do
    report_node ←
        upsert_node services.uuid4 run_id "report" "reports" report.id
          (field "source_type" (Value.text report.source_type) end)
    spec_node ←
        upsert_node services.uuid4 run_id "detection_spec" "detection_specs" spec.id
          (field "validated" (Value.bool spec.is_validated) end)
    rule_node ←
        upsert_node services.uuid4 run_id "generated_rule" "generated_rules" rule.id
          (field "detection_spec_id" (Value.text spec.id) end)
    linked ← link_evidence report_node spec_node supported
    edge ← add_edge services.uuid4 run_id spec_node rule_node "derived_from"
    validation_rows ← gets (validation_rows_of rule.id)
    validation_nodes ← link_validations rule_node validation_rows
    proof_rows ← gets (proof_rows_of rule.id)
    satisfied ← link_proofs validation_nodes proof_rows
    modify flush

  persist_supported :
      Report → DetectionSpec → GeneratedRule → List EvidenceSpan → Action PipelineError (Unit {0})
  unfolding persist_path
  persist_supported report spec rule [] = raise lineage_required
  persist_supported report spec rule (evidence ∷ others) =
      persist_path report (evidence ∷ others) spec rule

  unfoldable pub persist_artifact_graph_path :
      Report → List EvidenceSpan → DetectionSpec → GeneratedRule → Action PipelineError (Unit {0})
  unfolding persist_supported
  persist_artifact_graph_path report evidence_rows spec rule =
      elim (detection_spec_evidence_ids services.json_loads spec) [
        | none ↦ raise graph_failed
        | some ids ↦
            persist_supported report spec rule
              (keep (λ (e : EvidenceSpan). elem ◌==◌ e.id ids) evidence_rows)
      ]
