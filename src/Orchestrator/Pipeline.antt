-- ===== src/Orchestrator/Pipeline.antt =====
-- `run_report_pipeline` of services/orchestrator.py: from a stored report to the review, one gate
-- after the other.
pub mod Endings
pub mod Outcomes
pub mod Handover
use aicti.Base.{
  ℕ, suc, String, ◌==◌, ◌=?◌, Bool, true, false, ◌&&◌, not, Option, none, some, List, [], ◌∷◌, ◌++◌,
  keep, first, elem, text_lt, Result, ok, err, if◌then◌else◌,
}
use aicti.Value.{Value, Items, nil, cons, Fields, end, field, get}
use aicti.Db.{
  Db, Report, EvidenceSpan, DetectionSpec, GeneratedRule, OutcomeRow, PipelineRunRecord,
  ProofObligationRecord,
}
use aicti.Db.Action.{Action, ◌>>=◌, ◌>>◌, pure, raise, gets, require}
use aicti.Graph.{upsert_node, add_edge}
use aicti.Validation.{
  ValidationError, SyntheticValidationResult, dynamic_passed, record_static_validation,
  record_dynamic_validation, record_regression, generate_proof_obligations_from_artifacts,
  verify_persisted_proofs_selectable,
}
use aicti.Export.{is_set}
use aicti.Orchestrator.{
  PipelineError, report_required, evidence_required, single_spec_required, spec_required,
  rule_required, static_gate_failed, dynamic_gate_failed, proof_gate_failed, lineage_required,
  graph_failed, raised, Services, order_by_id, attempt, detection_spec_evidence_ids,
  remember_pipeline_run,
}
use aicti.Orchestrator.Persistence.{persist_artifact_graph_path}

module _ (services : Services) (run_id report_id : String) where
  -- `self._remember_pipeline_run(status="failed", ...)` and the raise after it.
  unfoldable pub fail :
      String
      → Option String
      → Option String
      → PipelineError
      → Action PipelineError PipelineRunRecord
  fail stage spec_id rule_id error = do
    failed ← remember_pipeline_run services run_id report_id "failed" stage spec_id rule_id
    raise error

  -- The stages, the last one first.
  persist_stage :
      Report
      → List EvidenceSpan
      → DetectionSpec
      → GeneratedRule
      → Action PipelineError PipelineRunRecord
  unfolding fail
  persist_stage report evidence_rows spec rule =
      attempt (persist_artifact_graph_path services run_id report evidence_rows spec rule)
        (fail "graph_persistence_failed" (some spec.id) (some rule.id) graph_failed)
        (λ done.
          remember_pipeline_run services run_id report_id "ok" "awaiting_review" (some spec.id)
            (some rule.id))

  -- The body of the third `try`.
  unfoldable pub prove : GeneratedRule → Action ValidationError Bool
  prove rule = do
    regression ← record_regression services.uuid4 run_id rule.id true
    obligations ← generate_proof_obligations_from_artifacts services.uuid4 run_id rule.id
    verify_persisted_proofs_selectable run_id rule.id

  proof_stage :
      Report
      → List EvidenceSpan
      → DetectionSpec
      → GeneratedRule
      → Action PipelineError PipelineRunRecord
  unfolding persist_stage prove
  proof_stage report evidence_rows spec rule =
      attempt (prove rule)
        (fail "proof_validation_failed" (some spec.id) (some rule.id) proof_gate_failed)
        (λ selectable. persist_stage report evidence_rows spec rule)

  dynamic_stage :
      Report
      → List EvidenceSpan
      → DetectionSpec
      → GeneratedRule
      → Action PipelineError PipelineRunRecord
  unfolding proof_stage
  dynamic_stage report evidence_rows spec rule =
      let failed =
        fail "dynamic_validation_failed" (some spec.id) (some rule.id) dynamic_gate_failed in
      elim (services.run_synthetic_validation rule.rule_content) [
        | none ↦ failed
        | some result ↦
            attempt (record_dynamic_validation services.uuid4 run_id rule.id result) failed
              (λ recorded. elim (dynamic_passed result) [
                | true ↦ proof_stage report evidence_rows spec rule
                | false ↦ failed
              ])
      ]

  static_stage :
      Report
      → List EvidenceSpan
      → DetectionSpec
      → GeneratedRule
      → Option Bool
      → Action PipelineError PipelineRunRecord
  unfolding dynamic_stage
  static_stage report evidence_rows spec rule none =
      fail "static_validation_failed" (some spec.id) (some rule.id) static_gate_failed
  static_stage report evidence_rows spec rule (some is_valid) =
      attempt (record_static_validation services.uuid4 run_id rule.id is_valid)
        (fail "static_validation_failed" (some spec.id) (some rule.id) static_gate_failed)
        (λ recorded. elim is_valid [
          | true ↦ dynamic_stage report evidence_rows spec rule
          | false ↦ fail "static_validation_failed" (some spec.id) (some rule.id) static_gate_failed
        ])

  -- `if rule is None or not rule.rule_content`
  rule_stage :
      Report
      → List EvidenceSpan
      → DetectionSpec
      → Option GeneratedRule
      → Action PipelineError PipelineRunRecord
  unfolding static_stage
  rule_stage report evidence_rows spec none =
      fail "rule_generation_failed" (some spec.id) none rule_required
  rule_stage report evidence_rows spec (some rule) = elim (is_set rule.rule_content) [
    | false ↦ fail "rule_generation_failed" (some spec.id) none rule_required
    | true ↦ do
      running ←
          remember_pipeline_run services run_id report_id "running" "validation_in_progress"
            (some spec.id) (some rule.id)
      validation ← gets (services.validate_rule rule.id)
      static_stage report evidence_rows spec rule validation
  ]

  generate : Report → List EvidenceSpan → DetectionSpec → Action PipelineError PipelineRunRecord
  unfolding rule_stage
  generate report evidence_rows spec db =
      let (r, db') = services.generate_sigma_rule spec.id db in
      elim r [
        | err text ↦ (err (raised text), db')
        | ok rule_id ↦
            rule_stage report evidence_rows spec
              (first (λ (g : GeneratedRule). g.id == rule_id) db'.generated_rules) db'
      ]

  find_rule :
      Report
      → List EvidenceSpan
      → DetectionSpec
      → List GeneratedRule
      → Action PipelineError PipelineRunRecord
  unfolding generate
  find_rule report evidence_rows spec [] = generate report evidence_rows spec
  find_rule report evidence_rows spec (rule ∷ others) =
      rule_stage report evidence_rows spec (some rule)

  populated_rules : DetectionSpec → Db → List GeneratedRule
  populated_rules spec db =
      keep (λ (r : GeneratedRule). is_set r.rule_content)
        (order_by_id (λ (r : GeneratedRule). r.id)
          (keep (λ r. r.detection_spec_id == spec.id) db.generated_rules))

  single_spec_stage :
      Report → List EvidenceSpan → DetectionSpec → Action PipelineError PipelineRunRecord
  unfolding find_rule populated_rules
  single_spec_stage report evidence_rows spec = elim spec.abstain_code [
    | some code ↦
        remember_pipeline_run services run_id report_id "abstain" "detection_spec" (some spec.id)
          none
    | none ↦ elim (is_set spec.spec_payload) [
      | false ↦ fail "detection_spec_required" (some spec.id) none spec_required
      | true ↦ do rules ← gets (populated_rules spec); find_rule report evidence_rows spec rules
    ]
  ]

  spec_stage :
      Report → List EvidenceSpan → List DetectionSpec → Action PipelineError PipelineRunRecord
  unfolding single_spec_stage
  spec_stage report evidence_rows [] = fail "detection_spec_missing" none none spec_required
  spec_stage report evidence_rows (spec ∷ []) = single_spec_stage report evidence_rows spec
  spec_stage report evidence_rows (spec ∷ other ∷ others) =
      fail "detection_spec_ambiguous" (some spec.id) none single_spec_required

  specs_of : Db → List DetectionSpec
  specs_of db =
      order_by_id (λ (s : DetectionSpec). s.id)
        (keep (λ (s : DetectionSpec). s.report_id == report_id && s.is_validated)
          db.detection_specs)

  evidence_stage : Report → List EvidenceSpan → Action PipelineError PipelineRunRecord
  unfolding spec_stage specs_of
  evidence_stage report [] = fail "evidence_required" none none evidence_required
  evidence_stage report (evidence ∷ others) = do
    specs ← gets specs_of
    spec_stage report (evidence ∷ others) specs

  report_stage : Option Report → Action PipelineError PipelineRunRecord
  unfolding evidence_stage
  report_stage none = fail "report_not_found" none none report_required
  report_stage (some report) = do
    evidence_rows ←
        gets (λ db. keep (λ (e : EvidenceSpan). e.report_id == report_id) db.evidence_spans)
    evidence_stage report evidence_rows

  unfoldable pub run_report_pipeline : Action PipelineError PipelineRunRecord
  unfolding report_stage
  run_report_pipeline = do
    report ← gets (λ db. first (λ (r : Report). r.id == report_id) db.reports)
    report_stage report
