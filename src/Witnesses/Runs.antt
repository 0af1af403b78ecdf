-- ===== src/Witnesses/Runs.antt =====
-- Runs of the export gate and of the pipeline on the small databases.
use aicti.Base.{ok, err, ◌≡◌, refl}
use aicti.Value.{is_text, get}
use aicti.Export.{
  repository, assert_exportable, find_spec, to_proof_row, is_some_text, is_set, is_validated_spec,
  is_approved, assert_run, assert_rule, assert_reviewed, assert_rule_has_compiler_provenance,
}
use aicti.Orchestrator.{attempt, remember_pipeline_run, detection_spec_evidence_ids, order_by_id}
use aicti.Orchestrator.Pipeline.{run_report_pipeline, fail, prove}
use aicti.Orchestrator.Persistence.{persist_artifact_graph_path}
use aicti.Validation.{
  record_static_validation, record_dynamic_validation, record_regression,
  generate_proof_obligations_from_artifacts, verify_persisted_proofs_selectable, has_rule, has_run,
  passed_or_failed, dynamic_passed, is_passed, has_passed_static_validation,
  has_passed_dynamic_validation, has_passed_regression, all_required_artifacts_passed, obligation,
  selectable, proof_rows, is_obligation_of,
}
use aicti.Graph.{upsert_node, add_edge, flush, same_node, same_edge, set_payload}
use aicti.Export.{is_set}
use aicti.Proofs.{assert_coverage_satisfied, is_current, has_claim, accepts}
use aicti.Review.{get_latest_decision, latest_of}
use aicti.Graph.{
  assert_export_path_complete, check_rule_node, node_by_id, arc, arc_from, adjacency, leads,
  target_if, targets, states, same_state, expand, is_rule, is_rule_node, has_required_upstream_path,
}
use aicti.Search.{run, push}
use aicti.Lineage.{
  assert_rule_lineage_complete, artifact_by_id, is_rule_artifact, is_inner_link, parents_by_child,
  has_report_ancestor, scan,
}
use aicti.Orchestrator.{proof_gate_failed}
use aicti.Witnesses.Samples.{ready, services, new_report, finished}

pub ready-assert_exportable : assert_exportable (repository ready) "run" "r" ≡ ok tt
unfolding assert_exportable repository find_spec to_proof_row is_some_text is_set is_validated_spec
    is_approved assert_run assert_rule assert_reviewed assert_rule_has_compiler_provenance
    assert_coverage_satisfied is_current has_claim accepts get_latest_decision latest_of
    assert_export_path_complete check_rule_node node_by_id arc arc_from adjacency leads target_if
    targets states same_state expand is_rule is_rule_node has_required_upstream_path run push
    assert_rule_lineage_complete artifact_by_id is_text get is_rule_artifact is_inner_link
    parents_by_child has_report_ancestor scan
ready-assert_exportable = refl

pub finished-run_report_pipeline :
    (run_report_pipeline services "run" "rep" new_report).0 ≡ ok finished
unfolding run_report_pipeline attempt fail remember_pipeline_run prove persist_artifact_graph_path
    detection_spec_evidence_ids order_by_id is_set get record_static_validation
    record_dynamic_validation record_regression generate_proof_obligations_from_artifacts
    verify_persisted_proofs_selectable has_rule has_run passed_or_failed dynamic_passed is_passed
    has_passed_static_validation has_passed_dynamic_validation has_passed_regression
    all_required_artifacts_passed obligation selectable proof_rows is_obligation_of
    assert_coverage_satisfied is_current has_claim accepts upsert_node add_edge flush same_node
    same_edge set_payload
finished-run_report_pipeline = refl

-- The same run again, now with two sets of obligations.
rerun :
    (run_report_pipeline services "run" "rep"
      (run_report_pipeline services "run" "rep" new_report).1).0
    ≡ err proof_gate_failed
unfolding run_report_pipeline attempt fail remember_pipeline_run prove persist_artifact_graph_path
    detection_spec_evidence_ids order_by_id is_set get record_static_validation
    record_dynamic_validation record_regression generate_proof_obligations_from_artifacts
    verify_persisted_proofs_selectable has_rule has_run passed_or_failed dynamic_passed is_passed
    has_passed_static_validation has_passed_dynamic_validation has_passed_regression
    all_required_artifacts_passed obligation selectable proof_rows is_obligation_of
    assert_coverage_satisfied is_current has_claim accepts upsert_node add_edge flush same_node
    same_edge set_payload
rerun = refl
