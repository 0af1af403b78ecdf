-- ===== src/Witnesses.antt =====
-- Instances of the theorems on small databases.
pub mod Samples
pub mod Runs
pub mod Components
pub mod Single
pub mod Reports
pub mod Rules
use mathlib.Core.List.{Memᴰ}
use aicti.Base.{
  ℕ, String, ◌==◌, concat, strip, is_space, ◌≡◌, ◌≢◌, refl, ◌↔◌, Bool, true, false, ◌&&◌, Option,
  none, some, List, [], ◌∷◌, ◌++◌, all, ok, err, first, length, ◌+◌, ◌≤◌, elem, if◌then◌else◌,
}
use aicti.Value.{end}
use aicti.Db.{Db, Report, GraphNode, GraphEdge, ReviewDecision, ProofObligationRecord, empty}
use aicti.Run.{
  RunState, RunMode, created, ingested, awaiting_review, approved, rejected, auto, failed,
  transition, illegal_transition, run_golden_path,
}
use aicti.Run.Paths.{follow, route, rank, length-follow-le-rank, follow-approved_iff, golden_end}
use aicti.Proofs.{assert_coverage_satisfied, ProofRow}
use aicti.Proofs.Coverage.{assert_coverage_satisfied_iff, is_covered, distinct_claims}
use aicti.Proofs.Obligations.{
  ProofObligation, verify_selectable, can_enter_final_review, generate_required, is_selectable,
}
use aicti.Validation.{
  proof_rows, has_rule, generate_proof_obligations_from_artifacts,
  verify_persisted_proofs_selectable, all_required_artifacts_passed,
}
use aicti.Validation.Derived.{fresh_rows}
use aicti.Validation.Gate.{generate-verify_iff, generate_twice-verify, is_untouched}
use aicti.Graph.{
  GraphError, path_incomplete, assert_export_path_complete, has_required_upstream_path,
  is_rule_node, check_rule_node, run_nodes, run_edges,
}
use aicti.Graph.Path.{UpstreamPath}
use aicti.Graph.Upstream.{has_required_upstream_path_iff}
use aicti.Graph.Export.{ExportPath, assert_export_path_complete_iff}
use aicti.Lineage.{has_report_ancestor, artifact_by_id}
use aicti.Lineage.Ancestry.{has_report_ancestor_iff}
use aicti.Review.{record_decision, get_latest_decision, reviewer_required, is_human}
use aicti.Review.Decisions.{record_decision-get_latest_decision, decision_row}
use aicti.Export.Approval.{record_decision-is_human_decision, is_human_decision}
use aicti.Base.{all}
use aicti.Export.{repository, assert_exportable}
use aicti.Orchestrator.Pipeline.Handover.{run_report_pipeline-assert_coverage_satisfied}
use aicti.Witnesses.Runs.{ready-assert_exportable, finished-run_report_pipeline}
use aicti.Witnesses.Samples.{finished}
use aicti.Graph.Upsert.{upsert_node-flush, second_id, rows_added}
use aicti.Graph.{upsert_node, flush, same_node}
use aicti.Value.{end}
use aicti.Export.Gates.{Exportable, assert_exportable_iff}
use aicti.Export.Approval.{
  assert_exportable-human, assert_exportable-artifacts, record_decision-assert_exportable,
}
use aicti.Orchestrator.{Services}
use aicti.Orchestrator.Pipeline.{run_report_pipeline}
use aicti.Orchestrator.Pipeline.Endings.{Ends}
use aicti.Orchestrator.Pipeline.Outcomes.{run_report_pipeline-Ends}
use aicti.Witnesses.Samples.{
  uuid4, ready, new_report, services, nodes, edges, artifacts, link_parents, open_obligation,
  met_obligation,
}
use aicti.Search.Correct.{Walk}
use aicti.Lineage.Ancestry.{is_report, has_report_parent, known_parents}
use aicti.Export.Approval.{is_human_decision}
use aicti.Review.Decisions.{all_before}

assert_exportable_iff_example :
    (assert_exportable (repository ready) "run" "r" ≡ ok tt)
    ↔ Exportable (repository ready) "run" "r"
assert_exportable_iff_example = assert_exportable_iff (repository ready) "run" "r"

run_report_pipeline-Ends_example :
    let (r, db') = run_report_pipeline services "run" "rep" new_report in Ends "run" "rep" r db'
run_report_pipeline-Ends_example = run_report_pipeline-Ends services "run" "rep" new_report

assert_export_path_complete_iff_example : (assert_export_path_complete "run" "r" ready ≡ ok tt) ↔ (
    (rule : GraphNode) × (first (is_rule_node "r") (run_nodes "run" ready) ≡ some rule)
    × ExportPath (run_nodes "run" ready) (run_edges "run" ready) rule)
assert_export_path_complete_iff_example = assert_export_path_complete_iff "run" "r" ready

assert_coverage_satisfied_iff_example :
    (assert_coverage_satisfied "run" "r" (proof_rows "run" "r" ready) ≡ ok tt)
    ↔ (is_covered "run" "r" (proof_rows "run" "r" ready) ≡ true)
assert_coverage_satisfied_iff_example =
    assert_coverage_satisfied_iff "run" "r" (proof_rows "run" "r" ready)

generate-verify_iff_example :
    ((verify_persisted_proofs_selectable "run" "r"
        (generate_proof_obligations_from_artifacts uuid4 "run" "r" new_report).1).0
      ≡ ok true)
    ↔ ((all_required_artifacts_passed "run" "r" new_report
          && (distinct_claims (proof_rows "run" "r" new_report)
              && is_untouched (proof_rows "run" "r" new_report)))
        ≡ true)
unfolding has_rule
generate-verify_iff_example = generate-verify_iff "run" "r" uuid4 new_report refl

assert_exportable-human_example :
    (d : ReviewDecision) × Memᴰ d ready.review_decisions
    × (d.rule_id ≡ "r")
    × (d.run_id ≡ "run")
    × (d.decision ≡ "approved")
    × (is_human d.reviewer ≡ true)
unfolding is_human is_space
assert_exportable-human_example =
    assert_exportable-human "run" "r" ready refl ready-assert_exportable

record_decision-get_latest_decision_example :
    ((record_decision uuid4 6 "r" "rejected" "bob" "run" "" ready).0 ≡ ok "fresh")
    × (get_latest_decision "r" none (record_decision uuid4 6 "r" "rejected" "bob" "run" "" ready).1
        ≡ some (decision_row 6 "fresh" "r" "rejected" "bob" "run" ""))
unfolding is_human strip is_space
record_decision-get_latest_decision_example =
    record_decision-get_latest_decision uuid4 6 "r" "rejected" "bob" "run" "" ready refl refl refl
      none refl

follow-approved_iff_example :
    (follow awaiting_review (approved ∷ []) ≡ ok approved)
    ↔ (route awaiting_review ≡ some (approved ∷ []))
follow-approved_iff_example = follow-approved_iff awaiting_review (approved ∷ [])

has_required_upstream_path_iff_example :
    ((b : Bool) × (has_required_upstream_path nodes edges "n4" ≡ some b))
    × ((has_required_upstream_path nodes edges "n4" ≡ some true) ↔ UpstreamPath nodes edges "n4")
has_required_upstream_path_iff_example = has_required_upstream_path_iff nodes edges "n4"

has_report_ancestor_iff_example :
    ((b : Bool) × (has_report_ancestor artifacts link_parents "a-rule" ≡ some b))
    × ((has_report_ancestor artifacts link_parents "a-rule" ≡ some true) ↔ (
        (p : String) × Walk ◌==◌ (known_parents artifacts link_parents) "a-rule" p
        × (has_report_parent artifacts link_parents p ≡ true)))
unfolding artifact_by_id
has_report_ancestor_iff_example = has_report_ancestor_iff artifacts link_parents "a-rule" refl

assert_exportable-artifacts_example : assert_exportable (repository new_report) "run" "r" ≢ ok tt
assert_exportable-artifacts_example = assert_exportable-artifacts "run" "r" new_report refl

generate_twice-verify_example :
    (verify_persisted_proofs_selectable "run" "r"
      (generate_proof_obligations_from_artifacts uuid4 "run" "r"
        (generate_proof_obligations_from_artifacts uuid4 "run" "r" new_report).1).1).0
    ≢ ok true
unfolding has_rule
generate_twice-verify_example = generate_twice-verify "run" "r" uuid4 new_report refl

length-follow-le-rank_example : length (ingested ∷ []) + rank ingested ≤ rank created
unfolding follow transition
length-follow-le-rank_example = length-follow-le-rank created ingested (ingested ∷ []) refl

run_report_pipeline-assert_coverage_satisfied_example :
    (rule_id : String) × (some "r" ≡ some rule_id)
    × (assert_coverage_satisfied "run" rule_id (
          (repository (run_report_pipeline services "run" "rep" new_report).1).get_proof_rows "run"
            rule_id)
        ≡ ok tt)
run_report_pipeline-assert_coverage_satisfied_example =
    run_report_pipeline-assert_coverage_satisfied services "run" "rep" new_report finished
      finished-run_report_pipeline refl

record_decision-is_human_decision_example :
    all is_human_decision
      (record_decision uuid4 6 "r" "rejected" " ada " "run" "" ready).1.review_decisions
    ≡ true
unfolding is_human is_space
record_decision-is_human_decision_example =
    record_decision-is_human_decision uuid4 6 "r" "rejected" " ada " "run" "" ready refl

upsert_node-flush_example :
    (let (r, db') =
        upsert_node uuid4 {E = GraphError} "run" "report" "reports" "rep" end new_report in
      let (r', db'') =
        upsert_node uuid4 {E = GraphError} "run" "report" "reports" "rep" end (flush db') in
      (r' ≡ r)
      × (db''.draws ≡ db'.draws)
      × (length db''.graph_nodes ≡ length (flush db').graph_nodes)
      × (db''.added_nodes ≡ []))
    × (let (r', db'') =
          upsert_node uuid4 {E = GraphError} "run" "report" "reports" "rep" end
            (upsert_node uuid4 {E = GraphError} "run" "report" "reports" "rep" end new_report).1 in
        (r'
          ≡ ok (
              second_id uuid4
                (first (same_node "run" "report" "reports" "rep") new_report.graph_nodes)
                new_report.draws))
        × (length db''.added_nodes
            ≡ length new_report.added_nodes
              + rows_added
                  (first (same_node "run" "report" "reports" "rep") new_report.graph_nodes)))
upsert_node-flush_example =
    upsert_node-flush "run" "report" "reports" "rep" uuid4 GraphError end end new_report refl

record_decision-assert_exportable_example :
    assert_exportable
      (repository
        (record (record_decision uuid4 6 "r" "rejected" " ada " "run" "" ready).1 { draws = 9 }))
      "run"
      "r"
    ≢ ok tt
unfolding is_human strip is_space
record_decision-assert_exportable_example =
    record_decision-assert_exportable uuid4 6 "r" "rejected" " ada " "run" "" ready refl refl refl
      refl (record (record_decision uuid4 6 "r" "rejected" " ada " "run" "" ready).1 { draws = 9 })
      refl
