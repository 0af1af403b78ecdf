-- ===== src/Export.antt =====
-- services/compiler_provenance.py and services/export_eligibility.py: the one gate in front of an
-- export. `getattr(x, name, None)` of a row is the column, and `none` of no row.
pub mod Gates
pub mod Approval
use aicti.Base.{
  String, ◌==◌, Bool, true, false, ◌&&◌, not, Option, none, some, List, map, keep, first, concat,
  Result, ok, err, ◌>>◌, require,
}
use aicti.Db.{
  Db, PipelineRunRecord, GeneratedRule, DetectionSpec, ProofObligationRecord, ReviewDecision,
}
use aicti.Proofs.{ProofRow, assert_coverage_satisfied}
use aicti.Graph.{GraphError, assert_export_path_complete}
use aicti.Lineage.{LineageError, assert_rule_lineage_complete}
use aicti.Review.{get_latest_decision}

pub data CompilerProvenanceError : Type 0 where
  not_compiler_generated missing_ast missing_sigma placeholder_ast placeholder_sigma :
      CompilerProvenanceError

-- The codes of `ExportBlockedReason`.
pub data ExportBlockedReason : Type 0 where
  pipeline_run_missing rule_mapping_mismatch generated_rule_missing detection_spec_missing :
      ExportBlockedReason
  compiler_provenance_missing human_approval_required proof_coverage_missing : ExportBlockedReason
  evidence_graph_incomplete artifact_lineage_incomplete : ExportBlockedReason

-- The truth value of a text that may be null.
unfoldable pub is_set : Option String → Bool
is_set none = false
is_set (some s) = not (s == "")

unfoldable pub is_some_text : Option String → String → Bool
is_some_text none s = false
is_some_text (some t) s = t == s

unfoldable pub assert_rule_has_compiler_provenance :
    GeneratedRule → Result CompilerProvenanceError (Unit {0})
assert_rule_has_compiler_provenance rule = do
  require (rule.generation_source == "compiler") not_compiler_generated
  require (is_set rule.detection_ast_id) missing_ast
  require (is_set rule.compiled_sigma_id) missing_sigma
  require (not (is_some_text rule.detection_ast_id (concat "ast-" rule.id))) placeholder_ast
  require (not (is_some_text rule.compiled_sigma_id (concat "sigma-" rule.id))) placeholder_sigma

-- `ExportEligibilityRepository`.
pub record ExportEligibilityRepository : Type 0 where
  pub get_run : String → Option PipelineRunRecord
  pub get_rule : String → Option GeneratedRule
  pub get_detection_spec : Option String → Option DetectionSpec
  pub get_proof_rows : String → String → List ProofRow
  pub latest_review_decision : String → String → Option ReviewDecision
  pub assert_evidence_graph_complete : String → String → Result GraphError (Unit {0})
  pub assert_artifact_lineage_complete : String → String → Result LineageError (Unit {0})

unfoldable pub find_spec : List DetectionSpec → Option String → Option DetectionSpec
find_spec specs none = none
find_spec specs (some id) = first (λ s. s.id == id) specs

unfoldable pub to_proof_row : ProofObligationRecord → ProofRow
to_proof_row row = record {
  run_id = row.run_id;
  rule_candidate_id = row.rule_candidate_id;
  claim_type = row.claim_type;
  status = row.status;
  justification = row.justification;
}

-- `SqlAlchemyExportEligibilityRepository(db)`
unfoldable pub repository : Db → ExportEligibilityRepository
repository db = record {
  get_run = λ run_id. first (λ r. r.run_id == run_id) db.pipeline_runs;
  get_rule = λ rule_id. first (λ r. r.id == rule_id) db.generated_rules;
  get_detection_spec = find_spec db.detection_specs;
  get_proof_rows = λ run_id rule_id.
      map to_proof_row
        (keep (λ o. o.run_id == run_id && o.rule_candidate_id == rule_id) db.proof_obligations);
  latest_review_decision = λ run_id rule_id. get_latest_decision rule_id (some run_id) db;
  assert_evidence_graph_complete = λ run_id rule_id. assert_export_path_complete run_id rule_id db;
  assert_artifact_lineage_complete =
      λ run_id rule_id. assert_rule_lineage_complete run_id rule_id db;
}

-- `try: check() except E as exc: raise ExportBlockedReason(reason) from exc`
abbrev pub blocked_as :
    {E : Type 0} → ExportBlockedReason → Result E (Unit {0}) → Result ExportBlockedReason (Unit {0})
blocked_as reason (ok t) = ok t
blocked_as reason (err e) = err reason

unfoldable pub is_approved : Option ReviewDecision → Bool
is_approved none = false
is_approved (some d) = d.decision == "approved"

unfoldable pub is_validated_spec : Option DetectionSpec → Bool
is_validated_spec none = false
is_validated_spec (some s) = s.is_validated

module _ (repo : ExportEligibilityRepository) (run_id rule_id : String) where
  -- From the look at the decision on.
  unfoldable pub assert_reviewed : Result ExportBlockedReason (Unit {0})
  assert_reviewed = do
    require (is_approved (repo.latest_review_decision run_id rule_id)) human_approval_required
    blocked_as proof_coverage_missing
        (assert_coverage_satisfied run_id rule_id (repo.get_proof_rows run_id rule_id))
    blocked_as evidence_graph_incomplete (repo.assert_evidence_graph_complete run_id rule_id)
    blocked_as artifact_lineage_incomplete (repo.assert_artifact_lineage_complete run_id rule_id)

  unfoldable pub assert_rule :
      PipelineRunRecord → Option GeneratedRule → Result ExportBlockedReason (Unit {0})
  assert_rule run none = err generated_rule_missing
  assert_rule run (some rule) = do
    require (is_set rule.rule_content) generated_rule_missing
    require (is_validated_spec (repo.get_detection_spec run.detection_spec_id))
        detection_spec_missing
    blocked_as compiler_provenance_missing (assert_rule_has_compiler_provenance rule)
    assert_reviewed

  unfoldable pub assert_run : Option PipelineRunRecord → Result ExportBlockedReason (Unit {0})
  unfolding assert_rule
  assert_run none = err pipeline_run_missing
  assert_run (some run) = do
    require (is_some_text run.rule_id rule_id) rule_mapping_mismatch
    assert_rule run (repo.get_rule rule_id)

  unfoldable pub assert_exportable : Result ExportBlockedReason (Unit {0})
  assert_exportable = assert_run (repo.get_run run_id)
