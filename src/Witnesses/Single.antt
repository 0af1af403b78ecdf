-- ===== src/Witnesses/Single.antt =====
-- One specification that comes to review.
use aicti.Base.{String, ◌==◌, ◌≡◌, refl, true, none, some, [], ◌∷◌, first, ok, err, split_once}
use aicti.Value.{Value, end}
use aicti.Db.{Db, DetectionSpec, GeneratedRule, OutcomeRow, MemoryView, empty}
use aicti.Export.{is_set}
use aicti.AgentAudit.{persist_agent_run, add_agent_run}
use aicti.Memory.Policy.{
  require_memory_contract, available_namespaces, latest_payload_namespaces, add_namespace,
  namespace_from_scope, second_part, stage_contract_missing, contract_of, none_missing,
}
use aicti.Orchestrator.Gates.{
  awaiting_review, gates, require_evaluation_depth_passed, require_proof_obligations_proven,
}
use aicti.Orchestrator.Single.{
  SingleServices, run_pipeline, check_spec, is_none, require_contract, as_single, audit,
  find_or_generate, static_gate, verdict, review_gates, validated, with_rule, with_rules, with_spec,
}
use aicti.Orchestrator.Single.Reviewable.{IsReady, IsRuleOf, Passed, run_pipeline-Passed}
use aicti.Witnesses.Components.{sample_library}
use aicti.Witnesses.Samples.{uuid4}

abbrev services : SingleServices
services = record {
  library = sample_library;
  like = λ scope pattern. true;
  uuid4 = uuid4;
  generate_sigma_rule = λ id db. (err "no generator", db);
  validate_rule = λ id db. some (record { is_valid = true; issues = [] });
}

abbrev passed_outcome : OutcomeRow
passed_outcome = record { id = "v"; rule_id = "r"; run_id = "s"; status = "passed" }

abbrev draft_view : String → MemoryView
draft_view scope = record { scope = scope; key = "latest"; value = some (Value.dict end) }

abbrev prepared : Db
prepared = record empty {
  detection_specs =
      (record {
        id = "s";
        report_id = "rep";
        abstain_code = none;
        spec_payload = some "payload";
        is_validated = true;
      })
      ∷ [];
  generated_rules =
      (record {
        id = "r";
        detection_spec_id = "s";
        rule_content = some "title: t";
        generation_source = "compiler";
        detection_ast_id = none;
        compiled_sigma_id = none;
      })
      ∷ [];
  validation_results = passed_outcome ∷ passed_outcome ∷ passed_outcome ∷ passed_outcome ∷ [];
  proof_obligations =
      (record {
        id = "o";
        run_id = "s";
        rule_candidate_id = "r";
        claim_type = "not_overbroad";
        status = "proven";
        justification = none;
      })
      ∷ [];
  memory_views = draft_view "s:detection_spec.draft" ∷ draft_view "s:rule_generation.draft" ∷ [];
}

prepared-run_pipeline : (run_pipeline services "s" prepared).0 ≡ ok awaiting_review
unfolding run_pipeline check_spec is_none require_contract as_single audit find_or_generate
    static_gate verdict review_gates validated with_rule with_rules with_spec is_set
    require_memory_contract available_namespaces latest_payload_namespaces add_namespace
    namespace_from_scope second_part stage_contract_missing contract_of none_missing split_once
    gates require_evaluation_depth_passed require_proof_obligations_proven persist_agent_run
    add_agent_run
prepared-run_pipeline = refl

run_pipeline-Passed_example :
    IsReady (first (λ (s : DetectionSpec). s.id == "s") prepared.detection_specs)
    × ((rule : GeneratedRule) × (before : Db) × IsRuleOf services "s" rule prepared before
        × Passed services "s" awaiting_review rule.id before (run_pipeline services "s" prepared).1)
run_pipeline-Passed_example =
    run_pipeline-Passed services "s" prepared awaiting_review prepared-run_pipeline
