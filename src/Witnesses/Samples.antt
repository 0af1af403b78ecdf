-- ===== src/Witnesses/Samples.antt =====
-- One run of one rule, with all that an export asks for.
use aicti.Base.{pos, ℕ, String, concat, true, none, some, List, [], ◌∷◌, err, map}
use aicti.Value.{Value, end, field, cons, nil}
use aicti.Db.{
  Db, DetectionSpec, GeneratedRule, PipelineRunRecord, ProofObligationRecord, GraphNode, GraphEdge,
  ReviewDecision, Artifact, empty,
}
use aicti.Validation.{obligation_definitions}
use aicti.Orchestrator.{Services}
use aicti.Proofs.Obligations.{
  ProofObligation, ProofObligationStatus, not_overbroad, not_applicable, proven,
}

abbrev pub uuid4 : ℕ → String
uuid4 n = "fresh"

abbrev pub rule : GeneratedRule
rule = record {
  id = "r";
  detection_spec_id = "s";
  rule_content = some "title: t";
  generation_source = "compiler";
  detection_ast_id = some "a1";
  compiled_sigma_id = some "c1";
}

abbrev pub spec : DetectionSpec
spec = record {
  id = "s";
  report_id = "rep";
  abstain_code = none;
  spec_payload = some "{}";
  is_validated = true;
}

abbrev pub run_record : PipelineRunRecord
run_record = record {
  id = "p1";
  run_id = "run";
  report_id = "rep";
  status = "ok";
  stage = "awaiting_review";
  detection_spec_id = some "s";
  rule_id = some "r";
}

abbrev pub proof : String → ProofObligationRecord
proof claim = record {
  id = concat "o-" claim;
  run_id = "run";
  rule_candidate_id = "r";
  claim_type = claim;
  status = "proven";
  justification = none;
}

abbrev pub approval : ReviewDecision
approval = record {
  id = "d1";
  rule_id = "r";
  run_id = "run";
  decision = "approved";
  reviewer = "ada";
  comments = "";
  created_at = 5;
}

abbrev node : String → String → String → String → GraphNode
node id node_type ref_table ref_id = record {
  id = id;
  run_id = "run";
  node_type = node_type;
  ref_table = ref_table;
  ref_id = ref_id;
  payload = end;
}

abbrev edge : String → String → String → String → GraphEdge
edge id source target edge_type = record {
  id = id;
  run_id = "run";
  source_node_id = source;
  target_node_id = target;
  edge_type = edge_type;
}

abbrev pub nodes : List GraphNode
nodes =
    node "n1" "report" "reports" "rep"
    ∷ node "n2" "evidence_quote" "evidence_spans" "e"
    ∷ node "n3" "detection_spec" "detection_specs" "s"
    ∷ node "n4" "generated_rule" "generated_rules" "r"
    ∷ node "n5" "validation_result" "validation_results" "v"
    ∷ node "n6" "proof_obligation" "proof_obligations" "o"
    ∷ node "n7" "review_decision" "review_decisions" "d1"
    ∷ []

abbrev pub edges : List GraphEdge
edges =
    edge "e1" "n1" "n2" "derived_from"
    ∷ edge "e2" "n2" "n3" "supports"
    ∷ edge "e3" "n3" "n4" "derived_from"
    ∷ edge "e4" "n4" "n5" "validated_by"
    ∷ edge "e5" "n5" "n6" "satisfies"
    ∷ edge "e6" "n4" "n7" "validated_by"
    ∷ []

abbrev pub artifacts : List Artifact
artifacts =
    record { id = "a-rep"; run_id = "run"; kind = "report"; payload = end }
    ∷ record {
      id = "a-rule";
      run_id = "run";
      kind = "generated_rule";
      payload = field "rule_id" (Value.text "r") end;
    }
    ∷ []

-- What the pipeline starts from.
abbrev pub new_report : Db
new_report = record empty {
  reports =
      record {
        id = "rep";
        source_type = "text";
        source_uri = "rep.txt";
        raw_text = "";
        content_hash = "h";
      }
      ∷ [];
  evidence_spans =
      record {
        id = "e";
        report_id = "rep";
        chunk_id = "c";
        quote = "q";
        char_start = pos 0;
        char_end = pos 1;
        run_id = "run";
        supports_claim = "c";
      }
      ∷ [];
  detection_specs = spec ∷ [];
  generated_rules = rule ∷ [];
}

-- What an export asks for.
abbrev pub ready : Db
ready = record new_report {
  pipeline_runs = run_record ∷ [];
  proof_obligations = map proof obligation_definitions;
  graph_nodes = nodes;
  graph_edges = edges;
  review_decisions = approval ∷ [];
  artifacts = artifacts;
  artifact_links =
      record {
        parent_artifact_id = "a-rep";
        child_artifact_id = "a-rule";
        link_type = "derived_from";
      }
      ∷ [];
}

-- The static gate passes, and the rule matches the attack and not the benign event.
abbrev pub services : Services
services = record {
  uuid4 = uuid4;
  json_loads =
      λ text. some (Value.dict (field "evidence_ids" (Value.list (cons (Value.text "e") nil)) end));
  generate_sigma_rule = λ spec_id db. (err "no generator", db);
  validate_rule = λ rule_id db. some true;
  run_synthetic_validation = λ content.
      some (record { true_positives = 1; false_positives = 0; attack_total = 1; benign_total = 1 });
}

abbrev pub link_parents : String → List String
link_parents id = "a-rep" ∷ []

abbrev obligation_with : ProofObligationStatus → ProofObligation
obligation_with status = record {
  run_id = "run";
  rule_candidate_id = "r";
  claim_type = not_overbroad;
  claim_text = "Rule is not overbroad.";
  required_artifact_types = [];
  status = status;
  justification = none;
}

abbrev pub open_obligation : ProofObligation
open_obligation = obligation_with not_applicable

abbrev pub met_obligation : ProofObligation
met_obligation = obligation_with proven

-- What a run on `new_report` returns.
abbrev pub finished : PipelineRunRecord
finished = record run_record { id = "fresh" }
