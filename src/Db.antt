-- ===== src/Db.antt =====
-- models/contract.py and models/artifact.py: the tables that the services read and write, as lists
-- of rows in the order of insertion. A row has the columns of its class but for those that are
-- written and never read by the services modelled here: `created_at` and `updated_at` where no
-- query orders by them, and the encoded `details_json`, `result_json`, `claim_text` and
-- `required_artifact_types`. `draws` counts the calls of `uuid4` so far.
pub mod Action
pub mod Keeps
use aicti.Base.{false, ℕ, ℤ, String, Bool, Option, List, []}
use aicti.Value.{Value, Fields}

pub record Report : Type 0 where
  pub id : String
  pub source_type : String
  pub source_uri : String
  pub raw_text : String
  pub content_hash : String

pub record ReportChunk : Type 0 where
  pub id : String
  pub report_id : String
  pub chunk_index : ℕ
  pub chunk_text : String
  pub char_start : ℕ
  pub char_end : ℕ

pub record EvidenceSpan : Type 0 where
  pub id : String
  pub report_id : String
  pub chunk_id : String
  pub quote : String
  pub char_start : ℤ
  pub char_end : ℤ
  pub run_id : String
  pub supports_claim : String

pub record DetectionSpec : Type 0 where
  pub id : String
  pub report_id : String
  pub abstain_code : Option String
  pub spec_payload : Option String
  pub is_validated : Bool

pub record GeneratedRule : Type 0 where
  pub id : String
  pub detection_spec_id : String
  pub rule_content : Option String
  pub generation_source : String
  pub detection_ast_id : Option String
  pub compiled_sigma_id : Option String

-- A row of `validation_results`, `test_runs` or `regression_runs`.
pub record OutcomeRow : Type 0 where
  pub id : String
  pub rule_id : String
  pub run_id : String
  pub status : String

pub record PipelineRunRecord : Type 0 where
  pub id : String
  pub run_id : String
  pub report_id : String
  pub status : String
  pub stage : String
  pub detection_spec_id : Option String
  pub rule_id : Option String

pub record ProofObligationRecord : Type 0 where
  pub id : String
  pub run_id : String
  pub rule_candidate_id : String
  pub claim_type : String
  pub status : String
  pub justification : Option String

pub record GraphNode : Type 0 where
  pub id : String
  pub run_id : String
  pub node_type : String
  pub ref_table : String
  pub ref_id : String
  pub payload : Fields

pub record GraphEdge : Type 0 where
  pub id : String
  pub run_id : String
  pub source_node_id : String
  pub target_node_id : String
  pub edge_type : String

-- `created_at` is the number that `time_ns` gave, printed with twenty digits.
pub record ReviewDecision : Type 0 where
  pub id : String
  pub rule_id : String
  pub run_id : String
  pub decision : String
  pub reviewer : String
  pub comments : String
  pub created_at : ℕ

-- `value` is the decoded text, and `none` where the text is no JSON.
pub record MemoryView : Type 0 where
  pub scope : String
  pub key : String
  pub value : Option Value

-- `key` is the number that its text prints; `value` is as above.
pub record MemoryEvent : Type 0 where
  pub id : String
  pub scope : String
  pub key : ℕ
  pub value : Option Value

-- A row of `agent_runs`.
pub record AgentRun : Type 0 where
  pub id : String
  pub run_id : String
  pub trace_id : String
  pub agent_name : String
  pub input_hash : String
  pub output_hash : Option String
  pub status : String
  pub retry_attempt : ℕ

-- A row of `refinement_iterations`.
pub record RefinementIteration : Type 0 where
  pub id : String
  pub detection_spec_id : Option String
  pub rule_id : Option String

pub record Artifact : Type 0 where
  pub id : String
  pub run_id : String
  pub kind : String
  pub payload : Fields

pub record ArtifactLink : Type 0 where
  pub parent_artifact_id : String
  pub child_artifact_id : String
  pub link_type : String

-- `added_nodes` and `added_edges` were added to the session and not flushed: with `autoflush=False` a query does
-- not see them. `views_are_unique` tells whether `memory_views` has a unique index on its scope and key; the
-- migrations and models/contract.py declare none.
pub record Db : Type 0 where
  pub reports : List Report
  pub report_chunks : List ReportChunk
  pub evidence_spans : List EvidenceSpan
  pub detection_specs : List DetectionSpec
  pub generated_rules : List GeneratedRule
  pub validation_results : List OutcomeRow
  pub test_runs : List OutcomeRow
  pub regression_runs : List OutcomeRow
  pub pipeline_runs : List PipelineRunRecord
  pub proof_obligations : List ProofObligationRecord
  pub graph_nodes : List GraphNode
  pub graph_edges : List GraphEdge
  pub added_nodes : List GraphNode
  pub added_edges : List GraphEdge
  pub review_decisions : List ReviewDecision
  pub memory_views : List MemoryView
  pub views_are_unique : Bool
  pub memory_events : List MemoryEvent
  pub refinement_iterations : List RefinementIteration
  pub agent_runs : List AgentRun
  pub artifacts : List Artifact
  pub artifact_links : List ArtifactLink
  pub draws : ℕ

abbrev pub empty : Db
empty = record {
  reports = [];
  report_chunks = [];
  evidence_spans = [];
  detection_specs = [];
  generated_rules = [];
  validation_results = [];
  test_runs = [];
  regression_runs = [];
  pipeline_runs = [];
  proof_obligations = [];
  graph_nodes = [];
  graph_edges = [];
  added_nodes = [];
  added_edges = [];
  review_decisions = [];
  memory_views = [];
  views_are_unique = false;
  memory_events = [];
  refinement_iterations = [];
  agent_runs = [];
  artifacts = [];
  artifact_links = [];
  draws = 0;
}
