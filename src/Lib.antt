-- ===== src/Lib.antt =====
-- The verification library of DE-Forge, the pipeline that turns a threat report into a Sigma rule
-- with evidence. Paths are those below src/de_forge/ of the repository.
--
-- The parts, and the files that model them:
--   Base, Value, Db        the shared helpers; decoded documents; the tables as lists of rows, with
--                          the actions that read and write them (Db/Action) and the rules for
--                          invariants of actions (Db/Keeps).
--   Library                what is called of Python's library and of PyYAML, as a record of functions.
--   Hashing                core/hashing.py and core/idempotency.py.
--   Sigma                  schemas/detection_ast.py, schemas/sigma.py and services/sigma_compiler.py;
--                          its child Matching has services/dynamic_validation.py.
--   StaticValidation       validate_rule of services/static_validation.py.
--   Telemetry              services/telemetry_registry.py.
--   Memory                 services/memory_service.py: replay and its tests, and write (Service); its
--                          child Policy has services/memory_policy.py and the memory contract of
--                          services/orchestrator.py.
--   AgentAudit             services/agent_audit.py.
--   Refinement             RefinementService of services/refinement.py.
--   Chunking               services/chunking.py.
--   Ingestion              services/ingestion.py: the chunks of a text (Parts), what is stored (Stored) and
--                          a second ingestion (Again).
--   Evidence               services/citation_verifier.py and services/evidence.py: EvidenceService, and
--                          EvidenceAgentService (Agent).
--   Detection              schemas/detection_spec.py; services/detection_ast_service.py, whose logic is read by
--                          Clauses and becomes a tree in Ast, with services/detection_spec_verifier.py; and
--                          services/rule_generation.py (Generation); services/detection_spec.py and
--                          schemas/abstain.py (Persisted).
--   Feedback               services/feedback_learning.py and services/regression.py with their schemas.
--   Run                    services/state_machine.py, schemas/run.py, Orchestrator.run_golden_path.
--   Proofs                 services/proof_coverage.py (`assert_coverage_satisfied`); its child
--                          Obligations has services/proof_obligation_service.py and
--                          can_enter_final_review of services/gates.py.
--   Validation             services/validation_proof_persistence.py: the outcomes that are stored, the
--                          obligations derived from them, and the check of the stored obligations.
--   Search                 the breadth-first search that the next two share.
--   Graph                  EvidenceGraphService of services/evidence_graph.py.
--   Lineage                services/artifact_lineage.py; its child Store has services/artifact_store.py.
--   Review                 services/review.py: the decisions, and assert_can_export (Handoff).
--   Export                 services/export_eligibility.py and services/compiler_provenance.py: the gate
--                          that asks all parts above.
--   Orchestrator           PipelineOrchestrator of services/orchestrator.py: what it calls, the run
--                          records, the graph it writes (Persistence), and run_report_pipeline with
--                          one function for each gate (Pipeline); run_pipeline (Single) with its
--                          last gates (Gates).
--   Witnesses              small databases and the theorems on them.
--
-- An operation keeps the name of its method, without a leading underscore. A method on the database
-- is a function from the database to a result and the database after it, so what was written before
-- an exception stays. The session has no autoflush: nodes and edges wait in `added_nodes` and
-- `added_edges` until `flush`, and a query of the graph does not see them. An exception is a constructor of an error type of its service. `uuid4` and
-- `json.loads` are parameters, as are the clock and, in the record `Services`, the rule generation
-- and the two validators. SQL statements succeed, but for the commit of a report and for
-- the upsert of a memory view, which needs a unique index that the repository declares nowhere:
-- `views_are_unique` tells whether the database has it. Rows come in the order of insertion; `run_id` is
-- unique in `pipeline_runs`, as its column demands. Columns that are written and never read by the
-- modelled services are left out.
--
-- Fuel: the search of the graph has 2 + k (1 + k (1 + k)) steps for k edges, more than the states it
-- can visit on three hops, each visited at most once for each arc that leads to it. The search for an
-- ancestor has 2 + n steps for n artifacts, since each enters the queue at most once. Both are
-- enough, so `out_of_fuel` is no outcome.
--
-- The loop of `chunk_text` runs at most once for each character of the text.
--
-- The pipelines take the validators and the rule generation from their services; the models of
-- the validators and of the compiler stand beside it and are not yet put in their place. A JSON column
-- stands as the value that its text decodes to; the order of its keys, by which nothing is told
-- apart, is that of the writer.
--
-- Not modelled: the HTTP interface, the language model client, PDF extraction, the set-up of the
-- database and its migrations, since they are glue over libraries; precision, recall and other scores,
-- which are floats; and so far retrieval, RefinementController
-- and the metrics, ReviewService.decide, EvidenceGraphStore and record_oracle_evaluation.
pub mod Base
pub mod Value
pub mod Library
pub mod Hashing
pub mod Sigma
pub mod Db
pub mod Run
pub mod Search
pub mod Proofs
pub mod Validation
pub mod Graph
pub mod Lineage
pub mod Memory
pub mod Chunking
pub mod Ingestion
pub mod Evidence
pub mod Detection
pub mod Feedback
pub mod Refinement
pub mod Telemetry
pub mod StaticValidation
pub mod AgentAudit
pub mod Review
pub mod Export
pub mod Orchestrator
pub mod Witnesses
