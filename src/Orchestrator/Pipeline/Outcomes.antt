-- ===== src/Orchestrator/Pipeline/Outcomes.antt =====
-- Every run of `run_report_pipeline` ends as it should, stage by stage.
use aicti.Base.{
  String, refl, inl, inr, Bool, true, false, Option, none, some, Option-cases, Bool-cases, List, [],
  ◌∷◌, Result-cases,
}
use aicti.Db.{Db, Report, EvidenceSpan, DetectionSpec, GeneratedRule}
use aicti.Export.{is_set}
use aicti.Validation.{dynamic_passed, record_dynamic_validation, record_static_validation}
use aicti.Validation.Frame.{Verified}
use aicti.Orchestrator.{PipelineError, Services}
use aicti.Orchestrator.Persistence.{persist_artifact_graph_path}
use aicti.Orchestrator.Persistence.Frame.{Keeps-persist_artifact_graph_path}
use aicti.Orchestrator.Records.{remember_pipeline_run-Remembered}
use aicti.Orchestrator.Pipeline.{
  persist_stage, prove, proof_stage, dynamic_stage, static_stage, rule_stage, generate, find_rule,
  single_spec_stage, spec_stage, specs_of, evidence_stage, report_stage, run_report_pipeline,
}
use aicti.Orchestrator.Pipeline.Endings.{
  Ends, Ended, attempt-Ends, fail-Ended, awaiting-Ends, abstained-Ended, Verified-prove,
  IgnoresGraph-Verified,
}

module _ (services : Services) (run_id report_id : String) where
  module _ (report : Report) (evidence_rows : List EvidenceSpan) (spec : DetectionSpec) where
    persist_stage-Ends :
        (rule : GeneratedRule) (db : Db)
        → Verified run_id rule.id db
        → (let (r, db') =
              persist_stage services run_id report_id report evidence_rows spec rule db in
            Ends run_id report_id r db')
    unfolding persist_stage Ended
    persist_stage-Ends rule db v =
        attempt-Ends run_id report_id
          (persist_artifact_graph_path services run_id report evidence_rows spec rule) _ _ db
          (fail-Ended run_id report_id services _ _ _ _)
          (λ a e. awaiting-Ends run_id report_id services spec.id rule.id _ (
            (Keeps-persist_artifact_graph_path services run_id
                (IgnoresGraph-Verified run_id report_id services rule.id) report evidence_rows spec
                rule).at
              db v))

    proof_stage-Ended :
        (rule : GeneratedRule)
        → Ended run_id report_id
            (proof_stage services run_id report_id report evidence_rows spec rule)
    unfolding proof_stage Ended
    proof_stage-Ended rule db =
        attempt-Ends run_id report_id (prove services run_id report_id rule) _ _ db
          (fail-Ended run_id report_id services _ _ _ _)
          (λ a e. persist_stage-Ends rule _ (Verified-prove run_id report_id services rule db a e))

    dynamic_stage-Ended :
        (rule : GeneratedRule)
        → Ended run_id report_id
            (dynamic_stage services run_id report_id report evidence_rows spec rule)
    unfolding dynamic_stage Ended
    dynamic_stage-Ended rule db =
        elim (Option-cases (services.run_synthetic_validation rule.rule_content)) [
          | inl e ↦ rw (e, dynamic_stage) (fail-Ended run_id report_id services _ _ _ _ db)
          | inr (result, e) ↦
              rw (e, dynamic_stage)
                (attempt-Ends run_id report_id
                  (record_dynamic_validation services.uuid4 run_id rule.id result) _ _ db
                  (fail-Ended run_id report_id services _ _ _ _)
                  (λ a is_ok. elim (Bool-cases (dynamic_passed result)) [
                    | inl passed ↦ rw (passed) (proof_stage-Ended rule _)
                    | inr failed ↦ rw (failed) (fail-Ended run_id report_id services _ _ _ _ _)
                  ]))
        ]

    static_stage-Ended :
        (rule : GeneratedRule) (validation : Option Bool)
        → Ended run_id report_id
            (static_stage services run_id report_id report evidence_rows spec rule validation)
    unfolding static_stage Ended
    static_stage-Ended rule none db = fail-Ended run_id report_id services _ _ _ _ db
    static_stage-Ended rule (some true) db =
        attempt-Ends run_id report_id (record_static_validation services.uuid4 run_id rule.id true)
          _ _ db (fail-Ended run_id report_id services _ _ _ _)
          (λ a is_ok. dynamic_stage-Ended rule _)
    static_stage-Ended rule (some false) db =
        attempt-Ends run_id report_id (record_static_validation services.uuid4 run_id rule.id false)
          _ _ db (fail-Ended run_id report_id services _ _ _ _)
          (λ a is_ok. fail-Ended run_id report_id services _ _ _ _ _)

    rule_stage-Ended :
        (o : Option GeneratedRule)
        → Ended run_id report_id (rule_stage services run_id report_id report evidence_rows spec o)
    unfolding rule_stage Ended
    rule_stage-Ended none db = fail-Ended run_id report_id services _ _ _ _ db
    rule_stage-Ended (some rule) db = elim (Bool-cases (is_set rule.rule_content)) [
      | inr empty ↦ rw (empty, rule_stage) (fail-Ended run_id report_id services _ _ _ _ db)
      | inl content ↦
          let r =
            remember_pipeline_run-Remembered services {E = PipelineError} run_id report_id "running"
              "validation_in_progress" (some spec.id) (some rule.id) db in
          rw (content, rule_stage, r.returned) (static_stage-Ended rule _ _)
    ]

    generate-Ended :
        Ended run_id report_id (generate services run_id report_id report evidence_rows spec)
    unfolding generate Ended Ends
    generate-Ended db = elim (Result-cases (services.generate_sigma_rule spec.id db).0) [
      | inl (rule_id, e) ↦ rw (e, generate) (rule_stage-Ended _ _)
      | inr (text, e) ↦ rw (e, generate) (inl refl)
    ]

    find_rule-Ended :
        (rules : List GeneratedRule)
        → Ended run_id report_id
            (find_rule services run_id report_id report evidence_rows spec rules)
    unfolding find_rule
    find_rule-Ended [] = generate-Ended
    find_rule-Ended (rule ∷ others) = rule_stage-Ended (some rule)

    single_spec_stage-Ended :
        Ended run_id report_id
          (single_spec_stage services run_id report_id report evidence_rows spec)
    unfolding single_spec_stage Ended
    single_spec_stage-Ended db = elim (Option-cases spec.abstain_code) [
      | inr (code, e) ↦
          rw (e, single_spec_stage) (abstained-Ended run_id report_id services spec.id db)
      | inl e ↦ elim (Bool-cases (is_set spec.spec_payload)) [
        | inr empty ↦
            rw (e, empty, single_spec_stage) (fail-Ended run_id report_id services _ _ _ _ db)
        | inl full ↦ rw (e, full, single_spec_stage) (find_rule-Ended _ db)
      ]
    ]

  module _ (report : Report) where
    spec_stage-Ended :
        (evidence_rows : List EvidenceSpan) (specs : List DetectionSpec)
        → Ended run_id report_id (spec_stage services run_id report_id report evidence_rows specs)
    unfolding spec_stage
    spec_stage-Ended evidence_rows [] = fail-Ended run_id report_id services _ _ _ _
    spec_stage-Ended evidence_rows (spec ∷ []) = single_spec_stage-Ended report evidence_rows spec
    spec_stage-Ended evidence_rows (spec ∷ other ∷ others) =
        fail-Ended run_id report_id services _ _ _ _

    evidence_stage-Ended :
        (evidence_rows : List EvidenceSpan)
        → Ended run_id report_id (evidence_stage services run_id report_id report evidence_rows)
    unfolding evidence_stage Ended
    evidence_stage-Ended [] db = fail-Ended run_id report_id services _ _ _ _ db
    evidence_stage-Ended (e ∷ others) db =
        spec_stage-Ended (e ∷ others) (specs_of services run_id report_id db) db

  report_stage-Ended :
      (o : Option Report) → Ended run_id report_id (report_stage services run_id report_id o)
  unfolding report_stage Ended
  report_stage-Ended none db = fail-Ended run_id report_id services _ _ _ _ db
  report_stage-Ended (some report) db = evidence_stage-Ended report _ db

  -- However a run of a report ends, its outcome is stored. When it returns, the stored record of
  -- the run is the one returned, and it waits for review with stored proofs that pass the check,
  -- or abstained and has no rule. When it raises, the stored record says that the run failed,
  -- unless the exception is one of the rule generation, which passes through.
  pub run_report_pipeline-Ends :
      (db : Db)
      → (let (r, db') = run_report_pipeline services run_id report_id db in
          Ends run_id report_id r db')
  unfolding run_report_pipeline Ended
  run_report_pipeline-Ends db = report_stage-Ended _ db
