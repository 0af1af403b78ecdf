-- ===== src/Orchestrator/Pipeline/Handover.antt =====
-- What a finished run of `run_report_pipeline` hands over to services/export_eligibility.py.
use aicti.Base.{String, ◌≡◌, subst, ◌∙◌, sym, inl, inr, some, ok}
use aicti.Db.{Db, PipelineRunRecord}
use aicti.Proofs.{assert_coverage_satisfied}
use aicti.Validation.{proof_rows, is_obligation_of}
use aicti.Validation.Frame.{Verified, Verified-assert_coverage_satisfied}
use aicti.Export.{repository, to_proof_row}
use aicti.Orchestrator.{Services}
use aicti.Orchestrator.Pipeline.{run_report_pipeline}
use aicti.Orchestrator.Pipeline.Endings.{Ends}
use aicti.Orchestrator.Pipeline.Outcomes.{run_report_pipeline-Ends}

get_proof_rows-Verified :
    (run_id rule_id : String) (db : Db)
    → Verified run_id rule_id db
    → assert_coverage_satisfied run_id rule_id ((repository db).get_proof_rows run_id rule_id)
      ≡ ok tt
unfolding repository to_proof_row proof_rows is_obligation_of
get_proof_rows-Verified run_id rule_id db v = Verified-assert_coverage_satisfied run_id rule_id db v

abstained_ok : {A : Type 0} (s : String) → s ≡ "abstain" → s ≡ "ok" → A
abstained_ok s a b = let clash = sym a ∙ b in cc

module _ (services : Services) (run_id report_id : String) (db : Db) where
  -- When a run of a report returns with the status `ok`, its record names a rule, and the proof rows
  -- that the export gate will read for the run and this rule pass the proof coverage.
  pub run_report_pipeline-assert_coverage_satisfied :
      (row : PipelineRunRecord)
      → (run_report_pipeline services run_id report_id db).0 ≡ ok row
      → row.status ≡ "ok"
      → (rule_id : String) × (row.rule_id ≡ some rule_id)
        × (assert_coverage_satisfied run_id rule_id (
              (repository (run_report_pipeline services run_id report_id db).1).get_proof_rows
                run_id rule_id)
            ≡ ok tt)
  unfolding Ends
  run_report_pipeline-assert_coverage_satisfied row returned status =
      let db' = (run_report_pipeline services run_id report_id db).1 in
      let (stored, report, how) =
        subst (λ r. Ends run_id report_id r db') returned
          (run_report_pipeline-Ends services run_id report_id db) in
      elim how [
        | inl awaiting ↦ (
          awaiting.rule_id,
          awaiting.has_rule,
          get_proof_rows-Verified run_id awaiting.rule_id db' awaiting.verified,
        )
        | inr abstained ↦ abstained_ok row.status abstained.has_status status
      ]
