-- ===== src/Orchestrator/Persistence/Frame.antt =====
-- What the graph of a validated rule leaves alone.
use aicti.Base.{String, List, [], ◌∷◌, Option-cases, inl, inr}
use aicti.Db.{
  Db, Report, EvidenceSpan, DetectionSpec, GeneratedRule, OutcomeRow, ProofObligationRecord,
}
use aicti.Db.Keeps.{Keeps, keeps_rules, Keeps-bind, Keeps-raise, Keeps-gets}
use aicti.Graph.Frame.{IgnoresGraph, Keeps-upsert_node, Keeps-add_edge, Keeps-flush}
use aicti.Orchestrator.{Services, graph_failed, detection_spec_evidence_ids}
use aicti.Orchestrator.Persistence.{
  validation_rows_of, proof_rows_of, link_evidence, link_validations, link_satisfied, link_proofs,
  persist_path, persist_supported, persist_artifact_graph_path,
}

module _ (services : Services) (run_id : String) {P : Db → Type 0} (g : IgnoresGraph P) where
  Keeps-link_evidence :
      (report_node spec_node : String) (rows : List EvidenceSpan)
      → Keeps P (link_evidence services run_id report_node spec_node rows)
  unfolding link_evidence
  Keeps-link_evidence report_node spec_node [] = search keeps_rules
  Keeps-link_evidence report_node spec_node (e ∷ rows) =
      Keeps-bind _ _ (Keeps-upsert_node g services.uuid4 _ _ _ _ _) (λ node.
        Keeps-bind _ _ (Keeps-add_edge g services.uuid4 _ _ _ _) (λ edge.
          Keeps-bind _ _ (Keeps-add_edge g services.uuid4 _ _ _ _)
            (λ edge'. Keeps-link_evidence report_node spec_node rows)))

  Keeps-link_validations :
      (rule_node : String) (rows : List OutcomeRow)
      → Keeps P (link_validations services run_id rule_node rows)
  unfolding link_validations
  Keeps-link_validations rule_node [] = search keeps_rules
  Keeps-link_validations rule_node (v ∷ rows) =
      Keeps-bind _ _ (Keeps-upsert_node g services.uuid4 _ _ _ _ _) (λ node.
        Keeps-bind _ _ (Keeps-add_edge g services.uuid4 _ _ _ _) (λ edge.
          Keeps-bind _ _ (Keeps-link_validations rule_node rows) (λ nodes. search keeps_rules)))

  Keeps-link_satisfied :
      (proof_node : String) (nodes : List String)
      → Keeps P (link_satisfied services run_id proof_node nodes)
  unfolding link_satisfied
  Keeps-link_satisfied proof_node [] = search keeps_rules
  Keeps-link_satisfied proof_node (n ∷ nodes) =
      Keeps-bind _ _ (Keeps-add_edge g services.uuid4 _ _ _ _)
        (λ edge. Keeps-link_satisfied proof_node nodes)

  Keeps-link_proofs :
      (nodes : List String) (rows : List ProofObligationRecord)
      → Keeps P (link_proofs services run_id nodes rows)
  unfolding link_proofs
  Keeps-link_proofs nodes [] = search keeps_rules
  Keeps-link_proofs nodes (p ∷ rows) =
      Keeps-bind _ _ (Keeps-upsert_node g services.uuid4 _ _ _ _ _) (λ node.
        Keeps-bind _ _ (Keeps-link_satisfied node nodes) (λ done. Keeps-link_proofs nodes rows))

  Keeps-persist_path :
      (report : Report) (rows : List EvidenceSpan) (spec : DetectionSpec) (rule : GeneratedRule)
      → Keeps P (persist_path services run_id report rows spec rule)
  unfolding persist_path
  Keeps-persist_path report rows spec rule =
      Keeps-bind _ _ (Keeps-upsert_node g services.uuid4 _ _ _ _ _) (λ report_node.
        Keeps-bind _ _ (Keeps-upsert_node g services.uuid4 _ _ _ _ _) (λ spec_node.
          Keeps-bind _ _ (Keeps-upsert_node g services.uuid4 _ _ _ _ _) (λ rule_node.
            Keeps-bind _ _ (Keeps-link_evidence report_node spec_node rows) (λ linked.
              Keeps-bind _ _ (Keeps-add_edge g services.uuid4 _ _ _ _) (λ edge.
                Keeps-bind _ _ (Keeps-gets (validation_rows_of services run_id rule.id)) (λ vs.
                  Keeps-bind _ _ (Keeps-link_validations rule_node vs) (λ nodes.
                    Keeps-bind _ _ (Keeps-gets (proof_rows_of services run_id rule.id)) (λ ps.
                      Keeps-bind _ _ (Keeps-link_proofs nodes ps)
                        (λ satisfied. Keeps-flush g)))))))))

  Keeps-persist_supported :
      (report : Report) (spec : DetectionSpec) (rule : GeneratedRule) (rows : List EvidenceSpan)
      → Keeps P (persist_supported services run_id report spec rule rows)
  unfolding persist_supported
  Keeps-persist_supported report spec rule [] = search keeps_rules
  Keeps-persist_supported report spec rule (e ∷ rows) =
      Keeps-persist_path report (e ∷ rows) spec rule

  pub Keeps-persist_artifact_graph_path :
      (report : Report) (rows : List EvidenceSpan) (spec : DetectionSpec) (rule : GeneratedRule)
      → Keeps P (persist_artifact_graph_path services run_id report rows spec rule)
  unfolding persist_artifact_graph_path
  Keeps-persist_artifact_graph_path report rows spec rule =
      elim (Option-cases (detection_spec_evidence_ids services.json_loads spec)) [
        | inl e ↦ rw (e, persist_artifact_graph_path) (Keeps-raise graph_failed)
        | inr (ids, e) ↦
            rw (e, persist_artifact_graph_path) (Keeps-persist_supported report spec rule _)
      ]
