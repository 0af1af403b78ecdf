-- ===== src/Export/Gates.antt =====
-- What the gate of services/export_eligibility.py lets through.
use aicti.Base.{
  String, ◌==◌, Bool, true, false, ◌&&◌, not, Option, none, some, Option-cases, ◌≡◌, refl, ap,
  subst, ◌↔◌, inl, inr, arith, eq_iff, concat, Result, ok, err, ◌>>◌, require, eq_refl,
}
use aicti.Db.{PipelineRunRecord, GeneratedRule, DetectionSpec, ReviewDecision}
use aicti.Proofs.{assert_coverage_satisfied}
use aicti.Export.{
  ExportBlockedReason, is_set, is_some_text, assert_rule_has_compiler_provenance,
  ExportEligibilityRepository, blocked_as, is_approved, is_validated_spec, assert_reviewed,
  assert_rule, assert_run, assert_exportable,
}

-- A rule that the compiler pipeline produced, with identifiers that are no placeholders.
unfoldable pub is_compiled : GeneratedRule → Bool
is_compiled rule =
    rule.generation_source == "compiler"
    && ((is_set rule.detection_ast_id
          && not (is_some_text rule.detection_ast_id (concat "ast-" rule.id)))
        && (is_set rule.compiled_sigma_id
            && not (is_some_text rule.compiled_sigma_id (concat "sigma-" rule.id))))

assert_rule_has_compiler_provenance_iff :
    (rule : GeneratedRule)
    → (assert_rule_has_compiler_provenance rule ≡ ok tt) ↔ (is_compiled rule ≡ true)
unfolding assert_rule_has_compiler_provenance is_compiled
assert_rule_has_compiler_provenance_iff rule = ground arith

module _ (repo : ExportEligibilityRepository) (run_id rule_id : String) where
  -- What the services ask of an export, each from its own source.
  pub record Exportable : Type 0 where
    pub run : PipelineRunRecord
    pub rule : GeneratedRule
    pub spec : DetectionSpec
    pub run_found : repo.get_run run_id ≡ some run
    pub of_rule : run.rule_id ≡ some rule_id
    pub rule_found : repo.get_rule rule_id ≡ some rule
    pub has_content : is_set rule.rule_content ≡ true
    pub spec_found : repo.get_detection_spec run.detection_spec_id ≡ some spec
    pub validated : spec.is_validated ≡ true
    pub compiled : is_compiled rule ≡ true
    pub decision : ReviewDecision
    pub latest : repo.latest_review_decision run_id rule_id ≡ some decision
    pub approved : decision.decision ≡ "approved"
    pub covered :
        assert_coverage_satisfied run_id rule_id (repo.get_proof_rows run_id rule_id) ≡ ok tt
    pub graph_complete : repo.assert_evidence_graph_complete run_id rule_id ≡ ok tt
    pub lineage_complete : repo.assert_artifact_lineage_complete run_id rule_id ≡ ok tt

require-ok : {E : Type 0} (b : Bool) (e : E) → require b e ≡ ok tt → b ≡ true
require-ok true e h = refl
require-ok false e h = cc

blocked_as-ok :
    {E : Type 0} (reason : ExportBlockedReason) (r : Result E (Unit {0}))
    → blocked_as reason r ≡ ok tt
    → r ≡ ok tt
blocked_as-ok reason (ok t) h = refl
blocked_as-ok reason (err e) h = cc

>>-ok : {E : Type 0} (m k : Result E (Unit {0})) → (m >> k) ≡ ok tt → (m ≡ ok tt) × (k ≡ ok tt)
>>-ok (ok t) k h = (refl, h)
>>-ok (err e) k h = cc

refused : {E B : Type 0} {e : E} → ◌≡◌ {A = Result E (Unit {0})} (err e) (ok tt) → B
refused h = cc

is_some_text-eq : (o : Option String) (s : String) → is_some_text o s ≡ true → o ≡ some s
unfolding is_some_text
is_some_text-eq none s h = cc
is_some_text-eq (some t) s h = ap some ((eq_iff t s).0 h)

is_approved-eq :
    (o : Option ReviewDecision)
    → is_approved o ≡ true
    → (d : ReviewDecision) × (o ≡ some d) × (d.decision ≡ "approved")
unfolding is_approved
is_approved-eq none h = cc
is_approved-eq (some d) h = (d, refl, (eq_iff d.decision "approved").0 h)

is_validated_spec-eq :
    (o : Option DetectionSpec)
    → is_validated_spec o ≡ true
    → (s : DetectionSpec) × (o ≡ some s) × (s.is_validated ≡ true)
unfolding is_validated_spec
is_validated_spec-eq none h = cc
is_validated_spec-eq (some s) h = (s, refl, h)

module _ (repo : ExportEligibilityRepository) (run_id rule_id : String) where
  exportable_of_rule :
      (run : PipelineRunRecord) (rule : GeneratedRule)
      → repo.get_run run_id ≡ some run
      → run.rule_id ≡ some rule_id
      → repo.get_rule rule_id ≡ some rule
      → assert_rule repo run_id rule_id run (some rule) ≡ ok tt
      → Exportable repo run_id rule_id
  unfolding assert_rule assert_reviewed
  exportable_of_rule run rule run_found of_rule rule_found h =
      let (content, h1) = >>-ok _ _ h in
      let (validated, h2) = >>-ok _ _ h1 in
      let (compiled, h3) = >>-ok _ _ h2 in
      let (approved, h4) = >>-ok _ _ h3 in
      let (covered, h5) = >>-ok _ _ h4 in
      let (graph, lineage) = >>-ok _ _ h5 in
      let (spec, spec_found, is_valid) = is_validated_spec-eq _ (require-ok _ _ validated) in
      let (decision, latest, is_approval) = is_approved-eq _ (require-ok _ _ approved) in
      record {
        run = run;
        rule = rule;
        spec = spec;
        run_found = run_found;
        of_rule = of_rule;
        rule_found = rule_found;
        has_content = require-ok _ _ content;
        spec_found = spec_found;
        validated = is_valid;
        compiled = (assert_rule_has_compiler_provenance_iff rule).0 (blocked_as-ok _ _ compiled);
        decision = decision;
        latest = latest;
        approved = is_approval;
        covered = blocked_as-ok _ _ covered;
        graph_complete = blocked_as-ok _ _ graph;
        lineage_complete = blocked_as-ok _ _ lineage;
      }

  exportable_of_run :
      (o : Option PipelineRunRecord)
      → repo.get_run run_id ≡ o
      → assert_run repo run_id rule_id o ≡ ok tt
      → Exportable repo run_id rule_id
  unfolding assert_run
  exportable_of_run none found h = cc
  exportable_of_run (some run) found h =
      let (mapped, h1) = >>-ok _ _ h in
      elim (Option-cases (repo.get_rule rule_id)) [
        | inl missing ↦
            refused (subst (λ o. assert_rule repo run_id rule_id run o ≡ ok tt) missing h1)
        | inr (rule, rule_found) ↦
            exportable_of_rule run rule found (is_some_text-eq _ _ (require-ok _ _ mapped))
              rule_found (subst (λ o. assert_rule repo run_id rule_id run o ≡ ok tt) rule_found h1)
      ]

  passes : Exportable repo run_id rule_id → assert_exportable repo run_id rule_id ≡ ok tt
  unfolding assert_exportable assert_run assert_rule assert_reviewed is_some_text is_approved
      is_validated_spec
  passes e =
      rw
        (
          e.run_found,
          e.of_rule,
          eq_refl rule_id,
          e.rule_found,
          e.has_content,
          e.spec_found,
          e.validated,
          (assert_rule_has_compiler_provenance_iff e.rule).1 e.compiled,
          e.latest,
          e.approved,
          e.covered,
          e.graph_complete,
          e.lineage_complete,
        )
        refl

  -- The gate lets a rule through exactly when its run is known and maps to it, the rule has content
  -- and comes from the compiler with identifiers that are no placeholders, its specification is
  -- validated, the latest decision approves it, and the proofs, the graph and the lineage pass.
  pub assert_exportable_iff :
      (assert_exportable repo run_id rule_id ≡ ok tt) ↔ Exportable repo run_id rule_id
  unfolding assert_exportable
  assert_exportable_iff = (exportable_of_run (repo.get_run run_id) refl, passes)
