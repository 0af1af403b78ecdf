-- ===== src/Validation.antt =====
-- services/validation_proof_persistence.py: what a validation leaves in the database, and the proof
-- obligations that are derived from it. `uuid4` gives the text of the n-th identifier drawn.
pub mod Derived
pub mod Gate
pub mod Frame
use aicti.Base.{
  ℕ, String, ◌==◌, ◌=?◌, Bool, true, false, ◌&&◌, not, Option, none, some, List, [], ◌∷◌, ◌++◌, any,
  keep, map, Result, ok, err, if◌then◌else◌,
}
use aicti.Db.{Db, GeneratedRule, OutcomeRow, PipelineRunRecord, ProofObligationRecord}
use aicti.Db.Action.{Action, ◌>>=◌, ◌>>◌, pure, raise, gets, modify, require, draw}
use aicti.Proofs.{ProofRow, ProofCoverageError, assert_coverage_satisfied}

pub data ValidationError : Type 0 where
  rule_not_found : String → ValidationError
  run_not_found : String → ValidationError
  obligations_missing : ValidationError
  coverage : ProofCoverageError → ValidationError

-- services/dynamic_validation.py, the result of a synthetic validation.
pub record SyntheticValidationResult : Type 0 where
  pub true_positives : ℕ
  pub false_positives : ℕ
  pub attack_total : ℕ
  pub benign_total : ℕ

unfoldable pub has_rule : String → Db → Bool
has_rule rule_id db = any (λ r. r.id == rule_id) db.generated_rules

unfoldable pub has_run : String → Db → Bool
has_run run_id db = any (λ r. r.run_id == run_id) db.pipeline_runs

require_rule : String → Action ValidationError (Unit {0})
require_rule rule_id = do found ← gets (has_rule rule_id); require found (rule_not_found rule_id)

require_pipeline_run : String → Action ValidationError (Unit {0})
require_pipeline_run run_id = do found ← gets (has_run run_id); require found (run_not_found run_id)

unfoldable pub passed_or_failed : Bool → String
passed_or_failed b = if b then "passed" else "failed"

outcome : String → String → String → Bool → OutcomeRow
unfolding passed_or_failed
outcome id run_id rule_id passed = record {
  id = id;
  rule_id = rule_id;
  run_id = run_id;
  status = passed_or_failed passed;
}

-- Whether a dynamic result counts as passed.
unfoldable pub dynamic_passed : SyntheticValidationResult → Bool
dynamic_passed r = r.true_positives =? r.attack_total && r.false_positives =? 0

-- The row is of this run and rule, and passed.
unfoldable pub is_passed : String → String → OutcomeRow → Bool
is_passed run_id rule_id r = r.run_id == run_id && (r.rule_id == rule_id && r.status == "passed")

unfoldable pub has_passed_static_validation : String → String → Db → Bool
has_passed_static_validation run_id rule_id db =
    any (is_passed run_id rule_id) db.validation_results

unfoldable pub has_passed_dynamic_validation : String → String → Db → Bool
has_passed_dynamic_validation run_id rule_id db = any (is_passed run_id rule_id) db.test_runs

unfoldable pub has_passed_regression : String → String → Db → Bool
has_passed_regression run_id rule_id db = any (is_passed run_id rule_id) db.regression_runs

unfoldable pub all_required_artifacts_passed : String → String → Db → Bool
all_required_artifacts_passed run_id rule_id db =
    has_passed_static_validation run_id rule_id db
    && (has_passed_dynamic_validation run_id rule_id db && has_passed_regression run_id rule_id db)

-- The claim types of `obligation_definitions`, in their order.
abbrev pub obligation_definitions : List String
obligation_definitions =
    "detects_report_behavior" ∷ "not_overbroad" ∷ "telemetry_fields_exist" ∷ "positive_tests_pass"
    ∷ "benign_baseline_not_matched" ∷ "citation_faithful" ∷ "oracle_expectations_satisfied"
    ∷ "regression_safe" ∷ []

unfoldable pub obligation : String → String → String → String → Bool → ProofObligationRecord
obligation id run_id rule_id claim_type is_proven = record {
  id = id;
  run_id = run_id;
  rule_candidate_id = rule_id;
  claim_type = claim_type;
  status = if is_proven then "proven" else "unknown";
  justification = if is_proven then some "derived from persisted validation artifacts" else none;
}

module _ (uuid4 : ℕ → String) where
  unfoldable pub record_static_validation : String → String → Bool → Action ValidationError String
  unfolding require_rule outcome
  record_static_validation run_id rule_id is_valid = do
    require_rule rule_id
    id ← draw uuid4
    modify (λ db. record db {
      validation_results = db.validation_results ++ outcome id run_id rule_id is_valid ∷ [];
    })
    pure id

  unfoldable pub record_dynamic_validation :
      String → String → SyntheticValidationResult → Action ValidationError String
  unfolding require_rule outcome
  record_dynamic_validation run_id rule_id result = do
    require_rule rule_id
    id ← draw uuid4
    modify (λ db. record db {
      test_runs = db.test_runs ++ outcome id run_id rule_id (dynamic_passed result) ∷ [];
    })
    pure id

  unfoldable pub record_regression : String → String → Bool → Action ValidationError String
  unfolding require_rule require_pipeline_run outcome
  record_regression run_id rule_id passed = do
    require_rule rule_id
    require_pipeline_run run_id
    id ← draw uuid4
    modify (λ db. record db {
      regression_runs = db.regression_runs ++ outcome id run_id rule_id passed ∷ [];
    })
    pure id

  -- The loop over `obligation_definitions`: every definition has the same `is_proven`.
  add_obligations : String → String → Bool → List String → Action ValidationError (List String)
  add_obligations run_id rule_id is_proven [] = pure []
  add_obligations run_id rule_id is_proven (claim ∷ claims) = do
    id ← draw uuid4
    modify (λ db. record db {
      proof_obligations = db.proof_obligations ++ obligation id run_id rule_id claim is_proven ∷ [];
    })
    ids ← add_obligations run_id rule_id is_proven claims
    pure (id ∷ ids)

  unfoldable pub generate_proof_obligations_from_artifacts :
      String → String → Action ValidationError (List String)
  unfolding require_rule add_obligations
  generate_proof_obligations_from_artifacts run_id rule_id = do
    require_rule rule_id
    is_proven ← gets (all_required_artifacts_passed run_id rule_id)
    add_obligations run_id rule_id is_proven obligation_definitions

unfoldable pub is_obligation_of : String → String → ProofObligationRecord → Bool
is_obligation_of run_id rule_id o = o.run_id == run_id && o.rule_candidate_id == rule_id

proof_row : ProofObligationRecord → ProofRow
proof_row o = record {
  run_id = o.run_id;
  rule_candidate_id = o.rule_candidate_id;
  claim_type = o.claim_type;
  status = o.status;
  justification = o.justification;
}

unfoldable pub proof_rows : String → String → Db → List ProofRow
unfolding proof_row
proof_rows run_id rule_id db =
    map proof_row (keep (is_obligation_of run_id rule_id) db.proof_obligations)

covered : Result ProofCoverageError (Unit {0}) → Result ValidationError Bool
covered (ok _) = ok true
covered (err e) = err (coverage e)

unfoldable pub selectable : String → String → List ProofRow → Result ValidationError Bool
unfolding covered
selectable run_id rule_id [] = err obligations_missing
selectable run_id rule_id (row ∷ rows) =
    covered (assert_coverage_satisfied run_id rule_id (row ∷ rows))

unfoldable pub verify_persisted_proofs_selectable : String → String → Action ValidationError Bool
unfolding selectable
verify_persisted_proofs_selectable run_id rule_id db =
    (selectable run_id rule_id (proof_rows run_id rule_id db), db)
