-- ===== src/Proofs.antt =====
-- services/proof_coverage.py, services/proof_obligation_service.py and services/gates.py: which proof
-- obligations a rule owes, and when they are met. A row of `proof_rows` is a `ProofRow`; the
-- dictionary `current` is the list of its values, found by their claim type.
pub mod Coverage
pub mod Obligations
use aicti.Base.{
  String, ◌==◌, Bool, true, false, ◌&&◌, ◌||◌, Option, none, some, List, [], ◌∷◌, any, all, keep,
  first, elem, Result, ok, err, ◌>>=◌, ◌>>◌, if◌then◌else◌, not,
}

pub record ProofRow : Type 0 where
  pub run_id : String
  pub rule_candidate_id : String
  pub claim_type : String
  pub status : String
  pub justification : Option String

pub data ProofCoverageError : Type 0 where
  duplicate : String → ProofCoverageError
  missing : List String → ProofCoverageError
  unmet : String → String → ProofCoverageError

-- `sorted(_REQUIRED_CLAIMS)`
abbrev pub required_claims : List String
required_claims =
    "benign_baseline_not_matched" ∷ "citation_faithful" ∷ "detects_report_behavior"
    ∷ "not_overbroad" ∷ "oracle_expectations_satisfied" ∷ "positive_tests_pass" ∷ "regression_safe"
    ∷ "telemetry_fields_exist" ∷ []

abbrev pub na_allowed : List String
na_allowed =
    "positive_tests_pass" ∷ "benign_baseline_not_matched" ∷ "oracle_expectations_satisfied"
    ∷ "regression_safe" ∷ []

-- The truth value of `str(row.get("justification") or "")`.
abbrev pub is_justified : Option String → Bool
is_justified none = false
is_justified (some j) = not (j == "")

unfoldable pub is_current : String → String → ProofRow → Bool
is_current run_id rule_id row = row.run_id == run_id && row.rule_candidate_id == rule_id

unfoldable pub has_claim : String → ProofRow → Bool
has_claim claim row = row.claim_type == claim

-- The first loop of `assert_coverage_satisfied`, which fills `current`.
collect :
    String → String → List ProofRow → List ProofRow → Result ProofCoverageError (List ProofRow)
collect run_id rule_id current [] = ok current
collect run_id rule_id current (row ∷ rows) =
    let skipped = collect run_id rule_id current rows in
    let taken = collect run_id rule_id (row ∷ current) rows in
    if is_current run_id rule_id row
    then if any (has_claim row.claim_type) current then err (duplicate row.claim_type) else taken
    else skipped

-- The two cases of the second loop that go on to the next claim.
unfoldable pub accepts : String → ProofRow → Bool
accepts claim row =
    row.status == "proven"
    || (row.status == "not_applicable"
        && (elem ◌==◌ claim na_allowed && is_justified row.justification))

check_row :
    String
    → Option ProofRow
    → Result ProofCoverageError (Unit {0})
    → Result ProofCoverageError (Unit {0})
check_row claim none rest = err (missing (claim ∷ []))
check_row claim (some row) rest = if accepts claim row then rest else err (unmet claim row.status)

-- The second loop. `current[claim_type]` is always there, since it runs when nothing is missing.
check_claims : List ProofRow → List String → Result ProofCoverageError (Unit {0})
unfolding check_row
check_claims current [] = ok tt
check_claims current (claim ∷ claims) =
    check_row claim (first (has_claim claim) current) (check_claims current claims)

-- `sorted(_REQUIRED_CLAIMS - set(current))`
absent : List ProofRow → List String → List String
absent current claims = keep (λ claim. not (any (has_claim claim) current)) claims

check_absent : List ProofRow → List String → Result ProofCoverageError (Unit {0})
unfolding check_claims
check_absent current [] = check_claims current required_claims
check_absent current (claim ∷ claims) = err (missing (claim ∷ claims))

unfoldable pub assert_coverage_satisfied :
    String → String → List ProofRow → Result ProofCoverageError (Unit {0})
unfolding collect absent check_absent
assert_coverage_satisfied run_id rule_id rows = do
  current ← collect run_id rule_id [] rows
  check_absent current (absent current required_claims)
