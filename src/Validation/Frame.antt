-- ===== src/Validation/Frame.antt =====
-- What the check of the stored proofs depends on.
use aicti.Base.{String, ok, true, ◌≡◌, ap, ◌∙◌, keep, map, Result, Bool}
use aicti.Db.{Db}
use aicti.Proofs.{ProofRow, ProofCoverageError, assert_coverage_satisfied}
use aicti.Base.{err, refl, List, [], ◌∷◌}
use aicti.Validation.{
  covered, proof_rows, is_obligation_of, proof_row, selectable, verify_persisted_proofs_selectable,
}

-- The stored proofs of the rule pass the check.
unfoldable pub Verified : String → String → Db → Type 0
Verified run_id rule_id db = (verify_persisted_proofs_selectable run_id rule_id db).0 ≡ ok true

pub Verified-frame :
    (run_id rule_id : String) (db db' : Db)
    → db'.proof_obligations ≡ db.proof_obligations
    → Verified run_id rule_id db
    → Verified run_id rule_id db'
unfolding Verified verify_persisted_proofs_selectable proof_rows
Verified-frame run_id rule_id db db' same h =
    ap (λ os. selectable run_id rule_id (map proof_row (keep (is_obligation_of run_id rule_id) os)))
      same
    ∙ h

-- The check only ever answers `true`, and reads the database alone.
pub Verified-verify :
    (run_id rule_id : String) (db : Db) (a : Bool)
    → (verify_persisted_proofs_selectable run_id rule_id db).0 ≡ ok a
    → Verified run_id rule_id (verify_persisted_proofs_selectable run_id rule_id db).1
unfolding Verified verify_persisted_proofs_selectable selectable covered
Verified-verify run_id rule_id db a h = only_true (proof_rows run_id rule_id db) h
  where
    covered_true :
        (r : Result ProofCoverageError (Unit {0})) → covered r ≡ ok a → covered r ≡ ok true
    covered_true (ok t) e = refl
    covered_true (err x) e = cc

    only_true :
        (rows : List ProofRow)
        → selectable run_id rule_id rows ≡ ok a
        → selectable run_id rule_id rows ≡ ok true
    only_true [] e = cc
    only_true (row ∷ rows) e =
        covered_true (assert_coverage_satisfied run_id rule_id (row ∷ rows)) e

pub Verified-assert_coverage_satisfied :
    (run_id rule_id : String) (db : Db)
    → Verified run_id rule_id db
    → assert_coverage_satisfied run_id rule_id (proof_rows run_id rule_id db) ≡ ok tt
unfolding Verified verify_persisted_proofs_selectable selectable covered
Verified-assert_coverage_satisfied run_id rule_id db v = passes (proof_rows run_id rule_id db) v
  where
    passed : (r : Result ProofCoverageError (Unit {0})) → covered r ≡ ok true → r ≡ ok tt
    passed (ok t) e = refl
    passed (err x) e = cc

    passes :
        (rows : List ProofRow)
        → selectable run_id rule_id rows ≡ ok true
        → assert_coverage_satisfied run_id rule_id rows ≡ ok tt
    passes [] e = cc
    passes (row ∷ rows) e = passed (assert_coverage_satisfied run_id rule_id (row ∷ rows)) e
