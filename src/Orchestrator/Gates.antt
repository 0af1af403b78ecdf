-- ===== src/Orchestrator/Gates.antt =====
-- services/orchestrator.py: the two gates before review of `run_pipeline`.
use aicti.Base.{
  String, ◌==◌, ◌≡◌, refl, Bool, true, false, ◌&&◌, not, List, [], ◌∷◌, any, all, keep, length,
  is_empty, elem, ltb, Result, ok, ◌>>◌, require, >>=-succeeds, ok-injective, sym, arith, and_intro,
}
use aicti.Db.{Db, OutcomeRow, ProofObligationRecord}
use aicti.Memory.Policy.{ContractError}

pub data PipelineState : Type 0 where
  ingested spec_validated rule_generated static_validated awaiting_review : PipelineState

-- What `run_pipeline` raises: the messages of `PipelineTransitionError`, the exception of a query for one
-- rule that finds more, and those of the rule generation and of the validation.
pub data SingleError : Type 0 where
  validated_spec_required abstain_spec payload_required rule_required static_gate_failed :
      SingleError
  depth_missing depth_failed proof_missing proof_failed : SingleError
  multiple_rules validation_raised : SingleError
  contract_error : ContractError → SingleError
  generation_raised : String → SingleError

module _ (lower : String → String) (run_id rule_id : String) where
  abbrev pub outcomes : Db → List OutcomeRow
  outcomes db =
      keep (λ (r : OutcomeRow). r.run_id == run_id && r.rule_id == rule_id) db.validation_results

  abbrev pub obligations : Db → List ProofObligationRecord
  obligations db =
      keep (λ (o : ProofObligationRecord). o.run_id == run_id && o.rule_candidate_id == rule_id)
        db.proof_obligations

  unfoldable pub require_evaluation_depth_passed : Db → Result SingleError (Unit {0})
  require_evaluation_depth_passed db = do
    require (not (ltb (length (outcomes db)) 4)) depth_missing
    require (not (any (λ (r : OutcomeRow). not (lower r.status == "passed")) (outcomes db)))
        depth_failed

  abbrev is_disallowed : ProofObligationRecord → Bool
  is_disallowed o = elem ◌==◌ (lower o.status) ("failed" ∷ "unknown" ∷ "not_applicable" ∷ [])

  unfoldable pub require_proof_obligations_proven : Db → Result SingleError (Unit {0})
  require_proof_obligations_proven db = do
    require (not (is_empty (obligations db))) proof_missing
    require (is_empty (keep is_disallowed (obligations db))) proof_failed
    require
        (not
          (any (λ (o : ProofObligationRecord). not (lower o.status == "proven")) (obligations db)))
        proof_failed

  -- The gates, and the state that is returned after them.
  unfoldable pub gates : Db → Result SingleError PipelineState
  gates db = do
    require_evaluation_depth_passed db
    require_proof_obligations_proven db
    ok awaiting_review

  -- At least four outcomes, all passed, and at least one obligation, all proven.
  abbrev pub is_reviewable : Db → Bool
  is_reviewable db =
      not (ltb (length (outcomes db)) 4)
      && (all (λ (r : OutcomeRow). lower r.status == "passed") (outcomes db)
          && (not (is_empty (obligations db))
              && all (λ (o : ProofObligationRecord). lower o.status == "proven") (obligations db)))

was_required : {E : Type 0} (b : Bool) (e : E) (u : Unit {0}) → require b e ≡ ok u → b ≡ true
was_required true e u h = refl
was_required false e u h = cc

all-any :
    {A : Type 0} (p : A → Bool) (xs : List A)
    → not (any (λ a. not (p a)) xs) ≡ true
    → all p xs ≡ true
all-any p [] h = refl
all-any p (x ∷ xs) h = ground (arith, h, all-any p xs)

pub gates-is_reviewable :
    (lower : String → String) (run_id rule_id : String) (db : Db) (state : PipelineState)
    → gates lower run_id rule_id db ≡ ok state
    → (state ≡ awaiting_review) × (is_reviewable lower run_id rule_id db ≡ true)
unfolding gates require_evaluation_depth_passed require_proof_obligations_proven
gates-is_reviewable lower run_id rule_id db state h =
    let (u, depth, rest) =
      >>=-succeeds (require_evaluation_depth_passed lower run_id rule_id db) _ h in
    let (v, proofs, last) =
      >>=-succeeds (require_proof_obligations_proven lower run_id rule_id db) _ rest in
    let (w, enough, passed) =
      >>=-succeeds (require (not (ltb (length (outcomes lower run_id rule_id db)) 4)) depth_missing)
        _ depth in
    let (x, some_left, more) =
      >>=-succeeds (require (not (is_empty (obligations lower run_id rule_id db))) proof_missing) _
        proofs in
    let (y, allowed, proven) =
      >>=-succeeds
        (require
          (is_empty
            (keep (is_disallowed lower run_id rule_id) (obligations lower run_id rule_id db)))
          proof_failed)
        _ more in
    (
      ok-injective (sym last),
      and_intro (was_required _ _ w enough) (
          and_intro (all-any _ (outcomes lower run_id rule_id db) (was_required _ _ u passed)) (
            and_intro (was_required _ _ x some_left)
              (all-any _ (obligations lower run_id rule_id db) (was_required _ _ v proven)))),
    )
