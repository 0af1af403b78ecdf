-- ===== src/Refinement.antt =====
-- services/refinement.py: the recording of refinements, up to their limits. The columns with constant
-- values are left out, and an insertion does not fail.
pub mod Limits
use aicti.Base.{
  ℕ, suc, String, ◌==◌, Bool, true, false, Option, none, some, List, [], ◌∷◌, ◌++◌, keep, length,
  ltb,
}
use aicti.Db.{Db, RefinementIteration}
use aicti.Db.Action.{Action, continue, ◌>>=◌, ◌>>◌, pure, gets, modify, require, draw}

-- `RefinementLimitExceededError`
pub data RefinementError : Type 0 where
  query_limit_exceeded rule_limit_exceeded dynamic_limit_exceeded : RefinementError

abbrev pub max_query_refinement : ℕ
max_query_refinement = 3

abbrev pub max_rule_refinement : ℕ
max_rule_refinement = 2

abbrev pub max_dynamic_refinement : ℕ
max_dynamic_refinement = 2

-- `column == value`, which null does not satisfy.
abbrev pub is_id : String → Option String → Bool
is_id value none = false
is_id value (some column) = column == value

unfoldable pub count_for_detection_spec : String → Db → ℕ
count_for_detection_spec spec db =
    length
      (keep (λ (r : RefinementIteration). is_id spec r.detection_spec_id) db.refinement_iterations)

unfoldable pub count_for_rule : String → Db → ℕ
count_for_rule rule db =
    length (keep (λ (r : RefinementIteration). is_id rule r.rule_id) db.refinement_iterations)

module _ (uuid4 : ℕ → String) where
  unfoldable pub persist_iteration : Option String → Option String → Action RefinementError String
  persist_iteration spec rule = do
    id ← draw uuid4
    modify (λ db. record db {
      refinement_iterations =
          db.refinement_iterations
          ++ (record { id = id; detection_spec_id = spec; rule_id = rule }) ∷ [];
    })
    pure id

  unfoldable pub record_query_refinement : String → Action RefinementError String
  record_query_refinement spec = do
    count ← gets (count_for_detection_spec spec)
    require (ltb count max_query_refinement) query_limit_exceeded
    persist_iteration (some spec) none

  unfoldable pub record_rule_refinement : String → Action RefinementError String
  record_rule_refinement rule = do
    count ← gets (count_for_rule rule)
    require (ltb count max_rule_refinement) rule_limit_exceeded
    persist_iteration none (some rule)

  unfoldable pub record_dynamic_refinement : String → Action RefinementError String
  record_dynamic_refinement rule = do
    count ← gets (count_for_rule rule)
    require (ltb count max_dynamic_refinement) dynamic_limit_exceeded
    persist_iteration none (some rule)
