-- ===== src/Feedback.antt =====
-- services/feedback_learning.py and services/regression.py with their schemas: the patterns that a reviewer
-- has rejected.
pub mod Learned
use aicti.Base.{
  String, ◌==◌, concat, Bool, true, ◌&&◌, not, List, [], ◌∷◌, elem, take_text, Result, ok, err,
  ◌>>=◌, ◌>>◌, require,
}
use aicti.Value.{Value, end, field}
use aicti.Library.{Library}
use aicti.Hashing.{snapshot_hash}

pub data FeedbackDecision : Type 0 where
  accept reject edit : FeedbackDecision

pub record ReviewFeedback : Type 0 where
  pub rule_candidate_id : String
  pub decision : FeedbackDecision
  pub reason : String
  pub pattern : String

pub record RegressionTest : Type 0 where
  pub id : String
  pub regression_type : String
  pub pattern : String
  pub source_rule_candidate_id : String
  pub reason : String

-- `ValidationGateError`, with the pattern that its message names.
pub data RegressionError : Type 0 where
  repeats_rejected : String → RegressionError

unfoldable pub decision_text : FeedbackDecision → String
decision_text accept = "accept"
decision_text reject = "reject"
decision_text edit = "edit"

unfoldable pub regression_type_of : FeedbackDecision → String
regression_type_of accept = "must_still_pass"
regression_type_of _ = "do_not_repeat"

module _ (library : Library) where
  unfoldable pub to_regression_test : ReviewFeedback → RegressionTest
  unfolding decision_text regression_type_of
  to_regression_test feedback = record {
    id = concat "regression_" (
        take_text 16 (
          snapshot_hash library (
            Value.dict (
              field "rule_candidate_id" (Value.text feedback.rule_candidate_id) (
                field "decision" (Value.text (decision_text feedback.decision)) (
                  field "reason" (Value.text feedback.reason)
                    (field "pattern" (Value.text feedback.pattern) end)))))));
    regression_type = regression_type_of feedback.decision;
    pattern = feedback.pattern;
    source_rule_candidate_id = feedback.rule_candidate_id;
    reason = feedback.reason;
  }

-- The rule of the candidate is not read.
unfoldable pub assert_candidate_safe :
    List RegressionTest → List String → Result RegressionError Bool
assert_candidate_safe [] candidate_patterns = ok true
assert_candidate_safe (regression ∷ regression_tests) candidate_patterns = do
  require
      (not (
        regression.regression_type == "do_not_repeat"
        && elem ◌==◌ regression.pattern candidate_patterns))
      (repeats_rejected regression.pattern)
  assert_candidate_safe regression_tests candidate_patterns
