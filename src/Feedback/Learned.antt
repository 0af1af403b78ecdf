-- ===== src/Feedback/Learned.antt =====
-- Feedback that is learned, against the candidates that come after it.
use aicti.Base.{
  String, ◌==◌, ◌≡◌, refl, ap, ◌∙◌, Bool, true, false, ◌&&◌, not, Option, none, some, List, [], ◌∷◌,
  map, first, elem, Result, ok, err, ◌>>◌, require, if◌then◌else◌,
}
use aicti.Library.{Library}
use aicti.Feedback.{
  FeedbackDecision, accept, reject, edit, ReviewFeedback, RegressionError, repeats_rejected,
  to_regression_test, regression_type_of, assert_candidate_safe,
}

-- Feedback other than an acceptance, on one of the patterns.
abbrev pub is_against : List String → ReviewFeedback → Bool
is_against patterns feedback = elim feedback.decision [
  | accept ↦ false
  | _ ↦ elem ◌==◌ feedback.pattern patterns
]

-- The answer that the first such feedback asks for.
abbrev pub verdict : Option ReviewFeedback → Result RegressionError Bool
verdict none = ok true
verdict (some feedback) = err (repeats_rejected feedback.pattern)

is_against-test :
    (decision : FeedbackDecision) (hit : Bool)
    → ((regression_type_of decision == "do_not_repeat") && hit)
      ≡ elim decision [ accept ↦ false | _ ↦ hit ]
unfolding regression_type_of
is_against-test accept hit = refl
is_against-test reject hit = refl
is_against-test edit hit = refl

one_more :
    (hit : Bool) (feedback : ReviewFeedback) (rest : Result RegressionError Bool)
    (later : Option ReviewFeedback)
    → rest ≡ verdict later
    → (require (not hit) (repeats_rejected feedback.pattern) >> rest)
      ≡ verdict (if hit then some feedback else later)
one_more true feedback rest later h = refl
one_more false feedback rest later h = h

-- The tests learned from a list of feedback accept the patterns of a candidate exactly when no rejection and no edit
-- in the list is about one of the patterns, and else raise the error for the pattern of the first that is.
pub assert_candidate_safe-to_regression_test :
    (library : Library) (history : List ReviewFeedback) (patterns : List String)
    → assert_candidate_safe (map (to_regression_test library) history) patterns
      ≡ verdict (first (is_against patterns) history)
unfolding assert_candidate_safe to_regression_test
assert_candidate_safe-to_regression_test library [] patterns = refl
assert_candidate_safe-to_regression_test library (feedback ∷ history) patterns =
    let rest = assert_candidate_safe (map (to_regression_test library) history) patterns in
    ap (λ b. require (not b) (repeats_rejected feedback.pattern) >> rest)
      (is_against-test feedback.decision (elem ◌==◌ feedback.pattern patterns))
    ∙ one_more (is_against patterns feedback) feedback rest (first (is_against patterns) history)
        (assert_candidate_safe-to_regression_test library history patterns)
