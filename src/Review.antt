-- ===== src/Review.antt =====
-- services/review.py: review decisions and the handoff memory beside them.
-- The database has the present columns, `run_id` and `comments` among them. `uuid4` gives the n-th
-- identifier drawn, and `now` is what `time_ns` returns.
pub mod Decisions
pub mod Handoff
use aicti.Base.{
  ℕ, suc, String, ◌==◌, ◌=?◌, Bool, true, false, ◌&&◌, ◌||◌, not, Option, none, some, List, [], ◌∷◌,
  ◌++◌, any, keep, first, elem, is_empty, concat, text_lt, strip, ltb, Result, ok, err,
  if◌then◌else◌,
}
use aicti.Value.{Value, Fields, end, field, get, is_text}
use aicti.Db.{Db, ReviewDecision, MemoryView, ProofObligationRecord}
use aicti.Db.Action.{Action, ◌>>=◌, ◌>>◌, pure, raise, gets, modify, require, draw}
use aicti.Graph.{upsert_node, add_edge, flush}

-- `ValueError` of `record_decision`.
pub data ReviewError : Type 0 where
  invalid_decision : String → ReviewError
  reviewer_required : ReviewError

abbrev pub allowed_review_decisions : List String
allowed_review_decisions = "approved" ∷ "rejected" ∷ []

abbrev pub system_reviewers : List String
system_reviewers = "api-reviewer" ∷ []

unfoldable pub is_human : String → Bool
is_human reviewer = not (reviewer == "" || elem ◌==◌ reviewer system_reviewers)

validated_reviewer : String → Action ReviewError String
validated_reviewer reviewer = do
  let normalized = strip reviewer
  require (is_human normalized) reviewer_required
  pure normalized

abbrev pub handoff_scope : String → String
handoff_scope rule_id = concat rule_id ":review.handoff"

abbrev pub run_handoff_scope : String → String → String
run_handoff_scope rule_id run_id = concat rule_id (concat ":" (concat run_id ":review.handoff"))

abbrev latest_in : List String → MemoryView → Bool
latest_in scopes v = elem ◌==◌ v.scope scopes && v.key == "latest"

-- The object that both views hold.
handoff : String → String → String → String → Value
handoff decision reviewer run_id decision_id = Value.dict (
    field "approved" (Value.bool (decision == "approved")) (
      field "decision" (Value.text decision) (
        field "reviewer" (Value.text reviewer)
          (field "run_id" (Value.text run_id) (field "decision_id" (Value.text decision_id) end)))))

latest_view : Value → String → MemoryView
latest_view value scope = record { scope = scope; key = "latest"; value = some value }

-- The INSERT of the decision, and the DELETE and the two INSERTs of the views.
save_decision : String → String → Value → ReviewDecision → Db → Db
unfolding latest_view
save_decision rule_id run_id value row db =
    let scopes = handoff_scope rule_id ∷ run_handoff_scope rule_id run_id ∷ [] in
    record db {
      review_decisions = db.review_decisions ++ row ∷ [];
      memory_views =
          keep (λ v. not (latest_in scopes v)) db.memory_views
          ++ latest_view value (handoff_scope rule_id)
            ∷ latest_view value (run_handoff_scope rule_id run_id)
            ∷ [];
    }

module _ (uuid4 : ℕ → String) where
  pub link_decision : String → String → String → String → String → Action ReviewError String
  link_decision run_id rule_id decision_id decision reviewer = do
    rule_node ← upsert_node uuid4 run_id "generated_rule" "generated_rules" rule_id end
    decision_node ←
        upsert_node uuid4 run_id "review_decision" "review_decisions" decision_id
          (field "decision" (Value.text decision) (field "reviewer" (Value.text reviewer) end))
    edge ← add_edge uuid4 run_id rule_node decision_node "validated_by"
    modify flush
    pure edge

  unfoldable pub record_decision :
      ℕ → String → String → String → String → String → Action ReviewError String
  unfolding validated_reviewer handoff save_decision link_decision
  record_decision now rule_id decision reviewer run_id comments = do
    require (elem ◌==◌ decision allowed_review_decisions) (invalid_decision decision)
    reviewer' ← validated_reviewer reviewer
    id ← draw uuid4
    modify (
        save_decision rule_id run_id (handoff decision reviewer' run_id id) (record {
          id = id;
          rule_id = rule_id;
          run_id = run_id;
          decision = decision;
          reviewer = reviewer';
          comments = comments;
          created_at = now;
        }))
    edge ← link_decision run_id rule_id id decision reviewer'
    pure id

-- `:run_id IS NULL OR run_id = :run_id`
abbrev pub of_run : Option String → String → Bool
of_run none run = true
of_run (some run_id) run = run == run_id

-- `ORDER BY created_at DESC, id DESC`
abbrev pub is_later : ReviewDecision → ReviewDecision → Bool
is_later a b = ltb b.created_at a.created_at || (b.created_at =? a.created_at && text_lt b.id a.id)

unfoldable pub latest_of : List ReviewDecision → Option ReviewDecision
latest_of [] = none
latest_of (d ∷ ds) = elim (latest_of ds) [
  | none ↦ some d
  | some e ↦ if is_later d e then some d else some e
]

unfoldable pub get_latest_decision : String → Option String → Db → Option ReviewDecision
get_latest_decision rule_id run_id db =
    latest_of (keep (λ d. d.rule_id == rule_id && of_run run_id d.run_id) db.review_decisions)

pub can_export : String → Option String → Bool
can_export rule_status none = false
can_export rule_status (some decision) = rule_status == "awaiting_review" && decision == "approved"
