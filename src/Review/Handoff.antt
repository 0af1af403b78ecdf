-- ===== src/Review/Handoff.antt =====
-- services/review.py: `assert_can_export`, which asks for the handoff memory and the latest decision.
pub mod Recorded
use aicti.Base.{
  ℕ, String, ◌==◌, ◌=?◌, Bool, true, false, ◌&&◌, ◌||◌, not, Option, none, some, List, [], ◌∷◌, any,
  all, keep, first, elem, is_empty, concat, Result, ok, err, ◌>>=◌, ◌>>◌, require, if◌then◌else◌,
}
use aicti.Value.{Value, Items, nil, cons, Fields, end, field, get, is_text}
use aicti.Db.{Db, ReviewDecision, MemoryView, ProofObligationRecord}
use aicti.Proofs.Obligations.{ProofObligation, ProofObligationError, verify_selectable}
use aicti.Review.{
  allowed_review_decisions, handoff_scope, run_handoff_scope, of_run, get_latest_decision,
  can_export,
}

-- `ExportBlockedError`, by what it says; `not_hashable` and `no_mapping` stand for the `TypeError` and
-- the `AttributeError` on a handoff memory of another shape.
pub data ExportBlocked : Type 0 where
  handoff_required approval_required proof_gate_failed not_hashable no_mapping : ExportBlocked
  not_selectable : ProofObligationError → ExportBlocked

-- `bool(payload.get(key))`
unfoldable pub is_truthy : Option Value → Bool
is_truthy (some (Value.bool b)) = b
is_truthy (some (Value.int n)) = not (n =? 0)
is_truthy (some (Value.neg_int n)) = true
is_truthy (some (Value.float t)) = not (t == "0.0" || t == "-0.0")
is_truthy (some (Value.text s)) = not (s == "")
is_truthy (some (Value.list (cons v vs))) = true
is_truthy (some (Value.dict (field key v fields))) = true
is_truthy _ = false

-- `payload.get(key) == b` for a Boolean `b`, which is equal to 0 or 1 too.
unfoldable pub is_bool : Option Value → Bool → Bool
is_bool (some (Value.bool b)) true = b
is_bool (some (Value.bool b)) false = not b
is_bool (some (Value.int n)) true = n =? 1
is_bool (some (Value.int n)) false = n =? 0
is_bool (some (Value.float t)) true = t == "1.0"
is_bool (some (Value.float t)) false = t == "0.0" || t == "-0.0"
is_bool _ b = false

-- `run_id is None or payload_run_id == run_id`
unfoldable pub is_of_run : Option String → Option Value → Bool
is_of_run none v = true
is_of_run (some run_id) v = is_text v run_id

-- The conditions on the memory, for its decision.
unfoldable pub handoff_holds : Fields → Option String → String → Bool
handoff_holds payload run_id decision =
    elem ◌==◌ decision allowed_review_decisions
    && is_bool (get "approved" payload) (decision == "approved")
    && is_truthy (get "decision_id" payload)
    && is_truthy (get "reviewer" payload)
    && is_truthy (get "run_id" payload)
    && is_of_run run_id (get "run_id" payload)

unfoldable pub handoff_of : Fields → Option String → Option Value → Result ExportBlocked Bool
handoff_of payload run_id (some (Value.text decision)) = ok (handoff_holds payload run_id decision)
handoff_of payload run_id (some (Value.list vs)) = err not_hashable
handoff_of payload run_id (some (Value.dict fields)) = err not_hashable
handoff_of payload run_id _ = ok false

unfoldable pub scope_for : String → Option String → String
scope_for rule_id none = handoff_scope rule_id
scope_for rule_id (some run_id) = run_handoff_scope rule_id run_id

abbrev pub is_latest : String → MemoryView → Bool
is_latest scope v = v.scope == scope && v.key == "latest"

-- From the value of the row on, which is `none` where it is no JSON.
unfoldable pub read_value : Option String → Option Value → Result ExportBlocked Bool
read_value run_id none = ok false
read_value run_id (some (Value.dict payload)) = handoff_of payload run_id (get "decision" payload)
read_value run_id (some _) = err no_mapping

unfoldable pub read_handoff : Option String → Option MemoryView → Result ExportBlocked Bool
read_handoff run_id none = ok false
read_handoff run_id (some view) = read_value run_id view.value

unfoldable pub has_review_handoff_memory : String → Option String → Db → Result ExportBlocked Bool
has_review_handoff_memory rule_id run_id db =
    read_handoff run_id (first (is_latest (scope_for rule_id run_id)) db.memory_views)

unfoldable pub is_some : Option String → Bool
is_some none = false
is_some (some run_id) = true

unfoldable pub failed_or_unknown : Option String → List ProofObligationRecord → Bool
failed_or_unknown run_id [] = is_some run_id
failed_or_unknown run_id (o ∷ os) =
    any (λ (p : ProofObligationRecord). not (p.status == "proven")) (o ∷ os)

unfoldable pub has_failed_or_unknown_proof_obligations : String → Option String → Db → Bool
has_failed_or_unknown_proof_obligations rule_id run_id db = failed_or_unknown run_id (
    keep (λ (o : ProofObligationRecord). o.rule_candidate_id == rule_id && of_run run_id o.run_id)
      db.proof_obligations)

-- `latest_decision.decision`
unfoldable pub decision_of : Option ReviewDecision → Result ExportBlocked String
decision_of none = err approval_required
decision_of (some latest) = ok latest.decision

unfoldable pub selectable_or_blocked :
    Result ProofObligationError Bool → Result ExportBlocked (Unit {0})
selectable_or_blocked (ok b) = ok tt
selectable_or_blocked (err e) = err (not_selectable e)

-- The gate on the obligations that are given, or on those stored.
unfoldable pub proof_gate :
    String → Option (List ProofObligation) → Option String → Db → Result ExportBlocked (Unit {0})
proof_gate rule_id (some obligations) run_id db =
    selectable_or_blocked (verify_selectable obligations)
proof_gate rule_id none run_id db =
    require (not (has_failed_or_unknown_proof_obligations rule_id run_id db)) proof_gate_failed

unfoldable pub assert_can_export :
    String
    → String
    → Option (List ProofObligation)
    → Option String
    → Db
    → Result ExportBlocked (Unit {0})
assert_can_export rule_id rule_status obligations run_id db = do
  handed_over ← has_review_handoff_memory rule_id run_id db
  require handed_over handoff_required
  decision ← decision_of (get_latest_decision rule_id run_id db)
  require (can_export rule_status (some decision)) approval_required
  proof_gate rule_id obligations run_id db
