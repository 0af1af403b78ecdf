-- ===== src/Sigma/Matching.antt =====
-- services/dynamic_validation.py: which events a Sigma rule matches. The precision and the recall of
-- `evaluate`, which no caller in the pipeline reads, are left out.
pub mod Meaning
pub mod Tokens
pub mod Compiled
use aicti.Base.{
  ℕ, suc, String, ◌==◌, Bool, true, false, ◌&&◌, ◌||◌, not, Option, none, some, List, [], ◌∷◌, map,
  any, contains, words, strip, split_once, Result, ok, err, ◌>>=◌, if◌then◌else◌, length,
}
use aicti.Value.{Value, Items, nil, cons, Fields, end, field, get}
use aicti.Library.{Library}
use aicti.Sigma.{SigmaRule, SigmaLogsource}
use aicti.Validation.{SyntheticValidationResult}

-- What `ValueError` says; `invalid_rule` stands for what `run_synthetic_validation` raises on a text
-- that is no YAML, is no mapping, or lacks what a rule must have.
pub data MatchError : Type 0 where
  unknown_selection unsupported_condition : String → MatchError
  invalid_rule : MatchError

-- `"|"` is the character 124.
unfoldable pub split_field_expr : String → String × String
split_field_expr field_expr = elim (split_once 124 field_expr) [
  | none ↦ (field_expr, "equals")
  | some (name, operator) ↦ (name, operator)
]

-- `eval_map[name]`, where `name` is a key.
unfoldable pub find_name : String → List (String × Bool) → Result MatchError Bool
find_name name [] = err (unknown_selection name)
find_name name ((n, b) ∷ evaluated) = if n == name then ok b else find_name name evaluated

combine : String → Bool → Bool → Bool
combine op left right = if op == "and" then left && right else left || right

-- The tests on the tokens; `left` is looked up before `right`, and neither unless `op` is known.
unfoldable pub by_tokens : String → List String → List (String × Bool) → Result MatchError Bool
unfolding combine
by_tokens condition (name ∷ []) evaluated = find_name name evaluated
by_tokens condition (left ∷ op ∷ right ∷ []) evaluated =
    if op == "and" || op == "or"
    then (do l ← find_name left evaluated; r ← find_name right evaluated; ok (combine op l r))
    else err (unsupported_condition condition)
by_tokens condition tokens evaluated = err (unsupported_condition condition)

unfoldable pub evaluate_condition : String → List (String × Bool) → Result MatchError Bool
evaluate_condition condition evaluated = by_tokens condition (words (strip condition)) evaluated

module _ (library : Library) where
  unfoldable pub strs : Items → List String
  strs nil = []
  strs (cons v vs) = library.str v ∷ strs vs

  -- `[str(value) for value in values]`
  unfoldable pub normalized_values : Value → List String
  normalized_values (Value.list vs) = strs vs
  normalized_values v = library.str v ∷ []

  -- `str(event.fields.get(field, ""))`
  unfoldable pub observed : String → Fields → String
  observed name event = elim (get name event) [ none ↦ "" | some v ↦ library.str v ]

  -- Whether neither test of the loop returns.
  unfoldable pub passes : String → List String → String → Bool
  passes operator values seen =
      not (operator == "contains" && not (any (λ v. contains v seen) values))
      && not (operator == "equals" && not (any (λ v. v == seen) values))

  unfoldable pub selection_matches : Fields → Fields → Bool
  selection_matches end event = true
  selection_matches (field field_expr expected selection) event =
      let (name, operator) = split_field_expr field_expr in
      passes operator (normalized_values expected) (observed name event)
      && selection_matches selection event

  -- `eval_map`
  unfoldable pub evaluated : Fields → Fields → List (String × Bool)
  evaluated end event = []
  evaluated (field key (Value.dict selection) detection) event =
      let rest = evaluated detection event in
      if key == "condition" then rest else (key, selection_matches selection event) ∷ rest
  evaluated (field key _ detection) event = evaluated detection event

  -- What follows from the value of `condition`.
  unfoldable pub by_condition : Option Value → List (String × Bool) → Result MatchError Bool
  by_condition (some (Value.text condition)) eval_map =
      if strip condition == ""
      then ok (any (λ p. p.1) eval_map)
      else evaluate_condition condition eval_map
  by_condition _ eval_map = ok (any (λ p. p.1) eval_map)

  unfoldable pub rule_matches : Fields → Fields → Result MatchError Bool
  rule_matches detection event =
      by_condition (get "condition" detection) (evaluated detection event)

  -- `sum(1 for event in events if self._matches(rule, event))`
  unfoldable pub count_matches : Fields → List Fields → Result MatchError ℕ
  count_matches detection [] = ok 0
  count_matches detection (event ∷ events) = do
    matched ← rule_matches detection event
    n ← count_matches detection events
    ok (if matched then suc n else n)

  -- `{str(key): str(value) for key, value in event.items()}`
  unfoldable pub text_fields : Fields → Fields
  text_fields end = end
  text_fields (field key v event) = field key (Value.text (library.str v)) (text_fields event)

  has_text : String → Fields → Bool
  has_text key fields = elim (get key fields) [ some (Value.text t) ↦ true | _ ↦ false ]

  -- Whether `SigmaLogsource(**value)` accepts it.
  unfoldable pub is_logsource : Value → Bool
  unfolding has_text
  is_logsource (Value.dict l) =
      has_text "product" l && has_text "category" l && elim (get "service" l) [
        | none ↦ true
        | some Value.null ↦ true
        | some (Value.text t) ↦ true
        | _ ↦ false
      ]
  is_logsource _ = false

  has_title : Fields → Bool
  has_title parsed = elim (get "title" parsed) [
    | none ↦ true
    | some (Value.text t) ↦ true
    | _ ↦ false
  ]

  has_logsource : Fields → Bool
  has_logsource parsed = elim (get "logsource" parsed) [ none ↦ true | some l ↦ is_logsource l ]

  -- The detection of the `SigmaRule` that is built from the parsed text; the rest of it is constant or
  -- not read again.
  unfoldable pub synthetic_detection : Option Value → Result MatchError Fields
  unfolding has_title has_logsource
  synthetic_detection (some (Value.dict parsed)) = elim (get "detection" parsed) [
    | some (Value.dict detection) ↦
        if has_title parsed && has_logsource parsed then ok detection else err invalid_rule
    | _ ↦ err invalid_rule
  ]
  synthetic_detection _ = err invalid_rule

  unfoldable pub run_synthetic_validation :
      String → List Fields → List Fields → Result MatchError SyntheticValidationResult
  run_synthetic_validation rule attack_events benign_events = do
    detection ← synthetic_detection (library.safe_load rule)
    true_positives ← count_matches detection (map text_fields attack_events)
    false_positives ← count_matches detection (map text_fields benign_events)
    ok (record {
      true_positives = true_positives;
      false_positives = false_positives;
      attack_total = length attack_events;
      benign_total = length benign_events;
    })
