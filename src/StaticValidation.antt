-- ===== src/StaticValidation.antt =====
-- services/static_validation.py: the checks on the text of a generated rule, with services/sigma_validator.py
-- and services/broad_rule_detector.py. The scores of `validate` and the retrieval check are left out.
pub mod Compiled
use aicti.Base.{
  sorted_texts, ℕ, String, ◌==◌, concat, contains, take_text, strip, Bool, true, false, ◌&&◌, ◌||◌,
  not, Option, none, some, List, [], ◌∷◌, ◌++◌, map, any, all, elem, keep, first, is_empty, length,
  Result, ok, err, ◌>>=◌, if◌then◌else◌, ◌=?◌, split_once,
}
use aicti.Value.{Value, Items, nil, cons, Fields, end, field, get, is_text}
use aicti.Library.{Library}
use aicti.Db.{Db, GeneratedRule, DetectionSpec}
use aicti.Sigma.{SigmaRule}
use aicti.Sigma.Matching.{normalized_values}
use aicti.Telemetry.{process_creation_allowed_fields}

-- `AttributeError`: `get` of what is no mapping.
pub data StaticError : Type 0 where
  attribute_error : StaticError

pub record ValidationReport : Type 0 where
  pub is_valid : Bool
  pub issues : List String

-- `set(issues)`
without_repeats : List String → List String
without_repeats [] = []
without_repeats (s ∷ ss) =
    let rest = without_repeats ss in if elem ◌==◌ s rest then rest else s ∷ rest

unfoldable pub rejected : List String → ValidationReport
unfolding without_repeats
rejected issues = record { is_valid = false; issues = sorted_texts (without_repeats issues) }

-- The report on the issues found.
unfoldable pub report_on : List String → ValidationReport
unfolding without_repeats
report_on issues = record {
  is_valid = is_empty issues;
  issues = sorted_texts (without_repeats issues);
}

is_dict : Option Value → Bool
is_dict (some (Value.dict fields)) = true
is_dict _ = false

unfoldable pub validate_structure : Fields → List String
unfolding is_dict
validate_structure parsed =
    (if is_dict (get "logsource" parsed) then [] else "missing logsource structure" ∷ [])
    ++ (if is_dict (get "detection" parsed) then [] else "invalid detection structure" ∷ [])

-- What `get(key, {})` gives, where it must have a `get` itself.
unfoldable pub mapping_or_empty : Option Value → Result StaticError Fields
mapping_or_empty none = ok end
mapping_or_empty (some (Value.dict fields)) = ok fields
mapping_or_empty (some _) = err attribute_error

-- `key.split("|", 1)[0]`
before_bar : String → String
before_bar key = elim (split_once 124 key) [ none ↦ key | some (front, back) ↦ front ]

unfoldable pub unknown_fields : Fields → List String
unfolding before_bar
unknown_fields end = []
unknown_fields (field key v selection) =
    let rest = unknown_fields selection in
    if elem ◌==◌ (before_bar key) process_creation_allowed_fields
    then rest
    else concat "unknown telemetry field: " (before_bar key) ∷ rest

unfoldable pub selection_issues : Option Value → List String
selection_issues none = []
selection_issues (some (Value.dict selection)) = unknown_fields selection
selection_issues (some _) = "invalid detection selection structure" ∷ []

-- The tests after that of the category.
unfoldable pub field_issues : Bool → Option Value → Result StaticError (List String)
field_issues false detection = ok ("unknown or unsupported telemetry category" ∷ [])
field_issues true detection = do
  fields ← mapping_or_empty detection
  ok (selection_issues (get "selection" fields))

unfoldable pub validate_telemetry_and_fields : Fields → Result StaticError (List String)
validate_telemetry_and_fields parsed = do
  logsource ← mapping_or_empty (get "logsource" parsed)
  field_issues (is_text (get "category" logsource) "process_creation") (get "detection" parsed)

-- `set(selection.keys()) == {"EventID"}`
only_event_id : Fields → Bool
only_event_id end = false
only_event_id (field key v end) = key == "EventID"
only_event_id (field key v rest) = key == "EventID" && only_event_id rest

-- `value == 1`
is_one : Value → Bool
is_one (Value.int n) = n =? 1
is_one (Value.bool b) = b
is_one (Value.float t) = t == "1.0"
is_one _ = false

unfoldable pub specific_issues : String → List String
specific_issues rule_content =
    if not (contains "Image|contains" rule_content)
      && not (contains "CommandLine|contains" rule_content)
    then "rule is too broad: missing behavior-specific selectors" ∷ []
    else []

-- A text that is null or empty is none.
unfoldable pub full : Option String → Option String
full none = none
full (some s) = if s == "" then none else some s

unfoldable pub has_spec : String → Db → Bool
unfolding full
has_spec id db = elim (first (λ (s : DetectionSpec). s.id == id) db.detection_specs) [
  | none ↦ false
  | some spec ↦ elim (full spec.spec_payload) [ none ↦ false | some payload ↦ spec.is_validated ]
]

unfoldable pub broad_issues : Bool → String → List String
broad_issues true rule_content = "rule is overbroad: matches all process_creation events" ∷ []
broad_issues false rule_content = specific_issues rule_content

module _ (library : Library) where
  unfoldable pub matches_all : Option Value → Bool
  unfolding only_event_id is_one
  matches_all (some (Value.dict selection)) =
      only_event_id selection
      && elim (get "EventID" selection) [ none ↦ false | some v ↦ library.str v == "1" || is_one v ]
  matches_all _ = false

  unfoldable pub validate_overbroad : String → Fields → List String
  unfolding matches_all
  validate_overbroad rule_content parsed = elim (get "detection" parsed) [
    | some (Value.dict detection) ↦
        broad_issues (matches_all (get "selection" detection)) rule_content
    | none ↦ specific_issues rule_content
    | some _ ↦ []
  ]

  unfoldable pub validate_parsed : String → Fields → Result StaticError ValidationReport
  validate_parsed rule_content parsed = do
    fields ← validate_telemetry_and_fields parsed
    ok (report_on (validate_structure parsed ++ (fields ++ validate_overbroad rule_content parsed)))

  -- From the result of `safe_load` on.
  unfoldable pub validate_loaded : String → Option Value → Result StaticError ValidationReport
  validate_loaded rule_content none = ok (rejected ("invalid sigma yaml syntax" ∷ []))
  validate_loaded rule_content (some (Value.dict parsed)) = validate_parsed rule_content parsed
  validate_loaded rule_content (some _) = ok (rejected ("invalid sigma structure" ∷ []))

  unfoldable pub validate_content : String → Result StaticError ValidationReport
  validate_content rule_content = validate_loaded rule_content (library.safe_load rule_content)

  unfoldable pub validate_rule : String → Db → Result StaticError ValidationReport
  unfolding full has_spec
  validate_rule rule_id db =
      elim (first (λ (r : GeneratedRule). r.id == rule_id) db.generated_rules) [
        | none ↦ ok (rejected ("rule not found or empty content" ∷ []))
        | some rule ↦ elim (full rule.rule_content) [
          | none ↦ ok (rejected ("rule not found or empty content" ∷ []))
          | some content ↦
              if has_spec rule.detection_spec_id db
              then validate_content content
              else ok (rejected ("missing validated DetectionSpec" ∷ []))
        ]
      ]
