-- ===== src/Detection.antt =====
-- schemas/detection_spec.py: what is read as the specification of a detection.
pub mod Clauses
pub mod Ast
pub mod Persisted
pub mod Generation
use aicti.Base.{
  ℕ, zero, suc, String, ◌==◌, Bool, true, false, ◌&&◌, ◌||◌, not, Option, none, some, List, [], ◌∷◌,
  map, any, elem, is_empty, strip, starts, drop_text, Result, ok, err, ◌>>=◌, ◌>>◌, require,
  if◌then◌else◌,
}
use Prim.Native.Char.{code}
use aicti.Value.{Value, Items, nil, cons, Fields, end, field, get}
use aicti.Library.{Library}

pub record BehaviorRule : Type 0 where
  pub evidence : List String
  pub attack_ids : List String
  pub required_telemetry : List String
  pub detection_logic : String

-- `DetectionSpec` of the schemas, which is the payload of a row of `detection_specs`.
pub record SpecPayload : Type 0 where
  pub report_id : String
  pub behavior_rules : List BehaviorRule
  pub false_positive_hypotheses : List String
  pub test_plan : String
  pub evidence_ids : List String
  pub behavior_ids : List String
  pub detection_strategy : String
  pub analytic : String
  pub data_component : String
  pub allowed_telemetry_fields : List String
  pub rationale_traceability : List String

-- Pydantic's `ValidationError`.
pub data SchemaError : Type 0 where
  invalid_payload : SchemaError

-- `extra="forbid"`
only_keys : List String → Fields → Bool
only_keys keys end = true
only_keys keys (field key v fs) = elem ◌==◌ key keys && only_keys keys fs

texts_in : Items → Result SchemaError (List String)
texts_in nil = ok []
texts_in (cons (Value.text t) vs) = do ts ← texts_in vs; ok (t ∷ ts)
texts_in (cons v vs) = err invalid_payload

-- A `list[str]` with `min_length=1`, which is then stripped and has no blank item.
cleaned_list : Option Value → Result SchemaError (List String)
unfolding texts_in
cleaned_list (some (Value.list vs)) = do
  ts ← texts_in vs
  let cleaned = map strip ts
  require (not (is_empty ts) && not (any (λ t. t == "") cleaned)) invalid_payload
  ok cleaned
cleaned_list _ = err invalid_payload

-- A `str` that is stripped and not blank.
stripped_text : Option Value → Result SchemaError String
stripped_text (some (Value.text t)) = do require (not (strip t == "")) invalid_payload; ok (strip t)
stripped_text _ = err invalid_payload

module _ (library : Library) where
  -- Whether the text is so many digits and then `rest`.
  unfoldable pub digits_then : (String → Bool) → ℕ → String → Bool
  digits_then rest zero s = rest s
  digits_then rest (suc n) String.[] = false
  digits_then rest (suc n) (String.◌∷◌ c s) = library.is_decimal (code c) && digits_then rest n s

  -- `ATTACK_ID_PATTERN.fullmatch`
  unfoldable pub is_attack_id : String → Bool
  unfolding digits_then
  is_attack_id s =
      let is_end = λ (t : String). t == "" in
      starts "T" s
      && digits_then (λ t. t == "" || (starts "." t && digits_then is_end 3 (drop_text 1 t))) 4
          (drop_text 1 s)

  unfoldable pub behavior_rule : Value → Result SchemaError BehaviorRule
  unfolding only_keys cleaned_list stripped_text is_attack_id
  behavior_rule (Value.dict fs) = do
    require
        (only_keys ("evidence" ∷ "attack_ids" ∷ "required_telemetry" ∷ "detection_logic" ∷ []) fs)
        invalid_payload
    evidence ← cleaned_list (get "evidence" fs)
    attack_ids ← cleaned_list (get "attack_ids" fs)
    require (not (any (λ i. not (is_attack_id i)) attack_ids)) invalid_payload
    telemetry ← cleaned_list (get "required_telemetry" fs)
    detection_logic ← stripped_text (get "detection_logic" fs)
    ok (record {
      evidence = evidence;
      attack_ids = attack_ids;
      required_telemetry = map library.lower telemetry;
      detection_logic = detection_logic;
    })
  behavior_rule _ = err invalid_payload

  rules_in : Items → Result SchemaError (List BehaviorRule)
  unfolding behavior_rule
  rules_in nil = ok []
  rules_in (cons v vs) = do rule ← behavior_rule v; rules ← rules_in vs; ok (rule ∷ rules)

  rule_list : Option Value → Result SchemaError (List BehaviorRule)
  unfolding rules_in
  rule_list (some (Value.list vs)) = do
    rules ← rules_in vs
    require (not (is_empty rules)) invalid_payload
    ok rules
  rule_list _ = err invalid_payload

  -- `DetectionSpec.model_validate`
  unfoldable pub model_validate : Value → Result SchemaError SpecPayload
  unfolding only_keys cleaned_list stripped_text rule_list
  model_validate (Value.dict fs) = do
    require
        (only_keys
          ("report_id" ∷ "behavior_rules" ∷ "false_positive_hypotheses" ∷ "test_plan"
            ∷ "evidence_ids" ∷ "behavior_ids" ∷ "detection_strategy" ∷ "analytic" ∷ "data_component"
            ∷ "allowed_telemetry_fields" ∷ "rationale_traceability" ∷ [])
          fs)
        invalid_payload
    report_id ← stripped_text (get "report_id" fs)
    rules ← rule_list (get "behavior_rules" fs)
    false_positive_hypotheses ← cleaned_list (get "false_positive_hypotheses" fs)
    test_plan ← stripped_text (get "test_plan" fs)
    evidence_ids ← cleaned_list (get "evidence_ids" fs)
    behavior_ids ← cleaned_list (get "behavior_ids" fs)
    detection_strategy ← stripped_text (get "detection_strategy" fs)
    analytic ← stripped_text (get "analytic" fs)
    data_component ← stripped_text (get "data_component" fs)
    allowed_telemetry_fields ← cleaned_list (get "allowed_telemetry_fields" fs)
    rationale_traceability ← cleaned_list (get "rationale_traceability" fs)
    ok (record {
      report_id = report_id;
      behavior_rules = rules;
      false_positive_hypotheses = false_positive_hypotheses;
      test_plan = test_plan;
      evidence_ids = evidence_ids;
      behavior_ids = behavior_ids;
      detection_strategy = detection_strategy;
      analytic = analytic;
      data_component = data_component;
      allowed_telemetry_fields = allowed_telemetry_fields;
      rationale_traceability = rationale_traceability;
    })
  model_validate _ = err invalid_payload
