-- ===== src/Witnesses/Rules.antt =====
-- One specification with one clause, and the rule it gives.
use aicti.Base.{
  String, ◌≡◌, refl, true, none, some, List, [], ◌∷◌, map, ok, err, is_space, split_text, starts,
  strip, drop_text, text_length, if◌then◌else◌,
}
use aicti.Value.{Value, Fields, get, end, field, texts_of, nil, cons}
use aicti.Library.{Library}
use aicti.Db.{Db, DetectionSpec, empty}
use aicti.Sigma.{DetectionAst, all_of, compile, condition_expr, selection_name}
use aicti.Sigma.Matching.{rule_matches, unsupported_condition}
use aicti.Ingestion.{repeats_key}
use aicti.Hashing.{make_idempotency_key}
use aicti.Telemetry.{is_supported_telemetry_type, registry_get, field_exists}
use aicti.StaticValidation.{full}
use aicti.Detection.{SpecPayload, BehaviorRule, model_validate, is_attack_id}
use aicti.Detection.Clauses.{parse_contains_clauses}
use aicti.Detection.Ast.{from_spec, ast_of, dump_spec}
use aicti.Detection.Persisted.{build_detection_spec}
use aicti.Detection.Persisted.Generated.{rule_added, build_detection_spec-generate_sigma_rule}
use aicti.Detection.Generation.{generate_sigma_rule, schema_checked}
use aicti.Detection.Generation.Matched.{rule_matches-from_spec, is_few, asked}
use aicti.Detection.Generation.Provenance.{Generates, generate_sigma_rule-Generates}
use aicti.Witnesses.Components.{sample_library}
use aicti.Witnesses.Samples.{uuid4}

abbrev library : Library
library = record sample_library {
  sha256 = λ s. "0123456789abcdef";
  safe_dump = λ v. "title: a rule";
}

abbrev some_text : Value
some_text = Value.list (texts_of ("a" ∷ []))

abbrev document : Value
document = Value.dict (
    field "report_id" (Value.text "rep") (
      field "behavior_rules"
        (Value.list (
          cons
            (Value.dict (
              field "evidence" some_text (
                field "attack_ids" (Value.list (texts_of ("T1059.001" ∷ []))) (
                  field "required_telemetry" (Value.list (texts_of ("process_creation" ∷ [])))
                    (field "detection_logic" (Value.text "Image contains 'cmd'") end)))))
            nil))
        (field "false_positive_hypotheses" some_text (
          field "test_plan" (Value.text "t") (
            field "evidence_ids" some_text (
              field "behavior_ids" some_text (
                field "detection_strategy" (Value.text "t") (
                  field "analytic" (Value.text "t") (
                    field "data_component" (Value.text "t") (
                      field "allowed_telemetry_fields" some_text
                        (field "rationale_traceability" some_text end)))))))))))

abbrev rule : BehaviorRule
rule = record {
  evidence = "a" ∷ [];
  attack_ids = "T1059.001" ∷ [];
  required_telemetry = "process_creation" ∷ [];
  detection_logic = "Image contains 'cmd'";
}

abbrev payload : SpecPayload
payload = record {
  report_id = "rep";
  behavior_rules = rule ∷ [];
  false_positive_hypotheses = "a" ∷ [];
  test_plan = "t";
  evidence_ids = "a" ∷ [];
  behavior_ids = "a" ∷ [];
  detection_strategy = "t";
  analytic = "t";
  data_component = "t";
  allowed_telemetry_fields = "a" ∷ [];
  rationale_traceability = "a" ∷ [];
}

abbrev ast : DetectionAst
ast = ast_of library payload rule "process_creation" (("Image", "cmd") ∷ [])

abbrev event : Fields
event = field "Image" (Value.text "cmd.exe") end

rule_matches-from_spec_example :
    (first_rule : BehaviorRule) × (rules : List BehaviorRule) × (pairs : List (String × String))
    × (payload.behavior_rules ≡ first_rule ∷ rules)
    × (parse_contains_clauses library first_rule.detection_logic ≡ ok pairs)
    × (rule_matches library (compile library ast "t" "d" [] "low").detection event ≡ (
        if is_few pairs
        then ok (asked library event pairs)
        else err
            (unsupported_condition (condition_expr all_of (map selection_name ast.root.children)))))
unfolding from_spec is_space parse_contains_clauses split_text starts strip drop_text text_length
    is_supported_telemetry_type registry_get field_exists
rule_matches-from_spec_example =
    rule_matches-from_spec library (λ s. refl) (λ s. refl) payload ast refl refl "t" "d" [] "low"
      event

abbrev stored_spec : DetectionSpec
stored_spec = record {
  id = "s";
  report_id = "rep";
  abstain_code = none;
  spec_payload = some "document";
  is_validated = true;
}

abbrev before : Db
before = record empty { detection_specs = stored_spec ∷ [] }

generate_sigma_rule-Generates_example :
    Generates library
      (λ s. some document)
      uuid4
      "s"
      before
      (record { rule_id = "fresh"; detection_spec_id = "s" })
unfolding generate_sigma_rule get texts_of full schema_checked model_validate from_spec is_space
    parse_contains_clauses split_text starts strip drop_text text_length is_supported_telemetry_type
    registry_get field_exists
generate_sigma_rule-Generates_example =
    generate_sigma_rule-Generates library (λ s. some document) uuid4 "s" before
      (record { rule_id = "fresh"; detection_spec_id = "s" }) refl

build_detection_spec-generate_sigma_rule_example :
    let (built, after) =
      build_detection_spec library
        (λ v. "document")
        payload
        (some ("process_creation" ∷ []))
        empty in
    generate_sigma_rule library (λ s. some (dump_spec payload)) uuid4 "idem_0123456789abcdef" after
    ≡ (
      ok (record { rule_id = "fresh"; detection_spec_id = "idem_0123456789abcdef" }),
      rule_added library (λ s. some (dump_spec payload)) (λ v. "document") uuid4 payload ast after,
    )
unfolding build_detection_spec from_spec is_space parse_contains_clauses split_text starts strip
    drop_text text_length is_supported_telemetry_type registry_get field_exists is_attack_id
    repeats_key make_idempotency_key
build_detection_spec-generate_sigma_rule_example =
    build_detection_spec-generate_sigma_rule library (λ s. some (dump_spec payload))
      (λ v. "document") payload ast refl refl refl refl (some ("process_creation" ∷ [])) uuid4 empty
      (record {
        detection_spec_id = "idem_0123456789abcdef";
        report_id = "rep";
        abstain_code = none;
      })
      refl
