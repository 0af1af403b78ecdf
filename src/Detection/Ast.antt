-- ===== src/Detection/Ast.antt =====
-- services/detection_ast_service.py: the logic that a specification gives.
use aicti.Base.{
  String, concat, Bool, true, not, List, [], ◌∷◌, map, is_empty, take_text, Result, ok, err, ◌>>=◌,
  ◌>>◌, require,
}
use aicti.Value.{Value, Items, nil, cons, end, field, texts_of}
use aicti.Library.{Library}
use aicti.Hashing.{snapshot_hash}
use aicti.Telemetry.{is_supported_telemetry_type, field_exists}
use aicti.Sigma.{FieldConditionNode, DetectionAst, all_of}
use aicti.Detection.{BehaviorRule, SpecPayload}
use aicti.Detection.Clauses.{
  AstError, rules_missing, index_error, telemetry_unsupported, field_unsupported,
  parse_contains_clauses,
}

unfoldable pub check_fields : String → List (String × String) → Result AstError (Unit {0})
check_fields telemetry_source_id [] = ok tt
check_fields telemetry_source_id ((name, needle) ∷ parsed_conditions) = do
  require (field_exists telemetry_source_id name) (field_unsupported name)
  check_fields telemetry_source_id parsed_conditions

unfoldable pub validate_telemetry : String → List (String × String) → Result AstError (Unit {0})
unfolding check_fields
validate_telemetry telemetry_source_id parsed_conditions = do
  require (is_supported_telemetry_type telemetry_source_id)
      (telemetry_unsupported telemetry_source_id)
  check_fields telemetry_source_id parsed_conditions

-- The first telemetry type.
unfoldable pub first_telemetry : List String → Result AstError String
first_telemetry [] = err index_error
first_telemetry (t ∷ ts) = ok t

unfoldable pub dump_behavior_rules : List BehaviorRule → Items
dump_behavior_rules [] = nil
dump_behavior_rules (rule ∷ rules) =
    cons
      (Value.dict (
        field "evidence" (Value.list (texts_of rule.evidence)) (
          field "attack_ids" (Value.list (texts_of rule.attack_ids)) (
            field "required_telemetry" (Value.list (texts_of rule.required_telemetry))
              (field "detection_logic" (Value.text rule.detection_logic) end)))))
      (dump_behavior_rules rules)

-- `spec.model_dump(mode="json")`
unfoldable pub dump_spec : SpecPayload → Value
unfolding dump_behavior_rules
dump_spec spec = Value.dict (
    field "report_id" (Value.text spec.report_id) (
      field "behavior_rules" (Value.list (dump_behavior_rules spec.behavior_rules)) (
        field "false_positive_hypotheses" (Value.list (texts_of spec.false_positive_hypotheses)) (
          field "test_plan" (Value.text spec.test_plan) (
            field "evidence_ids" (Value.list (texts_of spec.evidence_ids)) (
              field "behavior_ids" (Value.list (texts_of spec.behavior_ids)) (
                field "detection_strategy" (Value.text spec.detection_strategy) (
                  field "analytic" (Value.text spec.analytic) (
                    field "data_component" (Value.text spec.data_component) (
                      field "allowed_telemetry_fields"
                        (Value.list (texts_of spec.allowed_telemetry_fields))
                        (field "rationale_traceability"
                          (Value.list (texts_of spec.rationale_traceability)) end)))))))))))

module _ (library : Library) where
  unfoldable pub node_id : String × String → String
  node_id (name, needle) = concat "cond_" (
      take_text 10 (
        snapshot_hash library
          (Value.dict (field "field" (Value.text name) (field "needle" (Value.text needle) end)))))

  unfoldable pub condition_node : List String → String × String → FieldConditionNode
  unfolding node_id
  condition_node evidence_ids (name, needle) = record {
    id = node_id (name, needle);
    field_name = name;
    operator = "contains_any";
    values = needle ∷ [];
    evidence_ids = evidence_ids;
  }

  -- The result, with the clauses read.
  unfoldable pub ast_of :
      SpecPayload → BehaviorRule → String → List (String × String) → DetectionAst
  unfolding dump_spec condition_node
  ast_of spec rule telemetry_source_id parsed_conditions = record {
    id = concat "ast_" (take_text 12 (snapshot_hash library (dump_spec spec)));
    detection_spec_id = spec.report_id;
    root = record {
      id = concat "group_" (take_text 10 (snapshot_hash library (Value.text spec.report_id)));
      operator = all_of;
      children = map (condition_node rule.evidence) parsed_conditions;
    };
    telemetry_source_id = telemetry_source_id;
    attack_techniques = rule.attack_ids;
  }

  -- With the clauses that the logic gives.
  unfoldable pub from_clauses :
      SpecPayload → BehaviorRule → String → List (String × String) → Result AstError DetectionAst
  unfolding validate_telemetry ast_of
  from_clauses spec rule telemetry_source_id parsed_conditions = do
    validate_telemetry telemetry_source_id parsed_conditions
    ok (ast_of spec rule telemetry_source_id parsed_conditions)

  unfoldable pub from_telemetry : SpecPayload → BehaviorRule → String → Result AstError DetectionAst
  unfolding from_clauses
  from_telemetry spec rule telemetry_source_id =
      parse_contains_clauses library rule.detection_logic
      >>= from_clauses spec rule telemetry_source_id

  -- The evidence of a rule is never empty, by the schema, as the nodes ask.
  unfoldable pub from_rules : SpecPayload → List BehaviorRule → Result AstError DetectionAst
  unfolding from_telemetry first_telemetry
  from_rules spec [] = err rules_missing
  from_rules spec (rule ∷ rules) =
      first_telemetry rule.required_telemetry >>= from_telemetry spec rule

  unfoldable pub from_spec : SpecPayload → Result AstError DetectionAst
  unfolding from_rules
  from_spec spec = from_rules spec spec.behavior_rules

-- services/detection_spec_verifier.py
unfoldable pub check_telemetry : List String → Result AstError (Unit {0})
check_telemetry [] = ok tt
check_telemetry (telemetry ∷ ts) = do
  require (is_supported_telemetry_type telemetry) (telemetry_unsupported telemetry)
  check_telemetry ts

check_rules : List BehaviorRule → Result AstError (Unit {0})
unfolding check_telemetry
check_rules [] = ok tt
check_rules (rule ∷ rules) = do check_telemetry rule.required_telemetry; check_rules rules

unfoldable pub verify : SpecPayload → Result AstError Bool
unfolding check_rules
verify spec = do
  require (not (is_empty spec.behavior_rules)) rules_missing
  check_rules spec.behavior_rules
  ok true
