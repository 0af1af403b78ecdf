-- ===== src/Sigma.antt =====
-- schemas/detection_ast.py, schemas/sigma.py and services/sigma_compiler.py: the logic of a detection
-- and the Sigma rule that it is compiled to.
pub mod Matching
use aicti.Base.{take_text, String, ◌==◌, concat, join, Option, none, some, List, [], ◌∷◌, map, Bool}
use aicti.Value.{Value, Fields, end, field, set, texts_of, Items, nil, cons}
use aicti.Library.{Library}
use aicti.Hashing.{snapshot_hash}

pub data LogicOperator : Type 0 where
  all_of any_of not_of : LogicOperator

pub record FieldConditionNode : Type 0 where
  pub id : String
  pub field_name : String
  pub operator : String
  pub values : List String
  pub evidence_ids : List String

pub record LogicGroupNode : Type 0 where
  pub id : String
  pub operator : LogicOperator
  pub children : List FieldConditionNode

pub record DetectionAst : Type 0 where
  pub id : String
  pub detection_spec_id : String
  pub root : LogicGroupNode
  pub telemetry_source_id : String
  pub attack_techniques : List String

pub record SigmaLogsource : Type 0 where
  pub product : String
  pub category : String
  pub service : Option String

pub record SigmaRule : Type 0 where
  pub title : String
  pub id : String
  pub status : String
  pub description : String
  pub references : List String
  pub tags : List String
  pub logsource : SigmaLogsource
  pub detection : Fields
  pub falsepositives : List String
  pub level : String
  pub provenance : Fields

unfoldable pub text_list : List String → Value
text_list ss = Value.list (texts_of ss)

operator_text : LogicOperator → String
operator_text all_of = "all"
operator_text any_of = "any"
operator_text not_of = "not"

dump_conditions : List FieldConditionNode → Items
unfolding text_list
dump_conditions [] = nil
dump_conditions (c ∷ cs) =
    cons
      (Value.dict (
        field "id" (Value.text c.id) (
          field "node_type" (Value.text "field_condition") (
            field "field" (Value.text c.field_name) (
              field "operator" (Value.text c.operator) (
                field "values" (text_list c.values)
                  (field "evidence_ids" (text_list c.evidence_ids) end)))))))
      (dump_conditions cs)

-- `ast.model_dump(mode="json")`
dump_ast : DetectionAst → Value
unfolding text_list operator_text dump_conditions
dump_ast ast =
    let root = Value.dict (
      field "id" (Value.text ast.root.id) (
        field "node_type" (Value.text "logic_group") (
          field "operator" (Value.text (operator_text ast.root.operator))
            (field "children" (Value.list (dump_conditions ast.root.children)) end)))) in
    Value.dict (
      field "id" (Value.text ast.id) (
        field "detection_spec_id" (Value.text ast.detection_spec_id) (
          field "root" root (
            field "telemetry_source_id" (Value.text ast.telemetry_source_id)
              (field "attack_techniques" (text_list ast.attack_techniques) end)))))

unfoldable pub selection_name : FieldConditionNode → String
selection_name c = concat "selection_" c.id

unfoldable pub selection_of : FieldConditionNode → Value
unfolding text_list
selection_of c = Value.dict (field (concat c.field_name "|contains") (text_list c.values) end)

-- The loop over the conditions: what it leaves in `detection` and in `provenance`.
unfoldable pub add_selections : List FieldConditionNode → Fields → Fields
add_selections [] detection = detection
add_selections (c ∷ cs) detection =
    add_selections cs (set (selection_name c) (selection_of c) detection)

add_provenance : List FieldConditionNode → Fields → Fields
unfolding text_list
add_provenance [] provenance = provenance
add_provenance (c ∷ cs) provenance =
    add_provenance cs (set (selection_name c) (text_list c.evidence_ids) provenance)

unfoldable pub condition_expr : LogicOperator → List String → String
condition_expr all_of names = join " and " names
condition_expr any_of names = join " or " names
condition_expr not_of names = concat "not (" (concat (join " or " names) ")")

unfoldable pub compiled_detection : DetectionAst → Fields
compiled_detection ast =
    set "condition"
      (Value.text (condition_expr ast.root.operator (map selection_name ast.root.children)))
      (add_selections ast.root.children end)

module _ (library : Library) where
  unfoldable pub compile : DetectionAst → String → String → List String → String → SigmaRule
  unfolding dump_ast add_provenance
  compile ast title description falsepositives level = record {
    title = title;
    id = concat "sigma_" (take_text 16 (snapshot_hash library (dump_ast ast)));
    status = "experimental";
    description = description;
    references = [];
    tags = map (λ t. concat "attack." (library.lower t)) ast.attack_techniques;
    logsource = record { product = "windows"; category = "process_creation"; service = none };
    detection = compiled_detection ast;
    falsepositives = falsepositives;
    level = level;
    provenance = add_provenance ast.root.children end;
  }

  unfoldable pub dump_logsource : SigmaLogsource → Value
  dump_logsource l = elim l.service [
    | none ↦
        Value.dict
          (field "product" (Value.text l.product) (field "category" (Value.text l.category) end))
    | some s ↦ Value.dict (
        field "product" (Value.text l.product)
          (field "category" (Value.text l.category) (field "service" (Value.text s) end)))
  ]

  -- `rule.model_dump(exclude={"provenance"}, exclude_none=True)`; a compiled detection has no null.
  unfoldable pub dump_rule : SigmaRule → Value
  unfolding dump_logsource text_list
  dump_rule rule = Value.dict (
      field "title" (Value.text rule.title) (
        field "id" (Value.text rule.id) (
          field "status" (Value.text rule.status) (
            field "description" (Value.text rule.description) (
              field "references" (text_list rule.references) (
                field "tags" (text_list rule.tags) (
                  field "logsource" (dump_logsource rule.logsource) (
                    field "detection" (Value.dict rule.detection) (
                      field "falsepositives" (text_list rule.falsepositives)
                        (field "level" (Value.text rule.level) end))))))))))

  unfoldable pub to_yaml : SigmaRule → String
  to_yaml rule = library.safe_dump (dump_rule rule)
