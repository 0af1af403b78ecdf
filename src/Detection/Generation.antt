-- ===== src/Detection/Generation.antt =====
-- services/rule_generation.py: the rule of a specification.
pub mod Provenance
pub mod Matched
use aicti.Base.{
  ℕ, suc, String, ◌==◌, concat, Bool, true, false, Option, none, some, List, [], ◌∷◌, ◌++◌, first,
  Result, ok, err, ◌>>=◌, ◌>>◌, require, if◌then◌else◌,
}
use aicti.Value.{Value, Fields, end, field, get}
use aicti.Library.{Library}
use aicti.Db.{Db, DetectionSpec, GeneratedRule}
use aicti.Sigma.{DetectionAst, SigmaRule, compile, to_yaml, dump_rule}
use aicti.StaticValidation.{full}
use aicti.Detection.{SchemaError, SpecPayload, model_validate}
use aicti.Detection.Clauses.{AstError}
use aicti.Detection.Ast.{from_spec}

-- `UnvalidatedDetectionSpecError` with its messages, the `ValueError` on a payload that is missing,
-- pydantic's `ValidationError`, and the errors of the logic.
pub data GenerationError : Type 0 where
  spec_not_validated spec_abstains payload_missing payload_invalid : GenerationError
  gate : AstError → GenerationError

pub record RuleGenerationResult : Type 0 where
  pub rule_id : String
  pub detection_spec_id : String

unfoldable pub schema_checked : Result SchemaError SpecPayload → Result GenerationError SpecPayload
schema_checked (ok spec) = ok spec
schema_checked (err e) = err payload_invalid

unfoldable pub gate_checked : Result AstError DetectionAst → Result GenerationError DetectionAst
gate_checked (ok ast) = ok ast
gate_checked (err e) = err (gate e)

-- The tests on the row that the query finds.
unfoldable pub check_found : Option DetectionSpec → Result GenerationError DetectionSpec
check_found none = err spec_not_validated
check_found (some spec) = do
  require (elim spec.abstain_code [ none ↦ true | some code ↦ false ]) spec_abstains
  require spec.is_validated spec_not_validated
  ok spec

unfoldable pub get_validated_detection_spec : String → Db → Result GenerationError DetectionSpec
unfolding check_found
get_validated_detection_spec detection_spec_id db =
    check_found (first (λ (s : DetectionSpec). s.id == detection_spec_id) db.detection_specs)

abbrev pub rule_title : String
rule_title = "DE-Forge Generated Suspicious Process Execution"

abbrev pub rule_description : String
rule_description = "Generated from validated DetectionSpec"

-- `loads` reads a text as JSON, and is none where it is not.
module _ (library : Library) (loads : String → Option Value) where
  unfoldable pub payload_of : Option Value → Result GenerationError SpecPayload
  payload_of none = err payload_invalid
  payload_of (some v) = schema_checked (model_validate library v)

  -- The rule of a logic.
  unfoldable pub compiled_rule : DetectionAst → String → SigmaRule
  compiled_rule ast level = compile library ast rule_title rule_description [] level

  unfoldable pub sigma_of : DetectionAst → Result GenerationError (String × String × String)
  unfolding compiled_rule
  sigma_of ast =
      ok (ast.id, to_yaml library (compiled_rule ast "medium"), (compiled_rule ast "medium").id)

  unfoldable pub materialize_spec : SpecPayload → Result GenerationError (String × String × String)
  unfolding sigma_of gate_checked
  materialize_spec spec = gate_checked (from_spec library spec) >>= sigma_of

  unfoldable pub materialize_payload :
      Option String → Result GenerationError (String × String × String)
  unfolding payload_of materialize_spec
  materialize_payload none = err payload_missing
  materialize_payload (some spec_payload) = payload_of (loads spec_payload) >>= materialize_spec

  unfoldable pub materialize_sigma_from_spec :
      DetectionSpec → Result GenerationError (String × String × String)
  unfolding materialize_payload
  materialize_sigma_from_spec spec = materialize_payload (full spec.spec_payload)

  -- The row that is added.
  unfoldable pub generated : DetectionSpec → String → String × String × String → GeneratedRule
  generated spec rule_id (detection_ast_id, rule_content, compiled_sigma_id) = record {
    id = rule_id;
    detection_spec_id = spec.id;
    rule_content = some rule_content;
    generation_source = "compiler";
    detection_ast_id = some detection_ast_id;
    compiled_sigma_id = some compiled_sigma_id;
  }

  unfoldable pub save_rule :
      DetectionSpec
      → String
      → Result GenerationError (String × String × String)
      → Db
      → Result GenerationError RuleGenerationResult × Db
  unfolding generated
  save_rule spec rule_id (err e) db = (err e, db)
  save_rule spec rule_id (ok sigma) db = (
    ok (record { rule_id = rule_id; detection_spec_id = spec.id }),
    record db { generated_rules = db.generated_rules ++ generated spec rule_id sigma ∷ [] },
  )

  unfoldable pub generate_from :
      (ℕ → String)
      → Result GenerationError DetectionSpec
      → Db
      → Result GenerationError RuleGenerationResult × Db
  unfolding save_rule materialize_sigma_from_spec
  generate_from uuid4 (err e) db = (err e, db)
  generate_from uuid4 (ok spec) db =
      save_rule spec (uuid4 db.draws) (materialize_sigma_from_spec spec)
        (record db { draws = suc db.draws })

  unfoldable pub generate_sigma_rule :
      (ℕ → String) → String → Db → Result GenerationError RuleGenerationResult × Db
  unfolding generate_from get_validated_detection_spec
  generate_sigma_rule uuid4 detection_spec_id db =
      generate_from uuid4 (get_validated_detection_spec detection_spec_id db) db

  draft_metadata : String → Value
  draft_metadata profile = Value.dict (
      field "profile" (Value.text profile) (
        field "generation_source" (Value.text "draft") (
          field "authoritative_for_export" (Value.bool false)
            (field "exportable" (Value.bool false) end))))

  -- `str(detection_spec.get("abstain_reason", "DetectionSpec abstained"))`
  abstain_reason : Option Value → String
  abstain_reason none = "DetectionSpec abstained"
  abstain_reason (some v) = library.str v

  draft_of : String → Fields → Option Value → Result GenerationError Value
  unfolding gate_checked compiled_rule draft_metadata abstain_reason
  draft_of profile detection_spec (some (Value.bool true)) = ok (
      Value.dict (
        field "sigma_rule" (Value.dict end) (
          field "abstain" (Value.bool true) (
            field "abstain_reason"
              (Value.text (abstain_reason (get "abstain_reason" detection_spec)))
              (field "metadata" (draft_metadata profile) end)))))
  draft_of profile detection_spec _ = do
    spec ← schema_checked (model_validate library (Value.dict detection_spec))
    ast ← gate_checked (from_spec library spec)
    let level = if profile == "strict" then "high" else "medium"
    ok (
        Value.dict (
          field "sigma_rule" (dump_rule library (compiled_rule ast level))
            (field "abstain" (Value.bool false) (field "metadata" (draft_metadata profile) end))))

  unfoldable generate_rule : Fields → String → Result GenerationError Value
  unfolding draft_of
  generate_rule detection_spec profile =
      draft_of profile detection_spec (get "abstain" detection_spec)
