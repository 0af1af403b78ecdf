-- ===== src/Detection/Persisted.antt =====
-- services/detection_spec.py and schemas/abstain.py: the specifications that are stored. `dump_json` is
-- how `model_dump_json` writes a JSON value. The context and the message of a decision to abstain are written and
-- never read.
pub mod Reread
pub mod Generated
use aicti.Base.{
  String, ◌==◌, Bool, true, false, ◌&&◌, ◌||◌, not, Option, none, some, List, [], ◌∷◌, ◌++◌, map,
  any, all, elem, is_empty, strip, Result, ok, err, ◌>>=◌, ◌>>◌, require, if◌then◌else◌,
}
use aicti.Value.{Value, Items, nil, cons, Fields, end, field, get, texts_of}
use aicti.Library.{Library}
use aicti.Hashing.{make_idempotency_key}
use aicti.Db.{Db, DetectionSpec}
use aicti.Ingestion.{repeats_key}
use aicti.Detection.{BehaviorRule, SpecPayload}
use aicti.Detection.Ast.{dump_behavior_rules, dump_spec}

-- `AbstainDecision`, with a code of `AbstainCode`.
pub record AbstainDecision : Type 0 where
  pub abstain_code : String
  pub abstain_context : String
  pub human_message : String

-- The messages of `ValueError`, and a commit that repeats a primary key.
pub data BuildError : Type 0 where
  no_telemetry missing_telemetry integrity_error : BuildError

pub record DetectionSpecBuildResult : Type 0 where
  pub detection_spec_id : String
  pub report_id : String
  pub abstain_code : Option String

unfoldable pub check_available : List String → List BehaviorRule → Result BuildError (Unit {0})
check_available available [] = ok tt
check_available available (rule ∷ rules) = do
  require (not (is_empty rule.required_telemetry)) no_telemetry
  require (all (λ t. elem ◌==◌ t available) rule.required_telemetry) missing_telemetry
  check_available available rules

unfoldable pub enforce_behavior_telemetry_gate :
    SpecPayload → Option (List String) → Result BuildError (Unit {0})
unfolding check_available
enforce_behavior_telemetry_gate spec none = ok tt
enforce_behavior_telemetry_gate spec (some available) =
    check_available available spec.behavior_rules

-- The commit of a row.
unfoldable pub save_spec : DetectionSpec → Db → Result BuildError DetectionSpecBuildResult × Db
save_spec row db =
    if repeats_key (map (λ (s : DetectionSpec). s.id) db.detection_specs) (row.id ∷ [])
    then (err integrity_error, db)
    else (
      ok (record {
        detection_spec_id = row.id;
        report_id = row.report_id;
        abstain_code = row.abstain_code;
      }),
      record db { detection_specs = db.detection_specs ++ row ∷ [] },
    )

module _ (library : Library) where
  unfoldable pub spec_id : SpecPayload → String
  spec_id spec = make_idempotency_key library "detection_spec" (
      Value.dict (
        field "report_id" (Value.text spec.report_id) (
          field "behavior_rules" (Value.list (dump_behavior_rules spec.behavior_rules)) (
            field "false_positive_hypotheses" (Value.list (texts_of spec.false_positive_hypotheses))
              (field "test_plan" (Value.text spec.test_plan) end)))))

  unfoldable pub spec_row : (Value → String) → SpecPayload → DetectionSpec
  unfolding spec_id
  spec_row dump_json spec = record {
    id = spec_id spec;
    report_id = spec.report_id;
    abstain_code = none;
    spec_payload = some (dump_json (dump_spec spec));
    is_validated = true;
  }

  -- On the answer of the gate.
  unfoldable pub persist_spec :
      (Value → String)
      → SpecPayload
      → Result BuildError (Unit {0})
      → Db
      → Result BuildError DetectionSpecBuildResult × Db
  unfolding spec_row save_spec
  persist_spec dump_json spec (err e) db = (err e, db)
  persist_spec dump_json spec (ok done) db = save_spec (spec_row dump_json spec) db

  -- `build_detection_spec` with a specification given.
  unfoldable pub build_detection_spec :
      (Value → String)
      → SpecPayload
      → Option (List String)
      → Db
      → Result BuildError DetectionSpecBuildResult × Db
  unfolding persist_spec enforce_behavior_telemetry_gate
  build_detection_spec dump_json spec available_telemetry db =
      persist_spec dump_json spec (enforce_behavior_telemetry_gate spec available_telemetry) db

  abstain_row : String → AbstainDecision → DetectionSpec
  abstain_row report_id decision = record {
    id = make_idempotency_key library "detection_spec_abstain" (
        Value.dict (
          field "report_id" (Value.text report_id) (
            field "abstain_decision"
              (Value.dict (
                field "abstain_code" (Value.text decision.abstain_code) (
                  field "abstain_context" (Value.text decision.abstain_context)
                    (field "human_message" (Value.text decision.human_message) end))))
              end)));
    report_id = report_id;
    abstain_code = some decision.abstain_code;
    spec_payload = none;
    is_validated = false;
  }

  unfoldable build_abstain_spec :
      String → AbstainDecision → Db → Result BuildError DetectionSpecBuildResult × Db
  unfolding abstain_row save_spec
  build_abstain_spec report_id decision db = save_spec (abstain_row report_id decision) db

-- `span.get(key, default)`
or_default : Option Value → String → Value
or_default none s = Value.text s
or_default (some v) s = v

behavior_of : List Fields → Items
unfolding or_default
behavior_of [] = nil
behavior_of (span ∷ spans) =
    cons
      (Value.dict (
        field "behavior_label" (or_default (get "behavior_label" span) "unknown_behavior") (
          field "evidence_ids" (Value.list (cons (or_default (get "evidence_id" span) "e1") nil))
            end)))
      (behavior_of spans)

requirements : List (String × List String) → Items
requirements [] = nil
requirements ((source, names) ∷ registry) =
    cons
      (Value.dict (
        field "source" (Value.text source)
          (field "allowed_fields" (Value.list (texts_of names)) end)))
      (requirements registry)

dicts : List Fields → Items
dicts [] = nil
dicts (fs ∷ rest) = cons (Value.dict fs) (dicts rest)

-- `profile or "balanced"`
profile_of : Option String → Value
profile_of none = Value.text "balanced"
profile_of (some p) = Value.text (if p == "" then "balanced" else p)

-- `build_detection_spec` without a specification; an argument that is none or empty is an empty list.
unfoldable synthesize :
    List Fields → List Fields → List (String × List String) → Option String → Value
unfolding behavior_of requirements dicts profile_of
synthesize evidence_spans attack_mappings telemetry_registry profile =
    let metadata = Value.dict (field "profile" (profile_of profile) end) in
    if is_empty evidence_spans || is_empty attack_mappings
    then Value.dict (
        field "abstain" (Value.bool true) (
          field "abstain_reason"
            (Value.text "Insufficient evidence or ATT&CK mappings to build DetectionSpec")
            (field "behavior" (Value.list nil) (
              field "attack_mappings" (Value.list nil) (
                field "telemetry_requirements" (Value.list nil) (
                  field "logic" (Value.dict end) (
                    field "false_positive_hypotheses" (Value.list nil)
                      (field "test_plan" (Value.list nil) (field "metadata" metadata end)))))))))
    else Value.dict (
        field "abstain" (Value.bool false) (
          field "behavior" (Value.list (behavior_of evidence_spans)) (
            field "attack_mappings" (Value.list (dicts attack_mappings)) (
              field "telemetry_requirements" (Value.list (requirements telemetry_registry)) (
                field "logic"
                  (Value.dict (
                    field "selection" (Value.text "process_creation with suspicious commandline")
                      (field "condition" (Value.text "selection") end)))
                  (field "false_positive_hypotheses"
                    (Value.list (texts_of ("Legitimate administrative scripting activity" ∷ [])))
                    (field "test_plan"
                      (Value.list (
                        texts_of (
                          "Test against known malicious PowerShell execution logs"
                          ∷ "Test against benign admin PowerShell activity" ∷ [])))
                      (field "metadata" metadata end))))))))
