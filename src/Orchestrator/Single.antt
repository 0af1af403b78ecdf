-- ===== src/Orchestrator/Single.antt =====
-- PipelineOrchestrator.run_pipeline of services/orchestrator.py, which takes one specification to review.
pub mod Reviewable
use aicti.Base.{
  ℕ, String, ◌==◌, Bool, true, false, not, Option, none, some, List, [], ◌∷◌, map, keep, first,
  Result, ok, err, if◌then◌else◌,
}
use aicti.Value.{Value, Fields, end, field, texts_of}
use aicti.Library.{Library}
use aicti.Db.{Db, DetectionSpec, GeneratedRule}
use aicti.Db.Action.{Action, continue, ◌>>=◌, ◌>>◌, pure, raise, gets, require}
use aicti.Memory.Policy.{ContractError, require_memory_contract}
use aicti.AgentAudit.{persist_agent_run}
use aicti.Refinement.{record_rule_refinement}
use aicti.StaticValidation.{ValidationReport}
use aicti.Export.{is_set}
use aicti.Orchestrator.Gates.{
  PipelineState, SingleError, validated_spec_required, abstain_spec, payload_required,
  rule_required, static_gate_failed, multiple_rules, validation_raised, contract_error,
  generation_raised, gates,
}

-- What `run_pipeline` calls; `validate_rule` gives `none` where it raises, and `like` is SQL's operator.
pub record SingleServices : Type 0 where
  pub library : Library
  pub like : String → String → Bool
  pub uuid4 : ℕ → String
  pub generate_sigma_rule : String → Action String String
  pub validate_rule : String → Db → Option ValidationReport

unfoldable pub is_none : Option String → Bool
is_none none = true
is_none (some code) = false

unfoldable pub check_spec : Option DetectionSpec → Action SingleError (Unit {0})
check_spec none = raise validated_spec_required
check_spec (some spec) = do
  require spec.is_validated validated_spec_required
  require (is_none spec.abstain_code) abstain_spec
  require (is_set spec.spec_payload) payload_required

unfoldable pub as_single : Result ContractError (Unit {0}) → Result SingleError (Unit {0})
as_single (ok u) = ok tt
as_single (err e) = err (contract_error e)

module _ (services : SingleServices) (detection_spec_id : String) where
  unfoldable pub require_contract : String → Action SingleError (Unit {0})
  require_contract stage db =
      (as_single (require_memory_contract services.like detection_spec_id stage db), db)

  -- An agent run for the specification; its insertion does not fail.
  unfoldable pub audit : String → Value → Value → String → Action SingleError (Unit {0})
  audit agent_name input output status db = (
    ok tt,
    (persist_agent_run services.library services.uuid4
        (record {
          run_id = detection_spec_id;
          trace_id = detection_spec_id;
          agent_name = agent_name;
          input_snapshot = input;
          output_snapshot = some output;
          status = status;
          retry_attempt = 0;
        })
        db).1,
  )

  unfoldable pub generate : Action SingleError String
  generate db =
      let (r, db') = services.generate_sigma_rule detection_spec_id db in
      elim r [ ok rule_id ↦ (ok rule_id, db') | err e ↦ (err (generation_raised e), db') ]

  unfoldable pub required_rule : Option GeneratedRule → Action SingleError GeneratedRule
  required_rule none = raise rule_required
  required_rule (some rule) = pure rule

  unfoldable pub find_or_generate : List GeneratedRule → Action SingleError GeneratedRule
  find_or_generate (rule ∷ []) = pure rule
  find_or_generate (rule ∷ other ∷ rules) = raise multiple_rules
  find_or_generate [] = do
    rule_id ← generate
    audit "rule_generation"
        (Value.dict (field "detection_spec_id" (Value.text detection_spec_id) end))
        (Value.dict (field "rule_id" (Value.text rule_id) end)) "success"
    rule ← gets (λ db. first (λ (r : GeneratedRule). r.id == rule_id) db.generated_rules)
    required_rule rule

  -- `contextlib.suppress(RefinementLimitExceededError)`
  unfoldable pub refine_rule : String → Action SingleError (Unit {0})
  refine_rule rule_id db = (ok tt, (record_rule_refinement services.uuid4 rule_id db).1)

  unfoldable pub verdict : String → Bool → Action SingleError (Unit {0})
  verdict rule_id true = pure tt
  verdict rule_id false = refine_rule rule_id >>= λ refined. raise static_gate_failed

  unfoldable pub static_gate : String → Option ValidationReport → Action SingleError (Unit {0})
  static_gate rule_id none = raise validation_raised
  static_gate rule_id (some validation) = do
    audit "static_validation" (Value.dict (field "rule_id" (Value.text rule_id) end))
        (Value.dict (
          field "is_valid" (Value.bool validation.is_valid)
            (field "issues" (Value.list (texts_of validation.issues)) end)))
        (if validation.is_valid then "success" else "failed")
    verdict rule_id validation.is_valid

  unfoldable pub review_gates : GeneratedRule → Action SingleError PipelineState
  review_gates rule db = (gates services.library.lower detection_spec_id rule.id db, db)

  unfoldable pub validated :
      GeneratedRule → Option ValidationReport → Action SingleError PipelineState
  validated rule validation = static_gate rule.id validation >>= λ passed. review_gates rule

  -- From the second memory contract on.
  unfoldable pub with_rule : GeneratedRule → Action SingleError PipelineState
  with_rule rule = require_contract "static_validation" >>= λ met.
      gets (services.validate_rule rule.id) >>= validated rule

  unfoldable pub with_rules : List GeneratedRule → Action SingleError PipelineState
  with_rules rules = find_or_generate rules >>= with_rule

  -- From the first memory contract on.
  unfoldable pub with_spec : Action SingleError PipelineState
  with_spec = require_contract "rule_generation" >>= λ met.
      gets (λ db.
        keep (λ (r : GeneratedRule). r.detection_spec_id == detection_spec_id) db.generated_rules)
      >>= with_rules

  unfoldable pub run_pipeline : Action SingleError PipelineState
  run_pipeline =
      gets (λ db. first (λ (s : DetectionSpec). s.id == detection_spec_id) db.detection_specs)
      >>= check_spec
      >>= λ checked. with_spec
