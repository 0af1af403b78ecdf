-- ===== src/Orchestrator.antt =====
-- PipelineOrchestrator of services/orchestrator.py: what the run of a report
-- calls, and how it is remembered. `Services` holds what the orchestrator calls of other services and libraries. An
-- exception of the generator passes through as `raised`. `run_id` is unique in `pipeline_runs`.
pub mod Persistence
pub mod Pipeline
pub mod Records
pub mod Gates
pub mod Single
use aicti.Base.{
  ℕ, suc, String, ◌==◌, ◌=?◌, Bool, true, false, ◌&&◌, not, Option, none, some, List, [], ◌∷◌, ◌++◌,
  keep, first, elem, text_lt, Result, ok, err, if◌then◌else◌,
}
use aicti.Value.{Value, Items, nil, cons, Fields, end, field, get}
use aicti.Db.{
  Db, Report, EvidenceSpan, DetectionSpec, GeneratedRule, OutcomeRow, PipelineRunRecord,
  ProofObligationRecord,
}
use aicti.Db.Action.{Action, ◌>>=◌, ◌>>◌, pure, raise, gets, require}
use aicti.Graph.{upsert_node, add_edge}
use aicti.Validation.{
  ValidationError, SyntheticValidationResult, dynamic_passed, record_static_validation,
  record_dynamic_validation, record_regression, generate_proof_obligations_from_artifacts,
  verify_persisted_proofs_selectable,
}
use aicti.Export.{is_set}

-- The messages of `PipelineTransitionError`, and an exception of the rule generation.
pub data PipelineError : Type 0 where
  report_required evidence_required single_spec_required spec_required rule_required : PipelineError
  static_gate_failed dynamic_gate_failed proof_gate_failed lineage_required graph_failed :
      PipelineError
  raised : String → PipelineError

-- `validate_rule` and `run_synthetic_validation` give `none` where they raise; the two events of the
-- synthetic validation are fixed. `json_loads` is `json.loads`.
pub record Services : Type 0 where
  pub uuid4 : ℕ → String
  pub json_loads : String → Option Value
  pub generate_sigma_rule : String → Action String String
  pub validate_rule : String → Db → Option Bool
  pub run_synthetic_validation : Option String → Option SyntheticValidationResult

-- `ORDER BY id`
insert_by_id : {A : Type 0} → (A → String) → A → List A → List A
insert_by_id id a [] = a ∷ []
insert_by_id id a (b ∷ bs) =
    let later = insert_by_id id a bs in if text_lt (id b) (id a) then b ∷ later else a ∷ b ∷ bs

unfoldable pub order_by_id : {A : Type 0} → (A → String) → List A → List A
unfolding insert_by_id
order_by_id id [] = []
order_by_id id (a ∷ others) = insert_by_id id a (order_by_id id others)

-- `try: m except Exception: handler`, and else the rest.
unfoldable pub attempt :
    {E F A B : Type 0} → Action F A → Action E B → (A → Action E B) → Action E B
attempt m handler rest db =
    let (r, db') = m db in elim r [ ok a ↦ rest a db' | err e ↦ handler db' ]

texts : Items → List String
texts nil = []
texts (cons (Value.text s) items) = s ∷ texts items
texts (cons _ items) = texts items

-- `payload.get("evidence_ids")` raises on what is no mapping.
evidence_ids : Value → Option (List String)
unfolding texts
evidence_ids (Value.dict fields) = elim (get "evidence_ids" fields) [
  | some (Value.list items) ↦ some (texts items)
  | _ ↦ some []
]
evidence_ids _ = none

unfoldable pub detection_spec_evidence_ids :
    (String → Option Value) → DetectionSpec → Option (List String)
unfolding evidence_ids
detection_spec_evidence_ids json_loads spec = elim spec.spec_payload [
  | none ↦ some []
  | some text ↦ elim (text == "") [
    | true ↦ some []
    | false ↦ elim (json_loads text) [ none ↦ some [] | some payload ↦ evidence_ids payload ]
  ]
]

replace_run : String → PipelineRunRecord → List PipelineRunRecord → List PipelineRunRecord
replace_run run_id row [] = []
replace_run run_id row (r ∷ rows) =
    let later = replace_run run_id row rows in if r.run_id == run_id then row ∷ rows else r ∷ later

module _ (services : Services) where
  unfoldable pub remember_pipeline_run :
      {E : Type 0}
      → String
      → String
      → String
      → String
      → Option String
      → Option String
      → Action E PipelineRunRecord
  unfolding replace_run
  remember_pipeline_run run_id report_id status stage spec_id rule_id db =
      elim (first (λ (r : PipelineRunRecord). r.run_id == run_id) db.pipeline_runs) [
        | some row ↦
            let row' : PipelineRunRecord = record row {
              report_id = report_id;
              status = status;
              stage = stage;
              detection_spec_id = spec_id;
              rule_id = rule_id;
            } in
            (ok row', record db { pipeline_runs = replace_run run_id row' db.pipeline_runs })
        | none ↦
            let row : PipelineRunRecord = record {
              id = services.uuid4 db.draws;
              run_id = run_id;
              report_id = report_id;
              status = status;
              stage = stage;
              detection_spec_id = spec_id;
              rule_id = rule_id;
            } in
            (
              ok row,
              record db { pipeline_runs = db.pipeline_runs ++ row ∷ []; draws = suc db.draws },
            )
      ]
