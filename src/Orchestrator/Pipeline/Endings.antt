-- ===== src/Orchestrator/Pipeline/Endings.antt =====
-- How a run of `run_report_pipeline` can end, and what it has stored by then.
use aicti.Base.{
  String, ◌≡◌, refl, ap, ◌⊎◌, inl, inr, Bool, true, false, Option, none, some, first, Result, ok,
  err, Result-cases,
}
use aicti.Db.{Db, GeneratedRule, PipelineRunRecord}
use aicti.Db.Action.{Action, ◌>>=◌}
use aicti.Validation.{generate_proof_obligations_from_artifacts, record_regression}
use aicti.Validation.Frame.{Verified, Verified-frame, Verified-verify}
use aicti.Graph.Frame.{IgnoresGraph}
use aicti.Orchestrator.{PipelineError, raised, Services, attempt, remember_pipeline_run}
use aicti.Orchestrator.Records.{of_id, remember_pipeline_run-Remembered}
use aicti.Orchestrator.Pipeline.{fail, prove}

refused : {E A : Type 0} {B : Type 0} {x : E} {a : A} → ◌≡◌ {A = Result E A} (err x) (ok a) → B
refused h = cc

-- Whenever `m` returns, `Q` holds.
Gives : {E A : Type 0} → (Db → Type 0) → Action E A → Type 0
Gives {A = A} Q m = (db : Db) (a : A) → (m db).0 ≡ ok a → Q (m db).1

Gives-bind :
    {E A B : Type 0} (Q : Db → Type 0) (m : Action E A) (f : A → Action E B)
    → ((a : A) → Gives Q (f a))
    → Gives Q (m >>= f)
unfolding Gives
Gives-bind Q m f g db b h = elim (Result-cases (m db).0) [
  | inl (a, e) ↦ rw (e) (g a (m db).1 b (rw (e) at h))
  | inr (x, e) ↦ refused (rw (e) at h)
]

-- An exception of the rule generation, which the pipeline does not catch.
abbrev pub is_raised : PipelineError → Bool
is_raised (raised text) = true
is_raised _ = false

module _ (run_id report_id : String) where
  -- The record of a failed run.
  pub record Failed (db : Db) : Type 0 where
    pub row : PipelineRunRecord
    pub stored : first (of_id run_id) db.pipeline_runs ≡ some row
    pub has_report : row.report_id ≡ report_id
    pub has_status : row.status ≡ "failed"

  -- A run that waits for the review of its rule, whose stored proofs pass the check.
  pub record Awaiting (row : PipelineRunRecord) (db : Db) : Type 0 where
    pub rule_id : String
    pub has_rule : row.rule_id ≡ some rule_id
    pub has_status : row.status ≡ "ok"
    pub has_stage : row.stage ≡ "awaiting_review"
    pub verified : Verified run_id rule_id db

  -- A run without a rule.
  pub record Abstained (row : PipelineRunRecord) : Type 0 where
    pub has_rule : row.rule_id ≡ none
    pub has_status : row.status ≡ "abstain"

  -- A run that returns gives back the stored record of the report, which waits for review or
  -- abstained; one that raises has stored that it failed, unless the rule generation raised.
  unfoldable pub Ends : Result PipelineError PipelineRunRecord → Db → Type 0
  Ends (ok row) db =
      (first (of_id run_id) db.pipeline_runs ≡ some row)
      × (row.report_id ≡ report_id)
      × (Awaiting row db ⊎ Abstained row)
  Ends (err e) db = (is_raised e ≡ true) ⊎ Failed db

  unfoldable pub Ended : Action PipelineError PipelineRunRecord → Type 0
  Ended m = (db : Db) → Ends (m db).0 (m db).1

  pub attempt-Ends :
      {F A : Type 0} (m : Action F A) (handler : Action PipelineError PipelineRunRecord)
      (rest : A → Action PipelineError PipelineRunRecord) (db : Db)
      → Ended handler
      → ((a : A) → (m db).0 ≡ ok a → Ends (rest a (m db).1).0 (rest a (m db).1).1)
      → Ends (attempt m handler rest db).0 (attempt m handler rest db).1
  unfolding attempt Ended
  attempt-Ends m handler rest db h k = elim (Result-cases (m db).0) [
    | inl (a, e) ↦ rw (e, attempt) (k a e)
    | inr (x, e) ↦ rw (e, attempt) (h (m db).1)
  ]

  module _ (services : Services) where
    pub fail-Ended :
        (stage : String) (spec_id rule_id : Option String) (error : PipelineError)
        → Ended (fail services run_id report_id stage spec_id rule_id error)
    unfolding fail Ended Ends
    fail-Ended stage spec_id rule_id error db =
        let r =
          remember_pipeline_run-Remembered services {E = PipelineError} run_id report_id "failed"
            stage spec_id rule_id db in
        rw (r.returned) (
          inr (record {
            row = r.row;
            stored = r.stored;
            has_report = r.has_report;
            has_status = r.has_status;
          }))

    pub IgnoresGraph-Verified : (rule_id : String) → IgnoresGraph (Verified run_id rule_id)
    IgnoresGraph-Verified rule_id = record {
      nodes = λ db ns h. Verified-frame run_id rule_id db _ refl h;
      edges = λ db es h. Verified-frame run_id rule_id db _ refl h;
      added = λ db ns es h. Verified-frame run_id rule_id db _ refl h;
      draws = λ db n h. Verified-frame run_id rule_id db _ refl h;
    }

    pub awaiting-Ends :
        (spec_id rule_id : String) (db : Db)
        → Verified run_id rule_id db
        → (let (r, db') =
              remember_pipeline_run services run_id report_id "ok" "awaiting_review"
                (some spec_id)
                (some rule_id)
                db in
            Ends r db')
    unfolding Ends
    awaiting-Ends spec_id rule_id db v =
        let r =
          remember_pipeline_run-Remembered services {E = PipelineError} run_id report_id "ok"
            "awaiting_review" (some spec_id) (some rule_id) db in
        rw (r.returned) (
          r.stored,
          r.has_report,
          inl (record {
            rule_id = rule_id;
            has_rule = r.has_rule;
            has_status = r.has_status;
            has_stage = r.has_stage;
            verified =
                Verified-frame run_id rule_id db _ (ap (λ (d : Db). d.proof_obligations) r.frame) v;
          }),
        )

    pub abstained-Ended :
        (spec_id : String)
        → Ended (
            remember_pipeline_run services run_id report_id "abstain" "detection_spec"
              (some spec_id)
              none)
    unfolding Ends Ended
    abstained-Ended spec_id db =
        let r =
          remember_pipeline_run-Remembered services {E = PipelineError} run_id report_id "abstain"
            "detection_spec" (some spec_id) none db in
        rw (r.returned) (
          r.stored,
          r.has_report,
          inr (record { has_rule = r.has_rule; has_status = r.has_status }),
        )

    -- The proofs that `prove` checked are still there when it is done.
    pub Verified-prove :
        (rule : GeneratedRule) (db : Db) (a : Bool)
        → (prove services run_id report_id rule db).0 ≡ ok a
        → Verified run_id rule.id (prove services run_id report_id rule db).1
    unfolding prove Gives
    Verified-prove rule =
        Gives-bind (Verified run_id rule.id) (record_regression services.uuid4 run_id rule.id true)
          _
          (λ regression.
            Gives-bind (Verified run_id rule.id)
              (generate_proof_obligations_from_artifacts services.uuid4 run_id rule.id) _
              (λ obligations. Verified-verify run_id rule.id))
