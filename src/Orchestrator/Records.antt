-- ===== src/Orchestrator/Records.antt =====
-- What `_remember_pipeline_run` leaves behind.
use aicti.Base.{
  first-append, String, ◌==◌, eq_refl, ◌≡◌, refl, sym, ap, ◌∙◌, inl, inr, Bool, true, Option, some,
  Option-cases, Bool-cases, List, [], ◌∷◌, first, ok, Result, arith,
}
use aicti.Db.{Db, PipelineRunRecord}
use aicti.Orchestrator.{Services, replace_run, remember_pipeline_run}

abbrev pub of_id : String → PipelineRunRecord → Bool
of_id run_id r = r.run_id == run_id

first-replace_run :
    (run_id : String) (row row' : PipelineRunRecord) (rows : List PipelineRunRecord)
    → of_id run_id row' ≡ true
    → first (of_id run_id) rows ≡ some row
    → first (of_id run_id) (replace_run run_id row' rows) ≡ some row'
unfolding replace_run
first-replace_run run_id row row' [] h e = cc
first-replace_run run_id row row' (r ∷ rows) h e =
    ground (arith, first-replace_run run_id row row' rows h)

some_injective : {A : Type 0} {a b : A} → some a ≡ some b → a ≡ b
some_injective h = cc

first-at : {A : Type 0} (p : A → Bool) (xs : List A) (a : A) → first p xs ≡ some a → p a ≡ true
first-at p [] a e = cc
first-at p (x ∷ xs) a e = elim (Bool-cases (p x)) [
  | inl here ↦ ap p (some_injective (sym (rw (here) at e))) ∙ here
  | inr later ↦ first-at p xs a (rw (later) at e)
]

module _ (services : Services) {E : Type 0} (run_id report_id status stage : String)
    (spec_id rule_id : Option String) where
  -- The record that comes back is the one of the run, with everything given, and no other table
  -- but the count of drawn identifiers changes.
  pub record Remembered (r : Result E PipelineRunRecord) (db db' : Db) : Type 0 where
    pub row : PipelineRunRecord
    pub returned : r ≡ ok row
    pub stored : first (of_id run_id) db'.pipeline_runs ≡ some row
    pub has_report : row.report_id ≡ report_id
    pub has_status : row.status ≡ status
    pub has_stage : row.stage ≡ stage
    pub has_spec : row.detection_spec_id ≡ spec_id
    pub has_rule : row.rule_id ≡ rule_id
    pub frame : db' ≡ record db { pipeline_runs = db'.pipeline_runs; draws = db'.draws }

  pub remember_pipeline_run-Remembered :
      (db : Db)
      → let (r, db') =
          remember_pipeline_run services {E = E} run_id report_id status stage spec_id rule_id db in
        Remembered r db db'
  unfolding remember_pipeline_run
  remember_pipeline_run-Remembered db =
      elim (Option-cases (first (of_id run_id) db.pipeline_runs)) [
        | inl e ↦
            rw (e, remember_pipeline_run)
              (record {
                row = _;
                returned = refl;
                stored = first-append (of_id run_id) db.pipeline_runs _ e (eq_refl run_id);
                has_report = refl;
                has_status = refl;
                has_stage = refl;
                has_spec = refl;
                has_rule = refl;
                frame = refl;
              })
        | inr (old, e) ↦
            rw (e, remember_pipeline_run)
              (record {
                row = _;
                returned = refl;
                stored =
                    first-replace_run run_id old _ db.pipeline_runs
                      (first-at (of_id run_id) db.pipeline_runs old e) e;
                has_report = refl;
                has_status = refl;
                has_stage = refl;
                has_spec = refl;
                has_rule = refl;
                frame = refl;
              })
      ]
