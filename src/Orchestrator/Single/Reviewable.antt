-- ===== src/Orchestrator/Single/Reviewable.antt =====
-- What holds when a specification has come to review.
use aicti.Base.{
  String, ◌==◌, ◌≡◌, refl, sym, ap, ◌∙◌, subst, Bool, true, false, Option, none, some, keep, first,
  ok-injective, ◌⊎◌, inl, inr, List, [], ◌∷◌, eq_iff, Bool-cases, Result, ok, err,
}
use aicti.Value.{Value, field, end}
use aicti.Db.{Db, DetectionSpec, GeneratedRule}
use aicti.Db.Action.{Action, ◌>>=◌, ◌>>◌, require, require_same, gets, >>=-steps}
use aicti.StaticValidation.{ValidationReport}
use aicti.Export.{is_set}
use aicti.Memory.Policy.{ContractError, require_memory_contract}
use aicti.Orchestrator.Gates.{
  PipelineState, SingleError, awaiting_review, validated_spec_required, abstain_spec,
  payload_required, is_reviewable, generation_raised, gates-is_reviewable,
}
use aicti.Orchestrator.Single.{
  SingleServices, check_spec, is_none, as_single, audit, verdict, refine_rule, require_contract,
  find_or_generate, generate, required_rule, static_gate, review_gates, validated, with_rule,
  with_rules, with_spec, run_pipeline,
}

abbrev as_generated : Result String String → Db → Result SingleError String × Db
as_generated r db = elim r [
  | ok rule_id ↦ (ok rule_id, db)
  | err e ↦ (err (generation_raised e), db)
]

some-same : {A : Type 0} (x y : A) → some x ≡ some y → x ≡ y
some-same x y h = cc

first-holds : {A : Type 0} (p : A → Bool) (xs : List A) (x : A) → first p xs ≡ some x → p x ≡ true
first-holds p [] x h = cc
first-holds p (y ∷ ys) x h = elim (Bool-cases (p y)) [
  | inl e ↦ subst (λ z. p z ≡ true) (some-same y x (rw (e) at h)) e
  | inr e ↦ first-holds p ys x (rw (e) at h)
]

module _ (services : SingleServices) (id : String) where
  -- The rule met its contract and is valid on the database before the validation, and its outcomes and
  -- obligations on the database after allow a review.
  abbrev pub Passed : PipelineState → String → Db → Db → Type 0
  Passed state rule_id before after =
      (state ≡ awaiting_review)
      × (is_reviewable services.library.lower id rule_id after ≡ true)
      × ((report : ValidationReport) × (require_memory_contract services.like id "static_validation"
              before
            ≡ ok tt)
          × (services.validate_rule rule_id before ≡ some report)
          × (report.is_valid ≡ true))

  abbrev pub rules_of : Db → List GeneratedRule
  rules_of db = keep (λ (r : GeneratedRule). r.detection_spec_id == id) db.generated_rules

  -- The database with the audit of a generation that has returned.
  abbrev pub generated : String → Db → Db
  generated rule_id db =
      (audit services id "rule_generation"
        (Value.dict (field "detection_spec_id" (Value.text id) end))
        (Value.dict (field "rule_id" (Value.text rule_id) end)) "success"
        (services.generate_sigma_rule id db).1).1

  -- The rule is the specification's only one, or the specification had none and the rule was generated.
  abbrev pub IsRuleOf : GeneratedRule → Db → Db → Type 0
  IsRuleOf rule db before =
      ((rules_of db ≡ rule ∷ []) × (before ≡ db))
      ⊎ ((rules_of db ≡ [])
          × ((services.generate_sigma_rule id db).0 ≡ ok rule.id)
          × (before ≡ generated rule.id db)
          × (first (λ (r : GeneratedRule). r.id == rule.id) before.generated_rules ≡ some rule))

  generated_result :
      (r : Result String String) (rule_id : String) (db : Db)
      → (as_generated r db).0 ≡ ok rule_id
      → (r ≡ ok rule_id) × ((as_generated r db).1 ≡ db)
  generated_result (ok a) rule_id db h = (ap ok (ok-injective h), refl)
  generated_result (err e) rule_id db h = cc

  generate-generate_sigma_rule :
      (rule_id : String) (db : Db)
      → (generate services id db).0 ≡ ok rule_id
      → ((services.generate_sigma_rule id db).0 ≡ ok rule_id)
        × ((generate services id db).1 ≡ (services.generate_sigma_rule id db).1)
  unfolding generate
  generate-generate_sigma_rule rule_id db h =
      generated_result (services.generate_sigma_rule id db).0 rule_id
        (services.generate_sigma_rule id db).1 h

  required_rule-some :
      (found : Option GeneratedRule) (rule : GeneratedRule) (db : Db)
      → (required_rule services id found db).0 ≡ ok rule
      → (found ≡ some rule) × ((required_rule services id found db).1 ≡ db)
  unfolding required_rule
  required_rule-some none rule db h = cc
  required_rule-some (some r) rule db h = (ap some (ok-injective h), refl)

  generated_rule :
      (rule : GeneratedRule) (rule_id : String) (db before : Db)
      → rules_of db ≡ []
      → (services.generate_sigma_rule id db).0 ≡ ok rule_id
      → before ≡ generated rule_id db
      → first (λ (r : GeneratedRule). r.id == rule_id) (generated rule_id db).generated_rules
        ≡ some rule
      → IsRuleOf rule db before
  generated_rule rule rule_id db before of_spec answer left found =
      let same : rule_id ≡ rule.id = sym (
        (eq_iff rule.id rule_id).0 (
          first-holds (λ (r : GeneratedRule). r.id == rule_id)
            (generated rule_id db).generated_rules rule found)) in
      inr (
        of_spec,
        answer ∙ ap ok same,
        left ∙ ap (λ i. generated i db) same,
        ap (λ (d : Db). first (λ (r : GeneratedRule). r.id == rule.id) d.generated_rules) left
            ∙ ap
                (λ i.
                  first (λ (r : GeneratedRule). r.id == i) (generated rule_id db).generated_rules)
                (sym same)
            ∙ found,
      )

  find_or_generate-IsRuleOf :
      (rules : List GeneratedRule) (rule : GeneratedRule) (db : Db)
      → rules_of db ≡ rules
      → (find_or_generate services id rules db).0 ≡ ok rule
      → IsRuleOf rule db (find_or_generate services id rules db).1
  unfolding find_or_generate audit
  find_or_generate-IsRuleOf (r ∷ []) rule db of_spec h =
      inl (of_spec ∙ ap (λ x. x ∷ []) (ok-injective h), refl)
  find_or_generate-IsRuleOf (r ∷ other ∷ rules) rule db of_spec h = cc
  find_or_generate-IsRuleOf [] rule db of_spec h =
      let then_find : String → Action SingleError GeneratedRule = λ rule_id.
        audit services id "rule_generation"
          (Value.dict (field "detection_spec_id" (Value.text id) end))
          (Value.dict (field "rule_id" (Value.text rule_id) end)) "success"
        >>= λ u.
            gets (λ db. first (λ (r : GeneratedRule). r.id == rule_id) db.generated_rules)
            >>= required_rule services id in
      let (rule_id, returned, step) = >>=-steps rule (generate services id) then_find db h in
      let (answer, left) = generate-generate_sigma_rule rule_id db returned in
      let run : find_or_generate services id [] db
          ≡ required_rule services id
              (first (λ (r : GeneratedRule). r.id == rule_id)
                (generated rule_id db).generated_rules)
              (generated rule_id db) =
        step ∙ ap (then_find rule_id) left in
      let (found, same) = required_rule-some _ rule _ (ap (λ o. o.0) (sym run) ∙ h) in
      generated_rule rule rule_id db _ of_spec answer (ap (λ o. o.1) run ∙ same) found

  contract_met :
      (r : Result ContractError (Unit {0})) (u : Unit {0}) → as_single r ≡ ok u → r ≡ ok tt
  unfolding as_single
  contract_met (ok v) u h = refl
  contract_met (err e) u h = cc

  valid_verdict :
      (rule_id : String) (b : Bool) (u : Unit {0}) (db : Db)
      → (verdict services id rule_id b db).0 ≡ ok u
      → b ≡ true
  unfolding verdict refine_rule
  valid_verdict rule_id true u db h = refl
  valid_verdict rule_id false u db h = cc

  valid_report :
      (rule_id : String) (validation : Option ValidationReport) (u : Unit {0}) (db : Db)
      → (static_gate services id rule_id validation db).0 ≡ ok u
      → (report : ValidationReport) × (validation ≡ some report) × (report.is_valid ≡ true)
  unfolding static_gate audit
  valid_report rule_id none u db h = cc
  valid_report rule_id (some report) u db h =
      (report, refl, valid_verdict rule_id report.is_valid u _ h)

  with_rule-Passed :
      (rule : GeneratedRule) (state : PipelineState) (db : Db)
      → (with_rule services id rule db).0 ≡ ok state
      → Passed state rule.id db (with_rule services id rule db).1
  unfolding with_rule require_contract validated review_gates
  with_rule-Passed rule state db h =
      let validation = services.validate_rule rule.id db in
      let (u, met, step) =
        >>=-steps state (require_contract services id "static_validation")
          (λ v. gets (services.validate_rule rule.id) >>= validated services id rule) db h in
      let then_ok = ap (λ o. o.0) (sym step) ∙ h in
      let (p, passed, last) =
        >>=-steps state (static_gate services id rule.id validation)
          (λ v. review_gates services id rule) db then_ok in
      let (awaiting, reviewable) =
        gates-is_reviewable services.library.lower id rule.id
          (static_gate services id rule.id validation db).1 state
          (ap (λ o. o.0) (sym last) ∙ then_ok) in
      let (report, found, valid) = valid_report rule.id validation p db passed in
      subst (λ o. Passed state rule.id db o.1) (sym (step ∙ last))
        (awaiting, reviewable, (report, contract_met _ u met, found, valid))

absent : (code : Option String) → is_none code ≡ true → code ≡ none
unfolding is_none
absent none h = refl
absent (some code) h = cc

all_met :
    (a b c : Bool) (d e f : SingleError) (u : Unit {0}) (db : Db)
    → ((do require a d; require b e; require c f) db).0 ≡ ok u
    → (a ≡ true) × (b ≡ true) × (c ≡ true)
all_met true true true d e f u db h = (refl, refl, refl)
all_met true true false d e f u db h = cc
all_met true false c d e f u db h = cc
all_met false b c d e f u db h = cc

three_same :
    (a b c : Bool) (d e f : SingleError) (db : Db)
    → ((do require a d; require b e; require c f) db).1 ≡ db
three_same true true c d e f db = require_same c f db
three_same true false c d e f db = refl
three_same false b c d e f db = refl

-- A specification that may go on.
abbrev pub IsReady : Option DetectionSpec → Type 0
IsReady spec =
    (s : DetectionSpec) × (spec ≡ some s)
    × (s.is_validated ≡ true)
    × (s.abstain_code ≡ none)
    × (is_set s.spec_payload ≡ true)

IsReady-check_spec :
    (spec : Option DetectionSpec) (u : Unit {0}) (db : Db)
    → (check_spec spec db).0 ≡ ok u
    → IsReady spec
unfolding check_spec
IsReady-check_spec none u db h = cc
IsReady-check_spec (some s) u db h =
    let (is_valid, no_abstain, filled) =
      all_met s.is_validated (is_none s.abstain_code) (is_set s.spec_payload)
        validated_spec_required abstain_spec payload_required u db h in
    (s, refl, is_valid, absent s.abstain_code no_abstain, filled)

check_spec-same : (spec : Option DetectionSpec) (db : Db) → (check_spec spec db).1 ≡ db
unfolding check_spec
check_spec-same none db = refl
check_spec-same (some s) db =
    three_same s.is_validated (is_none s.abstain_code) (is_set s.spec_payload)
      validated_spec_required abstain_spec payload_required db

-- If `run_pipeline` returns for a specification, it returns the state that awaits review; the specification is
-- stored, validated, no abstention and has a payload; and there is a rule, the only one stored for the
-- specification or, where none was, the stored one whose identifier the generator returned. On the
-- database at that time, which is the given one or the one with the generator's changes and the audit
-- of them, the memory contract of the static validation is met and the rule's report is valid; and on the
-- database that is left there are at least four outcomes of the rule and the run, all passed, and at
-- least one proof obligation, all proven, whatever the case of the letters of a status.
pub run_pipeline-Passed :
    (services : SingleServices) (detection_spec_id : String) (db : Db) (state : PipelineState)
    → (run_pipeline services detection_spec_id db).0 ≡ ok state
    → IsReady (first (λ (s : DetectionSpec). s.id == detection_spec_id) db.detection_specs)
      × ((rule : GeneratedRule) × (before : Db) × IsRuleOf services detection_spec_id rule db before
          × Passed services detection_spec_id state rule.id before
              (run_pipeline services detection_spec_id db).1)
unfolding run_pipeline with_spec with_rules require_contract
run_pipeline-Passed services id db state h =
    let spec = first (λ (s : DetectionSpec). s.id == id) db.detection_specs in
    let (u, checked, begun) = >>=-steps state (check_spec spec) (λ c. with_spec services id) db h in
    let db1 = (check_spec spec db).1 in
    let h1 = ap (λ o. o.0) (sym begun) ∙ h in
    let rules = keep (λ (r : GeneratedRule). r.detection_spec_id == id) db1.generated_rules in
    let (v, met, agreed) =
      >>=-steps state (require_contract services id "rule_generation")
        (λ met.
          gets (λ db. keep (λ (r : GeneratedRule). r.detection_spec_id == id) db.generated_rules)
          >>= with_rules services id)
        db1 h1 in
    let h2 = ap (λ o. o.0) (sym agreed) ∙ h1 in
    let (rule, found, last) =
      >>=-steps state (find_or_generate services id rules) (with_rule services id) db1 h2 in
    let unchanged : db1 ≡ db = check_spec-same spec db in
    let db2 = (find_or_generate services id rules db1).1 in
    (
      IsReady-check_spec spec u db checked,
      (
        rule,
        db2,
        subst (λ (d : Db). IsRuleOf services id rule d db2) unchanged
            (find_or_generate-IsRuleOf services id rules rule db1 refl found),
        subst (λ o. Passed services id state rule.id db2 o.1) (sym (begun ∙ agreed ∙ last))
            (with_rule-Passed services id rule state db2 (ap (λ o. o.0) (sym last) ∙ h2)),
      ),
    )
