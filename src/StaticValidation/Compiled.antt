-- ===== src/StaticValidation/Compiled.antt =====
-- What the static validation makes of a compiled rule.
use text.Mathlib.TextLemmas.{append_cancel_left, append_assoc, cons-append, append-nil}
use Prim.Native.String.{◌++◌ as ◌+++◌}
use aicti.Base.{
  sorted_texts, String, ◌==◌, contains, take_text, ◌≡◌, refl, sym, ap, ◌∙◌, eq_iff, true, false,
  none, some, List, [], ◌∷◌, first, ok, if◌then◌else◌, ◌||◌, Bool-cases, inl, inr, arith,
}
use aicti.Value.{Value, Fields, end, field, get, set, is_text}
use aicti.Library.{Library}
use aicti.Db.{Db, GeneratedRule}
use aicti.Sigma.{
  FieldConditionNode, DetectionAst, SigmaRule, selection_name, selection_of, add_selections,
  compiled_detection, compile, dump_rule, dump_logsource, to_yaml,
}
use aicti.StaticValidation.{
  report_on, validate_structure, mapping_or_empty, field_issues, selection_issues,
  validate_telemetry_and_fields, specific_issues, validate_overbroad, validate_parsed,
  validate_content, validate_loaded, without_repeats, broad_issues, matches_all, validate_rule,
  full, has_spec,
}

get-set_other :
    (key k : String) (v : Value) (fs : Fields)
    → (k == key) ≡ false
    → get key (set k v fs) ≡ get key fs
unfolding get set
get-set_other key k v end h = rw h refl
get-set_other key k v (field j w fs) h = elim (Bool-cases (j == k)) [
  | inl e ↦
      let apart : (j == key) ≡ false = ap (λ t. t == key) ((eq_iff j k).0 e) ∙ h in
      rw e (rw apart refl)
  | inr e ↦ rw e (elim (Bool-cases (j == key)) [
    | inl f ↦ rw f refl
    | inr f ↦ rw f (get-set_other key k v fs h)
  ])
]

-- No selection of a compiled rule is called `selection`.
selection_name-longer : (c : FieldConditionNode) → (selection_name c == "selection") ≡ false
unfolding selection_name take_text
selection_name-longer c = elim (Bool-cases (selection_name c == "selection")) [
  | inr e ↦ e
  | inl e ↦ letters (
      sym (ap (take_text 1) (cons-append _ "" c.id))
      ∙ ap (take_text 1) (
          append_cancel_left "selection" ("_" +++ c.id) "" (
            sym (append_assoc "selection" "_" c.id)
            ∙ (eq_iff (selection_name c) "selection").0 e
            ∙ sym (append-nil "selection"))))
]
  where
    letters : ◌≡◌ {A = String} "_" "" → (selection_name c == "selection") ≡ false
    letters e = ground (arith, eq_iff "_" "")

no_selection :
    (cs : List FieldConditionNode) (detection : Fields)
    → get "selection" (add_selections cs detection) ≡ get "selection" detection
unfolding add_selections
no_selection [] detection = refl
no_selection (c ∷ cs) detection =
    no_selection cs (set (selection_name c) (selection_of c) detection)
    ∙ get-set_other "selection" (selection_name c) (selection_of c) detection
        (selection_name-longer c)

selection_absent : (ast : DetectionAst) → get "selection" (compiled_detection ast) ≡ none
unfolding compiled_detection get
selection_absent ast =
    get-set_other "selection" "condition" _ (add_selections ast.root.children end) refl
    ∙ no_selection ast.root.children end

module _ (library : Library) (ast : DetectionAst) (title description : String)
    (falsepositives : List String) (level : String)
    (reads_back : library.safe_load
        (to_yaml library (compile library ast title description falsepositives level))
      ≡ some (dump_rule library (compile library ast title description falsepositives level))) where
  abbrev compiled : SigmaRule
  compiled = compile library ast title description falsepositives level

  -- The checks on the mapping of a compiled rule.
  validate_loaded-dump_rule :
      (content : String)
      → validate_loaded library content (some (dump_rule library compiled))
        ≡ ok (report_on (specific_issues content))
  unfolding validate_loaded validate_parsed compile dump_rule dump_logsource get is_text
      validate_structure mapping_or_empty validate_telemetry_and_fields field_issues
      selection_issues validate_overbroad broad_issues matches_all
  validate_loaded-dump_rule content = rw (selection_absent ast) refl

  validate_content-to_yaml :
      validate_content library (to_yaml library compiled)
      ≡ ok (report_on (specific_issues (to_yaml library compiled)))
  unfolding validate_content
  validate_content-to_yaml =
      ap (validate_loaded library (to_yaml library compiled)) reads_back
      ∙ validate_loaded-dump_rule (to_yaml library compiled)

  report_on-specific_issues :
      (content : String)
      → report_on (specific_issues content) ≡ (
          let b = contains "Image|contains" content || contains "CommandLine|contains" content in
          record {
            is_valid = b;
            issues =
                if b then [] else "rule is too broad: missing behavior-specific selectors" ∷ [];
          })
  unfolding report_on specific_issues without_repeats sorted_texts
  report_on-specific_issues content = elim (Bool-cases (contains "Image|contains" content)) [
    | inl e ↦ rw e refl
    | inr e ↦ rw e (elim (Bool-cases (contains "CommandLine|contains" content)) [
      | inl f ↦ rw f refl
      | inr f ↦ rw f refl
    ])
  ]

  -- Where `safe_load` gives back the mapping that `safe_dump` wrote for a compiled rule: the static validation of a rule whose text is that
  -- of a compiled rule and is not empty, and whose specification is validated and has a payload, returns;
  -- the rule is valid exactly when the text contains `Image|contains` or `CommandLine|contains`, and the
  -- only issue of the others is that they are too broad, whatever fields the conditions name.
  pub validate_rule-to_yaml :
      (rule_id : String) (db : Db) (rule : GeneratedRule)
      → first (λ (r : GeneratedRule). r.id == rule_id) db.generated_rules ≡ some rule
      → rule.rule_content ≡ some (to_yaml library compiled)
      → (to_yaml library compiled == "") ≡ false
      → has_spec rule.detection_spec_id db ≡ true
      → validate_rule library rule_id db ≡ (
          let content =
            to_yaml library (compile library ast title description falsepositives level) in
          let b = contains "Image|contains" content || contains "CommandLine|contains" content in
          ok (record {
            is_valid = b;
            issues =
                if b then [] else "rule is too broad: missing behavior-specific selectors" ∷ [];
          }))
  unfolding validate_rule full
  validate_rule-to_yaml rule_id db rule found content filled has =
      rw (found, validate_rule)
        (rw (content, validate_rule, full)
          (rw (filled, validate_rule, full)
            (rw (has, validate_rule)
              (validate_content-to_yaml
                ∙ ap ok (report_on-specific_issues (to_yaml library compiled))))))
