-- ===== src/Detection/Persisted/Reread.antt =====
-- What is read from a stored specification.
use aicti.Base.{
  String, ◌==◌, ◌≡◌, refl, ap, ap₂, ◌∙◌, Bool, true, false, ◌&&◌, not, some, List, [], ◌∷◌, map,
  any, all, is_empty, strip, ok, ◌>>=◌, ◌>>◌, require, eq_iff, and_true, arith,
}
use aicti.Value.{Value, end, field, get, texts_of}
use aicti.Library.{Library}
use aicti.Detection.{
  BehaviorRule, SpecPayload, texts_in, cleaned_list, stripped_text, behavior_rule, rules_in,
  rule_list, only_keys, model_validate, is_attack_id, invalid_payload,
}
use aicti.Detection.Ast.{dump_behavior_rules, dump_spec}

-- A text that is not blank and has no white space at its ends.
abbrev pub is_trimmed : String → Bool
is_trimmed t = (strip t == t) && not (t == "")

abbrev pub are_trimmed : List String → Bool
are_trimmed ts = not (is_empty ts) && all is_trimmed ts

texts_in-texts_of : (ts : List String) → texts_in (texts_of ts) ≡ ok ts
unfolding texts_in texts_of
texts_in-texts_of [] = refl
texts_in-texts_of (t ∷ ts) = ap (λ r. r >>= λ us. ok (t ∷ us)) (texts_in-texts_of ts)

map-strip :
    (ts : List String)
    → all is_trimmed ts ≡ true
    → (map strip ts ≡ ts) × (any (λ t. t == "") ts ≡ false)
map-strip [] h = (refl, refl)
map-strip (t ∷ ts) h =
    let (here, rest) = and_true (is_trimmed t) (all is_trimmed ts) h in
    let (same, filled) = and_true (strip t == t) (not (t == "")) here in
    let (later, others) = map-strip ts rest in
    (ap₂ (λ u us. u ∷ us) ((eq_iff (strip t) t).0 same) later, ground (arith, filled, others))

cleaned_texts :
    (ts : List String)
    → are_trimmed ts ≡ true
    → cleaned_list (some (Value.list (texts_of ts))) ≡ ok ts
unfolding cleaned_list
cleaned_texts ts h =
    let (some_item, trimmed) = and_true (not (is_empty ts)) (all is_trimmed ts) h in
    let (same, filled) = map-strip ts trimmed in
    rw (texts_in-texts_of ts, cleaned_list)
      (rw (same, cleaned_list)
        (rw (filled, cleaned_list)
          (ap (λ b. require (b && true) invalid_payload >> ok ts) some_item)))

stripped_one : (t : String) → is_trimmed t ≡ true → stripped_text (some (Value.text t)) ≡ ok t
unfolding stripped_text
stripped_one t h =
    let (same, filled) = and_true (strip t == t) (not (t == "")) h in
    ap (λ u. (do require (not (u == "")) invalid_payload; ok u)) ((eq_iff (strip t) t).0 same)
    ∙ ap (λ b. require b invalid_payload >> ok t) filled

module _ (library : Library) where
  abbrev pub is_normal_rule : BehaviorRule → Bool
  is_normal_rule rule =
      are_trimmed rule.evidence
      && are_trimmed rule.attack_ids
      && not (any (λ i. not (is_attack_id library i)) rule.attack_ids)
      && are_trimmed rule.required_telemetry
      && all (λ t. library.lower t == t) rule.required_telemetry
      && is_trimmed rule.detection_logic

  map-lower :
      (ts : List String) → all (λ t. library.lower t == t) ts ≡ true → map library.lower ts ≡ ts
  map-lower [] h = refl
  map-lower (t ∷ ts) h =
      let (here, rest) = and_true (library.lower t == t) _ h in
      ap₂ (λ u us. u ∷ us) ((eq_iff (library.lower t) t).0 here) (map-lower ts rest)

  abbrev dumped_rule : BehaviorRule → Value
  dumped_rule rule = Value.dict (
      field "evidence" (Value.list (texts_of rule.evidence)) (
        field "attack_ids" (Value.list (texts_of rule.attack_ids)) (
          field "required_telemetry" (Value.list (texts_of rule.required_telemetry))
            (field "detection_logic" (Value.text rule.detection_logic) end))))

  behavior_rule-dumped_rule :
      (rule : BehaviorRule)
      → is_normal_rule rule ≡ true
      → behavior_rule library (dumped_rule rule) ≡ ok rule
  unfolding behavior_rule get only_keys
  behavior_rule-dumped_rule rule h =
      let evidence : are_trimmed rule.evidence ≡ true = ground (arith, h) in
      let ids : are_trimmed rule.attack_ids ≡ true = ground (arith, h) in
      let known : any (λ i. not (is_attack_id library i)) rule.attack_ids ≡ false =
        ground (arith, h) in
      let telemetry : are_trimmed rule.required_telemetry ≡ true = ground (arith, h) in
      let low : all (λ t. library.lower t == t) rule.required_telemetry ≡ true =
        ground (arith, h) in
      let logic : is_trimmed rule.detection_logic ≡ true = ground (arith, h) in
      rw (cleaned_texts rule.evidence evidence, behavior_rule)
        (rw (cleaned_texts rule.attack_ids ids, behavior_rule)
          (rw (known, behavior_rule)
            (rw (cleaned_texts rule.required_telemetry telemetry, behavior_rule)
              (rw (stripped_one rule.detection_logic logic, behavior_rule)
                (rw (map-lower rule.required_telemetry low) refl)))))

  rules_in-dump_behavior_rules :
      (rules : List BehaviorRule)
      → all is_normal_rule rules ≡ true
      → rules_in library (dump_behavior_rules rules) ≡ ok rules
  unfolding rules_in dump_behavior_rules
  rules_in-dump_behavior_rules [] h = refl
  rules_in-dump_behavior_rules (rule ∷ rules) h =
      let (here, rest) = and_true (is_normal_rule rule) (all is_normal_rule rules) h in
      ap (λ r. r >>= λ a. rules_in library (dump_behavior_rules rules) >>= λ as'. ok (a ∷ as'))
        (behavior_rule-dumped_rule rule here)
      ∙ ap (λ r. r >>= λ as'. ok (rule ∷ as')) (rules_in-dump_behavior_rules rules rest)

  rule_list-dump_behavior_rules :
      (rules : List BehaviorRule)
      → not (is_empty rules) ≡ true
      → all is_normal_rule rules ≡ true
      → rule_list library (some (Value.list (dump_behavior_rules rules))) ≡ ok rules
  unfolding rule_list
  rule_list-dump_behavior_rules rules filled h =
      rw (rules_in-dump_behavior_rules rules h, rule_list)
        (ap (λ b. require b invalid_payload >> ok rules) filled)

  -- What the schema leaves as it is.
  abbrev pub is_normal : SpecPayload → Bool
  is_normal spec =
      is_trimmed spec.report_id
      && not (is_empty spec.behavior_rules)
      && all is_normal_rule spec.behavior_rules
      && are_trimmed spec.false_positive_hypotheses
      && is_trimmed spec.test_plan
      && are_trimmed spec.evidence_ids
      && are_trimmed spec.behavior_ids
      && is_trimmed spec.detection_strategy
      && is_trimmed spec.analytic
      && is_trimmed spec.data_component
      && are_trimmed spec.allowed_telemetry_fields
      && are_trimmed spec.rationale_traceability

  pub model_validate-dump_spec :
      (spec : SpecPayload)
      → is_normal spec ≡ true
      → model_validate library (dump_spec spec) ≡ ok spec
  unfolding model_validate dump_spec get only_keys
  model_validate-dump_spec spec h =
      let h0 : is_trimmed spec.report_id ≡ true = ground (arith, h) in
      let filled : not (is_empty spec.behavior_rules) ≡ true = ground (arith, h) in
      let normal : all is_normal_rule spec.behavior_rules ≡ true = ground (arith, h) in
      let h2 : are_trimmed spec.false_positive_hypotheses ≡ true = ground (arith, h) in
      let h3 : is_trimmed spec.test_plan ≡ true = ground (arith, h) in
      let h4 : are_trimmed spec.evidence_ids ≡ true = ground (arith, h) in
      let h5 : are_trimmed spec.behavior_ids ≡ true = ground (arith, h) in
      let h6 : is_trimmed spec.detection_strategy ≡ true = ground (arith, h) in
      let h7 : is_trimmed spec.analytic ≡ true = ground (arith, h) in
      let h8 : is_trimmed spec.data_component ≡ true = ground (arith, h) in
      let h9 : are_trimmed spec.allowed_telemetry_fields ≡ true = ground (arith, h) in
      let h10 : are_trimmed spec.rationale_traceability ≡ true = ground (arith, h) in
      rw (stripped_one spec.report_id h0, model_validate)
        (rw (rule_list-dump_behavior_rules spec.behavior_rules filled normal, model_validate)
          (rw (cleaned_texts spec.false_positive_hypotheses h2, model_validate)
            (rw (stripped_one spec.test_plan h3, model_validate)
              (rw (cleaned_texts spec.evidence_ids h4, model_validate)
                (rw (cleaned_texts spec.behavior_ids h5, model_validate)
                  (rw (stripped_one spec.detection_strategy h6, model_validate)
                    (rw (stripped_one spec.analytic h7, model_validate)
                      (rw (stripped_one spec.data_component h8, model_validate)
                        (rw (cleaned_texts spec.allowed_telemetry_fields h9, model_validate)
                          (rw (cleaned_texts spec.rationale_traceability h10, model_validate)
                            refl))))))))))
