-- ===== src/Detection/Generation/Provenance.antt =====
-- What the generation of a rule stores.
use aicti.Base.{
  ℕ, suc, ◌+◌, String, ◌==◌, concat, ◌≡◌, refl, sym, ap, subst, ◌∙◌, true, false, Option, none,
  some, [], ◌∷◌, ◌++◌, first, Result, ok, err, ok-injective, >>=-succeeds, arith, eq_iff,
  Bool-cases, inl, inr, text_length, text_length-append, take_text, take-append,
}
use aicti.Value.{Value}
use aicti.Library.{Library}
use aicti.Db.{Db, DetectionSpec}
use aicti.Sigma.{DetectionAst, compile, to_yaml}
use aicti.StaticValidation.{full}
use aicti.Export.{assert_rule_has_compiler_provenance, is_set, is_some_text}
use aicti.Detection.{SchemaError, SpecPayload, model_validate}
use aicti.Detection.Clauses.{AstError}
use aicti.Detection.Ast.{from_spec, ast_of}
use aicti.Detection.Generation.{
  GenerationError, RuleGenerationResult, schema_checked, gate_checked, check_found,
  get_validated_detection_spec, payload_of, compiled_rule, sigma_of, materialize_spec,
  materialize_payload, materialize_sigma_from_spec, generated, save_rule, generate_from,
  generate_sigma_rule,
}
use aicti.Detection.Generation.Matched.{from_spec-Read}

-- Texts with different fronts of the same length.
fronts_differ :
    (p q x y : String)
    → text_length p ≡ text_length q
    → (p == q) ≡ false
    → (concat p x == concat q y) ≡ false
fronts_differ p q x y long differ = elim (Bool-cases (concat p x == concat q y)) [
  | inr e ↦ e
  | inl e ↦
      let whole : concat p x ≡ concat q y = (eq_iff (concat p x) (concat q y)).0 e in
      let same : p ≡ q =
        sym (take-append p x)
        ∙ ap (take_text (text_length p)) whole
        ∙ ap (λ n. take_text n (concat q y)) long
        ∙ take-append q y in
      let hit : (p == q) ≡ true = (eq_iff p q).1 same in cc
]

filled : (p x : String) (n : ℕ) → text_length p ≡ suc n → (concat p x == "") ≡ false
unfolding text_length
filled p x n long = elim (Bool-cases (concat p x == "")) [
  | inr e ↦ e
  | inl e ↦
      let blank : text_length (concat p x) ≡ 0 = ap text_length ((eq_iff (concat p x) "").0 e) in
      let total : text_length (concat p x) ≡ text_length p + text_length x =
        text_length-append p x in
      absurd (omega (arith, blank, total, long))
]

-- A row whose identifiers have the compiler's prefixes.
generated_sound :
    (spec : DetectionSpec) (rule_id content x y : String) (library : Library)
    (loads : String → Option Value)
    → assert_rule_has_compiler_provenance
        (generated library loads spec rule_id (concat "ast_" x, content, concat "sigma_" y))
      ≡ ok tt
unfolding assert_rule_has_compiler_provenance generated is_set is_some_text text_length
generated_sound spec rule_id content x y library loads =
    rw (filled "ast_" x 3 refl, assert_rule_has_compiler_provenance)
      (rw (filled "sigma_" y 5 refl, assert_rule_has_compiler_provenance)
        (rw (fronts_differ "ast_" "ast-" x rule_id refl refl, assert_rule_has_compiler_provenance)
          (rw
            (
              fronts_differ "sigma_" "sigma-" y rule_id refl refl,
              assert_rule_has_compiler_provenance,
            )
            refl)))

gate_checked_ok :
    (r : Result AstError DetectionAst) (ast : DetectionAst) → gate_checked r ≡ ok ast → r ≡ ok ast
unfolding gate_checked
gate_checked_ok (ok a) ast h = ap ok (ok-injective h)
gate_checked_ok (err e) ast h = cc

schema_checked_ok :
    (r : Result SchemaError SpecPayload) (spec : SpecPayload)
    → schema_checked r ≡ ok spec
    → r ≡ ok spec
unfolding schema_checked
schema_checked_ok (ok a) spec h = ap ok (ok-injective h)
schema_checked_ok (err e) spec h = cc

check_found_ok :
    (o : Option DetectionSpec) (spec : DetectionSpec)
    → check_found o ≡ ok spec
    → (o ≡ some spec) × (spec.abstain_code ≡ none) × (spec.is_validated ≡ true)
unfolding check_found
check_found_ok none spec h = cc
check_found_ok (some s) spec h =
    let same : s ≡ spec = ground (arith, h) in
    let kept : s.abstain_code ≡ none = ground (arith, h) in
    let validated : s.is_validated ≡ true = ground (arith, h) in
    (
      ap some same,
      ap (λ (d : DetectionSpec). d.abstain_code) (sym same) ∙ kept,
      ap (λ (d : DetectionSpec). d.is_validated) (sym same) ∙ validated,
    )

module _ (library : Library) (loads : String → Option Value) where
  payload_of_ok :
      (o : Option Value) (spec : SpecPayload)
      → payload_of library loads o ≡ ok spec
      → (v : Value) × (o ≡ some v) × (model_validate library v ≡ ok spec)
  unfolding payload_of
  payload_of_ok none spec h = cc
  payload_of_ok (some v) spec h = (v, refl, schema_checked_ok (model_validate library v) spec h)

  -- What the rule of a row was compiled from.
  abbrev pub Compiled : Option String → String × String × String → Type 0
  Compiled stored (ast_id, content, sigma_id) =
      (text : String) × (v : Value) × (payload : SpecPayload) × (ast : DetectionAst) × (full stored
        ≡ some text)
      × (loads text ≡ some v)
      × (model_validate library v ≡ ok payload)
      × (from_spec library payload ≡ ok ast)
      × (ast_id ≡ ast.id)
      × (content ≡ to_yaml library (compiled_rule library loads ast "medium"))
      × (sigma_id ≡ (compiled_rule library loads ast "medium").id)

  materialize-Compiled :
      (stored : Option String) (o : Option String) (sigma : String × String × String)
      → full stored ≡ o
      → materialize_payload library loads o ≡ ok sigma
      → Compiled stored sigma
  unfolding materialize_payload materialize_spec sigma_of
  materialize-Compiled stored none sigma same h = cc
  materialize-Compiled stored (some text) sigma same h =
      let (payload, read, h1) =
        >>=-succeeds (payload_of library loads (loads text)) (materialize_spec library loads) h in
      let (ast, given, h2) =
        >>=-succeeds (gate_checked (from_spec library payload)) (sigma_of library loads) h1 in
      let (v, loaded, valid) = payload_of_ok (loads text) payload read in
      let parts = ok-injective h2 in
      (
        text,
        v,
        payload,
        ast,
        same,
        loaded,
        valid,
        gate_checked_ok (from_spec library payload) ast given,
        sym (ap (λ p. p.0) parts),
        sym (ap (λ p. p.1) parts),
        sym (ap (λ p. p.2) parts),
      )

  accepted_row :
      (spec : DetectionSpec) (rule_id : String) (sigma : String × String × String)
      → Compiled spec.spec_payload sigma
      → assert_rule_has_compiler_provenance (generated library loads spec rule_id sigma) ≡ ok tt
  unfolding compiled_rule compile ast_of
  accepted_row spec rule_id (ast_id, content, sigma_id)
        (text, v, payload, ast, stored, loaded, valid, given, first_id, body, last_id) =
      let (rule, rules, source, pairs, listed, parsed, same) =
        from_spec-Read library payload ast given in
      subst
        (λ (i : String).
          assert_rule_has_compiler_provenance
            (generated library loads spec rule_id (i, content, sigma_id))
          ≡ ok tt)
        (sym (first_id ∙ ap (λ (a : DetectionAst). a.id) same))
        (subst
          (λ (j : String).
            assert_rule_has_compiler_provenance (
              generated library loads spec rule_id
                ((ast_of library payload rule source pairs).id, content, j))
            ≡ ok tt)
          (sym last_id) (generated_sound spec rule_id content _ _ library loads))

  -- The row that a generation adds, and what it was made from.
  abbrev pub Generates : (ℕ → String) → String → Db → RuleGenerationResult → Type 0
  Generates uuid4 detection_spec_id db result =
      (spec : DetectionSpec) × (sigma : String × String × String) × (first
          (λ (s : DetectionSpec). s.id == detection_spec_id) db.detection_specs
        ≡ some spec)
      × (spec.abstain_code ≡ none)
      × (spec.is_validated ≡ true)
      × Compiled spec.spec_payload sigma
      × (result ≡ record { rule_id = uuid4 db.draws; detection_spec_id = spec.id })
      × ((generate_sigma_rule library loads uuid4 detection_spec_id db).1 ≡ record db {
        draws = suc db.draws;
        generated_rules =
            db.generated_rules ++ generated library loads spec (uuid4 db.draws) sigma ∷ [];
      })
      × (assert_rule_has_compiler_provenance (generated library loads spec (uuid4 db.draws) sigma)
          ≡ ok tt)

  -- With the outcome of each of its parts.
  saved :
      (uuid4 : ℕ → String) (db : Db) (spec : DetectionSpec)
      (sigma : Result GenerationError (String × String × String)) (result : RuleGenerationResult)
      → (save_rule library loads spec (uuid4 db.draws) sigma (record db { draws = suc db.draws })).0
        ≡ ok result
      → (s : String × String × String) × (sigma ≡ ok s)
        × (result ≡ record { rule_id = uuid4 db.draws; detection_spec_id = spec.id })
  unfolding save_rule
  saved uuid4 db spec (err e) result h = cc
  saved uuid4 db spec (ok s) result h = (s, refl, sym (ok-injective h))

  generate_steps :
      (uuid4 : ℕ → String) (detection_spec_id : String) (db : Db) (result : RuleGenerationResult)
      (found : Result GenerationError DetectionSpec)
      → get_validated_detection_spec detection_spec_id db ≡ found
      → (generate_from library loads uuid4 found db).0 ≡ ok result
      → Generates uuid4 detection_spec_id db result
  unfolding generate_from generate_sigma_rule get_validated_detection_spec
      materialize_sigma_from_spec save_rule
  generate_steps uuid4 id db result (err e) same h = cc
  generate_steps uuid4 id db result (ok spec) same h =
      let (listed, kept, validated) =
        check_found_ok (first (λ (s : DetectionSpec). s.id == id) db.detection_specs) spec same in
      let (sigma, made, answer) =
        saved uuid4 db spec (materialize_sigma_from_spec library loads spec) result h in
      let compiled =
        materialize-Compiled spec.spec_payload (full spec.spec_payload) sigma refl made in
      (
        spec,
        sigma,
        listed,
        kept,
        validated,
        compiled,
        answer,
        ap (λ r. (generate_from library loads uuid4 r db).1) same
            ∙ ap
                (λ m.
                  (save_rule library loads spec (uuid4 db.draws) m
                    (record db { draws = suc db.draws })).1)
                made,
        accepted_row spec (uuid4 db.draws) sigma compiled,
      )

  -- A generation that returns found a validated specification that does not abstain, read its payload, and
  -- added one rule and changed no other table: the rule has the YAML text and the identifiers of the
  -- rule that the payload's logic compiles to, and passes the export gate's check of its compiler provenance.
  pub generate_sigma_rule-Generates :
      (uuid4 : ℕ → String) (detection_spec_id : String) (db : Db) (result : RuleGenerationResult)
      → (generate_sigma_rule library loads uuid4 detection_spec_id db).0 ≡ ok result
      → Generates uuid4 detection_spec_id db result
  unfolding generate_sigma_rule
  generate_sigma_rule-Generates uuid4 id db result h =
      generate_steps uuid4 id db result (get_validated_detection_spec id db) refl h
