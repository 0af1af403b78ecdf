-- ===== src/Detection/Persisted/Generated.antt =====
-- The rule of a stored specification.
use aicti.Base.{
  ℕ, suc, String, ◌==◌, ◌≡◌, refl, sym, ap, ap₂, ◌∙◌, true, false, Option, none, some, List, [],
  ◌∷◌, ◌++◌, map, any, first, first-append, Result, ok, err, ◌>>=◌, arith, eq_iff, eq_refl,
  if◌then◌else◌,
}
use aicti.Value.{Value}
use aicti.Library.{Library}
use aicti.Db.{Db, DetectionSpec}
use aicti.Sigma.{DetectionAst, to_yaml}
use aicti.StaticValidation.{full}
use aicti.Ingestion.{repeats_key}
use aicti.Detection.{SpecPayload}
use aicti.Detection.Ast.{from_spec, dump_spec}
use aicti.Detection.Generation.{
  schema_checked, gate_checked, check_found, get_validated_detection_spec, payload_of,
  compiled_rule, sigma_of, materialize_spec, materialize_payload, materialize_sigma_from_spec,
  generated, save_rule, generate_from, generate_sigma_rule,
}
use aicti.Detection.Persisted.{
  DetectionSpecBuildResult, BuildError, spec_row, save_spec, persist_spec, build_detection_spec,
  enforce_behavior_telemetry_gate,
}
use aicti.Detection.Persisted.Reread.{is_normal, model_validate-dump_spec}

-- A key that is not repeated is not found.
first_new :
    (key : String) (specs : List DetectionSpec)
    → any (λ i. key == i) (map (λ (s : DetectionSpec). s.id) specs) ≡ false
    → first (λ (s : DetectionSpec). s.id == key) specs ≡ none
first_new key [] h = refl
first_new key (s ∷ ss) h =
    let other : (key == s.id) ≡ false = ground (arith, h) in
    let differ : (s.id == key) ≡ false = ground (arith, other, eq_iff s.id key, eq_iff key s.id) in
    let later : any (λ i. key == i) (map (λ (d : DetectionSpec). d.id) ss) ≡ false =
      ground (arith, h) in
    rw (differ, if◌then◌else◌) (first_new key ss later)

module _ (row : DetectionSpec) (db : Db) where
  abbrev with_row : Db
  with_row = record db { detection_specs = db.detection_specs ++ row ∷ [] }

  -- A commit that succeeds.
  saved_row :
      (result : DetectionSpecBuildResult)
      → (save_spec row db).0 ≡ ok result
      → (result.detection_spec_id ≡ row.id)
        × ((save_spec row db).1 ≡ with_row)
        × (first (λ (s : DetectionSpec). s.id == row.id) with_row.detection_specs ≡ some row)
  unfolding save_spec repeats_key
  saved_row result h =
      let new : any (λ i. row.id == i) (map (λ (s : DetectionSpec). s.id) db.detection_specs)
          ≡ false =
        ground (arith, h) in
      let known : result.detection_spec_id ≡ row.id = ground (arith, h) in
      (
        known,
        rw (new, if◌then◌else◌) refl,
        first-append (λ (s : DetectionSpec). s.id == row.id) db.detection_specs row
            (first_new row.id db.detection_specs new) (eq_refl row.id),
      )

module _ (library : Library) (loads : String → Option Value) (dump_json : Value → String) where
  -- The rule's part of a stored specification.
  abbrev pub sigma_for : DetectionAst → String × String × String
  sigma_for ast = (
    ast.id,
    to_yaml library (compiled_rule library loads ast "medium"),
    (compiled_rule library loads ast "medium").id,
  )

  abbrev pub rule_added : (ℕ → String) → SpecPayload → DetectionAst → Db → Db
  rule_added uuid4 spec ast db = record db {
    draws = suc db.draws;
    generated_rules =
        db.generated_rules
        ++ generated library loads (spec_row library dump_json spec) (uuid4 db.draws)
            (sigma_for ast)
          ∷ [];
  }

  module _ (spec : SpecPayload) (ast : DetectionAst) (normal : is_normal library spec ≡ true)
      (readable : loads (dump_json (dump_spec spec)) ≡ some (dump_spec spec))
      (given : from_spec library spec ≡ ok ast)
      (filled : (dump_json (dump_spec spec) == "") ≡ false) where
    abbrev row : DetectionSpec
    row = spec_row library dump_json spec

    materialized : materialize_sigma_from_spec library loads row ≡ ok (sigma_for ast)
    unfolding materialize_sigma_from_spec materialize_payload full spec_row payload_of
        schema_checked materialize_spec gate_checked sigma_of
    materialized =
        ap
          (λ b.
            materialize_payload library loads
              (if b then none else some (dump_json (dump_spec spec))))
          filled
        ∙ ap (λ o. payload_of library loads o >>= materialize_spec library loads) readable
        ∙ ap (λ r. schema_checked r >>= materialize_spec library loads)
            (model_validate-dump_spec library spec normal)
        ∙ ap (λ r. gate_checked r >>= sigma_of library loads) given

    generated_after :
        (uuid4 : ℕ → String) (db : Db)
        → first (λ (s : DetectionSpec). s.id == row.id) db.detection_specs ≡ some row
        → generate_sigma_rule library loads uuid4 row.id db ≡ (
          ok (record { rule_id = uuid4 db.draws; detection_spec_id = row.id }),
          rule_added uuid4 spec ast db,
        )
    unfolding generate_sigma_rule generate_from get_validated_detection_spec check_found save_rule
        spec_row
    generated_after uuid4 db found =
        ap (λ o. generate_from library loads uuid4 (check_found o) db) found
        ∙ ap
            (λ m.
              save_rule library loads row (uuid4 db.draws) m (record db { draws = suc db.draws }))
            materialized

    by_gate :
        (gate_answer : Result BuildError (Unit {0})) (uuid4 : ℕ → String) (db : Db)
        (result : DetectionSpecBuildResult)
        → (persist_spec library dump_json spec gate_answer db).0 ≡ ok result
        → let after = (persist_spec library dump_json spec gate_answer db).1 in
          generate_sigma_rule library loads uuid4 result.detection_spec_id after ≡ (
            ok (record { rule_id = uuid4 db.draws; detection_spec_id = result.detection_spec_id }),
            rule_added uuid4 spec ast after,
          )
    unfolding persist_spec
    by_gate (err e) uuid4 db result h = cc
    by_gate (ok done) uuid4 db result h =
        let (known, after, found) = saved_row row db result h in
        ap₂ (λ i d. generate_sigma_rule library loads uuid4 i d) known after
        ∙ generated_after uuid4 (with_row row db) found
        ∙ ap₂
            (λ i (d : Db). (
              ok (record { rule_id = uuid4 db.draws; detection_spec_id = i }),
              rule_added uuid4 spec ast d,
            ))
            (sym known) (sym after)

    -- Where the JSON text of a specification reads back as the value that was written and is not empty: when the specification, which its schema leaves
    -- as it is and whose logic is read, is stored, then the generation for the identifier returned gives a
    -- rule; the only change to the database is one rule more, with the YAML text and the identifiers of what the logic
    -- compiles to.
    pub build_detection_spec-generate_sigma_rule :
        (available : Option (List String)) (uuid4 : ℕ → String) (db : Db)
        (result : DetectionSpecBuildResult)
        → (build_detection_spec library dump_json spec available db).0 ≡ ok result
        → let after = (build_detection_spec library dump_json spec available db).1 in
          generate_sigma_rule library loads uuid4 result.detection_spec_id after ≡ (
            ok (record { rule_id = uuid4 db.draws; detection_spec_id = result.detection_spec_id }),
            rule_added uuid4 spec ast after,
          )
    unfolding build_detection_spec
    build_detection_spec-generate_sigma_rule available uuid4 db result h =
        by_gate (enforce_behavior_telemetry_gate spec available) uuid4 db result h
