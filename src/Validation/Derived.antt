-- ===== src/Validation/Derived.antt =====
-- The obligations that are derived from persisted artifacts, and the gate that reads them back.
use aicti.Base.{
  ℕ, suc, String, eq_refl, ◌≡◌, refl, sym, ap, subst, ◌∙◌, inl, inr, Bool, true, none, some, List,
  [], ◌∷◌, ◌++◌, map, keep-append, Bool-cases, ok, if◌then◌else◌,
}
use mathlib.Core.List.{append_assoc, append-nil, map-append}
use aicti.Db.{Db}
use aicti.Db.Action.{continue-pure}
use aicti.Proofs.{ProofRow}
use aicti.Validation.{
  has_rule, all_required_artifacts_passed, obligation_definitions, obligation, add_obligations,
  generate_proof_obligations_from_artifacts, is_obligation_of, proof_rows,
}

-- The row that a derived obligation is read back as.
abbrev pub fresh_row : String → String → Bool → String → ProofRow
fresh_row run_id rule_id p claim = record {
  run_id = run_id;
  rule_candidate_id = rule_id;
  claim_type = claim;
  status = if p then "proven" else "unknown";
  justification = if p then some "derived from persisted validation artifacts" else none;
}

abbrev pub fresh_rows : String → String → Bool → List ProofRow
fresh_rows run_id rule_id p = map (fresh_row run_id rule_id p) obligation_definitions

module _ (uuid4 : ℕ → String) (run_id rule_id : String) where
  one_more :
      (p : Bool) (c id : String) (db : Db)
      → proof_rows run_id rule_id (record db {
        proof_obligations = db.proof_obligations ++ obligation id run_id rule_id c p ∷ [];
        draws = suc db.draws;
      })
        ≡ proof_rows run_id rule_id db ++ fresh_row run_id rule_id p c ∷ []
  unfolding proof_rows is_obligation_of obligation
  one_more p c id db = simp (keep-append, map-append, eq_refl)

  proof_rows-add :
      (p : Bool) (claims : List String) (db : Db)
      → proof_rows run_id rule_id (add_obligations uuid4 run_id rule_id p claims db).1
        ≡ proof_rows run_id rule_id db ++ map (fresh_row run_id rule_id p) claims
  unfolding add_obligations proof_rows
  proof_rows-add p [] db = sym (append-nil _)
  proof_rows-add p (c ∷ cs) db =
      let id = uuid4 db.draws in
      let db' = record db {
        proof_obligations = db.proof_obligations ++ obligation id run_id rule_id c p ∷ [];
        draws = suc db.draws;
      } in
      let added = add_obligations uuid4 run_id rule_id p cs db' in
      ap (proof_rows run_id rule_id) (continue-pure added.0 (λ ids. id ∷ ids) added.1)
      ∙ proof_rows-add p cs db'
      ∙ ap (λ rows. rows ++ map (fresh_row run_id rule_id p) cs) (one_more p c id db)
      ∙ append_assoc (proof_rows run_id rule_id db) (fresh_row run_id rule_id p c ∷ [])
          (map (fresh_row run_id rule_id p) cs)

  add_obligations_ok :
      (p : Bool) (claims : List String) (db : Db)
      → (ids : List String) × ((add_obligations uuid4 run_id rule_id p claims db).0 ≡ ok ids)
  unfolding add_obligations
  add_obligations_ok p [] db = ([], refl)
  add_obligations_ok p (c ∷ cs) db =
      let db' = record db {
        proof_obligations =
            db.proof_obligations ++ obligation (uuid4 db.draws) run_id rule_id c p ∷ [];
        draws = suc db.draws;
      } in
      let (ids, e) = add_obligations_ok p cs db' in (uuid4 db.draws ∷ ids, rw e)

  -- Deriving the obligations of a known rule appends eight rows to those of the run and the rule.
  pub proof_rows-generate :
      (db : Db)
      → has_rule rule_id db ≡ true
      → proof_rows run_id rule_id
          (generate_proof_obligations_from_artifacts uuid4 run_id rule_id db).1
        ≡ proof_rows run_id rule_id db
          ++ fresh_rows run_id rule_id (all_required_artifacts_passed run_id rule_id db)
  unfolding generate_proof_obligations_from_artifacts
  proof_rows-generate db h =
      rw h
        (proof_rows-add (all_required_artifacts_passed run_id rule_id db) obligation_definitions db)

  -- Nothing but the obligations and the count of drawn identifiers changes.
  add_obligations-frame :
      (p : Bool) (claims : List String) (db : Db)
      → let db' = (add_obligations uuid4 run_id rule_id p claims db).1 in
        db' ≡ record db { proof_obligations = db'.proof_obligations; draws = db'.draws }
  unfolding add_obligations
  add_obligations-frame p [] db = refl
  add_obligations-frame p (c ∷ cs) db =
      let db' = record db {
        proof_obligations =
            db.proof_obligations ++ obligation (uuid4 db.draws) run_id rule_id c p ∷ [];
        draws = suc db.draws;
      } in
      let added = add_obligations uuid4 run_id rule_id p cs db' in
      let kept = continue-pure added.0 (λ ids. uuid4 db.draws ∷ ids) added.1 in
      subst (λ (d : Db). d ≡ record db { proof_obligations = d.proof_obligations; draws = d.draws })
        (sym kept) (add_obligations-frame p cs db')

  pub generate-frame :
      (db : Db)
      → let db' = (generate_proof_obligations_from_artifacts uuid4 run_id rule_id db).1 in
        db' ≡ record db { proof_obligations = db'.proof_obligations; draws = db'.draws }
  unfolding generate_proof_obligations_from_artifacts
  generate-frame db = elim (Bool-cases (has_rule rule_id db)) [
    | inl e ↦ rw e (
        add_obligations-frame (all_required_artifacts_passed run_id rule_id db)
          obligation_definitions db)
    | inr e ↦ rw e
  ]
