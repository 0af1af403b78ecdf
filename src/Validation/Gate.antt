-- ===== src/Validation/Gate.antt =====
-- The coverage gate over the obligations that are derived from persisted artifacts.
use aicti.Base.{
  ℕ, String, ◌==◌, eq_iff, eq_refl, ◌≡◌, ◌≢◌, refl, sym, ap, ap₂, subst, ◌∙◌, inl, inr, ◌↔◌, Bool,
  true, false, not, ◌&&◌, List, [], ◌∷◌, ◌++◌, map, any, all, keep, all-append, keep-all,
  any-append, arith, Bool-cases, and_true, and_intro, and-true, and_swap, all_ext, all_or_right, ok,
}
use aicti.Db.{Db, ProofObligationRecord}
use aicti.Proofs.{
  ProofRow, has_claim, accepts, is_current, required_claims, assert_coverage_satisfied,
}
use aicti.Proofs.Coverage.{
  distinct_claims, current_rows, all_accepted, is_covered, assert_coverage_satisfied_iff,
}
use aicti.Validation.Derived.{fresh_rows, proof_rows-generate, generate-frame}
use aicti.Validation.{
  has_rule, all_required_artifacts_passed, obligation_definitions,
  generate_proof_obligations_from_artifacts, is_obligation_of, proof_row, proof_rows, selectable,
  verify_persisted_proofs_selectable,
}

-- Some derived obligation has this claim type.
abbrev pub is_defined : String → Bool
is_defined claim = any (λ c. c == claim) obligation_definitions

-- No row has a claim type of a derived obligation.
abbrev pub is_untouched : List ProofRow → Bool
is_untouched = all (λ r. not (is_defined r.claim_type))

distinct-append :
    (xs ys : List ProofRow)
    → distinct_claims (xs ++ ys) ≡ (
        distinct_claims xs
        && (all (λ r. not (any (has_claim r.claim_type) ys)) xs && distinct_claims ys))
distinct-append [] ys = refl
distinct-append (x ∷ xs) ys =
    ground (arith, distinct-append xs ys, any-append (has_claim x.claim_type) xs ys)

abbrev accepting : String → ProofRow → Bool
accepting claim r = has_claim claim r && accepts claim r

abbrev some_accepts : List ProofRow → String → Bool
some_accepts rows claim = any (accepting claim) rows

-- Rows that no derived obligation shares a claim type with accept no such claim.
untouched_accepts :
    (old : List ProofRow) (claim : String)
    → is_untouched old ≡ true
    → is_defined claim ≡ true
    → some_accepts old claim ≡ false
unfolding has_claim
untouched_accepts [] claim h d = refl
untouched_accepts (r ∷ rs) claim h d =
    let (other, rest) = and_true (not (is_defined r.claim_type)) (is_untouched rs) h in
    elim (Bool-cases (r.claim_type == claim)) [
      | inr e ↦ rw e (untouched_accepts rs claim rest d)
      | inl e ↦ cc (other, ap is_defined ((eq_iff r.claim_type claim).0 e), d)
    ]

module _ (run_id rule_id : String) where
  distinct-fresh_rows : (p : Bool) → distinct_claims (fresh_rows run_id rule_id p) ≡ true
  unfolding has_claim
  distinct-fresh_rows p = refl

  untouched-fresh_rows :
      (p : Bool) (old : List ProofRow)
      → all (λ r. not (any (has_claim r.claim_type) (fresh_rows run_id rule_id p))) old
        ≡ is_untouched old
  unfolding has_claim
  untouched-fresh_rows p old = refl

  accepted-fresh_rows : all (some_accepts (fresh_rows run_id rule_id true)) required_claims ≡ true
  unfolding has_claim accepts
  accepted-fresh_rows = refl

  accepted_proven :
      (old : List ProofRow)
      → all_accepted (old ++ fresh_rows run_id rule_id true) required_claims ≡ true
  accepted_proven old =
      all_ext _ _ required_claims
        (λ c. any-append (accepting c) old (fresh_rows run_id rule_id true))
      ∙ all_or_right (some_accepts old) (some_accepts (fresh_rows run_id rule_id true))
          required_claims accepted-fresh_rows

  accepted_unknown :
      (old : List ProofRow)
      → is_untouched old ≡ true
      → all_accepted (old ++ fresh_rows run_id rule_id false) required_claims ≡ false
  unfolding has_claim accepts
  accepted_unknown old h =
      all_ext _ _ required_claims
        (λ c. any-append (accepting c) old (fresh_rows run_id rule_id false))
      ∙ rw (untouched_accepts old "benign_baseline_not_matched" h refl)

  current-proof_rows :
      (os : List ProofObligationRecord)
      → all (is_current run_id rule_id) (map proof_row (keep (is_obligation_of run_id rule_id) os))
        ≡ true
  unfolding is_current is_obligation_of proof_row
  current-proof_rows [] = refl
  current-proof_rows (o ∷ os) = ground (arith, current-proof_rows os)

  current-fresh_rows :
      (p : Bool) → all (is_current run_id rule_id) (fresh_rows run_id rule_id p) ≡ true
  unfolding is_current
  current-fresh_rows p = rw (eq_refl run_id, eq_refl rule_id)

  selectable_iff :
      (rows : List ProofRow)
      → (selectable run_id rule_id rows ≡ ok true)
        ↔ (assert_coverage_satisfied run_id rule_id rows ≡ ok tt)
  unfolding selectable
  selectable_iff [] = (
    λ h. cc,
    λ h. let e : false ≡ true = (assert_coverage_satisfied_iff run_id rule_id []).0 h in cc,
  )
  selectable_iff (r ∷ rs) = ground arith

  all_current :
      (old : List ProofRow) (p : Bool)
      → all (is_current run_id rule_id) old ≡ true
      → current_rows run_id rule_id (old ++ fresh_rows run_id rule_id p)
        ≡ old ++ fresh_rows run_id rule_id p
  all_current old p h = keep-all (is_current run_id rule_id) (old ++ fresh_rows run_id rule_id p) (
      all-append (is_current run_id rule_id) old (fresh_rows run_id rule_id p)
      ∙ and_intro h (current-fresh_rows p))

  distinct-append_fresh :
      (old : List ProofRow) (p : Bool)
      → distinct_claims (old ++ fresh_rows run_id rule_id p)
        ≡ (distinct_claims old && is_untouched old)
  distinct-append_fresh old p =
      distinct-append old (fresh_rows run_id rule_id p)
      ∙ ap₂ (λ u d. distinct_claims old && (u && d)) (untouched-fresh_rows p old)
          (distinct-fresh_rows p)
      ∙ ap (λ b. distinct_claims old && b) (and-true (is_untouched old))

  accepted_if :
      (old : List ProofRow) (p : Bool)
      → is_untouched old ≡ true
      → all_accepted (old ++ fresh_rows run_id rule_id p) required_claims ≡ p
  accepted_if old true h = accepted_proven old
  accepted_if old false h = accepted_unknown old h

  -- What the gate makes of derived rows behind older ones of the same run and rule.
  covered-append_fresh :
      (old : List ProofRow) (p : Bool)
      → all (is_current run_id rule_id) old ≡ true
      → is_covered run_id rule_id (old ++ fresh_rows run_id rule_id p)
        ≡ (p && (distinct_claims old && is_untouched old))
  covered-append_fresh old p h =
      ap (λ rows. distinct_claims rows && all_accepted rows required_claims) (all_current old p h)
      ∙ ap (λ d. d && all_accepted (old ++ fresh_rows run_id rule_id p) required_claims)
          (distinct-append_fresh old p)
      ∙ and_swap (distinct_claims old) (is_untouched old) _ p (accepted_if old p)

  -- After the obligations of a known rule are derived, the gate that reads them back lets the rule
  -- pass exactly when the three kinds of artifact had passed, and the rows that were there before
  -- for the run and the rule have distinct claim types, none of them a derived one.
  pub generate-verify_iff :
      (uuid4 : ℕ → String) (db : Db)
      → has_rule rule_id db ≡ true
      → ((verify_persisted_proofs_selectable run_id rule_id
            (generate_proof_obligations_from_artifacts uuid4 run_id rule_id db).1).0
          ≡ ok true)
        ↔ ((all_required_artifacts_passed run_id rule_id db
              && (distinct_claims (proof_rows run_id rule_id db)
                  && is_untouched (proof_rows run_id rule_id db)))
            ≡ true)
  unfolding verify_persisted_proofs_selectable
  generate-verify_iff uuid4 db h =
      let p = all_required_artifacts_passed run_id rule_id db in
      let old = proof_rows run_id rule_id db in
      let rows = old ++ fresh_rows run_id rule_id p in
      let e =
        covered-append_fresh old p (unfold proof_rows in current-proof_rows db.proof_obligations) in
      let s = selectable_iff rows in
      let c = assert_coverage_satisfied_iff run_id rule_id rows in
      subst
        (λ rs.
          (selectable run_id rule_id rs ≡ ok true)
          ↔ ((p && (distinct_claims old && is_untouched old)) ≡ true))
        (sym (proof_rows-generate uuid4 run_id rule_id db h))
        (λ g. sym e ∙ c.0 (s.0 g), λ g. s.1 (c.1 (e ∙ g)))

  -- A run whose obligations were derived before, with any result, is refused when they are derived
  -- and verified again: the second set repeats the claim types of the first.
  pub generate_twice-verify :
      (uuid4 : ℕ → String) (db : Db)
      → has_rule rule_id db ≡ true
      → let again =
          (generate_proof_obligations_from_artifacts uuid4 run_id rule_id
            (generate_proof_obligations_from_artifacts uuid4 run_id rule_id db).1).1 in
        (verify_persisted_proofs_selectable run_id rule_id again).0 ≢ ok true
  unfolding has_rule
  generate_twice-verify uuid4 db h e =
      let once = (generate_proof_obligations_from_artifacts uuid4 run_id rule_id db).1 in
      let p = all_required_artifacts_passed run_id rule_id db in
      let old = proof_rows run_id rule_id db in
      let rows = proof_rows run_id rule_id once in
      let known : has_rule rule_id once ≡ true =
        ap (λ (d : Db). has_rule rule_id d) (generate-frame uuid4 run_id rule_id db) ∙ h in
      let passed = (generate-verify_iff uuid4 once known).0 e in
      let q = all_required_artifacts_passed run_id rule_id once in
      let clean : is_untouched rows ≡ true =
        (and_true (distinct_claims rows) (is_untouched rows)
          (and_true q (distinct_claims rows && is_untouched rows) passed).1).1 in
      let both : is_untouched (old ++ fresh_rows run_id rule_id p) ≡ true =
        subst (λ rs. is_untouched rs ≡ true) (proof_rows-generate uuid4 run_id rule_id db h)
          clean in
      let again : false ≡ true =
        (and_true (is_untouched old) (is_untouched (fresh_rows run_id rule_id p)) (
          sym (all-append (λ r. not (is_defined r.claim_type)) old (fresh_rows run_id rule_id p))
          ∙ both)).1 in
      cc
