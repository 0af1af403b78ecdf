-- ===== src/Proofs/Coverage.antt =====
-- When the coverage gate lets a rule pass, by a description that does not go through its loops.
use aicti.Base.{
  String, eq_iff, ◌≡◌, refl, sym, ap, ◌∙◌, inl, inr, ◌↔◌, Bool, true, false, not, ◌&&◌, ◌||◌, none,
  some, List, [], ◌∷◌, any, all, keep, first, arith, Bool-cases, and_true, and_intro, all_ext,
  subst, >>=-succeeds, ok, ok-injective, ◌>>=◌,
}
use aicti.Proofs.{
  ProofRow, required_claims, is_current, has_claim, accepts, collect, check_claims, absent,
  check_absent, assert_coverage_satisfied,
}

-- No two rows have one claim type.
abbrev pub distinct_claims : List ProofRow → Bool
distinct_claims [] = true
distinct_claims (r ∷ rs) = not (any (has_claim r.claim_type) rs) && distinct_claims rs

-- The rows of this run and rule.
abbrev pub current_rows : String → String → List ProofRow → List ProofRow
current_rows run_id rule_id = keep (is_current run_id rule_id)

-- Each required claim has a row that accepts it.
abbrev pub all_accepted : List ProofRow → List String → Bool
all_accepted rows = all (λ claim. any (λ r. has_claim claim r && accepts claim r) rows)

-- The rows of the run and rule have distinct claim types, and each required claim is accepted.
abbrev pub is_covered : String → String → List ProofRow → Bool
is_covered run_id rule_id rows =
    let mine = current_rows run_id rule_id rows in
    distinct_claims mine && all_accepted mine required_claims

-- `seen` has no claim type of `rs`
abbrev disjoint_claims : List ProofRow → List ProofRow → Bool
disjoint_claims seen = all (λ r. not (any (has_claim r.claim_type) seen))

abbrev prepend : List ProofRow → List ProofRow → List ProofRow
prepend [] seen = seen
prepend (r ∷ rs) seen = prepend rs (r ∷ seen)

disjoint-cons :
    (x : ProofRow) (seen rs : List ProofRow)
    → disjoint_claims (x ∷ seen) rs
      ≡ (not (any (has_claim x.claim_type) rs) && disjoint_claims seen rs)
unfolding has_claim
disjoint-cons x seen [] = refl
disjoint-cons x seen (r ∷ rs) = ground (
  arith,
  disjoint-cons x seen rs,
  eq_iff x.claim_type r.claim_type,
  eq_iff r.claim_type x.claim_type,
)

-- What the first loop returns, from any dictionary that it has filled so far.
collect_ok :
    (run_id rule_id : String) (seen rows c : List ProofRow)
    → collect run_id rule_id seen rows ≡ ok c
    → let mine = current_rows run_id rule_id rows in
      (c ≡ prepend mine seen) × ((disjoint_claims seen mine && distinct_claims mine) ≡ true)
unfolding collect
collect_ok run_id rule_id seen [] c h = (sym (ok-injective h), refl)
collect_ok run_id rule_id seen (r ∷ rs) c h = elim (Bool-cases (is_current run_id rule_id r)) [
  | inr other ↦ ground (arith, collect_ok run_id rule_id seen rs c)
  | inl mine ↦ ground (
    arith,
    collect_ok run_id rule_id (r ∷ seen) rs c,
    disjoint-cons r seen (current_rows run_id rule_id rs),
  )
]

collect_total :
    (run_id rule_id : String) (seen rows : List ProofRow)
    → let mine = current_rows run_id rule_id rows in
      (disjoint_claims seen mine && distinct_claims mine) ≡ true
      → collect run_id rule_id seen rows ≡ ok (prepend mine seen)
unfolding collect
collect_total run_id rule_id seen [] h = refl
collect_total run_id rule_id seen (r ∷ rs) h = elim (Bool-cases (is_current run_id rule_id r)) [
  | inr other ↦ ground (arith, collect_total run_id rule_id seen rs)
  | inl mine ↦ ground (
    arith,
    collect_total run_id rule_id (r ∷ seen) rs,
    disjoint-cons r seen (current_rows run_id rule_id rs),
  )
]

-- The row that the second loop looks at accepts the claim.
abbrev first_accepts : List ProofRow → String → Bool
first_accepts rows claim = elim (first (has_claim claim) rows) [
  | none ↦ false
  | some r ↦ accepts claim r
]

abbrev some_accepts : List ProofRow → String → Bool
some_accepts rows claim = any (λ r. has_claim claim r && accepts claim r) rows

some_accepts_of_absent :
    (claim : String) (rows : List ProofRow)
    → any (has_claim claim) rows ≡ false
    → (some_accepts rows claim ≡ false) × (first_accepts rows claim ≡ false)
some_accepts_of_absent claim [] h = (refl, refl)
some_accepts_of_absent claim (r ∷ rs) h = ground (arith, some_accepts_of_absent claim rs)

-- Where claim types are distinct, the row found in the dictionary is the only one.
first_accepts-prepend :
    (claim : String) (rs seen : List ProofRow)
    → (disjoint_claims seen rs && distinct_claims rs) ≡ true
    → first_accepts (prepend rs seen) claim ≡ (some_accepts rs claim || first_accepts seen claim)
first_accepts-prepend claim [] seen h = refl
first_accepts-prepend claim (r ∷ rs) seen h = elim (Bool-cases (has_claim claim r)) [
  | inr other ↦ ground (arith, first_accepts-prepend claim rs (r ∷ seen), disjoint-cons r seen rs)
  | inl same ↦ ground (
    arith,
    first_accepts-prepend claim rs (r ∷ seen),
    disjoint-cons r seen rs,
    has_claim_same claim r same,
    some_accepts_of_absent claim rs,
    some_accepts_of_absent claim seen,
  )
]
  where
    has_claim_same : (c : String) (x : ProofRow) → has_claim c x ≡ true → x.claim_type ≡ c
    has_claim_same c x e = (eq_iff x.claim_type c).0 (unfold has_claim in e)

check_claims_iff :
    (rows : List ProofRow) (claims : List String)
    → (check_claims rows claims ≡ ok tt) ↔ (all (first_accepts rows) claims ≡ true)
unfolding check_claims
check_claims_iff rows [] = ground arith
check_claims_iff rows (c ∷ cs) = ground (arith, check_claims_iff rows cs)

absent_nil :
    (rows : List ProofRow) (claims : List String)
    → all (first_accepts rows) claims ≡ true
    → absent rows claims ≡ []
unfolding absent
absent_nil rows [] h = refl
absent_nil rows (c ∷ cs) h = ground (arith, absent_nil rows cs, some_accepts_of_absent c rows)

disjoint-nil : (rs : List ProofRow) → disjoint_claims [] rs ≡ true
disjoint-nil [] = refl
disjoint-nil (r ∷ rs) = disjoint-nil rs

all_accepted-prepend :
    (rs : List ProofRow) (claims : List String)
    → distinct_claims rs ≡ true
    → all (first_accepts (prepend rs [])) claims ≡ all_accepted rs claims
all_accepted-prepend rs claims d =
    all_ext _ _ claims λ c. ground (arith, first_accepts-prepend c rs [], disjoint-nil rs)

check_absent_ok :
    (rows : List ProofRow) (claims : List String)
    → check_absent rows claims ≡ ok tt
    → all (first_accepts rows) required_claims ≡ true
unfolding check_absent
check_absent_ok rows [] h = (check_claims_iff rows required_claims).0 h
check_absent_ok rows (c ∷ cs) h = cc

check_absent_total :
    (rows : List ProofRow)
    → all (first_accepts rows) required_claims ≡ true
    → check_absent rows (absent rows required_claims) ≡ ok tt
unfolding check_absent
check_absent_total rows h =
    subst (λ cs. check_absent rows cs ≡ ok tt) (sym (absent_nil rows required_claims h))
      ((check_claims_iff rows required_claims).1 h)

is_covered_of_satisfied :
    (run_id rule_id : String) (rows : List ProofRow)
    → assert_coverage_satisfied run_id rule_id rows ≡ ok tt
    → is_covered run_id rule_id rows ≡ true
unfolding assert_coverage_satisfied
is_covered_of_satisfied run_id rule_id rows h =
    let (c, e, checked) = >>=-succeeds (collect run_id rule_id [] rows) _ h in
    let (p, d) = collect_ok run_id rule_id [] rows c e in
    let mine = current_rows run_id rule_id rows in
    let distinct = (and_true _ (distinct_claims mine) d).1 in
    and_intro distinct (
      sym (all_accepted-prepend mine required_claims distinct)
      ∙ subst (λ x. all (first_accepts x) required_claims ≡ true) p
          (check_absent_ok c (absent c required_claims) checked))

satisfied_of_is_covered :
    (run_id rule_id : String) (rows : List ProofRow)
    → is_covered run_id rule_id rows ≡ true
    → assert_coverage_satisfied run_id rule_id rows ≡ ok tt
unfolding assert_coverage_satisfied
satisfied_of_is_covered run_id rule_id rows h =
    let mine = current_rows run_id rule_id rows in
    let (distinct, accepted) = and_true (distinct_claims mine) _ h in
    let collected = collect_total run_id rule_id [] rows (and_intro (disjoint-nil mine) distinct) in
    ap (λ r. r >>= λ c. check_absent c (absent c required_claims)) collected
    ∙ check_absent_total (prepend mine [])
        (all_accepted-prepend mine required_claims distinct ∙ accepted)

-- The gate lets a rule pass exactly when the rows of this run and rule have distinct claim types
-- and each of the eight required claims has a row that is proven, or that is not applicable with
-- a justification where the claim allows it. Rows of other runs and rules play no part.
pub assert_coverage_satisfied_iff :
    (run_id rule_id : String) (rows : List ProofRow)
    → (assert_coverage_satisfied run_id rule_id rows ≡ ok tt)
      ↔ (is_covered run_id rule_id rows ≡ true)
assert_coverage_satisfied_iff run_id rule_id rows =
    (is_covered_of_satisfied run_id rule_id rows, satisfied_of_is_covered run_id rule_id rows)
