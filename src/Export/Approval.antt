-- ===== src/Export/Approval.antt =====
-- How decisions of services/review.py move the gate of services/export_eligibility.py.
use mathlib.Core.List.{Memᴰ}
use mathlib.Core.List.Memᴰ
use aicti.Base.{
  all-append, Bool-cases, and_intro, ℕ, String, ◌==◌, eq_iff, eq_refl, ◌≡◌, ◌≢◌, refl, sym, ap, ◌∙◌,
  inl, inr, Bool, true, false, ◌&&◌, some, and_true, List, [], ◌∷◌, all, keep, Option, keep-mem,
  elem, strip, ok,
}
use aicti.Db.{Db, ReviewDecision}
use aicti.Review.{
  allowed_review_decisions, is_human, record_decision, get_latest_decision, latest_of, of_run,
}
use aicti.Review.Decisions.{
  all_before, record_decision-get_latest_decision, record_decision_ok, record_decision_refused,
  latest_of-mem,
}
use aicti.Lineage.{run_artifacts}
use aicti.Lineage.Total.{assert_rule_lineage_complete-none}
use aicti.Export.{repository, assert_exportable, is_approved}
use aicti.Export.Gates.{assert_exportable_iff}

-- The decision is an allowed one, and a human took it.
abbrev pub is_human_decision : ReviewDecision → Bool
is_human_decision d = elem ◌==◌ d.decision allowed_review_decisions && is_human d.reviewer

all-at :
    {A : Type 0} (p : A → Bool) (xs : List A) (a : A) → all p xs ≡ true → Memᴰ a xs → p a ≡ true
all-at p [] a h m = elim m [ ]
all-at p (x ∷ xs) a h m = elim (Memᴰ.cases_cons m) [
  | inl same ↦ ap p same ∙ (and_true (p x) (all p xs) h).0
  | inr later ↦ all-at p xs a (and_true (p x) (all p xs) h).1 later
]

module _ (run_id rule_id : String) (db : Db) where
  -- When every stored decision is an allowed one of a human, a rule that the gate lets through has a
  -- stored decision, of this rule and this run, in which a human approved it.
  pub assert_exportable-human :
      all is_human_decision db.review_decisions ≡ true
      → assert_exportable (repository db) run_id rule_id ≡ ok tt
      → (d : ReviewDecision) × Memᴰ d db.review_decisions
        × (d.rule_id ≡ rule_id)
        × (d.run_id ≡ run_id)
        × (d.decision ≡ "approved")
        × (is_human d.reviewer ≡ true)
  unfolding repository get_latest_decision
  assert_exportable-human humans passed =
      let e = (assert_exportable_iff (repository db) run_id rule_id).0 passed in
      let (stored, mine) =
        keep-mem _ db.review_decisions e.decision (latest_of-mem _ e.decision e.latest) in
      let (rule, run) = and_true _ _ mine in
      (
        e.decision,
        stored,
        (eq_iff _ _).0 rule,
        (eq_iff _ _).0 run,
        e.approved,
        (and_true _ _ (all-at is_human_decision db.review_decisions e.decision humans stored)).1,
      )

  -- Without an artifact of the run, nothing of the run is exported.
  pub assert_exportable-artifacts :
      run_artifacts run_id db ≡ [] → assert_exportable (repository db) run_id rule_id ≢ ok tt
  unfolding repository
  assert_exportable-artifacts none_of_run passed =
      let e = (assert_exportable_iff (repository db) run_id rule_id).0 passed in
      let refused =
        sym (assert_rule_lineage_complete-none run_id rule_id db none_of_run)
        ∙ e.lineage_complete in
      cc

abbrev decision_among : String → String → List ReviewDecision → Option ReviewDecision
decision_among rule_id run_id decisions =
    latest_of (keep (λ d. d.rule_id == rule_id && of_run (some run_id) d.run_id) decisions)

module _ (uuid4 : ℕ → String) (now : ℕ) (rule_id decision reviewer run_id comments : String)
    (db : Db) where
  -- Once a human records an allowed decision other than an approval for a rule and a run, later than all
  -- decisions before, the gate does not let the rule through for that run: on no database, whatever else
  -- was written to it, that holds the same decisions as when it was recorded.
  pub record_decision-assert_exportable :
      elem ◌==◌ decision allowed_review_decisions ≡ true
      → (decision == "approved") ≡ false
      → is_human (strip reviewer) ≡ true
      → all_before now db.review_decisions ≡ true
      → (later : Db)
      → later.review_decisions
        ≡ (record_decision uuid4 now rule_id decision reviewer run_id comments
            db).1.review_decisions
      → assert_exportable (repository later) run_id rule_id ≢ ok tt
  unfolding repository is_approved get_latest_decision
  record_decision-assert_exportable allowed other human before later no_more passed =
      let e = (assert_exportable_iff (repository _) run_id rule_id).0 passed in
      let (answer, latest) =
        record_decision-get_latest_decision uuid4 now rule_id decision reviewer run_id comments db
          allowed human before (some run_id) (eq_refl run_id) in
      let approved = (eq_iff _ "approved").1 e.approved in
      let kept : get_latest_decision rule_id (some run_id) later
          ≡ get_latest_decision rule_id (some run_id)
              (record_decision uuid4 now rule_id decision reviewer run_id comments db).1 =
        ap (decision_among rule_id run_id) no_more in
      let same = ap is_approved (sym latest ∙ sym kept ∙ e.latest) in
      let clash = sym other ∙ same ∙ approved in cc

module _ (uuid4 : ℕ → String) (now : ℕ) (rule_id decision reviewer run_id comments : String)
    (db : Db) where
  -- Recording a decision, taken or refused, keeps it so that every stored decision is an allowed
  -- one of a human.
  pub record_decision-is_human_decision :
      all is_human_decision db.review_decisions ≡ true
      → all is_human_decision
          (record_decision uuid4 now rule_id decision reviewer run_id comments
            db).1.review_decisions
        ≡ true
  record_decision-is_human_decision humans =
      elim (Bool-cases (elem ◌==◌ decision allowed_review_decisions && is_human (strip reviewer))) [
        | inr refused ↦
            ap (λ s. all is_human_decision s.1.review_decisions)
              (record_decision_refused uuid4 now rule_id decision reviewer run_id comments db
                refused)
            ∙ humans
        | inl taken ↦
            let (allowed, human) = and_true _ _ taken in
            let (answer, stored) =
              record_decision_ok uuid4 now rule_id decision reviewer run_id comments db allowed
                human in
            ap (all is_human_decision) stored
            ∙ all-append is_human_decision db.review_decisions _
            ∙ and_intro humans (and_intro taken refl)
      ]
