-- ===== src/Review/Handoff/Recorded.antt =====
-- What `assert_can_export` says after a decision has been recorded.
use aicti.Base.{
  ℕ, String, ◌==◌, ◌≡◌, refl, sym, ap, ◌∙◌, eq_refl, Bool, true, false, ◌&&◌, not, none, some, List,
  [], ◌∷◌, ◌++◌, keep, first, elem, strip, is_empty, any, all, require, ok, err, arith,
  if◌then◌else◌, Bool-cases, inl, inr,
}
use aicti.Value.{Value, get, is_text}
use aicti.Db.{Db, MemoryView, ProofObligationRecord}
use aicti.Graph.Frame.{IgnoresGraph}
use aicti.Review.{
  allowed_review_decisions, is_human, validated_reviewer, handoff, handoff_scope, run_handoff_scope,
  latest_in, latest_view, save_decision, link_decision, record_decision, can_export,
}
use aicti.Review.Decisions.{
  all_before, then_answer, Keeps-link_decision, link_decision_ok,
  record_decision-get_latest_decision,
}
use aicti.Review.Handoff.{
  approval_required, proof_gate_failed, is_latest, read_handoff, read_value,
  has_review_handoff_memory, has_failed_or_unknown_proof_obligations, failed_or_unknown, handoff_of,
  handoff_holds, decision_of, proof_gate, scope_for, is_truthy, is_bool, is_of_run, is_some,
  assert_can_export,
}

-- What the graph has no part in.
Stored : List MemoryView → List ProofObligationRecord → Db → Type 0
Stored views obligations db = (db.memory_views ≡ views) × (db.proof_obligations ≡ obligations)

IgnoresGraph-Stored :
    (views : List MemoryView) (obligations : List ProofObligationRecord)
    → IgnoresGraph (Stored views obligations)
unfolding Stored
IgnoresGraph-Stored views obligations = record {
  nodes = λ db ns h. h;
  edges = λ db es h. h;
  added = λ db ns es h. h;
  draws = λ db n h. h;
}

-- The first view of a scope, after those of the scope were deleted and two that hold one value added.
first-replaced :
    (scope : String) (p : MemoryView → Bool) (a b : MemoryView) (views : List MemoryView)
    → ((v : MemoryView) → is_latest scope v ≡ true → p v ≡ true)
    → is_latest scope b ≡ true
    → a.value ≡ b.value
    → (found : MemoryView) × (first (is_latest scope) (keep (λ v. not (p v)) views ++ a ∷ b ∷ [])
        ≡ some found)
      × (found.value ≡ b.value)
first-replaced scope p a b [] h mine same = elim (Bool-cases (is_latest scope a)) [
  | inl e ↦ (a, rw e refl, same)
  | inr e ↦ (b, rw e (rw mine refl), refl)
]
first-replaced scope p a b (v ∷ views) h mine same = elim (Bool-cases (p v)) [
  | inl e ↦
      let (found, here, value) = first-replaced scope p a b views h mine same in
      (found, rw e here, value)
  | inr e ↦
      let other : is_latest scope v ≡ false = elim (Bool-cases (is_latest scope v)) [
        | inr f ↦ f
        | inl f ↦ let clash : true ≡ false = sym (h v f) ∙ e in cc
      ] in
      let (found, here, value) = first-replaced scope p a b views h mine same in
      (found, rw e (rw other here), value)
]

is_bool-bool : (b : Bool) → is_bool (some (Value.bool b)) b ≡ true
unfolding is_bool
is_bool-bool true = refl
is_bool-bool false = refl

not_blank : (reviewer : String) → is_human reviewer ≡ true → (reviewer == "") ≡ false
unfolding is_human
not_blank reviewer h = ground (arith, h)

-- There is an obligation, and each is proven.
abbrev pub is_ready : List ProofObligationRecord → Bool
is_ready os = not (is_empty os) && all (λ (o : ProofObligationRecord). o.status == "proven") os

any-all :
    (os : List ProofObligationRecord)
    → not (any (λ (o : ProofObligationRecord). not (o.status == "proven")) os)
      ≡ all (λ (o : ProofObligationRecord). o.status == "proven") os
any-all [] = refl
any-all (o ∷ os) = ground (arith, any-all os)

gate_is_ready :
    (run_id : String) (os : List ProofObligationRecord)
    → require (not (failed_or_unknown (some run_id) os)) proof_gate_failed
      ≡ (if is_ready os then ok tt else err proof_gate_failed)
unfolding failed_or_unknown is_some
gate_is_ready run_id [] = refl
gate_is_ready run_id (o ∷ os) =
    rw (any-all (o ∷ os))
      (elim (Bool-cases (is_ready (o ∷ os))) [ inl e ↦ rw e refl | inr e ↦ rw e refl ])

module _ (uuid4 : ℕ → String) (now : ℕ) (rule_id decision reviewer run_id comments : String)
    (db : Db) (allowed : elem ◌==◌ decision allowed_review_decisions ≡ true)
    (human : is_human (strip reviewer) ≡ true) where
  abbrev scopes : List String
  scopes = handoff_scope rule_id ∷ run_handoff_scope rule_id run_id ∷ []

  abbrev shared : Value
  shared = handoff decision (strip reviewer) run_id (uuid4 db.draws)

  abbrev views_after : List MemoryView
  views_after =
      keep (λ v. not (latest_in scopes v)) db.memory_views
      ++ latest_view shared (handoff_scope rule_id)
        ∷ latest_view shared (run_handoff_scope rule_id run_id)
        ∷ []

  record_decision-Stored :
      Stored views_after db.proof_obligations
        (record_decision uuid4 now rule_id decision reviewer run_id comments db).1
  unfolding record_decision validated_reviewer save_decision Stored
  record_decision-Stored =
      rw (allowed, human)
        (then_answer {P = Stored views_after db.proof_obligations}
          (link_decision uuid4 run_id rule_id (uuid4 db.draws) decision (strip reviewer)) _ _
          (link_decision_ok uuid4 run_id rule_id _ decision _)
          (Keeps-link_decision uuid4 run_id rule_id _ decision _ (IgnoresGraph-Stored _ _))
          (refl, refl)).1

  run_view :
      (found : MemoryView) × (first (is_latest (run_handoff_scope rule_id run_id)) views_after
        ≡ some found)
      × (found.value ≡ some shared)
  unfolding latest_view
  run_view =
      first-replaced (run_handoff_scope rule_id run_id) (latest_in scopes)
        (latest_view shared (handoff_scope rule_id))
        (latest_view shared (run_handoff_scope rule_id run_id)) db.memory_views
        (λ v h. ground (arith, h)) (ground (arith, eq_refl (run_handoff_scope rule_id run_id))) refl

  read_shared :
      (uuid4 db.draws == "") ≡ false
      → (run_id == "") ≡ false
      → read_value (some run_id) (some shared) ≡ ok true
  unfolding read_value handoff handoff_of handoff_holds get is_truthy is_of_run is_text
  read_shared drawn has_run = ap ok (
      rw allowed (
        rw (is_bool-bool (decision == "approved"))
          (rw drawn (rw (not_blank (strip reviewer) human) (rw has_run (eq_refl run_id))))))

  handed_over :
      (uuid4 db.draws == "") ≡ false
      → (run_id == "") ≡ false
      → has_review_handoff_memory rule_id
          (some run_id)
          (record_decision uuid4 now rule_id decision reviewer run_id comments db).1
        ≡ ok true
  unfolding has_review_handoff_memory scope_for read_handoff Stored
  handed_over drawn has_run =
      let (found, here, value) = run_view in
      rw record_decision-Stored.0
        (rw here (ap (read_value (some run_id)) value ∙ read_shared drawn has_run))

  -- Where the clock is past the decisions stored and the identifiers are not empty: after a decision that is
  -- allowed has been recorded for a human and a run, `assert_can_export` for the rule and the run, with the
  -- stored obligations, raises the approval error unless the status is `awaiting_review` and the decision
  -- `approved`; and else it succeeds exactly when an obligation of the rule and the run is stored and all
  -- of them are proven, and raises the error of the proof gate when not.
  pub record_decision-assert_can_export :
      (rule_status : String)
      → all_before now db.review_decisions ≡ true
      → (uuid4 db.draws == "") ≡ false
      → (run_id == "") ≡ false
      → assert_can_export rule_id rule_status none
          (some run_id)
          (record_decision uuid4 now rule_id decision reviewer run_id comments db).1
        ≡ (if rule_status == "awaiting_review" && decision == "approved"
            then (if is_ready (
                  keep
                    (λ (o : ProofObligationRecord).
                      o.rule_candidate_id == rule_id && o.run_id == run_id)
                    db.proof_obligations)
                then ok tt
                else err proof_gate_failed)
            else err approval_required)
  unfolding assert_can_export decision_of proof_gate can_export
      has_failed_or_unknown_proof_obligations Stored
  record_decision-assert_can_export rule_status before drawn has_run =
      let (answer, latest) =
        record_decision-get_latest_decision uuid4 now rule_id decision reviewer run_id comments db
          allowed human before (some run_id) (eq_refl run_id) in
      rw (handed_over drawn has_run) (
        rw latest (
          rw record_decision-Stored.1
            (elim (Bool-cases (rule_status == "awaiting_review" && decision == "approved")) [
              | inr e ↦ rw e refl
              | inl e ↦ rw e (
                  gate_is_ready run_id (
                    keep
                      (λ (o : ProofObligationRecord).
                        o.rule_candidate_id == rule_id && o.run_id == run_id)
                      db.proof_obligations))
            ])))
