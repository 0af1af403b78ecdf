-- ===== src/Review/Decisions.antt =====
-- What `record_decision` leaves behind, and what the latest decision then is.
use mathlib.Core.List.{Memᴰ}
use aicti.Base.{
  ℕ, String, ◌==◌, ◌≡◌, refl, sym, subst, ◌∙◌, inl, inr, Bool, true, false, ◌&&◌, Option, some,
  List, [], ◌∷◌, ◌++◌, all, keep, keep-append, all-keep, and_intro, eq_refl, elem, strip, ltb,
  arith, Bool-cases, Option-cases, inr, ok, err, if◌then◌else◌,
}
use aicti.Value.{end}
use aicti.Db.{Db, ReviewDecision}
use aicti.Db.Action.{Action, continue-pure, ◌>>=◌, pure}
use aicti.Db.Keeps.{Keeps, keeps_rules}
use aicti.Graph.Frame.{
  IgnoresGraph, Keeps-upsert_node, Keeps-add_edge, Keeps-flush, upsert_node_ok, add_edge_ok,
  Completes, Completes-bind,
}
use aicti.Review.{
  ReviewError, invalid_decision, reviewer_required, is_human, allowed_review_decisions,
  validated_reviewer, save_decision, link_decision, record_decision, is_later, latest_of,
  get_latest_decision, of_run,
}

-- Every decision was made before the given time.
abbrev pub all_before : ℕ → List ReviewDecision → Bool
all_before now = all (λ (d : ReviewDecision). ltb d.created_at now)

latest_of-append :
    (ds : List ReviewDecision) (d : ReviewDecision)
    → all_before d.created_at ds ≡ true
    → latest_of (ds ++ d ∷ []) ≡ some d
unfolding latest_of
latest_of-append [] d h = refl
latest_of-append (x ∷ xs) d h = ground (arith, latest_of-append xs d)

some_injective : {A : Type 0} {a b : A} → some a ≡ some b → a ≡ b
some_injective h = cc

pub latest_of-mem :
    (ds : List ReviewDecision) (d : ReviewDecision) → latest_of ds ≡ some d → Memᴰ d ds
unfolding latest_of
latest_of-mem [] d h = cc
latest_of-mem (x ∷ xs) d h = elim (Option-cases (latest_of xs)) [
  | inl none_later ↦ Memᴰ.head (some_injective (sym (rw (none_later) at h)))
  | inr (e, is_e) ↦ elim (Bool-cases (is_later x e)) [
    | inl takes ↦ Memᴰ.head (some_injective (sym (rw (is_e, takes) at h)))
    | inr leaves ↦ Memᴰ.tail (latest_of-mem xs d (is_e ∙ rw (is_e, leaves) at h))
  ]
]

module _ (uuid4 : ℕ → String) (run_id rule_id decision_id decision reviewer : String) where
  pub Keeps-link_decision :
      {P : Db → Type 0}
      → IgnoresGraph P
      → Keeps P (link_decision uuid4 run_id rule_id decision_id decision reviewer)
  unfolding link_decision
  Keeps-link_decision g =
      search (keeps_rules, Keeps-upsert_node g uuid4, Keeps-add_edge g uuid4, Keeps-flush g)

  pub link_decision_ok :
      Completes (link_decision uuid4 run_id rule_id decision_id decision reviewer)
  unfolding link_decision
  link_decision_ok =
      Completes-bind _ _
        (upsert_node_ok uuid4 run_id "generated_rule" "generated_rules" rule_id end)
        (λ rule_node.
          Completes-bind _ _
            (upsert_node_ok uuid4 run_id "review_decision" "review_decisions" decision_id _)
            (λ decision_node.
              Completes-bind _ _ (add_edge_ok uuid4 run_id rule_node decision_node "validated_by")
                (λ edge db. (edge, refl))))

-- The row that `record_decision` inserts.
abbrev pub decision_row : ℕ → String → String → String → String → String → String → ReviewDecision
decision_row now id rule_id decision reviewer run_id comments = record {
  id = id;
  rule_id = rule_id;
  run_id = run_id;
  decision = decision;
  reviewer = strip reviewer;
  comments = comments;
  created_at = now;
}

HasDecisions : List ReviewDecision → Db → Type 0
HasDecisions ds db = db.review_decisions ≡ ds

IgnoresGraph-HasDecisions : (ds : List ReviewDecision) → IgnoresGraph (HasDecisions ds)
unfolding HasDecisions
IgnoresGraph-HasDecisions ds = record {
  nodes = λ db ns h. h;
  edges = λ db es h. h;
  added = λ db ns es h. h;
  draws = λ db n h. h;
}

-- An answer that a completing action does not change.
pub then_answer :
    {P : Db → Type 0} (m : Action ReviewError String) (a : String) (db : Db)
    → Completes m
    → Keeps P m
    → P db
    → (((m >>= λ _. pure a) db).0 ≡ ok a) × P ((m >>= λ _. pure a) db).1
then_answer {P = P} m a db c k p =
    (rw ((c db).1) refl, subst P (sym (continue-pure (m db).0 (λ _. a) (m db).1)) (k.at db p))

module _ (uuid4 : ℕ → String) (now : ℕ) (rule_id decision reviewer run_id comments : String)
    (db : Db) where
  row : ReviewDecision
  row = decision_row now (uuid4 db.draws) rule_id decision reviewer run_id comments

  -- For an allowed decision of a human the operation returns the identifier it drew, and the
  -- decisions stored are the old ones with the new row after them.
  pub record_decision_ok :
      elem ◌==◌ decision allowed_review_decisions ≡ true
      → is_human (strip reviewer) ≡ true
      → (((record_decision uuid4 now rule_id decision reviewer run_id comments db).0)
          ≡ ok (uuid4 db.draws))
        × ((record_decision uuid4 now rule_id decision reviewer run_id comments
              db).1.review_decisions
            ≡ db.review_decisions
              ++ decision_row now (uuid4 db.draws) rule_id decision reviewer run_id comments ∷ [])
  unfolding record_decision validated_reviewer save_decision HasDecisions row
  record_decision_ok allowed human =
      rw (allowed, human)
        (then_answer {P = HasDecisions (db.review_decisions ++ row ∷ [])}
          (link_decision uuid4 run_id rule_id (uuid4 db.draws) decision (strip reviewer)) _ _
          (link_decision_ok uuid4 run_id rule_id _ decision _)
          (Keeps-link_decision uuid4 run_id rule_id _ decision _ (IgnoresGraph-HasDecisions _))
          refl)

  -- A decision that is not allowed, or whose reviewer is blank or the system's own, is refused
  -- with its error, and the database is as it was.
  pub record_decision_refused :
      (elem ◌==◌ decision allowed_review_decisions && is_human (strip reviewer)) ≡ false
      → record_decision uuid4 now rule_id decision reviewer run_id comments db ≡ (
        err (
            if elem ◌==◌ decision allowed_review_decisions
            then reviewer_required
            else invalid_decision decision),
        db,
      )
  unfolding record_decision validated_reviewer
  record_decision_refused h = elim (Bool-cases (elem ◌==◌ decision allowed_review_decisions)) [
    | inl allowed ↦ elim (Bool-cases (is_human (strip reviewer))) [
      | inl human ↦ ground (arith, h)
      | inr other ↦ rw (allowed, other) refl
    ]
    | inr refused ↦ rw (refused) refl
  ]

  keep_mine :
      (run : Option String)
      → of_run run run_id ≡ true
      → (ds : List ReviewDecision)
      → keep (λ (d : ReviewDecision). d.rule_id == rule_id && of_run run d.run_id) (ds ++ row ∷ [])
        ≡ keep (λ (d : ReviewDecision). d.rule_id == rule_id && of_run run d.run_id) ds ++ row ∷ []
  unfolding row
  keep_mine run mine ds = keep-append _ ds (row ∷ []) ∙ rw (and_intro (eq_refl rule_id) mine) refl

  -- A recorded decision that is later than those stored is the latest decision of its rule, asked
  -- for with its run or with no run.
  pub record_decision-get_latest_decision :
      elem ◌==◌ decision allowed_review_decisions ≡ true
      → is_human (strip reviewer) ≡ true
      → all_before now db.review_decisions ≡ true
      → (run : Option String) → of_run run run_id ≡ true
      → (record_decision uuid4 now rule_id decision reviewer run_id comments db).0
          ≡ ok (uuid4 db.draws)
        × (get_latest_decision rule_id run
              (record_decision uuid4 now rule_id decision reviewer run_id comments db).1
            ≡ some (decision_row now (uuid4 db.draws) rule_id decision reviewer run_id comments))
  unfolding get_latest_decision row
  record_decision-get_latest_decision allowed human before run mine =
      let (answer, stored) = record_decision_ok allowed human in
      (
        answer,
        rw (stored, keep_mine run mine db.review_decisions)
            (latest_of-append _ _ (all-keep _ _ db.review_decisions before)),
      )
