-- ===== src/Lineage/Ancestry.antt =====
-- What the search for a report among the ancestors answers: it is the search of module Search, with
-- the known parents of an artifact for its successors.
use aicti.Base.{
  ◌↔◌, ℕ, zero, suc, ◌+◌, String, ◌==◌, eq_iff, ◌≡◌, refl, sym, subst, ◌∙◌, inl, inr, Bool, true,
  false, not, ◌||◌, none, some, List, [], ◌∷◌, ◌++◌, any, all, keep, elem, length, arith,
  Bool-cases, Option-cases, and_true,
}
use aicti.Search.{push, run, search}
use aicti.Search.Correct.{Walk, search_correct}
use aicti.Db.{Artifact}
use aicti.Lineage.{artifact_by_id, found, onward, scan, climb, has_report_ancestor}
use aicti.Lineage.Total.{has_report_ancestor_total}

module _ (artifacts : List Artifact) where
  -- The id is that of an artifact of the run, and of a report.
  abbrev pub is_known : String → Bool
  is_known id = elim (artifact_by_id id artifacts) [ none ↦ false | some a ↦ true ]

  abbrev pub is_report : String → Bool
  is_report id = elim (artifact_by_id id artifacts) [ none ↦ false | some a ↦ a.kind == "report" ]

  abbrev no_report : List String → Bool
  no_report = all (λ id. not (is_report id))

  report_unvisited :
      (p : String) (visited : List String)
      → no_report visited ≡ true
      → elem ◌==◌ p visited ≡ true
      → is_report p ≡ false
  report_unvisited p [] h e = cc
  report_unvisited p (v ∷ vs) h e =
      let (front, rest) = and_true (not (is_report v)) (no_report vs) h in
      elim (Bool-cases (p == v)) [
        | inl same ↦ subst (λ x. is_report x ≡ false) (sym ((eq_iff p v).0 same)) (ground arith)
        | inr other ↦ report_unvisited p vs rest (rw (other, ◌||◌) at e)
      ]

  -- A round with a report among the parents finds it.
  scan_found :
      (ps visited queue : List String)
      → no_report visited ≡ true
      → any is_report ps ≡ true
      → scan artifacts ps visited queue ≡ found
  unfolding scan
  scan_found [] visited queue h e = cc
  scan_found (p ∷ ps) visited queue h e = elim (Bool-cases (elem ◌==◌ p visited)) [
    | inl old ↦
        rw (old, scan)
          (scan_found ps visited queue h (rw (report_unvisited p visited h old, ◌||◌) at e))
    | inr new ↦ elim (Option-cases (artifact_by_id p artifacts)) [
      | inl missing ↦
          rw (new, missing, scan) (scan_found ps visited queue h (rw (missing, ◌||◌) at e))
      | inr (a, known) ↦ ground (arith, new, known, scan_found ps (p ∷ visited) (queue ++ p ∷ []))
    ]
  ]

  -- A round without one queues the known parents that were not visited.
  scan_onward :
      (ps visited queue : List String)
      → any is_report ps ≡ false
      → scan artifacts ps visited queue
        ≡ onward
            (push ◌==◌ visited queue (keep is_known ps)).0
            (push ◌==◌ visited queue (keep is_known ps)).1
  unfolding scan push
  scan_onward [] visited queue e = refl
  scan_onward (p ∷ ps) visited queue e =
      ground (arith, scan_onward ps visited queue, scan_onward ps (p ∷ visited) (queue ++ p ∷ []))

  no_report-push :
      (ks visited queue : List String)
      → no_report visited ≡ true
      → no_report ks ≡ true
      → no_report (push ◌==◌ visited queue ks).0 ≡ true
  unfolding push
  no_report-push [] visited queue h k = h
  no_report-push (p ∷ ps) visited queue h k =
      ground
        (arith, no_report-push ps visited queue, no_report-push ps (p ∷ visited) (queue ++ p ∷ []))

  no_report-keep :
      (ps : List String) → any is_report ps ≡ false → no_report (keep is_known ps) ≡ true
  no_report-keep [] e = refl
  no_report-keep (p ∷ ps) e = ground (arith, no_report-keep ps)

  module _ (parents : String → List String) where
    -- A parent of the artifact is a report.
    abbrev pub has_report_parent : String → Bool
    has_report_parent id = any is_report (parents id)

    abbrev pub known_parents : String → List String
    known_parents id = keep is_known (parents id)

    climb-run :
        (fuel : ℕ) (visited queue : List String)
        → no_report visited ≡ true
        → climb artifacts parents fuel visited queue
          ≡ run ◌==◌ has_report_parent known_parents fuel visited queue
    unfolding climb run
    climb-run zero visited queue h = refl
    climb-run (suc fuel) visited [] h = refl
    climb-run (suc fuel) visited (c ∷ queue) h = elim (Bool-cases (has_report_parent c)) [
      | inl e ↦ rw (scan_found (parents c) visited queue h e, e, climb, run)
      | inr e ↦
          rw (scan_onward (parents c) visited queue e, e, climb, run)
            (climb-run fuel _ _
              (no_report-push (known_parents c) visited queue h (no_report-keep (parents c) e)))
    ]

    -- For an artifact that is no report itself the search never runs out of fuel, and answers
    -- `true` exactly when a walk over known parents leads to an artifact with a report for a parent.
    pub has_report_ancestor_iff :
        (id : String)
        → is_report id ≡ false
        → ((b : Bool) × (has_report_ancestor artifacts parents id ≡ some b))
          × ((has_report_ancestor artifacts parents id ≡ some true)
              ↔ ((p : String) × Walk ◌==◌ known_parents id p × (has_report_parent p ≡ true)))
    unfolding has_report_ancestor
    has_report_ancestor_iff id h =
        (total, (λ e. right.0 (sym same ∙ e), λ t. reaches t.0 t.1 t.2 total))
      where
        same :
            has_report_ancestor artifacts parents id
            ≡ search ◌==◌ has_report_parent known_parents (2 + length artifacts) id
        same = climb-run (2 + length artifacts) (id ∷ []) (id ∷ []) (ground (arith, h))

        right :
            (search ◌==◌ has_report_parent known_parents (2 + length artifacts) id ≡ some true
              → (p : String) × Walk ◌==◌ known_parents id p × (has_report_parent p ≡ true))
            × (search ◌==◌ has_report_parent known_parents (2 + length artifacts) id ≡ some false
                → (p : String) → Walk ◌==◌ known_parents id p
                → has_report_parent p ≡ false)
        right = search_correct ◌==◌ eq_iff has_report_parent known_parents id (2 + length artifacts)

        total : (b : Bool) × (has_report_ancestor artifacts parents id ≡ some b)
        total = has_report_ancestor_total artifacts parents id

        reaches :
            (p : String)
            → Walk ◌==◌ known_parents id p
            → has_report_parent p ≡ true
            → ((b : Bool) × (has_report_ancestor artifacts parents id ≡ some b))
            → has_report_ancestor artifacts parents id ≡ some true
        reaches p w goal (true, e) = e
        reaches p w goal (false, e) =
            let missed : has_report_parent p ≡ false = right.1 (sym same ∙ e) p w in
            cc (missed, goal)
