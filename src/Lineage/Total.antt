-- ===== src/Lineage/Total.antt =====
-- The search for a report among the ancestors ends: each id enters the queue at most once.
use aicti.Base.{
  ℕ, zero, suc, ◌+◌, ◌≤◌, ◌<◌, String, ◌==◌, eq_iff, ◌≡◌, refl, Bool, true, false, some, List, [],
  ◌∷◌, ◌++◌, elem, length, length-append, arith, Bool-cases, Option-cases, inl, inr, if◌then◌else◌,
  ap,
}
use aicti.Db.{Db, Artifact}
use aicti.Lineage.{
  artifact_by_id, Scan, found, onward, scan, climb, has_report_ancestor,
  assert_rule_lineage_complete, check_rule_artifacts, run_artifacts, lineage_incomplete,
}
use aicti.Base.{err}

-- How many artifacts were not visited.
abbrev unvisited : List Artifact → List String → ℕ
unvisited [] visited = 0
unvisited (a ∷ others) visited =
    let rest = unvisited others visited in if elem ◌==◌ a.id visited then rest else suc rest

unvisited-le :
    (others : List Artifact) (p : String) (visited : List String)
    → unvisited others (p ∷ visited) ≤ unvisited others visited
unvisited-le [] p visited = omega arith
unvisited-le (a ∷ others) p visited = ground (arith, unvisited-le others p visited)

elem_eq :
    (a p : String) (visited : List String)
    → (a == p) ≡ true
    → elem ◌==◌ a visited ≡ elem ◌==◌ p visited
elem_eq a p visited h = ap (λ x. elem ◌==◌ x visited) ((eq_iff a p).0 h)

unvisited-le-length :
    (others : List Artifact) (visited : List String) → unvisited others visited ≤ length others
unvisited-le-length [] visited = omega arith
unvisited-le-length (a ∷ others) visited = ground (arith, unvisited-le-length others visited)

-- A visit of an artifact for the first time leaves one fewer.
unvisited-lt :
    (others : List Artifact) (p : String) (visited : List String) {b : Artifact}
    → artifact_by_id p others ≡ some b
    → elem ◌==◌ p visited ≡ false
    → suc (unvisited others (p ∷ visited)) ≤ unvisited others visited
unfolding artifact_by_id
unvisited-lt [] p visited e h = cc
unvisited-lt (a ∷ others) p visited e h = elim (Option-cases (artifact_by_id p others)) [
  | inr (c, f) ↦ ground (arith, unvisited-lt others p visited f h)
  | inl f ↦ ground (arith, unvisited-le others p visited, elem_eq a.id p visited)
]

module _ (artifacts : List Artifact) where
  -- The parents that are queued are paid for by the artifacts that they leave unvisited.
  scan-measure :
      (ps visited queue visited' queue' : List String)
      → scan artifacts ps visited queue ≡ onward visited' queue'
      → length queue' + unvisited artifacts visited' ≤ length queue + unvisited artifacts visited
  unfolding scan
  scan-measure [] visited queue visited' queue' h = ground arith
  scan-measure (p ∷ ps) visited queue visited' queue' h = elim (Bool-cases (elem ◌==◌ p visited)) [
    | inl old ↦ scan-measure ps visited queue visited' queue' (rw (old, scan) at h)
    | inr new ↦ elim (Option-cases (artifact_by_id p artifacts)) [
      | inl missing ↦ scan-measure ps visited queue visited' queue' (rw (new, missing, scan) at h)
      | inr (a, e) ↦ ground (
        arith,
        scan-measure ps (p ∷ visited) (queue ++ p ∷ []) visited' queue',
        unvisited-lt artifacts p visited e new,
        length-append queue (p ∷ []),
      )
    ]
  ]

  module _ (parents : String → List String) where
    climb_total :
        (fuel : ℕ) (visited queue : List String)
        → length queue + unvisited artifacts visited < fuel
        → (b : Bool) × (climb artifacts parents fuel visited queue ≡ some b)
    unfolding climb
    climb_total zero visited queue h = absurd (omega arith)
    climb_total (suc fuel) visited [] h = (false, refl)
    climb_total (suc fuel) visited (c ∷ queue) h =
        after (scan artifacts (parents c) visited queue) refl (climb_total fuel)
      where
        after :
            (s : Scan)
            → scan artifacts (parents c) visited queue ≡ s
            → ((v q : List String)
                → length q + unvisited artifacts v < fuel
                → (b : Bool) × (climb artifacts parents fuel v q ≡ some b))
            → (b : Bool) × (climb artifacts parents (suc fuel) visited (c ∷ queue) ≡ some b)
        after found e next = (true, rw (e, climb))
        after (onward visited' queue') e next =
            let (b, f) =
              next visited' queue'
                (omega (arith, scan-measure (parents c) visited queue visited' queue' e)) in
            (b, rw (e, climb) f)

    -- The fuel of `has_report_ancestor` is enough, whatever the links: there are cycles among them
    -- at most where an id was visited before.
    pub has_report_ancestor_total :
        (id : String) → (b : Bool) × (has_report_ancestor artifacts parents id ≡ some b)
    unfolding has_report_ancestor
    has_report_ancestor_total id =
        climb_total (2 + length artifacts) (id ∷ []) (id ∷ [])
          (omega (arith, unvisited-le-length artifacts (id ∷ [])))

-- A run without artifacts has no complete lineage.
pub assert_rule_lineage_complete-none :
    (run_id rule_id : String) (db : Db)
    → run_artifacts run_id db ≡ []
    → assert_rule_lineage_complete run_id rule_id db ≡ err lineage_incomplete
unfolding assert_rule_lineage_complete check_rule_artifacts
assert_rule_lineage_complete-none run_id rule_id db h = rw (h) refl
