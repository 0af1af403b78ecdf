-- ===== src/Lineage.antt =====
-- services/artifact_lineage.py: whether an artifact of a rule descends from a report of its run.
pub mod Total
pub mod Ancestry
pub mod Store
use aicti.Base.{
  ℕ, zero, suc, ◌+◌, String, ◌==◌, Bool, true, false, ◌&&◌, not, Option, none, some, List, [], ◌∷◌,
  ◌++◌, any, keep, first, filter_map, is_empty, elem, length, Result, ok, err, if◌then◌else◌,
}
use aicti.Value.{get, is_text}
use aicti.Db.{Db, Artifact, ArtifactLink}

-- `ArtifactLineageError`; `out_of_fuel` is the model's own, and never comes back (module Total).
pub data LineageError : Type 0 where
  lineage_incomplete out_of_fuel : LineageError

-- `artifacts_by_id.get(id)`: of artifacts with one id the dictionary keeps the last.
unfoldable pub artifact_by_id : String → List Artifact → Option Artifact
artifact_by_id id [] = none
artifact_by_id id (a ∷ others) = elim (artifact_by_id id others) [
  | some b ↦ some b
  | none ↦ if a.id == id then some a else none
]

-- What the inner loop leaves behind: a report was found, or the visited ids and the queue.
pub data Scan : Type 0 where
  found : Scan
  onward : List String → List String → Scan

module _ (artifacts : List Artifact) where
  -- What the loop over the parents does with one that was not visited.
  consider :
      Option Artifact
      → String
      → List String
      → List String
      → (List String → List String → Scan)
      → Scan
  consider none p visited queue rest = rest visited queue
  consider (some a) p visited queue rest = elim (a.kind == "report") [
    | true ↦ found
    | false ↦ rest (p ∷ visited) (queue ++ p ∷ [])
  ]

  -- The loop over the parents of the current artifact.
  unfoldable pub scan : List String → List String → List String → Scan
  unfolding consider
  scan [] visited queue = onward visited queue
  scan (p ∷ ps) visited queue = elim (elem ◌==◌ p visited) [
    | true ↦ scan ps visited queue
    | false ↦ consider (artifact_by_id p artifacts) p visited queue (scan ps)
  ]

  module _ (parents : String → List String) where
    -- `while queue`, on fuel: `none` means that the fuel ran out.
    pub climb : ℕ → List String → List String → Option Bool
    climb zero visited queue = none
    climb (suc fuel) visited [] = some false
    climb (suc fuel) visited (current ∷ queue) = elim (scan (parents current) visited queue) [
      | found ↦ some true
      | onward visited' queue' ↦ climb fuel visited' queue'
    ]

    unfoldable pub has_report_ancestor : String → Option Bool
    unfolding climb
    has_report_ancestor artifact_id =
        climb (2 + length artifacts) (artifact_id ∷ []) (artifact_id ∷ [])

    -- `any(...)` over the artifacts of the rule.
    pub any_report_ancestor : List Artifact → Option Bool
    any_report_ancestor [] = some false
    any_report_ancestor (a ∷ others) = elim (has_report_ancestor a.id) [
      | none ↦ none
      | some true ↦ some true
      | some false ↦ any_report_ancestor others
    ]

unfoldable pub is_rule_artifact : String → Artifact → Bool
is_rule_artifact rule_id a = a.kind == "generated_rule" && is_text (get "rule_id" a.payload) rule_id

has_id : List Artifact → String → Bool
has_id artifacts id = any (λ a. a.id == id) artifacts

-- The links between artifacts of the run.
unfoldable pub is_inner_link : List Artifact → ArtifactLink → Bool
unfolding has_id
is_inner_link artifacts l =
    has_id artifacts l.parent_artifact_id
    && (has_id artifacts l.child_artifact_id && l.link_type == "derived_from")

-- `parents_by_child.get(id, [])`
unfoldable pub parents_by_child : List ArtifactLink → String → List String
parents_by_child links id =
    filter_map (λ l. if l.child_artifact_id == id then some l.parent_artifact_id else none) links

abbrev pub run_artifacts : String → Db → List Artifact
run_artifacts run_id db = keep (λ a. a.run_id == run_id) db.artifacts

lineage_checked : Option Bool → Result LineageError (Unit {0})
lineage_checked none = err out_of_fuel
lineage_checked (some true) = ok tt
lineage_checked (some false) = err lineage_incomplete

check_rule_artifacts :
    List Artifact → (String → List String) → List Artifact → Result LineageError (Unit {0})
unfolding lineage_checked any_report_ancestor
check_rule_artifacts artifacts parents [] = err lineage_incomplete
check_rule_artifacts artifacts parents (a ∷ others) =
    lineage_checked (any_report_ancestor artifacts parents (a ∷ others))

unfoldable pub assert_rule_lineage_complete : String → String → Db → Result LineageError (Unit {0})
unfolding check_rule_artifacts
assert_rule_lineage_complete run_id rule_id db =
    let artifacts = run_artifacts run_id db in
    let links = keep (is_inner_link artifacts) db.artifact_links in
    check_rule_artifacts artifacts (parents_by_child links)
      (keep (is_rule_artifact rule_id) artifacts)
