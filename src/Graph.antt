-- ===== src/Graph.antt =====
-- EvidenceGraphService of services/evidence_graph.py: nodes and edges of a run, looked for among the flushed rows,
-- and the check of the paths that an export needs. `uuid4` gives the n-th identifier drawn.
pub mod Arcs
pub mod Path
pub mod Upstream
pub mod Export
pub mod Frame
pub mod Upsert
use aicti.Base.{
  ℕ, zero, suc, ◌+◌, ◌*◌, ◌=?◌, String, ◌==◌, Bool, true, false, ◌&&◌, ◌||◌, Option, none, some,
  List, [], ◌∷◌, ◌++◌, any, keep, first, filter_map, length, is_empty, not, Result, ok, err,
  require, ◌>>◌, ◌>>=◌, if◌then◌else◌,
}
use aicti.Value.{Fields}
use aicti.Db.{Db, GraphNode, GraphEdge}
use aicti.Db.Action.{Action}
use aicti.Search.{search}

-- `EvidenceGraphError`: every check raises it with the message "evidence graph path incomplete".
-- `out_of_fuel` is the model's own, and never comes back (module Path).
pub data GraphError : Type 0 where
  path_incomplete out_of_fuel : GraphError

unfoldable pub same_node : String → String → String → String → GraphNode → Bool
same_node run_id node_type ref_table ref_id n =
    n.run_id == run_id
    && (n.node_type == node_type && (n.ref_table == ref_table && n.ref_id == ref_id))

unfoldable pub same_edge : String → String → String → String → GraphEdge → Bool
same_edge run_id source target edge_type e =
    e.run_id == run_id
    && (e.source_node_id == source && (e.target_node_id == target && e.edge_type == edge_type))

-- `row.payload_json = payload_json`, on the row that was selected.
unfoldable pub set_payload : (GraphNode → Bool) → Fields → List GraphNode → List GraphNode
set_payload p payload [] = []
set_payload p payload (n ∷ ns) =
    let rest = set_payload p payload ns in
    if p n then record n { payload = payload } ∷ ns else n ∷ rest

module _ (uuid4 : ℕ → String) where
  unfoldable pub upsert_node :
      {E : Type 0} → String → String → String → String → Fields → Action E String
  upsert_node run_id node_type ref_table ref_id payload db =
      let p = same_node run_id node_type ref_table ref_id in
      elim (first p db.graph_nodes) [
        | some row ↦ (ok row.id, record db { graph_nodes = set_payload p payload db.graph_nodes })
        | none ↦
            let id = uuid4 db.draws in
            let row : GraphNode = record {
              id = id;
              run_id = run_id;
              node_type = node_type;
              ref_table = ref_table;
              ref_id = ref_id;
              payload = payload;
            } in
            (ok id, record db { added_nodes = db.added_nodes ++ row ∷ []; draws = suc db.draws })
      ]

  -- The payload of an edge is never given, so it is the empty one on either branch.
  unfoldable pub add_edge : {E : Type 0} → String → String → String → String → Action E String
  add_edge run_id source target edge_type db =
      elim (first (same_edge run_id source target edge_type) db.graph_edges) [
        | some row ↦ (ok row.id, db)
        | none ↦
            let id = uuid4 db.draws in
            let row : GraphEdge = record {
              id = id;
              run_id = run_id;
              source_node_id = source;
              target_node_id = target;
              edge_type = edge_type;
            } in
            (ok id, record db { added_edges = db.added_edges ++ row ∷ []; draws = suc db.draws })
      ]

-- `db.flush()`, and what a commit does first, for the rows of the graph.
unfoldable pub flush : Db → Db
flush db = record db {
  graph_nodes = db.graph_nodes ++ db.added_nodes;
  graph_edges = db.graph_edges ++ db.added_edges;
  added_nodes = [];
  added_edges = [];
}

-- `nodes_by_id.get(id)`: of nodes with one id the dictionary keeps the last.
unfoldable pub node_by_id : String → List GraphNode → Option GraphNode
node_by_id id [] = none
node_by_id id (n ∷ ns) = elim (node_by_id id ns) [
  | some m ↦ some m
  | none ↦ if n.id == id then some n else none
]

-- An edge of `adjacency[id]`: its type and its target.
pub record Arc : Type 0 where
  pub edge_type : String
  pub target : GraphNode

-- The entry that an edge adds to the list of its source, if both of its ends are nodes of the run.
unfoldable pub arc : List GraphNode → GraphEdge → Option Arc
arc nodes e = elim (node_by_id e.source_node_id nodes) [
  | none ↦ none
  | some source ↦ elim (node_by_id e.target_node_id nodes) [
    | none ↦ none
    | some target ↦ some (record { edge_type = e.edge_type; target = target })
  ]
]

-- What an edge adds to the list of the source with this id.
unfoldable pub arc_from : List GraphNode → String → GraphEdge → Option Arc
arc_from nodes id e = if e.source_node_id == id then arc nodes e else none

-- `adjacency[id]`
unfoldable pub adjacency : List GraphNode → List GraphEdge → String → List Arc
unfolding arc_from
adjacency nodes edges id = filter_map (arc_from nodes id) edges

unfoldable pub leads : String → String → Arc → Bool
leads edge_type node_type a = a.edge_type == edge_type && a.target.node_type == node_type

unfoldable pub target_if : String → String → Arc → Option GraphNode
unfolding leads
target_if edge_type node_type a = if leads edge_type node_type a then some a.target else none

-- The targets of the arcs of one type that lead to nodes of one type.
unfoldable pub targets : String → String → List Arc → List GraphNode
unfolding target_if
targets edge_type node_type arcs = filter_map (target_if edge_type node_type) arcs

-- A state of the upstream search: a node's id and the number of hops to it.
pub record State : Type 0 where
  pub node_id : String
  pub hop : ℕ

unfoldable pub same_state : State → State → Bool
same_state a b = a.node_id == b.node_id && a.hop =? b.hop

-- `required_hops`
abbrev pub required_hop : ℕ → Option (String × String)
required_hop zero = some ("derived_from", "evidence_quote")
required_hop (suc zero) = some ("supports", "detection_spec")
required_hop (suc (suc zero)) = some ("derived_from", "generated_rule")
required_hop (suc (suc (suc h))) = none

unfoldable pub states : ℕ → List GraphNode → List State
states hop [] = []
states hop (n ∷ ns) = record { node_id = n.id; hop = hop } ∷ states hop ns

module _ (nodes : List GraphNode) (edges : List GraphEdge) where
  unfoldable pub expand : State → List State
  expand s = elim (required_hop s.hop) [
    | none ↦ []
    | some (edge_type, node_type) ↦
        states (suc s.hop) (targets edge_type node_type (adjacency nodes edges s.node_id))
  ]

  unfoldable pub is_rule : String → State → Bool
  is_rule rule_node_id s = s.hop =? 3 && s.node_id == rule_node_id

  -- Enough for every graph with this number of edges (module Path).
  abbrev pub fuel : ℕ
  fuel = let k = length edges in 2 + k * (1 + k * (1 + k * 1))

  from_report : String → GraphNode → Option Bool
  from_report rule_node_id n =
      search same_state (is_rule rule_node_id) expand fuel (record { node_id = n.id; hop = 0 })

  -- The loop over the report nodes, which returns at the first that reaches the rule.
  from_reports : String → List GraphNode → Option Bool
  from_reports rule_node_id [] = some false
  from_reports rule_node_id (n ∷ ns) = elim (from_report rule_node_id n) [
    | none ↦ none
    | some true ↦ some true
    | some false ↦ from_reports rule_node_id ns
  ]

  unfoldable pub has_required_upstream_path : String → Option Bool
  unfolding from_reports from_report
  has_required_upstream_path rule_node_id =
      from_reports rule_node_id (keep (λ n. n.node_type == "report") nodes)

  -- What the last check makes of the search's answer.
  upstream_checked : Option Bool → Result GraphError (Unit {0})
  upstream_checked none = err out_of_fuel
  upstream_checked (some true) = ok tt
  upstream_checked (some false) = err path_incomplete

  -- The checks that follow the choice of the rule's node.
  unfoldable pub check_rule_node : Option GraphNode → Result GraphError (Unit {0})
  unfolding upstream_checked
  check_rule_node none = err path_incomplete
  check_rule_node (some rule_node) =
      let arcs = adjacency nodes edges rule_node.id in
      let validation_nodes = targets "validated_by" "validation_result" arcs in
      require (any (leads "validated_by" "review_decision") arcs) path_incomplete
      >> require (not (is_empty validation_nodes)) path_incomplete
      >> require
          (any (λ v. any (leads "satisfies" "proof_obligation") (adjacency nodes edges v.id))
            validation_nodes)
          path_incomplete
      >> upstream_checked (has_required_upstream_path rule_node.id)

unfoldable pub is_rule_node : String → GraphNode → Bool
is_rule_node rule_id n =
    n.node_type == "generated_rule" && (n.ref_table == "generated_rules" && n.ref_id == rule_id)

abbrev pub run_nodes : String → Db → List GraphNode
run_nodes run_id db = keep (λ n. n.run_id == run_id) db.graph_nodes

abbrev pub run_edges : String → Db → List GraphEdge
run_edges run_id db = keep (λ e. e.run_id == run_id) db.graph_edges

unfoldable pub assert_export_path_complete : String → String → Db → Result GraphError (Unit {0})
unfolding check_rule_node
assert_export_path_complete run_id rule_id db =
    let nodes = run_nodes run_id db in
    check_rule_node nodes (run_edges run_id db) (first (is_rule_node rule_id) nodes)
