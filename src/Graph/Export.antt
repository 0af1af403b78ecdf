-- ===== src/Graph/Export.antt =====
-- `assert_export_path_complete` against the paths that an export rests on.
use mathlib.Core.List.{Memᴰ}
use aicti.Base.{
  String, ◌≡◌, refl, sym, subst, ◌↔◌, Bool, true, false, not, Option, none, some, List, [], ◌∷◌,
  any, first, is_empty, any-mem, mem-any, filter_map-mem, mem-filter_map, arith, Result, ok, err,
  require, ◌>>◌,
}
use aicti.Db.{Db, GraphNode, GraphEdge}
use aicti.Graph.{
  GraphError, path_incomplete, Arc, adjacency, leads, target_if, targets,
  has_required_upstream_path, upstream_checked, check_rule_node, is_rule_node, run_nodes, run_edges,
  assert_export_path_complete,
}
use aicti.Graph.Arcs.{Hop, Hop-of_mem, mem-of_Hop}
use aicti.Graph.Path.{UpstreamPath}
use aicti.Graph.Upstream.{has_required_upstream_path_iff}

-- What an export needs of the graph, around the rule's own node.
pub record ExportPath (nodes : List GraphNode) (edges : List GraphEdge) (rule : GraphNode)
    : Type 0 where
  pub decision : GraphNode
  pub reviewed : Hop nodes edges "validated_by" "review_decision" rule.id decision
  pub result : GraphNode
  pub validated : Hop nodes edges "validated_by" "validation_result" rule.id result
  pub obligation : GraphNode
  pub proven : Hop nodes edges "satisfies" "proof_obligation" result.id obligation
  pub upstream : UpstreamPath nodes edges rule.id

module _ (nodes : List GraphNode) (edges : List GraphEdge) where
  Hop-of_leads :
      (edge_type node_type id : String)
      → any (leads edge_type node_type) (adjacency nodes edges id) ≡ true
      → (n : GraphNode) × Hop nodes edges edge_type node_type id n
  Hop-of_leads edge_type node_type id h =
      let (a, m, e) = any-mem (leads edge_type node_type) (adjacency nodes edges id) h in
      (
        a.target,
        Hop-of_mem nodes edges edge_type node_type id a.target (
            unfold targets target_if in
            mem-filter_map (target_if edge_type node_type) (adjacency nodes edges id) m (rw e)),
      )

  leads-Hop :
      (edge_type node_type id : String) (n : GraphNode)
      → Hop nodes edges edge_type node_type id n
      → any (leads edge_type node_type) (adjacency nodes edges id) ≡ true
  unfolding targets
  leads-Hop edge_type node_type id n h =
      let (a, m, e) =
        filter_map-mem (target_if edge_type node_type) (adjacency nodes edges id) n
          (mem-of_Hop nodes edges edge_type node_type id n h) in
      mem-any (leads edge_type node_type) (adjacency nodes edges id) m (led a e)
    where
      led :
          (a : Arc) → target_if edge_type node_type a ≡ some n → leads edge_type node_type a ≡ true
      led a e = unfold target_if in ground arith

  not-empty : {x : GraphNode} (xs : List GraphNode) → Memᴰ x xs → not (is_empty xs) ≡ true
  not-empty [] m = elim m [ ]
  not-empty (y ∷ ys) m = refl

chain_ok :
    (a b c : Bool) (m : Result GraphError (Unit {0}))
    → (require a path_incomplete >> require b path_incomplete >> require c path_incomplete >> m)
      ≡ ok tt
    → (a ≡ true) × (b ≡ true) × (c ≡ true) × (m ≡ ok tt)
chain_ok true true true m h = (refl, refl, refl, h)
chain_ok true true false m h = cc
chain_ok true false c m h = cc
chain_ok false b c m h = cc

module _ (nodes : List GraphNode) (edges : List GraphEdge) (rule : GraphNode) where
  proves : GraphNode → Bool
  proves v = any (leads "satisfies" "proof_obligation") (adjacency nodes edges v.id)

  results : List GraphNode
  results = targets "validated_by" "validation_result" (adjacency nodes edges rule.id)

  path_of_checks : check_rule_node nodes edges (some rule) ≡ ok tt → ExportPath nodes edges rule
  unfolding check_rule_node proves results
  path_of_checks h =
      let up = has_required_upstream_path nodes edges rule.id in
      let (reviewed, some_result, proven, upstream) =
        chain_ok (any (leads "validated_by" "review_decision") (adjacency nodes edges rule.id))
          (not (is_empty results)) (any proves results) (upstream_checked nodes edges up) h in
      let (d, d_hop) = Hop-of_leads nodes edges "validated_by" "review_decision" rule.id reviewed in
      let (v, v_among, v_proven) = any-mem proves results proven in
      let (o, o_hop) = Hop-of_leads nodes edges "satisfies" "proof_obligation" v.id v_proven in
      record {
        decision = d;
        reviewed = d_hop;
        result = v;
        validated = Hop-of_mem nodes edges "validated_by" "validation_result" rule.id v v_among;
        obligation = o;
        proven = o_hop;
        upstream = (has_required_upstream_path_iff nodes edges rule.id).1.0 (answered up upstream);
      }
    where
      answered : (o : Option Bool) → upstream_checked nodes edges o ≡ ok tt → o ≡ some true
      answered o e = unfold upstream_checked in ground arith

  checks_of_path : ExportPath nodes edges rule → check_rule_node nodes edges (some rule) ≡ ok tt
  unfolding check_rule_node proves results
  checks_of_path p =
      let v =
        mem-of_Hop nodes edges "validated_by" "validation_result" rule.id p.result p.validated in
      rw (
        leads-Hop nodes edges "validated_by" "review_decision" rule.id p.decision p.reviewed,
        not-empty nodes edges results v,
        mem-any proves results v (
            leads-Hop nodes edges "satisfies" "proof_obligation" p.result.id p.obligation p.proven),
        (has_required_upstream_path_iff nodes edges rule.id).1.1 p.upstream,
      )

chain_err :
    (a b c : Bool) (m : Result GraphError (Unit {0})) (e : GraphError)
    → (m ≡ err e → e ≡ path_incomplete)
    → (require a path_incomplete >> require b path_incomplete >> require c path_incomplete >> m)
      ≡ err e
    → e ≡ path_incomplete
chain_err true true true m e last h = last h
chain_err true true false m e last h = cc
chain_err true false c m e last h = cc
chain_err false b c m e last h = cc

check_rule_node_error :
    (nodes : List GraphNode) (edges : List GraphEdge) (o : Option GraphNode) (e : GraphError)
    → check_rule_node nodes edges o ≡ err e
    → e ≡ path_incomplete
unfolding check_rule_node upstream_checked
check_rule_node_error nodes edges none e h = cc
check_rule_node_error nodes edges (some rule) e h =
    let (b, answer) = (has_required_upstream_path_iff nodes edges rule.id).0 in
    chain_err (any (leads "validated_by" "review_decision") (adjacency nodes edges rule.id)) _ _
      (upstream_checked nodes edges (has_required_upstream_path nodes edges rule.id)) e
      (λ k. ground (arith, answer)) h

module _ (run_id rule_id : String) (db : Db) where
  -- The check passes exactly when a node stands for the rule, and from the first such node there
  -- are, among the nodes and edges of the run, a review decision, a validation result that
  -- satisfies a proof obligation, and a path back over the specification and a quote to a report.
  pub assert_export_path_complete_iff : (assert_export_path_complete run_id rule_id db ≡ ok tt) ↔ (
      (rule : GraphNode) × (first (is_rule_node rule_id) (run_nodes run_id db) ≡ some rule)
      × ExportPath (run_nodes run_id db) (run_edges run_id db) rule)
  unfolding assert_export_path_complete
  assert_export_path_complete_iff = (
    onto (first (is_rule_node rule_id) nodes) refl,
    λ t.
        subst (λ o. check_rule_node nodes edges o ≡ ok tt) (sym t.1)
          (checks_of_path nodes edges t.0 t.2),
  )
    where
      nodes : List GraphNode
      nodes = run_nodes run_id db

      edges : List GraphEdge
      edges = run_edges run_id db

      onto :
          (o : Option GraphNode)
          → first (is_rule_node rule_id) nodes ≡ o
          → check_rule_node nodes edges o ≡ ok tt
          → (rule : GraphNode) × (first (is_rule_node rule_id) nodes ≡ some rule)
            × ExportPath nodes edges rule
      onto none e h = cc
      onto (some rule) e h = (rule, e, path_of_checks nodes edges rule h)

  -- Every failed check raises the service's one error: the model's own `out_of_fuel` never comes.
  assert_export_path_complete_error :
      (e : GraphError) → assert_export_path_complete run_id rule_id db ≡ err e → e ≡ path_incomplete
  unfolding assert_export_path_complete
  assert_export_path_complete_error e =
      check_rule_node_error (run_nodes run_id db) (run_edges run_id db)
        (first (is_rule_node rule_id) (run_nodes run_id db)) e
